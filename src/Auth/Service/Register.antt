-- ===== src/Auth/Service/Register.antt =====
-- What a registration of src/package/auth/service.rs does to the tables.
use schema_forge_backend.Base.{◌≡◌, false, any, none, ok}
use schema_forge_backend.Text.{Text}
use schema_forge_backend.Text.Case.{Unicode}
use schema_forge_backend.Domain.Schema.{SchemaDraft}
use schema_forge_backend.Auth.Account.{NewUser, Registration, Uuid, sign_up_roles, split_name}
use schema_forge_backend.Auth.Outside.{Outside}
use schema_forge_backend.Auth.Tables.{Tables, clashes, row_of, with_user}
use schema_forge_backend.Auth.Tokens.{Lifetimes}
use schema_forge_backend.Auth.Steps.{check_registration}
use schema_forge_backend.Auth.Service.{cleaned}
use schema_forge_backend.Auth.Service.Hashing.{IsHashOf}

-- The tables with one account more, whose keys were free.
abbrev pub IsAdded : Tables → NewUser → Uuid → Tables → Type 0
IsAdded t user id t' =
    (any (clashes (row_of id user)) t.users ≡ false)
    × (t' ≡ with_user (row_of id user) user.roles t)

module _ {W : Type 0} (u : Unicode) (o : Outside W) (sample : SchemaDraft) (ttl : Lifetimes) where
  -- The account that a registration asks for, with the hash of its password.
  abbrev pub account : Registration → Text → NewUser
  account registration hashed =
      let (first, last) = split_name (cleaned u o sample ttl registration).name in
      record {
        email = (cleaned u o sample ttl registration).email;
        user_name = (cleaned u o sample ttl registration).email;
        first_name = first;
        last_name = last;
        avatar_url = none;
        password = hashed;
        roles = sign_up_roles;
      }

  abbrev pub IsEnrolled : Registration → Tables → Tables → Type 0
  IsEnrolled registration t t' =
      (hashed : Text) × (id : Uuid) × IsHashOf o registration.password hashed
      × (check_registration o.validate_email (cleaned u o sample ttl registration) ≡ ok tt)
      × IsAdded t (account registration hashed) id t'
