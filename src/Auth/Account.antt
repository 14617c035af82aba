-- ===== src/Auth/Account.antt =====
-- src/package/auth/domain.rs, `GoogleAccount` of google.rs, and the functions of service.rs that
-- clean what a person typed. A `Uuid` is its 128-bit value, an instant a number of microseconds.
use schema_forge_backend.Base.{
  ℕ, Bool, ◌==◌, nat_eq, if◌then◌else◌, List, [], ◌∷◌, ◌++◌, Option, none, some,
}
use schema_forge_backend.Text.{Text, lit}
use schema_forge_backend.Text.Trim.{trim}
use schema_forge_backend.Text.Case.{Unicode}

abbrev pub Uuid : Type 0
Uuid = ℕ

abbrev pub Instant : Type 0
Instant = ℕ

pub record Identity : Type 0 where
  pub id : Uuid
  pub email : Text
  pub user_name : Text
  pub first_name : Text
  pub last_name : Text
  pub avatar_url : Option Text
  pub password : Text
  pub roles : List Text

pub record AuthenticationTokens : Type 0 where
  pub token : Text
  pub refresh_token : Text

pub record Registration : Type 0 where
  pub name : Text
  pub email : Text
  pub password : Text

pub record NewUser : Type 0 where
  pub email : Text
  pub user_name : Text
  pub first_name : Text
  pub last_name : Text
  pub avatar_url : Option Text
  pub password : Text
  pub roles : List Text

pub record PasswordReset : Type 0 where
  pub email : Text
  pub token : Text
  pub created_at : Instant

pub record GoogleAccount : Type 0 where
  pub email : Text
  pub email_verified : Bool
  pub name : Text
  pub picture : Option Text

unfoldable pub display_name : Identity → Text
unfolding trim
display_name user = trim (trim user.first_name ++ b' ' ∷ trim user.last_name)

unfoldable pub sign_up_roles : List Text
unfolding lit
sign_up_roles = lit "Developer" ∷ []

unfoldable pub clean_email : Unicode → Text → Text
unfolding trim
clean_email u email = u.to_lowercase (trim email)

before_space : ℕ → Option (Text × Text) → Option (Text × Text)
before_space c none = none
before_space c (some (first, last)) = some (c ∷ first, last)

-- `split_once(' ')`
unfoldable pub split_space : Text → Option (Text × Text)
unfolding before_space
split_space [] = none
split_space (c ∷ text) =
    let rest = split_space text in if c == b' ' then some ([], text) else before_space c rest

first_and_last : Text → Option (Text × Text) → Text × Text
unfolding trim
first_and_last name none = (trim name, [])
first_and_last name (some (first, last)) = (first, trim last)

unfoldable pub split_name : Text → Text × Text
unfolding first_and_last split_space trim
split_name name = first_and_last name (split_space (trim name))
