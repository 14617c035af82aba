-- ===== src/Auth/Tables.antt =====
-- src/package/auth/store.rs: each statement on the tables of accounts, which fails as `statement`
-- says. The unique keys are those of the migrations: a user's id, email and user name.
use schema_forge_backend.Base.{
  ℕ, Bool, ◌||◌, ◌==◌, list_eq, nat_eq, if◌then◌else◌, not, any, find, filter, map, flat_map, List,
  [], ◌∷◌, ◌++◌, Option, none, some, Action, pure, fail, ◌>>=◌, ◌>>◌,
}
unfoldable pub use schema_forge_backend.Base.{within, drawn, tables_of, write}
use schema_forge_backend.Text.{Text}
use schema_forge_backend.Auth.Account.{Uuid, Identity, NewUser, PasswordReset}
use schema_forge_backend.Auth.Outside.{Outside, SqlxError, unique_violation_code}

pub record User : Type 0 where
  pub id : Uuid
  pub email : Text
  pub user_name : Text
  pub first_name : Text
  pub last_name : Text
  pub avatar_url : Option Text
  pub password : Text

-- iam.users, iam.roles by id and name, iam.user_has_roles, and iam.password_resets
pub record Tables : Type 0 where
  pub users : List User
  pub roles : List (ℕ × Text)
  pub user_has_roles : List (Uuid × ℕ)
  pub password_resets : List PasswordReset

-- The state of a call: the tables beside the state of everything else.
abbrev pub World : Type 0 → Type 0
World W = Tables × W

abbrev pub roles_of : Tables → Uuid → List Text
roles_of tables user_id =
    flat_map
      (λ (uhr : Uuid × ℕ).
        if uhr.0 == user_id
        then map (λ (r : ℕ × Text). r.1) (filter (λ (r : ℕ × Text). r.0 == uhr.1) tables.roles)
        else [])
      tables.user_has_roles

abbrev pub identity_of : User → List Text → Identity
identity_of row roles = record {
  id = row.id;
  email = row.email;
  user_name = row.user_name;
  first_name = row.first_name;
  last_name = row.last_name;
  avatar_url = row.avatar_url;
  password = row.password;
  roles = roles;
}

abbrev pub row_of : Uuid → NewUser → User
row_of id user = record {
  id = id;
  email = user.email;
  user_name = user.user_name;
  first_name = user.first_name;
  last_name = user.last_name;
  avatar_url = user.avatar_url;
  password = user.password;
}

abbrev pub clashes : User → User → Bool
clashes new row = row.id == new.id || (row.email == new.email || row.user_name == new.user_name)

abbrev pub with_user : User → List Text → Tables → Tables
with_user row names tables = record tables {
  users = row ∷ tables.users;
  user_has_roles =
      map (λ (r : ℕ × Text). (row.id, r.0))
        (filter (λ (r : ℕ × Text). any (λ n. r.1 == n) names) tables.roles)
      ++ tables.user_has_roles;
}

abbrev pub renamed : Uuid → Text → Text → Option Text → User → User
renamed user_id first last url row =
    if row.id == user_id
    then record row { first_name = first; last_name = last; avatar_url = url }
    else row

abbrev pub rekeyed : Text → Text → User → User
rekeyed email new_password row =
    if row.email == email then record row { password = new_password } else row

module _ {W : Type 0} (o : Outside W) where
  abbrev pub statement : Action (World W) SqlxError (Unit {0})
  statement = within o.statement

  unfoldable pub get_user_roles : Uuid → Action (World W) SqlxError (List Text)
  get_user_roles user_id = do statement; tables ← tables_of; pure (roles_of tables user_id)

  unfoldable pub enrich : Option User → Action (World W) SqlxError (Option Identity)
  unfolding get_user_roles
  enrich none = pure none
  enrich (some row) = do roles ← get_user_roles row.id; pure (some (identity_of row roles))

  unfoldable pub find_user_by_id : Uuid → Action (World W) SqlxError (Option Identity)
  unfolding enrich
  find_user_by_id user_id = do
    statement
    tables ← tables_of
    enrich (find (λ row. row.id == user_id) tables.users)

  unfoldable pub find_user_by_email : Text → Action (World W) SqlxError (Option Identity)
  unfolding enrich
  find_user_by_email email = do
    statement
    tables ← tables_of
    enrich (find (λ row. row.email == email) tables.users)

  unfoldable pub taken : SqlxError
  unfolding unique_violation_code
  taken = record { code = some unique_violation_code; text = o.taken_text }

  unfoldable pub insert_user : User → List Text → Action (World W) SqlxError Uuid
  insert_user row names = do statement; statement; write (with_user row names); pure row.id

  -- The transaction: nothing is written before the commit.
  unfoldable pub create_user : NewUser → Action (World W) SqlxError Uuid
  unfolding taken insert_user
  create_user user = do
    statement
    statement
    user_id ← drawn o.new_uuid
    tables ← tables_of
    if any (clashes (row_of user_id user)) tables.users
        then fail taken
        else insert_user (row_of user_id user) user.roles

  unfoldable pub update_profile :
      Uuid → Text → Text → Option Text → Action (World W) SqlxError (Unit {0})
  update_profile user_id first last url = do
    statement
    write (λ tables. record tables { users = map (renamed user_id first last url) tables.users })

  -- `NOW()` is the database's clock.
  unfoldable pub create_password_reset : Text → Text → Action (World W) SqlxError (Unit {0})
  create_password_reset email token = do
    statement
    now ← drawn o.now
    write (λ tables. record tables {
      password_resets =
          record { email = email; token = token; created_at = now } ∷ tables.password_resets;
    })

  unfoldable pub reset_password : Text → Text → Action (World W) SqlxError (Unit {0})
  reset_password email new_password = do
    statement
    write (λ tables. record tables { users = map (rekeyed email new_password) tables.users })

  unfoldable pub find_password_by_token : Text → Action (World W) SqlxError (Option PasswordReset)
  find_password_by_token token = do
    statement
    tables ← tables_of
    pure (find (λ reset. reset.token == token) tables.password_resets)

  unfoldable pub delete_password_reset : Text → Action (World W) SqlxError (Unit {0})
  delete_password_reset email = do
    statement
    write (λ tables. record tables {
      password_resets = filter (λ reset. not (reset.email == email)) tables.password_resets;
    })
