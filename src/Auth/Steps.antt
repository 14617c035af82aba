-- ===== src/Auth/Steps.antt =====
-- src/package/auth/service.rs: the functions that its operations are made of. The sample schema of a
-- new account is an argument.
use schema_forge_backend.Base.{
  ℕ, Bool, true, false, ◌&&◌, ◌==◌, list_eq, nat_eq, ltb, length, is_empty, if◌then◌else◌, [],
  Option, none, some, Result, ok, err, ok_or, Action, pure, fail, settled, failing, ◌>>=◌, ◌>>◌,
}
use schema_forge_backend.Text.{Text, lit}
use schema_forge_backend.Text.Trim.{trim}
use schema_forge_backend.Domain.Schema.{SchemaDraft}
use schema_forge_backend.Errdef.Error.{
  Error, unauthorized, unknown, conflict, validation, add_violation,
}
use schema_forge_backend.Auth.Account.{
  Uuid, Identity, Registration, GoogleAccount, sign_up_roles, split_name,
}
use schema_forge_backend.Auth.Outside.{Outside, SqlxError, is_code, unique_violation_code}
use schema_forge_backend.Auth.Tables.{
  World, within, find_user_by_id, find_user_by_email, create_user, update_profile,
}
use schema_forge_backend.Auth.Tokens.{invalid_refresh_token}

unfoldable pub email_taken : Text
unfolding lit
email_taken = lit "an account with this email already exists"

unfoldable pub creation_error : SqlxError → Error
unfolding is_code unique_violation_code conflict unknown email_taken
creation_error e = if is_code e unique_violation_code then conflict email_taken else unknown e.text

same_url : Option Text → Option Text → Bool
same_url none none = true
same_url (some a) (some b) = a == b
same_url _ _ = false

-- Whether the record holds what Google says, which `follow_google_profile` asks first.
unfoldable pub is_current : Identity → GoogleAccount → Bool
unfolding split_name same_url
is_current user account =
    let (first, last) = split_name account.name in
    user.first_name == first && (user.last_name == last && same_url user.avatar_url account.picture)

abbrev pub min_password_length : ℕ
min_password_length = 8

unfoldable pub check_registration : (Text → Bool) → Registration → Result (Unit {0}) Error
unfolding trim lit validation add_violation
check_registration validate_email registration =
    if is_empty (trim registration.name)
    then err (
        add_violation (validation (lit "name is required")) (lit "name")
          (lit "field is required and cannot be empty"))
    else if validate_email registration.email
    then (if ltb (length registration.password) min_password_length
        then err (
            add_violation (validation (lit "password must be at least 8 characters"))
              (lit "password") (lit "field must be a minimum length of 8"))
        else ok tt)
    else err (
        add_violation (validation (lit "email is not a valid address")) (lit "email")
          (lit "field must be of email format"))

-- `map_err(Error::unknown)`
unfoldable pub known : {S A : Type 0} → Action S SqlxError A → Action S Error A
unfolding unknown
known m = failing (λ e. unknown e.text) m

-- The action in its result, with its error left to the caller.
unfoldable pub tried : {S E F A : Type 0} → Action S E A → Action S F (Result A E)
tried m s = let (r, s') = m s in (ok r, s')

module _ {W : Type 0} (o : Outside W) (sample : SchemaDraft) where
  unfoldable pub seed : Uuid → Action (World W) Error (Unit {0})
  seed user_id = do within (o.create_schema user_id sample); pure tt

  unfoldable pub follow_google_profile :
      Identity → GoogleAccount → Action (World W) Error (Unit {0})
  unfolding is_current known
  follow_google_profile user account =
      let (first, last) = split_name account.name in
      if is_current user account
      then pure tt
      else known (update_profile o user.id first last account.picture)

  unfoldable pub require_user_by_id : Uuid → Action (World W) Error Identity
  unfolding known unauthorized invalid_refresh_token
  require_user_by_id user_id = do
    found ← known (find_user_by_id o user_id)
    settled (ok_or (unauthorized invalid_refresh_token) found)

  -- The row that the insertion lost to is the account to sign in.
  unfoldable pub adopt : Text → GoogleAccount → SqlxError → Action (World W) Error Identity
  unfolding known follow_google_profile unknown
  adopt email account e = do
    found ← known (find_user_by_email o email)
    user ← settled (ok_or (unknown e.text) found)
    follow_google_profile user account
    pure user

  -- What `create_google_user` does with the answer of the insertion.
  unfoldable pub after_insertion :
      Text → GoogleAccount → Result Uuid SqlxError → Action (World W) Error Identity
  unfolding seed require_user_by_id adopt is_code unknown
  after_insertion email account (ok user_id) = do seed user_id; require_user_by_id user_id
  after_insertion email account (err e) =
      if is_code e unique_violation_code then adopt email account e else fail (unknown e.text)

  unfoldable pub create_google_user : Text → GoogleAccount → Action (World W) Error Identity
  unfolding after_insertion split_name
  create_google_user email account =
      let (first, last) = split_name account.name in
      tried (
        create_user o (record {
          email = email;
          user_name = email;
          first_name = first;
          last_name = last;
          avatar_url = account.picture;
          password = [];
          roles = sign_up_roles;
        }))
      >>= after_insertion email account
