-- ===== src/Auth/Service.antt =====
-- src/package/auth/service.rs: `impl Auth for AuthService`, the whole of every operation but its log
-- lines.
pub mod Hashing
pub mod Resets
pub mod SignIn
pub mod Register
pub mod Live
use schema_forge_backend.Base.{
  ℕ, ◌+◌, ◌*◌, ltb, is_empty, Bool, true, false, ◌||◌, if◌then◌else◌, [], ◌∷◌, ◌++◌, Option, none,
  some, is_some, Result, ok, err, ok_or, Action, pure, fail, settled, failing, ◌>>=◌, ◌>>◌,
}
use schema_forge_backend.Text.{Text, lit}
use schema_forge_backend.Text.Trim.{trim}
use schema_forge_backend.Text.Case.{Unicode}
use schema_forge_backend.Domain.Schema.{SchemaDraft}
use schema_forge_backend.Errdef.Error.{
  Error, unauthorized, bad_request, not_found, conflict, unknown,
}
use schema_forge_backend.Auth.Account.{
  Identity, AuthenticationTokens, Registration, PasswordReset, GoogleAccount, clean_email,
  split_name, sign_up_roles,
}
use schema_forge_backend.Auth.Outside.{Outside}
use schema_forge_backend.Auth.Crypto.{
  hash_password, compare_hash_and_password, random_token, hash_token,
}
use schema_forge_backend.Auth.Tables.{
  World, within, drawn, find_user_by_email, create_user, create_password_reset,
  reset_password as overwrite_password, find_password_by_token, delete_password_reset,
}
use schema_forge_backend.Auth.Tokens.{Lifetimes, generate_tokens, user_id_from, second}
use schema_forge_backend.Auth.Steps.{
  known, creation_error, email_taken, check_registration, seed, follow_google_profile,
  require_user_by_id, create_google_user,
}

unfoldable pub invalid_credentials : Text
unfolding lit
invalid_credentials = lit "invalid username or password"

unfoldable pub invalid_or_expired : Text
unfolding lit
invalid_or_expired = lit "invalid or expired token"

abbrev pub is_err : {A E : Type 0} → Result A E → Bool
is_err (ok a) = false
is_err (err e) = true

abbrev pub reset_ttl : ℕ
reset_ttl = 15 * 60 * second

module _ {W : Type 0} (u : Unicode) (o : Outside W) (sample : SchemaDraft) (ttl : Lifetimes) where
  -- Whether the password is not the one of the account, which may have none.
  unfoldable pub is_refused : Identity → Text → Bool
  unfolding compare_hash_and_password
  is_refused user password =
      is_empty user.password || is_err (compare_hash_and_password o user.password password)

  unfoldable pub generate_token :
      (email password : Text) → Action (World W) Error AuthenticationTokens
  unfolding known is_refused unauthorized invalid_credentials
  generate_token email password = do
    found ← known (find_user_by_email o email)
    user ← settled (ok_or (unauthorized invalid_credentials) found)
    if is_refused user password
        then fail (unauthorized invalid_credentials)
        else within (generate_tokens o ttl user)

  unfoldable pub cleaned : Registration → Registration
  unfolding trim clean_email
  cleaned r = record { name = trim r.name; email = clean_email u r.email; password = r.password }

  unfoldable pub enrol : Registration → Action (World W) Error AuthenticationTokens
  unfolding split_name creation_error
  enrol r =
      let (first, last) = split_name r.name in
      do
        hashed ← within (hash_password o r.password)
        user_id ← failing creation_error (
            create_user o (record {
              email = r.email;
              user_name = r.email;
              first_name = first;
              last_name = last;
              avatar_url = none;
              password = hashed;
              roles = sign_up_roles;
            }))
        seed o sample user_id
        user ← require_user_by_id o sample user_id
        within (generate_tokens o ttl user)

  unfoldable pub register : Registration → Action (World W) Error AuthenticationTokens
  unfolding cleaned enrol known check_registration conflict email_taken
  register registration = do
    settled (check_registration o.validate_email (cleaned registration))
    found ← known (find_user_by_email o (cleaned registration).email)
    if is_some found then fail (conflict email_taken) else enrol (cleaned registration)

  unfoldable pub refresh_token : Text → Action (World W) Error AuthenticationTokens
  refresh_token token = do
    user_id ← within (user_id_from o token)
    user ← require_user_by_id o sample user_id
    within (generate_tokens o ttl user)

  unfoldable pub google_login_url : Text → Text
  google_login_url state = o.consent_url state

  unfoldable pub user_for : Text → GoogleAccount → Option Identity → Action (World W) Error Identity
  user_for email account (some user) = do follow_google_profile o sample user account; pure user
  user_for email account none = create_google_user o sample email account

  unfoldable pub sign_in : GoogleAccount → Action (World W) Error AuthenticationTokens
  unfolding user_for clean_email known
  sign_in account = do
    found ← known (find_user_by_email o (clean_email u account.email))
    user ← user_for (clean_email u account.email) account found
    within (generate_tokens o ttl user)

  unfoldable pub login_with_google : Text → Action (World W) Error AuthenticationTokens
  unfolding sign_in unauthorized lit
  login_with_google code = do
    account ← within (o.account_for code)
    if account.email_verified
        then sign_in account
        else fail (unauthorized (lit "the google account has no verified email address"))

  unfoldable pub get_identity : Text → Action (World W) Error Identity
  get_identity token = do
    user_id ← within (user_id_from o token)
    require_user_by_id o sample user_id

  unfoldable pub password_recovery : (email callback_uri : Text) → Action (World W) Error (Unit {0})
  unfolding known not_found unknown lit hash_token random_token
  password_recovery email callback_uri = do
    found ← known (find_user_by_email o email)
    user ← settled (ok_or (not_found (lit "invalid email address")) found)
    known (delete_password_reset o email)
    token ← drawn (random_token o)
    known (create_password_reset o email (hash_token o token))
    failing unknown (
        within (
          o.send_html user.email (lit "Password Recovery") (lit "password-reset")
            ((lit "username", user.user_name) ∷ (lit "callbackURI", callback_uri ++ token) ∷ [])))

  unfoldable pub overwrite : PasswordReset → Text → Action (World W) Error (Unit {0})
  unfolding known hash_password
  overwrite reset new_password = do
    hashed ← within (hash_password o new_password)
    known (overwrite_password o reset.email hashed)
    known (delete_password_reset o reset.email)

  unfoldable pub renew : PasswordReset → Text → Action (World W) Error (Unit {0})
  unfolding overwrite bad_request invalid_or_expired
  renew reset new_password = do
    now ← drawn o.now
    if ltb (reset.created_at + reset_ttl) now
        then fail (bad_request invalid_or_expired)
        else overwrite reset new_password

  unfoldable pub reset_password : (token new_password : Text) → Action (World W) Error (Unit {0})
  unfolding renew known bad_request invalid_or_expired
  reset_password token new_password = do
    found ← known (find_password_by_token o (hash_token o token))
    reset ← settled (ok_or (bad_request invalid_or_expired) found)
    renew reset new_password
