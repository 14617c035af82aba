-- ===== src/Auth/Sound/Service.antt =====
-- No sequence of calls, whatever fails on the way, breaks the keys of the tables or leaves two resets
-- for one address.
use schema_forge_backend.Base.{
  ◌+◌, ltb, List, [], ◌∷◌, Option, none, some, is_some, Result, ok, err,
}
use schema_forge_backend.Text.{Text}
use schema_forge_backend.Text.Case.{Unicode}
use schema_forge_backend.Domain.Schema.{SchemaDraft}
use schema_forge_backend.Errdef.Error.{Error}
use schema_forge_backend.Auth.Account.{Identity, GoogleAccount, Registration, PasswordReset}
use schema_forge_backend.Auth.Outside.{Outside}
use schema_forge_backend.Auth.Tables.{Tables, World}
use schema_forge_backend.Auth.Tokens.{Lifetimes}
use schema_forge_backend.Auth.Steps.{known}
use schema_forge_backend.Auth.Service.{
  generate_token, register, enrol, refresh_token, login_with_google, sign_in, user_for,
  get_identity, password_recovery, reset_password, renew, overwrite, is_refused, reset_ttl,
}
use schema_forge_backend.Auth.Triples.{
  Post, Ends-fail, Ends-if, Ends-bind, Ends-reads, Ends-failing, Ends-drawn, Ends-within_bind,
  Reads-Ends, reads_rules,
}
use schema_forge_backend.Auth.Sound.{IsSound}
use schema_forge_backend.Auth.Sound.Statements.{
  Sound, create_user-Sound, reset_password-Sound, delete_password_reset-IsFree,
  create_password_reset-Sound, delete_password_reset-Sound,
}
use schema_forge_backend.Auth.Requests.{
  Request, signing_in, registering, refreshing, google, identifying, recovering, resetting, serve,
  run,
}
use schema_forge_backend.Auth.Sound.Steps.{
  found_rules, within-Sound, seed-Reads, require_user_by_id-Reads, followed-Sound,
  create_google_user-Sound,
}

module _ {W : Type 0} (u : Unicode) (o : Outside W) (sample : SchemaDraft) (ttl : Lifetimes) where
  user_for-Sound :
      (email : Text) (account : GoogleAccount) (found : Option Identity) (t : Tables)
      → IsSound t
      → Sound t (user_for u o sample ttl email account found)
  unfolding user_for
  user_for-Sound email account none t h = create_google_user-Sound o sample email account t h
  user_for-Sound email account (some user) t h = followed-Sound o sample user account t h

  sign_in-Sound :
      (account : GoogleAccount) (t : Tables) → IsSound t → Sound t (sign_in u o sample ttl account)
  unfolding sign_in known
  sign_in-Sound account t h = Ends-reads _ _ (search found_rules) h (λ found.
      Ends-bind _ _ (user_for-Sound _ account found t h)
        (λ user t' h'. within-Sound o sample _ t' h'))

  enrol-Sound : (r : Registration) (t : Tables) → IsSound t → Sound t (enrol u o sample ttl r)
  unfolding enrol
  enrol-Sound r t h = Ends-within_bind _ _ h (λ hashed.
      Ends-bind _ _ (Ends-failing _ _ (create_user-Sound o _ t h)) (λ user_id t' h'.
        Ends-reads _ _ (seed-Reads o sample user_id) h' (λ _.
          Ends-reads _ _ (require_user_by_id-Reads o sample user_id) h'
            (λ user. within-Sound o sample _ t' h'))))

  register-Sound : (r : Registration) (t : Tables) → IsSound t → Sound t (register u o sample ttl r)
  unfolding register known
  register-Sound r t h = Ends-reads _ _ (search reads_rules) h (λ _.
      Ends-reads _ _ (search found_rules) h
        (λ found. Ends-if (is_some found) _ _ (λ _. Ends-fail _ h) (λ _. enrol-Sound _ t h)))

  generate_token-Sound :
      (email password : Text) (t : Tables)
      → IsSound t
      → Sound t (generate_token u o sample ttl email password)
  unfolding generate_token known
  generate_token-Sound email password t h = Ends-reads _ _ (search found_rules) h (λ found.
      Ends-reads _ _ (search reads_rules) h (λ user.
        Ends-if (is_refused u o sample ttl user password) _ _ (λ _. Ends-fail _ h)
          (λ _. within-Sound o sample _ t h)))

  login_with_google-Sound :
      (code : Text) (t : Tables) → IsSound t → Sound t (login_with_google u o sample ttl code)
  unfolding login_with_google
  login_with_google-Sound code t h = Ends-within_bind _ _ h (λ account.
      Ends-if account.email_verified _ _ (λ _. sign_in-Sound account t h) (λ _. Ends-fail _ h))

  get_identity-Sound :
      (token : Text) (t : Tables) → IsSound t → Sound t (get_identity u o sample ttl token)
  unfolding get_identity
  get_identity-Sound token t h =
      Ends-within_bind _ _ h
        (λ user_id. Reads-Ends _ t h (require_user_by_id-Reads o sample user_id))

  refresh_token-Sound :
      (token : Text) (t : Tables) → IsSound t → Sound t (refresh_token u o sample ttl token)
  unfolding refresh_token
  refresh_token-Sound token t h = Ends-within_bind _ _ h (λ user_id.
      Ends-reads _ _ (require_user_by_id-Reads o sample user_id) h
        (λ user. within-Sound o sample _ t h))

  password_recovery-Sound :
      (email callback_uri : Text) (t : Tables)
      → IsSound t
      → Sound t (password_recovery u o sample ttl email callback_uri)
  unfolding password_recovery known
  password_recovery-Sound email callback_uri t h = Ends-reads _ _ (search found_rules) h (λ found.
      Ends-reads _ _ (search reads_rules) h (λ user.
        Ends-bind _ _ (Ends-failing _ _ (delete_password_reset-IsFree o email t h)) (λ _ t' h'.
          Ends-drawn _ _ (λ token.
            Ends-bind _ _ (Ends-failing _ _ (create_password_reset-Sound o email _ t' h'))
              (λ _ t'' h''. Ends-failing _ _ (within-Sound o sample _ t'' h''))))))

  overwrite-Sound :
      (reset : PasswordReset) (new_password : Text) (t : Tables)
      → IsSound t
      → Sound t (overwrite u o sample ttl reset new_password)
  unfolding overwrite known
  overwrite-Sound reset new_password t h = Ends-within_bind _ _ h (λ hashed.
      Ends-bind _ _ (Ends-failing _ _ (reset_password-Sound o reset.email hashed t h))
        (λ _ t' h'. Ends-failing _ _ (delete_password_reset-Sound o reset.email t' h')))

  renew-Sound :
      (reset : PasswordReset) (new_password : Text) (t : Tables)
      → IsSound t
      → Sound t (renew u o sample ttl reset new_password)
  unfolding renew
  renew-Sound reset new_password t h = Ends-drawn _ _ (λ now.
      Ends-if (ltb (reset.created_at + reset_ttl) now) _ _ (λ _. Ends-fail _ h)
        (λ _. overwrite-Sound reset new_password t h))

  resetting-Sound :
      (token new_password : Text) (t : Tables)
      → IsSound t
      → Sound t (reset_password u o sample ttl token new_password)
  unfolding reset_password known
  resetting-Sound token new_password t h =
      Ends-reads _ _ (search found_rules) h (λ found.
        Ends-reads _ _ (search reads_rules) h (λ reset. renew-Sound reset new_password t h))

  settled-IsSound :
      {A : Type 0} (r : Result A Error) (s : World W)
      → Post IsSound (λ a t. IsSound t) (r, s)
      → IsSound s.0
  settled-IsSound (ok a) s h = h
  settled-IsSound (err e) s h = h

  serve-Sound :
      (request : Request) (t : Tables) (w : W)
      → IsSound t
      → IsSound (serve u o sample ttl request (t, w)).0
  unfolding serve
  serve-Sound (signing_in email password) t w h =
      settled-IsSound _ _ ((generate_token-Sound email password t h).at w)
  serve-Sound (registering r) t w h = settled-IsSound _ _ ((register-Sound r t h).at w)
  serve-Sound (refreshing token) t w h = settled-IsSound _ _ ((refresh_token-Sound token t h).at w)
  serve-Sound (google code) t w h = settled-IsSound _ _ ((login_with_google-Sound code t h).at w)
  serve-Sound (identifying token) t w h = settled-IsSound _ _ ((get_identity-Sound token t h).at w)
  serve-Sound (recovering email callback_uri) t w h =
      settled-IsSound _ _ ((password_recovery-Sound email callback_uri t h).at w)
  serve-Sound (resetting token new_password) t w h =
      settled-IsSound _ _ ((resetting-Sound token new_password t h).at w)

  -- From tables in which no two users share an id, an email or a user name, and no two pending
  -- resets an address, every sequence of calls, one after the other, ends with such tables, whatever
  -- the calls answer and whichever of their statements and services fail.
  pub run-IsSound :
      (requests : List Request) (t : Tables) (w : W)
      → IsSound t
      → IsSound (run u o sample ttl requests (t, w)).0
  unfolding run
  run-IsSound [] t w h = h
  run-IsSound (request ∷ requests) t w h =
      run-IsSound requests (serve u o sample ttl request (t, w)).0
        (serve u o sample ttl request (t, w)).1 (serve-Sound request t w h)
