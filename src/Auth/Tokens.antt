-- ===== src/Auth/Tokens.antt =====
-- src/package/jwt/mod.rs and the tokens of src/package/auth/service.rs. A timestamp is a number of
-- seconds, a lifetime is not negative, and `Duration::seconds` and the sum stay in range.
pub mod RoundTrip
use schema_forge_backend.Base.{
  ℕ, ◌+◌, ◌*◌, ◌/◌, [], ◌++◌, Option, none, some, Result, ok, err, ok_or, map_err, Action, settled,
  failing, ◌>>=◌,
}
use schema_forge_backend.Text.{Text, lit}
use schema_forge_backend.Errdef.Error.{Error, unauthorized, unknown, with_cause}
use schema_forge_backend.Auth.Account.{Uuid, Instant, Identity, AuthenticationTokens}
use schema_forge_backend.Auth.Claims.{Claims, string, strings, number, insert, remove, get, as_str}
use schema_forge_backend.Auth.Outside.{Outside}

abbrev pub second : ℕ
second = 1000000

-- `DateTime::timestamp`
unfoldable pub timestamp : Instant → ℕ
timestamp instant = instant / second

unfoldable pub invalid_refresh_token : Text
unfolding lit
invalid_refresh_token = lit "invalid or malformed refresh token"

unfoldable pub user_id_key : Text
unfolding lit
user_id_key = lit "user_id"

unfoldable pub exp_key : Text
unfolding lit
exp_key = lit "exp"

abbrev pub and_then : {A B : Type 0} → Option A → (A → Option B) → Option B
and_then none f = none
and_then (some a) f = f a

-- `AuthService`'s fields `token_ttl` and `refresh_token_ttl`, in seconds.
pub record Lifetimes : Type 0 where
  pub token_ttl : ℕ
  pub refresh_token_ttl : ℕ

-- The failure of the first signature hides the second.
unfoldable pub paired : Result Text Text → Result Text Text → Result AuthenticationTokens Error
unfolding unknown
paired (err e) _ = err (unknown e)
paired (ok token) (err e) = err (unknown e)
paired (ok token) (ok refresh_token) = ok (record { token = token; refresh_token = refresh_token })

unfoldable pub without_exp : Result Claims Text → Result Claims Text
unfolding remove lit exp_key
without_exp (ok claims) = ok (remove exp_key claims)
without_exp (err e) = err (lit "error parsing jwt token: " ++ e)

module _ {W : Type 0} (o : Outside W) where
  -- `HmacTokenGenerator::generate_token`, and the error as `JwtError` displays it
  unfoldable pub generate_token : Claims → ℕ → Result Text Text
  unfolding insert lit exp_key
  generate_token claims expires_at =
      map_err (λ e. lit "error encountered when signing jwt token: " ++ e)
        (o.encode (insert exp_key (number expires_at) claims))

  unfoldable pub checked : ℕ → Text → Result Claims Text
  unfolding without_exp
  checked now token = without_exp (o.decode now token)

  -- `HmacTokenGenerator::validate_token`, which reads the clock
  unfoldable pub validate_token : Text → Action W Text Claims
  unfolding checked timestamp
  validate_token token w = let (now, w') = o.now w in (checked (timestamp now) token, w')

  unfoldable pub access_claims : Identity → Claims
  unfolding insert lit user_id_key
  access_claims user =
      insert (lit "roles") (strings user.roles)
        (insert user_id_key (string (o.uuid_text user.id)) [])

  unfoldable pub refresh_claims : Identity → Claims
  unfolding insert user_id_key
  refresh_claims user = insert user_id_key (string (o.uuid_text user.id)) []

  unfoldable pub tokens_at : Lifetimes → Identity → Instant → Result AuthenticationTokens Error
  unfolding generate_token access_claims refresh_claims timestamp paired
  tokens_at ttl user now =
      paired (generate_token (access_claims user) (timestamp (now + ttl.token_ttl * second)))
        (generate_token (refresh_claims user) (timestamp (now + ttl.refresh_token_ttl * second)))

  unfoldable pub generate_tokens : Lifetimes → Identity → Action W Error AuthenticationTokens
  unfolding tokens_at
  generate_tokens ttl user w = let (now, w') = o.now w in (tokens_at ttl user now, w')

  unfoldable pub claimed_id : Claims → Option Uuid
  unfolding get user_id_key
  claimed_id claims = and_then (and_then (get user_id_key claims) as_str) o.parse_uuid

  unfoldable pub user_id_from : Text → Action W Error Uuid
  unfolding validate_token claimed_id unauthorized with_cause invalid_refresh_token
  user_id_from token = do
    claims ← failing (λ e. with_cause (unauthorized invalid_refresh_token) e) (validate_token token)
    settled (ok_or (unauthorized invalid_refresh_token) (claimed_id claims))
