-- ===== src/Tests/Accounts.antt =====
-- One account, Ada's, with a pending reset, at the desk.
use schema_forge_backend.Base.{
  ℕ, ◌≡◌, refl, true, false, [], ◌∷◌, none, Result, ok, err, any, list_beq, list_eq, nat_eq, not,
  ◌&&◌, ◌==◌, ◌≤◌, ◌*◌, subst, arith,
}
use schema_forge_backend.Text.{Text, lit}
use schema_forge_backend.Text.Case.{ascii}
use schema_forge_backend.Errdef.Error.{Error}
use schema_forge_backend.Auth.Account.{Identity, Registration, AuthenticationTokens, PasswordReset}
use schema_forge_backend.Auth.Tables.{User, Tables, identity_of}
use schema_forge_backend.Auth.Tokens.{Lifetimes, tokens_at, user_id_from, timestamp, second}
use schema_forge_backend.Auth.Tokens.RoundTrip.{tokens_at-user_id_from}
use schema_forge_backend.Auth.Service.{reset_password, generate_token, is_err}
use schema_forge_backend.Auth.Service.Resets.{
  reset_password-once, reset_password-written, IsReset, IsHalted, IsOwn,
}
use schema_forge_backend.Auth.Service.Live.{reset_password-succeeds, after_reset}
use schema_forge_backend.Auth.Crypto.{hash_token}
use schema_forge_backend.Auth.Service.Hashing.{IsHashOf}
use schema_forge_backend.Auth.Service.SignIn.{generate_token-signs_in, IsSignedIn}
use schema_forge_backend.Auth.Requests.{registering, recovering, google, run}
use schema_forge_backend.Auth.Sound.{IsSound}
use schema_forge_backend.Auth.Sound.Service.{run-IsSound}
use schema_forge_backend.Auth.Triples.{Ends}
use schema_forge_backend.SchemaService.Sample.{sample_schema}
use schema_forge_backend.Tests.Desk.{desk, encode, desk-IsFaithful, desk-IsUp}

abbrev lifetimes : Lifetimes
lifetimes = record { token_ttl = 900; refresh_token_ttl = 86400 }

abbrev ada : User
unfolding lit
ada = record {
  id = 7;
  email = lit "ada@example.com";
  user_name = lit "ada@example.com";
  first_name = lit "Ada";
  last_name = lit "Lovelace";
  avatar_url = none;
  password = lit "#engine no. 1";
}

abbrev accounts : Tables
unfolding lit
accounts = record {
  users = ada ∷ [];
  roles = (1, lit "Developer") ∷ [];
  user_has_roles = [];
  password_resets = record { email = lit "ada@example.com"; token = lit "t"; created_at = 0 } ∷ [];
}

accounts-IsSound : IsSound accounts
unfolding accounts
accounts-IsSound = record { distinct = (refl, tt); single = (refl, tt) }

abbrev newcomer : Registration
unfolding lit
newcomer = record {
  name = lit "Grace Hopper";
  email = lit " Grace@Example.com ";
  password = lit "nanosecond";
}

run-IsSound_example :
    IsSound
      (run ascii desk sample_schema lifetimes
        (registering newcomer
          ∷ recovering (lit "ada@example.com") (lit "https://forge/")
          ∷ google (lit "code")
          ∷ [])
        (accounts, 5)).0
run-IsSound_example =
    run-IsSound ascii desk sample_schema lifetimes
      (registering newcomer
        ∷ recovering (lit "ada@example.com") (lit "https://forge/")
        ∷ google (lit "code")
        ∷ [])
      accounts 5 accounts-IsSound

reset_password-written_example :
    Ends accounts
      (IsHalted ascii desk sample_schema lifetimes (lit "t") (lit "difference") accounts)
      (λ _. IsReset ascii desk sample_schema lifetimes (lit "t") (lit "difference") accounts)
      (reset_password ascii desk sample_schema lifetimes (lit "t") (lit "difference"))
reset_password-written_example =
    reset_password-written ascii desk sample_schema lifetimes (lit "t") (lit "difference") accounts

generate_token-signs_in_example :
    Ends accounts
      (λ t'. t' ≡ accounts)
      (λ tokens t'.
        IsSignedIn ascii desk sample_schema lifetimes
          (lit "ada@example.com")
          (lit "engine no. 1")
          accounts
          tokens
        × (t' ≡ accounts))
      (generate_token ascii desk sample_schema lifetimes
        (lit "ada@example.com")
        (lit "engine no. 1"))
generate_token-signs_in_example =
    generate_token-signs_in ascii desk sample_schema lifetimes (lit "ada@example.com")
      (lit "engine no. 1") accounts

abbrev pending_reset : PasswordReset
unfolding lit
pending_reset = record { email = lit "ada@example.com"; token = lit "t"; created_at = 0 }

-- What Ada's reset at 5 hashes the new password to, and the world after it.
reset_password-succeeds_example :
    (hashed : Text) × (w' : ℕ) × IsHashOf desk (lit "difference") hashed
    × (reset_password ascii desk sample_schema lifetimes (lit "t") (lit "difference") (accounts, 5)
        ≡ (
          ok tt,
          (
            after_reset ascii desk sample_schema lifetimes desk-IsUp pending_reset hashed accounts,
            w',
          ),
        ))
unfolding accounts pending_reset desk hash_token lit list_beq desk-IsUp
reset_password-succeeds_example =
    reset_password-succeeds ascii desk sample_schema lifetimes desk-IsUp (lit "t")
      (lit "difference") accounts 5 pending_reset refl (omega arith)

first_reset :
    (hashed : Text) × (w' : ℕ) × IsHashOf desk (lit "difference") hashed
    × (reset_password ascii desk sample_schema lifetimes (lit "t") (lit "difference") (accounts, 5)
        ≡ (
          ok tt,
          (
            after_reset ascii desk sample_schema lifetimes desk-IsUp pending_reset hashed accounts,
            w',
          ),
        ))
unfolding accounts pending_reset desk hash_token lit list_beq desk-IsUp
first_reset =
    reset_password-succeeds ascii desk sample_schema lifetimes desk-IsUp (lit "t")
      (lit "difference") accounts 5 pending_reset refl (omega arith)

abbrev reset_tables : Tables
unfolding accounts
reset_tables =
    after_reset ascii desk sample_schema lifetimes desk-IsUp pending_reset first_reset.0 accounts

accounts-IsOwn : IsOwn ascii desk sample_schema lifetimes (hash_token desk (lit "t")) accounts
unfolding accounts pending_reset desk hash_token lit list_beq
accounts-IsOwn reset found =
    let same : pending_reset ≡ reset = ground (arith, found) in
    subst
      (λ (r : PasswordReset).
        any (λ (other : PasswordReset). other.token == lit "t" && not (other.email == r.email))
          accounts.password_resets
        ≡ false)
      same refl

reset_password-once_example :
    (is_err
        (reset_password ascii desk sample_schema lifetimes
          (lit "t")
          (lit "again")
          (reset_tables, 9)).0
      ≡ true)
    × ((reset_password ascii desk sample_schema lifetimes
          (lit "t")
          (lit "again")
          (reset_tables, 9)).1.0
        ≡ reset_tables)
unfolding reset_tables
reset_password-once_example =
    reset_password-once ascii desk sample_schema lifetimes (lit "t") (lit "difference")
      (lit "again") accounts reset_tables 5 first_reset.1 accounts-IsOwn first_reset.3 9

-- The tokens of Ada at 0, read at 60 seconds.
abbrev ada_identity : Identity
unfolding accounts
ada_identity = identity_of ada []

-- The tokens that the desk writes for Ada at 0.
abbrev written : Result AuthenticationTokens Error → AuthenticationTokens
written (ok tokens) = tokens
written (err e) = record { token = []; refresh_token = [] }

abbrev ada_tokens : AuthenticationTokens
ada_tokens = written (tokens_at desk lifetimes ada_identity 0)

ada_tokens_signed : tokens_at desk lifetimes ada_identity 0 ≡ ok ada_tokens
unfolding tokens_at desk encode list_beq
ada_tokens_signed = refl

tokens_at-user_id_from_example :
    (timestamp 60000000 ≤ timestamp (900 * second)
      → user_id_from desk ada_tokens.token 60000000 ≡ (ok 7, 60000000))
    × (timestamp 60000000 ≤ timestamp (86400 * second)
        → user_id_from desk ada_tokens.refresh_token 60000000 ≡ (ok 7, 60000000))
unfolding desk ada_identity
tokens_at-user_id_from_example =
    tokens_at-user_id_from desk desk-IsFaithful lifetimes ada_identity 0 ada_tokens 60000000
      ada_tokens_signed
