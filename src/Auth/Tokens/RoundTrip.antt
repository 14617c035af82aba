-- ===== src/Auth/Tokens/RoundTrip.antt =====
-- A token of src/package/auth/service.rs read back by `user_id_from`, with the law of jsonwebtoken
-- that a token which was signed is decoded to its claims up to the second of its `exp`.
use schema_forge_backend.Base.{
  ℕ, ◌≤◌, ◌≡◌, refl, ◌∙◌, ap, false, ◌==◌, ==_iff, list_beq, list_eq, nat_eq, [], ◌∷◌, none, some,
  Result, ok, err, arith, settled, failing, ◌>>=◌, ◌+◌, ◌*◌, map_err,
}
use schema_forge_backend.Text.{Text, lit}
use schema_forge_backend.Auth.Account.{Uuid, Instant, Identity, AuthenticationTokens}
use schema_forge_backend.Auth.Claims.{
  Claims, Value, string, strings, number, as_str, insert, remove, get,
}
use schema_forge_backend.Auth.Outside.{Outside}
use schema_forge_backend.Auth.Tokens.{
  Lifetimes, second, timestamp, exp_key, user_id_key, generate_token, checked, without_exp, paired,
  validate_token, access_claims, refresh_claims, tokens_at, claimed_id, user_id_from, and_then,
}

pub insert-get :
    (key : Text) (value : Value) (claims : Claims) → get key (insert key value claims) ≡ some value
unfolding insert get
insert-get key value [] = ground (arith, ==_iff key key)
insert-get key value ((k, v) ∷ claims) =
    ground (arith, insert-get key value claims, ==_iff key key, ==_iff key k)

insert-get_other :
    (key other : Text) (value : Value) (claims : Claims)
    → (other == key) ≡ false
    → get other (insert key value claims) ≡ get other claims
unfolding insert get
insert-get_other key other value [] h = ground arith
insert-get_other key other value ((k, v) ∷ claims) h =
    ground (
      arith,
      insert-get_other key other value claims,
      ==_iff key k,
      ==_iff other key,
      ==_iff other k,
    )

remove-get_other :
    (key other : Text) (claims : Claims)
    → (other == key) ≡ false
    → get other (remove key claims) ≡ get other claims
unfolding remove get
remove-get_other key other [] h = refl
remove-get_other key other ((k, v) ∷ claims) h =
    ground
      (arith, remove-get_other key other claims, ==_iff key k, ==_iff other key, ==_iff other k)

-- The audience, which a validation that expects none refuses.
abbrev pub aud_key : Text
unfolding lit
aud_key = lit "aud"

-- What jsonwebtoken and the `uuid` crate promise: a token that was signed is decoded until the second
-- of its `exp` when it names no audience, and an id is read back from its text.
pub record IsFaithful {W : Type 0} (o : Outside W) : Type 0 where
  pub decoded :
      (claims : Claims) (token : Text) (now exp : ℕ)
      → o.encode claims ≡ ok token
      → get exp_key claims ≡ some (number exp)
      → get aud_key claims ≡ none
      → now ≤ exp
      → o.decode now token ≡ ok claims
  pub parsed : (id : Uuid) → o.parse_uuid (o.uuid_text id) ≡ some id

insert-get_user :
    (roles id : Value)
    → get user_id_key (insert (lit "roles") roles (insert user_id_key id [])) ≡ some id
unfolding lit user_id_key list_beq
insert-get_user roles id =
    insert-get_other (lit "roles") user_id_key roles (insert user_id_key id []) refl
    ∙ insert-get user_id_key id []

insert-get_aud :
    (roles id : Value) → get aud_key (insert (lit "roles") roles (insert user_id_key id [])) ≡ none
unfolding lit user_id_key aud_key list_beq get
insert-get_aud roles id =
    insert-get_other (lit "roles") aud_key roles (insert user_id_key id []) refl
    ∙ insert-get_other user_id_key aud_key id [] refl

paired-ok :
    (first second : Result Text Text) {tokens : AuthenticationTokens}
    → paired first second ≡ ok tokens
    → (first ≡ ok tokens.token) × (second ≡ ok tokens.refresh_token)
unfolding paired
paired-ok (err e) _ h = cc
paired-ok (ok token) (err e) h = cc
paired-ok (ok token) (ok refresh_token) h = ground (arith, h)

module _ {W : Type 0} (o : Outside W) (law : IsFaithful o) where
  map_err-ok : {A E F : Type 0} (f : E → F) (r : Result A E) {a : A} → map_err f r ≡ ok a → r ≡ ok a
  map_err-ok f (ok a) h = cc
  map_err-ok f (err e) h = cc

  -- A token that was signed is read back, without its `exp`.
  token-checked :
      (claims : Claims) (token : Text) (now exp : ℕ)
      → get aud_key claims ≡ none
      → generate_token o claims exp ≡ ok token
      → now ≤ exp
      → checked o now token ≡ ok (remove exp_key (insert exp_key (number exp) claims))
  unfolding generate_token checked without_exp exp_key aud_key lit list_beq
  token-checked claims token now exp free h before = ap without_exp (
      law.decoded (insert exp_key (number exp) claims) token now exp (map_err-ok _ _ h)
        (insert-get exp_key (number exp) claims)
        (insert-get_other exp_key aud_key (number exp) claims refl ∙ free) before)

  claimed :
      (claims : Claims) (exp : ℕ) (id : Uuid)
      → get user_id_key claims ≡ some (string (o.uuid_text id))
      → claimed_id o (remove exp_key (insert exp_key (number exp) claims)) ≡ some id
  unfolding claimed_id user_id_key exp_key lit list_beq
  claimed claims exp id h =
      let found =
        remove-get_other exp_key user_id_key (insert exp_key (number exp) claims) refl
        ∙ insert-get_other exp_key user_id_key (number exp) claims refl
        ∙ h in
      ap (λ v. and_then (and_then v as_str) o.parse_uuid) found ∙ law.parsed id

  -- A signed token names its user until the second of its expiry.
  pub named :
      (claims : Claims) (token : Text) (exp : ℕ) (id : Uuid) (w : W)
      → get user_id_key claims ≡ some (string (o.uuid_text id))
      → get aud_key claims ≡ none
      → generate_token o claims exp ≡ ok token
      → timestamp (o.now w).0 ≤ exp
      → user_id_from o token w ≡ (ok id, (o.now w).1)
  unfolding user_id_from validate_token settled failing ◌>>=◌
  named claims token exp id w h free signed before = rw (
    token-checked claims token (timestamp (o.now w).0) exp free signed before,
    claimed claims exp id h,
  )

  -- Both tokens name the user they were made for: read at an instant that is not past the second of
  -- their expiry, the access token and the refresh token each give back the user's id.
  pub tokens_at-user_id_from :
      (ttl : Lifetimes) (user : Identity) (now : Instant) (tokens : AuthenticationTokens) (w : W)
      → tokens_at o ttl user now ≡ ok tokens
      → (timestamp (o.now w).0 ≤ timestamp (now + ttl.token_ttl * second)
          → user_id_from o tokens.token w ≡ (ok user.id, (o.now w).1))
        × (timestamp (o.now w).0 ≤ timestamp (now + ttl.refresh_token_ttl * second)
            → user_id_from o tokens.refresh_token w ≡ (ok user.id, (o.now w).1))
  unfolding tokens_at access_claims refresh_claims user_id_key aud_key lit list_beq get
  tokens_at-user_id_from ttl user now tokens w h =
      let (access, refresh) = paired-ok _ _ h in
      (
        named (access_claims o user) tokens.token _ user.id w
            (insert-get_user (strings user.roles) (string (o.uuid_text user.id)))
            (insert-get_aud (strings user.roles) (string (o.uuid_text user.id))) access,
        named (refresh_claims o user) tokens.refresh_token _ user.id w
            (insert-get user_id_key (string (o.uuid_text user.id)) [])
            (insert-get_other user_id_key aud_key (string (o.uuid_text user.id)) [] refl) refresh,
      )
