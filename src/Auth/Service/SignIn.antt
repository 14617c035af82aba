-- ===== src/Auth/Service/SignIn.antt =====
-- Who signs in with an email and a password.
use schema_forge_backend.Base.{
  ◌≡◌, refl, sym, subst, ◌∙◌, ap, true, false, find, is_empty, ◌==◌, list_eq, nat_eq, Option, none,
  some, Result, ok, err, arith, or-false_iff,
}
use schema_forge_backend.Text.{Text}
use schema_forge_backend.Text.Case.{Unicode}
use schema_forge_backend.Domain.Schema.{SchemaDraft}
use schema_forge_backend.Errdef.Error.{Error}
use schema_forge_backend.Auth.Account.{Identity, AuthenticationTokens, Instant}
use schema_forge_backend.Auth.Outside.{Outside}
use schema_forge_backend.Auth.Crypto.{compare_hash_and_password-ok}
use schema_forge_backend.Auth.Tables.{
  Tables, User, find_user_by_email, enrich, get_user_roles, identity_of, roles_of, within,
}
use schema_forge_backend.Auth.Tokens.{Lifetimes, generate_tokens, tokens_at}
use schema_forge_backend.Auth.Steps.{known}
use schema_forge_backend.Auth.Service.{generate_token, is_refused, is_err}
use schema_forge_backend.Auth.Triples.{
  Post, Ends, Ends-pure, Ends-fail, Ends-if, Ends-failing, Ends-within_bind, Ends-tables,
  Ends-required, Ends-answer, Ends-weaken,
}

-- The user of an email, as the store reads it.
abbrev pub identified : Tables → Option User → Option Identity
identified t none = none
identified t (some row) = some (identity_of row (roles_of t row.id))

abbrev pub user_of : Text → Tables → Option User
user_of email t = find (λ row. row.email == email) t.users

module _ {W : Type 0} (o : Outside W) where
  enrich-identified :
      (t : Tables) (row : Option User)
      → Ends t (λ t'. t' ≡ t) (λ found t'. (found ≡ identified t row) × (t' ≡ t)) (enrich o row)
  unfolding enrich get_user_roles
  enrich-identified t none = Ends-pure none (refl, refl)
  enrich-identified t (some row) =
      Ends-answer {P = λ roles. roles ≡ roles_of t row.id} _ _
        (Ends-within_bind _ _ refl (λ _. Ends-tables _ (Ends-pure _ (refl, refl)))) refl
        (λ roles e. Ends-pure _ (ap (λ names. some (identity_of row names)) e, refl))

  pub find_user_by_email-identified :
      (email : Text) (t : Tables)
      → Ends t
          (λ t'. t' ≡ t)
          (λ found t'. (found ≡ identified t (user_of email t)) × (t' ≡ t))
          (find_user_by_email o email)
  unfolding find_user_by_email
  find_user_by_email-identified email t =
      Ends-within_bind _ _ refl (λ _. Ends-tables _ (enrich-identified t (user_of email t)))

module _ {W : Type 0} (u : Unicode) (o : Outside W) (sample : SchemaDraft) (ttl : Lifetimes) where
  -- The tokens are for a user who has this email, a password, and a hash of it that matches.
  abbrev pub IsSignedIn : (email password : Text) → Tables → AuthenticationTokens → Type 0
  IsSignedIn email password t tokens =
      (row : User) × (now : Instant) × (user_of email t ≡ some row)
      × (is_empty row.password ≡ false)
      × (o.bcrypt_verify password row.password ≡ ok true)
      × (tokens_at o ttl (identity_of row (roles_of t row.id)) now ≡ ok tokens)

  matched :
      (password : Text) (user : Identity)
      → is_refused u o sample ttl user password ≡ false
      → (is_empty user.password ≡ false) × (o.bcrypt_verify password user.password ≡ ok true)
  unfolding is_refused
  matched password user h =
      let (has_one, fits) = (or-false_iff _ _).0 h in
      (has_one, compare_hash_and_password-ok o user.password password (accepted _ fits))
    where
      accepted : (r : Result (Unit {0}) Error) → is_err r ≡ false → r ≡ ok tt
      accepted (ok tt) h = refl
      accepted (err e) h = cc

  tokens_from :
      (user : Identity) (t : Tables)
      → Ends {W = W} t
          (λ t'. t' ≡ t)
          (λ tokens t'. ((now : Instant) × (tokens_at o ttl user now ≡ ok tokens)) × (t' ≡ t))
          (within (generate_tokens o ttl user))
  unfolding generate_tokens within
  tokens_from user t = record {
    at = λ w. let (now, w') = o.now w in drawn_tokens (tokens_at o ttl user now) now w' refl;
  }
    where
      drawn_tokens :
          (r : Result AuthenticationTokens Error) (now : Instant) (w : W)
          → tokens_at o ttl user now ≡ r
          → Post {W = W}
              (λ t'. t' ≡ t)
              (λ tokens t'. ((now : Instant) × (tokens_at o ttl user now ≡ ok tokens)) × (t' ≡ t))
              (r, (t, w))
      drawn_tokens (ok tokens) now w e = ((now, e), refl)
      drawn_tokens (err e) now w h = refl

  -- Tokens are answered only when the first user with the email has a password whose hash accepts
  -- the one given, they are the tokens of that user at some instant, and whatever is answered the
  -- tables are as they were.
  pub generate_token-signs_in :
      (email password : Text) (t : Tables)
      → Ends t
          (λ t'. t' ≡ t)
          (λ tokens t'. IsSignedIn email password t tokens × (t' ≡ t))
          (generate_token u o sample ttl email password)
  unfolding generate_token known
  generate_token-signs_in email password t =
      Ends-answer _ _ (Ends-failing _ _ (find_user_by_email-identified o email t)) refl (λ found e.
        Ends-required _ found _ refl (λ user h.
          Ends-if (is_refused u o sample ttl user password) _ _ (λ _. Ends-fail _ refl)
            (λ fits. Ends-weaken _ (tokens_from user t) (λ tokens t' k.
              (signed_in user tokens (user_of email t) refl (sym e ∙ h) fits k.0, k.1)))))
    where
      signed_in :
          (user : Identity) (tokens : AuthenticationTokens) (row : Option User)
          → user_of email t ≡ row
          → identified t row ≡ some user
          → is_refused u o sample ttl user password ≡ false
          → (now : Instant) × (tokens_at o ttl user now ≡ ok tokens)
          → IsSignedIn email password t tokens
      signed_in user tokens none e h fits k = cc
      signed_in user tokens (some row) e h fits (now, k) =
          let same : identity_of row (roles_of t row.id) ≡ user = ground (arith, h) in
          let (has_one, accepts) = matched password user fits in
          (
            row,
            now,
            e,
            subst (λ (user : Identity). is_empty user.password ≡ false) (sym same) has_one,
            subst (λ (user : Identity). o.bcrypt_verify password user.password ≡ ok true) (sym same)
                accepts,
            subst (λ user. tokens_at o ttl user now ≡ ok tokens) (sym same) k,
          )
