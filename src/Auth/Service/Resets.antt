-- ===== src/Auth/Service/Resets.antt =====
-- What a password reset of src/package/auth/service.rs does to the tables.
use schema_forge_backend.Base.{
  ◌+◌, ◌≡◌, ◌≢◌, ◌&&◌, ◌⊎◌, inl, inr, refl, sym, ◌∙◌, subst, ap, true, false, not, ltb, find,
  filter, map, any, ◌==◌, list_eq, nat_eq, List, [], ◌∷◌, Option, none, some, Result, ok, err,
  arith,
}
use schema_forge_backend.Text.{Text}
use schema_forge_backend.Text.Case.{Unicode}
use schema_forge_backend.Domain.Schema.{SchemaDraft}
use schema_forge_backend.Errdef.Error.{Error}
use schema_forge_backend.Auth.Account.{PasswordReset}
use schema_forge_backend.Auth.Outside.{Outside}
use schema_forge_backend.Auth.Crypto.{hash_token}
use schema_forge_backend.Auth.Tables.{
  Tables, World, find_password_by_token, delete_password_reset, rekeyed,
  reset_password as overwrite_password,
}
use schema_forge_backend.Auth.Tokens.{Lifetimes}
use schema_forge_backend.Auth.Steps.{known}
use schema_forge_backend.Auth.Service.{reset_password, renew, overwrite, is_err, reset_ttl}
use schema_forge_backend.Auth.Service.Hashing.{IsHashOf, Ends-hashed}
use schema_forge_backend.Auth.Triples.{
  Post, Ends, Ends-pure, Ends-fail, Ends-if, Ends-bind, Ends-failing, Ends-drawn, Ends-within_bind,
  Ends-last_write, Ends-tables, Ends-required, Ends-answer,
}

-- The pending reset that a token's digest finds.
abbrev pub pending : Text → Tables → Option PasswordReset
pending digest t = find (λ reset. reset.token == digest) t.password_resets

-- The tables with the new password, and those without the address's resets.
abbrev pub with_password : Text → Text → Tables → Tables
with_password email hashed t = record t { users = map (rekeyed email hashed) t.users }

abbrev pub without_resets : Text → Tables → Tables
without_resets email t = record t {
  password_resets = filter (λ reset. not (reset.email == email)) t.password_resets;
}

filter-pending :
    (digest email : Text) (resets : List PasswordReset)
    → any (λ other. other.token == digest && not (other.email == email)) resets ≡ false
    → find (λ reset. reset.token == digest) (filter (λ reset. not (reset.email == email)) resets)
      ≡ none
filter-pending digest email [] h = refl
filter-pending digest email (reset ∷ resets) h = ground (arith, filter-pending digest email resets)

no_reset : {reset : PasswordReset} → none ≢ some reset
no_reset h = cc

module _ {W : Type 0} (u : Unicode) (o : Outside W) (sample : SchemaDraft) (ttl : Lifetimes) where
  -- A reset that was found, and a hash of the new password.
  abbrev pub Chosen :
      (token new_password : Text) → Tables → (PasswordReset → Text → Type 0) → Type 0
  Chosen token new_password t P =
      (reset : PasswordReset) × (hashed : Text) × (pending (hash_token o token) t ≡ some reset)
      × IsHashOf o new_password hashed
      × P reset hashed

  -- The tables after a reset that succeeded, and after one that failed.
  abbrev pub IsReset : (token new_password : Text) → Tables → Tables → Type 0
  IsReset token new_password t t' =
      Chosen token new_password t
        (λ reset hashed. t' ≡ without_resets reset.email (with_password reset.email hashed t))

  abbrev pub IsHalted : (token new_password : Text) → Tables → Tables → Type 0
  IsHalted token new_password t t' =
      (t' ≡ t)
      ⊎ Chosen token new_password t (λ reset hashed. t' ≡ with_password reset.email hashed t)

  find_pending :
      (digest : Text) (t : Tables)
      → Ends t
          (λ t'. t' ≡ t)
          (λ found t'. (found ≡ pending digest t) × (t' ≡ t))
          (find_password_by_token o digest)
  unfolding find_password_by_token
  find_pending digest t = Ends-within_bind _ _ refl (λ _. Ends-tables _ (Ends-pure _ (refl, refl)))

  overwrite_written :
      (token : Text) (t : Tables) (reset : PasswordReset) (new_password : Text)
      → pending (hash_token o token) t ≡ some reset
      → Ends t
          (IsHalted token new_password t)
          (λ _. IsReset token new_password t)
          (overwrite u o sample ttl reset new_password)
  unfolding overwrite known overwrite_password delete_password_reset
  overwrite_written token t reset new_password found =
      Ends-hashed o new_password _ (inl refl) (λ hashed made.
        Ends-bind _ _ (Ends-failing _ _ (written hashed))
          (λ _ t' same. Ends-failing _ _ (deleted hashed made t' same)))
    where
      written :
          (hashed : Text)
          → Ends t
              (IsHalted token new_password t)
              (λ _ t'. t' ≡ with_password reset.email hashed t)
              (overwrite_password o reset.email hashed)
      written hashed = Ends-within_bind _ _ (inl refl) (λ _. Ends-last_write _ refl)

      deleted :
          (hashed : Text)
          → IsHashOf o new_password hashed
          → (t' : Tables) → t' ≡ with_password reset.email hashed t
          → Ends t'
              (IsHalted token new_password t)
              (λ _. IsReset token new_password t)
              (delete_password_reset o reset.email)
      deleted hashed made t' same =
          Ends-within_bind _ _ (inr (reset, hashed, found, made, same)) (λ _.
            Ends-last_write _ (reset, hashed, found, made, ap (without_resets reset.email) same))

  renew_written :
      (token : Text) (t : Tables) (reset : PasswordReset) (new_password : Text)
      → pending (hash_token o token) t ≡ some reset
      → Ends t
          (IsHalted token new_password t)
          (λ _. IsReset token new_password t)
          (renew u o sample ttl reset new_password)
  unfolding renew
  renew_written token t reset new_password found = Ends-drawn _ _ (λ now.
      Ends-if (ltb (reset.created_at + reset_ttl) now) _ _ (λ _. Ends-fail _ (inl refl))
        (λ _. overwrite_written token t reset new_password found))

  -- A reset that succeeds finds a pending reset by the token's digest, writes one bcrypt
  -- hash of the new password as the password of every user of that reset's email, deletes every reset of that email and changes
  -- nothing else; one that fails changes nothing, or has written the password and no more.
  pub reset_password-written :
      (token new_password : Text) (t : Tables)
      → Ends t
          (IsHalted token new_password t)
          (λ _. IsReset token new_password t)
          (reset_password u o sample ttl token new_password)
  unfolding reset_password known
  reset_password-written token new_password t =
      Ends-answer _ _ (Ends-failing _ _ (find_pending (hash_token o token) t)) (inl refl)
        (λ found e.
          Ends-required _ found _ (inl refl)
            (λ reset h. renew_written token t reset new_password (sym e ∙ h)))

  -- Of the pending resets with the digest, none is for another address.
  abbrev pub IsOwn : Text → Tables → Type 0
  IsOwn digest t =
      (reset : PasswordReset)
      → pending digest t ≡ some reset
      → any (λ other. other.token == digest && not (other.email == reset.email)) t.password_resets
        ≡ false

  spent :
      (token new_password : Text) (t : Tables) (r : Result (Unit {0}) Error) (s : World W)
      → pending (hash_token o token) t ≡ none
      → Post (IsHalted token new_password t) (λ _. IsReset token new_password t) (r, s)
      → (is_err r ≡ true) × (s.0 ≡ t)
  spent token new_password t (ok a) s gone (reset, hashed, found, made, h) =
      absurd (no_reset (sym gone ∙ found))
  spent token new_password t (err e) s gone (inl same) = (refl, same)
  spent token new_password t (err e) s gone (inr (reset, hashed, found, made, h)) =
      absurd (no_reset (sym gone ∙ found))

  -- A token whose digest no other address shares works once: after a reset that succeeded, a reset
  -- with the same token fails and leaves the tables as they are.
  pub reset_password-once :
      (token first second : Text) (t t' : Tables) (w w' : W)
      → IsOwn (hash_token o token) t
      → reset_password u o sample ttl token first (t, w) ≡ (ok tt, (t', w'))
      → (later : W)
      → let again = reset_password u o sample ttl token second (t', later) in
        (is_err again.0 ≡ true) × (again.1.0 ≡ t')
  reset_password-once token first second t t' w w' own done later =
      let written : Post {E = Error} (IsHalted token first t) (λ _. IsReset token first t)
          (ok tt, (t', w')) =
        subst (Post {E = Error} (IsHalted token first t) (λ _. IsReset token first t)) done
          ((reset_password-written token first t).at w) in
      let (reset, hashed, found, made, same) = written in
      let gone : pending (hash_token o token) t' ≡ none =
        ap (pending (hash_token o token)) same
        ∙ filter-pending (hash_token o token) reset.email t.password_resets (own reset found) in
      let again = reset_password u o sample ttl token second (t', later) in
      spent token second t' again.0 again.1 gone ((reset_password-written token second t').at later)
