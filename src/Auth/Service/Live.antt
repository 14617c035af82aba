-- ===== src/Auth/Service/Live.antt =====
-- That the operations of src/package/auth/service.rs succeed when what they call does.
use schema_forge_backend.Base.{
  ◌+◌, ◌≤◌, ◌≡◌, refl, ◌∙◌, false, ltb, Option, some, Result, ok, ok_or, Action, pure, settled,
  failing, ◌>>=◌, arith,
}
use schema_forge_backend.Text.{Text}
use schema_forge_backend.Text.Case.{Unicode}
use schema_forge_backend.Domain.Schema.{SchemaDraft}
use schema_forge_backend.Auth.Account.{PasswordReset}
use schema_forge_backend.Auth.Outside.{Outside, SqlxError}
use schema_forge_backend.Auth.Crypto.{hash_token, hash_password}
use schema_forge_backend.Auth.Tables.{
  Tables, World, within, drawn, write, tables_of, find_password_by_token, delete_password_reset,
  reset_password as overwrite_password,
}
use schema_forge_backend.Auth.Tokens.{Lifetimes}
use schema_forge_backend.Auth.Steps.{known}
use schema_forge_backend.Auth.Service.{reset_password, renew, overwrite, reset_ttl}
use schema_forge_backend.Auth.Service.Hashing.{IsHashOf}
use schema_forge_backend.Auth.Service.Resets.{pending, with_password, without_resets}

-- Every statement is carried out and every password hashed.
pub record IsUp {W : Type 0} (o : Outside W) : Type 0 where
  pub carried_out : (w : W) → (w' : W) × (o.statement w ≡ (ok tt, w'))
  pub hashes :
      (password : Text) (w : W)
      → (hashed : Text) × (w' : W) × (o.bcrypt_hash password w ≡ (ok hashed, w'))

module _ {S E A : Type 0} where
  bind-ok :
      {B : Type 0} (m : Action S E A) (f : A → Action S E B) (s s' : S) (a : A)
      (answer : Result B E × S)
      → m s ≡ (ok a, s')
      → f a s' ≡ answer
      → (m >>= f) s ≡ answer
  unfolding ◌>>=◌
  bind-ok m f s s' a answer h k = rw (h, k)

  required-ok :
      (e : E) (found : Option A) (s : S) (a : A)
      → found ≡ some a
      → settled (ok_or e found) s ≡ (ok a, s)
  unfolding settled
  required-ok e found s a h = rw h

module _ {W : Type 0} where
  known-ok :
      {A : Type 0} (m : Action (World W) SqlxError A) (s s' : World W) (a : A)
      → m s ≡ (ok a, s')
      → known m s ≡ (ok a, s')
  unfolding known failing
  known-ok m s s' a h = rw h

  within-ok :
      {E A : Type 0} (m : Action W E A) (t : Tables) (w w' : W) (a : A)
      → m w ≡ (ok a, w')
      → within m (t, w) ≡ (ok a, (t, w'))
  unfolding within
  within-ok m t w w' a h = rw h

module _ {W : Type 0} (u : Unicode) (o : Outside W) (sample : SchemaDraft) (ttl : Lifetimes)
    (up : IsUp o) where
  abbrev past : W → W
  past w = (up.carried_out w).0

  stated :
      {A : Type 0} (f : Unit {0} → Action (World W) SqlxError A) (t : Tables) (w : W)
      → (within o.statement >>= f) (t, w) ≡ f tt (t, past w)
  stated f t w =
      bind-ok _ _ _ _ tt _ (within-ok o.statement t w (past w) tt (up.carried_out w).1) refl

  find_password_by_token-ok :
      (digest : Text) (t : Tables) (w : W)
      → find_password_by_token o digest (t, w) ≡ (ok (pending digest t), (t, past w))
  unfolding find_password_by_token tables_of pure ◌>>=◌
  find_password_by_token-ok digest t w = stated _ t w

  overwrite_password-ok :
      (email hashed : Text) (t : Tables) (w : W)
      → overwrite_password o email hashed (t, w) ≡ (ok tt, (with_password email hashed t, past w))
  unfolding overwrite_password write
  overwrite_password-ok email hashed t w = stated _ t w

  delete_password_reset-ok :
      (email : Text) (t : Tables) (w : W)
      → delete_password_reset o email (t, w) ≡ (ok tt, (without_resets email t, past w))
  unfolding delete_password_reset write
  delete_password_reset-ok email t w = stated _ t w

  hash_password-ok :
      (password : Text) (w : W) (hashed : Text) (w' : W)
      → o.bcrypt_hash password w ≡ (ok hashed, w')
      → hash_password o password w ≡ (ok hashed, w')
  unfolding hash_password failing
  hash_password-ok password w hashed w' h = rw h

  -- The tables after a reset of the password.
  abbrev pub after_reset : PasswordReset → Text → Tables → Tables
  after_reset reset hashed t = without_resets reset.email (with_password reset.email hashed t)

  overwrite-ok :
      (reset : PasswordReset) (new_password : Text) (t : Tables) (w : W)
      → (hashed : Text) × (w' : W) × IsHashOf o new_password hashed
        × (overwrite u o sample ttl reset new_password (t, w)
            ≡ (ok tt, (after_reset reset hashed t, w')))
  unfolding overwrite
  overwrite-ok reset new_password t w =
      let (hashed, w', h) = up.hashes new_password w in
      (
        hashed,
        past (past w'),
        (w, w', h),
        bind-ok _ _ _ _ hashed _
            (within-ok (hash_password o new_password) t w w' hashed
              (hash_password-ok new_password w hashed w' h))
            (bind-ok _ _ _ _ tt _
              (known-ok _ _ _ tt (overwrite_password-ok reset.email hashed t w'))
              (known-ok _ _ _ tt (
                delete_password_reset-ok reset.email (with_password reset.email hashed t)
                  (past w')))),
      )

  renew-overwrite :
      (reset : PasswordReset) (new_password : Text) (t : Tables) (w : W)
      → (o.now w).0 ≤ reset.created_at + reset_ttl
      → renew u o sample ttl reset new_password (t, w)
        ≡ overwrite u o sample ttl reset new_password (t, (o.now w).1)
  unfolding renew drawn ◌>>=◌
  renew-overwrite reset new_password t w h =
      let current : ltb (reset.created_at + reset_ttl) (o.now w).0 ≡ false = ground (arith, h) in
      rw current

  -- When every statement is carried out and passwords are hashed, a token whose digest finds a
  -- pending reset that is, when it was found, at most fifteen minutes old resets the password: the answer is a success,
  -- and the tables hold a bcrypt
  -- hash of the new password and no reset of the address.
  pub reset_password-succeeds :
      (token new_password : Text) (t : Tables) (w : W) (reset : PasswordReset)
      → pending (hash_token o token) t ≡ some reset
      → (o.now (up.carried_out w).0).0 ≤ reset.created_at + reset_ttl
      → (hashed : Text) × (w' : W) × IsHashOf o new_password hashed
        × (reset_password u o sample ttl token new_password (t, w)
            ≡ (ok tt, (after_reset reset hashed t, w')))
  unfolding reset_password
  reset_password-succeeds token new_password t w reset found in_time =
      let start = past w in
      let (hashed, w', made, done) = overwrite-ok reset new_password t (o.now start).1 in
      (
        hashed,
        w',
        made,
        bind-ok _ _ _ _ (pending (hash_token o token) t) _
            (known-ok _ _ _ _ (find_password_by_token-ok (hash_token o token) t w))
            (bind-ok _ _ _ _ reset _ (required-ok _ _ (t, start) reset found)
              (renew-overwrite reset new_password t start in_time ∙ done)),
      )
