-- ===== src/Auth/Service/Hashing.antt =====
-- The hash that src/package/auth/crypto.rs hands to the operations of src/package/auth/service.rs.
use schema_forge_backend.Base.{◌≡◌, Result, ok, err, Action, failing, ◌>>=◌}
use schema_forge_backend.Text.{Text}
use schema_forge_backend.Errdef.Error.{Error, unknown}
use schema_forge_backend.Auth.Outside.{Outside}
use schema_forge_backend.Auth.Crypto.{hash_password}
use schema_forge_backend.Auth.Tables.{Tables, World, within}
use schema_forge_backend.Auth.Triples.{Ends, Ends-made}

-- A text that bcrypt gives for the password.
abbrev pub IsHashOf : {W : Type 0} → Outside W → (password hashed : Text) → Type 0
IsHashOf {W = W} o password hashed = (w w' : W) × (o.bcrypt_hash password w ≡ (ok hashed, w'))

module _ {S E G A : Type 0} (g : E → G) where
  unmapped :
      (answer : Result A E × S) (s' : S) (a : A)
      → failing g (λ (_ : S). answer) s' ≡ (ok a, s')
      → answer ≡ (ok a, s')
  unfolding failing
  unmapped (ok b, s) s' a h = cc
  unmapped (err e, s) s' a h = cc

module _ {W : Type 0} (o : Outside W) where
  hash_password-IsHashOf :
      (password hashed : Text)
      → (w w' : W) × (hash_password o password w ≡ (ok hashed, w'))
      → IsHashOf o password hashed
  unfolding hash_password failing
  hash_password-IsHashOf password hashed (w, w', h) =
      (w, w', unmapped unknown (o.bcrypt_hash password w) w' hashed h)

  pub Ends-hashed :
      {B : Type 0} {t : Tables} {F : Tables → Type 0} {R : B → Tables → Type 0} (password : Text)
      (f : Text → Action (World W) Error B)
      → F t
      → ((hashed : Text) → IsHashOf o password hashed → Ends t F R (f hashed))
      → Ends t F R (within (hash_password o password) >>= f)
  Ends-hashed password f h k =
      Ends-made (hash_password o password) f h
        (λ hashed made. k hashed (hash_password-IsHashOf password hashed made))
