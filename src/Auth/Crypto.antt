-- ===== src/Auth/Crypto.antt =====
-- src/package/crypto.rs
use schema_forge_backend.Base.{◌≡◌, refl, Bool, true, false, Result, ok, err, Action, failing}
use schema_forge_backend.Text.{Text, lit}
use schema_forge_backend.Errdef.Error.{Error, unauthorized, unknown, with_cause}
use schema_forge_backend.Auth.Outside.{Outside}

compared : Result Bool Text → Result (Unit {0}) Error
unfolding unauthorized with_cause lit
compared (ok true) = ok tt
compared (ok false) = err (unauthorized (lit "password mismatch"))
compared (err error) = err (with_cause (unauthorized (lit "password mismatch")) error)

compared-ok : (r : Result Bool Text) → compared r ≡ ok tt → r ≡ ok true
unfolding compared
compared-ok (ok true) h = refl
compared-ok (ok false) h = cc
compared-ok (err e) h = cc

module _ {W : Type 0} (o : Outside W) where
  unfoldable pub hash_password : Text → Action W Error Text
  unfolding unknown
  hash_password password = failing unknown (o.bcrypt_hash password)

  unfoldable pub compare_hash_and_password : (hashed password : Text) → Result (Unit {0}) Error
  unfolding compared
  compare_hash_and_password hashed password = compared (o.bcrypt_verify password hashed)

  unfoldable pub random_token : W → Text × W
  random_token w = o.random_hex w

  unfoldable pub hash_token : Text → Text
  hash_token raw_token = o.sha256_hex raw_token

  pub compare_hash_and_password-ok :
      (hashed password : Text)
      → compare_hash_and_password hashed password ≡ ok tt
      → o.bcrypt_verify password hashed ≡ ok true
  unfolding compare_hash_and_password
  compare_hash_and_password-ok hashed password h = compared-ok _ h
