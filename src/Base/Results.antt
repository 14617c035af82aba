-- ===== src/Base/Results.antt =====
-- `Result`, and code that reads and writes a state and can fail: what it wrote before the failure
-- stays written. `?` is the arrow of a `do` block.
use mathlib.Core.Path.{◌≡◌, refl}
use mathlib.Core.Option.{Option, none, some}

pub data Result (A E : Type 0) : Type 0 where
  ok : A → Result A E
  err : E → Result A E

-- `Option::ok_or`
abbrev pub ok_or : {A E : Type 0} → E → Option A → Result A E
ok_or e none = err e
ok_or e (some a) = ok a

-- `Result::map_err`
abbrev pub map_err : {A E F : Type 0} → (E → F) → Result A E → Result A F
map_err f (ok a) = ok a
map_err f (err e) = err (f e)

abbrev pub Action : (S E A : Type 0) → Type 0
Action S E A = S → Result A E × S

module _ {S E : Type 0} where
  unfoldable pub pure : {A : Type 0} → A → Action S E A
  pure a s = (ok a, s)

  unfoldable pub fail : {A : Type 0} → E → Action S E A
  fail e s = (err e, s)

  unfoldable pub settled : {A : Type 0} → Result A E → Action S E A
  settled r s = (r, s)

  abbrev pub after : {A B : Type 0} → Result A E × S → (A → Action S E B) → Result B E × S
  after (ok a, s) f = f a s
  after (err e, s) f = (err e, s)

  infixl 5 ◌>>=◌ ◌>>◌
  unfoldable pub ◌>>=◌ : {A B : Type 0} → Action S E A → (A → Action S E B) → Action S E B
  ◌>>=◌ m f s = after (m s) f

  abbrev pub ◌>>◌ : {A B : Type 0} → Action S E A → Action S E B → Action S E B
  m >> n = m >>= λ _. n

  -- A step that succeeded, taken apart.
  pub after-ok :
      {A B : Type 0} (m : Result A E × S) (f : A → Action S E B) {b : B} {s' : S}
      → after m f ≡ (ok b, s')
      → (a : A) × (s : S) × (m ≡ (ok a, s)) × (f a s ≡ (ok b, s'))
  after-ok (ok a, s) f h = (a, s, refl, h)
  after-ok (err e, s) f h = cc

unfoldable pub failing : {S E F A : Type 0} → (E → F) → Action S E A → Action S F A
failing f m s = let (r, s') = m s in (map_err f r, s')
