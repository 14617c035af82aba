-- ===== src/Base/Lists.antt =====
-- Lists measured by native numbers, and the iterator adaptors of the source: `any`, `all`, `find`,
-- `filter`, `is_empty`. A `for` loop that changes a state is `for_each`.
use Prim.Native.Nat.{ℕ, zero, suc, ◌+◌}
use mathlib.Core.Path.{◌≡◌, refl, sym, subst}
use mathlib.Core.Logic.{◌↔◌, inl, inr}
use mathlib.Core.Bool.{Bool, true, false, ◌&&◌, ◌||◌}
use mathlib.Core.List.{List, [], ◌∷◌, ◌++◌, Memᴰ}
use mathlib.Core.List.Memᴰ
use mathlib.Core.Option.{Option, none, some}
use native.Mathlib.Omega.{arith}
use schema_forge_backend.Base.Tests.{if◌then◌else◌, and-true_iff, or-true_iff, or-false_iff}

module _ {ℓ} {A : Type ℓ} where
  abbrev pub length : List A → ℕ
  length [] = 0
  length (x ∷ xs) = suc (length xs)

  abbrev pub get_elem? : List A → ℕ → Option A
  get_elem? [] i = none
  get_elem? (x ∷ xs) zero = some x
  get_elem? (x ∷ xs) (suc i) = get_elem? xs i

  abbrev pub take : ℕ → List A → List A
  take zero xs = []
  take (suc n) [] = []
  take (suc n) (x ∷ xs) = x ∷ take n xs

  abbrev pub drop : ℕ → List A → List A
  drop zero xs = xs
  drop (suc n) [] = []
  drop (suc n) (x ∷ xs) = drop n xs

  abbrev pub replicate : ℕ → A → List A
  replicate zero a = []
  replicate (suc n) a = a ∷ replicate n a

  -- `xs[i]`, which the source reads in range only.
  abbrev pub get_or : List A → ℕ → A → A
  get_or [] i d = d
  get_or (x ∷ xs) zero d = x
  get_or (x ∷ xs) (suc i) d = get_or xs i d

  -- `xs[i] = v`
  abbrev pub set : List A → ℕ → A → List A
  set [] i v = []
  set (x ∷ xs) zero v = v ∷ xs
  set (x ∷ xs) (suc i) v = x ∷ set xs i v

  pub length-set : (xs : List A) (i : ℕ) (v : A) → length (set xs i v) ≡ length xs
  length-set [] i v = refl
  length-set (x ∷ xs) zero v = refl
  length-set (x ∷ xs) (suc i) v = omega (arith, length-set xs i v)

  abbrev pub is_empty : List A → Bool
  is_empty [] = true
  is_empty (x ∷ xs) = false

  pub length-append : (xs ys : List A) → length (xs ++ ys) ≡ length xs + length ys
  length-append [] ys = omega arith
  length-append (x ∷ xs) ys = omega (arith, length-append xs ys)

  abbrev pub all : (A → Bool) → List A → Bool
  all p [] = true
  all p (x ∷ xs) = p x && all p xs

  abbrev pub any : (A → Bool) → List A → Bool
  any p [] = false
  any p (x ∷ xs) = p x || any p xs

  abbrev pub find : (A → Bool) → List A → Option A
  find p [] = none
  find p (x ∷ xs) = if p x then some x else find p xs

  abbrev pub filter : (A → Bool) → List A → List A
  filter p [] = []
  filter p (x ∷ xs) = if p x then x ∷ filter p xs else filter p xs

  -- A `for` loop whose body changes the state `S`.
  abbrev pub for_each {κ} : {S : Type κ} → List A → (A → S → S) → S → S
  for_each [] body s = s
  for_each (x ∷ xs) body s = for_each xs body (body x s)

  abbrev pub is_some : Option A → Bool
  is_some none = false
  is_some (some a) = true

module _ {ℓ} {A : Type ℓ} where
  pub any-true_iff :
      (q : A → Bool) (xs : List A) → (any q xs ≡ true) ↔ ((x : A) × Memᴰ x xs × (q x ≡ true))
  any-true_iff q [] = ((λ e. cc), (λ (x, m, _). absurd (Memᴰ.not-nil m)))
  any-true_iff q (x ∷ xs) = (
    λ e. elim ((or-true_iff (q x) (any q xs)).0 e) [
      | inl here ↦ (x, Memᴰ.head refl, here)
      | inr later ↦ let (y, m, holds) = (any-true_iff q xs).0 later in (y, Memᴰ.tail m, holds)
    ],
    λ (y, m, holds). elim (Memᴰ.cases_cons m) [
      | inl same ↦ (or-true_iff (q x) (any q xs)).1 (inl (rw (← same) holds))
      | inr m' ↦ (or-true_iff (q x) (any q xs)).1 (inr ((any-true_iff q xs).1 (y, m', holds)))
    ],
  )

  pub any-none : (q : A → Bool) (xs : List A) → ((x : A) → q x ≡ false) → any q xs ≡ false
  any-none q [] h = refl
  any-none q (x ∷ xs) h = rw (h x) (any-none q xs h)

-- `a.iter().zip(b)`
abbrev pub zip {ℓ} : {A B : Type ℓ} → List A → List B → List (A × B)
zip [] ys = []
zip (x ∷ xs) [] = []
zip (x ∷ xs) (y ∷ ys) = (x, y) ∷ zip xs ys

-- What holds of every member, as a predicate by recursion.
module _ {ℓ κ} {A : Type ℓ} where
  abbrev pub All : (A → Type κ) → List A → Type κ
  All P [] = Unit
  All P (x ∷ xs) = P x × All P xs

  pub all-true_iff :
      {P : A → Type κ} (p : A → Bool) (xs : List A)
      → ((x : A) → (p x ≡ true) ↔ P x)
      → (all p xs ≡ true) ↔ All P xs
  all-true_iff p [] h = (λ _. tt, λ _. refl)
  all-true_iff p (x ∷ xs) h = (
    λ e.
        let (here, later) = (and-true_iff _ _).0 e in ((h x).0 here, (all-true_iff p xs h).0 later),
    λ (here, later). (and-true_iff _ _).1 ((h x).1 here, (all-true_iff p xs h).1 later),
  )

  pub any-false_iff :
      {P : A → Type κ} (q : A → Bool) (xs : List A)
      → ((x : A) → (q x ≡ false) ↔ P x)
      → (any q xs ≡ false) ↔ All P xs
  any-false_iff q [] h = (λ _. tt, λ _. refl)
  any-false_iff q (x ∷ xs) h = (
    λ e.
        let (here, later) = (or-false_iff _ _).0 e in
        ((h x).0 here, (any-false_iff q xs h).0 later),
    λ (here, later). (or-false_iff _ _).1 ((h x).1 here, (any-false_iff q xs h).1 later),
  )

  pub All-mem : (P : A → Type κ) (xs : List A) → All P xs → (x : A) → Memᴰ x xs → P x
  All-mem P [] h y m = absurd (Memᴰ.not-nil m)
  All-mem P (x ∷ xs) h y (Memᴰ.head e) = subst P (sym e) h.0
  All-mem P (x ∷ xs) h y (Memᴰ.tail m) = All-mem P xs h.1 y m

  pub All-of_mem : (P : A → Type κ) (xs : List A) → ((x : A) → Memᴰ x xs → P x) → All P xs
  All-of_mem P [] h = tt
  All-of_mem P (x ∷ xs) h = (h x (Memᴰ.head refl), All-of_mem P xs (λ y m. h y (Memᴰ.tail m)))

-- The numbers from `first`, as many as `n`: the range `first..first + n`.
abbrev pub range_from : ℕ → ℕ → List ℕ
range_from first zero = []
range_from first (suc n) = first ∷ range_from (suc first) n

-- `sort_unstable` by a total order whose equal elements are the same.
module _ {ℓ} {A : Type ℓ} (le : A → A → Bool) where
  unfoldable pub insert_sorted : A → List A → List A
  insert_sorted x [] = x ∷ []
  insert_sorted x (y ∷ ys) = if le x y then x ∷ (y ∷ ys) else y ∷ insert_sorted x ys

  unfoldable pub sorted : List A → List A
  unfolding insert_sorted
  sorted [] = []
  sorted (x ∷ xs) = insert_sorted x (sorted xs)
