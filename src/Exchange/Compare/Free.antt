-- ===== src/Exchange/Compare/Free.antt =====
-- How many elements are free: taking what is found leaves one less.
use schema_forge_backend.Base.{
  ℕ, zero, suc, Bool, true, false, ◌≡◌, ◌≢◌, refl, List, [], ◌∷◌, length, arith, set, Option, none,
  some, replicate, if◌then◌else◌, ap,
}
use schema_forge_backend.Exchange.Compare.Matching.{shifted, find_free, free_from}

-- How many are free.
abbrev pub free : List Bool → ℕ
free [] = 0
free (t ∷ taken) = if t then free taken else suc (free taken)

module _ {A : Type 0} where
  shifted-zero : (o : Option (ℕ × A)) (x : A) → shifted o ≢ some (0, x)
  shifted-zero none x e = cc
  shifted-zero (some (at, y)) x e = ground (arith, e)

  shifted-suc :
      (o : Option (ℕ × A)) (at : ℕ) (x : A) → shifted o ≡ some (suc at, x) → o ≡ some (at, x)
  shifted-suc none at x e = cc
  shifted-suc (some (i, y)) at x e = ground (arith, e)

  -- What is found is free, and taking it leaves one less.
  pub find_free-free :
      (fits : A → Bool) (taken : List Bool) (xs : List A) (at : ℕ) (x : A)
      → find_free fits taken xs ≡ some (at, x)
      → suc (free (set taken at true)) ≡ free taken
  unfolding find_free
  find_free-free fits [] xs at x e = cc
  find_free-free fits (t ∷ taken) [] at x e = cc
  find_free-free fits (t ∷ taken) (y ∷ ys) zero x e =
      ground (arith, e, shifted-zero (find_free fits taken ys) x)
  find_free-free fits (t ∷ taken) (y ∷ ys) (suc at) x e =
      ground
        (arith, e, shifted-suc (find_free fits taken ys) at x, find_free-free fits taken ys at x)

  pub free_from-length :
      (first : ℕ) (taken : List Bool) (xs : List A)
      → length taken ≡ length xs
      → length (free_from first taken xs) ≡ free taken
  unfolding free_from
  free_from-length first [] xs h = refl
  free_from-length first (t ∷ taken) [] h = absurd (omega (arith, h))
  free_from-length first (t ∷ taken) (x ∷ xs) h =
      ground (arith, free_from-length (suc first) taken xs)

pub free-replicate : (n : ℕ) → free (replicate n false) ≡ n
free-replicate zero = refl
free-replicate (suc n) = ap suc (free-replicate n)
