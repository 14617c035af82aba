-- ===== src/Exchange/Compare/Matching.antt =====
-- Pairing by the flags `taken` of src/module/schema/core/service/exchange/compare.rs: each element
-- of one list takes the first element of the other that is free and fits.
use schema_forge_backend.Base.{
  ℕ, suc, Bool, false, not, ◌&&◌, if◌then◌else◌, List, [], ◌∷◌, Option, none, some, replicate,
  length,
}

abbrev pub shifted {ℓ} : {A : Type ℓ} → Option (ℕ × A) → Option (ℕ × A)
shifted none = none
shifted (some (at, x)) = some (suc at, x)

module _ {ℓ} {A : Type ℓ} where
  -- `.iter().enumerate().find(|(at, right)| !taken[*at] && …)`
  unfoldable pub find_free : (A → Bool) → List Bool → List A → Option (ℕ × A)
  find_free fits [] xs = none
  find_free fits (t ∷ taken) [] = none
  find_free fits (t ∷ taken) (x ∷ xs) =
      if not t && fits x then some (0, x) else shifted (find_free fits taken xs)

  -- `.iter().enumerate().filter(|(at, _)| !taken[*at])`
  unfoldable pub free_from : ℕ → List Bool → List A → List (ℕ × A)
  free_from at [] xs = []
  free_from at (t ∷ taken) [] = []
  free_from at (t ∷ taken) (x ∷ xs) =
      if t then free_from (suc at) taken xs else (at, x) ∷ free_from (suc at) taken xs

-- `vec![false; actual.len()]`
abbrev pub none_taken {ℓ} : {A : Type ℓ} → List A → List Bool
none_taken xs = replicate (length xs) false
