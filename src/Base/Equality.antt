-- ===== src/Base/Equality.antt =====
-- Rust's `PartialEq` on a type where it decides equality: an interface with its law.
use mathlib.Core.Path.{◌≡◌, refl}
use mathlib.Core.Logic.{◌↔◌}
use mathlib.Core.Bool.{Bool, true, false, ◌&&◌}
use mathlib.Core.List.{List, [], ◌∷◌}
use Prim.Native.Nat.{ℕ}
use native.Mathlib.Omega.{arith}
use schema_forge_backend.Base.Tests.{nat_beq, nat_beq_iff}

-- `PartialEq::eq`, with what a derived one promises: it answers whether the two are the same.
pub record PartialEq {ℓ} (T : Type ℓ) : Type ℓ where
  pub eq : T → T → Bool
  pub decides : (left right : T) → (eq left right ≡ true) ↔ (left ≡ right)

module _ {ℓ} {T : Type ℓ} ⦃t : PartialEq T⦄ where
  infix 50 ◌==◌
  abbrev pub ◌==◌ : T → T → Bool
  left == right = t.eq left right

  pub ==_iff : (left right : T) → ((left == right) ≡ true) ↔ (left ≡ right)
  ==_iff = t.decides

  pub ==_refl : (same : T) → (same == same) ≡ true
  ==_refl same = (t.decides same same).1 refl

  unfoldable pub list_beq : List T → List T → Bool
  list_beq [] [] = true
  list_beq (l ∷ left) (r ∷ right) = (l == r) && list_beq left right
  list_beq _ _ = false

  pub list_beq_iff : (left right : List T) → (list_beq left right ≡ true) ↔ (left ≡ right)
  unfolding list_beq
  list_beq_iff [] [] = ground arith
  list_beq_iff [] (r ∷ right) = ground arith
  list_beq_iff (l ∷ left) [] = ground arith
  list_beq_iff (l ∷ left) (r ∷ right) = ground (arith, t.decides l r, list_beq_iff left right)

  instance abbrev pub list_eq : PartialEq (List T)
  list_eq = record { eq = list_beq; decides = list_beq_iff }

instance abbrev pub nat_eq : PartialEq ℕ
nat_eq = record { eq = nat_beq; decides = nat_beq_iff }
