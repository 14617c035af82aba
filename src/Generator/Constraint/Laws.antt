-- ===== src/Generator/Constraint/Laws.antt =====
-- The name of a foreign key constraint fits into an identifier of the database.
use schema_forge_backend.Base.{
  ℕ, zero, suc, ◌+◌, ◌-◌, ◌≤◌, ◌<◌, true, false, ltb, ◌≡◌, refl, [], ◌∷◌, ◌++◌, arith, Bool-cases,
  inl, inr, leb, if◌then◌else◌, subst, append-nil,
}
use schema_forge_backend.Text.{Text}
use schema_forge_backend.Text.Bytes.{len_utf8, len, is_char_boundary, truncate}
use schema_forge_backend.Generator.Constraint.{last_boundary, fitted, full_name, constraint_name}

len_utf8-pos : (c : ℕ) → 0 < len_utf8 c
unfolding len_utf8
len_utf8-pos c = ground arith

truncate-len-le : (s : Text) (at : ℕ) → len (truncate s at) ≤ at
unfolding len truncate
truncate-len-le [] at = omega arith
truncate-len-le (c ∷ s) at = ground (arith, truncate-len-le s (at - len_utf8 c))

-- The part that `truncate` cuts off.
cut_off : Text → ℕ → Text
cut_off [] at = []
cut_off (c ∷ s) at = if leb (len_utf8 c) at then cut_off s (at - len_utf8 c) else c ∷ s

truncate-append : (s : Text) (at : ℕ) → truncate s at ++ cut_off s at ≡ s
unfolding truncate cut_off
truncate-append [] at = refl
truncate-append (c ∷ s) at = ground (arith, truncate-append s (at - len_utf8 c))

truncate-len : (s : Text) (at : ℕ) → is_char_boundary s at ≡ true → len (truncate s at) ≡ at
unfolding len truncate is_char_boundary
truncate-len [] zero h = refl
truncate-len [] (suc at) h = cc
truncate-len (c ∷ s) zero h = ground (arith, len_utf8-pos c)
truncate-len (c ∷ s) (suc at) h = ground (arith, truncate-len s (suc at - len_utf8 c))

boundary_after :
    (c : ℕ) (s : Text) (at more : ℕ)
    → at ≡ len_utf8 c + more
    → is_char_boundary s more ≡ true
    → is_char_boundary (c ∷ s) at ≡ true
unfolding is_char_boundary
boundary_after c s zero more e h = refl
boundary_after c s (suc at) more e h =
    let shorter : suc at - len_utf8 c ≡ more = omega (arith, e) in
    let fits : ltb (suc at) (len_utf8 c) ≡ false = ground arith in rw (fits, shorter) h

boundary-len : (p rest : Text) → is_char_boundary (p ++ rest) (len p) ≡ true
unfolding len is_char_boundary
boundary-len [] rest = refl
boundary-len (c ∷ p) rest = boundary_after c (p ++ rest) _ (len p) refl (boundary-len p rest)

last_boundary-le : (name : Text) (at : ℕ) → last_boundary name at ≤ at
unfolding last_boundary
last_boundary-le name zero = omega arith
last_boundary-le name (suc at) = ground (arith, last_boundary-le name at)

boundary-zero : (s : Text) → is_char_boundary s 0 ≡ true
unfolding is_char_boundary
boundary-zero [] = refl
boundary-zero _ = refl

last_boundary-is : (name : Text) (at : ℕ) → is_char_boundary name (last_boundary name at) ≡ true
unfolding last_boundary
last_boundary-is name zero = boundary-zero name
last_boundary-is name (suc at) = ground (arith, last_boundary-is name at)

last_boundary-greatest :
    (name : Text) (at b : ℕ) → is_char_boundary name b ≡ true → b ≤ at → b ≤ last_boundary name at
unfolding last_boundary
last_boundary-greatest name zero b h k = k
last_boundary-greatest name (suc at) b h k = ground (arith, last_boundary-greatest name at b h)

abbrev Fits : Text → Text → Text → Type 0
Fits name full p = (len name ≤ 63) × ((rest : Text) × (name ++ rest ≡ full)) × (len p ≤ len name)

prefix-len-le : (p rest : Text) → len p ≤ len (p ++ rest)
unfolding len
prefix-len-le [] rest = omega arith
prefix-len-le (c ∷ p) rest = omega (arith, prefix-len-le p rest)

module _ (full p rest : Text) (e : p ++ rest ≡ full) (small : len p ≤ 63) where
  truncated-Fits : Fits (truncate full (last_boundary full 63)) full p
  truncated-Fits =
      let cut = last_boundary full 63 in
      let exact = truncate-len full cut (last_boundary-is full 63) in
      let boundary = subst (λ s. is_char_boundary s (len p) ≡ true) e (boundary-len p rest) in
      (
        omega (arith, exact, last_boundary-le full 63),
        (cut_off full cut, truncate-append full cut),
        omega (arith, exact, last_boundary-greatest full 63 (len p) boundary small),
      )

  whole-Fits : len full ≤ 63 → Fits full full p
  whole-Fits short =
      (short, ([], append-nil full), subst (λ s. len p ≤ len s) e (prefix-len-le p rest))

  fitted-Fits : Fits (fitted full) full p
  unfolding fitted
  fitted-Fits = elim (Bool-cases (ltb 63 (len full))) [
    | inl long ↦ rw long truncated-Fits
    | inr short ↦ rw short (whole-Fits (ground arith))
  ]

-- The name of a constraint is the start of the full name `fk_<table>_<column>`, has at most 63
-- bytes, and is at least as long as every start of the full name that has at most 63 bytes; so a
-- full name that fits is kept whole.
pub constraint_name_fits :
    (table column p rest : Text)
    → p ++ rest ≡ full_name table column
    → len p ≤ 63
    → (len (constraint_name table column) ≤ 63)
      × ((cut : Text) × (constraint_name table column ++ cut ≡ full_name table column))
      × (len p ≤ len (constraint_name table column))
unfolding constraint_name
constraint_name_fits table column p rest e small =
    fitted-Fits (full_name table column) p rest e small
