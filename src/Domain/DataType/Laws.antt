-- ===== src/Domain/DataType/Laws.antt =====
-- The names of the kinds are read back, and two types are compatible when their families agree.
use schema_forge_backend.Base.{
  ◌≡◌, refl, none, some, ◌↔◌, true, arith, ◌==◌, list_eq, list_beq, nat_eq, find, ==_iff, List, [],
  ◌∷◌, ap, sym, ◌∙◌, Bool-cases, inl, inr,
}
use schema_forge_backend.Text.{Text, lit}
use schema_forge_backend.Text.Trim.{trim, trim_start, trim_end, is_whitespace}
use schema_forge_backend.Text.Case.{to_ascii_lowercase, to_ascii_lower}
use schema_forge_backend.Domain.DataType.{
  DataTypeKind, TypeFamily, as_str, from_str, variants, discriminant, family, DataType,
  is_compatible_with,
}

find-as_str : (k : DataTypeKind) → find (λ kind. as_str kind == as_str k) variants ≡ some k
unfolding as_str list_beq
find-as_str DataTypeKind.text = refl
find-as_str _ = refl

find_sound :
    (name : Text) (ks : List DataTypeKind) (k : DataTypeKind)
    → find (λ kind. as_str kind == name) ks ≡ some k
    → as_str k ≡ name
find_sound name [] k e = elim (absurd_none e) [ ]
  where
    absurd_none : none ≡ some k → ⊥
    absurd_none h = cc
find_sound name (x ∷ ks) k e = elim (Bool-cases (as_str x == name)) [
  | inl same ↦ let found : x ≡ k = ground arith in ap as_str (sym found) ∙ (==_iff _ _).0 same
  | inr other ↦ find_sound name ks k (rw other at e)
]

-- Parsing yields a kind exactly when the text, trimmed and in lower case, is that kind's name.
pub data_type_from_str_iff :
    (value : Text) (k : DataTypeKind)
    → (from_str value ≡ some k) ↔ (to_ascii_lowercase (trim value) ≡ as_str k)
unfolding from_str
data_type_from_str_iff value k = (λ e. sym (find_sound _ variants k e), λ e. rw e (find-as_str k))

lower_name : (k : DataTypeKind) → to_ascii_lowercase (trim (as_str k)) ≡ as_str k
unfolding as_str lit trim trim_start trim_end is_whitespace to_ascii_lowercase to_ascii_lower
lower_name DataTypeKind.text = refl
lower_name _ = refl

pub from_str-as_str : (k : DataTypeKind) → from_str (as_str k) ≡ some k
from_str-as_str k = (data_type_from_str_iff (as_str k) k).1 (lower_name k)

discriminant_inj : (f g : TypeFamily) → discriminant f ≡ discriminant g → f ≡ g
unfolding discriminant
discriminant_inj f g e = ground arith

-- Two types are compatible exactly when their kinds are of one family.
pub is_compatible_with_iff :
    (a b : DataType) → (is_compatible_with a b ≡ true) ↔ (family a.kind ≡ family b.kind)
unfolding is_compatible_with
is_compatible_with_iff a b =
    (λ e. discriminant_inj _ _ ((==_iff _ _).0 e), λ e. (==_iff _ _).1 (ap discriminant e))
