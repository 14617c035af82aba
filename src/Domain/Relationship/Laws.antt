-- ===== src/Domain/Relationship/Laws.antt =====
-- Which texts are read as a cardinality, and that what is written of one is read back.
use schema_forge_backend.Base.{
  ◌≡◌, refl, some, ◌↔◌, ◌⊎◌, inl, inr, arith, ==_iff, list_eq, list_beq, nat_eq,
}
use schema_forge_backend.Text.{Text, lit}
use schema_forge_backend.Text.Trim.{trim, trim_start, trim_end, is_whitespace}
use schema_forge_backend.Text.Case.{to_ascii_uppercase, to_ascii_upper}
use schema_forge_backend.Domain.Relationship.{
  Cardinality, one_to_one, one_to_many, many_to_many, as_str, cardinality_named, from_str,
}

-- The two spellings of each cardinality.
abbrev pub Spells : Text → Cardinality → Type 0
unfolding lit
Spells v one_to_one = (v ≡ lit "1:1") ⊎ (v ≡ lit "ONE_TO_ONE")
Spells v one_to_many = (v ≡ lit "1:N") ⊎ (v ≡ lit "ONE_TO_MANY")
Spells v many_to_many = (v ≡ lit "N:M") ⊎ (v ≡ lit "MANY_TO_MANY")

named-Spells : (v : Text) (c : Cardinality) → cardinality_named v ≡ some c → Spells v c
unfolding cardinality_named Spells
named-Spells v one_to_one e = ground (
  arith,
  ==_iff v (lit "1:1"),
  ==_iff v (lit "ONE_TO_ONE"),
  ==_iff v (lit "1:N"),
  ==_iff v (lit "ONE_TO_MANY"),
  ==_iff v (lit "N:M"),
  ==_iff v (lit "MANY_TO_MANY"),
)
named-Spells v one_to_many e = ground (
  arith,
  ==_iff v (lit "1:1"),
  ==_iff v (lit "ONE_TO_ONE"),
  ==_iff v (lit "1:N"),
  ==_iff v (lit "ONE_TO_MANY"),
  ==_iff v (lit "N:M"),
  ==_iff v (lit "MANY_TO_MANY"),
)
named-Spells v many_to_many e = ground (
  arith,
  ==_iff v (lit "1:1"),
  ==_iff v (lit "ONE_TO_ONE"),
  ==_iff v (lit "1:N"),
  ==_iff v (lit "ONE_TO_MANY"),
  ==_iff v (lit "N:M"),
  ==_iff v (lit "MANY_TO_MANY"),
)

named_complete : (v : Text) (c : Cardinality) → Spells v c → cardinality_named v ≡ some c
unfolding cardinality_named Spells list_beq lit
named_complete v one_to_one h = elim h [ inl e ↦ rw e refl | inr e ↦ rw e refl ]
named_complete v one_to_many h = elim h [ inl e ↦ rw e refl | inr e ↦ rw e refl ]
named_complete v many_to_many h = elim h [ inl e ↦ rw e refl | inr e ↦ rw e refl ]

pub from_str-as_str : (c : Cardinality) → from_str (as_str c) ≡ some c
unfolding from_str cardinality_named as_str list_beq lit trim trim_start trim_end is_whitespace
    to_ascii_uppercase to_ascii_upper
from_str-as_str one_to_one = refl
from_str-as_str one_to_many = refl
from_str-as_str many_to_many = refl

-- A text is read as a cardinality exactly when it is, trimmed and in upper case, one of the two
-- spellings of that cardinality; and the symbol that is written for a cardinality is read back as it.
pub cardinality_from_str_iff :
    (value : Text) (c : Cardinality)
    → ((from_str value ≡ some c) ↔ Spells (to_ascii_uppercase (trim value)) c)
      × (from_str (as_str c) ≡ some c)
unfolding from_str
cardinality_from_str_iff value c = ((named-Spells _ c, named_complete _ c), from_str-as_str c)
