-- ===== src/Errdef/Violations.antt =====
-- src/package/errdef.rs: `field_violations`, a `BTreeMap` from a field to its messages: an
-- association list in the order of the keys, each key once. A text is less than another when its
-- bytes are, which for UTF-8 is the order of the code points.
use schema_forge_backend.Base.{
  Bool, true, false, ◌==◌, nat_eq, list_eq, ltb, if◌then◌else◌, List, [], ◌∷◌, ◌++◌,
}
use schema_forge_backend.Text.{Text}

abbrev pub Violations : Type 0
Violations = List (Text × List Text)

unfoldable pub text_ltb : Text → Text → Bool
text_ltb left [] = false
text_ltb [] (r ∷ right) = true
text_ltb (l ∷ left) (r ∷ right) =
    let rest = text_ltb left right in if ltb l r then true else if l == r then rest else false

-- `entry(field).or_default().push(message)`
unfoldable pub push : Text → Text → Violations → Violations
unfolding text_ltb
push field message [] = (field, message ∷ []) ∷ []
push field message ((key, messages) ∷ violations) =
    let rest = push field message violations in
    if field == key
    then (key, messages ++ message ∷ []) ∷ violations
    else if text_ltb field key
    then (field, message ∷ []) ∷ (key, messages) ∷ violations
    else (key, messages) ∷ rest

-- `get(field)`, of which a missing key has no message.
unfoldable pub messages_of : Text → Violations → List Text
messages_of field [] = []
messages_of field ((key, messages) ∷ violations) =
    if field == key then messages else messages_of field violations
