-- ===== src/Auth/Claims.antt =====
-- src/package/jwt/mod.rs: `Claims`, a `BTreeMap` as an association list in the order of its keys. Of
-- `serde_json::Value`, the shapes that the program puts into a claim, and `other` for the rest.
use schema_forge_backend.Base.{
  ℕ, ◌==◌, list_eq, nat_eq, if◌then◌else◌, List, [], ◌∷◌, Option, none, some,
}
use schema_forge_backend.Text.{Text}
use schema_forge_backend.Errdef.Violations.{text_ltb}

pub data Value : Type 0 where
  string : Text → Value
  strings : List Text → Value
  number : ℕ → Value
  other : Value

abbrev pub Claims : Type 0
Claims = List (Text × Value)

-- `BTreeMap::insert`
unfoldable pub insert : Text → Value → Claims → Claims
unfolding text_ltb
insert key value [] = (key, value) ∷ []
insert key value ((k, v) ∷ claims) =
    let rest = insert key value claims in
    if key == k
    then (key, value) ∷ claims
    else if text_ltb key k
    then (key, value) ∷ (k, v) ∷ claims
    else (k, v) ∷ rest

-- `BTreeMap::remove`
unfoldable pub remove : Text → Claims → Claims
remove key [] = []
remove key ((k, v) ∷ claims) =
    let rest = remove key claims in if key == k then claims else (k, v) ∷ rest

-- `BTreeMap::get`
unfoldable pub get : Text → Claims → Option Value
get key [] = none
get key ((k, v) ∷ claims) = if key == k then some v else get key claims

-- `Value::as_str`
abbrev pub as_str : Value → Option Text
as_str (string text) = some text
as_str _ = none
