-- ===== src/Errdef/Laws.antt =====
-- What a caller learns from an error, and what its violations hold.
use schema_forge_backend.Base.{
  ℤ, pos, negsuc, int_beq, not, is_empty, true, false, ◌==◌, ==_iff, nat_eq, list_eq, if◌then◌else◌,
  List, [], ◌∷◌, ◌++◌, ◌≡◌, refl, arith, ◌↔◌, ◌⊎◌,
}
use schema_forge_backend.Text.{Text}
use schema_forge_backend.Errdef.Code.{TransportCode, transport_code_for, status_for}
use schema_forge_backend.Errdef.Violations.{Violations, text_ltb, push, messages_of}
use schema_forge_backend.Errdef.Error.{
  Error, app, validating, with_cause, push_violation, has_violations,
}
use schema_forge_backend.Errdef.Wire.{Encoding, is_server_error, to_status, into_response}

module _ {Value : Type 0} (encoding : Encoding Value) where
  -- A cause that is added to an error changes neither the gRPC status nor the HTTP response that
  -- the caller gets.
  pub with_cause-unseen :
      (e : Error) (cause : Text)
      → ((to_status encoding (with_cause e cause)).1 ≡ (to_status encoding e).1)
        × ((into_response encoding (with_cause e cause)).1 ≡ (into_response encoding e).1)
  unfolding to_status into_response with_cause
  with_cause-unseen (app e) cause = (refl, refl)
  with_cause-unseen (validating e) cause = (refl, refl)

-- A fault of the server: what gRPC tells apart from a mistake of the caller.
abbrev pub IsFault : TransportCode → Type 0
IsFault code =
    (code ≡ TransportCode.unimplemented)
    ⊎ ((code ≡ TransportCode.unavailable) ⊎ (code ≡ TransportCode.internal))

-- The two transports agree, for every code: HTTP answers with a 5xx exactly when gRPC answers with
-- Unimplemented, Unavailable or Internal.
pub status_for-transport :
    (code : ℤ) → (is_server_error (status_for code) ≡ true) ↔ IsFault (transport_code_for code)
unfolding status_for transport_code_for int_beq
status_for-transport (pos n) = ground arith
status_for-transport (negsuc n) = ground arith

text_ltb_trans : (a b c : Text) → text_ltb a b ≡ true → text_ltb b c ≡ true → text_ltb a c ≡ true
unfolding text_ltb
text_ltb_trans a b [] h k = cc
text_ltb_trans a [] (z ∷ c) h k = cc
text_ltb_trans [] (y ∷ b) (z ∷ c) h k = refl
text_ltb_trans (x ∷ a) (y ∷ b) (z ∷ c) h k = ground (arith, text_ltb_trans a b c)

text_ltb_total : (a b : Text) → text_ltb a b ≡ false → (a == b) ≡ false → text_ltb b a ≡ true
unfolding text_ltb
text_ltb_total [] [] h k = ground (arith, ==_iff {T = Text} [] [])
text_ltb_total [] (y ∷ b) h k = cc
text_ltb_total (x ∷ a) [] h k = refl
text_ltb_total (x ∷ a) (y ∷ b) h k =
    ground (arith, text_ltb_total a b, ==_iff a b, ==_iff {T = Text} (x ∷ a) (y ∷ b))

-- The keys come in strictly increasing order, each after `field`.
abbrev pub Follow : Text → Violations → Type 0
Follow field [] = Unit
Follow field ((key, messages) ∷ violations) = (text_ltb field key ≡ true) × Follow key violations

abbrev pub IsOrdered : Violations → Type 0
IsOrdered [] = Unit
IsOrdered ((key, messages) ∷ violations) = Follow key violations

text_ltb_irrefl : (a : Text) → text_ltb a a ≡ false
unfolding text_ltb
text_ltb_irrefl [] = refl
text_ltb_irrefl (x ∷ a) = ground (arith, text_ltb_irrefl a)

-- A field before the first key is not among the keys.
Follow-messages :
    (wanted first : Text) (violations : Violations)
    → text_ltb wanted first ≡ true
    → Follow first violations
    → messages_of wanted violations ≡ []
unfolding messages_of
Follow-messages wanted first [] h f = refl
Follow-messages wanted first ((key, messages) ∷ violations) h f =
    let before : text_ltb wanted key ≡ true = text_ltb_trans wanted first key h f.0 in
    ground (
      arith,
      Follow-messages wanted key violations before f.1,
      ==_iff wanted key,
      text_ltb_irrefl key,
    )

Follow-IsOrdered :
    (key : Text) (violations : Violations) → Follow key violations → IsOrdered violations
Follow-IsOrdered key [] f = tt
Follow-IsOrdered key ((k, messages) ∷ violations) f = f.1

push-messages :
    (field message wanted : Text) (violations : Violations)
    → IsOrdered violations
    → messages_of wanted (push field message violations) ≡ (
        if wanted == field
        then messages_of wanted violations ++ message ∷ []
        else messages_of wanted violations)
unfolding push messages_of
push-messages field message wanted [] o = ground arith
push-messages field message wanted ((key, messages) ∷ violations) o =
    let rest = push-messages field message wanted violations (Follow-IsOrdered key violations o) in
    ground (
      arith,
      rest,
      Follow-messages field key violations,
      ==_iff field key,
      ==_iff wanted key,
      ==_iff wanted field,
    )

push-Follow :
    (first field message : Text) (violations : Violations)
    → text_ltb first field ≡ true
    → Follow first violations
    → Follow first (push field message violations)
unfolding push
push-Follow first field message [] h f = (h, tt)
push-Follow first field message ((key, messages) ∷ violations) h f =
    let less : text_ltb field key ≡ false → (field == key) ≡ false → text_ltb key field ≡ true =
      text_ltb_total field key in
    ground (arith, less, push-Follow key field message violations)

push-IsOrdered :
    (field message : Text) (violations : Violations)
    → IsOrdered violations
    → IsOrdered (push field message violations)
unfolding push
push-IsOrdered field message [] o = tt
push-IsOrdered field message ((key, messages) ∷ violations) o =
    ground (arith, text_ltb_total field key, push-Follow key field message violations)

-- What a validation error says of a field, in the order in which it was said.
abbrev pub said : Text → Error → List Text
unfolding messages_of
said field (app e) = []
said field (validating e) = messages_of field e.field_violations

-- A violation pushed onto a validation error whose fields are in order is the last one that the
-- error says of that field, and changes what it says of no other; the fields stay in order, each
-- once, and the error has violations.
pub push_violation-said :
    (message : Text) (violations : Violations) (field text wanted : Text)
    → IsOrdered violations
    → let e = validating (record { message = message; field_violations = violations }) in
      let pushed = push_violation e field text in
      (said wanted pushed ≡ (if wanted == field then said wanted e ++ text ∷ [] else said wanted e))
      × (IsOrdered (push field text violations) × (has_violations pushed ≡ true))
unfolding push_violation has_violations push said messages_of
push_violation-said message violations field text wanted o = (
  push-messages field text wanted violations o,
  (push-IsOrdered field text violations o, not_empty violations),
)
  where
    not_empty : (vs : Violations) → not (is_empty (push field text vs)) ≡ true
    not_empty [] = refl
    not_empty ((key, messages) ∷ vs) = ground arith
