-- ===== src/Tests/Errors.antt =====
-- A refused registration, and an error with a cause.
use schema_forge_backend.Base.{
  ◌≡◌, ◌↔◌, ◌==◌, list_eq, nat_eq, true, if◌then◌else◌, [], ◌∷◌, ◌++◌, some,
}
use schema_forge_backend.Text.{Text, lit}
use schema_forge_backend.Errdef.Code.{status_for, transport_code_for, unavailable_code}
use schema_forge_backend.Errdef.Violations.{Violations, push}
use schema_forge_backend.Errdef.Error.{
  Error, validating, not_found, with_cause, push_violation, has_violations,
}
use schema_forge_backend.Errdef.Wire.{Encoding, to_status, into_response, is_server_error}
use schema_forge_backend.Errdef.Laws.{
  with_cause-unseen, status_for-transport, IsFault, push_violation-said, said, IsOrdered,
}

-- An encoding that writes nothing of the violations.
abbrev plain : Encoding Text
plain = record {
  to_string = λ violations. some [];
  to_value = λ violations. some [];
  null = [];
  parse = λ text. some text;
}

with_cause-unseen_example :
    ((to_status plain (with_cause (not_found (lit "gone")) (lit "row 7"))).1
      ≡ (to_status plain (not_found (lit "gone"))).1)
    × ((into_response plain (with_cause (not_found (lit "gone")) (lit "row 7"))).1
        ≡ (into_response plain (not_found (lit "gone"))).1)
with_cause-unseen_example = with_cause-unseen plain (not_found (lit "gone")) (lit "row 7")

status_for-transport_example :
    (is_server_error (status_for unavailable_code) ≡ true)
    ↔ IsFault (transport_code_for unavailable_code)
status_for-transport_example = status_for-transport unavailable_code

abbrev name_missing : Violations
unfolding lit
name_missing = (lit "name", lit "required" ∷ []) ∷ []

abbrev refused : Violations → Error
unfolding lit
refused violations = validating (record { message = lit "failed"; field_violations = violations })

push_violation-said_example :
    let pushed = push_violation (refused name_missing) (lit "email") (lit "not an address") in
    (said (lit "name") pushed ≡ (
      if lit "name" == lit "email"
      then said (lit "name") (refused name_missing) ++ lit "not an address" ∷ []
      else said (lit "name") (refused name_missing)))
    × (IsOrdered (push (lit "email") (lit "not an address") name_missing)
        × (has_violations pushed ≡ true))
unfolding name_missing refused
push_violation-said_example =
    push_violation-said (lit "failed") name_missing (lit "email") (lit "not an address")
      (lit "name") tt
