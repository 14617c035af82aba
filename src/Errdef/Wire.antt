-- ===== src/Errdef/Wire.antt =====
-- src/package/errdef.rs: an error as a gRPC status and as an HTTP response, with
-- src/package/response.rs. JSON and the syntax of a metadata value are the libraries', a parameter.
use schema_forge_backend.Base.{
  ℕ, ℤ, pos, Bool, leb, ltb, ◌&&◌, ◌==◌, list_eq, nat_eq, if◌then◌else◌, List, [], ◌∷◌, Option,
  none, some,
}
use schema_forge_backend.Text.{Text, lit}
use schema_forge_backend.Text.Decimal.{decimal_int}
use schema_forge_backend.Errdef.Code.{
  TransportCode, validation_failed, transport_code_for, status_for,
}
use schema_forge_backend.Errdef.Violations.{Violations}
use schema_forge_backend.Errdef.Error.{Error, app, validating, app_code, display}

-- `serde_json::to_string`, `serde_json::to_value` and `Value::Null`, and a metadata value's `parse`.
pub record Encoding (Value : Type 0) : Type 0 where
  pub to_string : Violations → Option Text
  pub to_value : Violations → Option Value
  pub null : Value
  pub parse : Text → Option Text

abbrev pub Metadata : Type 0
Metadata = List (Text × Text)

-- `MetadataMap::insert`, which replaces the value of a key that is there.
unfoldable pub insert : Text → Text → Metadata → Metadata
insert key value [] = (key, value) ∷ []
insert key value ((k, v) ∷ metadata) =
    let rest = insert key value metadata in
    if key == k then (k, value) ∷ metadata else (k, v) ∷ rest

pub record Status : Type 0 where
  pub code : TransportCode
  pub message : Text
  pub metadata : Metadata

-- `response::Error` and `response::Response`, with what the latter carries beside the error.
pub record ResponseError (Value : Type 0) : Type 0 where
  pub code : ℤ
  pub message : Text
  pub errors : Option Value

pub record Response (Value : Type 0) : Type 0 where
  pub content : Option Value
  pub pagination : Option Value
  pub error : Option (ResponseError Value)

unfoldable pub error_body : {Value : Type 0} → ResponseError Value → Response Value
error_body e = record { content = none; pagination = none; error = some e }

-- A log line: whether it is one of level error, with the status and the error's text.
pub record LogLine : Type 0 where
  pub is_error : Bool
  pub status : ℕ
  pub error : Text

-- `StatusCode::is_server_error`
abbrev pub is_server_error : ℕ → Bool
is_server_error status = leb 500 status && ltb status 600

unfoldable pub log : Error → LogLine
unfolding app_code status_for display
log e = record {
  is_error = is_server_error (status_for (app_code e));
  status = status_for (app_code e);
  error = display e;
}

module _ {Value : Type 0} (encoding : Encoding Value) where
  insert_parsed : Text → Option Text → Metadata → Metadata
  unfolding insert
  insert_parsed key none metadata = metadata
  insert_parsed key (some value) metadata = insert key value metadata

  insert_violations : Option Text → Metadata → Metadata
  unfolding insert_parsed lit
  insert_violations none metadata = metadata
  insert_violations (some violations) metadata =
      insert_parsed (lit "x-validation-violations") (encoding.parse violations) metadata

  status_of : Error → Status
  unfolding insert_violations transport_code_for
  status_of (validating e) = record {
    code = transport_code_for validation_failed;
    message = e.message;
    metadata = insert_violations (encoding.to_string e.field_violations) [];
  }
  status_of (app e) = record {
    code = transport_code_for e.code;
    message = e.message;
    metadata = [];
  }

  -- `From<Error> for Status`, with the line that it logs.
  unfoldable pub to_status : Error → LogLine × Status
  unfolding status_of insert_parsed log app_code lit decimal_int
  to_status e =
      let status = status_of e in
      (
        log e,
        record status {
          metadata =
              insert_parsed (lit "x-app-code") (encoding.parse (decimal_int (app_code e)))
                status.metadata;
        },
      )

  or_null : Option Value → Value
  or_null none = encoding.null
  or_null (some value) = value

  response_of : Error → ℕ × ResponseError Value
  unfolding or_null status_for
  response_of (validating e) = (
    422,
    record {
      code = pos 422;
      message = e.message;
      errors = some (or_null (encoding.to_value e.field_violations));
    },
  )
  response_of (app e) = (
    status_for e.code,
    record { code = pos (status_for e.code); message = e.message; errors = none },
  )

  -- `IntoResponse`, with the line that it logs.
  unfoldable pub into_response : Error → LogLine × ℕ × Response Value
  unfolding response_of log error_body
  into_response e = let (status, body) = response_of e in (log e, status, error_body body)
