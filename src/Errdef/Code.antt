-- ===== src/Errdef/Code.antt =====
-- src/package/errdef.rs: the application's codes, each an `i32`, and `transport_code_for` and
-- `status_for`. An HTTP status is its number, `TransportCode` the part of gRPC's `Code` in use.
use schema_forge_backend.Base.{ℕ, ℤ, pos, ◌==◌, int_eq, ◌||◌, if◌then◌else◌}

abbrev pub validation_failed : ℤ
validation_failed = pos 1000

abbrev pub not_found_code : ℤ
not_found_code = pos 1001

abbrev pub unauthorized_code : ℤ
unauthorized_code = pos 1002

abbrev pub bad_request_code : ℤ
bad_request_code = pos 1003

abbrev pub resource_conflict : ℤ
resource_conflict = pos 1004

abbrev pub unprocessable_code : ℤ
unprocessable_code = pos 1005

abbrev pub forbidden_code : ℤ
forbidden_code = pos 1006

abbrev pub unimplemented_code : ℤ
unimplemented_code = pos 1007

abbrev pub unavailable_code : ℤ
unavailable_code = pos 1008

abbrev pub unknown_code : ℤ
unknown_code = pos 2000

pub data TransportCode : Type 0 where
  not_found unauthenticated invalid_argument already_exists : TransportCode
  permission_denied unimplemented unavailable internal : TransportCode

unfoldable pub transport_code_for : ℤ → TransportCode
transport_code_for code =
    if code == not_found_code
    then not_found
    else if code == unauthorized_code
    then unauthenticated
    else if code == bad_request_code
    then invalid_argument
    else if code == resource_conflict
    then already_exists
    else if code == unprocessable_code || code == validation_failed
    then invalid_argument
    else if code == forbidden_code
    then permission_denied
    else if code == unimplemented_code
    then unimplemented
    else if code == unavailable_code
    then unavailable
    else if code == unknown_code
    then internal
    else invalid_argument

unfoldable pub status_for : ℤ → ℕ
status_for code =
    if code == not_found_code
    then 404
    else if code == unauthorized_code
    then 401
    else if code == bad_request_code
    then 400
    else if code == resource_conflict
    then 409
    else if code == unprocessable_code
    then 422
    else if code == forbidden_code
    then 403
    else if code == unimplemented_code
    then 501
    else if code == unavailable_code
    then 503
    else if code == unknown_code
    then 500
    else 400
