-- ===== src/Auth/Outside.antt =====
-- What src/package/auth calls and does not hold: the libraries behind crypto.rs and jwt/mod.rs, the
-- mail, Google and schema services, the clock, and whether a statement reaches the database. They
-- share a state `W` of their own, so none of them writes the tables of accounts.
use schema_forge_backend.Base.{
  ℕ, ◌==◌, list_eq, nat_eq, Bool, false, List, Option, none, some, Result, Action,
}
use schema_forge_backend.Text.{Text, lit}
use schema_forge_backend.Domain.Schema.{Schema, SchemaDraft}
use schema_forge_backend.Errdef.Error.{Error}
use schema_forge_backend.Auth.Account.{Uuid, Instant, GoogleAccount}
use schema_forge_backend.Auth.Claims.{Claims}

-- `sqlx::Error`, by the code of a failure that the database names, and the text it displays as.
pub record SqlxError : Type 0 where
  pub code : Option Text
  pub text : Text

unfoldable pub code_of : SqlxError → Option Text
code_of e = e.code

-- `pg_error::is`
unfoldable pub is_code : SqlxError → Text → Bool
unfolding code_of
is_code e code = elim (code_of e) [ none ↦ false | some actual ↦ actual == code ]

unfoldable pub unique_violation_code : Text
unfolding lit
unique_violation_code = lit "23505"

pub record Outside (W : Type 0) : Type 0 where
  -- `Uuid::to_string`, `Uuid::parse_str` and `validate_email`
  pub uuid_text : Uuid → Text
  pub parse_uuid : Text → Option Uuid
  pub validate_email : Text → Bool
  -- `jsonwebtoken::encode` and `decode`, the latter at a number of seconds since the epoch
  pub encode : Claims → Result Text Text
  pub decode : ℕ → Text → Result Claims Text
  -- `bcrypt::hash`, `bcrypt::verify`, `Sha256::digest` in hexadecimal, 32 random bytes in hexadecimal
  pub bcrypt_hash : Text → Action W Text Text
  pub bcrypt_verify : (password hashed : Text) → Result Bool Text
  pub sha256_hex : Text → Text
  pub random_hex : W → Text × W
  -- the clock, and `uuid_generate_v4` of the database
  pub now : W → Instant × W
  pub new_uuid : W → Uuid × W
  -- whether a statement is carried out, and the text of the failure when a key is taken
  pub statement : Action W SqlxError (Unit {0})
  pub taken_text : Text
  -- `Emailer::send_html`, `GoogleIdentity::consent_url` and `account_for`, and `SchemaService::create`
  pub send_html : (to subject template_name : Text) → List (Text × Text) → Action W Text (Unit {0})
  pub consent_url : Text → Text
  pub account_for : Text → Action W Error GoogleAccount
  pub create_schema : Uuid → SchemaDraft → Action W Error Schema
