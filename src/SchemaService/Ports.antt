-- ===== src/SchemaService/Ports.antt =====
-- src/module/schema/core/ports.rs, `DomainError` of domain/mod.rs: what the service is asked, and the
-- interface of the store behind it, whose operations read and write a state `S` and can fail.
use schema_forge_backend.Base.{ℕ, Bool, List, Option, Action, ℤ}
use schema_forge_backend.Text.{Text}
use schema_forge_backend.Domain.Schema.{Schema, SchemaDraft, SchemaSummary}
use schema_forge_backend.Domain.Diagnostic.{Report}
use schema_forge_backend.Domain.Dialect.{Dialect}
use schema_forge_backend.Generator.{GenerateOptions}
use schema_forge_backend.Pagination.{ListRequest}

-- A `Uuid` is its 128-bit value.
abbrev pub Uuid : Type 0
Uuid = ℕ

pub data DomainError : Type 0 where
  schema_not_found : DomainError
  duplicate_schema_name : Text → DomainError
  storage : Text → DomainError

pub record SchemaRepository (S : Type 0) : Type 0 where
  pub index : Uuid → ListRequest → Action S DomainError (List SchemaSummary × ℤ)
  pub create : Uuid → SchemaDraft → Action S DomainError Schema
  pub find_by_id : Uuid → Text → Action S DomainError (Option Schema)
  pub find_by_name : Uuid → Text → Action S DomainError (Option Schema)
  pub replace : Uuid → Text → SchemaDraft → Action S DomainError Schema
  pub delete : Uuid → Text → Action S DomainError (Unit {0})

pub record Generator : Type 0 where
  pub dialect : Dialect
  pub generate : Schema → GenerateOptions → Text

pub data ValidationTarget : Type 0 where
  stored : Text → ValidationTarget
  drawn : Schema → ValidationTarget

pub record GenerateRequest : Type 0 where
  pub target : ValidationTarget
  pub dialect : Dialect
  pub options : GenerateOptions

pub record CompareRequest : Type 0 where
  pub expected : ValidationTarget
  pub actual : ValidationTarget
  pub include_positions : Bool

pub record Generated : Type 0 where
  pub ddl : Text
  pub report : Report
