-- ===== src/Lib.antt =====
-- The verification library of the schema forge backend, a service in which database schemas are drawn,
-- checked, turned into PostgreSQL and read back. Paths are from the repository's root.
--
-- The program's parts and their modules
--
-- * `src/module/schema/core/domain` is the canonical schema model: tables (`Entity`) with columns
--   (`Attribute`), relationships, diagnostics, dialects and the counts of a comparison. `Domain` has a
--   module for each of its files, with the types and functions under the source's names; where two of
--   them share a name the word that tells them apart is added (`Relationship.new`, `category_name` for
--   `Category::as_str`).
-- * `src/module/schema/core/service/verifier` is the verifier: ten checks that each add diagnostics to a
--   report. `Verifier.Syntax`, `Structure`, `References`, `Cycles` and `Documentation` are the files of
--   that name, `Verifier.Names` has the helpers of `mod.rs`, and `Verifier` composes the checks in the
--   order of `CHECKS`. A check is a function `Schema → Report → Report`. `Verifier.WellFormed` says what
--   a sound schema is, `Verdict` and `Findings` compare the two.
-- * `src/module/schema/core/service/generator` writes the PostgreSQL of a schema: `Generator.Quote`,
--   `Table`, `Constraint`, `Comment` and `Layout`, composed by `Generator`.
-- * `src/module/schema/core/service/exchange/sql/scan.rs` is the scanner of the SQL reader, in
--   `Exchange.Sql`: `Token`, `Runs` (what the inner loops read), `Hint` (the layout comments) and `Scan`
--   (the scanner's state and its loop). `Cursor` is cursor.rs beside it, which reads the tokens, and
--   `Types` is types.rs, the spellings of a type. `Exchange.Names` is names.rs, the names in a JSON file.
-- * `src/module/schema/core/service/exchange/compare.rs` measures how much of one schema came back in
--   another, in `Exchange.Compare`: `Matching` is the pairing by the flags `taken`, `Elements` compares
--   tables, `Drafts` whole schemas. The comparison that the source changes through `&mut` is passed
--   from step to step.
-- * `src/package/rbac` decides what a user may do: `Rbac.Engine` is the engine over `Store`, the
--   interface of what the database answers, where `none` is an error.
-- * `src/package/errdef.rs` is the error every handler answers with: `Errdef.Code`, `Violations`,
--   `Error` and `Wire`, the gRPC status and the HTTP response with the line that is logged.
-- * `src/package/auth`, with `src/package/jwt` and `src/package/crypto.rs`, is accounts, tokens and
--   password resets. `Auth.Account` is domain.rs, `Auth.Tables` the statements of store.rs on the tables
--   of users and resets, `Auth.Crypto`, `Claims` and `Tokens` the two packages, `Auth.Steps` and
--   `Auth.Service` the functions and the operations of service.rs, and `Auth.Requests` a sequence of
--   operations. What the package calls is the interface `Auth.Outside`, which has a state of its own;
--   `Triples` has the rules by which an operation is followed from tables to tables, `Auth.Triples`
--   one more.
-- * `src/module/schema/core/service/schema.rs` is the service over stored and drawn schemas:
--   `SchemaService.Ports` is ports.rs, whose store is an interface over a state, `Service` the
--   operations, `Isolation` what is asked of the store, and `Sample` the schema of a new account.
-- * `src/module/schema/adapter/repository/postgres.rs` is the store, in `SchemaService.Postgres`:
--   `Stored` is the shape of a stored drawing, `Rows` the two tables of `migrations/schema` and what is
--   asked of the database, `Statements` and `Repository` the statements and the operations. JSON, `LOWER`, ids and the
--   clock are parameters; a commit that fails has written nothing.
-- * `src/package/pagination.rs` is `Pagination`: a request for a page, and the page.
-- * `Base` and `Text` hold what the source takes from Rust's standard library; `Tests` applies the
--   theorems at concrete inputs.
--
-- Representation
--
-- * A text is the list of its code points, and its length in bytes is that of its UTF-8 form. The
--   tables of Unicode that the standard library holds are the interface `Text.Case.Unicode`, with what
--   the source relies on: their agreement with ASCII. White space is the list of Unicode's White_Space.
-- * A number is a native natural number: an `f64` is its bit pattern, an instant is a number that grows
--   with time, and a `u32` wraps where the source adds to it. An `i64` is an integer `ℤ` whose sums and
--   products wrap around (`Base.Integers`), and a `Uuid` its 128-bit value.
-- * Code that reads and writes a state and can fail is an `Action` (`Base.Results`, `Base.Worlds`): it answers with a
--   `Result` and the state, and what it wrote before a failure stays written. A transaction of the
--   accounts writes at its commit, one of the schemas is rolled back when it fails. Any statement may fail, as the interface says, with any error.
-- * Parsing and printing of an `f64` are parameters.
-- * A position in the text that is scanned is the text that is left from there on.
-- * The `?` of `Option` and the `Result` of `FromStr` are `Option`; the text of such an error is left out.
--
-- Fuel
--
-- * The scanner's loop has as much fuel as the text has characters, and every round reads one.
-- * The search of `Cycles.Tarjan` has as much fuel as the graph has tables: a call goes one deeper
--   only to a table that has no number yet. That this suffices is not proved here.
--
-- What is not modelled
--
-- * The ratios of a comparison, which are `f64` divisions.
-- * The rest of the SQL reader (`render`, the tables and the assembly of a schema), the JSON reader,
--   `export` and `import` of the schema service, google.rs, the identity module and the server's
--   framing.
-- * Transports and mail, and the libraries that hash and sign. The order in which
--   statements of two calls interleave: calls come one after the other.
pub mod Base
pub mod Text
pub mod Domain
pub mod Verifier
pub mod Generator
pub mod Exchange
pub mod Rbac
pub mod SchemaService
pub mod Errdef
pub mod Pagination
pub mod Auth
pub mod Triples
pub mod Tests
