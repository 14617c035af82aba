-- ===== src/Domain/Diagnostic/Code.antt =====
-- The stable diagnostic codes of src/module/schema/core/domain/diagnostic.rs.
use schema_forge_backend.Text.{Text, lit}

unfoldable pub dangling_relationship : Text
unfolding lit
dangling_relationship = lit "SF-REL-DANGLING"

unfoldable pub attribute_without_type : Text
unfolding lit
attribute_without_type = lit "SF-ATTR-UNTYPED"

unfoldable pub empty_name : Text
unfolding lit
empty_name = lit "SF-NAME-EMPTY"

unfoldable pub empty_schema : Text
unfolding lit
empty_schema = lit "SF-SCHEMA-EMPTY"

unfoldable pub invalid_type_parameter : Text
unfolding lit
invalid_type_parameter = lit "SF-TYPE-PARAM"

unfoldable pub duplicate_entity_name : Text
unfolding lit
duplicate_entity_name = lit "SF-DUP-ENTITY"

unfoldable pub duplicate_attribute_name : Text
unfolding lit
duplicate_attribute_name = lit "SF-DUP-ATTRIBUTE"

unfoldable pub missing_primary_key : Text
unfolding lit
missing_primary_key = lit "SF-KEY-MISSING"

unfoldable pub invalid_foreign_key : Text
unfolding lit
invalid_foreign_key = lit "SF-FK-INVALID"

unfoldable pub foreign_key_not_a_key : Text
unfolding lit
foreign_key_not_a_key = lit "SF-FK-NOT-A-KEY"

unfoldable pub circular_dependency : Text
unfolding lit
circular_dependency = lit "SF-DEP-CYCLE"

unfoldable pub type_mismatch : Text
unfolding lit
type_mismatch = lit "SF-TYPE-MISMATCH"

unfoldable pub relationship_without_foreign_key : Text
unfolding lit
relationship_without_foreign_key = lit "SF-REL-NO-FK"

unfoldable pub cardinality_mismatch : Text
unfolding lit
cardinality_mismatch = lit "SF-REL-CARDINALITY"

unfoldable pub missing_description : Text
unfolding lit
missing_description = lit "SF-DOC-MISSING"

unfoldable pub import_skipped : Text
unfolding lit
import_skipped = lit "SF-IMPORT-SKIPPED"
