-- ===== src/Tests/Spellings.antt =====
-- The names of a type.
use schema_forge_backend.Base.{◌≡◌, some}
use schema_forge_backend.Domain.DataType.{double_precision, as_str}
use schema_forge_backend.Exchange.Sql.Types.{kind_of}
use schema_forge_backend.Exchange.Names.{kind_name, kind_from_name, kind_from_name-kind_name}

kind_from_name-kind_name_example :
    (kind_from_name (kind_name double_precision) ≡ some double_precision)
    × ((kind_from_name (as_str double_precision) ≡ some double_precision)
        × (kind_of (as_str double_precision) ≡ some double_precision))
kind_from_name-kind_name_example = kind_from_name-kind_name double_precision
