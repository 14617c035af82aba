-- ===== src/Tests/Sample.antt =====
-- A shop of two tables, `customer` and `order`, joined by a foreign key.
use schema_forge_backend.Base.{true, false, [], ◌∷◌, some, none}
use schema_forge_backend.Text.{lit}
use schema_forge_backend.Domain.DataType.{DataType, DataTypeKind}
use schema_forge_backend.Domain.Attribute.{Attribute}
use schema_forge_backend.Domain.Entity.{Entity}
use schema_forge_backend.Domain.Relationship.{Relationship, one_to_many}
use schema_forge_backend.Domain.Schema.{Schema}

abbrev pub big_int : DataType
big_int = record { kind = DataTypeKind.big_int; length = none; precision = none; scale = none }

abbrev pub email : DataType
email = record { kind = DataTypeKind.varchar; length = some 320; precision = none; scale = none }

abbrev pub customer_id : Attribute
unfolding lit
customer_id = record {
  id = lit "c1";
  name = lit "id";
  description = lit "The customer's number";
  data_type = big_int;
  nullable = false;
  primary_key = true;
  unique = false;
  foreign_key = none;
  default_value = none;
}

abbrev pub order_id : Attribute
unfolding lit
order_id = record customer_id { id = lit "o1" }

abbrev pub order_customer : Attribute
unfolding lit
order_customer = record {
  id = lit "o2";
  name = lit "customer_id";
  description = lit "Who ordered";
  data_type = big_int;
  nullable = false;
  primary_key = false;
  unique = false;
  foreign_key = some (record { entity_id = lit "c"; attribute_id = lit "c1" });
  default_value = none;
}

abbrev pub customer : Entity
unfolding lit
customer = record {
  id = lit "c";
  name = lit "customer";
  description = lit "Who buys";
  attributes = customer_id ∷ [];
  position = record { x = 0; y = 0 };
}

abbrev pub order : Entity
unfolding lit
order = record {
  id = lit "o";
  name = lit "order";
  description = lit "What one customer's basket held";
  attributes = order_id ∷ order_customer ∷ [];
  position = record { x = 0; y = 0 };
}

abbrev pub orders_of_customer : Relationship
unfolding lit
orders_of_customer = record {
  id = lit "r";
  name = lit "places";
  description = lit "A customer places orders";
  from_entity_id = lit "c";
  from_attribute_id = lit "c1";
  to_entity_id = lit "o";
  to_attribute_id = lit "o2";
  cardinality = one_to_many;
}

abbrev pub shop : Schema
unfolding lit
shop = record {
  id = lit "s";
  name = lit "shop";
  description = lit "";
  entities = customer ∷ order ∷ [];
  relationships = orders_of_customer ∷ [];
  created_at = 0;
  updated_at = 0;
}
