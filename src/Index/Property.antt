-- ===== src/Index/Property.antt =====
-- src/index/property.rs: the key under which a property value is indexed.
pub mod Order
pub mod Oversize
use rgraph.Prelude.{ℕ, Option, none, some, List, [], ◌∷◌}
use rgraph.Index.Key.{CompositeKey, property_index_key}
use rgraph.Index.ValueCodec.{ValueType, encode_property_value}

-- `.unwrap_or_else(|| vec![0x00])`
abbrev or_null : Option (List ℕ) → List ℕ
or_null none = 0x00 ∷ []
or_null (some bytes) = bytes

-- The key that `insert`, `delete` and `lookup` build.
unfoldable pub entry_key : ℕ → ValueType → List ℕ → ℕ → CompositeKey
unfolding encode_property_value
entry_key property_id value_type payload entity_id =
    property_index_key property_id (or_null (encode_property_value value_type payload)) entity_id
