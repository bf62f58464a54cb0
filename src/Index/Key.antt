-- ===== src/Index/Key.antt =====
-- src/index/key.rs: composite keys as byte strings. A slice index out of range panics in the
-- source; the functions that can do so return `none` there.
pub mod Order
pub mod Fields
use rgraph.Prelude.{
  ℕ, zero, suc, ◌+◌, Bool, Option, none, some, List, [], ◌∷◌, ◌++◌, length, take, drop, leb, ◌==◌,
  if◌then◌else◌, Ordering,
}
use rgraph.Prelude.Bytes.{be_bytes, from_be_bytes}
use rgraph.Prelude.Bytes.Lex.{lex_cmp}

-- The inline capacity of a `SmallVec`. It changes where the bytes live, and not what they are.
abbrev pub max_key_len : ℕ
max_key_len = 40

pub record CompositeKey : Type 0 where
  pub bytes : List ℕ

unfoldable pub empty : CompositeKey
empty = record { bytes = [] }

unfoldable pub from_slice : List ℕ → CompositeKey
from_slice bs = record { bytes = bs }

unfoldable pub from_bytes : List ℕ → CompositeKey
from_bytes bs = record { bytes = bs }

unfoldable pub as_slice : CompositeKey → List ℕ
as_slice k = k.bytes

unfoldable pub cmp_keys : CompositeKey → CompositeKey → Ordering
unfolding as_slice
cmp_keys a b = lex_cmp (as_slice a) (as_slice b)

unfoldable pub len : CompositeKey → ℕ
len k = length k.bytes

unfoldable pub is_empty : CompositeKey → Bool
is_empty k = length k.bytes == 0

pub record KeyBuilder : Type 0 where
  pub bytes : List ℕ

unfoldable pub new_builder : KeyBuilder
new_builder = record { bytes = [] }

unfoldable pub push_u64_be : ℕ → KeyBuilder → KeyBuilder
push_u64_be v b = record b { bytes = b.bytes ++ be_bytes 8 v }

unfoldable pub push_u128_be : ℕ → KeyBuilder → KeyBuilder
push_u128_be v b = record b { bytes = b.bytes ++ be_bytes 16 v }

unfoldable pub push_slice : List ℕ → KeyBuilder → KeyBuilder
push_slice s b = record b { bytes = b.bytes ++ s }

unfoldable pub finish : KeyBuilder → CompositeKey
finish b = record { bytes = b.bytes }

-- The buffer afterwards, and the number of bytes written.
unfoldable pub encode_u64_be : ℕ → List ℕ → Option (List ℕ × ℕ)
encode_u64_be v out = if leb 8 (length out) then some (be_bytes 8 v ++ drop 8 out, 8) else none

unfoldable pub encode_u128_be : ℕ → List ℕ → Option (List ℕ × ℕ)
encode_u128_be v out = if leb 16 (length out) then some (be_bytes 16 v ++ drop 16 out, 16) else none

unfoldable pub decode_u64_be : List ℕ → Option ℕ
decode_u64_be bytes = if leb 8 (length bytes) then some (from_be_bytes (take 8 bytes)) else none

-- `copy_from_slice` panics when the lengths differ.
unfoldable pub decode_u128_be : List ℕ → Option ℕ
decode_u128_be bytes = if length bytes == 16 then some (from_be_bytes bytes) else none

unfoldable pub node_id_key : ℕ → CompositeKey
unfolding new_builder push_u128_be finish
node_id_key node_id = finish (push_u128_be node_id new_builder)

unfoldable pub edge_id_key : ℕ → CompositeKey
unfolding new_builder push_u128_be finish
edge_id_key edge_id = finish (push_u128_be edge_id new_builder)

unfoldable pub edge_adjacency_key : ℕ → ℕ → ℕ → CompositeKey
unfolding new_builder push_u128_be push_u64_be finish
edge_adjacency_key source_id type_id target_id =
    finish (push_u128_be target_id (push_u64_be type_id (push_u128_be source_id new_builder)))

unfoldable pub label_index_key : ℕ → ℕ → CompositeKey
unfolding new_builder push_u128_be push_u64_be finish
label_index_key label_hash node_id =
    finish (push_u128_be node_id (push_u64_be label_hash new_builder))

unfoldable pub type_index_key : ℕ → ℕ → CompositeKey
unfolding new_builder push_u128_be push_u64_be finish
type_index_key type_id edge_id = finish (push_u128_be edge_id (push_u64_be type_id new_builder))

unfoldable pub property_index_key : ℕ → List ℕ → ℕ → CompositeKey
unfolding new_builder push_u128_be push_u64_be push_slice finish
property_index_key property_id serialized_value entity_id =
    finish
      (push_u128_be entity_id (push_slice serialized_value (push_u64_be property_id new_builder)))

unfoldable pub rdf_spo_key : ℕ → ℕ → ℕ → CompositeKey
unfolding new_builder push_u128_be push_u64_be finish
rdf_spo_key subject predicate object =
    finish (push_u128_be object (push_u64_be predicate (push_u128_be subject new_builder)))

unfoldable pub rdf_pos_key : ℕ → ℕ → ℕ → CompositeKey
unfolding new_builder push_u128_be push_u64_be finish
rdf_pos_key predicate object subject =
    finish (push_u128_be subject (push_u128_be object (push_u64_be predicate new_builder)))

unfoldable pub rdf_osp_key : ℕ → ℕ → ℕ → CompositeKey
unfolding new_builder push_u128_be push_u64_be finish
rdf_osp_key object subject predicate =
    finish (push_u64_be predicate (push_u128_be subject (push_u128_be object new_builder)))
