-- ===== src/Index/Key/Fields.antt =====
-- The fields of a key are read back from their slices.
use rgraph.Prelude.{
  ℕ, ◌+◌, ◌-◌, ◌≡◌, some, List, [], ◌++◌, append_assoc, append-nil, take, drop, length,
  length-append, take_front, drop_front, arith,
}
use rgraph.Prelude.Bytes.{IsU64, IsU128, be_bytes, length-be_bytes, from_be_bytes-be_bytes}
use rgraph.Index.Key.{
  as_slice, len, edge_adjacency_key, property_index_key, decode_u64_be, decode_u128_be,
}

decode_u64_be_front :
    (v : ℕ) (rest : List ℕ) → IsU64 v → decode_u64_be (be_bytes 8 v ++ rest) ≡ some v
unfolding decode_u64_be
decode_u64_be_front v rest h = ground (
  arith,
  length-append (be_bytes 8 v) rest,
  length-be_bytes 8 v,
  take_front 8 (be_bytes 8 v) rest (length-be_bytes 8 v),
  from_be_bytes-be_bytes 8 v h,
)

decode_u64_be_whole : (v : ℕ) → IsU64 v → decode_u64_be (be_bytes 8 v) ≡ some v
decode_u64_be_whole v h = rw (append-nil) at (decode_u64_be_front v [] h)

decode_u128_be_whole : (v : ℕ) → IsU128 v → decode_u128_be (be_bytes 16 v) ≡ some v
unfolding decode_u128_be
decode_u128_be_whole v h = ground (arith, length-be_bytes 16 v, from_be_bytes-be_bytes 16 v h)

-- An adjacency key has 40 bytes, and its u128 source, u64 type and u128 target decode from the
-- slices `[0..16]`, `[16..24]` and `[24..40]`.
pub decode-edge_adjacency_key :
    (s t d : ℕ)
    → IsU128 s × IsU64 t × IsU128 d
    → (len (edge_adjacency_key s t d) ≡ 40)
      × (decode_u128_be (take 16 (as_slice (edge_adjacency_key s t d))) ≡ some s)
      × (decode_u64_be (take 8 (drop 16 (as_slice (edge_adjacency_key s t d)))) ≡ some t)
      × (decode_u128_be (drop 24 (as_slice (edge_adjacency_key s t d))) ≡ some d)
unfolding len as_slice edge_adjacency_key
decode-edge_adjacency_key s t d (hs, ht, hd) = (
  omega (
    arith,
    two,
    length-append (be_bytes 16 s ++ be_bytes 8 t) (be_bytes 16 d),
    length-be_bytes 16 d,
  ),
  rw (assoc, take_front 16 (be_bytes 16 s) (be_bytes 8 t ++ be_bytes 16 d) (length-be_bytes 16 s))
      (decode_u128_be_whole s hs),
  rw
      (
        assoc,
        drop_front 16 (be_bytes 16 s) (be_bytes 8 t ++ be_bytes 16 d) (length-be_bytes 16 s),
        take_front 8 (be_bytes 8 t) (be_bytes 16 d) (length-be_bytes 8 t),
      )
      (decode_u64_be_whole t ht),
  rw (drop_front 24 (be_bytes 16 s ++ be_bytes 8 t) (be_bytes 16 d) two)
      (decode_u128_be_whole d hd),
)
  where
    two : length (be_bytes 16 s ++ be_bytes 8 t) ≡ 24
    two = omega (
      arith,
      length-append (be_bytes 16 s) (be_bytes 8 t),
      length-be_bytes 16 s,
      length-be_bytes 8 t,
    )

    assoc :
        be_bytes 16 s ++ be_bytes 8 t ++ be_bytes 16 d
        ≡ be_bytes 16 s ++ (be_bytes 8 t ++ be_bytes 16 d)
    assoc = append_assoc (be_bytes 16 s) (be_bytes 8 t) (be_bytes 16 d)

-- Any serialized value comes back whole from between the u64 property id and the u128 entity id
-- of a property key.
pub decode-property_index_key :
    (p e : ℕ) (value : List ℕ)
    → IsU64 p
    → IsU128 e
    → (decode_u64_be (as_slice (property_index_key p value e)) ≡ some p)
      × (take
            (len (property_index_key p value e) - 24)
            (drop 8 (as_slice (property_index_key p value e)))
          ≡ value)
      × (decode_u128_be (
            drop
              (len (property_index_key p value e) - 16)
              (as_slice (property_index_key p value e)))
          ≡ some e)
unfolding len as_slice property_index_key
decode-property_index_key p e value hp he = (
  rw (append_assoc (be_bytes 8 p) value (be_bytes 16 e))
      (decode_u64_be_front p (value ++ be_bytes 16 e) hp),
  rw
      (
        append_assoc (be_bytes 8 p) value (be_bytes 16 e),
        drop_front 8 (be_bytes 8 p) (value ++ be_bytes 16 e) (length-be_bytes 8 p),
      )
      (take_front _ value (be_bytes 16 e) (omega (arith, back))),
  rw
      (drop_front (len (property_index_key p value e) - 16) (be_bytes 8 p ++ value) (be_bytes 16 e)
        (omega (arith, front, whole)))
      (decode_u128_be_whole e he),
)
  where
    back : length (be_bytes 8 p ++ (value ++ be_bytes 16 e)) ≡ length value + 24
    back = omega (
      arith,
      length-append (be_bytes 8 p) (value ++ be_bytes 16 e),
      length-append value (be_bytes 16 e),
      length-be_bytes 8 p,
      length-be_bytes 16 e,
    )

    front : length (be_bytes 8 p ++ value) ≡ 8 + length value
    front = omega (arith, length-append (be_bytes 8 p) value, length-be_bytes 8 p)

    whole : length (be_bytes 8 p ++ value ++ be_bytes 16 e) ≡ length (be_bytes 8 p ++ value) + 16
    whole =
        omega (arith, length-append (be_bytes 8 p ++ value) (be_bytes 16 e), length-be_bytes 16 e)
