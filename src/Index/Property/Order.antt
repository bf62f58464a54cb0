-- ===== src/Index/Property/Order.antt =====
-- The order of the keys of a property index.
use rgraph.Prelude.{
  ℕ, ◌*◌, ◌/◌, ◌%◌, ◌^◌, ◌<◌, ◌≤◌, ◌≡◌, refl, List, [], ◌∷◌, append_assoc, Ordering, arith,
}
use rgraph.Prelude.Bytes.{IsU64, IsU128, be_bytes}
use rgraph.Prelude.Bytes.Lex.{lex_cmp, lex_cmp-field}
use rgraph.Index.Key.{cmp_keys, property_index_key}
use rgraph.Index.ValueCodec.{string, encode, terminated, escape, escape_byte}
use rgraph.Index.ValueCodec.Order.{cmp_value}

-- A u128 id whose highest byte is not 0xff. A UUIDv7 has such a byte for millennia to come.
abbrev pub IsEntityId : ℕ → Type 0
IsEntityId e = e < 255 * 2 ^ 120

encode_empty : (encode (string []) []).0 ≡ 4 ∷ 0 ∷ []
unfolding encode terminated escape
encode_empty = refl

encode_zero : (encode (string (0 ∷ [])) []).0 ≡ 4 ∷ 0 ∷ 0xff ∷ 0 ∷ []
unfolding encode terminated escape escape_byte
encode_zero = refl

-- An id from 0xff01… on begins with 0xff and a byte above 0.
high_id_gt :
    (e : ℕ) (rest : List ℕ)
    → 0xff01 * 2 ^ 112 ≤ e
    → IsU128 e
    → lex_cmp (4 ∷ 0 ∷ be_bytes 16 e) (4 ∷ 0 ∷ 0xff ∷ 0 ∷ rest) ≡ Ordering.gt
unfolding lex_cmp
high_id_gt e rest lo hi = rw (two_bytes e) (ground arith)
  where
    two_bytes :
        (e : ℕ)
        → be_bytes 16 e
          ≡ (e / 256 ^ 15) ∷ (e % 256 ^ 15 / 256 ^ 14) ∷ be_bytes 14 (e % 256 ^ 15 % 256 ^ 14)
    two_bytes e = unfold be_bytes in refl

-- For entity ids from 0xff01… on the order breaks: the key of the empty string stands behind the
-- key of the string of one zero byte, although the empty string is the smaller value.
pub cmp_keys-property_index_key_ff :
    (p e f : ℕ)
    → IsU64 p
    → 0xff01 * 2 ^ 112 ≤ e
    → IsU128 e
    → (cmp_value (string []) (string (0 ∷ [])) ≡ Ordering.lt)
      × (cmp_keys
            (property_index_key p (encode (string []) []).0 e)
            (property_index_key p (encode (string (0 ∷ [])) []).0 f)
          ≡ Ordering.gt)
unfolding cmp_keys property_index_key
cmp_keys-property_index_key_ff p e f hp lo hi = (
  unfold cmp_value lex_cmp in refl,
  rw
      (
        encode_empty,
        encode_zero,
        append_assoc (be_bytes 8 p) (4 ∷ 0 ∷ []) (be_bytes 16 e),
        append_assoc (be_bytes 8 p) (4 ∷ 0 ∷ 0xff ∷ 0 ∷ []) (be_bytes 16 f),
        lex_cmp-field 8 p p (4 ∷ 0 ∷ be_bytes 16 e) (4 ∷ 0 ∷ 0xff ∷ 0 ∷ be_bytes 16 f) hp hp,
        high_id_gt e (be_bytes 16 f) lo hi,
      )
      (ground arith),
)
