-- ===== src/Index/Property/Oversize.antt =====
-- Values that are too long to encode.
use rgraph.Prelude.{
  ℕ, suc, ◌≤◌, ◌≡◌, refl, ap, sym, ◌∙◌, none, some, Option, zero, List, [], ◌∷◌, length, take,
  length-append, arith,
}
use rgraph.Index.ValueCodec.{ValueType, encode_property_value, escape, terminated, u16_max}
use rgraph.Index.Key.{property_index_key}
use rgraph.Index.ValueCodec.{property_value, Value}
use rgraph.Index.ValueCodec.RoundTrip.{length-escape, encode-eq_none}
use rgraph.Index.Property.{entry_key, or_null}

le-length-take : (m n : ℕ) (xs : List ℕ) → m ≤ n → m ≤ length xs → m ≤ length (take n xs)
le-length-take zero n xs h k = omega arith
le-length-take (suc m) zero xs h k = absurd (omega arith)
le-length-take (suc m) (suc n) [] h k = absurd (omega arith)
le-length-take (suc m) (suc n) (x ∷ xs) h k =
    omega (arith, le-length-take m n xs (omega arith) (omega arith))

length-terminated-ge : (bytes : List ℕ) → 511 ≤ length bytes → 512 ≤ length (terminated bytes)
unfolding terminated
length-terminated-ge bytes h = omega (
  arith,
  le-length-take 511 u16_max bytes (omega arith) h,
  length-escape (take u16_max bytes),
  length-append (escape (take u16_max bytes)) (0 ∷ []),
)

null_key : (other : List ℕ) → encode_property_value ValueType.null other ≡ some (0 ∷ [])
unfolding encode_property_value
null_key other = refl

oversize_key :
    (bytes : List ℕ) → 511 ≤ length bytes → encode_property_value ValueType.string bytes ≡ none
unfolding encode_property_value property_value
oversize_key bytes h = rw (encode-eq_none (Value.string bytes) [] (length-terminated-ge bytes h))

-- For one property and one entity, every string of 511 bytes or more has the key of NULL.
pub entry_key_oversize :
    (p e : ℕ) (bytes other : List ℕ)
    → 511 ≤ length bytes
    → entry_key p ValueType.string bytes e ≡ entry_key p ValueType.null other e
unfolding entry_key
entry_key_oversize p e bytes other h =
    ap (λ (o : Option (List ℕ)). property_index_key p (or_null o) e) (oversize_key bytes h)
    ∙ sym (ap (λ (o : Option (List ℕ)). property_index_key p (or_null o) e) (null_key other))
