-- ===== src/Index/ValueCodec/Words.antt =====
-- The order-preserving bit patterns of `i64` and `f64`.
use Prim.Native.Nat.{bit_and, bit_xor}
use rgraph.Prelude.{
  ℕ, ◌+◌, ◌-◌, ◌^◌, ◌<◌, ◌≡◌, ap, ◌∙◌, some, ltb, if◌then◌else◌, compare, Ordering, arith,
}
use rgraph.Prelude.Bits.{bit_and_top, bit_xor_top}
use rgraph.Prelude.Int.{ℤ, pos, negsuc, IsI64, as_u64, as_i64, cmp_ℤ, as_u64-lt, as_i64-as_u64}
use rgraph.Index.ValueCodec.{
  order_i64, unorder_i64, order_f64_bits, unorder_f64_bits, from_f64, to_f64, is_nan, canonical_nan,
}

-- `^` with the sign bit adds 2 ^ 63 below it and takes it off from there on.
flip :
    (u : ℕ) → u < 2 ^ 64 → bit_xor u (2 ^ 63) ≡ (if ltb u (2 ^ 63) then u + 2 ^ 63 else u - 2 ^ 63)
flip u h = bit_xor_top 63 u h

flip_twice : (u : ℕ) → u < 2 ^ 64 → bit_xor (bit_xor u (2 ^ 63)) (2 ^ 63) ≡ u
flip_twice u h = ground (arith, flip u, flip (u + 2 ^ 63), flip (u - 2 ^ 63))

pub order_i64-lt : (v : ℤ) → order_i64 v < 2 ^ 64
unfolding order_i64
order_i64-lt v = ground (arith, as_u64-lt v, flip (as_u64 v))

pub unorder_i64-order_i64 : (v : ℤ) → IsI64 v → unorder_i64 (order_i64 v) ≡ v
unfolding unorder_i64 order_i64
unorder_i64-order_i64 v h = ap as_i64 (flip_twice (as_u64 v) (as_u64-lt v)) ∙ as_i64-as_u64 v h

pub compare-order_i64 :
    (v w : ℤ) → IsI64 v → IsI64 w → compare (order_i64 v) (order_i64 w) ≡ cmp_ℤ v w
unfolding order_i64 as_u64 cmp_ℤ
compare-order_i64 (pos a) (pos b) h k = ground (arith, flip a, flip b)
compare-order_i64 (pos a) (negsuc b) h k = ground (arith, flip a, flip (2 ^ 64 - 1 - b))
compare-order_i64 (negsuc a) (pos b) h k = ground (arith, flip b, flip (2 ^ 64 - 1 - a))
compare-order_i64 (negsuc a) (negsuc b) h k =
    ground (arith, flip (2 ^ 64 - 1 - a), flip (2 ^ 64 - 1 - b))

-- The sign bit of 64 bits is set from 2 ^ 63 on.
sign_of : (u : ℕ) → u < 2 ^ 64 → bit_and u (2 ^ 63) ≡ (if ltb u (2 ^ 63) then 0 else 2 ^ 63)
sign_of u h = bit_and_top 63 u h

pub order_f64_bits-lt : (bits : ℕ) → bits < 2 ^ 64 → order_f64_bits bits < 2 ^ 64
unfolding order_f64_bits
order_f64_bits-lt bits h = ground (arith, sign_of bits, flip bits)

unorder_f64_bits-order_f64_bits :
    (bits : ℕ) → bits < 2 ^ 64 → unorder_f64_bits (order_f64_bits bits) ≡ bits
unfolding order_f64_bits unorder_f64_bits
unorder_f64_bits-order_f64_bits bits h = ground (
  arith,
  sign_of bits,
  flip bits,
  sign_of (bits + 2 ^ 63),
  flip (bits + 2 ^ 63),
  sign_of (2 ^ 64 - 1 - bits),
)

-- The order of IEEE 754 on bit patterns: the sign first, and then the magnitude, which counts
-- backwards below zero. A NaN with a positive sign stands above all numbers.
abbrev pub total_cmp : ℕ → ℕ → Ordering
total_cmp a b =
    if ltb a (2 ^ 63)
    then (if ltb b (2 ^ 63) then compare a b else Ordering.gt)
    else (if ltb b (2 ^ 63) then Ordering.lt else compare b a)

-- The ordered patterns of any two 64-bit floats compare as the floats do in IEEE total order.
pub compare-order_f64_bits :
    (a b : ℕ)
    → a < 2 ^ 64
    → b < 2 ^ 64
    → compare (order_f64_bits a) (order_f64_bits b) ≡ total_cmp a b
unfolding order_f64_bits
compare-order_f64_bits a b h k = ground (arith, sign_of a, sign_of b, flip a, flip b)

-- `to_f64` gives back the 64 bits that `from_f64` was given, except that every NaN comes back as
-- the canonical one.
pub to_f64-from_f64 :
    (bits : ℕ)
    → bits < 2 ^ 64
    → to_f64 (from_f64 bits) ≡ some (if is_nan bits then canonical_nan else bits)
unfolding to_f64 from_f64
to_f64-from_f64 bits h =
    ap some
      (unorder_f64_bits-order_f64_bits (if is_nan bits then canonical_nan else bits) (ground arith))
