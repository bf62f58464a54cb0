-- ===== src/Index/ValueCodec/RoundTrip.antt =====
-- Decoding what was encoded.
use rgraph.Prelude.{
  take-append, ℕ, suc, ◌≤◌, ◌<◌, ◌^◌, ◌≡◌, ◌≢◌, refl, true, false, some, none, Option, List, [],
  ◌∷◌, ◌++◌, length, length-append, All, take, drop, take_front, drop-append, take_short,
  append_assoc, arith,
}
use rgraph.Prelude.Bytes.{IsByte, be_bytes, length-be_bytes, from_be_bytes-be_bytes}
use rgraph.Prelude.Int.{IsI64}
use rgraph.Index.ValueCodec.{
  Value, null, bool, int64, float64, string, list, map, encode, decode, decode_terminated, tag,
  with_terminated, order_i64, payload, terminated, escape, escape_byte, u16_max,
}
use rgraph.Index.ValueCodec.Words.{order_i64-lt, unorder_i64-order_i64}
use rgraph.Index.ValueCodec.Escape.{EndsValue, decode_loop-escape, decode_loop-escape_ff}

-- The values of the Rust type: numbers of 64 bits, and strings of bytes.
abbrev pub IsValue : Value → Type 0
IsValue null = Unit
IsValue (bool b) = Unit
IsValue (int64 v) = IsI64 v
IsValue (float64 ordered) = ordered < 2 ^ 64
IsValue (string bytes) = All IsByte bytes
IsValue (list bytes) = All IsByte bytes
IsValue (map bytes) = All IsByte bytes

-- A successful `encode` appends the tag and the payload, and counts them.
pub encode-eq_some :
    (v : Value) (out buf : List ℕ) (n : ℕ)
    → encode v out ≡ (buf, some n)
    → (buf ≡ out ++ (tag v ∷ payload v)) × (n ≡ suc (length (payload v))) × (n ≤ 512)
unfolding encode
encode-eq_some v out buf n h = ground (arith, length-append out (tag v ∷ payload v))

-- A value of more than 512 bytes leaves the buffer as it was.
pub encode-eq_none :
    (v : Value) (out : List ℕ) → 512 ≤ length (payload v) → encode v out ≡ (out, none)
unfolding encode
encode-eq_none v out h =
    ground (arith, length-append out (tag v ∷ payload v), take-append out (tag v ∷ payload v))

pub length-escape : (bytes : List ℕ) → length bytes ≤ length (escape bytes)
unfolding escape escape_byte
length-escape [] = omega arith
length-escape (b ∷ bytes) =
    ground (arith, length-append (escape_byte b) (escape bytes), length-escape bytes)

-- The cap of 65535 bytes never cuts a string that passes the limit of 512.
pub take-u16_max : (bytes : List ℕ) → length (terminated bytes) ≤ 511 → take u16_max bytes ≡ bytes
unfolding terminated
take-u16_max bytes h = take_short u16_max bytes (
    omega (
      arith,
      length-escape (take u16_max bytes),
      length-append (escape (take u16_max bytes)) (0 ∷ []),
    ))

decode_terminated-terminated :
    (bytes rest : List ℕ)
    → length (terminated bytes) ≤ 511
    → EndsValue rest
    → decode_terminated (terminated bytes ++ rest) ≡ some (bytes, length (terminated bytes))
unfolding decode_terminated terminated
decode_terminated-terminated bytes rest h e = rw (take-u16_max bytes h) (
    ground (
      arith,
      append_assoc (escape bytes) (0 ∷ []) rest,
      length-append (escape bytes) (0 ∷ []),
      decode_loop-escape bytes rest [] 0 e,
    ))

-- What `decode` reads from a payload and what follows it.
decode-payload :
    (v : Value) (rest : List ℕ)
    → IsValue v
    → EndsValue rest
    → length (payload v) ≤ 511
    → decode (tag v ∷ payload v ++ rest) ≡ some (v, suc (length (payload v)))
unfolding decode tag payload
decode-payload null rest v e h = refl
decode-payload (bool true) rest v e h = refl
decode-payload (bool false) rest v e h = refl
decode-payload (int64 x) rest v e h = ground (
  arith,
  length-append (be_bytes 8 (order_i64 x)) rest,
  length-be_bytes 8 (order_i64 x),
  take_front 8 (be_bytes 8 (order_i64 x)) rest (length-be_bytes 8 (order_i64 x)),
  from_be_bytes-be_bytes 8 (order_i64 x) (order_i64-lt x),
  unorder_i64-order_i64 x v,
)
decode-payload (float64 x) rest v e h = ground (
  arith,
  length-append (be_bytes 8 x) rest,
  length-be_bytes 8 x,
  take_front 8 (be_bytes 8 x) rest (length-be_bytes 8 x),
  from_be_bytes-be_bytes 8 x v,
)
decode-payload (string bytes) rest v e h =
    ground (arith, decode_terminated-terminated bytes rest h e)
decode-payload (list bytes) rest v e h = ground (arith, decode_terminated-terminated bytes rest h e)
decode-payload (map bytes) rest v e h = ground (arith, decode_terminated-terminated bytes rest h e)

-- What `encode` appends to any buffer, `decode` reads back, with the count of its bytes, from the
-- end of that buffer on. What follows the value may not begin with the byte 0xff.
pub decode-encode :
    (v : Value) (out buf rest : List ℕ) (n : ℕ)
    → IsValue v
    → EndsValue rest
    → encode v out ≡ (buf, some n)
    → decode (drop (length out) buf ++ rest) ≡ some (v, n)
decode-encode v out buf rest n h e done =
    let (split, count, small) = encode-eq_some v out buf n done in
    rw (split, drop-append out (tag v ∷ payload v), count)
      (decode-payload v rest h e (omega (arith, count, small)))

with_string :
    (r : Option (List ℕ × ℕ)) (bytes : List ℕ) (m : ℕ)
    → with_terminated string r ≡ some (string bytes, m)
    → (k : ℕ) × (r ≡ some (bytes, k))
with_string none bytes m h = cc
with_string (some (read, k)) bytes m h = (k, ground arith)

-- The codec is not self-delimiting: an encoded string that is followed by the byte 0xff is never
-- decoded as that string, because its terminator and the 0xff read as an escaped zero.
pub decode-encode_ff :
    (bytes buf rest : List ℕ) (n m : ℕ)
    → encode (string bytes) [] ≡ (buf, some n)
    → decode (buf ++ 0xff ∷ rest) ≢ some (string bytes, m)
unfolding decode tag payload
decode-encode_ff bytes buf rest n m done back =
    let (split, count, small) = encode-eq_some (string bytes) [] buf n done in
    let (k, read) =
      with_string (decode_terminated (terminated bytes ++ 0xff ∷ rest)) bytes m
        (rw (split) at back) in
    decode_loop-escape_ff bytes rest [] 0 k (
      unfold terminated in
      rw (take-u16_max bytes (omega (arith, count, small)), append_assoc) at read)
