-- ===== src/Index/ValueCodec.antt =====
-- src/index/value_codec.rs: property values as byte strings. An `f64` is its 64 bits. A decoder
-- returns `none` where the source does.
pub mod Words
pub mod Escape
pub mod RoundTrip
pub mod Order
use Prim.Native.Nat.{bit_and, bit_xor}
use rgraph.Prelude.{
  ℕ, ◌+◌, ◌-◌, ◌%◌, ◌^◌, Bool, not, ◌&&◌, Option, none, some, List, [], ◌∷◌, ◌++◌, length, take,
  ltb, ◌==◌, if◌then◌else◌,
}
use rgraph.Prelude.Bytes.{be_bytes, from_be_bytes}
use rgraph.Prelude.Int.{ℤ, as_u64, as_i64}

abbrev pub max_encoded_len : ℕ
max_encoded_len = 512

-- `u16::MAX as usize`
abbrev pub u16_max : ℕ
u16_max = 65535

-- `float64` holds the ordered bit pattern; the payloads of lists and maps are opaque bytes.
pub data Value : Type 0 where
  null : Value
  bool : Bool → Value
  int64 : ℤ → Value
  float64 : ℕ → Value
  string : List ℕ → Value
  list : List ℕ → Value
  map : List ℕ → Value

-- The type tag of a stored property, from graph/record.rs.
pub data ValueType : Type 0 where
  null bool int64 float64 string list map : ValueType

abbrev sign_bit : ℕ
sign_bit = 2 ^ 63

unfoldable pub order_i64 : ℤ → ℕ
order_i64 v = bit_xor (as_u64 v) sign_bit

unfoldable pub unorder_i64 : ℕ → ℤ
unorder_i64 v = as_i64 (bit_xor v sign_bit)

-- `!bits` on 64 bits
abbrev not_u64 : ℕ → ℕ
not_u64 bits = 2 ^ 64 - 1 - bits

unfoldable pub order_f64_bits : ℕ → ℕ
order_f64_bits bits =
    if not (bit_and bits sign_bit == 0) then not_u64 bits else bit_xor bits sign_bit

unfoldable pub unorder_f64_bits : ℕ → ℕ
unorder_f64_bits bits =
    if not (bit_and bits sign_bit == 0) then bit_xor bits sign_bit else not_u64 bits

-- `f64::is_nan`: all exponent bits are set, and some bit of the mantissa is.
abbrev pub is_nan : ℕ → Bool
is_nan bits = ltb 0x7ff0_0000_0000_0000 (bits % sign_bit)

abbrev pub canonical_nan : ℕ
canonical_nan = 0x7ff8_0000_0000_0000

unfoldable pub from_i64 : ℤ → Value
from_i64 v = int64 v

unfoldable pub from_f64 : ℕ → Value
from_f64 v = let bits = if is_nan v then canonical_nan else v in float64 (order_f64_bits bits)

unfoldable pub to_f64 : Value → Option ℕ
to_f64 (float64 ordered) = some (unorder_f64_bits ordered)
to_f64 _ = none

-- `Tag as u8`
unfoldable pub tag : Value → ℕ
tag null = 0
tag (bool b) = 1
tag (int64 v) = 2
tag (float64 v) = 3
tag (string bs) = 4
tag (list bs) = 5
tag (map bs) = 6

-- One round of the escaping loop.
unfoldable pub escape_byte : ℕ → List ℕ
escape_byte b =
    if b == 0x00 then 0x00 ∷ 0xff ∷ [] else if b == 0xff then 0xff ∷ 0x00 ∷ [] else b ∷ []

unfoldable pub escape : List ℕ → List ℕ
escape [] = []
escape (b ∷ bs) = escape_byte b ++ escape bs

unfoldable pub terminated : List ℕ → List ℕ
unfolding escape
terminated bytes = escape (take u16_max bytes) ++ 0x00 ∷ []

unfoldable pub payload : Value → List ℕ
unfolding terminated order_i64
payload null = []
payload (bool b) = (if b then 0x01 else 0x00) ∷ []
payload (int64 v) = be_bytes 8 (order_i64 v)
payload (float64 ordered) = be_bytes 8 ordered
payload (string bytes) = terminated bytes
payload (list bytes) = terminated bytes
payload (map bytes) = terminated bytes

-- The buffer afterwards, and the number of bytes appended.
unfoldable pub encode : Value → List ℕ → List ℕ × Option ℕ
unfolding tag payload
encode value out =
    let out' = out ++ (tag value ∷ payload value) in
    let appended = length out' - length out in
    if ltb max_encoded_len appended then (take (length out) out', none) else (out', some appended)

-- The loop of `decode_terminated` from the offset `i` on, where `bytes` is what is left.
unfoldable pub decode_loop : List ℕ → List ℕ → ℕ → Option (List ℕ × ℕ)
decode_loop [] out i = none
decode_loop (b ∷ []) out i = if b == 0x00 then some (out, i + 1) else none
decode_loop (b ∷ c ∷ rest) out i =
    let zero_escape = decode_loop rest (out ++ 0x00 ∷ []) (i + 2) in
    let ff_escape = decode_loop rest (out ++ 0xff ∷ []) (i + 2) in
    let plain = decode_loop (c ∷ rest) (out ++ b ∷ []) (i + 1) in
    if b == 0x00 && c == 0xff
    then zero_escape
    else if b == 0xff && c == 0x00
    then ff_escape
    else if b == 0x00
    then some (out, i + 1)
    else plain

unfoldable pub decode_terminated : List ℕ → Option (List ℕ × ℕ)
unfolding decode_loop
decode_terminated bytes = decode_loop bytes [] 0

-- `let (bytes, consumed) = decode_terminated(&data[off..])?; off += consumed;`
abbrev with_terminated : (List ℕ → Value) → Option (List ℕ × ℕ) → Option (Value × ℕ)
with_terminated make none = none
with_terminated make (some (bytes, consumed)) = some (make bytes, 1 + consumed)

unfoldable pub decode_bool : List ℕ → Option (Value × ℕ)
decode_bool [] = none
decode_bool (b ∷ rest) = some (bool (not (b == 0)), 2)

-- Eight big-endian bytes after the tag.
abbrev decode_eight : (ℕ → Value) → List ℕ → Option (Value × ℕ)
decode_eight make rest =
    if ltb (length rest) 8 then none else some (make (from_be_bytes (take 8 rest)), 9)

-- The match on the tag, where `rest` is `data[1..]`.
unfoldable pub decode_tagged : ℕ → List ℕ → Option (Value × ℕ)
unfolding decode_terminated unorder_i64 decode_bool
decode_tagged t rest =
    if t == 0
    then some (null, 1)
    else if t == 1
    then decode_bool rest
    else if t == 2
    then decode_eight (λ bits. int64 (unorder_i64 bits)) rest
    else if t == 3
    then decode_eight float64 rest
    else if t == 4
    then with_terminated string (decode_terminated rest)
    else if t == 5
    then with_terminated list (decode_terminated rest)
    else if t == 6
    then with_terminated map (decode_terminated rest)
    else none

unfoldable pub decode : List ℕ → Option (Value × ℕ)
unfolding decode_tagged
decode [] = none
decode (t ∷ rest) = decode_tagged t rest

-- The value of a stored payload. `none` is the source's early return.
unfoldable pub property_value : ValueType → List ℕ → Option Value
property_value null bytes = some null
property_value bool [] = none
property_value bool (b ∷ bytes) = some (bool (not (b == 0)))
property_value int64 bytes =
    if ltb (length bytes) 8 then none else some (int64 (as_i64 (from_be_bytes (take 8 bytes))))
property_value float64 bytes =
    if ltb (length bytes) 8
    then none
    else some (float64 (order_f64_bits (from_be_bytes (take 8 bytes))))
property_value string bytes = some (string bytes)
property_value list bytes = some (list bytes)
property_value map bytes = some (map bytes)

abbrev encoded : List ℕ × Option ℕ → Option (List ℕ)
encoded (buf, none) = none
encoded (buf, some n) = some buf

unfoldable pub encode_property_value : ValueType → List ℕ → Option (List ℕ)
unfolding property_value encode order_f64_bits
encode_property_value value_type bytes = elim (property_value value_type bytes) [
  | none ↦ none
  | some v ↦ encoded (encode v [])
]
