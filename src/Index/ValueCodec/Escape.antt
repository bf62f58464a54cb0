-- ===== src/Index/ValueCodec/Escape.antt =====
-- The escaped, terminated strings: decoding them, and their order.
use rgraph.Prelude.{
  ℕ, ◌+◌, ◌≤◌, ◌<◌, ◌≡◌, ◌≢◌, refl, ◌∙◌, some, List, [], ◌∷◌, ◌++◌, length, length-append, All,
  append_assoc, append-nil, compare, Ordering, arith,
}
use rgraph.Prelude.Bytes.{IsByte}
use rgraph.Prelude.Bytes.Lex.{lex_cmp, then_cmp, then_cmp_assoc}
use rgraph.Index.ValueCodec.{escape_byte, escape, decode_loop}

-- What may follow a terminator: anything whose first byte is not 0xff.
abbrev pub EndsValue : List ℕ → Type 0
EndsValue [] = Unit
EndsValue (b ∷ rest) = b < 255

decode_loop_plain :
    (b : ℕ) (rest out : List ℕ) (i : ℕ)
    → b ≢ 0
    → b ≢ 0xff
    → decode_loop (b ∷ rest) out i ≡ decode_loop rest (out ++ b ∷ []) (i + 1)
unfolding decode_loop
decode_loop_plain b [] out i h k = ground arith
decode_loop_plain b (c ∷ rest) out i h k = ground arith

decode_loop_end :
    (rest out : List ℕ) (i : ℕ) → EndsValue rest → decode_loop (0 ∷ rest) out i ≡ some (out, i + 1)
unfolding decode_loop
decode_loop_end [] out i h = refl
decode_loop_end (c ∷ rest) out i h = ground arith

-- One escaped byte is read back, whatever follows it.
decode_loop-escape_byte :
    (b : ℕ) (rest out : List ℕ) (i : ℕ)
    → decode_loop (escape_byte b ++ rest) out i
      ≡ decode_loop rest (out ++ b ∷ []) (i + length (escape_byte b))
unfolding escape_byte decode_loop
decode_loop-escape_byte b rest out i = ground (arith, decode_loop_plain b rest out i)

pub decode_loop-escape :
    (bytes rest out : List ℕ) (i : ℕ)
    → EndsValue rest
    → decode_loop (escape bytes ++ 0 ∷ rest) out i
      ≡ some (out ++ bytes, i + length (escape bytes) + 1)
unfolding escape
decode_loop-escape [] rest out i h = rw append-nil (decode_loop_end rest out i h ∙ ground arith)
decode_loop-escape (b ∷ bytes) rest out i h = ground (
  arith,
  append_assoc (escape_byte b) (escape bytes) (0 ∷ rest),
  decode_loop-escape_byte b (escape bytes ++ 0 ∷ rest) out i,
  decode_loop-escape bytes rest (out ++ b ∷ []) (i + length (escape_byte b)) h,
  append_assoc out (b ∷ []) bytes,
  length-append (escape_byte b) (escape bytes),
)

-- Whatever it reads, the loop keeps what it has decoded so far.
decode_loop_grows :
    (bytes out result : List ℕ) (i n : ℕ)
    → decode_loop bytes out i ≡ some (result, n)
    → length out ≤ length result
unfolding decode_loop
decode_loop_grows [] out result i n h = cc
decode_loop_grows (b ∷ []) out result i n h = ground arith
decode_loop_grows (b ∷ c ∷ rest) out result i n h = ground (
  arith,
  decode_loop_grows rest (out ++ 0x00 ∷ []) result (i + 2) n,
  decode_loop_grows rest (out ++ 0xff ∷ []) result (i + 2) n,
  decode_loop_grows (c ∷ rest) (out ++ b ∷ []) result (i + 1) n,
  length-append out (0x00 ∷ []),
  length-append out (0xff ∷ []),
  length-append out (b ∷ []),
)

decode_loop_zero_ff :
    (rest out : List ℕ) (i n : ℕ) → decode_loop (0 ∷ 0xff ∷ rest) out i ≢ some (out, n)
unfolding decode_loop
decode_loop_zero_ff rest out i n h =
    omega
      (arith, decode_loop_grows rest (out ++ 0 ∷ []) out (i + 2) n h, length-append out (0 ∷ []))

-- A terminator in front of 0xff is read as an escaped zero, so the bytes never come back.
pub decode_loop-escape_ff :
    (bytes rest out : List ℕ) (i n : ℕ)
    → decode_loop (escape bytes ++ 0 ∷ 0xff ∷ rest) out i ≢ some (out ++ bytes, n)
unfolding escape
decode_loop-escape_ff [] rest out i n h = decode_loop_zero_ff rest out i n (rw append-nil at h)
decode_loop-escape_ff (b ∷ bytes) rest out i n h =
    decode_loop-escape_ff bytes rest (out ++ b ∷ []) (i + length (escape_byte b)) n (
      ground (
        arith,
        append_assoc (escape_byte b) (escape bytes) (0 ∷ 0xff ∷ rest),
        append_assoc out (b ∷ []) bytes,
        decode_loop-escape_byte b (escape bytes ++ 0 ∷ 0xff ∷ rest) out i,
      ))

-- Two escaped bytes, each with what follows it, compare as the bytes do.
lex_cmp-escape_byte :
    (x y : ℕ) (s t : List ℕ)
    → IsByte x
    → IsByte y
    → lex_cmp (escape_byte x ++ s) (escape_byte y ++ t) ≡ then_cmp (compare x y) (lex_cmp s t)
unfolding escape_byte lex_cmp
lex_cmp-escape_byte x y s t h k = ground arith

end_lt_byte :
    (y : ℕ) (s t : List ℕ)
    → IsByte y
    → EndsValue s
    → lex_cmp (0 ∷ s) (escape_byte y ++ t) ≡ Ordering.lt
unfolding escape_byte lex_cmp
end_lt_byte y [] t h k = ground arith
end_lt_byte y (b ∷ s) t h k = ground arith

byte_gt_end :
    (y : ℕ) (s t : List ℕ)
    → IsByte y
    → EndsValue s
    → lex_cmp (escape_byte y ++ t) (0 ∷ s) ≡ Ordering.gt
unfolding escape_byte lex_cmp
byte_gt_end y [] t h k = ground arith
byte_gt_end y (b ∷ s) t h k = ground arith

pub lex_cmp-escape :
    (xs ys s t : List ℕ)
    → All IsByte xs
    → All IsByte ys
    → EndsValue s
    → EndsValue t
    → lex_cmp (escape xs ++ 0 ∷ s) (escape ys ++ 0 ∷ t) ≡ then_cmp (lex_cmp xs ys) (lex_cmp s t)
unfolding escape lex_cmp
lex_cmp-escape [] [] s t h k hs ht = refl
lex_cmp-escape [] (y ∷ ys) s t h (hy, k) hs ht =
    rw (append_assoc (escape_byte y) (escape ys) (0 ∷ t))
      (end_lt_byte y s (escape ys ++ 0 ∷ t) hy hs)
lex_cmp-escape (x ∷ xs) [] s t (hx, h) k hs ht =
    rw (append_assoc (escape_byte x) (escape xs) (0 ∷ s))
      (byte_gt_end x t (escape xs ++ 0 ∷ s) hx ht)
lex_cmp-escape (x ∷ xs) (y ∷ ys) s t (hx, h) (hy, k) hs ht = rw (
  append_assoc (escape_byte x) (escape xs) (0 ∷ s),
  append_assoc (escape_byte y) (escape ys) (0 ∷ t),
  lex_cmp-escape_byte x y (escape xs ++ 0 ∷ s) (escape ys ++ 0 ∷ t) hx hy,
  lex_cmp-escape xs ys s t h k hs ht,
  then_cmp_assoc (compare x y) (lex_cmp xs ys) (lex_cmp s t),
)
