-- ===== src/Index/ValueCodec/Order.antt =====
-- The byte order of the encodings is the derived order of the values.
use rgraph.Prelude.{
  arith, ℕ, ◌≤◌, ◌≡◌, refl, Bool, true, false, some, List, [], ◌∷◌, ◌++◌, length, All, append_assoc,
  compare, Ordering,
}
use rgraph.Prelude.Bytes.{IsByte}
use rgraph.Prelude.Bytes.Lex.{lex_cmp, then_cmp, lex_cmp-field}
use rgraph.Prelude.Int.{cmp_ℤ}
use rgraph.Index.ValueCodec.{
  Value, null, bool, int64, float64, string, list, map, encode, tag, payload, terminated, escape,
  order_i64,
}
use rgraph.Index.ValueCodec.Words.{order_i64-lt, compare-order_i64}
use rgraph.Index.ValueCodec.Escape.{EndsValue, lex_cmp-escape}
use rgraph.Index.ValueCodec.RoundTrip.{IsValue, encode-eq_some, take-u16_max}

cmp_bool : Bool → Bool → Ordering
cmp_bool false false = Ordering.eq
cmp_bool false true = Ordering.lt
cmp_bool true false = Ordering.gt
cmp_bool true true = Ordering.eq

-- `#[derive(PartialOrd, Ord)]` on `Value`: the variants in the order of their declaration, and
-- values of one variant by their payload.
unfoldable pub cmp_value : Value → Value → Ordering
unfolding cmp_bool tag
cmp_value (bool a) (bool b) = cmp_bool a b
cmp_value (int64 a) (int64 b) = cmp_ℤ a b
cmp_value (float64 a) (float64 b) = compare a b
cmp_value (string a) (string b) = lex_cmp a b
cmp_value (list a) (list b) = lex_cmp a b
cmp_value (map a) (map b) = lex_cmp a b
cmp_value v w = compare (tag v) (tag w)

lex_cmp-terminated :
    (xs ys s t : List ℕ)
    → All IsByte xs × (length (terminated xs) ≤ 511) × EndsValue s
    → All IsByte ys × (length (terminated ys) ≤ 511) × EndsValue t
    → lex_cmp (terminated xs ++ s) (terminated ys ++ t) ≡ then_cmp (lex_cmp xs ys) (lex_cmp s t)
unfolding terminated
lex_cmp-terminated xs ys s t (bx, lx, es) (by, ly, et) =
    rw
      (
        take-u16_max xs lx,
        take-u16_max ys ly,
        append_assoc (escape xs) (0 ∷ []) s,
        append_assoc (escape ys) (0 ∷ []) t,
      )
      (lex_cmp-escape xs ys s t bx by es et)

-- The tagged payloads of two values, each with what follows it.
lex_cmp-payload :
    (v w : Value) (s t : List ℕ)
    → IsValue v × (length (payload v) ≤ 511) × EndsValue s
    → IsValue w × (length (payload w) ≤ 511) × EndsValue t
    → lex_cmp ((tag v ∷ payload v) ++ s) ((tag w ∷ payload w) ++ t)
      ≡ then_cmp (cmp_value v w) (lex_cmp s t)
unfolding lex_cmp payload cmp_value
lex_cmp-payload (bool true) (bool true) s t h k = refl
lex_cmp-payload (bool true) (bool false) s t h k = refl
lex_cmp-payload (bool false) (bool true) s t h k = refl
lex_cmp-payload (bool false) (bool false) s t h k = refl
lex_cmp-payload (int64 a) (int64 b) s t h k = rw (
  lex_cmp-field 8 (order_i64 a) (order_i64 b) s t (order_i64-lt a) (order_i64-lt b),
  compare-order_i64 a b h.0 k.0,
)
lex_cmp-payload (float64 a) (float64 b) s t h k = lex_cmp-field 8 a b s t h.0 k.0
lex_cmp-payload (string a) (string b) s t h k = lex_cmp-terminated a b s t h k
lex_cmp-payload (list a) (list b) s t h k = lex_cmp-terminated a b s t h k
lex_cmp-payload (map a) (map b) s t h k = lex_cmp-terminated a b s t h k
lex_cmp-payload null null s t h k = refl
lex_cmp-payload v w s t h k = refl

module _ (v w : Value) (bv bw : List ℕ) (n m : ℕ) (hv : IsValue v) (hw : IsValue w)
    (ev : encode v [] ≡ (bv, some n)) (ew : encode w [] ≡ (bw, some m)) where
  -- Encoded values, each with what follows it, compare as the values do, and then as what
  -- follows. What follows may not begin with the byte 0xff.
  pub lex_cmp-encode-append :
      (s t : List ℕ)
      → EndsValue s
      → EndsValue t
      → lex_cmp (bv ++ s) (bw ++ t) ≡ then_cmp (cmp_value v w) (lex_cmp s t)
  lex_cmp-encode-append s t es et =
      let (sv, cv, lv) = encode-eq_some v [] bv n ev in
      let (sw, cw, lw) = encode-eq_some w [] bw m ew in
      rw (sv, sw)
        (lex_cmp-payload v w s t (hv, omega (arith, cv, lv), es) (hw, omega (arith, cw, lw), et))
