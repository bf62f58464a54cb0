-- ===== src/Prelude/Bytes/Lex.antt =====
-- The order of byte strings, `<[u8] as Ord>::cmp`, and why big-endian fields sort as numbers.
use rgraph.Prelude.{
  ℕ, zero, suc, ◌+◌, ◌*◌, ◌/◌, ◌%◌, ◌^◌, ◌<◌, compare, Ordering, ◌≡◌, refl, List, [], ◌∷◌, ◌++◌,
  arith, length, ◌∙◌, sym, append_assoc,
}
use native.Mathlib.Nat.{div-add-mod, mul-le-mul_left}
use rgraph.Prelude.Bytes.{be_bytes, length-be_bytes, rem_lt}

-- `Ordering::then`
abbrev pub then_cmp : Ordering → Ordering → Ordering
then_cmp Ordering.lt p = Ordering.lt
then_cmp Ordering.eq p = p
then_cmp Ordering.gt p = Ordering.gt

unfoldable pub lex_cmp : List ℕ → List ℕ → Ordering
lex_cmp [] [] = Ordering.eq
lex_cmp [] (y ∷ ys) = Ordering.lt
lex_cmp (x ∷ xs) [] = Ordering.gt
lex_cmp (x ∷ xs) (y ∷ ys) = then_cmp (compare x y) (lex_cmp xs ys)

pub then_cmp_assoc : (o p q : Ordering) → then_cmp (then_cmp o p) q ≡ then_cmp o (then_cmp p q)
then_cmp_assoc Ordering.lt p q = refl
then_cmp_assoc Ordering.eq p q = refl
then_cmp_assoc Ordering.gt p q = refl

-- Fields of one length compare one after the other.
pub lex_cmp-append :
    (xs ys s t : List ℕ)
    → length xs ≡ length ys
    → lex_cmp (xs ++ s) (ys ++ t) ≡ then_cmp (lex_cmp xs ys) (lex_cmp s t)
unfolding lex_cmp
lex_cmp-append [] [] s t h = refl
lex_cmp-append [] (y ∷ ys) s t h = absurd (omega arith)
lex_cmp-append (x ∷ xs) [] s t h = absurd (omega arith)
lex_cmp-append (x ∷ xs) (y ∷ ys) s t h =
    rw (lex_cmp-append xs ys s t (omega arith), then_cmp_assoc (compare x y))

blocks_lt : (p q r q' r' : ℕ) → q < q' → r < p → p * q + r < p * q' + r'
blocks_lt p q r q' r' h k = omega (arith, mul-le-mul_left p h)

digits_cmp :
    (p q r q' r' : ℕ)
    → r < p
    → r' < p
    → then_cmp (compare q q') (compare r r') ≡ compare (p * q + r) (p * q' + r')
digits_cmp p q r q' r' h h' = ground (arith, blocks_lt p q r q' r', blocks_lt p q' r' q r)

pub lex_cmp-be_bytes :
    (n a b : ℕ) → a < 256 ^ n → b < 256 ^ n → lex_cmp (be_bytes n a) (be_bytes n b) ≡ compare a b
unfolding lex_cmp be_bytes
lex_cmp-be_bytes zero a b h k = ground arith
lex_cmp-be_bytes (suc n) a b h k = rw (
  lex_cmp-be_bytes n (a % 256 ^ n) (b % 256 ^ n) (rem_lt n a) (rem_lt n b),
  digits_cmp (256 ^ n) (a / 256 ^ n) (a % 256 ^ n) (b / 256 ^ n) (b % 256 ^ n) (rem_lt n a)
      (rem_lt n b),
  div-add-mod a (256 ^ n),
  div-add-mod b (256 ^ n),
)

-- A big-endian field in front decides first.
pub lex_cmp-field :
    (n a b : ℕ) (s t : List ℕ)
    → a < 256 ^ n
    → b < 256 ^ n
    → lex_cmp (be_bytes n a ++ s) (be_bytes n b ++ t) ≡ then_cmp (compare a b) (lex_cmp s t)
lex_cmp-field n a b s t h k = rw (
  lex_cmp-append (be_bytes n a) (be_bytes n b) s t
      (length-be_bytes n a ∙ sym (length-be_bytes n b)),
  lex_cmp-be_bytes n a b h k,
)

pub lex_cmp_two :
    (n m a b a' b' : ℕ)
    → (a < 256 ^ n) × (b < 256 ^ m)
    → (a' < 256 ^ n) × (b' < 256 ^ m)
    → lex_cmp (be_bytes n a ++ be_bytes m b) (be_bytes n a' ++ be_bytes m b')
      ≡ then_cmp (compare a a') (compare b b')
lex_cmp_two n m a b a' b' (ha, hb) (ka, kb) =
    rw (lex_cmp-field n a a' (be_bytes m b) (be_bytes m b') ha ka, lex_cmp-be_bytes m b b' hb kb)

pub lex_cmp_three :
    (n m k a b c a' b' c' : ℕ)
    → (a < 256 ^ n) × (b < 256 ^ m) × (c < 256 ^ k)
    → (a' < 256 ^ n) × (b' < 256 ^ m) × (c' < 256 ^ k)
    → lex_cmp
        ((be_bytes n a ++ be_bytes m b) ++ be_bytes k c)
        ((be_bytes n a' ++ be_bytes m b') ++ be_bytes k c')
      ≡ then_cmp (compare a a') (then_cmp (compare b b') (compare c c'))
lex_cmp_three n m k a b c a' b' c' (ha, hb, hc) (ka, kb, kc) = rw (
  append_assoc (be_bytes n a) (be_bytes m b) (be_bytes k c),
  append_assoc (be_bytes n a') (be_bytes m b') (be_bytes k c'),
  lex_cmp-field n a a' (be_bytes m b ++ be_bytes k c) (be_bytes m b' ++ be_bytes k c') ha ka,
  lex_cmp_two m k b c b' c' (hb, hc) (kb, kc),
)
