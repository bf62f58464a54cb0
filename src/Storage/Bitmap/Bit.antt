-- ===== src/Storage/Bitmap/Bit.antt =====
-- The bits of a byte, by a table of all bytes and all bits.
use rgraph.Prelude.{
  inr, ==→eq, inl, ℕ, zero, suc, ◌<◌, ◌≡◌, refl, Bool, true, false, ◌&&◌, ltb, ltb→lt, ◌==◌, arith,
  if◌then◌else◌, Bool-cases,
}
use rgraph.Storage.Bitmap.{test_bit, set_bit, clear_bit}

abbrev same : Bool → Bool → Bool
same true b = b
same false true = false
same false false = true

same→eq : (a b : Bool) → same a b ≡ true → a ≡ b
same→eq true true h = refl
same→eq true false h = absurd (cc h)
same→eq false true h = absurd (cc h)
same→eq false false h = refl

abbrev all_below : ℕ → (ℕ → Bool) → Bool
all_below zero p = true
all_below (suc n) p = p n && all_below n p

and_left : (a b : Bool) → (a && b) ≡ true → a ≡ true
and_left true b h = refl
and_left false b h = absurd (cc h)

and_right : (a b : Bool) → (a && b) ≡ true → b ≡ true
and_right true b h = h
and_right false b h = absurd (cc h)

all_below_lem : (n : ℕ) (p : ℕ → Bool) → all_below n p ≡ true → (k : ℕ) → k < n → p k ≡ true
all_below_lem zero p h k below = absurd (omega arith)
all_below_lem (suc n) p h k below = elim (Bool-cases (k == n)) [
  | inl last ↦ rw (==→eq k n last) (and_left (p n) (all_below n p) h)
  | inr less ↦ all_below_lem n p (and_right (p n) (all_below n p) h) k (ground arith)
]

abbrev set_row : ℕ → ℕ → ℕ → Bool
set_row b j k = same (test_bit k (set_bit j b)) (if k == j then true else test_bit k b)

abbrev clear_row : ℕ → ℕ → ℕ → Bool
clear_row b j k = same (test_bit k (clear_bit j b)) (if k == j then false else test_bit k b)

abbrev table : (ℕ → ℕ → ℕ → Bool) → Bool
table row = all_below 256 (λ b. all_below 8 (λ j. all_below 8 (λ k. row b j k)))

set_table : table set_row ≡ true
unfolding test_bit set_bit
set_table = refl

clear_table : table clear_row ≡ true
unfolding test_bit clear_bit
clear_table = refl

abbrev range_table : Bool
range_table =
    all_below 256 (λ b. all_below 8 (λ j. ltb (set_bit j b) 256 && ltb (clear_bit j b) 256))

range_lem : range_table ≡ true
unfolding set_bit clear_bit
range_lem = refl

row_lem :
    (row : ℕ → ℕ → ℕ → Bool)
    → table row ≡ true
    → (b j k : ℕ) → b < 256
    → j < 8
    → k < 8
    → row b j k ≡ true
row_lem row h b j k hb hj hk =
    all_below_lem 8 (row b j)
      (all_below_lem 8 (λ j. all_below 8 (λ k. row b j k))
        (all_below_lem 256 (λ b. all_below 8 (λ j. all_below 8 (λ k. row b j k))) h b hb) j hj)
      k hk

pub test_bit-set_bit :
    (b j k : ℕ)
    → b < 256
    → j < 8
    → k < 8
    → test_bit k (set_bit j b) ≡ (if k == j then true else test_bit k b)
test_bit-set_bit b j k hb hj hk =
    same→eq (test_bit k (set_bit j b)) (if k == j then true else test_bit k b)
      (row_lem set_row set_table b j k hb hj hk)

pub test_bit-clear_bit :
    (b j k : ℕ)
    → b < 256
    → j < 8
    → k < 8
    → test_bit k (clear_bit j b) ≡ (if k == j then false else test_bit k b)
test_bit-clear_bit b j k hb hj hk =
    same→eq (test_bit k (clear_bit j b)) (if k == j then false else test_bit k b)
      (row_lem clear_row clear_table b j k hb hj hk)

range_row : (b j : ℕ) → b < 256 → j < 8 → (ltb (set_bit j b) 256 && ltb (clear_bit j b) 256) ≡ true
range_row b j hb hj =
    all_below_lem 8 (λ j. ltb (set_bit j b) 256 && ltb (clear_bit j b) 256)
      (all_below_lem 256 (λ b. all_below 8 (λ j. ltb (set_bit j b) 256 && ltb (clear_bit j b) 256))
        range_lem b hb)
      j hj

pub set_bit-lt : (b j : ℕ) → b < 256 → j < 8 → set_bit j b < 256
set_bit-lt b j hb hj =
    ltb→lt (set_bit j b) 256
      (and_left (ltb (set_bit j b) 256) (ltb (clear_bit j b) 256) (range_row b j hb hj))

pub clear_bit-lt : (b j : ℕ) → b < 256 → j < 8 → clear_bit j b < 256
clear_bit-lt b j hb hj =
    ltb→lt (clear_bit j b) 256
      (and_right (ltb (set_bit j b) 256) (ltb (clear_bit j b) 256) (range_row b j hb hj))
