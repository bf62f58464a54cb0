-- ===== src/Prelude/Bits/Digits.antt =====
-- One step of the digit recursion that the native bit operations stand for.
use Prim.Native.Nat.{
  ℕ, zero, suc, ◌+◌, ◌*◌, ◌/◌, ◌%◌, ◌≤◌, min, max, bit_and, bit_or, bit_xor, digits, differ,
  bit_and-bitwise, bit_or-bitwise, bit_xor-bitwise,
}
use mathlib.Core.Path.{◌≡◌, refl, ap}
use native.Mathlib.Omega.{arith}

module _ (rest : ℕ → ℕ) (op : ℕ → ℕ → ℕ) where
  -- Any two counts of digits that are no less than the first number give one result.
  counts_agree : (x y n m : ℕ) → (x ≤ n) × (x ≤ m) → digits rest op n x y ≡ digits rest op m x y
  counts_agree zero y zero zero h = refl
  counts_agree zero y zero (suc m) h = refl
  counts_agree zero y (suc n) zero h = refl
  counts_agree zero y (suc n) (suc m) h = refl
  counts_agree (suc x) y zero m h = absurd (omega arith)
  counts_agree (suc x) y (suc n) zero h = absurd (omega arith)
  counts_agree (suc x) y (suc n) (suc m) h =
      ap (λ (t : ℕ). t * 2 + op (suc x % 2) (y % 2))
        (counts_agree (suc x / 2) (y / 2) n m (omega arith))

  digits_step :
      (x y : ℕ)
      → digits rest op (suc x) (suc x) y
        ≡ op (suc x % 2) (y % 2) + 2 * digits rest op (suc x / 2) (suc x / 2) (y / 2)
  digits_step x y = omega (arith, counts_agree (suc x / 2) (y / 2) x (suc x / 2) (omega arith))

-- Each operation joins the lowest digits, and then those above.
pub bit_and_step : (x y : ℕ) → bit_and x y ≡ min (x % 2) (y % 2) + 2 * bit_and (x / 2) (y / 2)
bit_and_step zero y = simp bit_and-bitwise (omega arith)
bit_and_step (suc x) y = simp bit_and-bitwise (digits_step (λ d. 0) min x y)

pub bit_or_step : (x y : ℕ) → bit_or x y ≡ max (x % 2) (y % 2) + 2 * bit_or (x / 2) (y / 2)
bit_or_step zero y = simp bit_or-bitwise (omega arith)
bit_or_step (suc x) y = simp bit_or-bitwise (digits_step (λ d. d) max x y)

pub bit_xor_step : (x y : ℕ) → bit_xor x y ≡ differ (x % 2) (y % 2) + 2 * bit_xor (x / 2) (y / 2)
bit_xor_step zero y = simp bit_xor-bitwise (omega arith)
bit_xor_step (suc x) y = simp bit_xor-bitwise (digits_step (λ d. d) differ x y)
