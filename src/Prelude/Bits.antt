-- ===== src/Prelude/Bits.antt =====
-- `&`, `|` and `^` with one bit, as arithmetic: the top bit of a word of any width, and any bit
-- of a byte.
mod Digits
use Prim.Native.Nat.{bit_and, bit_or, bit_xor, differ}
use native.Mathlib.Nat.{pow-suc, mul_assoc}
use rgraph.Prelude.Tests.{ltb, if◌then◌else◌}
use Prim.Native.Nat.{ℕ, zero, suc, ◌+◌, ◌-◌, ◌*◌, ◌/◌, ◌%◌, ◌^◌, ◌≤◌, ◌<◌}
use mathlib.Core.Path.{◌≡◌, refl}
use native.Mathlib.Omega.{arith}
use Digits.{bit_and_step, bit_or_step, bit_xor_step}

-- The numbers below `2 ^ suc k` are the words of `k + 1` bits, and `2 ^ k` is their top bit.
pub bit_and_top :
    (k a : ℕ) → a < 2 ^ suc k → bit_and a (2 ^ k) ≡ (if ltb a (2 ^ k) then 0 else 2 ^ k)
bit_and_top zero zero h = refl
bit_and_top zero (suc zero) h = refl
bit_and_top zero (suc (suc a)) h = absurd (omega arith)
bit_and_top (suc k) a h =
    ground
      (arith, bit_and_step a (2 ^ suc k), pow-suc 2 k, pow-suc 2 (suc k), bit_and_top k (a / 2))

pub bit_or_top :
    (k a : ℕ) → a < 2 ^ suc k → bit_or a (2 ^ k) ≡ (if ltb a (2 ^ k) then a + 2 ^ k else a)
bit_or_top zero zero h = refl
bit_or_top zero (suc zero) h = refl
bit_or_top zero (suc (suc a)) h = absurd (omega arith)
bit_or_top (suc k) a h =
    ground (arith, bit_or_step a (2 ^ suc k), pow-suc 2 k, pow-suc 2 (suc k), bit_or_top k (a / 2))

differ-zero : (a : ℕ) → differ (a % 2) 0 ≡ a % 2
differ-zero a = elim (a % 2) as (λ r. differ r 0 ≡ r) [ zero ↦ refl | suc r ↦ refl ]

pub bit_xor_top :
    (k a : ℕ) → a < 2 ^ suc k → bit_xor a (2 ^ k) ≡ (if ltb a (2 ^ k) then a + 2 ^ k else a - 2 ^ k)
bit_xor_top zero zero h = refl
bit_xor_top zero (suc zero) h = refl
bit_xor_top zero (suc (suc a)) h = absurd (omega arith)
bit_xor_top (suc k) a h = ground (
  arith,
  bit_xor_step a (2 ^ suc k),
  pow-suc 2 k,
  pow-suc 2 (suc k),
  differ-zero a,
  bit_xor_top k (a / 2),
)

bit_or-zero : (n a : ℕ) → a ≤ n → bit_or a 0 ≡ a
bit_or-zero n zero h = omega (arith, bit_or_step 0 0)
bit_or-zero zero (suc a) h = absurd (omega arith)
bit_or-zero (suc n) (suc a) h =
    ground (arith, bit_or_step (suc a) 0, bit_or-zero n (suc a / 2) (omega arith))

bit_or_double : (x b : ℕ) → bit_or (x * 2) b ≡ b % 2 + 2 * bit_or x (b / 2)
bit_or_double x b =
    let e : x * 2 / 2 ≡ x = omega arith in rw (bit_or_step (x * 2) b, e) (ground arith)

-- `|` of a number whose low bits are clear with a number of those bits is their sum.
pub bit_or_low : (k a b : ℕ) → b < 2 ^ k → bit_or (a * 2 ^ k) b ≡ a * 2 ^ k + b
bit_or_low zero a zero h = rw (bit_or-zero (a * 1) (a * 1) (omega arith)) (omega arith)
bit_or_low zero a (suc b) h = absurd (omega arith)
bit_or_low (suc k) a b h =
    let e : a * 2 ^ suc k ≡ a * 2 ^ k * 2 = rw (pow-suc 2 k) omega (arith, mul_assoc a (2 ^ k) 2) in
    rw (e, bit_or_double (a * 2 ^ k) b)
      (omega (arith, bit_or_low k a (b / 2) (omega (arith, pow-suc 2 k))))
