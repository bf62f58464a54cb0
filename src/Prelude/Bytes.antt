-- ===== src/Prelude/Bytes.antt =====
-- Machine integers as bytes: `to_be_bytes`, `from_be_bytes` and their little-endian versions.
pub mod Lex
use Prim.Native.Nat.{ℕ, zero, suc, ◌+◌, ◌*◌, ◌/◌, ◌%◌, ◌^◌, ◌<◌}
use mathlib.Core.Path.{◌≡◌, refl}
use mathlib.Core.List.{List, [], ◌∷◌}
use native.Mathlib.Omega.{arith}
use native.Mathlib.Nat.{pow-suc, mod-lt, div-add-mod, div-lt_iff_lt-mul}
use rgraph.Prelude.Lists.{length, All}

abbrev pub IsByte : ℕ → Type 0
IsByte b = b < 256

abbrev pub u64_mod : ℕ
u64_mod = 2 ^ 64

abbrev pub IsU64 : ℕ → Type 0
IsU64 v = v < 2 ^ 64

abbrev pub IsU128 : ℕ → Type 0
IsU128 v = v < 2 ^ 128

-- The `n` bytes of `v`, highest first, for `v` below `256 ^ n`.
unfoldable pub be_bytes : ℕ → ℕ → List ℕ
be_bytes zero v = []
be_bytes (suc n) v = (v / 256 ^ n) ∷ be_bytes n (v % 256 ^ n)

unfoldable pub from_be_bytes : List ℕ → ℕ
from_be_bytes [] = 0
from_be_bytes (b ∷ bs) = b * 256 ^ length bs + from_be_bytes bs

-- The `n` bytes of `v`, lowest first.
unfoldable pub le_bytes : ℕ → ℕ → List ℕ
le_bytes zero v = []
le_bytes (suc n) v = (v % 256) ∷ le_bytes n (v / 256)

unfoldable pub from_le_bytes : List ℕ → ℕ
from_le_bytes [] = 0
from_le_bytes (b ∷ bs) = b + 256 * from_le_bytes bs

pub length-be_bytes : (n v : ℕ) → length (be_bytes n v) ≡ n
unfolding be_bytes
length-be_bytes zero v = refl
length-be_bytes (suc n) v = omega (arith, length-be_bytes n (v % 256 ^ n))

pub length-le_bytes : (n v : ℕ) → length (le_bytes n v) ≡ n
unfolding le_bytes
length-le_bytes zero v = refl
length-le_bytes (suc n) v = omega (arith, length-le_bytes n (v / 256))

pub pow256_pos : (n : ℕ) → 0 < 256 ^ n
pow256_pos zero = omega arith
pow256_pos (suc n) = omega (arith, pow-suc 256 n, pow256_pos n)

pub rem_lt : (n v : ℕ) → v % 256 ^ n < 256 ^ n
rem_lt n v = mod-lt v (pow256_pos n)

pub from_be_bytes-be_bytes : (n v : ℕ) → v < 256 ^ n → from_be_bytes (be_bytes n v) ≡ v
unfolding be_bytes from_be_bytes
from_be_bytes-be_bytes zero v h = omega arith
from_be_bytes-be_bytes (suc n) v h =
    rw (length-be_bytes n (v % 256 ^ n), from_be_bytes-be_bytes n (v % 256 ^ n) (rem_lt n v))
      (omega (arith, div-add-mod v (256 ^ n)))

pub from_le_bytes-le_bytes : (n v : ℕ) → v < 256 ^ n → from_le_bytes (le_bytes n v) ≡ v
unfolding le_bytes from_le_bytes
from_le_bytes-le_bytes zero v h = omega arith
from_le_bytes-le_bytes (suc n) v h =
    omega (arith, pow-suc 256 n, from_le_bytes-le_bytes n (v / 256) (omega (arith, pow-suc 256 n)))

top_byte : (n v : ℕ) → v < 256 ^ suc n → v / 256 ^ n < 256
top_byte n v h = (div-lt_iff_lt-mul (pow256_pos n)).1 (omega (arith, pow-suc 256 n))

pub be_bytes-IsByte : (n v : ℕ) → v < 256 ^ n → All IsByte (be_bytes n v)
unfolding be_bytes
be_bytes-IsByte zero v h = tt
be_bytes-IsByte (suc n) v h = (top_byte n v h, be_bytes-IsByte n (v % 256 ^ n) (rem_lt n v))

pub le_bytes-IsByte : (n v : ℕ) → All IsByte (le_bytes n v)
unfolding le_bytes
le_bytes-IsByte zero v = tt
le_bytes-IsByte (suc n) v = (omega arith, le_bytes-IsByte n (v / 256))
