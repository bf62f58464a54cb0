-- ===== src/Wal/Lsn.antt =====
-- src/wal/writer.rs: log sequence numbers, a segment and an offset in 64 bits.
use Prim.Native.Nat.{bit_or}
use rgraph.Prelude.{ℕ, ◌+◌, ◌*◌, ◌/◌, ◌%◌, ◌^◌, ◌<◌, ◌≡◌, arith}
use rgraph.Prelude.Bits.{bit_or_low}

unfoldable pub make_lsn : ℕ → ℕ → ℕ
make_lsn segment_id offset = bit_or (segment_id * 2 ^ 32 % 2 ^ 64) offset

unfoldable pub lsn_segment_id : ℕ → ℕ
lsn_segment_id lsn = lsn / 2 ^ 32 % 2 ^ 32

unfoldable pub lsn_offset : ℕ → ℕ
lsn_offset lsn = lsn % 2 ^ 32

-- A u32 segment and a u32 offset make their LSN as a number of two digits of 32 bits.
pub make_lsn-eq : (s o : ℕ) → s < 2 ^ 32 → o < 2 ^ 32 → make_lsn s o ≡ s * 2 ^ 32 + o
unfolding make_lsn
make_lsn-eq s o hs ho =
    let e : s * 2 ^ 32 % 2 ^ 64 ≡ s * 2 ^ 32 = omega arith in rw e (bit_or_low 32 s o ho)

-- A u32 segment and a u32 offset come back from their LSN.
pub lsn-make_lsn :
    (s o : ℕ)
    → s < 2 ^ 32
    → o < 2 ^ 32
    → (lsn_segment_id (make_lsn s o) ≡ s) × (lsn_offset (make_lsn s o) ≡ o)
unfolding lsn_segment_id lsn_offset
lsn-make_lsn s o hs ho = rw (make_lsn-eq s o hs ho) (omega arith)
