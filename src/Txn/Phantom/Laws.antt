-- ===== src/Txn/Phantom/Laws.antt =====
-- Range ids keep apart from row ids, and when a transaction is doomed.
use rgraph.Prelude.{ℕ, ◌+◌, ◌*◌, ◌%◌, ◌^◌, ◌≤◌, ◌<◌, ◌≡◌, ◌≢◌, true, false, List, [], ◌∷◌, arith}
use rgraph.Prelude.Bits.{bit_or_top}
use Prim.Native.Nat.{bit_xor}
use rgraph.Txn.Phantom.{
  fnv_prime, SsiTracker, SsiFlags, record_rw_antidependency, is_doomed, cleanup, flags_doomed,
  range_resource_id, hash_loop, predicate_resource_id, fnv_offset,
}

-- The range id of a page below 2 ^ 63 is the page id plus 2 ^ 63, so it tells pages apart, and is
-- no row id below 2 ^ 63.
pub range_resource_id_apart :
    (p row : ℕ)
    → p < 2 ^ 63
    → row < 2 ^ 63
    → (range_resource_id p ≡ p + 2 ^ 63) × (range_resource_id p ≢ row)
unfolding range_resource_id
range_resource_id_apart p row hp hr = ground (arith, bit_or_top 63 p)

hash_loop-lt : (hash : ℕ) (bytes : List ℕ) → hash < 2 ^ 64 → hash_loop hash bytes < 2 ^ 64
unfolding hash_loop
hash_loop-lt hash [] h = h
hash_loop-lt hash (b ∷ bytes) h =
    hash_loop-lt (bit_xor hash b * fnv_prime % 2 ^ 64) bytes (omega arith)

-- The id of any predicate is a u64 with the highest bit set, so no row id below 2 ^ 63.
pub predicate_resource_id_range :
    (predicate : List ℕ)
    → (2 ^ 63 ≤ predicate_resource_id predicate) × (predicate_resource_id predicate < 2 ^ 64)
unfolding predicate_resource_id
predicate_resource_id_range predicate = ground (
  arith,
  hash_loop-lt fnv_offset predicate (omega arith),
  bit_or_top 63 (hash_loop fnv_offset predicate),
)

-- One conflict between two transactions, neither of which had any before, dooms neither of them;
-- a second one the other way round dooms both; and after the tracker has forgotten a transaction,
-- only its own flags can doom it.
pub is_doomed_antidependency :
    (t : SsiTracker) (a b : ℕ) (fa fb f : SsiFlags)
    → a ≢ b
    → (t.out_set a ≡ false) × (t.in_set a ≡ false) × (t.out_set b ≡ false) × (t.in_set b ≡ false)
    → (fa.in_conflict ≡ false) × (fa.out_conflict ≡ false)
    → (fb.in_conflict ≡ false) × (fb.out_conflict ≡ false)
    → let (t1, ra, wb) = record_rw_antidependency a b fa fb t in
      let (t2, rb, wa) = record_rw_antidependency b a wb ra t1 in
      (is_doomed a ra t1 ≡ false)
      × (is_doomed b wb t1 ≡ false)
      × (is_doomed a wa t2 ≡ true)
      × (is_doomed b rb t2 ≡ true)
      × (is_doomed a f (cleanup a t2) ≡ flags_doomed f)
unfolding record_rw_antidependency is_doomed cleanup flags_doomed
is_doomed_antidependency t a b fa fb f h ht hfa hfb =
    (ground arith, ground arith, ground arith, ground arith, ground arith)
