-- ===== src/Txn/LockTable/Shards.antt =====
-- The table as a whole: the entries are independent, and none outlives its holders.
use mathlib.Core.Path.{subst}
use mathlib.Core.Option.{some-injective}
use rgraph.Prelude.{
  ==→eq, ==_refl, ◌++◌, ℕ, ◌<◌, ◌≡◌, ◌≢◌, refl, true, Option, none, some, List, [], ◌∷◌, ◌==◌,
  if◌then◌else◌, arith, Bool-cases, Option-cases, inl, inr,
}
use rgraph.Txn.LockTable.Entry.{
  LockMode, Holder, LockEntry, new_entry, compatible_with_holders, add_holder, holds_any,
  already_holds, Waiter, acquire_entry, release_entry, is_idle,
}
use rgraph.Txn.LockTable.Coherence.{
  IsValid, new_entry-IsValid, acquire_entry-IsValid, release_entry-IsValid,
}
use rgraph.Txn.LockTable.{
  LockTable, new, n_shards, shard_index, entry_at, write_entry, try_acquire, release, or_new, kept,
}

-- Every resource has a shard.
pub shard_index-lt : (r : ℕ) → shard_index r < n_shards
unfolding shard_index
shard_index-lt r = omega arith

same_shard : (k r : ℕ) → (k == r) ≡ true → (shard_index k == shard_index r) ≡ true
same_shard k r h = rw (==→eq k r h) (==_refl (shard_index r))

-- A write to one resource changes no other.
pub entry_at-write_entry :
    (r k : ℕ) (e : Option LockEntry) (t : LockTable)
    → entry_at (write_entry r e t) k ≡ (if k == r then e else entry_at t k)
unfolding entry_at write_entry
entry_at-write_entry r k e t = ground (arith, same_shard k r)

-- An entry is valid, and it is there because someone holds the lock.
pub record IsLive (e : LockEntry) : Type 0 where
  pub valid : IsValid e
  pub held : e.holders ≢ []

pub record IsSafe (t : LockTable) : Type 0 where
  pub at : (r : ℕ) (e : LockEntry) → entry_at t r ≡ some e → IsLive e

pub new-IsSafe : IsSafe new
unfolding new entry_at
new-IsSafe = record { at = λ r e h. cc }

snoc-ne-nil : (hs : List Holder) (h : Holder) → hs ++ h ∷ [] ≢ []
snoc-ne-nil [] h e = cc
snoc-ne-nil (g ∷ hs) h e = cc

add_holder-ne-nil : (t : ℕ) (m : LockMode) (hs : List Holder) → add_holder t m hs ≢ []
unfolding add_holder holds_any
add_holder-ne-nil t m [] h = cc
add_holder-ne-nil t m (g ∷ hs) h = ground arith

acquire-IsLive_new : (t : ℕ) (m : LockMode) → IsLive (acquire_entry t m new_entry).1
acquire-IsLive_new t m = record {
  valid = acquire_entry-IsValid t m new_entry new_entry-IsValid;
  held =
      unfold acquire_entry new_entry already_holds compatible_with_holders in
      add_holder-ne-nil t m [];
}

acquire-held :
    (t : ℕ) (m : LockMode) (e : LockEntry) → e.holders ≢ [] → (acquire_entry t m e).1.holders ≢ []
unfolding acquire_entry
acquire-held t m e h = λ nil. ground (arith, h, add_holder-ne-nil t m e.holders)

acquire-IsLive :
    (t : ℕ) (m : LockMode) (o : Option LockEntry)
    → ((e : LockEntry) → o ≡ some e → IsLive e)
    → IsLive (acquire_entry t m (or_new o)).1
acquire-IsLive t m none live = acquire-IsLive_new t m
acquire-IsLive t m (some e) live =
    let v = live e refl in
    record { valid = acquire_entry-IsValid t m e v.valid; held = acquire-held t m e v.held }

kept-IsLive :
    (hs : List Holder) (ws : List Waiter) (e : LockEntry)
    → IsValid (record { holders = hs; waiters = ws })
    → kept (record { holders = hs; waiters = ws }) ≡ some e
    → IsLive e
unfolding is_idle compatible_with_holders
kept-IsLive [] [] e v h = cc
kept-IsLive [] (w ∷ ws) e v h = cc (v.stalled)
kept-IsLive (g ∷ hs) ws e v h =
    subst IsLive (some-injective _ _ h) (record { valid = v; held = λ nil. cc })

release-IsLive :
    (t : ℕ) (e e' : LockEntry) → IsLive e → kept (release_entry t e).1 ≡ some e' → IsLive e'
release-IsLive t e e' v h =
    kept-IsLive (release_entry t e).1.holders (release_entry t e).1.waiters e'
      (release_entry-IsValid t e v.valid) h

write-IsSafe :
    (r : ℕ) (o : Option LockEntry) (t : LockTable)
    → IsSafe t
    → ((e : LockEntry) → o ≡ some e → IsLive e)
    → IsSafe (write_entry r o t)
write-IsSafe r o t v live = record {
  at = λ k e h. elim (Bool-cases (k == r)) [
    | inl same ↦ live e (rw (entry_at-write_entry, same) at h)
    | inr other ↦ v.at k e (rw (entry_at-write_entry, other) at h)
  ];
}

-- Requests, granted or not, and releases keep every entry of the table valid and held.
pub try_acquire-IsSafe :
    (r t : ℕ) (m : LockMode) (table : LockTable) → IsSafe table → IsSafe (try_acquire r t m table).1
unfolding try_acquire
try_acquire-IsSafe r t m table v =
    write-IsSafe r _ table v
      λ e h. subst IsLive (some-injective _ _ h) (acquire-IsLive t m (entry_at table r) (v.at r))

pub release-IsSafe : (r t : ℕ) (table : LockTable) → IsSafe table → IsSafe (release r t table).1
unfolding release
release-IsSafe r t table v = elim (Option-cases (entry_at table r)) [
  | inl missing ↦ rw (missing, release) v
  | inr (e, found) ↦
      rw (found, release)
        (write-IsSafe r _ table v λ e' h. release-IsLive t e e' (v.at r e found) h)
]

pub data Request : Type 0 where
  acquires : ℕ → ℕ → LockMode → Request
  releases : ℕ → ℕ → Request

unfoldable pub serve : LockTable → Request → LockTable
serve table (acquires r t m) = (try_acquire r t m table).1
serve table (releases r t) = (release r t table).1

unfoldable pub run : LockTable → List Request → LockTable
run table [] = table
run table (q ∷ qs) = run (serve table q) qs

-- After any requests and releases on a safe table, every entry of it is valid: its holders are
-- different transactions in pairwise compatible modes, its first waiter conflicts with a holder,
-- no transaction waits twice; and every entry has a holder.
pub run-IsSafe : (table : LockTable) (qs : List Request) → IsSafe table → IsSafe (run table qs)
unfolding run serve
run-IsSafe table [] v = v
run-IsSafe table (acquires r t m ∷ qs) v =
    run-IsSafe (try_acquire r t m table).1 qs (try_acquire-IsSafe r t m table v)
run-IsSafe table (releases r t ∷ qs) v =
    run-IsSafe (release r t table).1 qs (release-IsSafe r t table v)
