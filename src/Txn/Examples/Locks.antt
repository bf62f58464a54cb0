-- ===== src/Txn/Examples/Locks.antt =====
-- The theorems on the lock table at concrete tables and entries.
use mathlib.Core.Option.{some-injective}
use mathlib.Core.Path.{subst}
use rgraph.Prelude.{ℕ, ◌≡◌, refl, false, some, List, [], ◌∷◌, arith, ◌==◌, Bool-cases, inl, inr}
use rgraph.Txn.LockTable
use rgraph.Txn.LockTable.{LockTable, try_acquire, release_all, entry_at}
use rgraph.Txn.LockTable.Entry.{
  LockEntry, Holder, granted, shared, exclusive, new_entry, holds_any, already_holds, acquire_entry,
  release_entry, compatible_with_holders,
}
use rgraph.Txn.LockTable.Queue.{sole, release_entry_wakes, acquire_entry_upgrade_conflict}
use rgraph.Txn.LockTable.Shards.{
  IsSafe, run, acquires, releases, run-IsSafe, new-IsSafe, try_acquire-IsSafe, entry_at-write_entry,
}
use rgraph.Txn.LockTable.Freed.{WaitsNowhere, IsFree, waits_any, release_all-IsFree}

run-IsSafe_example :
    IsSafe (run LockTable.new (acquires 5 1 exclusive ∷ acquires 5 2 shared ∷ releases 5 1 ∷ []))
run-IsSafe_example =
    run-IsSafe LockTable.new (acquires 5 1 exclusive ∷ acquires 5 2 shared ∷ releases 5 1 ∷ [])
      new-IsSafe

-- Transaction 1 holds, and 2 and 3 wait.
abbrev contended : LockEntry
contended =
    sole 1 exclusive
      (record { txid = 2; mode = shared } ∷ record { txid = 3; mode = exclusive } ∷ [])

abbrev no_holders : List Holder
no_holders = []

release_entry_wakes_example : (rest : List ℕ) × ((release_entry 1 contended).0 ≡ 2 ∷ rest)
release_entry_wakes_example =
    release_entry_wakes 1 exclusive (record { txid = 2; mode = shared })
      (record { txid = 3; mode = exclusive } ∷ [])

free_of_four : holds_any 4 new_entry.holders ≡ false
unfolding holds_any new_entry
free_of_four = refl

grants_four : (acquire_entry 4 shared new_entry).0.0 ≡ granted
unfolding acquire_entry new_entry already_holds compatible_with_holders
grants_four = refl

acquire_entry_upgrade_conflict_example :
    ((acquire_entry 1 exclusive (sole 1 shared [])).0.0 ≡ granted)
    × ((acquire_entry 2 shared (acquire_entry 1 exclusive (sole 1 shared [])).1).0.0 ≡ granted)
acquire_entry_upgrade_conflict_example = acquire_entry_upgrade_conflict 1 2 [] (λ e. omega arith)

-- Transaction 1 holds resource 5, and no one waits.
abbrev pub one_lock : LockTable
one_lock = (try_acquire 5 1 exclusive LockTable.new).1

pub one_lock-IsSafe : IsSafe one_lock
one_lock-IsSafe = try_acquire-IsSafe 5 1 exclusive LockTable.new new-IsSafe

one_lock_waiters :
    (r : ℕ) (e : LockEntry) → entry_at one_lock r ≡ some e → waits_any 1 e.waiters ≡ false
unfolding try_acquire entry_at LockTable.new acquire_entry new_entry already_holds
    compatible_with_holders waits_any
one_lock_waiters r e h = elim (Bool-cases (r == 5)) [
  | inl same ↦
      subst (λ x. waits_any 1 x.waiters ≡ false)
        (some-injective _ _ (rw (entry_at-write_entry, same) at h)) (unfold waits_any in refl)
  | inr other ↦ cc (rw (entry_at-write_entry, other) at h)
]

pub one_lock-WaitsNowhere : WaitsNowhere 1 one_lock
one_lock-WaitsNowhere = record { at = one_lock_waiters }

release_all-IsFree_example : IsFree 1 5 (release_all 1 (7 ∷ 5 ∷ []) one_lock)
release_all-IsFree_example =
    release_all-IsFree 1 5 (7 ∷ 5 ∷ []) one_lock one_lock-IsSafe one_lock-WaitsNowhere (inl refl)
