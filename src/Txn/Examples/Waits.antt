-- ===== src/Txn/Examples/Waits.antt =====
-- The theorems on waiting and wounding where transaction 4 holds resource 5.
use rgraph.Prelude.{ℕ, ◌≡◌, refl, some, All}
use rgraph.Txn.LockTable
use rgraph.Txn.LockTable.Entry.{
  exclusive, shared, acquire_entry, new_entry, already_holds, compatible_with_holders,
  compatible_with, add_holder, holds_any,
}
use rgraph.Txn.WoundWait
use rgraph.Txn.Manager.Data.{
  Call, Transaction, TransactionManager, repeatable_read, new, wound_wait_error,
}
use rgraph.Txn.Manager.{begin_with_isolation}
use rgraph.Txn.Manager.Acquire.{
  answers, parks, acquire_round, after_try, after_scan, scan_holders, note_wounds,
}
use rgraph.Txn.Manager.Waiting.{IsOlder, acquire_round_parks}

abbrev begun : Transaction ℕ × TransactionManager
begun = begin_with_isolation repeatable_read new

abbrev asks : ℕ → Call ℕ ℕ
asks t = record {
  tx = record (begun.0) { txid = t };
  manager = record (begun.1) { lock_table = (LockTable.try_acquire 5 4 exclusive LockTable.new).1 };
  wal = 0;
}

younger_parks : (acquire_round {E = ℕ} {X = ℕ} 5 shared (asks 7)).0 ≡ parks
unfolding acquire_round after_try after_scan scan_holders note_wounds begin_with_isolation new
    LockTable.try_acquire LockTable.new LockTable.entry_at LockTable.write_entry LockTable.holders
    acquire_entry new_entry already_holds compatible_with_holders compatible_with add_holder
    holds_any WoundWait.check
younger_parks = refl

acquire_round_parks_example :
    All
      (IsOlder 7)
      (LockTable.holders 5 (LockTable.try_acquire 5 7 shared (asks 7).manager.lock_table).1)
acquire_round_parks_example = acquire_round_parks {E = ℕ} {X = ℕ} 5 shared (asks 7) younger_parks

older_wounds :
    (acquire_round {E = ℕ} {X = ℕ} 5 shared (asks 2)).0 ≡ answers (some (wound_wait_error 4))
unfolding acquire_round after_try after_scan scan_holders note_wounds begin_with_isolation new
    LockTable.try_acquire LockTable.new LockTable.entry_at LockTable.write_entry LockTable.holders
    acquire_entry new_entry already_holds compatible_with_holders compatible_with add_holder
    holds_any WoundWait.check
older_wounds = refl
