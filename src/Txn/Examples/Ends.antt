-- ===== src/Txn/Examples/Ends.antt =====
-- The theorems on the ends of transactions at a transaction with one lock and a log in memory.
use rgraph.Prelude.{ℕ, ◌≡◌, refl, true, false, none, some, List, [], ◌∷◌, ◌++◌, arith}
use rgraph.Txn.State
use rgraph.Txn.State.{begin_tx}
use rgraph.Txn.TxId
use rgraph.Txn.WoundWait
use rgraph.Txn.Examples.Locks.{one_lock, one_lock-IsSafe, one_lock-WaitsNowhere}
use rgraph.Txn.Manager.Data.{
  Call, Log, WalRecord, Transaction, TransactionManager, repeatable_read, aborted, abort_record,
  is_active, is_serializable, wal_flush, new,
}
use rgraph.Txn.Manager.{begin_with_isolation, commit, rollback, after_append, after_flush, wound}
use rgraph.Txn.Manager.Ended.{IsSound, HasEnded}
use rgraph.Txn.Manager.Finish.{rollback-HasEnded, commit-keeps}
use rgraph.Txn.Manager.Wounded.{wound_count-wound, commit_wounded}

-- A log in memory: what was appended, and the part of it that is durable. It does not fail.
abbrev pub MemoryLog : Type 0
MemoryLog = List WalRecord × List WalRecord

abbrev memory_log : Log MemoryLog ℕ
memory_log = record {
  append = λ r w. (none, (w.0 ++ r ∷ [], w.1));
  flush = λ w. (none, (w.0, w.0));
}

-- A log whose flush fails
abbrev full_log : Log MemoryLog ℕ
full_log = record (memory_log) { flush = λ w. (some 28, w) }

abbrev begun : Transaction ℕ × TransactionManager
begun = begin_with_isolation repeatable_read new

-- Transaction 1 holds resource 5.
abbrev pub writing : Call MemoryLog ℕ
writing = record {
  tx = record (begun.0) { held_locks = 5 ∷ [] };
  manager = record (begun.1) { lock_table = one_lock };
  wal = (abort_record 9 ∷ [], []);
}

pub writing-IsSound : IsSound writing
unfolding begin_with_isolation new State.new begin_tx TxId.allocate State.insert
writing-IsSound = record {
  locks = one_lock-IsSafe;
  quiet = one_lock-WaitsNowhere;
  state = omega arith;
}

writing_active : is_active writing.tx.status ≡ true
unfolding begin_with_isolation is_active
writing_active = refl

rollback-HasEnded_example :
    ((rollback {X = ℕ} full_log writing).0 ≡ none)
    × HasEnded aborted writing (rollback {X = ℕ} full_log writing).1
    × ((rollback {X = ℕ} full_log writing).1.manager.global_state.aborted writing.tx.txid ≡ true)
rollback-HasEnded_example =
    rollback-HasEnded {X = ℕ} full_log writing writing-IsSound writing_active

fails : (commit {X = ℕ} full_log writing).0 ≡ some (wal_flush 28)
unfolding commit after_append after_flush begin_with_isolation is_active is_serializable
fails = refl

commit-keeps_example :
    (is_active writing.tx.status ≡ true)
    × ((commit {X = ℕ} full_log writing).1.tx ≡ writing.tx)
    × ((commit {X = ℕ} full_log writing).1.manager ≡ writing.manager)
commit-keeps_example = commit-keeps {X = ℕ} full_log writing 28 fails

wound_count-wound_example :
    (WoundWait.wound_count 1 (wound 5 1 writing.manager).wound_wait ≡ 1)
    × (WoundWait.is_immune 1 (wound 5 1 writing.manager).wound_wait ≡ false)
wound_count-wound_example = wound_count-wound 5 1 writing.manager

commit_wounded_example :
    ((commit {X = ℕ} memory_log
        (record writing { manager = wound 5 writing.tx.txid writing.manager })).0
      ≡ none)
    × ((commit {X = ℕ} memory_log (record writing {
      manager = wound 5 writing.tx.txid writing.manager;
    })).1.manager.global_state.aborted
          writing.tx.txid
        ≡ true)
    × ((commit {X = ℕ} memory_log (record writing {
      manager = wound 5 writing.tx.txid writing.manager;
    })).1.manager.abort_registry
          writing.tx.txid
        ≡ true)
unfolding begin_with_isolation is_serializable
commit_wounded_example = commit_wounded {X = ℕ} memory_log writing 5 writing_active refl refl refl
