-- ===== src/Txn/Manager.antt =====
-- src/txn/manager.rs: the manager of transactions. A method takes and gives back the state that it
-- sees through its references: the transaction, the manager's shared parts and the log.
pub mod Data
pub mod Ended
pub mod Finish
pub mod Durable
pub mod Acquire
pub mod Waiting
pub mod Wounded
use rgraph.Prelude.{
  ℕ, Bool, true, false, not, ◌&&◌, Option, none, some, List, [], ◌∷◌, ◌++◌, any, ◌==◌,
  if◌then◌else◌, insert_set, remove_set,
}
use rgraph.Txn.State
use rgraph.Txn.LockTable
use rgraph.Txn.WoundWait
use rgraph.Txn.Phantom
use Data.{
  IsolationLevel, TxStatus, TxError, Transaction, TransactionManager, WalRecord, Log, Indexes, Call,
  active, committed, aborted, not_active, phantom_conflict, wal_flush, index_mutation, is_active,
  is_serializable, wound_wait_error, commit_record, abort_record,
}

-- `begin_with_isolation`, and the manager afterwards
unfoldable pub begin_with_isolation :
    {M : Type 0} → IsolationLevel → TransactionManager → Transaction M × TransactionManager
begin_with_isolation level m =
    let ((txid, snapshot), global_state') = State.begin_tx m.global_state in
    (
      record {
        txid = txid;
        snapshot = snapshot;
        status = active;
        isolation_level = level;
        held_locks = [];
        wound_count = 0;
        index_mutations = [];
        ssi = Phantom.new_flags;
        read_ranges = [];
        write_set = [];
      },
      record m { global_state = global_state' },
    )

-- The callback that `acquire_lock`, `acquire_range_lock` and `record_phantom_write` pass on.
unfoldable pub on_wound : ℕ → ℕ → TransactionManager → TransactionManager
on_wound resource_id v m = record m {
  abort_registry = insert_set v m.abort_registry;
  lock_table = (LockTable.release resource_id v m.lock_table).1;
  global_state = State.abort_tx v m.global_state;
  wound_wait = WoundWait.cleanup v m.wound_wait;
  ssi_tracker = Phantom.cleanup v m.ssi_tracker;
}

-- Their arm `WoundAction::Wound`, for a holder of the resource
unfoldable pub wound : ℕ → ℕ → TransactionManager → TransactionManager
wound resource_id victim m =
    WoundWait.record_wound (λ s. s.wound_wait) (λ w s. record s { wound_wait = w }) victim
      (on_wound resource_id) m

module _ {W M : Type 0} where
  -- The locks of `held_locks` and then those of `read_ranges` are released, and both are cleared.
  unfoldable pub release_locks : Call W M → Call W M
  release_locks c = record c {
    tx = record (c.tx) { held_locks = []; read_ranges = [] };
    manager = record (c.manager) {
      lock_table =
          LockTable.release_all c.tx.txid c.tx.read_ranges
            (LockTable.release_all c.tx.txid c.tx.held_locks c.manager.lock_table);
    };
  }

  -- `abort_tx` of the global state, and the clean-up of the other parts
  unfoldable pub forget_aborted : Call W M → Call W M
  forget_aborted c = record c {
    tx = record (c.tx) { status = aborted };
    manager = record (c.manager) {
      global_state = State.abort_tx c.tx.txid c.manager.global_state;
      wound_wait = WoundWait.cleanup c.tx.txid c.manager.wound_wait;
      abort_registry = remove_set c.tx.txid c.manager.abort_registry;
      ssi_tracker = Phantom.cleanup c.tx.txid c.manager.ssi_tracker;
    };
  }

  -- `commit_tx` of the global state, and the clean-up of the other parts
  unfoldable pub forget_committed : Call W M → Call W M
  forget_committed c = record c {
    tx = record (c.tx) { status = committed };
    manager = record (c.manager) {
      global_state = State.commit_tx c.tx.txid c.manager.global_state;
      wound_wait = WoundWait.cleanup c.tx.txid c.manager.wound_wait;
      ssi_tracker = Phantom.cleanup c.tx.txid c.manager.ssi_tracker;
    };
  }

module _ {W E X M : Type 0} where
  unfoldable pub abort_waiter : Call W M → TxError E X × Call W M
  abort_waiter c = (wound_wait_error c.tx.txid, forget_aborted (release_locks c))

  -- The error, if there is one, and the state afterwards.
  unfoldable pub rollback : Log W E → Call W M → Option (TxError E X) × Call W M
  rollback log c =
      if not (is_active c.tx.status) then (some (not_active c.tx.txid c.tx.status), c) else (
        none,
        forget_aborted (
            release_locks (record c {
              tx = record (c.tx) { index_mutations = [] };
              wal = (log.append (abort_record c.tx.txid) c.wal).1;
            })),
      )

  -- What `commit` does once the flush has answered
  unfoldable pub after_flush : Option E → Call W M → Option (TxError E X) × Call W M
  after_flush none c = (none, forget_committed (release_locks c))
  after_flush (some e) c = (some (wal_flush e), c)

  -- What `commit` does once the append has answered
  unfoldable pub after_append : Log W E → Option E → Call W M → Option (TxError E X) × Call W M
  after_append log none c =
      let (answer, wal') = log.flush c.wal in after_flush answer (record c { wal = wal' })
  after_append log (some e) c = (some (wal_flush e), c)

  unfoldable pub commit : Log W E → Call W M → Option (TxError E X) × Call W M
  commit log c =
      if not (is_active c.tx.status)
      then (some (not_active c.tx.txid c.tx.status), c)
      else if is_serializable c.tx.isolation_level
          && Phantom.is_doomed c.tx.txid c.tx.ssi c.manager.ssi_tracker
      then (some (phantom_conflict c.tx.txid), (rollback log c).1)
      else let (answer, wal') = log.append (commit_record c.tx.txid) c.wal in
        after_append log answer (record c { wal = wal' })

  -- What `commit_with_indexes` does once the batch has been applied
  unfoldable pub after_batch : Log W E → Option X → Call W M → Option (TxError E X) × Call W M
  after_batch log none c = commit log (record c { tx = record (c.tx) { index_mutations = [] } })
  after_batch log (some e) c = (some (index_mutation e), (rollback log c).1)

  unfoldable pub stage_index_mutation : M → Call W M → Option (TxError E X) × Call W M
  stage_index_mutation mutation c =
      if not (is_active c.tx.status) then (some (not_active c.tx.txid c.tx.status), c) else (
        none,
        record c {
          tx = record (c.tx) { index_mutations = c.tx.index_mutations ++ (mutation ∷ []) };
        },
      )

  unfoldable pub record_write : ℕ → ℕ → Call W M → Option (TxError E X) × Call W M
  record_write resource_id xmax_at_write c =
      if not (is_active c.tx.status)
      then (some (not_active c.tx.txid c.tx.status), c)
      else if any (λ w. w.0 == resource_id) c.tx.write_set
      then (none, c)
      else (
        none,
        record c {
          tx = record (c.tx) { write_set = c.tx.write_set ++ ((resource_id, xmax_at_write) ∷ []) };
        },
      )

unfoldable pub commit_with_indexes :
    {W E X M I : Type 0}
    → Log W E
    → Indexes I M X
    → I
    → Call W M
    → Option (TxError E X) × I × Call W M
commit_with_indexes log indexes index_mgr c =
    if not (is_active c.tx.status)
    then (some (not_active c.tx.txid c.tx.status), index_mgr, c)
    else let (answer, index_mgr') = indexes.apply_batch c.tx.index_mutations index_mgr in
      let (error, c') = after_batch log answer c in (error, index_mgr', c')
