-- ===== src/Txn/Manager/Data.antt =====
-- src/txn/manager.rs: the data of the manager, and what it uses of the log and the indexes.
use rgraph.Prelude.{ℕ, Bool, true, false, Option, List, HashSet, empty_set}
use rgraph.Txn.State
use rgraph.Txn.State.{GlobalTxState}
use rgraph.Txn.Snapshot.{Snapshot}
use rgraph.Txn.LockTable
use rgraph.Txn.LockTable.{LockTable}
use rgraph.Txn.WoundWait
use rgraph.Txn.WoundWait.{WoundWait}
use rgraph.Txn.Phantom
use rgraph.Txn.Phantom.{SsiTracker, SsiFlags}

pub data IsolationLevel : Type 0 where
  read_uncommitted read_committed repeatable_read serializable : IsolationLevel

unfoldable pub is_serializable : IsolationLevel → Bool
is_serializable serializable = true
is_serializable _ = false

pub data TxStatus : Type 0 where
  active committed aborted : TxStatus

unfoldable pub is_active : TxStatus → Bool
is_active active = true
is_active _ = false

-- `E` is the type of I/O errors and `X` that of texts.
pub data TxError (E X : Type 0) : Type 0 where
  wal_flush : E → TxError E X
  wound_wait_error : ℕ → TxError E X
  not_active : ℕ → TxStatus → TxError E X
  already_finalised : ℕ → TxError E X
  index_mutation : X → TxError E X
  phantom_conflict : ℕ → TxError E X
  write_conflict : ℕ → ℕ → TxError E X

-- `M` is the type of index mutations.
pub record Transaction (M : Type 0) : Type 0 where
  pub txid : ℕ
  pub snapshot : Snapshot
  pub status : TxStatus
  pub isolation_level : IsolationLevel
  pub held_locks : List ℕ
  pub wound_count : ℕ
  pub index_mutations : List M
  pub ssi : SsiFlags
  pub read_ranges : List ℕ
  pub write_set : List (ℕ × ℕ)

pub record TransactionManager : Type 0 where
  pub global_state : GlobalTxState
  pub lock_table : LockTable
  pub wound_wait : WoundWait
  pub ssi_tracker : SsiTracker
  pub abort_registry : HashSet
  pub default_isolation : IsolationLevel

unfoldable pub new : TransactionManager
new = record {
  global_state = State.new;
  lock_table = LockTable.new;
  wound_wait = WoundWait.new;
  ssi_tracker = Phantom.new;
  abort_registry = empty_set;
  default_isolation = repeatable_read;
}

-- The records that the manager writes: a kind, and the transaction. Their other fields are 0 or
-- empty.
pub data WalRecord : Type 0 where
  commit_record abort_record : ℕ → WalRecord

-- What the manager calls of the log writer `W`: each gives an error, if there is one.
pub record Log (W E : Type 0) : Type 0 where
  pub append : WalRecord → W → Option E × W
  pub flush : W → Option E × W

-- What the manager calls of the index manager `I`.
pub record Indexes (I M X : Type 0) : Type 0 where
  pub apply_batch : List M → I → Option X × I

-- What a method of the manager sees and changes.
pub record Call (W M : Type 0) : Type 0 where
  pub tx : Transaction M
  pub manager : TransactionManager
  pub wal : W
