-- ===== src/Txn/State.antt =====
-- src/txn/state.rs: the set of running transactions, the horizons derived from it, and the log of
-- aborted transactions. A method is one step under the mutex; a release is two, as in the source:
-- the critical section, and the later advance of the atomic `global_xmin`.
pub mod Ascending
pub mod Horizon
pub mod Visibility
pub mod Interleaving
use rgraph.Prelude.{
  ℕ, Bool, Option, none, some, List, [], ◌∷◌, ltb, leb, ◌==◌, head_or, if◌then◌else◌, min, HashSet,
  empty_set, insert_set,
}
use rgraph.Txn.TxId
use rgraph.Txn.TxId.{TxIdAllocator, tx_id_invalid}
use rgraph.Txn.Snapshot
use rgraph.Txn.Snapshot.{Snapshot}

-- `active` is the contents of a `BTreeSet`, in ascending order.
pub record GlobalTxState : Type 0 where
  pub global_xmin : ℕ
  pub global_xmax : ℕ
  pub active : List ℕ
  pub allocator : TxIdAllocator
  pub aborted : HashSet

unfoldable pub from_allocator : TxIdAllocator → GlobalTxState
unfolding TxId.peek_next
from_allocator allocator = record {
  global_xmin = TxId.peek_next allocator;
  global_xmax = TxId.peek_next allocator;
  active = [];
  allocator = allocator;
  aborted = empty_set;
}

unfoldable pub new : GlobalTxState
unfolding from_allocator TxId.new
new = from_allocator TxId.new

abbrev recovered : Option TxIdAllocator → Option GlobalTxState
recovered none = none
recovered (some a) = some (from_allocator a)

unfoldable pub recover : List ℕ → Option GlobalTxState
unfolding from_allocator TxId.recover
recover system_page = recovered (TxId.recover system_page)

-- `BTreeSet::insert`
unfoldable pub insert : ℕ → List ℕ → List ℕ
insert k [] = k ∷ []
insert k (x ∷ xs) = if ltb k x then k ∷ x ∷ xs else if k == x then x ∷ xs else x ∷ insert k xs

-- `BTreeSet::remove`
unfoldable pub remove : ℕ → List ℕ → List ℕ
remove k [] = []
remove k (x ∷ xs) = if x == k then xs else x ∷ remove k xs

-- The new id, its snapshot, and the state afterwards.
unfoldable pub begin_tx : GlobalTxState → (ℕ × Snapshot) × GlobalTxState
unfolding insert TxId.allocate TxId.peek_next Snapshot.new Snapshot.with_aborted
begin_tx s =
    let (txid, allocator') = TxId.allocate s.allocator in
    let xmax = TxId.peek_next allocator' in
    let xmin = head_or s.active txid in
    (
      (txid, Snapshot.with_aborted (Snapshot.new xmin xmax s.active txid)),
      record {
        global_xmin = min xmin txid;
        global_xmax = xmax;
        active = insert txid s.active;
        allocator = allocator';
        aborted = s.aborted;
      },
    )

-- The compare-and-swap loop raises `global_xmin` to the candidate, and never lowers it.
unfoldable pub advance_xmin : ℕ → GlobalTxState → GlobalTxState
advance_xmin candidate s =
    if leb candidate s.global_xmin then s else record s { global_xmin = candidate }

-- The critical section of `remove_active`: the candidate, and the state afterwards.
unfoldable pub leave_active : ℕ → GlobalTxState → ℕ × GlobalTxState
unfolding remove
leave_active txid s =
    let active' = remove txid s.active in
    (head_or active' s.global_xmax, record s { active = active' })

unfoldable pub remove_active : ℕ → GlobalTxState → GlobalTxState
unfolding leave_active advance_xmin
remove_active txid s = let (new_xmin, s') = leave_active txid s in advance_xmin new_xmin s'

unfoldable pub commit_tx : ℕ → GlobalTxState → GlobalTxState
unfolding remove_active
commit_tx txid s = remove_active txid s

unfoldable pub abort_tx : ℕ → GlobalTxState → GlobalTxState
unfolding remove_active
abort_tx txid s = remove_active txid (record s { aborted = insert_set txid s.aborted })

unfoldable pub active_snapshot : GlobalTxState → Snapshot
unfolding TxId.peek_next Snapshot.new Snapshot.with_aborted
active_snapshot s =
    let xmax = TxId.peek_next s.allocator in
    Snapshot.with_aborted (Snapshot.new (head_or s.active xmax) xmax s.active tx_id_invalid)

unfoldable pub persist_txid_counter : GlobalTxState → List ℕ → Option (List ℕ)
unfolding TxId.persist
persist_txid_counter s page = TxId.persist s.allocator page
