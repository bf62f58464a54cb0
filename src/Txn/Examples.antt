-- ===== src/Txn/Examples.antt =====
-- The theorems on ids, snapshots, locks, conflicts and tuple headers at concrete states.
mod Locks
mod Ends
mod Logged
mod Waits
use rgraph.Prelude.{
  ℕ, zero, suc, ◌+◌, ◌*◌, ◌-◌, ◌^◌, ◌<◌, ◌≤◌, ◌≡◌, ◌≢◌, refl, Bool, true, false, not, ◌&&◌, ◌||◌,
  none, some, List, [], ◌∷◌, ◌++◌, map, elem, length, arith, ltb, ◌==◌, if◌then◌else◌, inl,
  empty_set,
}
use rgraph.Txn.TxId.{
  TxIdAllocator, allocate, allocate_loop, peek_next, persist, recover, recovery_bump,
}
use rgraph.Txn.TxId.Laws.{allocate_loop-eq_allocate, allocate-peek_next, recover-persist}
use rgraph.Txn.Snapshot
use rgraph.Txn.Snapshot.{Snapshot, is_visible}
use rgraph.Txn.State
use rgraph.Txn.State.{begin_tx}
use rgraph.Txn.State.Horizon
use rgraph.Txn.State.Horizon.{begins, commits, run_horizon, new-IsValid}
use rgraph.Txn.State.Interleaving.{Machine, Reach-horizon, start, start-Inv}
use rgraph.Txn.State.Interleaving
use rgraph.Txn.State.Visibility.{is_visible-begin_tx, is_visible-hint}
use rgraph.Txn.Phantom.{
  SsiTracker, SsiFlags, new_flags, range_resource_id, is_doomed, record_rw_antidependency, cleanup,
  flags_doomed, predicate_resource_id,
}
use rgraph.Txn.Phantom
use rgraph.Prelude.Bytes.{le_bytes}
use rgraph.Txn.Phantom.Laws.{
  range_resource_id_apart, predicate_resource_id_range, is_doomed_antidependency,
}
use rgraph.Txn.Mvcc.{TupleHeader, header_bytes, decode, encode}
use rgraph.Txn.Mvcc.Laws.{IsHeader, decode-encode_header}

abbrev one_begun : Machine
one_begun = record start { shared = (begin_tx start.shared).1 }

runs_one : elem 1 one_begun.shared.active ≡ true
unfolding State.new begin_tx allocate State.insert
runs_one = refl

start_room : start.shared.allocator.counter < 2 ^ 64 - 1
unfolding State.new
start_room = omega arith

Reach-horizon_example :
    (start.shared.global_xmin ≤ one_begun.shared.global_xmin) × (one_begun.shared.global_xmin ≤ 1)
Reach-horizon_example =
    Reach-horizon start one_begun 1 start-Inv
      (Interleaving.next Interleaving.here (Interleaving.begins start start_room)) runs_one

runs_two : elem 2 (Horizon.run State.new (begins ∷ begins ∷ [] ++ commits 1 ∷ [])).active ≡ true
unfolding Horizon.run Horizon.step State.new begin_tx allocate State.insert State.commit_tx
    State.remove_active State.leave_active State.advance_xmin State.remove
runs_two = refl

new_room : State.new.allocator.counter + 3 < 2 ^ 64
unfolding State.new
new_room = omega arith

abbrev one_running : State.GlobalTxState
one_running = record {
  global_xmin = 1;
  global_xmax = 2;
  active = 1 ∷ [];
  allocator = record { counter = 2 };
  aborted = empty_set;
}

one_running-IsValid : Horizon.IsValid one_running
one_running-IsValid = omega arith

-- Transaction 2 does not see a version of the running transaction 1.
is_visible-begin_tx_example :
    is_visible empty_set (begin_tx one_running).0.1 1 0 false false ≡ false
is_visible-begin_tx_example =
    is_visible-begin_tx one_running one_running-IsValid (omega arith) empty_set 1 0

abbrev last_id : TxIdAllocator
last_id = record { counter = 0 }

abbrev page : List ℕ
page = 9 ∷ 9 ∷ 9 ∷ 9 ∷ 9 ∷ 9 ∷ 9 ∷ 9 ∷ 7 ∷ []

abbrev page' : List ℕ
page' = 44 ∷ 1 ∷ 0 ∷ 0 ∷ 0 ∷ 0 ∷ 0 ∷ 0 ∷ 7 ∷ []

persist-page : persist (record { counter = 300 }) page ≡ some page'
unfolding persist le_bytes
persist-page = refl

fresh :
    (Phantom.new.out_set 1 ≡ false)
    × (Phantom.new.in_set 1 ≡ false)
    × (Phantom.new.out_set 2 ≡ false)
    × (Phantom.new.in_set 2 ≡ false)
unfolding Phantom.new
fresh = (refl, refl, refl, refl)

no_flags : (new_flags.in_conflict ≡ false) × (new_flags.out_conflict ≡ false)
unfolding new_flags
no_flags = (refl, refl)

abbrev header : TupleHeader
header = record { xmin = 258; xmax = 7; cid = 3; infomask = 0x0011; next_version_ptr = 65536 }

header-IsHeader : IsHeader header
header-IsHeader = omega arith

encode-header : encode header (map (λ x. 0) (header_bytes header)) ≡ some (header_bytes header)
unfolding encode le_bytes
encode-header = refl
