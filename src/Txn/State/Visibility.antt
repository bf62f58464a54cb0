-- ===== src/Txn/State/Visibility.antt =====
-- What the snapshot of a new transaction sees.
use rgraph.Prelude.{
  ℕ, suc, ◌-◌, ◌<◌, ◌^◌, ◌≡◌, ◌≢◌, ap, Bool, true, false, not, ◌&&◌, ◌||◌, List, leb, ◌==◌, elem,
  head_or, HashSet, arith,
}
use rgraph.Txn.Snapshot.{Snapshot, is_visible, txid_committed_before_snapshot}
use rgraph.Txn.State.{GlobalTxState, begin_tx}
use rgraph.Txn.State.Ascending.{Ascending-head_or, elem_below, sort-Ascending}
use rgraph.Txn.State.Horizon.{IsValid}

-- The ids that had ended without an abort when the transaction `txid` began beside the running
-- ones, and `txid` itself.
abbrev pub sees : HashSet → List ℕ → ℕ → ℕ → Bool
sees aborted running txid t =
    not (t == 0) && (not (aborted t) && (leb t txid && not (elem t running)))

module _ (s : GlobalTxState) (v : IsValid s) (room : s.allocator.counter < 2 ^ 64 - 1) where
  snapshot_of : (begin_tx s).0.1 ≡ record {
    xmin = head_or s.active s.allocator.counter;
    xmax = suc s.allocator.counter;
    active = s.active;
    owner_txid = s.allocator.counter;
    registered = true;
  }
  unfolding begin_tx
  snapshot_of =
      ground (arith, v.started, sort-Ascending s.global_xmin s.allocator.counter s.active v.running)

  committed-sees :
      (aborted : HashSet) (t : ℕ)
      → txid_committed_before_snapshot aborted (begin_tx s).0.1 t false
        ≡ sees aborted s.active s.allocator.counter t
  unfolding txid_committed_before_snapshot
  committed-sees aborted t = rw snapshot_of (
      ground (
        arith,
        elem_below (head_or s.active s.allocator.counter) s.allocator.counter t s.active
            (Ascending-head_or s.global_xmin s.allocator.counter s.active v.running),
      ))

  -- In a valid state whose next id is below 2^64 - 1, and without cached hints, a new transaction
  -- sees a version exactly if its creator is seen, or is
  -- the transaction itself, and its deleter, if there is one, is neither seen nor the transaction
  -- itself. An id is seen if it is not 0, not logged as aborted when the version is read, not
  -- larger than the own id, and was not running when the transaction began. Only the log of
  -- aborted transactions can change the answer later.
  pub is_visible-begin_tx :
      (aborted : HashSet) (creator deleter : ℕ)
      → is_visible aborted (begin_tx s).0.1 creator deleter false false ≡ (
          (sees aborted s.active s.allocator.counter creator || creator == s.allocator.counter)
          && (deleter == 0
              || (not (deleter == s.allocator.counter)
                  && not (sees aborted s.active s.allocator.counter deleter))))
  unfolding is_visible
  is_visible-begin_tx aborted creator deleter = ground (
    arith,
    committed-sees aborted creator,
    committed-sees aborted deleter,
    ap (λ (p : Snapshot). p.owner_txid) snapshot_of,
  )

-- A version whose creator carries the hint that it has committed is seen by every snapshot whose
-- log does not list it as aborted, also if the creator began after the snapshot was taken, or was
-- running then.
pub is_visible-hint :
    (aborted : HashSet) (p : Snapshot) (creator : ℕ)
    → creator ≢ 0
    → aborted creator ≡ false
    → is_visible aborted p creator 0 true false ≡ true
unfolding is_visible txid_committed_before_snapshot
is_visible-hint aborted p creator h k = ground arith
