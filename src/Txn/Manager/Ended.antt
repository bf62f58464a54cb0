-- ===== src/Txn/Manager/Ended.antt =====
-- A transaction that has ended: the locks, the global state and the other parts that it leaves.
use rgraph.Prelude.{
  ◌≡◌, refl, ℕ, true, false, ◌||◌, [], elem, ==_refl, Bool-cases, inl, inr, none, arith,
}
use rgraph.Txn.State
use rgraph.Txn.State.Horizon
use rgraph.Txn.State.Ascending.{elem-remove}
use rgraph.Txn.State.{GlobalTxState}
use rgraph.Txn.LockTable.Shards.{IsSafe}
use rgraph.Txn.LockTable.Freed.{WaitsNowhere, IsFree, release_all-IsSafe, release_all-IsFree}
use rgraph.Txn.WoundWait
use rgraph.Txn.Manager.Data.{Call, TxStatus, committed, aborted}
use rgraph.Txn.Manager.{release_locks, forget_aborted, forget_committed}

module _ {W M : Type 0} where
  -- The parts of a call's state are well formed, and its transaction waits for no lock.
  pub record IsSound (c : Call W M) : Type 0 where
    pub locks : IsSafe c.manager.lock_table
    pub quiet : WaitsNowhere c.tx.txid c.manager.lock_table
    pub state : Horizon.IsValid c.manager.global_state

  -- The transaction of `c` holds none of the locks that it held in `before`.
  pub record HasReleased (before c : Call W M) : Type 0 where
    pub cleared : (c.tx.held_locks ≡ []) × (c.tx.read_ranges ≡ [])
    pub free :
        (r : ℕ)
        → elem r before.tx.held_locks || elem r before.tx.read_ranges ≡ true
        → IsFree before.tx.txid r c.manager.lock_table

  pub release_locks-HasReleased : (c : Call W M) → IsSound c → HasReleased c (release_locks c)
  unfolding release_locks
  release_locks-HasReleased c s =
      let (v, w) =
        release_all-IsSafe c.tx.txid c.tx.held_locks c.manager.lock_table s.locks s.quiet in
      record {
        cleared = (refl, refl);
        free = λ r h. elim (Bool-cases (elem r c.tx.held_locks)) [
          | inl held ↦ release_all-IsFree c.tx.txid r c.tx.read_ranges _ v w (
              inr (
                release_all-IsFree c.tx.txid r c.tx.held_locks c.manager.lock_table s.locks s.quiet
                  (inl held)))
          | inr not_held ↦
              release_all-IsFree c.tx.txid r c.tx.read_ranges _ v w (inl (ground arith))
        ];
      }

-- A transaction that ended: its status, its locks, and its place in the shared state.
pub record HasEnded {W M : Type 0} (status : TxStatus) (before c : Call W M) : Type 0 where
  pub status_set : c.tx.status ≡ status
  pub released : HasReleased before c
  pub not_running : elem before.tx.txid c.manager.global_state.active ≡ false
  pub wounds_gone : c.manager.wound_wait.inner before.tx.txid ≡ none

module _ (s : GlobalTxState) (v : Horizon.IsValid s) (t : ℕ) where
  gone-commit_tx : elem t (State.commit_tx t s).active ≡ false
  unfolding State.commit_tx State.remove_active State.leave_active State.advance_xmin
  gone-commit_tx =
      ground
        (arith, elem-remove s.global_xmin s.allocator.counter t t s.active v.running, ==_refl t)

  gone-abort_tx : elem t (State.abort_tx t s).active ≡ false
  unfolding State.abort_tx State.remove_active State.leave_active State.advance_xmin
  gone-abort_tx =
      ground
        (arith, elem-remove s.global_xmin s.allocator.counter t t s.active v.running, ==_refl t)

pub logged-abort_tx : (s : GlobalTxState) (t : ℕ) → (State.abort_tx t s).aborted t ≡ true
unfolding State.abort_tx State.remove_active State.leave_active State.advance_xmin
logged-abort_tx s t = ground (arith, ==_refl t)

module _ {W M : Type 0} (c : Call W M) (s : IsSound c) (w : W) where
  pub committed-HasEnded :
      HasEnded committed c (forget_committed (release_locks (record c { wal = w })))
  unfolding forget_committed release_locks WoundWait.cleanup
  committed-HasEnded = record {
    status_set = refl;
    released = record { cleared = (refl, refl); free = (release_locks-HasReleased c s).free };
    not_running = gone-commit_tx c.manager.global_state s.state c.tx.txid;
    wounds_gone = rw (==_refl c.tx.txid) refl;
  }

  pub aborted-HasEnded : HasEnded aborted c (
      forget_aborted
        (release_locks (record c { tx = record (c.tx) { index_mutations = [] }; wal = w })))
  unfolding forget_aborted release_locks WoundWait.cleanup
  aborted-HasEnded = record {
    status_set = refl;
    released = record { cleared = (refl, refl); free = (release_locks-HasReleased c s).free };
    not_running = gone-abort_tx c.manager.global_state s.state c.tx.txid;
    wounds_gone = rw (==_refl c.tx.txid) refl;
  }

  pub aborted-logged :
      (forget_aborted (
          release_locks (record c {
            tx = record (c.tx) { index_mutations = [] };
            wal = w;
          }))).manager.global_state.aborted
        c.tx.txid
      ≡ true
  unfolding forget_aborted release_locks
  aborted-logged = logged-abort_tx c.manager.global_state c.tx.txid
