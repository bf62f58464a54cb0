-- ===== src/Txn/Manager/Wounded.antt =====
-- What becomes of a transaction that was wounded.
use rgraph.Prelude.{◌≡◌, refl, ℕ, true, false, none, arith, ==_refl}
use rgraph.Txn.State
use rgraph.Txn.WoundWait
use rgraph.Txn.Manager.Data.{
  Call, Log, TransactionManager, is_active, is_serializable, commit_record,
}
use rgraph.Txn.Manager.Ended.{logged-abort_tx}
use rgraph.Txn.Manager.{
  release_locks, forget_committed, after_flush, after_append, commit, on_wound, wound,
}

-- The manager's callback forgets the victim's counter before the wound is counted. So whatever
-- was counted before, a wound leaves the count 1, and the victim is never immune.
pub wound_count-wound :
    (r victim : ℕ) (m : TransactionManager)
    → (WoundWait.wound_count victim (wound r victim m).wound_wait ≡ 1)
      × (WoundWait.is_immune victim (wound r victim m).wound_wait ≡ false)
unfolding wound on_wound WoundWait.record_wound WoundWait.count_wound WoundWait.wound_count
    WoundWait.is_immune WoundWait.cleanup
wound_count-wound r victim m = rw (==_refl victim) (refl, refl)

wound-logged :
    (r victim : ℕ) (m : TransactionManager)
    → ((wound r victim m).abort_registry victim ≡ true)
      × ((wound r victim m).global_state.aborted victim ≡ true)
unfolding wound on_wound WoundWait.record_wound
wound-logged r victim m = (rw (==_refl victim) refl, logged-abort_tx m.global_state victim)

aborted-commit_tx : (t : ℕ) (s : State.GlobalTxState) → (State.commit_tx t s).aborted ≡ s.aborted
unfolding State.commit_tx State.remove_active State.leave_active State.advance_xmin
aborted-commit_tx t s = ground arith

-- `commit` does not ask whether the transaction was wounded. A wounded transaction that is active
-- and not serializable commits when the log answers; its id stays in the log of aborted ids and in
-- the registry of those that must abort.
pub commit_wounded :
    {W E X M : Type 0} (log : Log W E) (c : Call W M) (r : ℕ)
    → is_active c.tx.status ≡ true
    → is_serializable c.tx.isolation_level ≡ false
    → (log.append (commit_record c.tx.txid) c.wal).0 ≡ none
    → (log.flush (log.append (commit_record c.tx.txid) c.wal).1).0 ≡ none
    → ((commit {X = X} log (record c { manager = wound r c.tx.txid c.manager })).0 ≡ none)
      × ((commit {X = X} log
              (record c { manager = wound r c.tx.txid c.manager })).1.manager.global_state.aborted
            c.tx.txid
          ≡ true)
      × ((commit {X = X} log
              (record c { manager = wound r c.tx.txid c.manager })).1.manager.abort_registry
            c.tx.txid
          ≡ true)
unfolding commit after_append after_flush forget_committed release_locks
commit_wounded log c r on level appended flushed =
    let (registered, logged) = wound-logged r c.tx.txid c.manager in
    rw (on, level, appended, flushed)
      (
        refl,
        rw (aborted-commit_tx c.tx.txid (wound r c.tx.txid c.manager).global_state) logged,
        registered,
      )
