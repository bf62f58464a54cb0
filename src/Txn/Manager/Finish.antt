-- ===== src/Txn/Manager/Finish.antt =====
-- The ends of a transaction: what `commit` and `rollback` guarantee, and what they keep.
use rgraph.Prelude.{◌≡◌, refl, true, ◌&&◌, Bool-cases, inl, inr, Option, none, some}
use rgraph.Txn.Phantom
use rgraph.Txn.Manager.Data.{
  Call, Log, aborted, wal_flush, phantom_conflict, is_active, is_serializable, commit_record,
  abort_record,
}
use rgraph.Txn.Manager.Ended.{IsSound, HasEnded, aborted-HasEnded, aborted-logged}
use rgraph.Txn.Manager.{
  release_locks, forget_committed, rollback, after_flush, after_append, commit,
}

module _ {W E M : Type 0} (log : Log W E) (c : Call W M) where
  abbrev pub appended_call : Call W M
  appended_call = record c { wal = (log.append (commit_record c.tx.txid) c.wal).1 }

  abbrev pub flushed_call : Call W M
  flushed_call = record c { wal = (log.flush (log.append (commit_record c.tx.txid) c.wal).1).1 }

module _ {W E X M : Type 0} (log : Log W E) where
  after_flush-eq_none :
      (o : Option E) (d : Call W M)
      → (after_flush {X = X} o d).0 ≡ none
      → (o ≡ none) × ((after_flush {X = X} o d).1 ≡ forget_committed (release_locks d))
  unfolding after_flush
  after_flush-eq_none none d h = (refl, refl)
  after_flush-eq_none (some e) d h = cc h

  after_append-eq_none :
      (o : Option E) (d : Call W M)
      → (after_append {X = X} log o d).0 ≡ none
      → (o ≡ none)
        × ((log.flush d.wal).0 ≡ none)
        × ((after_append {X = X} log o d).1
            ≡ forget_committed (release_locks (record d { wal = (log.flush d.wal).1 })))
  unfolding after_append
  after_append-eq_none none d h =
      let (flushed, same) =
        after_flush-eq_none (log.flush d.wal).0 (record d { wal = (log.flush d.wal).1 }) h in
      (refl, flushed, same)
  after_append-eq_none (some e) d h = cc h

  after_flush-keeps :
      (o : Option E) (d : Call W M) (e : E)
      → (after_flush {X = X} o d).0 ≡ some (wal_flush e)
      → ((after_flush {X = X} o d).1.tx ≡ d.tx) × ((after_flush {X = X} o d).1.manager ≡ d.manager)
  unfolding after_flush
  after_flush-keeps none d e h = cc h
  after_flush-keeps (some _) d e h = (refl, refl)

  after_append-keeps :
      (o : Option E) (d : Call W M) (e : E)
      → (after_append {X = X} log o d).0 ≡ some (wal_flush e)
      → ((after_append {X = X} log o d).1.tx ≡ d.tx)
        × ((after_append {X = X} log o d).1.manager ≡ d.manager)
  unfolding after_append
  after_append-keeps none d e h =
      after_flush-keeps (log.flush d.wal).0 (record d { wal = (log.flush d.wal).1 }) e h
  after_append-keeps (some _) d e h = (refl, refl)

  -- A commit that reports no error went through all its steps.
  pub commit-eq_none :
      (c : Call W M)
      → (commit {X = X} log c).0 ≡ none
      → ((log.append (commit_record c.tx.txid) c.wal).0 ≡ none)
        × ((log.flush (log.append (commit_record c.tx.txid) c.wal).1).0 ≡ none)
        × ((commit {X = X} log c).1 ≡ forget_committed (release_locks (flushed_call log c)))
  unfolding commit
  commit-eq_none c h = elim (Bool-cases (is_active c.tx.status)) [
    | inl on ↦
        elim (Bool-cases (
          is_serializable c.tx.isolation_level
          && Phantom.is_doomed c.tx.txid c.tx.ssi c.manager.ssi_tracker)) [
            | inl doomed ↦ cc (rw (on, doomed) at h)
            | inr sound ↦
                rw (on, sound)
                  (after_append-eq_none (log.append (commit_record c.tx.txid) c.wal).0
                    (appended_call log c) (rw (on, sound) at h))
          ]
    | inr off ↦ cc (rw off at h)
  ]

module _ {W E X M : Type 0} (log : Log W E) (c : Call W M) where
  -- A rollback of an active transaction on a sound state reports no error, whatever the log
  -- answers; the transaction has ended as aborted, and its id is in the log of aborted ids.
  pub rollback-HasEnded :
      IsSound c
      → is_active c.tx.status ≡ true
      → ((rollback {X = X} log c).0 ≡ none)
        × HasEnded aborted c (rollback {X = X} log c).1
        × ((rollback {X = X} log c).1.manager.global_state.aborted c.tx.txid ≡ true)
  unfolding rollback
  rollback-HasEnded s on = rw on (
    refl,
    aborted-HasEnded c s (log.append (abort_record c.tx.txid) c.wal).1,
    aborted-logged c s _,
  )

  -- When the log fails a commit, at the append or at the flush, the transaction is still active
  -- and nothing but the log has changed.
  pub commit-keeps :
      (e : E)
      → (commit {X = X} log c).0 ≡ some (wal_flush e)
      → (is_active c.tx.status ≡ true)
        × ((commit {X = X} log c).1.tx ≡ c.tx)
        × ((commit {X = X} log c).1.manager ≡ c.manager)
  unfolding commit
  commit-keeps e h = elim (Bool-cases (is_active c.tx.status)) [
    | inl on ↦
        elim (Bool-cases (
          is_serializable c.tx.isolation_level
          && Phantom.is_doomed c.tx.txid c.tx.ssi c.manager.ssi_tracker)) [
            | inl doomed ↦ cc (rw (on, doomed) at h)
            | inr sound ↦
                let (same_tx, same_manager) =
                  after_append-keeps {X = X} log (log.append (commit_record c.tx.txid) c.wal).0
                    (appended_call log c) e (rw (on, sound) at h) in
                rw (on, sound) (refl, same_tx, same_manager)
          ]
    | inr off ↦ cc (rw off at h)
  ]

  -- Under `Serializable`, the commit of an active transaction that is doomed writes no commit
  -- record: it is a rollback, and the error is `PhantomConflict`.
  pub commit_doomed :
      is_active c.tx.status ≡ true
      → is_serializable c.tx.isolation_level ≡ true
      → Phantom.is_doomed c.tx.txid c.tx.ssi c.manager.ssi_tracker ≡ true
      → ((commit {X = X} log c).0 ≡ some (phantom_conflict c.tx.txid))
        × ((commit {X = X} log c).1 ≡ (rollback {X = X} log c).1)
  unfolding commit
  commit_doomed on level doomed = rw (on, level, doomed) (refl, refl)
