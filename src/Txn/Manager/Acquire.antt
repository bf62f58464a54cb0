-- ===== src/Txn/Manager/Acquire.antt =====
-- src/txn/manager.rs: `acquire_lock`. A round of its loop runs up to its end or to the wait on the
-- channel, and what follows the wait is a function of what came: the wait is not part of a round.
use rgraph.Prelude.{
  ℕ, Bool, true, false, not, Option, none, some, List, [], ◌∷◌, ◌++◌, elem, ◌==◌, if◌then◌else◌,
}
use rgraph.Txn.LockTable
use rgraph.Txn.LockTable.Entry.{LockMode, LockResult, granted, denied}
use rgraph.Txn.WoundWait
use rgraph.Txn.WoundWait.{WoundAction, wound, wait}
use rgraph.Txn.Manager
use rgraph.Txn.Manager.Data.{Call, TxError, not_active, wound_wait_error, is_active}

-- How a round ends: with the method's answer, at the channel, or with the next round.
pub data Round (E X : Type 0) : Type 0 where
  answers : Option (TxError E X) → Round E X
  parks : Round E X
  retries : Round E X

-- What the scan of the holders finds: a holder to wound, or whether it met another transaction.
pub data Scan : Type 0 where
  wounds : ℕ → Scan
  found_incompatible : Bool → Scan

abbrev pub found : Scan → Scan
found (wounds victim) = wounds victim
found (found_incompatible _) = found_incompatible true

abbrev pub decide : WoundAction → ℕ → Scan → Scan
decide wound holder rest = wounds holder
decide wait holder rest = found rest

unfoldable pub scan_holders : ℕ → List (ℕ × LockMode) → Scan
scan_holders txid [] = found_incompatible false
scan_holders txid ((holder, mode) ∷ holders) =
    let rest = scan_holders txid holders in
    if holder == txid then rest else decide (WoundWait.check txid holder) holder rest

-- Whether the scan came by an arm `WoundAction::Wait`: its first other holder decides.
abbrev pub is_wait : WoundAction → Bool
is_wait wound = false
is_wait wait = true

unfoldable pub scan_waited : ℕ → List (ℕ × LockMode) → Bool
scan_waited txid [] = false
scan_waited txid ((holder, mode) ∷ holders) =
    let rest = scan_waited txid holders in
    if holder == txid then rest else is_wait (WoundWait.check txid holder)

module _ {W M : Type 0} where
  -- `if !tx.held_locks.contains(&resource_id) { tx.held_locks.push(resource_id) }`
  unfoldable pub track_lock : ℕ → Call W M → Call W M
  track_lock resource_id c =
      if elem resource_id c.tx.held_locks
      then c
      else record c { tx = record (c.tx) { held_locks = c.tx.held_locks ++ (resource_id ∷ []) } }

  -- The assignments to `tx.wound_count` in the scan
  unfoldable pub note_wounds : ℕ → Call W M → Call W M
  note_wounds resource_id c =
      if scan_waited c.tx.txid (LockTable.holders resource_id c.manager.lock_table)
      then record c {
        tx = record (c.tx) { wound_count = WoundWait.wound_count c.tx.txid c.manager.wound_wait };
      }
      else c

module _ {W E X M : Type 0} where
  -- What a round does with what the scan found; the test says whether it has a receiver.
  unfoldable pub after_scan : ℕ → Bool → Scan → Call W M → Round E X × Call W M
  after_scan resource_id rx (wounds victim) c = (
    answers (some (wound_wait_error victim)),
    record c { manager = Manager.wound resource_id victim c.manager },
  )
  after_scan resource_id rx (found_incompatible met) c =
      if not met then (retries, c) else if rx then (parks, c) else (retries, c)

  -- `abort_waiter`, which the loop also has written out
  unfoldable pub abort_round : Call W M → Round E X × Call W M
  abort_round c =
      let (error, c') = Manager.abort_waiter {E = E} {X = X} c in (answers (some error), c')

  -- What a round does with the answer of `try_acquire`
  unfoldable pub after_try : ℕ → LockResult → Bool → Call W M → Round E X × Call W M
  after_try resource_id granted rx c = (answers none, track_lock resource_id c)
  after_try resource_id denied rx c =
      if c.manager.abort_registry c.tx.txid
      then abort_round c
      else after_scan resource_id rx
          (scan_holders c.tx.txid (LockTable.holders resource_id c.manager.lock_table))
          (note_wounds resource_id c)

  unfoldable pub acquire_round : ℕ → LockMode → Call W M → Round E X × Call W M
  acquire_round resource_id mode c =
      let ((result, rx), lock_table') =
        LockTable.try_acquire resource_id c.tx.txid mode c.manager.lock_table in
      after_try resource_id result rx
        (record c { manager = record (c.manager) { lock_table = lock_table' } })

  -- What comes out of `recv_timeout`: nothing, or a result.
  unfoldable pub after_wait : ℕ → Option LockResult → Call W M → Round E X × Call W M
  after_wait resource_id none c =
      if c.manager.abort_registry c.tx.txid then abort_round c else (retries, c)
  after_wait resource_id (some granted) c =
      if c.manager.abort_registry c.tx.txid
      then abort_round c
      else (answers none, track_lock resource_id c)
  after_wait resource_id (some denied) c = (retries, c)

  -- The method up to the end of its first round
  unfoldable pub acquire_lock : ℕ → LockMode → Call W M → Round E X × Call W M
  acquire_lock resource_id mode c =
      if not (is_active c.tx.status)
      then (answers (some (not_active c.tx.txid c.tx.status)), c)
      else if c.manager.abort_registry c.tx.txid
      then abort_round c
      else acquire_round resource_id mode c
