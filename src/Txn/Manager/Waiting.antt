-- ===== src/Txn/Manager/Waiting.antt =====
-- Whom a transaction waits for, and whom it wounds.
use rgraph.Prelude.{
  ℕ, ◌<◌, ◌≡◌, ◌≢◌, refl, Bool, true, some, List, [], ◌∷◌, All, ◌==◌, ltb, arith, Bool-cases, inl,
  inr, ==→eq, ◌⊎◌,
}
use rgraph.Txn.LockTable
use rgraph.Txn.LockTable.Entry.{LockMode, LockResult, granted, denied}
use rgraph.Txn.WoundWait
use rgraph.Txn.Manager
use rgraph.Txn.Manager.Data.{Call, wound_wait_error}
use rgraph.Txn.Manager.Acquire.{
  Round, answers, parks, Scan, found, wounds, found_incompatible, scan_holders, after_scan,
  after_try, abort_round, acquire_round, note_wounds,
}

-- Each holder is the transaction itself or an older one.
abbrev pub IsOlder : ℕ → ℕ × LockMode → Type 0
IsOlder t h = (h.0 ≡ t) ⊎ (h.0 < t)

found-eq_wounds : (r : Scan) (v : ℕ) → found r ≡ wounds v → r ≡ wounds v
found-eq_wounds (wounds u) v h = h
found-eq_wounds (found_incompatible b) v h = cc h

-- A scan that wounds no one has met the transaction itself and older ones only.
scan_met :
    (t : ℕ) (hs : List (ℕ × LockMode))
    → ((v : ℕ) → scan_holders t hs ≢ wounds v)
    → All (IsOlder t) hs
unfolding scan_holders WoundWait.check
scan_met t [] h = tt
scan_met t ((u, m) ∷ hs) h = elim (Bool-cases (u == t)) [
  | inl same ↦ (inl (==→eq u t same), scan_met t hs λ v e. h v (rw same e))
  | inr other ↦ elim (Bool-cases (ltb t u)) [
    | inl younger ↦ absurd (h u (rw (other, younger) refl))
    | inr older ↦ (inr (ground arith), scan_met t hs λ v e. h v (rw (other, older, e) refl))
  ]
]

younger_victim : (t u v : ℕ) → ltb t u ≡ true → wounds u ≡ wounds v → t < v
younger_victim t u v younger e = ground arith

scan_wounds : (t v : ℕ) (hs : List (ℕ × LockMode)) → scan_holders t hs ≡ wounds v → t < v
unfolding scan_holders WoundWait.check
scan_wounds t v [] h = cc h
scan_wounds t v ((u, m) ∷ hs) h = elim (Bool-cases (u == t)) [
  | inl same ↦ scan_wounds t v hs (rw same at h)
  | inr other ↦ elim (Bool-cases (ltb t u)) [
    | inl younger ↦ younger_victim t u v younger (rw (other, younger) at h)
    | inr older ↦ scan_wounds t v hs (found-eq_wounds _ v (rw (other, older) at h))
  ]
]

abbrev victim_round : {E X : Type 0} → ℕ → Round E X
victim_round v = answers (some (wound_wait_error v))

same_victim : {E X : Type 0} (t v : ℕ) → victim_round {E = E} {X = X} t ≡ victim_round v → v ≡ t
same_victim t v h = cc h

module _ {W E X M : Type 0} (r : ℕ) where
  after_scan-parks :
      (rx : Bool) (found_now : Scan) (c d : Call W M)
      → (after_scan {E = E} {X = X} r rx found_now c).0 ≡ parks
      → (v : ℕ) → found_now ≢ wounds v
  unfolding after_scan
  after_scan-parks rx (wounds u) c d h v e = cc h
  after_scan-parks rx (found_incompatible b) c d h v e = cc e

  after_try-parks :
      (result : LockResult) (rx : Bool) (c : Call W M)
      → (after_try {E = E} {X = X} r result rx c).0 ≡ parks
      → All (IsOlder c.tx.txid) (LockTable.holders r c.manager.lock_table)
  unfolding after_try abort_round
  after_try-parks granted rx c h = cc h
  after_try-parks denied rx c h = elim (Bool-cases (c.manager.abort_registry c.tx.txid)) [
    | inl doomed ↦ cc (rw doomed at h)
    | inr sound ↦
        scan_met c.tx.txid (LockTable.holders r c.manager.lock_table)
          (after_scan-parks rx _ (note_wounds r c) c (rw sound at h))
  ]

  after_scan-wounds :
      (rx : Bool) (found_now : Scan) (v : ℕ) (c : Call W M)
      → (after_scan {E = E} {X = X} r rx found_now c).0 ≡ answers (some (wound_wait_error v))
      → found_now ≡ wounds v
  unfolding after_scan
  after_scan-wounds rx (wounds u) v c h = cc h
  after_scan-wounds rx (found_incompatible b) v c h = ground arith

  after_try-wounds :
      (result : LockResult) (rx : Bool) (v : ℕ) (c : Call W M)
      → (after_try {E = E} {X = X} r result rx c).0 ≡ answers (some (wound_wait_error v))
      → (v ≡ c.tx.txid) ⊎ (c.tx.txid < v)
  unfolding after_try abort_round Manager.abort_waiter
  after_try-wounds granted rx v c h = cc h
  after_try-wounds denied rx v c h = elim (Bool-cases (c.manager.abort_registry c.tx.txid)) [
    | inl doomed ↦ inl (same_victim {E = E} {X = X} c.tx.txid v (rw doomed at h))
    | inr sound ↦ inr (
        scan_wounds c.tx.txid v (LockTable.holders r c.manager.lock_table)
          (after_scan-wounds rx _ v (note_wounds r c) (rw sound at h)))
  ]

-- A round of `acquire_lock` that ends at the channel waits for older transactions only: every
-- holder of the resource in the table that `try_acquire` leaves is the transaction itself or has a
-- smaller id.
pub acquire_round_parks :
    {W E X M : Type 0} (r : ℕ) (mode : LockMode) (c : Call W M)
    → (acquire_round {E = E} {X = X} r mode c).0 ≡ parks
    → All
        (IsOlder c.tx.txid)
        (LockTable.holders r (LockTable.try_acquire r c.tx.txid mode c.manager.lock_table).1)
unfolding acquire_round
acquire_round_parks r mode c h = after_try-parks r _ _ _ h

-- The victim of a round that answers with a wound is the transaction itself or a younger one.
pub acquire_round_wounds :
    {W E X M : Type 0} (r v : ℕ) (mode : LockMode) (c : Call W M)
    → (acquire_round {E = E} {X = X} r mode c).0 ≡ answers (some (wound_wait_error v))
    → (v ≡ c.tx.txid) ⊎ (c.tx.txid < v)
unfolding acquire_round
acquire_round_wounds r v mode c h = after_try-wounds r _ _ v _ h
