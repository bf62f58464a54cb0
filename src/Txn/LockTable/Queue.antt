-- ===== src/Txn/LockTable/Queue.antt =====
-- The waiting queue, and what a grant records.
use rgraph.Prelude.{
  ℕ, ◌≡◌, ◌≢◌, refl, ap, true, false, List, [], ◌∷◌, ◌++◌, map, ==_refl, Bool-cases, inl, inr,
  arith,
}
use rgraph.Txn.LockTable.Entry.{
  LockMode, exclusive, shared, granted, Holder, Waiter, LockEntry, compatible_with,
  mode_at_least_as_strong, compatible_with_holders, already_holds, holds_any, add_holder,
  remove_holder, grant_loop, acquire_entry, release_entry,
}

grant_loop_fifo :
    (hs : List Holder) (ws : List Waiter)
    → (front : List Waiter) × (ws ≡ front ++ (grant_loop hs ws).1.waiters)
      × ((grant_loop hs ws).0 ≡ map (λ w. w.txid) front)
unfolding grant_loop
grant_loop_fifo hs [] = ([], refl, refl)
grant_loop_fifo hs (w ∷ ws) = elim (Bool-cases (compatible_with_holders w.txid w.mode hs)) [
  | inl fits ↦
      let (front, split, sent) = grant_loop_fifo (add_holder w.txid w.mode hs) ws in
      rw fits (w ∷ front, ap (◌∷◌ w) split, ap (◌∷◌ w.txid) sent)
  | inr clash ↦ rw clash ([], refl, refl)
]

-- The waiters that a release wakes are the first ones of the queue, in its order, and the others
-- stay, in their order.
pub release_entry_fifo :
    (t : ℕ) (e : LockEntry)
    → (front : List Waiter) × (e.waiters ≡ front ++ (release_entry t e).1.waiters)
      × ((release_entry t e).0 ≡ map (λ w. w.txid) front)
unfolding release_entry
release_entry_fifo t e = grant_loop_fifo (remove_holder t e.holders) e.waiters

mode_covers_itself : (m : LockMode) → mode_at_least_as_strong m m ≡ true
unfolding mode_at_least_as_strong
mode_covers_itself m = ground arith

already_holds-snoc :
    (t : ℕ) (m : LockMode) (hs : List Holder)
    → already_holds t m (hs ++ record { txid = t; mode = m } ∷ []) ≡ true
unfolding already_holds
already_holds-snoc t m [] = rw (==_refl t, mode_covers_itself m)
already_holds-snoc t m (h ∷ hs) = ground (arith, already_holds-snoc t m hs)

-- A transaction without a lock on the resource that is granted one holds it afterwards, in the
-- mode that it asked for.
pub acquire_entry-already_holds :
    (t : ℕ) (m : LockMode) (e : LockEntry)
    → holds_any t e.holders ≡ false
    → (acquire_entry t m e).0.0 ≡ granted
    → already_holds t m (acquire_entry t m e).1.holders ≡ true
unfolding acquire_entry add_holder
acquire_entry-already_holds t m e fresh ok = ground (arith, already_holds-snoc t m e.holders)

-- A transaction that holds a weaker lock and meets no conflict is granted a stronger one, but the
-- entry does not change: the table does not record the stronger mode.
pub acquire_entry_upgrade :
    (t : ℕ) (m : LockMode) (e : LockEntry)
    → holds_any t e.holders ≡ true
    → already_holds t m e.holders ≡ false
    → compatible_with_holders t m e.holders ≡ true
    → ((acquire_entry t m e).0.0 ≡ granted)
      × ((acquire_entry t m e).1 ≡ e)
      × (already_holds t m (acquire_entry t m e).1.holders ≡ false)
unfolding acquire_entry add_holder
acquire_entry_upgrade t m e held weak fits = rw (weak, fits, held) (refl, refl, weak)

abbrev pub sole : ℕ → LockMode → List Waiter → LockEntry
sole t m ws = record { holders = record { txid = t; mode = m } ∷ []; waiters = ws }

-- After the sole holder, of a shared lock, has asked for the exclusive one and been granted it, any
-- other transaction that asks for a shared lock is granted it.
pub acquire_entry_upgrade_conflict :
    (t u : ℕ) (ws : List Waiter)
    → t ≢ u
    → ((acquire_entry t exclusive (sole t shared ws)).0.0 ≡ granted)
      × ((acquire_entry u shared (acquire_entry t exclusive (sole t shared ws)).1).0.0 ≡ granted)
unfolding acquire_entry already_holds mode_at_least_as_strong compatible_with_holders
    compatible_with add_holder holds_any
acquire_entry_upgrade_conflict t u ws h = ground arith

-- When the only holder releases a lock, the first waiter is woken.
pub release_entry_wakes :
    (t : ℕ) (m : LockMode) (w : Waiter) (ws : List Waiter)
    → (rest : List ℕ) × ((release_entry t (sole t m (w ∷ ws))).0 ≡ w.txid ∷ rest)
unfolding release_entry grant_loop remove_holder compatible_with_holders
release_entry_wakes t m w ws =
    rw (==_refl t) ((grant_loop (add_holder w.txid w.mode []) ws).0, refl)
