-- ===== src/Txn/LockTable/Coherence.antt =====
-- No two transactions hold conflicting locks of one resource, and no waiter waits in vain.
use mathlib.Core.Path.{subst}
use rgraph.Prelude.{
  ℕ, ◌≡◌, ◌≢◌, refl, inl, inr, true, false, List, [], ◌∷◌, ◌++◌, any, All, ◌==◌, arith, Bool-cases,
}
use rgraph.Txn.LockTable.Entry.{
  LockMode, exclusive, Holder, Waiter, LockEntry, new_entry, compatible_with,
  compatible_with_holders, already_holds, add_holder, remove_holder, grant_loop, acquire_entry,
  release_entry,
}
use rgraph.Txn.LockTable.Holders.{Apart, Coherent, add_holder-Coherent, remove_holder-Coherent}

-- The first waiter conflicts with some holder.
abbrev pub IsStalled : List Holder → List Waiter → Type 0
IsStalled hs [] = Unit
IsStalled hs (w ∷ ws) = compatible_with_holders w.txid w.mode hs ≡ false

abbrev pub IsApartFrom : ℕ → Waiter → Type 0
IsApartFrom t w = w.txid ≢ t

-- No transaction waits twice.
abbrev pub IsDistinct : List Waiter → Type 0
IsDistinct [] = Unit
IsDistinct (w ∷ ws) = All (λ v. v.txid ≢ w.txid) ws × IsDistinct ws

pub record IsValid (e : LockEntry) : Type 0 where
  pub coherent : Coherent e.holders
  pub stalled : IsStalled e.holders e.waiters
  pub distinct : IsDistinct e.waiters

pub new_entry-IsValid : IsValid new_entry
unfolding new_entry
new_entry-IsValid = record { coherent = tt; stalled = tt; distinct = tt }

-- A conflict stays when holders are added behind.
conflict_stays :
    (t : ℕ) (m : LockMode) (hs gs : List Holder)
    → compatible_with_holders t m hs ≡ false
    → compatible_with_holders t m (hs ++ gs) ≡ false
unfolding compatible_with_holders
conflict_stays t m [] gs h = cc
conflict_stays t m (g ∷ hs) gs h = ground (arith, conflict_stays t m hs gs)

add_holder-IsStalled :
    (t : ℕ) (m : LockMode) (hs : List Holder) (ws : List Waiter)
    → IsStalled hs ws
    → IsStalled (add_holder t m hs) ws
unfolding add_holder
add_holder-IsStalled t m hs [] h = tt
add_holder-IsStalled t m hs (w ∷ ws) h =
    ground (arith, conflict_stays w.txid w.mode hs (record { txid = t; mode = m } ∷ []))

push-IsStalled :
    (hs : List Holder) (ws : List Waiter) (w : Waiter)
    → IsStalled hs ws
    → compatible_with_holders w.txid w.mode hs ≡ false
    → IsStalled hs (ws ++ w ∷ [])
push-IsStalled hs [] w h k = k
push-IsStalled hs (v ∷ ws) w h k = h

All-snoc :
    (P : Waiter → Type 0) (ws : List Waiter) (w : Waiter) → All P ws → P w → All P (ws ++ w ∷ [])
All-snoc P [] w a p = (p, tt)
All-snoc P (v ∷ ws) w (q, a) p = (q, All-snoc P ws w a p)

push-IsDistinct :
    (ws : List Waiter) (w : Waiter)
    → any (λ v. v.txid == w.txid) ws ≡ false
    → IsDistinct ws
    → IsDistinct (ws ++ w ∷ [])
push-IsDistinct [] w h d = (tt, tt)
push-IsDistinct (v ∷ ws) w h (a, d) =
    (All-snoc _ ws w a (λ e. ground arith), push-IsDistinct ws w (ground arith) d)

-- Every request keeps the entry valid, whatever its outcome.
pub acquire_entry-IsValid :
    (t : ℕ) (m : LockMode) (e : LockEntry) → IsValid e → IsValid (acquire_entry t m e).1
unfolding acquire_entry
acquire_entry-IsValid t m e v = elim (Bool-cases (already_holds t m e.holders)) [
  | inl held ↦ rw held v
  | inr unheld ↦ elim (Bool-cases (compatible_with_holders t m e.holders)) [
    | inl fits ↦
        rw (unheld, fits)
          (record {
            coherent = add_holder-Coherent t m e.holders fits v.coherent;
            stalled = add_holder-IsStalled t m e.holders e.waiters v.stalled;
            distinct = v.distinct;
          })
    | inr clash ↦ elim (Bool-cases (any (λ w. w.txid == t) e.waiters)) [
      | inl waiting ↦ rw (unheld, clash, waiting) v
      | inr fresh ↦
          rw (unheld, clash, fresh)
            (record {
              coherent = v.coherent;
              stalled = push-IsStalled e.holders e.waiters _ v.stalled clash;
              distinct = push-IsDistinct e.waiters _ fresh v.distinct;
            })
    ]
  ]
]

grant_loop-IsValid :
    (hs : List Holder) (ws : List Waiter)
    → Coherent hs
    → IsDistinct ws
    → IsValid (grant_loop hs ws).1
unfolding grant_loop
grant_loop-IsValid hs [] c d = record { coherent = c; stalled = tt; distinct = tt }
grant_loop-IsValid hs (w ∷ ws) c d = elim (Bool-cases (compatible_with_holders w.txid w.mode hs)) [
  | inl fits ↦ rw fits (
      grant_loop-IsValid (add_holder w.txid w.mode hs) ws
        (add_holder-Coherent w.txid w.mode hs fits c) d.1)
  | inr clash ↦ rw clash (record { coherent = c; stalled = clash; distinct = d })
]

-- A release keeps the entry valid.
pub release_entry-IsValid : (t : ℕ) (e : LockEntry) → IsValid e → IsValid (release_entry t e).1
unfolding release_entry
release_entry-IsValid t e v =
    grant_loop-IsValid (remove_holder t e.holders) e.waiters
      (remove_holder-Coherent t e.holders v.coherent) v.distinct

All-at :
    (P : Holder → Type 0) (front back : List Holder) (h : Holder) → All P (front ++ h ∷ back) → P h
All-at P [] back h (p, a) = p
All-at P (g ∷ front) back h (p, a) = All-at P front back h a

exclusive_not_compatible :
    (h : Holder) (m : LockMode)
    → h.mode ≡ exclusive
    → (compatible_with h.mode m ≢ true) × (compatible_with m h.mode ≢ true)
unfolding compatible_with
exclusive_not_compatible h m e = rw e ((λ c. ground arith), (λ c. ground arith))

-- In a valid entry an exclusive holder is the only holder.
pub exclusive_alone :
    (e : LockEntry) (front back : List Holder) (h : Holder)
    → IsValid e
    → e.holders ≡ front ++ h ∷ back
    → h.mode ≡ exclusive
    → (front ≡ []) × (back ≡ [])
exclusive_alone e front back h v split x = go front back (subst Coherent split v.coherent)
  where
    go : (front back : List Holder) → Coherent (front ++ h ∷ back) → (front ≡ []) × (back ≡ [])
    go [] [] c = (refl, refl)
    go [] (g ∷ back) ((p, a), c) = absurd ((exclusive_not_compatible h g.mode x).0 p.1)
    go (g ∷ front) back (a, c) =
        absurd ((exclusive_not_compatible h g.mode x).1 (All-at (Apart g) front back h a).1)
