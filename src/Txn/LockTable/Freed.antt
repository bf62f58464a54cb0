-- ===== src/Txn/LockTable/Freed.antt =====
-- What `release_all` achieves: the transaction holds none of the resources any more.
use mathlib.Core.Path.{subst}
use rgraph.Txn.LockTable.Entry.{
  Holder, Waiter, LockEntry, holds_any, compatible_with_holders, add_holder, remove_holder,
  last_first, grant_loop, grant_compatible_waiters, release_entry,
}
use rgraph.Txn.LockTable.Holders.{Apart, Coherent, All-last_first}
use rgraph.Txn.LockTable.Coherence.{IsValid}
use rgraph.Txn.LockTable.Shards.{IsSafe, release-IsSafe, entry_at-write_entry}
use rgraph.Txn.LockTable.{LockMode, LockTable, entry_at, release, release_all, kept}
use rgraph.Prelude.{
  ◌≡◌, ◌≢◌, refl, ℕ, Bool, true, false, List, [], ◌∷◌, ◌++◌, any, All, ◌==◌, ==→eq, Bool-cases,
  Option-cases, inl, inr, ◌⊎◌, ==_refl, some, arith, elem,
}

unfoldable pub waits_any : ℕ → List Waiter → Bool
waits_any t = any (λ w. w.txid == t)

others-holds_any : (t : ℕ) (hs : List Holder) → All (λ g. g.txid ≢ t) hs → holds_any t hs ≡ false
unfolding holds_any
others-holds_any t [] a = refl
others-holds_any t (h ∷ hs) (p, a) = ground (arith, p, others-holds_any t hs a)

Apart-others :
    (t : ℕ) (h : Holder) (hs : List Holder)
    → h.txid ≡ t
    → All (Apart h) hs
    → All (λ g. g.txid ≢ t) hs
Apart-others t h [] e a = tt
Apart-others t h (g ∷ hs) e ((p, _), a) = ((λ q. p (ground arith)), Apart-others t h hs e a)

-- A transaction holds a lock once, so it is gone after its removal.
remove_holder-free :
    (t : ℕ) (hs : List Holder) → Coherent hs → holds_any t (remove_holder t hs) ≡ false
unfolding remove_holder holds_any
remove_holder-free t [] c = refl
remove_holder-free t (h ∷ hs) (a, c) = elim (Bool-cases (h.txid == t)) [
  | inl hit ↦ rw hit (
      unfold holds_any in
      others-holds_any t (last_first hs)
        (All-last_first (λ g. g.txid ≢ t) hs (Apart-others t h hs (==→eq h.txid t hit) a)))
  | inr miss ↦ rw (miss, miss) (remove_holder-free t hs c)
]

snoc-free :
    (t u : ℕ) (m : LockMode) (hs : List Holder)
    → (u == t) ≡ false
    → holds_any t hs ≡ false
    → holds_any t (hs ++ record { txid = u; mode = m } ∷ []) ≡ false
unfolding holds_any
snoc-free t u m [] ne h = rw ne refl
snoc-free t u m (g ∷ hs) ne h = ground (arith, snoc-free t u m hs ne)

add_holder-free :
    (t u : ℕ) (m : LockMode) (hs : List Holder)
    → (u == t) ≡ false
    → holds_any t hs ≡ false
    → holds_any t (add_holder u m hs) ≡ false
unfolding add_holder
add_holder-free t u m hs ne h = ground (arith, h, ne, snoc-free t u m hs ne h)

split_waits :
    (t : ℕ) (w : Waiter) (ws : List Waiter)
    → waits_any t (w ∷ ws) ≡ false
    → ((w.txid == t) ≡ false) × (waits_any t ws ≡ false)
unfolding waits_any
split_waits t w ws q = ground arith

grant_loop-free :
    (t : ℕ) (hs : List Holder) (ws : List Waiter)
    → holds_any t hs ≡ false
    → waits_any t ws ≡ false
    → (holds_any t (grant_loop hs ws).1.holders ≡ false)
      × (waits_any t (grant_loop hs ws).1.waiters ≡ false)
unfolding grant_loop waits_any
grant_loop-free t hs [] h q = (h, refl)
grant_loop-free t hs (w ∷ ws) h q = elim (Bool-cases (compatible_with_holders w.txid w.mode hs)) [
  | inl fits ↦
      let (other, quiet) = split_waits t w ws q in
      rw fits (
        grant_loop-free t (add_holder w.txid w.mode hs) ws
          (add_holder-free t w.txid w.mode hs other h) quiet)
  | inr stuck ↦ rw stuck (h, q)
]

-- The transaction is among the waiters of no resource.
pub record WaitsNowhere (t : ℕ) (table : LockTable) : Type 0 where
  pub at : (r : ℕ) (e : LockEntry) → entry_at table r ≡ some e → waits_any t e.waiters ≡ false

-- The transaction does not hold the resource.
pub record IsFree (t r : ℕ) (table : LockTable) : Type 0 where
  pub at : (e : LockEntry) → entry_at table r ≡ some e → holds_any t e.holders ≡ false

release_entry-free :
    (t : ℕ) (e : LockEntry)
    → IsValid e
    → waits_any t e.waiters ≡ false
    → (holds_any t (release_entry t e).1.holders ≡ false)
      × (waits_any t (release_entry t e).1.waiters ≡ false)
unfolding release_entry grant_compatible_waiters
release_entry-free t e v q =
    grant_loop-free t (remove_holder t e.holders) e.waiters
      (remove_holder-free t e.holders v.coherent) q

kept-eq_some : (e e' : LockEntry) → kept e ≡ some e' → e ≡ e'
kept-eq_some e e' h = ground arith

-- What `release` leaves at the resource that it is called with, and at any other.
release-entry_at_same :
    (t r : ℕ) (table : LockTable) (e' : LockEntry)
    → IsSafe table
    → WaitsNowhere t table
    → entry_at (release r t table).1 r ≡ some e'
    → (holds_any t e'.holders ≡ false) × (waits_any t e'.waiters ≡ false)
unfolding release
release-entry_at_same t r table e' v w h = elim (Option-cases (entry_at table r)) [
  | inl missing ↦ cc (h, missing)
  | inr (e, found) ↦
      let h' = rw (found, release, entry_at-write_entry, ==_refl) at h in
      subst (λ x. (holds_any t x.holders ≡ false) × (waits_any t x.waiters ≡ false))
        (kept-eq_some (release_entry t e).1 e' h')
        (release_entry-free t e (v.at r e found).valid (w.at r e found))
]

release-entry_at_other :
    (t u r k : ℕ) (table : LockTable)
    → (k == r) ≡ false
    → entry_at (release r t table).1 k ≡ entry_at table k
unfolding release
release-entry_at_other t u r k table ne = elim (Option-cases (entry_at table r)) [
  | inl missing ↦ rw (missing, release) refl
  | inr (e, found) ↦ rw (found, release, entry_at-write_entry, ne) refl
]

release-WaitsNowhere :
    (t r : ℕ) (table : LockTable)
    → IsSafe table
    → WaitsNowhere t table
    → WaitsNowhere t (release r t table).1
release-WaitsNowhere t r table v w = record {
  at = λ k e h. elim (Bool-cases (k == r)) [
    | inl same ↦
        (release-entry_at_same t r table e v w
          (subst (λ x. entry_at (release r t table).1 x ≡ some e) (==→eq k r same) h)).1
    | inr other ↦ w.at k e (rw (release-entry_at_other, other) at h)
  ];
}

release-IsFree :
    (t r k : ℕ) (table : LockTable)
    → IsSafe table
    → WaitsNowhere t table
    → (k == r) ≡ true ⊎ IsFree t k table
    → IsFree t k (release r t table).1
release-IsFree t r k table v w before = record {
  at = λ e h. elim (Bool-cases (k == r)) [
    | inl same ↦
        (release-entry_at_same t r table e v w
          (subst (λ x. entry_at (release r t table).1 x ≡ some e) (==→eq k r same) h)).0
    | inr other ↦ elim before [
      | inl same ↦ cc (same, other)
      | inr free ↦ free.at e (rw (release-entry_at_other, other) at h)
    ]
  ];
}

-- `release_all` keeps the table safe, and its transaction among no waiters.
pub release_all-IsSafe :
    (t : ℕ) (rs : List ℕ) (table : LockTable)
    → IsSafe table
    → WaitsNowhere t table
    → IsSafe (release_all t rs table) × WaitsNowhere t (release_all t rs table)
unfolding release_all
release_all-IsSafe t [] table v w = (v, w)
release_all-IsSafe t (r ∷ rs) table v w =
    release_all-IsSafe t rs (release r t table).1 (release-IsSafe r t table v)
      (release-WaitsNowhere t r table v w)

progress :
    (t r k : ℕ) (rs : List ℕ) (table : LockTable)
    → IsSafe table
    → WaitsNowhere t table
    → elem k (r ∷ rs) ≡ true ⊎ IsFree t k table
    → elem k rs ≡ true ⊎ IsFree t k (release r t table).1
progress t r k rs table v w (inr free) = inr (release-IsFree t r k table v w (inr free))
progress t r k rs table v w (inl listed) = elim (Bool-cases (k == r)) [
  | inl same ↦ inr (release-IsFree t r k table v w (inl same))
  | inr other ↦ inl (ground arith)
]

-- On a safe table and for a transaction that waits nowhere, `release_all` frees each resource of
-- its list, and keeps the free ones free.
pub release_all-IsFree :
    (t k : ℕ) (rs : List ℕ) (table : LockTable)
    → IsSafe table
    → WaitsNowhere t table
    → elem k rs ≡ true ⊎ IsFree t k table
    → IsFree t k (release_all t rs table)
unfolding release_all
release_all-IsFree t k [] table v w (inl e) = cc e
release_all-IsFree t k [] table v w (inr free) = free
release_all-IsFree t k (r ∷ rs) table v w before =
    release_all-IsFree t k rs (release r t table).1 (release-IsSafe r t table v)
      (release-WaitsNowhere t r table v w) (progress t r k rs table v w before)
