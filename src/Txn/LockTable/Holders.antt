-- ===== src/Txn/LockTable/Holders.antt =====
-- Lists of holders of which any two can hold their locks at once.
use rgraph.Prelude.{
  Bool-cases, inl, inr, ℕ, ◌≡◌, ◌≢◌, refl, true, false, List, [], ◌∷◌, ◌++◌, All, ◌==◌, arith,
}
use rgraph.Txn.LockTable.Entry.{
  LockMode, intention_shared, Holder, compatible_with, compatible_with_holders, holds_any,
  add_holder, remove_holder, last_first, last_or, all_but_last,
}

-- Two holders of one lock: different transactions, in modes that are compatible.
abbrev pub Apart : Holder → Holder → Type 0
Apart g h = (g.txid ≢ h.txid) × (compatible_with g.mode h.mode ≡ true)

abbrev pub Coherent : List Holder → Type 0
Coherent [] = Unit
Coherent (h ∷ hs) = All (Apart h) hs × Coherent hs

-- The compatibility matrix is symmetric.
pub compatible_with_comm : (m n : LockMode) → compatible_with m n ≡ compatible_with n m
unfolding compatible_with
compatible_with_comm intention_shared intention_shared = refl
compatible_with_comm m n = ground arith

Apart-symm : (g h : Holder) → Apart g h → Apart h g
Apart-symm g h (p, q) = ((λ e. p (ground arith)), rw (compatible_with_comm h.mode g.mode) q)

All-append : (P : Holder → Type 0) (xs ys : List Holder) → All P xs → All P ys → All P (xs ++ ys)
All-append P [] ys h k = k
All-append P (x ∷ xs) ys (p, h) k = (p, All-append P xs ys h k)

Coherent-snoc :
    (hs : List Holder) (h : Holder) → Coherent hs → All (Apart h) hs → Coherent (hs ++ h ∷ [])
Coherent-snoc [] h c a = (tt, tt)
Coherent-snoc (g ∷ hs) h (p, c) (q, a) =
    (All-append (Apart g) hs (h ∷ []) p (Apart-symm h g q, tt), Coherent-snoc hs h c a)

-- What the two tests of `add_holder` and of the compatibility loop say together.
Apart-of_tests :
    (t : ℕ) (m : LockMode) (hs : List Holder)
    → compatible_with_holders t m hs ≡ true
    → holds_any t hs ≡ false
    → All (Apart (record { txid = t; mode = m })) hs
unfolding compatible_with_holders holds_any
Apart-of_tests t m [] c n = tt
Apart-of_tests t m (h ∷ hs) c n = ground (arith, Apart-of_tests t m hs)

pub add_holder-Coherent :
    (t : ℕ) (m : LockMode) (hs : List Holder)
    → compatible_with_holders t m hs ≡ true
    → Coherent hs
    → Coherent (add_holder t m hs)
unfolding add_holder
add_holder-Coherent t m hs c k = elim (Bool-cases (holds_any t hs)) [
  | inl old ↦ rw old k
  | inr fresh ↦ rw fresh (Coherent-snoc hs _ k (Apart-of_tests t m hs c fresh))
]

-- What holds of all holders holds of those that a swap-remove leaves.
pub All-last_first : (P : Holder → Type 0) (hs : List Holder) → All P hs → All P (last_first hs)
unfolding last_first
All-last_first P [] a = tt
All-last_first P (h ∷ hs) (p, a) = go h hs p a
  where
    go :
        (h : Holder) (hs : List Holder)
        → P h
        → All P hs
        → P (last_or h hs) × All P (all_but_last h hs)
    go h [] p a = (p, tt)
    go h (g ∷ hs) p (q, a) = let (l, r) = go g hs q a in (l, (p, r))

All-remove_holder :
    (P : Holder → Type 0) (t : ℕ) (hs : List Holder) → All P hs → All P (remove_holder t hs)
unfolding remove_holder
All-remove_holder P t [] a = tt
All-remove_holder P t (h ∷ hs) (p, a) = elim (Bool-cases (h.txid == t)) [
  | inl hit ↦ rw hit (All-last_first P hs a)
  | inr miss ↦ rw miss (p, All-remove_holder P t hs a)
]

Coherent-last_first : (hs : List Holder) → Coherent hs → Coherent (last_first hs)
unfolding last_first
Coherent-last_first [] c = tt
Coherent-last_first (h ∷ []) c = (tt, tt)
Coherent-last_first (h ∷ g ∷ hs) (a, c) =
    let (far, rest) = Coherent-last_first (g ∷ hs) c in
    let (l, r) = All-last_first (Apart h) (g ∷ hs) a in
    ((Apart-symm h (last_or g hs) l, far), (r, rest))

pub remove_holder-Coherent :
    (t : ℕ) (hs : List Holder) → Coherent hs → Coherent (remove_holder t hs)
unfolding remove_holder
remove_holder-Coherent t [] c = tt
remove_holder-Coherent t (h ∷ hs) (a, c) = elim (Bool-cases (h.txid == t)) [
  | inl hit ↦ rw hit (Coherent-last_first hs c)
  | inr miss ↦ rw miss (All-remove_holder (Apart h) t hs a, remove_holder-Coherent t hs c)
]
