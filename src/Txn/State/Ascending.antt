-- ===== src/Txn/State/Ascending.antt =====
-- Ascending lists of ids: what a `BTreeSet` keeps.
use rgraph.Prelude.{
  ℕ, suc, ◌≤◌, ◌<◌, ◌≡◌, refl, true, false, not, ◌&&◌, ◌||◌, List, [], ◌∷◌, ◌==◌, elem, head_or,
  arith,
}
use rgraph.Txn.Snapshot.{sort}
use rgraph.Txn.State.{insert, remove}

-- The members rise strictly, and lie from `lo` on and below `hi`.
abbrev pub Ascending : ℕ → ℕ → List ℕ → Type 0
Ascending lo hi [] = Unit
Ascending lo hi (x ∷ xs) = (lo ≤ x) × (x < hi) × Ascending (suc x) hi xs

pub Ascending-mono :
    (lo hi lo' hi' : ℕ) (xs : List ℕ)
    → lo' ≤ lo
    → hi ≤ hi'
    → Ascending lo hi xs
    → Ascending lo' hi' xs
Ascending-mono lo hi lo' hi' [] p q h = tt
Ascending-mono lo hi lo' hi' (x ∷ xs) p q (a, b, c) =
    (omega arith, omega arith, Ascending-mono (suc x) hi (suc x) hi' xs (omega arith) q c)

-- The first member, or the upper bound of an empty list, bounds all from below.
pub Ascending-head_or :
    (lo hi : ℕ) (xs : List ℕ) → Ascending lo hi xs → Ascending (head_or xs hi) hi xs
Ascending-head_or lo hi [] h = tt
Ascending-head_or lo hi (x ∷ xs) (a, b, c) = (omega arith, b, c)

pub head_or_bounds :
    (lo hi : ℕ) (xs : List ℕ)
    → lo ≤ hi
    → Ascending lo hi xs
    → (lo ≤ head_or xs hi) × (head_or xs hi ≤ hi)
head_or_bounds lo hi [] p h = omega arith
head_or_bounds lo hi (x ∷ xs) p (a, b, c) = omega arith

pub elem_below : (lo hi t : ℕ) (xs : List ℕ) → Ascending lo hi xs → t < lo → elem t xs ≡ false
elem_below lo hi t [] h p = refl
elem_below lo hi t (x ∷ xs) (a, b, c) p = ground (arith, elem_below (suc x) hi t xs c)

pub elem_bounds :
    (lo hi t : ℕ) (xs : List ℕ) → Ascending lo hi xs → elem t xs ≡ true → (lo ≤ t) × (t < hi)
elem_bounds lo hi t [] h p = cc
elem_bounds lo hi t (x ∷ xs) (a, b, c) p = ground (arith, elem_bounds (suc x) hi t xs c)

-- A new largest id goes to the end.
pub insert-Ascending :
    (lo hi : ℕ) (xs : List ℕ) → lo ≤ hi → Ascending lo hi xs → Ascending lo (suc hi) (insert hi xs)
unfolding insert
insert-Ascending lo hi [] p h = omega arith
insert-Ascending lo hi (x ∷ xs) p (a, b, c) =
    ground (arith, insert-Ascending (suc x) hi xs (omega arith) c)

pub elem-insert : (k t : ℕ) (xs : List ℕ) → elem t (insert k xs) ≡ ((k == t) || elem t xs)
unfolding insert
elem-insert k t [] = refl
elem-insert k t (x ∷ xs) = ground (arith, elem-insert k t xs)

pub remove-Ascending :
    (lo hi k : ℕ) (xs : List ℕ) → Ascending lo hi xs → Ascending lo hi (remove k xs)
unfolding remove
remove-Ascending lo hi k [] h = tt
remove-Ascending lo hi k (x ∷ xs) (a, b, c) =
    ground (arith, remove-Ascending (suc x) hi k xs c, Ascending-mono (suc x) hi lo hi xs)

pub elem-remove :
    (lo hi k t : ℕ) (xs : List ℕ)
    → Ascending lo hi xs
    → elem t (remove k xs) ≡ (not (k == t) && elem t xs)
unfolding remove
elem-remove lo hi k t [] h = ground arith
elem-remove lo hi k t (x ∷ xs) (a, b, c) =
    ground (arith, elem-remove (suc x) hi k t xs c, elem_below (suc x) hi t xs c)

-- Sorting leaves an ascending list as it is.
pub sort-Ascending : (lo hi : ℕ) (xs : List ℕ) → Ascending lo hi xs → sort xs ≡ xs
unfolding sort
sort-Ascending lo hi [] h = refl
sort-Ascending lo hi (x ∷ []) h = refl
sort-Ascending lo hi (x ∷ y ∷ xs) (a, b, c) =
    rw (sort-Ascending (suc x) hi (y ∷ xs) c) (ground arith)
