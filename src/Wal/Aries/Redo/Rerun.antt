-- ===== src/Wal/Aries/Redo/Rerun.antt =====
-- A second phase that a crash has interrupted, and that runs again.
use rgraph.Prelude.{
  ℕ, ◌^◌, ◌<◌, ◌≡◌, refl, sym, ap, ◌∙◌, Bool, true, false, Option, none, some, List, [], ◌∷◌, ◌++◌,
  HashMap, ltb, ◌==◌, Bool-cases, ◌⊎◌, inl, inr, arith,
}
use rgraph.Wal.Record.{Checksums, WalRecord}
use rgraph.Wal.Aries.Analysis.{AttEntry, DptEntry}
use rgraph.Wal.Aries.Redo.{DataFile, redo_loop, to_redo}
use rgraph.Wal.Aries.Redo.Pages.{FileIsThere, lsn_of, lsn_of-page_buf}
use rgraph.Wal.Aries.Redo.Latest.{plan_of, redo_loop-latest}
use rgraph.Wal.Aries.Redo.Plan.{
  Plan, image_for, or_else, latest, settle, IsPlan, Newer, latest-Newer,
}

abbrev newer : ℕ → Option (ℕ × List ℕ) → Bool
newer lsn none = false
newer lsn (some (l, i)) = ltb lsn l

-- An image that is the other one, or has a later LSN
abbrev NotOlder : Option (ℕ × List ℕ) → Option (ℕ × List ℕ) → Type 0
NotOlder x none = Unit
NotOlder x (some (lsn, image)) = (newer lsn x ≡ true) ⊎ (x ≡ some (lsn, image))

abbrev Small : Option (ℕ × List ℕ) → Type 0
Small none = Unit
Small (some (lsn, image)) = lsn < 2 ^ 64

NotOlder-refl : (o : Option (ℕ × List ℕ)) → NotOlder o o
NotOlder-refl none = tt
NotOlder-refl (some x) = inr refl

image_for-NotOlder :
    (x : Option (ℕ × List ℕ)) (p lsn : ℕ) (o : Option (ℕ × List ℕ))
    → Newer lsn x
    → NotOlder (or_else x (image_for p lsn o)) (image_for p lsn o)
image_for-NotOlder none p lsn o v = NotOlder-refl (image_for p lsn o)
image_for-NotOlder (some x) p lsn none v = tt
image_for-NotOlder (some (l, i)) p lsn (some (q, image)) v = elim (Bool-cases (p == q)) [
  | inl same ↦ rw same (inl (ground arith))
  | inr other ↦ rw other tt
]

NotOlder-or_else :
    (x y : Option (ℕ × List ℕ)) (p lsn : ℕ) (o : Option (ℕ × List ℕ))
    → Newer lsn x
    → NotOlder x y
    → NotOlder (or_else x (image_for p lsn o)) (or_else y (image_for p lsn o))
NotOlder-or_else x none p lsn o v h = image_for-NotOlder x p lsn o v
NotOlder-or_else none (some (k, j)) p lsn o v (inl h) = cc h
NotOlder-or_else none (some (k, j)) p lsn o v (inr h) = cc h
NotOlder-or_else (some x) (some (k, j)) p lsn o v h = h

latest-NotOlder :
    (p below : ℕ) (a b : Plan) → IsPlan below (a ++ b) → NotOlder (latest p (a ++ b)) (latest p a)
latest-NotOlder p below [] b v = tt
latest-NotOlder p below ((lsn, o) ∷ a) b (h, (small, (inside, v))) =
    NotOlder-or_else (latest p (a ++ b)) (latest p a) p lsn o (latest-Newer p lsn (a ++ b) v)
      (latest-NotOlder p lsn a b v)

image_for-Small : (p lsn : ℕ) (o : Option (ℕ × List ℕ)) → lsn < 2 ^ 64 → Small (image_for p lsn o)
image_for-Small p lsn none h = tt
image_for-Small p lsn (some (q, image)) h = elim (Bool-cases (p == q)) [
  | inl same ↦ rw same h
  | inr other ↦ rw other tt
]

or_else-Small : (x y : Option (ℕ × List ℕ)) → Small x → Small y → Small (or_else x y)
or_else-Small none y v w = w
or_else-Small (some x) y v w = v

latest-Small : (p below : ℕ) (a b : Plan) → IsPlan below (a ++ b) → Small (latest p a)
latest-Small p below [] b v = tt
latest-Small p below ((lsn, o) ∷ a) b (h, (small, (inside, v))) =
    or_else-Small (latest p a) (image_for p lsn o) (latest-Small p lsn a b v)
      (image_for-Small p lsn o small)

settle_same :
    (sums : Checksums) (o : Option (ℕ × List ℕ)) (page : List ℕ)
    → Small o
    → settle sums o (settle sums o page) ≡ settle sums o page
settle_same sums none page small = refl
settle_same sums (some (k, j)) page small = elim (Bool-cases (ltb (lsn_of page) k)) [
  | inl older ↦
      let not_later : ltb k k ≡ false = ground arith in
      rw (older, lsn_of-page_buf sums j k small, not_later) refl
  | inr same ↦ rw (same, same) refl
]

settle_again :
    (sums : Checksums) (x y : Option (ℕ × List ℕ)) (page : List ℕ)
    → Small y
    → NotOlder x y
    → settle sums x (settle sums y page) ≡ settle sums x page
settle_again sums x none page small h = refl
settle_again sums x (some (k, j)) page small (inr h) =
    rw h (settle_same sums (some (k, j)) page small)
settle_again sums none (some (k, j)) page small (inl h) = cc h
settle_again sums (some (l, i)) (some (k, j)) page small (inl h) =
    elim (Bool-cases (ltb (lsn_of page) k)) [
      | inl older ↦
          let both : (ltb k l ≡ true) × (ltb (lsn_of page) l ≡ true) = ground arith in
          rw (older, lsn_of-page_buf sums j k small, both.0, both.1) refl
      | inr same ↦ rw same refl
    ]

plan_of-append :
    (att : HashMap AttEntry) (dpt : List DptEntry) (m : ℕ) (a b : List WalRecord)
    → plan_of att dpt m (a ++ b) ≡ plan_of att dpt m a ++ plan_of att dpt m b
plan_of-append att dpt m [] b = refl
plan_of-append att dpt m (r ∷ a) b =
    ap (λ plan. (r.lsn, to_redo att dpt m r) ∷ plan) (plan_of-append att dpt m a b)

IsPlan-front : (below : ℕ) (a b : Plan) → IsPlan below (a ++ b) → IsPlan below a
IsPlan-front below [] b v = tt
IsPlan-front below ((lsn, o) ∷ a) b (h, (small, (inside, v))) =
    (h, (small, (inside, IsPlan-front lsn a b v)))

-- A redo of the whole log, after one that a crash has stopped behind some first part of the log,
-- leaves each page as a redo of the whole log without the crash does: on a data file on which no
-- call fails, with LSNs of 64 bits that rise and page ids below 2^51.
pub redo_loop_again :
    {D E : Type 0} (io : DataFile D E) (file : FileIsThere io) (sums : Checksums)
    (att : HashMap AttEntry) (dpt : List DptEntry) (min_rec_lsn : ℕ) (first rest : List WalRecord)
    (d : D) (p : ℕ)
    → IsPlan 0 (plan_of att dpt min_rec_lsn (first ++ rest))
    → file.page
        (redo_loop io sums att dpt min_rec_lsn
          (first ++ rest)
          (redo_loop io sums att dpt min_rec_lsn first d).1).1
        p
      ≡ file.page (redo_loop io sums att dpt min_rec_lsn (first ++ rest) d).1 p
redo_loop_again io file sums att dpt min_rec_lsn first rest d p v =
    let a : Plan = plan_of att dpt min_rec_lsn first in
    let b : Plan = plan_of att dpt min_rec_lsn rest in
    let split : plan_of att dpt min_rec_lsn (first ++ rest) ≡ a ++ b =
      plan_of-append att dpt min_rec_lsn first rest in
    let v' : IsPlan 0 (a ++ b) = rw split at v in
    let run = redo_loop-latest io file sums att dpt min_rec_lsn 0 in
    (run (first ++ rest) (redo_loop io sums att dpt min_rec_lsn first d).1 p v).1
    ∙ ap (settle sums (latest p (plan_of att dpt min_rec_lsn (first ++ rest))))
        (run first d p (IsPlan-front 0 a b v')).1
    ∙ rw split (
        settle_again sums (latest p (a ++ b)) (latest p a) (file.page d p) (latest-Small p 0 a b v')
          (latest-NotOlder p 0 a b v'))
    ∙ sym (run (first ++ rest) d p v).1
