-- ===== src/Storage/Page/Compact/Moves.antt =====
-- src/storage/page.rs: the records that `compact` moves, where their offsets are in the order of
-- their slots.
use rgraph.Prelude.{
  ℕ, zero, suc, ◌+◌, ◌≤◌, ◌<◌, ◌≡◌, refl, ◌∙◌, true, false, some, List, [], ◌∷◌, length, arith,
  if◌then◌else◌,
}
use rgraph.Prelude.Slices.{slice}
use rgraph.Storage.Page.{Slot, is_deleted, slot_count, free_space_offset}
use rgraph.Storage.Page.Compact.{Move, Plan, plan_moves, run_moves}
use rgraph.Storage.Page.Layout.{IsSlot, slot_of}
use rgraph.Storage.Page.Valid.{IsValid, bytes_of, slot-IsValid}

-- The records of the slots from `i` on that are not deleted, in the order of the slots
unfoldable pub live_records : List ℕ → ℕ → ℕ → List (List ℕ)
live_records buf i zero = []
live_records buf i (suc rounds) =
    let rest = live_records buf (i + 1) rounds in
    if is_deleted (slot_of i buf) then rest else bytes_of (slot_of i buf) buf ∷ rest

-- A record of a later slot stands behind those of the earlier ones.
abbrev pub IsOrdered : List ℕ → Type 0
IsOrdered buf =
    (i j : ℕ)
    → i < j
    → j < slot_count buf
    → is_deleted (slot_of i buf) ≡ false
    → is_deleted (slot_of j buf) ≡ false
    → (slot_of i buf).offset + (slot_of i buf).length ≤ (slot_of j buf).offset

-- The slots hold the records, in front of `end`.
unfoldable pub Holds : List ℕ → ℕ → List Slot → List (List ℕ) → Type 0
Holds y end [] [] = Unit
Holds y end [] (r ∷ rs) = ⊥
Holds y end (s ∷ ss) [] = ⊥
Holds y end (s ∷ ss) (r ∷ rs) =
    (bytes_of s y ≡ r) × (s.offset + s.length ≤ end) × (s.length < 65536) × Holds y end ss rs

-- What the moves of the slots from `i` on make of the bytes `x`
pub record IsMoved (buf : List ℕ) (i rounds off : ℕ) (x : List ℕ) (plan : Plan) (y : List ℕ)
    : Type 0 where
  pub size : length y ≡ 8192
  pub front : (o n : ℕ) → o + n ≤ 64 + off → slice o n y ≡ slice o n x
  pub tail : (o n : ℕ) → 64 + free_space_offset buf ≤ o → slice o n y ≡ slice o n x
  pub holds : Holds y plan.2 plan.1 (live_records buf i rounds)
  pub grows : off ≤ plan.2
  pub bound : plan.2 ≤ free_space_offset buf
  pub count : length plan.1 ≤ rounds

-- The records that have not been moved are where they were, behind the new offset.
pub record IsAhead (buf : List ℕ) (i off : ℕ) (x : List ℕ) : Type 0 where
  pub size : length x ≡ 8192
  pub low : off ≤ free_space_offset buf
  pub behind :
      (j : ℕ)
      → i ≤ j
      → j < slot_count buf
      → is_deleted (slot_of j buf) ≡ false
      → off ≤ (slot_of j buf).offset
  pub same :
      (j : ℕ)
      → i ≤ j
      → j < slot_count buf
      → is_deleted (slot_of j buf) ≡ false
      → bytes_of (slot_of j buf) x ≡ bytes_of (slot_of j buf) buf

unfoldable pub Moves : List ℕ → ℕ → ℕ → ℕ → List ℕ → Type 0
Moves buf i rounds off x =
    (plan : Plan) × (y : List ℕ) × (plan_moves buf i rounds off ≡ some plan)
    × (run_moves plan.0 x ≡ some y)
    × IsMoved buf i rounds off x plan y

module _ (buf : List ℕ) (v : IsValid buf) (ordered : IsOrdered buf) where
  pub nothing_left : (i off : ℕ) (x : List ℕ) → IsAhead buf i off x → Moves buf i zero off x
  unfolding Moves plan_moves run_moves live_records Holds
  nothing_left i off x a = (
    ([], [], off),
    x,
    refl,
    refl,
    record {
      size = a.size;
      front = λ o n h. refl;
      tail = λ o n h. refl;
      holds = tt;
      grows = omega arith;
      bound = a.low;
      count = omega arith;
    },
  )

  pub past_deleted :
      (i rounds off : ℕ) (x : List ℕ)
      → i < slot_count buf
      → is_deleted (slot_of i buf) ≡ true
      → Moves buf (i + 1) rounds off x
      → Moves buf i (suc rounds) off x
  unfolding Moves plan_moves live_records
  past_deleted i rounds off x h dead (plan, y, planned, run, m) = (
    plan,
    y,
    rw (slot-IsValid buf v i h, dead, planned) refl,
    run,
    record {
      size = m.size;
      front = m.front;
      tail = m.tail;
      holds = rw dead m.holds;
      grows = m.grows;
      bound = m.bound;
      count = let c = m.count in omega arith;
    },
  )

  -- The bytes `x1` after the record of the slot `i` has been moved to the offset `off`
  module _ (i off : ℕ) (x x1 : List ℕ) (h : i < slot_count buf)
      (live : is_deleted (slot_of i buf) ≡ false) (a : IsAhead buf i off x)
      (size : length x1 ≡ 8192)
      (moved : slice (64 + off) (slot_of i buf).length x1 ≡ bytes_of (slot_of i buf) buf)
      (front : (o n : ℕ) → o + n ≤ 64 + off → slice o n x1 ≡ slice o n x)
      (back : (o n : ℕ) → 64 + off + (slot_of i buf).length ≤ o → slice o n x1 ≡ slice o n x) where
    same_behind :
        (j : ℕ)
        → i + 1 ≤ j
        → j < slot_count buf
        → is_deleted (slot_of j buf) ≡ false
        → bytes_of (slot_of j buf) x1 ≡ bytes_of (slot_of j buf) buf
    unfolding bytes_of
    same_behind j low hj lj =
        let o = ordered i j (omega arith) hj live lj in
        let b = a.behind i (omega arith) h live in
        back (64 + (slot_of j buf).offset) (slot_of j buf).length (omega arith)
        ∙ a.same j (omega arith) hj lj

    pub ahead : IsAhead buf (i + 1) (off + (slot_of i buf).length) x1
    ahead = record {
      size = size;
      low = let b = a.behind i (omega arith) h live in let e = v.live i h live in omega arith;
      behind = λ j low hj lj.
          let o = ordered i j (omega arith) hj live lj in
          let b = a.behind i (omega arith) h live in omega arith;
      same = same_behind;
    }

    module _ (rounds : ℕ) (plan : Plan) (y : List ℕ)
        (m : IsMoved buf (i + 1) rounds (off + (slot_of i buf).length) x1 plan y) where
      abbrev kept_slot : Slot
      kept_slot = record (slot_of i buf) { offset = off }

      records_kept : Holds y plan.2 (kept_slot ∷ plan.1) (live_records buf i (suc rounds))
      unfolding Holds live_records bytes_of IsSlot
      records_kept =
          let g = m.grows in
          rw live (
            m.front (64 + off) (slot_of i buf).length (omega arith) ∙ moved,
            omega arith,
            (v.words i h).1,
            m.holds,
          )

      pub all-IsMoved :
          (ms : List Move) → IsMoved buf i (suc rounds) off x (ms, kept_slot ∷ plan.1, plan.2) y
      all-IsMoved ms = record {
        size = m.size;
        front = λ o n low. m.front o n (omega arith) ∙ front o n low;
        tail = λ o n high.
            let b = a.behind i (omega arith) h live in
            let e = v.live i h live in m.tail o n high ∙ back o n (omega arith);
        holds = records_kept;
        grows = let g = m.grows in omega arith;
        bound = m.bound;
        count = let c = m.count in omega arith;
      }
