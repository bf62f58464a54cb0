-- ===== src/Storage/Page/Compact/Passes.antt =====
-- src/storage/page.rs: both passes of `compact` over the slots of a page.
use rgraph.Prelude.{
  ℕ, zero, suc, ◌+◌, ◌%◌, ◌^◌, ◌≤◌, ◌<◌, ◌≡◌, refl, ap, sym, ◌∙◌, inl, inr, true, false, some, List,
  ◌∷◌, length, drop, arith, ◌==◌, Bool-cases, ==→eq, le→leb, length-take, length-drop,
}
use rgraph.Prelude.Slices.{slice, write_at, slice-write_at, slice_apart, length-write_at}
use rgraph.Storage.Page.{Slot, is_deleted, slot_count}
use rgraph.Storage.Page.Compact.{Plan, plan_slot, plan_moves, copy_within, run_moves}
use rgraph.Storage.Page.Layout.{slot_of}
use rgraph.Storage.Page.Valid.{IsValid, bytes_of, slot-IsValid}
use rgraph.Storage.Page.Compact.Moves.{
  IsOrdered, IsMoved, IsAhead, Moves, nothing_left, past_deleted, ahead, all-IsMoved,
}

length-slice : (off n : ℕ) (xs : List ℕ) → off + n ≤ length xs → length (slice off n xs) ≡ n
length-slice off n xs h = length-take n (drop off xs) (let d = length-drop off xs in omega arith)

-- The bytes after the move of one record from `o` to `off`
record IsShifted (x x1 : List ℕ) (s : Slot) (off : ℕ) : Type 0 where
  size : length x1 ≡ 8192
  moved : slice (64 + off) s.length x1 ≡ bytes_of s x
  front : (o n : ℕ) → o + n ≤ 64 + off → slice o n x1 ≡ slice o n x
  back : (o n : ℕ) → 64 + off + s.length ≤ o → slice o n x1 ≡ slice o n x

abbrev Shift : List ℕ → Slot → ℕ → Type 0
Shift x s off =
    (x1 : List ℕ) × ((plan : Plan) → run_moves (plan_slot off s plan).0 x ≡ run_moves plan.0 x1)
    × IsShifted x x1 s off

module _ (x : List ℕ) (s : Slot) (off : ℕ) (size : length x ≡ 8192) (low : off ≤ s.offset)
    (high : 64 + s.offset + s.length ≤ 8192) where
  abbrev shifted : List ℕ
  shifted = write_at (64 + off) (slice (64 + s.offset) s.length x) x

  copy_within-fits : copy_within (64 + s.offset, 64 + off, s.length) x ≡ some shifted
  unfolding copy_within
  copy_within-fits =
      rw
        (
          le→leb (64 + s.offset + s.length) (length x) (omega arith),
          le→leb (64 + off + s.length) (length x) (omega arith),
        )
        refl

  shifted-IsShifted : IsShifted x shifted s off
  unfolding bytes_of
  shifted-IsShifted =
      let len = length-slice (64 + s.offset) s.length x (omega arith) in
      record {
        size = length-write_at (64 + off) (slice (64 + s.offset) s.length x) x ∙ size;
        moved =
            ap (λ n. slice (64 + off) n shifted) (sym len)
            ∙ slice-write_at (64 + off) (slice (64 + s.offset) s.length x) x (omega arith);
        front = λ o n h. slice_apart o n (64 + off) (slice (64 + s.offset) s.length x) x (inl h);
        back = λ o n h.
            slice_apart o n (64 + off) (slice (64 + s.offset) s.length x) x (inr (omega arith));
      }

  run_moves-cons :
      (s.offset == off) ≡ false
      → (plan : Plan) → run_moves (plan_slot off s plan).0 x ≡ run_moves plan.0 shifted
  unfolding run_moves
  run_moves-cons apart plan = rw (apart, copy_within-fits) refl

  run_moves-same :
      (s.offset == off) ≡ true
      → (plan : Plan) → run_moves (plan_slot off s plan).0 x ≡ run_moves plan.0 x
  run_moves-same same plan = rw same refl

  same-IsShifted : (s.offset == off) ≡ true → IsShifted x x s off
  unfolding bytes_of
  same-IsShifted same = record {
    size = size;
    moved = let e = ==→eq s.offset off same in rw e refl;
    front = λ o n h. refl;
    back = λ o n h. refl;
  }

  shift : Shift x s off
  shift = elim (Bool-cases (s.offset == off)) [
    | inl same ↦ (x, run_moves-same same, same-IsShifted same)
    | inr apart ↦ (shifted, run_moves-cons apart, shifted-IsShifted)
  ]

module _ (buf : List ℕ) (v : IsValid buf) (ordered : IsOrdered buf) where
  deleted-IsAhead : (i off : ℕ) (x : List ℕ) → IsAhead buf i off x → IsAhead buf (i + 1) off x
  deleted-IsAhead i off x a = record {
    size = a.size;
    low = a.low;
    behind = λ j h. a.behind j (omega arith);
    same = λ j h. a.same j (omega arith);
  }

  module _ (i off : ℕ) (x : List ℕ) (h : i < slot_count buf)
      (live : is_deleted (slot_of i buf) ≡ false) (a : IsAhead buf i off x) where
    place_for : Shift x (slot_of i buf) off
    place_for =
        let inside = v.live i h live in
        let r = v.room in
        shift x (slot_of i buf) off a.size (a.behind i (omega arith) h live) (omega arith)

    plan_moves-live :
        (rounds : ℕ) (plan : Plan)
        → plan_moves buf (i + 1) rounds (off + (slot_of i buf).length) ≡ some plan
        → plan_moves buf i (suc rounds) off ≡ some (plan_slot off (slot_of i buf) plan)
    unfolding plan_moves
    plan_moves-live rounds plan planned =
        let inside = v.live i h live in
        let r = v.room in
        let b = a.behind i (omega arith) h live in
        let low : (off + (slot_of i buf).length) % 2 ^ 16 ≡ off + (slot_of i buf).length =
          omega arith in
        rw (slot-IsValid buf v i h, live, low, planned) refl

    module _ (x1 : List ℕ) (done : IsShifted x x1 (slot_of i buf) off) where
      live-IsAhead : IsAhead buf (i + 1) (off + (slot_of i buf).length) x1
      live-IsAhead =
          ahead buf v ordered i off x x1 h live a done.size
            (done.moved ∙ a.same i (omega arith) h live) done.front done.back

      plan_slot-IsMoved :
          (rounds : ℕ) (plan : Plan) (y : List ℕ)
          → IsMoved buf (i + 1) rounds (off + (slot_of i buf).length) x1 plan y
          → IsMoved buf i (suc rounds) off x (plan_slot off (slot_of i buf) plan) y
      plan_slot-IsMoved rounds plan y m =
          let moved =
            all-IsMoved buf v ordered i off x x1 h live a done.size
              (done.moved ∙ a.same i (omega arith) h live) done.front done.back rounds plan y m in
          elim (Bool-cases ((slot_of i buf).offset == off)) [
            | inl same ↦ rw same (moved plan.0)
            | inr apart ↦
                rw apart
                  (moved ((64 + (slot_of i buf).offset, 64 + off, (slot_of i buf).length) ∷ plan.0))
          ]

      past_live :
          (rounds : ℕ)
          → ((plan : Plan)
              → run_moves (plan_slot off (slot_of i buf) plan).0 x ≡ run_moves plan.0 x1)
          → Moves buf (i + 1) rounds (off + (slot_of i buf).length) x1
          → Moves buf i (suc rounds) off x
      unfolding Moves
      past_live rounds runs (plan, y, planned, run, m) = (
        plan_slot off (slot_of i buf) plan,
        y,
        plan_moves-live rounds plan planned,
        runs plan ∙ run,
        plan_slot-IsMoved rounds plan y m,
      )

  run_from :
      (rounds i off : ℕ) (x : List ℕ)
      → i + rounds ≡ slot_count buf
      → IsAhead buf i off x
      → Moves buf i rounds off x
  run_from zero i off x all a = nothing_left buf v ordered i off x a
  run_from (suc rounds) i off x all a = elim (Bool-cases (is_deleted (slot_of i buf))) [
    | inl dead ↦
        past_deleted buf v ordered i rounds off x (omega arith) dead
          (run_from rounds (i + 1) off x (omega arith) (deleted-IsAhead i off x a))
    | inr live ↦
        let (x1, runs, done) = place_for i off x (omega arith) live a in
        past_live i off x (omega arith) live a x1 done rounds runs (
          run_from rounds (i + 1) (off + (slot_of i buf).length) x1 (omega arith)
            (live-IsAhead i off x (omega arith) live a x1 done))
  ]

  pub run_all : Moves buf 0 (slot_count buf) 0 buf
  run_all = run_from (slot_count buf) 0 0 buf (omega arith) (record {
    size = v.size;
    low = omega arith;
    behind = λ j low h live. omega arith;
    same = λ j low h live. refl;
  })
