-- ===== src/Storage/Page/Insert/Direct.antt =====
-- src/storage/page.rs: `insert` on a valid page with room for the record.
use rgraph.Prelude.{
  ℕ, ◌+◌, ◌*◌, ◌≤◌, ◌<◌, ◌≡◌, refl, ◌∙◌, inl, inr, Bool, true, false, ◌&&◌, none, some, List,
  length, arith, leb, ltb, Bool-cases, le→leb, lt→not_leb,
}
use rgraph.Storage.Page.{is_deleted, slot_count, free_space, free_space_offset}
use rgraph.Storage.Page.Insert.{Best, answered, insert, insert_with, place_record}
use rgraph.Storage.Page.Insert.BestFit.{best_fit-IsBest, IsBest, is_candidate}
use rgraph.Storage.Page.Insert.Append.{append_slot-fits, appended-IsFilled, appended}
use rgraph.Storage.Page.Insert.Reuse.{reuse_slot-fits, reused-IsFilled, reused}
use rgraph.Storage.Page.Insert.Filled.{filled-IsUpdate}
use rgraph.Storage.Page.Layout.{slot_of}
use rgraph.Storage.Page.Valid.{IsValid, record_at, record_of}
use rgraph.Storage.Page.Update.{set_record, IsUpdate, update-IsValid, record_at-update}

not_and : (a b : Bool) → a ≡ false → (a && b) ≡ true → ⊥
not_and true b h c = cc h
not_and false b h c = cc c

abbrev Places : List ℕ → List ℕ → Best → Type 0
Places rec buf best =
    (i : ℕ) × (b : List ℕ) × (place_record best (free_space_offset buf) rec buf ≡ some (i, b))
    × (record_at buf i ≡ none)
    × IsUpdate buf b i (some rec)

pub room_for :
    (rec buf : List ℕ)
    → length rec + 4 ≤ free_space buf
    → 64 + free_space_offset buf + length rec + (slot_count buf + 1) * 4 ≤ 8192
unfolding free_space
room_for rec buf room = omega arith

pub not_ltb : (a b : ℕ) → b ≤ a → ltb a b ≡ false
not_ltb a b h = ground arith

module _ (rec buf : List ℕ) (v : IsValid buf)
    (fit : 64 + free_space_offset buf + length rec + (slot_count buf + 1) * 4 ≤ 8192) where
  record_at-next : record_at buf (slot_count buf) ≡ none
  unfolding record_at
  record_at-next = rw (le→leb (slot_count buf) (slot_count buf) (omega arith)) refl

  record_at-candidate :
      (i : ℕ)
      → i < slot_count buf
      → is_candidate (length rec) (slot_of i buf) ≡ true
      → record_at buf i ≡ none
  unfolding record_at record_of is_candidate
  record_at-candidate i h c = elim (Bool-cases (is_deleted (slot_of i buf))) [
    | inl dead ↦ rw (lt→not_leb (slot_count buf) i h, dead) refl
    | inr live ↦
        absurd
          (not_and (is_deleted (slot_of i buf)) (leb (length rec) (slot_of i buf).length) live c)
  ]

  places : (best : Best) → IsBest buf (length rec) (slot_count buf) best → Places rec buf best
  unfolding IsBest
  places none b = (
    slot_count buf,
    appended buf rec v fit,
    append_slot-fits buf rec v fit,
    record_at-next,
    filled-IsUpdate buf (appended buf rec v fit) (slot_count buf) rec (slot_count buf + 1)
        (appended-IsFilled buf rec v fit) (omega arith) (omega arith) (omega arith)
        (λ j h ne. ground arith),
  )
  places (some (i, l)) b = (
    i,
    reused buf rec v (omega arith) i b.0,
    reuse_slot-fits buf rec v (omega arith) i b.0,
    record_at-candidate i b.0 b.1,
    filled-IsUpdate buf (reused buf rec v (omega arith) i b.0) i rec (slot_count buf)
        (reused-IsFilled buf rec v (omega arith) i b.0) (omega arith) b.0 (omega arith)
        (λ j h ne. h),
  )

  insert-direct :
      length rec ≤ 2048
      → length rec + 4 ≤ free_space buf
      → insert rec buf ≡ answered (insert_with (slot_count buf) (free_space_offset buf) rec buf)
  unfolding insert
  insert-direct short room =
      rw (not_ltb 2048 (length rec) short, le→leb (length rec + 4) (free_space buf) room) refl

-- `insert` of a record that is not too long for a page, into a valid page that has room for it and
-- for a slot, does not panic: it answers an index under which the page held nothing, keeps the page
-- valid, and stores the record there; what the page holds under every other index stays.
pub insert-record_at :
    (rec buf : List ℕ)
    → IsValid buf
    → length rec ≤ 2048
    → length rec + 4 ≤ free_space buf
    → (i : ℕ) × (b : List ℕ) × (insert rec buf ≡ some (some i, b))
      × IsValid b
      × (record_at buf i ≡ none)
      × ((j : ℕ) → record_at b j ≡ set_record (record_at buf) i (some rec) j)
unfolding insert_with places
insert-record_at rec buf v short room =
    let fit = room_for rec buf room in
    let (best, run, good) = best_fit-IsBest buf v (length rec) in
    let (i, b, placed, free, u) = places rec buf v fit best good in
    (
      i,
      b,
      insert-direct rec buf v fit short room ∙ rw (insert_with, run, placed) refl,
      update-IsValid buf b i (some rec) v u,
      free,
      record_at-update buf b i (some rec) v u,
    )
