-- ===== src/Storage/Page/Delete.antt =====
-- src/storage/page.rs: a slot that is written in place, and `delete`.
use rgraph.Prelude.{
  ℕ, ◌+◌, ◌-◌, ◌≤◌, ◌<◌, ◌≡◌, ◌≢◌, refl, ap, ◌∙◌, inl, inr, Bool, true, false, Option, none, some,
  List, length, arith, leb, ◌==◌, Bool-cases, lt→not_leb, not_leb, ==→eq,
}
use rgraph.Prelude.Slices.{slice, write_at, slice_apart, length-write_at}
use rgraph.Prelude.Bytes.{from_le_bytes}
use rgraph.Storage.Page.{
  Slot, is_deleted, slot_count, free_space_offset, slot, slot_bytes, write_slot, delete,
  delete_found,
}
use rgraph.Storage.Page.Update.{IsUpdate, update-IsValid, record_at-update, set_record}
use rgraph.Storage.Page.Layout.{
  length-slot_bytes, IsSlot, slot_of-slot_bytes, offset-slot_bytes, places_apart, slot_of, place_of,
  slot_of-write, slot_place-count,
}
use rgraph.Storage.Page.Valid.{
  IsValid, record_at, record_of, bytes_of, slot-IsValid, directory_fits,
}

-- A write to the place of a slot of the directory
module _ (buf : List ℕ) (v : IsValid buf) (i : ℕ) (h : i < slot_count buf) (s : Slot) where
  abbrev pub with_slot : List ℕ
  with_slot = write_at (place_of i) (slot_bytes s) buf

  pub write_slot-IsValid : write_slot i s buf ≡ some with_slot
  unfolding write_slot
  write_slot-IsValid =
      let e : slot_count buf - i - 1 ≡ slot_count buf - (i + 1) = omega arith in
      rw (e, slot_place-count (slot_count buf) i h (directory_fits buf v)) refl

  -- The bytes in front of the directory
  pub slice-with_slot :
      (off n : ℕ) → off + n ≤ 64 + free_space_offset buf → slice off n with_slot ≡ slice off n buf
  slice-with_slot off n fit =
      let r = v.room in slice_apart off n (place_of i) (slot_bytes s) buf (inl (omega arith))

  pub free_space_offset-with_slot : free_space_offset with_slot ≡ free_space_offset buf
  unfolding free_space_offset
  free_space_offset-with_slot = ap from_le_bytes (slice-with_slot 32 2 (omega arith))

  pub slot_count-with_slot : slot_count with_slot ≡ slot_count buf
  unfolding slot_count
  slot_count-with_slot = ap from_le_bytes (slice-with_slot 34 2 (omega arith))

  pub slot_of-with_slot : (j : ℕ) → j < slot_count buf → j ≢ i → slot_of j with_slot ≡ slot_of j buf
  slot_of-with_slot j hj ne =
      let r = v.room in
      slot_of-write (place_of i) j (slot_bytes s) buf (
        rw (length-slot_bytes s) (places_apart (slot_count buf) i j h hj (directory_fits buf v) ne))

  -- The slots of the records that are left have the bytes they had.
  pub bytes_of-with_slot :
      (t : Slot)
      → t.offset + t.length ≤ free_space_offset buf
      → bytes_of t with_slot ≡ bytes_of t buf
  unfolding bytes_of
  bytes_of-with_slot t fit = slice-with_slot (64 + t.offset) t.length (omega arith)

  pub length-with_slot : length with_slot ≡ 8192
  length-with_slot = length-write_at (place_of i) (slot_bytes s) buf ∙ v.size

  pub offset-with_slot : s.offset < 65536 → (slot_of i with_slot).offset ≡ s.offset
  offset-with_slot hs =
      let n = v.size in let r = v.room in offset-slot_bytes i s buf hs (omega arith)

-- `delete` on a valid page
module _ (buf : List ℕ) (v : IsValid buf) (i : ℕ) (h : i < slot_count buf) where
  abbrev dead_slot : Slot
  dead_slot = record (slot_of i buf) { offset = 65535 }

  abbrev pub without : List ℕ
  without = with_slot buf v i h dead_slot

  is_deleted-without : is_deleted (slot_of i without) ≡ true
  unfolding is_deleted
  is_deleted-without = rw (offset-with_slot buf v i h dead_slot (omega arith)) refl

  here-without : record_of (slot_of i without) without ≡ none
  unfolding record_of
  here-without = rw is_deleted-without refl

  inside-without :
      is_deleted (slot_of i without) ≡ false
      → (slot_of i without).offset + (slot_of i without).length ≤ free_space_offset without
  inside-without live = absurd (cc (live, is_deleted-without))

  dead_slot-IsSlot : IsSlot dead_slot
  unfolding IsSlot
  dead_slot-IsSlot = (omega arith, (v.words i h).1)

  word-without : IsSlot (slot_of i without)
  word-without =
      let n = v.size in
      rw (slot_of-slot_bytes i dead_slot buf dead_slot-IsSlot (omega arith)) dead_slot-IsSlot

  pub without-IsUpdate : IsUpdate buf without i none
  without-IsUpdate = record {
    size = length-with_slot buf v i h dead_slot;
    room =
        rw
          (
            free_space_offset-with_slot buf v i h dead_slot,
            slot_count-with_slot buf v i h dead_slot,
          )
          v.room;
    grows = rw (free_space_offset-with_slot buf v i h dead_slot) (omega arith);
    counted = rw (slot_count-with_slot buf v i h dead_slot) (omega arith);
    index = rw (slot_count-with_slot buf v i h dead_slot) h;
    others = λ j hj ne. rw (← slot_count-with_slot buf v i h dead_slot) hj;
    kept = slot_of-with_slot buf v i h dead_slot;
    bytes = bytes_of-with_slot buf v i h dead_slot;
    here = here-without;
    word = word-without;
    inside = inside-without;
  }

  delete_found-live :
      is_deleted (slot_of i buf) ≡ false
      → delete_found i buf (some (slot_of i buf)) ≡ some (true, without)
  delete_found-live live = rw (live, write_slot-IsValid buf v i h dead_slot) refl

  pub delete-slot_of : is_deleted (slot_of i buf) ≡ false → delete i buf ≡ some (true, without)
  unfolding delete
  delete-slot_of live = rw (slot-IsValid buf v i h) (delete_found-live live)

unfoldable pub is_some : Option (List ℕ) → Bool
is_some none = false
is_some (some bytes) = true

abbrev Deletes : List ℕ → ℕ → Type 0
Deletes buf i =
    (b : List ℕ) × (delete i buf ≡ some (is_some (record_at buf i), b))
    × IsValid b
    × ((j : ℕ) → record_at b j ≡ set_record (record_at buf) i none j)

module _ (buf : List ℕ) (v : IsValid buf) (i : ℕ) where
  set_record-absent :
      record_at buf i ≡ none → (j : ℕ) → record_at buf j ≡ set_record (record_at buf) i none j
  unfolding set_record
  set_record-absent gone j = elim (Bool-cases (j == i)) [
    | inl same ↦ rw (same, ==→eq j i same) gone
    | inr other ↦ rw other refl
  ]

  nothing_deleted : record_at buf i ≡ none → delete i buf ≡ some (false, buf) → Deletes buf i
  unfolding is_some
  nothing_deleted gone same = (buf, rw gone same, v, set_record-absent gone)

  record_at-beyond : leb (slot_count buf) i ≡ true → record_at buf i ≡ none
  unfolding record_at
  record_at-beyond beyond = rw beyond refl

  delete-beyond : leb (slot_count buf) i ≡ true → delete i buf ≡ some (false, buf)
  unfolding delete slot
  delete-beyond beyond = rw beyond refl

  record_at-slot_of : i < slot_count buf → record_at buf i ≡ record_of (slot_of i buf) buf
  unfolding record_at
  record_at-slot_of h = rw (lt→not_leb (slot_count buf) i h) refl

  record_of-dead : is_deleted (slot_of i buf) ≡ true → record_of (slot_of i buf) buf ≡ none
  unfolding record_of
  record_of-dead dead = rw dead refl

  delete-dead :
      i < slot_count buf → is_deleted (slot_of i buf) ≡ true → delete i buf ≡ some (false, buf)
  unfolding delete
  delete-dead h dead = rw (slot-IsValid buf v i h, dead) refl

  is_some-live : is_deleted (slot_of i buf) ≡ false → is_some (record_of (slot_of i buf) buf) ≡ true
  unfolding record_of is_some
  is_some-live live = rw live refl

  live_case : (h : i < slot_count buf) → is_deleted (slot_of i buf) ≡ false → Deletes buf i
  live_case h live =
      let u = without-IsUpdate buf v i h in
      (
        without buf v i h,
        rw (record_at-slot_of h, is_some-live live) (delete-slot_of buf v i h live),
        update-IsValid buf (without buf v i h) i none v u,
        record_at-update buf (without buf v i h) i none v u,
      )

-- On a valid page `delete` does not panic. It answers whether there was a record under the index,
-- keeps the page valid, takes that record away, and leaves every other one as it was.
pub delete-record_at :
    (buf : List ℕ) (i : ℕ)
    → IsValid buf
    → (b : List ℕ) × (delete i buf ≡ some (is_some (record_at buf i), b))
      × IsValid b
      × ((j : ℕ) → record_at b j ≡ set_record (record_at buf) i none j)
delete-record_at buf i v = elim (Bool-cases (leb (slot_count buf) i)) [
  | inl beyond ↦
      nothing_deleted buf v i (record_at-beyond buf v i beyond) (delete-beyond buf v i beyond)
  | inr below ↦
      let h = not_leb (slot_count buf) i below in
      elim (Bool-cases (is_deleted (slot_of i buf))) [
        | inl dead ↦
            nothing_deleted buf v i (record_at-slot_of buf v i h ∙ record_of-dead buf v i dead)
              (delete-dead buf v i h dead)
        | inr live ↦ live_case buf v i h live
      ]
]
