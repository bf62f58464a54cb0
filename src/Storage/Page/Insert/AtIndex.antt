-- ===== src/Storage/Page/Insert/AtIndex.antt =====
-- src/storage/page.rs: what `insert_at` answers.
use rgraph.Prelude.{
  ℕ, zero, suc, ◌+◌, ◌-◌, ◌*◌, ◌≤◌, ◌<◌, ◌≡◌, refl, ap, ◌∙◌, some, List, [], ◌∷◌, All, length,
  arith, min, le→leb,
}
use rgraph.Storage.Page.{Slot, slot_count, free_space, free_space_offset, set_free_space_offset}
use rgraph.Storage.Page.Insert.{
  new_slot, insert_slot, insert_slot_at, insert_at, collect_slots, write_directory, answered,
}
use rgraph.Storage.Page.Insert.Written.{copy_bytes}
use rgraph.Storage.Page.Insert.Counted.{
  fits, with_end, size-with_end, count_slot-with_bytes, slot_count-with_end, kept-with_end,
}
use rgraph.Storage.Page.Insert.Filled.{new_slot-IsSlot}
use rgraph.Storage.Page.Insert.Direct.{room_for, not_ltb}
use rgraph.Storage.Page.Insert.Directory.{
  slots_from, collect_slots-slots_from, length-slots_from, write_directory-IsWritten,
}
use rgraph.Storage.Page.Insert.Shift.{
  all_slots, length-all_slots, shifted-IsValid, record_at-shifted, shift_records,
}
use rgraph.Storage.Page.Layout.{IsSlot, slot_of}
use rgraph.Storage.Page.Valid.{IsValid, record_at}

slots_from-IsSlot :
    (b : List ℕ) (i n : ℕ)
    → ((j : ℕ) → j < i + n → IsSlot (slot_of j b))
    → All IsSlot (slots_from b i n)
unfolding slots_from
slots_from-IsSlot b i zero words = tt
slots_from-IsSlot b i (suc n) words =
    (words i (omega arith), slots_from-IsSlot b (i + 1) n (λ j h. words j (omega arith)))

insert_slot-IsSlot :
    (pos : ℕ) (s : Slot) (slots : List Slot)
    → IsSlot s
    → All IsSlot slots
    → All IsSlot (insert_slot pos s slots)
unfolding insert_slot
insert_slot-IsSlot zero s slots w ws = (w, ws)
insert_slot-IsSlot (suc pos) s [] w ws = (w, tt)
insert_slot-IsSlot (suc pos) s (t ∷ slots) w ws = (ws.0, insert_slot-IsSlot pos s slots w ws.1)

module _ (buf rec : List ℕ) (v : IsValid buf)
    (fit : 64 + free_space_offset buf + length rec + (slot_count buf + 1) * 4 ≤ 8192)
    (idx : ℕ) where
  abbrev pub position_of : ℕ
  position_of = min idx (slot_count buf)

  collected :
      collect_slots (with_end buf rec) 0 (slot_count buf)
      ≡ some (slots_from (with_end buf rec) 0 (slot_count buf))
  collected =
      let c = slot_count-with_end buf rec v fit in
      collect_slots-slots_from (with_end buf rec) 0 (slot_count buf) (omega arith) (omega arith)

  word-with_end : (j : ℕ) → j < 0 + slot_count buf → IsSlot (slot_of j (with_end buf rec))
  word-with_end j h = rw (kept-with_end buf rec v fit j (omega arith)) (v.words j (omega arith))

  insert_slot_at-fits :
      (b : List ℕ)
      → write_directory
          (slot_count buf + 1)
          0
          (all_slots buf rec v fit position_of (omega arith))
          (with_end buf rec)
        ≡ some b
      → insert_slot_at idx rec buf ≡ some (position_of, b)
  unfolding insert_slot_at set_free_space_offset
  insert_slot_at-fits b run =
      let last : slot_count buf + 1 - 1 ≡ slot_count buf = omega arith in
      rw
        (
          copy_bytes buf rec v (fits buf rec v fit),
          count_slot-with_bytes buf rec v fit,
          slot_count-with_end buf rec v fit,
          last,
          collected,
          length-slots_from (with_end buf rec) 0 (slot_count buf),
          run,
        )
        refl

  insert_at-direct :
      length rec ≤ 2048
      → length rec + 4 ≤ free_space buf
      → insert_at idx rec buf ≡ answered (insert_slot_at idx rec buf)
  unfolding insert_at
  insert_at-direct short room =
      rw (not_ltb 2048 (length rec) short, le→leb (length rec + 4) (free_space buf) room) refl

  inserted :
      (b : List ℕ) × (insert_slot_at idx rec buf ≡ some (position_of, b))
      × IsValid b
      × ((j : ℕ) → record_at b j ≡ shift_records (record_at buf) position_of (some rec) j)
  inserted =
      let slots = all_slots buf rec v fit position_of (omega arith) in
      let (b, run, w) =
        write_directory-IsWritten (slot_count buf + 1) (omega arith) 0 slots (with_end buf rec)
          (size-with_end buf rec v fit)
          (let n = length-all_slots buf rec v fit position_of (omega arith) in omega arith)
          (insert_slot-IsSlot position_of (new_slot (free_space_offset buf) rec)
            (slots_from (with_end buf rec) 0 (slot_count buf))
            (new_slot-IsSlot (free_space_offset buf) rec)
            (slots_from-IsSlot (with_end buf rec) 0 (slot_count buf) word-with_end)) in
      (
        b,
        insert_slot_at-fits b run,
        shifted-IsValid buf rec v fit position_of (omega arith) b w,
        record_at-shifted buf rec v fit position_of (omega arith) b w,
      )

-- `insert_at` of a record that is not too long for a page, into a valid page that has room for it
-- and for a slot, does not panic: it answers the index asked for, or the number of the slots if that
-- is smaller, and keeps the page valid. There stands the record, the records below stay, and those
-- from there on stand one index higher.
pub insert_at-record_at :
    (idx : ℕ) (rec buf : List ℕ)
    → IsValid buf
    → length rec ≤ 2048
    → length rec + 4 ≤ free_space buf
    → (b : List ℕ) × (insert_at idx rec buf ≡ some (some (min idx (slot_count buf)), b))
      × IsValid b
      × ((j : ℕ)
          → record_at b j ≡ shift_records (record_at buf) (min idx (slot_count buf)) (some rec) j)
insert_at-record_at idx rec buf v short room =
    let fit = room_for rec buf room in
    let (b, run, valid, same) = inserted buf rec v fit idx in
    (b, insert_at-direct buf rec v fit idx short room ∙ ap answered run, valid, same)
