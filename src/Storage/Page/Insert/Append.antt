-- ===== src/Storage/Page/Insert/Append.antt =====
-- src/storage/page.rs: `insert` of a record under a new slot.
use rgraph.Prelude.{
  ℕ, ◌+◌, ◌-◌, ◌*◌, ◌≤◌, ◌<◌, ◌≡◌, refl, ap, ◌∙◌, inl, inr, some, List, length, arith,
}
use rgraph.Prelude.Bytes.{from_le_bytes}
use rgraph.Prelude.Slices.{slice, write_at, slice_apart, length-write_at}
use rgraph.Storage.Page.{
  slot_count, free_space_offset, set_free_space_offset, slot_bytes, slot_place, copy_from_slice,
}
use rgraph.Storage.Page.Insert.{new_slot, append_slot}
use rgraph.Storage.Page.Insert.Filled.{new_slot-IsSlot, IsFilled}
use rgraph.Storage.Page.Layout.{
  slot_of, place_of, slot_of-write, slot_of-slot_bytes, slot_place-count, length-slot_bytes,
}
use rgraph.Storage.Page.Valid.{IsValid}
use rgraph.Storage.Page.Insert.Written.{
  copy_from_slice-fits, slot_count_of, with_bytes, copy_bytes, written-with_bytes, front-with_bytes,
}
use rgraph.Storage.Page.Insert.Counted.{
  fits, with_end, size-with_end, count_slot-with_bytes, slot_count-with_count, slot_count-with_end,
  free-with_end, slice-with_end, kept-with_end,
}

module _ (buf rec : List ℕ) (v : IsValid buf)
    (fit : 64 + free_space_offset buf + length rec + (slot_count buf + 1) * 4 ≤ 8192) where
  abbrev pub appended : List ℕ
  appended =
      write_at (place_of (slot_count buf)) (slot_bytes (new_slot (free_space_offset buf) rec))
        (with_end buf rec)

  slot_place-with_end :
      slot_place (slot_count (with_end buf rec)) 0 ≡ some (place_of (slot_count buf))
  slot_place-with_end =
      let last : slot_count buf + 1 - (slot_count buf + 1) ≡ 0 = omega arith in
      rw (slot_count-with_end buf rec v fit) (
        rw (← last)
          (slot_place-count (slot_count buf + 1) (slot_count buf) (omega arith) (omega arith)))

  copy_slot :
      copy_from_slice
        (place_of (slot_count buf))
        (slot_bytes (new_slot (free_space_offset buf) rec))
        (with_end buf rec)
      ≡ some appended
  copy_slot =
      let n = size-with_end buf rec v fit in
      let m = length-slot_bytes (new_slot (free_space_offset buf) rec) in
      copy_from_slice-fits (place_of (slot_count buf))
        (slot_bytes (new_slot (free_space_offset buf) rec)) (with_end buf rec) (omega arith)

  pub append_slot-fits :
      append_slot (free_space_offset buf) rec buf ≡ some (slot_count buf, appended)
  unfolding append_slot set_free_space_offset
  append_slot-fits =
      let last : slot_count buf + 1 - 1 ≡ slot_count buf = omega arith in
      rw
        (
          copy_bytes buf rec v (fits buf rec v fit),
          count_slot-with_bytes buf rec v fit,
          slot_place-with_end,
          copy_slot,
          slot_count-with_count buf rec v fit,
          last,
        )
        refl

  size-appended : length appended ≡ 8192
  size-appended =
      length-write_at (place_of (slot_count buf))
        (slot_bytes (new_slot (free_space_offset buf) rec)) (with_end buf rec)
      ∙ size-with_end buf rec v fit

  -- Bytes that the header and the new slot do not cover
  slice-appended :
      (off n : ℕ)
      → 64 ≤ off
      → off + n ≤ place_of (slot_count buf)
      → slice off n appended ≡ slice off n (with_bytes buf rec)
  slice-appended off n low high =
      slice_apart off n (place_of (slot_count buf))
        (slot_bytes (new_slot (free_space_offset buf) rec)) (with_end buf rec) (inl high)
      ∙ slice-with_end buf rec v fit off n low

  header_of-appended :
      (off : ℕ) → off + 2 ≤ 64 → slice off 2 appended ≡ slice off 2 (with_end buf rec)
  header_of-appended off h =
      slice_apart off 2 (place_of (slot_count buf))
        (slot_bytes (new_slot (free_space_offset buf) rec)) (with_end buf rec) (inl (omega arith))

  free-appended : free_space_offset appended ≡ free_space_offset buf + length rec
  unfolding free_space_offset
  free-appended =
      ap from_le_bytes (header_of-appended 32 (omega arith)) ∙ free-with_end buf rec v fit

  counted-appended : slot_count appended ≡ slot_count buf + 1
  counted-appended =
      slot_count_of appended (with_end buf rec) (header_of-appended 34 (omega arith))
      ∙ slot_count-with_end buf rec v fit

  kept-appended : (j : ℕ) → j < slot_count buf → slot_of j appended ≡ slot_of j buf
  kept-appended j h =
      slot_of-write (place_of (slot_count buf)) j
        (slot_bytes (new_slot (free_space_offset buf) rec)) (with_end buf rec)
        (inr (let m = length-slot_bytes (new_slot (free_space_offset buf) rec) in omega arith))
      ∙ kept-with_end buf rec v fit j h

  written-appended : slice (64 + free_space_offset buf) (length rec) appended ≡ rec
  written-appended =
      let n = v.size in
      slice-appended (64 + free_space_offset buf) (length rec) (omega arith) (omega arith)
      ∙ written-with_bytes buf rec v (fits buf rec v fit)

  front-appended :
      (off n : ℕ)
      → 64 ≤ off
      → off + n ≤ 64 + free_space_offset buf
      → slice off n appended ≡ slice off n buf
  front-appended off n low high =
      slice-appended off n low (omega arith)
      ∙ front-with_bytes buf rec v (fits buf rec v fit) off n high

  here-appended : slot_of (slot_count buf) appended ≡ new_slot (free_space_offset buf) rec
  here-appended =
      let n = size-with_end buf rec v fit in
      slot_of-slot_bytes (slot_count buf) (new_slot (free_space_offset buf) rec) (with_end buf rec)
        (new_slot-IsSlot (free_space_offset buf) rec) (omega arith)

  pub appended-IsFilled : IsFilled buf appended (slot_count buf) rec (slot_count buf + 1)
  appended-IsFilled = record {
    size = size-appended;
    free = free-appended;
    counted = counted-appended;
    here = here-appended;
    kept = λ j h ne. kept-appended j h;
    written = written-appended;
    front = front-appended;
  }
