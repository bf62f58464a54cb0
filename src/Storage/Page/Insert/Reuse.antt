-- ===== src/Storage/Page/Insert/Reuse.antt =====
-- src/storage/page.rs: `insert` of a record under a deleted slot.
use rgraph.Prelude.{
  ℕ, ◌+◌, ◌-◌, ◌*◌, ◌%◌, ◌^◌, ◌≤◌, ◌<◌, ◌≡◌, ◌≢◌, refl, ◌∙◌, inl, inr, some, List, length, arith,
}
use rgraph.Prelude.Bytes.{le_bytes}
use rgraph.Prelude.Slices.{slice, write_at, slice_apart, length-write_at}
use rgraph.Storage.Page.{
  slot_count, free_space_offset, set_free_space_offset, slot_bytes, write_slot,
}
use rgraph.Storage.Page.Insert.{new_slot, reuse_slot}
use rgraph.Storage.Page.Insert.Filled.{new_slot-IsSlot, IsFilled}
use rgraph.Storage.Page.Layout.{
  slot_of, place_of, places_apart, slot_of-write, slot_of-slot_bytes, slot_place-count, field-write,
  length-slot_bytes,
}
use rgraph.Storage.Page.Valid.{IsValid, directory_fits}
use rgraph.Storage.Page.Insert.Written.{
  length-le_bytes_2, slot_count_of, with_bytes, size-with_bytes, copy_bytes, slot_count-with_bytes,
  kept-with_bytes, written-with_bytes, front-with_bytes,
}

module _ (buf rec : List ℕ) (v : IsValid buf)
    (fit : 64 + free_space_offset buf + length rec + slot_count buf * 4 ≤ 8192) (i : ℕ)
    (h : i < slot_count buf) where
  abbrev pub with_slot : List ℕ
  with_slot =
      write_at (place_of i) (slot_bytes (new_slot (free_space_offset buf) rec)) (with_bytes buf rec)

  abbrev pub reused : List ℕ
  reused = write_at 32 (le_bytes 2 ((free_space_offset buf + length rec) % 2 ^ 16)) with_slot

  size-with_slot : length with_slot ≡ 8192
  size-with_slot =
      length-write_at (place_of i) (slot_bytes (new_slot (free_space_offset buf) rec))
        (with_bytes buf rec)
      ∙ size-with_bytes buf rec v fit

  write_slot-with_bytes :
      write_slot i (new_slot (free_space_offset buf) rec) (with_bytes buf rec) ≡ some with_slot
  unfolding write_slot
  write_slot-with_bytes =
      let e : slot_count buf - i - 1 ≡ slot_count buf - (i + 1) = omega arith in
      rw
        (
          slot_count-with_bytes buf rec v fit,
          e,
          slot_place-count (slot_count buf) i h (directory_fits buf v),
        )
        refl

  pub reuse_slot-fits : reuse_slot i (free_space_offset buf) rec buf ≡ some (i, reused)
  unfolding reuse_slot set_free_space_offset
  reuse_slot-fits = rw (copy_bytes buf rec v fit, write_slot-with_bytes) refl

  -- Bytes between the header and the directory
  slice-reused :
      (off n : ℕ)
      → 64 ≤ off
      → off + n ≤ 64 + free_space_offset buf + length rec
      → slice off n reused ≡ slice off n (with_bytes buf rec)
  slice-reused off n low high =
      let e = length-le_bytes_2 ((free_space_offset buf + length rec) % 2 ^ 16) in
      slice_apart off n 32 (le_bytes 2 ((free_space_offset buf + length rec) % 2 ^ 16)) with_slot
        (inr (omega arith))
      ∙ slice_apart off n (place_of i) (slot_bytes (new_slot (free_space_offset buf) rec))
          (with_bytes buf rec) (inl (omega arith))

  free-reused : free_space_offset reused ≡ free_space_offset buf + length rec
  unfolding free_space_offset
  free-reused =
      let n = size-with_slot in
      let low : (free_space_offset buf + length rec) % 2 ^ 16 ≡ free_space_offset buf + length rec =
        omega arith in
      field-write 32 ((free_space_offset buf + length rec) % 2 ^ 16) with_slot (omega arith)
        (omega arith)
      ∙ low

  counted-reused : slot_count reused ≡ slot_count buf
  counted-reused =
      let e = length-le_bytes_2 ((free_space_offset buf + length rec) % 2 ^ 16) in
      slot_count_of reused with_slot (
        slice_apart 34 2 32 (le_bytes 2 ((free_space_offset buf + length rec) % 2 ^ 16)) with_slot
          (inr (omega arith)))
      ∙ slot_count_of with_slot (with_bytes buf rec) (
          slice_apart 34 2 (place_of i) (slot_bytes (new_slot (free_space_offset buf) rec))
            (with_bytes buf rec) (inl (omega arith)))
      ∙ slot_count-with_bytes buf rec v fit

  -- A slot of the directory is not in the header.
  slot_of-reused : (j : ℕ) → j < slot_count buf → slot_of j reused ≡ slot_of j with_slot
  slot_of-reused j hj =
      let e = length-le_bytes_2 ((free_space_offset buf + length rec) % 2 ^ 16) in
      slot_of-write 32 j (le_bytes 2 ((free_space_offset buf + length rec) % 2 ^ 16)) with_slot
        (inr (omega arith))

  here-reused : slot_of i reused ≡ new_slot (free_space_offset buf) rec
  here-reused =
      let n = size-with_bytes buf rec v fit in
      slot_of-reused i h
      ∙ slot_of-slot_bytes i (new_slot (free_space_offset buf) rec) (with_bytes buf rec)
          (new_slot-IsSlot (free_space_offset buf) rec) (omega arith)

  kept-reused : (j : ℕ) → j < slot_count buf → j ≢ i → slot_of j reused ≡ slot_of j buf
  kept-reused j hj ne =
      slot_of-reused j hj
      ∙ slot_of-write (place_of i) j (slot_bytes (new_slot (free_space_offset buf) rec))
          (with_bytes buf rec)
          (rw (length-slot_bytes (new_slot (free_space_offset buf) rec))
            (places_apart (slot_count buf) i j h hj (directory_fits buf v) ne))
      ∙ kept-with_bytes buf rec v fit j hj

  pub reused-IsFilled : IsFilled buf reused i rec (slot_count buf)
  reused-IsFilled = record {
    size =
        length-write_at 32 (le_bytes 2 ((free_space_offset buf + length rec) % 2 ^ 16)) with_slot
        ∙ size-with_slot;
    free = free-reused;
    counted = counted-reused;
    here = here-reused;
    kept = kept-reused;
    written =
        slice-reused (64 + free_space_offset buf) (length rec) (omega arith) (omega arith)
        ∙ written-with_bytes buf rec v fit;
    front = λ off n low high.
        slice-reused off n low (omega arith) ∙ front-with_bytes buf rec v fit off n high;
  }
