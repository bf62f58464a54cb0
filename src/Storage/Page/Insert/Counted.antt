-- ===== src/Storage/Page/Insert/Counted.antt =====
-- src/storage/page.rs: the bytes of a record at the free offset, with one more slot in the header and the free
-- offset behind the record.
use rgraph.Prelude.{
  ℕ, ◌+◌, ◌*◌, ◌%◌, ◌^◌, ◌≤◌, ◌<◌, ◌≡◌, refl, ap, ◌∙◌, inr, some, List, length, arith, lt→ltb,
}
use rgraph.Prelude.Bytes.{le_bytes, from_le_bytes}
use rgraph.Prelude.Slices.{slice, write_at, slice_apart, length-write_at}
use rgraph.Storage.Page.{slot_from, slot_at, slot_count, free_space_offset, set_slot_count}
use rgraph.Storage.Page.Insert.{count_slot}
use rgraph.Storage.Page.Layout.{slot_of, place_of, field-write}
use rgraph.Storage.Page.Valid.{IsValid}
use rgraph.Storage.Page.Insert.Written.{
  length-le_bytes_2, with_bytes, size-with_bytes, slot_count-with_bytes, kept-with_bytes,
}

abbrev pub with_count : List ℕ → List ℕ → List ℕ
with_count buf rec = write_at 34 (le_bytes 2 (slot_count buf + 1)) (with_bytes buf rec)

abbrev pub with_end : List ℕ → List ℕ → List ℕ
with_end buf rec =
    write_at 32 (le_bytes 2 ((free_space_offset buf + length rec) % 2 ^ 16)) (with_count buf rec)

module _ (buf rec : List ℕ) (v : IsValid buf)
    (fit : 64 + free_space_offset buf + length rec + (slot_count buf + 1) * 4 ≤ 8192) where
  pub fits : 64 + free_space_offset buf + length rec + slot_count buf * 4 ≤ 8192
  fits = omega arith

  size-with_count : length (with_count buf rec) ≡ 8192
  size-with_count =
      length-write_at 34 (le_bytes 2 (slot_count buf + 1)) (with_bytes buf rec)
      ∙ size-with_bytes buf rec v fits

  pub size-with_end : length (with_end buf rec) ≡ 8192
  size-with_end =
      length-write_at 32 (le_bytes 2 ((free_space_offset buf + length rec) % 2 ^ 16))
        (with_count buf rec)
      ∙ size-with_count

  pub count_slot-with_bytes : count_slot (with_bytes buf rec) ≡ some (with_count buf rec)
  unfolding count_slot set_slot_count
  count_slot-with_bytes =
      rw (slot_count-with_bytes buf rec v fits, lt→ltb (slot_count buf) 65535 (omega arith)) refl

  pub slot_count-with_count : slot_count (with_count buf rec) ≡ slot_count buf + 1
  unfolding slot_count
  slot_count-with_count =
      let n = size-with_bytes buf rec v fits in
      field-write 34 (slot_count buf + 1) (with_bytes buf rec) (omega arith) (omega arith)

  pub slot_count-with_end : slot_count (with_end buf rec) ≡ slot_count buf + 1
  unfolding slot_count
  slot_count-with_end =
      let n = length-le_bytes_2 ((free_space_offset buf + length rec) % 2 ^ 16) in
      ap from_le_bytes (
        slice_apart 34 2 32 (le_bytes 2 ((free_space_offset buf + length rec) % 2 ^ 16))
          (with_count buf rec) (inr (omega arith)))
      ∙ slot_count-with_count

  pub free-with_end : free_space_offset (with_end buf rec) ≡ free_space_offset buf + length rec
  unfolding free_space_offset
  free-with_end =
      let n = size-with_count in
      let low : (free_space_offset buf + length rec) % 2 ^ 16 ≡ free_space_offset buf + length rec =
        omega arith in
      field-write 32 ((free_space_offset buf + length rec) % 2 ^ 16) (with_count buf rec)
        (omega arith) (omega arith)
      ∙ low

  -- Bytes behind the header
  pub slice-with_end :
      (off n : ℕ) → 64 ≤ off → slice off n (with_end buf rec) ≡ slice off n (with_bytes buf rec)
  slice-with_end off n low =
      let e = length-le_bytes_2 ((free_space_offset buf + length rec) % 2 ^ 16) in
      let c = length-le_bytes_2 (slot_count buf + 1) in
      slice_apart off n 32 (le_bytes 2 ((free_space_offset buf + length rec) % 2 ^ 16))
        (with_count buf rec) (inr (omega arith))
      ∙ slice_apart off n 34 (le_bytes 2 (slot_count buf + 1)) (with_bytes buf rec)
          (inr (omega arith))

  pub kept-with_end : (j : ℕ) → j < slot_count buf → slot_of j (with_end buf rec) ≡ slot_of j buf
  unfolding slot_at
  kept-with_end j h =
      ap slot_from (slice-with_end (place_of j) 4 (omega arith))
      ∙ kept-with_bytes buf rec v fits j h
