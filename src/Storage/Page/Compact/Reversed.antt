-- ===== src/Storage/Page/Compact/Reversed.antt =====
-- src/storage/page.rs: what `compact` leaves of a page whose records are in the order of their slots.
use rgraph.Prelude.{
  ℕ, ◌+◌, ◌-◌, ◌*◌, ◌%◌, ◌^◌, ◌≤◌, ◌<◌, ◌≡◌, refl, ap, sym, ◌∙◌, inl, inr, false, some, List,
  length, get_elem?, arith, ◌==◌, le→leb, lt→not_leb,
}
use rgraph.Prelude.Bytes.{le_bytes, from_le_bytes}
use rgraph.Prelude.Slices.{slice, write_at, slice_apart, length-write_at}
use rgraph.Storage.Page.{
  Slot, is_deleted, slot_count, free_space_offset, flags, slot_place, copy_from_slice, slot_from,
  slot_at, set_free_space_offset, set_slot_count, clear_full,
}
use rgraph.Storage.Page.Compact.{Plan, compact, directory_bytes, plan_moves, run_moves}
use rgraph.Storage.Page.Compact.Moves.{live_records, IsOrdered, IsMoved, Moves}
use rgraph.Storage.Page.Compact.Passes.{run_all}
use rgraph.Storage.Page.Compact.Directory.{
  length-directory_bytes, slice-block, slice-directory_bytes, Held, held, length-held,
}
use rgraph.Storage.Page.Insert.Written.{length-le_bytes_2, copy_from_slice-fits}
use rgraph.Storage.Page.Layout.{IsSlot, slot_of, place_of, field-write, slot_from-slot_bytes}
use rgraph.Storage.Page.Valid.{IsValid, record_at, record_of, bytes_of}

module _ (buf : List ℕ) (v : IsValid buf) (plan : Plan) (y : List ℕ)
    (m : IsMoved buf 0 (slot_count buf) 0 buf plan y) where
  abbrev count_of : ℕ
  count_of = length plan.1

  fits : 64 + plan.2 + count_of * 4 ≤ 8192
  fits = let c = m.count in let b = m.bound in let r = v.room in omega arith

  abbrev with_end : List ℕ
  with_end = write_at 32 (le_bytes 2 plan.2) y

  abbrev with_count : List ℕ
  with_count = write_at 34 (le_bytes 2 (count_of % 2 ^ 16)) with_end

  abbrev flags_of : ℕ
  flags_of = flags with_count - flags with_count % 2

  abbrev with_flags : List ℕ
  with_flags = write_at 36 (le_bytes 2 flags_of) with_count

  -- Where the directory begins
  abbrev start : ℕ
  start = 8192 - count_of * 4 + 0 * 4

  abbrev compacted : List ℕ
  compacted = write_at start (directory_bytes plan.1) with_flags

  size-with_flags : length with_flags ≡ 8192
  size-with_flags =
      length-write_at 36 (le_bytes 2 flags_of) with_count
      ∙ length-write_at 34 (le_bytes 2 (count_of % 2 ^ 16)) with_end
      ∙ length-write_at 32 (le_bytes 2 plan.2) y
      ∙ m.size

  size-with_end : length with_end ≡ 8192
  size-with_end = length-write_at 32 (le_bytes 2 plan.2) y ∙ m.size

  copy_directory : copy_from_slice start (directory_bytes plan.1) with_flags ≡ some compacted
  copy_directory =
      let f = fits in
      let n = size-with_flags in
      let d = length-directory_bytes plan.1 in
      copy_from_slice-fits start (directory_bytes plan.1) with_flags (omega arith)

  slot_place-start : slot_place count_of 0 ≡ some start
  unfolding slot_place
  slot_place-start = let f = fits in rw (le→leb (count_of * 4) 8192 (omega arith)) refl

  compact-moved :
      plan_moves buf 0 (slot_count buf) 0 ≡ some plan
      → run_moves plan.0 buf ≡ some y
      → compact buf ≡ some compacted
  unfolding compact set_free_space_offset set_slot_count clear_full
  compact-moved planned run = rw (planned, run, slot_place-start, copy_directory) refl

  slice-low : (o n : ℕ) → o + n ≤ start → slice o n compacted ≡ slice o n with_flags
  slice-low o n h = slice_apart o n start (directory_bytes plan.1) with_flags (inl h)

  free-compacted : free_space_offset compacted ≡ plan.2
  unfolding free_space_offset
  free-compacted =
      let f = fits in
      let s = m.size in
      let fl = length-le_bytes_2 flags_of in
      let c = length-le_bytes_2 (count_of % 2 ^ 16) in
      ap from_le_bytes (
        slice-low 32 2 (omega arith)
        ∙ slice_apart 32 2 36 (le_bytes 2 flags_of) with_count (inl (omega arith))
        ∙ slice_apart 32 2 34 (le_bytes 2 (count_of % 2 ^ 16)) with_end (inl (omega arith)))
      ∙ field-write 32 plan.2 y (omega arith) (omega arith)

  counted-compacted : slot_count compacted ≡ count_of
  unfolding slot_count
  counted-compacted =
      let f = fits in
      let s = size-with_end in
      let low : count_of % 2 ^ 16 ≡ count_of = omega arith in
      ap from_le_bytes (
        slice-low 34 2 (omega arith)
        ∙ slice_apart 34 2 36 (le_bytes 2 flags_of) with_count (inl (omega arith)))
      ∙ field-write 34 (count_of % 2 ^ 16) with_end (omega arith) (omega arith)
      ∙ low

  -- The moved records, behind the header and in front of the directory
  bytes_of-compacted :
      (s : Slot) → s.offset + s.length ≤ plan.2 → bytes_of s compacted ≡ bytes_of s y
  unfolding bytes_of
  bytes_of-compacted s inside =
      let f = fits in
      let fl = length-le_bytes_2 flags_of in
      let c = length-le_bytes_2 (count_of % 2 ^ 16) in
      let e = length-le_bytes_2 plan.2 in
      slice-low (64 + s.offset) s.length (omega arith)
      ∙ slice_apart (64 + s.offset) s.length 36 (le_bytes 2 flags_of) with_count (inr (omega arith))
      ∙ slice_apart (64 + s.offset) s.length 34 (le_bytes 2 (count_of % 2 ^ 16)) with_end
          (inr (omega arith))
      ∙ slice_apart (64 + s.offset) s.length 32 (le_bytes 2 plan.2) y (inr (omega arith))

  -- The slot `k` is the slot number `count - 1 - k` of those that were kept.
  slot_of-compacted :
      (k : ℕ) (s : Slot)
      → k < count_of
      → IsSlot s
      → get_elem? plan.1 (count_of - 1 - k) ≡ some s
      → slot_of k compacted ≡ s
  unfolding slot_at
  slot_of-compacted k s h word e =
      let f = fits in
      let n = size-with_flags in
      let d = length-directory_bytes plan.1 in
      let there : place_of k ≡ start + (count_of - 1 - k) * 4 = omega arith in
      rw there (
        ap slot_from (
          slice-block start ((count_of - 1 - k) * 4) 4 (directory_bytes plan.1) with_flags
            (omega arith) (omega arith)
          ∙ slice-directory_bytes plan.1 (count_of - 1 - k) s e)
        ∙ slot_from-slot_bytes s word)

  -- What stands under the index `k`
  abbrev Stands : ℕ → Type 0
  Stands k =
      (s : Slot) × (slot_of k compacted ≡ s)
      × IsSlot s
      × (get_elem? (live_records buf 0 (slot_count buf)) (count_of - 1 - k) ≡ some (bytes_of s y))
      × (s.offset + s.length ≤ plan.2)

  stands : (k : ℕ) → k < count_of → Stands k
  unfolding Held IsSlot
  stands k h =
      let (s, kept, rec, inside, len) =
        held y plan.2 plan.1 (live_records buf 0 (slot_count buf)) (count_of - 1 - k) m.holds
          (omega arith) in
      let f = fits in
      (s, slot_of-compacted k s h (omega arith, len) kept, (omega arith, len), rec, inside)

  record_of-kept :
      (s : Slot) → s.offset + s.length ≤ plan.2 → record_of s compacted ≡ some (bytes_of s y)
  unfolding record_of is_deleted
  record_of-kept s inside =
      let f = fits in
      let live : (s.offset == 65535) ≡ false = ground arith in
      rw (live, bytes_of-compacted s inside) refl

  record_at-compacted :
      (k : ℕ)
      → k < count_of
      → record_at compacted k ≡ get_elem? (live_records buf 0 (slot_count buf)) (count_of - 1 - k)
  unfolding record_at
  record_at-compacted k h =
      let (s, here, word, rec, inside) = stands k h in
      rw (counted-compacted, lt→not_leb count_of k h, here, rec) (record_of-kept s inside)

  compacted-IsValid : IsValid compacted
  compacted-IsValid = record {
    size = length-write_at start (directory_bytes plan.1) with_flags ∙ size-with_flags;
    room = rw (free-compacted, counted-compacted) fits;
    words = λ k h.
        let c = counted-compacted in
        let (s, here, word, rec, inside) = stands k (omega arith) in rw here word;
    live = λ k h live.
        let c = counted-compacted in
        let (s, here, word, rec, inside) = stands k (omega arith) in
        rw (here, free-compacted) inside;
  }

-- `compact` does not panic on a valid page whose records stand in the order of their slots, and the
-- page stays valid. It keeps the records that were not deleted and nothing else, but turns their order
-- round: the last of them gets the index 0.
pub compact-record_at :
    (buf : List ℕ)
    → IsValid buf
    → IsOrdered buf
    → (b : List ℕ) × (compact buf ≡ some b)
      × IsValid b
      × (slot_count b ≡ length (live_records buf 0 (slot_count buf)))
      × ((k : ℕ)
          → k < slot_count b
          → record_at b k ≡ get_elem? (live_records buf 0 (slot_count buf)) (slot_count b - 1 - k))
unfolding Moves
compact-record_at buf v ordered =
    let (plan, y, planned, run, m) = run_all buf v ordered in
    let c = counted-compacted buf v plan y m in
    (
      compacted buf v plan y m,
      compact-moved buf v plan y m planned run,
      compacted-IsValid buf v plan y m,
      c ∙ sym (length-held y plan.2 plan.1 (live_records buf 0 (slot_count buf)) m.holds),
      λ k h. rw c (record_at-compacted buf v plan y m k (rw (← c) h)),
    )
