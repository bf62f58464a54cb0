-- ===== src/Storage/Page/Insert/Shift.antt =====
-- src/storage/page.rs: `insert_at` on a valid page with room for the record.
use rgraph.Prelude.{
  ℕ, zero, suc, ◌+◌, ◌-◌, ◌*◌, ◌≤◌, ◌<◌, ◌≡◌, refl, ap, sym, ◌∙◌, ◌⊎◌, inl, inr, false, Option,
  some, List, length, get_elem?, arith, ltb, leb, ◌==◌, if◌then◌else◌, Bool-cases, lt→ltb, ltb→lt,
  le→leb, lt→not_leb, not_leb, leb→le, ==→eq, ==_refl,
}
use rgraph.Prelude.Slices.{slice}
use rgraph.Storage.Page.{from_le_bytes, Slot, is_deleted, slot_count, free_space_offset}
use rgraph.Storage.Page.Insert.{new_slot, insert_slot}
use rgraph.Storage.Page.Insert.Written.{with_bytes, written-with_bytes, front-with_bytes}
use rgraph.Storage.Page.Insert.Counted.{
  fits, with_end, slot_count-with_end, free-with_end, slice-with_end, kept-with_end,
}
use rgraph.Storage.Page.Insert.Filled.{record_of-new_slot, new_slot-IsSlot}
use rgraph.Storage.Page.Insert.Directory.{
  slots_from, length-slots_from, get-slots_from, length-insert_slot, get_before, get_there,
  get_behind, IsWritten,
}
use rgraph.Storage.Page.Layout.{IsSlot, slot_of}
use rgraph.Storage.Page.Valid.{IsValid, record_at, record_of, bytes_of}

-- The sequence of the records with one more of them at the position `pos`
unfoldable pub shift_records : (ℕ → Option (List ℕ)) → ℕ → Option (List ℕ) → ℕ → Option (List ℕ)
shift_records records pos value j =
    if ltb j pos then records j else if j == pos then value else records (j - 1)

position : (j pos : ℕ) → (j < pos) ⊎ ((j ≡ pos) ⊎ (pos < j))
position j pos = elim (Bool-cases (ltb j pos)) [
  | inl before ↦ inl (ltb→lt j pos before)
  | inr later ↦ elim (Bool-cases (j == pos)) [
    | inl same ↦ inr (inl (==→eq j pos same))
    | inr other ↦ inr (inr (ground arith))
  ]
]

ltb_irrefl : (a : ℕ) → ltb a a ≡ false
ltb_irrefl a = ground arith

not_before : (j pos : ℕ) → pos < j → ltb j pos ≡ false
not_before j pos h = ground arith

not_same : (j pos : ℕ) → pos < j → (j == pos) ≡ false
not_same j pos h = ground arith

slot_of_zero : (k : ℕ) (b : List ℕ) → slot_of (0 + k) b ≡ slot_of k b
slot_of_zero k b = let e : 0 + k ≡ k = omega arith in ap (λ i. slot_of i b) e

module _ (buf rec : List ℕ) (v : IsValid buf)
    (fit : 64 + free_space_offset buf + length rec + (slot_count buf + 1) * 4 ≤ 8192) (pos : ℕ)
    (hp : pos ≤ slot_count buf) where
  abbrev pub old_slots : List Slot
  old_slots = slots_from (with_end buf rec) 0 (slot_count buf)

  abbrev pub all_slots : List Slot
  all_slots = insert_slot pos (new_slot (free_space_offset buf) rec) old_slots

  pub length-all_slots : length all_slots ≡ slot_count buf + 1
  length-all_slots =
      let n = length-slots_from (with_end buf rec) 0 (slot_count buf) in
      let m =
        length-insert_slot pos (new_slot (free_space_offset buf) rec) old_slots (omega arith) in
      omega arith

  old_slot : (k : ℕ) → k < slot_count buf → get_elem? old_slots k ≡ some (slot_of k buf)
  old_slot k h =
      get-slots_from (with_end buf rec) 0 (slot_count buf) k h
      ∙ ap some (slot_of_zero k (with_end buf rec) ∙ kept-with_end buf rec v fit k h)

  module _ (b : List ℕ) (w : IsWritten (slot_count buf + 1) 0 all_slots (with_end buf rec) b) where
    slot_before : (k : ℕ) → k < pos → slot_of k b ≡ slot_of k buf
    slot_before k h =
        let n = length-slots_from (with_end buf rec) 0 (slot_count buf) in
        sym (slot_of_zero k b)
        ∙ w.slots_at k (slot_of k buf) (
            get_before pos k (new_slot (free_space_offset buf) rec) old_slots (omega arith) h
            ∙ old_slot k (omega arith))

    slot_there : slot_of pos b ≡ new_slot (free_space_offset buf) rec
    slot_there =
        let n = length-slots_from (with_end buf rec) 0 (slot_count buf) in
        sym (slot_of_zero pos b)
        ∙ w.slots_at pos (new_slot (free_space_offset buf) rec)
            (get_there pos (new_slot (free_space_offset buf) rec) old_slots (omega arith))

    slot_behind : (k : ℕ) → pos ≤ k → k < slot_count buf → slot_of (suc k) b ≡ slot_of k buf
    slot_behind k low h =
        let n = length-slots_from (with_end buf rec) 0 (slot_count buf) in
        sym (slot_of_zero (suc k) b)
        ∙ w.slots_at (suc k) (slot_of k buf) (
            get_behind pos k (new_slot (free_space_offset buf) rec) old_slots (omega arith) low
            ∙ old_slot k h)

    slot_after : (j : ℕ) → pos < j → j ≤ slot_count buf → slot_of j b ≡ slot_of (j - 1) buf
    slot_after zero low h = absurd (omega arith)
    slot_after (suc k) low h =
        let e : suc k - 1 ≡ k = omega arith in rw e (slot_behind k (omega arith) (omega arith))

    free-shifted : free_space_offset b ≡ free_space_offset buf + length rec
    unfolding free_space_offset
    free-shifted = ap from_le_bytes (w.front 32 2 (omega arith)) ∙ free-with_end buf rec v fit

    counted-shifted : slot_count b ≡ slot_count buf + 1
    unfolding slot_count
    counted-shifted =
        ap from_le_bytes (w.front 34 2 (omega arith)) ∙ slot_count-with_end buf rec v fit

    slice-shifted :
        (off n : ℕ)
        → 64 ≤ off
        → off + n ≤ 64 + free_space_offset buf + length rec
        → slice off n b ≡ slice off n (with_bytes buf rec)
    slice-shifted off n low high =
        w.front off n (omega arith) ∙ slice-with_end buf rec v fit off n low

    bytes_of-shifted :
        (s : Slot) → s.offset + s.length ≤ free_space_offset buf → bytes_of s b ≡ bytes_of s buf
    unfolding bytes_of
    bytes_of-shifted s inside =
        slice-shifted (64 + s.offset) s.length (omega arith) (omega arith)
        ∙ front-with_bytes buf rec v (fits buf rec v fit) (64 + s.offset) s.length (omega arith)

    record_of-shifted :
        (i : ℕ) → i < slot_count buf → record_of (slot_of i buf) b ≡ record_of (slot_of i buf) buf
    unfolding record_of
    record_of-shifted i h = elim (Bool-cases (is_deleted (slot_of i buf))) [
      | inl dead ↦ rw dead refl
      | inr live ↦ rw live (ap some (bytes_of-shifted (slot_of i buf) (v.live i h live)))
    ]

    record_of-new : record_of (new_slot (free_space_offset buf) rec) b ≡ some rec
    record_of-new = record_of-new_slot buf rec b (omega arith) (
        slice-shifted (64 + free_space_offset buf) (length rec) (omega arith) (omega arith)
        ∙ written-with_bytes buf rec v (fits buf rec v fit))

    -- A slot of the new directory is an old one or the new one.
    slot_cases :
        (P : Slot → Type 0)
        → P (new_slot (free_space_offset buf) rec)
        → ((i : ℕ) → i < slot_count buf → P (slot_of i buf))
        → (j : ℕ) → j < slot_count b
        → P (slot_of j b)
    slot_cases P here old j h =
        let c = counted-shifted in
        elim (position j pos) [
          | inl before ↦ rw (slot_before j before) (old j (omega arith))
          | inr (inl same) ↦ rw (same, slot_there) here
          | inr (inr behind) ↦ rw (slot_after j behind (omega arith)) (old (j - 1) (omega arith))
        ]

    inside_new :
        is_deleted (new_slot (free_space_offset buf) rec) ≡ false
        → (new_slot (free_space_offset buf) rec).offset
            + (new_slot (free_space_offset buf) rec).length
          ≤ free_space_offset b
    inside_new live = rw free-shifted (omega arith)

    inside_old :
        (i : ℕ)
        → i < slot_count buf
        → is_deleted (slot_of i buf) ≡ false
        → (slot_of i buf).offset + (slot_of i buf).length ≤ free_space_offset b
    inside_old i h live = let f = free-shifted in let old = v.live i h live in omega arith

    pub shifted-IsValid : IsValid b
    shifted-IsValid = record {
      size = w.size;
      room = rw (free-shifted, counted-shifted) (omega arith);
      words = slot_cases IsSlot (new_slot-IsSlot (free_space_offset buf) rec) v.words;
      live =
          slot_cases (λ s. is_deleted s ≡ false → s.offset + s.length ≤ free_space_offset b)
            inside_new inside_old;
    }

    record_at_slot : (j : ℕ) → j ≤ slot_count buf → record_at b j ≡ record_of (slot_of j b) b
    unfolding record_at
    record_at_slot j h =
        let c = counted-shifted in rw (lt→not_leb (slot_count b) j (omega arith)) refl

    record_at_old : (i : ℕ) → i < slot_count buf → record_of (slot_of i buf) b ≡ record_at buf i
    unfolding record_at
    record_at_old i h = rw (lt→not_leb (slot_count buf) i h) (record_of-shifted i h)

    record_at_beyond : (j : ℕ) → slot_count buf < j → record_at b j ≡ record_at buf (j - 1)
    unfolding record_at
    record_at_beyond j h =
        let c = counted-shifted in
        rw (le→leb (slot_count b) j (omega arith), le→leb (slot_count buf) (j - 1) (omega arith))
          refl

    record_at_behind : (j : ℕ) → pos < j → record_at b j ≡ record_at buf (j - 1)
    record_at_behind j h = elim (Bool-cases (leb j (slot_count buf))) [
      | inl below ↦
          let le = leb→le j (slot_count buf) below in
          record_at_slot j le
          ∙ ap (λ s. record_of s b) (slot_after j h le)
          ∙ record_at_old (j - 1) (omega arith)
      | inr beyond ↦ record_at_beyond j (not_leb j (slot_count buf) beyond)
    ]

    pub record_at-shifted : (j : ℕ) → record_at b j ≡ shift_records (record_at buf) pos (some rec) j
    unfolding shift_records
    record_at-shifted j = elim (position j pos) [
      | inl before ↦ rw (lt→ltb j pos before) (
          record_at_slot j (omega arith)
          ∙ ap (λ s. record_of s b) (slot_before j before)
          ∙ record_at_old j (omega arith))
      | inr (inl same) ↦
          rw (same, ltb_irrefl pos, ==_refl pos)
            (record_at_slot pos hp ∙ ap (λ s. record_of s b) slot_there ∙ record_of-new)
      | inr (inr behind) ↦
          let before = not_before j pos behind in
          let same = not_same j pos behind in rw (before, same) (record_at_behind j behind)
    ]
