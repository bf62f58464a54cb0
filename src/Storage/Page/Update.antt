-- ===== src/Storage/Page/Update.antt =====
-- src/storage/page.rs: a page that differs from a valid one in the record of one slot.
use rgraph.Prelude.{
  ℕ, ◌+◌, ◌*◌, ◌≤◌, ◌<◌, ◌≡◌, ◌≢◌, refl, ap, inl, inr, false, Option, some, List, length, arith,
  leb, ◌==◌, if◌then◌else◌, Bool-cases, ==→eq, ==-ne, leb→le, le→leb, lt→not_leb, not_leb,
}
use rgraph.Storage.Page.{Slot, is_deleted, slot_count, free_space_offset}
use rgraph.Storage.Page.Layout.{IsSlot, slot_of}
use rgraph.Storage.Page.Valid.{IsValid, record_at, record_of, bytes_of}

-- The page `b` holds `value` under the index `i`, and else what `buf` holds.
pub record IsUpdate (buf b : List ℕ) (i : ℕ) (value : Option (List ℕ)) : Type 0 where
  pub size : length b ≡ 8192
  pub room : 64 + free_space_offset b + slot_count b * 4 ≤ 8192
  pub grows : free_space_offset buf ≤ free_space_offset b
  pub counted : slot_count buf ≤ slot_count b
  pub index : i < slot_count b
  pub others : (j : ℕ) → j < slot_count b → j ≢ i → j < slot_count buf
  pub kept : (j : ℕ) → j < slot_count buf → j ≢ i → slot_of j b ≡ slot_of j buf
  pub bytes :
      (s : Slot) → s.offset + s.length ≤ free_space_offset buf → bytes_of s b ≡ bytes_of s buf
  pub here : record_of (slot_of i b) b ≡ value
  pub word : IsSlot (slot_of i b)
  pub inside :
      is_deleted (slot_of i b) ≡ false
      → (slot_of i b).offset + (slot_of i b).length ≤ free_space_offset b

unfoldable pub set_record : (ℕ → Option (List ℕ)) → ℕ → Option (List ℕ) → ℕ → Option (List ℕ)
set_record records i value j = if j == i then value else records j

module _ (buf b : List ℕ) (i : ℕ) (value : Option (List ℕ)) (v : IsValid buf)
    (u : IsUpdate buf b i value) where
  inside_of :
      (j : ℕ)
      → j < slot_count b
      → is_deleted (slot_of j b) ≡ false
      → (slot_of j b).offset + (slot_of j b).length ≤ free_space_offset b
  inside_of j h live = elim (Bool-cases (j == i)) [
    | inl same ↦ let e = ==→eq j i same in rw e (u.inside (rw (← e) live))
    | inr other ↦
        let ne = ==-ne j i other in
        let old = u.others j h ne in
        let k = u.kept j old ne in
        let fits = v.live j old (rw (← k) live) in let g = u.grows in rw k (omega arith)
  ]

  words_of : (j : ℕ) → j < slot_count b → IsSlot (slot_of j b)
  words_of j h = elim (Bool-cases (j == i)) [
    | inl same ↦ rw (==→eq j i same) u.word
    | inr other ↦
        let ne = ==-ne j i other in
        let old = u.others j h ne in rw (u.kept j old ne) (v.words j old)
  ]

  pub update-IsValid : IsValid b
  update-IsValid = record { size = u.size; room = u.room; words = words_of; live = inside_of }

  record_of-kept :
      (s : Slot)
      → (is_deleted s ≡ false → s.offset + s.length ≤ free_space_offset buf)
      → record_of s b ≡ record_of s buf
  unfolding record_of
  record_of-kept s fits = elim (Bool-cases (is_deleted s)) [
    | inl dead ↦ rw dead refl
    | inr live ↦ rw live (ap some (u.bytes s (fits live)))
  ]

  record_at-other : (j : ℕ) → j ≢ i → record_at b j ≡ record_at buf j
  unfolding record_at
  record_at-other j ne = elim (Bool-cases (leb (slot_count b) j)) [
    | inl beyond ↦
        let c = u.counted in
        let past = leb→le (slot_count b) j beyond in
        rw (beyond, le→leb (slot_count buf) j (omega arith)) refl
    | inr below ↦
        let old = u.others j (not_leb (slot_count b) j below) ne in
        rw (below, lt→not_leb (slot_count buf) j old, u.kept j old ne)
          (record_of-kept (slot_of j buf) (v.live j old))
  ]

  record_at-here : record_at b i ≡ value
  unfolding record_at
  record_at-here = rw (lt→not_leb (slot_count b) i u.index) u.here

  pub record_at-update : (j : ℕ) → record_at b j ≡ set_record (record_at buf) i value j
  unfolding set_record
  record_at-update j = elim (Bool-cases (j == i)) [
    | inl same ↦ rw (same, ==→eq j i same) record_at-here
    | inr other ↦ rw other (record_at-other j (==-ne j i other))
  ]
