-- ===== src/Storage/Page/Valid.antt =====
-- src/storage/page.rs: the pages that the operations keep, and the records they hold, by the index
-- of the slot.
use rgraph.Prelude.{
  ℕ, ◌+◌, ◌*◌, ◌≤◌, ◌<◌, ◌≡◌, refl, inl, inr, true, false, Option, none, some, List, length, arith,
  leb, if◌then◌else◌, Bool-cases, le→leb,
}
use rgraph.Prelude.Slices.{slice}
use rgraph.Storage.Page.{
  Slot, is_deleted, slot_count, free_space_offset, slot, read, read_found, bytes_at,
}
use rgraph.Storage.Page.Layout.{IsSlot, slot_of, slot-slot_of}

-- The slots have 16-bit fields. The records end where the free space begins, which ends where the slot directory begins.
pub record IsValid (buf : List ℕ) : Type 0 where
  pub size : length buf ≡ 8192
  pub room : 64 + free_space_offset buf + slot_count buf * 4 ≤ 8192
  pub words : (i : ℕ) → i < slot_count buf → IsSlot (slot_of i buf)
  pub live :
      (i : ℕ)
      → i < slot_count buf
      → is_deleted (slot_of i buf) ≡ false
      → (slot_of i buf).offset + (slot_of i buf).length ≤ free_space_offset buf

unfoldable pub bytes_of : Slot → List ℕ → List ℕ
bytes_of s buf = slice (64 + s.offset) s.length buf

unfoldable pub record_of : Slot → List ℕ → Option (List ℕ)
record_of s buf = if is_deleted s then none else some (bytes_of s buf)

-- What a page holds under an index
unfoldable pub record_at : List ℕ → ℕ → Option (List ℕ)
record_at buf i = if leb (slot_count buf) i then none else record_of (slot_of i buf) buf

module _ (buf : List ℕ) (v : IsValid buf) where
  pub directory_fits : slot_count buf * 4 ≤ 8192
  directory_fits = let r = v.room in omega arith

  pub slot-IsValid : (i : ℕ) → i < slot_count buf → slot buf i ≡ some (some (slot_of i buf))
  slot-IsValid i h = slot-slot_of buf i h directory_fits

  bytes_at-live :
      (i : ℕ)
      → i < slot_count buf
      → is_deleted (slot_of i buf) ≡ false
      → bytes_at (64 + (slot_of i buf).offset) (slot_of i buf).length buf
        ≡ some (bytes_of (slot_of i buf) buf)
  unfolding bytes_at bytes_of
  bytes_at-live i h live =
      let inside = v.live i h live in
      let r = v.room in
      let n = v.size in
      rw (le→leb (64 + (slot_of i buf).offset + (slot_of i buf).length) (length buf) (omega arith))
        refl

  read_found-slot_of :
      (i : ℕ)
      → i < slot_count buf
      → read_found buf (some (slot_of i buf)) ≡ some (record_of (slot_of i buf) buf)
  unfolding record_of
  read_found-slot_of i h = elim (Bool-cases (is_deleted (slot_of i buf))) [
    | inl dead ↦ rw dead refl
    | inr live ↦ rw (live, bytes_at-live i h live) refl
  ]

  slot_beyond : (i : ℕ) → leb (slot_count buf) i ≡ true → slot buf i ≡ some none
  unfolding slot
  slot_beyond i h = rw h refl

  -- On a valid page `read` does not panic, and answers what stands under the index.
  pub read-record_at : (i : ℕ) → read buf i ≡ some (record_at buf i)
  unfolding read record_at
  read-record_at i = elim (Bool-cases (leb (slot_count buf) i)) [
    | inl beyond ↦ rw (slot_beyond i beyond, beyond) refl
    | inr below ↦ rw (slot-IsValid i (ground arith), below) (read_found-slot_of i (ground arith))
  ]
