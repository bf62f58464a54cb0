-- ===== src/Storage/Page/Layout.antt =====
-- src/storage/page.rs: where the fields of the header and the slots of a page stand, and which of
-- them a write to its bytes changes.
use rgraph.Prelude.{
  le→leb, ℕ, ◌+◌, ◌-◌, ◌*◌, ◌≤◌, ◌<◌, ◌≡◌, refl, ap, ◌∙◌, ◌⊎◌, inl, inr, false, some, List, length,
  take, arith, take_front, drop_front, leb, ltb, ltb→lt, ◌≢◌, Bool-cases, ltb, ltb→lt, ◌≢◌,
  Bool-cases,
}
use rgraph.Prelude.Bytes.{le_bytes, from_le_bytes, length-le_bytes, from_le_bytes-le_bytes}
use rgraph.Prelude.Slices.{slice, write_at, slice-write_at, slice_apart}
use rgraph.Storage.Page.{Slot, slot_bytes, slot_from, slot_at, slot_count, slot, slot_place}

-- Where the slot `i` stands: slot 0 is at the end of the page.
abbrev pub place_of : ℕ → ℕ
place_of i = 8192 - (i + 1) * 4

abbrev pub slot_of : ℕ → List ℕ → Slot
slot_of i buf = slot_at (place_of i) buf

take-le_bytes : (v : ℕ) → take 2 (le_bytes 2 v) ≡ le_bytes 2 v
unfolding le_bytes
take-le_bytes v = refl

slice-field :
    (off v : ℕ) (buf : List ℕ)
    → off + 2 ≤ length buf
    → slice off 2 (write_at off (le_bytes 2 v) buf) ≡ le_bytes 2 v
unfolding le_bytes
slice-field off v buf h = slice-write_at off (le_bytes 2 v) buf h

unfoldable pub IsSlot : Slot → Type 0
IsSlot s = (s.offset < 65536) × (s.length < 65536)

pub slot_from-slot_bytes : (s : Slot) → IsSlot s → slot_from (slot_bytes s) ≡ s
unfolding slot_from slot_bytes IsSlot
slot_from-slot_bytes s (ho, hl) =
    rw
      (
        take_front 2 (le_bytes 2 s.offset) (le_bytes 2 s.length) (length-le_bytes 2 s.offset),
        drop_front 2 (le_bytes 2 s.offset) (le_bytes 2 s.length) (length-le_bytes 2 s.offset),
        take-le_bytes s.length,
        from_le_bytes-le_bytes 2 s.offset ho,
        from_le_bytes-le_bytes 2 s.length hl,
      )
      refl

pub field-write :
    (off v : ℕ) (buf : List ℕ)
    → v < 65536
    → off + 2 ≤ length buf
    → from_le_bytes (slice off 2 (write_at off (le_bytes 2 v) buf)) ≡ v
field-write off v buf hv h = rw (slice-field off v buf h) (from_le_bytes-le_bytes 2 v hv)

-- The place of an index below the count
pub slot_place-count :
    (count i : ℕ)
    → i < count
    → count * 4 ≤ 8192
    → slot_place count (count - (i + 1)) ≡ some (place_of i)
unfolding slot_place
slot_place-count count i h fit =
    let e : 8192 - count * 4 + (count - (i + 1)) * 4 ≡ place_of i = omega arith in
    rw (le→leb (count * 4) 8192 fit, e) refl

pub slot-slot_of :
    (buf : List ℕ) (i : ℕ)
    → i < slot_count buf
    → slot_count buf * 4 ≤ 8192
    → slot buf i ≡ some (some (slot_of i buf))
unfolding slot
slot-slot_of buf i h fit =
    let in_range : leb (slot_count buf) i ≡ false = ground arith in
    rw (in_range, slot_place-count (slot_count buf) i h fit) refl

pub slot_of-write :
    (off i : ℕ) (ys buf : List ℕ)
    → (place_of i + 4 ≤ off) ⊎ (off + length ys ≤ place_of i)
    → slot_of i (write_at off ys buf) ≡ slot_of i buf
unfolding slot_at
slot_of-write off i ys buf h = rw (slice_apart (place_of i) 4 off ys buf h) refl

slice-slot_bytes :
    (off : ℕ) (s : Slot) (buf : List ℕ)
    → off + 4 ≤ length buf
    → slice off 4 (write_at off (slot_bytes s) buf) ≡ slot_bytes s
unfolding slot_bytes le_bytes
slice-slot_bytes off s buf h = slice-write_at off (slot_bytes s) buf h

pub slot_of-slot_bytes :
    (i : ℕ) (s : Slot) (buf : List ℕ)
    → IsSlot s
    → place_of i + 4 ≤ length buf
    → slot_of i (write_at (place_of i) (slot_bytes s) buf) ≡ s
unfolding slot_at
slot_of-slot_bytes i s buf hs h =
    ap slot_from (slice-slot_bytes (place_of i) s buf h) ∙ slot_from-slot_bytes s hs

not_ltb : (i j : ℕ) → ltb i j ≡ false → j ≢ i → j < i
not_ltb i j h ne = ground arith

-- Two slots of one directory do not overlap.
pub places_apart :
    (count i j : ℕ)
    → i < count
    → j < count
    → count * 4 ≤ 8192
    → j ≢ i
    → (place_of j + 4 ≤ place_of i) ⊎ (place_of i + 4 ≤ place_of j)
places_apart count i j hi hj fit ne = elim (Bool-cases (ltb i j)) [
  | inl after ↦ inl (let below = ltb→lt i j after in omega arith)
  | inr before ↦ inr (let above = not_ltb i j before ne in omega arith)
]

slot_from-offset : (s : Slot) → s.offset < 65536 → (slot_from (slot_bytes s)).offset ≡ s.offset
unfolding slot_from slot_bytes
slot_from-offset s h =
    rw (take_front 2 (le_bytes 2 s.offset) (le_bytes 2 s.length) (length-le_bytes 2 s.offset))
      (from_le_bytes-le_bytes 2 s.offset h)

pub offset-slot_bytes :
    (i : ℕ) (s : Slot) (buf : List ℕ)
    → s.offset < 65536
    → place_of i + 4 ≤ length buf
    → (slot_of i (write_at (place_of i) (slot_bytes s) buf)).offset ≡ s.offset
unfolding slot_at
offset-slot_bytes i s buf hs h =
    ap (λ bytes. (slot_from bytes).offset) (slice-slot_bytes (place_of i) s buf h)
    ∙ slot_from-offset s hs

pub length-slot_bytes : (s : Slot) → length (slot_bytes s) ≡ 4
unfolding slot_bytes le_bytes
length-slot_bytes s = refl
