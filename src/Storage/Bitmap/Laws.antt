-- ===== src/Storage/Bitmap/Laws.antt =====
-- src/storage/bitmap.rs: a change of one bit, and what the other ids see of it.
use rgraph.Prelude.{
  ◌*◌, ◌^◌, lt→ltb, ℕ, ◌+◌, ◌-◌, ◌/◌, ◌%◌, ◌≤◌, ◌<◌, ◌≡◌, ◌≢◌, refl, ap, sym, ◌∙◌, inl, inr, Bool,
  true, false, ◌&&◌, some, [], ◌∷◌, length, get_elem?, arith, leb, ltb, ◌==◌, if◌then◌else◌,
  Bool-cases, ==→eq, ==-ne, le→leb, ==_refl,
}
use rgraph.Prelude.Slices.{write_at, length-write_at, get-write_at, get_inside}
use rgraph.Storage.Bitmap.{
  checked_u64, BitmapPage, base_page_id, local_index, data_byte, test_bit, set_bit, clear_bit,
  is_set, change_byte, allocate, free,
}
use rgraph.Storage.Bitmap.Bit.{test_bit-set_bit, test_bit-clear_bit, set_bit-lt, clear_bit-lt}

-- A page of bytes
pub record IsBitmap (p : BitmapPage) : Type 0 where
  pub size : length p.page ≡ 8192
  pub bytes : (i b : ℕ) → get_elem? p.page i ≡ some b → b < 256

-- The first id of the bitmap
abbrev pub first_id : BitmapPage → ℕ
first_id p = p.bitmap_slot * 65024

abbrev pub IsWithin : BitmapPage → ℕ → Type 0
IsWithin p id = (first_id p ≤ id) × (id - first_id p < 65024)

-- A 64-bit id of the bitmap
abbrev pub IsInside : BitmapPage → ℕ → Type 0
IsInside p id = IsWithin p id × (id < 2 ^ 64)

in_range : BitmapPage → ℕ → Bool
in_range p id = leb (first_id p) id && ltb (id - first_id p) 65024

in_range-IsWithin : (p : BitmapPage) (id : ℕ) → in_range p id ≡ true → IsWithin p id
unfolding in_range
in_range-IsWithin p id h = (ground (arith, h), ground (arith, h))

pub base_page_id-first_id :
    (p : BitmapPage) → first_id p < 2 ^ 64 → base_page_id p ≡ some (first_id p)
unfolding base_page_id checked_u64
base_page_id-first_id p h = rw (lt→ltb (first_id p) (2 ^ 64) h) refl

local_index-IsWithin :
    (p : BitmapPage) (id : ℕ)
    → first_id p < 2 ^ 64
    → IsWithin p id
    → local_index p id ≡ some (id - first_id p)
unfolding local_index
local_index-IsWithin p id known (low, high) =
    rw
      (
        base_page_id-first_id p known,
        le→leb (first_id p) id low,
        lt→ltb (id - first_id p) 65024 high,
      )
      refl

-- The byte of a local index
pub byte_there :
    (p : BitmapPage) (i : ℕ)
    → IsBitmap p
    → i < 65024
    → (b : ℕ) × (data_byte p.page (i / 8) ≡ some b)
byte_there p i v h = let n = v.size in get_inside p.page (64 + i / 8) (omega arith)

pub is_set-byte :
    (p : BitmapPage) (id b : ℕ)
    → first_id p < 2 ^ 64
    → IsWithin p id
    → data_byte p.page ((id - first_id p) / 8) ≡ some b
    → is_set p id ≡ some (test_bit ((id - first_id p) % 8) b)
unfolding is_set
is_set-byte p id b known within e = rw (local_index-IsWithin p id known within, e) refl

module _ (change : ℕ → ℕ → ℕ) (value : Bool)
    (sets : (b j k : ℕ)
      → b < 256
      → j < 8
      → k < 8
      → test_bit k (change j b) ≡ (if k == j then value else test_bit k b))
    (bound : (b j : ℕ) → b < 256 → j < 8 → change j b < 256) (p : BitmapPage) (id : ℕ)
    (v : IsBitmap p) (inside : IsInside p id) where
  abbrev index_of : ℕ
  index_of = id - first_id p

  known : first_id p < 2 ^ 64
  known = let low = inside.0.0 in let small = inside.1 in omega arith

  there : (b : ℕ) × (data_byte p.page (index_of / 8) ≡ some b)
  there = byte_there p index_of v inside.0.1

  abbrev changed : BitmapPage
  changed = record p {
    page = write_at (64 + index_of / 8) (change (index_of % 8) there.0 ∷ []) p.page;
  }

  change_byte-IsInside : change_byte change p id ≡ some changed
  unfolding change_byte
  change_byte-IsInside = rw (local_index-IsWithin p id known inside.0, there.1) refl

  get-changed :
      (i : ℕ)
      → get_elem? changed.page i ≡ (
          if i == 64 + index_of / 8
          then some (change (index_of % 8) there.0)
          else get_elem? p.page i)
  get-changed i =
      let n = v.size in
      get-write_at (64 + index_of / 8) i (change (index_of % 8) there.0) p.page (omega arith)

  get-changed_other :
      (i : ℕ) → (i == 64 + index_of / 8) ≡ false → get_elem? changed.page i ≡ get_elem? p.page i
  get-changed_other i e =
      get-changed i
      ∙ ap (λ t. if t then some (change (index_of % 8) there.0) else get_elem? p.page i) e

  get-changed_here :
      get_elem? changed.page (64 + index_of / 8) ≡ some (change (index_of % 8) there.0)
  get-changed_here =
      get-changed (64 + index_of / 8)
      ∙ ap
          (λ t.
            if t
            then some (change (index_of % 8) there.0)
            else get_elem? p.page (64 + index_of / 8))
          (==_refl (64 + index_of / 8))

  bytes_of_changed : (i b : ℕ) → get_elem? changed.page i ≡ some b → b < 256
  bytes_of_changed i b e = elim (Bool-cases (i == 64 + index_of / 8)) [
    | inl here ↦
        let c = get-changed i in
        let new =
          bound there.0 (index_of % 8) (v.bytes (64 + index_of / 8) there.0 there.1)
            (omega arith) in
        grind (arith, c, e, here, new)
    | inr elsewhere ↦ v.bytes i b (sym (get-changed_other i elsewhere) ∙ e)
  ]

  changed-IsBitmap : IsBitmap changed
  changed-IsBitmap = record {
    size = length-write_at (64 + index_of / 8) (change (index_of % 8) there.0 ∷ []) p.page ∙ v.size;
    bytes = bytes_of_changed;
  }

  module _ (other : ℕ) (h : IsWithin p other) where
    abbrev other_index : ℕ
    other_index = other - first_id p

    changed-IsWithin : IsWithin changed other
    changed-IsWithin = h

    is_set-changed :
        (b : ℕ)
        → data_byte changed.page (other_index / 8) ≡ some b
        → is_set changed other ≡ some (test_bit (other_index % 8) b)
    is_set-changed b e = is_set-byte changed other b known changed-IsWithin e

    remainder_same :
        other_index / 8 ≡ index_of / 8
        → (other == id) ≡ true
        → (other_index % 8 == index_of % 8) ≡ true
    remainder_same e same = let i = ==→eq other id same in ground arith

    remainder_apart :
        other_index / 8 ≡ index_of / 8
        → (other == id) ≡ false
        → (other_index % 8 == index_of % 8) ≡ false
    remainder_apart e apart =
        let ne = ==-ne other id apart in let low = inside.0.0 in let low2 = h.0 in ground arith

    same_byte :
        other_index / 8 ≡ index_of / 8
        → is_set changed other ≡ (if other == id then some value else is_set p other)
    same_byte e =
        let law =
          sets there.0 (index_of % 8) (other_index % 8)
            (v.bytes (64 + index_of / 8) there.0 there.1) (omega arith) (omega arith) in
        let new = is_set-changed (change (index_of % 8) there.0) (rw e get-changed_here) in
        let old = is_set-byte p other there.0 known h (rw e there.1) in
        elim (Bool-cases (other == id)) [
          | inl same ↦ rw (same, new, law, remainder_same e same) refl
          | inr apart ↦ rw (apart, new, law, remainder_apart e apart, old) refl
        ]

    other_byte :
        other_index / 8 ≢ index_of / 8
        → is_set changed other ≡ (if other == id then some value else is_set p other)
    other_byte ne =
        let (b, e) = byte_there p other_index v h.1 in
        let place : (64 + other_index / 8 == 64 + index_of / 8) ≡ false = ground arith in
        let apart : (other == id) ≡ false = ground arith in
        rw
          (
            apart,
            is_set-changed b (get-changed_other (64 + other_index / 8) place ∙ e),
            is_set-byte p other b known h e,
          )
          refl

  is_set-inside :
      (other : ℕ)
      → IsWithin p other
      → is_set changed other ≡ (if other == id then some value else is_set p other)
  is_set-inside other h = elim (Bool-cases ((other - first_id p) / 8 == index_of / 8)) [
    | inl same ↦ same_byte other h (==→eq ((other - first_id p) / 8) (index_of / 8) same)
    | inr apart ↦ other_byte other h (==-ne ((other - first_id p) / 8) (index_of / 8) apart)
  ]

  not_inside : (other : ℕ) → in_range p other ≡ false → (other == id) ≡ false
  unfolding in_range
  not_inside other out = let low = inside.0.0 in let high = inside.0.1 in ground (arith, out)

  -- An id of another bitmap
  is_set-outside :
      (other : ℕ)
      → in_range p other ≡ false
      → is_set changed other ≡ (if other == id then some value else is_set p other)
  unfolding is_set local_index in_range
  is_set-outside other out =
      let ne : (other == id) ≡ false = not_inside other out in
      rw (ne, base_page_id-first_id p known, base_page_id-first_id changed known, out) refl

  pub changes :
      (p' : BitmapPage) × (change_byte change p id ≡ some p')
      × IsBitmap p'
      × ((other : ℕ) → is_set p' other ≡ (if other == id then some value else is_set p other))
  changes = (
    changed,
    change_byte-IsInside,
    changed-IsBitmap,
    λ other. elim (Bool-cases (in_range p other)) [
      | inl within ↦ is_set-inside other (in_range-IsWithin p other within)
      | inr out ↦ is_set-outside other out
    ],
  )

-- `allocate` of a 64-bit id of this bitmap does not panic: the id is then allocated, and every other one
-- is as it was. The bitmap is a page of bytes, and stays one.
pub is_set-allocate :
    (p : BitmapPage) (id : ℕ)
    → IsBitmap p
    → IsInside p id
    → (p' : BitmapPage) × (allocate p id ≡ some p')
      × IsBitmap p'
      × ((other : ℕ) → is_set p' other ≡ (if other == id then some true else is_set p other))
unfolding allocate
is_set-allocate p id v inside = changes set_bit true test_bit-set_bit set_bit-lt p id v inside

-- `free` of a 64-bit id of this bitmap does not panic: the id is then free, and every other one is as it
-- was. The bitmap is a page of bytes, and stays one.
pub is_set-free :
    (p : BitmapPage) (id : ℕ)
    → IsBitmap p
    → IsInside p id
    → (p' : BitmapPage) × (free p id ≡ some p')
      × IsBitmap p'
      × ((other : ℕ) → is_set p' other ≡ (if other == id then some false else is_set p other))
unfolding free
is_set-free p id v inside = changes clear_bit false test_bit-clear_bit clear_bit-lt p id v inside
