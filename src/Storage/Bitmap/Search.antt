-- ===== src/Storage/Bitmap/Search.antt =====
-- src/storage/bitmap.rs: the search for a free page.
use rgraph.Prelude.{
  ◌*◌, ◌^◌, lt→ltb, ℕ, zero, suc, ◌+◌, ◌-◌, ◌/◌, ◌%◌, ◌≤◌, ◌<◌, ◌≡◌, refl, ap, ◌∙◌, inl, inr, true,
  false, Option, none, some, arith, Bool-cases, ◌==◌, ==→eq,
}
use rgraph.Storage.Bitmap.{
  BitmapPage, checked_u64, data_byte, test_bit, is_set, find_from, find_first_free,
}
use rgraph.Storage.Bitmap.Laws.{base_page_id-first_id, first_id, IsBitmap, byte_there, is_set-byte}

-- The pages from the local index `lo` up to `hi` are allocated.
abbrev pub AllSet : BitmapPage → ℕ → ℕ → Type 0
AllSet p lo hi = (k : ℕ) → lo ≤ k → k < hi → is_set p (first_id p + k) ≡ some true

-- The answer of a search from the local index `lo` on: the first free page, or none if all of them
-- are allocated.
unfoldable pub IsFirst : BitmapPage → ℕ → Option ℕ → Type 0
IsFirst p lo none = AllSet p lo 65024
IsFirst p lo (some id) =
    (i : ℕ) × (id ≡ first_id p + i)
    × (lo ≤ i)
    × (i < 65024)
    × (is_set p id ≡ some false)
    × AllSet p lo i

module _ (p : BitmapPage) (v : IsBitmap p) (ids : first_id p + 65024 ≤ 2 ^ 64) where
  checked_u64-id : (i : ℕ) → i < 65024 → checked_u64 (first_id p + i) ≡ some (first_id p + i)
  unfolding checked_u64
  checked_u64-id i h = rw (lt→ltb (first_id p + i) (2 ^ 64) (omega arith)) refl

  is_set-index :
      (i b : ℕ)
      → i < 65024
      → data_byte p.page (i / 8) ≡ some b
      → is_set p (first_id p + i) ≡ some (test_bit (i % 8) b)
  is_set-index i b h e =
      let back : first_id p + i - first_id p ≡ i = omega arith in
      is_set-byte p (first_id p + i) b (omega arith) (omega arith, omega arith) (rw back e)
      ∙ ap (λ k. some (test_bit (k % 8) b)) back

  one_more :
      (i hi : ℕ) → is_set p (first_id p + i) ≡ some true → AllSet p (i + 1) hi → AllSet p i hi
  one_more i hi set rest k low h = elim (Bool-cases (k == i)) [
    | inl same ↦ rw (==→eq k i same) set
    | inr later ↦ rest k (ground arith) h
  ]

  later-IsFirst :
      (i : ℕ) (found : Option ℕ)
      → is_set p (first_id p + i) ≡ some true
      → IsFirst p (i + 1) found
      → IsFirst p i found
  unfolding IsFirst
  later-IsFirst i none set f = one_more i 65024 set f
  later-IsFirst i (some id) set (k, e, low, high, free, before) =
      (k, e, omega arith, high, free, one_more i k set before)

  here-IsFirst :
      (i : ℕ)
      → i < 65024
      → is_set p (first_id p + i) ≡ some false
      → IsFirst p i (some (first_id p + i))
  unfolding IsFirst
  here-IsFirst i h free = (i, refl, omega arith, h, free, λ k low below. absurd (omega arith))

  find_from-IsFirst :
      (rounds i : ℕ)
      → i + rounds ≡ 65024
      → (found : Option ℕ) × (find_from p.page (first_id p) i rounds ≡ some found)
        × IsFirst p i found
  unfolding find_from IsFirst
  find_from-IsFirst zero i all = (none, refl, λ k low h. absurd (omega arith))
  find_from-IsFirst (suc rounds) i all =
      let (found, later, first) = find_from-IsFirst rounds (i + 1) (omega arith) in
      let (b, e) = byte_there p i v (omega arith) in
      elim (Bool-cases (test_bit (i % 8) b)) [
        | inl set ↦ (
          found,
          rw (e, set, later) refl,
          later-IsFirst i found (is_set-index i b (omega arith) e ∙ ap some set) first,
        )
        | inr clear ↦ (
          some (first_id p + i),
          rw (e, clear, checked_u64-id i (omega arith)) refl,
          here-IsFirst i (omega arith) (is_set-index i b (omega arith) e ∙ ap some clear),
        )
      ]

-- `find_first_free` does not panic on a bitmap whose ids all have 64 bits, from any start within it:
-- it answers the first page from there on that is free, or none if all of them are allocated.
pub find_first_free-IsFirst :
    (p : BitmapPage) (start : ℕ)
    → IsBitmap p
    → p.bitmap_slot * 65024 + 65024 ≤ 2 ^ 64
    → start ≤ 65024
    → (found : Option ℕ) × (find_first_free p start ≡ some found) × IsFirst p start found
unfolding find_first_free
find_first_free-IsFirst p start v ids h =
    rw (base_page_id-first_id p (omega arith))
      (find_from-IsFirst p v ids (65024 - start) start (omega arith))
