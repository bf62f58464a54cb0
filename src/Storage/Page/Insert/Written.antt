-- ===== src/Storage/Page/Insert/Written.antt =====
-- src/storage/page.rs: the bytes of a record at the free offset of a page.
use rgraph.Prelude.{
  ℕ, ◌+◌, ◌*◌, ◌≤◌, ◌<◌, ◌≡◌, refl, ap, ◌∙◌, inl, inr, some, List, length, arith, le→leb,
}
use rgraph.Prelude.Bytes.{length-le_bytes, le_bytes, from_le_bytes}
use rgraph.Prelude.Slices.{slice, write_at, slice-write_at, slice_apart, length-write_at}
use rgraph.Storage.Page.{slot_count, free_space_offset, copy_from_slice}
use rgraph.Storage.Page.Layout.{slot_of, slot_of-write}
use rgraph.Storage.Page.Valid.{IsValid}

pub length-le_bytes_2 : (v : ℕ) → length (le_bytes 2 v) ≡ 2
length-le_bytes_2 v = length-le_bytes 2 v

pub copy_from_slice-fits :
    (off : ℕ) (bytes buf : List ℕ)
    → off + length bytes ≤ length buf
    → copy_from_slice off bytes buf ≡ some (write_at off bytes buf)
unfolding copy_from_slice
copy_from_slice-fits off bytes buf h = rw (le→leb (off + length bytes) (length buf) h) refl

pub slot_count_of : (b c : List ℕ) → slice 34 2 b ≡ slice 34 2 c → slot_count b ≡ slot_count c
unfolding slot_count
slot_count_of b c e = ap from_le_bytes e

abbrev pub with_bytes : List ℕ → List ℕ → List ℕ
with_bytes buf rec = write_at (64 + free_space_offset buf) rec buf

module _ (buf rec : List ℕ) (v : IsValid buf)
    (fit : 64 + free_space_offset buf + length rec + slot_count buf * 4 ≤ 8192) where
  pub size-with_bytes : length (with_bytes buf rec) ≡ 8192
  size-with_bytes = length-write_at (64 + free_space_offset buf) rec buf ∙ v.size

  pub copy_bytes : copy_from_slice (64 + free_space_offset buf) rec buf ≡ some (with_bytes buf rec)
  copy_bytes =
      let n = v.size in copy_from_slice-fits (64 + free_space_offset buf) rec buf (omega arith)

  pub slot_count-with_bytes : slot_count (with_bytes buf rec) ≡ slot_count buf
  slot_count-with_bytes =
      slot_count_of (with_bytes buf rec) buf
        (slice_apart 34 2 (64 + free_space_offset buf) rec buf (inl (omega arith)))

  pub kept-with_bytes :
      (j : ℕ) → j < slot_count buf → slot_of j (with_bytes buf rec) ≡ slot_of j buf
  kept-with_bytes j h = slot_of-write (64 + free_space_offset buf) j rec buf (inr (omega arith))

  pub written-with_bytes :
      slice (64 + free_space_offset buf) (length rec) (with_bytes buf rec) ≡ rec
  written-with_bytes =
      let n = v.size in slice-write_at (64 + free_space_offset buf) rec buf (omega arith)

  pub front-with_bytes :
      (off n : ℕ)
      → off + n ≤ 64 + free_space_offset buf
      → slice off n (with_bytes buf rec) ≡ slice off n buf
  front-with_bytes off n high = slice_apart off n (64 + free_space_offset buf) rec buf (inl high)
