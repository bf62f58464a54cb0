-- ===== src/Storage/Page/Insert/Filled.antt =====
-- src/storage/page.rs: the page after a record has been written at the free offset and a slot set to
-- it, however many slots there are now.
use rgraph.Prelude.{
  ℕ, ◌+◌, ◌*◌, ◌%◌, ◌^◌, ◌≤◌, ◌<◌, ◌≡◌, ◌≢◌, refl, false, some, List, length, arith, ◌==◌,
}
use rgraph.Prelude.Slices.{slice}
use rgraph.Storage.Page.{Slot, is_deleted, slot_count, free_space_offset}
use rgraph.Storage.Page.Insert.{new_slot}
use rgraph.Storage.Page.Layout.{IsSlot, slot_of}
use rgraph.Storage.Page.Valid.{record_of, bytes_of}
use rgraph.Storage.Page.Update.{IsUpdate}

pub record IsFilled (buf b : List ℕ) (i : ℕ) (rec : List ℕ) (count : ℕ) : Type 0 where
  pub size : length b ≡ 8192
  pub free : free_space_offset b ≡ free_space_offset buf + length rec
  pub counted : slot_count b ≡ count
  pub here : slot_of i b ≡ new_slot (free_space_offset buf) rec
  pub kept : (j : ℕ) → j < slot_count buf → j ≢ i → slot_of j b ≡ slot_of j buf
  pub written : slice (64 + free_space_offset buf) (length rec) b ≡ rec
  pub front :
      (off n : ℕ)
      → 64 ≤ off
      → off + n ≤ 64 + free_space_offset buf
      → slice off n b ≡ slice off n buf

pub new_slot-IsSlot : (free_offset : ℕ) (rec : List ℕ) → IsSlot (new_slot free_offset rec)
unfolding IsSlot
new_slot-IsSlot free_offset rec = (omega arith, omega arith)

-- The record that was written stands in the new slot.
pub record_of-new_slot :
    (buf rec b : List ℕ)
    → 64 + free_space_offset buf + length rec ≤ 8192
    → slice (64 + free_space_offset buf) (length rec) b ≡ rec
    → record_of (new_slot (free_space_offset buf) rec) b ≡ some rec
unfolding record_of bytes_of is_deleted
record_of-new_slot buf rec b fit written =
    let offset : free_space_offset buf % 2 ^ 16 ≡ free_space_offset buf = omega arith in
    let len : length rec % 2 ^ 16 ≡ length rec = omega arith in
    let live : (free_space_offset buf == 65535) ≡ false = ground arith in
    rw (offset, len, live, written) refl

module _ (buf b : List ℕ) (i : ℕ) (rec : List ℕ) (count : ℕ) (f : IsFilled buf b i rec count)
    (fit : 64 + free_space_offset buf + length rec + count * 4 ≤ 8192) where
  record_of-filled : record_of (slot_of i b) b ≡ some rec
  record_of-filled = rw f.here (record_of-new_slot buf rec b (omega arith) f.written)

  inside-filled : (slot_of i b).offset + (slot_of i b).length ≤ free_space_offset b
  inside-filled = rw (f.here, f.free) (omega arith)

  bytes_of-filled :
      (s : Slot) → s.offset + s.length ≤ free_space_offset buf → bytes_of s b ≡ bytes_of s buf
  unfolding bytes_of
  bytes_of-filled s inside = f.front (64 + s.offset) s.length (omega arith) (omega arith)

  -- The index is below the new count, and the other indices below it are old ones.
  pub filled-IsUpdate :
      i < count
      → slot_count buf ≤ count
      → ((j : ℕ) → j < count → j ≢ i → j < slot_count buf)
      → IsUpdate buf b i (some rec)
  filled-IsUpdate hi hc hj = record {
    size = f.size;
    room = rw (f.free, f.counted) (omega arith);
    grows = rw f.free (omega arith);
    counted = rw f.counted hc;
    index = rw f.counted hi;
    others = λ j h ne. hj j (rw (← f.counted) h) ne;
    kept = f.kept;
    bytes = bytes_of-filled;
    here = record_of-filled;
    word = rw f.here (new_slot-IsSlot (free_space_offset buf) rec);
    inside = λ live. inside-filled;
  }
