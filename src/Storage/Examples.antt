-- ===== src/Storage/Examples.antt =====
-- The theorems on the slotted page, at a blank page and at a page with a record.
mod Compacted
mod Bitmaps
use rgraph.Prelude.{
  ℕ, ◌^◌, ◌≤◌, ◌≡◌, refl, true, Option, none, some, List, [], ◌∷◌, length, min, arith,
}
use rgraph.Prelude.{leb, leb→le, ◌%◌}
use rgraph.Prelude.Bytes.{le_bytes, from_le_bytes}
use rgraph.Prelude.Slices.{write_at, write_front}
use rgraph.Wal.Record.{Checksums}
use rgraph.Wal.Aries.Redo.{zeros, compute_checksum_bytes, update_checksum_bytes}
use rgraph.Wal.Aries.Redo.Pages.{length-zeros}
use rgraph.Storage.Page.{
  set_slot_count, set_free_space_offset, slot_bytes, copy_from_slice, bytes_at, is_deleted,
  slot_from, slot_at, slot_place, slot, free_space_offset, type_code, header_bytes, slotted_data,
  init, read, delete, free_space, slot_count, verify_checksum_bytes,
}
use rgraph.Storage.Page.Valid.{IsValid, record_at, read-record_at}
use rgraph.Storage.Page.Update.{set_record}
use rgraph.Storage.Page.Init.{init-record_at, init-IsValid, free_space-init}
use rgraph.Storage.Page.Delete.{delete-record_at, is_some}
use rgraph.Storage.Page.Insert.{
  insert_with, append_slot, count_slot, Best, insert, insert_at, best_fit,
}
use rgraph.Storage.Page.Insert.BestFit.{IsBest, best_fit-IsBest}
use rgraph.Storage.Page.Insert.Direct.{insert-record_at}
use rgraph.Storage.Page.Insert.Shift.{shift_records}
use rgraph.Storage.Page.Insert.AtIndex.{insert_at-record_at}
use rgraph.Storage.Page.Checksum.{verify-update}

abbrev pub blank : List ℕ
blank = init 42 slotted_data

abbrev rec : List ℕ
rec = 1 ∷ 2 ∷ 3 ∷ []

abbrev pub other : List ℕ
other = 7 ∷ 8 ∷ []

abbrev pub page_of : Option (Option ℕ × List ℕ) → List ℕ
page_of none = []
page_of (some (i, b)) = b

-- The page after the record has been stored
abbrev pub one : List ℕ
one = page_of (insert rec blank)

init-record_at_example :
    IsValid (init 42 slotted_data) × ((i : ℕ) → record_at (init 42 slotted_data) i ≡ none)
init-record_at_example = init-record_at 42 slotted_data

room : 7 ≤ free_space blank
room = rw (free_space-init 42 slotted_data) (omega arith)

insert-record_at_example :
    (i : ℕ) × (b : List ℕ) × (insert rec blank ≡ some (some i, b))
    × IsValid b
    × (record_at blank i ≡ none)
    × ((j : ℕ) → record_at b j ≡ set_record (record_at blank) i (some rec) j)
insert-record_at_example =
    insert-record_at rec blank (init-IsValid 42 slotted_data) (omega arith) room

pub one-IsValid : IsValid one
one-IsValid =
    let (i, b, run, valid, free, same) =
      insert-record_at rec blank (init-IsValid 42 slotted_data) (omega arith) room in
    rw run valid

-- The record has the index 0.
read-one : read one 0 ≡ some (some rec)
unfolding read insert init header_bytes type_code write_at write_front le_bytes from_le_bytes
    free_space_offset slot_count free_space slot slot_place slot_at slot_from is_deleted bytes_at
    copy_from_slice slot_bytes set_free_space_offset set_slot_count insert_with best_fit append_slot
    count_slot
read-one = refl

room_one_lem : leb 6 (free_space one) ≡ true
unfolding insert init header_bytes type_code write_at write_front le_bytes from_le_bytes
    free_space_offset slot_count free_space slot slot_place slot_at slot_from is_deleted bytes_at
    copy_from_slice slot_bytes set_free_space_offset set_slot_count insert_with best_fit append_slot
    count_slot
room_one_lem = refl

pub room_one : 6 ≤ free_space one
room_one = leb→le 6 (free_space one) room_one_lem

insert_at-record_at_example :
    (b : List ℕ) × (insert_at 0 other one ≡ some (some (min 0 (slot_count one)), b))
    × IsValid b
    × ((j : ℕ)
        → record_at b j ≡ shift_records (record_at one) (min 0 (slot_count one)) (some other) j)
insert_at-record_at_example = insert_at-record_at 0 other one one-IsValid (omega arith) room_one

delete-record_at_example :
    (b : List ℕ) × (delete 0 one ≡ some (is_some (record_at one 0), b))
    × IsValid b
    × ((j : ℕ) → record_at b j ≡ set_record (record_at one) 0 none j)
delete-record_at_example = delete-record_at one 0 one-IsValid

read-record_at_example : read one 0 ≡ some (record_at one 0)
read-record_at_example = read-record_at one one-IsValid 0

best_fit-IsBest_example :
    (found : Best) × (best_fit one 3 0 (slot_count one) none ≡ some found)
    × IsBest one 3 (slot_count one) found
best_fit-IsBest_example = best_fit-IsBest one one-IsValid 3

-- Checksums that tell some contents apart
abbrev sums : Checksums
sums = record { crc32c = λ bytes. length bytes % 2 ^ 32; xx_hash64 = λ bytes. 0 }

verify-update_example :
    (verify_checksum_bytes sums (update_checksum_bytes sums (zeros 8192)) ≡ true)
    × (compute_checksum_bytes sums (update_checksum_bytes sums (zeros 8192))
        ≡ compute_checksum_bytes sums (zeros 8192))
verify-update_example = verify-update sums (zeros 8192) (length-zeros 8192) (λ bytes. omega arith)
