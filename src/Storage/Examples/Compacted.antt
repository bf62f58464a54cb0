-- ===== src/Storage/Examples/Compacted.antt =====
-- The theorems on compaction, at a page with two records and at a page that is full.
use rgraph.Prelude.{
  ℕ, zero, suc, ◌+◌, ◌-◌, ◌<◌, ◌≡◌, refl, true, Option, none, some, Bool, List, [], length, arith,
  get_elem?, leb, leb→le, ltb, ltb→lt,
}
use rgraph.Prelude.Bytes.{le_bytes, from_le_bytes}
use rgraph.Prelude.Slices.{write_at, write_front}
use rgraph.Wal.Aries.Redo.{zeros}
use rgraph.Storage.Page.{
  header_bytes, type_code, free_space_offset, slot, slot_place, slot_at, slot_from, is_deleted,
  bytes_at, copy_from_slice, slot_bytes, set_free_space_offset, set_slot_count, init, delete,
  free_space, slot_count, clear_full, flags, write_slot,
}
use rgraph.Storage.Page.Valid.{IsValid, record_at}
use rgraph.Storage.Page.Layout.{slot_of}
use rgraph.Storage.Page.Insert.{insert, insert_with, append_slot, count_slot, best_fit}
use rgraph.Storage.Page.Insert.Direct.{insert-record_at}
use rgraph.Storage.Page.Insert.Stale.{insert_after_compact}
use rgraph.Storage.Page.Compact.{compact, plan_moves, run_moves, copy_within, directory_bytes}
use rgraph.Storage.Page.Compact.Moves.{IsOrdered, live_records}
use rgraph.Storage.Page.Compact.Reversed.{compact-record_at}
use rgraph.Storage.Examples.{page_of, blank, one, other, one-IsValid, room_one}

abbrev two : List ℕ
two = page_of (insert other one)

two-IsValid : IsValid two
two-IsValid =
    let (i, b, run, valid, free, same) =
      insert-record_at other one one-IsValid (omega arith) room_one in
    rw run valid

count_two : slot_count two ≡ 2
unfolding insert init header_bytes type_code write_at write_front le_bytes from_le_bytes
    free_space_offset slot_count free_space slot slot_place slot_at slot_from is_deleted bytes_at
    copy_from_slice slot_bytes set_free_space_offset set_slot_count insert_with best_fit append_slot
    count_slot delete write_slot compact plan_moves run_moves copy_within directory_bytes clear_full
    flags
count_two = refl

ordered_two : leb ((slot_of 0 two).offset + (slot_of 0 two).length) (slot_of 1 two).offset ≡ true
unfolding insert init header_bytes type_code write_at write_front le_bytes from_le_bytes
    free_space_offset slot_count free_space slot slot_place slot_at slot_from is_deleted bytes_at
    copy_from_slice slot_bytes set_free_space_offset set_slot_count insert_with best_fit append_slot
    count_slot delete write_slot compact plan_moves run_moves copy_within directory_bytes clear_full
    flags
ordered_two = refl

two-IsOrdered : IsOrdered two
two-IsOrdered zero zero h below li lj = absurd (omega arith)
two-IsOrdered zero (suc zero) h below li lj =
    leb→le ((slot_of 0 two).offset + (slot_of 0 two).length) (slot_of 1 two).offset ordered_two
two-IsOrdered i (suc (suc j)) h below li lj = absurd (let c = count_two in omega arith)
two-IsOrdered (suc i) zero h below li lj = absurd (omega arith)
two-IsOrdered (suc i) (suc zero) h below li lj = absurd (omega arith)

compact-record_at_example :
    (b : List ℕ) × (compact two ≡ some b)
    × IsValid b
    × (slot_count b ≡ length (live_records two 0 (slot_count two)))
    × ((k : ℕ)
        → k < slot_count b
        → record_at b k ≡ get_elem? (live_records two 0 (slot_count two)) (slot_count b - 1 - k))
compact-record_at_example = compact-record_at two two-IsValid two-IsOrdered

abbrev big : List ℕ
big = zeros 2000

abbrev page_left : Option (Bool × List ℕ) → List ℕ
page_left none = []
page_left (some (done, b)) = b

abbrev pages : ℕ → List ℕ
pages zero = blank
pages (suc n) = page_of (insert big (pages n))

-- Four records of 2000 bytes, of which the first has been deleted
abbrev full : List ℕ
full = page_left (delete 0 (pages 4))

abbrev or_nil : Option (List ℕ) → List ℕ
or_nil none = []
or_nil (some b) = b

abbrev compacted : List ℕ
compacted = or_nil (compact full)

full_lem : ltb (free_space full) 2004 ≡ true
unfolding insert init header_bytes type_code write_at write_front le_bytes from_le_bytes
    free_space_offset slot_count free_space slot slot_place slot_at slot_from is_deleted bytes_at
    copy_from_slice slot_bytes set_free_space_offset set_slot_count insert_with best_fit append_slot
    count_slot delete write_slot compact plan_moves run_moves copy_within directory_bytes clear_full
    flags
full_lem = refl

run_lem : compact full ≡ some compacted
unfolding insert init header_bytes type_code write_at write_front le_bytes from_le_bytes
    free_space_offset slot_count free_space slot slot_place slot_at slot_from is_deleted bytes_at
    copy_from_slice slot_bytes set_free_space_offset set_slot_count insert_with best_fit append_slot
    count_slot delete write_slot compact plan_moves run_moves copy_within directory_bytes clear_full
    flags
run_lem = refl

size_lem : length compacted ≡ 8192
unfolding insert init header_bytes type_code write_at write_front le_bytes from_le_bytes
    free_space_offset slot_count free_space slot slot_place slot_at slot_from is_deleted bytes_at
    copy_from_slice slot_bytes set_free_space_offset set_slot_count insert_with best_fit append_slot
    count_slot delete write_slot compact plan_moves run_moves copy_within directory_bytes clear_full
    flags
size_lem = refl

room_lem : leb 2004 (free_space compacted) ≡ true
unfolding insert init header_bytes type_code write_at write_front le_bytes from_le_bytes
    free_space_offset slot_count free_space slot slot_place slot_at slot_from is_deleted bytes_at
    copy_from_slice slot_bytes set_free_space_offset set_slot_count insert_with best_fit append_slot
    count_slot delete write_slot compact plan_moves run_moves copy_within directory_bytes clear_full
    flags
room_lem = refl

beyond_lem : ltb 8192 (64 + free_space_offset full + 2000) ≡ true
unfolding insert init header_bytes type_code write_at write_front le_bytes from_le_bytes
    free_space_offset slot_count free_space slot slot_place slot_at slot_from is_deleted bytes_at
    copy_from_slice slot_bytes set_free_space_offset set_slot_count insert_with best_fit append_slot
    count_slot delete write_slot compact plan_moves run_moves copy_within directory_bytes clear_full
    flags
beyond_lem = refl

insert_after_compact_example : insert big full ≡ none
insert_after_compact_example =
    insert_after_compact big full compacted (omega arith) (ltb→lt (free_space full) 2004 full_lem)
      run_lem size_lem (leb→le 2004 (free_space compacted) room_lem)
      (ltb→lt 8192 (64 + free_space_offset full + 2000) beyond_lem)
