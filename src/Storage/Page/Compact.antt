-- ===== src/Storage/Page/Compact.antt =====
-- src/storage/page.rs: `compact`, which moves the records that are left to the front and writes
-- the slot directory again. Offsets wrap at 16 bits, and the assertion on
-- the bounds of a record, which a release build leaves out, is not there; a copy out of range panics.
pub mod Moves
pub mod Passes
pub mod Directory
pub mod Reversed
use rgraph.Prelude.{
  ℕ, zero, suc, ◌+◌, ◌%◌, ◌^◌, true, false, ◌&&◌, Option, none, some, List, [], ◌∷◌, ◌++◌, length,
  leb, ◌==◌, if◌then◌else◌,
}
use rgraph.Prelude.Slices.{slice, write_at}
use rgraph.Storage.Page.{
  ◌>>=◌, Slot, header_size, is_deleted, slot_bytes, slot_count, set_free_space_offset,
  set_slot_count, clear_full, slot, slot_place, copy_from_slice,
}

-- A record that `compact` moves: from the first place to the second, and its length
abbrev pub Move : Type 0
Move = ℕ × ℕ × ℕ

-- The moves, the new slots and the new free offset
abbrev pub Plan : Type 0
Plan = List Move × List Slot × ℕ

abbrev pub plan_slot : ℕ → Slot → Plan → Plan
plan_slot new_offset s (moves, slots, end) =
    let kept = record s { offset = new_offset } in
    if s.offset == new_offset
    then (moves, kept ∷ slots, end)
    else ((header_size + s.offset, header_size + new_offset, s.length) ∷ moves, kept ∷ slots, end)

-- A slot that is deleted is left out.
abbrev pub next_offset : ℕ → Option Slot → ℕ
next_offset new_offset none = new_offset
next_offset new_offset (some s) =
    if is_deleted s then new_offset else (new_offset + s.length) % 2 ^ 16

abbrev pub plan_found : ℕ → Option Slot → Plan → Plan
plan_found new_offset none plan = plan
plan_found new_offset (some s) plan = if is_deleted s then plan else plan_slot new_offset s plan

-- The first pass, from the slot `i` on
unfoldable pub plan_moves : List ℕ → ℕ → ℕ → ℕ → Option Plan
plan_moves buf i zero new_offset = some ([], [], new_offset)
plan_moves buf i (suc rounds) new_offset = slot buf i >>= λ found.
    plan_moves buf (i + 1) rounds (next_offset new_offset found) >>= λ plan.
    some (plan_found new_offset found plan)

unfoldable pub copy_within : Move → List ℕ → Option (List ℕ)
copy_within (old_start, new_start, len) buf =
    if leb (old_start + len) (length buf) && leb (new_start + len) (length buf)
    then some (write_at new_start (slice old_start len buf) buf)
    else none

-- The second pass
unfoldable pub run_moves : List Move → List ℕ → Option (List ℕ)
run_moves [] buf = some buf
run_moves (m ∷ moves) buf = copy_within m buf >>= λ b. run_moves moves b

-- The bytes of the slots one behind the other, the first one first
unfoldable pub directory_bytes : List Slot → List ℕ
directory_bytes [] = []
directory_bytes (s ∷ slots) = slot_bytes s ++ directory_bytes slots

unfoldable pub compact : List ℕ → Option (List ℕ)
compact buf = plan_moves buf 0 (slot_count buf) 0 >>= λ (moves, slots, end).
    run_moves moves buf >>= λ b1.
    let b2 = set_free_space_offset end b1 in
    let b3 = clear_full (set_slot_count (length slots % 2 ^ 16) b2) in
    slot_place (length slots) 0 >>= λ place. copy_from_slice place (directory_bytes slots) b3
