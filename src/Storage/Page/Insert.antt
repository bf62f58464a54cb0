-- ===== src/Storage/Page/Insert.antt =====
-- src/storage/page.rs: `insert` and `insert_at`.
pub mod Filled
pub mod Written
pub mod Counted
pub mod Append
pub mod Reuse
pub mod BestFit
pub mod Direct
pub mod Directory
pub mod Shift
pub mod AtIndex
pub mod Stale
use rgraph.Prelude.{
  ℕ, zero, suc, ◌+◌, ◌-◌, ◌%◌, ◌^◌, Bool, true, ◌&&◌, Option, none, some, List, [], ◌∷◌, ◌++◌,
  length, take, drop, ltb, leb, min, if◌then◌else◌,
}
use rgraph.Storage.Page.{
  ◌>>=◌, Slot, header_size, max_inline_record_len, is_deleted, slot_bytes, slot_count,
  free_space_offset, free_space, set_free_space_offset, set_slot_count, slot, slot_place,
  write_slot, copy_from_slice,
}
use rgraph.Storage.Page.Compact.{compact}

-- The loop over the slots `i`, `i + 1`, … for a deleted one that is long enough, the shortest
-- that there is: the best index so far stands with its length.
abbrev pub Best : Type 0
Best = Option (ℕ × ℕ)

abbrev pub shorter : ℕ → Best → Bool
shorter len none = true
shorter len (some (idx, best_len)) = ltb len best_len

abbrev pub fits : ℕ → Slot → Best → Bool
fits len s best = is_deleted s && (leb len s.length && shorter s.length best)

abbrev pub better : ℕ → ℕ → Option Slot → Best → Best
better len i none best = best
better len i (some s) best = if fits len s best then some (i, s.length) else best

unfoldable pub best_fit : List ℕ → ℕ → ℕ → ℕ → Best → Option Best
best_fit buf len i zero best = some best
best_fit buf len i (suc rounds) best =
    slot buf i >>= λ found. best_fit buf len (i + 1) rounds (better len i found best)

-- `free_offset as u16` and `record.len() as u16` keep 16 bits.
abbrev pub new_slot : ℕ → List ℕ → Slot
new_slot free_offset rec = record { offset = free_offset % 2 ^ 16; length = length rec % 2 ^ 16 }

unfoldable pub reuse_slot : ℕ → ℕ → List ℕ → List ℕ → Option (ℕ × List ℕ)
reuse_slot idx free_offset rec buf = copy_from_slice (header_size + free_offset) rec buf >>= λ b1.
    write_slot idx (new_slot free_offset rec) b1 >>= λ b2.
    some (idx, set_free_space_offset ((free_offset + length rec) % 2 ^ 16) b2)

-- `slot_count += 1`; 65,535 slots are more than a page can hold, and the count overflows.
unfoldable pub count_slot : List ℕ → Option (List ℕ)
count_slot buf =
    if ltb (slot_count buf) 65535 then some (set_slot_count (slot_count buf + 1) buf) else none

unfoldable pub append_slot : ℕ → List ℕ → List ℕ → Option (ℕ × List ℕ)
append_slot free_offset rec buf = copy_from_slice (header_size + free_offset) rec buf >>= λ b1.
    count_slot b1 >>= λ b2.
    let b3 = set_free_space_offset ((free_offset + length rec) % 2 ^ 16) b2 in
    slot_place (slot_count b3) 0 >>= λ place.
    copy_from_slice place (slot_bytes (new_slot free_offset rec)) b3 >>= λ b4.
    some (slot_count b2 - 1, b4)

abbrev pub place_record : Best → ℕ → List ℕ → List ℕ → Option (ℕ × List ℕ)
place_record (some (idx, best_len)) free_offset rec buf = reuse_slot idx free_offset rec buf
place_record none free_offset rec buf = append_slot free_offset rec buf

-- The search and the write of `insert`, with the count of the slots and the free offset that
-- were read from the header before a compaction
unfoldable pub insert_with : ℕ → ℕ → List ℕ → List ℕ → Option (ℕ × List ℕ)
insert_with count free_offset rec buf =
    best_fit buf (length rec) 0 count none >>= λ best. place_record best free_offset rec buf

abbrev pub answered : Option (ℕ × List ℕ) → Option (Option ℕ × List ℕ)
answered done = done >>= λ (idx, buf). some (some idx, buf)

unfoldable pub insert : List ℕ → List ℕ → Option (Option ℕ × List ℕ)
insert rec buf =
    let direct = answered (insert_with (slot_count buf) (free_space_offset buf) rec buf) in
    if ltb max_inline_record_len (length rec)
    then some (none, buf)
    else if leb (length rec + 4) (free_space buf)
    then direct
    else (compact buf >>= λ b.
        if ltb (free_space b) (length rec + 4)
        then some (none, b)
        else answered (insert_with (slot_count buf) (free_space_offset buf) rec b))

-- `slots.push(*s)` for a slot that there is
abbrev pub push_slot : Option Slot → List Slot → List Slot
push_slot none rest = rest
push_slot (some s) rest = s ∷ rest

-- The slots below `count` in the order of their indices
unfoldable pub collect_slots : List ℕ → ℕ → ℕ → Option (List Slot)
collect_slots buf i zero = some []
collect_slots buf i (suc rounds) =
    slot buf i >>= λ found. collect_slots buf (i + 1) rounds >>= λ rest. some (push_slot found rest)

-- `slots.insert(pos, s)`
unfoldable pub insert_slot : ℕ → Slot → List Slot → List Slot
insert_slot pos s slots = take pos slots ++ (s ∷ drop pos slots)

-- The slots from the index `i` on, each at its place in the directory of `count` slots
unfoldable pub write_directory : ℕ → ℕ → List Slot → List ℕ → Option (List ℕ)
write_directory count i [] buf = some buf
write_directory count i (s ∷ slots) buf = slot_place count (count - 1 - i) >>= λ place.
    copy_from_slice place (slot_bytes s) buf >>= λ b. write_directory count (i + 1) slots b

-- The write of `insert_at` at the free offset that the header has now
unfoldable pub insert_slot_at : ℕ → List ℕ → List ℕ → Option (ℕ × List ℕ)
insert_slot_at idx rec buf =
    let free_offset = free_space_offset buf in
    copy_from_slice (header_size + free_offset) rec buf >>= λ b1. count_slot b1 >>= λ b2.
    let b3 = set_free_space_offset ((free_offset + length rec) % 2 ^ 16) b2 in
    collect_slots b3 0 (slot_count b3 - 1) >>= λ slots.
    let pos = min idx (length slots) in
    write_directory (slot_count b3) 0 (insert_slot pos (new_slot free_offset rec) slots) b3
    >>= λ b4. some (pos, b4)

unfoldable pub insert_at : ℕ → List ℕ → List ℕ → Option (Option ℕ × List ℕ)
insert_at idx rec buf =
    let direct = answered (insert_slot_at idx rec buf) in
    if ltb max_inline_record_len (length rec)
    then some (none, buf)
    else if leb (length rec + 4) (free_space buf)
    then direct
    else (compact buf >>= λ b.
        if ltb (free_space b) (length rec + 4)
        then some (none, b)
        else answered (insert_slot_at idx rec b))
