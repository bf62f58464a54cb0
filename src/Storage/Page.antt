-- ===== src/Storage/Page.antt =====
-- src/storage/page.rs: the slotted page, as the bytes of its buffer. The fields of the header and
-- the slots are read and written as bytes in the order of a little-endian machine. A function
-- whose result is an `Option` of its own answer stops in a panic where it is `none`.
pub mod Compact
pub mod Insert
pub mod Layout
pub mod Valid
pub mod Update
pub mod Delete
pub mod Init
pub mod Checksum
use rgraph.Prelude.{
  ℕ, zero, suc, ◌+◌, ◌-◌, ◌*◌, ◌%◌, ◌^◌, Bool, true, false, not, ◌&&◌, Option, none, some, List, [],
  ◌∷◌, ◌++◌, length, take, drop, ltb, leb, ◌==◌, min, if◌then◌else◌,
}
use rgraph.Prelude.Bytes.{le_bytes, from_le_bytes}
use rgraph.Prelude.Slices.{slice, write_at}
use rgraph.Wal.Aries.Redo.{zeros, page_magic, compute_checksum_bytes}
use rgraph.Wal.Record.{Checksums}
use rgraph.Wal.Aries.Payload.{page_size}

-- The size of the header
abbrev pub header_size : ℕ
header_size = 64

abbrev pub max_inline_record_len : ℕ
max_inline_record_len = 2048

-- A panic is `none`.
infixl 5 ◌>>=◌
abbrev pub ◌>>=◌ : {A B : Type 0} → Option A → (A → Option B) → Option B
◌>>=◌ m f = elim m [ none ↦ none | some a ↦ f a ]

pub record Slot : Type 0 where
  pub offset : ℕ
  pub length : ℕ

unfoldable pub is_deleted : Slot → Bool
is_deleted s = s.offset == 65535

unfoldable pub slot_bytes : Slot → List ℕ
slot_bytes s = le_bytes 2 s.offset ++ le_bytes 2 s.length

unfoldable pub slot_from : List ℕ → Slot
slot_from bytes = record {
  offset = from_le_bytes (take 2 bytes);
  length = from_le_bytes (take 2 (drop 2 bytes));
}

-- The fields of the header that the slots need, at their places in the `repr(C)` struct
unfoldable pub free_space_offset : List ℕ → ℕ
free_space_offset buf = from_le_bytes (slice 32 2 buf)

unfoldable pub slot_count : List ℕ → ℕ
slot_count buf = from_le_bytes (slice 34 2 buf)

unfoldable pub flags : List ℕ → ℕ
flags buf = from_le_bytes (slice 36 2 buf)

unfoldable pub set_free_space_offset : ℕ → List ℕ → List ℕ
set_free_space_offset v buf = write_at 32 (le_bytes 2 v) buf

unfoldable pub set_slot_count : ℕ → List ℕ → List ℕ
set_slot_count v buf = write_at 34 (le_bytes 2 v) buf

-- `flags &= !PAGE_FLAG_FULL`
unfoldable pub clear_full : List ℕ → List ℕ
unfolding flags
clear_full buf = write_at 36 (le_bytes 2 (flags buf - flags buf % 2)) buf

unfoldable pub free_space : List ℕ → ℕ
unfolding free_space_offset slot_count
free_space buf = page_size - (header_size + free_space_offset buf + slot_count buf * 4)

-- The bytes `copy_from_slice` writes at `at`; it panics where they go past the end.
unfoldable pub copy_from_slice : ℕ → List ℕ → List ℕ → Option (List ℕ)
copy_from_slice off bytes buf =
    if leb (off + length bytes) (length buf) then some (write_at off bytes buf) else none

-- The place of the slot at the index `rev` of the directory of `count` slots, which panics where
-- the directory is larger than the page
unfoldable pub slot_place : ℕ → ℕ → Option ℕ
slot_place count rev =
    if leb (count * 4) page_size then some (page_size - count * 4 + rev * 4) else none

unfoldable pub slot_at : ℕ → List ℕ → Slot
slot_at place buf = slot_from (slice place 4 buf)

unfoldable pub slot : List ℕ → ℕ → Option (Option Slot)
slot buf idx =
    let rev = slot_count buf - (idx + 1) in
    if leb (slot_count buf) idx
    then some none
    else (slot_place (slot_count buf) rev >>= λ place. some (some (slot_at place buf)))

-- What a write through the reference of `slot_mut` leaves, for an index that there is
unfoldable pub write_slot : ℕ → Slot → List ℕ → Option (List ℕ)
write_slot idx s buf = slot_place (slot_count buf) (slot_count buf - idx - 1) >>= λ place.
    some (write_at place (slot_bytes s) buf)

abbrev delete_found : ℕ → List ℕ → Option Slot → Option (Bool × List ℕ)
delete_found idx buf none = some (false, buf)
delete_found idx buf (some s) =
    if is_deleted s
    then some (false, buf)
    else (write_slot idx (record s { offset = 65535 }) buf >>= λ b. some (true, b))

unfoldable pub delete : ℕ → List ℕ → Option (Bool × List ℕ)
delete idx buf = slot buf idx >>= λ found. delete_found idx buf found

-- `&self.buf[start..end]`
unfoldable pub bytes_at : ℕ → ℕ → List ℕ → Option (List ℕ)
bytes_at start len buf = if leb (start + len) (length buf) then some (slice start len buf) else none

abbrev pub read_found : List ℕ → Option Slot → Option (Option (List ℕ))
read_found buf none = some none
read_found buf (some s) =
    if is_deleted s
    then some none
    else (bytes_at (header_size + s.offset) s.length buf >>= λ bytes. some (some bytes))

unfoldable pub read : List ℕ → ℕ → Option (Option (List ℕ))
read buf idx = slot buf idx >>= λ found. read_found buf found

-- `PageType as u8`
pub data PageType : Type 0 where
  meta : PageType
  bitmap : PageType
  btree_interior : PageType
  btree_leaf : PageType
  slotted_data : PageType
  overflow : PageType

unfoldable pub type_code : PageType → ℕ
type_code meta = 0x01
type_code bitmap = 0x02
type_code btree_interior = 0x10
type_code btree_leaf = 0x11
type_code slotted_data = 0x20
type_code overflow = 0x30

-- The bytes of `PageHeader::new`, field by field: the LSN, the id of the page and of the overflow
-- page, the magic and the checksum, then the free offset, the count of the slots, the flags and a
-- padding, the version and the type, and the rest in zeros.
unfoldable pub header_bytes : ℕ → PageType → List ℕ
header_bytes page_id page_type =
    le_bytes 8 0
    ++ (le_bytes 8 page_id
        ++ (le_bytes 8 0
            ++ (le_bytes 4 page_magic
                ++ (le_bytes 4 0 ++ (zeros 8 ++ (1 ∷ type_code page_type ∷ zeros 22))))))

unfoldable pub init : ℕ → PageType → List ℕ
init page_id page_type = write_at 0 (header_bytes page_id page_type) (zeros page_size)

-- `verify_checksum_bytes`; the field of the checksum is the bytes 28 to 31.
unfoldable pub verify_checksum_bytes : Checksums → List ℕ → Bool
verify_checksum_bytes sums buf =
    if not (length buf == page_size)
    then false
    else from_le_bytes (slice 28 4 buf) == compute_checksum_bytes sums buf
