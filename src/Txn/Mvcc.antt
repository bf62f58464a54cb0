-- ===== src/Txn/Mvcc.antt =====
-- src/txn/mvcc.rs: the 16-byte header of a tuple version. `encode` copies the fields of the struct
-- in their order, each in little-endian bytes, as the machines that the program supports hold them.
pub mod Laws
use Prim.Native.Nat.{bit_and, bit_or}
use rgraph.Prelude.{
  ℕ, ◌-◌, ◌%◌, ◌^◌, Bool, not, Option, none, some, List, ◌++◌, length, take, drop, ltb, ◌==◌,
  if◌then◌else◌,
}
use rgraph.Prelude.Bytes.{le_bytes, from_le_bytes}

abbrev pub tuple_txid_invalid : ℕ
tuple_txid_invalid = 0

abbrev pub xmin_committed : ℕ
xmin_committed = 0x0001

abbrev pub xmin_aborted : ℕ
xmin_aborted = 0x0002

abbrev pub xmax_committed : ℕ
xmax_committed = 0x0004

abbrev pub xmax_aborted : ℕ
xmax_aborted = 0x0008

abbrev pub has_next_version : ℕ
has_next_version = 0x0010

abbrev pub is_updated : ℕ
is_updated = 0x0020

pub record TupleHeader : Type 0 where
  pub xmin : ℕ
  pub xmax : ℕ
  pub cid : ℕ
  pub infomask : ℕ
  pub next_version_ptr : ℕ

abbrev pub header_size : ℕ
header_size = 16

-- `xmin as u32`
unfoldable pub new_insert : ℕ → ℕ → TupleHeader
new_insert xmin cid = record {
  xmin = xmin % 2 ^ 32;
  xmax = tuple_txid_invalid;
  cid = cid;
  infomask = 0;
  next_version_ptr = 0;
}

unfoldable pub is_live : TupleHeader → Bool
is_live h = h.xmax == tuple_txid_invalid

unfoldable pub is_deleted : TupleHeader → Bool
is_deleted h = not (h.xmax == tuple_txid_invalid)

-- A release build, where `debug_assert_ne!` is no code.
unfoldable pub mark_deleted : ℕ → TupleHeader → TupleHeader
mark_deleted xmax h = record h { xmax = xmax % 2 ^ 32 }

unfoldable pub xmin_txid : TupleHeader → ℕ
xmin_txid h = h.xmin

unfoldable pub xmax_txid : TupleHeader → ℕ
xmax_txid h = h.xmax

unfoldable pub set_flag : ℕ → TupleHeader → TupleHeader
set_flag flag h = record h { infomask = bit_or h.infomask flag }

-- `!flag` on 16 bits
unfoldable pub clear_flag : ℕ → TupleHeader → TupleHeader
clear_flag flag h = record h { infomask = bit_and h.infomask (2 ^ 16 - 1 - flag) }

unfoldable pub has_flag : ℕ → TupleHeader → Bool
has_flag flag h = not (bit_and h.infomask flag == 0)

abbrev pub header_bytes : TupleHeader → List ℕ
header_bytes h =
    le_bytes 4 h.xmin
    ++ (le_bytes 4 h.xmax
        ++ (le_bytes 2 h.cid ++ (le_bytes 2 h.infomask ++ le_bytes 4 h.next_version_ptr)))

-- The buffer afterwards; the assertion on its length panics, which is `none`.
unfoldable pub encode : TupleHeader → List ℕ → Option (List ℕ)
encode h out = if length out == header_size then some (header_bytes h) else none

-- The cast of the first 16 bytes to the struct
unfoldable pub fields_of : List ℕ → TupleHeader
fields_of bytes = record {
  xmin = from_le_bytes (take 4 bytes);
  xmax = from_le_bytes (take 4 (drop 4 bytes));
  cid = from_le_bytes (take 2 (drop 8 bytes));
  infomask = from_le_bytes (take 2 (drop 10 bytes));
  next_version_ptr = from_le_bytes (take 4 (drop 12 bytes));
}

unfoldable pub decode : List ℕ → Option TupleHeader
decode bytes = if ltb (length bytes) header_size then none else some (fields_of bytes)
