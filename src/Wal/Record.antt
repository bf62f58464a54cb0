-- ===== src/Wal/Record.antt =====
-- src/wal/record.rs: a record of the log and its bytes.
pub mod Kind
pub mod RoundTrip
pub mod Torn
use Kind.{RecordType, code, from_code}
use rgraph.Prelude.{
  false, ℕ, ◌+◌, ◌%◌, ◌^◌, ◌≡◌, refl, Bool, not, Option, none, some, List, [], ◌∷◌, ◌++◌, length,
  take, drop, ltb, ◌==◌, if◌then◌else◌, get_elem?,
}
use rgraph.Prelude.Bytes.{be_bytes, from_be_bytes}

abbrev pub wal_magic_start : ℕ
wal_magic_start = 0x5741_4c21

abbrev pub wal_magic_end : ℕ
wal_magic_end = 0x214c_4157

abbrev pub wal_version : ℕ
wal_version = 1

-- 4 + 1 + 1 + 8 + 8 + 8 + 8 + 4 + 4 + 8 + 4
abbrev pub wal_record_min_size : ℕ
wal_record_min_size = 58

-- The two checksums are those of the crates `crc32c` and `twox_hash`.
pub record Checksums : Type 0 where
  pub crc32c : List ℕ → ℕ
  pub xx_hash64 : List ℕ → ℕ

pub record WalRecord : Type 0 where
  pub record_type : RecordType
  pub txid : ℕ
  pub lsn : ℕ
  pub prev_lsn : ℕ
  pub timestamp : ℕ
  pub payload : List ℕ
  pub header_crc : ℕ
  pub payload_hash : ℕ

-- The bytes up to the length of the payload, which is cast to 32 bits.
abbrev pub header_fields : WalRecord → List ℕ
header_fields r =
    be_bytes 4 wal_magic_start
    ++ (wal_version
        ∷ code r.record_type
        ∷ (be_bytes 8 r.txid
            ++ (be_bytes 8 r.lsn
                ++ (be_bytes 8 r.prev_lsn
                    ++ (be_bytes 8 r.timestamp ++ be_bytes 4 (length r.payload % 2 ^ 32))))))

unfoldable pub compute_header_crc : Checksums → WalRecord → ℕ
compute_header_crc sums r = sums.crc32c (header_fields r ++ be_bytes 4 0)

unfoldable pub compute_payload_hash : Checksums → WalRecord → ℕ
compute_payload_hash sums r = sums.xx_hash64 r.payload

-- Both checksums, computed from the other fields
unfoldable pub seal : Checksums → WalRecord → WalRecord
seal sums r = record r {
  payload_hash = compute_payload_hash sums r;
  header_crc = compute_header_crc sums r;
}

-- `now` is the system's time in milliseconds.
unfoldable pub new : Checksums → ℕ → RecordType → ℕ → ℕ → ℕ → List ℕ → WalRecord
unfolding seal
new sums now record_type txid lsn prev_lsn payload = seal sums (record {
  record_type = record_type;
  txid = txid;
  lsn = lsn;
  prev_lsn = prev_lsn;
  timestamp = now;
  payload = payload;
  header_crc = 0;
  payload_hash = 0;
})

unfoldable pub set_lsn : Checksums → ℕ → WalRecord → WalRecord
unfolding seal
set_lsn sums lsn r = seal sums (record r { lsn = lsn })

unfoldable pub on_disk_size : WalRecord → ℕ
on_disk_size r = wal_record_min_size + length r.payload

-- The bytes behind the header: its checksum, the payload, the hash, and the closing magic
abbrev pub tail_fields : WalRecord → List ℕ
tail_fields r =
    be_bytes 4 r.header_crc
    ++ (r.payload ++ (be_bytes 8 r.payload_hash ++ be_bytes 4 wal_magic_end))

unfoldable pub encode : WalRecord → List ℕ
encode r = header_fields r ++ tail_fields r

-- The big-endian number in `n` bytes from `off` on; only within the bytes that are there.
unfoldable pub field : ℕ → ℕ → List ℕ → ℕ
field off n bytes = from_be_bytes (take n (drop off bytes))

-- The record that the fields of the bytes make
unfoldable pub fields_of : RecordType → ℕ → List ℕ → WalRecord
unfolding field
fields_of record_type n bytes = record {
  record_type = record_type;
  txid = field 6 8 bytes;
  lsn = field 14 8 bytes;
  prev_lsn = field 22 8 bytes;
  timestamp = field 30 8 bytes;
  payload = take n (drop 46 bytes);
  header_crc = field 42 4 bytes;
  payload_hash = field (46 + n) 8 bytes;
}

-- The two tests of the checksums
unfoldable pub verified : Checksums → WalRecord → Bool
verified sums r =
    if not (compute_header_crc sums r == r.header_crc)
    then false
    else compute_payload_hash sums r == r.payload_hash

-- From the kind of the record on
unfoldable pub decode_kind : Checksums → List ℕ → Option RecordType → Option (WalRecord × ℕ)
unfolding field
decode_kind sums bytes none = none
decode_kind sums bytes (some record_type) =
    let n = field 38 4 bytes in
    if ltb (length bytes) (46 + n + 8 + 4)
    then none
    else if not (field (54 + n) 4 bytes == wal_magic_end)
    then none
    else if verified sums (fields_of record_type n bytes)
    then some (fields_of record_type n bytes, 58 + n)
    else none

-- `decode` at the offset 0; the first test makes all reads of the header succeed.
unfoldable pub decode_front : Checksums → List ℕ → Option (WalRecord × ℕ)
unfolding field
decode_front sums bytes =
    if ltb (length bytes) wal_record_min_size
    then none
    else if not (field 0 4 bytes == wal_magic_start)
    then none
    else if not (field 4 1 bytes == wal_version)
    then none
    else decode_kind sums bytes (from_code (field 5 1 bytes))

-- All reads stand at or behind the offset, so they see the buffer from there on.
unfoldable pub decode : Checksums → List ℕ → ℕ → Option (WalRecord × ℕ)
decode sums buf offset = decode_front sums (drop offset buf)
