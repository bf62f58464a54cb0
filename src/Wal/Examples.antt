-- ===== src/Wal/Examples.antt =====
-- The theorems on the log at concrete records, files and checksums.
pub mod Files
mod Recovery
mod Undo
use rgraph.Prelude.{
  ℕ, ◌+◌, ◌%◌, ◌^◌, ◌<◌, ◌≡◌, refl, Option, none, some, List, [], ◌∷◌, ◌++◌, All, length, take,
  drop, arith,
}
use rgraph.Prelude.Bytes.{be_bytes}
use rgraph.Wal.Record.{
  Checksums, WalRecord, new, seal, encode, decode, on_disk_size, compute_header_crc,
  compute_payload_hash,
}
use rgraph.Wal.Record.Kind.{RecordType, page_update, commit}
use rgraph.Wal.Record.RoundTrip.{IsWide, IsRecord, decode-encode_record}
use rgraph.Wal.Record.Torn.{decode_torn, seal-IsRecord}
use rgraph.Wal.Segment.{load_single_segment, last_valid_offset, recover}
use rgraph.Wal.Segment.Scan.{log_bytes, load-log_bytes, cut-IsTorn}
use rgraph.Wal.Segment.Recover.{total, recover-log_bytes, recovered}
use rgraph.Wal.Aries.Analysis.{checkpoint_pages}
use rgraph.Wal.Checkpoint.{Frame, no_lsn, with_lsn, end_payload}
use rgraph.Wal.Checkpoint.Tables.{dirty_pages, checkpoint_pages-end_payload}
use rgraph.Wal.Lsn.{make_lsn, lsn_segment_id, lsn_offset, lsn-make_lsn}

-- Checksums that only count the bytes
abbrev pub counting : Checksums
counting = record {
  crc32c = λ bytes. length bytes % 2 ^ 32;
  xx_hash64 = λ bytes. length bytes % 2 ^ 64;
}

pub counting-IsWide : IsWide counting
counting-IsWide = record { crc32c = λ bytes. omega arith; xx_hash64 = λ bytes. omega arith }

-- An image of page 3, and its commit
abbrev pub update : WalRecord
update = record {
  record_type = page_update;
  txid = 7;
  lsn = 20;
  prev_lsn = 0;
  timestamp = 1;
  payload = 0 ∷ 0 ∷ 0 ∷ 0 ∷ 0 ∷ 0 ∷ 0 ∷ 3 ∷ 41 ∷ 42 ∷ [];
  header_crc = 0;
  payload_hash = 0;
}

abbrev pub done : WalRecord
done = record update { record_type = commit; lsn = 90; prev_lsn = 20; payload = [] }

abbrev pub sealed : List WalRecord
sealed = seal counting update ∷ seal counting done ∷ []

pub sealed-IsRecord : All (IsRecord counting) sealed
unfolding seal
sealed-IsRecord = (
  seal-IsRecord counting update (omega arith) (omega arith) (omega arith) (omega arith)
      (omega arith),
  (
    seal-IsRecord counting done (omega arith) (omega arith) (omega arith) (omega arith)
        (omega arith),
    tt,
  ),
)

decode-encode_record_example :
    decode counting (9 ∷ 9 ∷ [] ++ (encode (seal counting update) ++ 8 ∷ [])) 2
    ≡ some (seal counting update, on_disk_size (seal counting update))
decode-encode_record_example =
    decode-encode_record counting (seal counting update) (9 ∷ 9 ∷ []) (8 ∷ []) counting-IsWide
      sealed-IsRecord.0

-- The page ids and the LSNs, in the order of the calls
abbrev note : ℕ → List ℕ → ℕ → List (ℕ × ℕ) → List (ℕ × ℕ)
note page_id image lsn calls = (page_id, lsn) ∷ calls

recover-log_bytes_example :
    recover counting 16 (total {E = Unit} note) (log_bytes sealed ++ take 60 (encode update)) []
    ≡ (log_bytes sealed, recovered 16 note sealed 0 none [])
unfolding encode be_bytes
recover-log_bytes_example =
    recover-log_bytes 16 note counting counting-IsWide (take 60 (encode update))
      (cut-IsTorn counting update 60 (omega arith) (omega arith)) sealed [] sealed-IsRecord

lsn-make_lsn_example :
    (lsn_segment_id (make_lsn 5 4096) ≡ 5) × (lsn_offset (make_lsn 5 4096) ≡ 4096)
lsn-make_lsn_example = lsn-make_lsn 5 4096 (omega arith) (omega arith)

-- A frame with an LSN, and one without
abbrev frames : List Frame
frames =
    record { fid = 0; page_id = 3; rec_lsn = 20 }
    ∷ record { fid = 1; page_id = 4; rec_lsn = no_lsn }
    ∷ []

checkpoint_pages-end_payload_example :
    checkpoint_pages (end_payload frames) ≡ record { page_id = 3; rec_lsn = 20 } ∷ []
unfolding dirty_pages
checkpoint_pages-end_payload_example =
    checkpoint_pages-end_payload frames
      (
        record { page_id = omega arith; rec_lsn = omega arith },
        (record { page_id = omega arith; rec_lsn = omega arith }, tt),
      )
      (omega arith)
