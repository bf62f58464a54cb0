-- ===== src/Wal/Writer/Crash.antt =====
-- What a crash leaves of the records that the writer has flushed.
use rgraph.Prelude.{ℕ, ◌^◌, ◌<◌, ◌≡◌, none, List, [], ◌∷◌, ◌++◌, length, take}
use rgraph.Wal.Record.{Checksums, WalRecord, encode, set_lsn}
use rgraph.Wal.Record.RoundTrip.{IsWide}
use rgraph.Wal.Segment.{load_single_segment}
use rgraph.Wal.Segment.Scan.{load-log_bytes, cut-IsTorn}
use rgraph.Wal.Writer.{ok, FileHandle, WalWriter, flush, append}
use rgraph.Wal.Writer.Durable.{FileLaws, IsWriting, Fits, flush-IsWriting, append-IsWriting}

module _ {H E : Type 0} (io : FileHandle H E) (laws : FileLaws io) (sums : Checksums)
    (wide : IsWide sums) where
  -- A record whose append returned an LSN, and that a flush without an error followed, is in the
  -- log after a crash, with that LSN and behind all records before it, even if the crash leaves a
  -- part of a next record `q` at the end of the file. The writer's file, which is durable, and its
  -- buffer held the log so far; the fields of the record fit their machine types, and the LSN 64
  -- bits; the payloads have less than 2^32 bytes; and the file obeys the laws of a file.
  pub load-flush :
      (w : WalWriter H) (rs : List WalRecord) (r : WalRecord) (lsn : ℕ) (q : WalRecord) (k : ℕ)
      → IsWriting io laws sums w rs
      → Fits r
      → w.current_lsn < 2 ^ 64
      → (append io sums r w).0 ≡ ok lsn
      → (flush io (append io sums r w).1).0 ≡ none
      → length q.payload < 2 ^ 32
      → k < length (encode q)
      → load_single_segment sums
          (laws.durable (flush io (append io sums r w).1).1.segment_handle ++ take k (encode q))
        ≡ rs ++ set_lsn sums lsn r ∷ []
  load-flush w rs r lsn q k v fits low appended flushed small short =
      let (v', e) = append-IsWriting io laws sums r w rs lsn v fits low appended in
      let (v'', kept) =
        flush-IsWriting io laws sums (append io sums r w).1 (rs ++ set_lsn sums lsn r ∷ []) v'
          flushed in
      rw kept
        (load-log_bytes sums (rs ++ set_lsn sums lsn r ∷ []) (take k (encode q)) wide
          (cut-IsTorn sums q k small short) v''.records).0
