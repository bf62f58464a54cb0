-- ===== src/Wal/Writer.antt =====
-- src/wal/writer.rs: the writer of the log, over a handle of the open segment file.
pub mod Durable
pub mod Crash
use rgraph.Prelude.{
  ℕ, ◌+◌, ◌-◌, ◌*◌, ◌%◌, ◌^◌, ◌≡◌, refl, Bool, Option, none, some, List, [], ◌∷◌, ◌++◌, length,
  take, ltb, leb, max, ◌==◌, if◌then◌else◌,
}
use rgraph.Wal.Record
use rgraph.Wal.Record.{Checksums, WalRecord, encode, set_lsn}
use rgraph.Wal.Record.Kind.{RecordType}
use rgraph.Wal.Lsn.{make_lsn, lsn_segment_id, lsn_offset}
use rgraph.Wal.Segment.{last_valid_offset}

abbrev pub buffer_size : ℕ
buffer_size = 1024 * 1024

abbrev pub segment_size : ℕ
segment_size = 64 * 1024 * 1024

abbrev pub checkpoint_interval : ℕ
checkpoint_interval = 8 * 1024 * 1024

-- An `io::Result`
pub data IoResult (E A : Type 0) : Type 0 where
  ok : A → IoResult E A
  err : E → IoResult E A

-- What the writer calls of a file handle `H`, with an error if there is one, and the error that
-- the writer itself makes for a record that is too large.
pub record FileHandle (H E : Type 0) : Type 0 where
  pub len : H → IoResult E ℕ
  pub write_at : List ℕ → ℕ → H → Option E × H
  pub sync_data : H → Option E × H
  pub invalid_data : E

-- `buffer` is the valid part of the buffer, so `buffered` is its length.
pub record WalWriter (H : Type 0) : Type 0 where
  pub current_lsn : ℕ
  pub buffer : List ℕ
  pub unsynced : ℕ
  pub segment_id : ℕ
  pub segment_start_lsn : ℕ
  pub segment_record_count : ℕ
  pub total_segment_count : ℕ
  pub segment_handle : H
  pub durable_lsn : ℕ
  pub bytes_since_checkpoint : ℕ

module _ {H E : Type 0} (io : FileHandle H E) where
  -- What `flush` does with the answers of the sync, of the write, and of the length
  unfoldable pub after_sync : Option E × H → WalWriter H → Option E × WalWriter H
  after_sync (some e, h) w = (some e, record w { segment_handle = h })
  after_sync (none, h) w = (
    none,
    record w {
      segment_handle = h;
      buffer = [];
      unsynced = 0;
      durable_lsn = max w.durable_lsn w.current_lsn;
    },
  )

  unfoldable pub after_write : Option E × H → WalWriter H → Option E × WalWriter H
  after_write (some e, h) w = (some e, record w { segment_handle = h })
  after_write (none, h) w = after_sync (io.sync_data h) w

  unfoldable pub after_len : IoResult E ℕ → WalWriter H → Option E × WalWriter H
  after_len (err e) w = (some e, w)
  after_len (ok file_offset) w = after_write (io.write_at w.buffer file_offset w.segment_handle) w

  unfoldable pub flush : WalWriter H → Option E × WalWriter H
  flush w = if length w.buffer == 0 then (none, w) else after_len (io.len w.segment_handle) w

  -- The copy to the buffer, and the counters. The offset is a u32 that wraps.
  unfoldable pub put : WalRecord → WalWriter H → IoResult E ℕ × WalWriter H
  put rec w =
      let n = length (encode rec) in
      (
        ok rec.lsn,
        record w {
          buffer = w.buffer ++ encode rec;
          unsynced = w.unsynced + n;
          current_lsn =
              make_lsn (lsn_segment_id w.current_lsn) ((lsn_offset w.current_lsn + n) % 2 ^ 32);
          segment_record_count = w.segment_record_count + 1;
          bytes_since_checkpoint = w.bytes_since_checkpoint + n;
        },
      )

  -- What `append` does with the answer of the flush that makes room
  unfoldable pub after_room : WalRecord → Option E × WalWriter H → IoResult E ℕ × WalWriter H
  after_room rec (some e, w) = (err e, w)
  after_room rec (none, w) =
      if ltb buffer_size (length (encode rec)) then (err io.invalid_data, w) else put rec w

  -- `append` once the record has its LSN
  unfoldable pub append_sealed : WalRecord → WalWriter H → IoResult E ℕ × WalWriter H
  append_sealed rec w =
      if ltb buffer_size (length w.buffer + length (encode rec))
      then after_room rec (flush w)
      else put rec w

  unfoldable pub append : Checksums → WalRecord → WalWriter H → IoResult E ℕ × WalWriter H
  append sums rec w = append_sealed (set_lsn sums w.current_lsn rec) w

module _ {H : Type 0} where
  unfoldable pub needs_rotation : WalWriter H → Bool
  needs_rotation w = leb segment_size (lsn_offset w.current_lsn - lsn_offset w.segment_start_lsn)

  unfoldable pub needs_checkpoint : WalWriter H → Bool
  needs_checkpoint w = leb checkpoint_interval w.bytes_since_checkpoint

  unfoldable pub reset_checkpoint_counter : WalWriter H → WalWriter H
  reset_checkpoint_counter w = record w { bytes_since_checkpoint = 0 }
