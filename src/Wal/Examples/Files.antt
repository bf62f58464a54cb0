-- ===== src/Wal/Examples/Files.antt =====
-- The theorems on the writer, with a file as two lists of bytes.
use rgraph.Prelude.{
  ℕ, ◌≡◌, refl, sym, ap, ◌∙◌, none, List, [], ◌∷◌, ◌++◌, append-nil, length, take, take-append,
  arith,
}
use rgraph.Prelude.Bytes.{be_bytes}
use rgraph.Wal.Record.{encode, set_lsn, seal}
use rgraph.Wal.Segment.{load_single_segment}
use rgraph.Wal.Writer.{
  err, IoResult, ok, FileHandle, WalWriter, flush, append, append_sealed, put, after_len,
  after_write, after_sync,
}
use rgraph.Wal.Writer.Durable.{FileLaws, IsWriting, Fits, append-IsWriting}
use rgraph.Wal.Writer.Crash.{load-flush}
use rgraph.Wal.Examples.{counting, counting-IsWide, update}

-- The contents, and what a crash leaves
abbrev pub File : Type 0
File = List ℕ × List ℕ

abbrev pub file_io : FileHandle File Unit
file_io = record {
  len = λ f. ok (length f.0);
  write_at = λ bytes off f. (none, (take off f.0 ++ bytes, f.1));
  sync_data = λ f. (none, (f.0, f.0));
  invalid_data = tt;
}

pub take_all : (xs : List ℕ) → take (length xs) xs ≡ xs
take_all xs = ap (take (length xs)) (sym (append-nil xs)) ∙ take-append xs []

abbrev pub ok_or : IoResult Unit ℕ → ℕ
ok_or (ok n) = n
ok_or (err e) = 0

unfoldable pub file_laws : FileLaws file_io
file_laws = record {
  contents = λ f. f.0;
  durable = λ f. f.1;
  len-ok = λ h n e. sym (ap ok_or e);
  write_at-none = λ bytes h e. ap (λ xs. xs ++ bytes) (take_all h.0);
  sync_data-none = λ h e. (refl, refl);
}

abbrev pub fresh : WalWriter File
fresh = record {
  current_lsn = 16;
  buffer = [];
  unsynced = 0;
  segment_id = 0;
  segment_start_lsn = 0;
  segment_record_count = 0;
  total_segment_count = 1;
  segment_handle = ([], []);
  durable_lsn = 16;
  bytes_since_checkpoint = 0;
}

pub fresh-IsWriting : IsWriting file_io file_laws counting fresh []
unfolding file_laws
fresh-IsWriting = record { layout = refl; records = tt; clean = refl }

update-Fits : Fits update
update-Fits = record {
  txid = omega arith;
  prev_lsn = omega arith;
  timestamp = omega arith;
  payload = omega arith;
}

appended : (append file_io counting update fresh).0 ≡ ok 16
unfolding append append_sealed put set_lsn seal encode be_bytes
appended = refl

flushed : (flush file_io (append file_io counting update fresh).1).0 ≡ none
unfolding append append_sealed put set_lsn seal encode be_bytes flush after_len after_write
    after_sync
flushed = refl

append-IsWriting_example :
    IsWriting file_io file_laws counting
      (append file_io counting update fresh).1
      (set_lsn counting 16 update ∷ [])
    × (16 ≡ fresh.current_lsn)
append-IsWriting_example =
    append-IsWriting file_io file_laws counting update fresh [] 16 fresh-IsWriting update-Fits
      (omega arith) appended

load-flush_example :
    load_single_segment counting (
      (flush file_io (append file_io counting update fresh).1).1.segment_handle.1
      ++ take 5 (encode update))
    ≡ set_lsn counting 16 update ∷ []
unfolding encode be_bytes file_laws
load-flush_example =
    load-flush file_io file_laws counting counting-IsWide fresh [] update 16 update 5
      fresh-IsWriting update-Fits (omega arith) appended flushed (omega arith) (omega arith)
