-- ===== src/Wal/Checkpoint.antt =====
-- src/wal/checkpoint.rs: a checkpoint. The code reads each frame on its own while writers may run;
-- here all dirty frames are read at once, as when no writer runs.
pub mod Tables
use rgraph.Prelude.{
  ℕ, ◌-◌, ◌%◌, ◌^◌, not, ◌&&◌, List, [], ◌∷◌, ◌++◌, length, leb, ◌==◌, if◌then◌else◌,
}
use rgraph.Prelude.Bytes.{be_bytes}
use rgraph.Wal.Record.{Checksums, WalRecord, new}
use rgraph.Wal.Record.Kind.{checkpoint_begin, checkpoint_end}
use rgraph.Wal.Aries.Redo.{Io, pure, bind}

-- What the checkpoint reads of a frame of the buffer pool
pub record Frame : Type 0 where
  pub fid : ℕ
  pub page_id : ℕ
  pub rec_lsn : ℕ

-- The LSN of a page that no record changed, `u64::MAX`
abbrev pub no_lsn : ℕ
no_lsn = 2 ^ 64 - 1

-- What the checkpoint calls of the buffer pool and the log writer, which are parts of `D`.
pub record Calls (D E : Type 0) : Type 0 where
  pub now : D → ℕ
  pub dirty_candidates : D → List Frame
  pub flush_single_frame : ℕ → Io D E Unit
  pub append : WalRecord → Io D E ℕ
  pub sync : Io D E Unit
  pub update_symlink : Io D E Unit

-- The frames that have an LSN
unfoldable pub with_lsn : List Frame → List Frame
with_lsn [] = []
with_lsn (f ∷ frames) = let rest = with_lsn frames in if f.rec_lsn == no_lsn then rest else f ∷ rest

unfoldable pub entry_bytes : List Frame → List ℕ
entry_bytes [] = []
entry_bytes (f ∷ frames) = be_bytes 8 f.page_id ++ (be_bytes 8 f.rec_lsn ++ entry_bytes frames)

-- The payload of the record that ends the checkpoint, with a count of 0 transactions
unfoldable pub end_payload : List Frame → List ℕ
end_payload frames =
    be_bytes 4 (length (with_lsn frames) % 2 ^ 32)
    ++ (entry_bytes (with_lsn frames) ++ be_bytes 4 0)

module _ {D E : Type 0} (calls : Calls D E) (sums : Checksums) where
  -- The frames that are not newer than the checkpoint are flushed.
  unfoldable pub flush_frames : ℕ → List Frame → Io D E Unit
  flush_frames ckpt_lsn [] = pure tt
  flush_frames ckpt_lsn (f ∷ frames) =
      if not (f.rec_lsn == no_lsn) && leb f.rec_lsn ckpt_lsn
      then bind (calls.flush_single_frame f.fid) (λ _. flush_frames ckpt_lsn frames)
      else flush_frames ckpt_lsn frames

  abbrev pub append_end : Io D E ℕ
  append_end d =
      calls.append
        (new sums (calls.now d) checkpoint_end 0 0 0 (end_payload (calls.dirty_candidates d))) d

  unfoldable pub run : Io D E ℕ
  run =
      bind (λ d. calls.append (new sums (calls.now d) checkpoint_begin 0 0 0 []) d)
        λ ckpt_lsn. bind calls.sync λ _.
          bind (λ d. flush_frames ckpt_lsn (calls.dirty_candidates d) d)
            λ _.
              bind append_end λ _. bind calls.sync λ _. bind calls.update_symlink λ _. pure ckpt_lsn
