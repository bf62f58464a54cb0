-- ===== src/Txn/Examples/Logged.antt =====
-- The theorem on the durability of a commit, with the log writer on a file in memory.
use rgraph.Prelude.{◌<◌, ℕ, ◌^◌, ◌≡◌, refl, none, [], ◌∷◌, ◌++◌, take, arith}
use rgraph.Prelude.Bytes.{be_bytes}
use rgraph.Wal.Record
use rgraph.Wal.Record.{encode, set_lsn}
use rgraph.Wal.Record.Kind.{commit as commit_kind}
use rgraph.Wal.Segment.{load_single_segment}
use rgraph.Wal.Writer
use rgraph.Wal.Writer.{WalWriter}
use rgraph.Wal.Examples.{counting, counting-IsWide, update}
use rgraph.Wal.Examples.Files.{File, file_io, file_laws, fresh, fresh-IsWriting}
use rgraph.Txn.State
use rgraph.Txn.TxId
use rgraph.Txn.Manager.Data.{Call, committed, is_active, is_serializable, new}
use rgraph.Txn.Manager.{begin_with_isolation, commit, after_append, after_flush}
use rgraph.Txn.Manager.Ended.{IsSound, HasEnded}
use rgraph.Txn.Manager.Durable.{writer_log, wal_record, commit_durable}
use rgraph.Txn.Examples.Ends.{writing, writing-IsSound}

-- Transaction 1, on a log without a record
abbrev logged : Call (WalWriter File) ℕ
logged = record { tx = writing.tx; manager = writing.manager; wal = fresh }

logged-IsSound : IsSound logged
logged-IsSound = record {
  locks = writing-IsSound.locks;
  quiet = writing-IsSound.quiet;
  state = writing-IsSound.state;
}

abbrev clock : WalWriter File → ℕ
clock w = 5

commits : (commit {X = ℕ} (writer_log file_io counting clock) logged).0 ≡ none
unfolding commit after_append after_flush begin_with_isolation is_active is_serializable writer_log
    wal_record Writer.append Writer.append_sealed Writer.put Writer.flush Writer.after_len
    Writer.after_write Writer.after_sync Record.new Record.seal set_lsn encode be_bytes
commits = refl

small_id : logged.tx.txid < 2 ^ 64
unfolding begin_with_isolation new State.new State.begin_tx TxId.allocate
small_id = omega arith

commit_durable_example :
    (load_single_segment counting (
        (commit {X = ℕ} (writer_log file_io counting clock) logged).1.wal.segment_handle.1
        ++ take 5 (encode update))
      ≡ set_lsn counting 16 (Record.new counting 5 commit_kind logged.tx.txid 0 0 []) ∷ [])
    × HasEnded committed logged (commit {X = ℕ} (writer_log file_io counting clock) logged).1
unfolding encode be_bytes file_laws
commit_durable_example =
    commit_durable {X = ℕ} file_io file_laws counting counting-IsWide clock logged [] update 5
      logged-IsSound fresh-IsWriting small_id (omega arith) (omega arith) (omega arith)
      (omega arith) commits
