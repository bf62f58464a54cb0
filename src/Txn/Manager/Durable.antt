-- ===== src/Txn/Manager/Durable.antt =====
-- src/txn/manager.rs on src/wal/writer.rs: the manager's log is the log writer, and what a commit
-- makes durable.
use rgraph.Prelude.{
  ℕ, ◌^◌, ◌<◌, ◌≡◌, refl, ap, ◌∙◌, Option, none, some, List, [], ◌∷◌, ◌++◌, length, take, arith,
}
use rgraph.Wal.Record
use rgraph.Wal.Record.{Checksums, encode, set_lsn}
use rgraph.Wal.Record.Kind.{commit as commit_kind, abort as abort_kind}
use rgraph.Wal.Record.RoundTrip.{IsWide}
use rgraph.Wal.Segment.{load_single_segment}
use rgraph.Wal.Writer
use rgraph.Wal.Writer.{IoResult, ok, err, FileHandle, WalWriter}
use rgraph.Wal.Writer.Durable.{FileLaws, IsWriting, Fits, append-IsWriting}
use rgraph.Wal.Writer.Crash.{load-flush}
use rgraph.Txn.Manager.Data.{Call, Log, WalRecord, committed, commit_record, abort_record}
use rgraph.Txn.Manager.Ended.{IsSound, HasEnded, committed-HasEnded}
use rgraph.Txn.Manager.{commit, release_locks, forget_committed}
use rgraph.Txn.Manager.Finish.{commit-eq_none, flushed_call}

-- The record as the manager makes it, at the time `now`
unfoldable pub wal_record : Checksums → ℕ → WalRecord → Record.WalRecord
wal_record sums now (commit_record txid) = Record.new sums now commit_kind txid 0 0 []
wal_record sums now (abort_record txid) = Record.new sums now abort_kind txid 0 0 []

-- `?` drops the LSN.
abbrev pub error_of : {E : Type 0} → IoResult E ℕ → Option E
error_of (ok lsn) = none
error_of (err e) = some e

unfoldable pub writer_log :
    {H E : Type 0} → FileHandle H E → Checksums → (WalWriter H → ℕ) → Log (WalWriter H) E
writer_log io sums now = record {
  append = λ r w.
      let (answer, w') = Writer.append io sums (wal_record sums (now w) r) w in
      (error_of answer, w');
  flush = Writer.flush io;
}

ok_of :
    {E : Type 0} (answer : IoResult E ℕ) → error_of answer ≡ none → (lsn : ℕ) × (answer ≡ ok lsn)
ok_of (ok lsn) h = (lsn, refl)
ok_of (err e) h = cc h

commit_record-Fits :
    (sums : Checksums) (now txid : ℕ)
    → now < 2 ^ 64
    → txid < 2 ^ 64
    → Fits (wal_record sums now (commit_record txid))
unfolding wal_record Record.new Record.seal
commit_record-Fits sums now txid hn ht = record {
  txid = ht;
  prev_lsn = omega arith;
  timestamp = hn;
  payload = omega arith;
}

module _ {H E X M : Type 0} (io : FileHandle H E) (laws : FileLaws io) (sums : Checksums)
    (wide : IsWide sums) (now : WalWriter H → ℕ) where
  -- A commit on the log writer that reports no error, of a transaction on a sound state: its commit
  -- record is in the log after a crash, with the LSN the writer stood at and behind all records
  -- before it, even if the crash leaves a part of a next record `q` at the end of the file. The
  -- transaction has ended as committed: it holds none of its locks, it is not among the running
  -- ones, and its wounds are forgotten. The writer's file, which is durable, and its buffer held the
  -- log so far; the ids, the time and the LSN have 64 bits; the payload of `q` has less than 2^32
  -- bytes; and the file obeys the laws of a file.
  pub commit_durable :
      (c : Call (WalWriter H) M) (rs : List Record.WalRecord) (q : Record.WalRecord) (k : ℕ)
      → IsSound c
      → IsWriting io laws sums c.wal rs
      → c.tx.txid < 2 ^ 64
      → now c.wal < 2 ^ 64
      → c.wal.current_lsn < 2 ^ 64
      → length q.payload < 2 ^ 32
      → k < length (encode q)
      → (commit {X = X} (writer_log io sums now) c).0 ≡ none
      → (load_single_segment sums (
            laws.durable (commit {X = X} (writer_log io sums now) c).1.wal.segment_handle
            ++ take k (encode q))
          ≡ rs
            ++ set_lsn sums c.wal.current_lsn
                (Record.new sums (now c.wal) commit_kind c.tx.txid 0 0 [])
              ∷ [])
        × HasEnded committed c (commit {X = X} (writer_log io sums now) c).1
  unfolding writer_log wal_record forget_committed release_locks
  commit_durable c rs q k s v ht hn low small short h =
      let (appended, flushed, same) = commit-eq_none {X = X} (writer_log io sums now) c h in
      let r : Record.WalRecord = wal_record sums (now c.wal) (commit_record c.tx.txid) in
      let fits : Fits r = commit_record-Fits sums (now c.wal) c.tx.txid hn ht in
      let (lsn, at_lsn) = ok_of (Writer.append io sums r c.wal).0 appended in
      let (w, e) = append-IsWriting io laws sums r c.wal rs lsn v fits low at_lsn in
      rw same (
        load-flush io laws sums wide c.wal rs r lsn q k v fits low at_lsn flushed small short
            ∙ ap (λ l. rs ++ set_lsn sums l r ∷ []) e,
        committed-HasEnded c s (flushed_call (writer_log io sums now) c).wal,
      )
