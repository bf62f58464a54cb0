-- ===== src/Wal/Aries/Analysis.antt =====
-- src/wal/aries.rs: the first phase, which scans the log for the transactions and the dirty pages.
pub mod Status
pub mod Dirty
use rgraph.Prelude.{
  ℕ, zero, suc, ◌+◌, ◌*◌, Bool, Option, none, some, List, [], ◌∷◌, length, HashMap, empty_map,
  insert_map, ltb, ◌==◌, min, if◌then◌else◌,
}
use rgraph.Wal.Record.{WalRecord, field}
use rgraph.Wal.Record.Kind.{
  RecordType, begin, commit, abort, page_insert, page_update, page_free, bitmap_update,
  checkpoint_begin, checkpoint_end, clr, segment_descriptor, compaction_begin, compaction_end,
  index_page_insert, index_page_update, index_page_free,
}
use rgraph.Wal.Aries.Payload.{page_id_from_payload}

pub data TxStatus : Type 0 where
  active committed aborted : TxStatus

pub record AttEntry : Type 0 where
  pub txid : ℕ
  pub status : TxStatus
  pub last_lsn : ℕ

pub record DptEntry : Type 0 where
  pub page_id : ℕ
  pub rec_lsn : ℕ

-- The active transactions, the dirty pages in no order, and the highest LSN.
pub record Analysis : Type 0 where
  pub att : HashMap AttEntry
  pub dpt : List DptEntry
  pub max_lsn : ℕ

-- The arms of the match on the kind of a record
pub data Arm : Type 0 where
  starts commits aborts touches dirties seeds marks : Arm

unfoldable pub arm_of : RecordType → Arm
arm_of begin = starts
arm_of commit = commits
arm_of abort = aborts
arm_of page_insert = dirties
arm_of page_update = dirties
arm_of page_free = dirties
arm_of bitmap_update = dirties
arm_of index_page_insert = dirties
arm_of index_page_update = dirties
arm_of index_page_free = dirties
arm_of checkpoint_end = seeds
arm_of checkpoint_begin = marks
arm_of segment_descriptor = marks
arm_of compaction_begin = marks
arm_of compaction_end = marks
arm_of _ = touches

abbrev pub later : ℕ → AttEntry → AttEntry
later lsn e = if ltb e.last_lsn lsn then record e { last_lsn = lsn } else e

-- The entry of a transaction that there is gets the LSN, if it is later.
abbrev pub touch_found : Option AttEntry → ℕ → ℕ → HashMap AttEntry → HashMap AttEntry
touch_found none txid lsn att = att
touch_found (some e) txid lsn att = insert_map txid (later lsn e) att

abbrev pub touch : ℕ → ℕ → HashMap AttEntry → HashMap AttEntry
touch txid lsn att = touch_found (att txid) txid lsn att

-- `entry(txid).or_insert_with`, with the status
abbrev pub entry_or : ℕ → TxStatus → ℕ → Option AttEntry → AttEntry
entry_or txid status lsn none = record { txid = txid; status = status; last_lsn = lsn }
entry_or txid status lsn (some e) = e

abbrev pub start : ℕ → ℕ → HashMap AttEntry → HashMap AttEntry
start txid lsn att = insert_map txid (later lsn (entry_or txid active lsn (att txid))) att

abbrev pub finish : TxStatus → ℕ → ℕ → HashMap AttEntry → HashMap AttEntry
finish status txid lsn att =
    insert_map txid (later lsn (record (entry_or txid status lsn (att txid)) { status = status }))
      att

abbrev pub find_page : ℕ → List DptEntry → Option DptEntry
find_page page_id [] = none
find_page page_id (e ∷ dpt) = if e.page_id == page_id then some e else find_page page_id dpt

abbrev pub or_insert_found : Option DptEntry → DptEntry → List DptEntry → List DptEntry
or_insert_found none e dpt = e ∷ dpt
or_insert_found (some _) e dpt = dpt

-- `dpt.entry(page_id).or_insert`
abbrev pub or_insert : DptEntry → List DptEntry → List DptEntry
or_insert e dpt = or_insert_found (find_page e.page_id dpt) e dpt

abbrev pub or_insert_all : List DptEntry → List DptEntry → List DptEntry
or_insert_all [] dpt = dpt
or_insert_all (e ∷ es) dpt = or_insert_all es (or_insert e dpt)

-- `count` entries of a checkpoint from the byte `base` on
unfoldable pub entries_at : ℕ → ℕ → List ℕ → List DptEntry
unfolding field
entries_at zero base payload = []
entries_at (suc count) base payload =
    record { page_id = field base 8 payload; rec_lsn = field (base + 8) 8 payload }
    ∷ entries_at count (base + 16) payload

-- The pages of a checkpoint record. The count has 32 bits, so the needed length does not overflow
-- a `usize` of 64 bits.
unfoldable pub checkpoint_pages : List ℕ → List DptEntry
unfolding field
checkpoint_pages payload =
    if ltb (length payload) 4
    then []
    else let count = field 0 4 payload in
      if ltb (length payload) (count * 16 + 4) then [] else entries_at count 4 payload

abbrev pub seed_dpt_from_checkpoint : List ℕ → List DptEntry → List DptEntry
seed_dpt_from_checkpoint payload dpt = or_insert_all (checkpoint_pages payload) dpt

-- `if rec.payload.len() >= 8`
abbrev pub note_page : WalRecord → List DptEntry → List DptEntry
note_page rec dpt =
    if ltb (length rec.payload) 8
    then dpt
    else or_insert (record { page_id = page_id_from_payload rec.payload; rec_lsn = rec.lsn }) dpt

unfoldable pub att_of : Arm → WalRecord → HashMap AttEntry → HashMap AttEntry
att_of starts rec att = start rec.txid rec.lsn att
att_of commits rec att = finish committed rec.txid rec.lsn att
att_of aborts rec att = finish aborted rec.txid rec.lsn att
att_of touches rec att = touch rec.txid rec.lsn att
att_of dirties rec att = touch rec.txid rec.lsn att
att_of seeds rec att = att
att_of marks rec att = att

unfoldable pub dpt_of : Arm → WalRecord → List DptEntry → List DptEntry
dpt_of dirties rec dpt = note_page rec dpt
dpt_of seeds rec dpt = seed_dpt_from_checkpoint rec.payload dpt
dpt_of _ rec dpt = dpt

-- One round of the loop
unfoldable pub analyse : WalRecord → Analysis → Analysis
analyse rec a = record {
  att = att_of (arm_of rec.record_type) rec a.att;
  dpt = dpt_of (arm_of rec.record_type) rec a.dpt;
  max_lsn = if ltb a.max_lsn rec.lsn then rec.lsn else a.max_lsn;
}

unfoldable pub analysis_loop : List WalRecord → Analysis → Analysis
analysis_loop [] a = a
analysis_loop (rec ∷ records) a = analysis_loop records (analyse rec a)

unfoldable pub analysis : List WalRecord → Analysis
analysis records = analysis_loop records (record { att = empty_map; dpt = []; max_lsn = 0 })
