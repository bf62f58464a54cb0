-- ===== src/Wal/Segment.antt =====
-- src/wal: the scan of the bytes of a segment. The same loop stands in src/wal/aries.rs
-- (`load_single_segment`), src/wal/writer.rs (`last_valid_offset`) and src/wal/recovery.rs
-- (`recover`); the scan runs on fuel, of which the count of the bytes is enough. The errors of opening, measuring,
-- reading and cutting the file, which end these functions early, are not modelled.
pub mod Scan
pub mod Recover
pub mod Descriptor
use rgraph.Prelude.{
  ℕ, zero, suc, ◌+◌, Bool, true, false, ◌&&◌, Option, none, some, List, [], ◌∷◌, length, take, drop,
  ltb, leb, if◌then◌else◌,
}
use rgraph.Prelude.Bytes.{from_be_bytes}
use rgraph.Wal.Record.{Checksums, WalRecord, decode}
use rgraph.Wal.Record.Kind.{RecordType, page_insert, page_update, page_free, bitmap_update}

abbrev cons_record : WalRecord → List WalRecord × ℕ → List WalRecord × ℕ
cons_record r (rs, end) = (r ∷ rs, end)

-- The records from the offset on, and where the scan stopped.
unfoldable pub scan : Checksums → ℕ → List ℕ → ℕ → List WalRecord × ℕ
scan sums zero raw offset = ([], offset)
scan sums (suc fuel) raw offset = elim (ltb offset (length raw)) [
  | false ↦ ([], offset)
  | true ↦ elim (decode sums raw offset) [
    | none ↦ ([], offset)
    | some (rec, size) ↦ cons_record rec (scan sums fuel raw (offset + size))
  ]
]

unfoldable pub load_single_segment : Checksums → List ℕ → List WalRecord
load_single_segment sums raw = (scan sums (length raw) raw 0).0

unfoldable pub last_valid_offset : Checksums → List ℕ → ℕ
last_valid_offset sums raw = (scan sums (length raw) raw 0).1

-- The kinds of records that `recover` replays
unfoldable pub is_page_record : RecordType → Bool
is_page_record page_insert = true
is_page_record page_update = true
is_page_record page_free = true
is_page_record bitmap_update = true
is_page_record _ = false

-- The callback: a page, its image and the LSN; it changes a state, or fails.
abbrev pub Replay : Type 0 → Type 0 → Type 0
Replay S E = ℕ → List ℕ → ℕ → S → Option E × S

module _ {S E : Type 0} where
  unfoldable pub replay_record : ℕ → Replay S E → WalRecord → S → Option E × S
  replay_record start_lsn replay rec s =
      if leb start_lsn rec.lsn && (is_page_record rec.record_type && leb 8 (length rec.payload))
      then replay (from_be_bytes (take 8 rec.payload)) (drop 8 rec.payload) rec.lsn s
      else (none, s)

-- How the loop of `recover` ends: the error of the callback, if it failed, the last LSN, the
-- offset, and the state.
pub record Recovered (S E : Type 0) : Type 0 where
  pub error : Option E
  pub last_valid_lsn : Option ℕ
  pub offset : ℕ
  pub state : S

module _ {S E : Type 0} (sums : Checksums) (start_lsn : ℕ) (replay : Replay S E) where
  unfoldable pub recover_loop : ℕ → List ℕ → ℕ → Option ℕ → S → Recovered S E
  recover_loop zero buf offset last s = record {
    error = none;
    last_valid_lsn = last;
    offset = offset;
    state = s;
  }
  recover_loop (suc fuel) buf offset last s = elim (ltb offset (length buf)) [
    | false ↦ record { error = none; last_valid_lsn = last; offset = offset; state = s }
    | true ↦ elim (decode sums buf offset) [
      | none ↦ record { error = none; last_valid_lsn = last; offset = offset; state = s }
      | some (rec, size) ↦
          let (answer, s') = replay_record start_lsn replay rec s in
          elim answer [
            | none ↦ recover_loop fuel buf (offset + size) (some rec.lsn) s'
            | some e ↦ record { error = some e; last_valid_lsn = last; offset = offset; state = s' }
          ]
    ]
  ]

  -- The file afterwards: an error leaves it; else it is cut where the loop stopped.
  abbrev cut_file : List ℕ → Recovered S E → List ℕ × Recovered S E
  cut_file buf done = elim (done.error) [
    | some e ↦ (buf, done)
    | none ↦ (if ltb done.offset (length buf) then take done.offset buf else buf, done)
  ]

  -- `recover` on the contents of a file that there is. An empty file has no last LSN either.
  unfoldable pub recover : List ℕ → S → List ℕ × Recovered S E
  recover buf s = cut_file buf (recover_loop (length buf) buf 0 none s)
