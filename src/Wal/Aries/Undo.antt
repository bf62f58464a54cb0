-- ===== src/Wal/Aries/Undo.antt =====
-- src/wal/aries.rs: the third phase, which goes back along the records of a transaction that did
-- not commit. The chain is followed on fuel, as nothing in the code bounds it.
pub mod Chain
pub mod Inverse
pub mod Effect
pub mod Performed
use rgraph.Prelude.{
  ℕ, zero, suc, ◌+◌, ◌-◌, ◌*◌, ◌%◌, ◌^◌, Bool, true, false, ◌&&◌, Option, none, some, List, [], ◌∷◌,
  ◌++◌, length, take, ltb, ◌==◌, min, if◌then◌else◌,
}
use rgraph.Wal.Record.{Checksums, WalRecord, new}
use rgraph.Wal.Record.Kind.{
  RecordType, page_insert, page_update, page_free, bitmap_update, clr, index_page_insert,
  index_page_update, index_page_free,
}
use rgraph.Wal.Writer.{IoResult, ok, err}
use rgraph.Wal.Aries.Payload.{
  page_size, is_clr, extract_page_and_image, extract_before_image, build_clr_payload,
  clr_undo_next_lsn,
}
use rgraph.Wal.Aries.Analysis.{AttEntry}
use rgraph.Wal.Aries.Redo.{Io, DataFile, pure, bind, zeros, fill}

-- What the phase calls of the log writer, which is a part of `D`, and the time of a new record.
pub record Log (D E : Type 0) : Type 0 where
  pub now : D → ℕ
  pub append : WalRecord → Io D E ℕ
  pub flush : Io D E Unit

abbrev pub or_record : Option WalRecord → Option WalRecord → Option WalRecord
or_record (some r) o = some r
or_record none o = o

-- The record at an LSN; of several, the last one, as when a `HashMap` is collected.
unfoldable pub record_at : ℕ → List WalRecord → Option WalRecord
record_at lsn [] = none
record_at lsn (r ∷ records) =
    or_record (record_at lsn records) (if r.lsn == lsn then some r else none)

-- The kinds that have an inverse
unfoldable pub undoable : RecordType → Bool
undoable page_insert = true
undoable page_update = true
undoable page_free = true
undoable bitmap_update = true
undoable index_page_insert = true
undoable index_page_update = true
undoable index_page_free = true
undoable _ = false

unfoldable pub is_insert : RecordType → Bool
is_insert page_insert = true
is_insert index_page_insert = true
is_insert _ = false

-- The image that the record of the undone work gets
abbrev pub image_or_zeros : Option (List ℕ) → List ℕ
image_or_zeros none = zeros page_size
image_or_zeros (some before_image) = before_image

unfoldable pub clr_image : Checksums → WalRecord → List ℕ
clr_image sums rec = image_or_zeros (extract_before_image sums rec.payload)

-- The bytes that `apply_inverse` writes to the page, if any
abbrev pub image_or_tombstone : RecordType → Option (List ℕ) → Option (List ℕ)
image_or_tombstone record_type (some before_image) = some (fill before_image)
image_or_tombstone record_type none = if is_insert record_type then some (zeros page_size) else none

unfoldable pub inverse_image : Checksums → WalRecord → Option (List ℕ)
inverse_image sums rec = image_or_tombstone rec.record_type (extract_before_image sums rec.payload)

-- The record of the undone work, with the time of the moment
unfoldable pub clr_record : Checksums → WalRecord → ℕ → ℕ → WalRecord
clr_record sums rec page_id now =
    new sums now clr rec.txid 0 rec.prev_lsn
      (build_clr_payload rec.prev_lsn page_id (clr_image sums rec))

module _ {D E : Type 0} (io : DataFile D E) (sums : Checksums) where
  abbrev pub write_inverse : ℕ → Option (List ℕ) → Io D E Unit
  write_inverse page_id none = pure tt
  write_inverse page_id (some buf) =
      bind (io.open_file true) λ _. io.write_at buf (page_id * page_size % 2 ^ 64)

  unfoldable pub apply_inverse : WalRecord → ℕ → Io D E Unit
  apply_inverse rec page_id = write_inverse page_id (inverse_image sums rec)

abbrev pub add_count : ℕ → Option ℕ → Option ℕ
add_count count none = none
add_count count (some rest) = some (count + rest)

module _ {D E : Type 0} (io : DataFile D E) (wal : Log D E) (sums : Checksums) where
  abbrev pub undo_page : WalRecord → Option (ℕ × List ℕ) → Io D E ℕ
  undo_page rec none = pure 0
  undo_page rec (some (page_id, after_image)) =
      bind (apply_inverse io sums rec page_id)
        λ _. bind (λ d. wal.append (clr_record sums rec page_id (wal.now d)) d) λ _. pure 1

  -- The inverse of a record, and how many there are
  unfoldable pub undo_record : WalRecord → Io D E ℕ
  undo_record rec =
      if undoable rec.record_type then undo_page rec (extract_page_and_image rec) else pure 0

  -- From the record at the LSN back to the start of the chain, with the count of the inverses;
  -- `none` when the fuel does not last.
  unfoldable pub undo_chain : ℕ → List WalRecord → ℕ → Io D E (Option ℕ)
  undo_chain zero records current_lsn = pure none
  undo_chain (suc fuel) records current_lsn = elim (record_at current_lsn records) [
    | none ↦ pure (some 0)
    | some rec ↦ elim (is_clr rec.record_type) [
      | true ↦ elim (clr_undo_next_lsn rec.payload == 0) [
        | true ↦ pure (some 0)
        | false ↦ undo_chain fuel records (clr_undo_next_lsn rec.payload)
      ]
      | false ↦ bind (undo_record rec) (λ count. elim (rec.prev_lsn == 0) [
        | true ↦ pure (some count)
        | false ↦ bind (undo_chain fuel records rec.prev_lsn) (λ rest. pure (add_count count rest))
      ])
    ]
  ]

  abbrev pub flush_then : Io D E (Option ℕ) → Option ℕ → Io D E (Option ℕ)
  flush_then later none = pure none
  flush_then later (some count) =
      bind wal.flush (λ _. bind later (λ rest. pure (add_count count rest)))

  -- The losers, as the sort by the last LSN orders them
  unfoldable pub undo_loop : ℕ → List WalRecord → List AttEntry → Io D E (Option ℕ)
  undo_loop fuel records [] = pure (some 0)
  undo_loop fuel records (entry ∷ to_undo) =
      bind (undo_chain fuel records entry.last_lsn) (flush_then (undo_loop fuel records to_undo))
