-- ===== src/Wal/Examples/Undo.antt =====
-- The theorems on the undo phase, with a data file of pages and a log that forgets.
use rgraph.Prelude.{drop, true, ◌≡◌, refl, false, some, none, List, [], ◌∷◌, arith}
use rgraph.Prelude.Bytes.{from_be_bytes}
use rgraph.Wal.Record.{WalRecord, field}
use rgraph.Wal.Record.Kind.{page_insert}
use rgraph.Wal.Writer.{ok}
use rgraph.Wal.Aries.Payload.{page_size, extract_page_and_image, extract_before_image}
use rgraph.Wal.Aries.Analysis.{active, AttEntry}
use rgraph.Wal.Aries.Redo.{zeros, and_then, pure}
use rgraph.Wal.Aries.Undo.{
  Log, undo_loop, undo_record, undoable, is_insert, inverse_image, clr_record,
}
use rgraph.Wal.Aries.Undo.Chain.{Script, undo_loop-effects}
use rgraph.Wal.Aries.Undo.Effect.{Effect, clr_count, perform_all}
use rgraph.Wal.Aries.Undo.Inverse.{undo_record_without_image}
use rgraph.Wal.Examples.{counting, update}
use rgraph.Wal.Examples.Recovery.{Pages, pages_io}

abbrev silent : Log Pages Unit
silent = record { now = λ d. 5; append = λ r d. (ok 100, d); flush = λ d. (ok tt, d) }

-- Two images of a transaction, the later one first undone
abbrev chain : List WalRecord
chain = update ∷ record update { lsn = 30; prev_lsn = 20 } ∷ []

abbrev loser : AttEntry
loser = record { txid = 7; status = active; last_lsn = 30 }

undo_loop-effects_example :
    (es : List Effect) × Script counting chain (loser ∷ []) es
    × ((d : Pages)
        → undo_loop pages_io silent counting 31 chain (loser ∷ []) d
          ≡ and_then
              (perform_all pages_io silent counting es d)
              (λ done. pure (some (clr_count es))))
undo_loop-effects_example =
    undo_loop-effects pages_io silent counting chain 31 (loser ∷ [])
      (omega arith, (omega arith, tt)) (omega arith, tt)

-- An insert without a before-image
abbrev insertion : WalRecord
insertion = record update { record_type = page_insert }

insertion-inverse : inverse_image counting insertion ≡ some (zeros page_size)
unfolding inverse_image extract_before_image is_insert field from_be_bytes
insertion-inverse = refl

update-imageless : extract_before_image counting update.payload ≡ none
unfolding extract_before_image field from_be_bytes
update-imageless = refl

update-kind : is_insert update.record_type ≡ false
unfolding is_insert
update-kind = refl

update-undoable : undoable update.record_type ≡ true
unfolding undoable
update-undoable = refl

update-page : extract_page_and_image update ≡ some (3, drop 8 update.payload)
unfolding extract_page_and_image field from_be_bytes
update-page = refl

undo_record_without_image_example :
    (undo_record pages_io silent counting update (0, λ q. []) ≡ (ok 1, (0, λ q. [])))
    × (extract_page_and_image (clr_record counting update 3 5) ≡ some (3, zeros page_size))
undo_record_without_image_example =
    undo_record_without_image pages_io silent counting update 3 (drop 8 update.payload) (0, λ q. [])
      update-undoable update-kind update-page update-imageless (omega arith) (omega arith)
