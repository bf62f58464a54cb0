-- ===== src/Wal/Aries/Undo/Effect.antt =====
-- What the undo phase should do to the data file and the log: a list of effects for each record.
use rgraph.Prelude.{
  ℕ, suc, ◌-◌, ◌*◌, ◌%◌, ◌^◌, ◌≡◌, refl, true, Option, none, some, List, [], ◌∷◌, ◌++◌, elem,
  length, min, take, if◌then◌else◌, Bool-cases, inl, inr,
}
use rgraph.Wal.Record.{Checksums, WalRecord, new}
use rgraph.Wal.Record.Kind.{
  RecordType, code, begin, commit, abort, page_insert, page_update, page_free, bitmap_update,
  checkpoint_begin, checkpoint_end, node_insert, node_delete, edge_insert, edge_delete,
  property_insert, node_update, edge_update, property_update, rdf_triple_insert, rdf_triple_delete,
  clr, segment_descriptor, compaction_begin, compaction_end, index_page_insert, index_page_update,
  index_page_free,
}
use rgraph.Wal.Writer.{IoResult, ok, err}
use rgraph.Wal.Aries.Payload.{extract_page_and_image, extract_before_image, build_clr_payload}
use rgraph.Wal.Aries.Redo.{Io, DataFile, pure, bind, and_then, zeros}
use rgraph.Wal.Aries.Undo.{
  Log, undo_record, undo_page, undoable, is_insert, write_inverse, image_or_tombstone,
  image_or_zeros, apply_inverse, inverse_image, clr_record, clr_image,
}

-- The bytes of the kinds that have an inverse: PageInsert, PageUpdate, PageFree, BitmapUpdate,
-- IndexPageInsert, IndexPageUpdate and IndexPageFree; and of the two inserts
abbrev inverse_codes : List ℕ
inverse_codes = 0x10 ∷ 0x11 ∷ 0x12 ∷ 0x13 ∷ 0x70 ∷ 0x71 ∷ 0x72 ∷ []

abbrev insert_codes : List ℕ
insert_codes = 0x10 ∷ 0x70 ∷ []

pub data Effect : Type 0 where
  write_page : ℕ → List ℕ → Effect
  log_clr : WalRecord → ℕ → List ℕ → Effect
  flush_log : Effect

-- A page that begins with the image, cut to the size of a page
abbrev padded : List ℕ → List ℕ
padded image = take (min (length image) 8192) image ++ zeros (8192 - min (length image) 8192)

-- A before-image is written back. Without one an insert makes the page zeros, and the other kinds
-- leave it. The record of the undone work has the before-image, or zeros.
abbrev pub image_effects : WalRecord → ℕ → Option (List ℕ) → List Effect
image_effects r page_id (some image) =
    write_page page_id (padded image) ∷ log_clr r page_id image ∷ []
image_effects r page_id none =
    if elem (code r.record_type) insert_codes
    then write_page page_id (zeros 8192) ∷ log_clr r page_id (zeros 8192) ∷ []
    else log_clr r page_id (zeros 8192) ∷ []

abbrev pub page_effects : Checksums → WalRecord → Option (ℕ × List ℕ) → List Effect
page_effects sums r none = []
page_effects sums r (some (page_id, after_image)) =
    image_effects r page_id (extract_before_image sums r.payload)

-- A record of another kind has no effect, nor has one without a page.
unfoldable pub effects_of : Checksums → WalRecord → List Effect
effects_of sums r =
    if elem (code r.record_type) inverse_codes
    then page_effects sums r (extract_page_and_image r)
    else []

-- How many records of undone work there are
unfoldable pub clr_count : List Effect → ℕ
clr_count [] = 0
clr_count (write_page page_id buf ∷ es) = clr_count es
clr_count (log_clr r page_id image ∷ es) = suc (clr_count es)
clr_count (flush_log ∷ es) = clr_count es

module _ {D E : Type 0} (io : DataFile D E) (wal : Log D E) (sums : Checksums) where
  unfoldable pub perform : Effect → Io D E Unit
  perform (write_page page_id buf) d =
      bind (io.open_file true) (λ _. io.write_at buf (page_id * 8192 % 2 ^ 64)) d
  perform (log_clr r page_id image) d =
      bind
        (wal.append (
          new sums (wal.now d) clr r.txid 0 r.prev_lsn
            (build_clr_payload r.prev_lsn page_id image)))
        (λ lsn. pure tt) d
  perform flush_log d = wal.flush d

  -- One after the other, up to the first error
  unfoldable pub perform_all : List Effect → Io D E Unit
  perform_all [] = pure tt
  perform_all (e ∷ es) = bind (perform e) (λ _. perform_all es)

  -- To perform effects, and to answer with what is made of their count
  abbrev pub counted : {A : Type 0} → (ℕ → A) → List Effect → Io D E A
  counted answer es d = and_then (perform_all es d) (λ done. pure (answer (clr_count es)))

undoable-code : (k : RecordType) → undoable k ≡ elem (code k) inverse_codes
unfolding undoable code
undoable-code k = elim k as (λ k. undoable k ≡ elem (code k) inverse_codes) [
  | begin ↦ refl
  | commit ↦ refl
  | abort ↦ refl
  | page_insert ↦ refl
  | page_update ↦ refl
  | page_free ↦ refl
  | bitmap_update ↦ refl
  | checkpoint_begin ↦ refl
  | checkpoint_end ↦ refl
  | node_insert ↦ refl
  | node_delete ↦ refl
  | edge_insert ↦ refl
  | edge_delete ↦ refl
  | property_insert ↦ refl
  | node_update ↦ refl
  | edge_update ↦ refl
  | property_update ↦ refl
  | rdf_triple_insert ↦ refl
  | rdf_triple_delete ↦ refl
  | clr ↦ refl
  | segment_descriptor ↦ refl
  | compaction_begin ↦ refl
  | compaction_end ↦ refl
  | index_page_insert ↦ refl
  | index_page_update ↦ refl
  | index_page_free ↦ refl
]

is_insert-code : (k : RecordType) → is_insert k ≡ elem (code k) insert_codes
unfolding is_insert code
is_insert-code k = elim k as (λ k. is_insert k ≡ elem (code k) insert_codes) [
  | begin ↦ refl
  | commit ↦ refl
  | abort ↦ refl
  | page_insert ↦ refl
  | page_update ↦ refl
  | page_free ↦ refl
  | bitmap_update ↦ refl
  | checkpoint_begin ↦ refl
  | checkpoint_end ↦ refl
  | node_insert ↦ refl
  | node_delete ↦ refl
  | edge_insert ↦ refl
  | edge_delete ↦ refl
  | property_insert ↦ refl
  | node_update ↦ refl
  | edge_update ↦ refl
  | property_update ↦ refl
  | rdf_triple_insert ↦ refl
  | rdf_triple_delete ↦ refl
  | clr ↦ refl
  | segment_descriptor ↦ refl
  | compaction_begin ↦ refl
  | compaction_end ↦ refl
  | index_page_insert ↦ refl
  | index_page_update ↦ refl
  | index_page_free ↦ refl
]

module _ {D E : Type 0} where
  one_call :
      (x : IoResult E ℕ × D)
      → and_then {B = ℕ} x (λ lsn. pure 1)
        ≡ and_then {B = ℕ}
            (and_then (and_then x (λ lsn. pure tt)) (λ done. pure tt))
            (λ done. pure 1)
  one_call (ok lsn, d) = refl
  one_call (err e, d) = refl

  two_calls :
      (p : IoResult E Unit × D) (q : Io D E ℕ)
      → and_then {B = ℕ} p (λ done d. and_then (q d) (λ lsn. pure 1))
        ≡ and_then {B = ℕ}
            (and_then p (λ done d. and_then (and_then (q d) (λ lsn. pure tt)) (λ done. pure tt)))
            (λ done. pure 1)
  two_calls (ok done, d) q = one_call (q d)
  two_calls (err e, d) q = refl

module _ {D E : Type 0} (io : DataFile D E) (wal : Log D E) (sums : Checksums) where
  -- The record of the undone work, with the before-image or zeros
  abbrev append_clr : WalRecord → ℕ → List ℕ → Io D E ℕ
  append_clr r page_id image d =
      wal.append
        (new sums (wal.now d) clr r.txid 0 r.prev_lsn (build_clr_payload r.prev_lsn page_id image))
        d

  undo_image :
      (r : WalRecord) (page_id : ℕ) (o : Option (List ℕ)) (d : D)
      → and_then {B = ℕ}
          (write_inverse io sums page_id (image_or_tombstone r.record_type o) d)
          (λ done d. and_then (append_clr r page_id (image_or_zeros o) d) (λ lsn. pure 1))
        ≡ counted io wal sums (λ n. n) (image_effects r page_id o) d
  unfolding perform_all perform clr_count
  undo_image r page_id (some image) d =
      two_calls (write_inverse io sums page_id (some (padded image)) d) (append_clr r page_id image)
  undo_image r page_id none d = elim (Bool-cases (elem (code r.record_type) insert_codes)) [
    | inl insert ↦
        rw (is_insert-code r.record_type, insert)
          (two_calls (write_inverse io sums page_id (some (zeros 8192)) d)
            (append_clr r page_id (zeros 8192)))
    | inr other ↦
        rw (is_insert-code r.record_type, other) (one_call (append_clr r page_id (zeros 8192) d))
  ]

  undo_page-effects :
      (r : WalRecord) (o : Option (ℕ × List ℕ)) (d : D)
      → undo_page io wal sums r o d ≡ counted io wal sums (λ n. n) (page_effects sums r o) d
  unfolding apply_inverse inverse_image clr_record clr_image perform_all clr_count
  undo_page-effects r none d = refl
  undo_page-effects r (some (page_id, after_image)) d =
      undo_image r page_id (extract_before_image sums r.payload) d

  pub undo_record-effects :
      (r : WalRecord) (d : D)
      → undo_record io wal sums r d ≡ counted io wal sums (λ n. n) (effects_of sums r) d
  unfolding undo_record effects_of perform_all clr_count
  undo_record-effects r d = elim (Bool-cases (elem (code r.record_type) inverse_codes)) [
    | inl inverse ↦
        rw (undoable-code r.record_type, inverse) (undo_page-effects r (extract_page_and_image r) d)
    | inr other ↦ rw (undoable-code r.record_type, other) refl
  ]
