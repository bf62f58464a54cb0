-- ===== src/Wal/Aries/Redo.antt =====
-- src/wal/aries.rs: the second phase, which writes the images of the log to the data file. Of
-- src/storage/page.rs: the checksum of a page, on a little-endian machine.
pub mod Pages
pub mod Plan
pub mod Latest
pub mod Committed
pub mod Rerun
use rgraph.Prelude.{
  ℕ, zero, suc, ◌+◌, ◌-◌, ◌*◌, ◌%◌, ◌^◌, Bool, true, false, not, ◌&&◌, ◌||◌, Option, none, some,
  List, [], ◌∷◌, ◌++◌, length, take, drop, HashMap, ltb, leb, ◌==◌, min, if◌then◌else◌,
}
use rgraph.Prelude.Bytes.{be_bytes, from_be_bytes, le_bytes, from_le_bytes}
use rgraph.Wal.Record.{Checksums, WalRecord}
use rgraph.Wal.Record.Kind.{
  RecordType, page_insert, page_update, page_free, bitmap_update, clr, index_page_insert,
  index_page_update, index_page_free,
}
use rgraph.Wal.Writer.{IoResult, ok, err}
use rgraph.Wal.Aries.Payload.{page_size, is_clr, extract_page_and_image}
use rgraph.Wal.Aries.Analysis.{TxStatus, active, committed, aborted, AttEntry, DptEntry, find_page}

-- A call that changes the file system `D`, and that can fail.
abbrev pub Io : Type 0 → Type 0 → Type 0 → Type 0
Io D E A = D → IoResult E A × D

-- What the recovery calls of the data file: `open_file` has the flag to create it.
pub record DataFile (D E : Type 0) : Type 0 where
  pub exists : D → Bool
  pub open_file : Bool → Io D E Unit
  pub len : Io D E ℕ
  pub read_at : ℕ → ℕ → Io D E (List ℕ)
  pub write_at : List ℕ → ℕ → Io D E Unit

module _ {D E : Type 0} where
  abbrev pub pure : {A : Type 0} → A → Io D E A
  pure a d = (ok a, d)

  abbrev pub and_then : {A B : Type 0} → IoResult E A × D → (A → Io D E B) → IoResult E B × D
  and_then (ok a, d) next = next a d
  and_then (err e, d) next = (err e, d)

  -- The operator `?`
  abbrev pub bind : {A B : Type 0} → Io D E A → (A → Io D E B) → Io D E B
  bind first next d = and_then (first d) next

abbrev pub page_magic : ℕ
page_magic = 0x5247_5047

abbrev pub zeros : ℕ → List ℕ
zeros zero = []
zeros (suc n) = 0 ∷ zeros n

unfoldable pub has_valid_magic_bytes : List ℕ → Bool
has_valid_magic_bytes buf =
    if ltb (length buf) 28 then false else from_le_bytes (take 4 (drop 24 buf)) == page_magic

-- `crc32c_append` goes on with the checksum, so it is the checksum of the parts together.
unfoldable pub compute_checksum_bytes : Checksums → List ℕ → ℕ
compute_checksum_bytes sums buf = sums.crc32c (take 28 buf ++ (0 ∷ 0 ∷ 0 ∷ 0 ∷ [] ++ drop 32 buf))

unfoldable pub update_checksum_bytes : Checksums → List ℕ → List ℕ
unfolding compute_checksum_bytes
update_checksum_bytes sums buf =
    take 28 buf ++ (le_bytes 4 (compute_checksum_bytes sums buf) ++ drop 32 buf)

-- The page with the LSN of the record in its first 8 bytes
abbrev pub stamp : List ℕ → ℕ → List ℕ
stamp page record_lsn = be_bytes 8 record_lsn ++ drop 8 page

abbrev pub fill : List ℕ → List ℕ
fill after_image =
    let copy_len = min (length after_image) page_size in
    take copy_len after_image ++ zeros (page_size - copy_len)

-- The bytes that `apply_after_image` writes
unfoldable pub page_buf : Checksums → List ℕ → ℕ → List ℕ
page_buf sums after_image record_lsn =
    let stamped = stamp (fill after_image) record_lsn in
    if (min (length after_image) page_size == page_size) && has_valid_magic_bytes stamped
    then update_checksum_bytes sums stamped
    else stamped

-- The kinds of records that this phase looks at
unfoldable pub is_physical_page_record : RecordType → Bool
is_physical_page_record page_insert = true
is_physical_page_record page_update = true
is_physical_page_record page_free = true
is_physical_page_record bitmap_update = true
is_physical_page_record index_page_insert = true
is_physical_page_record index_page_update = true
is_physical_page_record index_page_free = true
is_physical_page_record clr = true
is_physical_page_record _ = false

abbrev pub is_committed_status : TxStatus → Bool
is_committed_status committed = true
is_committed_status active = false
is_committed_status aborted = false

abbrev pub is_committed : Option AttEntry → Bool
is_committed none = false
is_committed (some e) = is_committed_status e.status

abbrev pub is_entry : Option DptEntry → Bool
is_entry none = false
is_entry (some _) = true

abbrev pub contains_key : ℕ → List DptEntry → Bool
contains_key page_id dpt = is_entry (find_page page_id dpt)

abbrev pub in_dpt : List DptEntry → Option (ℕ × List ℕ) → Option (ℕ × List ℕ)
in_dpt dpt none = none
in_dpt dpt (some (page_id, image)) =
    if contains_key page_id dpt then some (page_id, image) else none

-- The least LSN of the table, 0 for an empty one
abbrev pub min_lsn : List DptEntry → ℕ
min_lsn [] = 0
min_lsn (e ∷ []) = e.rec_lsn
min_lsn (e ∷ (d ∷ dpt)) = min e.rec_lsn (min_lsn (d ∷ dpt))

-- The tests of one round up to the look at the file: the page and the image to apply.
unfoldable pub to_redo : HashMap AttEntry → List DptEntry → ℕ → WalRecord → Option (ℕ × List ℕ)
to_redo att dpt min_rec_lsn rec =
    if ltb rec.lsn min_rec_lsn
    then none
    else if not (is_physical_page_record rec.record_type)
    then none
    else if not (is_clr rec.record_type) && not (is_committed (att rec.txid))
    then none
    else in_dpt dpt (extract_page_and_image rec)

module _ {D E : Type 0} (io : DataFile D E) (sums : Checksums) where
  unfoldable pub read_page_lsn : ℕ → Io D E ℕ
  read_page_lsn page_id d =
      let offset = page_id * page_size % 2 ^ 64 in
      if not (io.exists d)
      then (ok 0, d)
      else bind (io.open_file false)
          (λ _. bind io.len (λ file_len.
            if ltb file_len (offset + 8)
            then pure 0
            else bind (io.read_at 8 offset) (λ hdr. pure (from_be_bytes hdr))))
          d

  unfoldable pub apply_after_image : ℕ → List ℕ → ℕ → Io D E Unit
  apply_after_image page_id after_image record_lsn =
      bind (io.open_file true)
        λ _. io.write_at (page_buf sums after_image record_lsn) (page_id * page_size % 2 ^ 64)

  -- What one round does with the page and the image, and how many images it applies
  unfoldable pub redo_page : ℕ → Option (ℕ × List ℕ) → Io D E ℕ
  redo_page lsn none = pure 0
  redo_page lsn (some (page_id, image)) = bind (read_page_lsn page_id) λ on_disk_page_lsn.
      if leb lsn on_disk_page_lsn
      then pure 0
      else bind (apply_after_image page_id image lsn) (λ _. pure 1)

  unfoldable pub redo_loop : HashMap AttEntry → List DptEntry → ℕ → List WalRecord → Io D E ℕ
  redo_loop att dpt min_rec_lsn [] = pure 0
  redo_loop att dpt min_rec_lsn (rec ∷ records) =
      bind (redo_page rec.lsn (to_redo att dpt min_rec_lsn rec))
        λ count. bind (redo_loop att dpt min_rec_lsn records) λ rest. pure (count + rest)

  unfoldable pub redo : List WalRecord → HashMap AttEntry → List DptEntry → Io D E ℕ
  redo records att [] = pure 0
  redo records att (e ∷ dpt) = redo_loop att (e ∷ dpt) (min_lsn (e ∷ dpt)) records
