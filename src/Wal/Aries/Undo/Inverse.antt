-- ===== src/Wal/Aries/Undo/Inverse.antt =====
-- The inverse of a record, and the record of the undone work.
use rgraph.Prelude.{
  ℕ, zero, suc, ◌-◌, ◌^◌, ◌<◌, ◌≡◌, refl, ap, ◌∙◌, Bool, true, false, Option, none, some, List, [],
  ◌∷◌, ◌++◌, append-nil, length, length-take, take, take-drop-take, min, if◌then◌else◌, arith,
}
use rgraph.Wal.Record.{Checksums, WalRecord, new, seal}
use rgraph.Wal.Aries.Payload.{
  page_size, extract_page_and_image, extract_before_image, clr_undo_next_lsn,
  extract-build_clr_payload,
}
use rgraph.Wal.Aries.Redo.{pure, and_then, DataFile, zeros, fill}
use rgraph.Wal.Aries.Redo.Pages.{length-zeros}
use rgraph.Wal.Aries.Undo.{
  undoable, Log, undo_record, apply_inverse, clr_image, inverse_image, image_or_zeros,
  image_or_tombstone, is_insert, clr_record,
}

abbrev pub trim : List ℕ → List ℕ
trim image = take (min (length image) page_size) image

fill-trim : (image : List ℕ) → fill (trim image) ≡ fill image
fill-trim image =
    let k : ℕ = min (length image) 8192 in
    let cut : length (take k image) ≡ k = length-take k image (omega arith) in
    let same : min k 8192 ≡ k = omega arith in
    rw (cut, same, take-drop-take 0 k k image (omega arith)) refl

take-zeros : (n : ℕ) → take n (zeros n) ≡ zeros n
take-zeros zero = refl
take-zeros (suc n) = ap (◌∷◌ 0) (take-zeros n)

whole_of_zeros :
    (n : ℕ)
    → take (min (length (zeros n)) n) (zeros n) ++ zeros (n - min (length (zeros n)) n) ≡ zeros n
whole_of_zeros n =
    let whole : min (length (zeros n)) n ≡ n = omega (arith, length-zeros n) in
    let none_left : n - n ≡ 0 = omega arith in
    rw (whole, take-zeros n, none_left) (append-nil (zeros n))

abbrev given : Option (List ℕ) → List ℕ
given none = []
given (some image) = image

tombstone :
    (b : Bool) (buf : List ℕ)
    → (if b then some (zeros page_size) else none) ≡ some buf
    → fill (zeros page_size) ≡ buf
tombstone true buf h = whole_of_zeros page_size ∙ ap given h
tombstone false buf h = cc h

written :
    (sums : Checksums) (rec : WalRecord) (buf : List ℕ) (o : Option (List ℕ))
    → extract_before_image sums rec.payload ≡ o
    → image_or_tombstone rec.record_type o ≡ some buf
    → fill (image_or_zeros o) ≡ buf
written sums rec buf none e h = tombstone (is_insert rec.record_type) buf h
written sums rec buf (some image) e h = ap given h

-- When the inverse of a record writes the page, then the record of the undone work that is logged
-- with it says which page, goes on at the record before, and has an image that fills the page to
-- the bytes that were written. The page id and the LSN of the record before have 64 bits.
pub inverse_image-clr_record :
    (sums : Checksums) (rec : WalRecord) (page_id now : ℕ) (buf : List ℕ)
    → inverse_image sums rec ≡ some buf
    → rec.prev_lsn < 2 ^ 64
    → page_id < 2 ^ 64
    → (clr_undo_next_lsn (clr_record sums rec page_id now).payload ≡ rec.prev_lsn)
      × ((extract_page_and_image (clr_record sums rec page_id now)
            ≡ some (page_id, trim (clr_image sums rec)))
          × (fill (trim (clr_image sums rec)) ≡ buf))
unfolding inverse_image clr_image clr_record new seal
inverse_image-clr_record sums rec page_id now buf h hu hp =
    let (next, page) =
      extract-build_clr_payload (clr_record sums rec page_id now) rec.prev_lsn page_id
        (clr_image sums rec) refl refl hu hp in
    (
      next,
      (
        page,
        fill-trim (clr_image sums rec)
            ∙ written sums rec buf (extract_before_image sums rec.payload) refl h,
      ),
    )

take-min-zeros : (n : ℕ) → take (min (length (zeros n)) n) (zeros n) ≡ zeros n
take-min-zeros n =
    let whole : min (length (zeros n)) n ≡ n = omega (arith, length-zeros n) in
    rw whole (take-zeros n)

trim-zeros : trim (zeros page_size) ≡ zeros page_size
trim-zeros = take-min-zeros page_size

none_written :
    (sums : Checksums) (rec : WalRecord)
    → extract_before_image sums rec.payload ≡ none
    → is_insert rec.record_type ≡ false
    → inverse_image sums rec ≡ none
unfolding inverse_image
none_written sums rec h k = rw (h, k) refl

-- The undo of a record of a page, of a kind that has an inverse but is no insert, that has no
-- before-image: it makes no call of the data file, and appends one record of the undone work to the
-- log, which counts one. Though nothing was written, the image in that record, for the page of the
-- undone one, is a page of zeros. The page id and the LSN of the record before have 64 bits.
pub undo_record_without_image :
    {D E : Type 0} (io : DataFile D E) (wal : Log D E) (sums : Checksums) (rec : WalRecord)
    (page_id : ℕ) (after_image : List ℕ) (d : D)
    → undoable rec.record_type ≡ true
    → is_insert rec.record_type ≡ false
    → extract_page_and_image rec ≡ some (page_id, after_image)
    → extract_before_image sums rec.payload ≡ none
    → rec.prev_lsn < 2 ^ 64
    → page_id < 2 ^ 64
    → (undo_record io wal sums rec d
        ≡ and_then (wal.append (clr_record sums rec page_id (wal.now d)) d) (λ lsn. pure 1))
      × (extract_page_and_image (clr_record sums rec page_id (wal.now d))
          ≡ some (page_id, zeros page_size))
unfolding undo_record apply_inverse clr_record clr_image new seal
undo_record_without_image io wal sums rec page_id after_image d inverse k page h hu hp =
    let (next, logged) =
      extract-build_clr_payload (clr_record sums rec page_id (wal.now d)) rec.prev_lsn page_id
        (clr_image sums rec) refl refl hu hp in
    let zeroed : trim (clr_image sums rec) ≡ zeros page_size = rw (clr_image, h) trim-zeros in
    (
      rw (inverse, page, none_written sums rec h k) refl,
      logged ∙ ap (λ image. some (page_id, image)) zeroed,
    )
