-- ===== src/Wal/Checkpoint/Tables.antt =====
-- The dirty pages of a checkpoint, read back by the analysis.
use rgraph.Prelude.{
  true, ℕ, ◌+◌, ◌*◌, ◌%◌, ◌^◌, ◌<◌, ◌≡◌, refl, ap, ◌∙◌, false, List, [], ◌∷◌, ◌++◌, append_assoc,
  All, length, length-append, drop-append, drop_add, ltb, ◌==◌, Bool-cases, inl, inr, arith,
  if◌then◌else◌,
}
use rgraph.Prelude.Bytes.{be_bytes, from_be_bytes-be_bytes, length-be_bytes}
use rgraph.Wal.Record.{field}
use rgraph.Wal.Aries.Analysis.{DptEntry, entries_at, checkpoint_pages}
use rgraph.Wal.Checkpoint.{Frame, no_lsn, with_lsn, entry_bytes, end_payload}

pub record IsFrame (f : Frame) : Type 0 where
  pub page_id : f.page_id < 2 ^ 64
  pub rec_lsn : f.rec_lsn < 2 ^ 64

abbrev entry_of : Frame → DptEntry
entry_of f = record { page_id = f.page_id; rec_lsn = f.rec_lsn }

abbrev entries_of : List Frame → List DptEntry
entries_of [] = []
entries_of (f ∷ frames) = entry_of f ∷ entries_of frames

-- What the table of dirty pages should have: the frames whose LSN is a number that a record can
-- have, which `u64::MAX` is not.
unfoldable pub dirty_pages : List Frame → List DptEntry
dirty_pages [] = []
dirty_pages (f ∷ frames) =
    let rest = dirty_pages frames in
    if ltb f.rec_lsn 0xffff_ffff_ffff_ffff
    then record { page_id = f.page_id; rec_lsn = f.rec_lsn } ∷ rest
    else rest

dirty_pages-with_lsn :
    (frames : List Frame) → All IsFrame frames → entries_of (with_lsn frames) ≡ dirty_pages frames
unfolding dirty_pages with_lsn
dirty_pages-with_lsn [] v = refl
dirty_pages-with_lsn (f ∷ frames) (v, vs) = elim (Bool-cases (f.rec_lsn == no_lsn)) [
  | inl none_yet ↦
      let e : ltb f.rec_lsn 0xffff_ffff_ffff_ffff ≡ false = ground (arith, none_yet) in
      rw (none_yet, e) (dirty_pages-with_lsn frames vs)
  | inr some_lsn ↦
      let small = v.rec_lsn in
      let e : ltb f.rec_lsn 0xffff_ffff_ffff_ffff ≡ true = ground (arith, some_lsn) in
      rw (some_lsn, e) (ap (λ es. entry_of f ∷ es) (dirty_pages-with_lsn frames vs))
]

length-entries_of : (frames : List Frame) → length (entries_of frames) ≡ length frames
length-entries_of [] = refl
length-entries_of (f ∷ frames) = omega (arith, length-entries_of frames)

length-entry_bytes : (frames : List Frame) → length (entry_bytes frames) ≡ length frames * 16
unfolding entry_bytes be_bytes
length-entry_bytes [] = refl
length-entry_bytes (f ∷ frames) = omega (arith, length-entry_bytes frames)

with_lsn-IsFrame : (frames : List Frame) → All IsFrame frames → All IsFrame (with_lsn frames)
unfolding with_lsn
with_lsn-IsFrame [] v = tt
with_lsn-IsFrame (f ∷ frames) (v, vs) = elim (Bool-cases (f.rec_lsn == no_lsn)) [
  | inl none_yet ↦ rw none_yet (with_lsn-IsFrame frames vs)
  | inr some_lsn ↦ rw some_lsn (v, with_lsn-IsFrame frames vs)
]

-- The two fields at the end of a front part
module _ (front : List ℕ) (p l : ℕ) (rest : List ℕ) where
  abbrev there : List ℕ
  there = front ++ (be_bytes 8 p ++ (be_bytes 8 l ++ rest))

  field_page : p < 2 ^ 64 → field (length front) 8 there ≡ p
  unfolding field
  field_page h =
      rw (drop-append front (be_bytes 8 p ++ (be_bytes 8 l ++ rest)))
        (unfold be_bytes in from_be_bytes-be_bytes 8 p h)

  field_lsn : l < 2 ^ 64 → field (length front + 8) 8 there ≡ l
  unfolding field
  field_lsn h =
      rw
        (
          drop_add (length front) 8 there,
          drop-append front (be_bytes 8 p ++ (be_bytes 8 l ++ rest)),
        )
        (unfold be_bytes in from_be_bytes-be_bytes 8 l h)

  moved : there ≡ (front ++ (be_bytes 8 p ++ be_bytes 8 l)) ++ rest
  moved =
      rw
        (
          append_assoc front (be_bytes 8 p ++ be_bytes 8 l) rest,
          append_assoc (be_bytes 8 p) (be_bytes 8 l) rest,
        )
        refl

  moved_on : length front + 16 ≡ length (front ++ (be_bytes 8 p ++ be_bytes 8 l))
  moved_on = omega (
    arith,
    length-append front (be_bytes 8 p ++ be_bytes 8 l),
    length-append (be_bytes 8 p) (be_bytes 8 l),
    length-be_bytes 8 p,
    length-be_bytes 8 l,
  )

entries_at-entry_bytes :
    (frames : List Frame) (front tail : List ℕ)
    → All IsFrame frames
    → entries_at (length frames) (length front) (front ++ (entry_bytes frames ++ tail))
      ≡ entries_of frames
unfolding entries_at entry_bytes
entries_at-entry_bytes [] front tail v = refl
entries_at-entry_bytes (f ∷ frames) front tail (v, vs) =
    let rest : List ℕ = entry_bytes frames ++ tail in
    let one : List ℕ = be_bytes 8 f.page_id ++ be_bytes 8 f.rec_lsn in
    let split : front ++ (entry_bytes (f ∷ frames) ++ tail) ≡ there front f.page_id f.rec_lsn rest =
      rw
        (
          append_assoc (be_bytes 8 f.page_id) (be_bytes 8 f.rec_lsn ++ entry_bytes frames) tail,
          append_assoc (be_bytes 8 f.rec_lsn) (entry_bytes frames) tail,
        )
        refl in
    rw
      (
        split,
        field_page front f.page_id f.rec_lsn rest v.page_id,
        field_lsn front f.page_id f.rec_lsn rest v.rec_lsn,
      )
      (ap (λ es. record { page_id = f.page_id; rec_lsn = f.rec_lsn } ∷ es)
        (rw (moved front f.page_id f.rec_lsn rest, moved_on front f.page_id f.rec_lsn rest)
          (entries_at-entry_bytes frames (front ++ one) tail vs)))

-- A payload with the entries of some frames
module _ (kept : List Frame) (v : All IsFrame kept) (small : length kept < 2 ^ 32) where
  abbrev payload : List ℕ
  payload = be_bytes 4 (length kept % 2 ^ 32) ++ (entry_bytes kept ++ be_bytes 4 0)

  count_of : field 0 4 payload ≡ length kept
  unfolding field be_bytes
  count_of = from_be_bytes-be_bytes 4 (length kept % 2 ^ 32) (omega arith) ∙ omega arith

  long_enough :
      (ltb (length payload) 4 ≡ false) × (ltb (length payload) (length kept * 16 + 4) ≡ false)
  unfolding be_bytes
  long_enough =
      ground (arith, length-append (entry_bytes kept) (be_bytes 4 0), length-entry_bytes kept)

  entries_back : entries_at (length kept) 4 payload ≡ entries_of kept
  entries_back =
      let back = entries_at-entry_bytes kept (be_bytes 4 (length kept % 2 ^ 32)) (be_bytes 4 0) v in
      rw (length-be_bytes 4 (length kept % 2 ^ 32)) at back

  checkpoint_pages-payload : checkpoint_pages payload ≡ entries_of kept
  unfolding checkpoint_pages
  checkpoint_pages-payload = rw (long_enough.0, count_of, long_enough.1) entries_back

-- The analysis reads from the record that ends a checkpoint exactly the dirty frames whose LSN is
-- below 2^64 - 1, each with its page and its LSN, in their order, and no frame without an LSN, which
-- has 2^64 - 1 for it; the fields have 64 bits, and there are less than 2^32 frames with an LSN.
pub checkpoint_pages-end_payload :
    (frames : List Frame)
    → All IsFrame frames
    → length (dirty_pages frames) < 2 ^ 32
    → checkpoint_pages (end_payload frames) ≡ dirty_pages frames
unfolding end_payload
checkpoint_pages-end_payload frames v small =
    let same = dirty_pages-with_lsn frames v in
    let count = length-entries_of (with_lsn frames) in
    let kept : length (entries_of (with_lsn frames)) < 2 ^ 32 = rw same small in
    checkpoint_pages-payload (with_lsn frames) (with_lsn-IsFrame frames v) (omega arith) ∙ same
