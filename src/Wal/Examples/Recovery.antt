-- ===== src/Wal/Examples/Recovery.antt =====
-- The theorems on the recovery, with a data file as a count and the images of its pages.
use rgraph.Prelude.{
  ℕ, ◌+◌, ◌*◌, ◌/◌, ◌≤◌, ◌≡◌, ◌≢◌, refl, true, false, some, List, [], ◌∷◌, ◌++◌, take, ltb, ◌==◌,
  ==_refl, max, Bool-cases, inl, inr, if◌then◌else◌, arith,
}
use rgraph.Prelude.Bytes.{from_be_bytes}
use rgraph.Wal.Record.{field, WalRecord}
use rgraph.Wal.Record.Kind.{begin}
use rgraph.Wal.Writer.{ok}
use rgraph.Wal.Aries.Payload.{
  page_id_from_payload, extract_page_and_image, page_size, embed_before_image, extract_before_image,
  extract_before_image-embed_before_image,
}
use rgraph.Wal.Aries.Analysis.{analysis, arm_of, analyse, analysis_loop, dpt_of, att_of}
use rgraph.Wal.Aries.Redo.{DataFile, zeros, redo_loop, to_redo, is_physical_page_record}
use rgraph.Wal.Aries.Redo.Pages.{FileIsThere}
use rgraph.Wal.Aries.Redo.Latest.{plan_of}
use rgraph.Wal.Aries.Redo.Plan.{IsPlan}
use rgraph.Wal.Aries.Redo.Rerun.{redo_loop_again}
use rgraph.Wal.Examples.{counting, counting-IsWide, update, done}

abbrev pub Pages : Type 0
Pages = ℕ × (ℕ → List ℕ)

abbrev page_at : Pages → ℕ → List ℕ
page_at (n, images) q = if ltb q n then images q else zeros page_size

abbrev write_page : List ℕ → ℕ → Pages → Pages
write_page bytes p d = (max d.0 (p + 1), λ q. if q == p then bytes else page_at d q)

abbrev pub pages_io : DataFile Pages Unit
pages_io = record {
  exists = λ d. true;
  open_file = λ create d. (ok tt, d);
  len = λ d. (ok (d.0 * page_size), d);
  read_at = λ n off d. (ok (take n (page_at d (off / page_size))), d);
  write_at = λ bytes off d. (ok tt, write_page bytes (off / page_size) d);
}

page_number : (p : ℕ) → p * page_size / page_size ≡ p
page_number p = omega arith

write_page-here : (bytes : List ℕ) (p : ℕ) (d : Pages) → page_at (write_page bytes p d) p ≡ bytes
write_page-here bytes p d =
    let inside : ltb p (max d.0 (p + 1)) ≡ true = ground arith in rw (inside, ==_refl p) refl

write_page-there :
    (bytes : List ℕ) (p q : ℕ) (d : Pages) → q ≢ p → page_at (write_page bytes p d) q ≡ page_at d q
write_page-there bytes p q d h =
    let other : (q == p) ≡ false = ground arith in
    elim (Bool-cases (ltb q (max d.0 (p + 1)))) [
      | inl inside ↦ rw (inside, other) refl
      | inr behind ↦ let short : ltb q d.0 ≡ false = ground arith in rw (behind, short) refl
    ]

page_at-zeros : (d : Pages) (p : ℕ) → d.0 ≤ p → page_at d p ≡ zeros page_size
page_at-zeros d p h = let short : ltb p d.0 ≡ false = ground arith in rw short refl

unfoldable pages_law : FileIsThere pages_io
pages_law = record {
  page = page_at;
  count = λ d. d.0;
  written = write_page;
  exists = λ d. refl;
  open_file = λ create d. refl;
  len = λ d. refl;
  read_at = λ p d h. rw (page_number p) refl;
  write_at = λ bytes p d h. rw (page_number p) refl;
  behind = page_at-zeros;
  written_here = λ bytes p d h. write_page-here bytes p d;
  written_there = λ bytes p q d h. write_page-there bytes p q d;
}

-- A transaction that commits an image of page 3, and one that is cut off
abbrev log : List WalRecord
log =
    record update { record_type = begin; lsn = 16; payload = [] }
    ∷ update
    ∷ record update { txid = 8; lsn = 30 }
    ∷ done
    ∷ []

log-IsPlan_of_tables : IsPlan 0 (plan_of (analysis log).att (analysis log).dpt 16 (log ++ []))
unfolding to_redo analysis analysis_loop analyse att_of dpt_of arm_of is_physical_page_record
    extract_page_and_image page_id_from_payload field from_be_bytes
log-IsPlan_of_tables = (
  omega arith,
  (
    omega arith,
    (
      tt,
      (
        omega arith,
        (
          omega arith,
          (omega arith, (omega arith, (omega arith, (tt, (omega arith, (omega arith, (tt, tt))))))),
        ),
      ),
    ),
  ),
)

redo_loop_again_example :
    page_at
      (redo_loop pages_io counting
        (analysis log).att
        (analysis log).dpt
        16
        (log ++ [])
        (redo_loop pages_io counting (analysis log).att (analysis log).dpt 16 log (0, λ q. [])).1).1
      3
    ≡ page_at
        (redo_loop pages_io counting
          (analysis log).att
          (analysis log).dpt
          16
          (log ++ [])
          (0, λ q. [])).1
        3
unfolding pages_law
redo_loop_again_example =
    redo_loop_again pages_io pages_law counting (analysis log).att (analysis log).dpt 16 log []
      (0, λ q. []) 3 log-IsPlan_of_tables

extract_before_image-embed_before_image_example :
    extract_before_image counting (embed_before_image counting (update.payload) (5 ∷ 6 ∷ []))
    ≡ some (5 ∷ 6 ∷ [])
extract_before_image-embed_before_image_example =
    extract_before_image-embed_before_image counting update.payload (5 ∷ 6 ∷ []) counting-IsWide
