-- ===== src/Wal/Segment/Scan.antt =====
-- What the scan finds in a log whose end may be torn.
use rgraph.Prelude.{
  ℕ, zero, suc, ◌+◌, ◌^◌, ◌≤◌, ◌<◌, ◌≡◌, refl, ap, ◌∙◌, true, none, some, List, [], ◌∷◌, ◌++◌,
  append_assoc, length, length-append, take, All, ltb, lt→ltb, Bool-cases, inl, inr, arith,
}
use rgraph.Wal.Record.{Checksums, WalRecord, encode, decode, on_disk_size}
use rgraph.Wal.Record.RoundTrip.{IsWide, IsRecord, length-encode_record, decode-encode_record}
use rgraph.Wal.Record.Torn.{decode_torn}
use rgraph.Wal.Segment.{scan, load_single_segment, last_valid_offset}

-- The bytes of a log
abbrev pub log_bytes : List WalRecord → List ℕ
log_bytes [] = []
log_bytes (r ∷ rs) = encode r ++ log_bytes rs

-- Bytes that start with no whole record, wherever they stand at the end of a buffer.
abbrev pub IsTorn : Checksums → List ℕ → Type 0
IsTorn sums tail = (before : List ℕ) → decode sums (before ++ tail) (length before) ≡ none

pub size_pos : (r : WalRecord) → 58 ≤ length (encode r)
unfolding on_disk_size
size_pos r = omega (arith, length-encode_record r [])

pub next_offset :
    (before : List ℕ) (r : WalRecord) → length before + on_disk_size r ≡ length (before ++ encode r)
next_offset before r = omega (arith, length-append before (encode r), length-encode_record r [])

pub regroup :
    (before e log tail : List ℕ) → before ++ ((e ++ log) ++ tail) ≡ (before ++ e) ++ (log ++ tail)
regroup before e log tail = rw (append_assoc e log tail, append_assoc before e (log ++ tail)) refl

pub more_bytes :
    (before : List ℕ) (r : WalRecord) (rs : List WalRecord) (tail : List ℕ)
    → ltb (length before) (length (before ++ (log_bytes (r ∷ rs) ++ tail))) ≡ true
more_bytes before r rs tail = lt→ltb _ _ (
    omega (
      arith,
      length-append before (log_bytes (r ∷ rs) ++ tail),
      length-append (log_bytes (r ∷ rs)) tail,
      length-append (encode r) (log_bytes rs),
      size_pos r,
    ))

-- A record at the front of what is left reads back.
module _ (sums : Checksums) (wide : IsWide sums) where
  pub decode-log_bytes :
      (r : WalRecord) (rs : List WalRecord) (before tail : List ℕ)
      → IsRecord sums r
      → decode sums (before ++ (log_bytes (r ∷ rs) ++ tail)) (length before)
        ≡ some (r, on_disk_size r)
  decode-log_bytes r rs before tail v =
      rw (append_assoc (encode r) (log_bytes rs) tail)
        (decode-encode_record sums r before (log_bytes rs ++ tail) wide v)

  module _ (tail : List ℕ) (torn : IsTorn sums tail) where
    pub scan-log_bytes :
        (rs : List WalRecord) (before : List ℕ) (fuel : ℕ)
        → All (IsRecord sums) rs
        → length (log_bytes rs ++ tail) ≤ fuel
        → scan sums fuel (before ++ (log_bytes rs ++ tail)) (length before)
          ≡ (rs, length before + length (log_bytes rs))
    unfolding scan
    scan-log_bytes [] before zero v enough = ap (λ n. ([], n)) (omega arith)
    scan-log_bytes [] before (suc fuel) v enough =
        elim (Bool-cases (ltb (length before) (length (before ++ tail)))) [
          | inl more ↦ rw (scan, more, torn before) (ap (λ n. ([], n)) (omega arith))
          | inr done ↦ rw (scan, done) (ap (λ n. ([], n)) (omega arith))
        ]
    scan-log_bytes (r ∷ rs) before zero v enough = absurd (
        omega (
          arith,
          length-append (log_bytes (r ∷ rs)) tail,
          length-append (encode r) (log_bytes rs),
          size_pos r,
        ))
    scan-log_bytes (r ∷ rs) before (suc fuel) (v, vs) enough =
        rw
          (
            scan,
            more_bytes before r rs tail,
            decode-log_bytes r rs before tail v,
            regroup before (encode r) (log_bytes rs) tail,
          )
          (rw
            (
              next_offset before r,
              scan-log_bytes rs (before ++ encode r) fuel vs (
                  omega (
                    arith,
                    length-append (log_bytes (r ∷ rs)) tail,
                    length-append (encode r) (log_bytes rs),
                    length-append (log_bytes rs) tail,
                    size_pos r,
                  )),
            )
            (ap (λ n. (r ∷ rs, n))
              (omega
                (arith, length-append before (encode r), length-append (encode r) (log_bytes rs)))))

-- On a log of well-formed records whose end is torn, the scan of a segment finds the records of
-- the log and no other, and the offset at which the torn part begins; the checksums have 32 and 64
-- bits.
pub load-log_bytes :
    (sums : Checksums) (rs : List WalRecord) (tail : List ℕ)
    → IsWide sums
    → IsTorn sums tail
    → All (IsRecord sums) rs
    → (load_single_segment sums (log_bytes rs ++ tail) ≡ rs)
      × (last_valid_offset sums (log_bytes rs ++ tail) ≡ length (log_bytes rs))
unfolding load_single_segment last_valid_offset
load-log_bytes sums rs tail wide torn vs =
    let found : scan sums (length (log_bytes rs ++ tail)) (log_bytes rs ++ tail) 0
        ≡ (rs, 0 + length (log_bytes rs)) =
      scan-log_bytes sums wide tail torn rs [] (length (log_bytes rs ++ tail)) vs (omega arith) in
    (ap (λ p. p.0) found, ap (λ p. p.1) found ∙ omega arith)

-- What a crash leaves of one more record, or nothing, is a torn end.
pub cut-IsTorn :
    (sums : Checksums) (r : WalRecord) (k : ℕ)
    → length r.payload < 2 ^ 32
    → k < length (encode r)
    → IsTorn sums (take k (encode r))
cut-IsTorn sums r k small short before = decode_torn sums r before k small short
