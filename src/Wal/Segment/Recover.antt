-- ===== src/Wal/Segment/Recover.antt =====
-- What `recover` replays, and the file that it leaves.
use rgraph.Prelude.{
  ℕ, zero, suc, ◌+◌, ◌≤◌, ◌≡◌, refl, ap, ◌&&◌, Option, none, some, List, [], ◌∷◌, ◌++◌, append-nil,
  length, length-append, take, drop, take-append, All, ltb, leb, Bool-cases, inl, inr,
  if◌then◌else◌, arith, elem,
}
use rgraph.Wal.Record.Kind.{
  RecordType, code, begin, commit, abort, page_insert, page_update, page_free, bitmap_update,
  checkpoint_begin, checkpoint_end, node_insert, node_delete, edge_insert, edge_delete,
  property_insert, node_update, edge_update, property_update, rdf_triple_insert, rdf_triple_delete,
  clr, segment_descriptor, compaction_begin, compaction_end, index_page_insert, index_page_update,
  index_page_free,
}
use rgraph.Prelude.Bytes.{from_be_bytes}
use rgraph.Wal.Record.{Checksums, WalRecord, encode}
use rgraph.Wal.Record.RoundTrip.{IsWide, IsRecord}
use rgraph.Wal.Segment.{Replay, Recovered, replay_record, recover_loop, recover, is_page_record}
use rgraph.Wal.Segment.Scan.{
  log_bytes, IsTorn, decode-log_bytes, next_offset, regroup, more_bytes, size_pos,
}

-- The LSN of the last record
abbrev pub last_lsn : List WalRecord → Option ℕ → Option ℕ
last_lsn [] last = last
last_lsn (r ∷ rs) last = last_lsn rs (some r.lsn)

-- The bytes of the kinds PageInsert, PageUpdate, PageFree and BitmapUpdate
abbrev pub page_codes : List ℕ
page_codes = 0x10 ∷ 0x11 ∷ 0x12 ∷ 0x13 ∷ []

module _ {S : Type 0} (start_lsn : ℕ) (effect : ℕ → List ℕ → ℕ → S → S) where
  -- What a record means: an insert, an update or a free of a page, or an update of a bitmap, at
  -- the start or later and with a page id, takes effect; no other record does.
  abbrev pub effect_of : WalRecord → S → S
  effect_of r s =
      if leb start_lsn r.lsn && (elem (code r.record_type) page_codes && leb 8 (length r.payload))
      then effect (from_be_bytes (take 8 r.payload)) (drop 8 r.payload) r.lsn s
      else s

  abbrev pub replayed : List WalRecord → S → S
  replayed [] s = s
  replayed (r ∷ rs) s = replayed rs (effect_of r s)

cut_back :
    (xs tail : List ℕ)
    → (if ltb (0 + length xs) (length (xs ++ tail))
        then take (0 + length xs) (xs ++ tail)
        else xs ++ tail)
      ≡ xs
cut_back xs tail =
    let e : 0 + length xs ≡ length xs = omega arith in
    elim (Bool-cases (ltb (length xs) (length (xs ++ tail)))) [
      | inl longer ↦ rw (e, longer) (take-append xs tail)
      | inr equal ↦ rw (e, equal) (no_tail tail (ground (arith, length-append xs tail)))
    ]
  where
    no_tail : (ys : List ℕ) → length ys ≡ 0 → xs ++ ys ≡ xs
    no_tail [] h = append-nil xs
    no_tail (y ∷ ys) h = absurd (omega arith)

is_page_record-code : (k : RecordType) → is_page_record k ≡ elem (code k) page_codes
unfolding is_page_record code
is_page_record-code k = elim k as (λ k. is_page_record k ≡ elem (code k) page_codes) [
  | begin ↦ refl
  | commit ↦ refl
  | abort ↦ refl
  | page_insert ↦ refl
  | page_update ↦ refl
  | page_free ↦ refl
  | bitmap_update ↦ refl
  | checkpoint_begin ↦ refl
  | checkpoint_end ↦ refl
  | node_insert ↦ refl
  | node_delete ↦ refl
  | edge_insert ↦ refl
  | edge_delete ↦ refl
  | property_insert ↦ refl
  | node_update ↦ refl
  | edge_update ↦ refl
  | property_update ↦ refl
  | rdf_triple_insert ↦ refl
  | rdf_triple_delete ↦ refl
  | clr ↦ refl
  | segment_descriptor ↦ refl
  | compaction_begin ↦ refl
  | compaction_end ↦ refl
  | index_page_insert ↦ refl
  | index_page_update ↦ refl
  | index_page_free ↦ refl
]

-- A callback that does not fail
abbrev pub total : {S E : Type 0} → (ℕ → List ℕ → ℕ → S → S) → Replay S E
total effect page_id image lsn s = (none, effect page_id image lsn s)

module _ {S E : Type 0} (start_lsn : ℕ) (effect : ℕ → List ℕ → ℕ → S → S) where
  replay_total :
      (r : WalRecord) (s : S)
      → replay_record {E = E} start_lsn (total effect) r s ≡ (none, effect_of start_lsn effect r s)
  unfolding replay_record
  replay_total r s =
      rw (is_page_record-code r.record_type)
        (elim (Bool-cases (
          leb start_lsn r.lsn
          && (elem (code r.record_type) page_codes && leb 8 (length r.payload)))) [
            | inl on ↦ rw (replay_record, on) refl
            | inr off ↦ rw (replay_record, off) refl
          ])

  abbrev pub recovered : List WalRecord → ℕ → Option ℕ → S → Recovered S E
  recovered rs from last s = record {
    error = none;
    last_valid_lsn = last_lsn rs last;
    offset = from + length (log_bytes rs);
    state = replayed start_lsn effect rs s;
  }

  at_end :
      (from : ℕ) (last : Option ℕ) (s : S)
      → record { error = none; last_valid_lsn = last; offset = from; state = s }
        ≡ recovered [] from last s
  at_end from last s =
      ap (λ n. record { error = none; last_valid_lsn = last; offset = n; state = s }) (omega arith)

  module _ (sums : Checksums) (wide : IsWide sums) (tail : List ℕ) (torn : IsTorn sums tail) where
    loop-log_bytes :
        (rs : List WalRecord) (before : List ℕ) (fuel : ℕ) (last : Option ℕ) (s : S)
        → All (IsRecord sums) rs
        → length (log_bytes rs ++ tail) ≤ fuel
        → recover_loop sums start_lsn
            (total effect)
            fuel
            (before ++ (log_bytes rs ++ tail))
            (length before)
            last
            s
          ≡ recovered rs (length before) last s
    unfolding recover_loop
    loop-log_bytes [] before zero last s v enough = at_end (length before) last s
    loop-log_bytes [] before (suc fuel) last s v enough =
        elim (Bool-cases (ltb (length before) (length (before ++ tail)))) [
          | inl more ↦ rw (recover_loop, more, torn before) (at_end (length before) last s)
          | inr done ↦ rw (recover_loop, done) (at_end (length before) last s)
        ]
    loop-log_bytes (r ∷ rs) before zero last s v enough = absurd (
        omega (
          arith,
          length-append (log_bytes (r ∷ rs)) tail,
          length-append (encode r) (log_bytes rs),
          size_pos r,
        ))
    loop-log_bytes (r ∷ rs) before (suc fuel) last s (v, vs) enough =
        rw
          (
            recover_loop,
            more_bytes before r rs tail,
            decode-log_bytes sums wide r rs before tail v,
            ap (λ p. p.0) (replay_total r s),
            ap (λ p. p.1) (replay_total r s),
            regroup before (encode r) (log_bytes rs) tail,
            next_offset before r,
            loop-log_bytes rs (before ++ encode r) fuel (some r.lsn)
                (effect_of start_lsn effect r s) vs
                (omega (
                  arith,
                  length-append (log_bytes (r ∷ rs)) tail,
                  length-append (encode r) (log_bytes rs),
                  length-append (log_bytes rs) tail,
                  size_pos r,
                )),
          )
          (ap
            (λ n. record {
              error = none;
              last_valid_lsn = last_lsn rs (some r.lsn);
              offset = n;
              state = replayed start_lsn effect rs (effect_of start_lsn effect r s);
            })
            (omega
              (arith, length-append before (encode r), length-append (encode r) (log_bytes rs))))

    -- On a log of well-formed records whose end is torn, with checksums of 32 and 64 bits and a
    -- callback that does not fail, `recover` replays from the start LSN on, in their order, the
    -- records of the kinds PageInsert, PageUpdate, PageFree and BitmapUpdate that have a page id, and
    -- no others: neither those of index pages nor the records of undone work. It returns the LSN of the last record; and it leaves exactly the log
    -- in the file.
    pub recover-log_bytes :
        (rs : List WalRecord) (s : S)
        → All (IsRecord sums) rs
        → recover sums start_lsn (total {E = E} effect) (log_bytes rs ++ tail) s
          ≡ (log_bytes rs, recovered rs 0 none s)
    unfolding recover
    recover-log_bytes rs s vs =
        let found : recover_loop sums start_lsn (total {E = E} effect)
              (length (log_bytes rs ++ tail)) (log_bytes rs ++ tail) 0 none s
            ≡ recovered rs 0 none s =
          loop-log_bytes rs [] (length (log_bytes rs ++ tail)) none s vs (omega arith) in
        rw found (ap (λ buf. (buf, recovered rs 0 none s)) (cut_back (log_bytes rs) tail))
