-- ===== src/Wal/Aries/Redo/Latest.antt =====
-- The second phase against the last image of each page.
use rgraph.Prelude.{
  ◌&&◌, not, ℕ, ◌+◌, ◌≡◌, refl, ap, ◌∙◌, Bool, true, false, Option, none, some, List, [], ◌∷◌,
  HashMap, ltb, leb, ◌==◌, ==→eq, ==-ne, Bool-cases, inl, inr, if◌then◌else◌, arith,
}
use rgraph.Wal.Record.{Checksums, WalRecord}
use rgraph.Wal.Writer.{ok}
use rgraph.Wal.Aries.Analysis.{AttEntry, DptEntry}
use rgraph.Wal.Aries.Redo.{
  is_committed, is_clr, is_physical_page_record, in_dpt, extract_page_and_image, err, IoResult,
  DataFile, page_buf, to_redo, redo_page, redo_loop, min_lsn, redo,
}
use rgraph.Wal.Aries.Redo.Pages.{
  FileIsThere, lsn_of, length-page_buf, read_page_lsn-lsn_of, apply_after_image-written,
}
use rgraph.Wal.Aries.Redo.Plan.{
  Plan, image_for, latest, settle, InFile, IsPlan, latest-Newer, settle_step,
}

module _ {D E : Type 0} (io : DataFile D E) (file : FileIsThere io) (sums : Checksums) where
  -- The file, and the count, after one record, by its page and its image
  abbrev page_count : ℕ → Option (ℕ × List ℕ) → D → ℕ
  page_count lsn none d = 0
  page_count lsn (some (p, image)) d = if leb lsn (lsn_of (file.page d p)) then 0 else 1

  abbrev page_file : ℕ → Option (ℕ × List ℕ) → D → D
  page_file lsn none d = d
  page_file lsn (some (p, image)) d =
      if leb lsn (lsn_of (file.page d p)) then d else file.written (page_buf sums image lsn) p d

  redo_page-page_file :
      (lsn : ℕ) (o : Option (ℕ × List ℕ)) (d : D)
      → InFile o
      → redo_page io sums lsn o d ≡ (ok (page_count lsn o d), page_file lsn o d)
  unfolding redo_page
  redo_page-page_file lsn none d v = refl
  redo_page-page_file lsn (some (p, image)) d v =
      elim (Bool-cases (leb lsn (lsn_of (file.page d p)))) [
        | inl newer ↦ rw (read_page_lsn-lsn_of io file sums p d v, newer) refl
        | inr older ↦
            rw
              (
                read_page_lsn-lsn_of io file sums p d v,
                older,
                apply_after_image-written io file sums p image lsn d v,
              )
              refl
      ]

  page-page_file :
      (lsn : ℕ) (o : Option (ℕ × List ℕ)) (d : D) (p : ℕ)
      → file.page (page_file lsn o d) p ≡ settle sums (image_for p lsn o) (file.page d p)
  page-page_file lsn none d p = refl
  page-page_file lsn (some (q, image)) d p = elim (Bool-cases (leb lsn (lsn_of (file.page d q)))) [
    | inl newer ↦ elim (Bool-cases (p == q)) [
      | inl same ↦
          let e : p ≡ q = ==→eq p q same in
          let stale : ltb (lsn_of (file.page d p)) lsn ≡ false = rw e (ground arith) in
          rw (newer, same, stale) refl
      | inr other ↦ rw (newer, other) refl
    ]
    | inr older ↦ elim (Bool-cases (p == q)) [
      | inl same ↦
          let e : p ≡ q = ==→eq p q same in
          let fresh : ltb (lsn_of (file.page d p)) lsn ≡ true = rw e (ground arith) in
          rw (older, same, fresh, e)
            (file.written_here (page_buf sums image lsn) q d (length-page_buf sums image lsn))
      | inr other ↦
          rw (older, other)
            (file.written_there (page_buf sums image lsn) q p d (length-page_buf sums image lsn)
              (==-ne p q other))
    ]
  ]

  abbrev loop_count : Plan → D → ℕ
  loop_count [] d = 0
  loop_count ((lsn, o) ∷ plan) d = page_count lsn o d + loop_count plan (page_file lsn o d)

  abbrev loop_file : Plan → D → D
  loop_file [] d = d
  loop_file ((lsn, o) ∷ plan) d = loop_file plan (page_file lsn o d)

  page-loop_file :
      (below : ℕ) (plan : Plan) (d : D) (p : ℕ)
      → IsPlan below plan
      → file.page (loop_file plan d) p ≡ settle sums (latest p plan) (file.page d p)
  page-loop_file below [] d p v = refl
  page-loop_file below ((lsn, o) ∷ plan) d p (h, (small, (inside, v))) =
      page-loop_file lsn plan (page_file lsn o d) p v
      ∙ ap (settle sums (latest p plan)) (page-page_file lsn o d p)
      ∙ settle_step sums (latest p plan) p lsn o (file.page d p) small (latest-Newer p lsn plan v)

-- The plan of a log
abbrev pub plan_of : HashMap AttEntry → List DptEntry → ℕ → List WalRecord → Plan
plan_of att dpt min_rec_lsn [] = []
plan_of att dpt min_rec_lsn (r ∷ rs) =
    (r.lsn, to_redo att dpt min_rec_lsn r) ∷ plan_of att dpt min_rec_lsn rs

abbrev pub is_ok : {E A : Type 0} → IoResult E A → Bool
is_ok (ok a) = true
is_ok (err e) = false

module _ {D E : Type 0} (io : DataFile D E) (file : FileIsThere io) (sums : Checksums)
    (att : HashMap AttEntry) (dpt : List DptEntry) (min_rec_lsn : ℕ) where
  redo_loop-loop_file :
      (below : ℕ) (rs : List WalRecord) (d : D)
      → IsPlan below (plan_of att dpt min_rec_lsn rs)
      → redo_loop io sums att dpt min_rec_lsn rs d ≡ (
        ok (loop_count io file sums (plan_of att dpt min_rec_lsn rs) d),
        loop_file io file sums (plan_of att dpt min_rec_lsn rs) d,
      )
  unfolding redo_loop
  redo_loop-loop_file below [] d v = refl
  redo_loop-loop_file below (r ∷ rs) d (h, (small, (inside, v))) =
      rw
        (
          redo_loop,
          redo_page-page_file io file sums r.lsn (to_redo att dpt min_rec_lsn r) d inside,
          redo_loop-loop_file r.lsn rs
              (page_file io file sums r.lsn (to_redo att dpt min_rec_lsn r) d) v,
        )
        refl

  pub redo_loop-latest :
      (below : ℕ) (rs : List WalRecord) (d : D) (p : ℕ)
      → IsPlan below (plan_of att dpt min_rec_lsn rs)
      → (is_ok (redo_loop io sums att dpt min_rec_lsn rs d).0 ≡ true)
        × (file.page (redo_loop io sums att dpt min_rec_lsn rs d).1 p
            ≡ settle sums (latest p (plan_of att dpt min_rec_lsn rs)) (file.page d p))
  redo_loop-latest below rs d p v =
      rw (redo_loop-loop_file below rs d v)
        (refl, page-loop_file io file sums below (plan_of att dpt min_rec_lsn rs) d p v)

none_at_last :
    (a b c : Bool) (o : Option (ℕ × List ℕ))
    → o ≡ none
    → (if a then none else if b then none else if c then none else o) ≡ none
none_at_last true b c o h = refl
none_at_last false true c o h = refl
none_at_last false false true o h = refl
none_at_last false false false o h = h

not_in_empty : (o : Option (ℕ × List ℕ)) → in_dpt [] o ≡ none
not_in_empty none = refl
not_in_empty (some x) = refl

no_pages :
    (att : HashMap AttEntry) (min_rec_lsn : ℕ) (r : WalRecord) → to_redo att [] min_rec_lsn r ≡ none
unfolding to_redo
no_pages att min_rec_lsn r =
    none_at_last (ltb r.lsn min_rec_lsn) (not (is_physical_page_record r.record_type))
      (not (is_clr r.record_type) && not (is_committed (att r.txid))) _
      (not_in_empty (extract_page_and_image r))

no_latest :
    (att : HashMap AttEntry) (min_rec_lsn p : ℕ) (rs : List WalRecord)
    → latest p (plan_of att [] min_rec_lsn rs) ≡ none
no_latest att min_rec_lsn p [] = refl
no_latest att min_rec_lsn p (r ∷ rs) =
    rw (no_latest att min_rec_lsn p rs, no_pages att min_rec_lsn r) refl

-- `redo` on a data file on which no call fails, and a log of rising LSNs, ends without an error; a
-- page is left as the last image of it that is to be redone, if that is newer than the page, and
-- else as it was.
pub redo-latest :
    {D E : Type 0} (io : DataFile D E) (file : FileIsThere io) (sums : Checksums)
    (rs : List WalRecord) (att : HashMap AttEntry) (dpt : List DptEntry) (d : D) (p : ℕ)
    → IsPlan 0 (plan_of att dpt (min_lsn dpt) rs)
    → (is_ok (redo io sums rs att dpt d).0 ≡ true)
      × (file.page (redo io sums rs att dpt d).1 p
          ≡ settle sums (latest p (plan_of att dpt (min_lsn dpt) rs)) (file.page d p))
unfolding redo
redo-latest io file sums rs att [] d p v = rw (no_latest att 0 p rs) (refl, refl)
redo-latest io file sums rs att (e ∷ dpt) d p v =
    redo_loop-latest io file sums att (e ∷ dpt) (min_lsn (e ∷ dpt)) 0 rs d p v
