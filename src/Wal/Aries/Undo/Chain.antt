-- ===== src/Wal/Aries/Undo/Chain.antt =====
-- The chain of a transaction ends, and what the undo phase does along it.
use rgraph.Prelude.{
  ◌++◌, ◌≢◌, ==-ne, Option-cases, ℕ, zero, suc, ◌<◌, ◌≡◌, refl, Bool, true, false, Option, none,
  some, List, [], ◌∷◌, All, ◌==◌, ==→eq, Bool-cases, inl, inr, if◌then◌else◌, arith,
}
use rgraph.Wal.Record.{Checksums, WalRecord}
use rgraph.Wal.Aries.Payload.{is_clr, clr_undo_next_lsn}
use rgraph.Wal.Aries.Analysis.{AttEntry}
use rgraph.Wal.Aries.Redo.{DataFile, pure, and_then}
use rgraph.Wal.Aries.Undo.{Log, record_at, or_record, undo_record, undo_chain, undo_loop}
use rgraph.Wal.Aries.Undo.Effect.{
  Effect, flush_log, effects_of, clr_count, perform_all, counted, undo_record-effects,
}
use rgraph.Wal.Aries.Undo.Performed.{join, add_later, flush_later, nothing_later}

-- Where the chain goes from a record
abbrev pub next_lsn : WalRecord → ℕ
next_lsn r = if is_clr r.record_type then clr_undo_next_lsn r.payload else r.prev_lsn

abbrev pub PointsBack : WalRecord → Type 0
PointsBack r = next_lsn r < r.lsn

abbrev Back : ℕ → Option WalRecord → Type 0
Back lsn none = Unit
Back lsn (some r) = next_lsn r < lsn

or_record-Back :
    (lsn : ℕ) (a b : Option WalRecord) → Back lsn a → Back lsn b → Back lsn (or_record a b)
or_record-Back lsn (some r) b v w = v
or_record-Back lsn none b v w = w

record_at-Back : (lsn : ℕ) (rs : List WalRecord) → All PointsBack rs → Back lsn (record_at lsn rs)
unfolding record_at
record_at-Back lsn [] v = tt
record_at-Back lsn (r ∷ rs) (v, vs) =
    or_record-Back lsn (record_at lsn rs) (if r.lsn == lsn then some r else none)
      (record_at-Back lsn rs vs) (here (r.lsn == lsn) refl)
  where
    here : (b : Bool) → (r.lsn == lsn) ≡ b → Back lsn (if b then some r else none)
    here true h = let e : r.lsn ≡ lsn = ==→eq r.lsn lsn h in omega arith
    here false h = tt

-- The records that are undone from an LSN on: a record of undone work leads on to where it says, and
-- any other record, which is undone, to the record before it; the chain ends at the LSN 0, or at one
-- that no record has.
pub data Trail (rs : List WalRecord) : ℕ → List WalRecord → Type 0 where
  nothing : (lsn : ℕ) → record_at lsn rs ≡ none → Trail rs lsn []
  undone_first :
      (lsn : ℕ) (r : WalRecord)
      → record_at lsn rs ≡ some r
      → is_clr r.record_type ≡ true
      → clr_undo_next_lsn r.payload ≡ 0
      → Trail rs lsn []
  undone :
      (lsn : ℕ) (r : WalRecord) (us : List WalRecord)
      → record_at lsn rs ≡ some r
      → is_clr r.record_type ≡ true
      → clr_undo_next_lsn r.payload ≢ 0
      → Trail rs (clr_undo_next_lsn r.payload) us
      → Trail rs lsn us
  first :
      (lsn : ℕ) (r : WalRecord)
      → record_at lsn rs ≡ some r
      → is_clr r.record_type ≡ false
      → r.prev_lsn ≡ 0
      → Trail rs lsn (r ∷ [])
  later :
      (lsn : ℕ) (r : WalRecord) (us : List WalRecord)
      → record_at lsn rs ≡ some r
      → is_clr r.record_type ≡ false
      → r.prev_lsn ≢ 0
      → Trail rs r.prev_lsn us
      → Trail rs lsn (r ∷ us)

unfoldable pub trail_effects : Checksums → List WalRecord → List Effect
trail_effects sums [] = []
trail_effects sums (r ∷ us) = effects_of sums r ++ trail_effects sums us

-- The effects for the losers: those of each trail, and a flush behind them
pub data Script (sums : Checksums) (rs : List WalRecord)
    : List AttEntry → List Effect → Type 0 where
  no_loser : Script sums rs [] []
  loser :
      (e : AttEntry) (to_undo : List AttEntry) (us : List WalRecord) (es : List Effect)
      → Trail rs e.last_lsn us
      → Script sums rs to_undo es
      → Script sums rs (e ∷ to_undo) (trail_effects sums us ++ flush_log ∷ es)

module _ {D E : Type 0} (io : DataFile D E) (wal : Log D E) (sums : Checksums)
    (rs : List WalRecord) where
  -- What a chain does with enough fuel
  abbrev Undoes : ℕ → ℕ → Type 0
  Undoes fuel lsn =
      (us : List WalRecord) × Trail rs lsn us
      × ((d : D)
          → undo_chain io wal sums fuel rs lsn d
            ≡ counted io wal sums some (trail_effects sums us) d)

  module _ (fuel lsn : ℕ) (again : (l : ℕ) → l < lsn → Undoes fuel l) where
    at_record :
        (r : WalRecord) → record_at lsn rs ≡ some r → next_lsn r < lsn → Undoes (suc fuel) lsn
    unfolding undo_chain trail_effects perform_all clr_count
    at_record r h v = elim (Bool-cases (is_clr r.record_type)) [
      | inl clr ↦ elim (Bool-cases (clr_undo_next_lsn r.payload == 0)) [
        | inl end ↦ (
          [],
          undone_first lsn r h clr (==→eq (clr_undo_next_lsn r.payload) 0 end),
          λ d. rw (undo_chain, h, clr, end) refl,
        )
        | inr more ↦
            let (us, trail, run) = again (clr_undo_next_lsn r.payload) (rw clr at v) in
            (
              us,
              undone lsn r us h clr (==-ne (clr_undo_next_lsn r.payload) 0 more) trail,
              λ d. rw (undo_chain, h, clr, more) (run d),
            )
      ]
      | inr plain ↦ elim (Bool-cases (r.prev_lsn == 0)) [
        | inl end ↦ (
          r ∷ [],
          first lsn r h plain (==→eq r.prev_lsn 0 end),
          λ d.
              rw (undo_chain, h, plain, end)
                (join io wal sums (λ n. n) (effects_of sums r) [] (undo_record io wal sums r) _ d
                  (undo_record-effects io wal sums r d)
                  (nothing_later io wal sums (clr_count (effects_of sums r)))),
        )
        | inr more ↦
            let (us, trail, run) = again r.prev_lsn (rw plain at v) in
            (
              r ∷ us,
              later lsn r us h plain (==-ne r.prev_lsn 0 more) trail,
              λ d.
                  rw (undo_chain, h, plain, more)
                    (join io wal sums (λ n. n) (effects_of sums r) (trail_effects sums us)
                      (undo_record io wal sums r) _ d (undo_record-effects io wal sums r d)
                      (λ d'.
                        add_later io wal sums (clr_count (effects_of sums r))
                          (trail_effects sums us) (undo_chain io wal sums fuel rs r.prev_lsn) d'
                          (run d'))),
            )
      ]
    ]

    one_round : All PointsBack rs → Undoes (suc fuel) lsn
    unfolding undo_chain trail_effects perform_all clr_count
    one_round back = elim (Option-cases (record_at lsn rs)) [
      | inl gone ↦ ([], nothing lsn gone, λ d. rw (undo_chain, gone) refl)
      | inr (r, h) ↦ at_record r h (rw h at (record_at-Back lsn rs back))
    ]

  undoes : (fuel lsn : ℕ) → All PointsBack rs → lsn < fuel → Undoes fuel lsn
  undoes zero lsn back h = absurd (omega arith)
  undoes (suc fuel) lsn back h =
      one_round fuel lsn (λ l less. undoes fuel l back (omega arith)) back

  -- When each record points to one with a lower LSN, the undo phase, with fuel above the last LSNs
  -- of the losers, follows the chain of each loser to its end: its fuel lasts, and it does to the
  -- data file and the log what the records of these chains call for, from the last one of a chain
  -- to its first, chain by chain, up to the first error. A record of a kind with an inverse has its
  -- before-image written over its page, or zeros for an insert without one, and one record of the
  -- undone work logged; a flush ends each chain. Without an error the answer is the count of the
  -- records of undone work.
  pub undo_loop-effects :
      (fuel : ℕ) (to_undo : List AttEntry)
      → All PointsBack rs
      → All (λ e. e.last_lsn < fuel) to_undo
      → (es : List Effect) × Script sums rs to_undo es
        × ((d : D)
            → undo_loop io wal sums fuel rs to_undo d
              ≡ and_then (perform_all io wal sums es d) (λ done. pure (some (clr_count es))))
  unfolding undo_loop perform_all clr_count
  undo_loop-effects fuel [] back h = ([], no_loser, λ d. refl)
  undo_loop-effects fuel (e ∷ to_undo) back (h, hs) =
      let (us, trail, run) = undoes fuel e.last_lsn back h in
      let (es, script, rest) = undo_loop-effects fuel to_undo back hs in
      (
        trail_effects sums us ++ flush_log ∷ es,
        loser e to_undo us es trail script,
        λ d.
            join io wal sums some (trail_effects sums us) (flush_log ∷ es)
              (undo_chain io wal sums fuel rs e.last_lsn) _ d (run d)
              (λ d'.
                flush_later io wal sums (clr_count (trail_effects sums us)) es
                  (undo_loop io wal sums fuel rs to_undo) d' rest),
      )
