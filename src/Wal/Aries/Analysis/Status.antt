-- ===== src/Wal/Aries/Analysis/Status.antt =====
-- What the analysis says of a transaction.
use rgraph.Prelude.{
  ap, sym, ==_refl, ℕ, ◌≡◌, refl, ◌∙◌, Bool, true, false, ◌||◌, Option, none, some, List, [], ◌∷◌,
  HashMap, ltb, ◌==◌, ==→eq, Bool-cases, inl, inr, if◌then◌else◌,
}
use rgraph.Wal.Record.{WalRecord}
use rgraph.Wal.Aries.Analysis.{
  TxStatus, active, committed, aborted, AttEntry, Analysis, Arm, starts, commits, aborts, touches,
  dirties, seeds, marks, arm_of, later, touch, touch_found, entry_or, att_of, analyse,
  analysis_loop, analysis,
}

abbrev pub status_of : Option AttEntry → Option TxStatus
status_of none = none
status_of (some e) = some e.status

-- How a record ends a transaction
abbrev pub ends : Arm → Option TxStatus
ends commits = some committed
ends aborts = some aborted
ends _ = none

abbrev pub is_start : Arm → Bool
is_start starts = true
is_start _ = false

abbrev pub or_else : Option TxStatus → Option TxStatus → Option TxStatus
or_else (some s) t = some s
or_else none t = t

-- The last end of a transaction in a log, and whether the log starts it.
abbrev pub last_end : ℕ → List WalRecord → Option TxStatus
last_end txid [] = none
last_end txid (r ∷ rs) =
    or_else (last_end txid rs) (if txid == r.txid then ends (arm_of r.record_type) else none)

abbrev pub has_start : ℕ → List WalRecord → Bool
has_start txid [] = false
has_start txid (r ∷ rs) =
    (if txid == r.txid then is_start (arm_of r.record_type) else false) || has_start txid rs

-- The status of a transaction that was in a state, from its last end and its start.
abbrev pub judge : Option TxStatus → Bool → Option TxStatus → Option TxStatus
judge (some s) started before = some s
judge none started (some s) = some s
judge none true none = some active
judge none false none = none

judge-then :
    (e1 e2 : Option TxStatus) (b1 b2 : Bool) (before : Option TxStatus)
    → judge e2 b2 (judge e1 b1 before) ≡ judge (or_else e2 e1) (b1 || b2) before
judge-then e1 (some s) b1 b2 before = refl
judge-then (some s) none b1 b2 before = refl
judge-then none none b1 b2 (some s) = refl
judge-then none none true b2 none = refl
judge-then none none false true none = refl
judge-then none none false false none = refl

judge-none : (before : Option TxStatus) → judge none false before ≡ before
judge-none (some s) = refl
judge-none none = refl

status-later : (lsn : ℕ) (e : AttEntry) → (later lsn e).status ≡ e.status
status-later lsn e = elim (Bool-cases (ltb e.last_lsn lsn)) [
  | inl h ↦ rw h refl
  | inr h ↦ rw h refl
]

own :
    (txid : ℕ) (o : Option AttEntry) (lsn : ℕ)
    → some (later lsn (entry_or txid active lsn o)).status ≡ judge none true (status_of o)
own txid none lsn = rw (status-later lsn (entry_or txid active lsn none)) refl
own txid (some e) lsn = rw (status-later lsn e) refl

module _ (rec : WalRecord) (att : HashMap AttEntry) where
  status-touch_at :
      (o : Option AttEntry) (j : ℕ)
      → att rec.txid ≡ o
      → status_of (touch_found o rec.txid rec.lsn att j) ≡ status_of (att j)
  status-touch_at none j h = refl
  status-touch_at (some e) j h = elim (Bool-cases (j == rec.txid)) [
    | inl same ↦ rw (same, ==→eq j rec.txid same, h) (ap (λ s. some s) (status-later rec.lsn e))
    | inr other ↦ rw other refl
  ]

  status-touch : (j : ℕ) → status_of (touch rec.txid rec.lsn att j) ≡ status_of (att j)
  status-touch j = status-touch_at (att rec.txid) j refl

  touched :
      status_of (touch rec.txid rec.lsn att rec.txid) ≡ judge none false (status_of (att rec.txid))
  touched = status-touch rec.txid ∙ sym (judge-none (status_of (att rec.txid)))

  -- One record, for its own transaction and for another
  status-att_of_own :
      (arm : Arm)
      → status_of (att_of arm rec att rec.txid)
        ≡ judge (ends arm) (is_start arm) (status_of (att rec.txid))
  unfolding att_of
  status-att_of_own starts = rw (==_refl rec.txid) (own rec.txid (att rec.txid) rec.lsn)
  status-att_of_own commits = rw (==_refl rec.txid) (ap (λ s. some s) (status-later rec.lsn _))
  status-att_of_own aborts = rw (==_refl rec.txid) (ap (λ s. some s) (status-later rec.lsn _))
  status-att_of_own touches = touched
  status-att_of_own dirties = touched
  status-att_of_own seeds = sym (judge-none (status_of (att rec.txid)))
  status-att_of_own marks = sym (judge-none (status_of (att rec.txid)))

  status-att_of_other :
      (arm : Arm) (txid : ℕ)
      → (txid == rec.txid) ≡ false
      → status_of (att_of arm rec att txid) ≡ status_of (att txid)
  unfolding att_of
  status-att_of_other starts txid h = rw h refl
  status-att_of_other commits txid h = rw h refl
  status-att_of_other aborts txid h = rw h refl
  status-att_of_other touches txid h = status-touch txid
  status-att_of_other dirties txid h = status-touch txid
  status-att_of_other seeds txid h = refl
  status-att_of_other marks txid h = refl

status-analyse :
    (rec : WalRecord) (a : Analysis) (txid : ℕ)
    → status_of ((analyse rec a).att txid)
      ≡ judge
          (if txid == rec.txid then ends (arm_of rec.record_type) else none)
          (if txid == rec.txid then is_start (arm_of rec.record_type) else false)
          (status_of (a.att txid))
unfolding analyse
status-analyse rec a txid = elim (Bool-cases (txid == rec.txid)) [
  | inl same ↦
      rw (same, ==→eq txid rec.txid same) (status-att_of_own rec a.att (arm_of rec.record_type))
  | inr other ↦ rw other (
      status-att_of_other rec a.att (arm_of rec.record_type) txid other
      ∙ sym (judge-none (status_of (a.att txid))))
]

status-analysis_loop :
    (rs : List WalRecord) (a : Analysis) (txid : ℕ)
    → status_of ((analysis_loop rs a).att txid)
      ≡ judge (last_end txid rs) (has_start txid rs) (status_of (a.att txid))
unfolding analysis_loop
status-analysis_loop [] a txid = sym (judge-none (status_of (a.att txid)))
status-analysis_loop (r ∷ rs) a txid =
    status-analysis_loop rs (analyse r a) txid
    ∙ ap (judge (last_end txid rs) (has_start txid rs)) (status-analyse r a txid)
    ∙ judge-then _ (last_end txid rs) _ (has_start txid rs) (status_of (a.att txid))

-- After the scan of a log, a transaction has the status of its last commit or abort in the log;
-- without one it is active if the log starts it, and else it has no entry.
pub status-analysis :
    (rs : List WalRecord) (txid : ℕ)
    → status_of ((analysis rs).att txid) ≡ judge (last_end txid rs) (has_start txid rs) none
unfolding analysis
status-analysis rs txid = status-analysis_loop rs _ txid
