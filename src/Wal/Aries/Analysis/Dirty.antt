-- ===== src/Wal/Aries/Analysis/Dirty.antt =====
-- What the analysis says of the pages that the log changes.
use rgraph.Prelude.{
  ap, ℕ, ◌≤◌, ◌≡◌, refl, Bool, true, false, Option, none, some, List, [], ◌∷◌, length, All, ltb,
  leb, ◌==◌, ==→eq, ==_refl, Bool-cases, inl, inr, if◌then◌else◌, arith,
}
use rgraph.Wal.Record.{WalRecord}
use rgraph.Wal.Aries.Payload.{page_id_from_payload}
use rgraph.Wal.Aries.Analysis.{
  DptEntry, Analysis, Arm, starts, commits, aborts, touches, dirties, seeds, marks, arm_of,
  find_page, or_insert_found, or_insert, or_insert_all, checkpoint_pages, dpt_of, analyse,
  analysis_loop, analysis,
}

-- The page that a record changes
abbrev pub page_at : Arm → WalRecord → Option ℕ
page_at dirties r = if ltb (length r.payload) 8 then none else some (page_id_from_payload r.payload)
page_at _ r = none

abbrev pub page_of : WalRecord → Option ℕ
page_of r = page_at (arm_of r.record_type) r

-- An entry that is there, and not later than the LSN
abbrev pub within : Option DptEntry → ℕ → Bool
within none lsn = false
within (some e) lsn = leb e.rec_lsn lsn

abbrev pub tracked_at : Option ℕ → List DptEntry → ℕ → Bool
tracked_at none dpt lsn = true
tracked_at (some p) dpt lsn = within (find_page p dpt) lsn

-- The pages that a checkpoint record names
abbrev pub named : Arm → List ℕ → List DptEntry
named seeds payload = checkpoint_pages payload
named _ payload = []

abbrev pub AreUpTo : ℕ → List DptEntry → Type 0
AreUpTo lsn dpt = All (λ e. e.rec_lsn ≤ lsn) dpt

-- The LSNs do not fall, and a checkpoint names no page that was first changed behind it.
abbrev pub IsOrdered : ℕ → List WalRecord → Type 0
IsOrdered lsn [] = Unit
IsOrdered lsn (r ∷ rs) =
    (lsn ≤ r.lsn) × (AreUpTo r.lsn (named (arm_of r.record_type) r.payload) × IsOrdered r.lsn rs)

AreUpTo-mono : (a b : ℕ) (dpt : List DptEntry) → a ≤ b → AreUpTo a dpt → AreUpTo b dpt
AreUpTo-mono a b [] h v = v
AreUpTo-mono a b (e ∷ dpt) h (v, vs) = (omega arith, AreUpTo-mono a b dpt h vs)

within-find_page :
    (p lsn : ℕ) (dpt : List DptEntry) (e : DptEntry)
    → AreUpTo lsn dpt
    → find_page p dpt ≡ some e
    → e.rec_lsn ≤ lsn
within-find_page p lsn [] e v h = cc h
within-find_page p lsn (d ∷ dpt) e (v, vs) h = elim (Bool-cases (d.page_id == p)) [
  | inl here ↦
      let same : some d ≡ some e = (rw here at h) in
      let equal : leb d.rec_lsn lsn ≡ leb e.rec_lsn lsn = ap (λ o. within o lsn) same in
      ground arith
  | inr there ↦ within-find_page p lsn dpt e vs (rw there at h)
]

-- An entry that there is stays.
kept_found :
    (p lsn : ℕ) (e : DptEntry) (dpt : List DptEntry) (o : Option DptEntry)
    → find_page e.page_id dpt ≡ o
    → within (find_page p dpt) lsn ≡ true
    → within (find_page p (or_insert_found o e dpt)) lsn ≡ true
kept_found p lsn e dpt (some d) f h = h
kept_found p lsn e dpt none f h = elim (Bool-cases (e.page_id == p)) [
  | inl same ↦ cc (rw (← ==→eq e.page_id p same, f) at h)
  | inr other ↦ rw other h
]

kept :
    (p lsn : ℕ) (e : DptEntry) (dpt : List DptEntry)
    → within (find_page p dpt) lsn ≡ true
    → within (find_page p (or_insert e dpt)) lsn ≡ true
kept p lsn e dpt h = kept_found p lsn e dpt (find_page e.page_id dpt) refl h

kept_all :
    (p lsn : ℕ) (es dpt : List DptEntry)
    → within (find_page p dpt) lsn ≡ true
    → within (find_page p (or_insert_all es dpt)) lsn ≡ true
kept_all p lsn [] dpt h = h
kept_all p lsn (e ∷ es) dpt h = kept_all p lsn es (or_insert e dpt) (kept p lsn e dpt h)

or_insert_found-AreUpTo :
    (lsn : ℕ) (e : DptEntry) (dpt : List DptEntry) (o : Option DptEntry)
    → AreUpTo lsn dpt
    → e.rec_lsn ≤ lsn
    → AreUpTo lsn (or_insert_found o e dpt)
or_insert_found-AreUpTo lsn e dpt none v h = (h, v)
or_insert_found-AreUpTo lsn e dpt (some d) v h = v

or_insert_all-AreUpTo :
    (lsn : ℕ) (es dpt : List DptEntry)
    → AreUpTo lsn dpt
    → AreUpTo lsn es
    → AreUpTo lsn (or_insert_all es dpt)
or_insert_all-AreUpTo lsn [] dpt v vs = v
or_insert_all-AreUpTo lsn (e ∷ es) dpt v (h, hs) =
    or_insert_all-AreUpTo lsn es (or_insert e dpt)
      (or_insert_found-AreUpTo lsn e dpt (find_page e.page_id dpt) v h) hs

inserted_found :
    (lsn : ℕ) (e : DptEntry) (dpt : List DptEntry) (o : Option DptEntry)
    → find_page e.page_id dpt ≡ o
    → AreUpTo lsn dpt
    → e.rec_lsn ≤ lsn
    → within (find_page e.page_id (or_insert_found o e dpt)) lsn ≡ true
inserted_found lsn e dpt none f v h = rw (==_refl e.page_id) (ground arith)
inserted_found lsn e dpt (some d) f v h =
    rw f (let low : d.rec_lsn ≤ lsn = within-find_page e.page_id lsn dpt d v f in ground arith)

-- One record: the entries stay up to its LSN, an entry stays, and its page has an entry.
dpt_of-AreUpTo :
    (arm : Arm) (r : WalRecord) (dpt : List DptEntry)
    → AreUpTo r.lsn dpt
    → AreUpTo r.lsn (named arm r.payload)
    → AreUpTo r.lsn (dpt_of arm r dpt)
unfolding dpt_of
dpt_of-AreUpTo dirties r dpt v n = elim (Bool-cases (ltb (length r.payload) 8)) [
  | inl short ↦ rw short v
  | inr long ↦ rw long (
      or_insert_found-AreUpTo r.lsn _ dpt (find_page (page_id_from_payload r.payload) dpt) v
        (omega arith))
]
dpt_of-AreUpTo seeds r dpt v n = or_insert_all-AreUpTo r.lsn (checkpoint_pages r.payload) dpt v n
dpt_of-AreUpTo starts r dpt v n = v
dpt_of-AreUpTo commits r dpt v n = v
dpt_of-AreUpTo aborts r dpt v n = v
dpt_of-AreUpTo touches r dpt v n = v
dpt_of-AreUpTo marks r dpt v n = v

kept_record :
    (arm : Arm) (r : WalRecord) (dpt : List DptEntry) (o : Option ℕ) (lsn : ℕ)
    → tracked_at o dpt lsn ≡ true
    → tracked_at o (dpt_of arm r dpt) lsn ≡ true
unfolding dpt_of
kept_record arm r dpt none lsn h = refl
kept_record dirties r dpt (some p) lsn h = elim (Bool-cases (ltb (length r.payload) 8)) [
  | inl short ↦ rw short h
  | inr long ↦ rw long (kept p lsn _ dpt h)
]
kept_record seeds r dpt (some p) lsn h = kept_all p lsn (checkpoint_pages r.payload) dpt h
kept_record starts r dpt (some p) lsn h = h
kept_record commits r dpt (some p) lsn h = h
kept_record aborts r dpt (some p) lsn h = h
kept_record touches r dpt (some p) lsn h = h
kept_record marks r dpt (some p) lsn h = h

new_record :
    (arm : Arm) (r : WalRecord) (dpt : List DptEntry)
    → AreUpTo r.lsn dpt
    → tracked_at (page_at arm r) (dpt_of arm r dpt) r.lsn ≡ true
unfolding dpt_of
new_record dirties r dpt v = elim (Bool-cases (ltb (length r.payload) 8)) [
  | inl short ↦ rw short refl
  | inr long ↦ rw long (
      inserted_found r.lsn (record { page_id = page_id_from_payload r.payload; rec_lsn = r.lsn })
        dpt (find_page (page_id_from_payload r.payload) dpt) refl v (omega arith))
]
new_record seeds r dpt v = refl
new_record starts r dpt v = refl
new_record commits r dpt v = refl
new_record aborts r dpt v = refl
new_record touches r dpt v = refl
new_record marks r dpt v = refl

kept_loop :
    (rs : List WalRecord) (a : Analysis) (o : Option ℕ) (lsn : ℕ)
    → tracked_at o a.dpt lsn ≡ true
    → tracked_at o (analysis_loop rs a).dpt lsn ≡ true
unfolding analysis_loop analyse
kept_loop [] a o lsn h = h
kept_loop (r ∷ rs) a o lsn h =
    kept_loop rs (analyse r a) o lsn (kept_record (arm_of r.record_type) r a.dpt o lsn h)

tracked_loop :
    (rs : List WalRecord) (a : Analysis) (lsn : ℕ)
    → IsOrdered lsn rs
    → AreUpTo lsn a.dpt
    → All (λ r. tracked_at (page_of r) (analysis_loop rs a).dpt r.lsn ≡ true) rs
unfolding analysis_loop analyse
tracked_loop [] a lsn ordered v = tt
tracked_loop (r ∷ rs) a lsn (up, (n, ordered)) v =
    let v' : AreUpTo r.lsn a.dpt = AreUpTo-mono lsn r.lsn a.dpt up v in
    (
      kept_loop rs (analyse r a) (page_of r) r.lsn (new_record (arm_of r.record_type) r a.dpt v'),
      tracked_loop rs (analyse r a) r.lsn ordered
          (dpt_of-AreUpTo (arm_of r.record_type) r a.dpt v' n),
    )

-- After the scan of a log whose LSNs do not fall, and whose checkpoints name no page that was
-- first changed behind them, each page that a record changes is in the table of dirty pages, and
-- its LSN there is not later than that record.
pub tracked-analysis :
    (rs : List WalRecord)
    → IsOrdered 0 rs
    → All (λ r. tracked_at (page_of r) (analysis rs).dpt r.lsn ≡ true) rs
unfolding analysis
tracked-analysis rs ordered = tracked_loop rs _ 0 ordered tt
