-- ===== src/Wal/Aries/Redo/Committed.antt =====
-- The first two phases together, against the images of the committed transactions of the log.
use rgraph.Prelude.{ℕ, Bool, true, false, ◌&&◌, Option, none, some, List, [], ◌∷◌, if◌then◌else◌}
use rgraph.Wal.Record.{WalRecord}
use rgraph.Wal.Aries.Payload.{extract_page_and_image}
use rgraph.Wal.Aries.Analysis.{TxStatus, active, committed, aborted}
use rgraph.Wal.Aries.Analysis.Status.{last_end}
use rgraph.Wal.Aries.Redo.{is_physical_page_record}
use rgraph.Wal.Aries.Redo.Plan.{Plan}

abbrev pub is_commit : Option TxStatus → Bool
is_commit (some committed) = true
is_commit (some active) = false
is_commit (some aborted) = false
is_commit none = false

-- The page and the image of a record of a transaction whose last end in the log is a commit
abbrev pub committed_image : List WalRecord → WalRecord → Option (ℕ × List ℕ)
committed_image log r =
    if is_physical_page_record r.record_type && is_commit (last_end r.txid log)
    then extract_page_and_image r
    else none

abbrev pub committed_images : List WalRecord → List WalRecord → Plan
committed_images log [] = []
committed_images log (r ∷ rs) = (r.lsn, committed_image log r) ∷ committed_images log rs

abbrev no_image : Option (ℕ × List ℕ)
no_image = none
