-- ===== src/Storage/Page/Insert/Stale.antt =====
-- src/storage/page.rs: `insert` after a compaction, with the free offset from before it.
use rgraph.Prelude.{
  ℕ, ◌+◌, ◌≤◌, ◌<◌, ◌≡◌, refl, inl, inr, none, some, List, length, arith, lt→not_leb, Option-cases,
}
use rgraph.Storage.Page.{copy_from_slice, slot_count, free_space, free_space_offset}
use rgraph.Storage.Page.Compact.{compact}
use rgraph.Storage.Page.Insert.{
  Best, insert, insert_with, place_record, best_fit, reuse_slot, append_slot,
}
use rgraph.Storage.Page.Insert.Direct.{not_ltb}

module _ (rec b : List ℕ) (free : ℕ) (size : length b ≡ 8192)
    (beyond : 8192 < 64 + free + length rec) where
  copy_beyond : copy_from_slice (64 + free) rec b ≡ none
  unfolding copy_from_slice
  copy_beyond = rw (lt→not_leb (64 + free + length rec) (length b) (omega arith)) refl

  place_beyond : (best : Best) → place_record best free rec b ≡ none
  unfolding reuse_slot append_slot
  place_beyond none = rw copy_beyond refl
  place_beyond (some (i, l)) = rw copy_beyond refl

  insert_beyond : (count : ℕ) → insert_with count free rec b ≡ none
  unfolding insert_with
  insert_beyond count = elim (Option-cases (best_fit b (length rec) 0 count none)) [
    | inl stopped ↦ rw stopped refl
    | inr (best, found) ↦ rw found (place_beyond best)
  ]

-- `insert` of a record of at most 2048 bytes panics on a page that has room for the record once it is
-- compacted, where it has none before, and where the record would reach past the end of the page
-- from the free offset that the page had before. The compaction succeeds and keeps the size of the
-- page.
pub insert_after_compact :
    (rec buf b : List ℕ)
    → length rec ≤ 2048
    → free_space buf < length rec + 4
    → compact buf ≡ some b
    → length b ≡ 8192
    → length rec + 4 ≤ free_space b
    → 8192 < 64 + free_space_offset buf + length rec
    → insert rec buf ≡ none
unfolding insert
insert_after_compact rec buf b short full run size room beyond =
    rw
      (
        not_ltb 2048 (length rec) short,
        lt→not_leb (length rec + 4) (free_space buf) full,
        run,
        not_ltb (free_space b) (length rec + 4) room,
        insert_beyond rec b (free_space_offset buf) size beyond (slot_count buf),
      )
      refl
