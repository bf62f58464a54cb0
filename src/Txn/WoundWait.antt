-- ===== src/Txn/WoundWait.antt =====
-- src/txn/wound_wait.rs: the wound-wait oracle and its counters of wounds.
use rgraph.Prelude.{
  ℕ, ◌+◌, Bool, Option, none, some, HashMap, empty_map, insert_map, remove_map, ltb, leb,
  if◌then◌else◌, min,
}

pub data WoundAction : Type 0 where
  wound wait : WoundAction

-- The number of wounds of each transaction, a `u8`.
pub record WoundWait : Type 0 where
  pub inner : HashMap ℕ

abbrev pub immunity_threshold : ℕ
immunity_threshold = 3

unfoldable pub new : WoundWait
new = record { inner = empty_map }

unfoldable pub check : ℕ → ℕ → WoundAction
check requester_ts holder_ts = if ltb requester_ts holder_ts then wound else wait

abbrev pub count_or_zero : Option ℕ → ℕ
count_or_zero none = 0
count_or_zero (some n) = n

-- `*count = count.saturating_add(1)` on the entry of the victim
unfoldable pub count_wound : ℕ → WoundWait → WoundWait
count_wound victim w = record {
  inner = insert_map victim (min (count_or_zero (w.inner victim) + 1) 255) w.inner;
}

-- The callback may change any state, the oracle itself included, so the counter is read after it.
unfoldable pub record_wound {ℓ} :
    {S : Type ℓ} → (S → WoundWait) → (WoundWait → S → S) → ℕ → (ℕ → S → S) → S → S
unfolding count_wound
record_wound oracle put victim on_abort s =
    let s' = on_abort victim s in put (count_wound victim (oracle s')) s'

unfoldable pub wound_count : ℕ → WoundWait → ℕ
wound_count txid w = count_or_zero (w.inner txid)

unfoldable pub is_immune : ℕ → WoundWait → Bool
is_immune txid w = leb immunity_threshold (count_or_zero (w.inner txid))

unfoldable pub cleanup : ℕ → WoundWait → WoundWait
cleanup txid w = record { inner = remove_map txid w.inner }
