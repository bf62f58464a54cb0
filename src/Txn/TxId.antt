-- ===== src/Txn/TxId.antt =====
-- src/txn/txid.rs: the allocator of transaction ids, an atomic counter of 64 bits.
pub mod Laws
use rgraph.Prelude.{
  ℕ, zero, suc, ◌+◌, ◌%◌, ◌^◌, Option, none, some, List, ◌++◌, length, take, drop, leb, ltb, ◌==◌,
  if◌then◌else◌, max,
}
use rgraph.Prelude.Bytes.{le_bytes, from_le_bytes}

abbrev pub tx_id_invalid : ℕ
tx_id_invalid = 0

abbrev pub tx_id_bootstrap : ℕ
tx_id_bootstrap = 1

abbrev pub persist_offset : ℕ
persist_offset = 0

abbrev pub recovery_bump : ℕ
recovery_bump = 1_000_000

pub record TxIdAllocator : Type 0 where
  pub counter : ℕ

unfoldable pub new : TxIdAllocator
new = record { counter = tx_id_bootstrap }

unfoldable pub with_start : ℕ → TxIdAllocator
with_start start = record { counter = if start == tx_id_invalid then tx_id_bootstrap else start }

-- `counter.fetch_add(1, SeqCst)`: the old value, and the counter afterwards.
unfoldable pub fetch_add : TxIdAllocator → ℕ × TxIdAllocator
fetch_add a = (a.counter, record { counter = (a.counter + 1) % 2 ^ 64 })

-- The loop of `allocate` on fuel; `none` means that the fuel ran out.
unfoldable pub allocate_loop : ℕ → TxIdAllocator → Option (ℕ × TxIdAllocator)
unfolding fetch_add
allocate_loop zero a = none
allocate_loop (suc fuel) a =
    let (id, a') = fetch_add a in
    let again = allocate_loop fuel a' in if id == tx_id_invalid then again else some (id, a')

-- The loop without fuel: the counter that follows 0 is 1, so a second round returns.
unfoldable pub allocate : TxIdAllocator → ℕ × TxIdAllocator
unfolding fetch_add
allocate a = let (id, a') = fetch_add a in if id == tx_id_invalid then fetch_add a' else (id, a')

unfoldable pub peek_next : TxIdAllocator → ℕ
peek_next a = if a.counter == tx_id_invalid then tx_id_bootstrap else a.counter

-- The page afterwards. A page of fewer than 8 bytes panics in the source, which is `none`.
unfoldable pub persist : TxIdAllocator → List ℕ → Option (List ℕ)
persist a page =
    if leb (persist_offset + 8) (length page)
    then some (take persist_offset page ++ (le_bytes 8 a.counter ++ drop (persist_offset + 8) page))
    else none

-- `stored.checked_add(RECOVERY_BUMP).unwrap_or(TX_ID_BOOTSTRAP).max(TX_ID_BOOTSTRAP)`
unfoldable pub recovery_start : ℕ → ℕ
recovery_start stored =
    max (if ltb (stored + recovery_bump) (2 ^ 64) then stored + recovery_bump else tx_id_bootstrap)
      tx_id_bootstrap

unfoldable pub recover : List ℕ → Option TxIdAllocator
unfolding recovery_start with_start
recover page =
    if leb (persist_offset + 8) (length page)
    then some (with_start (recovery_start (from_le_bytes (take 8 (drop persist_offset page)))))
    else none
