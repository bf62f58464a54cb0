-- ===== src/Txn/LockTable.antt =====
-- src/txn/lock_table.rs: locks with modes, holders and waiting queues, in 1024 shards. A waiter's
-- notification channel is known by its transaction, which waits at most once for a resource; a
-- send on the channel is listed in the result of the method that sends.
pub mod Entry
pub mod Holders
pub mod Coherence
pub mod Queue
pub mod Shards
pub mod Freed
use rgraph.Prelude.{
  ℕ, ◌*◌, ◌/◌, ◌%◌, ◌^◌, Bool, true, false, ◌&&◌, Option, none, some, List, [], ◌∷◌, map, HashMap,
  insert_map, remove_map, if◌then◌else◌, ◌==◌,
}
use Entry.{
  LockMode, LockResult, granted, denied, Holder, LockEntry, new_entry, acquire_entry, release_entry,
  is_idle,
}

abbrev pub n_shards : ℕ
n_shards = 1024

-- `shards[i]` is the map of shard `i`.
pub record LockTable : Type 0 where
  pub shards : ℕ → HashMap LockEntry

unfoldable pub new : LockTable
new = record { shards = λ i k. none }

-- The multiplication wraps at 64 bits; the shift keeps the top 10 bits.
unfoldable pub shard_index : ℕ → ℕ
shard_index resource_id = resource_id * 0x9e37_79b9_7f4a_7c15 % 2 ^ 64 / 2 ^ 54

unfoldable pub entry_at : LockTable → ℕ → Option LockEntry
unfolding shard_index
entry_at t resource_id = t.shards (shard_index resource_id) resource_id

-- A write to the shard of a resource: `some` inserts or replaces its entry, `none` removes it.
unfoldable pub write_entry : ℕ → Option LockEntry → LockTable → LockTable
unfolding shard_index
write_entry resource_id e t = record {
  shards = λ i k. if i == shard_index resource_id && k == resource_id then e else t.shards i k;
}

abbrev or_new : Option LockEntry → LockEntry
or_new none = new_entry
or_new (some e) = e

-- The result, whether a receiver comes with it, and the table afterwards.
unfoldable pub try_acquire : ℕ → ℕ → LockMode → LockTable → (LockResult × Bool) × LockTable
try_acquire resource_id txid mode t =
    let (answer, e) = acquire_entry txid mode (or_new (entry_at t resource_id)) in
    (answer, write_entry resource_id (some e) t)

abbrev kept : LockEntry → Option LockEntry
kept e = if is_idle e then none else some e

-- The waiters that were notified, and the table afterwards.
unfoldable pub release : ℕ → ℕ → LockTable → List ℕ × LockTable
release resource_id txid t = elim (entry_at t resource_id) [
  | none ↦ ([], t)
  | some e ↦ let (sent, e') = release_entry txid e in (sent, write_entry resource_id (kept e') t)
]

unfoldable pub release_all : ℕ → List ℕ → LockTable → LockTable
release_all txid [] t = t
release_all txid (r ∷ resources) t = release_all txid resources (release r txid t).1

abbrev holders_of : Option LockEntry → List Holder
holders_of none = []
holders_of (some e) = e.holders

unfoldable pub holders : ℕ → LockTable → List (ℕ × LockMode)
holders resource_id t = map (λ h. (h.txid, h.mode)) (holders_of (entry_at t resource_id))
