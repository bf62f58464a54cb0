-- ===== src/Txn/LockTable/Entry.antt =====
-- The lock modes, and the entry of one resource: its holders and its queue of waiters.
use rgraph.Prelude.{ℕ, Bool, true, false, not, ◌&&◌, List, [], ◌∷◌, ◌++◌, any, ◌==◌, if◌then◌else◌}

pub data LockMode : Type 0 where
  intention_shared intention_exclusive shared exclusive : LockMode

unfoldable pub compatible_with : LockMode → LockMode → Bool
compatible_with intention_shared intention_shared = true
compatible_with intention_shared intention_exclusive = true
compatible_with intention_shared shared = true
compatible_with intention_exclusive intention_shared = true
compatible_with intention_exclusive intention_exclusive = true
compatible_with shared intention_shared = true
compatible_with shared shared = true
compatible_with _ _ = false

unfoldable pub allows_multiple_holders : LockMode → Bool
allows_multiple_holders exclusive = false
allows_multiple_holders _ = true

pub data LockResult : Type 0 where
  granted denied : LockResult

pub record Holder : Type 0 where
  pub txid : ℕ
  pub mode : LockMode

pub record Waiter : Type 0 where
  pub txid : ℕ
  pub mode : LockMode

pub record LockEntry : Type 0 where
  pub holders : List Holder
  pub waiters : List Waiter

unfoldable pub new_entry : LockEntry
new_entry = record { holders = []; waiters = [] }

-- The held mode, and then the mode that is required.
unfoldable pub mode_at_least_as_strong : LockMode → LockMode → Bool
mode_at_least_as_strong held intention_shared = true
mode_at_least_as_strong intention_exclusive intention_exclusive = true
mode_at_least_as_strong exclusive intention_exclusive = true
mode_at_least_as_strong shared shared = true
mode_at_least_as_strong exclusive shared = true
mode_at_least_as_strong exclusive exclusive = true
mode_at_least_as_strong _ _ = false

unfoldable pub already_holds : ℕ → LockMode → List Holder → Bool
unfolding mode_at_least_as_strong
already_holds txid mode = any (λ h. h.txid == txid && mode_at_least_as_strong h.mode mode)

unfoldable pub compatible_with_holders : ℕ → LockMode → List Holder → Bool
compatible_with_holders txid mode [] = true
compatible_with_holders txid mode (h ∷ hs) =
    if not (h.txid == txid) && not (compatible_with mode h.mode)
    then false
    else compatible_with_holders txid mode hs

-- `self.holders.iter().any(|h| h.txid == txid)`
unfoldable pub holds_any : ℕ → List Holder → Bool
holds_any txid = any (λ h. h.txid == txid)

unfoldable pub add_holder : ℕ → LockMode → List Holder → List Holder
add_holder txid mode hs =
    if holds_any txid hs then hs else hs ++ (record { txid = txid; mode = mode } ∷ [])

-- What `swap_remove` leaves from the removed place on: the last element comes first.
unfoldable pub last_or : Holder → List Holder → Holder
last_or h [] = h
last_or h (g ∷ hs) = last_or g hs

unfoldable pub all_but_last : Holder → List Holder → List Holder
all_but_last h [] = []
all_but_last h (g ∷ hs) = h ∷ all_but_last g hs

unfoldable pub last_first : List Holder → List Holder
unfolding last_or all_but_last
last_first [] = []
last_first (h ∷ hs) = last_or h hs ∷ all_but_last h hs

unfoldable pub remove_holder : ℕ → List Holder → List Holder
unfolding last_first
remove_holder txid [] = []
remove_holder txid (h ∷ hs) = if h.txid == txid then last_first hs else h ∷ remove_holder txid hs

-- The loop of `grant_compatible_waiters`: the waiters that were notified, and the entry.
unfoldable pub grant_loop : List Holder → List Waiter → List ℕ × LockEntry
grant_loop hs [] = ([], record { holders = hs; waiters = [] })
grant_loop hs (w ∷ ws) =
    let rest = grant_loop (add_holder w.txid w.mode hs) ws in
    if compatible_with_holders w.txid w.mode hs
    then (w.txid ∷ rest.0, rest.1)
    else ([], record { holders = hs; waiters = w ∷ ws })

unfoldable pub grant_compatible_waiters : LockEntry → List ℕ × LockEntry
grant_compatible_waiters e = grant_loop e.holders e.waiters

-- The part of `try_acquire` under the shard's lock: the result, whether it comes with a receiver,
-- and the entry.
unfoldable pub acquire_entry : ℕ → LockMode → LockEntry → (LockResult × Bool) × LockEntry
acquire_entry txid mode e =
    if already_holds txid mode e.holders
    then ((granted, false), e)
    else if compatible_with_holders txid mode e.holders
    then ((granted, false), record e { holders = add_holder txid mode e.holders })
    else if any (λ w. w.txid == txid) e.waiters
    then ((denied, false), e)
    else (
      (denied, true),
      record e { waiters = e.waiters ++ (record { txid = txid; mode = mode } ∷ []) },
    )

-- `remove_holder` and `grant_compatible_waiters`
unfoldable pub release_entry : ℕ → LockEntry → List ℕ × LockEntry
unfolding grant_compatible_waiters
release_entry txid e =
    grant_compatible_waiters (record e { holders = remove_holder txid e.holders })

is_empty_list : List Holder → Bool
is_empty_list [] = true
is_empty_list (h ∷ hs) = false

no_waiters : List Waiter → Bool
no_waiters [] = true
no_waiters (w ∷ ws) = false

-- `entry.is_empty() && entry.waiters.is_empty()`
unfoldable pub is_idle : LockEntry → Bool
unfolding is_empty_list no_waiters
is_idle e = is_empty_list e.holders && no_waiters e.waiters
