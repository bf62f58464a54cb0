-- ===== src/Txn/Snapshot.antt =====
-- src/txn/snapshot.rs: the visibility of tuple versions to a snapshot. The registry of aborted ids
-- is shared with the global state, so each test takes its contents at the time of the call.
use rgraph.Prelude.{
  ℕ, Bool, true, false, not, ◌&&◌, List, [], ◌∷◌, ltb, leb, ◌==◌, elem, HashSet, if◌then◌else◌,
}
use rgraph.Txn.TxId.{tx_id_invalid}

-- `registered` says whether an abort registry is attached, `Some` in the source.
pub record Snapshot : Type 0 where
  pub xmin : ℕ
  pub xmax : ℕ
  pub active : List ℕ
  pub owner_txid : ℕ
  pub registered : Bool

abbrev insert_before : ℕ → List ℕ → List ℕ
insert_before k [] = k ∷ []
insert_before k (x ∷ xs) = if leb k x then k ∷ x ∷ xs else x ∷ insert_before k xs

-- `sort_unstable`; equal numbers cannot be told apart.
unfoldable pub sort : List ℕ → List ℕ
sort [] = []
sort (x ∷ xs) = insert_before x (sort xs)

unfoldable pub new : ℕ → ℕ → List ℕ → ℕ → Snapshot
unfolding sort
new xmin xmax active owner_txid = record {
  xmin = xmin;
  xmax = xmax;
  active = sort active;
  owner_txid = owner_txid;
  registered = false;
}

unfoldable pub with_aborted : Snapshot → Snapshot
with_aborted s = record s { registered = true }

unfoldable pub is_aborted : HashSet → Snapshot → ℕ → Bool
is_aborted aborted s txid = s.registered && aborted txid

-- A binary search of a sorted vector succeeds exactly on its members.
unfoldable pub is_active : Snapshot → ℕ → Bool
is_active s txid = elem txid s.active

unfoldable pub txid_committed_before_snapshot : HashSet → Snapshot → ℕ → Bool → Bool
unfolding is_aborted is_active
txid_committed_before_snapshot aborted s txid committed_hint =
    if txid == tx_id_invalid
    then false
    else if is_aborted aborted s txid
    then false
    else if committed_hint
    then true
    else if ltb txid s.xmin
    then true
    else if leb s.xmax txid
    then false
    else not (is_active s txid)

-- Step 2 of `is_visible`: the deleter.
unfoldable pub deleter_unseen : HashSet → Snapshot → ℕ → Bool → Bool
deleter_unseen aborted s xmax_tuple xmax_committed =
    if xmax_tuple == tx_id_invalid
    then true
    else if xmax_tuple == s.owner_txid
    then false
    else not (txid_committed_before_snapshot aborted s xmax_tuple xmax_committed)

unfoldable pub is_visible : HashSet → Snapshot → ℕ → ℕ → Bool → Bool → Bool
unfolding deleter_unseen
is_visible aborted s xmin_tuple xmax_tuple xmin_committed xmax_committed =
    if not (txid_committed_before_snapshot aborted s xmin_tuple xmin_committed)
      && not (xmin_tuple == s.owner_txid)
    then false
    else deleter_unseen aborted s xmax_tuple xmax_committed
