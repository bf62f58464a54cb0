-- ===== src/Txn/Phantom.antt =====
-- src/txn/phantom.rs: the tracker of read-write conflicts, and the ids of range locks.
pub mod Laws
use Prim.Native.Nat.{bit_or, bit_xor}
use rgraph.Prelude.{
  ℕ, ◌*◌, ◌%◌, ◌^◌, Bool, true, false, ◌&&◌, ◌||◌, List, [], ◌∷◌, HashSet, empty_set, insert_set,
  remove_set,
}

pub record SsiTracker : Type 0 where
  pub out_set : HashSet
  pub in_set : HashSet

pub record SsiFlags : Type 0 where
  pub in_conflict : Bool
  pub out_conflict : Bool

unfoldable pub new : SsiTracker
new = record { out_set = empty_set; in_set = empty_set }

unfoldable pub new_flags : SsiFlags
new_flags = record { in_conflict = false; out_conflict = false }

-- The tracker, the reader's flags and the writer's flags afterwards.
unfoldable pub record_rw_antidependency :
    ℕ → ℕ → SsiFlags → SsiFlags → SsiTracker → SsiTracker × SsiFlags × SsiFlags
record_rw_antidependency reader writer reader_flags writer_flags t = (
  record { out_set = insert_set reader t.out_set; in_set = insert_set writer t.in_set },
  record reader_flags { out_conflict = true },
  record writer_flags { in_conflict = true },
)

unfoldable pub mark_out_conflict : ℕ → SsiTracker → SsiTracker
mark_out_conflict txid t = record t { out_set = insert_set txid t.out_set }

unfoldable pub is_doomed : ℕ → SsiFlags → SsiTracker → Bool
is_doomed txid flags t =
    (flags.out_conflict || t.out_set txid) && (flags.in_conflict || t.in_set txid)

unfoldable pub cleanup : ℕ → SsiTracker → SsiTracker
cleanup txid t = record { out_set = remove_set txid t.out_set; in_set = remove_set txid t.in_set }

unfoldable pub flags_doomed : SsiFlags → Bool
flags_doomed flags = flags.in_conflict && flags.out_conflict

abbrev pub high_bit : ℕ
high_bit = 2 ^ 63

unfoldable pub range_resource_id : ℕ → ℕ
range_resource_id page_id = bit_or page_id high_bit

abbrev pub fnv_offset : ℕ
fnv_offset = 0x811c_9dc5

abbrev pub fnv_prime : ℕ
fnv_prime = 0x0100_0193

-- The loop over the bytes; the multiplication wraps.
unfoldable pub hash_loop : ℕ → List ℕ → ℕ
hash_loop hash [] = hash
hash_loop hash (byte ∷ bytes) = hash_loop (bit_xor hash byte * fnv_prime % 2 ^ 64) bytes

unfoldable pub predicate_resource_id : List ℕ → ℕ
unfolding hash_loop
predicate_resource_id predicate = bit_or (hash_loop fnv_offset predicate) high_bit
