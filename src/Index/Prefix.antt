-- ===== src/Index/Prefix.antt =====
-- src/index/prefix.rs: the records of a page without the common prefix of their keys.
pub mod Common
pub mod RoundTrip
use rgraph.Prelude.{
  ℕ, suc, ◌+◌, ◌%◌, ◌^◌, Bool, true, false, not, Option, none, some, List, [], ◌∷◌, ◌++◌, length,
  take, drop, ltb, ◌==◌, min, if◌then◌else◌,
}
use rgraph.Prelude.Bytes.{be_bytes, from_be_bytes}

-- How long the front is that two keys share; the loop over `i` looks no further than the prefix.
abbrev pub shared : List ℕ → List ℕ → ℕ
shared [] ys = 0
shared (x ∷ xs) [] = 0
shared (x ∷ xs) (y ∷ ys) = let rest = shared xs ys in if x == y then suc rest else 0

-- The loop over the other keys; it stops at the length 0.
unfoldable pub prefix_loop : List ℕ → ℕ → List (List ℕ) → ℕ
prefix_loop first prefix_len [] = prefix_len
prefix_loop first prefix_len (key ∷ keys) =
    let n = shared (take prefix_len first) key in
    let rest = prefix_loop first n keys in if n == 0 then 0 else rest

unfoldable pub common_prefix : List (List ℕ) → List ℕ
common_prefix [] = []
common_prefix (first ∷ keys) = take (prefix_loop first (length first) keys) first

-- `&key[prefix.len()..]`, which panics where the prefix is longer than the key. The assertion on
-- the prefix, which a release build leaves out, is not there.
unfoldable pub strip_prefix : List ℕ → List ℕ → Option (List ℕ)
strip_prefix key prefix =
    if ltb (length key) (length prefix) then none else some (drop (length prefix) key)

unfoldable pub starts_with : List ℕ → List ℕ → Bool
starts_with key [] = true
starts_with [] (p ∷ prefix) = false
starts_with (k ∷ key) (p ∷ prefix) =
    let rest = starts_with key prefix in if k == p then rest else false

-- The two bytes of the length of the key
abbrev pub key_len : List ℕ → ℕ
key_len rec = from_be_bytes (take 2 rec)

-- The length is a u16.
unfoldable pub decompress_record : List ℕ → List ℕ → Option (List ℕ)
decompress_record rec prefix =
    if ltb (length rec) 2
    then none
    else if ltb (length rec) (2 + key_len rec)
    then none
    else let suffix = take (key_len rec) (drop 2 rec) in
      let value = drop (2 + key_len rec) rec in
      let full_key_len = length prefix + length suffix in
      some (be_bytes 2 (full_key_len % 2 ^ 16) ++ (prefix ++ (suffix ++ value)))

unfoldable pub compress_record : List ℕ → List ℕ → Option (List ℕ)
compress_record rec prefix =
    if ltb (length rec) 2
    then none
    else if ltb (length rec) (2 + key_len rec)
    then none
    else let key = take (key_len rec) (drop 2 rec) in
      if not (starts_with key prefix)
      then none
      else let suffix = drop (length prefix) key in
        let value = drop (2 + key_len rec) rec in
        some (be_bytes 2 (length suffix % 2 ^ 16) ++ (suffix ++ value))

unfoldable pub extract_key : List ℕ → Option (List ℕ)
extract_key rec =
    if ltb (length rec) 2
    then none
    else if ltb (length rec) (2 + key_len rec)
    then none
    else some (take (key_len rec) (drop 2 rec))
