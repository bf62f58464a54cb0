-- ===== src/Index/Prefix/RoundTrip.antt =====
-- The records of a page, compressed and decompressed.
use rgraph.Prelude.{
  ℕ, ◌+◌, ◌%◌, ◌^◌, ◌<◌, ◌≤◌, ◌≡◌, refl, ap, ◌∙◌, true, false, Option, none, some, List, [], ◌∷◌,
  ◌++◌, append_assoc, All, length, length-append, length-drop, take, drop, drop_add, take-append,
  drop-append, ltb, ◌==◌, ==→eq, Bool-cases, inl, inr, arith,
}
use rgraph.Prelude.Bytes.{be_bytes, from_be_bytes-be_bytes}
use rgraph.Index.Prefix.{
  common_prefix, starts_with, key_len, decompress_record, compress_record, extract_key,
}
use rgraph.Index.Prefix.Common.{length_of_prefix, starts_with-common_prefix}

-- The record of a key and a value, with the u16 length of the key
abbrev pub record_of : List ℕ × List ℕ → List ℕ
record_of (key, value) = be_bytes 2 (length key % 2 ^ 16) ++ (key ++ value)

module _ (key value : List ℕ) (small : length key < 2 ^ 16) where
  key_len-record_of : key_len (record_of (key, value)) ≡ length key
  unfolding be_bytes
  key_len-record_of = from_be_bytes-be_bytes 2 (length key % 2 ^ 16) (omega arith) ∙ omega arith

  long_enough :
      (ltb (length (record_of (key, value))) 2 ≡ false)
      × (ltb (length (record_of (key, value))) (2 + length key) ≡ false)
  unfolding be_bytes
  long_enough = ground (arith, length-append key value)

  key_part : take (length key) (drop 2 (record_of (key, value))) ≡ key
  unfolding be_bytes
  key_part = take-append key value

  value_part : drop (2 + length key) (record_of (key, value)) ≡ value
  unfolding be_bytes
  value_part = drop_add 2 (length key) (record_of (key, value)) ∙ drop-append key value

  extract_key-record_of : extract_key (record_of (key, value)) ≡ some key
  unfolding extract_key
  extract_key-record_of = rw (long_enough.0, key_len-record_of, long_enough.1, key_part) refl

  decompress_record-record_of :
      (prefix : List ℕ)
      → decompress_record (record_of (key, value)) prefix
        ≡ some (be_bytes 2 ((length prefix + length key) % 2 ^ 16) ++ (prefix ++ (key ++ value)))
  unfolding decompress_record
  decompress_record-record_of prefix =
      rw (long_enough.0, key_len-record_of, long_enough.1, key_part, value_part) refl

  compress_record-record_of :
      (prefix : List ℕ)
      → starts_with key prefix ≡ true
      → compress_record (record_of (key, value)) prefix
        ≡ some (record_of (drop (length prefix) key, value))
  unfolding compress_record
  compress_record-record_of prefix front =
      rw (long_enough.0, key_len-record_of, long_enough.1, key_part, value_part, front) refl

-- A key is its prefix and the rest.
split_key :
    (key prefix : List ℕ) → starts_with key prefix ≡ true → prefix ++ drop (length prefix) key ≡ key
unfolding starts_with
split_key key [] h = refl
split_key [] (p ∷ prefix) h = cc h
split_key (k ∷ key) (p ∷ prefix) h = elim (Bool-cases (k == p)) [
  | inl same ↦ rw (==→eq k p same) (ap (◌∷◌ p) (split_key key prefix (rw same at h)))
  | inr other ↦ cc (rw other at h)
]

-- The compression of a record, if it succeeds, and then the decompression
abbrev pub through : List ℕ → Option (List ℕ) → Option (List ℕ)
through prefix none = none
through prefix (some compressed) = decompress_record compressed prefix

pub decompress_record-compress_record :
    (key value prefix : List ℕ)
    → length key < 2 ^ 16
    → starts_with key prefix ≡ true
    → through prefix (compress_record (record_of (key, value)) prefix)
      ≡ some (record_of (key, value))
decompress_record-compress_record key value prefix small front =
    let suffix : List ℕ = drop (length prefix) key in
    let le : length prefix ≤ length key = length_of_prefix key prefix front in
    let count : length prefix + length suffix ≡ length key =
      omega (arith, length-drop (length prefix) key) in
    rw
      (
        compress_record-record_of key value small prefix front,
        decompress_record-record_of suffix value (omega arith) prefix,
        count,
        ← append_assoc prefix suffix value,
        split_key key prefix front,
      )
      refl

abbrev pub first_of : List ℕ × List ℕ → List ℕ
first_of (key, value) = key

abbrev pub keys_of : List (List ℕ × List ℕ) → List (List ℕ)
keys_of [] = []
keys_of ((key, value) ∷ entries) = key ∷ keys_of entries

every_record :
    (prefix : List ℕ) (entries : List (List ℕ × List ℕ))
    → All (λ e. length (first_of e) < 2 ^ 16) entries
    → All (λ k. starts_with k prefix ≡ true) (keys_of entries)
    → All (λ e. through prefix (compress_record (record_of e) prefix) ≡ some (record_of e)) entries
every_record prefix [] small front = tt
every_record prefix ((key, value) ∷ entries) (s, ss) (f, fs) =
    (decompress_record-compress_record key value prefix s f, every_record prefix entries ss fs)

nothing_first : (keys : List (List ℕ)) → All (λ k. starts_with k [] ≡ true) keys
unfolding starts_with
nothing_first [] = tt
nothing_first (k ∷ keys) = (refl, nothing_first keys)

-- Each record of a page comes back when it is compressed by the common prefix of the page's keys
-- and decompressed again; the keys have less than 2^16 bytes.
pub decompress_record-common_prefix :
    (e : List ℕ × List ℕ) (entries : List (List ℕ × List ℕ))
    → All (λ e. length (first_of e) < 2 ^ 16) (e ∷ entries)
    → All
        (λ x.
          through
            (common_prefix (keys_of (e ∷ entries)))
            (compress_record (record_of x) (common_prefix (keys_of (e ∷ entries))))
          ≡ some (record_of x))
        (e ∷ entries)
decompress_record-common_prefix (key, value) entries small =
    every_record (common_prefix (key ∷ keys_of entries)) ((key, value) ∷ entries) small
      (starts_with-common_prefix key (keys_of entries) [] (nothing_first (key ∷ keys_of entries))).0
