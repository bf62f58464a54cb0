-- ===== src/Wal/Record/Torn.antt =====
-- Records that are sealed, and records of which a crash has left a part.
use rgraph.Prelude.{
  ℕ, ◌+◌, ◌^◌, ◌<◌, ◌≤◌, ◌≡◌, refl, Bool, true, false, Option, none, some, List, [], ◌++◌,
  append-nil, length, take, take-drop-take, drop-append, Bool-cases, inl, inr, length-take, ltb,
  if◌then◌else◌, arith,
}
use rgraph.Wal.Record.Kind.{RecordType, from_code}
use rgraph.Wal.Record.{
  Checksums, WalRecord, compute_header_crc, compute_payload_hash, seal, on_disk_size, encode, field,
  decode_kind, decode_front, decode,
}
use rgraph.Wal.Record.RoundTrip.{IsRecord, length-encode_record, length_of}

-- The checksums of a sealed record are the computed ones; so are those of a new record, and of one
-- that was given a new LSN.
pub seal-IsRecord :
    (sums : Checksums) (r : WalRecord)
    → r.txid < 2 ^ 64
    → r.lsn < 2 ^ 64
    → r.prev_lsn < 2 ^ 64
    → r.timestamp < 2 ^ 64
    → length r.payload < 2 ^ 32
    → IsRecord sums (seal sums r)
unfolding seal compute_header_crc compute_payload_hash
seal-IsRecord sums r a b c d e = record {
  txid = a;
  lsn = b;
  prev_lsn = c;
  timestamp = d;
  payload = e;
  crc = refl;
  hash = refl;
}

field-take :
    (off n k : ℕ) (bytes : List ℕ) → off + n ≤ k → field off n (take k bytes) ≡ field off n bytes
unfolding field
field-take off n k bytes h = rw (take-drop-take off n k bytes h) refl

length-encode : (r : WalRecord) → length (encode r) ≡ on_disk_size r
length-encode r = length-encode_record r []

none_after :
    (a b : Bool) (o : Option (WalRecord × ℕ))
    → o ≡ none
    → (if a then none else if b then none else o) ≡ none
none_after true b o h = refl
none_after false true o h = refl
none_after false false o h = h

module _ (sums : Checksums) (r : WalRecord) (v : length r.payload < 2 ^ 32) (k : ℕ)
    (short : k < length (encode r)) where
  cut_length : length (take k (encode r)) ≡ k
  cut_length = length-take k (encode r) (omega arith)

  too_short :
      46 ≤ k → ltb (length (take k (encode r))) (46 + field 38 4 (take k (encode r)) + 8 + 4) ≡ true
  unfolding on_disk_size
  too_short h =
      rw
        (
          field-take 38 4 k (encode r) (omega arith),
          cut_length,
          ← append-nil (encode r),
          length_of r [] v,
        )
        (ground (arith, length-encode r))

  decode_kind-take :
      46 ≤ k → (o : Option RecordType) → decode_kind sums (take k (encode r)) o ≡ none
  unfolding decode_kind
  decode_kind-take h none = refl
  decode_kind-take h (some t) = rw (too_short h) refl

  decode_front-take : decode_front sums (take k (encode r)) ≡ none
  unfolding decode_front
  decode_front-take = elim (Bool-cases (ltb (length (take k (encode r))) 58)) [
    | inl shorter ↦ rw shorter refl
    | inr longer ↦ rw longer (
        none_after _ _ _ (
          decode_kind-take (ground (arith, cut_length, longer))
            (from_code (field 5 1 (take k (encode r))))))
  ]

-- A record that a crash has cut short reads as no record, wherever the cut is.
pub decode_torn :
    (sums : Checksums) (r : WalRecord) (before : List ℕ) (k : ℕ)
    → length r.payload < 2 ^ 32
    → k < length (encode r)
    → decode sums (before ++ take k (encode r)) (length before) ≡ none
unfolding decode
decode_torn sums r before k v short =
    rw (drop-append before (take k (encode r))) (decode_front-take sums r v k short)
