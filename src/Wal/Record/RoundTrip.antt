-- ===== src/Wal/Record/RoundTrip.antt =====
-- The round trip of a record, and what a torn record reads as.
use rgraph.Prelude.{
  ◌∙◌, ℕ, ◌+◌, ◌%◌, ◌^◌, ◌<◌, ◌≡◌, refl, true, false, some, ◌∙◌, take-append, drop-append, drop_add,
  List, ◌++◌, length, take, drop, length-append, append_assoc, ltb, ==_refl, arith, ap,
}
use rgraph.Prelude.Bytes.{be_bytes, from_be_bytes, from_be_bytes-be_bytes}
use rgraph.Wal.Record.Kind.{code, from_code-code}
use rgraph.Wal.Record.{
  Checksums, WalRecord, wal_magic_start, wal_magic_end, wal_version, compute_header_crc,
  compute_payload_hash, on_disk_size, encode, field, fields_of, verified, decode_kind, decode_front,
  decode,
}

-- The checksums have 32 and 64 bits, as the crates' types say.
pub record IsWide (sums : Checksums) : Type 0 where
  pub crc32c : (bytes : List ℕ) → sums.crc32c bytes < 2 ^ 32
  pub xx_hash64 : (bytes : List ℕ) → sums.xx_hash64 bytes < 2 ^ 64

-- The fields fit their machine types, the payload's length fits in 32 bits, and the checksums are
-- the computed ones.
pub record IsRecord (sums : Checksums) (r : WalRecord) : Type 0 where
  pub txid : r.txid < 2 ^ 64
  pub lsn : r.lsn < 2 ^ 64
  pub prev_lsn : r.prev_lsn < 2 ^ 64
  pub timestamp : r.timestamp < 2 ^ 64
  pub payload : length r.payload < 2 ^ 32
  pub crc : compute_header_crc sums r ≡ r.header_crc
  pub hash : compute_payload_hash sums r ≡ r.payload_hash

module _ (r : WalRecord) (rest : List ℕ) where
  abbrev pub front : List ℕ
  front = encode r ++ rest

  magic_of : field 0 4 front ≡ wal_magic_start
  unfolding field encode be_bytes
  magic_of = from_be_bytes-be_bytes 4 wal_magic_start (omega arith)

  version_of : field 4 1 front ≡ wal_version
  unfolding field encode be_bytes from_be_bytes
  version_of = refl

  kind_of : field 5 1 front ≡ code r.record_type
  unfolding field encode be_bytes from_be_bytes
  kind_of = omega arith

  txid_of : r.txid < 2 ^ 64 → field 6 8 front ≡ r.txid
  unfolding field encode be_bytes
  txid_of h = from_be_bytes-be_bytes 8 r.txid h

  lsn_of : r.lsn < 2 ^ 64 → field 14 8 front ≡ r.lsn
  unfolding field encode be_bytes
  lsn_of h = from_be_bytes-be_bytes 8 r.lsn h

  prev_lsn_of : r.prev_lsn < 2 ^ 64 → field 22 8 front ≡ r.prev_lsn
  unfolding field encode be_bytes
  prev_lsn_of h = from_be_bytes-be_bytes 8 r.prev_lsn h

  timestamp_of : r.timestamp < 2 ^ 64 → field 30 8 front ≡ r.timestamp
  unfolding field encode be_bytes
  timestamp_of h = from_be_bytes-be_bytes 8 r.timestamp h

  pub length_of : length r.payload < 2 ^ 32 → field 38 4 front ≡ length r.payload
  unfolding field encode be_bytes
  length_of h = from_be_bytes-be_bytes 4 (length r.payload % 2 ^ 32) (omega arith) ∙ omega arith

  crc_of : r.header_crc < 2 ^ 32 → field 42 4 front ≡ r.header_crc
  unfolding field encode be_bytes
  crc_of h = from_be_bytes-be_bytes 4 r.header_crc h

  -- The bytes behind the header
  abbrev body : List ℕ
  body = r.payload ++ (be_bytes 8 r.payload_hash ++ be_bytes 4 wal_magic_end)

  drop_header : drop 46 front ≡ body ++ rest
  unfolding encode be_bytes
  drop_header = refl

  pub length-encode_record : length (encode r) ≡ on_disk_size r
  unfolding encode be_bytes on_disk_size
  length-encode_record =
      omega (arith, length-append r.payload (be_bytes 8 r.payload_hash ++ be_bytes 4 wal_magic_end))

  drop_header_add : (n : ℕ) → drop (46 + n) front ≡ drop n (body ++ rest)
  drop_header_add n = drop_add 46 n front ∙ ap (drop n) drop_header

  payload_of : take (length r.payload) (drop 46 front) ≡ r.payload
  payload_of = rw (drop_header, append_assoc r.payload) (take-append r.payload _)

  drop_payload :
      drop (length r.payload) (body ++ rest)
      ≡ (be_bytes 8 r.payload_hash ++ be_bytes 4 wal_magic_end) ++ rest
  drop_payload = rw (append_assoc r.payload) (drop-append r.payload _)

  hash_of : r.payload_hash < 2 ^ 64 → field (46 + length r.payload) 8 front ≡ r.payload_hash
  unfolding field
  hash_of h =
      rw (drop_header_add (length r.payload), drop_payload)
        (unfold be_bytes in from_be_bytes-be_bytes 8 r.payload_hash h)

  end_of : field (54 + length r.payload) 4 front ≡ wal_magic_end
  unfolding field
  end_of =
      let e : 54 + length r.payload ≡ 46 + length r.payload + 8 = omega arith in
      rw
        (
          e,
          drop_add (46 + length r.payload) 8 front,
          drop_header_add (length r.payload),
          drop_payload,
        )
        (unfold be_bytes in from_be_bytes-be_bytes 4 wal_magic_end (omega arith))

module _ (sums : Checksums) (wide : IsWide sums) (r : WalRecord) (v : IsRecord sums r)
    (rest : List ℕ) where
  crc-lt : r.header_crc < 2 ^ 32
  unfolding compute_header_crc
  crc-lt = rw (← v.crc) (wide.crc32c _)

  hash-lt : r.payload_hash < 2 ^ 64
  unfolding compute_payload_hash
  hash-lt = rw (← v.hash) (wide.xx_hash64 _)

  fields_of-encode : fields_of r.record_type (length r.payload) (encode r ++ rest) ≡ r
  unfolding fields_of
  fields_of-encode = λ i. record {
    record_type = r.record_type;
    txid = txid_of r rest v.txid i;
    lsn = lsn_of r rest v.lsn i;
    prev_lsn = prev_lsn_of r rest v.prev_lsn i;
    timestamp = timestamp_of r rest v.timestamp i;
    payload = payload_of r rest i;
    header_crc = crc_of r rest crc-lt i;
    payload_hash = hash_of r rest hash-lt i;
  }

  verified_now : verified sums r ≡ true
  unfolding verified
  verified_now = rw (v.crc, v.hash, ==_refl r.header_crc, ==_refl r.payload_hash) refl

  long_enough :
      (ltb (length (encode r ++ rest)) (46 + length r.payload + 8 + 4) ≡ false)
      × (ltb (length (encode r ++ rest)) 58 ≡ false)
  unfolding on_disk_size
  long_enough = ground (arith, length-append (encode r) rest, length-encode_record r rest)

  decode_kind-encode :
      decode_kind sums (encode r ++ rest) (some r.record_type) ≡ some (r, on_disk_size r)
  unfolding decode_kind on_disk_size
  decode_kind-encode =
      rw (length_of r rest v.payload, long_enough.0, end_of r rest, fields_of-encode, verified_now)
        refl

  pub decode_front-encode : decode_front sums (encode r ++ rest) ≡ some (r, on_disk_size r)
  unfolding decode_front
  decode_front-encode =
      rw
        (
          long_enough.1,
          magic_of r rest,
          version_of r rest,
          kind_of r rest,
          from_code-code r.record_type,
        )
        decode_kind-encode

-- `decode` reads back the record that `encode` wrote, wherever it stands in a buffer, and counts
-- its bytes: for a record whose fields fit their machine types, whose payload has less than 2^32
-- bytes and whose checksums are the computed ones, and for checksums of 32 and 64 bits.
pub decode-encode_record :
    (sums : Checksums) (r : WalRecord) (before rest : List ℕ)
    → IsWide sums
    → IsRecord sums r
    → decode sums (before ++ (encode r ++ rest)) (length before) ≡ some (r, on_disk_size r)
unfolding decode
decode-encode_record sums r before rest wide v =
    rw (drop-append before (encode r ++ rest)) (decode_front-encode sums wide r v rest)
