-- ===== src/Txn/Mvcc/Laws.antt =====
-- The round trip of the header, its flags, and what the truncation of ids does.
use rgraph.Prelude.{
  ℕ, ◌%◌, ◌^◌, ◌<◌, ◌≡◌, refl, false, not, some, List, ◌++◌, length, ◌==◌, arith, ltb,
}
use rgraph.Prelude.Bytes.{le_bytes, from_le_bytes, from_le_bytes-le_bytes}
use rgraph.Txn.Mvcc.{
  TupleHeader, is_live, is_deleted, mark_deleted, xmax_txid, header_bytes, encode, decode,
  fields_of, header_size,
}

-- The fields fit their machine types.
pub record IsHeader (h : TupleHeader) : Type 0 where
  pub xmin : h.xmin < 2 ^ 32
  pub xmax : h.xmax < 2 ^ 32
  pub cid : h.cid < 2 ^ 16
  pub infomask : h.infomask < 2 ^ 16
  pub next_version_ptr : h.next_version_ptr < 2 ^ 32

encode-eq_some :
    (h : TupleHeader) (out bytes : List ℕ) → encode h out ≡ some bytes → bytes ≡ header_bytes h
unfolding encode
encode-eq_some h out bytes e = ground arith

four_bytes : (v : ℕ) → v < 2 ^ 32 → from_le_bytes (le_bytes 4 v) ≡ v
four_bytes v h = from_le_bytes-le_bytes 4 v h

two_bytes : (v : ℕ) → v < 2 ^ 16 → from_le_bytes (le_bytes 2 v) ≡ v
two_bytes v h = from_le_bytes-le_bytes 2 v h

header_bytes_long :
    (h : TupleHeader) (rest : List ℕ) → ltb (length (header_bytes h ++ rest)) header_size ≡ false
unfolding le_bytes
header_bytes_long h rest = ground arith

-- The lists of bytes compute at each width, so the slices of `decode` do.
fields_read :
    (h : TupleHeader) (rest : List ℕ) → IsHeader h → fields_of (header_bytes h ++ rest) ≡ h
unfolding fields_of le_bytes
fields_read h rest v = λ i. record {
  xmin = four_bytes h.xmin v.xmin i;
  xmax = four_bytes h.xmax v.xmax i;
  cid = two_bytes h.cid v.cid i;
  infomask = two_bytes h.infomask v.infomask i;
  next_version_ptr = four_bytes h.next_version_ptr v.next_version_ptr i;
}

decode-header_bytes :
    (h : TupleHeader) (rest : List ℕ) → IsHeader h → decode (header_bytes h ++ rest) ≡ some h
unfolding decode
decode-header_bytes h rest v = rw (header_bytes_long h rest, fields_read h rest v) refl

-- `decode` reads the header back that `encode` wrote, whatever bytes follow it.
pub decode-encode_header :
    (h : TupleHeader) (out bytes rest : List ℕ)
    → IsHeader h
    → encode h out ≡ some bytes
    → decode (bytes ++ rest) ≡ some h
decode-encode_header h out bytes rest v e =
    rw (encode-eq_some h out bytes e) (decode-header_bytes h rest v)

-- The header keeps an id modulo 2 ^ 32. So a version that is deleted by a transaction whose id is
-- a multiple of 2 ^ 32 still counts as live, and its deleter reads as the invalid id; by any other
-- transaction it counts as deleted.
pub is_live-mark_deleted :
    (h : TupleHeader) (t : ℕ)
    → (xmax_txid (mark_deleted t h) ≡ t % 2 ^ 32)
      × (is_live (mark_deleted t h) ≡ (t % 2 ^ 32 == 0))
      × (is_deleted (mark_deleted t h) ≡ not (t % 2 ^ 32 == 0))
unfolding mark_deleted xmax_txid is_live is_deleted
is_live-mark_deleted h t = (refl, refl, refl)
