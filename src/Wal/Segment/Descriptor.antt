-- ===== src/Wal/Segment/Descriptor.antt =====
-- src/wal/writer.rs: the block at the end of a segment that the writer has left.
use rgraph.Prelude.{
  ℕ, zero, suc, ◌-◌, ◌^◌, ◌<◌, ◌≡◌, refl, false, not, Option, none, some, List, [], ◌∷◌, ◌++◌,
  length, length-append, ltb, ◌==◌, if◌then◌else◌, arith,
}
use rgraph.Prelude.Bytes.{be_bytes, from_be_bytes-be_bytes}
use rgraph.Wal.Record.{field}

abbrev pub descriptor_size : ℕ
descriptor_size = 4096

abbrev pub descriptor_magic : ℕ
descriptor_magic = 0x5741_4453

pub record SegmentDescriptor : Type 0 where
  pub segment_id : ℕ
  pub segment_start_lsn : ℕ
  pub previous_segment_id : ℕ
  pub record_count : ℕ
  pub integrity_hash : ℕ

abbrev pub zero_bytes : ℕ → List ℕ
zero_bytes zero = []
zero_bytes (suc n) = 0 ∷ zero_bytes n

unfoldable pub encode : SegmentDescriptor → List ℕ
encode d =
    be_bytes 4 descriptor_magic
    ++ (be_bytes 8 d.segment_id
        ++ (be_bytes 8 d.segment_start_lsn
            ++ (be_bytes 8 d.previous_segment_id
                ++ (be_bytes 8 d.record_count
                    ++ (be_bytes 8 d.integrity_hash ++ zero_bytes (descriptor_size - 44))))))

unfoldable pub decode : List ℕ → Option SegmentDescriptor
unfolding field
decode bytes =
    if ltb (length bytes) descriptor_size
    then none
    else if not (field 0 4 bytes == descriptor_magic)
    then none
    else some (record {
      segment_id = field 4 8 bytes;
      segment_start_lsn = field 12 8 bytes;
      previous_segment_id = field 20 8 bytes;
      record_count = field 28 8 bytes;
      integrity_hash = field 36 8 bytes;
    })

length-zero_bytes : (n : ℕ) → length (zero_bytes n) ≡ n
length-zero_bytes zero = refl
length-zero_bytes (suc n) = omega (arith, length-zero_bytes n)

-- The fields fit in 64 bits.
pub record IsDescriptor (d : SegmentDescriptor) : Type 0 where
  pub segment_id : d.segment_id < 2 ^ 64
  pub segment_start_lsn : d.segment_start_lsn < 2 ^ 64
  pub previous_segment_id : d.previous_segment_id < 2 ^ 64
  pub record_count : d.record_count < 2 ^ 64
  pub integrity_hash : d.integrity_hash < 2 ^ 64

module _ (d : SegmentDescriptor) (rest : List ℕ) where
  long_enough : ltb (length (encode d ++ rest)) descriptor_size ≡ false
  unfolding encode be_bytes
  long_enough = ground (arith, length-append (zero_bytes 4052) rest, length-zero_bytes 4052)

  magic_of : field 0 4 (encode d ++ rest) ≡ descriptor_magic
  unfolding field encode be_bytes
  magic_of = from_be_bytes-be_bytes 4 descriptor_magic (omega arith)

  segment_id_of : d.segment_id < 2 ^ 64 → field 4 8 (encode d ++ rest) ≡ d.segment_id
  unfolding field encode be_bytes
  segment_id_of h = from_be_bytes-be_bytes 8 d.segment_id h

  segment_start_lsn_of :
      d.segment_start_lsn < 2 ^ 64 → field 12 8 (encode d ++ rest) ≡ d.segment_start_lsn
  unfolding field encode be_bytes
  segment_start_lsn_of h = from_be_bytes-be_bytes 8 d.segment_start_lsn h

  previous_segment_id_of :
      d.previous_segment_id < 2 ^ 64 → field 20 8 (encode d ++ rest) ≡ d.previous_segment_id
  unfolding field encode be_bytes
  previous_segment_id_of h = from_be_bytes-be_bytes 8 d.previous_segment_id h

  record_count_of : d.record_count < 2 ^ 64 → field 28 8 (encode d ++ rest) ≡ d.record_count
  unfolding field encode be_bytes
  record_count_of h = from_be_bytes-be_bytes 8 d.record_count h

  integrity_hash_of : d.integrity_hash < 2 ^ 64 → field 36 8 (encode d ++ rest) ≡ d.integrity_hash
  unfolding field encode be_bytes
  integrity_hash_of h = from_be_bytes-be_bytes 8 d.integrity_hash h

-- A descriptor of 64-bit fields comes back from its block, whatever stands behind the block.
pub decode-encode_descriptor :
    (d : SegmentDescriptor) (rest : List ℕ) → IsDescriptor d → decode (encode d ++ rest) ≡ some d
unfolding decode
decode-encode_descriptor d rest v =
    rw (long_enough d rest, magic_of d rest)
      (λ i. some (record {
        segment_id = segment_id_of d rest v.segment_id i;
        segment_start_lsn = segment_start_lsn_of d rest v.segment_start_lsn i;
        previous_segment_id = previous_segment_id_of d rest v.previous_segment_id i;
        record_count = record_count_of d rest v.record_count i;
        integrity_hash = integrity_hash_of d rest v.integrity_hash i;
      }))
