-- ===== src/Storage/Page/Checksum.antt =====
-- src/storage/page.rs: the checksum of a page.
use rgraph.Prelude.{
  ℕ, ◌^◌, ◌<◌, ◌≡◌, ap, ◌∙◌, true, List, [], ◌∷◌, ◌++◌, length, take, drop, arith, ==_refl,
  take_front, drop_front, drop_add, length-take, length-append, length-drop,
}
use rgraph.Prelude.Bytes.{le_bytes, length-le_bytes, from_le_bytes-le_bytes}
use rgraph.Prelude.Slices.{slice}
use rgraph.Wal.Aries.Redo.{compute_checksum_bytes, update_checksum_bytes}
use rgraph.Wal.Record.{Checksums}
use rgraph.Storage.Page.{verify_checksum_bytes}

bound :
    (sums : Checksums) (buf : List ℕ)
    → ((bytes : List ℕ) → sums.crc32c bytes < 2 ^ 32)
    → compute_checksum_bytes sums buf < 256 ^ 4
unfolding compute_checksum_bytes
bound sums buf wide = wide (take 28 buf ++ (0 ∷ 0 ∷ 0 ∷ 0 ∷ [] ++ drop 32 buf))

module _ (sums : Checksums) (buf : List ℕ) (size : length buf ≡ 8192) where
  abbrev field : List ℕ
  field = le_bytes 4 (compute_checksum_bytes sums buf)

  head_size : length (take 28 buf) ≡ 28
  head_size = length-take 28 buf (omega arith)

  drop-updated : drop 28 (update_checksum_bytes sums buf) ≡ field ++ drop 32 buf
  unfolding update_checksum_bytes
  drop-updated = drop_front 28 (take 28 buf) (field ++ drop 32 buf) head_size

  take-updated : take 28 (update_checksum_bytes sums buf) ≡ take 28 buf
  unfolding update_checksum_bytes
  take-updated = take_front 28 (take 28 buf) (field ++ drop 32 buf) head_size

  tail-updated : drop 32 (update_checksum_bytes sums buf) ≡ drop 32 buf
  tail-updated =
      drop_add 28 4 (update_checksum_bytes sums buf)
      ∙ ap (drop 4) drop-updated
      ∙ drop_front 4 field (drop 32 buf) (length-le_bytes 4 (compute_checksum_bytes sums buf))

  pub compute-updated :
      compute_checksum_bytes sums (update_checksum_bytes sums buf) ≡ compute_checksum_bytes sums buf
  unfolding compute_checksum_bytes
  compute-updated =
      ap
        (λ front.
          sums.crc32c (front ++ (0 ∷ 0 ∷ 0 ∷ 0 ∷ [] ++ drop 32 (update_checksum_bytes sums buf))))
        take-updated
      ∙ ap (λ back. sums.crc32c (take 28 buf ++ (0 ∷ 0 ∷ 0 ∷ 0 ∷ [] ++ back))) tail-updated

  field-updated : slice 28 4 (update_checksum_bytes sums buf) ≡ field
  field-updated =
      ap (take 4) drop-updated
      ∙ take_front 4 field (drop 32 buf) (length-le_bytes 4 (compute_checksum_bytes sums buf))

  length-updated : length (update_checksum_bytes sums buf) ≡ 8192
  unfolding update_checksum_bytes
  length-updated = omega (
    arith,
    length-append (take 28 buf) (field ++ drop 32 buf),
    length-append field (drop 32 buf),
    head_size,
    length-le_bytes 4 (compute_checksum_bytes sums buf),
    length-drop 32 buf,
  )

-- A buffer of the size of a page passes the check of its checksum once the checksum has been
-- stored, and the checksum of the stored page is that of the page before. The checksums have 32 bits.
pub verify-update :
    (sums : Checksums) (buf : List ℕ)
    → length buf ≡ 8192
    → ((bytes : List ℕ) → sums.crc32c bytes < 2 ^ 32)
    → (verify_checksum_bytes sums (update_checksum_bytes sums buf) ≡ true)
      × (compute_checksum_bytes sums (update_checksum_bytes sums buf)
          ≡ compute_checksum_bytes sums buf)
unfolding verify_checksum_bytes
verify-update sums buf size wide = (
  rw
      (
        length-updated sums buf size,
        field-updated sums buf size,
        compute-updated sums buf size,
        from_le_bytes-le_bytes 4 (compute_checksum_bytes sums buf) (bound sums buf wide),
      )
      (==_refl (compute_checksum_bytes sums buf)),
  compute-updated sums buf size,
)
