-- ===== src/Wal/Aries/Redo/Pages.antt =====
-- What the second phase leaves in each page of the data file.
use rgraph.Prelude.{
  zero, suc, suc, ℕ, ◌+◌, ◌-◌, ◌*◌, ◌%◌, ◌^◌, ◌<◌, ◌≤◌, ◌≡◌, ◌≢◌, refl, Bool, true, false, ◌&&◌,
  List, length, length-append, length-take, length-drop, take, drop, ltb, ◌==◌, min, Bool-cases,
  inl, inr, arith,
}
use rgraph.Prelude.Bytes.{
  be_bytes, from_be_bytes, from_be_bytes-be_bytes, length-be_bytes, length-le_bytes,
}
use rgraph.Wal.Record.{Checksums}
use rgraph.Wal.Writer.{ok}
use rgraph.Wal.Aries.Payload.{page_size}
use rgraph.Wal.Aries.Redo.{
  DataFile, zeros, stamp, fill, page_buf, has_valid_magic_bytes, update_checksum_bytes,
  read_page_lsn, apply_after_image,
}

pub length-zeros : (n : ℕ) → length (zeros n) ≡ n
length-zeros zero = refl
length-zeros (suc n) = omega (arith, length-zeros n)

length-fill : (image : List ℕ) → length (fill image) ≡ page_size
length-fill image =
    let n : ℕ = min (length image) page_size in
    omega (
      arith,
      length-append (take n image) (zeros (page_size - n)),
      length-take n image (omega arith),
      length-zeros (page_size - n),
    )

length-stamp :
    (page : List ℕ) (lsn : ℕ) → length page ≡ page_size → length (stamp page lsn) ≡ page_size
length-stamp page lsn h =
    omega (
      arith,
      length-append (be_bytes 8 lsn) (drop 8 page),
      length-be_bytes 8 lsn,
      length-drop 8 page,
    )

module _ (sums : Checksums) where
  length-update_checksum_bytes :
      (page : List ℕ)
      → length page ≡ page_size
      → length (update_checksum_bytes sums page) ≡ page_size
  unfolding update_checksum_bytes
  length-update_checksum_bytes page h = omega (
    arith,
    length-append (take 28 page) _,
    length-append _ (drop 32 page),
    length-le_bytes 4 _,
    length-take 28 page (omega arith),
    length-drop 32 page,
  )

  pub length-page_buf : (image : List ℕ) (lsn : ℕ) → length (page_buf sums image lsn) ≡ page_size
  unfolding page_buf
  length-page_buf image lsn =
      let stamped : length (stamp (fill image) lsn) ≡ page_size =
        length-stamp (fill image) lsn (length-fill image) in
      elim (Bool-cases (
        (min (length image) page_size == page_size)
        && has_valid_magic_bytes (stamp (fill image) lsn))) [
          | inl whole ↦ rw whole (length-update_checksum_bytes _ stamped)
          | inr part ↦ rw part stamped
        ]

-- The LSN in the first bytes of a page
abbrev pub lsn_of : List ℕ → ℕ
lsn_of page = from_be_bytes (take 8 page)

pub lsn_of-page_buf :
    (sums : Checksums) (image : List ℕ) (lsn : ℕ)
    → lsn < 2 ^ 64
    → lsn_of (page_buf sums image lsn) ≡ lsn
unfolding page_buf update_checksum_bytes be_bytes
lsn_of-page_buf sums image lsn h =
    elim (Bool-cases (
      (min (length image) page_size == page_size)
      && has_valid_magic_bytes (stamp (fill image) lsn))) [
        | inl whole ↦ rw whole (from_be_bytes-be_bytes 8 lsn h)
        | inr part ↦ rw part (from_be_bytes-be_bytes 8 lsn h)
      ]

-- What is relied on of a data file that is there, and on which no call fails. It has a whole number
-- of pages; the pages behind its end are zeros, which is how a file grows.
pub record FileIsThere {D E : Type 0} (io : DataFile D E) : Type 0 where
  pub page : D → ℕ → List ℕ
  pub count : D → ℕ
  pub written : List ℕ → ℕ → D → D
  pub exists : (d : D) → io.exists d ≡ true
  pub open_file : (create : Bool) (d : D) → io.open_file create d ≡ (ok tt, d)
  pub len : (d : D) → io.len d ≡ (ok (count d * page_size), d)
  pub read_at :
      (p : ℕ) (d : D) → p < count d → io.read_at 8 (p * page_size) d ≡ (ok (take 8 (page d p)), d)
  pub write_at :
      (bytes : List ℕ) (p : ℕ) (d : D)
      → length bytes ≡ page_size
      → io.write_at bytes (p * page_size) d ≡ (ok tt, written bytes p d)
  pub behind : (d : D) (p : ℕ) → count d ≤ p → page d p ≡ zeros page_size
  pub written_here :
      (bytes : List ℕ) (p : ℕ) (d : D)
      → length bytes ≡ page_size
      → page (written bytes p d) p ≡ bytes
  pub written_there :
      (bytes : List ℕ) (p q : ℕ) (d : D)
      → length bytes ≡ page_size
      → q ≢ p
      → page (written bytes p d) q ≡ page d q

module _ {D E : Type 0} (io : DataFile D E) (file : FileIsThere io) (sums : Checksums) where
  pub read_page_lsn-lsn_of :
      (p : ℕ) (d : D) → p < 2 ^ 51 → read_page_lsn io sums p d ≡ (ok (lsn_of (file.page d p)), d)
  unfolding read_page_lsn
  read_page_lsn-lsn_of p d h =
      let e : p * 8192 % 2 ^ 64 ≡ p * 8192 = omega arith in
      elim (Bool-cases (ltb (file.count d * 8192) (p * 8192 + 8))) [
        | inl short ↦
            rw
              (
                e,
                file.exists d,
                file.open_file false d,
                file.len d,
                short,
                file.behind d p (ground arith),
              )
              (unfold from_be_bytes in refl)
        | inr long ↦
            rw
              (
                e,
                file.exists d,
                file.open_file false d,
                file.len d,
                long,
                file.read_at p d (ground arith),
              )
              refl
      ]

  pub apply_after_image-written :
      (p : ℕ) (image : List ℕ) (lsn : ℕ) (d : D)
      → p < 2 ^ 51
      → apply_after_image io sums p image lsn d
        ≡ (ok tt, file.written (page_buf sums image lsn) p d)
  unfolding apply_after_image
  apply_after_image-written p image lsn d h =
      let e : p * 8192 % 2 ^ 64 ≡ p * 8192 = omega arith in
      rw (e, file.open_file true d)
        (file.write_at (page_buf sums image lsn) p d (length-page_buf sums image lsn))
