-- ===== src/Wal/Aries/Payload.antt =====
-- src/wal/aries.rs: what stands in the payloads of the records of pages, and of the records of
-- undone work.
use rgraph.Prelude.{
  ℕ, ◌+◌, ◌-◌, ◌%◌, ◌^◌, ◌<◌, ◌≤◌, ◌≡◌, refl, ap, ◌∙◌, Bool, true, false, not, ◌||◌, Option, none,
  some, List, ◌++◌, length, length-append, length-take, take, drop, drop-append, drop_add,
  take-append, ltb, ◌==◌, ==_refl, min, if◌then◌else◌, arith,
}
use rgraph.Prelude.Bytes.{be_bytes, from_be_bytes-be_bytes}
use rgraph.Wal.Record.{Checksums, WalRecord, field}
use rgraph.Wal.Record.Kind.{RecordType, clr}
use rgraph.Wal.Record.RoundTrip.{IsWide}

abbrev pub page_size : ℕ
page_size = 8192

abbrev pub before_image_magic : ℕ
before_image_magic = 0x4249_4d47

-- Only for a payload of at least 8 bytes
unfoldable pub page_id_from_payload : List ℕ → ℕ
unfolding field
page_id_from_payload payload = field 0 8 payload

abbrev pub is_clr : RecordType → Bool
is_clr clr = true
is_clr _ = false

unfoldable pub extract_page_and_image : WalRecord → Option (ℕ × List ℕ)
unfolding page_id_from_payload
extract_page_and_image rec =
    if is_clr rec.record_type
    then (if ltb (length rec.payload) 16
        then none
        else some (page_id_from_payload (drop 8 rec.payload), drop 16 rec.payload))
    else if ltb (length rec.payload) 8
    then none
    else some (page_id_from_payload rec.payload, drop 8 rec.payload)

-- The checksum, the length and the magic behind an image
abbrev pub trailer : Checksums → List ℕ → List ℕ
trailer sums image =
    be_bytes 4 (sums.crc32c image)
    ++ (be_bytes 4 (length image % 2 ^ 32) ++ be_bytes 4 before_image_magic)

unfoldable pub embed_before_image : Checksums → List ℕ → List ℕ → List ℕ
embed_before_image sums payload before_image =
    let image = take (min (length before_image) page_size) before_image in
    payload ++ (image ++ trailer sums image)

unfoldable pub extract_before_image : Checksums → List ℕ → Option (List ℕ)
unfolding field
extract_before_image sums payload =
    let n = length payload in
    let image_len = field (n - 8) 4 payload in
    let image = take image_len (drop (n - 12 - image_len) payload) in
    if ltb n 12
    then none
    else if not (field (n - 4) 4 payload == before_image_magic)
    then none
    else if ltb page_size image_len || ltb n (image_len + 12)
    then none
    else if not (sums.crc32c image == field (n - 12) 4 payload)
    then none
    else some image

unfoldable pub build_clr_payload : ℕ → ℕ → List ℕ → List ℕ
build_clr_payload undo_next_lsn page_id before_image =
    be_bytes 8 undo_next_lsn
    ++ (be_bytes 8 page_id ++ take (min (length before_image) page_size) before_image)

unfoldable pub clr_undo_next_lsn : List ℕ → ℕ
unfolding field
clr_undo_next_lsn payload = if ltb (length payload) 8 then 0 else field 0 8 payload

-- A read behind a front part
drop_behind : (xs ys : List ℕ) (k : ℕ) → drop (length xs + k) (xs ++ ys) ≡ drop k ys
drop_behind xs ys k = drop_add (length xs) k (xs ++ ys) ∙ ap (drop k) (drop-append xs ys)

module _ (sums : Checksums) (wide : IsWide sums) (payload image : List ℕ)
    (small : length image ≤ page_size) where
  abbrev whole : List ℕ
  whole = payload ++ (image ++ trailer sums image)

  length-whole : length whole ≡ length payload + length image + 12
  unfolding be_bytes
  length-whole = omega (
    arith,
    length-append payload (image ++ trailer sums image),
    length-append image (trailer sums image),
  )

  -- The trailer from its byte `k` on
  drop-trailer :
      (m k : ℕ)
      → m ≡ length payload + (length image + k)
      → drop m whole ≡ drop k (trailer sums image)
  drop-trailer m k e = rw e (
      drop_behind payload (image ++ trailer sums image) (length image + k)
      ∙ drop_behind image (trailer sums image) k)

  crc_of : field (length whole - 12) 4 whole ≡ sums.crc32c image
  unfolding field be_bytes
  crc_of =
      rw (drop-trailer (length whole - 12) 0 (omega (arith, length-whole)))
        (from_be_bytes-be_bytes 4 (sums.crc32c image) (wide.crc32c image))

  len_of : field (length whole - 8) 4 whole ≡ length image
  unfolding field be_bytes
  len_of =
      rw (drop-trailer (length whole - 8) 4 (omega (arith, length-whole)))
        (from_be_bytes-be_bytes 4 (length image % 2 ^ 32) (omega arith) ∙ omega arith)

  magic_of : field (length whole - 4) 4 whole ≡ before_image_magic
  unfolding field be_bytes
  magic_of =
      rw (drop-trailer (length whole - 4) 8 (omega (arith, length-whole)))
        (from_be_bytes-be_bytes 4 before_image_magic (omega arith))

  image_of : take (length image) (drop (length whole - 12 - length image) whole) ≡ image
  image_of =
      let e : length whole - 12 - length image ≡ length payload = omega (arith, length-whole) in
      rw (e, drop-append payload (image ++ trailer sums image))
        (take-append image (trailer sums image))

  in_bounds :
      (ltb (length whole) 12 ≡ false)
      × ((ltb page_size (length image) || ltb (length whole) (length image + 12)) ≡ false)
  in_bounds = ground (arith, length-whole)

  extract_whole : extract_before_image sums whole ≡ some image
  unfolding extract_before_image
  extract_whole =
      rw (in_bounds.0, magic_of, len_of, in_bounds.1, image_of, crc_of, ==_refl (sums.crc32c image))
        refl

length-trim : (xs : List ℕ) → length (take (min (length xs) page_size) xs) ≤ page_size
length-trim xs = omega (arith, length-take (min (length xs) page_size) xs (omega arith))

-- The before-image that was embedded in a payload, cut to the size of a page, is the one that the
-- recovery extracts, whatever the payload is, with a checksum of 32 bits.
pub extract_before_image-embed_before_image :
    (sums : Checksums) (payload before_image : List ℕ)
    → IsWide sums
    → extract_before_image sums (embed_before_image sums payload before_image)
      ≡ some (take (min (length before_image) page_size) before_image)
unfolding embed_before_image
extract_before_image-embed_before_image sums payload before_image wide =
    extract_whole sums wide payload (take (min (length before_image) page_size) before_image)
      (length-trim before_image)

long_clr :
    (undo_next_lsn page_id : ℕ) (image : List ℕ)
    → (ltb (length (build_clr_payload undo_next_lsn page_id image)) 8 ≡ false)
      × (ltb (length (build_clr_payload undo_next_lsn page_id image)) 16 ≡ false)
unfolding build_clr_payload be_bytes
long_clr undo_next_lsn page_id image = ground arith

-- The payload of a record of undone work gives back the next LSN to undo, the page and its image,
-- which is cut to the size of a page.
pub extract-build_clr_payload :
    (rec : WalRecord) (undo_next_lsn page_id : ℕ) (image : List ℕ)
    → rec.record_type ≡ clr
    → rec.payload ≡ build_clr_payload undo_next_lsn page_id image
    → undo_next_lsn < 2 ^ 64
    → page_id < 2 ^ 64
    → (clr_undo_next_lsn rec.payload ≡ undo_next_lsn)
      × (extract_page_and_image rec ≡ some (page_id, take (min (length image) page_size) image))
unfolding build_clr_payload clr_undo_next_lsn extract_page_and_image page_id_from_payload field
    be_bytes
extract-build_clr_payload rec undo_next_lsn page_id image kind payload hu hp =
    let (a, b) = long_clr undo_next_lsn page_id image in
    let trimmed : List ℕ = take (min (length image) page_size) image in
    rw (kind, payload, a, b)
      (
        from_be_bytes-be_bytes 8 undo_next_lsn hu,
        ap (λ n. some (n, trimmed)) (from_be_bytes-be_bytes 8 page_id hp),
      )
