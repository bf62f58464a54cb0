-- ===== src/Storage/Page/Init.antt =====
-- src/storage/page.rs: a blank page.
use rgraph.Prelude.{ℕ, ◌≡◌, refl, ◌∙◌, none, length, arith, le→leb}
use rgraph.Prelude.Bytes.{le_bytes, from_le_bytes}
use rgraph.Prelude.Slices.{write_front, write_at, length-write_at}
use rgraph.Wal.Aries.Redo.{zeros}
use rgraph.Wal.Aries.Redo.Pages.{length-zeros}
use rgraph.Storage.Page.{free_space, PageType, init, header_bytes, slot_count, free_space_offset}
use rgraph.Storage.Page.Valid.{IsValid, record_at}

module _ (page_id : ℕ) (page_type : PageType) where
  free_space_offset-init : free_space_offset (init page_id page_type) ≡ 0
  unfolding free_space_offset init header_bytes write_at write_front le_bytes from_le_bytes
  free_space_offset-init = refl

  slot_count-init : slot_count (init page_id page_type) ≡ 0
  unfolding slot_count init header_bytes write_at write_front le_bytes from_le_bytes
  slot_count-init = refl

  length-init : length (init page_id page_type) ≡ 8192
  unfolding init
  length-init = length-write_at 0 (header_bytes page_id page_type) (zeros 8192) ∙ length-zeros 8192

  pub init-IsValid : IsValid (init page_id page_type)
  init-IsValid = record {
    size = length-init;
    room = rw (free_space_offset-init, slot_count-init) (omega arith);
    words = λ i h. absurd (let c = slot_count-init in omega arith);
    live = λ i h. absurd (let c = slot_count-init in omega arith);
  }

  record_at-init : (i : ℕ) → record_at (init page_id page_type) i ≡ none
  unfolding record_at
  record_at-init i = rw (slot_count-init, le→leb 0 i (omega arith)) refl

-- A blank page is valid and holds no record, whatever its id and its type are.
pub init-record_at :
    (page_id : ℕ) (page_type : PageType)
    → IsValid (init page_id page_type) × ((i : ℕ) → record_at (init page_id page_type) i ≡ none)
init-record_at page_id page_type =
    (init-IsValid page_id page_type, record_at-init page_id page_type)

pub free_space-init :
    (page_id : ℕ) (page_type : PageType) → free_space (init page_id page_type) ≡ 8128
unfolding free_space
free_space-init page_id page_type =
    rw (free_space_offset-init page_id page_type, slot_count-init page_id page_type) refl
