-- ===== src/Storage/Bitmap.antt =====
-- src/storage/bitmap.rs: the page that tells the allocated pages from the free ones, a bit for each.
-- A panic is `none`; overflow and the
-- range of an id are checked as in a debug build.
pub mod Bit
pub mod Laws
pub mod Search
use Prim.Native.Nat.{bit_and, bit_or}
use rgraph.Prelude.{
  ℕ, zero, suc, ◌+◌, ◌-◌, ◌*◌, ◌/◌, ◌%◌, ◌^◌, Bool, true, false, not, ◌&&◌, Option, none, some,
  List, [], ◌∷◌, ltb, leb, ◌==◌, get_elem?, if◌then◌else◌,
}
use rgraph.Prelude.Slices.{write_at}
use rgraph.Storage.Page.{◌>>=◌, header_size, PageType, init, bitmap}

-- (8192 - 64) * 8
abbrev pub pages_per_bitmap : ℕ
pages_per_bitmap = 65024

pub record BitmapPage : Type 0 where
  pub page : List ℕ
  pub bitmap_slot : ℕ

pub new : ℕ → ℕ → BitmapPage
new file_page_id bitmap_slot = record { page = init file_page_id bitmap; bitmap_slot = bitmap_slot }

-- A sum or a product of 64 bits, which panics where it overflows
unfoldable pub checked_u64 : ℕ → Option ℕ
checked_u64 n = if ltb n (2 ^ 64) then some n else none

unfoldable pub base_page_id : BitmapPage → Option ℕ
base_page_id p = checked_u64 (p.bitmap_slot * pages_per_bitmap)

unfoldable pub local_index : BitmapPage → ℕ → Option ℕ
local_index p global_id = base_page_id p >>= λ base.
    if leb base global_id && ltb (global_id - base) pages_per_bitmap
    then some (global_id - base)
    else none

-- `data[byte]` behind the header
abbrev pub data_byte : List ℕ → ℕ → Option ℕ
data_byte buf byte = get_elem? buf (header_size + byte)

-- `(b & (1 << bit)) != 0`, `b | (1 << bit)` and `b & !(1 << bit)` on a byte
unfoldable pub test_bit : ℕ → ℕ → Bool
test_bit bit b = not (bit_and b (2 ^ bit) == 0)

unfoldable pub set_bit : ℕ → ℕ → ℕ
set_bit bit b = bit_or b (2 ^ bit)

unfoldable pub clear_bit : ℕ → ℕ → ℕ
clear_bit bit b = bit_and b (255 - 2 ^ bit)

unfoldable pub is_set : BitmapPage → ℕ → Option Bool
is_set p global_id =
    local_index p global_id >>= λ i. data_byte p.page (i / 8) >>= λ b. some (test_bit (i % 8) b)

-- The byte of the id is changed, and the others are left.
unfoldable pub change_byte : (ℕ → ℕ → ℕ) → BitmapPage → ℕ → Option BitmapPage
change_byte change p global_id = local_index p global_id >>= λ i. data_byte p.page (i / 8) >>= λ b.
    some (record p { page = write_at (header_size + i / 8) (change (i % 8) b ∷ []) p.page })

unfoldable pub allocate : BitmapPage → ℕ → Option BitmapPage
allocate p global_id = change_byte set_bit p global_id

unfoldable pub free : BitmapPage → ℕ → Option BitmapPage
free p global_id = change_byte clear_bit p global_id

unfoldable pub find_from : List ℕ → ℕ → ℕ → ℕ → Option (Option ℕ)
find_from buf base i zero = some none
find_from buf base i (suc rounds) =
    let later = find_from buf base (i + 1) rounds in
    data_byte buf (i / 8) >>= λ b.
    if test_bit (i % 8) b
    then later
    else (checked_u64 (base + i) >>= λ global_id. some (some global_id))

unfoldable pub find_first_free : BitmapPage → ℕ → Option (Option ℕ)
find_first_free p start_local =
    base_page_id p >>= λ base. find_from p.page base start_local (pages_per_bitmap - start_local)
