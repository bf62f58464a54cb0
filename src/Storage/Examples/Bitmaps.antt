-- ===== src/Storage/Examples/Bitmaps.antt =====
-- The theorems on the bitmap, at a new one.
use rgraph.Prelude.{
  ℕ, zero, suc, ◌<◌, ◌≡◌, refl, true, false, Bool, ◌&&◌, Option, some, List, [], ◌∷◌, arith,
  get_elem?, ltb, ◌==◌, if◌then◌else◌,
}
use rgraph.Prelude.Bytes.{le_bytes}
use rgraph.Prelude.Slices.{write_at, write_front}
use rgraph.Storage.Page.{header_bytes, type_code, init, bitmap}
use rgraph.Storage.Page.Init.{init-IsValid}
use rgraph.Storage.Bitmap.{BitmapPage, is_set, allocate, free, find_first_free}
use rgraph.Storage.Bitmap.Laws.{IsBitmap, IsInside, is_set-allocate, is_set-free}
use rgraph.Storage.Bitmap.Search.{IsFirst, find_first_free-IsFirst}

abbrev all_bytes : List ℕ → Bool
all_bytes [] = true
all_bytes (b ∷ bs) = ltb b 256 && all_bytes bs

all_bytes_lem : (bs : List ℕ) → all_bytes bs ≡ true → (i b : ℕ) → get_elem? bs i ≡ some b → b < 256
all_bytes_lem [] h i b e = absurd (cc e)
all_bytes_lem (c ∷ bs) h zero b e = grind (arith, h, e)
all_bytes_lem (c ∷ bs) h (suc i) b e = all_bytes_lem bs (grind (arith, h)) i b e

-- The bitmap of the pages from 65024 on
abbrev second : BitmapPage
second = record { page = init 9 bitmap; bitmap_slot = 1 }

second_bytes : all_bytes second.page ≡ true
unfolding init header_bytes type_code write_at write_front le_bytes
second_bytes = refl

second-IsBitmap : IsBitmap second
second-IsBitmap = record {
  size = (init-IsValid 9 bitmap).size;
  bytes = all_bytes_lem second.page second_bytes;
}

inside : IsInside second 65030
inside = ((omega arith, omega arith), omega arith)

is_set-allocate_example :
    (p' : BitmapPage) × (allocate second 65030 ≡ some p')
    × IsBitmap p'
    × ((other : ℕ) → is_set p' other ≡ (if other == 65030 then some true else is_set second other))
is_set-allocate_example = is_set-allocate second 65030 second-IsBitmap inside

is_set-free_example :
    (p' : BitmapPage) × (free second 65030 ≡ some p')
    × IsBitmap p'
    × ((other : ℕ) → is_set p' other ≡ (if other == 65030 then some false else is_set second other))
is_set-free_example = is_set-free second 65030 second-IsBitmap inside

find_first_free-IsFirst_example :
    (found : Option ℕ) × (find_first_free second 3 ≡ some found) × IsFirst second 3 found
find_first_free-IsFirst_example =
    find_first_free-IsFirst second 3 second-IsBitmap (omega arith) (omega arith)
