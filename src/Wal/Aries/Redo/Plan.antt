-- ===== src/Wal/Aries/Redo/Plan.antt =====
-- The images that are to be applied to the pages of the data file, and what they leave of a page.
use rgraph.Prelude.{
  ℕ, ◌^◌, ◌<◌, ◌≡◌, refl, true, Option, none, some, List, [], ◌∷◌, ltb, ◌==◌, Bool-cases, inl, inr,
  if◌then◌else◌, arith,
}
use rgraph.Wal.Record.{Checksums}
use rgraph.Wal.Aries.Redo.{page_buf}
use rgraph.Wal.Aries.Redo.Pages.{lsn_of, lsn_of-page_buf}

-- The records that are to be redone, each as its LSN and, if it has one, its page and image.
abbrev pub Plan : Type 0
Plan = List (ℕ × Option (ℕ × List ℕ))

-- The image of a page that one record has, with the LSN
abbrev pub image_for : ℕ → ℕ → Option (ℕ × List ℕ) → Option (ℕ × List ℕ)
image_for p lsn none = none
image_for p lsn (some (q, image)) = if p == q then some (lsn, image) else none

abbrev pub or_else : Option (ℕ × List ℕ) → Option (ℕ × List ℕ) → Option (ℕ × List ℕ)
or_else (some x) y = some x
or_else none y = y

-- The last image of a page in a plan
abbrev pub latest : ℕ → Plan → Option (ℕ × List ℕ)
latest p [] = none
latest p ((lsn, o) ∷ plan) = or_else (latest p plan) (image_for p lsn o)

-- The page when an image is applied, if it is newer
abbrev pub settle : Checksums → Option (ℕ × List ℕ) → List ℕ → List ℕ
settle sums none page = page
settle sums (some (lsn, image)) page =
    if ltb (lsn_of page) lsn then page_buf sums image lsn else page

-- The LSNs rise and have 64 bits; the offsets of the pages have 64 bits.
abbrev pub InFile : Option (ℕ × List ℕ) → Type 0
InFile none = Unit
InFile (some (p, image)) = p < 2 ^ 51

abbrev pub IsPlan : ℕ → Plan → Type 0
IsPlan below [] = Unit
IsPlan below ((lsn, o) ∷ plan) = (below < lsn) × ((lsn < 2 ^ 64) × (InFile o × IsPlan lsn plan))

abbrev pub Newer : ℕ → Option (ℕ × List ℕ) → Type 0
Newer below none = Unit
Newer below (some (lsn, image)) = below < lsn

image_for-Newer :
    (below p lsn : ℕ) (o : Option (ℕ × List ℕ)) → below < lsn → Newer below (image_for p lsn o)
image_for-Newer below p lsn none h = tt
image_for-Newer below p lsn (some (q, image)) h = elim (Bool-cases (p == q)) [
  | inl same ↦ rw same h
  | inr other ↦ rw other tt
]

Newer-or_else :
    (below : ℕ) (a b : Option (ℕ × List ℕ))
    → Newer below a
    → Newer below b
    → Newer below (or_else a b)
Newer-or_else below (some x) b v w = v
Newer-or_else below none b v w = w

Newer-mono : (a b : ℕ) (o : Option (ℕ × List ℕ)) → a < b → Newer b o → Newer a o
Newer-mono a b none h v = tt
Newer-mono a b (some x) h v = omega arith

pub latest-Newer : (p below : ℕ) (plan : Plan) → IsPlan below plan → Newer below (latest p plan)
latest-Newer p below [] v = tt
latest-Newer p below ((lsn, o) ∷ plan) (h, (small, (inside, v))) =
    Newer-or_else below (latest p plan) (image_for p lsn o)
      (Newer-mono below lsn (latest p plan) h (latest-Newer p lsn plan v))
      (image_for-Newer below p lsn o h)

module _ (sums : Checksums) where
  -- An older image that was applied before makes no difference.
  settle_after :
      (o : Option (ℕ × List ℕ)) (lsn : ℕ) (image page : List ℕ)
      → lsn < 2 ^ 64
      → Newer lsn o
      → settle sums o (settle sums (some (lsn, image)) page)
        ≡ settle sums (or_else o (some (lsn, image))) page
  settle_after none lsn image page small v = refl
  settle_after (some (l, i)) lsn image page small v = elim (Bool-cases (ltb (lsn_of page) lsn)) [
    | inl older ↦
        let both : (ltb lsn l ≡ true) × (ltb (lsn_of page) l ≡ true) = ground arith in
        rw (older, lsn_of-page_buf sums image lsn small, both.0, both.1) refl
    | inr same ↦ rw same refl
  ]

  pub settle_step :
      (o : Option (ℕ × List ℕ)) (p lsn : ℕ) (here : Option (ℕ × List ℕ)) (page : List ℕ)
      → lsn < 2 ^ 64
      → Newer lsn o
      → settle sums o (settle sums (image_for p lsn here) page)
        ≡ settle sums (or_else o (image_for p lsn here)) page
  settle_step none p lsn here page small v = refl
  settle_step (some x) p lsn none page small v = refl
  settle_step (some (l, i)) p lsn (some (q, image)) page small v = elim (Bool-cases (p == q)) [
    | inl same ↦ rw same (settle_after (some (l, i)) lsn image page small v)
    | inr other ↦ rw other refl
  ]
