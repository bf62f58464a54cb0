-- ===== src/Storage/Page/Compact/Directory.antt =====
-- src/storage/page.rs: the slot directory that `compact` writes as one block.
use rgraph.Prelude.{
  drop_front, ℕ, zero, suc, ◌+◌, ◌*◌, ◌≤◌, ◌<◌, ◌≡◌, refl, ap, sym, ◌∙◌, Option, none, some, List,
  [], ◌∷◌, ◌++◌, length, take, drop, get_elem?, arith, drop_add, take-drop-take, length-append,
  take_front,
}
use rgraph.Prelude.Slices.{slice, write_at, slice-write_at}
use rgraph.Storage.Page.{Slot, slot_bytes}
use rgraph.Storage.Page.Compact.{directory_bytes}
use rgraph.Storage.Page.Compact.Moves.{Holds}
use rgraph.Storage.Page.Layout.{length-slot_bytes}
use rgraph.Storage.Page.Valid.{bytes_of}

pub length-directory_bytes : (slots : List Slot) → length (directory_bytes slots) ≡ length slots * 4
unfolding directory_bytes
length-directory_bytes [] = refl
length-directory_bytes (s ∷ slots) = omega (
  arith,
  length-append (slot_bytes s) (directory_bytes slots),
  length-slot_bytes s,
  length-directory_bytes slots,
)

-- A part of a block that was written
pub slice-block :
    (p o n : ℕ) (block xs : List ℕ)
    → p + length block ≤ length xs
    → o + n ≤ length block
    → slice (p + o) n (write_at p block xs) ≡ slice o n block
slice-block p o n block xs fit inside =
    ap (take n) (drop_add p o (write_at p block xs))
    ∙ sym (take-drop-take o n (length block) (drop p (write_at p block xs)) inside)
    ∙ ap (λ front. take n (drop o front)) (slice-write_at p block xs fit)

slice-behind :
    (m : ℕ) (s : Slot) (slots : List Slot)
    → slice (4 + m) 4 (directory_bytes (s ∷ slots)) ≡ slice m 4 (directory_bytes slots)
unfolding directory_bytes
slice-behind m s slots = ap (take 4) (
    drop_add 4 m (slot_bytes s ++ directory_bytes slots)
    ∙ ap (drop m) (drop_front 4 (slot_bytes s) (directory_bytes slots) (length-slot_bytes s)))

abbrev given_or : Slot → Option Slot → Slot
given_or d none = d
given_or d (some s) = s

first_slot : (s : Slot) (slots : List Slot) → slice 0 4 (directory_bytes (s ∷ slots)) ≡ slot_bytes s
unfolding directory_bytes
first_slot s slots = take_front 4 (slot_bytes s) (directory_bytes slots) (length-slot_bytes s)

pub slice-directory_bytes :
    (slots : List Slot) (m : ℕ) (s : Slot)
    → get_elem? slots m ≡ some s
    → slice (m * 4) 4 (directory_bytes slots) ≡ slot_bytes s
slice-directory_bytes [] m s e = absurd (cc e)
slice-directory_bytes (t ∷ slots) zero s e = first_slot t slots ∙ ap slot_bytes (ap (given_or t) e)
slice-directory_bytes (t ∷ slots) (suc m) s e =
    let next : suc m * 4 ≡ 4 + m * 4 = omega arith in
    rw next (slice-behind (m * 4) t slots ∙ slice-directory_bytes slots m s e)

-- The record of the slot number `m`
unfoldable pub Held : List ℕ → ℕ → List Slot → List (List ℕ) → ℕ → Type 0
Held y end slots recs m =
    (s : Slot) × (get_elem? slots m ≡ some s)
    × (get_elem? recs m ≡ some (bytes_of s y))
    × (s.offset + s.length ≤ end)
    × (s.length < 65536)

pub held :
    (y : List ℕ) (end : ℕ) (slots : List Slot) (recs : List (List ℕ)) (m : ℕ)
    → Holds y end slots recs
    → m < length slots
    → Held y end slots recs m
unfolding Holds Held
held y end [] recs m h below = absurd (omega arith)
held y end (s ∷ slots) [] m h below = absurd h
held y end (s ∷ slots) (r ∷ recs) zero h below = (s, refl, ap some (sym h.0), h.1, h.2)
held y end (s ∷ slots) (r ∷ recs) (suc m) h below = held y end slots recs m h.3 (omega arith)

pub length-held :
    (y : List ℕ) (end : ℕ) (slots : List Slot) (recs : List (List ℕ))
    → Holds y end slots recs
    → length recs ≡ length slots
unfolding Holds
length-held y end [] [] h = refl
length-held y end [] (r ∷ recs) h = absurd h
length-held y end (s ∷ slots) [] h = absurd h
length-held y end (s ∷ slots) (r ∷ recs) h = omega (arith, length-held y end slots recs h.3)
