-- ===== src/Prelude/Slices.antt =====
-- `buf[off..off + n]` and `buf[off..].copy_from_slice(ys)` on a list of bytes, with what a write
-- leaves for the reads that overlap it and for those that do not.
use Prim.Native.Nat.{◌<◌, ℕ, zero, suc, ◌+◌, ◌≤◌}
use mathlib.Core.Path.{◌≡◌, refl, ap}
use mathlib.Core.Logic.{◌⊎◌, inl, inr}
use mathlib.Core.List.{List, [], ◌∷◌}
use native.Mathlib.Omega.{arith}
use mathlib.Core.Bool.{false}
use mathlib.Core.Option.{some}
use rgraph.Prelude.Tests.{◌==◌, if◌then◌else◌}
use rgraph.Prelude.Lists.{length, take, drop, get_elem?}

module _ {ℓ} {A : Type ℓ} where
  abbrev pub slice : ℕ → ℕ → List A → List A
  slice off n xs = take n (drop off xs)

  -- The list with its front replaced; a list that is too short stays as long as it is.
  unfoldable pub write_front : List A → List A → List A
  write_front [] xs = xs
  write_front (y ∷ ys) [] = []
  write_front (y ∷ ys) (x ∷ xs) = y ∷ write_front ys xs

  unfoldable pub write_at : ℕ → List A → List A → List A
  write_at zero ys xs = write_front ys xs
  write_at (suc off) ys [] = []
  write_at (suc off) ys (x ∷ xs) = x ∷ write_at off ys xs

  pub length-write_front : (ys xs : List A) → length (write_front ys xs) ≡ length xs
  unfolding write_front
  length-write_front [] xs = refl
  length-write_front (y ∷ ys) [] = refl
  length-write_front (y ∷ ys) (x ∷ xs) = omega (arith, length-write_front ys xs)

  pub length-write_at : (off : ℕ) (ys xs : List A) → length (write_at off ys xs) ≡ length xs
  unfolding write_at
  length-write_at zero ys xs = length-write_front ys xs
  length-write_at (suc off) ys [] = refl
  length-write_at (suc off) ys (x ∷ xs) = omega (arith, length-write_at off ys xs)

  take-write_front :
      (ys xs : List A) → length ys ≤ length xs → take (length ys) (write_front ys xs) ≡ ys
  unfolding write_front
  take-write_front [] xs h = refl
  take-write_front (y ∷ ys) [] h = absurd (omega arith)
  take-write_front (y ∷ ys) (x ∷ xs) h = ap (◌∷◌ y) (take-write_front ys xs (omega arith))

  drop-write_front :
      (i : ℕ) (ys xs : List A) → length ys ≤ i → drop i (write_front ys xs) ≡ drop i xs
  unfolding write_front
  drop-write_front i [] xs h = refl
  drop-write_front zero (y ∷ ys) xs h = absurd (omega arith)
  drop-write_front (suc i) (y ∷ ys) [] h = refl
  drop-write_front (suc i) (y ∷ ys) (x ∷ xs) h = drop-write_front i ys xs (omega arith)

  -- What was written is read.
  pub slice-write_at :
      (off : ℕ) (ys xs : List A)
      → off + length ys ≤ length xs
      → slice off (length ys) (write_at off ys xs) ≡ ys
  unfolding write_at
  slice-write_at zero ys xs h = take-write_front ys xs (omega arith)
  slice-write_at (suc off) ys [] h = absurd (omega arith)
  slice-write_at (suc off) ys (x ∷ xs) h = slice-write_at off ys xs (omega arith)

  -- Behind the write, and before it, nothing changes.
  pub drop-write_at :
      (i off : ℕ) (ys xs : List A) → off + length ys ≤ i → drop i (write_at off ys xs) ≡ drop i xs
  unfolding write_at
  drop-write_at i zero ys xs h = drop-write_front i ys xs (omega arith)
  drop-write_at zero (suc off) ys xs h = absurd (omega arith)
  drop-write_at (suc i) (suc off) ys [] h = refl
  drop-write_at (suc i) (suc off) ys (x ∷ xs) h = drop-write_at i off ys xs (omega arith)

  pub take-write_at :
      (n off : ℕ) (ys xs : List A) → n ≤ off → take n (write_at off ys xs) ≡ take n xs
  unfolding write_at
  take-write_at zero off ys xs h = refl
  take-write_at (suc n) zero ys xs h = absurd (omega arith)
  take-write_at (suc n) (suc off) ys [] h = refl
  take-write_at (suc n) (suc off) ys (x ∷ xs) h =
      ap (◌∷◌ x) (take-write_at n off ys xs (omega arith))

  pub slice_before :
      (i n off : ℕ) (ys xs : List A) → i + n ≤ off → slice i n (write_at off ys xs) ≡ slice i n xs
  unfolding write_at
  slice_before zero n off ys xs h = take-write_at n off ys xs (omega arith)
  slice_before (suc i) n zero ys xs h = absurd (omega arith)
  slice_before (suc i) n (suc off) ys [] h = refl
  slice_before (suc i) n (suc off) ys (x ∷ xs) h = slice_before i n off ys xs (omega arith)

  -- A slice that the write does not touch
  pub slice_apart :
      (i n off : ℕ) (ys xs : List A)
      → (i + n ≤ off) ⊎ (off + length ys ≤ i)
      → slice i n (write_at off ys xs) ≡ slice i n xs
  slice_apart i n off ys xs (inl before) = slice_before i n off ys xs before
  slice_apart i n off ys xs (inr behind) = ap (take n) (drop-write_at i off ys xs behind)

same_suc : (i off : ℕ) → (suc i == suc off) ≡ (i == off)
same_suc i off = ground arith

module _ {ℓ} {A : Type ℓ} where
  get-write_front :
      (i : ℕ) (v : A) (xs : List A)
      → 0 < length xs
      → get_elem? (write_front (v ∷ []) xs) i ≡ (if i == 0 then some v else get_elem? xs i)
  unfolding write_front
  get-write_front i v [] h = absurd (omega arith)
  get-write_front zero v (x ∷ xs) h = refl
  get-write_front (suc i) v (x ∷ xs) h = let e : (suc i == 0) ≡ false = ground arith in rw e refl

  -- One element that is written
  pub get-write_at :
      (off i : ℕ) (v : A) (xs : List A)
      → off < length xs
      → get_elem? (write_at off (v ∷ []) xs) i ≡ (if i == off then some v else get_elem? xs i)
  unfolding write_at
  get-write_at zero i v xs h = get-write_front i v xs h
  get-write_at (suc off) i v [] h = absurd (omega arith)
  get-write_at (suc off) zero v (x ∷ xs) h =
      let e : (0 == suc off) ≡ false = ground arith in rw e refl
  get-write_at (suc off) (suc i) v (x ∷ xs) h =
      rw (same_suc i off) (get-write_at off i v xs (omega arith))

  pub get_inside : (xs : List A) (i : ℕ) → i < length xs → (x : A) × (get_elem? xs i ≡ some x)
  get_inside [] i h = absurd (omega arith)
  get_inside (x ∷ xs) zero h = (x, refl)
  get_inside (x ∷ xs) (suc i) h = get_inside xs i (omega arith)
