-- ===== src/Index/Prefix/Common.antt =====
-- The common prefix of keys is the longest one.
use mathlib.Core.Path.{subst}
use rgraph.Prelude.{
  sym, length-take, ℕ, zero, suc, ◌≤◌, ◌≡◌, refl, true, List, [], ◌∷◌, All, length, take,
  take-drop-take, ◌==◌, ==→eq, Bool-cases, inl, inr, arith,
}
use rgraph.Index.Prefix.{shared, prefix_loop, common_prefix, starts_with}

starts_with-shared : (xs ys : List ℕ) → starts_with ys (take (shared xs ys) xs) ≡ true
unfolding starts_with
starts_with-shared [] ys = refl
starts_with-shared (x ∷ xs) [] = refl
starts_with-shared (x ∷ xs) (y ∷ ys) = elim (Bool-cases (x == y)) [
  | inl same ↦
      let back : (y == x) ≡ true = ground arith in rw (same, back) (starts_with-shared xs ys)
  | inr other ↦ rw other refl
]

shared_le : (xs ys : List ℕ) → shared xs ys ≤ length xs
shared_le [] ys = omega arith
shared_le (x ∷ xs) [] = omega arith
shared_le (x ∷ xs) (y ∷ ys) = elim (Bool-cases (x == y)) [
  | inl same ↦ rw same (omega (arith, shared_le xs ys))
  | inr other ↦ rw other (omega arith)
]

length-take_le : (n : ℕ) (xs : List ℕ) → length (take n xs) ≤ n
length-take_le zero xs = omega arith
length-take_le (suc n) [] = omega arith
length-take_le (suc n) (x ∷ xs) = omega (arith, length-take_le n xs)

-- A shorter prefix
starts_with-take :
    (m : ℕ) (key p : List ℕ) → starts_with key p ≡ true → starts_with key (take m p) ≡ true
unfolding starts_with
starts_with-take zero key p h = refl
starts_with-take (suc m) key [] h = refl
starts_with-take (suc m) [] (x ∷ p) h = cc h
starts_with-take (suc m) (k ∷ key) (x ∷ p) h = elim (Bool-cases (k == x)) [
  | inl same ↦ rw same (starts_with-take m key p (rw same at h))
  | inr other ↦ cc (rw other at h)
]

take-take : (m n : ℕ) (xs : List ℕ) → m ≤ n → take m (take n xs) ≡ take m xs
take-take m n xs h = take-drop-take 0 m n xs (omega arith)

starts_with_shared_part :
    (first key : List ℕ) (n m : ℕ)
    → m ≤ shared (take n first) key
    → starts_with key (take m first) ≡ true
starts_with_shared_part first key n m h =
    let s : ℕ = shared (take n first) key in
    let s_le : s ≤ n = omega (arith, shared_le (take n first) key, length-take_le n first) in
    rw (← take-take m s first h, ← take-take s n first s_le)
      (starts_with-take m key (take s (take n first)) (starts_with-shared (take n first) key))

prefix_loop_le : (first : List ℕ) (n : ℕ) (keys : List (List ℕ)) → prefix_loop first n keys ≤ n
unfolding prefix_loop
prefix_loop_le first n [] = omega arith
prefix_loop_le first n (key ∷ keys) = elim (Bool-cases (shared (take n first) key == 0)) [
  | inl empty ↦ rw (prefix_loop, empty) (omega arith)
  | inr more ↦
      rw (prefix_loop, more)
        (omega (
          arith,
          prefix_loop_le first (shared (take n first) key) keys,
          shared_le (take n first) key,
          length-take_le n first,
        ))
]

starts_with-nothing : (keys : List (List ℕ)) → All (λ k. starts_with k [] ≡ true) keys
unfolding starts_with
starts_with-nothing [] = tt
starts_with-nothing (k ∷ keys) = (refl, starts_with-nothing keys)

-- All keys start with the first `m` bytes of a key.
abbrev Share : List ℕ → List (List ℕ) → ℕ → Type 0
Share first keys m = All (λ k. starts_with k (take m first) ≡ true) keys

starts_with-prefix_loop :
    (first : List ℕ) (n : ℕ) (keys : List (List ℕ)) → Share first keys (prefix_loop first n keys)
unfolding prefix_loop
starts_with-prefix_loop first n [] = tt
starts_with-prefix_loop first n (key ∷ keys) =
    let s : ℕ = shared (take n first) key in
    elim (Bool-cases (s == 0)) [
      | inl empty ↦
          let e : prefix_loop first n (key ∷ keys) ≡ 0 = rw (prefix_loop, empty) refl in
          subst (Share first (key ∷ keys)) (sym e) (starts_with-nothing (key ∷ keys))
      | inr more ↦
          let e : prefix_loop first n (key ∷ keys) ≡ prefix_loop first s keys =
            rw (prefix_loop, more) refl in
          subst (Share first (key ∷ keys)) (sym e) (
            starts_with_shared_part first key n (prefix_loop first s keys)
                (prefix_loop_le first s keys),
            starts_with-prefix_loop first s keys,
          )
    ]

starts_with_self : (xs : List ℕ) → starts_with xs xs ≡ true
unfolding starts_with
starts_with_self [] = refl
starts_with_self (x ∷ xs) =
    let same : (x == x) ≡ true = ground arith in rw same (starts_with_self xs)

-- A prefix of both is within the shared part.
length-starts_with :
    (xs ys p : List ℕ) → starts_with xs p ≡ true → starts_with ys p ≡ true → length p ≤ shared xs ys
unfolding starts_with
length-starts_with xs ys [] h k = omega arith
length-starts_with [] ys (q ∷ p) h k = cc h
length-starts_with (x ∷ xs) [] (q ∷ p) h k = cc k
length-starts_with (x ∷ xs) (y ∷ ys) (q ∷ p) h k = elim (Bool-cases (x == q)) [
  | inr other ↦ cc (rw other at h)
  | inl same ↦ elim (Bool-cases (y == q)) [
    | inr other' ↦ cc (rw other' at k)
    | inl same' ↦
        let equal : (x == y) ≡ true = ground arith in
        rw equal (omega (arith, length-starts_with xs ys p (rw same at h) (rw same' at k)))
  ]
]

starts_with_front :
    (n : ℕ) (xs p : List ℕ)
    → starts_with xs p ≡ true
    → length p ≤ n
    → starts_with (take n xs) p ≡ true
unfolding starts_with
starts_with_front n xs [] h le = refl
starts_with_front zero xs (q ∷ p) h le = absurd (omega arith)
starts_with_front (suc n) [] (q ∷ p) h le = h
starts_with_front (suc n) (x ∷ xs) (q ∷ p) h le = elim (Bool-cases (x == q)) [
  | inl same ↦ rw same (starts_with_front n xs p (rw same at h) (omega arith))
  | inr other ↦ cc (rw other at h)
]

longest :
    (first p : List ℕ) (n : ℕ) (keys : List (List ℕ))
    → starts_with first p ≡ true
    → length p ≤ n
    → All (λ k. starts_with k p ≡ true) keys
    → length p ≤ prefix_loop first n keys
unfolding prefix_loop
longest first p n [] h le v = le
longest first p n (key ∷ keys) h le (k, v) =
    let within : length p ≤ shared (take n first) key =
      length-starts_with (take n first) key p (starts_with_front n first p h le) k in
    elim (Bool-cases (shared (take n first) key == 0)) [
      | inl empty ↦
          let none_left : shared (take n first) key ≡ 0 = ==→eq _ 0 empty in
          rw (prefix_loop, empty) (omega arith)
      | inr more ↦
          rw (prefix_loop, more) (longest first p (shared (take n first) key) keys h within v)
    ]

pub length_of_prefix : (xs p : List ℕ) → starts_with xs p ≡ true → length p ≤ length xs
unfolding starts_with
length_of_prefix xs [] h = omega arith
length_of_prefix [] (q ∷ p) h = cc h
length_of_prefix (x ∷ xs) (q ∷ p) h = elim (Bool-cases (x == q)) [
  | inl same ↦ omega (arith, length_of_prefix xs p (rw same at h))
  | inr other ↦ cc (rw other at h)
]

-- All keys start with their common prefix, which is at least as long as any prefix `p` of all of
-- them.
pub starts_with-common_prefix :
    (first : List ℕ) (keys : List (List ℕ)) (p : List ℕ)
    → All (λ k. starts_with k p ≡ true) (first ∷ keys)
    → All (λ k. starts_with k (common_prefix (first ∷ keys)) ≡ true) (first ∷ keys)
      × (length p ≤ length (common_prefix (first ∷ keys)))
unfolding common_prefix
starts_with-common_prefix first keys p (h, v) =
    let n : ℕ = prefix_loop first (length first) keys in
    (
      (
        starts_with-take n first first (starts_with_self first),
        starts_with-prefix_loop first (length first) keys,
      ),
      rw (length-take n first (prefix_loop_le first (length first) keys))
          (longest first p (length first) keys h (length_of_prefix first p h) v),
    )
