-- ===== src/Storage/Page/Insert/BestFit.antt =====
-- src/storage/page.rs: the deleted slot that `insert` chooses.
use rgraph.Prelude.{
  ℕ, zero, suc, ◌+◌, ◌≤◌, ◌<◌, ◌≡◌, refl, ap, sym, ◌∙◌, ◌⊎◌, inl, inr, Bool, true, false, ◌&&◌,
  none, some, List, arith, leb, ltb, Bool-cases, ltb→lt,
}
use rgraph.Storage.Page.{Slot, is_deleted, slot_count}
use rgraph.Storage.Page.Insert.{Best, best_fit, better, fits, shorter}
use rgraph.Storage.Page.Layout.{slot_of}
use rgraph.Storage.Page.Valid.{IsValid, slot-IsValid}

-- A deleted slot that was long enough for the record
unfoldable pub is_candidate : ℕ → Slot → Bool
is_candidate len s = is_deleted s && leb len s.length

-- The shortest of the candidates among the slots below `n`
unfoldable pub IsBest : List ℕ → ℕ → ℕ → Best → Type 0
IsBest buf len n none = (k : ℕ) → k < n → is_candidate len (slot_of k buf) ≡ false
IsBest buf len n (some (i, l)) =
    (i < n)
    × (is_candidate len (slot_of i buf) ≡ true)
    × ((slot_of i buf).length ≡ l)
    × ((k : ℕ) → k < n → is_candidate len (slot_of k buf) ≡ true → l ≤ (slot_of k buf).length)

below_next : (k n : ℕ) → k < n + 1 → (k < n) ⊎ (k ≡ n)
below_next k n h = elim (Bool-cases (ltb k n)) [
  | inl less ↦ inl (ground arith)
  | inr last ↦ inr (ground arith)
]

and_assoc : (a b c : Bool) → (a && (b && c)) ≡ ((a && b) && c)
and_assoc true b c = refl
and_assoc false b c = refl

fits_candidate :
    (len : ℕ) (s : Slot) (best : Best)
    → fits len s best ≡ (is_candidate len s && shorter s.length best)
unfolding is_candidate
fits_candidate len s best = and_assoc (is_deleted s) (leb len s.length) (shorter s.length best)

not_ltb : (a b : ℕ) → ltb a b ≡ false → b ≤ a
not_ltb a b h = ground arith

module _ (buf : List ℕ) (len n : ℕ) where
  none_more :
      IsBest buf len n none → is_candidate len (slot_of n buf) ≡ false → IsBest buf len (n + 1) none
  unfolding IsBest
  none_more best poor k h = elim (below_next k n h) [
    | inl less ↦ best k less
    | inr last ↦ rw last poor
  ]

  first_one :
      IsBest buf len n none
      → is_candidate len (slot_of n buf) ≡ true
      → IsBest buf len (n + 1) (some (n, (slot_of n buf).length))
  unfolding IsBest
  first_one best good = (
    omega arith,
    good,
    refl,
    λ k h c. elim (below_next k n h) [
      | inl less ↦ absurd (cc (best k less, c))
      | inr last ↦ rw last (omega arith)
    ],
  )

  module _ (i l : ℕ) (best : IsBest buf len n (some (i, l))) where
    stays :
        (is_candidate len (slot_of n buf) ≡ true → l ≤ (slot_of n buf).length)
        → IsBest buf len (n + 1) (some (i, l))
    unfolding IsBest
    stays poor = (
      let b = best.0 in omega arith,
      best.1,
      best.2,
      λ k h c. elim (below_next k n h) [
        | inl less ↦ best.3 k less c
        | inr last ↦
            let e = ap (λ j. (slot_of j buf).length) last in
            let f = poor (ap (λ j. is_candidate len (slot_of j buf)) (sym last) ∙ c) in omega arith
      ],
    )

    replaced :
        is_candidate len (slot_of n buf) ≡ true
        → (slot_of n buf).length < l
        → IsBest buf len (n + 1) (some (n, (slot_of n buf).length))
    unfolding IsBest
    replaced good less = (
      omega arith,
      good,
      refl,
      λ k h c. elim (below_next k n h) [
        | inl before ↦ let b = best.3 k before c in omega arith
        | inr last ↦ rw last (omega arith)
      ],
    )

  better-IsBest :
      (best : Best)
      → IsBest buf len n best
      → IsBest buf len (n + 1) (better len n (some (slot_of n buf)) best)
  better-IsBest none b = elim (Bool-cases (is_candidate len (slot_of n buf))) [
    | inl good ↦ rw (fits_candidate len (slot_of n buf) none, good) (first_one b good)
    | inr poor ↦ rw (fits_candidate len (slot_of n buf) none, poor) (none_more b poor)
  ]
  better-IsBest (some (i, l)) b = elim (Bool-cases (is_candidate len (slot_of n buf))) [
    | inr poor ↦
        rw (fits_candidate len (slot_of n buf) (some (i, l)), poor)
          (stays i l b (λ good. absurd (cc (good, poor))))
    | inl good ↦ elim (Bool-cases (ltb (slot_of n buf).length l)) [
      | inl less ↦
          rw (fits_candidate len (slot_of n buf) (some (i, l)), good, less)
            (replaced i l b good (ltb→lt (slot_of n buf).length l less))
      | inr more ↦
          rw (fits_candidate len (slot_of n buf) (some (i, l)), good, more)
            (stays i l b (λ same. not_ltb (slot_of n buf).length l more))
    ]
  ]

module _ (buf : List ℕ) (v : IsValid buf) (len : ℕ) where
  best_fit_from :
      (rounds n : ℕ) (best : Best)
      → n + rounds ≡ slot_count buf
      → IsBest buf len n best
      → (found : Best) × (best_fit buf len n rounds best ≡ some found)
        × IsBest buf len (slot_count buf) found
  unfolding best_fit
  best_fit_from zero n best all b =
      let e : n ≡ slot_count buf = omega arith in (best, refl, rw (← e) b)
  best_fit_from (suc rounds) n best all b =
      let (found, run, good) =
        best_fit_from rounds (n + 1) (better len n (some (slot_of n buf)) best) (omega arith)
          (better-IsBest buf len n best b) in
      (found, rw (slot-IsValid buf v n (omega arith)) run, good)

  nothing_seen : IsBest buf len 0 none
  unfolding IsBest
  nothing_seen k h = absurd (omega arith)

  -- On a valid page the loop over the slots does not panic. It finds the shortest of the deleted
  -- slots that were at least as long as the record, and none only if there is none.
  pub best_fit-IsBest :
      (found : Best) × (best_fit buf len 0 (slot_count buf) none ≡ some found)
      × IsBest buf len (slot_count buf) found
  best_fit-IsBest = best_fit_from (slot_count buf) 0 none (omega arith) nothing_seen
