-- ===== src/Wal/Aries/Undo/Performed.antt =====
-- Effects one behind the other, and the answer made of their counts.
use rgraph.Prelude.{◌++◌, ◌∙◌, sym, ℕ, ◌+◌, ◌≡◌, refl, ap, Option, some, List, [], ◌∷◌, arith}
use rgraph.Wal.Record.{Checksums}
use rgraph.Wal.Writer.{IoResult, ok, err}
use rgraph.Wal.Aries.Redo.{Io, DataFile, pure, and_then}
use rgraph.Wal.Aries.Undo.{Log, flush_then, add_count}
use rgraph.Wal.Aries.Undo.Effect.{
  log_clr, write_page, Effect, flush_log, clr_count, perform, perform_all, counted,
}

module _ {D E : Type 0} where
  and_then-ext :
      {A B : Type 0} (p : IoResult E A × D) (f g : A → Io D E B)
      → ((a : A) (d : D) → f a d ≡ g a d)
      → and_then p f ≡ and_then p g
  and_then-ext (ok a, d) f g h = h a d
  and_then-ext (err e, d) f g h = refl

  and_then_assoc :
      {A B C : Type 0} (p : IoResult E A × D) (f : A → Io D E B) (g : B → Io D E C)
      → and_then (and_then p f) g ≡ and_then p (λ a d. and_then (f a d) g)
  and_then_assoc (ok a, d) f g = refl
  and_then_assoc (err e, d) f g = refl

clr_count-append : (xs ys : List Effect) → clr_count (xs ++ ys) ≡ clr_count xs + clr_count ys
unfolding clr_count
clr_count-append [] ys = omega arith
clr_count-append (write_page page_id buf ∷ xs) ys = clr_count-append xs ys
clr_count-append (log_clr r page_id image ∷ xs) ys = omega (arith, clr_count-append xs ys)
clr_count-append (flush_log ∷ xs) ys = clr_count-append xs ys

module _ {D E : Type 0} (io : DataFile D E) (wal : Log D E) (sums : Checksums) where
  perform_all-append :
      (xs ys : List Effect) (d : D)
      → perform_all io wal sums (xs ++ ys) d
        ≡ and_then (perform_all io wal sums xs d) (λ done. perform_all io wal sums ys)
  unfolding perform_all
  perform_all-append [] ys d = refl
  perform_all-append (x ∷ xs) ys d =
      and_then-ext (perform io wal sums x d) _ _ (λ done d'. perform_all-append xs ys d')
      ∙ sym (and_then_assoc (perform io wal sums x d) _ _)

  -- Two parts, the second of which goes on with the answer of the first
  pub join :
      {X : Type 0} (f : ℕ → X) (xs ys : List Effect) (p : Io D E X) (next : X → Io D E (Option ℕ))
      (d : D)
      → p d ≡ counted io wal sums f xs d
      → ((d' : D)
          → next (f (clr_count xs)) d' ≡ counted io wal sums (λ n. some (clr_count xs + n)) ys d')
      → and_then (p d) next ≡ counted io wal sums some (xs ++ ys) d
  join f xs ys p next d run then_ =
      rw (run, perform_all-append xs ys d, clr_count-append xs ys)
        (and_then_assoc (perform_all io wal sums xs d) _ next
          ∙ and_then-ext (perform_all io wal sums xs d) _ _ (λ done d'. then_ d')
          ∙ sym (and_then_assoc (perform_all io wal sums xs d) _ _))

  pub add_later :
      (count : ℕ) (ys : List Effect) (q : Io D E (Option ℕ)) (d : D)
      → q d ≡ counted io wal sums some ys d
      → and_then (q d) (λ rest. pure (add_count count rest))
        ≡ counted io wal sums (λ n. some (count + n)) ys d
  add_later count ys q d h = rw h (and_then_assoc (perform_all io wal sums ys d) _ _)

  pub flush_later :
      (count : ℕ) (ys : List Effect) (q : Io D E (Option ℕ)) (d : D)
      → ((d' : D) → q d' ≡ counted io wal sums some ys d')
      → flush_then io wal sums q (some count) d
        ≡ counted io wal sums (λ n. some (count + n)) (flush_log ∷ ys) d
  unfolding perform_all perform clr_count
  flush_later count ys q d h =
      and_then-ext (wal.flush d) _ _ (λ done d'. add_later count ys q d' (h d'))
      ∙ sym (and_then_assoc (wal.flush d) _ _)

  pub nothing_later :
      (count : ℕ) (d : D)
      → pure {D = D} {E = E} (some count) d ≡ counted io wal sums (λ n. some (count + n)) [] d
  unfolding perform_all clr_count
  nothing_later count d = ap (λ n. (ok (some n), d)) (omega arith)
