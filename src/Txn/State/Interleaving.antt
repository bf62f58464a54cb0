-- ===== src/Txn/State/Interleaving.antt =====
-- Threads that begin and end transactions at once. The critical sections are serialised by the
-- mutex; between a thread's critical section and its advance of the horizon any others may run.
use rgraph.Prelude.{ℕ, ◌≤◌, ◌<◌, ◌-◌, ◌^◌, ◌≡◌, true, List, [], ◌∷◌, ◌++◌, All, elem, arith}
use rgraph.Txn.State.{GlobalTxState, new, begin_tx, advance_xmin, leave_active}
use rgraph.Txn.State.Ascending.{Ascending, insert-Ascending, remove-Ascending, elem_bounds}
use rgraph.Txn.State.Horizon.{
  IsValid, new-IsValid, begin_tx-eq_begun, begin_tx-IsValid, leave_active-IsValid,
  advance_xmin-IsValid, log_abort, log_abort-IsValid,
}

-- The shared state, and the candidates of the threads that have left their critical section.
pub record Machine : Type 0 where
  pub shared : GlobalTxState
  pub pending : List ℕ

pub data Step : Machine → Machine → Type 0 where
  begins :
      (m : Machine)
      → m.shared.allocator.counter < 2 ^ 64 - 1
      → Step m (record m { shared = (begin_tx m.shared).1 })
  logs : (m : Machine) (t : ℕ) → Step m (record m { shared = log_abort t m.shared })
  leaves :
      (m : Machine) (t : ℕ)
      → Step m (record {
        shared = (leave_active t m.shared).1;
        pending = (leave_active t m.shared).0 ∷ m.pending;
      })
  advances :
      (s : GlobalTxState) (front back : List ℕ) (c : ℕ)
      → Step
          (record { shared = s; pending = front ++ c ∷ back })
          (record { shared = advance_xmin c s; pending = front ++ back })

pub data Reach (a : Machine) : Machine → Type 0 where
  here : Reach a a
  next : {b c : Machine} → Reach a b → Step b c → Reach a c

-- A candidate is at most the next id, and at most every running id.
abbrev IsSound : GlobalTxState → ℕ → Type 0
IsSound s c = (c ≤ s.allocator.counter) × Ascending c s.allocator.counter s.active

pub record Inv (m : Machine) : Type 0 where
  pub valid : IsValid m.shared
  pub sound : All (IsSound m.shared) m.pending

All-map : (P Q : ℕ → Type 0) (xs : List ℕ) → ((c : ℕ) → P c → Q c) → All P xs → All Q xs
All-map P Q [] f h = tt
All-map P Q (x ∷ xs) f (p, h) = (f x p, All-map P Q xs f h)

All-split :
    (P : ℕ → Type 0) (front back : List ℕ) (c : ℕ)
    → All P (front ++ c ∷ back)
    → P c × All P (front ++ back)
All-split P [] back c (p, h) = (p, h)
All-split P (x ∷ front) back c (p, h) = let (q, rest) = All-split P front back c h in (q, (p, rest))

begins-IsSound :
    (s : GlobalTxState)
    → IsValid s
    → s.allocator.counter < 2 ^ 64 - 1
    → (c : ℕ) → IsSound s c
    → IsSound (begin_tx s).1 c
begins-IsSound s v room c (small, low) =
    rw ((begin_tx-eq_begun s v room).1)
      (omega arith, insert-Ascending c s.allocator.counter s.active small low)

leaves-IsSound : (s : GlobalTxState) (t c : ℕ) → IsSound s c → IsSound (leave_active t s).1 c
unfolding leave_active
leaves-IsSound s t c (small, low) = (small, remove-Ascending c s.allocator.counter t s.active low)

advances-IsSound : (s : GlobalTxState) (d c : ℕ) → IsSound s c → IsSound (advance_xmin d s) c
unfolding advance_xmin
advances-IsSound s d c (small, low) = ground arith

leaves_candidate :
    (s : GlobalTxState) (t : ℕ) → IsValid s → IsSound (leave_active t s).1 (leave_active t s).0
leaves_candidate s t v =
    let (_, small, low) = leave_active-IsValid s v t in unfold leave_active in (small, low)

Step-Inv :
    {a b : Machine} → Step a b → Inv a → Inv b × (a.shared.global_xmin ≤ b.shared.global_xmin)
Step-Inv (begins m room) i =
    let (v, up) = begin_tx-IsValid m.shared i.valid room in
    (
      record {
        valid = v;
        sound = All-map _ _ m.pending (begins-IsSound m.shared i.valid room) i.sound;
      },
      up,
    )
Step-Inv (logs m t) i =
    unfold log_abort in
    (record { valid = log_abort-IsValid m.shared t i.valid; sound = i.sound }, omega arith)
Step-Inv (leaves m t) i =
    let (v, _, _) = leave_active-IsValid m.shared i.valid t in
    (
      record {
        valid = v;
        sound = (
          leaves_candidate m.shared t i.valid,
          All-map _ _ m.pending (leaves-IsSound m.shared t) i.sound,
        );
      },
      unfold leave_active in omega arith,
    )
Step-Inv (advances s front back c) i =
    let (candidate, rest) = All-split (IsSound s) front back c i.sound in
    let (v, up) = advance_xmin-IsValid s i.valid c candidate.0 candidate.1 in
    (record { valid = v; sound = All-map _ _ (front ++ back) (advances-IsSound s c) rest }, up)

Reach-Inv :
    {a b : Machine} → Inv a → Reach a b → Inv b × (a.shared.global_xmin ≤ b.shared.global_xmin)
Reach-Inv i here = (i, omega arith)
Reach-Inv i (next r st) =
    let (j, up) = Reach-Inv i r in let (k, up') = Step-Inv st j in (k, omega (arith, up, up'))

-- However the threads interleave, from a machine whose state is valid and whose candidates are
-- sound: the horizon never falls, and it is at most the id of every running transaction.
pub Reach-horizon :
    (a b : Machine) (t : ℕ)
    → Inv a
    → Reach a b
    → elem t b.shared.active ≡ true
    → (a.shared.global_xmin ≤ b.shared.global_xmin) × (b.shared.global_xmin ≤ t)
Reach-horizon a b t i r running =
    let (j, up) = Reach-Inv i r in
    (
      up,
      omega (
        arith,
        elem_bounds b.shared.global_xmin b.shared.allocator.counter t b.shared.active
            j.valid.running running,
      ),
    )

abbrev pub start : Machine
start = record { shared = new; pending = [] }

pub start-Inv : Inv start
start-Inv = record { valid = new-IsValid; sound = tt }
