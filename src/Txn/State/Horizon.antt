-- ===== src/Txn/State/Horizon.antt =====
-- The invariant of the global state, and the horizon `global_xmin`.
use rgraph.Prelude.{
  length-append, true, elem, insert_set, ◌++◌, ℕ, suc, ◌+◌, ◌-◌, ◌≤◌, ◌<◌, ◌^◌, ◌≡◌, refl, List, [],
  ◌∷◌, length, head_or, arith,
}
use rgraph.Txn.State.{
  GlobalTxState, new, begin_tx, advance_xmin, leave_active, remove_active, commit_tx, abort_tx,
  insert, remove,
}
use rgraph.Txn.State.Ascending.{
  elem_bounds, Ascending, Ascending-head_or, head_or_bounds, insert-Ascending, remove-Ascending,
}

-- The counter has not wrapped, `global_xmax` is the next id, and the running ids rise strictly
-- from `global_xmin` on and stay below the next id.
pub record IsValid (s : GlobalTxState) : Type 0 where
  pub started : 1 ≤ s.allocator.counter
  pub in_range : s.allocator.counter < 2 ^ 64
  pub next : s.global_xmax ≡ s.allocator.counter
  pub horizon : s.global_xmin ≤ s.allocator.counter
  pub running : Ascending s.global_xmin s.allocator.counter s.active

pub new-IsValid : IsValid new
unfolding new
new-IsValid = omega arith

-- What `begin_tx` does while the counter has room: the id is the counter, and the new id joins the
-- running ones.
abbrev pub begun : GlobalTxState → GlobalTxState
begun s = record {
  global_xmin = head_or s.active s.allocator.counter;
  global_xmax = suc s.allocator.counter;
  active = insert s.allocator.counter s.active;
  allocator = record { counter = suc s.allocator.counter };
  aborted = s.aborted;
}

module _ (s : GlobalTxState) (v : IsValid s) where
  lo_hi :
      (s.global_xmin ≤ head_or s.active s.allocator.counter)
      × (head_or s.active s.allocator.counter ≤ s.allocator.counter)
  lo_hi = head_or_bounds s.global_xmin s.allocator.counter s.active v.horizon v.running

  pub begin_tx-eq_begun :
      s.allocator.counter < 2 ^ 64 - 1
      → ((begin_tx s).0.0 ≡ s.allocator.counter) × ((begin_tx s).1 ≡ begun s)
  unfolding begin_tx
  begin_tx-eq_begun room = (ground (arith, v.started), ground (arith, v.started, lo_hi))

  begun-IsValid : s.allocator.counter < 2 ^ 64 - 1 → IsValid (begun s)
  begun-IsValid room = record {
    started = omega arith;
    in_range = omega arith;
    next = refl;
    horizon = omega (arith, lo_hi);
    running =
        insert-Ascending (head_or s.active s.allocator.counter) s.allocator.counter s.active lo_hi.1
          (Ascending-head_or s.global_xmin s.allocator.counter s.active v.running);
  }

  -- Starting a transaction keeps the invariant, and does not lower the horizon.
  pub begin_tx-IsValid :
      s.allocator.counter < 2 ^ 64 - 1
      → IsValid (begin_tx s).1 × (s.global_xmin ≤ (begin_tx s).1.global_xmin)
  begin_tx-IsValid room = rw ((begin_tx-eq_begun room).1) (begun-IsValid room, lo_hi.0)

  pub advance_xmin-IsValid :
      (c : ℕ)
      → c ≤ s.allocator.counter
      → Ascending c s.allocator.counter s.active
      → IsValid (advance_xmin c s) × (s.global_xmin ≤ (advance_xmin c s).global_xmin)
  unfolding advance_xmin
  advance_xmin-IsValid c h a = ground (arith, v)

  -- What leaves the critical section of `remove_active` is a valid state and a sound candidate.
  pub leave_active-IsValid :
      (t : ℕ)
      → IsValid (leave_active t s).1
        × ((leave_active t s).0 ≤ s.allocator.counter)
        × Ascending (leave_active t s).0 s.allocator.counter (leave_active t s).1.active
  unfolding leave_active
  leave_active-IsValid t = (
    record {
      started = v.started;
      in_range = v.in_range;
      next = v.next;
      horizon = v.horizon;
      running = left;
    },
    rw (v.next) ((head_or_bounds s.global_xmin s.allocator.counter _ v.horizon left).1),
    rw (v.next) (Ascending-head_or s.global_xmin s.allocator.counter _ left),
  )
    where
      left : Ascending s.global_xmin s.allocator.counter (remove t s.active)
      left = remove-Ascending s.global_xmin s.allocator.counter t s.active v.running

-- Ending a transaction, by commit or by abort, keeps the invariant and does not lower the horizon.
module _ (s : GlobalTxState) (v : IsValid s) (t : ℕ) where
  pub remove_active-IsValid :
      IsValid (remove_active t s) × (s.global_xmin ≤ (remove_active t s).global_xmin)
  unfolding remove_active
  remove_active-IsValid =
      let (left, bound, sound) = leave_active-IsValid s v t in
      advance_xmin-IsValid (leave_active t s).1 left (leave_active t s).0 bound sound

pub data Call : Type 0 where
  begins : Call
  commits aborts : ℕ → Call

unfoldable pub step : GlobalTxState → Call → GlobalTxState
step s begins = (begin_tx s).1
step s (commits t) = commit_tx t s
step s (aborts t) = abort_tx t s

unfoldable pub run : GlobalTxState → List Call → GlobalTxState
run s [] = s
run s (c ∷ cs) = run (step s c) cs

allocator-remove_active : (t : ℕ) (s : GlobalTxState) → (remove_active t s).allocator ≡ s.allocator
unfolding remove_active
allocator-remove_active t s = ground arith

remove_active_step :
    (s : GlobalTxState) (t : ℕ)
    → IsValid s
    → IsValid (remove_active t s)
      × (s.global_xmin ≤ (remove_active t s).global_xmin)
      × ((remove_active t s).allocator.counter ≤ suc s.allocator.counter)
remove_active_step s t v =
    let (valid, up) = remove_active-IsValid s v t in
    (valid, up, rw (allocator-remove_active t s) (omega arith))

unfoldable pub log_abort : ℕ → GlobalTxState → GlobalTxState
log_abort t s = record s { aborted = insert_set t s.aborted }

pub log_abort-IsValid : (s : GlobalTxState) (t : ℕ) → IsValid s → IsValid (log_abort t s)
unfolding log_abort
log_abort-IsValid s t v = record {
  started = v.started;
  in_range = v.in_range;
  next = v.next;
  horizon = v.horizon;
  running = v.running;
}

step-IsValid :
    (s : GlobalTxState) (c : Call)
    → IsValid s
    → s.allocator.counter < 2 ^ 64 - 1
    → IsValid (step s c)
      × (s.global_xmin ≤ (step s c).global_xmin)
      × ((step s c).allocator.counter ≤ suc s.allocator.counter)
unfolding step
step-IsValid s begins v room =
    let (valid, up) = begin_tx-IsValid s v room in
    (valid, up, rw ((begin_tx-eq_begun s v room).1) (omega arith))
step-IsValid s (commits t) v room = unfold commit_tx in remove_active_step s t v
step-IsValid s (aborts t) v room =
    unfold abort_tx log_abort in remove_active_step (log_abort t s) t (log_abort-IsValid s t v)

run-IsValid :
    (s : GlobalTxState) (cs : List Call)
    → IsValid s
    → s.allocator.counter + length cs < 2 ^ 64
    → IsValid (run s cs)
      × (s.global_xmin ≤ (run s cs).global_xmin)
      × ((run s cs).allocator.counter ≤ s.allocator.counter + length cs)
unfolding run
run-IsValid s [] v room = (v, omega arith, omega arith)
run-IsValid s (c ∷ cs) v room =
    let (valid, up, small) = step-IsValid s c v (omega arith) in
    let (valid', up', small') = run-IsValid (step s c) cs valid (omega (arith, small)) in
    (valid', omega (arith, up, up'), omega (arith, small, small'))

run-append : (s : GlobalTxState) (cs ds : List Call) → run s (cs ++ ds) ≡ run (run s cs) ds
unfolding run
run-append s [] ds = refl
run-append s (c ∷ cs) ds = run-append (step s c) cs ds

-- From a valid state, and with room for the ids, any calls lead to a valid state; and the
-- horizon that is read after some of the calls is at most every id that runs then, or after any
-- further calls.
pub run_horizon :
    (s : GlobalTxState) (cs ds : List Call) (t : ℕ)
    → IsValid s
    → s.allocator.counter + length (cs ++ ds) < 2 ^ 64
    → elem t (run s (cs ++ ds)).active ≡ true
    → IsValid (run s (cs ++ ds)) × ((run s cs).global_xmin ≤ t)
run_horizon s cs ds t v room running =
    let (v1, up1, small) = run-IsValid s cs v (omega (arith, length-append cs ds)) in
    let (v2, up2, _) = run-IsValid (run s cs) ds v1 (omega (arith, small, length-append cs ds)) in
    (
      rw (run-append s cs ds) v2,
      omega (
        arith,
        up2,
        elem_bounds (run (run s cs) ds).global_xmin _ t _ v2.running
            (rw (run-append s cs ds) at running),
      ),
    )
