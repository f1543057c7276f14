-- ===== src/Queue/Late.antt =====
-- A queue of capacity 1 on which `pop_for` is woken after its deadline.
use cmake_sample.Common.{ℕ, zero, suc, arith, refl, false, true, none, List, [], ◌∷◌, inl, ◌++◌}
use cmake_sample.Queue.{Thread, push, pop, pop_for, popping, finished, pushed, popped, wait, next}
use cmake_sample.Queue.System.{
  System, not_empty, Step, Run, start, later, calls, runs, times_out, notifies_one, waiting, woken,
  notifies, broadcasts, expired, put, taken, is_free, At,
}
use cmake_sample.Queue.Safety.{initial}
use cmake_sample.Queue.Progress.{CanMove, IsReady}

-- The first thread called `pop_for`, the second `pop`, and the third put 5 and told the first, whose
-- deadline had passed: `timed_wait` returned false, and `pop_for` did too.
abbrev told_too_late : System ℕ
told_too_late = record {
  shared = record { capacity = 1; items = 5 ∷ []; closed = false; owner = none };
  threads = finished (popped none) ∷ popping false none wait ∷ finished (pushed true) ∷ [];
}

infixl 5 ◌▸◌
◌▸◌ :
    {s t u : System ℕ} {ins outs i o : List ℕ}
    → Run s ins outs t
    → Step t i o u
    → Run s (ins ++ i) (outs ++ o) u
r ▸ st = later r st refl refl

told_too_late_reached : Run (initial 1 3) (5 ∷ []) [] told_too_late
unfolding initial is_free next put taken notifies woken waiting expired
told_too_late_reached =
    start
    ▸ calls 0 _ pop_for refl refl
    ▸ runs 0 _ _ _ refl refl
    ▸ runs 0 _ _ _ refl refl
    ▸ calls 1 _ pop refl refl
    ▸ runs 1 _ _ _ refl refl
    ▸ runs 1 _ _ _ refl refl
    ▸ calls 2 _ (push 5) refl refl
    ▸ runs 2 _ _ _ refl refl
    ▸ runs 2 _ _ _ refl refl
    ▸ runs 2 _ _ _ refl refl
    ▸ runs 2 _ _ _ refl refl
    ▸ notifies_one not_empty 2 0 _ _ _ refl refl refl refl
    ▸ times_out 0 _ _ refl refl
    ▸ runs 0 _ _ _ refl refl
    ▸ runs 0 _ _ _ refl refl

nobody_moves : (j : ℕ) (q : Thread ℕ) → At told_too_late j q → ¬ CanMove told_too_late.shared j q
unfolding next notifies broadcasts
nobody_moves zero q here moves = ground arith
nobody_moves (suc zero) q here moves = ground arith
nobody_moves (suc (suc zero)) q here moves = ground arith
nobody_moves (suc (suc (suc j))) q here moves = cc

-- The time-out took the wake-up with it: a thread waits for an item, there is one, and nobody moves.
wakeup_timed_out :
    (At told_too_late 1 (popping false none wait))
    × IsReady 0 not_empty told_too_late.shared
    × ((j : ℕ) (q : Thread ℕ) → At told_too_late j q → ¬ CanMove told_too_late.shared j q)
wakeup_timed_out = (refl, inl (omega arith), nobody_moves)
