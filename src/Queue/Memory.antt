-- ===== src/Queue/Memory.antt =====
-- A queue of capacity 1 whose first producer finds no memory after it was woken.
use cmake_sample.Common.{
  ℕ, zero, suc, arith, ◌≤◌, ◌≡◌, ◌↔◌, refl, true, false, none, some, List, [], ◌∷◌, ◌++◌, length,
  inl, tally,
}
use cmake_sample.Queue.{Thread, push, pop, pushing, idle, finished, popped, fault, wait, next}
use cmake_sample.Queue.System.{
  System, not_empty, not_full, Step, runs, calls, notifies_one, notifies_nobody, waiting, woken,
  notifies, broadcasts, put, taken, is_free, At,
}
use cmake_sample.Queue.Mutex.{holds}
use cmake_sample.Queue.Safety.{initial}
use cmake_sample.Queue.Progress.{CanMove, IsReady}
use cmake_sample.Queue.Throwing.{
  ThrowingRun, begin as nothing, then, goes, throws, exception_safety,
}

-- The third thread took the 1 that the first one had put, and told it; the second one waits.
abbrev out_of_memory : System ℕ
out_of_memory = record {
  shared = record { capacity = 1; items = []; closed = false; owner = none };
  threads = idle ∷ pushing false 3 wait ∷ finished (popped (some 1)) ∷ [];
}

infixl 5 ◌▸◌
◌▸◌ :
    {s t u : System ℕ} {ins outs i o : List ℕ}
    → ThrowingRun s ins outs t
    → Step t i o u
    → ThrowingRun s (ins ++ i) (outs ++ o) u
r ▸ st = then r (goes st)

out_of_memory_reached : ThrowingRun (initial 1 3) (1 ∷ []) (1 ∷ []) out_of_memory
unfolding initial is_free next put taken notifies woken waiting tally
out_of_memory_reached =
    then
      (nothing
        ▸ calls 0 _ (push 1) refl refl
        ▸ runs 0 _ _ _ refl refl
        ▸ runs 0 _ _ _ refl refl
        ▸ runs 0 _ _ _ refl refl
        ▸ runs 0 _ _ _ refl refl
        ▸ notifies_nobody not_empty 0 _ _ refl refl refl
        ▸ calls 0 _ (push 2) refl refl
        ▸ runs 0 _ _ _ refl refl
        ▸ runs 0 _ _ _ refl refl
        ▸ calls 1 _ (push 3) refl refl
        ▸ runs 1 _ _ _ refl refl
        ▸ runs 1 _ _ _ refl refl
        ▸ calls 2 _ pop refl refl
        ▸ runs 2 _ _ _ refl refl
        ▸ runs 2 _ _ _ refl refl
        ▸ runs 2 _ _ _ refl refl
        ▸ runs 2 _ _ _ refl refl
        ▸ notifies_one not_full 2 0 _ _ _ refl refl refl refl
        ▸ runs 0 _ _ _ refl refl
        ▸ runs 0 _ _ _ refl refl)
      (throws 0 false 2 refl)

nobody_moves : (j : ℕ) (q : Thread ℕ) → At out_of_memory j q → ¬ CanMove out_of_memory.shared j q
unfolding next notifies broadcasts
nobody_moves zero q here moves = ground arith
nobody_moves (suc zero) q here moves = ground arith
nobody_moves (suc (suc zero)) q here moves = ground arith
nobody_moves (suc (suc (suc j))) q here moves = cc

-- The exception took the wake-up with it: a thread waits for a place, there is one, and nobody moves.
wakeup_lost :
    (At out_of_memory 1 (pushing false 3 wait))
    × IsReady 0 not_full out_of_memory.shared
    × ((j : ℕ) (q : Thread ℕ) → At out_of_memory j q → ¬ CanMove out_of_memory.shared j q)
wakeup_lost = (refl, inl (omega arith), nobody_moves)

exception_safety_example :
    (◌≡◌ {A = List ℕ} (1 ∷ []) ((1 ∷ []) ++ out_of_memory.shared.items))
    × (length out_of_memory.shared.items ≤ 1)
    × ((i : ℕ)
        → (out_of_memory.shared.owner ≡ some i)
          ↔ ((p : Thread ℕ) × (At out_of_memory i p) × (holds p ≡ true)))
    × ((i : ℕ) → ¬ At out_of_memory i fault)
exception_safety_example = exception_safety 1 3 out_of_memory_reached
