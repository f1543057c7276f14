-- ===== src/Queue/Examples.antt =====
-- A run on a queue of capacity 1 with two threads: the first pushes, the second finds an item or
-- waits for one, and the theorems about the queue at its states.
use mathlib.Core.List.{Perm}
use cmake_sample.Common.{
  zero, suc, arith, ◌+◌, ◌*◌, ℕ, ◌≡◌, ◌≤◌, refl, Bool, true, false, Option, none, some, List, [],
  ◌∷◌, ◌++◌, length, inl, ◌⊎◌, ◌<◌,
}
use cmake_sample.Queue.{
  Thread, push, pop, close, pushing, popping, closing, idle, finished, popped, wait, wake, notify,
  notify_not_empty, notify_not_full, act, next, begin,
}
use cmake_sample.Queue.System.{
  System, not_empty, not_full, runs, calls, notifies_one, notifies_all, waiting, woken, notifies,
  broadcasts, put, taken, is_free, Run, start, later, At,
}
use cmake_sample.Queue.Alone.{alone, free_queue, pop_alone}
use cmake_sample.Queue.Safety.{initial}
use cmake_sample.Queue.Contract.{fifo, within_capacity}
use cmake_sample.Queue.Returns.{putting, taking, returns}
use cmake_sample.Queue.Answers.{hands, results_match_effects}
use cmake_sample.Queue.Hands.{items_of}
use cmake_sample.Queue.Moments.{History, outside, atomic}
use cmake_sample.Queue.Atomic.{outcomes, refines_atomic_queue}
use cmake_sample.Queue.Deadlock.{IsUnready, stuck_for_a_reason}
use cmake_sample.Queue.Closing.{Unasked, still, after, is_call, close_ends_all}
use cmake_sample.Queue.Wakeups.{late, lates}
use cmake_sample.Queue.Progress.{CanMove, no_lost_wakeup}

abbrev pub state : List ℕ → Bool → Option ℕ → List (Thread ℕ) → System ℕ
state items closed owner threads = record {
  shared = record { capacity = 1; items = items; closed = closed; owner = owner };
  threads = threads;
}

-- The second thread waits for an item, and the first is about to put 7 into the queue.
abbrev acting : System ℕ
acting = state [] false (some 0) (pushing false 7 act ∷ popping false none wait ∷ [])

unfoldable pub acting_reached : Run (initial 1 2) [] [] acting
unfolding initial is_free next put taken
acting_reached =
    later
      (later
        (later
          (later
            (later (later start (calls 1 _ pop refl refl) refl refl) (runs 1 _ _ _ refl refl) refl
              refl)
            (runs 1 _ _ _ refl refl) refl refl)
          (calls 0 _ (push 7) refl refl) refl refl)
        (runs 0 _ _ _ refl refl) refl refl)
      (runs 0 _ _ _ refl refl) refl refl

-- 7 is in the queue, the mutex is free, and nobody was notified yet.
abbrev filled : System ℕ
filled = state (7 ∷ []) false none (pushing false 7 notify ∷ popping false none wait ∷ [])

unfoldable pub filled_reached : Run (initial 1 2) (7 ∷ []) [] filled
unfolding next put taken
filled_reached =
    later (later acting_reached (runs 0 _ _ _ refl refl) refl refl) (runs 0 _ _ _ refl refl) refl
      refl

-- The second thread was woken, and the first has closed the queue, in which 7 still is.
abbrev pub shut : System ℕ
shut = state (7 ∷ []) true none (closing notify_not_empty ∷ popping false none wake ∷ [])

unfoldable pub shut_reached : Run (initial 1 2) (7 ∷ []) [] shut
unfolding is_free next put taken notifies waiting woken
shut_reached =
    later
      (later
        (later
          (later
            (later filled_reached (notifies_one not_empty 0 1 _ _ _ refl refl refl refl) refl refl)
            (calls 0 _ close refl refl) refl refl)
          (runs 0 _ _ _ refl refl) refl refl)
        (runs 0 _ _ _ refl refl) refl refl)
      (runs 0 _ _ _ refl refl) refl refl

fifo_example : 7 ∷ [] ≡ [] ++ filled.shared.items
fifo_example = fifo 1 2 filled_reached

within_capacity_example : length filled.shared.items ≤ 1
within_capacity_example = within_capacity 1 2 filled_reached

no_lost_wakeup_example : (j : ℕ) × (q : Thread ℕ) × At filled j q × CanMove filled.shared j q
unfolding waiting lates late acting_reached filled_reached
no_lost_wakeup_example =
    no_lost_wakeup 1 2 filled_reached not_empty 1 (popping false none wait) refl refl
      (inl (omega arith))

abbrev one : List ℕ
one = 7 ∷ []

pop_alone_example :
    let after = alone {A = ℕ} 5 0 (free_queue 1 (7 ∷ []) true) (begin pop) in
    ((x : ℕ) × (rest : List ℕ) × (one ≡ x ∷ rest)
      × (after ≡ (free_queue 1 rest true, popping false (some x) notify)))
    ⊎ ((one ≡ []) × (true ≡ true) × (after ≡ (free_queue 1 (7 ∷ []) true, finished (popped none))))
    ⊎ ((one ≡ [])
        × (true ≡ false)
        × (after ≡ (free_queue 1 (7 ∷ []) true, popping false none wait)))
pop_alone_example = pop_alone false 0 1 (7 ∷ []) true

results_match_effects_example :
    Perm (7 ∷ []) (items_of putting (returns filled_reached) ++ hands putting filled.threads)
    × Perm [] (items_of taking (returns filled_reached) ++ hands taking filled.threads)
results_match_effects_example = results_match_effects 1 2 filled_reached

refines_atomic_queue_example :
    History 1
      (record { queue = record { items = []; closed = false }; threads = outside ∷ outside ∷ [] })
      (7 ∷ [])
      []
      (outcomes (returns filled_reached))
      (atomic filled)
refines_atomic_queue_example = refines_atomic_queue 1 2 filled_reached

-- After the first of the two calls of `notify_all`.
abbrev told : System ℕ
told = state (7 ∷ []) true none (closing notify_not_full ∷ popping false none wake ∷ [])

told_after : Unasked shut 1 told
unfolding broadcasts woken is_call
told_after = after still (notifies_all not_empty 0 _ _ refl refl) refl

close_ends_all_example :
    (1 ≤ 6 * length shut.threads)
    × (told.shared.closed ≡ true)
    × (((i : ℕ) (p : Thread ℕ) → At told i p → is_free p ≡ true)
        ⊎ ((j : ℕ) × (q : Thread ℕ) × At told j q × CanMove told.shared j q))
close_ends_all_example = close_ends_all 1 2 shut_reached refl told_after

-- The second thread waits for an item, and the first does not use the queue.
abbrev asleep : System ℕ
asleep = state [] false none (idle ∷ popping false none wait ∷ [])

asleep_reached : Run (initial 1 2) [] [] asleep
unfolding initial is_free next put taken
asleep_reached =
    later
      (later (later start (calls 1 _ pop refl refl) refl refl) (runs 1 _ _ _ refl refl) refl refl)
      (runs 1 _ _ _ refl refl) refl refl

asleep_stuck : (j : ℕ) (q : Thread ℕ) → At asleep j q → ¬ CanMove asleep.shared j q
unfolding next notifies broadcasts
asleep_stuck zero q here moves = ground arith
asleep_stuck (suc zero) q here moves = ground arith
asleep_stuck (suc (suc j)) q here moves = cc

stuck_for_a_reason_example :
    (asleep.shared.owner ≡ none)
    × ((i : ℕ) (p : Thread ℕ)
        → At asleep i p
        → (is_free p ≡ true)
          ⊎ ((waiting not_empty p ≡ 1)
              × IsUnready (lates not_empty asleep_reached) not_empty asleep.shared)
          ⊎ ((waiting not_full p ≡ 1)
              × IsUnready (lates not_full asleep_reached) not_full asleep.shared))
    × (lates not_empty asleep_reached + lates not_full asleep_reached < 1
        → ¬ (
            IsUnready (lates not_empty asleep_reached) not_empty asleep.shared
            × IsUnready (lates not_full asleep_reached) not_full asleep.shared))
stuck_for_a_reason_example = stuck_for_a_reason 1 2 asleep_reached asleep_stuck
