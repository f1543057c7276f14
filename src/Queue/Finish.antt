-- ===== src/Queue/Finish.antt =====
-- The run of Examples up to its end, where both threads have returned.
use cmake_sample.Common.{
  arith, ℕ, ◌≡◌, refl, true, none, some, false, List, [], ◌∷◌, ◌++◌, ◌≤◌, tally,
}
use cmake_sample.Queue.{
  Thread, pop, pop_for, push, pushing, popping, enter, test, finished, closed_all, popped, next,
}
use cmake_sample.Queue.System.{
  System, not_empty, not_full, runs, calls, notifies_nobody, notifies_all, waiting, woken, notifies,
  broadcasts, put, taken, is_free, Run, start, later, At,
}
use cmake_sample.Queue.Safety.{initial}
use cmake_sample.Queue.Returns.{putting, taking, returns, returned, Step-returns}
use cmake_sample.Queue.Delivery.{all_delivered, refused_by, refused}
use cmake_sample.Queue.Hands.{hand, items_of, OnlyBy, StepBy, asks}
use cmake_sample.Queue.Order.{in_order}
use mathlib.Core.List.{Perm, Sublist}
use cmake_sample.Queue.Threads.{returns_of, in_order_for_each}
use cmake_sample.Queue.Nearer.{ends_itself}
use cmake_sample.Queue.Timed.{Returns, needs_nobody}
use cmake_sample.Queue.Examples.{state, acting_reached, filled_reached, shut_reached}

-- The second thread has got 7, and then gave up; the first has closed the queue.
abbrev delivered : System ℕ
delivered = state [] true none (finished closed_all ∷ finished (popped none) ∷ [])

delivered_reached : Run (initial 1 2) (7 ∷ []) (7 ∷ []) delivered
unfolding next put taken notifies waiting tally is_free broadcasts woken
delivered_reached =
    later
      (later
        (later
          (later
            (later
              (later
                (later
                  (later
                    (later
                      (later (later shut_reached (runs 1 _ _ _ refl refl) refl refl)
                        (runs 1 _ _ _ refl refl) refl refl)
                      (runs 1 _ _ _ refl refl) refl refl)
                    (runs 1 _ _ _ refl refl) refl refl)
                  (notifies_nobody not_full 1 _ _ refl refl refl) refl refl)
                (calls 1 _ pop refl refl) refl refl)
              (runs 1 _ _ _ refl refl) refl refl)
            (runs 1 _ _ _ refl refl) refl refl)
          (runs 1 _ _ _ refl refl) refl refl)
        (notifies_all not_empty 0 _ _ refl refl) refl refl)
      (notifies_all not_full 0 _ _ refl refl) refl refl

all_delivered_example :
    (◌≡◌ {A = List ℕ} (7 ∷ []) (7 ∷ []))
    × (((i : ℕ) (p : Thread ℕ) → At delivered i p → is_free p ≡ true)
        → Perm
            (items_of putting (returns delivered_reached))
            (items_of taking (returns delivered_reached)))
unfolding returns Step-returns returned refused_by tally delivered_reached shut_reached
    filled_reached acting_reached
all_delivered_example = all_delivered 1 2 delivered_reached (omega arith)

in_order_example :
    let sent = items_of putting (returns delivered_reached) in
    let received = items_of taking (returns delivered_reached) in
    (sent ++ hand putting 0 delivered ≡ (received ++ hand taking 1 delivered) ++ [])
    × (1 ≤ tally refused (returns delivered_reached)
        → ((i : ℕ) (p : Thread ℕ) → At delivered i p → is_free p ≡ true)
        → sent ≡ received)
unfolding OnlyBy StepBy asks delivered_reached shut_reached filled_reached acting_reached
in_order_example = in_order 1 2 0 1 delivered_reached (ground arith) (ground arith)

in_order_for_each_example :
    Sublist (items_of putting (returns_of 1 delivered_reached) ++ hand putting 1 delivered) (7 ∷ [])
    × Sublist (items_of taking (returns_of 1 delivered_reached) ++ hand taking 1 delivered) (7 ∷ [])
in_order_for_each_example = in_order_for_each 1 2 delivered_reached 1

-- The first thread has the mutex, and the second has just called `pop_for`.
abbrev crowded : System ℕ
crowded = state [] false (some 0) (pushing false 7 test ∷ popping true none enter ∷ [])

crowded_reached : Run (initial 1 2) [] [] crowded
unfolding initial is_free next put taken
crowded_reached =
    later
      (later (later start (calls 1 _ pop_for refl refl) refl refl) (calls 0 _ (push 7) refl refl)
        refl refl)
      (runs 0 _ _ _ refl refl) refl refl

needs_nobody_example : Returns 8 crowded 1
unfolding ends_itself
needs_nobody_example = needs_nobody 1 2 crowded_reached 1 (popping true none enter) refl refl
