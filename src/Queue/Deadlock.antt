-- ===== src/Queue/Deadlock.antt =====
-- When no thread can move: never but for a good reason.
use cmake_sample.Common.{
  ℕ, ◌+◌, ◌≤◌, ◌<◌, ◌≡◌, ◌≢◌, ◌⊎◌, inl, inr, true, false, none, List, length, arith, Bool-cases,
  Option-cases,
}
use native.Mathlib.Decide.{dec_lt}
use cmake_sample.Queue.{Shared, Thread, pushing, popping, test, next}
use cmake_sample.Queue.System.{
  System, Condition, not_full, not_empty, Run, start, At, waiting, notifies, broadcasts, is_free,
}
use cmake_sample.Queue.Mutex.{IsFresh, Inv}
use cmake_sample.Queue.Safety.{initial, reach-Inv}
use cmake_sample.Queue.Contract.{Run-IsFifo}
use cmake_sample.Queue.Wakeups.{lates}
use cmake_sample.Queue.Progress.{CanMove, IsReady, no_lost_wakeup, somebody-CanMove, holder-CanMove}

module _ {ℓ} {A : Type ℓ} where
  -- A thread in an operation that does not wait for a condition moves once the mutex is free.
  busy-moves :
      (m : Shared A) (i : ℕ) (p : Thread A)
      → is_free p ≡ false
      → IsFresh m p
      → waiting not_full p ≡ 0
      → waiting not_empty p ≡ 0
      → m.owner ≡ none
      → next i m p ≡ none
      → notifies p ≡ none
      → broadcasts p ≢ none
  unfolding is_free waiting next notifies broadcasts
  busy-moves m i (pushing d x test) b f w w' free e n c = ground arith
  busy-moves m i (popping d out test) b f w w' free e n c = ground arith
  busy-moves m i p b f w w' free e n c = ground arith

  pub waiting-cases : (c : Condition) (p : Thread A) → (waiting c p ≡ 1) ⊎ (waiting c p ≡ 0)
  unfolding waiting
  waiting-cases not_full p = ground arith
  waiting-cases not_empty p = ground arith

  -- A thread in an operation, whose condition holds if it waits for one, is not left alone.
  pub busy-CanMove :
      (capacity n : ℕ) {s : System A} {ins outs : List A}
      → (r : Run (initial capacity n) ins outs s) → (i : ℕ) (p : Thread A) → At s i p
      → is_free p ≡ false
      → ((c : Condition) → waiting c p ≡ 1 → IsReady (lates c r) c s.shared)
      → (j : ℕ) × (q : Thread A) × At s j q × CanMove s.shared j q
  busy-CanMove capacity n {s} r i p here busy ready = elim (waiting-cases not_full p) [
    | inl w ↦ no_lost_wakeup capacity n r not_full i p here w (ready not_full w)
    | inr w ↦ elim (waiting-cases not_empty p) [
      | inl w' ↦ no_lost_wakeup capacity n r not_empty i p here w' (ready not_empty w')
      | inr w' ↦
          let inv = reach-Inv capacity n r in
          somebody-CanMove s inv i p here (busy-moves s.shared i p busy (inv.fresh i p here) w w')
    ]
  ]

  -- What a waiter waits for is not so, or there is not more of it than so many: the queue is open,
  -- and has at most so many items, or so many free places.
  abbrev pub IsUnready : ℕ → Condition → Shared A → Type 0
  IsUnready k not_empty m = (length m.items ≤ k) × (m.closed ≡ false)
  IsUnready k not_full m = (m.capacity ≤ length m.items + k) × (m.closed ≡ false)

  pub closed-IsReady : (k : ℕ) (c : Condition) (m : Shared A) → m.closed ≡ true → IsReady k c m
  closed-IsReady k not_empty m h = inr h
  closed-IsReady k not_full m h = inr h

  IsReady-or : (k : ℕ) (c : Condition) (m : Shared A) → IsReady k c m ⊎ IsUnready k c m
  IsReady-or k not_empty m = elim (dec_lt k (length m.items)) [
    | yes some_left ↦ inl (inl some_left)
    | no few ↦ ground (arith, Bool-cases m.closed)
  ]
  IsReady-or k not_full m = elim (dec_lt (length m.items + k) m.capacity) [
    | yes room ↦ inl (inl room)
    | no full ↦ ground (arith, Bool-cases m.closed)
  ]

  -- No deadlock but by a time-out. Take a run of threads on a new queue after which none of them can
  -- move by itself. Then the mutex is free, and each thread is outside of the queue, or waits in a `pop` on an
  -- open queue with at most as many items as there were deadlines of `pop_for` that passed after a wake-up, or
  -- waits in a `push` on an open queue with at most as many free places as there were such deadlines of `push_for`.
  -- The last two do not occur together where there were fewer of these deadlines than the capacity.
  -- Where there were none, the queue of the one is empty, and that of the other full.
  pub stuck_for_a_reason :
      (capacity n : ℕ) {s : System A} {ins outs : List A} (r : Run (initial capacity n) ins outs s)
      → ((j : ℕ) (q : Thread A) → At s j q → ¬ CanMove s.shared j q)
      → (s.shared.owner ≡ none)
        × ((i : ℕ) (p : Thread A)
            → At s i p
            → (is_free p ≡ true)
              ⊎ ((waiting not_empty p ≡ 1) × IsUnready (lates not_empty r) not_empty s.shared)
              ⊎ ((waiting not_full p ≡ 1) × IsUnready (lates not_full r) not_full s.shared))
        × (lates not_empty r + lates not_full r < capacity
            → ¬ (
                IsUnready (lates not_empty r) not_empty s.shared
                × IsUnready (lates not_full r) not_full s.shared))
  unfolding initial
  stuck_for_a_reason capacity n {s} r stuck = (
    free_mutex,
    reason,
    λ positive both. absurd (omega (arith, same_capacity, both.0.0, both.1.0)),
  )
    where
      inv : Inv s
      inv = reach-Inv capacity n r

      same_capacity : s.shared.capacity ≡ capacity
      same_capacity = (Run-IsFifo (reach-Inv capacity n start) r).1

      free_mutex : s.shared.owner ≡ none
      free_mutex = elim (Option-cases s.shared.owner) [
        | inl free ↦ free
        | inr (k, e) ↦
            let (q, there, held) = inv.backed k e in
            absurd (stuck k q there (holder-CanMove s.shared k q held))
      ]

      no_mover : ¬ ((j : ℕ) × (q : Thread A) × At s j q × CanMove s.shared j q)
      no_mover (j, q, there, moves) = stuck j q there moves

      reason :
          (i : ℕ) (p : Thread A)
          → At s i p
          → (is_free p ≡ true)
            ⊎ ((waiting not_empty p ≡ 1) × IsUnready (lates not_empty r) not_empty s.shared)
            ⊎ ((waiting not_full p ≡ 1) × IsUnready (lates not_full r) not_full s.shared)
      reason i p here = elim (Bool-cases (is_free p)) [
        | inl free ↦ inl free
        | inr busy ↦ elim (waiting-cases not_empty p) [
          | inl w ↦ elim (IsReady-or (lates not_empty r) not_empty s.shared) [
            | inl ready ↦ absurd (no_mover (no_lost_wakeup capacity n r not_empty i p here w ready))
            | inr unready ↦ inr (inl (w, unready))
          ]
          | inr v ↦ elim (waiting-cases not_full p) [
            | inl w ↦ elim (IsReady-or (lates not_full r) not_full s.shared) [
              | inl ready ↦
                  absurd (no_mover (no_lost_wakeup capacity n r not_full i p here w ready))
              | inr unready ↦ inr (inr (w, unready))
            ]
            | inr w ↦ absurd (
                no_mover (
                  somebody-CanMove s inv i p here
                    (busy-moves s.shared i p busy (inv.fresh i p here) w v)))
          ]
        ]
      ]
