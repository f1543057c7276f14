-- ===== src/Queue/Progress.antt =====
-- Who can move: the holder of the mutex always can, so a thread that waits for a condition that
-- holds is never left alone.
use cmake_sample.Common.{
  ℕ, ◌+◌, ◌<◌, ◌≡◌, ◌≢◌, ◌⊎◌, inl, inr, true, none, some, List, length, arith, le-tally, find_tally,
  Option-cases,
}
use cmake_sample.Queue.{Shared, Thread, pushing, popping, test, next}
use cmake_sample.Queue.System.{
  System, Condition, not_full, not_empty, Run, waiting, notifies, broadcasts, At,
}
use cmake_sample.Queue.Mutex.{holds, Inv}
use cmake_sample.Queue.Safety.{initial, reach-Inv}
use cmake_sample.Queue.Counts.{for_pop, for_push, for_close, count, Awake}
use cmake_sample.Queue.Wakeups.{lates, reach-Awake}

-- One number for each condition.
abbrev per : ℕ → ℕ → Condition → ℕ
per x y not_empty = x
per x y not_full = y

module _ {ℓ} {A : Type ℓ} where
  -- A thread that can take a step of its own, without a call, a time-out or a wake-up from outside.
  abbrev pub CanMove : Shared A → ℕ → Thread A → Type ℓ
  CanMove m i p =
      ((r : Shared A × Thread A) × (next i m p ≡ some r))
      ⊎ ((r : Condition × Thread A) × (notifies p ≡ some r))
      ⊎ ((r : Condition × Thread A) × (broadcasts p ≡ some r))

  -- What a waiter waits for, and more of it than so many wake-ups can take away. After `close`
  -- every wait is to end.
  abbrev pub IsReady : ℕ → Condition → Shared A → Type 0
  IsReady k not_empty m = (k < length m.items) ⊎ (m.closed ≡ true)
  IsReady k not_full m = (length m.items + k < m.capacity) ⊎ (m.closed ≡ true)

  pub holder-moves : (m : Shared A) (i : ℕ) (p : Thread A) → holds p ≡ true → next i m p ≢ none
  unfolding next
  holder-moves m i (pushing d x test) h e = ground arith
  holder-moves m i (popping d out test) h e = ground arith
  holder-moves m i p h e = ground arith

  pub holder-CanMove : (m : Shared A) (i : ℕ) (p : Thread A) → holds p ≡ true → CanMove m i p
  holder-CanMove m i p h = elim (Option-cases (next i m p)) [
    | inl stuck ↦ absurd (holder-moves m i p h stuck)
    | inr (r, e) ↦ inl (r, e)
  ]

  -- A thread that serves waiters.
  abbrev IsServer : Thread A → Type 0
  IsServer p =
      (0 < for_pop p) ⊎ (0 < for_push p) ⊎ (0 < for_close not_empty p) ⊎ (0 < for_close not_full p)

  server-moves :
      (m : Shared A) (i : ℕ) (p : Thread A)
      → IsServer p
      → m.owner ≡ none
      → next i m p ≡ none
      → notifies p ≡ none
      → broadcasts p ≢ none
  unfolding for_pop for_push for_close notifies broadcasts next
  server-moves m i (pushing d x test) h free e n b = ground arith
  server-moves m i (popping d out test) h free e n b = ground arith
  server-moves m i p h free e n b = ground arith

  -- A thread that moves once the mutex is free moves, or the mutex is taken and its holder moves.
  pub somebody-CanMove :
      (s : System A)
      → Inv s
      → (i : ℕ) (p : Thread A) → At s i p
      → (s.shared.owner ≡ none → next i s.shared p ≡ none → notifies p ≡ none → broadcasts p ≢ none)
      → (j : ℕ) × (q : Thread A) × At s j q × CanMove s.shared j q
  somebody-CanMove s inv i p here moves = elim (Option-cases s.shared.owner) [
    | inr (k, e) ↦
        let (q, there, held) = inv.backed k e in (k, q, there, holder-CanMove s.shared k q held)
    | inl free ↦ elim (Option-cases (next i s.shared p)) [
      | inr (r, e) ↦ (i, p, here, inl (r, e))
      | inl stuck ↦ elim (Option-cases (notifies p)) [
        | inr (r, e) ↦ (i, p, here, inr (inl (r, e)))
        | inl silent ↦ elim (Option-cases (broadcasts p)) [
          | inr (r, e) ↦ (i, p, here, inr (inr (r, e)))
          | inl mute ↦ absurd (moves free stuck silent mute)
        ]
      ]
    ]
  ]

  -- Somebody serves a ready condition for which a thread waits.
  serving :
      (x y : ℕ) (s : System A)
      → Awake x y s
      → (c : Condition) → 0 < count (waiting c) s
      → IsReady (per x y c) c s.shared
      → (0 < count for_pop s)
        ⊎ (0 < count for_push s)
        ⊎ (0 < count (for_close not_empty) s)
        ⊎ (0 < count (for_close not_full) s)
  serving x y s awake not_empty w (inl filled) = inl (ground (arith, awake.pops))
  serving x y s awake not_empty w (inr closed) =
      inr (inr (inl (ground (arith, awake.closes closed))))
  serving x y s awake not_full w (inl room) = elim awake.pushes [
    | inl closed ↦ inr (inr (inr (ground (arith, awake.closes closed))))
    | inr (inl none_waits) ↦ absurd (omega arith)
    | inr (inr served) ↦ inr (inl (omega arith))
  ]
  serving x y s awake not_full w (inr closed) =
      inr (inr (inr (ground (arith, awake.closes closed))))

  some_server :
      (s : System A)
      → (0 < count for_pop s)
        ⊎ (0 < count for_push s)
        ⊎ (0 < count (for_close not_empty) s)
        ⊎ (0 < count (for_close not_full) s)
      → (i : ℕ) × (p : Thread A) × At s i p × IsServer p
  some_server s (inl h) = let (i, p, e, w) = find_tally for_pop s.threads h in (i, p, e, inl w)
  some_server s (inr (inl h)) =
      let (i, p, e, w) = find_tally for_push s.threads h in (i, p, e, inr (inl w))
  some_server s (inr (inr (inl h))) =
      let (i, p, e, w) = find_tally (for_close not_empty) s.threads h in
      (i, p, e, inr (inr (inl w)))
  some_server s (inr (inr (inr h))) =
      let (i, p, e, w) = find_tally (for_close not_full) s.threads h in (i, p, e, inr (inr (inr w)))

  -- No wake-up is lost but by a time-out. Take any run of threads on a new queue, and a thread that waits
  -- after it: for an item while there are more items than deadlines of `pop_for` that passed after a wake-up,
  -- for a free place while there are more of them than such deadlines of `push_for`, or for either after
  -- `close`. Then some thread of the queue can take a step: the waiter is never left to itself.
  -- Where no such deadline passed, one item or one free place is enough.
  pub no_lost_wakeup :
      (capacity n : ℕ) {s : System A} {ins outs : List A} (r : Run (initial capacity n) ins outs s)
      → (c : Condition) (i : ℕ) (p : Thread A) → At s i p
      → waiting c p ≡ 1
      → IsReady (lates c r) c s.shared
      → (j : ℕ) × (q : Thread A) × At s j q × CanMove s.shared j q
  no_lost_wakeup capacity n {s} r c i p here w ready =
      let waits : 0 < count (waiting c) s =
        omega (arith, le-tally (waiting c) s.threads i p here) in
      let (j, q, there, serves) = some_server s (
        serving (lates not_empty r) (lates not_full r) s (reach-Awake capacity n r) c waits
          (counted c ready)) in
      somebody-CanMove s (reach-Inv capacity n r) j q there (server-moves s.shared j q serves)
    where
      counted :
          (c : Condition)
          → IsReady (lates c r) c s.shared
          → IsReady (per (lates not_empty r) (lates not_full r) c) c s.shared
      counted not_empty h = h
      counted not_full h = h
