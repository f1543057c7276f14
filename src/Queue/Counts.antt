-- ===== src/Queue/Counts.antt =====
-- How many threads wait for a condition, and how many others serve it: what each step does to the
-- counts of the thread that makes it.
use cmake_sample.Common.{
  ℕ, ◌+◌, ◌≤◌, ◌<◌, ◌≡◌, ◌⊎◌, true, some, [], ◌∷◌, length, length-append, arith, tally,
}
use cmake_sample.Queue.{
  Shared, Thread, Operation, pushing, popping, closing, test, wake, act, unlock, notify, close_set,
  close_unlock, notify_not_empty, notify_not_full, next, begin,
}
use cmake_sample.Queue.Mutex.{IsFresh}
use cmake_sample.Queue.System.{
  System, Condition, not_full, not_empty, woken, waiting, expired, notifies, broadcasts, is_free,
}

module _ {ℓ} {A : Type ℓ} where
  -- 1 for a thread that will use an item, or make sure that a waiter for one is told: it is about
  -- to test for an item or to take one, or it has stored one and not yet notified.
  unfoldable pub for_pop : Thread A → ℕ
  for_pop (popping d out test) = 1
  for_pop (popping d out wake) = 1
  for_pop (popping d out act) = 1
  for_pop (pushing d x unlock) = 1
  for_pop (pushing d x notify) = 1
  for_pop p = 0

  -- The same for a free place.
  unfoldable pub for_push : Thread A → ℕ
  for_push (pushing d x test) = 1
  for_push (pushing d x wake) = 1
  for_push (pushing d x act) = 1
  for_push (popping d out unlock) = 1
  for_push (popping d out notify) = 1
  for_push p = 0

  -- 1 for a thread inside `close` that has yet to wake the waiters of a condition.
  unfoldable pub for_close : Condition → Thread A → ℕ
  for_close c (closing close_unlock) = 1
  for_close c (closing notify_not_empty) = 1
  for_close not_full (closing notify_not_full) = 1
  for_close c p = 0

  abbrev pub count : (Thread A → ℕ) → System A → ℕ
  count w s = tally w s.threads

  -- 1 for a thread that was woken and has yet to take the lock again.
  unfoldable pub overdue : Condition → Thread A → ℕ
  overdue not_full (pushing d x wake) = 1
  overdue not_empty (popping d out wake) = 1
  overdue c p = 0

  -- Who is served, when so many wake-ups for an item and for a place went to threads whose deadline
  -- had passed.
  pub record Awake (for_items for_places : ℕ) (s : System A) : Type 0 where
    pub pops :
        (count (waiting not_empty) s ≡ 0) ⊎ (length s.shared.items ≤ count for_pop s + for_items)
    pub pushes :
        (s.shared.closed ≡ true)
        ⊎ (count (waiting not_full) s ≡ 0)
        ⊎ (s.shared.capacity ≤ length s.shared.items + count for_push s + for_places)
    pub closes :
        s.shared.closed ≡ true
        → ((count (waiting not_empty) s ≡ 0) ⊎ (0 < count (for_close not_empty) s))
          × ((count (waiting not_full) s ≡ 0) ⊎ (0 < count (for_close not_full) s))

  -- What a step of one thread may do to the counts, for the invariant to survive it, where it loses
  -- so many wake-ups.
  pub record Delta (for_items for_places : ℕ) (m m' : Shared A) (p p' : Thread A) : Type 0 where
    pub same : m'.capacity ≡ m.capacity
    pub pop :
        (length m'.items ≡ 0)
        ⊎ ((waiting not_empty p' ≤ waiting not_empty p)
            × (length m'.items + for_pop p ≤ length m.items + for_pop p' + for_items))
    pub push :
        (m'.closed ≡ true)
        ⊎ (m'.capacity ≤ length m'.items)
        ⊎ ((waiting not_full p' ≤ waiting not_full p)
            × (length m.items + for_push p ≤ length m'.items + for_push p' + for_places)
            × (m'.closed ≡ m.closed))
    pub close :
        m'.closed ≡ true
        → ((m.closed ≡ true)
            × (waiting not_empty p' ≤ waiting not_empty p)
            × (waiting not_full p' ≤ waiting not_full p)
            × (for_close not_empty p ≤ for_close not_empty p')
            × (for_close not_full p ≤ for_close not_full p'))
          ⊎ ((for_close not_empty p' ≡ 1) × (for_close not_full p' ≡ 1))

  pub next-Delta :
      (i : ℕ) (m m' : Shared A) (p p' : Thread A)
      → next i m p ≡ some (m', p')
      → IsFresh m p
      → Delta 0 0 m m' p p'
  unfolding next for_pop for_push for_close waiting
  next-Delta i m m' (pushing true x test) p' e f = ground arith
  next-Delta i m m' (pushing d x act) p' e f = ground (arith, length-append m.items (x ∷ []))
  next-Delta i m m' (popping d out act) p' e f = ground arith
  next-Delta i m m' (closing close_set) p' e f = ground arith
  next-Delta i m m' p p' e f = ground arith

  -- The six counts of a thread.
  abbrev pub Weights : Thread A → ℕ → ℕ → ℕ → ℕ → ℕ → ℕ → Type 0
  Weights p we wf pop push ce cf =
      (waiting not_empty p ≡ we)
      × (waiting not_full p ≡ wf)
      × (for_pop p ≡ pop)
      × (for_push p ≡ push)
      × (for_close not_empty p ≡ ce)
      × (for_close not_full p ≡ cf)

  abbrev pub NotifyWeights : Condition → Thread A → Thread A → Type 0
  NotifyWeights not_empty p p' = Weights p 0 0 1 0 0 0 × Weights p' 0 0 0 0 0 0
  NotifyWeights not_full p p' = Weights p 0 0 0 1 0 0 × Weights p' 0 0 0 0 0 0

  pub notifies-Weights :
      (c : Condition) (p p' : Thread A) → notifies p ≡ some (c, p') → NotifyWeights c p p'
  unfolding notifies for_pop for_push for_close waiting
  notifies-Weights not_empty p p' e = ground arith
  notifies-Weights not_full p p' e = ground arith

  abbrev pub WakeWeights : Condition → Thread A → Thread A → Type 0
  WakeWeights not_empty q q' = Weights q 1 0 0 0 0 0 × Weights q' 0 0 1 0 0 0
  WakeWeights not_full q q' = Weights q 0 1 0 0 0 0 × Weights q' 0 0 0 1 0 0

  pub waiting-Weights :
      (c : Condition) (q : Thread A) → waiting c q ≡ 1 → WakeWeights c q (woken c q)
  unfolding woken for_pop for_push for_close waiting
  waiting-Weights not_empty q e = ground arith
  waiting-Weights not_full q e = ground arith

  abbrev pub BroadcastWeights : Condition → Thread A → Thread A → Type 0
  BroadcastWeights not_empty p p' = Weights p 0 0 0 0 1 1 × Weights p' 0 0 0 0 0 1
  BroadcastWeights not_full p p' = Weights p 0 0 0 0 0 1 × Weights p' 0 0 0 0 0 0

  pub broadcasts-Weights :
      (c : Condition) (p p' : Thread A) → broadcasts p ≡ some (c, p') → BroadcastWeights c p p'
  unfolding broadcasts for_pop for_push for_close waiting
  broadcasts-Weights not_empty p p' e = ground arith
  broadcasts-Weights not_full p p' e = ground arith

  pub calls-Delta :
      (m : Shared A) (p : Thread A) (o : Operation A) → is_free p ≡ true → Delta 0 0 m m p (begin o)
  unfolding is_free for_pop for_push for_close waiting
  calls-Delta m p o h = ground arith

  pub expired-Delta :
      (m : Shared A) (p p' : Thread A)
      → expired p ≡ some p'
      → Delta (overdue not_empty p) (overdue not_full p) m m p p'
  unfolding expired overdue for_pop for_push for_close waiting
  expired-Delta m p p' h = ground arith

  pub wakes-Delta :
      (m : Shared A) (c : Condition) (p : Thread A) → waiting c p ≡ 1 → Delta 0 0 m m p (woken c p)
  unfolding woken for_pop for_push for_close waiting
  wakes-Delta m c p h = ground arith

  abbrev pub Untouched : Condition → (Thread A → ℕ) → Type ℓ
  Untouched c v = (q : Thread A) → v (woken c q) ≡ v q

  pub woken_waits_not : (c : Condition) (q : Thread A) → waiting c (woken c q) ≡ 0
  unfolding waiting woken
  woken_waits_not not_empty q = ground arith
  woken_waits_not not_full q = ground arith

  pub not_empty-full : Untouched not_empty (waiting not_full)
  unfolding waiting woken
  not_empty-full q = ground arith

  pub not_empty-push : Untouched not_empty for_push
  unfolding for_push woken
  not_empty-push q = ground arith

  pub not_empty-close : Untouched not_empty (for_close not_full)
  unfolding for_close woken
  not_empty-close q = ground arith

  pub not_full-empty : Untouched not_full (waiting not_empty)
  unfolding waiting woken
  not_full-empty q = ground arith

  pub not_full-pop : Untouched not_full for_pop
  unfolding for_pop woken
  not_full-pop q = ground arith

  pub not_full-close : Untouched not_full (for_close not_empty)
  unfolding for_close woken
  not_full-close q = ground arith
