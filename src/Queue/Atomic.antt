-- ===== src/Queue/Atomic.antt =====
-- What the threads do statement by statement is a sequence of moments, at each of which one operation
-- takes effect at most.
use cmake_sample.Common.{
  ℕ, zero, suc, ◌≡◌, refl, ap, ◌∙◌, true, false, none, some, List, [], ◌∷◌, length, map, set,
  replicate, arith, map-get_elem?, map-set, set_same, map_unseen, map-append,
}
use cmake_sample.Queue.{
  Shared, Thread, Operation, Outcome, push, push_for, pop, pop_for, close, is_closed_now, size_now,
  idle, pushing, popping, closing, reading, finished, act, refuse, notify, close_set,
  notify_not_empty, notify_not_full, ask_closed, ask_size, pushed, popped, closed_all, is_closed,
  has_size, begin, next,
}
use cmake_sample.Queue.System.{
  System, Condition, Step, runs, calls, times_out, wakes, notifies_one, notifies_nobody,
  notifies_all, Run, start, later, put, taken, woken, expired, notifies, broadcasts, is_free, At,
  place,
}
use cmake_sample.Queue.Mutex.{IsFresh, Inv}
use cmake_sample.Queue.Safety.{
  initial, initial-Inv, Run-Inv, cons_of_filled, still_waits, notifies_quiet,
}
use cmake_sample.Queue.Contract.{Run-IsFifo}
use cmake_sample.Queue.Returns.{Return, returned, Step-returns, returns}
use cmake_sample.Queue.Moments.{
  View, outside, called, a_push, a_pop, puts, takes, closes, refuses_item, finds_none, tells_closed,
  tells_size, Change, takes_effect, takes_effect_and_returns, comes_back, begins_first, begins_next,
  stays, Moment, History, begins, goes_on, view, status, atomic,
}

module _ {ℓ} {A : Type ℓ} where
  abbrev pub outcomes : List (Return A) → List (Outcome A)
  outcomes rs = map (λ (r : Return A). r.outcome) rs

  next-Change :
      (i : ℕ) (m m' : Shared A) (p p' : Thread A)
      → next i m p ≡ some (m', p')
      → IsFresh m p
      → Change m.capacity
          (view m)
          (status p)
          (status p')
          (put p)
          (taken m p)
          (outcomes (returned p p'))
          (view m')
  unfolding next put taken returned status
  next-Change i m m' (pushing d x act) p' e f =
      takes_effect (a_push d x) (pushed true) refl (ground arith)
        (puts d x refl refl refl refl (ground arith) (ground arith) (ground arith)) (ground arith)
  next-Change i m m' (pushing d x refuse) p' e f =
      takes_effect_and_returns (a_push d x) (pushed false) refl (ground arith)
        (refuses_item d x refl refl (λ h. ground arith) refl refl (ground arith)) (ground arith)
  next-Change i m m' (popping d out act) p' e f =
      let (x, rest, eq) = cons_of_filled m.items f in
      takes_effect (a_pop d) (popped (some x)) refl (ground arith)
        (takes d x refl refl refl (ground arith) (ground arith) (ground arith)) (ground arith)
  next-Change i m m' (popping d out refuse) p' e f =
      takes_effect_and_returns (a_pop d) (popped none) refl (ground arith)
        (finds_none d refl refl (λ h. ground arith) refl refl (ground arith)) (ground arith)
  next-Change i m m' (closing close_set) p' e f =
      takes_effect close closed_all refl (ground arith) (closes refl refl refl refl (ground arith))
        (ground arith)
  next-Change i m m' (reading ask_closed) p' e f =
      takes_effect_and_returns is_closed_now (is_closed m.closed) refl (ground arith)
        (tells_closed refl refl refl refl (ground arith)) (ground arith)
  next-Change i m m' (reading ask_size) p' e f =
      takes_effect_and_returns size_now (has_size (length m.items)) refl (ground arith)
        (tells_size refl refl refl refl (ground arith)) (ground arith)
  next-Change i m m' p p' e f =
      stays (ground arith) (ground arith) (ground arith) (ground arith) (ground arith)

  begin-status : (o : Operation A) → status (begin o) ≡ called o
  unfolding status
  begin-status (push x) = refl
  begin-status (push_for x) = refl
  begin-status pop = refl
  begin-status pop_for = refl
  begin-status close = refl
  begin-status is_closed_now = refl
  begin-status size_now = refl

  map-replicate : (n : ℕ) → map (status {A = A}) (replicate n idle) ≡ replicate n outside
  unfolding status
  map-replicate zero = refl
  map-replicate (suc n) = ap (◌∷◌ outside) (map-replicate n)

  calls-Change :
      (k : ℕ) (v : View A) (p : Thread A) (o : Operation A)
      → is_free p ≡ true
      → Change k v (status p) (status (begin o)) [] [] [] v
  unfolding is_free status
  calls-Change k v idle o h = begins_first o refl (begin-status o) refl refl refl refl
  calls-Change k v (finished r) o h = begins_next r o refl (begin-status o) refl refl refl refl
  calls-Change k v p o h = absurd (ground arith)

  expired-status : (p p' : Thread A) → expired p ≡ some p' → status p' ≡ status p
  unfolding expired status
  expired-status p p' e = ground arith

  woken-status : (c : Condition) (p : Thread A) → status (woken c p) ≡ status p
  unfolding woken status
  woken-status c p = ground arith

  notifies-Change :
      (k : ℕ) (v : View A) (c : Condition) (p p' : Thread A)
      → notifies p ≡ some (c, p')
      → Change k v (status p) (status p') [] [] (outcomes (returned p p')) v
  unfolding notifies status returned
  notifies-Change k v c (pushing d x notify) p' e =
      comes_back (pushed true) refl (ground arith) refl refl (ground arith) refl
  notifies-Change k v c (popping d out notify) p' e =
      comes_back (popped out) refl (ground arith) refl refl (ground arith) refl
  notifies-Change k v c p p' e = absurd (ground arith)

  broadcasts-Change :
      (k : ℕ) (v : View A) (c : Condition) (p p' : Thread A)
      → broadcasts p ≡ some (c, p')
      → Change k v (status p) (status p') [] [] (outcomes (returned p p')) v
  unfolding broadcasts status returned
  broadcasts-Change k v c (closing notify_not_empty) p' e =
      stays (ground arith) refl refl (ground arith) refl
  broadcasts-Change k v c (closing notify_not_full) p' e =
      comes_back closed_all refl (ground arith) refl refl (ground arith) refl
  broadcasts-Change k v c p p' e = absurd (ground arith)

  -- The threads, once one of them has changed.
  changed :
      (s : System A) (i : ℕ) (p p' : Thread A) {k : ℕ} {ins outs : List A} {rs : List (Outcome A)}
      (t : System A)
      → At s i p
      → Change k (view s.shared) (status p) (status p') ins outs rs (view t.shared)
      → map status t.threads ≡ map status (set s.threads i p')
      → Moment k (atomic s) ins outs rs (atomic t)
  changed s i p p' t here c e = (
    i,
    status p,
    status p',
    map-get_elem? status s.threads i p here,
    c,
    e ∙ map-set status s.threads i p',
  )

  Step-Moment :
      {s t : System A} {ins outs : List A}
      → Inv s
      → (st : Step s ins outs t)
      → Moment s.shared.capacity (atomic s) ins outs (outcomes (Step-returns st)) (atomic t)
  unfolding Step-returns
  Step-Moment {s} {t} inv (runs i p p' m here e) =
      changed s i p p' t here (next-Change i s.shared m p p' e (inv.fresh i p here)) refl
  Step-Moment {s} {t} inv (calls i p o here free) =
      changed s i p (begin o) t here (calls-Change _ (view s.shared) p o free) refl
  Step-Moment {s} {t} inv (times_out i p p' here e) =
      changed s i p p' t here (stays (expired-status p p' e) refl refl refl refl) refl
  Step-Moment {s} {t} inv (wakes c i p here w) =
      changed s i p (woken c p) t here (stays (woken-status c p) refl refl refl refl) refl
  Step-Moment {s} {t} inv (notifies_one c i j p p' q here e there w) =
      let now : At (place s i p') j q =
        still_waits s c i j p p' q here (notifies_quiet c p p' e) there w in
      changed s i p p' t here (notifies-Change _ (view s.shared) c p p' e) (
        map-set status (set s.threads i p') j (woken c q)
        ∙ (ap (set (map status (set s.threads i p')) j) (woken-status c q)
            ∙ set_same _ j (status q) (map-get_elem? status (set s.threads i p') j q now)))
  Step-Moment {s} {t} inv (notifies_nobody c i p p' here e none_waits) =
      changed s i p p' t here (notifies-Change _ (view s.shared) c p p' e) refl
  Step-Moment {s} {t} inv (notifies_all c i p p' here e) =
      changed s i p p' t here (broadcasts-Change _ (view s.shared) c p p' e)
        (map_unseen status (woken c) (woken-status c) (set s.threads i p'))

  Run-History :
      {s t : System A} {ins outs : List A}
      → Inv s
      → (r : Run s ins outs t)
      → History s.shared.capacity (atomic s) ins outs (outcomes (returns r)) (atomic t)
  unfolding returns
  Run-History inv start = begins
  Run-History {s} inv (later {ins} {outs} {i} {o} {t = m} r st e f) =
      let now = Step-Moment (Run-Inv inv r) st in
      let same : m.shared.capacity ≡ s.shared.capacity = (Run-IsFifo inv r).1 in
      let split = map-append (λ (x : Return A). x.outcome) (returns r) (Step-returns st) in
      rw (e, f, split) (goes_on (Run-History inv r) (rw same at now))

  -- The queue is one whose operations take effect at one moment each, between their call and their
  -- return, and return what they did then. Take any run on a new queue, in whatever order its threads take their
  -- steps: it is a history of such moments, with the same items put in and taken out, the same returns
  -- in the same order, and each thread where it is after the run. At the moment of a `push` that returns true its
  -- item is put at the end of an open queue that is not full; at that of a `pop` that returns an item, this
  -- one is taken, and it is the first. Where a `push` without a time limit gives up, the queue is closed, and for
  -- `pop` closed and empty; then nothing is put or taken. `closed` and `size` return what is so at
  -- their moment, and that of `close` closes the queue.
  pub refines_atomic_queue :
      (capacity n : ℕ) {s : System A} {ins outs : List A} (r : Run (initial capacity n) ins outs s)
      → History capacity
          (record { queue = record { items = []; closed = false }; threads = replicate n outside })
          ins
          outs
          (outcomes (returns r))
          (atomic s)
  unfolding initial
  refines_atomic_queue capacity n {s} {ins} {outs} r =
      rw (map-replicate n) at (Run-History (initial-Inv capacity n) r)
