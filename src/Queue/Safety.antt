-- ===== src/Queue/Safety.antt =====
-- What holds in every state that threads can reach on a new queue.
use cmake_sample.Common.{
  ℕ, zero, suc, ◌≡◌, refl, ◌∙◌, true, false, none, some, List, [], ◌∷◌, ◌++◌, get_elem?, arith,
  append-nil, replicate, get_elem?-set_ne,
}
use native.Mathlib.Decide.{ℕ_discrete}
use cmake_sample.Queue.{Shared, Thread, idle, pushing, popping, act, next, begin, is_empty}
use cmake_sample.Queue.System.{
  System, Condition, not_full, not_empty, Step, runs, calls, times_out, wakes, notifies_one,
  notifies_nobody, notifies_all, Run, start, later, woken, waiting, notifies, put, taken, At, place,
}
use cmake_sample.Queue.Mutex.{holds, IsFresh, Inv, place-Inv, runs-Inv}
use cmake_sample.Queue.Outside.{
  woken_all-Inv, woken-holds, woken-IsFresh, free_outside, begin_outside, expired_outside,
  waiting_outside, notifies_outside, broadcasts_outside,
}

module _ {ℓ} {A : Type ℓ} where
  -- A new queue, with threads that have not called it yet.
  unfoldable pub initial : ℕ → ℕ → System A
  initial capacity threads = record {
    shared = record { capacity = capacity; items = []; closed = false; owner = none };
    threads = replicate threads idle;
  }

  pub notifies_quiet :
      (c : Condition) (p p' : Thread A)
      → notifies p ≡ some (c, p')
      → (waiting not_full p ≡ 0) × (waiting not_empty p ≡ 0)
  unfolding notifies waiting
  notifies_quiet c p p' e = ground arith

  pub quiet_everywhere :
      (c : Condition) (p : Thread A)
      → (waiting not_full p ≡ 0) × (waiting not_empty p ≡ 0)
      → waiting c p ≡ 0
  quiet_everywhere not_full p h = h.0
  quiet_everywhere not_empty p h = h.1

  -- The waiter that a notification picks is another thread than the one that notifies.
  pub still_waits :
      (s : System A) (c : Condition) (i j : ℕ) (p p' q : Thread A)
      → At s i p
      → (waiting not_full p ≡ 0) × (waiting not_empty p ≡ 0)
      → At s j q
      → waiting c q ≡ 1
      → At (place s i p') j q
  still_waits s c i j p p' q h quiet k w = elim (ℕ_discrete i j) [
    | yes same ↦
        let eq : p ≡ q = cc in
        let none_here : waiting c q ≡ 0 = rw eq at (quiet_everywhere c p quiet) in
        absurd (omega arith)
    | no other ↦ get_elem?-set_ne s.threads i j p' other ∙ k
  ]

  pub Step-Inv : {s t : System A} {ins outs : List A} → Inv s → Step s ins outs t → Inv t
  Step-Inv {s} inv (runs i p p' m here moved) = runs-Inv s inv i p here m p' moved
  Step-Inv {s} inv (calls i p o here free) =
      let (out, f) = begin_outside s.shared o in
      place-Inv s inv i p here (begin o) (free_outside p free) out f
  Step-Inv {s} inv (times_out i p p' here e) =
      let (out, out', f) = expired_outside s.shared p p' e in place-Inv s inv i p here p' out out' f
  Step-Inv {s} inv (wakes c i p here w) =
      let out = waiting_outside c p w in
      place-Inv s inv i p here (woken c p) out (woken-holds c p ∙ out)
        (woken-IsFresh c s.shared p (inv.fresh i p here))
  Step-Inv {s} inv (notifies_one c i j p p' q here e there w) =
      let (out, out', f) = notifies_outside s.shared c p p' e in
      let away = waiting_outside c q w in
      place-Inv (place s i p') (place-Inv s inv i p here p' out out' f) j q
        (still_waits s c i j p p' q here (notifies_quiet c p p' e) there w) (woken c q) away
        (woken-holds c q ∙ away) (woken-IsFresh c s.shared q (inv.fresh j q there))
  Step-Inv {s} inv (notifies_nobody c i p p' here e _) =
      let (out, out', f) = notifies_outside s.shared c p p' e in
      place-Inv s inv i p here p' out out' f
  Step-Inv {s} inv (notifies_all c i p p' here e) =
      let (out, out', f) = broadcasts_outside s.shared c p p' e in
      woken_all-Inv c (place s i p') (place-Inv s inv i p here p' out out' f)

  pub Run-Inv : {s t : System A} {ins outs : List A} → Inv s → Run s ins outs t → Inv t
  Run-Inv inv start = inv
  Run-Inv inv (later r st _ _) = Step-Inv (Run-Inv inv r) st

  pub idle_of_initial :
      (n i : ℕ) (p : Thread A) → get_elem? (replicate n idle) i ≡ some p → p ≡ idle
  idle_of_initial zero i p h = cc
  idle_of_initial (suc n) zero p h = cc
  idle_of_initial (suc n) (suc i) p h = idle_of_initial n i p h

  pub initial-Inv : (capacity n : ℕ) → Inv (initial capacity n)
  unfolding initial
  initial-Inv capacity n = record {
    guarded = λ i p h held.
        let none_held : holds {A = A} idle ≡ true = rw (idle_of_initial n i p h) at held in cc;
    backed = λ i h. cc;
    fresh = λ i p h. rw (idle_of_initial n i p h) tt;
    bounded = omega arith;
  }

  pub reach-Inv :
      (capacity n : ℕ) {t : System A} {ins outs : List A}
      → Run (initial capacity n) ins outs t
      → Inv t
  reach-Inv capacity n r = Run-Inv (initial-Inv capacity n) r

  pub cons_of_filled :
      (xs : List A) → is_empty xs ≡ false → (x : A) × (rest : List A) × (xs ≡ x ∷ rest)
  cons_of_filled [] h = cc
  cons_of_filled (x ∷ rest) h = (x, rest, refl)

  -- What one statement does to the items, to `closed_` and to the capacity.
  next-effect :
      (i : ℕ) (m m' : Shared A) (p p' : Thread A)
      → next i m p ≡ some (m', p')
      → IsFresh m p
      → (m.items ++ put p ≡ taken m p ++ m'.items)
        × (m'.capacity ≡ m.capacity)
        × (m.closed ≡ true → (put p ≡ []) × (m'.closed ≡ true))
  unfolding next put taken
  next-effect i m m' (pushing d x act) p' e f = ground arith
  next-effect i m m' (popping d out act) p' e f =
      let (x, rest, eq) = cons_of_filled m.items f in ground (arith, append-nil rest)
  next-effect i m m' p p' e f = ground (arith, append-nil m.items)

  pub Step-effect :
      {s t : System A} {ins outs : List A}
      → Inv s
      → Step s ins outs t
      → (s.shared.items ++ ins ≡ outs ++ t.shared.items)
        × (t.shared.capacity ≡ s.shared.capacity)
        × (s.shared.closed ≡ true → (ins ≡ []) × (t.shared.closed ≡ true))
  Step-effect {s} inv (runs i p p' m here moved) =
      next-effect i s.shared m p p' moved (inv.fresh i p here)
  Step-effect {s} inv st = (append-nil s.shared.items, refl, λ e. (refl, e))
