-- ===== src/Queue/Delivery.antt =====
-- What is delivered by the time that a `pop` without a time limit has returned false.
use mathlib.Core.List.Perm
use mathlib.Core.List.{Perm}
use cmake_sample.Common.{
  ℕ, ◌+◌, ◌≤◌, ◌≡◌, ◌⊎◌, inl, inr, refl, sym, true, false, none, some, List, [], ◌∷◌, ◌++◌, arith,
  tally, tally-append, append-nil, get_elem?, zero, suc,
}
use cmake_sample.Queue.{Shared, Thread, Outcome, popping, refuse, popped, next, is_empty}
use cmake_sample.Queue.System.{
  System, Condition, Step, runs, calls, times_out, wakes, notifies_one, notifies_nobody,
  notifies_all, Run, start, later, notifies, broadcasts, is_free, At,
}
use cmake_sample.Queue.Mutex.{IsFresh, Inv}
use cmake_sample.Queue.Safety.{initial, reach-Inv, Step-effect}
use cmake_sample.Queue.Contract.{fifo}
use cmake_sample.Queue.Returns.{Return, Side, putting, taking, returned, Step-returns, returns}
use cmake_sample.Queue.Hands.{items_of, free-in_hand}
use cmake_sample.Queue.Answers.{hands, results_match_effects}

either : (a b : ℕ) → 1 ≤ a + b → (1 ≤ a) ⊎ (1 ≤ b)
either zero b h = inr (omega arith)
either (suc a) b h = inl (omega arith)

module _ {ℓ} {A : Type ℓ} where
  -- 1 for a `pop` without a time limit that returned false.
  unfoldable pub refused_by : Thread A → Outcome A → ℕ
  refused_by (popping false out at) (popped none) = 1
  refused_by p o = 0

  abbrev pub refused : Return A → ℕ
  refused r = refused_by r.from r.outcome

  abbrev IsDrained : Shared A → Type ℓ
  IsDrained m = (m.closed ≡ true) × (m.items ≡ [])

  nil_of_empty : (xs : List A) → is_empty xs ≡ true → xs ≡ []
  nil_of_empty [] h = refl
  nil_of_empty (x ∷ rest) h = cc

  next-refused :
      (i : ℕ) (m m' : Shared A) (p p' : Thread A)
      → next i m p ≡ some (m', p')
      → IsFresh m p
      → 1 ≤ tally refused (returned p p')
      → IsDrained m'
  unfolding next returned refused_by tally
  next-refused i m m' (popping false out refuse) p' e f h = ground (arith, nil_of_empty m.items)
  next-refused i m m' p p' e f h = ground arith

  notifies-refused :
      (m : Shared A) (c : Condition) (p p' : Thread A)
      → notifies p ≡ some (c, p')
      → IsFresh m p
      → tally refused (returned p p') ≡ 0
  unfolding notifies returned refused_by tally
  notifies-refused m c p p' e f = ground arith

  broadcasts-refused :
      (c : Condition) (p p' : Thread A)
      → broadcasts p ≡ some (c, p')
      → tally refused (returned p p') ≡ 0
  unfolding broadcasts returned refused_by tally
  broadcasts-refused c p p' e = ground arith

  Step-refused :
      {s t : System A} {ins outs : List A}
      → Inv s
      → (st : Step s ins outs t) → 1 ≤ tally refused (Step-returns st)
      → IsDrained t.shared
  unfolding Step-returns tally
  Step-refused {s} inv (runs i p p' m here e) h =
      next-refused i s.shared m p p' e (inv.fresh i p here) h
  Step-refused inv (calls i p o here free) h = absurd (omega arith)
  Step-refused inv (times_out i p p' here e) h = absurd (omega arith)
  Step-refused inv (wakes c i p here w) h = absurd (omega arith)
  Step-refused {s} inv (notifies_one c i j p p' q here e there w) h =
      absurd (omega (arith, notifies-refused s.shared c p p' e (inv.fresh i p here)))
  Step-refused {s} inv (notifies_nobody c i p p' here e none_waits) h =
      absurd (omega (arith, notifies-refused s.shared c p p' e (inv.fresh i p here)))
  Step-refused inv (notifies_all c i p p' here e) h =
      absurd (omega (arith, broadcasts-refused c p p' e))

  nil_of_append : (xs ys : List A) → [] ≡ xs ++ ys → ys ≡ []
  nil_of_append [] ys h = sym h
  nil_of_append (x ∷ xs) ys h = cc

  stays-IsDrained :
      {s t : System A} {ins outs : List A}
      → Inv s
      → Step s ins outs t
      → IsDrained s.shared
      → IsDrained t.shared
  stays-IsDrained {s} {t} {ins} {outs} inv st (shut, empty) =
      let (order, _, quiet) = Step-effect inv st in
      let (none_in, still) = quiet shut in
      let all_out : [] ≡ outs ++ t.shared.items = (rw (empty, none_in) at order) in
      (still, nil_of_append outs t.shared.items all_out)

  Run-IsDrained :
      (capacity n : ℕ) {s : System A} {ins outs : List A} (r : Run (initial capacity n) ins outs s)
      → 1 ≤ tally refused (returns r)
      → IsDrained s.shared
  unfolding returns tally
  Run-IsDrained capacity n start h = absurd (omega arith)
  Run-IsDrained capacity n (later r st e f) h =
      elim (either (tally refused (returns r)) (tally refused (Step-returns st))
        (omega (arith, tally-append refused (returns r) (Step-returns st)))) [
          | inl before ↦
              stays-IsDrained (reach-Inv capacity n r) st (Run-IsDrained capacity n r before)
          | inr now ↦ Step-refused (reach-Inv capacity n r) st now
        ]

  nothing_in_hand :
      (side : Side) (threads : List (Thread A))
      → ((i : ℕ) (p : Thread A) → get_elem? threads i ≡ some p → is_free p ≡ true)
      → hands side threads ≡ []
  nothing_in_hand side [] free = refl
  nothing_in_hand side (p ∷ rest) free =
      rw
        (
          free-in_hand side p (free 0 p refl),
          nothing_in_hand side rest (λ i q here. free (suc i) q here),
        )
        refl

  -- Once a `pop` without a time limit has returned false, all that was ever put into the queue was
  -- taken out, in this order. If moreover no thread is in an operation, then the items that `push`
  -- and `push_for` returned true for and those that `pop` and `pop_for` returned are the same up to their
  -- order, for any number of producers and consumers.
  pub all_delivered :
      (capacity n : ℕ) {s : System A} {ins outs : List A} (r : Run (initial capacity n) ins outs s)
      → 1 ≤ tally refused (returns r)
      → (ins ≡ outs)
        × (((i : ℕ) (p : Thread A) → At s i p → is_free p ≡ true)
            → Perm (items_of putting (returns r)) (items_of taking (returns r)))
  all_delivered capacity n {s} {ins} {outs} r gave_up =
      let (shut, empty) = Run-IsDrained capacity n r gave_up in
      let same : ins ≡ outs = rw (empty, append-nil outs) at (fifo capacity n r) in
      (
        same,
        λ free.
            let (sent, received) = results_match_effects capacity n r in
            Perm.trans (Perm.symm (rw (whole putting free) at sent))
              (rw (sym same, whole taking free) at received),
      )
    where
      whole :
          (side : Side)
          → ((i : ℕ) (p : Thread A) → At s i p → is_free p ≡ true)
          → items_of side (returns r) ++ hands side s.threads ≡ items_of side (returns r)
      whole side free =
          rw (nothing_in_hand side s.threads free) (append-nil (items_of side (returns r)))
