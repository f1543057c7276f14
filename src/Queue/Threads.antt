-- ===== src/Queue/Threads.antt =====
-- Any number of producers and consumers: the order of the items of each of them.
use mathlib.Core.List.Sublist
use mathlib.Core.List.{Sublist, sublist-append_left}
use cmake_sample.Common.{
  ℕ, ◌≡◌, ◌≢◌, inl, inr, refl, sym, some, List, [], ◌++◌, set, if◌then◌else◌, ◌==◌, ==_iff,
  get_elem?, append-nil, append_assoc, get_elem?-set_self, get_elem?-set_ne, Bool-cases,
  Option-cases, replicate,
}
use cmake_sample.Queue.{Thread, idle, begin}
use cmake_sample.Queue.System.{
  System, Step, runs, calls, times_out, wakes, notifies_one, notifies_nobody, notifies_all, Run,
  start, later, woken, At, place,
}
use cmake_sample.Queue.Safety.{initial, idle_of_initial, still_waits, notifies_quiet}
use cmake_sample.Queue.Contract.{fifo}
use cmake_sample.Queue.Returns.{Return, Side, putting, taking, moved, returned}
use cmake_sample.Queue.Hands.{
  items_of, in_hand, next-IsEven, notifies-IsEven, broadcasts-IsEven, expired-IsEven, woken-IsEven,
  free-in_hand, begin-in_hand, idle_lem, nothing_moved, moved-append, items_of-append, hand,
  woken_all-hand,
}

module _ {ℓ} {A : Type ℓ} where
  abbrev mine : ℕ → ℕ → List (Return A) → List (Return A)
  mine c i rs = if i == c then rs else []

  -- What this thread returns in a step.
  unfoldable pub Step-returns_of :
      ℕ → {s t : System A} {ins outs : List A} → Step s ins outs t → List (Return A)
  Step-returns_of c (runs i p p' m here moved) = mine c i (returned p p')
  Step-returns_of c (calls i p o here free) = []
  Step-returns_of c (times_out i p p' here e) = []
  Step-returns_of c (wakes d i p here w) = []
  Step-returns_of c (notifies_one d i j p p' q here e there w) = mine c i (returned p p')
  Step-returns_of c (notifies_nobody d i p p' here e none_waits) = mine c i (returned p p')
  Step-returns_of c (notifies_all d i p p' here e) = mine c i (returned p p')

  -- All returns of this thread, in their order.
  unfoldable pub returns_of :
      ℕ → {s t : System A} {ins outs : List A} → Run s ins outs t → List (Return A)
  returns_of c start = []
  returns_of c (later r st e f) = returns_of c r ++ Step-returns_of c st

  module _ (side : Side) (c : ℕ) where
    -- A thread goes from `p` to `q`, and moves and returns for these items.
    place-in_order :
        (s : System A) (i : ℕ) (p q : Thread A) (m : List A) (rs : List (Return A))
        → At s i p
        → in_hand side p ++ m ≡ items_of side rs ++ in_hand side q
        → Sublist (items_of side (mine c i rs) ++ hand side c (place s i q)) (hand side c s ++ m)
    unfolding items_of
    place-in_order s i p q m rs here even = elim (Bool-cases (i == c)) [
      | inl yes_c ↦
          let same : i ≡ c = (==_iff i c).0 yes_c in
          let before : get_elem? s.threads c ≡ some p = rw same at here in
          let after : get_elem? (set s.threads i q) c ≡ some q =
            rw (sym same) (get_elem?-set_self s.threads i q p here) in
          rw (yes_c, before, after, even) (Sublist.refl (items_of side rs ++ in_hand side q))
      | inr no_c ↦
          let other : i ≢ c = λ e. let yes_c = (==_iff i c).1 e in cc in
          rw (no_c, get_elem?-set_ne s.threads i c q other) (sublist-append_left (hand side c s) m)
    ]

    nothing_returned : (i : ℕ) → mine c i [] ≡ []
    nothing_returned i = elim (Bool-cases (i == c)) [ inl h ↦ rw h refl | inr h ↦ rw h refl ]

    -- A thread goes from `p` to `q` without a return.
    place_quietly :
        (s : System A) (i : ℕ) (p q : Thread A)
        → At s i p
        → in_hand side p ++ [] ≡ in_hand side q
        → Sublist (hand side c (place s i q)) (hand side c s)
    unfolding items_of
    place_quietly s i p q here even =
        rw (append-nil (hand side c s)) at
          (rw (nothing_returned i) at (place-in_order s i p q [] [] here even))

    Step-in_order :
        {s t : System A} {ins outs : List A} (st : Step s ins outs t)
        → Sublist
            (items_of side (Step-returns_of c st) ++ hand side c t)
            (hand side c s ++ moved side ins outs)
    unfolding Step-returns_of items_of
    Step-in_order {s} (runs i p p' m here moved) =
        place-in_order s i p p' _ (returned p p') here (next-IsEven side i s.shared m p p' moved).0
    Step-in_order {s} (calls i p o here free) =
        rw (nothing_moved side, append-nil (hand side c s))
          (place_quietly s i p (begin o) here
            (rw (free-in_hand side p free, begin-in_hand side o) refl))
    Step-in_order {s} (times_out i p p' here e) =
        rw (nothing_moved side, append-nil (hand side c s))
          (place_quietly s i p p' here (expired-IsEven side p p' e).0)
    Step-in_order {s} (wakes d i p here w) =
        rw (nothing_moved side, append-nil (hand side c s))
          (place_quietly s i p (woken d p) here (woken-IsEven side d p).0)
    Step-in_order {s} (notifies_one d i j p p' q here e there w) =
        let still = still_waits s d i j p p' q here (notifies_quiet d p p' e) there w in
        rw (nothing_moved side) (
          Sublist.trans
            (Sublist.append (Sublist.refl (items_of side (mine c i (returned p p'))))
              (place_quietly (place s i p') j q (woken d q) still (woken-IsEven side d q).0))
            (place-in_order s i p p' [] (returned p p') here (notifies-IsEven side d p p' e).0))
    Step-in_order {s} (notifies_nobody d i p p' here e none_waits) =
        rw (nothing_moved side)
          (place-in_order s i p p' [] (returned p p') here (notifies-IsEven side d p p' e).0)
    Step-in_order {s} (notifies_all d i p p' here e) =
        rw (nothing_moved side, woken_all-hand side c d (place s i p'))
          (place-in_order s i p p' [] (returned p p') here (broadcasts-IsEven side d p p' e).0)

    Run-in_order :
        (capacity n : ℕ) {s : System A} {ins outs : List A}
        (r : Run (initial capacity n) ins outs s)
        → Sublist (items_of side (returns_of c r) ++ hand side c s) (moved side ins outs)
    unfolding returns_of items_of initial
    Run-in_order capacity n start =
        elim (Option-cases (get_elem? (replicate {A = Thread A} n idle) c)) [
          | inl nobody ↦ rw (nobody, nothing_moved side) (Sublist.refl [])
          | inr (p, here) ↦
              rw (here, idle_of_initial n c p here, (idle_lem side).1, nothing_moved side)
                (Sublist.refl [])
        ]
    Run-in_order capacity n (later {ins} {outs} {i} {o} {t = mid} {u = v} r st e f) =
        let before = Sublist.append (Run-in_order capacity n r) (Sublist.refl (moved side i o)) in
        let now =
          Sublist.append (Sublist.refl (items_of side (returns_of c r))) (Step-in_order st) in
        let whole = Sublist.trans now (
          rw (append_assoc (items_of side (returns_of c r)) (hand side c mid) (moved side i o)) at
            before) in
        rw
          (
            e,
            f,
            moved-append side ins outs i o,
            items_of-append side (returns_of c r) (Step-returns_of c st),
            append_assoc (items_of side (returns_of c r)) (items_of side (Step-returns_of c st))
                (hand side c v),
          )
          whole

  -- Any number of producers and consumers, in whatever order they take their steps. What one thread
  -- has sent, which is the items that its calls of `push` and `push_for` returned true for, in the order of these
  -- returns, and the one that it has put in and still has to return for, stands in this order among
  -- the items that were taken out and those still in the queue. And what one thread has received, in the order of
  -- its returns, with the item that it has taken and still has to return, stands in this order
  -- among the items that were taken out.
  pub in_order_for_each :
      (capacity n : ℕ) {s : System A} {ins outs : List A} (r : Run (initial capacity n) ins outs s)
      → (c : ℕ)
      → Sublist (items_of putting (returns_of c r) ++ hand putting c s) (outs ++ s.shared.items)
        × Sublist (items_of taking (returns_of c r) ++ hand taking c s) outs
  in_order_for_each capacity n r c = (
    rw (fifo capacity n r) at (Run-in_order putting c capacity n r),
    Run-in_order taking c capacity n r,
  )
