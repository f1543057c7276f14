-- ===== src/Queue/Answers.antt =====
-- What the operations return, against what they did to the queue.
use mathlib.Core.List.Perm
use mathlib.Core.List.{Perm, perm_append_comm, perm-append_left_iff}
use cmake_sample.Common.{
  ℕ, ◌≡◌, refl, sym, ◌∙◌, some, List, [], ◌∷◌, ◌++◌, set, map, get_elem?, append-nil, append_assoc,
  replicate, zero, suc,
}
use cmake_sample.Queue.{Thread, idle, begin}
use cmake_sample.Queue.System.{
  System, Condition, Step, runs, calls, times_out, wakes, notifies_one, notifies_nobody,
  notifies_all, Run, start, later, woken, At, place,
}
use cmake_sample.Queue.Safety.{initial, still_waits, notifies_quiet}
use cmake_sample.Queue.Returns.{Side, putting, taking, moved, returned, Step-returns, returns}
use cmake_sample.Queue.Hands.{
  items_of, in_hand, next-IsEven, notifies-IsEven, broadcasts-IsEven, expired-IsEven, woken-IsEven,
  free-in_hand, begin-in_hand, idle_lem, nothing_moved, moved-append, items_of-append,
}

perm_swap {ℓ} : {A : Type ℓ} (xs ys zs : List A) → Perm (xs ++ (ys ++ zs)) (ys ++ (xs ++ zs))
perm_swap xs ys zs =
    rw (sym (append_assoc xs ys zs), sym (append_assoc ys xs zs))
      (Perm.append_right zs (perm_append_comm xs ys))

module _ {ℓ} {A : Type ℓ} where
  -- What all threads have in hand.
  abbrev pub hands : Side → List (Thread A) → List A
  hands side [] = []
  hands side (p ∷ rest) = in_hand side p ++ hands side rest

  module _ (side : Side) where
    set-Perm :
        (ts : List (Thread A)) (i : ℕ) (p q : Thread A)
        → get_elem? ts i ≡ some p
        → Perm (in_hand side p ++ hands side (set ts i q)) (in_hand side q ++ hands side ts)
    set-Perm [] i p q here = cc
    set-Perm (y ∷ ts) zero p q here =
        let eq : y ≡ p = cc in rw eq (perm_swap (in_hand side p) (in_hand side q) (hands side ts))
    set-Perm (y ∷ ts) (suc i) p q here =
        Perm.trans (perm_swap (in_hand side p) (in_hand side y) (hands side (set ts i q))) (
          Perm.trans (Perm.append_left (in_hand side y) (set-Perm ts i p q here))
            (perm_swap (in_hand side y) (in_hand side q) (hands side ts)))

    -- A thread goes from `p` to `q`, and moves and returns for these items.
    place-Perm :
        (s : System A) (i : ℕ) (p q : Thread A) (m k : List A)
        → At s i p
        → in_hand side p ++ m ≡ k ++ in_hand side q
        → Perm (m ++ hands side s.threads) (k ++ hands side (set s.threads i q))
    place-Perm s i p q m k here even =
        let before = hands side s.threads in
        let after = hands side (set s.threads i q) in
        let same : in_hand side p ++ (m ++ before) ≡ k ++ (in_hand side q ++ before) =
          cc (append_assoc (in_hand side p) m before, append_assoc k (in_hand side q) before) in
        (perm-append_left_iff (in_hand side p)).0 (
          rw same (
            Perm.trans (Perm.append_left k (Perm.symm (set-Perm s.threads i p q here)))
              (perm_swap k (in_hand side p) after)))

    woken_all-hands :
        (d : Condition) (ts : List (Thread A)) → hands side (map (woken d) ts) ≡ hands side ts
    woken_all-hands d [] = refl
    woken_all-hands d (p ∷ rest) =
        let (even, _) = woken-IsEven side d p in
        let same : in_hand side (woken d p) ≡ in_hand side p =
          sym even ∙ append-nil (in_hand side p) in
        rw (same, woken_all-hands d rest) refl

    -- What was in hand, and what a step moves, is what it returns for and what is in hand then.
    Step-Perm :
        {s t : System A} {ins outs : List A} (st : Step s ins outs t)
        → Perm
            (moved side ins outs ++ hands side s.threads)
            (items_of side (Step-returns st) ++ hands side t.threads)
    unfolding Step-returns items_of
    Step-Perm {s} (runs i p p' m here moved) =
        place-Perm s i p p' _ _ here (next-IsEven side i s.shared m p p' moved).0
    Step-Perm {s} (calls i p o here free) = rw (nothing_moved side) (
        place-Perm s i p (begin o) [] [] here
          (rw (free-in_hand side p free, begin-in_hand side o) refl))
    Step-Perm {s} (times_out i p p' here e) =
        rw (nothing_moved side) (place-Perm s i p p' [] [] here (expired-IsEven side p p' e).0)
    Step-Perm {s} (wakes d i p here w) =
        rw (nothing_moved side) (place-Perm s i p (woken d p) [] [] here (woken-IsEven side d p).0)
    Step-Perm {s} (notifies_one d i j p p' q here e there w) =
        let still = still_waits s d i j p p' q here (notifies_quiet d p p' e) there w in
        rw (nothing_moved side) (
          Perm.trans (place-Perm s i p p' [] _ here (notifies-IsEven side d p p' e).0) (
            Perm.append_left (items_of side (returned p p'))
              (place-Perm (place s i p') j q (woken d q) [] [] still (woken-IsEven side d q).0)))
    Step-Perm {s} (notifies_nobody d i p p' here e none_waits) =
        rw (nothing_moved side) (place-Perm s i p p' [] _ here (notifies-IsEven side d p p' e).0)
    Step-Perm {s} (notifies_all d i p p' here e) =
        rw (nothing_moved side, woken_all-hands d (set s.threads i p'))
          (place-Perm s i p p' [] _ here (broadcasts-IsEven side d p p' e).0)

    nothing_in_hand : (n : ℕ) → hands side (replicate {A = Thread A} n idle) ≡ []
    nothing_in_hand zero = refl
    nothing_in_hand (suc n) = rw ((idle_lem side).1, nothing_in_hand n) refl

    Run-Perm :
        (capacity n : ℕ) {s : System A} {ins outs : List A}
        (r : Run (initial capacity n) ins outs s)
        → Perm (moved side ins outs) (items_of side (returns r) ++ hands side s.threads)
    unfolding returns items_of initial
    Run-Perm capacity n start = rw (nothing_moved side, nothing_in_hand n) (Perm.refl [])
    Run-Perm capacity n (later {ins} {outs} {i} {o} {t = mid} {u = v} r st e f) =
        let m = moved side i o in
        let paid = items_of side (returns r) in
        let now = items_of side (Step-returns st) in
        let regroup : Perm ((paid ++ hands side mid.threads) ++ m)
            (paid ++ (m ++ hands side mid.threads)) =
          rw (append_assoc paid (hands side mid.threads) m)
            (Perm.append_left paid (perm_append_comm (hands side mid.threads) m)) in
        rw
          (
            e,
            f,
            moved-append side ins outs i o,
            items_of-append side (returns r) (Step-returns st),
            append_assoc paid now (hands side v.threads),
          )
          (Perm.trans (Perm.append_right m (Run-Perm capacity n r))
            (Perm.trans regroup (Perm.append_left paid (Step-Perm st))))

  -- The operations return what they did. In every run on a new queue, the items that were put in
  -- are, up to their order, those that the calls of `push` and `push_for` returned true for, and those of
  -- calls that have yet to return after they put theirs in. And the items that were taken out are, up to their order,
  -- those that `pop` and `pop_for` returned, and those that such calls have yet to return.
  pub results_match_effects :
      (capacity n : ℕ) {s : System A} {ins outs : List A} (r : Run (initial capacity n) ins outs s)
      → Perm ins (items_of putting (returns r) ++ hands putting s.threads)
        × Perm outs (items_of taking (returns r) ++ hands taking s.threads)
  results_match_effects capacity n r = (Run-Perm putting capacity n r, Run-Perm taking capacity n r)
