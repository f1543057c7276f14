-- ===== src/Queue/Wakeups.antt =====
-- No wake-up is lost: `notify_one` behind each operation and `notify_all` in `close` are enough.
use cmake_sample.Common.{
  ℕ, zero, suc, ◌+◌, ◌≤◌, ◌≡◌, ◌⊎◌, inl, inr, refl, some, List, map, set, get_elem?, arith,
  replicate, tally, tally-set, le-tally, tally-map_eq, tally-map_zero,
}
use cmake_sample.Queue.{Shared, Thread, idle, begin}
use cmake_sample.Queue.System.{
  System, Condition, not_full, not_empty, Step, runs, calls, times_out, wakes, notifies_one,
  notifies_nobody, notifies_all, Run, start, later, woken, waiting, At, place,
}
use cmake_sample.Queue.Mutex.{Inv}
use cmake_sample.Queue.Safety.{initial, still_waits, notifies_quiet, Run-Inv, initial-Inv}
use cmake_sample.Queue.Counts.{
  overdue, for_pop, for_push, for_close, Awake, Delta, next-Delta, calls-Delta, expired-Delta,
  wakes-Delta, NotifyWeights, notifies-Weights, WakeWeights, waiting-Weights, BroadcastWeights,
  broadcasts-Weights, Untouched, woken_waits_not, not_empty-full, not_empty-push, not_empty-close,
  not_full-empty, not_full-pop, not_full-close,
}

none_waiting {ℓ} :
    (A : Type ℓ) (c : Condition) (n : ℕ) → tally (waiting {A = A} c) (replicate n idle) ≡ 0
unfolding tally waiting
none_waiting A c zero = refl
none_waiting A not_full (suc n) = omega (arith, none_waiting A not_full n)
none_waiting A not_empty (suc n) = omega (arith, none_waiting A not_empty n)

initial-Awake {ℓ} : (A : Type ℓ) (capacity n : ℕ) → Awake 0 0 (initial {A = A} capacity n)
unfolding initial
initial-Awake A capacity n = record {
  pops = inl (none_waiting A not_empty n);
  pushes = inr (inl (none_waiting A not_full n));
  closes = λ e. cc;
}

module _ {ℓ} {A : Type ℓ} where
  -- 1 for a step in which the deadline of a thread passes that was woken for this condition before:
  -- this wake-up goes to nobody.
  unfoldable pub late : {s t : System A} {ins outs : List A} → Condition → Step s ins outs t → ℕ
  late c (times_out i p p' here e) = overdue c p
  late c st = 0

  unfoldable pub lates : {s t : System A} {ins outs : List A} → Condition → Run s ins outs t → ℕ
  lates c start = 0
  lates c (later r st _ _) = lates c r + late c st

  module _ (x y : ℕ) (s : System A) (awake : Awake x y s) (i : ℕ) (p p' : Thread A)
      (here : At s i p) where
    abbrev moved :
        (w : Thread A → ℕ) → tally w (set s.threads i p') + w p ≡ tally w s.threads + w p'
    moved w = tally-set w s.threads i p p' here

    Delta-Awake :
        (a b : ℕ) (m : Shared A)
        → Delta a b s.shared m p p'
        → Awake (x + a) (y + b) (record { shared = m; threads = set s.threads i p' })
    Delta-Awake a b m d = record {
      pops = ground (arith, awake.pops, d.pop, moved (waiting not_empty), moved for_pop);
      pushes =
          ground (arith, awake.pushes, d.push, d.same, moved (waiting not_full), moved for_push);
      closes = λ e. ground (
        arith,
        awake.closes,
        d.close e,
        moved (waiting not_empty),
        moved (waiting not_full),
        moved (for_close not_empty),
        moved (for_close not_full),
        le-tally (for_close not_empty) s.threads i p here,
        le-tally (for_close not_full) s.threads i p here,
      );
    }

  -- A step that leaves the shared fields alone: it wakes every waiter of a condition, or it adds no
  -- waiter and takes away nobody who serves the condition.
  record Better (ts us : List (Thread A)) : Type 0 where
    pop :
        (tally (waiting not_empty) us ≡ 0)
        ⊎ ((tally (waiting not_empty) us ≤ tally (waiting not_empty) ts)
            × (tally for_pop ts ≤ tally for_pop us)
            × (tally (for_close not_empty) ts ≤ tally (for_close not_empty) us))
    push :
        (tally (waiting not_full) us ≡ 0)
        ⊎ ((tally (waiting not_full) us ≤ tally (waiting not_full) ts)
            × (tally for_push ts ≤ tally for_push us)
            × (tally (for_close not_full) ts ≤ tally (for_close not_full) us))

  Better-Awake :
      (x y : ℕ) (s : System A) (us : List (Thread A))
      → Awake x y s
      → Better s.threads us
      → Awake (x + 0) (y + 0) (record s { threads = us })
  Better-Awake x y s us awake b = record {
    pops = ground (arith, awake.pops, b.pop);
    pushes = ground (arith, awake.pushes, b.push);
    closes = λ e. ground (arith, awake.closes e, b.pop, b.push);
  }

  module _ (ts : List (Thread A)) (i : ℕ) (p p' : Thread A) (here : get_elem? ts i ≡ some p) where
    abbrev replaced : (w : Thread A → ℕ) → tally w (set ts i p') + w p ≡ tally w ts + w p'
    replaced w = tally-set w ts i p p' here

    -- `notify_one` with nobody to wake.
    nobody-Better :
        (c : Condition) → NotifyWeights c p p' → tally (waiting c) ts ≡ 0 → Better ts (set ts i p')
    nobody-Better not_empty w none_waits = record {
      pop = inl (omega (arith, replaced (waiting not_empty)));
      push = inr (
        omega (arith, replaced (waiting not_full)),
        omega (arith, replaced for_push),
        omega (arith, replaced (for_close not_full)),
      );
    }
    nobody-Better not_full w none_waits = record {
      pop = inr (
        omega (arith, replaced (waiting not_empty)),
        omega (arith, replaced for_pop),
        omega (arith, replaced (for_close not_empty)),
      );
      push = inl (omega (arith, replaced (waiting not_full)));
    }

    -- `notify_one` and the waiter that it wakes.
    module _ (j : ℕ) (q q' : Thread A) (there : get_elem? (set ts i p') j ≡ some q) where
      both :
          (w : Thread A → ℕ)
          → tally w (set (set ts i p') j q') + w p + w q ≡ tally w ts + w p' + w q'
      both w = omega (arith, replaced w, tally-set w (set ts i p') j q q' there)

      one-Better :
          (c : Condition)
          → NotifyWeights c p p'
          → WakeWeights c q q'
          → Better ts (set (set ts i p') j q')
      one-Better not_empty w v = record {
        pop = inr (
          omega (arith, both (waiting not_empty)),
          omega (arith, both for_pop),
          omega (arith, both (for_close not_empty)),
        );
        push = inr (
          omega (arith, both (waiting not_full)),
          omega (arith, both for_push),
          omega (arith, both (for_close not_full)),
        );
      }
      one-Better not_full w v = record {
        pop = inr (
          omega (arith, both (waiting not_empty)),
          omega (arith, both for_pop),
          omega (arith, both (for_close not_empty)),
        );
        push = inr (
          omega (arith, both (waiting not_full)),
          omega (arith, both for_push),
          omega (arith, both (for_close not_full)),
        );
      }

    -- `notify_all`.
    all-Better : (c : Condition) → BroadcastWeights c p p' → Better ts (map (woken c) (set ts i p'))
    all-Better not_empty w =
        let kept = λ (v : Thread A → ℕ) (h : Untouched not_empty v).
          tally-map_eq v (woken not_empty) (set ts i p') h in
        record {
          pop = inl (
              tally-map_zero (waiting not_empty) (woken not_empty) (set ts i p')
                (woken_waits_not not_empty));
          push = inr (
            omega (arith, replaced (waiting not_full), kept (waiting not_full) not_empty-full),
            omega (arith, replaced for_push, kept for_push not_empty-push),
            omega (arith, replaced (for_close not_full), kept (for_close not_full) not_empty-close),
          );
        }
    all-Better not_full w =
        let kept = λ (v : Thread A → ℕ) (h : Untouched not_full v).
          tally-map_eq v (woken not_full) (set ts i p') h in
        record {
          pop = inr (
            omega (arith, replaced (waiting not_empty), kept (waiting not_empty) not_full-empty),
            omega (arith, replaced for_pop, kept for_pop not_full-pop),
            omega
                (arith, replaced (for_close not_empty), kept (for_close not_empty) not_full-close),
          );
          push = inl (
              tally-map_zero (waiting not_full) (woken not_full) (set ts i p')
                (woken_waits_not not_full));
        }

  Step-Awake :
      (x y : ℕ) {s t : System A} {ins outs : List A}
      → Inv s
      → Awake x y s
      → (st : Step s ins outs t) → Awake (x + late not_empty st) (y + late not_full st) t
  unfolding late
  Step-Awake x y {s} inv awake (runs i p p' m here moved) =
      Delta-Awake x y s awake i p p' here 0 0 m
        (next-Delta i s.shared m p p' moved (inv.fresh i p here))
  Step-Awake x y {s} inv awake (calls i p o here free) =
      Delta-Awake x y s awake i p (begin o) here 0 0 s.shared (calls-Delta s.shared p o free)
  Step-Awake x y {s} inv awake (times_out i p p' here e) =
      Delta-Awake x y s awake i p p' here _ _ s.shared (expired-Delta s.shared p p' e)
  Step-Awake x y {s} inv awake (wakes c i p here w) =
      Delta-Awake x y s awake i p (woken c p) here 0 0 s.shared (wakes-Delta s.shared c p w)
  Step-Awake x y {s} inv awake (notifies_one c i j p p' q here e there w) =
      let now : At (place s i p') j q =
        still_waits s c i j p p' q here (notifies_quiet c p p' e) there w in
      Better-Awake x y s _ awake (
        one-Better s.threads i p p' here j q (woken c q) now c (notifies-Weights c p p' e)
          (waiting-Weights c q w))
  Step-Awake x y {s} inv awake (notifies_nobody c i p p' here e none_waits) =
      Better-Awake x y s _ awake
        (nobody-Better s.threads i p p' here c (notifies-Weights c p p' e) none_waits)
  Step-Awake x y {s} inv awake (notifies_all c i p p' here e) =
      Better-Awake x y s _ awake (all-Better s.threads i p p' here c (broadcasts-Weights c p p' e))

  Run-Awake :
      {s t : System A} {ins outs : List A}
      → Inv s
      → Awake 0 0 s
      → (r : Run s ins outs t) → Awake (lates not_empty r) (lates not_full r) t
  unfolding lates
  Run-Awake inv awake start = awake
  Run-Awake inv awake (later r st _ _) =
      Step-Awake (lates not_empty r) (lates not_full r) (Run-Inv inv r) (Run-Awake inv awake r) st

  pub reach-Awake :
      (capacity n : ℕ) {t : System A} {ins outs : List A} (r : Run (initial capacity n) ins outs t)
      → Awake (lates not_empty r) (lates not_full r) t
  reach-Awake capacity n r = Run-Awake (initial-Inv capacity n) (initial-Awake A capacity n) r
