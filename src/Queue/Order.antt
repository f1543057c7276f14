-- ===== src/Queue/Order.antt =====
-- One producer and one consumer: in which order items are sent and received.
use cmake_sample.Common.{
  ℕ, ◌≤◌, ◌≡◌, ◌≢◌, inl, inr, refl, sym, ap, ◌∙◌, true, false, some, List, [], ◌++◌, set, tally,
  append-nil, append_assoc, get_elem?, get_elem?-set_self, get_elem?-set_ne, get_elem?-map,
  Bool-cases, Option-cases, map, replicate,
}
use native.Mathlib.Decide.{ℕ_discrete}
use cmake_sample.Queue.{Thread, Operation, idle, begin}
use cmake_sample.Queue.System.{
  System, Condition, Step, runs, calls, times_out, wakes, notifies_one, notifies_nobody,
  notifies_all, Run, start, later, woken, is_free, At, place,
}
use cmake_sample.Queue.Safety.{initial, idle_of_initial, still_waits, notifies_quiet}
use cmake_sample.Queue.Contract.{fifo}
use cmake_sample.Queue.Returns.{Side, putting, taking, moved, Step-returns, returns}
use cmake_sample.Queue.Delivery.{refused, all_delivered}
use cmake_sample.Queue.Hands.{
  items_of, in_hand, asks, StepBy, OnlyBy, works, IsEven, paid_for, next-IsEven, notifies-IsEven,
  broadcasts-IsEven, expired-IsEven, woken-IsEven, free-in_hand, begin-in_hand, begin-works,
  idle_lem, nothing_moved, moved-append, items_of-append, hand, woken_all-hand,
}

module _ {ℓ} {A : Type ℓ} where
  abbrev Quiet : Side → ℕ → System A → Type ℓ
  Quiet side c s = (j : ℕ) (p : Thread A) → At s j p → j ≢ c → works side p ≡ false

  module _ (side : Side) (c : ℕ) where
    place-Quiet :
        (s : System A) (i : ℕ) (p q : Thread A)
        → Quiet side c s
        → At s i p
        → (i ≢ c → works side p ≡ false → works side q ≡ false)
        → Quiet side c (place s i q)
    place-Quiet s i p q quiet here stays j p' there away = elim (ℕ_discrete i j) [
      | yes same ↦
          let self = get_elem?-set_self s.threads i q p here in
          let now : p' ≡ q = cc in
          let apart : i ≢ c = λ e. away (sym same ∙ e) in
          rw now (stays apart (quiet i p here apart))
      | no other ↦ quiet j p' (sym (get_elem?-set_ne s.threads i j q other) ∙ there) away
    ]

    -- A thread goes from `p` to `q`: what it had in hand and what it moves is what it returns for
    -- and what it has in hand then.
    place-even :
        (s : System A) (i : ℕ) (p q : Thread A) (m k : List A)
        → Quiet side c s
        → At s i p
        → in_hand side p ++ m ≡ k ++ in_hand side q
        → (works side p ≡ false → (m ≡ []) × (k ≡ []))
        → hand side c s ++ m ≡ k ++ hand side c (place s i q)
    place-even s i p q m k quiet here even idles = elim (ℕ_discrete i c) [
      | yes same ↦
          let before : get_elem? s.threads c ≡ some p = rw same at here in
          let after : get_elem? (set s.threads i q) c ≡ some q =
            rw (sym same) (get_elem?-set_self s.threads i q p here) in
          rw (before, after) even
      | no other ↦
          let (nothing, none_paid) = idles (quiet i p here other) in
          let kept = get_elem?-set_ne s.threads i c q other in
          rw (nothing, none_paid, kept) (append-nil (hand side c s))
    ]

    place-IsEven :
        (s : System A) (i : ℕ) (p q : Thread A) (m k : List A)
        → Quiet side c s
        → At s i p
        → IsEven side p q m k
        → Quiet side c (place s i q) × (hand side c s ++ m ≡ k ++ hand side c (place s i q))
    place-IsEven s i p q m k quiet here (even, idles) = (
      place-Quiet s i p q quiet here (λ _ h. (idles h).2),
      place-even s i p q m k quiet here even (λ h. ((idles h).0, (idles h).1)),
    )

    calls-even :
        (s : System A) (i : ℕ) (p : Thread A) (o : Operation A)
        → Quiet side c s
        → At s i p
        → is_free p ≡ true
        → (asks side o ≡ true → i ≡ c)
        → Quiet side c (place s i (begin o))
          × (hand side c s ++ [] ≡ hand side c (place s i (begin o)))
    calls-even s i p o quiet here free mine = (
      place-Quiet s i p (begin o) quiet here (λ apart _. elim (Bool-cases (asks side o)) [
        | inl asked ↦ absurd (apart (mine asked))
        | inr other ↦ begin-works side o ∙ other
      ]),
      place-even s i p (begin o) [] [] quiet here
          (rw (free-in_hand side p free, begin-in_hand side o) refl) (λ _. (refl, refl)),
    )

    woken_all-even :
        (d : Condition) (s : System A)
        → Quiet side c s
        → let t : System A = record s { threads = map (woken d) s.threads } in
          Quiet side c t × (hand side c t ≡ hand side c s)
    woken_all-even d s quiet = (
      λ j q there away.
          let (p, old, eq) = get_elem?-map (woken d) s.threads j q there in
          let (_, idles) = woken-IsEven side d p in rw eq (idles (quiet j p old away)).2,
      woken_all-hand side c d s,
    )

    Step-even :
        {s t : System A} {ins outs : List A} (st : Step s ins outs t)
        → Quiet side c s
        → StepBy side c st
        → Quiet side c t
          × (hand side c s ++ moved side ins outs
              ≡ items_of side (Step-returns st) ++ hand side c t)
    unfolding StepBy Step-returns items_of
    Step-even {s} (runs i p p' m here moved) quiet by =
        place-IsEven s i p p' _ _ quiet here (next-IsEven side i s.shared m p p' moved)
    Step-even {s} (calls i p o here free) quiet by =
        rw (nothing_moved side) (calls-even s i p o quiet here free by)
    Step-even {s} (times_out i p p' here e) quiet by =
        rw (nothing_moved side)
          (place-IsEven s i p p' [] [] quiet here (expired-IsEven side p p' e))
    Step-even {s} (wakes d i p here w) quiet by =
        rw (nothing_moved side)
          (place-IsEven s i p (woken d p) [] [] quiet here (woken-IsEven side d p))
    Step-even {s} (notifies_one d i j p p' q here e there w) quiet by =
        let (quiet', even) =
          place-IsEven s i p p' [] _ quiet here (notifies-IsEven side d p p' e) in
        let still = still_waits s d i j p p' q here (notifies_quiet d p p' e) there w in
        let (quiet'', even') =
          place-IsEven (place s i p') j q (woken d q) [] [] quiet' still (woken-IsEven side d q) in
        (
          quiet'',
          rw (nothing_moved side)
              (even ∙ ap (◌++◌ (paid_for side p p')) (sym (append-nil _) ∙ even')),
        )
    Step-even {s} (notifies_nobody d i p p' here e none_waits) quiet by =
        rw (nothing_moved side)
          (place-IsEven s i p p' [] _ quiet here (notifies-IsEven side d p p' e))
    Step-even {s} (notifies_all d i p p' here e) quiet by =
        let (quiet', even) =
          place-IsEven s i p p' [] _ quiet here (broadcasts-IsEven side d p p' e) in
        let (quiet'', same) = woken_all-even d (place s i p') quiet' in
        (quiet'', rw (nothing_moved side) (even ∙ ap (◌++◌ (paid_for side p p')) (sym same)))

    Run-even :
        (capacity n : ℕ) {s : System A} {ins outs : List A}
        (r : Run (initial capacity n) ins outs s)
        → OnlyBy side c r
        → Quiet side c s × (moved side ins outs ≡ items_of side (returns r) ++ hand side c s)
    unfolding OnlyBy returns items_of initial
    Run-even capacity n start by = (
      λ j p here away. rw (idle_of_initial n j p here) (idle_lem side).0,
      elim (Option-cases (get_elem? (replicate {A = Thread A} n idle) c)) [
        | inl nobody ↦ rw (nobody, nothing_moved side) refl
        | inr (p, here) ↦
            rw (here, idle_of_initial n c p here, (idle_lem side).1, nothing_moved side) refl
      ],
    )
    Run-even capacity n (later {ins} {outs} {i} {o} {t = mid} {u = v} r st e f) (by, now) =
        let (quiet, before) = Run-even capacity n r by in
        let (quiet', even) = Step-even st quiet now in
        (
          quiet',
          rw (e, f)
              (cc (
                before,
                even,
                moved-append side ins outs i o,
                items_of-append side (returns r) (Step-returns st),
                append_assoc (items_of side (returns r)) (hand side c mid) (moved side i o),
                append_assoc (items_of side (returns r)) (items_of side (Step-returns st))
                    (hand side c v),
              )),
        )

    empty_hand :
        (s : System A) → ((i : ℕ) (p : Thread A) → At s i p → is_free p ≡ true) → hand side c s ≡ []
    empty_hand s free = elim (Option-cases (get_elem? s.threads c)) [
      | inl nobody ↦ rw nobody refl
      | inr (p, here) ↦ rw here (free-in_hand side p (free c p here))
    ]

  -- One producer and one consumer, in whatever order they take their steps. The items that the
  -- producer's calls returned true for, in the order of these returns, are those that the
  -- consumer's calls returned, in theirs, and behind them those that the consumer has taken and
  -- still has to return, those in the queue, and those that the producer has put in and still has
  -- to return for. So once a `pop` without a time limit has returned false and both are outside of the queue,
  -- the consumer has received exactly what the producer has sent, in the same order.
  pub in_order :
      (capacity n producer consumer : ℕ) {s : System A} {ins outs : List A}
      (r : Run (initial capacity n) ins outs s)
      → OnlyBy putting producer r
      → OnlyBy taking consumer r
      → let sent = items_of putting (returns r) in
        let received = items_of taking (returns r) in
        (sent ++ hand putting producer s ≡ (received ++ hand taking consumer s) ++ s.shared.items)
        × (1 ≤ tally refused (returns r)
            → ((i : ℕ) (p : Thread A) → At s i p → is_free p ≡ true)
            → sent ≡ received)
  in_order capacity n producer consumer {s} r puts takes =
      let (_, sends) = Run-even putting producer capacity n r puts in
      let (_, receives) = Run-even taking consumer capacity n r takes in
      (
        rw (sym receives, sym sends) (fifo capacity n r),
        λ gave_up free.
            let (same, _) = all_delivered capacity n r gave_up in
            let none_sent = empty_hand putting producer s free in
            let none_taken = empty_hand taking consumer s free in
            cc
              (append-nil (items_of putting (returns r)), append-nil (items_of taking (returns r))),
      )
