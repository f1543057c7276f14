-- ===== src/Queue/Timed.antt =====
-- The operations that nobody else has to end return: `push_for`, `pop_for`, `close`, `closed` and
-- `size`.
use cmake_sample.Common.{
  ℕ, zero, suc, ◌+◌, ◌≤◌, ◌≡◌, ◌≢◌, ◌⊎◌, inl, inr, refl, ap, ◌∙◌, true, none, some, List, set,
  arith, get_elem?, Option-cases, get_elem?-set_self, get_elem?-set_ne,
}
use native.Mathlib.Decide.{ℕ_discrete}
use cmake_sample.Queue.{Thread, Outcome, finished, next}
use cmake_sample.Queue.System.{System, Step, runs, Run, At}
use cmake_sample.Queue.Mutex.{holds, Inv, next-held}
use cmake_sample.Queue.Safety.{initial, reach-Inv, Step-Inv}
use cmake_sample.Queue.Progress.{holder-moves}
use cmake_sample.Queue.Nearer.{
  ends_itself, is_done, to_go, to_unlock, to_go_le, to_unlock_le, next-to_unlock, IsOpen, advance,
  mover,
}

module _ {ℓ} {A : Type ℓ} where
  -- Steps of this thread, and of others that have the mutex at that moment, and how many.
  pub data Unhelped (i : ℕ) (s : System A) : ℕ → System A → Type ℓ where
    still : Unhelped i s 0 s
    after :
        {k : ℕ} {t u : System A} {ins outs : List A}
        → Unhelped i s k t
        → (st : Step t ins outs u) (j : ℕ) → mover st ≡ some j
        → (j ≡ i) ⊎ (t.shared.owner ≡ some j)
        → Unhelped i s (suc k) u

  -- Steps one after the other.
  Unhelped-trans :
      {i : ℕ} {s t u : System A} {j k : ℕ}
      → Unhelped i s j t
      → Unhelped i t k u
      → Unhelped i s (k + j) u
  Unhelped-trans {j = j} a still = let e : 0 + j ≡ j = omega arith in rw e a
  Unhelped-trans {j = j} a (after {k = k} b st who moves own) =
      let e : suc k + j ≡ suc (k + j) = omega arith in
      rw e (after (Unhelped-trans a b) st who moves own)

  Unhelped-Inv : {i : ℕ} {s t : System A} {k : ℕ} → Inv s → Unhelped i s k t → Inv t
  Unhelped-Inv inv still = inv
  Unhelped-Inv inv (after u st who moves own) = Step-Inv (Unhelped-Inv inv u) st

  done_cases : (p : Thread A) → is_done p ≡ true → (o : Outcome A) × (p ≡ finished o)
  unfolding is_done
  done_cases (finished o) h = (o, refl)
  done_cases p h = cc

  to_go_pos : (p : Thread A) → ends_itself p ≡ true → 1 ≤ to_go p
  unfolding ends_itself to_go
  to_go_pos p h = ground arith

  to_unlock_pos : (p : Thread A) → 1 ≤ to_unlock p
  unfolding to_unlock
  to_unlock_pos p = ground arith

  -- Steps up to the return of this thread.
  abbrev pub Returns : ℕ → System A → ℕ → Type ℓ
  Returns n s i =
      (k : ℕ) × (t : System A) × (o : Outcome A) × (k ≤ n) × Unhelped i s k t × At t i (finished o)

  ends_soon :
      (n : ℕ) (s : System A)
      → Inv s
      → (i : ℕ) (p : Thread A) → At s i p
      → ends_itself p ≡ true
      → IsOpen i s
      → to_go p ≤ n
      → Returns n s i
  ends_soon zero s inv i p here own free h = absurd (omega (arith, to_go_pos p own))
  ends_soon (suc n) s inv i p here own free h =
      let (t, _, _, st, moves, p', here', (on_way, nearer), free') =
        advance s inv i p here own free in
      elim on_way [
        | inl own' ↦
            let (k, u, o, small, rest, there) =
              ends_soon n t (Step-Inv inv st) i p' here' own' free' (omega arith) in
            (
              k + 1,
              u,
              o,
              omega arith,
              Unhelped-trans (after still st i moves (inl refl)) rest,
              there,
            )
        | inr done ↦
            let (o, eq) = done_cases p' done in
            (1, t, o, omega arith, after still st i moves (inl refl), rw eq at here')
      ]

  -- Steps of the thread that has the mutex, up to `unlock`.
  unlocks_soon :
      (n : ℕ) (s : System A)
      → Inv s
      → (i j : ℕ) (p q : Thread A) → At s i p
      → At s j q
      → j ≢ i
      → holds q ≡ true
      → s.shared.owner ≡ some j
      → to_unlock q ≤ n
      → (k : ℕ) × (t : System A) × (k ≤ n) × Unhelped i s k t × At t i p × (t.shared.owner ≡ none)
  unfolding mover
  unlocks_soon zero s inv i j p q here there apart held owner h =
      absurd (omega (arith, to_unlock_pos q))
  unlocks_soon (suc n) s inv i j p q here there apart held owner h =
      elim (Option-cases (next j s.shared q)) [
        | inl stuck ↦ absurd (holder-moves s.shared j q held stuck)
        | inr ((m, q'), e) ↦
            let st : Step s _ _ _ = runs j q q' m there e in
            let here' : get_elem? (set s.threads j q') i ≡ some p =
              get_elem?-set_ne s.threads j i q' apart ∙ here in
            elim (next-to_unlock j s.shared m q q' e held) [
              | inl free ↦ (1, _, omega arith, after still st j refl (inr owner), here', free)
              | inr less ↦
                  elim (next-held j s.shared m q q' e held (inv.fresh j q there) inv.bounded).0 [
                    | inr (free, _) ↦
                        (1, _, omega arith, after still st j refl (inr owner), here', free)
                    | inl (kept, held') ↦
                        let (k, t, small, rest, stays, free) =
                          unlocks_soon n _ (Step-Inv inv st) i j p q' here'
                            (get_elem?-set_self s.threads j q' q there) apart held' (kept ∙ owner)
                            (omega arith) in
                        (
                          k + 1,
                          t,
                          omega arith,
                          Unhelped-trans (after still st j refl (inr owner)) rest,
                          stays,
                          free,
                        )
                  ]
            ]
      ]

  -- `push_for`, `pop_for`, `close`, `closed` and `size` need nobody else to push, pop or close. Take any state that
  -- threads can reach on a new queue, and a thread in one of these operations: it can return by at most eight
  -- steps, each of which it takes itself, as a statement or as the time-out of its wait, or is one of the thread that
  -- has the mutex at that moment. None of them is a call or a wake-up from outside.
  pub needs_nobody :
      (capacity n : ℕ) {s : System A} {ins outs : List A}
      → Run (initial capacity n) ins outs s
      → (i : ℕ) (p : Thread A) → At s i p
      → ends_itself p ≡ true
      → Returns 8 s i
  needs_nobody capacity n {s} r i p here own = elim (Option-cases s.shared.owner) [
    | inl free ↦ widen (ends_soon 5 s inv i p here own (inl free) (to_go_le p))
    | inr (j, taken) ↦ elim (ℕ_discrete j i) [
      | yes same ↦ widen (ends_soon 5 s inv i p here own (inr (taken ∙ ap some same)) (to_go_le p))
      | no other ↦
          let (q, there, held) = inv.backed j taken in
          let (k, t, small, before, here', free) =
            unlocks_soon 3 s inv i j p q here there other held taken (to_unlock_le q) in
          let (k', u, o, small', rest, done) =
            ends_soon 5 t (Unhelped-Inv inv before) i p here' own (inl free) (to_go_le p) in
          (k' + k, u, o, omega arith, Unhelped-trans before rest, done)
    ]
  ]
    where
      inv : Inv s
      inv = reach-Inv capacity n r

      widen : Returns 5 s i → Returns 8 s i
      widen (k, t, o, small, rest, done) = (k, t, o, omega arith, rest, done)
