-- ===== src/Queue/Closing.antt =====
-- After `close` every operation comes to its end.
use cmake_sample.Common.{
  ℕ, suc, ◌+◌, ◌*◌, ◌<◌, ◌≤◌, ◌≡◌, ◌⊎◌, inl, inr, refl, Bool, true, false, some, List, length, set,
  arith, tally, tally-set, tally-map_le, tally-bound, le-tally, find_tally, get_elem?,
  if◌then◌else◌,
}
use native.Mathlib.Decide.{dec_lt}
use cmake_sample.Queue.{
  Shared, Thread, pushing, popping, closing, asking, reading, enter, test, wait, wake, expire, act,
  unlock, refuse, notify, close_enter, close_set, close_unlock, notify_not_empty, notify_not_full,
  next,
}
use cmake_sample.Queue.System.{
  System, Condition, Step, runs, calls, times_out, wakes, notifies_one, notifies_nobody,
  notifies_all, Run, later, At, place, woken, waiting, expired, notifies, broadcasts, is_free,
}
use cmake_sample.Queue.Safety.{initial, reach-Inv, Step-effect, still_waits, notifies_quiet}
use cmake_sample.Queue.Progress.{CanMove}
use cmake_sample.Queue.Deadlock.{busy-CanMove, closed-IsReady}

module _ {ℓ} {A : Type ℓ} where
  -- How many steps of its own a thread is from its return, at most, on a closed queue.
  unfoldable rank : Thread A → ℕ
  rank (pushing d x enter) = 5
  rank (pushing d x test) = 4
  rank (pushing d x wait) = 6
  rank (pushing d x wake) = 5
  rank (pushing d x expire) = 4
  rank (pushing d x act) = 3
  rank (pushing d x unlock) = 2
  rank (pushing d x refuse) = 3
  rank (pushing d x notify) = 1
  rank (popping d out enter) = 5
  rank (popping d out test) = 4
  rank (popping d out wait) = 6
  rank (popping d out wake) = 5
  rank (popping d out expire) = 4
  rank (popping d out act) = 3
  rank (popping d out unlock) = 2
  rank (popping d out refuse) = 3
  rank (popping d out notify) = 1
  rank (closing close_enter) = 5
  rank (closing close_set) = 4
  rank (closing close_unlock) = 3
  rank (closing notify_not_empty) = 2
  rank (closing notify_not_full) = 1
  rank (asking q) = 2
  rank (reading q) = 1
  rank p = 0

  rank_le : (p : Thread A) → rank p ≤ 6
  unfolding rank
  rank_le p = ground arith

  next-rank :
      (i : ℕ) (m m' : Shared A) (p p' : Thread A)
      → next i m p ≡ some (m', p')
      → m.closed ≡ true
      → rank p' < rank p
  unfolding next rank
  next-rank i m m' p p' e shut = ground arith

  notifies-rank : (c : Condition) (p p' : Thread A) → notifies p ≡ some (c, p') → rank p' < rank p
  unfolding notifies rank
  notifies-rank c p p' e = ground arith

  broadcasts-rank :
      (c : Condition) (p p' : Thread A) → broadcasts p ≡ some (c, p') → rank p' < rank p
  unfolding broadcasts rank
  broadcasts-rank c p p' e = ground arith

  expired-rank : (p p' : Thread A) → expired p ≡ some p' → rank p' < rank p
  unfolding expired rank
  expired-rank p p' e = ground arith

  waiting-rank : (c : Condition) (p : Thread A) → waiting c p ≡ 1 → rank (woken c p) < rank p
  unfolding waiting woken rank
  waiting-rank c p e = ground arith

  woken-rank : (c : Condition) (p : Thread A) → rank (woken c p) ≤ rank p
  unfolding woken rank
  woken-rank c p = ground arith

  unfoldable pub is_call : {s t : System A} {ins outs : List A} → Step s ins outs t → Bool
  is_call (calls i p o here free) = true
  is_call st = false

  abbrev ranks : System A → ℕ
  ranks s = tally rank s.threads

  place-ranks :
      (s : System A) (i : ℕ) (p q : Thread A)
      → At s i p
      → rank q < rank p
      → tally rank (set s.threads i q) < ranks s
  place-ranks s i p q here h = omega (arith, tally-set rank s.threads i p q here)

  Step-ranks :
      {s t : System A} {ins outs : List A} (st : Step s ins outs t)
      → is_call st ≡ false
      → s.shared.closed ≡ true
      → ranks t < ranks s
  unfolding is_call
  Step-ranks {s} (runs i p p' m here e) k shut =
      place-ranks s i p p' here (next-rank i s.shared m p p' e shut)
  Step-ranks {s} (calls i p o here free) k shut = cc
  Step-ranks {s} (times_out i p p' here e) k shut = place-ranks s i p p' here (expired-rank p p' e)
  Step-ranks {s} (wakes c i p here w) k shut =
      place-ranks s i p (woken c p) here (waiting-rank c p w)
  Step-ranks {s} (notifies_one c i j p p' q here e there w) k shut =
      let notified = place-ranks s i p p' here (notifies-rank c p p' e) in
      let still : At (place s i p') j q =
        still_waits s c i j p p' q here (notifies_quiet c p p' e) there w in
      let waked = place-ranks (place s i p') j q (woken c q) still (waiting-rank c q w) in
      omega arith
  Step-ranks {s} (notifies_nobody c i p p' here e none_waits) k shut =
      place-ranks s i p p' here (notifies-rank c p p' e)
  Step-ranks {s} (notifies_all c i p p' here e) k shut =
      let told = place-ranks s i p p' here (broadcasts-rank c p p' e) in
      let others = tally-map_le rank (woken c) (set s.threads i p') (woken-rank c) in omega arith

  -- Steps in which no thread calls a further operation, and how many.
  pub data Unasked (s : System A) : ℕ → System A → Type ℓ where
    still : Unasked s 0 s
    after :
        {k : ℕ} {t u : System A} {ins outs : List A}
        → Unasked s k t
        → (st : Step t ins outs u) → is_call st ≡ false
        → Unasked s (suc k) u

  -- They lead on from a run, keep the queue closed, and use up the ranks.
  Unasked-ends :
      (capacity n : ℕ) {s t : System A} {ins outs : List A} {k : ℕ}
      → Run (initial capacity n) ins outs s
      → s.shared.closed ≡ true
      → Unasked s k t
      → (ins' : List A) × (outs' : List A) × Run (initial capacity n) ins' outs' t
        × (t.shared.closed ≡ true)
        × (k + ranks t ≤ ranks s)
  Unasked-ends capacity n r shut still = (_, _, r, shut, omega arith)
  Unasked-ends capacity n r shut (after u st k) =
      let (ins', outs', r', shut', b) = Unasked-ends capacity n r shut u in
      let now = Step-ranks st k shut' in
      let (_, _, keeps) = Step-effect (reach-Inv capacity n r') st in
      (_, _, later r' st refl refl, (keeps shut').1, omega arith)

  busy : Thread A → ℕ
  busy p = if is_free p then 0 else 1

  all_free_or_busy :
      (ts : List (Thread A))
      → ((i : ℕ) (p : Thread A) → get_elem? ts i ≡ some p → is_free p ≡ true)
        ⊎ ((i : ℕ) × (p : Thread A) × (get_elem? ts i ≡ some p) × (is_free p ≡ false))
  unfolding busy
  all_free_or_busy ts = elim (dec_lt 0 (tally busy ts)) [
    | yes h ↦ let (i, p, here, b) = find_tally busy ts h in inr (i, p, here, ground arith)
    | no h ↦ inl (λ i p here. let small = le-tally busy ts i p here in ground arith)
  ]

  -- After `close` every operation returns. Let threads take steps on a closed queue that they can
  -- reach, with wake-ups and time-outs at any moment but without further calls. There are at most
  -- six such steps for each thread, the queue stays closed, and as long as some thread is in an
  -- operation, one of them can take a step. So whatever the order, soon all have returned.
  pub close_ends_all :
      (capacity n : ℕ) {s t : System A} {ins outs : List A} {k : ℕ}
      → Run (initial capacity n) ins outs s
      → s.shared.closed ≡ true
      → Unasked s k t
      → (k ≤ 6 * length s.threads)
        × (t.shared.closed ≡ true)
        × (((i : ℕ) (p : Thread A) → At t i p → is_free p ≡ true)
            ⊎ ((j : ℕ) × (q : Thread A) × At t j q × CanMove t.shared j q))
  close_ends_all capacity n {s} {t} r shut u =
      let (_, _, r', shut', b) = Unasked-ends capacity n r shut u in
      (
        omega (arith, tally-bound rank 6 s.threads rank_le),
        shut',
        (elim (all_free_or_busy t.threads) [
          | inl free ↦ inl free
          | inr (i, p, here, b) ↦
              inr (busy-CanMove capacity n r' i p here b (λ c w. closed-IsReady _ c t.shared shut'))
        ]),
      )
