-- ===== src/Queue/Nearer.antt =====
-- The next step of an operation that nobody else has to end: `push_for`, `pop_for`, `close`, `closed`
-- or `size`.
use cmake_sample.Common.{
  ℕ, ◌<◌, ◌≤◌, ◌≡◌, ◌≢◌, ◌⊎◌, inl, inr, refl, ap, ◌∙◌, Bool, true, false, Option, none, some, List,
  set, arith, tally, find_tally, Option-cases, get_elem?-set_self, get_elem?-set_ne, map-get_elem?,
}
use native.Mathlib.Decide.{dec_lt, ℕ_discrete}
use cmake_sample.Queue.{
  Shared, Thread, pushing, popping, closing, asking, reading, finished, enter, test, wait, wake,
  expire, act, unlock, refuse, notify, close_enter, close_set, close_unlock, notify_not_empty,
  notify_not_full, next,
}
use cmake_sample.Queue.System.{
  System, Condition, Step, runs, times_out, notifies_one, notifies_nobody, notifies_all, At, place,
  woken, waiting, expired, notifies, broadcasts,
}
use cmake_sample.Queue.Mutex.{holds, IsFresh, Inv}
use cmake_sample.Queue.Safety.{still_waits, notifies_quiet, quiet_everywhere}
use cmake_sample.Queue.Deadlock.{waiting-cases}

module _ {ℓ} {A : Type ℓ} where
  -- In one of these operations.
  unfoldable pub ends_itself : Thread A → Bool
  ends_itself (pushing true x at) = true
  ends_itself (popping true out at) = true
  ends_itself (closing at) = true
  ends_itself (asking q) = true
  ends_itself (reading q) = true
  ends_itself p = false

  unfoldable pub is_done : Thread A → Bool
  is_done (finished o) = true
  is_done p = false

  -- The steps up to the return, at most, where nobody else has the mutex.
  unfoldable pub to_go : Thread A → ℕ
  to_go (pushing d x enter) = 5
  to_go (pushing d x wake) = 5
  to_go (pushing d x test) = 4
  to_go (pushing d x wait) = 3
  to_go (pushing d x act) = 3
  to_go (pushing d x expire) = 2
  to_go (pushing d x unlock) = 2
  to_go (pushing d x refuse) = 1
  to_go (pushing d x notify) = 1
  to_go (popping d out enter) = 5
  to_go (popping d out wake) = 5
  to_go (popping d out test) = 4
  to_go (popping d out wait) = 3
  to_go (popping d out act) = 3
  to_go (popping d out expire) = 2
  to_go (popping d out unlock) = 2
  to_go (popping d out refuse) = 1
  to_go (popping d out notify) = 1
  to_go (closing close_enter) = 5
  to_go (closing close_set) = 4
  to_go (closing close_unlock) = 3
  to_go (closing notify_not_empty) = 2
  to_go (closing notify_not_full) = 1
  to_go (asking q) = 2
  to_go (reading q) = 1
  to_go p = 0

  -- The steps up to `unlock`, for a thread that has the mutex.
  unfoldable pub to_unlock : Thread A → ℕ
  to_unlock (pushing d x test) = 3
  to_unlock (popping d out test) = 3
  to_unlock (pushing d x act) = 2
  to_unlock (popping d out act) = 2
  to_unlock (closing close_set) = 2
  to_unlock p = 1

  pub to_go_le : (p : Thread A) → to_go p ≤ 5
  unfolding to_go
  to_go_le p = ground arith

  pub to_unlock_le : (p : Thread A) → to_unlock p ≤ 3
  unfolding to_unlock
  to_unlock_le p = ground arith

  -- On the way, or there, and nearer.
  abbrev IsNearer : Thread A → Thread A → Type 0
  IsNearer p p' = ((ends_itself p' ≡ true) ⊎ (is_done p' ≡ true)) × (to_go p' < to_go p)

  next-IsNearer :
      (i : ℕ) (m m' : Shared A) (p p' : Thread A)
      → next i m p ≡ some (m', p')
      → IsFresh m p
      → ends_itself p ≡ true
      → IsNearer p p'
  unfolding next ends_itself is_done to_go
  next-IsNearer i m m' (popping d out act) p' e f h = ground arith
  next-IsNearer i m m' (pushing d x test) p' e f h = ground arith
  next-IsNearer i m m' (popping d out test) p' e f h = ground arith
  next-IsNearer i m m' p p' e f h = ground arith

  expired-IsNearer : (p p' : Thread A) → expired p ≡ some p' → IsNearer p p'
  unfolding expired ends_itself is_done to_go
  expired-IsNearer p p' e = ground arith

  notifies-IsNearer : (c : Condition) (p p' : Thread A) → notifies p ≡ some (c, p') → IsNearer p p'
  unfolding notifies ends_itself is_done to_go
  notifies-IsNearer c p p' e = ground arith

  broadcasts-IsNearer :
      (c : Condition) (p p' : Thread A)
      → broadcasts p ≡ some (c, p')
      → IsNearer p p' × (woken c p' ≡ p')
  unfolding broadcasts ends_itself is_done to_go woken
  broadcasts-IsNearer c p p' e = ground arith

  -- It moves by itself, unless somebody else has the mutex.
  moves_itself :
      (m : Shared A) (i : ℕ) (p : Thread A)
      → ends_itself p ≡ true
      → (m.owner ≡ none) ⊎ (holds p ≡ true)
      → next i m p ≡ none
      → expired p ≡ none
      → notifies p ≡ none
      → broadcasts p ≢ none
  unfolding ends_itself next expired notifies broadcasts
  moves_itself m i (pushing d x test) h o n e k b = ground arith
  moves_itself m i (popping d out test) h o n e k b = ground arith
  moves_itself m i p h o n e k b = ground arith

  next-owner :
      (i : ℕ) (m m' : Shared A) (p p' : Thread A)
      → next i m p ≡ some (m', p')
      → (m.owner ≡ none) ⊎ (m.owner ≡ some i)
      → (m'.owner ≡ none) ⊎ (m'.owner ≡ some i)
  unfolding next
  next-owner i m m' p p' e o = ground arith

  pub next-to_unlock :
      (i : ℕ) (m m' : Shared A) (p p' : Thread A)
      → next i m p ≡ some (m', p')
      → holds p ≡ true
      → (m'.owner ≡ none) ⊎ (to_unlock p' < to_unlock p)
  unfolding next to_unlock
  next-to_unlock i m m' p p' e h = ground arith

  -- Nobody else has the mutex.
  abbrev pub IsOpen : ℕ → System A → Type 0
  IsOpen i s = (s.shared.owner ≡ none) ⊎ (s.shared.owner ≡ some i)

  -- The thread that takes a step by itself: no call, and no wake-up from outside.
  unfoldable pub mover : {s t : System A} {ins outs : List A} → Step s ins outs t → Option ℕ
  mover (runs i p p' m here e) = some i
  mover (times_out i p p' here e) = some i
  mover (notifies_one c i j p p' q here e there w) = some i
  mover (notifies_nobody c i p p' here e none_waits) = some i
  mover (notifies_all c i p p' here e) = some i
  mover st = none

  -- A step that this thread takes, and that brings it nearer to its return.
  abbrev pub Advance : System A → ℕ → Thread A → Type ℓ
  Advance s i p =
      (t : System A) × (ins : List A) × (outs : List A) × (st : Step s ins outs t) × (mover st
        ≡ some i)
      × (p' : Thread A) × At t i p'
      × IsNearer p p'
      × IsOpen i t

  notifies-Advance :
      (s : System A) (i : ℕ) (c : Condition) (p p' : Thread A)
      → At s i p
      → notifies p ≡ some (c, p')
      → IsOpen i s
      → Advance s i p
  unfolding mover
  notifies-Advance s i c p p' here e free = elim (dec_lt 0 (tally (waiting c) s.threads)) [
    | no nobody ↦ (
      _,
      _,
      _,
      notifies_nobody c i p p' here e (omega arith),
      refl,
      p',
      get_elem?-set_self s.threads i p' p here,
      notifies-IsNearer c p p' e,
      free,
    )
    | yes somebody ↦
        let (j, q, there, w) = find_tally (waiting c) s.threads somebody in
        let waits : waiting c q ≡ 1 = ground (arith, waiting-cases c q) in
        let still_there = still_waits s c i j p p' q here (notifies_quiet c p p' e) there waits in
        (
          _,
          _,
          _,
          notifies_one c i j p p' q here e there waits,
          refl,
          p',
          keeps j q there waits,
          notifies-IsNearer c p p' e,
          free,
        )
  ]
    where
      keeps :
          (j : ℕ) (q : Thread A)
          → At s j q
          → waiting c q ≡ 1
          → At (place (place s i p') j (woken c q)) i p'
      keeps j q there waits = elim (ℕ_discrete j i) [
        | yes same ↦
            let eq : q ≡ p = cc in
            let quiet = quiet_everywhere c p (notifies_quiet c p p' e) in
            absurd (omega (arith, ap (waiting c) eq))
        | no other ↦
            get_elem?-set_ne (set s.threads i p') j i (woken c q) other
            ∙ get_elem?-set_self s.threads i p' p here
      ]

  pub advance :
      (s : System A)
      → Inv s
      → (i : ℕ) (p : Thread A) → At s i p
      → ends_itself p ≡ true
      → IsOpen i s
      → Advance s i p
  unfolding mover
  advance s inv i p here own free = elim (Option-cases (next i s.shared p)) [
    | inr ((m, p'), e) ↦ (
      _,
      _,
      _,
      runs i p p' m here e,
      refl,
      p',
      get_elem?-set_self s.threads i p' p here,
      next-IsNearer i s.shared m p p' e (inv.fresh i p here) own,
      next-owner i s.shared m p p' e free,
    )
    | inl stuck ↦ elim (Option-cases (expired p)) [
      | inr (p', e) ↦ (
        _,
        _,
        _,
        times_out i p p' here e,
        refl,
        p',
        get_elem?-set_self s.threads i p' p here,
        expired-IsNearer p p' e,
        free,
      )
      | inl waits_on ↦ elim (Option-cases (notifies p)) [
        | inr ((c, p'), e) ↦ notifies-Advance s i c p p' here e free
        | inl silent ↦ elim (Option-cases (broadcasts p)) [
          | inr ((c, p'), e) ↦
              let (nearer, same) = broadcasts-IsNearer c p p' e in
              (
                _,
                _,
                _,
                notifies_all c i p p' here e,
                refl,
                p',
                (rw same at (
                    map-get_elem? (woken c) (set s.threads i p') i p'
                      (get_elem?-set_self s.threads i p' p here))),
                nearer,
                free,
              )
          | inl mute ↦ absurd (moves_itself s.shared i p own (mine free) stuck waits_on silent mute)
        ]
      ]
    ]
  ]
    where
      mine : IsOpen i s → (s.shared.owner ≡ none) ⊎ (holds p ≡ true)
      mine (inl none_has) = inl none_has
      mine (inr i_have) =
          let (q, there, held) = inv.backed i i_have in let eq : q ≡ p = cc in inr (rw eq at held)
