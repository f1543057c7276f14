-- ===== src/Queue/System.antt =====
-- All threads on one queue: what the condition variables do, the steps, and the runs.
use cmake_sample.Common.{
  ℕ, ◌≡◌, Bool, true, false, Option, none, some, List, [], ◌∷◌, ◌++◌, map, set, get_elem?, tally,
}
use cmake_sample.Queue.{
  Shared, Thread, Operation, idle, pushing, popping, closing, finished, wait, wake, expire, act,
  notify, notify_not_empty, notify_not_full, pushed, popped, closed_all, begin, next,
}

-- `cv_not_full_` and `cv_not_empty_`.
pub data Condition : Type 0 where
  not_full not_empty : Condition

pub record System {ℓ} (A : Type ℓ) : Type ℓ where
  pub shared : Shared A
  pub threads : List (Thread A)

module _ {ℓ} {A : Type ℓ} where
  -- 1 for a thread that is blocked in the condition variable.
  unfoldable pub waiting : Condition → Thread A → ℕ
  waiting not_full (pushing d x wait) = 1
  waiting not_empty (popping d out wait) = 1
  waiting c p = 0

  -- A thread that leaves the condition variable, if it is in it, after a notification or by itself.
  unfoldable pub woken : Condition → Thread A → Thread A
  woken not_full (pushing d x wait) = pushing d x wake
  woken not_empty (popping d out wait) = popping d out wake
  woken c p = p

  -- The deadline of `timed_wait` has passed, before or after a notification: a thread that was
  -- notified and has yet to take the lock again may find so, and then `timed_wait` returns false.
  unfoldable pub expired : Thread A → Option (Thread A)
  expired (pushing true x wait) = some (pushing true x expire)
  expired (pushing true x wake) = some (pushing true x expire)
  expired (popping true out wait) = some (popping true out expire)
  expired (popping true out wake) = some (popping true out expire)
  expired p = none

  -- `notify_one` behind `push` and `pop`, and the thread after it.
  unfoldable pub notifies : Thread A → Option (Condition × Thread A)
  notifies (pushing d x notify) = some (not_empty, finished (pushed true))
  notifies (popping d out notify) = some (not_full, finished (popped out))
  notifies p = none

  -- The two calls of `notify_all` in `close`, and the thread after each.
  unfoldable pub broadcasts : Thread A → Option (Condition × Thread A)
  broadcasts (closing notify_not_empty) = some (not_empty, closing notify_not_full)
  broadcasts (closing notify_not_full) = some (not_full, finished closed_all)
  broadcasts p = none

  unfoldable pub is_free : Thread A → Bool
  is_free idle = true
  is_free (finished o) = true
  is_free p = false

  -- The item that a thread's next statement puts into the queue, and the one that it takes out.
  unfoldable pub put : Thread A → List A
  put (pushing d x act) = x ∷ []
  put p = []

  abbrev front : List A → List A
  front [] = []
  front (x ∷ rest) = x ∷ []

  unfoldable pub taken : Shared A → Thread A → List A
  taken m (popping d out act) = front m.items
  taken m p = []

  abbrev pub At : System A → ℕ → Thread A → Type ℓ
  At s i p = get_elem? s.threads i ≡ some p

  abbrev pub place : System A → ℕ → Thread A → System A
  place s i p = record s { threads = set s.threads i p }

  -- A step, with the items that it puts in and takes out.
  pub data Step (s : System A) : List A → List A → System A → Type ℓ where
    runs :
        (i : ℕ) (p p' : Thread A) (m : Shared A)
        → At s i p
        → next i s.shared p ≡ some (m, p')
        → Step s (put p) (taken s.shared p) (record { shared = m; threads = set s.threads i p' })
    calls :
        (i : ℕ) (p : Thread A) (o : Operation A)
        → At s i p
        → is_free p ≡ true
        → Step s [] [] (place s i (begin o))
    times_out :
        (i : ℕ) (p p' : Thread A) → At s i p → expired p ≡ some p' → Step s [] [] (place s i p')
    -- A spurious wake-up.
    wakes :
        (c : Condition) (i : ℕ) (p : Thread A)
        → At s i p
        → waiting c p ≡ 1
        → Step s [] [] (place s i (woken c p))
    -- `notify_one` wakes any one waiter, where there is one.
    notifies_one :
        (c : Condition) (i j : ℕ) (p p' q : Thread A)
        → At s i p
        → notifies p ≡ some (c, p')
        → At s j q
        → waiting c q ≡ 1
        → Step s [] [] (place (place s i p') j (woken c q))
    notifies_nobody :
        (c : Condition) (i : ℕ) (p p' : Thread A)
        → At s i p
        → notifies p ≡ some (c, p')
        → tally (waiting c) s.threads ≡ 0
        → Step s [] [] (place s i p')
    notifies_all :
        (c : Condition) (i : ℕ) (p p' : Thread A)
        → At s i p
        → broadcasts p ≡ some (c, p')
        → Step s [] [] (record s { threads = map (woken c) (set s.threads i p') })

  -- A run, with all that it put in and took out.
  pub data Run (s : System A) : List A → List A → System A → Type ℓ where
    start : Run s [] [] s
    later :
        {ins outs i o ins' outs' : List A} {t u : System A}
        → Run s ins outs t
        → Step t i o u
        → ins' ≡ ins ++ i
        → outs' ≡ outs ++ o
        → Run s ins' outs' u
