-- ===== src/Queue.antt =====
-- libs/comm/include/comm/utilities/bounded_blocking_queue.hpp: the class `bounded_blocking_queue`
-- under any number of threads. Each thread stands in front of one statement of the operation that it
-- runs. A step is one such statement, a call, a wake-up or a time-out, in any order that the mutex
-- and the condition variables allow.
pub mod System
pub mod Counts
pub mod Mutex
pub mod Outside
pub mod Safety
pub mod Wakeups
pub mod Progress
pub mod Contract
pub mod Returns
pub mod Hands
pub mod Answers
pub mod Delivery
pub mod Order
pub mod Moments
pub mod Atomic
pub mod Deadlock
pub mod Closing
pub mod Nearer
pub mod Timed
pub mod Throwing
pub mod Memory
pub mod Late
pub mod Alone
pub mod Examples
pub mod Threads
pub mod Finish
use cmake_sample.Common.{
  ℕ, zero, suc, ◌≡◌, Bool, true, false, not, ◌&&◌, Option, none, some, List, [], ◌∷◌, ◌++◌, length,
  map, set, get_elem?, leb, tally, if◌then◌else◌,
}

-- The fields of the class. `owner` is the thread that holds the mutex `m_`.
pub record Shared {ℓ} (A : Type ℓ) : Type ℓ where
  pub capacity : ℕ
  pub items : List A
  pub closed : Bool
  pub owner : Option ℕ

-- The statements of `push`, `push_for`, `pop` and `pop_for`, which have the same shape:
-- `enter` takes the lock, `test` evaluates the loop's condition and the `if` behind the loop, `wait`
-- is inside the condition variable, `wake` and `expire` are on the way out of it (woken, or with a
-- deadline that has passed, woken or not) and need the lock again, `act` moves the item, `unlock` is `lk.unlock()`, `refuse` is
-- `return false`, which gives the lock back, and `notify` is the call of `notify_one`.
pub data Phase : Type 0 where
  enter test wait wake expire act unlock refuse notify : Phase

pub data ClosePhase : Type 0 where
  close_enter close_set close_unlock notify_not_empty notify_not_full : ClosePhase

pub data Query : Type 0 where
  ask_closed ask_size : Query

pub data Outcome {ℓ} (A : Type ℓ) : Type ℓ where
  pushed : Bool → Outcome A
  popped : Option A → Outcome A
  closed_all : Outcome A
  is_closed : Bool → Outcome A
  has_size : ℕ → Outcome A

-- Where a thread is. The flag of `pushing` and `popping` tells `push_for` and `pop_for` from `push`
-- and `pop`. The option of `popping` is the caller's `out`, once it is assigned. `fault` is the
-- undefined `front()` of an empty deque.
pub data Thread {ℓ} (A : Type ℓ) : Type ℓ where
  idle : Thread A
  pushing : Bool → A → Phase → Thread A
  popping : Bool → Option A → Phase → Thread A
  closing : ClosePhase → Thread A
  asking : Query → Thread A
  reading : Query → Thread A
  finished : Outcome A → Thread A
  fault : Thread A

pub data Operation {ℓ} (A : Type ℓ) : Type ℓ where
  push push_for : A → Operation A
  pop pop_for close is_closed_now size_now : Operation A

module _ {ℓ} {A : Type ℓ} where
  abbrev pub begin : Operation A → Thread A
  begin (push x) = pushing false x enter
  begin (push_for x) = pushing true x enter
  begin pop = popping false none enter
  begin pop_for = popping true none enter
  begin close = closing close_enter
  begin is_closed_now = asking ask_closed
  begin size_now = asking ask_size

  -- Taking the mutex: it has to be free.
  lock : ℕ → Shared A → Thread A → Option (Shared A × Thread A)
  lock i m p = elim m.owner [ none ↦ some (record m { owner = some i }, p) | some _ ↦ none ]

  abbrev pub release : Shared A → Shared A
  release m = record m { owner = none }

  -- `!closed_ && q_.size() >= capacity_`
  abbrev pub is_full : Shared A → Bool
  is_full m = not m.closed && leb m.capacity (length m.items)

  abbrev pub is_empty : List A → Bool
  is_empty [] = true
  is_empty (x ∷ xs) = false

  next_push : ℕ → Shared A → Bool → A → Phase → Option (Shared A × Thread A)
  unfolding lock
  next_push i m d x enter = lock i m (pushing d x test)
  next_push i m d x test =
      if is_full m
      then some (release m, pushing d x wait)
      else if m.closed
      then some (m, pushing d x refuse)
      else some (m, pushing d x act)
  next_push i m d x wait = none
  next_push i m d x wake = lock i m (pushing d x test)
  next_push i m d x expire = lock i m (pushing d x refuse)
  next_push i m d x act = some (record m { items = m.items ++ (x ∷ []) }, pushing d x unlock)
  next_push i m d x unlock = some (release m, pushing d x notify)
  next_push i m d x refuse = some (release m, finished (pushed false))
  next_push i m d x notify = none

  -- `out = std::move(q_.front()); q_.pop_front();`
  take_front : Shared A → Bool → List A → Shared A × Thread A
  take_front m d [] = (m, fault)
  take_front m d (x ∷ rest) = (record m { items = rest }, popping d (some x) unlock)

  next_pop : ℕ → Shared A → Bool → Option A → Phase → Option (Shared A × Thread A)
  unfolding lock take_front
  next_pop i m d out enter = lock i m (popping d out test)
  next_pop i m d out test =
      if not m.closed && is_empty m.items
      then some (release m, popping d out wait)
      else if is_empty m.items
      then some (m, popping d out refuse)
      else some (m, popping d out act)
  next_pop i m d out wait = none
  next_pop i m d out wake = lock i m (popping d out test)
  next_pop i m d out expire = lock i m (popping d out refuse)
  next_pop i m d out act = some (take_front m d m.items)
  next_pop i m d out unlock = some (release m, popping d out notify)
  next_pop i m d out refuse = some (release m, finished (popped none))
  next_pop i m d out notify = none

  next_close : ℕ → Shared A → ClosePhase → Option (Shared A × Thread A)
  unfolding lock
  next_close i m close_enter = lock i m (closing close_set)
  next_close i m close_set = some (record m { closed = true }, closing close_unlock)
  next_close i m close_unlock = some (release m, closing notify_not_empty)
  next_close i m notify_not_empty = none
  next_close i m notify_not_full = none

  answer : Shared A → Query → Outcome A
  answer m ask_closed = is_closed m.closed
  answer m ask_size = has_size (length m.items)

  -- The next statement of thread `i`; `none` where it has to wait or to notify.
  unfoldable pub next : ℕ → Shared A → Thread A → Option (Shared A × Thread A)
  unfolding next_push next_pop next_close lock answer
  next i m (pushing d x at) = next_push i m d x at
  next i m (popping d out at) = next_pop i m d out at
  next i m (closing at) = next_close i m at
  next i m (asking q) = lock i m (reading q)
  next i m (reading q) = some (release m, finished (answer m q))
  next i m idle = none
  next i m (finished o) = none
  next i m fault = none
