-- ===== src/Queue/Moments.antt =====
-- The queue as one would explain it: a list of items and a flag, on which every operation takes effect
-- at one moment between its call and its return.
use cmake_sample.Common.{
  ℕ, ◌<◌, ◌≡◌, Bool, true, false, none, some, List, [], ◌∷◌, ◌++◌, length, map, set, get_elem?,
}
use cmake_sample.Queue.{
  Shared, Thread, Operation, Outcome, push, push_for, pop, pop_for, close, is_closed_now, size_now,
  idle, pushing, popping, closing, asking, reading, finished, fault, unlock, notify, close_enter,
  close_set, ask_closed, ask_size, pushed, popped, closed_all, is_closed, has_size, is_empty,
}
use cmake_sample.Queue.System.{System}

pub record View {ℓ} (A : Type ℓ) : Type ℓ where
  pub items : List A
  pub closed : Bool

-- A thread that has called nothing yet, that has called an operation, whose operation has taken effect
-- with an outcome, or that has returned it.
pub data Status {ℓ} (A : Type ℓ) : Type ℓ where
  outside : Status A
  called : Operation A → Status A
  done : Outcome A → Status A
  gave : Outcome A → Status A

pub record Atomic {ℓ} (A : Type ℓ) : Type ℓ where
  pub queue : View A
  pub threads : List (Status A)

module _ {ℓ} {A : Type ℓ} where
  -- With a time limit, or without.
  abbrev pub a_push : Bool → A → Operation A
  a_push true x = push_for x
  a_push false x = push x

  abbrev pub a_pop : Bool → Operation A
  a_pop true = pop_for
  a_pop false = pop

  -- The effect of an operation, with its outcome, and the items that it puts in and takes out.
  pub data Effect (capacity : ℕ) (v : View A) (o : Operation A) (r : Outcome A) (ins outs : List A)
      (v' : View A) : Type ℓ where
    puts :
        (d : Bool) (x : A)
        → o ≡ a_push d x
        → r ≡ pushed true
        → ins ≡ x ∷ []
        → outs ≡ []
        → v.closed ≡ false
        → length v.items < capacity
        → v' ≡ record v { items = v.items ++ (x ∷ []) }
        → Effect capacity v o r ins outs v'
    takes :
        (d : Bool) (x : A)
        → o ≡ a_pop d
        → r ≡ popped (some x)
        → ins ≡ []
        → outs ≡ x ∷ []
        → v.items ≡ x ∷ v'.items
        → v'.closed ≡ v.closed
        → Effect capacity v o r ins outs v'
    closes :
        o ≡ close
        → r ≡ closed_all
        → ins ≡ []
        → outs ≡ []
        → v' ≡ record v { closed = true }
        → Effect capacity v o r ins outs v'
    -- A `push` gives up on a closed queue only, and a `pop` on one that is closed and empty.
    refuses_item :
        (d : Bool) (x : A)
        → o ≡ a_push d x
        → r ≡ pushed false
        → (d ≡ false → v.closed ≡ true)
        → ins ≡ []
        → outs ≡ []
        → v' ≡ v
        → Effect capacity v o r ins outs v'
    finds_none :
        (d : Bool)
        → o ≡ a_pop d
        → r ≡ popped none
        → (d ≡ false → (v.closed ≡ true) × (is_empty v.items ≡ true))
        → ins ≡ []
        → outs ≡ []
        → v' ≡ v
        → Effect capacity v o r ins outs v'
    tells_closed :
        o ≡ is_closed_now
        → r ≡ is_closed v.closed
        → ins ≡ []
        → outs ≡ []
        → v' ≡ v
        → Effect capacity v o r ins outs v'
    tells_size :
        o ≡ size_now
        → r ≡ has_size (length v.items)
        → ins ≡ []
        → outs ≡ []
        → v' ≡ v
        → Effect capacity v o r ins outs v'

  -- What happens to one thread, with what it returns then.
  pub data Change (capacity : ℕ) (v : View A) (a a' : Status A) (ins outs : List A)
      (rs : List (Outcome A)) (v' : View A) : Type ℓ where
    takes_effect :
        (o : Operation A) (r : Outcome A)
        → a ≡ called o
        → a' ≡ done r
        → Effect capacity v o r ins outs v'
        → rs ≡ []
        → Change capacity v a a' ins outs rs v'
    takes_effect_and_returns :
        (o : Operation A) (r : Outcome A)
        → a ≡ called o
        → a' ≡ gave r
        → Effect capacity v o r ins outs v'
        → rs ≡ r ∷ []
        → Change capacity v a a' ins outs rs v'
    comes_back :
        (r : Outcome A)
        → a ≡ done r
        → a' ≡ gave r
        → ins ≡ []
        → outs ≡ []
        → rs ≡ r ∷ []
        → v' ≡ v
        → Change capacity v a a' ins outs rs v'
    begins_first :
        (o : Operation A)
        → a ≡ outside
        → a' ≡ called o
        → ins ≡ []
        → outs ≡ []
        → rs ≡ []
        → v' ≡ v
        → Change capacity v a a' ins outs rs v'
    begins_next :
        (r : Outcome A) (o : Operation A)
        → a ≡ gave r
        → a' ≡ called o
        → ins ≡ []
        → outs ≡ []
        → rs ≡ []
        → v' ≡ v
        → Change capacity v a a' ins outs rs v'
    stays : a' ≡ a → ins ≡ [] → outs ≡ [] → rs ≡ [] → v' ≡ v → Change capacity v a a' ins outs rs v'

  -- One moment: something happens to one thread.
  abbrev pub Moment : ℕ → Atomic A → List A → List A → List (Outcome A) → Atomic A → Type ℓ
  Moment capacity s ins outs rs t =
      (i : ℕ) × (a : Status A) × (a' : Status A) × (get_elem? s.threads i ≡ some a)
      × Change capacity s.queue a a' ins outs rs t.queue
      × (t.threads ≡ set s.threads i a')

  pub data History (capacity : ℕ) (s : Atomic A)
      : List A → List A → List (Outcome A) → Atomic A → Type ℓ where
    begins : History capacity s [] [] [] s
    goes_on :
        {ins outs i o : List A} {rs r : List (Outcome A)} {t u : Atomic A}
        → History capacity s ins outs rs t
        → Moment capacity t i o r u
        → History capacity s (ins ++ i) (outs ++ o) (rs ++ r) u

  abbrev pub view : Shared A → View A
  view m = record { items = m.items; closed = m.closed }

  -- An operation has taken effect from its `unlock` on.
  unfoldable pub status : Thread A → Status A
  status idle = outside
  status (finished r) = gave r
  status (pushing d x unlock) = done (pushed true)
  status (pushing d x notify) = done (pushed true)
  status (pushing d x at) = called (a_push d x)
  status (popping d out unlock) = done (popped out)
  status (popping d out notify) = done (popped out)
  status (popping d out at) = called (a_pop d)
  status (closing close_enter) = called close
  status (closing close_set) = called close
  status (closing at) = done closed_all
  status (asking ask_closed) = called is_closed_now
  status (asking ask_size) = called size_now
  status (reading ask_closed) = called is_closed_now
  status (reading ask_size) = called size_now
  status fault = outside

  abbrev pub atomic : System A → Atomic A
  atomic s = record { queue = view s.shared; threads = map status s.threads }
