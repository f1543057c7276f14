-- ===== src/Queue/Throwing.antt =====
-- A `push` that ends by an exception: `q_.push_back` may find no memory. It then has no effect, the
-- destructor of `lk` gives the mutex back, and the caller has the exception.
use cmake_sample.Common.{
  ℕ, ◌≤◌, ◌≡◌, ◌↔◌, inl, inr, refl, Bool, true, some, List, [], ◌++◌, length, set, arith,
  append-nil, Bool-cases,
}
use cmake_sample.Queue.{Thread, pushing, act, idle, fault, release}
use cmake_sample.Queue.System.{System, Step, At}
use cmake_sample.Queue.Mutex.{holds, Inv, place_cases, IsFresh_outside}
use cmake_sample.Queue.Contract.{IsFifo, IsFifo-refl, IsFifo-trans}
use cmake_sample.Queue.Safety.{initial, initial-Inv, Step-Inv, Step-effect}

module _ {ℓ} {A : Type ℓ} where
  pub data ThrowingStep (s : System A) : List A → List A → System A → Type ℓ where
    goes : {t : System A} {ins outs : List A} → Step s ins outs t → ThrowingStep s ins outs t
    throws :
        (i : ℕ) (d : Bool) (x : A)
        → At s i (pushing d x act)
        → ThrowingStep s [] []
            (record { shared = release s.shared; threads = set s.threads i idle })

  pub data ThrowingRun (s : System A) : List A → List A → System A → Type ℓ where
    begin : ThrowingRun s [] [] s
    then :
        {ins outs i o : List A} {t u : System A}
        → ThrowingRun s ins outs t
        → ThrowingStep t i o u
        → ThrowingRun s (ins ++ i) (outs ++ o) u

  -- A thread that holds the mutex gives it back and leaves.
  leave-Inv :
      (s : System A)
      → Inv s
      → (i : ℕ) (p : Thread A) → At s i p
      → holds p ≡ true
      → Inv (record { shared = release s.shared; threads = set s.threads i idle })
  leave-Inv s inv i p here held = record {
    guarded = λ k q e held_there. elim (place_cases s.threads i k p idle q here e) [
      | inl (same, eq) ↦ let on : holds {A = A} idle ≡ true = rw eq at held_there in cc
      | inr (ne, old) ↦ absurd (ne (others k q old held_there))
    ];
    backed = λ k e. cc;
    fresh = λ k q e. elim (place_cases s.threads i k p idle q here e) [
      | inl (same, eq) ↦ rw eq tt
      | inr (ne, old) ↦ elim (Bool-cases (holds q)) [
        | inl held_there ↦ absurd (ne (others k q old held_there))
        | inr outside ↦ IsFresh_outside s.shared (release s.shared) q outside (inv.fresh k q old)
      ]
    ];
    bounded = inv.bounded;
  }
    where
      owned : s.shared.owner ≡ some i
      owned = inv.guarded i p here held

      others : (k : ℕ) (q : Thread A) → At s k q → holds q ≡ true → i ≡ k
      others k q old held_there = let busy = inv.guarded k q old held_there in cc owned

  ThrowingStep-Inv :
      {s t : System A} {ins outs : List A} → Inv s → ThrowingStep s ins outs t → Inv t
  ThrowingStep-Inv inv (goes st) = Step-Inv inv st
  ThrowingStep-Inv {s} inv (throws i d x here) = leave-Inv s inv i (pushing d x act) here refl

  ThrowingRun-Inv : {s t : System A} {ins outs : List A} → Inv s → ThrowingRun s ins outs t → Inv t
  ThrowingRun-Inv inv begin = inv
  ThrowingRun-Inv inv (then r st) = ThrowingStep-Inv (ThrowingRun-Inv inv r) st

  ThrowingRun-IsFifo :
      {s t : System A} {ins outs : List A} → Inv s → ThrowingRun s ins outs t → IsFifo s ins outs t
  ThrowingRun-IsFifo {s} inv begin = IsFifo-refl s
  ThrowingRun-IsFifo {s} inv (then {ins} {outs} {i} {o} {t} {u} r (goes st)) =
      IsFifo-trans s t u ins outs i o (ThrowingRun-IsFifo inv r)
        (Step-effect (ThrowingRun-Inv inv r) st)
  ThrowingRun-IsFifo {s} inv (then {ins} {outs} {t} {u} r (throws i d x here)) =
      IsFifo-trans s t u ins outs [] [] (ThrowingRun-IsFifo inv r)
        (append-nil t.shared.items, refl, λ e. (refl, e))

  -- The queue is safe also where calls of `push` end by an exception, because there is no memory for the
  -- item. Take any state that threads can reach then on a new queue. The items that were put in are
  -- those taken out and those that are there, in this order; there are at most as many as the capacity;
  -- whoever has the mutex is one thread between lock and unlock, and any such thread has it, so that an exception leaves it
  -- with nobody; and none has read the front of an empty deque.
  pub exception_safety :
      (capacity n : ℕ) {s : System A} {ins outs : List A}
      → ThrowingRun (initial capacity n) ins outs s
      → (ins ≡ outs ++ s.shared.items)
        × (length s.shared.items ≤ capacity)
        × ((i : ℕ) → (s.shared.owner ≡ some i) ↔ ((p : Thread A) × (At s i p) × (holds p ≡ true)))
        × ((i : ℕ) → ¬ At s i fault)
  unfolding initial
  exception_safety capacity n {s} {ins} {outs} r = (
    all.0,
    omega (arith, inv.bounded, all.1),
    λ i. (λ e. inv.backed i e, λ h. let (p, here, held) = h in inv.guarded i p here held),
    λ i here. inv.fresh i fault here,
  )
    where
      inv : Inv s
      inv = ThrowingRun-Inv (initial-Inv capacity n) r

      all : IsFifo (initial capacity n) ins outs s
      all = ThrowingRun-IsFifo (initial-Inv capacity n) r
