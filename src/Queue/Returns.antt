-- ===== src/Queue/Returns.antt =====
-- The returns from the operations in a run, in their order.
use cmake_sample.Common.{List, [], ◌∷◌, ◌++◌}
use cmake_sample.Queue.{Thread, Outcome, finished}
use cmake_sample.Queue.System.{
  System, Step, runs, calls, times_out, wakes, notifies_one, notifies_nobody, notifies_all, Run,
  start, later,
}

-- A return from an operation: where the thread stood, and what it returned.
pub record Return {ℓ} (A : Type ℓ) : Type ℓ where
  pub from : Thread A
  pub outcome : Outcome A

pub data Side : Type 0 where
  putting taking : Side

module _ {ℓ} {A : Type ℓ} where
  unfoldable pub returned : Thread A → Thread A → List (Return A)
  returned p (finished o) = record { from = p; outcome = o } ∷ []
  returned p q = []

  unfoldable pub Step-returns :
      {s t : System A} {ins outs : List A} → Step s ins outs t → List (Return A)
  Step-returns (runs i p p' m here moved) = returned p p'
  Step-returns (calls i p o here free) = []
  Step-returns (times_out i p p' here e) = []
  Step-returns (wakes c i p here w) = []
  Step-returns (notifies_one c i j p p' q here e there w) = returned p p'
  Step-returns (notifies_nobody c i p p' here e none_waits) = returned p p'
  Step-returns (notifies_all c i p p' here e) = returned p p'

  -- All returns of a run, in their order.
  unfoldable pub returns : {s t : System A} {ins outs : List A} → Run s ins outs t → List (Return A)
  returns start = []
  returns (later r st e f) = returns r ++ Step-returns st

  abbrev pub moved : Side → List A → List A → List A
  moved putting ins outs = ins
  moved taking ins outs = outs
