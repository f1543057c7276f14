-- ===== src/Server/Cancelling.antt =====
-- libs/comm/src/async_tcp_server.cpp: what `cancel` stops.
use cmake_sample.Common.{ℕ, ◌≡◌, Bool, true, false, List, [], ◌∷◌, Result, ok, err}
use cmake_sample.Manager.{World, Fault}
use cmake_sample.Manager.Left.{IsLeft}
use cmake_sample.Server.{
  Accept, aborted, Progress, returned, CancellationType, terminal, Cancellation, AsyncTcpServer,
  Event, completes, cancels, reports, Running, slot, serve,
}

-- A result comes.
pub completed : List Event → Bool
completed [] = false
completed (completes a ∷ rest) = true
completed (cancels ∷ rest) = completed rest
completed (reports p ec ∷ rest) = completed rest

module _ {Signal Slot : Type 0} (cancellation : Cancellation Signal Slot) where
  -- What is bound to the slot ends with `operation_aborted`.
  abbrev Aborts : Slot → Type 0
  Aborts slot_of_it = (a : Accept) → cancellation.completion slot_of_it a ≡ aborted

  -- A signal of the type `terminal` aborts what is bound to its slot, and no further signal takes that
  -- back.
  pub record IsCancellation : Type 0 where
    pub told : (signal : Signal) → Aborts (cancellation.slot_of (cancellation.emit terminal signal))
    pub stays_told :
        (type : CancellationType) (signal : Signal)
        → Aborts (cancellation.slot_of signal)
        → Aborts (cancellation.slot_of (cancellation.emit type signal))

  abbrev IsTold : AsyncTcpServer Signal → Type 0
  IsTold server = Aborts (slot cancellation server)

module _ {Signal Slot : Type 0} (cancellation : Cancellation Signal Slot) (to_string : ℕ → List ℕ)
    (moves_duplicate : Bool) where
  abbrev run : List Event → Running Signal → Running Signal × Result Fault (Unit {0})
  run events r = serve cancellation to_string moves_duplicate events r

  -- A call on the world, and then the rest of the events.
  abbrev then_run :
      List Event
      → Running Signal
      → World × Result Fault (Unit {0})
      → Running Signal × Result Fault (Unit {0})
  then_run rest r (v, result) = elim result [
    | ok _ ↦ run rest (record r { world = v })
    | err f ↦ (record r { world = v }, err f)
  ]

  abbrev Stopped : World → Running Signal → Type 0
  Stopped w r = (r.progress ≡ returned) × IsLeft w r.world

  abbrev Ends : List Event → World → Running Signal × Result Fault (Unit {0}) → Type 0
  Ends events w (r, result) =
      IsLeft w r.world × (completed events ≡ true → result ≡ ok tt → r.progress ≡ returned)

  abbrev at_work : AsyncTcpServer Signal → World → Progress → Running Signal
  at_work server w progress = record { server = server; world = w; progress = progress }
