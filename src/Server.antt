-- ===== src/Server.antt =====
-- libs/comm/include/comm/async_tcp_server.hpp and libs/comm/src/async_tcp_server.cpp: the class
-- `async_tcp_server`, whose coroutine accepts connections and gives them to the session manager.
-- Boost.Asio is a parameter: the record `Network` resolves and listens, and the results of
-- `async_accept` are a list, in the order in which they come.
pub mod Accepting
pub mod Starting
pub mod Cancelling
pub mod Examples
use cmake_sample.Common.{
  ℕ, Bool, true, false, List, [], ◌∷◌, String, Result, ok, err, if◌then◌else◌,
}
use cmake_sample.Session.{Endpoint}
use cmake_sample.Manager.{World, Fault, Pointer, make_session, add_session, emit_error, ◌>>=◌, ◌>>◌}
use text.Mathlib.Text.{◌==◌ as str_eq}

-- `async_resolve` and the constructor of `tcp::acceptor` may throw.
pub record Network (Address Error : Type 0) : Type 0 where
  pub async_resolve : String → String → Result Error (List Address)
  pub listen : Address → Result Error (Unit {0})

-- What `async_accept` gives: a socket with what it says of its peer, `operation_aborted`, or another
-- error code.
pub data Accept : Type 0 where
  connection : Result ℕ Endpoint → Accept
  aborted : Accept
  failed : ℕ → Accept

-- How a coroutine goes on: it has come back, or it waits for the next result.
pub data Progress : Type 0 where
  returned accepting : Progress

-- Why it does not: an exception of the library, or undefined behaviour; the dereference of the end
-- of an empty range of endpoints is such.
pub data Stop (Error : Type 0) : Type 0 where
  thrown : Error → Stop Error
  faulted : Fault → Stop Error
  no_endpoint : Stop Error

module _ (to_string : ℕ → List ℕ) (moves_duplicate : Bool) where
  -- `std::make_shared<session>` and `add_session`, for one connection.
  pub accept_session : Result ℕ Endpoint → World → World × Result Fault (Unit {0})
  accept_session remote =
      make_session remote >>= λ new_session. add_session to_string moves_duplicate new_session

  -- The endless loop.
  unfoldable pub accept_loop : List Accept → World → World × Result Fault Progress
  accept_loop [] w = (w, ok accepting)
  accept_loop (aborted ∷ rest) w = (w, ok returned)
  accept_loop (failed ec ∷ rest) w = accept_loop rest w
  accept_loop (connection remote ∷ rest) w = (accept_session remote >> accept_loop rest) w

  module _ {Address Error : Type 0} (network : Network Address Error) where
    open network use {async_resolve, listen}

    abbrev pub loop_result : World × Result Fault Progress → World × Result (Stop Error) Progress
    loop_result (w, ok p) = (w, ok p)
    loop_result (w, err f) = (w, err (faulted f))

    -- The acceptor on `*endpoints.begin()`, and the loop.
    unfoldable pub accept_on :
        List Address → List Accept → World → World × Result (Stop Error) Progress
    accept_on [] accepts w = (w, err no_endpoint)
    accept_on (address ∷ others) accepts w = elim (listen address) [
      | err e ↦ (w, err (thrown e))
      | ok _ ↦ loop_result (accept_loop accepts w)
    ]

    unfoldable pub start_accepting :
        String → List Accept → World → World × Result (Stop Error) Progress
    start_accepting service accepts w =
        if str_eq service "" then (w, ok returned) else (elim (async_resolve "localhost" service) [
          | err e ↦ (w, err (thrown e))
          | ok endpoints ↦ accept_on endpoints accepts w
        ])

-- The cancellation of Boost.Asio: a signal is emitted with a type, and gives out its slot.
-- `completion` is what an `async_accept` that is bound to a slot completes with, where one without a
-- slot would complete so.
pub data CancellationType : Type 0 where
  none_at_all terminal partial total : CancellationType

pub record Cancellation (Signal Slot : Type 0) : Type 0 where
  pub emit : CancellationType → Signal → Signal
  pub slot_of : Signal → Slot
  pub completion : Slot → Accept → Accept

-- The fields of the class.
pub record AsyncTcpServer (Signal : Type 0) : Type 0 where
  pub cancel_signal : Signal

-- `async_tcp_server(io_context)`, with a new signal: the I/O context is not kept.
abbrev pub make_server : {Signal : Type 0} → Signal → AsyncTcpServer Signal
make_server new_signal = record { cancel_signal = new_signal }

-- What happens while the coroutine waits in `async_accept` or has come back: a result comes, somebody
-- calls `cancel`, or a session reports an error. The coroutine was spawned with the slot of the
-- server, as the documentation asks, so the library makes its result of what comes and the slot.
pub data Event : Type 0 where
  completes : Accept → Event
  cancels : Event
  reports : (p ec : ℕ) → Event

pub record Running (Signal : Type 0) : Type 0 where
  pub server : AsyncTcpServer Signal
  pub world : World
  pub progress : Progress

module _ {Signal Slot : Type 0} (cancellation : Cancellation Signal Slot) where
  open cancellation use {emit, slot_of, completion}

  unfoldable pub cancel : AsyncTcpServer Signal → AsyncTcpServer Signal
  cancel server = record server { cancel_signal = emit terminal server.cancel_signal }

  pub slot : AsyncTcpServer Signal → Slot
  slot server = slot_of server.cancel_signal

  module _ (to_string : ℕ → List ℕ) (moves_duplicate : Bool) where
    -- The state after a call on the world.
    abbrev pub goes_on :
        Running Signal → World × Result Fault (Unit {0}) → Running Signal × Result Fault (Unit {0})
    goes_on r (w, result) = (record r { world = w }, result)

    unfoldable pub accepted : Accept → Running Signal → Running Signal × Result Fault (Unit {0})
    accepted aborted r = (record r { progress = returned }, ok tt)
    accepted (failed ec) r = (r, ok tt)
    accepted (connection remote) r =
        goes_on r (accept_session to_string moves_duplicate remote r.world)

    -- No result comes to a coroutine that is not waiting for one.
    unfoldable pub happens : Event → Running Signal → Running Signal × Result Fault (Unit {0})
    happens cancels r = (record r { server = cancel r.server }, ok tt)
    happens (completes a) r = elim (r.progress) [
      | returned ↦ (r, ok tt)
      | accepting ↦ accepted (completion (slot r.server) a) r
    ]
    happens (reports p ec) r = goes_on r (emit_error to_string p ec r.world)

    unfoldable pub serve : List Event → Running Signal → Running Signal × Result Fault (Unit {0})
    serve [] r = (r, ok tt)
    serve (e ∷ rest) r =
        let (r', result) = happens e r in elim result [ ok _ ↦ serve rest r' | err f ↦ (r', err f) ]
