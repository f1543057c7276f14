-- ===== src/Server/Examples.antt =====
-- The theorems about the server, with two failures and a connection.
use cmake_sample.Common.{
  ℕ, ◌≡◌, ◌⊎◌, ◌≢◌, Bool, true, false, List, [], ◌∷◌, String, Result, ok, err,
}
use cmake_sample.Session.{Endpoint}
use cmake_sample.Manager.Runs.{empty_world}
use cmake_sample.Server.{
  Network, Accept, connection, aborted, failed, returned, accepting, start_accepting, thrown,
  make_server, CancellationType, terminal, Cancellation, Event, completes, cancels, Running,
}
use cmake_sample.Server.Starting.{Listens, start_accepting_outcome}

abbrev eighty : ℕ → List ℕ
eighty n = b'8' ∷ b'0' ∷ []

abbrev peer : Result ℕ Endpoint
peer = ok (record { is_v6 = false; address = b'1' ∷ b'.' ∷ b'2' ∷ []; port = 80 })

abbrev results : List Accept
results = failed 24 ∷ failed 24 ∷ connection peer ∷ aborted ∷ []

abbrev local : Network ℕ String
local = record { async_resolve = λ host service. ok (0 ∷ []); listen = λ address. ok tt }

start_accepting_outcome_example :
    let after = start_accepting eighty true local "80" results empty_world in
    ((◌≡◌ {A = String} "80" "") × (after ≡ (empty_world, ok returned)))
    ⊎ ((◌≢◌ {A = String} "80" "")
        × (((e : String) × (local.async_resolve "localhost" "80" ≡ err e)
              × (after ≡ (empty_world, err (thrown e))))
            ⊎ ((endpoints : List ℕ) × (local.async_resolve "localhost" "80" ≡ ok endpoints)
                × Listens eighty true local endpoints results after)))
start_accepting_outcome_example = start_accepting_outcome eighty true local "80" results

-- A signal that keeps whether it emitted `terminal`.
abbrev after_emit : CancellationType → Bool → Bool
after_emit terminal b = true
after_emit kind b = b

-- Then the slot lets what is bound to it end so.
abbrev after_slot : Bool → Accept → Accept
after_slot true a = aborted
after_slot false a = a

abbrev kept : Cancellation Bool Bool
kept = record { emit = after_emit; slot_of = λ b. b; completion = after_slot }

abbrev serving : Running Bool
serving = record { server = make_server false; world = empty_world; progress = accepting }

-- Two connections come after `cancel`.
abbrev ending : List Event
ending = cancels ∷ completes (connection peer) ∷ completes (connection peer) ∷ []
