-- ===== src/Server/Starting.antt =====
-- The whole coroutine `start_accepting`: the resolver, the acceptor, and the loop.
use cmake_sample.Common.{
  ℕ, ◌≡◌, ◌≢◌, ◌⊎◌, inl, inr, refl, ap, Bool, List, [], ◌∷◌, ◌++◌, String, Result, ok, err, All,
  Result-cases, Bool-cases,
}
use cmake_sample.Session.{Endpoint}
use cmake_sample.Manager.{World, null_dereference}
use cmake_sample.Manager.Runs.{empty_world}
use cmake_sample.Server.{
  Network, Accept, connection, aborted, Progress, returned, accepting, Stop, thrown, faulted,
  no_endpoint, loop_result, accept_loop, accept_on, start_accepting,
}
use cmake_sample.Server.Accepting.{IsFailed, after_first, accept_loop_outcome}
use text.Mathlib.Text.{◌==◌ as str_eq}
use text.Mathlib.TextEquality.{eq_iff}

module _ (to_string : ℕ → List ℕ) (moves_duplicate : Bool) {Address Error : Type 0}
    (network : Network Address Error) where
  open network use {async_resolve, listen}

  abbrev Left : Type 0
  Left = World × Result (Stop Error) Progress

  -- Only errors so far; or `cancel` before the first connection; or a connection.
  abbrev pub Serves : List Accept → Left → Type 0
  Serves es after =
      (All IsFailed es × (after ≡ (empty_world, ok accepting)))
      ⊎ ((before rest : List Accept) × All IsFailed before
          × (es ≡ before ++ (aborted ∷ rest))
          × (after ≡ (empty_world, ok returned)))
      ⊎ ((before rest : List Accept) × (remote : Result ℕ Endpoint) × All IsFailed before
          × (es ≡ before ++ (connection remote ∷ rest))
          × (after
              ≡ (after_first to_string moves_duplicate remote, err (faulted null_dereference))))

  -- The first endpoint is that of the acceptor.
  abbrev pub Listens : List Address → List Accept → Left → Type 0
  Listens endpoints es after =
      ((endpoints ≡ []) × (after ≡ (empty_world, err no_endpoint)))
      ⊎ ((address : Address) × (others : List Address) × (endpoints ≡ address ∷ others)
          × (((e : Error) × (listen address ≡ err e) × (after ≡ (empty_world, err (thrown e))))
              ⊎ ((listen address ≡ ok tt) × Serves es after)))

  loop-Serves :
      (es : List Accept)
      → Serves es (
          loop_result to_string moves_duplicate network
            (accept_loop to_string moves_duplicate es empty_world))
  loop-Serves es = elim (accept_loop_outcome to_string moves_duplicate es) [
    | inl (failures, e) ↦ inl (failures, ap (loop_result to_string moves_duplicate network) e)
    | inr (inl (before, rest, failures, split, e)) ↦
        inr (
          inl (before, rest, failures, split, ap (loop_result to_string moves_duplicate network) e))
    | inr (inr (before, rest, remote, failures, split, e)) ↦ inr (
        inr (
          before,
          rest,
          remote,
          failures,
          split,
          ap (loop_result to_string moves_duplicate network) e,
        ))
  ]

  accept_on_outcome :
      (endpoints : List Address) (es : List Accept)
      → Listens endpoints es (accept_on to_string moves_duplicate network endpoints es empty_world)
  unfolding accept_on
  accept_on_outcome [] es = inl (refl, refl)
  accept_on_outcome (address ∷ others) es = elim (Result-cases (listen address)) [
    | inr (e, refused) ↦ inr (address, others, refl, inl (e, refused, rw (refused, accept_on) refl))
    | inl (u, listens) ↦
        inr (address, others, refl, inr (listens, rw (listens, accept_on) (loop-Serves es)))
  ]

  -- What becomes of a server that starts without sessions, on every path. Without a service it
  -- returns at once. An exception of the resolver for "localhost", or of the acceptor on the first
  -- endpoint, goes to the caller, and no endpoint at all is undefined behaviour; there is still no
  -- session then. Otherwise it accepts: while there are only errors it goes on, and if it is
  -- cancelled before the first connection it returns, both without a session; at the first
  -- connection before that, the session is stored, and then a null pointer is dereferenced: no
  -- second connection is accepted.
  pub start_accepting_outcome :
      (service : String) (es : List Accept)
      → let after = start_accepting to_string moves_duplicate network service es empty_world in
        ((service ≡ "") × (after ≡ (empty_world, ok returned)))
        ⊎ ((service ≢ "")
            × (((e : Error) × (async_resolve "localhost" service ≡ err e)
                  × (after ≡ (empty_world, err (thrown e))))
                ⊎ ((endpoints : List Address) × (async_resolve "localhost" service ≡ ok endpoints)
                    × Listens endpoints es after)))
  unfolding start_accepting
  start_accepting_outcome service es = elim (Bool-cases (str_eq service "")) [
    | inl none_given ↦ inl ((eq_iff service "").0 none_given, rw (none_given, start_accepting) refl)
    | inr given ↦ inr (
      (λ same. let none_given = (eq_iff service "").1 same in cc),
      elim (Result-cases (async_resolve "localhost" service)) [
        | inr (e, unresolved) ↦
            inl (e, unresolved, rw (given, start_accepting) (rw unresolved refl))
        | inl (endpoints, resolved) ↦ inr (
          endpoints,
          resolved,
          rw (given, start_accepting) (rw resolved (accept_on_outcome endpoints es)),
        )
      ],
    )
  ]
