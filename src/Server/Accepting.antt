-- ===== src/Server/Accepting.antt =====
-- What becomes of a server that accepts connections.
use cmake_sample.Common.{
  ℕ, ◌≡◌, ◌⊎◌, inl, inr, refl, ap, Bool, some, List, [], ◌∷◌, ◌++◌, String, Result, ok, err, All,
  arith, Result-cases, lookup, bytes_key, Bool-cases,
}
use cmake_sample.Session.{Endpoint}
use cmake_sample.Session.Identity.{identifier}
use cmake_sample.Manager.{World, Fault, null_dereference, make_session}
use cmake_sample.Manager.Add.{add_session_outcome}
use cmake_sample.Manager.Runs.{empty_world}
use cmake_sample.Server.{
  Network, Accept, connection, aborted, failed, Progress, returned, accepting, accept_session,
  accept_loop, accept_on, loop_result, start_accepting,
}
use text.Mathlib.Text.{◌==◌ as str_eq}

abbrev pub IsFailed : Accept → Type 0
IsFailed (failed ec) = Unit
IsFailed _ = ⊥

module _ (to_string : ℕ → List ℕ) (moves_duplicate : Bool) where
  -- After the first connection to a server with no session yet: the session and its entry.
  abbrev pub after_first : Result ℕ Endpoint → World
  after_first remote = record {
    objects = record { remote = remote; slots = [] } ∷ [];
    sessions = (identifier to_string remote, some 0) ∷ [];
    calls = [];
  }

  accept_session_first :
      (remote : Result ℕ Endpoint)
      → accept_session to_string moves_duplicate remote empty_world
        ≡ (after_first remote, err null_dereference)
  unfolding accept_session make_session lookup
  accept_session_first remote =
      elim (add_session_outcome to_string
        (record empty_world { objects = record { remote = remote; slots = [] } ∷ [] }) 0 _ refl
        moves_duplicate) [
          | inl (new, e) ↦ e
          | inr (inl (known, _, _)) ↦ absurd (known refl)
          | inr (inr (known, _, _)) ↦ absurd (known refl)
        ]

  accept_loop_first :
      (remote : Result ℕ Endpoint) (rest : List Accept)
      → accept_loop to_string moves_duplicate (connection remote ∷ rest) empty_world
        ≡ (after_first remote, err null_dereference)
  unfolding accept_loop
  accept_loop_first remote rest = ground (arith, accept_session_first remote)

  -- Whatever `async_accept` gives, a server that starts without sessions does one of three things.
  -- While there are only errors it goes on accepting. If it is cancelled before the first connection
  -- it returns. In both cases there is still no session. At the first connection before that, the
  -- session is stored, and then a null pointer is dereferenced: no second connection is accepted.
  pub accept_loop_outcome :
      (es : List Accept)
      → let after = accept_loop to_string moves_duplicate es empty_world in
        (All IsFailed es × (after ≡ (empty_world, ok accepting)))
        ⊎ ((before rest : List Accept) × All IsFailed before
            × (es ≡ before ++ (aborted ∷ rest))
            × (after ≡ (empty_world, ok returned)))
        ⊎ ((before rest : List Accept) × (remote : Result ℕ Endpoint) × All IsFailed before
            × (es ≡ before ++ (connection remote ∷ rest))
            × (after ≡ (after_first remote, err null_dereference)))
  unfolding accept_loop
  accept_loop_outcome [] = inl (tt, refl)
  accept_loop_outcome (aborted ∷ es) = inr (inl ([], es, tt, refl, refl))
  accept_loop_outcome (connection remote ∷ es) =
      inr (inr ([], es, remote, tt, refl, accept_loop_first remote es))
  accept_loop_outcome (failed ec ∷ es) = elim (accept_loop_outcome es) [
    | inl (h, e) ↦ inl ((tt, h), e)
    | inr (inl (before, rest, h, s, e)) ↦
        inr (inl (failed ec ∷ before, rest, (tt, h), ap (◌∷◌ (failed ec)) s, e))
    | inr (inr (before, rest, remote, h, s, e)) ↦
        inr (inr (failed ec ∷ before, rest, remote, (tt, h), ap (◌∷◌ (failed ec)) s, e))
  ]

  loop_accepts_nobody :
      (es : List Accept) (p : Progress)
      → (accept_loop to_string moves_duplicate es empty_world).1 ≡ ok p
      → (accept_loop to_string moves_duplicate es empty_world).0 ≡ empty_world
  loop_accepts_nobody es p h = elim (accept_loop_outcome es) [
    | inl (_, e) ↦ cc e
    | inr (inl (_, _, _, _, e)) ↦ cc e
    | inr (inr (_, _, _, _, _, e)) ↦ cc e
  ]

  module _ {Address Error : Type 0} (network : Network Address Error) where
    loop_result_world :
        (r : World × Result Fault Progress) (p : Progress)
        → (loop_result to_string moves_duplicate network r).1 ≡ ok p
        → (r.1 ≡ ok p) × ((loop_result to_string moves_duplicate network r).0 ≡ r.0)
    loop_result_world (w, ok q) p h = (cc, refl)
    loop_result_world (w, err f) p h = cc

    accept_on_nobody :
        (addresses : List Address) (es : List Accept) (p : Progress)
        → (accept_on to_string moves_duplicate network addresses es empty_world).1 ≡ ok p
        → (accept_on to_string moves_duplicate network addresses es empty_world).0 ≡ empty_world
    unfolding accept_on
    accept_on_nobody [] es p h = cc
    accept_on_nobody (a ∷ others) es p h = elim (Result-cases (network.listen a)) [
      | inr (e, no_listen) ↦ ground arith
      | inl (u, listens) ↦ ground (
        arith,
        loop_result_world (accept_loop to_string moves_duplicate es empty_world) p,
        loop_accepts_nobody es p,
      )
    ]

    -- A server that starts without sessions, and that has come back or still accepts, whatever its
    -- service and the results so far, has left the world as it was: it has no session.
    pub accepts_nobody :
        (service : String) (es : List Accept) (p : Progress)
        → (start_accepting to_string moves_duplicate network service es empty_world).1 ≡ ok p
        → (start_accepting to_string moves_duplicate network service es empty_world).0 ≡ empty_world
    unfolding start_accepting
    accepts_nobody service es p h = elim (Bool-cases (str_eq service "")) [
      | inl none_given ↦ ground arith
      | inr given ↦ elim (Result-cases (network.async_resolve "localhost" service)) [
        | inr (e, unresolved) ↦ ground arith
        | inl (addresses, resolved) ↦ ground (arith, accept_on_nobody addresses es p)
      ]
    ]
