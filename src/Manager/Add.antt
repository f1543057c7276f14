-- ===== src/Manager/Add.antt =====
-- `add_session` on every branch.
use cmake_sample.Common.{
  ℕ, ◌≡◌, ◌≢◌, ◌⊎◌, inl, inr, Bool, true, false, none, some, List, [], ◌∷◌, ◌++◌, get_elem?, set,
  ok, err, lookup, Bool-cases, Option-cases, arith, bytes_key,
}
use cmake_sample.Session.Identity.{identifier, id_lem}
use cmake_sample.Manager.{
  remove_from_manager, Session, World, null_dereference, deref, on_error, session_id, emplace,
  add_session,
}

module _ (to_string : ℕ → List ℕ) (w : World) (p : ℕ) (s : Session)
    (here : get_elem? w.objects p ≡ some s) where
  pub session_id_lem : session_id to_string (some p) w ≡ (w, ok (identifier to_string s.remote))
  unfolding session_id deref
  session_id_lem = ground (arith, id_lem to_string s.remote)

  -- The world with the session in the map.
  abbrev pub stored : World
  stored = record w { sessions = (identifier to_string s.remote, some p) ∷ w.sessions }

  -- The world with the session's error signal connected to the manager.
  abbrev pub connected : World
  connected = record w {
    objects = set w.objects p (record s { slots = s.slots ++ (remove_from_manager ∷ []) });
  }

  -- `add_session` of a session that exists does one of three things, by whether its identifier is
  -- in the map, and whether `emplace` takes the pointer also then. If the identifier is new, the
  -- session is stored and the null pointer that is left is dereferenced. If it is there and the
  -- pointer is taken, nothing is stored, and the null pointer is dereferenced. If it is there and
  -- the pointer is kept, nothing is stored and the signal is connected. So it never both stores a
  -- session and connects its signal.
  pub add_session_outcome :
      (moves_duplicate : Bool)
      → let after = add_session to_string moves_duplicate (some p) w in
        let known = lookup (identifier to_string s.remote) w.sessions in
        ((known ≡ none) × (after ≡ (stored, err null_dereference)))
        ⊎ ((known ≢ none) × (moves_duplicate ≡ true) × (after ≡ (w, err null_dereference)))
        ⊎ ((known ≢ none) × (moves_duplicate ≡ false) × (after ≡ (connected, ok tt)))
  unfolding add_session emplace on_error
  add_session_outcome moves =
      elim (Option-cases (lookup (identifier to_string s.remote) w.sessions)) [
        | inl new ↦ inl (new, ground (arith, session_id_lem))
        | inr (q, known) ↦ elim (Bool-cases moves) [
          | inl e ↦ inr (inl ((λ c. cc known), e, ground (arith, session_id_lem)))
          | inr e ↦ inr (inr ((λ c. cc known), e, ground (arith, session_id_lem)))
        ]
      ]
