-- ===== src/Manager/Runs.antt =====
-- Every sequence of calls that come back, on the manager and its sessions.
use cmake_sample.Common.{
  ℕ, ◌≡◌, inl, inr, refl, ap, Bool, none, some, List, [], ◌∷◌, get_elem?, set, Result, ok, err,
  lookup, erase, Option-cases, arith, bytes_key,
}
use cmake_sample.Session.{Endpoint}
use cmake_sample.Manager.{
  Pointer, Slot, remove_from_manager, other_slot, Session, World, Fault, null_dereference, deref,
  session_id, remove_session, call_slot, call_slots, emit_error, make_session, on_error,
  add_session,
}
use cmake_sample.Manager.Add.{add_session_outcome}

-- No objects, no entries.
abbrev pub empty_world : World
empty_world = record { objects = []; sessions = []; calls = [] }

module _ (to_string : ℕ → List ℕ) (moves_duplicate : Bool) where
  -- A call that comes back, or a change of what a socket says of its peer.
  pub data Step (w : World) : World → Type 0 where
    makes :
        (remote : Result ℕ Endpoint) (p : Pointer) (w' : World)
        → make_session remote w ≡ (w', ok p)
        → Step w w'
    adds :
        (p : Pointer) (w' : World)
        → add_session to_string moves_duplicate p w ≡ (w', ok tt)
        → Step w w'
    removes : (p : Pointer) (w' : World) → remove_session to_string p w ≡ (w', ok tt) → Step w w'
    connects :
        (p : Pointer) (slot : Slot) (w' : World) → on_error p slot w ≡ (w', ok tt) → Step w w'
    emits : (p ec : ℕ) (w' : World) → emit_error to_string p ec w ≡ (w', ok tt) → Step w w'
    changes :
        (p : ℕ) (s : Session) (remote : Result ℕ Endpoint)
        → get_elem? w.objects p ≡ some s
        → Step w (record w { objects = set w.objects p (record s { remote = remote }) })

  pub data Run (w : World) : World → Type 0 where
    start : Run w w
    later : {u v : World} → Run w u → Step u v → Run w v

  pub session_id_keeps : (p : Pointer) (w : World) → (session_id to_string p w).0 ≡ w
  unfolding session_id deref
  session_id_keeps none w = refl
  session_id_keeps (some p) w = ground arith

  remove_session_empty :
      (p : Pointer) (w : World) → w.sessions ≡ [] → (remove_session to_string p w).0.sessions ≡ []
  unfolding remove_session erase
  remove_session_empty p w h = ground (arith, session_id_keeps p w)

  call_slots_empty :
      (p ec : ℕ) (slots : List Slot) (w : World)
      → w.sessions ≡ []
      → (call_slots to_string p ec slots w).0.sessions ≡ []
  unfolding call_slots call_slot
  call_slots_empty p ec [] w h = h
  call_slots_empty p ec (remove_from_manager ∷ rest) w h = ground (
    arith,
    remove_session_empty (some p) w h,
    call_slots_empty p ec rest (remove_session to_string (some p) w).0,
  )
  call_slots_empty p ec (other_slot k ∷ rest) w h = call_slots_empty p ec rest _ h

  emit_error_empty :
      (p ec : ℕ) (w : World) → w.sessions ≡ [] → (emit_error to_string p ec w).0.sessions ≡ []
  unfolding emit_error deref
  emit_error_empty p ec w h = elim (Option-cases (get_elem? w.objects p)) [
    | inl e ↦ ground arith
    | inr (s, e) ↦ ground (arith, call_slots_empty p ec s.slots w h)
  ]

  on_error_keeps :
      (p : Pointer) (slot : Slot) (w : World) → (on_error p slot w).0.sessions ≡ w.sessions
  unfolding on_error
  on_error_keeps none slot w = refl
  on_error_keeps (some p) slot w = ground arith

  -- On an empty manager `add_session` does not come back.
  add_session_empty :
      (p : ℕ) (w : World) (s : Session)
      → get_elem? w.objects p ≡ some s
      → w.sessions ≡ []
      → (add_session to_string moves_duplicate (some p) w).1 ≡ err null_dereference
  unfolding lookup
  add_session_empty p w s here h = elim (add_session_outcome to_string w p s here moves_duplicate) [
    | inl (new, e) ↦ ap (λ (r : World × Result Fault (Unit {0})). r.1) e
    | inr (inl (known, _, _)) ↦ absurd (known (rw h refl))
    | inr (inr (known, _, _)) ↦ absurd (known (rw h refl))
  ]

  add_session_stays :
      (p : Pointer) (w w' : World)
      → w.sessions ≡ []
      → add_session to_string moves_duplicate p w ≡ (w', ok tt)
      → w'.sessions ≡ []
  unfolding add_session session_id deref
  add_session_stays none w w' h e = cc
  add_session_stays (some p) w w' h e = elim (Option-cases (get_elem? w.objects p)) [
    | inl gone ↦ ground arith
    | inr (s, here) ↦ cc (add_session_empty p w s here h)
  ]

  Step-empty : {v w : World} → Step v w → v.sessions ≡ [] → w.sessions ≡ []
  unfolding make_session
  Step-empty (makes remote p w' e) h = cc
  Step-empty {v} (adds p w' e) h = add_session_stays p v w' h e
  Step-empty {v} (removes p w' e) h = cc (remove_session_empty p v h)
  Step-empty {v} (connects p slot w' e) h = cc (on_error_keeps p slot v)
  Step-empty {v} (emits p ec w' e) h = cc (emit_error_empty p ec v h)
  Step-empty (changes p s remote e) h = h

  Run-empty : {v w : World} → Run v w → v.sessions ≡ [] → w.sessions ≡ []
  Run-empty start h = h
  Run-empty (later r s) h = Step-empty s (Run-empty r h)

  -- As long as every call comes back, the manager holds no session: whatever calls there were, its
  -- map is empty, and a further `add_session`, of whatever session there is, dereferences a null
  -- pointer.
  pub manager_stays_empty :
      {w : World}
      → Run empty_world w
      → (w.sessions ≡ [])
        × ((p : ℕ) (s : Session)
            → get_elem? w.objects p ≡ some s
            → (add_session to_string moves_duplicate (some p) w).1 ≡ err null_dereference)
  manager_stays_empty {w} r =
      let empty = Run-empty r refl in (empty, λ p s here. add_session_empty p w s here empty)
