-- ===== src/Manager/Examples.antt =====
-- The theorems about the session manager, with one or two sessions.
use cmake_sample.Common.{
  ℕ, ◌≡◌, ◌≢◌, ◌⊎◌, refl, true, false, none, some, List, [], ◌∷◌, get_elem?, ok, err, lookup,
  bytes_key,
}
use cmake_sample.Session.{Endpoint}
use cmake_sample.Session.Identity.{identifier}
use cmake_sample.Manager.{Session, World, null_dereference, add_session, make_session}
use cmake_sample.Manager.Add.{stored, connected, add_session_outcome}
use cmake_sample.Manager.Runs.{empty_world, Run, makes, start, later, manager_stays_empty}

-- Every port is written as 80.
abbrev eighty : ℕ → List ℕ
eighty n = b'8' ∷ b'0' ∷ []

abbrev here : Endpoint
here = record { is_v6 = false; address = b'1' ∷ b'.' ∷ b'2' ∷ []; port = 80 }

abbrev fresh : Session
fresh = record { remote = ok here; slots = [] }

abbrev one_fresh : World
one_fresh = record { objects = fresh ∷ []; sessions = []; calls = [] }

add_session_outcome_example :
    let after = add_session eighty true (some 0) one_fresh in
    let known = lookup (identifier eighty (ok here)) one_fresh.sessions in
    ((known ≡ none) × (after ≡ (stored eighty one_fresh 0 fresh refl, err null_dereference)))
    ⊎ ((known ≢ none) × (true ≡ true) × (after ≡ (one_fresh, err null_dereference)))
    ⊎ ((known ≢ none) × (true ≡ false) × (after ≡ (connected eighty one_fresh 0 fresh refl, ok tt)))
add_session_outcome_example = add_session_outcome eighty one_fresh 0 fresh refl true

one_made : Run eighty true empty_world one_fresh
unfolding make_session
one_made = later start (makes (ok here) (some 0) one_fresh refl)

manager_stays_empty_example :
    (one_fresh.sessions ≡ [])
    × ((p : ℕ) (s : Session)
        → get_elem? one_fresh.objects p ≡ some s
        → (add_session eighty true (some p) one_fresh).1 ≡ err null_dereference)
manager_stays_empty_example = manager_stays_empty eighty true one_made
