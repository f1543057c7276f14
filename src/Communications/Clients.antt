-- ===== src/Communications/Clients.antt =====
-- What the session manager makes of a client that is not connected yet.
use cmake_sample.Common.{
  ℕ, ◌≡◌, refl, ap, some, List, [], ◌∷◌, ◌++◌, length, get_elem?, Result, ok, err,
}
use cmake_sample.Session.{unknown_id}
use cmake_sample.Manager.{World, Session, Fault, ◌>>=◌, make_session, session_id}
use cmake_sample.Manager.Add.{session_id_lem}
use cmake_sample.Communications.{make_client}

get_elem?-last :
    {A : Type 0} (xs : List A) (x : A) → get_elem? (xs ++ (x ∷ [])) (length xs) ≡ some x
get_elem?-last [] x = refl
get_elem?-last (y ∷ xs) x = get_elem?-last xs x

-- Every new client has the identifier of a session without an endpoint, the same for all of them.
pub make_client-session_id :
    (to_string : ℕ → List ℕ) (not_open : ℕ) (w : World)
    → ((make_client not_open >>= session_id to_string) w).1 ≡ ok unknown_id
unfolding make_client make_session
make_client-session_id to_string not_open w =
    let made : Session = record { remote = err not_open; slots = [] } in
    let after : World = record w { objects = w.objects ++ (made ∷ []) } in
    ap (λ (r : World × Result Fault (List ℕ)). r.1)
      (session_id_lem to_string after (length w.objects) made (get_elem?-last w.objects made))
