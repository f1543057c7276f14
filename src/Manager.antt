-- ===== src/Manager.antt =====
-- libs/comm/include/comm/session_manager.hpp: the class `session_manager`, and of session.hpp
-- beside it the signal of errors, by which a session calls the manager. Sessions are objects in a
-- store, and a `shared_ptr` is the number of its object, or null. That `std::to_string` and what
-- `std::map::emplace` does with its argument where the key is there already come from the library:
-- they are parameters.
pub mod Add
pub mod Runs
pub mod Left
pub mod Examples
use cmake_sample.Common.{
  ℕ, Bool, true, false, Option, none, some, List, [], ◌∷◌, ◌++◌, length, get_elem?, set, Result, ok,
  err, if◌then◌else◌, lookup, erase, bytes_key,
}
use cmake_sample.Session.{Endpoint, id}

-- A slot of the signal: the lambda of `add_session`, or that of another caller.
pub data Slot : Type 0 where
  remove_from_manager : Slot
  other_slot : ℕ → Slot

-- What `remote_endpoint` gives of the socket now, and the slots of `error_signal_`.
pub record Session : Type 0 where
  pub remote : Result ℕ Endpoint
  pub slots : List Slot

abbrev pub Pointer : Type 0
Pointer = Option ℕ

abbrev pub Name : Type 0
Name = List ℕ

-- A call of a slot of another caller: the slot, the session and the error code.
pub record SlotCall : Type 0 where
  pub slot : ℕ
  pub session : ℕ
  pub code : ℕ

-- The objects, the map `sessions_`, and the calls that other slots got.
pub record World : Type 0 where
  pub objects : List Session
  pub sessions : List (Name × Pointer)
  pub calls : List SlotCall

-- Undefined behaviour, and a loop that the fuel did not last for.
pub data Fault : Type 0 where
  null_dereference : Fault
  dangling : Fault
  unfinished : Fault

-- Calls read and write the world. What was written stays written when a call faults.
abbrev pub Action {ℓ} : Type ℓ → Type ℓ
Action A = World → World × Result Fault A

infixl 5 ◌>>=◌ ◌>>◌
abbrev pub ◌>>=◌ {ℓ κ} : {A : Type ℓ} {B : Type κ} → Action A → (A → Action B) → Action B
◌>>=◌ m f w = let (w', r) = m w in elim r [ ok a ↦ f a w' | err e ↦ (w', err e) ]

abbrev pub ◌>>◌ {ℓ κ} : {A : Type ℓ} {B : Type κ} → Action A → Action B → Action B
m >> k = m >>= λ _. k

-- `*p` and `p->...`.
pub deref : Pointer → Action Session
deref none w = (w, err null_dereference)
deref (some p) w = elim (get_elem? w.objects p) [ none ↦ (w, err dangling) | some s ↦ (w, ok s) ]

-- `std::make_shared<session>(std::move(socket))`.
unfoldable pub make_session : Result ℕ Endpoint → Action Pointer
make_session remote w = (
  record w { objects = w.objects ++ (record { remote = remote; slots = [] } ∷ []) },
  ok (some (length w.objects)),
)

-- `on_error`: the slot comes last.
pub on_error : Pointer → Slot → Action (Unit {0})
unfolding deref
on_error none slot w = (w, err null_dereference)
on_error (some p) slot w = elim (get_elem? w.objects p) [
  | none ↦ (w, err dangling)
  | some s ↦
      (record w { objects = set w.objects p (record s { slots = s.slots ++ (slot ∷ []) }) }, ok tt)
]

module _ (to_string : ℕ → List ℕ) where
  -- `p->id()`.
  pub session_id : Pointer → Action Name
  unfolding deref
  session_id p = deref p >>= λ s w. elim (id to_string s.remote) [
    | none ↦ (w, err unfinished)
    | some name ↦ (w, ok name)
  ]

  -- `sessions_.erase(session->id())`.
  pub remove_session : Pointer → Action (Unit {0})
  remove_session p =
      session_id p >>= λ name w. (record w { sessions = erase name w.sessions }, ok tt)

  -- A slot is called with the session and the error code.
  pub call_slot : ℕ → ℕ → Slot → Action (Unit {0})
  call_slot p ec remove_from_manager w = remove_session (some p) w
  call_slot p ec (other_slot k) w =
      (record w { calls = w.calls ++ (record { slot = k; session = p; code = ec } ∷ []) }, ok tt)

  -- The slots in the order in which they were connected.
  pub call_slots : ℕ → ℕ → List Slot → Action (Unit {0})
  call_slots p ec [] w = (w, ok tt)
  call_slots p ec (s ∷ rest) w = (call_slot p ec s >> call_slots p ec rest) w

  -- `emit_error` of the session `p`.
  pub emit_error : ℕ → ℕ → Action (Unit {0})
  emit_error p ec = deref (some p) >>= λ s. call_slots p ec s.slots

  module _ (moves_duplicate : Bool) where
    -- `sessions_.emplace(name, std::move(p))`, and what it leaves in `p`: a new entry takes the
    -- pointer, and leaves null.
    pub emplace : Name → Pointer → Action Pointer
    emplace name p w = elim (lookup name w.sessions) [
      | none ↦ (record w { sessions = (name, p) ∷ w.sessions }, ok none)
      | some _ ↦ (w, ok (if moves_duplicate then none else p))
    ]

    pub add_session : Pointer → Action (Unit {0})
    add_session new_session = do
      name ← session_id new_session
      left ← emplace name new_session
      on_error left remove_from_manager
