-- ===== src/Manager/Left.antt =====
-- What removals and errors leave of the manager's map: the objects, and some of the entries.
use cmake_sample.Common.{
  true, Result, ℕ, ◌≡◌, ◌⊎◌, inl, inr, refl, ◌∙◌, Option, none, some, List, [], ◌∷◌, ok, err, arith,
  lookup, erase, lookup-erase, get_elem?, bytes_key,
}
use cmake_sample.Manager.{
  Pointer, Name, Action, ◌>>=◌, Fault, dangling, Session, Slot, remove_from_manager, other_slot,
  World, deref, session_id, remove_session, call_slot, call_slots, emit_error,
}
use cmake_sample.Manager.Runs.{session_id_keeps}

-- The same sessions, of which the map may have lost entries.
pub record IsLeft (v w : World) : Type 0 where
  pub same_objects : w.objects ≡ v.objects
  pub fewer :
      (k : Name) → (lookup k w.sessions ≡ lookup k v.sessions) ⊎ (lookup k w.sessions ≡ none)

pub IsLeft-refl : (w : World) → IsLeft w w
IsLeft-refl w = record { same_objects = refl; fewer = λ k. inl refl }

pub IsLeft-trans : (u v w : World) → IsLeft u v → IsLeft v w → IsLeft u w
IsLeft-trans u v w a b = record {
  same_objects = b.same_objects ∙ a.same_objects;
  fewer = λ k. elim (b.fewer k) [
    | inr gone ↦ inr gone
    | inl same ↦ elim (a.fewer k) [ inl same' ↦ inl (same ∙ same') | inr gone ↦ inr (same ∙ gone) ]
  ];
}

-- Calls that leave, in sequence.
bind-IsLeft {ℓ κ} :
    {A : Type ℓ} {B : Type κ} (m : Action A) (f : A → Action B) (w : World)
    → IsLeft w (m w).0
    → ((a : A) (v : World) → IsLeft v (f a v).0)
    → IsLeft w ((m >>= f) w).0
bind-IsLeft {A = A} {B = B} m f w first then = go ((m w).1)
  where
    go :
        (r : Result Fault A)
        → IsLeft w
            (elim r as (λ x. World × Result Fault B) [
              | ok a ↦ f a (m w).0
              | err e ↦ ((m w).0, err e)
            ]).0
    go (ok a) = IsLeft-trans w (m w).0 _ first (then a (m w).0)
    go (err e) = first

deref-IsLeft : (p : Pointer) (w : World) → IsLeft w (deref p w).0
unfolding deref
deref-IsLeft none w = IsLeft-refl w
deref-IsLeft (some p) w = go (get_elem? w.objects p)
  where
    go :
        (found : Option Session)
        → IsLeft w
            (elim found as (λ x. World × Result Fault Session) [
              | none ↦ (w, err dangling)
              | some s ↦ (w, ok s)
            ]).0
    go none = IsLeft-refl w
    go (some s) = IsLeft-refl w

module _ (to_string : ℕ → List ℕ) where
  erase-IsLeft :
      (name : Name) (w : World) → IsLeft w (record w { sessions = erase name w.sessions })
  erase-IsLeft name w = record {
    same_objects = refl;
    fewer = λ k. ground (arith, lookup-erase name k w.sessions);
  }

  remove_session-IsLeft : (p : Pointer) (w : World) → IsLeft w (remove_session to_string p w).0
  unfolding remove_session
  remove_session-IsLeft p w =
      bind-IsLeft (session_id to_string p)
        (λ name v. (record v { sessions = erase name v.sessions }, ok tt)) w
        (rw (session_id_keeps to_string true p w) (IsLeft-refl w)) erase-IsLeft

  call_slot-IsLeft : (p ec : ℕ) (s : Slot) (w : World) → IsLeft w (call_slot to_string p ec s w).0
  unfolding call_slot
  call_slot-IsLeft p ec remove_from_manager w = remove_session-IsLeft (some p) w
  call_slot-IsLeft p ec (other_slot k) w = record { same_objects = refl; fewer = λ k. inl refl }

  call_slots-IsLeft :
      (p ec : ℕ) (slots : List Slot) (w : World) → IsLeft w (call_slots to_string p ec slots w).0
  unfolding call_slots
  call_slots-IsLeft p ec [] w = IsLeft-refl w
  call_slots-IsLeft p ec (s ∷ rest) w =
      bind-IsLeft (call_slot to_string p ec s) (λ _. call_slots to_string p ec rest) w
        (call_slot-IsLeft p ec s w) (λ _. call_slots-IsLeft p ec rest)

  pub emit_error-IsLeft : (p ec : ℕ) (w : World) → IsLeft w (emit_error to_string p ec w).0
  unfolding emit_error
  emit_error-IsLeft p ec w =
      bind-IsLeft (deref (some p)) (λ s. call_slots to_string p ec s.slots) w
        (deref-IsLeft (some p) w) (λ s. call_slots-IsLeft p ec s.slots)
