-- ===== src/Settings/Laws.antt =====
-- What the conversions rely on of Boost.JSON, as its documentation has it, and how a member of an
-- object that was just built is read.
use cmake_sample.Common.{
  ◌≡◌, ◌∙◌, sym, inl, inr, Option-cases, Bool, false, none, some, List, [], ◌∷◌, String, Result, ok,
  err, ◌>>=◌, if◌then◌else◌,
}
use cmake_sample.Settings.{Json, member}
use text.Mathlib.Text.{◌==◌ as str_eq}
use text.Mathlib.TextPositions.{eq_refl}

-- Every element is converted, and the first failure is the result.
abbrev pub traverse {ℓ} :
    {E : Type 0} {A : Type ℓ} {B : Type 0} → (A → Result E B) → List A → Result E (List B)
traverse f [] = ok []
traverse f (x ∷ xs) = f x >>= λ y. traverse f xs >>= λ ys. ok (y ∷ ys)

pub record IsJson (json : Json) : Type 1 where
  pub at_found :
      (o : json.Object) (k : String) (v : json.Value)
      → json.if_contains o k ≡ some v
      → json.object_at o k ≡ ok v
  pub contains_empty : (k : String) → json.if_contains json.empty_object k ≡ none
  pub contains_assign :
      (o : json.Object) (k l : String) (v : json.Value)
      → json.if_contains (json.assign o k v) l
        ≡ (if str_eq k l then some v else json.if_contains o l)
  pub object_of_object : (o : json.Object) → json.as_object (json.from_object o) ≡ ok o
  pub bool_of_bool : (b : Bool) → json.to_bool (json.from_bool b) ≡ ok b
  pub string_of_string : (s : String) → json.to_string (json.from_string s) ≡ ok s
  -- An optional is its value or null, and null is no string.
  pub optional_some : (s : String) → json.from_optional (some s) ≡ json.from_string s
  pub null_not_string : (e : json.Error) × (json.to_string (json.from_optional none) ≡ err e)
  pub vector_of_vector :
      {A B : Type 0} (f : json.Value → Result json.Error B) (g : A → json.Value) (xs : List A)
      → json.to_vector f (json.from_vector g xs) ≡ traverse (λ x. f (g x)) xs
  -- An array is converted element by element; anything else is refused whatever its elements were to be.
  pub vector_of_elements :
      {B : Type 0} (f : json.Value → Result json.Error B) (v : json.Value)
      → json.to_vector f v ≡ (json.to_vector ok v >>= traverse f)

module _ (json : Json) (laws : IsJson json) {A : Type 0}
    (convert : json.Value → Result json.Error A) (default : A) where
  pub member-found :
      (o : json.Object) (k : String) (v : json.Value)
      → json.if_contains o k ≡ some v
      → member json convert default o k ≡ convert v
  unfolding member
  member-found o k v e = rw (e, member) (rw (laws.at_found o k v e))

  pub member-missing :
      (o : json.Object) (k : String)
      → json.if_contains o k ≡ none
      → member json convert default o k ≡ ok default
  unfolding member
  member-missing o k e = rw (e, member)

  pub member-assign_self :
      (o : json.Object) (k : String) (v : json.Value)
      → member json convert default (json.assign o k v) k ≡ convert v
  member-assign_self o k v = member-found _ k v (laws.contains_assign o k k v ∙ rw (eq_refl k))

  pub member-assign_ne :
      (o : json.Object) (k l : String) (v : json.Value)
      → str_eq k l ≡ false
      → member json convert default (json.assign o k v) l ≡ member json convert default o l
  member-assign_ne o k l v ne =
      let same : json.if_contains (json.assign o k v) l ≡ json.if_contains o l =
        laws.contains_assign o k l v ∙ rw ne in
      elim (Option-cases (json.if_contains o l)) [
        | inl e ↦ member-missing _ l (same ∙ e) ∙ sym (member-missing o l e)
        | inr (w, e) ↦ member-found _ l w (same ∙ e) ∙ sym (member-found o l w e)
      ]

  pub member-empty : (k : String) → member json convert default json.empty_object k ≡ ok default
  member-empty k = member-missing _ k (laws.contains_empty k)
