-- ===== src/Settings/Sample.antt =====
-- A small JSON library in which the laws of `IsJson` hold, for the examples.
use cmake_sample.Common.{
  ◌≡◌, ◌∙◌, refl, ap, Bool, Option, none, some, List, [], ◌∷◌, String, Result, ok, err, ◌>>=◌,
  if◌then◌else◌,
}
use cmake_sample.Settings.{Json}
use cmake_sample.Settings.Laws.{IsJson, traverse}
use text.Mathlib.Text.{◌==◌ as str_eq}

-- Arrays are chains of `item`s, objects chains of `member`s, both up to `end`.
pub data Value : Type 0 where
  null end : Value
  boolean : Bool → Value
  string : String → Value
  item : Value → Value → Value
  member : String → Value → Value → Value
  object : Value → Value

abbrev as_object : Value → Result String Value
as_object (object o) = ok o
as_object v = err "not an object"

abbrev if_contains : Value → String → Option Value
if_contains (member k v o) l = if str_eq k l then some v else if_contains o l
if_contains v l = none

abbrev object_at : Value → String → Result String Value
object_at o k = elim (if_contains o k) [ none ↦ err "out of range" | some v ↦ ok v ]

abbrev to_bool : Value → Result String Bool
to_bool (boolean b) = ok b
to_bool v = err "not a bool"

abbrev to_string : Value → Result String String
to_string (string s) = ok s
to_string v = err "not a string"

abbrev to_vector : {A : Type 0} → (Value → Result String A) → Value → Result String (List A)
to_vector f (item v rest) = f v >>= λ x. to_vector f rest >>= λ xs. ok (x ∷ xs)
to_vector f v = ok []

abbrev from_optional : Option String → Value
from_optional none = null
from_optional (some s) = string s

abbrev from_vector : {A : Type 0} → (A → Value) → List A → Value
from_vector g [] = end
from_vector g (x ∷ xs) = item (g x) (from_vector g xs)

abbrev pub sample_json : Json
sample_json = record {
  Value = Value;
  Object = Value;
  Error = String;
  as_object = as_object;
  if_contains = if_contains;
  object_at = object_at;
  to_bool = to_bool;
  to_string = to_string;
  to_vector = to_vector;
  empty_object = end;
  assign = λ o k v. member k v o;
  from_object = object;
  from_bool = boolean;
  from_string = string;
  from_optional = from_optional;
  from_vector = from_vector;
}

vector_law :
    {A B : Type 0} (f : Value → Result String B) (g : A → Value) (xs : List A)
    → to_vector f (from_vector g xs) ≡ traverse (λ x. f (g x)) xs
vector_law f g [] = refl
vector_law f g (x ∷ xs) = ap (λ r. f (g x) >>= λ y. r >>= λ ys. ok (y ∷ ys)) (vector_law f g xs)

elements : (v : Value) → (es : List Value) × (to_vector ok v ≡ ok es)
elements (item v rest) = let (es, e) = elements rest in (v ∷ es, rw e refl)
elements null = ([], refl)
elements end = ([], refl)
elements (boolean b) = ([], refl)
elements (string s) = ([], refl)
elements (member k v rest) = ([], refl)
elements (object o) = ([], refl)

elements_law :
    {B : Type 0} (f : Value → Result String B) (v : Value)
    → to_vector f v ≡ (to_vector ok v >>= traverse f)
elements_law f (item v rest) =
    let (es, e) = elements rest in
    let tail : to_vector f rest ≡ traverse f es = elements_law f rest ∙ rw e refl in
    rw (e, tail) refl
elements_law f null = refl
elements_law f end = refl
elements_law f (boolean b) = refl
elements_law f (string s) = refl
elements_law f (member k v rest) = refl
elements_law f (object o) = refl

pub sample_json-IsJson : IsJson sample_json
sample_json-IsJson = record {
  at_found = λ o k v e. rw (e, object_at);
  contains_empty = λ k. refl;
  contains_assign = λ o k l v. refl;
  object_of_object = λ o. refl;
  bool_of_bool = λ b. refl;
  string_of_string = λ s. refl;
  optional_some = λ s. refl;
  null_not_string = ("not a string", refl);
  vector_of_vector = vector_law;
  vector_of_elements = elements_law;
}
