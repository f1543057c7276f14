-- ===== src/Options/Sample.antt =====
-- A parser and a printer for the small JSON library of Settings/Sample, and the files of the
-- examples.
use cmake_sample.Common.{
  ℕ, ◌+◌, ◌-◌, ◌≡◌, arith, leb, ◌==◌, if◌then◌else◌, refl, ap, ◌∙◌, true, false, some, List, [],
  ◌∷◌, String, Result, ok, err,
}
use cmake_sample.Settings.Sample.{
  Value, null, end, boolean, string, item, member, object, sample_json,
}
use cmake_sample.Settings.{from_input_file}
use cmake_sample.Options.{Files}
use cmake_sample.Options.Laws.{IsFiles}
use Prim.Native.Nat.{Ordering, compare}
use Prim.Native.Char.{Char, char, code, IsLt, IsScalar}
use Prim.Native.String.{[] as empty, ◌∷◌ as ◌glued◌}
use text.Mathlib.TextEquality.{Char-path}

-- Which numbers are characters.
abbrev Below : Ordering → Ordering → Type 0
Below Ordering.lt o = IsLt o
Below Ordering.eq _ = ⊥
Below Ordering.gt _ = ⊥

abbrev IsCharacter : Ordering → Ordering → Ordering → Type 0
IsCharacter Ordering.lt _ _ = Unit
IsCharacter Ordering.eq o p = Below o p
IsCharacter Ordering.gt o p = Below o p

decide_below : (o p : Ordering) → Dec (Below o p)
decide_below Ordering.lt Ordering.lt = yes tt
decide_below Ordering.lt Ordering.eq = no (λ e. e)
decide_below Ordering.lt Ordering.gt = no (λ e. e)
decide_below Ordering.eq p = no (λ e. e)
decide_below Ordering.gt p = no (λ e. e)

decide_character : (a o p : Ordering) → Dec (IsCharacter a o p)
decide_character Ordering.lt o p = yes tt
decide_character Ordering.eq o p = decide_below o p
decide_character Ordering.gt o p = decide_below o p

or_a : (n : ℕ) → Dec (IsScalar n) → Char
or_a n (yes h) = char n h
or_a n (no bad) = "a"

code-or_a : (n : ℕ) (d : Dec (IsScalar n)) → IsScalar n → code (or_a n d) ≡ n
unfolding or_a
code-or_a n (yes h) k = refl
code-or_a n (no bad) k = absurd (bad k)

to_char : ℕ → Char
to_char n = or_a n (decide_character (compare n 55296) (compare 57343 n) (compare n 1114112))

code-to_char : (n : ℕ) → IsScalar n → code (to_char n) ≡ n
unfolding to_char
code-to_char n h = code-or_a n _ h

to_char-code : (c : Char) → to_char (code c) ≡ c
to_char-code (char n h) = Char-path _ _ (code-to_char n h)

-- The printed form is read from left to right on a stack of values: a mark below 200 builds a value
-- from the ones on the stack, a number from 200 on adds a character to the text on top.
glue : ℕ → List Value → List Value
glue n (string s ∷ st) = string (to_char (n - 200) glued s) ∷ st
glue n st = st

abbrev build_item : List Value → List Value
build_item (w ∷ v ∷ st) = item v w ∷ st
build_item st = st

abbrev build_member : List Value → List Value
build_member (w ∷ v ∷ string k ∷ st) = member k v w ∷ st
build_member st = st

abbrev build_object : List Value → List Value
build_object (v ∷ st) = object v ∷ st
build_object st = st

build : ℕ → List Value → List Value
build n st =
    if leb 200 n
    then glue n st
    else if n == 0
    then null ∷ st
    else if n == 1
    then end ∷ st
    else if n == 2
    then boolean false ∷ st
    else if n == 3
    then boolean true ∷ st
    else if n == 4
    then string empty ∷ st
    else if n == 5
    then build_item st
    else if n == 6
    then build_member st
    else if n == 7
    then build_object st
    else st

pub read_all : List ℕ → List Value → List Value
read_all [] st = st
read_all (n ∷ ns) st = read_all ns (build n st)

-- The characters of a text, the last one first, so that each is glued to the front.
print_text : String → List ℕ → List ℕ
print_text empty rest = 4 ∷ rest
print_text (c glued s) rest = print_text s ((200 + code c) ∷ rest)

pub print : Value → List ℕ → List ℕ
unfolding print_text
print null rest = 0 ∷ rest
print end rest = 1 ∷ rest
print (boolean false) rest = 2 ∷ rest
print (boolean true) rest = 3 ∷ rest
print (string s) rest = print_text s rest
print (item v w) rest = print v (print w (5 ∷ rest))
print (member k v w) rest = print_text k (print v (print w (6 ∷ rest)))
print (object v) rest = b'{' ∷ print v (7 ∷ rest)

build_glue :
    (c : Char) (s : String) (st : List Value)
    → build (200 + code c) (string s ∷ st) ≡ string (c glued s) ∷ st
unfolding build glue
build_glue c s st =
    let large : leb 200 (200 + code c) ≡ true = ground arith in
    let same : 200 + code c - 200 ≡ code c = omega arith in rw (large, same, to_char-code c)

read_all-print_text :
    (s : String) (rest : List ℕ) (st : List Value)
    → read_all (print_text s rest) st ≡ read_all rest (string s ∷ st)
unfolding read_all print_text build
read_all-print_text empty rest st = refl
read_all-print_text (c glued s) rest st =
    read_all-print_text s ((200 + code c) ∷ rest) st ∙ ap (read_all rest) (build_glue c s st)

read_all-print :
    (v : Value) (rest : List ℕ) (st : List Value)
    → read_all (print v rest) st ≡ read_all rest (v ∷ st)
unfolding read_all print build
read_all-print null rest st = refl
read_all-print end rest st = refl
read_all-print (boolean false) rest st = refl
read_all-print (boolean true) rest st = refl
read_all-print (string s) rest st = read_all-print_text s rest st
read_all-print (item v w) rest st =
    read_all-print v (print w (5 ∷ rest)) st ∙ read_all-print w (5 ∷ rest) (v ∷ st)
read_all-print (member k v w) rest st =
    read_all-print_text k (print v (print w (6 ∷ rest))) st
    ∙ (read_all-print v (print w (6 ∷ rest)) (string k ∷ st)
        ∙ read_all-print w (6 ∷ rest) (v ∷ string k ∷ st))
read_all-print (object v) rest st = read_all-print v (7 ∷ rest) st

abbrev pub top : List Value → Result String Value
top [] = err "empty"
top (v ∷ st) = ok v

-- One file of the given content, and no other.
abbrev pub sample_files : List ℕ → Files sample_json
sample_files content = record {
  FilePath = List ℕ;
  path_string = λ p. "etc/app.jsonc";
  extension = λ p. p;
  parent_path = λ p. [];
  open_file = λ p. elim p [ [] ↦ err "no such file" | _ ∷ _ ↦ ok content ];
  parse = λ c t bytes. top (read_all bytes []);
  serialize = λ v. print v [];
  what = λ e. some e;
}

pub sample_files-IsFiles : (content : List ℕ) → IsFiles sample_json (sample_files content)
unfolding print read_all
sample_files-IsFiles content = record {
  parse_serialize = λ c t f. ap top (read_all-print (from_input_file sample_json f) [] []);
  serialize_object = λ o. (print o (7 ∷ []), refl);
}
