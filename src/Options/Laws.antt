-- ===== src/Options/Laws.antt =====
-- What writing settings and reading them back relies on of the parser, and the small functions of
-- options.cpp.
use cmake_sample.Common.{
  bytes_eq, ℕ, ◌+◌, ◌≤◌, ◌<◌, ◌≡◌, ◌≢◌, ◌⊎◌, inl, inr, refl, ap, sym, ◌∙◌, Bool, true, false, List,
  [], ◌∷◌, ◌++◌, map, ok, ◌==◌, arith, All, ◌↔◌, Bool-cases,
}
use cmake_sample.Settings.{
  Json, InputFile, ClientSettings, resolve_relative_path, client_data, input_file_data,
  from_input_file,
}
use cmake_sample.Options.{
  Files, to_lower, to_lower_copy, jsonc, is_jsonc, bom, strip_bom, is_jsonc_path,
}

-- Boost.JSON reads what it wrote of the settings, which nest four deep and hold no numbers, whatever
-- the options, and writes an object from its brace on.
pub record IsFiles (json : Json) (files : Files json) : Type 0 where
  pub parse_serialize :
      (c t : Bool) (f : InputFile)
      → files.parse c t (files.serialize (from_input_file json f)) ≡ ok (from_input_file json f)
  pub serialize_object :
      (o : json.Object) → (rest : List ℕ) × (files.serialize (json.from_object o) ≡ b'{' ∷ rest)

resolve_clients_id :
    {P : Type 0} (path : P) (cs : List ClientSettings) → map (resolve_relative_path path) cs ≡ cs
resolve_clients_id path [] = refl
resolve_clients_id path (c ∷ cs) = ap (◌∷◌ c) (resolve_clients_id path cs)

-- The paths of an input file: there are none.
pub resolve_relative_path_id :
    {P : Type 0} (path : P) (f : InputFile) → resolve_relative_path path f ≡ f
resolve_relative_path_id path f = cc (resolve_clients_id path f.communications.clients)

-- A text that begins with the mark loses the mark and nothing else.
pub strip_bom-append : (text : List ℕ) → strip_bom (bom ++ text) ≡ text
unfolding strip_bom
strip_bom-append text = refl

-- A text that begins with another byte is kept.
pub strip_bom_other : (b : ℕ) (text : List ℕ) → b ≢ 0xEF → strip_bom (b ∷ text) ≡ b ∷ text
unfolding strip_bom
strip_bom_other a (b ∷ c ∷ rest) h = ground arith
strip_bom_other a text h = refl

-- A letter in either case, for a second byte that is no capital.
abbrev pub SameLetter : ℕ → ℕ → Type 0
SameLetter a b = (a ≡ b) ⊎ ((b'A' ≤ a) × (a ≤ b'Z') × (b ≡ a + 32))

abbrev pub AllSame : List ℕ → List ℕ → Type 0
AllSame [] [] = Unit
AllSame (x ∷ xs) (y ∷ ys) = SameLetter x y × AllSame xs ys
AllSame _ _ = ⊥

abbrev IsNoCapital : ℕ → Type 0
IsNoCapital y = (y < b'A') ⊎ (b'Z' < y)

letter_iff : (x y : ℕ) → IsNoCapital y → ((to_lower x == y) ≡ true) ↔ SameLetter x y
unfolding to_lower
letter_iff x y h = ((λ e. ground arith), (λ e. ground arith))

bytes_eq_lem :
    (xs ys : List ℕ) → All IsNoCapital ys → (bytes_eq (to_lower_copy xs) ys ≡ true) ↔ AllSame xs ys
unfolding bytes_eq to_lower_copy
bytes_eq_lem [] [] h = ((λ e. tt), (λ e. refl))
bytes_eq_lem [] (y ∷ ys) h = ((λ e. cc), (λ e. absurd e))
bytes_eq_lem (x ∷ xs) [] h = ((λ e. cc), (λ e. absurd e))
bytes_eq_lem (x ∷ xs) (y ∷ ys) h =
    let head = letter_iff x y h.0 in
    let rest = bytes_eq_lem xs ys h.1 in
    elim (Bool-cases (to_lower x == y)) [
      | inl e ↦ ((λ b. (head.0 e, rest.0 (rw e at b))), (λ s. rw e (rest.1 s.1)))
      | inr e ↦ (
        (λ b. let no_match : false ≡ true = rw e at b in cc),
        (λ s. let yes_match = head.1 s.0 in cc),
      )
    ]

-- The extension counts as `.jsonc` exactly when it is that text, in any mixture of cases.
pub is_jsonc_iff : (extension : List ℕ) → (is_jsonc extension ≡ true) ↔ AllSame extension jsonc
unfolding is_jsonc
is_jsonc_iff extension = bytes_eq_lem extension jsonc (omega arith)

-- The extension is ".jsonc", in any mixture of cases.
abbrev pub SaysJsonc : List ℕ → Type 0
SaysJsonc extension = AllSame extension (b'.' ∷ b'j' ∷ b's' ∷ b'o' ∷ b'n' ∷ b'c' ∷ [])

-- The one says whether the other is so.
abbrev pub Tells : Bool → Type 0 → Type 0
Tells b P = (b ≡ true) ↔ P

pub told_same : {P : Type 0} (a b : Bool) → Tells a P → Tells b P → a ≡ b
told_same true true f g = refl
told_same true false f g = let bad = g.1 (f.0 refl) in cc
told_same false true f g = let bad = f.1 (g.0 refl) in cc
told_same false false f g = refl

-- The text without the mark that it begins with, or as it is where it begins otherwise.
abbrev pub Behind : List ℕ → List ℕ → Type 0
Behind text body =
    (text ≡ 0xEF ∷ 0xBB ∷ 0xBF ∷ body)
    ⊎ ((body ≡ text) × ((rest : List ℕ) → text ≢ 0xEF ∷ 0xBB ∷ 0xBF ∷ rest))

pub strip_bom-Behind : (text : List ℕ) → Behind text (strip_bom text)
unfolding strip_bom
strip_bom-Behind [] = inr (refl, λ rest e. cc)
strip_bom-Behind (a ∷ []) = inr (refl, λ rest e. cc)
strip_bom-Behind (a ∷ b ∷ []) = inr (refl, λ rest e. cc)
strip_bom-Behind (a ∷ b ∷ c ∷ rest) = ground arith

pub Behind-strip_bom : (text body : List ℕ) → Behind text body → strip_bom text ≡ body
Behind-strip_bom text body (inl e) = rw e (strip_bom-append body)
Behind-strip_bom text body (inr (e, other)) = elim (strip_bom-Behind text) [
  | inl marked ↦ absurd (other _ marked)
  | inr (same, _) ↦ same ∙ sym e
]

pub is_jsonc_path-Tells :
    (json : Json) (files : Files json) (path : files.FilePath)
    → Tells (is_jsonc_path json files path) (SaysJsonc (files.extension path))
unfolding is_jsonc_path
is_jsonc_path-Tells json files path = is_jsonc_iff (files.extension path)
