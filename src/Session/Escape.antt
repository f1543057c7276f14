-- ===== src/Session/Escape.antt =====
-- The loop that escapes each `%` ends, and does what it is for.
use cmake_sample.Common.{
  ℕ, zero, suc, ◌+◌, ◌<◌, ◌≡◌, ◌⊎◌, inl, inr, refl, sym, ap, ◌∙◌, false, none, some, List, [], ◌∷◌,
  ◌++◌, length, arith, ◌==◌, if◌then◌else◌, ==_iff, Bool-cases, append_assoc, length-append,
  take-append_left, drop-append_left, drop-append_add,
}
use cmake_sample.Session.{first_percent, find_percent, replace_percent, escape_loop}

-- Each `%` replaced by `%25`.
pub escaped : List ℕ → List ℕ
escaped [] = []
escaped (x ∷ xs) = if x == b'%' then b'%' ∷ b'2' ∷ b'5' ∷ escaped xs else x ∷ escaped xs

-- A text around its first `%`.
abbrev Around : List ℕ → ℕ → Type 0
Around s k =
    (a b : List ℕ) × (s ≡ a ++ (b'%' ∷ b))
    × (length a ≡ k)
    × (escaped s ≡ a ++ (b'%' ∷ b'2' ∷ b'5' ∷ escaped b))
    × (length b < length s)

Around-cons :
    (x : ℕ) (xs : List ℕ) (k : ℕ) → (x == b'%') ≡ false → Around xs k → Around (x ∷ xs) (suc k)
unfolding escaped
Around-cons x xs k ne (a, b, e, l, f, lt) =
    (x ∷ a, b, ap (◌∷◌ x) e, omega arith, rw ne (ap (◌∷◌ x) f), omega arith)

first_percent_cases :
    (s : List ℕ)
    → ((first_percent s ≡ none) × (escaped s ≡ s))
      ⊎ ((k : ℕ) × (first_percent s ≡ some k) × Around s k)
unfolding first_percent escaped
first_percent_cases [] = inl (refl, refl)
first_percent_cases (x ∷ xs) = elim (Bool-cases (x == b'%')) [
  | inl e ↦
      let same : x ≡ b'%' = (==_iff x b'%').0 e in
      inr (0, rw e refl, ([], xs, ap (λ y. y ∷ xs) same, refl, rw e refl, omega arith))
  | inr e ↦ elim (first_percent_cases xs) [
    | inl (h, f) ↦ inl (rw (e, h) refl, rw (e, f) refl)
    | inr (k, h, around) ↦ inr (suc k, rw (e, h) refl, Around-cons x xs k e around)
  ]
]

find_percent-append :
    (pre s : List ℕ)
    → find_percent (length pre) (pre ++ s)
      ≡ elim (first_percent s) [ none ↦ none | some i ↦ some (length pre + i) ]
unfolding find_percent
find_percent-append pre s = rw (drop-append_left pre s, find_percent)

replace_percent-append :
    (pre s : List ℕ)
    → replace_percent (length pre) (pre ++ (b'%' ∷ s)) ≡ (pre ++ (b'%' ∷ b'2' ∷ b'5' ∷ [])) ++ s
unfolding replace_percent
replace_percent-append pre s =
    rw (take-append_left pre (b'%' ∷ s), drop-append_add 1 pre (b'%' ∷ s))
      (sym (append_assoc pre (b'%' ∷ b'2' ∷ b'5' ∷ []) s))

-- One round: the first `%` behind the part that is done is escaped, and the rest is left.
escape_round :
    (fuel : ℕ) (pre a b : List ℕ)
    → first_percent (a ++ (b'%' ∷ b)) ≡ some (length a)
    → let done = (pre ++ a) ++ (b'%' ∷ b'2' ∷ b'5' ∷ []) in
      escape_loop (suc fuel) (length pre) (pre ++ (a ++ (b'%' ∷ b)))
      ≡ escape_loop fuel (length done) (done ++ b)
unfolding escape_loop
escape_round fuel pre a b found =
    let place : length pre + length a ≡ length (pre ++ a) = sym (length-append pre a) in
    let next : length (pre ++ a) + 3 ≡ length ((pre ++ a) ++ (b'%' ∷ b'2' ∷ b'5' ∷ [])) =
      sym (length-append (pre ++ a) (b'%' ∷ b'2' ∷ b'5' ∷ [])) in
    let seen : find_percent (length pre) (pre ++ (a ++ (b'%' ∷ b))) ≡ some (length (pre ++ a)) =
      find_percent-append pre (a ++ (b'%' ∷ b)) ∙ rw (found, place) in
    rw (seen, escape_loop)
      (rw (← append_assoc pre a (b'%' ∷ b), replace_percent-append (pre ++ a) b, next))

escape_loop_from :
    (fuel : ℕ) (pre s : List ℕ)
    → length s < fuel
    → escape_loop fuel (length pre) (pre ++ s) ≡ some (pre ++ escaped s)
unfolding escape_loop
escape_loop_from zero pre s h = absurd (omega arith)
escape_loop_from (suc fuel) pre s h = elim (first_percent_cases s) [
  | inl (none_left, same) ↦
      let seen : find_percent (length pre) (pre ++ s) ≡ none =
        find_percent-append pre s ∙ rw none_left in
      rw (seen, escape_loop) (ap (λ r. some (pre ++ r)) (sym same))
  | inr (k, found, (a, b, e, l, f, lt)) ↦
      let found_here : first_percent (a ++ (b'%' ∷ b)) ≡ some (length a) = rw (← e, l) found in
      let done = (pre ++ a) ++ (b'%' ∷ b'2' ∷ b'5' ∷ []) in
      let end : done ++ escaped b ≡ pre ++ escaped s =
        append_assoc (pre ++ a) _ (escaped b) ∙ append_assoc pre a _ ∙ ap (λ r. pre ++ r) (sym f) in
      ap (λ r. escape_loop (suc fuel) (length pre) (pre ++ r)) e
      ∙ escape_round fuel pre a b found_here
      ∙ escape_loop_from fuel done b (omega arith)
      ∙ ap some end
]

-- The loop ends within one round more than the text has bytes, and every `%` of the text has then
-- become `%25`.
pub escape_loop_lem : (s : List ℕ) → escape_loop (suc (length s)) 0 s ≡ some (escaped s)
escape_loop_lem s = escape_loop_from (suc (length s)) [] s (omega arith)

-- No two texts have the same escaped form.
pub escaped_injective : (s t : List ℕ) → escaped s ≡ escaped t → s ≡ t
unfolding escaped
escaped_injective [] [] h = refl
escaped_injective [] (y ∷ ys) h = ground arith
escaped_injective (x ∷ xs) [] h = ground arith
escaped_injective (x ∷ xs) (y ∷ ys) h = elim (Bool-cases (x == b'%')) [
  | inl e ↦ elim (Bool-cases (y == b'%')) [
    | inl f ↦
        let both : b'%' ∷ b'2' ∷ b'5' ∷ escaped xs ≡ b'%' ∷ b'2' ∷ b'5' ∷ escaped ys =
          simp (e, f) at h in
        let tails : escaped xs ≡ escaped ys = cc in
        cc (escaped_injective xs ys tails, (==_iff x b'%').0 e, (==_iff y b'%').0 f)
    | inr f ↦
        let one : b'%' ∷ b'2' ∷ b'5' ∷ escaped xs ≡ y ∷ escaped ys = simp (e, f) at h in
        let head : b'%' ≡ y = cc in let same = (==_iff y b'%').1 (sym head) in cc
  ]
  | inr e ↦ elim (Bool-cases (y == b'%')) [
    | inl f ↦
        let one : x ∷ escaped xs ≡ b'%' ∷ b'2' ∷ b'5' ∷ escaped ys = simp (e, f) at h in
        let head : x ≡ b'%' = cc in let same = (==_iff x b'%').1 head in cc
    | inr f ↦
        let neither : x ∷ escaped xs ≡ y ∷ escaped ys = simp (e, f) at h in
        let tails : escaped xs ≡ escaped ys = cc in cc (escaped_injective xs ys tails)
  ]
]
