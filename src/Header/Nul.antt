-- ===== src/Header/Nul.antt =====
-- The C string at the front of a byte range, and what `std::find` of a NUL says of it.
use cmake_sample.Common.{
  ℕ, zero, suc, ◌≤◌, ◌<◌, ◌≡◌, ◌≢◌, ◌⊎◌, inl, inr, refl, ap, List, [], ◌∷◌, ◌++◌, length, take,
  replicate, All, arith, ◌==◌, if◌then◌else◌, Bool-cases, ==_iff,
}
use cmake_sample.Header.{find}

-- The bytes in front of the first NUL.
unfoldable pub before_nul : List ℕ → List ℕ
before_nul [] = []
before_nul (x ∷ xs) = if x == 0 then [] else x ∷ before_nul xs

abbrev pub IsNulFree : List ℕ → Type 0
IsNulFree = All (λ x. x ≢ 0)

pub take-find : (xs : List ℕ) → take (find 0 xs) xs ≡ before_nul xs
unfolding find before_nul
take-find [] = refl
take-find (x ∷ xs) = ground (arith, take-find xs)

pub find-before_nul : (xs : List ℕ) → find 0 xs ≡ length (before_nul xs)
unfolding find before_nul
find-before_nul [] = refl
find-before_nul (x ∷ xs) = ground (arith, find-before_nul xs)

pub length-before_nul : (xs : List ℕ) → length (before_nul xs) ≤ length xs
unfolding before_nul
length-before_nul [] = omega arith
length-before_nul (x ∷ xs) = ground (arith, length-before_nul xs)

pub before_nul-IsNulFree : (xs : List ℕ) → IsNulFree (before_nul xs)
unfolding before_nul
before_nul-IsNulFree [] = tt
before_nul-IsNulFree (x ∷ xs) = ground (arith, before_nul-IsNulFree xs)

pub before_nul-All {κ} : (P : ℕ → Type κ) (xs : List ℕ) → All P xs → All P (before_nul xs)
unfolding before_nul
before_nul-All P [] h = tt
before_nul-All P (x ∷ xs) h = ground (arith, before_nul-All P xs h.1)

pub before_nul_free : (xs : List ℕ) → IsNulFree xs → before_nul xs ≡ xs
unfolding before_nul
before_nul_free [] h = refl
before_nul_free (x ∷ xs) h = ground (arith, before_nul_free xs h.1)

-- NULs behind a text end it where it ended.
pub before_nul-append_nuls :
    (xs : List ℕ) (n : ℕ) → before_nul (xs ++ replicate n 0) ≡ before_nul xs
unfolding before_nul
before_nul-append_nuls [] zero = refl
before_nul-append_nuls [] (suc n) = refl
before_nul-append_nuls (x ∷ xs) n = ground (arith, before_nul-append_nuls xs n)

-- The search runs off the end exactly when there is no NUL.
pub find_cases :
    (xs : List ℕ)
    → (IsNulFree xs × (find 0 xs ≡ length xs)) ⊎ ((¬ IsNulFree xs) × (find 0 xs < length xs))
unfolding find
find_cases [] = inl (tt, refl)
find_cases (x ∷ xs) = elim (Bool-cases (x == 0)) [
  | inl e ↦ inr (λ h. h.0 ((==_iff x 0).0 e), rw e (omega arith))
  | inr e ↦ rw e (elim (find_cases xs) [
    | inl (free, p) ↦ inl ((ground arith, free), ap suc p)
    | inr (nul, p) ↦ inr (λ h. nul h.1, omega arith)
  ])
]
