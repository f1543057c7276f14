-- ===== src/Errors/What.antt =====
-- The text of `my_error` is never empty.
use cmake_sample.Common.{◌≡◌, ◌≢◌, inl, inr, ap, true, String, Result, ok, err, Bool-cases, arith}
use cmake_sample.Errors.{Foreign, what_my_error, failed_to_build}
use Prim.Native.String.{◌++◌ as ◌joined◌, len}
use text.Mathlib.Text.{◌==◌ as str_eq}
use text.Mathlib.TextEquality.{eq_iff}
use text.Mathlib.TextPositions.{len-append}

not_that : ◌≢◌ {A = String} "my_error" ""
not_that h = let same = (eq_iff "my_error" "").1 h in cc

joined_not_empty : (t : String) → failed_to_build joined t ≢ ""
joined_not_empty t e =
    let lengths : len (failed_to_build joined t) ≡ len "" = ap len e in
    absurd (omega (arith, len-append failed_to_build t))

-- `my_error::what()` is the diagnostic text where there is one, and never the empty text, also where
-- building the diagnostic text throws.
pub what_my_error_outcome :
    (built : Result Foreign String)
    → (what_my_error built ≢ "")
      × ((text : String) → built ≡ ok text → text ≢ "" → what_my_error built ≡ text)
unfolding what_my_error
what_my_error_outcome (err e) = (joined_not_empty _, λ text h ne. cc)
what_my_error_outcome (ok t) = elim (Bool-cases (str_eq t "")) [
  | inl e ↦ (rw e not_that, λ text h ne. absurd (ne (cc ((eq_iff t "").0 e))))
  | inr e ↦
      (rw e (λ h. let same : str_eq t "" ≡ true = (eq_iff t "").1 h in cc), λ text h ne. rw e cc)
]
