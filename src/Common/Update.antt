-- ===== src/Common/Update.antt =====
-- Lists of threads: an update at one index, and weighted sums.
use Prim.Native.Nat.{ℕ, zero, suc, ◌+◌, ◌*◌, ◌<◌, ◌≤◌}
use mathlib.Core.Path.{◌≡◌, refl, ap, sym}
use mathlib.Core.Logic.{◌≢◌}
use mathlib.Core.List.{List, [], ◌∷◌, ◌++◌, map}
use mathlib.Core.Option.{some, none}
use native.Mathlib.Omega.{arith}
use native.Mathlib.Decide.{dec_lt}
use cmake_sample.Common.Lists.{get_elem?, set, length}

pub map-get_elem? {ℓ ℓ'} :
    {A : Type ℓ} {B : Type ℓ'} (f : A → B) (xs : List A) (i : ℕ) (x : A)
    → get_elem? xs i ≡ some x
    → get_elem? (map f xs) i ≡ some (f x)
map-get_elem? f [] i x h = cc
map-get_elem? f (y ∷ xs) zero x h = ground arith
map-get_elem? f (y ∷ xs) (suc i) x h = map-get_elem? f xs i x h

pub map-set {ℓ ℓ'} :
    {A : Type ℓ} {B : Type ℓ'} (f : A → B) (xs : List A) (i : ℕ) (y : A)
    → map f (set xs i y) ≡ set (map f xs) i (f y)
map-set f [] i y = refl
map-set f (x ∷ xs) zero y = refl
map-set f (x ∷ xs) (suc i) y = ap (◌∷◌ (f x)) (map-set f xs i y)

pub set_same {ℓ} :
    {A : Type ℓ} (xs : List A) (i : ℕ) (x : A) → get_elem? xs i ≡ some x → set xs i x ≡ xs
set_same [] i x h = refl
set_same (y ∷ xs) zero x h = let e : y ≡ x = cc in ap (λ z. z ∷ xs) (sym e)
set_same (y ∷ xs) (suc i) x h = ap (◌∷◌ y) (set_same xs i x h)

pub map_unseen {ℓ ℓ'} :
    {A : Type ℓ} {B : Type ℓ'} (f : A → B) (g : A → A)
    → ((x : A) → f (g x) ≡ f x)
    → (xs : List A) → map f (map g xs) ≡ map f xs
map_unseen f g h [] = refl
map_unseen f g h (x ∷ xs) = rw (h x) (ap (◌∷◌ (f x)) (map_unseen f g h xs))

pub map-append {ℓ ℓ'} :
    {A : Type ℓ} {B : Type ℓ'} (f : A → B) (xs ys : List A)
    → map f (xs ++ ys) ≡ map f xs ++ map f ys
map-append f [] ys = refl
map-append f (x ∷ xs) ys = ap (◌∷◌ (f x)) (map-append f xs ys)

module _ {ℓ} {A : Type ℓ} where
  pub get_elem?-set_self :
      (xs : List A) (i : ℕ) (v x : A) → get_elem? xs i ≡ some x → get_elem? (set xs i v) i ≡ some v
  get_elem?-set_self [] i v x h = cc
  get_elem?-set_self (y ∷ xs) zero v x h = refl
  get_elem?-set_self (y ∷ xs) (suc i) v x h = get_elem?-set_self xs i v x h

  pub get_elem?-set_ne :
      (xs : List A) (i j : ℕ) (v : A) → i ≢ j → get_elem? (set xs i v) j ≡ get_elem? xs j
  get_elem?-set_ne [] i j v h = refl
  get_elem?-set_ne (x ∷ xs) zero zero v h = absurd (h refl)
  get_elem?-set_ne (x ∷ xs) zero (suc j) v h = refl
  get_elem?-set_ne (x ∷ xs) (suc i) zero v h = refl
  get_elem?-set_ne (x ∷ xs) (suc i) (suc j) v h = get_elem?-set_ne xs i j v (λ e. h (ap suc e))

  pub get_elem?-map :
      (f : A → A) (xs : List A) (i : ℕ) (y : A)
      → get_elem? (map f xs) i ≡ some y
      → (x : A) × (get_elem? xs i ≡ some x) × (y ≡ f x)
  get_elem?-map f [] i y h = cc
  get_elem?-map f (x ∷ xs) zero y h = (x, refl, ground arith)
  get_elem?-map f (x ∷ xs) (suc i) y h = get_elem?-map f xs i y h

  pub map-get_elem?-none :
      (f : A → A) (xs : List A) (i : ℕ) → get_elem? xs i ≡ none → get_elem? (map f xs) i ≡ none
  map-get_elem?-none f [] i h = refl
  map-get_elem?-none f (y ∷ xs) zero h = cc
  map-get_elem?-none f (y ∷ xs) (suc i) h = map-get_elem?-none f xs i h

  unfoldable pub tally : (A → ℕ) → List A → ℕ
  tally w [] = 0
  tally w (x ∷ xs) = w x + tally w xs

  pub tally-set :
      (w : A → ℕ) (xs : List A) (i : ℕ) (x v : A)
      → get_elem? xs i ≡ some x
      → tally w (set xs i v) + w x ≡ tally w xs + w v
  unfolding tally
  tally-set w [] i x v h = cc
  tally-set w (y ∷ xs) zero x v h = let e : y ≡ x = cc in rw e (omega arith)
  tally-set w (y ∷ xs) (suc i) x v h = omega (arith, tally-set w xs i x v h)

  pub tally-append : (w : A → ℕ) (xs ys : List A) → tally w (xs ++ ys) ≡ tally w xs + tally w ys
  unfolding tally
  tally-append w [] ys = omega arith
  tally-append w (x ∷ xs) ys = omega (arith, tally-append w xs ys)

  pub tally-map_eq :
      (w : A → ℕ) (f : A → A) (xs : List A)
      → ((x : A) → w (f x) ≡ w x)
      → tally w (map f xs) ≡ tally w xs
  unfolding tally
  tally-map_eq w f [] h = refl
  tally-map_eq w f (x ∷ xs) h = omega (arith, h x, tally-map_eq w f xs h)

  pub tally-map_le :
      (w : A → ℕ) (f : A → A) (xs : List A)
      → ((x : A) → w (f x) ≤ w x)
      → tally w (map f xs) ≤ tally w xs
  unfolding tally
  tally-map_le w f [] h = omega arith
  tally-map_le w f (x ∷ xs) h = omega (arith, h x, tally-map_le w f xs h)

  pub tally-bound :
      (w : A → ℕ) (b : ℕ) (xs : List A) → ((x : A) → w x ≤ b) → tally w xs ≤ b * length xs
  unfolding tally
  tally-bound w b [] h = omega arith
  tally-bound w b (x ∷ xs) h = let rest = tally-bound w b xs h in let here = h x in grind arith

  pub tally-map_zero :
      (w : A → ℕ) (f : A → A) (xs : List A) → ((x : A) → w (f x) ≡ 0) → tally w (map f xs) ≡ 0
  unfolding tally
  tally-map_zero w f [] h = refl
  tally-map_zero w f (x ∷ xs) h = omega (arith, h x, tally-map_zero w f xs h)

  pub le-tally :
      (w : A → ℕ) (xs : List A) (i : ℕ) (x : A) → get_elem? xs i ≡ some x → w x ≤ tally w xs
  unfolding tally
  le-tally w [] i x h = cc
  le-tally w (y ∷ xs) zero x h = let e : y ≡ x = cc in rw e (omega arith)
  le-tally w (y ∷ xs) (suc i) x h = omega (arith, le-tally w xs i x h)

  pub find_tally :
      (w : A → ℕ) (xs : List A)
      → 0 < tally w xs
      → (i : ℕ) × (x : A) × (get_elem? xs i ≡ some x) × (0 < w x)
  unfolding tally
  find_tally w [] h = absurd (omega arith)
  find_tally w (x ∷ xs) h = elim (dec_lt 0 (w x)) [
    | yes p ↦ (0, x, refl, p)
    | no p ↦ let (i, y, e, q) = find_tally w xs (omega arith) in (suc i, y, e, q)
  ]
