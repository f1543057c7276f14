-- ===== src/Session/Identity.antt =====
-- What `session::id` returns, and that it tells sessions apart.
use cmake_sample.Common.{
  ℕ, ◌≡◌, ◌≢◌, inl, inr, refl, sym, ap, ◌∙◌, false, some, List, [], ◌∷◌, ◌++◌, length, All, arith,
  if◌then◌else◌, Result, ok, err, Bool-cases, length-append, append-length_injective,
}
use cmake_sample.Session.{Endpoint, unknown_id, bracketed, host_part, id}
use cmake_sample.Session.Escape.{escaped, escape_loop_lem, escaped_injective}

-- The identifier: "host:port", or "[host]:port" with the zone's `%` escaped.
abbrev pub host_text : Endpoint → List ℕ
host_text e = if e.is_v6 then bracketed (escaped e.address) else e.address

abbrev pub identifier : (ℕ → List ℕ) → Result ℕ Endpoint → List ℕ
identifier to_string (err ec) = unknown_id
identifier to_string (ok e) = host_text e ++ (b':' ∷ to_string e.port)

host_part_lem : (e : Endpoint) → host_part e ≡ some (host_text e)
unfolding host_part
host_part_lem e = elim (Bool-cases e.is_v6) [
  | inl six ↦ rw (six, host_part) (rw (escape_loop_lem e.address))
  | inr four ↦ rw (four, host_part)
]

-- `id` returns, for whatever endpoint: "unknown" where there is none, else the text of an IPv4
-- address, or that of an IPv6 address in brackets with each `%` replaced by `%25`, then a colon and
-- the port.
pub id_lem :
    (to_string : ℕ → List ℕ) (remote : Result ℕ Endpoint)
    → id to_string remote ≡ some (identifier to_string remote)
unfolding id
id_lem to_string (err ec) = refl
id_lem to_string (ok e) = rw (host_part_lem e, id)

-- What is relied on: `std::to_string` writes different numbers differently and without a colon, and
-- the text of an IPv4 address holds no bracket.
abbrev pub IsFreeOf : ℕ → List ℕ → Type 0
IsFreeOf c = All (λ x. x ≢ c)

pub record IsDecimal (to_string : ℕ → List ℕ) : Type 0 where
  pub no_colon : (n : ℕ) → IsFreeOf b':' (to_string n)
  pub injective : (m n : ℕ) → to_string m ≡ to_string n → m ≡ n

abbrev pub IsAddress : Endpoint → Type 0
IsAddress e = e.is_v6 ≡ false → IsFreeOf b'[' e.address

not_free : (c : ℕ) (xs ys : List ℕ) → ¬ IsFreeOf c (xs ++ (c ∷ ys))
not_free c [] ys h = h.0 refl
not_free c (x ∷ xs) ys h = not_free c xs ys h.1

-- Only a session without an endpoint is "unknown".
pub identifier-ne-unknown_id :
    (to_string : ℕ → List ℕ) (e : Endpoint) → identifier to_string (ok e) ≢ unknown_id
identifier-ne-unknown_id to_string e same =
    let colon_free : IsFreeOf b':' unknown_id = omega arith in
    not_free b':' (host_text e) (to_string e.port) (rw same colon_free)

-- A text is cut at its last colon in one way.
cut_at_colon :
    (xs ys p q : List ℕ)
    → IsFreeOf b':' p
    → IsFreeOf b':' q
    → xs ++ (b':' ∷ p) ≡ ys ++ (b':' ∷ q)
    → (xs ≡ ys) × (p ≡ q)
cut_at_colon [] [] p q f g h = (refl, cc)
cut_at_colon [] (y ∷ ys) p q f g h =
    let tails : p ≡ ys ++ (b':' ∷ q) = cc in absurd (not_free b':' ys q (rw tails at f))
cut_at_colon (x ∷ xs) [] p q f g h =
    let tails : q ≡ xs ++ (b':' ∷ p) = cc in absurd (not_free b':' xs p (rw tails at g))
cut_at_colon (x ∷ xs) (y ∷ ys) p q f g h =
    let tails : xs ++ (b':' ∷ p) ≡ ys ++ (b':' ∷ q) = cc in
    let (same, rest) = cut_at_colon xs ys p q f g tails in (cc, rest)

bracketed_injective : (xs ys : List ℕ) → bracketed xs ≡ bracketed ys → xs ≡ ys
bracketed_injective xs ys h =
    let inner : xs ++ (b']' ∷ []) ≡ ys ++ (b']' ∷ []) = cc in
    let lengths : length (xs ++ (b']' ∷ [])) ≡ length (ys ++ (b']' ∷ [])) = ap length inner in
    (append-length_injective xs ys
      (omega (arith, length-append xs (b']' ∷ []), length-append ys (b']' ∷ []))) inner).0

not_bracketed : (a xs : List ℕ) → IsFreeOf b'[' a → a ≢ bracketed xs
not_bracketed [] xs f h = cc
not_bracketed (x ∷ a) xs f h = f.0 cc

-- The host part tells the kind of address and the address.
host_text_injective :
    (d e : Endpoint)
    → IsAddress d
    → IsAddress e
    → host_text d ≡ host_text e
    → (d.is_v6 ≡ e.is_v6) × (d.address ≡ e.address)
host_text_injective d e f g h = elim (Bool-cases d.is_v6) [
  | inl a ↦ elim (Bool-cases e.is_v6) [
    | inl b ↦
        let both : bracketed (escaped d.address) ≡ bracketed (escaped e.address) =
          simp (a, b) at h in
        (a ∙ sym b, escaped_injective d.address e.address (bracketed_injective _ _ both))
    | inr b ↦
        let one : bracketed (escaped d.address) ≡ e.address = simp (a, b) at h in
        absurd (not_bracketed e.address (escaped d.address) (g b) (sym one))
  ]
  | inr a ↦ elim (Bool-cases e.is_v6) [
    | inl b ↦
        let one : d.address ≡ bracketed (escaped e.address) = simp (a, b) at h in
        absurd (not_bracketed d.address (escaped e.address) (f a) one)
    | inr b ↦ let neither : d.address ≡ e.address = simp (a, b) at h in (a ∙ sym b, neither)
  ]
]

module _ (to_string : ℕ → List ℕ) (decimal : IsDecimal to_string) where
  -- Let ports be written in decimal, and let texts of IPv4 addresses hold no bracket. Two connected
  -- sessions have the same identifier only if they have the same kind of address, the
  -- same address and the same port; and none has that of a session without an endpoint.
  pub id_injective :
      (d e : Endpoint)
      → IsAddress d
      → IsAddress e
      → (id to_string (ok d) ≡ id to_string (ok e)
          → (d.is_v6 ≡ e.is_v6) × (d.address ≡ e.address) × (d.port ≡ e.port))
        × ((ec : ℕ) → id to_string (ok d) ≢ id to_string (err ec))
  id_injective d e f g = (
    λ h.
        let same : identifier to_string (ok d) ≡ identifier to_string (ok e) =
          cc (id_lem to_string (ok d), id_lem to_string (ok e)) in
        let (hosts, ports) =
          cut_at_colon (host_text d) (host_text e) _ _ (decimal.no_colon d.port)
            (decimal.no_colon e.port) same in
        let (kinds, addresses) = host_text_injective d e f g hosts in
        (kinds, addresses, decimal.injective d.port e.port ports),
    λ ec h.
        let same : identifier to_string (ok d) ≡ unknown_id =
          cc (id_lem to_string (ok d), id_lem to_string (err ec)) in
        identifier-ne-unknown_id to_string d same,
  )
