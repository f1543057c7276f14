-- ===== src/Session/Examples.antt =====
-- The theorems about identifiers at two endpoints, with ports written as tally marks.
use cmake_sample.Common.{
  ℕ, zero, suc, ◌≡◌, ◌≢◌, ap, true, false, some, List, [], ◌∷◌, length, replicate, arith, ok, err,
  length-replicate,
}
use cmake_sample.Session.{Endpoint, id}
use cmake_sample.Session.Identity.{identifier, IsFreeOf, IsDecimal, id_lem, id_injective}

abbrev marks : ℕ → List ℕ
marks n = replicate n b'1'

marks_no_colon : (n : ℕ) → IsFreeOf b':' (marks n)
marks_no_colon zero = tt
marks_no_colon (suc n) = (omega arith, marks_no_colon n)

marks-IsDecimal : IsDecimal marks
marks-IsDecimal = record {
  no_colon = marks_no_colon;
  injective = λ m n e.
      let lengths : length (marks m) ≡ length (marks n) = ap length e in
      omega (arith, length-replicate {A = ℕ} m b'1', length-replicate {A = ℕ} n b'1');
}

-- fe80::1%2
abbrev zoned : Endpoint
zoned = record {
  is_v6 = true;
  address = b'f' ∷ b'e' ∷ b'8' ∷ b'0' ∷ b':' ∷ b':' ∷ b'1' ∷ b'%' ∷ b'2' ∷ [];
  port = 3;
}

-- 1.2
abbrev plain : Endpoint
plain = record { is_v6 = false; address = b'1' ∷ b'.' ∷ b'2' ∷ []; port = 2 }

id_lem_example : id marks (ok zoned) ≡ some (identifier marks (ok zoned))
id_lem_example = id_lem marks (ok zoned)

id_injective_example :
    (id marks (ok zoned) ≡ id marks (ok plain)
      → (zoned.is_v6 ≡ plain.is_v6) × (zoned.address ≡ plain.address) × (zoned.port ≡ plain.port))
    × ((ec : ℕ) → id marks (ok zoned) ≢ id marks (err ec))
id_injective_example =
    id_injective marks marks-IsDecimal zoned plain (λ e. absurd cc) (λ e. omega arith)
