-- ===== src/Session.antt =====
-- libs/comm/include/comm/session.hpp: `session::id`, the identifier under which the session manager
-- keeps a session. Boost.Asio gives the remote endpoint, with the text of its address;
-- `std::to_string` is a parameter.
pub mod Escape
pub mod Identity
pub mod Examples
use cmake_sample.Common.{
  ℕ, zero, suc, ◌+◌, Bool, true, false, Option, none, some, List, [], ◌∷◌, ◌++◌, length, take, drop,
  ◌==◌, if◌then◌else◌, Result, ok, err,
}

pub record Endpoint : Type 0 where
  pub is_v6 : Bool
  pub address : List ℕ
  pub port : ℕ

-- "unknown"
abbrev pub unknown_id : List ℕ
unknown_id = b'u' ∷ b'n' ∷ b'k' ∷ b'n' ∷ b'o' ∷ b'w' ∷ b'n' ∷ []

-- `std::string::find('%')`.
pub first_percent : List ℕ → Option ℕ
first_percent [] = none
first_percent (x ∷ xs) =
    if x == b'%' then some 0 else elim (first_percent xs) [ none ↦ none | some i ↦ some (suc i) ]

-- `std::string::find('%', pos)`.
pub find_percent : ℕ → List ℕ → Option ℕ
find_percent pos s = elim (first_percent (drop pos s)) [ none ↦ none | some i ↦ some (pos + i) ]

-- `s.replace(pos, 1, "%25")`.
pub replace_percent : ℕ → List ℕ → List ℕ
replace_percent pos s = take pos s ++ (b'%' ∷ b'2' ∷ b'5' ∷ drop (pos + 1) s)

-- The loop of `id`; `none` where the fuel does not last.
pub escape_loop : ℕ → ℕ → List ℕ → Option (List ℕ)
escape_loop zero pos s = none
escape_loop (suc fuel) pos s = elim (find_percent pos s) [
  | none ↦ some s
  | some at_pos ↦ escape_loop fuel (at_pos + 3) (replace_percent at_pos s)
]

abbrev pub bracketed : List ℕ → List ℕ
bracketed host = b'[' ∷ (host ++ (b']' ∷ []))

-- The host part, with fuel for one round more than the address has bytes.
pub host_part : Endpoint → Option (List ℕ)
host_part e =
    if e.is_v6
    then (elim (escape_loop (suc (length e.address)) 0 e.address) [
      | none ↦ none
      | some host ↦ some (bracketed host)
    ])
    else some e.address

-- The remote endpoint, or an error code where there is none.
pub id : (ℕ → List ℕ) → Result ℕ Endpoint → Option (List ℕ)
unfolding host_part
id to_string (err ec) = some unknown_id
id to_string (ok e) = elim (host_part e) [
  | none ↦ none
  | some host ↦ some (host ++ (b':' ∷ to_string e.port))
]
