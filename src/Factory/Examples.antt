-- ===== src/Factory/Examples.antt =====
-- The theorems about the factory, with two classes of messages that are told apart by a number.
use cmake_sample.Common.{
  bytes_eq, if◌then◌else◌, List, String, ℕ, ◌+◌, ◌≡◌, inl, inr, refl, sym, ap, ◌∙◌, false, some,
  none, [], ◌∷◌, ok, err,
}
use cmake_sample.Factory.{unknown_type, MessageClass, create_message, register_all, no_creators}
use cmake_sample.Factory.Registration.{
  latest, In, IsDistinct, create_message-register_all, registration_order,
}
use cmake_sample.Factory.Dispatch.{dispatch}
use cmake_sample.Header.{Header, encode_header, decode_header, fresh}
use cmake_sample.Header.Examples.{little, little-IsHost, hi, hi-IsValid, hi-IsNulFree, memory}
use text.Mathlib.Text.{◌==◌ as str_eq}

-- The heap is the number of objects that were made, a message is the number of its class.
abbrev login : MessageClass ℕ ℕ
login = record { type_name = "login"; make_shared = λ heap. (heap + 1, ok 1) }

abbrev logout : MessageClass ℕ ℕ
logout = record { type_name = "logout"; make_shared = λ heap. (heap + 1, ok 2) }

create_message-register_all_example :
    create_message ℕ ℕ "login" (register_all ℕ ℕ (logout ∷ login ∷ []) (no_creators ℕ ℕ)) 5
    ≡ elim (latest ℕ ℕ "login" (logout ∷ login ∷ [])) [
      | some creator ↦ creator 5
      | none ↦ (5, err (unknown_type "login"))
    ]
create_message-register_all_example =
    create_message-register_all ℕ ℕ "login" (logout ∷ login ∷ []) 5

flip : (c d e : MessageClass ℕ ℕ) → In ℕ ℕ c (d ∷ e ∷ []) → In ℕ ℕ c (e ∷ d ∷ [])
flip c d e (inl h) = inr (inl h)
flip c d e (inr (inl h)) = inl h
flip c d e (inr (inr x)) = absurd x

apart :
    (c d : MessageClass ℕ ℕ) → str_eq c.type_name d.type_name ≡ false → IsDistinct ℕ ℕ (c ∷ d ∷ [])
apart c d h = (only, ((λ e i. absurd i), tt))
  where
    only : (e : MessageClass ℕ ℕ) → In ℕ ℕ e (d ∷ []) → str_eq c.type_name e.type_name ≡ false
    only e (inl same) = ap (λ (f : MessageClass ℕ ℕ). str_eq c.type_name f.type_name) (sym same) ∙ h
    only e (inr x) = absurd x

registration_order_example :
    create_message ℕ ℕ "login" (register_all ℕ ℕ (login ∷ logout ∷ []) (no_creators ℕ ℕ)) 5
    ≡ create_message ℕ ℕ "login" (register_all ℕ ℕ (logout ∷ login ∷ []) (no_creators ℕ ℕ)) 5
registration_order_example =
    registration_order ℕ ℕ (login ∷ logout ∷ []) (logout ∷ login ∷ []) (apart login logout refl)
      (apart logout login refl) (λ c. (flip c login logout, flip c logout login)) "login" 5

-- "hi" is the type of the first class.
abbrev named : List ℕ → String
named t = if bytes_eq t hi.message_type then "login" else "other"

dispatch_example :
    (e d : Header) × (encode_header little hi ≡ ok e)
    × (decode_header little (record (fresh memory) { bytes = e.bytes }) ≡ (d, ok tt))
    × (create_message ℕ ℕ
          (named d.message_type)
          (register_all ℕ ℕ (login ∷ logout ∷ []) (no_creators ℕ ℕ))
          5
        ≡ (6, ok 1))
unfolding bytes_eq
dispatch_example =
    dispatch little little-IsHost named ℕ ℕ (login ∷ logout ∷ []) login (apart login logout refl)
      (inl refl) hi hi-IsValid (λ e. cc) hi-IsNulFree refl (fresh memory) 5
