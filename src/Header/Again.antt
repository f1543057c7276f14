-- ===== src/Header/Again.antt =====
-- A header that is decoded and encoded again, as when a message is passed on.
use cmake_sample.Common.{
  ℕ, zero, suc, ◌+◌, ◌≤◌, ◌≡◌, ◌≢◌, ◌↔◌, inl, inr, refl, sym, ap, ◌∙◌, List, [], ◌∷◌, ◌++◌, length,
  take, drop, All, arith, ok, append_assoc, drop_all, length-drop, append-length_injective,
}
use native.Mathlib.Nat.{suc-add}
use cmake_sample.Header.{
  Header, Host, Width, u16, u32, size_of, IsByte, max_data_size, encode_header, decode_header,
}
use cmake_sample.Header.Endian.{IsHost, big_bytes, big_value, big_value-Fits}
use cmake_sample.Header.Layout.{IsValid, padded, frame}
use cmake_sample.Header.Nul.{before_nul, IsNulFree, find_cases, find-before_nul, before_nul-All}
use cmake_sample.Header.Decode.{
  IsBuffer, length_field, version_field, type_field, read_length, read_version, length-read,
  read-IsByte, decode_header_outcome,
}
use cmake_sample.Header.RoundTrip.{encode_header_outcome}

big_bytes-big_value :
    (w : Width) (bs : List ℕ)
    → All IsByte bs
    → length bs ≡ size_of w
    → big_bytes w (big_value 0 bs) ≡ bs
unfolding big_bytes big_value
big_bytes-big_value u16 (a ∷ b ∷ []) h e = ground arith
big_bytes-big_value u32 (a ∷ b ∷ c ∷ d ∷ []) h e = ground arith
big_bytes-big_value w bs h e = absurd (omega arith)

take-drop : (n : ℕ) (xs : List ℕ) → take n xs ++ drop n xs ≡ xs
take-drop zero xs = refl
take-drop (suc n) [] = refl
take-drop (suc n) (x ∷ xs) = ap (λ ys. x ∷ ys) (take-drop n xs)

drop-drop : (m n : ℕ) (xs : List ℕ) → drop n (drop m xs) ≡ drop (m + n) xs
drop-drop zero n xs = ap (λ k. drop k xs) (omega arith)
drop-drop (suc m) n [] = drop_all n [] (omega arith) ∙ sym (drop_all (suc m + n) [] (omega arith))
drop-drop (suc m) n (x ∷ xs) = rw suc-add (drop-drop m n xs)

take_all : (n : ℕ) (xs : List ℕ) → length xs ≤ n → take n xs ≡ xs
take_all zero [] h = refl
take_all zero (x ∷ xs) h = absurd (omega arith)
take_all (suc n) [] h = refl
take_all (suc n) (x ∷ xs) h = ap (λ ys. x ∷ ys) (take_all n xs (omega arith))

-- A buffer is its three fields.
fields_lem :
    (bs : List ℕ)
    → length bs ≡ max_data_size
    → (length_field bs ++ version_field bs) ++ type_field bs ≡ bs
fields_lem bs full =
    append_assoc (length_field bs) (version_field bs) (type_field bs)
    ∙ ap (λ ys. length_field bs ++ ys)
        (ap (λ ys. version_field bs ++ ys)
            (take_all 26 (drop 6 bs) (omega (arith, full, length-drop 6 bs))
              ∙ sym (drop-drop 4 2 bs))
          ∙ take-drop 2 (drop 4 bs))
    ∙ take-drop 4 bs

-- What encoding writes of the fields of a buffer: the buffer, but for the bytes behind the NUL.
abbrev pub again : List ℕ → List ℕ
again bs = frame (before_nul (type_field bs)) (read_length bs) (read_version bs)

module _ (bs : List ℕ) (buffer : IsBuffer bs) where
  again_lem :
      again bs ≡ (length_field bs ++ version_field bs) ++ padded (before_nul (type_field bs))
  again_lem =
      rw
        (big_bytes-big_value u32 _ (read-IsByte 0 4 bs buffer.1)
          (length-read 0 4 bs (omega (arith, buffer.0))))
        (rw
          (big_bytes-big_value u16 _ (read-IsByte 4 2 bs buffer.1)
            (length-read 4 2 bs (omega (arith, buffer.0))))
          refl)

  pub again-same : (again bs ≡ bs) ↔ (type_field bs ≡ padded (before_nul (type_field bs)))
  again-same = (
    λ e. (append-length_injective _ _ refl (fields_lem bs buffer.0 ∙ sym e ∙ again_lem)).1,
    λ e.
        again_lem
        ∙ ap (λ ys. (length_field bs ++ version_field bs) ++ ys) (sym e)
        ∙ fields_lem bs buffer.0,
  )

module _ (h : Header) (buffer : IsBuffer h.bytes) where
  -- What a decoded header has of the buffer is valid.
  abbrev pub decoded : Header
  decoded = record {
    message_type = before_nul (type_field h.bytes);
    message_length = read_length h.bytes;
    message_version = read_version h.bytes;
    bytes = h.bytes;
  }

  pub decoded-IsValid : ¬ IsNulFree (type_field h.bytes) → IsValid decoded
  decoded-IsValid nul = record {
    short = elim (find_cases (type_field h.bytes)) [
      | inl (free, _) ↦ absurd (nul free)
      | inr (_, b) ↦ omega (
        arith,
        find-before_nul (type_field h.bytes),
        length-read 6 26 h.bytes (omega (arith, buffer.0)),
      )
    ];
    chars = before_nul-All IsByte _ (read-IsByte 6 26 h.bytes buffer.1);
    fits_length =
        big_value-Fits u32 _ (read-IsByte 0 4 h.bytes buffer.1)
          (length-read 0 4 h.bytes (omega (arith, buffer.0)));
    fits_version =
        big_value-Fits u16 _ (read-IsByte 4 2 h.bytes buffer.1)
          (length-read 4 2 h.bytes (omega (arith, buffer.0)));
    full = buffer.0;
    octets = buffer.1;
  }

module _ (host : Host) (laws : IsHost host) (h : Header) (buffer : IsBuffer h.bytes) where
  -- A message that is passed on: decode any buffer of 32 bytes whose type ends with a NUL and is
  -- not empty, and encode it again. Neither throws, and the bytes are the same exactly when there
  -- are only NULs behind the type.
  pub encode_header-decode_header :
      ¬ IsNulFree (type_field h.bytes)
      → before_nul (type_field h.bytes) ≢ []
      → (d e : Header) × (decode_header host h ≡ (d, ok tt))
        × (encode_header host d ≡ ok e)
        × ((e.bytes ≡ h.bytes) ↔ (type_field h.bytes ≡ padded (before_nul (type_field h.bytes))))
  encode_header-decode_header nul named = elim (decode_header_outcome host laws h buffer) [
    | inr (free, _) ↦ absurd (nul free)
    | inl (_, got) ↦
        elim (encode_header_outcome host laws (decoded h buffer) (decoded-IsValid h buffer nul)) [
          | inl (e, _) ↦ absurd (named e)
          | inr (_, sent) ↦ (decoded h buffer, _, got, sent, again-same h.bytes buffer)
        ]
  ]
