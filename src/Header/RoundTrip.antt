-- ===== src/Header/RoundTrip.antt =====
-- What a receiver decodes of a header that a sender encoded.
use cmake_sample.Common.{
  ℕ, zero, suc, ◌-◌, ◌<◌, ◌≡◌, ◌≢◌, ◌⊎◌, inl, inr, refl, ◌∙◌, List, [], ◌∷◌, ◌++◌, length,
  replicate, All, arith, ok, err, true, false, All-append,
}
use cmake_sample.Header.{
  Header, Host, u16, u32, IsByte, no_type, type_size, is_empty, encode_header, decode_header,
}
use cmake_sample.Header.Endian.{Fits, IsHost, big_bytes, big_value-big_bytes, big_bytes-IsByte}
use cmake_sample.Header.Layout.{IsValid, numbers, padded, frame, length-frame, encoded-frame}
use cmake_sample.Header.Nul.{
  before_nul, IsNulFree, before_nul_free, before_nul-IsNulFree, before_nul-append_nuls,
}
use cmake_sample.Header.Decode.{
  IsBuffer, type_field, length_field-frame, version_field-frame, type_field-frame,
  decode_header_outcome,
}

replicate-IsByte : (n : ℕ) → All IsByte (replicate n 0)
replicate-IsByte zero = tt
replicate-IsByte (suc n) = (omega arith, replicate-IsByte n)

-- A text that leaves room is followed by a NUL.
padded_has_nul : (t : List ℕ) (n : ℕ) → ¬ IsNulFree (t ++ replicate (suc n) 0)
padded_has_nul [] n h = h.0 refl
padded_has_nul (x ∷ t) n h = padded_has_nul t n h.1

module _ (t : List ℕ) (l v : ℕ) (short : length t < type_size) (chars : All IsByte t)
    (fits_l : Fits u32 l) (fits_v : Fits u16 v) where
  pub frame-IsBuffer : IsBuffer (frame t l v)
  frame-IsBuffer = (
    length-frame t l v short,
    All-append IsByte (numbers l v) (padded t)
        (All-append IsByte (big_bytes u32 l) (big_bytes u16 v) (big_bytes-IsByte u32 l fits_l)
          (big_bytes-IsByte u16 v fits_v))
        (All-append IsByte t (replicate (type_size - length t) 0) chars
          (replicate-IsByte (type_size - length t))),
  )

  pub frame_has_nul : ¬ IsNulFree (type_field (frame t l v))
  frame_has_nul =
      let room : type_size - length t ≡ suc (type_size - length t - 1) = omega arith in
      rw (type_field-frame t l v short, room) (padded_has_nul t (type_size - length t - 1))

  decode_header-frame :
      (host : Host)
      → IsHost host
      → (g : Header)
      → decode_header host (record g { bytes = frame t l v }) ≡ (
        record {
          message_type = before_nul t;
          message_length = l;
          message_version = v;
          bytes = frame t l v;
        },
        ok tt,
      )
  decode_header-frame host laws g =
      elim (decode_header_outcome host laws (record g { bytes = frame t l v }) frame-IsBuffer) [
        | inl (nul, e) ↦
            e
            ∙ rw (
              type_field-frame t l v short,
              length_field-frame t l v short,
              version_field-frame t l v short,
              before_nul-append_nuls t,
              big_value-big_bytes u32 l fits_l,
              big_value-big_bytes u16 v fits_v,
            )
        | inr (free, e) ↦ absurd (frame_has_nul free)
      ]

is_empty_cases : (t : List ℕ) → ((t ≡ []) × (is_empty t ≡ true)) ⊎ ((t ≢ []) × (is_empty t ≡ false))
is_empty_cases [] = inl (refl, refl)
is_empty_cases (x ∷ t) = inr ((λ e. cc), refl)

-- A valid header without a type is refused with a logic error. Any other is encoded: the buffer
-- then holds the wire format, whatever it held before, and the fields stay.
pub encode_header_outcome :
    (host : Host)
    → IsHost host
    → (h : Header) → IsValid h
    → ((h.message_type ≡ []) × (encode_header host h ≡ err no_type))
      ⊎ ((h.message_type ≢ [])
          × (encode_header host h
              ≡ ok (record h { bytes = frame h.message_type h.message_length h.message_version })))
unfolding encode_header
encode_header_outcome host laws h valid = elim (is_empty_cases h.message_type) [
  | inl (e, b) ↦ inl (e, rw b)
  | inr (named, b) ↦ inr (named, rw (b, encoded-frame host laws h valid))
]

encode_header-frame :
    (host : Host)
    → IsHost host
    → (h : Header) → IsValid h
    → h.message_type ≢ []
    → encode_header host h
      ≡ ok (record h { bytes = frame h.message_type h.message_length h.message_version })
encode_header-frame host laws h valid named = elim (encode_header_outcome host laws h valid) [
  | inl (e, _) ↦ absurd (named e)
  | inr (_, e) ↦ e
]

module _ (host : Host) (laws : IsHost host) (h : Header) (valid : IsValid h) where
  -- A valid header with a type that holds no NUL is encoded without an exception, and whatever
  -- header receives the bytes decodes exactly the type, the length and the version that were sent.
  pub decode_header-encode_header :
      h.message_type ≢ []
      → IsNulFree h.message_type
      → (g : Header)
      → let sent = frame h.message_type h.message_length h.message_version in
        (encode_header host h ≡ ok (record h { bytes = sent }))
        × (decode_header host (record g { bytes = sent }) ≡ (record h { bytes = sent }, ok tt))
  decode_header-encode_header named free g = (
    encode_header-frame host laws h valid named,
    rw (before_nul_free h.message_type free) at (
        decode_header-frame h.message_type h.message_length h.message_version valid.short
          valid.chars valid.fits_length valid.fits_version host laws g),
  )

  -- A valid header whose type has a NUL inside is encoded without an exception, and the receiver
  -- gets another type: what stands in front of the first NUL.
  pub decode_header-encode_header_cut :
      (¬ IsNulFree h.message_type)
      → (g : Header)
      → (e d : Header) × (encode_header host h ≡ ok e)
        × (decode_header host (record g { bytes = e.bytes }) ≡ (d, ok tt))
        × (d.message_type ≡ before_nul h.message_type)
        × (d.message_type ≢ h.message_type)
  decode_header-encode_header_cut nul g = (
    _,
    _,
    encode_header-frame host laws h valid (λ e. nul (rw e tt)),
    decode_header-frame h.message_type h.message_length h.message_version valid.short valid.chars
        valid.fits_length valid.fits_version host laws g,
    refl,
    λ e. nul (rw (← e) (before_nul-IsNulFree h.message_type)),
  )
