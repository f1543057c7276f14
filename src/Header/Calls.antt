-- ===== src/Header/Calls.antt =====
-- Any sequence of calls on one header, exceptions caught by the caller, keeps it valid.
use cmake_sample.Common.{
  ℕ, ◌≤◌, ◌<◌, ◌≡◌, ◌⊎◌, inl, inr, List, [], ◌∷◌, length, All, arith, Result, ok, err,
}
use cmake_sample.Header.{
  Header, Host, u16, u32, IsByte, Error, too_long, type_size, fresh, set_message_type,
  set_message_length, set_message_version, encode_header, decode_header,
}
use cmake_sample.Header.Endian.{Fits, IsHost, big_value-Fits}
use cmake_sample.Header.Layout.{IsValid}
use cmake_sample.Header.Nul.{before_nul, IsNulFree, before_nul-All, find_cases, find-before_nul}
use cmake_sample.Header.Decode.{
  IsBuffer, read_length, read_version, type_field, length_field, version_field, length-read,
  read-IsByte, decode_header_outcome,
}
use cmake_sample.Header.RoundTrip.{frame-IsBuffer, encode_header_outcome}

-- A call, and `receive` for a caller that fills the buffer through the reference `data()`.
pub data Call : Type 0 where
  set_type : List ℕ → Call
  set_length set_version : ℕ → Call
  receive : List ℕ → Call
  encode decode : Call

-- What the C++ types of the arguments promise.
abbrev pub IsTyped : Call → Type 0
IsTyped (set_type t) = All IsByte t
IsTyped (set_length l) = Fits u32 l
IsTyped (set_version v) = Fits u16 v
IsTyped (receive bs) = IsBuffer bs
IsTyped encode = Unit
IsTyped decode = Unit

-- A setter or an encoding that throws changes nothing.
abbrev pub after : Header → Result Error Header → Header
after h (ok g) = g
after h (err e) = h

pub step : Host → Header → Call → Header
step host h (set_type t) = after h (set_message_type t h)
step host h (set_length l) = set_message_length l h
step host h (set_version v) = set_message_version v h
step host h (receive bs) = record h { bytes = bs }
step host h encode = after h (encode_header host h)
step host h decode = (decode_header host h).0

pub run : Host → Header → List Call → Header
run host h [] = h
run host h (c ∷ cs) = run host (step host h c) cs

-- The setter takes a type exactly when it leaves room for a NUL, and else throws a logic error.
pub set_message_type_outcome :
    (t : List ℕ) (h : Header)
    → ((length t < type_size) × (set_message_type t h ≡ ok (record h { message_type = t })))
      ⊎ ((type_size ≤ length t) × (set_message_type t h ≡ err too_long))
unfolding set_message_type
set_message_type_outcome t h = ground arith

set_message_type-IsValid :
    (t : List ℕ) (h : Header) → All IsByte t → IsValid h → IsValid (after h (set_message_type t h))
set_message_type-IsValid t h chars valid = elim (set_message_type_outcome t h) [
  | inl (short, e) ↦ rw e (record {
    short = short;
    chars = chars;
    fits_length = valid.fits_length;
    fits_version = valid.fits_version;
    full = valid.full;
    octets = valid.octets;
  })
  | inr (long, e) ↦ rw e valid
]

module _ (host : Host) (laws : IsHost host) (h : Header) (valid : IsValid h) where
  encode_header-IsValid : IsValid (after h (encode_header host h))
  encode_header-IsValid = elim (encode_header_outcome host laws h valid) [
    | inl (_, e) ↦ rw e valid
    | inr (_, e) ↦
        let buffer =
          frame-IsBuffer h.message_type h.message_length h.message_version valid.short valid.chars
            valid.fits_length valid.fits_version in
        rw e (record {
          short = valid.short;
          chars = valid.chars;
          fits_length = valid.fits_length;
          fits_version = valid.fits_version;
          full = buffer.0;
          octets = buffer.1;
        })
  ]

  read_length-Fits : Fits u32 (read_length h.bytes)
  read_length-Fits =
      big_value-Fits u32 (length_field h.bytes) (read-IsByte 0 4 h.bytes valid.octets)
        (length-read 0 4 h.bytes (omega (arith, valid.full)))

  read_version-Fits : Fits u16 (read_version h.bytes)
  read_version-Fits =
      big_value-Fits u16 (version_field h.bytes) (read-IsByte 4 2 h.bytes valid.octets)
        (length-read 4 2 h.bytes (omega (arith, valid.full)))

  read_type-short :
      (¬ IsNulFree (type_field h.bytes)) → length (before_nul (type_field h.bytes)) < type_size
  read_type-short nul = elim (find_cases (type_field h.bytes)) [
    | inl (free, _) ↦ absurd (nul free)
    | inr (_, lt) ↦ omega (
      arith,
      find-before_nul (type_field h.bytes),
      length-read 6 26 h.bytes (omega (arith, valid.full)),
    )
  ]

  decode_header-IsValid : IsValid (decode_header host h).0
  decode_header-IsValid = elim (decode_header_outcome host laws h (valid.full, valid.octets)) [
    | inl (nul, e) ↦ rw e (record {
      short = read_type-short nul;
      chars = before_nul-All IsByte _ (read-IsByte 6 26 h.bytes valid.octets);
      fits_length = read_length-Fits;
      fits_version = read_version-Fits;
      full = valid.full;
      octets = valid.octets;
    })
    | inr (free, e) ↦ rw e (record {
      short = valid.short;
      chars = valid.chars;
      fits_length = read_length-Fits;
      fits_version = read_version-Fits;
      full = valid.full;
      octets = valid.octets;
    })
  ]

step-IsValid :
    (host : Host)
    → IsHost host
    → (h : Header) (c : Call) → IsTyped c
    → IsValid h
    → IsValid (step host h c)
unfolding step set_message_length set_message_version
step-IsValid host laws h (set_type t) typed valid = set_message_type-IsValid t h typed valid
step-IsValid host laws h (set_length l) typed valid = record {
  short = valid.short;
  chars = valid.chars;
  fits_length = typed;
  fits_version = valid.fits_version;
  full = valid.full;
  octets = valid.octets;
}
step-IsValid host laws h (set_version v) typed valid = record {
  short = valid.short;
  chars = valid.chars;
  fits_length = valid.fits_length;
  fits_version = typed;
  full = valid.full;
  octets = valid.octets;
}
step-IsValid host laws h (receive bs) typed valid = record {
  short = valid.short;
  chars = valid.chars;
  fits_length = valid.fits_length;
  fits_version = valid.fits_version;
  full = typed.0;
  octets = typed.1;
}
step-IsValid host laws h encode typed valid = encode_header-IsValid host laws h valid
step-IsValid host laws h decode typed valid = decode_header-IsValid host laws h valid

run-IsValid :
    (host : Host)
    → IsHost host
    → (h : Header) (cs : List Call) → All IsTyped cs
    → IsValid h
    → IsValid (run host h cs)
unfolding run
run-IsValid host laws h [] typed valid = valid
run-IsValid host laws h (c ∷ cs) typed valid =
    run-IsValid host laws (step host h c) cs typed.1 (step-IsValid host laws h c typed.0 valid)

-- Whatever is called on a new header, with arguments of the C++ types, and whatever bytes its memory
-- held or its buffer receives: the type keeps room for its NUL, the numbers fit 32 and 16 bits, and
-- the buffer keeps its 32 bytes.
pub run-fresh-IsValid :
    (host : Host)
    → IsHost host
    → (memory : List ℕ) → IsBuffer memory
    → (cs : List Call) → All IsTyped cs
    → IsValid (run host (fresh memory) cs)
unfolding fresh
run-fresh-IsValid host laws memory buffer cs typed = run-IsValid host laws _ cs typed (record {
  short = omega arith;
  chars = tt;
  fits_length = omega arith;
  fits_version = omega arith;
  full = buffer.0;
  octets = buffer.1;
})
