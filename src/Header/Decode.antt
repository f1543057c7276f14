-- ===== src/Header/Decode.antt =====
-- `decode_header` on a frame of the wire format, and on any 32 bytes.
use cmake_sample.Common.{
  ℕ, ◌+◌, ◌≤◌, ◌<◌, ◌≡◌, ◌⊎◌, inl, inr, refl, sym, ap, ◌∙◌, List, [], ◌++◌, length, drop, All,
  arith, ok, err, true, false, append_assoc, append-nil, length-drop, length-take, take-append_left,
  drop-append_left, ◌==◌, All-take, All-drop, ==_iff,
}
use cmake_sample.Header.{
  Header, Host, u16, u32, size_of, IsByte, no_nul, max_data_size, length_offset, type_offset,
  version_offset, type_size, read, find, decode_header,
}
use cmake_sample.Header.Endian.{IsHost, big_bytes, big_value, length-big_bytes}
use cmake_sample.Header.Layout.{numbers, padded, frame, length-numbers, length-padded}
use cmake_sample.Header.Nul.{before_nul, IsNulFree, take-find, find_cases}

-- The three fields of a buffer.
abbrev pub length_field : List ℕ → List ℕ
length_field = read length_offset (size_of u32)

abbrev pub version_field : List ℕ → List ℕ
version_field = read version_offset (size_of u16)

abbrev pub type_field : List ℕ → List ℕ
type_field = read type_offset type_size

read-append :
    (offset size : ℕ) (p src q : List ℕ)
    → offset ≡ length p
    → size ≡ length src
    → read offset size (p ++ (src ++ q)) ≡ src
read-append offset size p src q e f =
    rw (e, f, drop-append_left p (src ++ q)) (take-append_left src q)

pub length-read :
    (offset size : ℕ) (xs : List ℕ)
    → offset + size ≤ length xs
    → length (read offset size xs) ≡ size
length-read offset size xs h =
    length-take size (drop offset xs) (omega (arith, length-drop offset xs))

pub read-IsByte : (offset size : ℕ) (xs : List ℕ) → All IsByte xs → All IsByte (read offset size xs)
read-IsByte offset size xs h = All-take IsByte size _ (All-drop IsByte offset xs h)

module _ (t : List ℕ) (l v : ℕ) (short : length t < type_size) where
  pub length_field-frame : length_field (frame t l v) ≡ big_bytes u32 l
  length_field-frame =
      rw (append_assoc (big_bytes u32 l))
        (read-append 0 4 [] (big_bytes u32 l) _ refl (sym (length-big_bytes u32 l)))

  pub version_field-frame : version_field (frame t l v) ≡ big_bytes u16 v
  version_field-frame = rw (append_assoc (big_bytes u32 l)) (
      read-append 4 2 (big_bytes u32 l) (big_bytes u16 v) _ (sym (length-big_bytes u32 l))
        (sym (length-big_bytes u16 v)))

  pub type_field-frame : type_field (frame t l v) ≡ padded t
  type_field-frame =
      ap (λ q. type_field (numbers l v ++ q)) (sym (append-nil (padded t)))
      ∙ read-append 6 26 (numbers l v) (padded t) [] (sym (length-numbers l v))
          (sym (length-padded t short))

-- What `decode_header` reads from a buffer, whether or not it then throws.
abbrev pub read_length : List ℕ → ℕ
read_length bs = big_value 0 (length_field bs)

abbrev pub read_version : List ℕ → ℕ
read_version bs = big_value 0 (version_field bs)

abbrev pub IsBuffer : List ℕ → Type 0
IsBuffer bs = (length bs ≡ max_data_size) × All IsByte bs

module _ (host : Host) (laws : IsHost host) (h : Header) (buffer : IsBuffer h.bytes) where
  load_length : host.big_to_native u32 (host.load u32 (length_field h.bytes)) ≡ read_length h.bytes
  load_length =
      laws.loads_big u32 _ (read-IsByte 0 4 h.bytes buffer.1)
        (length-read 0 4 h.bytes (omega (arith, buffer.0)))

  load_version :
      host.big_to_native u16 (host.load u16 (version_field h.bytes)) ≡ read_version h.bytes
  load_version =
      laws.loads_big u16 _ (read-IsByte 4 2 h.bytes buffer.1)
        (length-read 4 2 h.bytes (omega (arith, buffer.0)))

  -- `decode_header` takes the length and the version from any buffer of 32 bytes. It takes the type
  -- up to its NUL where there is one, and otherwise throws and leaves the type as it was.
  pub decode_header_outcome :
      ((¬ IsNulFree (type_field h.bytes))
        × (decode_header host h ≡ (
          record {
            message_type = before_nul (type_field h.bytes);
            message_length = read_length h.bytes;
            message_version = read_version h.bytes;
            bytes = h.bytes;
          },
          ok tt,
        )))
      ⊎ (IsNulFree (type_field h.bytes)
          × (decode_header host h ≡ (
            record h {
              message_length = read_length h.bytes;
              message_version = read_version h.bytes;
            },
            err no_nul,
          )))
  unfolding decode_header
  decode_header_outcome = elim (find_cases (type_field h.bytes)) [
    | inl (free, e) ↦
        let at_end : (find 0 (type_field h.bytes) == type_size) ≡ true =
          (==_iff _ _).1 (e ∙ size) in
        inr (free, rw (at_end, load_length, load_version))
    | inr (nul, e) ↦
        let before_end : (find 0 (type_field h.bytes) == type_size) ≡ false =
          ground (arith, size) in
        inl (nul, rw (before_end, load_length, load_version, take-find))
  ]
    where
      size : length (type_field h.bytes) ≡ type_size
      size = length-read 6 26 h.bytes (omega (arith, buffer.0))
