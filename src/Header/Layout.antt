-- ===== src/Header/Layout.antt =====
-- The layout of an encoded header, and the byte-level lemmas behind it.
use cmake_sample.Common.{
  ℕ, ◌+◌, ◌-◌, ◌≤◌, ◌<◌, ◌≡◌, sym, ap, ◌∙◌, List, [], ◌++◌, length, drop, replicate, All, arith,
  append_assoc, length-append, length-replicate, length-drop, drop-replicate, take-append_left,
  drop-append_add, drop_all,
}
use cmake_sample.Header.{
  Header, Host, u16, u32, IsByte, max_data_size, length_offset, type_offset, version_offset,
  type_size, write, encoded,
}
use cmake_sample.Header.Endian.{Fits, IsHost, big_bytes, length-big_bytes}

-- What the class keeps of a header: the type leaves room for its NUL, the numbers fit their types,
-- and the buffer is an array of 32 bytes.
pub record IsValid (h : Header) : Type 0 where
  pub short : length h.message_type < type_size
  pub chars : All IsByte h.message_type
  pub fits_length : Fits u32 h.message_length
  pub fits_version : Fits u16 h.message_version
  pub full : length h.bytes ≡ max_data_size
  pub octets : All IsByte h.bytes

-- The wire format: four bytes of length and two of version, big-endian, then the type, padded
-- by NULs to 26 bytes.
abbrev pub numbers : ℕ → ℕ → List ℕ
numbers l v = big_bytes u32 l ++ big_bytes u16 v

abbrev pub padded : List ℕ → List ℕ
padded t = t ++ replicate (type_size - length t) 0

abbrev pub frame : List ℕ → ℕ → ℕ → List ℕ
frame t l v = numbers l v ++ padded t

pub length-numbers : (l v : ℕ) → length (numbers l v) ≡ type_offset
length-numbers l v =
    length-append (big_bytes u32 l) (big_bytes u16 v)
    ∙ omega (arith, length-big_bytes u32 l, length-big_bytes u16 v)

pub length-padded : (t : List ℕ) → length t < type_size → length (padded t) ≡ type_size
length-padded t h =
    length-append t (replicate (type_size - length t) 0)
    ∙ omega (arith, length-replicate {A = ℕ} (type_size - length t) 0)

pub length-frame :
    (t : List ℕ) (l v : ℕ) → length t < type_size → length (frame t l v) ≡ max_data_size
length-frame t l v h =
    length-append (numbers l v) (padded t) ∙ omega (arith, length-numbers l v, length-padded t h)

-- A write behind a prefix keeps the prefix.
write-append :
    (offset : ℕ) (p src q : List ℕ)
    → offset ≡ length p
    → write offset src (p ++ q) ≡ p ++ (src ++ drop (length src) q)
write-append offset p src q e = rw (e, take-append_left p q, drop-append_add (length src) p q)

drop_all_twice :
    (m n k : ℕ) (xs : List ℕ) → length xs ≤ m + n + k → drop k (drop n (drop m xs)) ≡ []
drop_all_twice m n k xs h =
    drop_all k _ (omega (arith, length-drop n (drop m xs), length-drop m xs))

module _ (host : Host) (laws : IsHost host) (h : Header) (valid : IsValid h) where
  abbrev len_bytes : List ℕ
  len_bytes = host.store u32 (host.native_to_big u32 h.message_length)

  abbrev ver_bytes : List ℕ
  ver_bytes = host.store u16 (host.native_to_big u16 h.message_version)

  with_numbers :
      write version_offset ver_bytes (write length_offset len_bytes h.bytes)
      ≡ numbers h.message_length h.message_version ++ drop 2 (drop 4 h.bytes)
  with_numbers = rw (laws.stores_big u32 h.message_length valid.fits_length) (
      rw (laws.stores_big u16 h.message_version valid.fits_version) (
        rw (length-big_bytes u32 h.message_length) (
          write-append version_offset (big_bytes u32 h.message_length)
            (big_bytes u16 h.message_version) (drop 4 h.bytes)
            (sym (length-big_bytes u32 h.message_length))
          ∙ rw (length-big_bytes u16 h.message_version)
              (sym (append_assoc (big_bytes u32 h.message_length) _ _)))))

  cleared :
      write type_offset
        (replicate type_size 0)
        (numbers h.message_length h.message_version ++ drop 2 (drop 4 h.bytes))
      ≡ numbers h.message_length h.message_version ++ replicate type_size 0
  cleared =
      write-append type_offset (numbers h.message_length h.message_version) (replicate type_size 0)
        (drop 2 (drop 4 h.bytes)) (sym (length-numbers h.message_length h.message_version))
      ∙ ap (λ rest. numbers h.message_length h.message_version ++ (replicate type_size 0 ++ rest))
          (drop_all_twice 4 2 26 h.bytes (omega (arith, valid.full)))

  -- `encode_header` writes the wire format over whatever the buffer held.
  pub encoded-frame : encoded host h ≡ frame h.message_type h.message_length h.message_version
  unfolding encoded
  encoded-frame =
      rw (with_numbers, cleared)
        (write-append type_offset (numbers h.message_length h.message_version) h.message_type
            (replicate type_size 0) (sym (length-numbers h.message_length h.message_version))
          ∙ ap (λ rest. numbers h.message_length h.message_version ++ (h.message_type ++ rest))
              (drop-replicate (length h.message_type) type_size 0))
