-- ===== src/Header/Contents.antt =====
-- What a header says, and the buffers that say it: one for each.
use cmake_sample.Common.{ℕ, ◌<◌, ◌≡◌, ◌≢◌, inl, inr, sym, ap, ◌∙◌, List, [], ◌∷◌, length, All, ok}
use std.Equiv.{◌≃◌, iso_to_equiv}
use std.HLevel.{Σ_prop_path}
use native.Mathlib.Decide.{ℕ_discrete}
use native.Mathlib.Bridge.{le_prop}
use cmake_sample.Header.{Header, Host, u16, u32, IsByte, type_size, encode_header, decode_header}
use cmake_sample.Header.Endian.{Fits, IsHost}
use cmake_sample.Header.Layout.{IsValid, padded, frame}
use cmake_sample.Header.Nul.{before_nul, IsNulFree}
use cmake_sample.Header.Nul.{before_nul-IsNulFree, before_nul_free, before_nul-append_nuls}
use cmake_sample.Header.Endian.{big_value-big_bytes}
use cmake_sample.Header.Decode.{
  IsBuffer, type_field, read_length, read_version, type_field-frame, length_field-frame,
  version_field-frame, decode_header_outcome,
}
use cmake_sample.Header.RoundTrip.{frame-IsBuffer, frame_has_nul, encode_header_outcome}
use cmake_sample.Header.Again.{again-same, decoded-IsValid}

pub record Fields : Type 0 where
  pub message_type : List ℕ
  pub message_length : ℕ
  pub message_version : ℕ

-- The type is not empty, has no NUL and leaves room for one, and the numbers fit.
abbrev pub IsSayable : Fields → Type 0
IsSayable c =
    (length c.message_type < type_size)
    × All IsByte c.message_type
    × IsNulFree c.message_type
    × (c.message_type ≢ [])
    × Fits u32 c.message_length
    × Fits u16 c.message_version

abbrev pub Contents : Type 0
Contents = (c : Fields) × IsSayable c

-- The type in the buffer is not empty, ends with a NUL, and has only NULs behind it.
abbrev pub IsPacket : List ℕ → Type 0
IsPacket bs =
    IsBuffer bs
    × (¬ IsNulFree (type_field bs))
    × (before_nul (type_field bs) ≢ [])
    × (type_field bs ≡ padded (before_nul (type_field bs)))

abbrev pub Packet : Type 0
Packet = (bs : List ℕ) × IsPacket bs

All-prop : (P : ℕ → Type 0) → ((x : ℕ) → IsProp (P x)) → (xs : List ℕ) → IsProp (All P xs)
All-prop P h [] = hlevel
All-prop P h (x ∷ xs) = hlevel (h x, All-prop P h xs)

IsByte-prop : (x : ℕ) → IsProp (IsByte x)
IsByte-prop x = hlevel le_prop

IsSayable-prop : (c : Fields) → IsProp (IsSayable c)
IsSayable-prop c = hlevel (
  le_prop,
  All-prop IsByte IsByte-prop c.message_type,
  All-prop (λ x. x ≢ 0) (λ x. hlevel) c.message_type,
)

IsPacket-prop : (bs : List ℕ) → IsProp (IsPacket bs)
IsPacket-prop bs = hlevel (ℕ_discrete, All-prop IsByte IsByte-prop bs)

module _ (c : Fields) (says : IsSayable c) where
  abbrev bytes_of : List ℕ
  bytes_of = frame c.message_type c.message_length c.message_version

  type_of_bytes : before_nul (type_field bytes_of) ≡ c.message_type
  type_of_bytes =
      ap before_nul (type_field-frame c.message_type c.message_length c.message_version says.0)
      ∙ before_nul-append_nuls c.message_type _
      ∙ before_nul_free c.message_type says.2

  length_of_bytes : read_length bytes_of ≡ c.message_length
  length_of_bytes =
      rw (length_field-frame c.message_type c.message_length c.message_version says.0)
        (big_value-big_bytes u32 c.message_length says.4)

  version_of_bytes : read_version bytes_of ≡ c.message_version
  version_of_bytes =
      rw (version_field-frame c.message_type c.message_length c.message_version says.0)
        (big_value-big_bytes u16 c.message_version says.5)

  bytes-IsPacket : IsPacket bytes_of
  bytes-IsPacket = (
    frame-IsBuffer c.message_type c.message_length c.message_version says.0 says.1 says.4 says.5,
    frame_has_nul c.message_type c.message_length c.message_version says.0 says.1 says.4 says.5,
    (λ e. says.3 (sym type_of_bytes ∙ e)),
    type_field-frame c.message_type c.message_length c.message_version says.0
        ∙ ap padded (sym type_of_bytes),
  )

abbrev fields_of : List ℕ → Fields
fields_of bs = record {
  message_type = before_nul (type_field bs);
  message_length = read_length bs;
  message_version = read_version bs;
}

-- An object with these fields and this buffer.
abbrev pub holding : Fields → List ℕ → Header
holding c bs = record {
  message_type = c.message_type;
  message_length = c.message_length;
  message_version = c.message_version;
  bytes = bs;
}

fields-IsSayable : (bs : List ℕ) → IsPacket bs → IsSayable (fields_of bs)
fields-IsSayable bs (buffer, nul, named, padded_out) =
    let valid = decoded-IsValid (holding (fields_of bs) bs) buffer nul in
    (valid.short, valid.chars, before_nul-IsNulFree _, named, valid.fits_length, valid.fits_version)

abbrev pack : Contents → Packet
pack (c, says) = (bytes_of c says, bytes-IsPacket c says)

abbrev unpack : Packet → Contents
unpack (bs, p) = (fields_of bs, fields-IsSayable bs p)

unpack-pack : (c : Contents) → unpack (pack c) ≡ c
unpack-pack (c, says) =
    Σ_prop_path IsSayable-prop
      (cc (type_of_bytes c says, length_of_bytes c says, version_of_bytes c says))

pack-unpack : (p : Packet) → pack (unpack p) ≡ p
pack-unpack (bs, p) = Σ_prop_path IsPacket-prop ((again-same bs p.0).1 p.3)

Contents≃Packet : Contents ≃ Packet
Contents≃Packet =
    iso_to_equiv (record { fun = pack; inv = unpack; rinv = pack-unpack; linv = unpack-pack })

holding-IsValid : (c : Fields) (bs : List ℕ) → IsSayable c → IsBuffer bs → IsValid (holding c bs)
holding-IsValid c bs says buffer = record {
  short = says.0;
  chars = says.1;
  fits_length = says.4;
  fits_version = says.5;
  full = buffer.0;
  octets = buffer.1;
}

-- Contents that can be sent and packets, the buffers with a type, its NUL and only NULs behind it,
-- are in a one-to-one correspondence, and `encode_header` and `decode_header` are its two
-- directions: the one takes contents, over whatever buffer, to their packet, the other a packet, on
-- whatever header, to the contents that it is the packet of. Neither throws.
pub contents_are_packets :
    (host : Host)
    → IsHost host
    → (e : Contents ≃ Packet) × ((c : Contents) (memory : List ℕ)
        → IsBuffer memory
        → encode_header host (holding c.0 memory) ≡ ok (holding c.0 (e.0 c).0))
      × ((p : Packet) (h : Header)
          → (c : Contents) × (e.0 c ≡ p)
            × (decode_header host (record h { bytes = p.0 }) ≡ (holding c.0 p.0, ok tt)))
unfolding Contents≃Packet
contents_are_packets host laws = (Contents≃Packet, sends, receives)
  where
    sends :
        (c : Contents) (memory : List ℕ)
        → IsBuffer memory
        → encode_header host (holding c.0 memory) ≡ ok (holding c.0 (pack c).0)
    sends (c, says) memory buffer =
        elim (encode_header_outcome host laws (holding c memory)
          (holding-IsValid c memory says buffer)) [
            | inl (e, _) ↦ absurd (says.3 e)
            | inr (_, e) ↦ e
          ]

    receives :
        (p : Packet) (h : Header)
        → (c : Contents) × (pack c ≡ p)
          × (decode_header host (record h { bytes = p.0 }) ≡ (holding c.0 p.0, ok tt))
    receives (bs, p) h = elim (decode_header_outcome host laws (record h { bytes = bs }) p.0) [
      | inl (_, e) ↦ (unpack (bs, p), pack-unpack (bs, p), e)
      | inr (free, _) ↦ absurd (p.1 free)
    ]
