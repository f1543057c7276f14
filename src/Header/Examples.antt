-- ===== src/Header/Examples.antt =====
-- A little-endian host and two headers, on which the theorems about the header are run.
use cmake_sample.Common.{
  ℕ, ◌+◌, ◌*◌, ◌/◌, ◌%◌, ◌<◌, ◌^◌, ◌≡◌, ◌≢◌, ◌⊎◌, ◌↔◌, ◌++◌, List, [], ◌∷◌, All, length, replicate,
  ok, err, arith, refl,
}
use cmake_sample.Header.{
  Header, Host, Width, u16, u32, size_of, IsByte, no_type, no_nul, fresh, encode_header,
  decode_header,
}
use cmake_sample.Header.Endian.{IsHost, Fits, big_bytes, big_value}
use cmake_sample.Header.Layout.{IsValid, frame, padded}
use cmake_sample.Header.Nul.{before_nul, IsNulFree}
use cmake_sample.Header.Decode.{
  read_length, read_version, type_field, decode_header_outcome, IsBuffer,
}
use cmake_sample.Header.RoundTrip.{
  encode_header_outcome, decode_header-encode_header, decode_header-encode_header_cut,
}
use cmake_sample.Header.Again.{encode_header-decode_header}
use std.Equiv.{◌≃◌}
use cmake_sample.Header.Contents.{Contents, Packet, holding, contents_are_packets}
use cmake_sample.Header.Calls.{Call, set_type, set_length, encode, decode, run, run-fresh-IsValid}

-- The bytes of a little-endian machine, the lowest first.
abbrev store_little : Width → ℕ → List ℕ
store_little u16 v = (v % 256) ∷ (v / 256) ∷ []
store_little u32 v = (v % 256) ∷ (v / 256 % 256) ∷ (v / 2 ^ 16 % 256) ∷ (v / 2 ^ 24) ∷ []

abbrev load_little : Width → List ℕ → ℕ
load_little u16 (a ∷ b ∷ []) = a + b * 256
load_little u32 (a ∷ b ∷ c ∷ d ∷ []) = a + b * 256 + c * 2 ^ 16 + d * 2 ^ 24
load_little w bs = 0

abbrev swap : Width → ℕ → ℕ
swap u16 v = v / 256 + v % 256 * 256
swap u32 v = v / 2 ^ 24 + v / 2 ^ 16 % 256 * 256 + v / 256 % 256 * 2 ^ 16 + v % 256 * 2 ^ 24

abbrev pub little : Host
little = record {
  store = store_little;
  load = load_little;
  native_to_big = swap;
  big_to_native = swap;
}

two_bytes : {a b c d : ℕ} → a ≡ c → b ≡ d → a ∷ b ∷ [] ≡ c ∷ d ∷ []
two_bytes e f = cc

first : (v : ℕ) → v < 2 ^ 32 → swap u32 v % 256 ≡ v / 2 ^ 24
first v h = omega arith

second : (v : ℕ) → v < 2 ^ 32 → swap u32 v / 256 % 256 ≡ v / 2 ^ 16 % 256
second v h = omega arith

third : (v : ℕ) → v < 2 ^ 32 → swap u32 v / 2 ^ 16 % 256 ≡ v / 256 % 256
third v h = omega arith

fourth : (v : ℕ) → v < 2 ^ 32 → swap u32 v / 2 ^ 24 ≡ v % 256
fourth v h = omega arith

swap_stores : (w : Width) (v : ℕ) → Fits w v → store_little w (swap w v) ≡ big_bytes w v
unfolding big_bytes
swap_stores u16 v h = two_bytes (omega arith) (omega arith)
swap_stores u32 v h = cc (two_bytes (first v h) (second v h), two_bytes (third v h) (fourth v h))

swap_loads :
    (w : Width) (bs : List ℕ)
    → All IsByte bs
    → length bs ≡ size_of w
    → swap w (load_little w bs) ≡ big_value 0 bs
unfolding big_value
swap_loads u16 (a ∷ b ∷ []) h e = omega arith
swap_loads u32 (a ∷ b ∷ c ∷ d ∷ []) h e = omega arith
swap_loads w bs h e = absurd (omega arith)

pub little-IsHost : IsHost little
little-IsHost = record { stores_big = swap_stores; loads_big = swap_loads }

abbrev pub memory : List ℕ
memory = replicate 32 205

-- The type "hi", and the type "h\0i" with a NUL inside.
abbrev pub hi : Header
hi = record {
  message_type = b'h' ∷ b'i' ∷ [];
  message_length = 70000;
  message_version = 258;
  bytes = memory;
}

abbrev cut : Header
cut = record hi { message_type = b'h' ∷ 0 ∷ b'i' ∷ [] }

memory-IsBuffer : IsBuffer memory
memory-IsBuffer = (refl, omega arith)

pub hi-IsValid : IsValid hi
hi-IsValid = record {
  short = omega arith;
  chars = omega arith;
  fits_length = omega arith;
  fits_version = omega arith;
  full = refl;
  octets = memory-IsBuffer.1;
}

cut-IsValid : IsValid cut
cut-IsValid = record {
  short = omega arith;
  chars = omega arith;
  fits_length = omega arith;
  fits_version = omega arith;
  full = refl;
  octets = memory-IsBuffer.1;
}

pub hi-IsNulFree : IsNulFree hi.message_type
hi-IsNulFree = ((λ e. absurd (omega arith)), ((λ e. absurd (omega arith)), tt))

decode_header-encode_header_example :
    let sent = frame hi.message_type 70000 258 in
    (encode_header little hi ≡ ok (record hi { bytes = sent }))
    × (decode_header little (record (fresh memory) { bytes = sent })
        ≡ (record hi { bytes = sent }, ok tt))
decode_header-encode_header_example =
    decode_header-encode_header little little-IsHost hi hi-IsValid (λ e. cc) hi-IsNulFree
      (fresh memory)

decode_header-encode_header_cut_example :
    (e d : Header) × (encode_header little cut ≡ ok e)
    × (decode_header little (record hi { bytes = e.bytes }) ≡ (d, ok tt))
    × (d.message_type ≡ before_nul cut.message_type)
    × (d.message_type ≢ cut.message_type)
decode_header-encode_header_cut_example =
    decode_header-encode_header_cut little little-IsHost cut cut-IsValid (λ f. f.1.0 refl) hi

encode_header_outcome_example :
    ((hi.message_type ≡ []) × (encode_header little hi ≡ err no_type))
    ⊎ ((hi.message_type ≢ [])
        × (encode_header little hi ≡ ok (record hi { bytes = frame hi.message_type 70000 258 })))
encode_header_outcome_example = encode_header_outcome little little-IsHost hi hi-IsValid

decode_header_outcome_example :
    ((¬ IsNulFree (type_field memory))
      × (decode_header little hi ≡ (
        record {
          message_type = before_nul (type_field memory);
          message_length = read_length memory;
          message_version = read_version memory;
          bytes = memory;
        },
        ok tt,
      )))
    ⊎ (IsNulFree (type_field memory)
        × (decode_header little hi ≡ (
          record hi { message_length = read_length memory; message_version = read_version memory },
          err no_nul,
        )))
decode_header_outcome_example = decode_header_outcome little little-IsHost hi memory-IsBuffer

abbrev calls_on_one : List Call
calls_on_one = decode ∷ set_type memory ∷ set_type (b'h' ∷ []) ∷ set_length 7 ∷ encode ∷ []

run-fresh-IsValid_example : IsValid (run little (fresh memory) calls_on_one)
run-fresh-IsValid_example =
    run-fresh-IsValid little little-IsHost memory memory-IsBuffer calls_on_one
      (tt, (memory-IsBuffer.1, (omega arith, (omega arith, (tt, tt)))))

-- The type "h", with other bytes behind its NUL.
abbrev received : Header
received = record hi { bytes = replicate 6 1 ++ (b'h' ∷ 0 ∷ replicate 24 205) }

received-IsBuffer : IsBuffer received.bytes
received-IsBuffer = (refl, omega arith)

received_type : before_nul (type_field received.bytes) ≢ []
unfolding before_nul
received_type e = cc

encode_header-decode_header_example :
    (d e : Header) × (decode_header little received ≡ (d, ok tt))
    × (encode_header little d ≡ ok e)
    × ((e.bytes ≡ received.bytes)
        ↔ (type_field received.bytes ≡ padded (before_nul (type_field received.bytes))))
encode_header-decode_header_example =
    encode_header-decode_header little little-IsHost received received-IsBuffer (λ f. f.1.0 refl)
      received_type

contents_are_packets_example :
    (e : Contents ≃ Packet) × ((c : Contents) (bs : List ℕ)
      → IsBuffer bs
      → encode_header little (holding c.0 bs) ≡ ok (holding c.0 (e.0 c).0))
    × ((p : Packet) (h : Header)
        → (c : Contents) × (e.0 c ≡ p)
          × (decode_header little (record h { bytes = p.0 }) ≡ (holding c.0 p.0, ok tt)))
contents_are_packets_example = contents_are_packets little little-IsHost
