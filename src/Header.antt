-- ===== src/Header.antt =====
-- libs/comm/include/comm/messages/message_header.hpp and libs/comm/src/messages/message_header.cpp:
-- the class `message_header`, the fixed 32-byte header of a TCP message: its fields, its setters,
-- `encode_header` and `decode_header`.
-- A `std::string` and a `std::array<std::byte, 32>` are lists of bytes, numbers below 256.
pub mod Endian
pub mod Layout
pub mod Nul
pub mod Decode
pub mod RoundTrip
pub mod Again
pub mod Contents
pub mod Calls
pub mod Examples
use cmake_sample.Common.{
  ℕ, zero, suc, ◌+◌, ◌-◌, ◌*◌, ◌/◌, ◌%◌, ◌<◌, ◌^◌, ◌≡◌, String, Bool, true, false, List, [], ◌∷◌,
  ◌++◌, length, take, drop, replicate, All, leb, ◌==◌, if◌then◌else◌, Result, ok, err,
}

-- The standard exceptions that the class throws, with their messages.
pub data Error : Type 0 where
  logic_error : String → Error
  runtime_error : String → Error

abbrev pub max_data_size : ℕ
max_data_size = 32

abbrev pub length_offset : ℕ
length_offset = 0

-- sizeof(uint32_t) is 4 and sizeof(uint16_t) is 2.
abbrev pub version_offset : ℕ
version_offset = length_offset + 4

abbrev pub type_offset : ℕ
type_offset = version_offset + 2

abbrev pub type_size : ℕ
type_size = max_data_size - type_offset

abbrev pub IsByte : ℕ → Type 0
IsByte b = b < 256

pub record Header : Type 0 where
  pub message_type : List ℕ
  pub message_length : ℕ
  pub message_version : ℕ
  pub bytes : List ℕ

-- The default constructor leaves `data_` uninitialised, so its bytes are an argument.
pub fresh : List ℕ → Header
fresh memory = record { message_type = []; message_length = 0; message_version = 1; bytes = memory }

-- The integer types that the header stores.
pub data Width : Type 0 where
  u16 u32 : Width

abbrev pub size_of : Width → ℕ
size_of u16 = 2
size_of u32 = 4

-- What the machine and Boost.Endian do: `store` and `load` are `memcpy` out of and into an unsigned
-- integer, the others are `boost::endian::native_to_big` and `big_to_native`.
pub record Host : Type 0 where
  pub store : Width → ℕ → List ℕ
  pub load : Width → List ℕ → ℕ
  pub native_to_big : Width → ℕ → ℕ
  pub big_to_native : Width → ℕ → ℕ

abbrev pub too_long : Error
too_long = logic_error "message_type: 文字列幅が最大サイズを超えています"

abbrev pub no_type : Error
no_type = logic_error "encode_header: message_type_ が空です"

abbrev pub no_nul : Error
no_nul = runtime_error "decode_header: data_ に NUL 終端が見つかりません（データが不正です）"

pub set_message_type : List ℕ → Header → Result Error Header
set_message_type t h =
    if leb type_size (length t) then err too_long else ok (record h { message_type = t })

pub set_message_length : ℕ → Header → Header
set_message_length l h = record h { message_length = l }

pub set_message_version : ℕ → Header → Header
set_message_version v h = record h { message_version = v }

pub header_length : Header → ℕ
header_length h = length h.bytes

-- `std::memcpy(dst + offset, src, length src)`, and `std::fill` of such a range.
abbrev pub write : ℕ → List ℕ → List ℕ → List ℕ
write offset src dst = take offset dst ++ (src ++ drop (offset + length src) dst)

abbrev pub read : ℕ → ℕ → List ℕ → List ℕ
read offset size src = take size (drop offset src)

-- `std::find`: the position of the first `c`, or the length.
pub find : ℕ → List ℕ → ℕ
find c [] = 0
find c (x ∷ xs) = if x == c then 0 else suc (find c xs)

abbrev pub is_empty : List ℕ → Bool
is_empty [] = true
is_empty (x ∷ xs) = false

module _ (host : Host) where
  open host use {store, load, native_to_big, big_to_native}

  -- The writes of `encode_header`, in their order.
  pub encoded : Header → List ℕ
  encoded h =
      let with_length =
        write length_offset (store u32 (native_to_big u32 h.message_length)) h.bytes in
      let with_version =
        write version_offset (store u16 (native_to_big u16 h.message_version)) with_length in
      let cleared = write type_offset (replicate type_size 0) with_version in
      write type_offset h.message_type cleared

  pub encode_header : Header → Result Error Header
  unfolding encoded
  encode_header h =
      if is_empty h.message_type then err no_type else ok (record h { bytes = encoded h })

  -- The length and the version are set before the type is looked for, also where that throws.
  pub decode_header : Header → Header × Result Error (Unit {0})
  unfolding find
  decode_header h =
      let len_be = load u32 (read length_offset (size_of u32) h.bytes) in
      let ver_be = load u16 (read version_offset (size_of u16) h.bytes) in
      let src = read type_offset type_size h.bytes in
      let end = find 0 src in
      let numbers = record h {
        message_length = big_to_native u32 len_be;
        message_version = big_to_native u16 ver_be;
      } in
      if end == type_size
      then (numbers, err no_nul)
      else (record numbers { message_type = take end src }, ok tt)
