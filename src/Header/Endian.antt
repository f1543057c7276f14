-- ===== src/Header/Endian.antt =====
-- Big-endian bytes, and what `message_header.cpp` relies on of `memcpy` and of Boost.Endian.
use cmake_sample.Common.{
  ℕ, ◌+◌, ◌*◌, ◌/◌, ◌%◌, ◌^◌, ◌<◌, ◌≡◌, refl, List, [], ◌∷◌, length, All, arith,
}
use cmake_sample.Header.{Host, Width, u16, u32, size_of, IsByte}

abbrev pub Fits : Width → ℕ → Type 0
Fits u16 v = v < 2 ^ 16
Fits u32 v = v < 2 ^ 32

-- The bytes of a value that fits, the highest first.
unfoldable pub big_bytes : Width → ℕ → List ℕ
big_bytes u16 v = (v / 256) ∷ (v % 256) ∷ []
big_bytes u32 v = (v / 2 ^ 24) ∷ (v / 2 ^ 16 % 256) ∷ (v / 256 % 256) ∷ (v % 256) ∷ []

unfoldable pub big_value : ℕ → List ℕ → ℕ
big_value acc [] = acc
big_value acc (b ∷ bs) = big_value (acc * 256 + b) bs

-- Boost.Endian's contract: in memory a value from `native_to_big` is big-endian, and `big_to_native`
-- reads what such memory holds.
pub record IsHost (host : Host) : Type 0 where
  pub stores_big :
      (w : Width) (v : ℕ) → Fits w v → host.store w (host.native_to_big w v) ≡ big_bytes w v
  pub loads_big :
      (w : Width) (bs : List ℕ)
      → All IsByte bs
      → length bs ≡ size_of w
      → host.big_to_native w (host.load w bs) ≡ big_value 0 bs

pub length-big_bytes : (w : Width) (v : ℕ) → length (big_bytes w v) ≡ size_of w
unfolding big_bytes
length-big_bytes u16 v = refl
length-big_bytes u32 v = refl

pub big_bytes-IsByte : (w : Width) (v : ℕ) → Fits w v → All IsByte (big_bytes w v)
unfolding big_bytes
big_bytes-IsByte u16 v h = omega arith
big_bytes-IsByte u32 v h = omega arith

pub big_value-big_bytes : (w : Width) (v : ℕ) → Fits w v → big_value 0 (big_bytes w v) ≡ v
unfolding big_bytes big_value
big_value-big_bytes u16 v h = omega arith
big_value-big_bytes u32 v h = omega arith

pub big_value-Fits :
    (w : Width) (bs : List ℕ) → All IsByte bs → length bs ≡ size_of w → Fits w (big_value 0 bs)
unfolding big_value
big_value-Fits u16 (a ∷ b ∷ []) h e = omega arith
big_value-Fits u32 (a ∷ b ∷ c ∷ d ∷ []) h e = omega arith
big_value-Fits w bs h e = absurd (omega arith)
