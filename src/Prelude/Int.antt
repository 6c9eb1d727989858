-- ===== src/Prelude/Int.antt =====
-- Signed integers over the native numbers, as far as the program has them: `i32`.
use avicoin.Prelude.{ℕ, ◌-◌, ◌%◌, ◌^◌, ◌<◌, ◌≡◌, arith, ltb, if◌then◌else◌}

-- `negsuc n` is -(n + 1).
pub data ℤ : Type 0 where
  pos : ℕ → ℤ
  negsuc : ℕ → ℤ

-- The range of an `i32`.
abbrev pub IsI32 : ℤ → Type 0
IsI32 (pos n) = n < 2 ^ 31
IsI32 (negsuc n) = n < 2 ^ 31

-- An `i32` from its bit pattern, and the bit pattern of an `i32` (two's complement).
unfoldable pub i32_of_bits : ℕ → ℤ
i32_of_bits w = if ltb w (2 ^ 31) then pos w else negsuc (2 ^ 32 - w - 1)

unfoldable pub bits_of_i32 : ℤ → ℕ
bits_of_i32 (pos n) = n % 2 ^ 32
bits_of_i32 (negsuc n) = 2 ^ 32 - 1 - n % 2 ^ 32

pub i32_of_bits-bits_of_i32 : (z : ℤ) → IsI32 z → i32_of_bits (bits_of_i32 z) ≡ z
unfolding i32_of_bits bits_of_i32
i32_of_bits-bits_of_i32 (pos n) h = ground arith
i32_of_bits-bits_of_i32 (negsuc n) h = ground arith

pub bits_of_i32-lt : (z : ℤ) → bits_of_i32 z < 2 ^ 32
unfolding bits_of_i32
bits_of_i32-lt (pos n) = omega arith
bits_of_i32-lt (negsuc n) = omega arith

-- A bit pattern is that of the number that it stands for.
pub bits_of_i32-i32_of_bits : (w : ℕ) → w < 2 ^ 32 → bits_of_i32 (i32_of_bits w) ≡ w
unfolding i32_of_bits bits_of_i32
bits_of_i32-i32_of_bits w h = ground arith

pub i32_of_bits-IsI32 : (w : ℕ) → w < 2 ^ 32 → IsI32 (i32_of_bits w)
unfolding i32_of_bits
i32_of_bits-IsI32 w h = ground arith
