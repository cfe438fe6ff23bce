-- ===== src/Prelude/Int.antt =====
-- Signed integers, and the types int8_t to int64_t as bit patterns in two's complement.
use Prim.Native.Nat.{ℕ, ◌-◌, ◌^◌, ◌<◌}
use mathlib.Core.Path.{◌≡◌}
use native.Mathlib.Omega.{arith}
use my_orm.Prelude.Tests.{ltb, if◌then◌else◌}

-- `negsuc n` is -(n + 1).
pub data ℤ : Type 0 where
  pos : ℕ → ℤ
  negsuc : ℕ → ℤ

-- The values of int32_t and of int64_t.
abbrev pub IsInt32 : ℤ → Type 0
IsInt32 (pos n) = n < 2 ^ 31
IsInt32 (negsuc n) = n < 2 ^ 31

abbrev pub IsInt64 : ℤ → Type 0
IsInt64 (pos n) = n < 2 ^ 63
IsInt64 (negsuc n) = n < 2 ^ 63

abbrev pub IsInt8 : ℤ → Type 0
IsInt8 (pos n) = n < 2 ^ 7
IsInt8 (negsuc n) = n < 2 ^ 7

abbrev pub IsInt16 : ℤ → Type 0
IsInt16 (pos n) = n < 2 ^ 15
IsInt16 (negsuc n) = n < 2 ^ 15

-- The bit pattern of an int8_t and back.
unfoldable pub bits8 : ℤ → ℕ
bits8 (pos n) = n
bits8 (negsuc n) = 2 ^ 8 - 1 - n

unfoldable pub to_int8 : ℕ → ℤ
to_int8 b = if ltb b (2 ^ 7) then pos b else negsuc (2 ^ 8 - 1 - b)

unfoldable pub bits16 : ℤ → ℕ
bits16 (pos n) = n
bits16 (negsuc n) = 2 ^ 16 - 1 - n

pub to_int8-bits8 : (z : ℤ) → IsInt8 z → to_int8 (bits8 z) ≡ z
unfolding to_int8 bits8
to_int8-bits8 (pos n) h = ground arith
to_int8-bits8 (negsuc n) h = ground arith

-- The bit pattern of an int32_t and back, as std::memcpy and static_cast go between them.
unfoldable pub bits32 : ℤ → ℕ
bits32 (pos n) = n
bits32 (negsuc n) = 2 ^ 32 - 1 - n

unfoldable pub to_int32 : ℕ → ℤ
to_int32 b = if ltb b (2 ^ 31) then pos b else negsuc (2 ^ 32 - 1 - b)

unfoldable pub bits64 : ℤ → ℕ
bits64 (pos n) = n
bits64 (negsuc n) = 2 ^ 64 - 1 - n

unfoldable pub to_int64 : ℕ → ℤ
to_int64 b = if ltb b (2 ^ 63) then pos b else negsuc (2 ^ 64 - 1 - b)

pub to_int32-bits32 : (z : ℤ) → IsInt32 z → to_int32 (bits32 z) ≡ z
unfolding to_int32 bits32
to_int32-bits32 (pos n) h = ground arith
to_int32-bits32 (negsuc n) h = ground arith

pub to_int64-bits64 : (z : ℤ) → IsInt64 z → to_int64 (bits64 z) ≡ z
unfolding to_int64 bits64
to_int64-bits64 (pos n) h = ground arith
to_int64-bits64 (negsuc n) h = ground arith

pub bits32-lt : (z : ℤ) → IsInt32 z → bits32 z < 2 ^ 32
unfolding bits32
bits32-lt (pos n) h = omega arith
bits32-lt (negsuc n) h = omega arith

pub bits64-lt : (z : ℤ) → IsInt64 z → bits64 z < 2 ^ 64
unfolding bits64
bits64-lt (pos n) h = omega arith
bits64-lt (negsuc n) h = omega arith
