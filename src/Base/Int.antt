-- ===== src/Base/Int.antt =====
-- Signed integers over the native numbers, with the C++ narrowing casts to `int8_t` and `int32_t`.
use votv_mp.Base.Tests.{ltb, ◌==◌, if◌then◌else◌}
use Prim.Native.Nat.{ℕ, ◌-◌, ◌%◌, ◌^◌}
use mathlib.Core.Bool.{Bool, true, false}

-- `negsuc n` is -(n + 1).
pub data ℤ : Type 0 where
  pos : ℕ → ℤ
  negsuc : ℕ → ℤ

abbrev pub eqb_ℤ : ℤ → ℤ → Bool
eqb_ℤ (pos a) (pos b) = a == b
eqb_ℤ (negsuc a) (negsuc b) = a == b
eqb_ℤ _ _ = false

-- static_cast<int8_t>: the low byte, read as two's complement.
abbrev signed_byte : ℕ → ℤ
signed_byte b = if ltb b 128 then pos b else negsuc (255 - b)

abbrev pub int8 : ℤ → ℤ
int8 (pos n) = signed_byte (n % 256)
int8 (negsuc n) = signed_byte (255 - n % 256)

-- static_cast<int32_t> of a `uint32_t`: the same bits, read as two's complement.
abbrev pub int32 : ℕ → ℤ
int32 n = if ltb n (2 ^ 31) then pos n else negsuc (2 ^ 32 - 1 - n)

-- z <= 0
abbrev pub is_at_most_zero : ℤ → Bool
is_at_most_zero (pos n) = n == 0
is_at_most_zero (negsuc n) = true
