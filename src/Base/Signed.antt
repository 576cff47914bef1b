-- ===== src/Base/Signed.antt =====
-- Signed integers over the native numbers, and Go's conversions between the machine widths.
use Prim.Native.Nat.{ℕ, ◌+◌, ◌-◌, ◌%◌, ◌^◌, ◌<◌}
use mathlib.Core.Path.{◌≡◌}
use mathlib.Core.Bool.{Bool, false}
use native.Mathlib.Omega.{arith}
use components_contrib.Base.Tests.{ltb, if◌then◌else◌}

-- `negsuc n` is -(n + 1).
pub data ℤ : Type 0 where
  pos : ℕ → ℤ
  negsuc : ℕ → ℤ

-- `x > 0`
abbrev pub is_positive : ℤ → Bool
is_positive (pos n) = ltb 0 n
is_positive (negsuc n) = false

-- The rounds of `for i := 0; i < x; i++`.
abbrev pub rounds : ℤ → ℕ
rounds (pos n) = n
rounds (negsuc n) = 0

-- The low `w` bits of an integer in two's complement, and the signed reading of `w` bits.
unfoldable pub to_bits : ℕ → ℤ → ℕ
to_bits w (pos n) = n % 2 ^ w
to_bits w (negsuc n) = 2 ^ w - 1 - n % 2 ^ w

unfoldable pub of_bits : ℕ → ℕ → ℤ
of_bits w b = if ltb b (2 ^ (w - 1)) then pos b else negsuc (2 ^ w - 1 - b)

-- `int32(x)`
unfoldable pub to_int32 : ℤ → ℤ
unfolding to_bits of_bits
to_int32 x = of_bits 32 (to_bits 32 x)

-- `int64(x)`
unfoldable pub to_int64 : ℤ → ℤ
unfolding to_bits of_bits
to_int64 x = of_bits 64 (to_bits 64 x)

abbrev pub IsInt32 : ℤ → Type 0
IsInt32 (pos n) = n < 2 ^ 31
IsInt32 (negsuc n) = n < 2 ^ 31

-- The conversion keeps what fits.
pub to_int32_of_IsInt32 : (x : ℤ) → IsInt32 x → to_int32 x ≡ x
unfolding to_int32
to_int32_of_IsInt32 (pos n) h = ground arith
to_int32_of_IsInt32 (negsuc n) h = ground arith

-- Whatever is converted fits afterwards.
pub to_int32-IsInt32 : (x : ℤ) → IsInt32 (to_int32 x)
unfolding to_int32
to_int32-IsInt32 (pos n) = ground arith
to_int32-IsInt32 (negsuc n) = ground arith

-- `time.Duration` is an int64, kept here as its 64 bits; `d *= 2` wraps.
abbrev pub Duration : Type 0
Duration = ℕ

abbrev pub double : Duration → Duration
double d = (d + d) % 2 ^ 64
