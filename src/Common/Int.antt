-- ===== src/Common/Int.antt =====
-- Signed integers over the native numbers, under the library's names, and the conversions between
-- the signed and unsigned C types of one width.
use Prim.Native.Nat.{ℕ, suc, ◌+◌, ◌-◌, ◌*◌, ◌/◌, ◌%◌, ◌≤◌, ◌<◌}
use mathlib.Core.Path.{◌≡◌}
use mathlib.Core.Bool.{Bool}
use native.Mathlib.Omega.{arith}
use robofw.Common.Tests.{ltb, leb, if◌then◌else◌}

-- `negsuc n` is -(n + 1).
pub data ℤ : Type 0 where
  pos : ℕ → ℤ
  negsuc : ℕ → ℤ

abbrev pub pos_part : ℤ → ℕ
pos_part (pos n) = n
pos_part (negsuc n) = 0

abbrev pub neg_part : ℤ → ℕ
neg_part (pos n) = 0
neg_part (negsuc n) = suc n

-- a - b, as an integer.
abbrev pub sub_ℕ : ℕ → ℕ → ℤ
sub_ℕ a b = if leb b a then pos (a - b) else negsuc (b - a - 1)

infixl 65 ◌+ℤ◌ ◌-ℤ◌
infixl 70 ◌*ℤ◌ ◌/ℤ◌
infix 50 ◌≤ℤ◌
abbrev pub ◌+ℤ◌ : ℤ → ℤ → ℤ
a +ℤ b = sub_ℕ (pos_part a + pos_part b) (neg_part a + neg_part b)

abbrev pub ◌-ℤ◌ : ℤ → ℤ → ℤ
a -ℤ b = sub_ℕ (pos_part a + neg_part b) (neg_part a + pos_part b)

abbrev pub neg_ℤ : ℤ → ℤ
neg_ℤ a = sub_ℕ (neg_part a) (pos_part a)

abbrev pub ◌*ℤ◌ : ℤ → ℤ → ℤ
a *ℤ b =
    sub_ℕ (pos_part a * pos_part b + neg_part a * neg_part b)
      (pos_part a * neg_part b + neg_part a * pos_part b)

-- C's division: the quotient is rounded towards zero.
abbrev pub ◌/ℤ◌ : ℤ → ℤ → ℤ
pos a /ℤ pos b = pos (a / b)
pos a /ℤ negsuc b = sub_ℕ 0 (a / suc b)
negsuc a /ℤ pos b = sub_ℕ 0 (suc a / b)
negsuc a /ℤ negsuc b = pos (suc a / suc b)

abbrev pub ◌≤ℤ◌ : ℤ → ℤ → Type 0
a ≤ℤ b = pos_part a + neg_part b ≤ pos_part b + neg_part a

abbrev pub ltb_ℤ : ℤ → ℤ → Bool
ltb_ℤ a b = ltb (pos_part a + neg_part b) (pos_part b + neg_part a)

-- The conversion of a signed value to the unsigned type of `2 ^ w` values, given that number.
abbrev pub to_unsigned : ℕ → ℤ → ℕ
to_unsigned m (pos n) = n % m
to_unsigned m (negsuc n) = (m - 1) - n % m

-- The conversion of an unsigned pattern below `m` to the signed type of that width.
abbrev pub to_signed : ℕ → ℕ → ℤ
to_signed m w = if ltb w (m / 2) then pos w else negsuc (m - w - 1)

abbrev pub u8_mod : ℕ
u8_mod = 256

abbrev pub u16_mod : ℕ
u16_mod = 65536

abbrev pub u32_mod : ℕ
u32_mod = 4294967296

-- The wrap of a value assigned to an `int8_t`, `int16_t`, `int32_t`.
abbrev pub int8 : ℤ → ℤ
int8 z = to_signed u8_mod (to_unsigned u8_mod z)

abbrev pub int16 : ℤ → ℤ
int16 z = to_signed u16_mod (to_unsigned u16_mod z)

abbrev pub int32 : ℤ → ℤ
int32 z = to_signed u32_mod (to_unsigned u32_mod z)

abbrev pub FitsInt8 : ℤ → Type 0
FitsInt8 z = (negsuc 127 ≤ℤ z) × (z ≤ℤ pos 127)

abbrev pub FitsInt16 : ℤ → Type 0
FitsInt16 z = (negsuc 32767 ≤ℤ z) × (z ≤ℤ pos 32767)

abbrev pub FitsInt32 : ℤ → Type 0
FitsInt32 z = (negsuc 2147483647 ≤ℤ z) × (z ≤ℤ pos 2147483647)

-- A value that fits its type is not changed by the wrap.
pub int8_fits : (z : ℤ) → FitsInt8 z → int8 z ≡ z
int8_fits z h = ground arith

pub int16_fits : (z : ℤ) → FitsInt16 z → int16 z ≡ z
int16_fits z h = ground arith

pub int32_fits : (z : ℤ) → FitsInt32 z → int32 z ≡ z
int32_fits z h = ground arith

pub to_unsigned32-lt : (z : ℤ) → to_unsigned u32_mod z < u32_mod
to_unsigned32-lt z = ground arith

-- A 32-bit pattern survives being read as a signed value.
pub to_unsigned32-to_signed : (w : ℕ) → w < u32_mod → to_unsigned u32_mod (to_signed u32_mod w) ≡ w
to_unsigned32-to_signed w h = ground arith
