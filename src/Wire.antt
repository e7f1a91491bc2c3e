-- ===== src/Wire.antt =====
-- The bytes of a 32-bit value in a CAN frame, the highest first, as every encoder of the firmware
-- writes them and every decoder joins them.
use robofw.Common.{ℕ, ◌+◌, ◌*◌, ◌/◌, ◌%◌, ◌<◌, ◌≡◌, ◌∙◌, ap, arith, bit_and, bit_or}
use robofw.Common.Int.{ℤ, to_signed, to_unsigned, u32_mod, FitsInt32, to_unsigned32-lt, int32_fits}
use robofw.Common.Bits.{shr, shl, bit_or_join_high, bit_and_above, bit_and_ones}

-- (uint8_t)((w & 0xff000000) >> 24), and so on down.
abbrev pub byte_3 : ℕ → ℕ
byte_3 w = shr (bit_and w 0xff000000) 24 % 256

abbrev pub byte_2 : ℕ → ℕ
byte_2 w = shr (bit_and w 0x00ff0000) 16 % 256

abbrev pub byte_1 : ℕ → ℕ
byte_1 w = shr (bit_and w 0x0000ff00) 8 % 256

abbrev pub byte_0 : ℕ → ℕ
byte_0 w = shr (bit_and w 0x000000ff) 0 % 256

-- b3 << 24 | b2 << 16 | b1 << 8 | b0
abbrev pub join_bytes : ℕ → ℕ → ℕ → ℕ → ℕ
join_bytes b3 b2 b1 b0 = bit_or (bit_or (bit_or (shl b3 24) (shl b2 16)) (shl b1 8)) b0

pub byte_3_lem : (w : ℕ) → w < u32_mod → byte_3 w ≡ w / 16777216
byte_3_lem w h = omega (arith, bit_and_above 24 w 255, bit_and_ones 8 (w / 16777216))

pub byte_2_lem : (w : ℕ) → byte_2 w ≡ w / 65536 % 256
byte_2_lem w = omega (arith, bit_and_above 16 w 255, bit_and_ones 8 (w / 65536))

pub byte_1_lem : (w : ℕ) → byte_1 w ≡ w / 256 % 256
byte_1_lem w = omega (arith, bit_and_above 8 w 255, bit_and_ones 8 (w / 256))

pub byte_0_lem : (w : ℕ) → byte_0 w ≡ w % 256
byte_0_lem w = omega (arith, bit_and_ones 8 w)

pub join_bytes_lem :
    (b3 b2 b1 b0 : ℕ)
    → b2 < 256
    → b1 < 256
    → b0 < 256
    → join_bytes b3 b2 b1 b0 ≡ b3 * 16777216 + b2 * 65536 + b1 * 256 + b0
join_bytes_lem b3 b2 b1 b0 h2 h1 h0 = rw (upper, middle, lower) (omega arith)
  where
    upper : bit_or (b3 * 16777216) (b2 * 65536) ≡ (b3 * 256 + b2) * 65536
    upper = omega (arith, bit_or_join_high 24 b3 (b2 * 65536) (omega arith))

    middle : bit_or ((b3 * 256 + b2) * 65536) (b1 * 256) ≡ ((b3 * 256 + b2) * 256 + b1) * 256
    middle = omega (arith, bit_or_join_high 16 (b3 * 256 + b2) (b1 * 256) (omega arith))

    lower : bit_or (((b3 * 256 + b2) * 256 + b1) * 256) b0 ≡ ((b3 * 256 + b2) * 256 + b1) * 256 + b0
    lower = bit_or_join_high 8 ((b3 * 256 + b2) * 256 + b1) b0 (omega arith)

-- A 32-bit pattern, taken apart and joined, is itself.
pub join_bytes-bytes :
    (w : ℕ) → w < u32_mod → join_bytes (byte_3 w) (byte_2 w) (byte_1 w) (byte_0 w) ≡ w
join_bytes-bytes w h = omega (
  arith,
  join_bytes_lem (byte_3 w) (byte_2 w) (byte_1 w) (byte_0 w) (omega arith) (omega arith)
      (omega arith),
  byte_3_lem w h,
  byte_2_lem w,
  byte_1_lem w,
  byte_0_lem w,
)

-- So is an `int32_t` that is sent as its pattern.
pub to_signed-join_bytes :
    (z : ℤ)
    → FitsInt32 z
    → to_signed u32_mod (
        join_bytes
          (byte_3 (to_unsigned u32_mod z))
          (byte_2 (to_unsigned u32_mod z))
          (byte_1 (to_unsigned u32_mod z))
          (byte_0 (to_unsigned u32_mod z)))
      ≡ z
to_signed-join_bytes z h =
    ap (to_signed u32_mod) (join_bytes-bytes (to_unsigned u32_mod z) (to_unsigned32-lt z))
    ∙ int32_fits z h
