-- ===== src/Sbus/Channels.antt =====
-- How the 16 channels lie in a frame: 22 bytes are one little-endian number, and the channels are
-- its digits of 11 bits.
use robofw.Common.{
  ℕ, zero, suc, ◌+◌, ◌*◌, ◌/◌, ◌%◌, ◌<◌, ◌^◌, ◌≡◌, sym, ap, ◌∙◌, List, [], ◌∷◌, ◌++◌, arith, get_or,
  bit_and,
}
use mathlib.Core.Path.{ap₂}
use native.Mathlib.Nat.{suc-add, pow-suc}
use robofw.Common.Bits.{shr, shl, bit_or_join, bit_and_ones}
use robofw.Sbus.{two_bytes, three_bytes, sbus_build_message}

-- The bytes from index `i` on, `n` of them, as one number, the lowest byte first.
abbrev pub little_endian : List ℕ → ℕ → ℕ → ℕ
little_endian buf i zero = 0
little_endian buf i (suc n) = get_or buf i 0 + 256 * little_endian buf (suc i) n

-- The `n` lowest digits of 11 bits, the lowest first.
abbrev pub digits_11 : ℕ → ℕ → List ℕ
digits_11 v zero = []
digits_11 v (suc n) = v % 2048 ∷ digits_11 (v / 2048) n

-- The value of a frame's 22 payload bytes.
abbrev pub payload_value : List ℕ → ℕ
payload_value buf = little_endian buf 1 22

two_bytes_lem :
    (k low high : ℕ) → low < 2 ^ k → two_bytes low (high * 2 ^ k) ≡ (high * 2 ^ k + low) % 2048
two_bytes_lem k low high h = rw (bit_or_join k high low h) (bit_and_ones 11 (high * 2 ^ k + low))

three_bytes_lem :
    (k m low middle high : ℕ)
    → low < 2 ^ k
    → middle * 2 ^ k + low < 2 ^ m
    → three_bytes low (middle * 2 ^ k) (high * 2 ^ m)
      ≡ (high * 2 ^ m + (middle * 2 ^ k + low)) % 2048
three_bytes_lem k m low middle high h h' =
    rw (bit_or_join k middle low h, bit_or_join m high (middle * 2 ^ k + low) h')
      (bit_and_ones 11 (high * 2 ^ m + (middle * 2 ^ k + low)))

-- Eleven bytes hold eight channels; `first` is how the code writes the first of them.
module _ (first b1 b2 b3 b4 b5 b6 b7 b8 b9 b10 b11 : ℕ) where
  abbrev eleven_bytes : ℕ
  eleven_bytes =
      b1
      + 256
        * (b2
            + 256
              * (b3
                  + 256
                    * (b4
                        + 256
                          * (b5
                              + 256
                                * (b6
                                    + 256
                                      * (b7
                                          + 256
                                            * (b8
                                                + 256
                                                  * (b9
                                                      + 256 * (b10 + 256 * (b11 + 256 * 0))))))))))

  abbrev eight_channels : List ℕ
  eight_channels =
      (two_bytes first (shl b2 8))
      ∷ (two_bytes (shr b2 3) (shl b3 5))
      ∷ (three_bytes (shr b3 6) (shl b4 2) (shl b5 10))
      ∷ (two_bytes (shr b5 1) (shl b6 7))
      ∷ (two_bytes (shr b6 4) (shl b7 4))
      ∷ (three_bytes (shr b7 7) (shl b8 1) (shl b9 9))
      ∷ (two_bytes (shr b9 2) (shl b10 6))
      ∷ (two_bytes (shr b10 5) (shl b11 3))
      ∷ []

  module _ (h0 : first ≡ b1) (h1 : b1 < 256) (h2 : b2 < 256) (h3 : b3 < 256) (h4 : b4 < 256)
      (h5 : b5 < 256) (h6 : b6 < 256) (h7 : b7 < 256) (h8 : b8 < 256) (h9 : b9 < 256)
      (h10 : b10 < 256) (h11 : b11 < 256) where
    eight_channels_lem : eight_channels ≡ digits_11 eleven_bytes 8
    eight_channels_lem =
        cc (channel_0, channel_1, channel_2, channel_3, channel_4, channel_5, channel_6, channel_7)
      where
        channel_0 : two_bytes first (shl b2 8) ≡ eleven_bytes % 2048
        channel_0 = omega (arith, two_bytes_lem 8 first b2 (omega arith))

        channel_1 : two_bytes (shr b2 3) (shl b3 5) ≡ eleven_bytes / 2048 % 2048
        channel_1 = omega (arith, two_bytes_lem 5 (b2 / 8) b3 (omega arith))

        channel_2 :
            three_bytes (shr b3 6) (shl b4 2) (shl b5 10) ≡ eleven_bytes / 2048 / 2048 % 2048
        channel_2 = omega (arith, three_bytes_lem 2 10 (b3 / 64) b4 b5 (omega arith) (omega arith))

        channel_3 : two_bytes (shr b5 1) (shl b6 7) ≡ eleven_bytes / 2048 / 2048 / 2048 % 2048
        channel_3 = omega (arith, two_bytes_lem 7 (b5 / 2) b6 (omega arith))

        channel_4 :
            two_bytes (shr b6 4) (shl b7 4) ≡ eleven_bytes / 2048 / 2048 / 2048 / 2048 % 2048
        channel_4 = omega (arith, two_bytes_lem 4 (b6 / 16) b7 (omega arith))

        channel_5 :
            three_bytes (shr b7 7) (shl b8 1) (shl b9 9)
            ≡ eleven_bytes / 2048 / 2048 / 2048 / 2048 / 2048 % 2048
        channel_5 = omega (arith, three_bytes_lem 1 9 (b7 / 128) b8 b9 (omega arith) (omega arith))

        channel_6 :
            two_bytes (shr b9 2) (shl b10 6)
            ≡ eleven_bytes / 2048 / 2048 / 2048 / 2048 / 2048 / 2048 % 2048
        channel_6 = omega (arith, two_bytes_lem 6 (b9 / 4) b10 (omega arith))

        channel_7 :
            two_bytes (shr b10 5) (shl b11 3)
            ≡ eleven_bytes / 2048 / 2048 / 2048 / 2048 / 2048 / 2048 / 2048 % 2048
        channel_7 = omega (arith, two_bytes_lem 3 (b10 / 32) b11 (omega arith))

-- The digits of a number, split after the first `n`.
digits_split :
    (n m a b : ℕ)
    → a < 2048 ^ n
    → digits_11 (a + b * 2048 ^ n) (n + m) ≡ digits_11 a n ++ digits_11 b m
digits_split zero m a b h = ap₂ digits_11 (omega arith) (omega arith)
digits_split (suc n) m a b h = rw suc-add (
    ap₂ ◌∷◌ (omega (arith, grown)) (
      ap (λ t. digits_11 t (n + m)) (omega (arith, grown))
      ∙ digits_split n m (a / 2048) b (omega (arith, pow-suc 2048 n))))
  where
    grown : b * 2048 ^ suc n ≡ 2048 * (b * 2048 ^ n)
    grown = omega (arith, ap (λ (t : ℕ). b * t) (pow-suc 2048 n))

module _ (buf : List ℕ) (bytes : (i : ℕ) → get_or buf i 0 < 256) where
  abbrev at : ℕ → ℕ
  at i = get_or buf i 0

  first_half :
      eight_channels
        (shr (at 1) 0)
        (at 1)
        (at 2)
        (at 3)
        (at 4)
        (at 5)
        (at 6)
        (at 7)
        (at 8)
        (at 9)
        (at 10)
        (at 11)
      ≡ digits_11 (little_endian buf 1 11) 8
  first_half =
      eight_channels_lem (shr (at 1) 0) (at 1) (at 2) (at 3) (at 4) (at 5) (at 6) (at 7) (at 8)
        (at 9) (at 10) (at 11) (omega arith) (bytes 1) (bytes 2) (bytes 3) (bytes 4) (bytes 5)
        (bytes 6) (bytes 7) (bytes 8) (bytes 9) (bytes 10) (bytes 11)

  second_half :
      eight_channels
        (shl (at 12) 0)
        (at 12)
        (at 13)
        (at 14)
        (at 15)
        (at 16)
        (at 17)
        (at 18)
        (at 19)
        (at 20)
        (at 21)
        (at 22)
      ≡ digits_11 (little_endian buf 12 11) 8
  second_half =
      eight_channels_lem (shl (at 12) 0) (at 12) (at 13) (at 14) (at 15) (at 16) (at 17) (at 18)
        (at 19) (at 20) (at 21) (at 22) (omega arith) (bytes 12) (bytes 13) (bytes 14) (bytes 15)
        (bytes 16) (bytes 17) (bytes 18) (bytes 19) (bytes 20) (bytes 21) (bytes 22)

  payload_halves : payload_value buf ≡ little_endian buf 1 11 + little_endian buf 12 11 * 2048 ^ 8
  payload_halves = omega arith

  little_endian_half : little_endian buf 1 11 < 2048 ^ 8
  little_endian_half = omega (
    arith,
    bytes 1,
    bytes 2,
    bytes 3,
    bytes 4,
    bytes 5,
    bytes 6,
    bytes 7,
    bytes 8,
    bytes 9,
    bytes 10,
    bytes 11,
  )

  -- The analog channels of a message are the sixteen 11-bit digits of the payload, and the two
  -- digital ones and the flags are single bits of byte 23, if every byte is below 256.
  pub build_message-digits :
      ((sbus_build_message buf).channels
        ≡ digits_11 (payload_value buf) 16 ++ (bit_and (at 23) 0x80 ∷ bit_and (at 23) 0x40 ∷ []))
  unfolding sbus_build_message
  build_message-digits = ap (λ t. t ++ digital) (ap₂ ◌++◌ first_half second_half ∙ sym halves)
    where
      digital : List ℕ
      digital = bit_and (at 23) 0x80 ∷ bit_and (at 23) 0x40 ∷ []

      halves :
          digits_11 (payload_value buf) 16
          ≡ digits_11 (little_endian buf 1 11) 8 ++ digits_11 (little_endian buf 12 11) 8
      halves =
          ap (λ v. digits_11 v 16) payload_halves
          ∙ digits_split 8 8 (little_endian buf 1 11) (little_endian buf 12 11) little_endian_half
