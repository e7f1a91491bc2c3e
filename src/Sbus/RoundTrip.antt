-- ===== src/Sbus/RoundTrip.antt =====
-- A transmitter's frame, written from the frame layout in module/sbus/include/sbus/sbus.h, through the
-- decoder: the sixteen channels that were sent are received.
use robofw.Common.{
  ℕ, zero, suc, ◌+◌, ◌*◌, ◌/◌, ◌%◌, ◌^◌, ◌<◌, ◌≡◌, refl, ap, ◌∙◌, not, List, [], ◌∷◌, ◌++◌, arith,
  ◌==◌, get_or, length, bit_and,
}
use mathlib.Core.Path.{ap₂}
use native.Mathlib.Nat.{pow-suc}
use robofw.Sbus.{
  wait_for_sof, SbusDecodeBuffer, SbusMessage, sbus_frame_head, sbus_frame_tail, sbus_build_message,
}
use robofw.Sbus.Channels.{digits_11, payload_value, build_message-digits}
use robofw.Sbus.Stream.{feed}
use robofw.Sbus.Frames.{feed-frame}

-- The channels as one number, the first in the lowest 11 bits, and a number as bytes.
abbrev pub of_digits_11 : List ℕ → ℕ
of_digits_11 [] = 0
of_digits_11 (c ∷ cs) = c + 2048 * of_digits_11 cs

abbrev pub to_bytes : ℕ → ℕ → List ℕ
to_bytes v zero = []
to_bytes v (suc n) = v % 256 ∷ to_bytes (v / 256) n

abbrev pub AllBelow : ℕ → List ℕ → Type 0
AllBelow m [] = Unit {0}
AllBelow m (c ∷ cs) = (c < m) × AllBelow m cs

-- What lies between head and tail: the channels in 22 bytes, then the digital channels and flags.
abbrev pub sent_payload : List ℕ → ℕ → List ℕ
sent_payload cs flags = to_bytes (of_digits_11 cs) 22 ++ (flags ∷ [])

abbrev pub sent_frame : List ℕ → ℕ → List ℕ
sent_frame cs flags = sbus_frame_head ∷ sent_payload cs flags ++ (sbus_frame_tail ∷ [])

digits_11-of_digits_11 :
    (cs : List ℕ) → AllBelow 2048 cs → digits_11 (of_digits_11 cs) (length cs) ≡ cs
digits_11-of_digits_11 [] h = refl
digits_11-of_digits_11 (c ∷ cs) h =
    ap₂ ◌∷◌ (omega arith)
      (ap (λ v. digits_11 v (length cs)) (omega arith) ∙ digits_11-of_digits_11 cs h.1)

of_digits_11-lt : (cs : List ℕ) → AllBelow 2048 cs → of_digits_11 cs < 2048 ^ length cs
of_digits_11-lt [] h = omega arith
of_digits_11-lt (c ∷ cs) h = omega (arith, pow-suc 2048 (length cs), of_digits_11-lt cs h.1)

AllBelow-get_or : (m : ℕ) (xs : List ℕ) (i : ℕ) → 0 < m → AllBelow m xs → get_or xs i 0 < m
AllBelow-get_or m [] i p h = p
AllBelow-get_or m (x ∷ xs) zero p h = h.0
AllBelow-get_or m (x ∷ xs) (suc i) p h = AllBelow-get_or m xs i p h.1

sent_frame-AllBelow : (cs : List ℕ) (flags : ℕ) → flags < 256 → AllBelow 256 (sent_frame cs flags)
sent_frame-AllBelow cs flags h = omega arith

payload_value-sent_frame :
    (cs : List ℕ) (flags : ℕ)
    → of_digits_11 cs < 2048 ^ 16
    → payload_value (sent_frame cs flags) ≡ of_digits_11 cs
payload_value-sent_frame cs flags h = omega arith

-- The message that the transmitter means.
abbrev pub sent_message : List ℕ → ℕ → SbusMessage
sent_message cs flags = record {
  channels = cs ++ (bit_and flags 0x80 ∷ bit_and flags 0x40 ∷ []);
  frame_loss = not (bit_and flags 0x20 == 0);
  fault_protection = not (bit_and flags 0x10 == 0);
}

channels-sent_frame :
    (cs : List ℕ) (flags : ℕ)
    → length cs ≡ 16
    → AllBelow 2048 cs
    → flags < 256
    → (sbus_build_message (sent_frame cs flags)).channels
      ≡ cs ++ (bit_and flags 0x80 ∷ bit_and flags 0x40 ∷ [])
channels-sent_frame cs flags n h k =
    build_message-digits (sent_frame cs flags) (λ i.
      AllBelow-get_or 256 (sent_frame cs flags) i (omega arith) (sent_frame-AllBelow cs flags k))
    ∙ ap (λ t. t ++ (bit_and flags 0x80 ∷ bit_and flags 0x40 ∷ []))
        (digits ∙ digits_11-of_digits_11 cs h)
  where
    fits : of_digits_11 cs < 2048 ^ 16
    fits = rw n at (of_digits_11-lt cs h)

    digits :
        digits_11 (payload_value (sent_frame cs flags)) 16 ≡ digits_11 (of_digits_11 cs) (length cs)
    digits = rw n (ap (λ v. digits_11 v 16) (payload_value-sent_frame cs flags fits))

build_message-sent_frame :
    (cs : List ℕ) (flags : ℕ)
    → length cs ≡ 16
    → AllBelow 2048 cs
    → flags < 256
    → sbus_build_message (sent_frame cs flags) ≡ sent_message cs flags
unfolding sbus_build_message
build_message-sent_frame cs flags n h k = λ i. record {
  channels = channels-sent_frame cs flags n h k i;
  frame_loss = not (bit_and flags 0x20 == 0);
  fault_protection = not (bit_and flags 0x10 == 0);
}

-- Sixteen channels of 11 bits that a transmitter packs into a frame are received as they were sent:
-- the decoder, waiting for a frame, reports one message, whose analog channels are those sixteen and
-- whose digital channels, frame loss and fault flags are the bits 7, 6, 5 and 4 of the flag byte.
pub feed-sent_frame :
    (inst : SbusDecodeBuffer) (msg : SbusMessage) (cs : List ℕ) (flags : ℕ)
    → inst.decode_state ≡ wait_for_sof
    → length cs ≡ 16
    → AllBelow 2048 cs
    → flags < 256
    → (feed inst msg (sent_frame cs flags)).2 ≡ sent_message cs flags ∷ []
unfolding feed
feed-sent_frame inst msg cs flags s n h k =
    ap (λ t. t.2) (feed-frame inst msg (sent_payload cs flags) [] s refl)
    ∙ ap (λ m. m ∷ []) (build_message-sent_frame cs flags n h k)

-- Afterwards the decoder waits for a frame again.
pub feed-sent_frame_waits :
    (inst : SbusDecodeBuffer) (msg : SbusMessage) (cs : List ℕ) (flags : ℕ)
    → inst.decode_state ≡ wait_for_sof
    → (feed inst msg (sent_frame cs flags)).0.decode_state ≡ wait_for_sof
unfolding feed
feed-sent_frame_waits inst msg cs flags s =
    ap (λ t. t.0.decode_state) (feed-frame inst msg (sent_payload cs flags) [] s refl)
