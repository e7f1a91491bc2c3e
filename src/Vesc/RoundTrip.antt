-- ===== src/Vesc/RoundTrip.antt =====
-- What the decoder makes of a frame, whose identifier has 29 bits: it refuses it as it stands, and
-- reads the command that was encoded where the flag of bit 31, which it asks for, is put back.
use robofw.Common.{
  ℕ, ◌/◌, ◌%◌, ◌<◌, ◌≤◌, ◌≡◌, refl, ap, ◌∙◌, true, false, List, [], ◌∷◌, get_or, set, length,
  bit_and, bit_or, arith,
}
use robofw.Common.Bits.{bit_or_join_high, bit_and_above, bit_and_ones, shr, shl}
use robofw.Common.Int.{ℤ, pos, ◌≤ℤ◌, FitsInt32, to_unsigned, u16_mod, int16}
use robofw.Common.Floats.{Floats}
use robofw.Can.{CanFrame}
use robofw.Wire.{to_signed-join_bytes}
use robofw.Vesc.{
  VescCmdPacket, vesc_set_servo_pos_cmd, vesc_set_duty_cycle_cmd, vesc_set_current_cmd,
  vesc_set_current_brake_cmd, vesc_set_rpm_cmd, vesc_set_position_cmd, set_int32, read_first_int32,
  clamp_command, can_frame_to_cmd_packet, mcu_id, can_eff_flag, vesc_set_rpm_cmd_packet_to_frame,
  vesc_set_servo_pos_cmd_packet_to_frame, vesc_set_duty_cycle_cmd_packet_to_frame,
  vesc_set_current_cmd_packet_to_frame, vesc_set_current_brake_cmd_packet_to_frame,
  vesc_set_position_cmd_packet_to_frame,
}

-- The two bytes of a servo position.
abbrev high_byte : ℕ → ℕ
high_byte w = shr (bit_and w 0xff00) 8

abbrev low_byte : ℕ → ℕ
low_byte w = bit_and w 0x00ff

two_bytes-joined : (w : ℕ) → w < 65536 → bit_or (shl (high_byte w) 8) (low_byte w) ≡ w
two_bytes-joined w h = omega (
  arith,
  bit_and_above 8 w 255,
  bit_and_ones 8 (w / 256),
  bit_and_ones 8 w,
  bit_or_join_high 8 (high_byte w) (low_byte w) (omega (arith, bit_and_ones 8 w)),
)

abbrev pattern_of : ℤ → ℕ
pattern_of z = to_unsigned u16_mod (int16 z)

pattern_of-pos :
    (z : ℤ) → pos 0 ≤ℤ z → z ≤ℤ pos 32767 → (pos (pattern_of z) ≡ z) × (pattern_of z < 65536)
pattern_of-pos z h k = ground arith

-- The six commands.
pub data VescCommand (F : Type 0) : Type 0 where
  servo_pos duty_cycle current current_brake position : F → VescCommand F
  rpm : ℤ → VescCommand F

module _ (f : Floats) where
  open f use {F32, of_int, lit32, lt32, mul32, div32, trunc32}

  -- The integer that is sent.
  abbrev pub sent_value : VescCommand F32 → ℤ
  sent_value (servo_pos x) =
      trunc32 (mul32 (clamp_command f x (lit32 0 1) (lit32 1 1)) (of_int (pos 1000)))
  sent_value (duty_cycle x) =
      trunc32 (mul32 (clamp_command f x (lit32 0 1) (lit32 1 1)) (lit32 100000 1))
  sent_value (current x) =
      trunc32 (mul32 (clamp_command f x (lit32 0 1) (lit32 20 1)) (lit32 1000 1))
  sent_value (current_brake x) =
      trunc32 (mul32 (clamp_command f x (lit32 0 1) (lit32 20 1)) (lit32 1000 1))
  sent_value (position x) =
      trunc32 (mul32 (clamp_command f x (lit32 0 1) (lit32 1 1)) (lit32 100000 1))
  sent_value (rpm n) = n

  -- It fits its field: 16 bits, and not negative, for a servo, and 32 bits else.
  abbrev pub Fits : VescCommand F32 → Type 0
  Fits (servo_pos x) = (pos 0 ≤ℤ sent_value (servo_pos x)) × (sent_value (servo_pos x) ≤ℤ pos 32767)
  Fits c = FitsInt32 (sent_value c)

  abbrev pub packet_of : VescCommand F32 → VescCmdPacket F32
  packet_of (servo_pos x) =
      vesc_set_servo_pos_cmd (div32 (of_int (sent_value (servo_pos x))) (lit32 1000 1))
  packet_of (duty_cycle x) =
      vesc_set_duty_cycle_cmd (div32 (of_int (sent_value (duty_cycle x))) (lit32 100000 1))
  packet_of (current x) =
      vesc_set_current_cmd (div32 (of_int (sent_value (current x))) (lit32 1000 1))
  packet_of (current_brake x) =
      vesc_set_current_brake_cmd (div32 (of_int (sent_value (current_brake x))) (lit32 1000 1))
  packet_of (position x) =
      vesc_set_position_cmd (div32 (of_int (sent_value (position x))) (lit32 100000 1))
  packet_of (rpm n) = vesc_set_rpm_cmd n

  read-set_int32 :
      (bytes : List ℕ) (z : ℤ)
      → 4 ≤ length bytes
      → FitsInt32 z
      → read_first_int32 f (set_int32 bytes z) ≡ z
  read-set_int32 [] z h k = absurd (omega arith)
  read-set_int32 (a ∷ []) z h k = absurd (omega arith)
  read-set_int32 (a ∷ b ∷ []) z h k = absurd (omega arith)
  read-set_int32 (a ∷ b ∷ c ∷ []) z h k = absurd (omega arith)
  read-set_int32 (a ∷ b ∷ c ∷ d ∷ bytes) z h k = to_signed-join_bytes z k

  read_servo :
      (z : ℤ)
      → pos 0 ≤ℤ z
      → z ≤ℤ pos 32767
      → pos (bit_or (shl (high_byte (pattern_of z)) 8) (low_byte (pattern_of z))) ≡ z
  read_servo z h k =
      ap pos (two_bytes-joined (pattern_of z) (pattern_of-pos z h k).1) ∙ (pattern_of-pos z h k).0

  -- The bytes of a servo frame, read back.
  servo_bytes :
      (bytes : List ℕ) (w : ℕ)
      → length bytes ≡ 8
      → let sent =
          set (set (set (set (set bytes 0 mcu_id) 1 0x00) 2 0x0c) 3 (high_byte w)) 4 (low_byte w) in
        (get_or sent 2 0 ≡ 0x0c) × (get_or sent 3 0 ≡ high_byte w) × (get_or sent 4 0 ≡ low_byte w)
  servo_bytes (a ∷ b ∷ c ∷ d ∷ e ∷ bytes) w h = (refl, refl, refl)
  servo_bytes _ w h = absurd (omega arith)

  -- A frame whose identifier is below 2 ^ 29 is refused, whatever it holds: the decoder asks for bit
  -- 31, which no identifier of 29 bits has.
  pub narrow_id-refused :
      (frame : CanFrame) (pkt : VescCmdPacket F32)
      → frame.id < 536870912
      → can_frame_to_cmd_packet f frame pkt ≡ (false, pkt)
  unfolding can_frame_to_cmd_packet
  narrow_id-refused frame pkt h = ground arith

  -- A frame with the flag CAN_EFF_FLAG in its identifier.
  abbrev pub flagged : CanFrame → CanFrame
  flagged frame = record frame { id = bit_or frame.id can_eff_flag }

  module _ (id_field : ℕ → ℕ) where
    abbrev pub vesc_frame : VescCommand F32 → CanFrame → CanFrame
    vesc_frame (servo_pos x) frame =
        vesc_set_servo_pos_cmd_packet_to_frame f id_field frame mcu_id x
    vesc_frame (duty_cycle x) frame =
        vesc_set_duty_cycle_cmd_packet_to_frame f id_field frame mcu_id x
    vesc_frame (current x) frame = vesc_set_current_cmd_packet_to_frame f id_field frame mcu_id x
    vesc_frame (current_brake x) frame =
        vesc_set_current_brake_cmd_packet_to_frame f id_field frame mcu_id x
    vesc_frame (position x) frame = vesc_set_position_cmd_packet_to_frame f id_field frame mcu_id x
    vesc_frame (rpm n) frame = vesc_set_rpm_cmd_packet_to_frame id_field frame mcu_id n

    vesc_frame-narrow :
        (c : VescCommand F32) (frame : CanFrame)
        → ((n : ℕ) → id_field n ≡ n % 536870912)
        → (vesc_frame c frame).id < 536870912
    unfolding vesc_set_rpm_cmd_packet_to_frame vesc_set_duty_cycle_cmd_packet_to_frame
        vesc_set_current_cmd_packet_to_frame vesc_set_current_brake_cmd_packet_to_frame
        vesc_set_position_cmd_packet_to_frame vesc_set_servo_pos_cmd_packet_to_frame
    vesc_frame-narrow (servo_pos x) frame keeps = omega (arith, keeps)
    vesc_frame-narrow (duty_cycle x) frame keeps = omega (arith, keeps)
    vesc_frame-narrow (current x) frame keeps = omega (arith, keeps)
    vesc_frame-narrow (current_brake x) frame keeps = omega (arith, keeps)
    vesc_frame-narrow (position x) frame keeps = omega (arith, keeps)
    vesc_frame-narrow (rpm x) frame keeps = omega (arith, keeps)

    flagged-decoded :
        (c : VescCommand F32) (frame : CanFrame) (pkt : VescCmdPacket F32)
        → ((n : ℕ) → id_field n ≡ n % 536870912)
        → length frame.bytes ≡ 8
        → Fits c
        → can_frame_to_cmd_packet f (flagged (vesc_frame c frame)) pkt ≡ (true, packet_of c)
    unfolding can_frame_to_cmd_packet vesc_set_rpm_cmd_packet_to_frame
        vesc_set_duty_cycle_cmd_packet_to_frame vesc_set_current_cmd_packet_to_frame
        vesc_set_current_brake_cmd_packet_to_frame vesc_set_position_cmd_packet_to_frame
        vesc_set_servo_pos_cmd_packet_to_frame
    flagged-decoded (servo_pos x) frame pkt keeps long fits =
        (let z = sent_value (servo_pos x) in
          let (b2, b3, b4) = servo_bytes frame.bytes (pattern_of z) long in
          rw (keeps, b2, b3, b4, read_servo z fits.0 fits.1) refl)
    flagged-decoded (duty_cycle x) frame pkt keeps long fits =
        rw (keeps, read-set_int32 frame.bytes (sent_value (duty_cycle x)) (omega arith) fits) refl
    flagged-decoded (current x) frame pkt keeps long fits =
        rw (keeps, read-set_int32 frame.bytes (sent_value (current x)) (omega arith) fits) refl
    flagged-decoded (current_brake x) frame pkt keeps long fits =
        rw (keeps, read-set_int32 frame.bytes (sent_value (current_brake x)) (omega arith) fits)
          refl
    flagged-decoded (position x) frame pkt keeps long fits =
        rw (keeps, read-set_int32 frame.bytes (sent_value (position x)) (omega arith) fits) refl
    flagged-decoded (rpm n) frame pkt keeps long fits =
        rw (keeps, read-set_int32 frame.bytes n (omega arith) fits) refl

    -- Every command to the controller's own number, in a frame whose identifier has 29 bits, is refused
    -- by the decoder as it stands; with the flag CAN_EFF_FLAG put back, it is decoded as the value that
    -- was sent. A frame has eight bytes, and the value fits its field.
    pub vesc_frame-decoded :
        (c : VescCommand F32) (frame : CanFrame) (pkt : VescCmdPacket F32)
        → ((n : ℕ) → id_field n ≡ n % 536870912)
        → length frame.bytes ≡ 8
        → Fits c
        → (can_frame_to_cmd_packet f (vesc_frame c frame) pkt ≡ (false, pkt))
          × (can_frame_to_cmd_packet f (flagged (vesc_frame c frame)) pkt ≡ (true, packet_of c))
    vesc_frame-decoded c frame pkt keeps long fits = (
      narrow_id-refused (vesc_frame c frame) pkt (vesc_frame-narrow c frame keeps),
      flagged-decoded c frame pkt keeps long fits,
    )
