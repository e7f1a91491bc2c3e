-- ===== src/Rccar/Messenger/Commands.antt =====
-- What the car's messenger hands to the CAN driver.
use robofw.Common.{
  ℕ, ◌≡◌, refl, ap, true, false, ◌⊎◌, List, [], ◌∷◌, length, set, take, bit_and, arith,
}
use robofw.Common.Bits.{shr}
use robofw.Common.Int.{pos, to_unsigned, u16_mod, u32_mod, int16}
use robofw.Common.Floats.{Floats}
use robofw.Common.Msgq.{Msgq, MsgqLaws}
use robofw.Can.{CanFrame, CanDriver, CanDescriptor, extended, can_dataframe, send_can_frame}
use robofw.Types.{RobotState, DesiredMotion, k_control_mode_can, k_control_mode_rc}
use robofw.Wire.{byte_3, byte_2, byte_1, byte_0}
use robofw.Vesc.{
  clamp_command, vesc_set_servo_pos_cmd_packet_to_frame, vesc_set_rpm_cmd_packet_to_frame,
  vesc_frame_id,
}
use robofw.Rccar.Messenger.{
  CarTxPorts, send_servo_pos_cmd, send_set_rpm_cmd, servo_position, motor_rpm, send_motion_cmds,
  transmit_turn,
}

-- An extended data frame to the VESC with number 0x68, for command `cmd`.
abbrev pub vesc_data_frame : (ℕ → ℕ) → ℕ → List ℕ → CanFrame
vesc_data_frame id_field cmd bytes = record {
  id_type = extended;
  id = id_field (vesc_frame_id cmd 0x68);
  rtr = can_dataframe;
  dlc = length bytes;
  bytes = bytes;
}

-- 0, the command, and a value of 16 bits.
abbrev pub servo_bytes : ℕ → List ℕ
servo_bytes w = 0x68 ∷ 0x00 ∷ 0x0c ∷ shr (bit_and w 0xff00) 8 ∷ bit_and w 0x00ff ∷ []

abbrev pub rpm_bytes : ℕ → List ℕ
rpm_bytes w = byte_3 w ∷ byte_2 w ∷ byte_1 w ∷ byte_0 w ∷ []

five_bytes :
    (bytes : List ℕ) (w : ℕ)
    → length bytes ≡ 8
    → take 5 (
        set
          (set (set (set (set bytes 0 0x68) 1 0x00) 2 0x0c) 3 (shr (bit_and w 0xff00) 8))
          4
          (bit_and w 0x00ff))
      ≡ servo_bytes w
five_bytes (a ∷ b ∷ c ∷ d ∷ e ∷ bytes) w h = refl
five_bytes _ w h = absurd (omega arith)

four_bytes :
    (bytes : List ℕ) (w : ℕ)
    → length bytes ≡ 8
    → take 4 (set (set (set (set bytes 0 (byte_3 w)) 1 (byte_2 w)) 2 (byte_1 w)) 3 (byte_0 w))
      ≡ rpm_bytes w
four_bytes (a ∷ b ∷ c ∷ d ∷ e ∷ bytes) w h = refl
four_bytes _ w h = absurd (omega arith)

module _ (f : Floats) (id_field : ℕ → ℕ) (d : CanDriver) (dd : CanDescriptor) (blank : CanFrame)
    (live : dd.active ≡ true) (long : length blank.bytes ≡ 8) where
  open f use {F32, of_int, lit32, mul32, trunc32}
  open d use {State, send}

  -- The two frames of a motion.
  abbrev pub servo_frame : F32 → CanFrame
  servo_frame angular = vesc_data_frame id_field 0x800 (
      servo_bytes (
        to_unsigned u16_mod (
          int16 (
            trunc32 (
              mul32
                (clamp_command f (servo_position f id_field d dd blank angular) (lit32 0 1)
                  (lit32 1 1))
                (of_int (pos 1000)))))))

  abbrev pub rpm_frame : F32 → CanFrame
  rpm_frame linear =
      vesc_data_frame id_field 0x300
        (rpm_bytes (to_unsigned u32_mod (motor_rpm f id_field d dd blank linear)))

  send_motion_cmds_lem :
      (m : DesiredMotion F32) (s : State)
      → send_motion_cmds f id_field d dd blank m s
        ≡ (send (send s (servo_frame m.angular)).1 (rpm_frame m.linear)).1
  unfolding send_motion_cmds send_servo_pos_cmd send_set_rpm_cmd send_can_frame
      vesc_set_servo_pos_cmd_packet_to_frame vesc_set_rpm_cmd_packet_to_frame
  send_motion_cmds_lem m s =
      rw
        (
          live,
          five_bytes blank.bytes
              (to_unsigned u16_mod (
                int16 (
                  trunc32 (
                    mul32
                      (clamp_command f (servo_position f id_field d dd blank m.angular) (lit32 0 1)
                        (lit32 1 1))
                      (of_int (pos 1000))))))
              long,
          four_bytes blank.bytes (to_unsigned u32_mod (motor_rpm f id_field d dd blank m.linear))
              long,
        )
        refl

  module _ (k : Msgq) (laws : MsgqLaws k) where
    open k use {Queue, get, contents}

    -- What a turn does, by the state that it reads and the motions that wait.
    abbrev pub Relayed :
        List RobotState
        → List (DesiredMotion F32)
        → State
        → List (DesiredMotion F32) × State
        → Type 0
    Relayed [] motions s out = (out.0 ≡ motions) × (out.1 ≡ s)
    Relayed (state ∷ states) motions s out =
        ((state.estop_triggered ≡ true) ⊎ (state.control_mode ≡ k_control_mode_can)
          → (out.0 ≡ motions) × (out.1 ≡ s))
        × (state.estop_triggered ≡ false
            → state.control_mode ≡ k_control_mode_rc
            → (motions ≡ [] → out.1 ≡ s)
              × ((m : DesiredMotion F32) (rest : List (DesiredMotion F32))
                  → motions ≡ m ∷ rest
                  → (out.0 ≡ rest)
                    × (out.1 ≡ (send (send s (servo_frame m.angular)).1 (rpm_frame m.linear)).1)))

    Relayed-of :
        (states : List RobotState) (w : CarTxPorts Queue F32) (s : State)
        → contents w.robot_state_in ≡ states
        → let out = transmit_turn f id_field d dd blank k (w, s) in
          Relayed states (contents w.motion_in) s (contents out.0.motion_in, out.1)
    unfolding transmit_turn
    Relayed-of [] w s e =
        rw (transmit_turn, ap (λ t. t.0) (laws.get_empty w.robot_state_in e)) (refl, refl)
    Relayed-of (state ∷ states) w s e =
        rw (transmit_turn, laws.get_oldest w.robot_state_in state states e)
          (
            ground arith,
            λ go rc.
                rw (go, rc)
                  (
                    λ none_wait. rw (ap (λ t. t.0) (laws.get_empty w.motion_in none_wait)) refl,
                    λ m rest wait.
                        rw (laws.get_oldest w.motion_in m rest wait)
                          (laws.get_rest w.motion_in m rest wait, send_motion_cmds_lem m s),
                  ),
          )

    -- A turn on an active device sends nothing while the emergency stop is on, and nothing in CAN mode,
    -- where a comment in the code and rccar_vesc_protocol.md speak of commands that are relayed; the
    -- waiting motions then stay. Else, under remote control, it takes the oldest motion, and the
    -- driver gets its servo frame and then its speed frame; without a motion nothing is sent.
    pub transmit_turn-Relayed :
        (w : CarTxPorts Queue F32) (s : State)
        → let out = transmit_turn f id_field d dd blank k (w, s) in
          Relayed
            (contents w.robot_state_in)
            (contents w.motion_in)
            s
            (contents out.0.motion_in, out.1)
    transmit_turn-Relayed w s = Relayed-of (contents w.robot_state_in) w s refl
