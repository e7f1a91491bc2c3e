-- ===== src/Vesc.antt =====
-- src/module/vesc: the commands of a VESC motor controller as CAN frames, and back.
-- A frame is a local variable that is not initialised, so the encoders start from any frame.
pub mod RoundTrip
use robofw.Common.{
  ℕ, ◌%◌, Bool, true, false, List, [], ◌∷◌, ◌==◌, if◌then◌else◌, get_or, set, bit_and, bit_or,
}
use robofw.Common.Bits.{shr, shl}
use robofw.Common.Int.{ℤ, pos, to_signed, to_unsigned, u32_mod, u16_mod, u8_mod, int16}
use robofw.Common.Floats.{Floats}
use robofw.Can.{CanFrame}
use robofw.Wire.{byte_3, byte_2, byte_1, byte_0, join_bytes}

abbrev pub can_eff_flag : ℕ
can_eff_flag = 0x80000000

abbrev pub vesc_duty_cycle_cmd_frame_id : ℕ
vesc_duty_cycle_cmd_frame_id = 0x000

abbrev pub vesc_current_cmd_frame_id : ℕ
vesc_current_cmd_frame_id = 0x100

abbrev pub vesc_current_brake_cmd_frame_id : ℕ
vesc_current_brake_cmd_frame_id = 0x200

abbrev pub vesc_rpm_cmd_frame_id : ℕ
vesc_rpm_cmd_frame_id = 0x300

abbrev pub vesc_position_cmd_frame_id : ℕ
vesc_position_cmd_frame_id = 0x400

abbrev pub vesc_process_short_buffer_cmd_frame_id : ℕ
vesc_process_short_buffer_cmd_frame_id = 0x800

abbrev pub mcu_id : ℕ
mcu_id = 0x60

abbrev pub vesc_comm_set_servo_pos_id : ℕ
vesc_comm_set_servo_pos_id = 0x0c

-- `VescCmdPacket`: the type and the member of the union that goes with it.
pub data VescCmdPacket (F : Type 0) : Type 0 where
  vesc_unknown_cmd : VescCmdPacket F
  vesc_set_servo_pos_cmd : F → VescCmdPacket F
  vesc_set_duty_cycle_cmd : F → VescCmdPacket F
  vesc_set_current_cmd : F → VescCmdPacket F
  vesc_set_current_brake_cmd : F → VescCmdPacket F
  vesc_set_rpm_cmd : ℤ → VescCmdPacket F
  vesc_set_position_cmd : F → VescCmdPacket F

-- id | vesc_id | CAN_EFF_FLAG
abbrev pub vesc_frame_id : ℕ → ℕ → ℕ
vesc_frame_id cmd vesc_id = bit_or (bit_or cmd vesc_id) can_eff_flag

-- The first four data bytes, from an `int32_t`.
abbrev pub set_int32 : List ℕ → ℤ → List ℕ
set_int32 bytes z =
    let w = to_unsigned u32_mod z in
    set (set (set (set bytes 0 (byte_3 w)) 1 (byte_2 w)) 2 (byte_1 w)) 3 (byte_0 w)

-- `id_field` is what the `id` of a `struct zcan_frame`, a type of Zephyr, keeps of a number.
module _ (id_field : ℕ → ℕ) where
  -- A frame of four bytes.
  abbrev int32_frame : CanFrame → ℕ → ℤ → CanFrame
  int32_frame frame id z = record frame {
    id = id_field id;
    dlc = 4;
    bytes = set_int32 frame.bytes z;
  }

  unfoldable pub vesc_set_rpm_cmd_packet_to_frame : CanFrame → ℕ → ℤ → CanFrame
  vesc_set_rpm_cmd_packet_to_frame frame vesc_id rpm =
      int32_frame frame (vesc_frame_id vesc_rpm_cmd_frame_id vesc_id) rpm

module _ (f : Floats) where
  open f use {F32, of_int, lit32, lt32, mul32, div32, trunc32}

  -- `ClampCommand`: what becomes of `*cmd`.
  unfoldable pub clamp_command : F32 → F32 → F32 → F32
  clamp_command cmd min_value max_value =
      let lowered = if lt32 max_value cmd then max_value else cmd in
      if lt32 lowered min_value then min_value else lowered

  module _ (id_field : ℕ → ℕ) where
    unfoldable pub vesc_set_servo_pos_cmd_packet_to_frame : CanFrame → ℕ → F32 → CanFrame
    unfolding clamp_command
    vesc_set_servo_pos_cmd_packet_to_frame frame vesc_id position =
        let pos_cmd = to_unsigned u16_mod (
          int16 (
            trunc32
              (mul32 (clamp_command position (lit32 0 1) (lit32 1 1)) (of_int (pos 1000))))) in
        record frame {
          id = id_field (vesc_frame_id vesc_process_short_buffer_cmd_frame_id vesc_id);
          dlc = 5;
          bytes =
              set
                (set (set (set (set frame.bytes 0 vesc_id) 1 0x00) 2 vesc_comm_set_servo_pos_id) 3
                  (shr (bit_and pos_cmd 0xff00) 8))
                4 (bit_and pos_cmd 0x00ff);
        }

    unfoldable pub vesc_set_duty_cycle_cmd_packet_to_frame : CanFrame → ℕ → F32 → CanFrame
    unfolding clamp_command
    vesc_set_duty_cycle_cmd_packet_to_frame frame vesc_id duty =
        int32_frame id_field frame (vesc_frame_id vesc_duty_cycle_cmd_frame_id vesc_id)
          (trunc32 (mul32 (clamp_command duty (lit32 0 1) (lit32 1 1)) (lit32 100000 1)))

    unfoldable pub vesc_set_current_cmd_packet_to_frame : CanFrame → ℕ → F32 → CanFrame
    unfolding clamp_command
    vesc_set_current_cmd_packet_to_frame frame vesc_id current =
        int32_frame id_field frame (vesc_frame_id vesc_current_cmd_frame_id vesc_id)
          (trunc32 (mul32 (clamp_command current (lit32 0 1) (lit32 20 1)) (lit32 1000 1)))

    unfoldable pub vesc_set_current_brake_cmd_packet_to_frame : CanFrame → ℕ → F32 → CanFrame
    unfolding clamp_command
    vesc_set_current_brake_cmd_packet_to_frame frame vesc_id current =
        int32_frame id_field frame (vesc_frame_id vesc_current_brake_cmd_frame_id vesc_id)
          (trunc32 (mul32 (clamp_command current (lit32 0 1) (lit32 20 1)) (lit32 1000 1)))

    unfoldable pub vesc_set_position_cmd_packet_to_frame : CanFrame → ℕ → F32 → CanFrame
    unfolding clamp_command
    vesc_set_position_cmd_packet_to_frame frame vesc_id position =
        int32_frame id_field frame (vesc_frame_id vesc_position_cmd_frame_id vesc_id)
          (trunc32 (mul32 (clamp_command position (lit32 0 1) (lit32 1 1)) (lit32 100000 1)))

  -- `(int32_t)` of the first four data bytes.
  abbrev pub read_first_int32 : List ℕ → ℤ
  read_first_int32 bytes =
      to_signed u32_mod
        (join_bytes (get_or bytes 0 0) (get_or bytes 1 0) (get_or bytes 2 0) (get_or bytes 3 0))

  -- `CanFrameToCmdPacket`: the result, and what becomes of `*pkt`.
  unfoldable pub can_frame_to_cmd_packet : CanFrame → VescCmdPacket F32 → Bool × VescCmdPacket F32
  can_frame_to_cmd_packet frame pkt =
      if frame.id == vesc_frame_id vesc_process_short_buffer_cmd_frame_id mcu_id
      then (if get_or frame.bytes 2 0 == vesc_comm_set_servo_pos_id
          then (
            true,
            vesc_set_servo_pos_cmd (
                div32
                  (of_int (pos (bit_or (shl (get_or frame.bytes 3 0) 8) (get_or frame.bytes 4 0))))
                  (lit32 1000 1)),
          )
          else (true, pkt))
      else (if frame.id == vesc_frame_id vesc_duty_cycle_cmd_frame_id mcu_id
          then (
            true,
            vesc_set_duty_cycle_cmd
                (div32 (of_int (read_first_int32 frame.bytes)) (lit32 100000 1)),
          )
          else (if frame.id == vesc_frame_id vesc_current_cmd_frame_id mcu_id
              then (
                true,
                vesc_set_current_cmd (div32 (of_int (read_first_int32 frame.bytes)) (lit32 1000 1)),
              )
              else (if frame.id == vesc_frame_id vesc_current_brake_cmd_frame_id mcu_id
                  then (
                    true,
                    vesc_set_current_brake_cmd
                        (div32 (of_int (read_first_int32 frame.bytes)) (lit32 1000 1)),
                  )
                  else (if frame.id == vesc_frame_id vesc_rpm_cmd_frame_id mcu_id
                      then (true, vesc_set_rpm_cmd (read_first_int32 frame.bytes))
                      else (if frame.id == vesc_frame_id vesc_position_cmd_frame_id mcu_id
                          then (
                            true,
                            vesc_set_position_cmd
                                (div32 (of_int (read_first_int32 frame.bytes)) (lit32 100000 1)),
                          )
                          else (false, pkt))))))
