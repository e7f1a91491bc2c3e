-- ===== src/Tbot/Codec.antt =====
-- src/service/robot_tbot/messenger/src/tbot: the messages of the CAN uplink.
pub mod Laws
use robofw.Common.{ℕ, ◌%◌, Bool, true, false, List, [], ◌∷◌, ◌==◌, if◌then◌else◌, get_or, set}
use robofw.Common.Int.{ℤ, to_signed, to_unsigned, u32_mod, u8_mod}
use robofw.Common.Floats.{Floats}
use robofw.Can.{CanFrame}
use robofw.Wire.{byte_3, byte_2, byte_1, byte_0, join_bytes}

abbrev pub tbot_sup_cmd_can_id : ℕ
tbot_sup_cmd_can_id = 0x100

abbrev pub tbot_pwm_cmd_can_id : ℕ
tbot_pwm_cmd_can_id = 0x101

abbrev pub tbot_motor_cmd_can_id : ℕ
tbot_motor_cmd_can_id = 0x102

abbrev pub tbot_motion_cmd_can_id : ℕ
tbot_motion_cmd_can_id = 0x103

abbrev pub tbot_supervised_state_data_can_id : ℕ
tbot_supervised_state_data_can_id = 0x200

abbrev pub tbot_encoder_raw_data_can_id : ℕ
tbot_encoder_raw_data_can_id = 0x211

abbrev pub tbot_encoder_filtered_data_can_id : ℕ
tbot_encoder_filtered_data_can_id = 0x212

abbrev pub tbot_target_rpm_data_can_id : ℕ
tbot_target_rpm_data_can_id = 0x213

-- `TbotMsg`: the type and the member of the union that goes with it. `F` is the type `float`.
pub data TbotMsg (F : Type 0) : Type 0 where
  supervisor_command : ℕ → TbotMsg F
  pwm_command : ℤ → ℤ → TbotMsg F
  motor_command : ℤ → ℤ → TbotMsg F
  motion_command : F → F → TbotMsg F
  supervised_state_data : ℕ → TbotMsg F
  encoder_raw_data : ℤ → ℤ → TbotMsg F
  encoder_filtered_data : ℤ → ℤ → TbotMsg F
  target_rpm_data : ℤ → ℤ → TbotMsg F

-- Eight bytes of a frame from two values, left and right.
abbrev pub two_int32 : ℤ → ℤ → List ℕ
two_int32 left right =
    let l = to_unsigned u32_mod left in
    let r = to_unsigned u32_mod right in
    byte_3 l ∷ byte_2 l ∷ byte_1 l ∷ byte_0 l ∷ byte_3 r ∷ byte_2 r ∷ byte_1 r ∷ byte_0 r ∷ []

-- `(int32_t)` of the four bytes from index `i` on.
abbrev pub read_int32 : List ℕ → ℕ → ℕ → ℕ → ℕ → ℤ
read_int32 bytes i3 i2 i1 i0 =
    to_signed u32_mod
      (join_bytes (get_or bytes i3 0) (get_or bytes i2 0) (get_or bytes i1 0) (get_or bytes i0 0))

-- `EncodeCanMessage`: what becomes of `*frame`. A command is not encoded.
unfoldable pub encode_can_message : {F : Type 0} → TbotMsg F → CanFrame → CanFrame
encode_can_message (supervised_state_data mode) frame = record frame {
  id = tbot_supervised_state_data_can_id;
  dlc = 1;
  bytes = set frame.bytes 0 (mode % u8_mod);
}
encode_can_message (encoder_raw_data left right) frame = record frame {
  id = tbot_encoder_raw_data_can_id;
  dlc = 8;
  bytes = two_int32 left right;
}
encode_can_message (encoder_filtered_data left right) frame = record frame {
  id = tbot_encoder_filtered_data_can_id;
  dlc = 8;
  bytes = two_int32 left right;
}
encode_can_message (target_rpm_data left right) frame = record frame {
  id = tbot_target_rpm_data_can_id;
  dlc = 8;
  bytes = two_int32 left right;
}
encode_can_message _ frame = frame

-- `DecodeCanMessage`: the result, and what becomes of `*msg`.
module _ (f : Floats) where
  open f use {F32, of_int, lit32, div32}

  unfoldable pub decode_can_message : CanFrame → TbotMsg F32 → Bool × TbotMsg F32
  decode_can_message frame msg =
      if frame.id == tbot_sup_cmd_can_id
      then (true, supervisor_command (get_or frame.bytes 0 0))
      else (if frame.id == tbot_pwm_cmd_can_id
          then (
            true,
            pwm_command (to_signed u8_mod (get_or frame.bytes 0 0))
                (to_signed u8_mod (get_or frame.bytes 1 0)),
          )
          else (if frame.id == tbot_motor_cmd_can_id
              then (
                true,
                motor_command (read_int32 frame.bytes 0 1 2 3) (read_int32 frame.bytes 4 5 6 7),
              )
              else (if frame.id == tbot_motion_cmd_can_id
                  then (
                    true,
                    motion_command (div32 (of_int (read_int32 frame.bytes 0 1 2 3)) (lit32 100 1))
                        (div32 (of_int (read_int32 frame.bytes 4 5 6 7)) (lit32 100 1)),
                  )
                  else (false, msg))))
