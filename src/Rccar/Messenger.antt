-- ===== src/Rccar/Messenger.antt =====
-- src/service/robot_rccar/messenger/src/messenger_service.c: from the car's state to the VESC.
pub mod Commands
use robofw.Common.{ℕ, Bool, true, false, ◌&&◌, not, Option, none, some, List, if◌then◌else◌}
use robofw.Common.Int.{ℤ, pos}
use robofw.Common.Floats.{Floats}
use robofw.Common.Msgq.{Msgq}
use robofw.Can.{CanFrame, CanDriver, CanDescriptor, send_can_frame, is_zero}
use robofw.Types.{RobotState, DesiredMotion}
use robofw.Vesc.{
  VescCmdPacket, vesc_set_servo_pos_cmd_packet_to_frame, vesc_set_duty_cycle_cmd_packet_to_frame,
  vesc_set_current_cmd_packet_to_frame, vesc_set_current_brake_cmd_packet_to_frame,
  vesc_set_rpm_cmd_packet_to_frame, vesc_set_position_cmd_packet_to_frame, can_frame_to_cmd_packet,
}
use robofw.Rccar.Coordinator.{is_rc}

abbrev pub vesc_id : ℕ
vesc_id = 0x68

abbrev pub vesc_max_rpm : ℤ
vesc_max_rpm = pos 23250

pub record CarTxPorts (Queue : Type 0 → Type 0) (F : Type 0) : Type 0 where
  pub robot_state_in : Queue RobotState
  pub motion_in : Queue (DesiredMotion F)

-- `id_field` is what the `id` of a `struct zcan_frame` keeps, and `blank` is an uninitialised frame.
module _ (f : Floats) (id_field : ℕ → ℕ) (d : CanDriver) (dd : CanDescriptor)
    (blank : CanFrame) where
  open f use {
    F32, of_int, of_int64, lit32, lit64, widen, narrow, add64, sub64, div64, mul32, trunc32,
  }
  open d use {State}

  -- A frame with an extended identifier; the result is true where the driver returned CAN_TX_OK.
  abbrev pub send_frame : CanFrame → State → Bool × State
  send_frame frame s =
      let (ret, s2) = send_can_frame d dd s frame.id false frame.bytes frame.dlc in
      (is_zero ret, s2)

  unfoldable pub send_servo_pos_cmd : F32 → State → Bool × State
  send_servo_pos_cmd x =
      send_frame (vesc_set_servo_pos_cmd_packet_to_frame f id_field blank vesc_id x)

  unfoldable pub send_set_duty_cycle_cmd : F32 → State → Bool × State
  send_set_duty_cycle_cmd x =
      send_frame (vesc_set_duty_cycle_cmd_packet_to_frame f id_field blank vesc_id x)

  unfoldable pub send_set_current_cmd : F32 → State → Bool × State
  send_set_current_cmd x =
      send_frame (vesc_set_current_cmd_packet_to_frame f id_field blank vesc_id x)

  unfoldable pub send_set_current_brake_cmd : F32 → State → Bool × State
  send_set_current_brake_cmd x =
      send_frame (vesc_set_current_brake_cmd_packet_to_frame f id_field blank vesc_id x)

  unfoldable pub send_set_rpm_cmd : ℤ → State → Bool × State
  send_set_rpm_cmd n = send_frame (vesc_set_rpm_cmd_packet_to_frame id_field blank vesc_id n)

  unfoldable pub send_set_position_cmd : F32 → State → Bool × State
  send_set_position_cmd x =
      send_frame (vesc_set_position_cmd_packet_to_frame f id_field blank vesc_id x)

  -- `(angular + 1.0) / 2.0f`, then `1.0 - servo_pos` as ENABLE_SERVO_INVERT is true.
  abbrev pub servo_position : F32 → F32
  servo_position angular =
      let servo_pos = narrow (div64 (add64 (widen angular) (lit64 1 1)) (widen (lit32 2 1))) in
      narrow (sub64 (lit64 1 1) (widen servo_pos))

  abbrev pub motor_rpm : F32 → ℤ
  motor_rpm linear = trunc32 (mul32 (of_int vesc_max_rpm) linear)

  -- What a motion makes the thread send: the servo first, then the motor.
  unfoldable pub send_motion_cmds : DesiredMotion F32 → State → State
  unfolding send_servo_pos_cmd send_set_rpm_cmd
  send_motion_cmds m s =
      (send_set_rpm_cmd (motor_rpm m.linear) (send_servo_pos_cmd (servo_position m.angular) s).1).1

  module _ (k : Msgq) where
    open k use {Queue, get}

    -- One turn of `MessengerServiceTxLoop`.
    unfoldable pub transmit_turn : CarTxPorts Queue F32 × State → CarTxPorts Queue F32 × State
    unfolding send_motion_cmds
    transmit_turn (w, s) =
        let (state_got, state_rest) = get w.robot_state_in in
        let w2 : CarTxPorts Queue F32 = record w { robot_state_in = state_rest } in
        elim state_got [
          | none ↦ (w2, s)
          | some state ↦
              if not state.estop_triggered && is_rc state.control_mode
              then (let (got, rest) = get w2.motion_in in
                  elim got [
                    | none ↦ (record w2 { motion_in = rest }, s)
                    | some m ↦ (record w2 { motion_in = rest }, send_motion_cmds m s)
                  ])
              else (w2, s)
        ]

-- One frame through `MessengerServiceRxLoop`: a packet is decoded, and nothing is done with it.
unfoldable pub receive_frame : (f : Floats) → CanFrame → VescCmdPacket f.F32 → VescCmdPacket f.F32
receive_frame f frame pkt = (can_frame_to_cmd_packet f frame pkt).1
