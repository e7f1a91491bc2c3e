-- ===== src/Tbot/Messenger.antt =====
-- src/service/robot_tbot/messenger/src/messenger_service.c: the two threads of the CAN uplink.
pub mod Receive
pub mod Transmit
use robofw.Common.{ℕ, suc, Bool, true, false, Option, none, some, List, if◌then◌else◌}
use robofw.Common.Int.{ℤ, pos, neg_ℤ, int16}
use robofw.Common.Floats.{Floats}
use robofw.Common.Msgq.{Msgq, post}
use robofw.Common.Msgq.Drain.{drain_within}
use robofw.Can.{CanFrame, CanDriver, CanDescriptor, send_can_frame}
use robofw.Types.{
  SupervisorCommand, RobotState, DesiredMotion, ActuatorCmd, DesiredRpm, SpeedControlFeedback,
}
use robofw.Tbot.Codec.{
  TbotMsg, supervisor_command, pwm_command, motor_command, motion_command, supervised_state_data,
  encoder_raw_data, encoder_filtered_data, target_rpm_data, encode_can_message, decode_can_message,
}

-- The queues that commands go to.
pub record CommandPorts (Queue : Type 0 → Type 0) (F : Type 0) : Type 0 where
  pub supervisor_cmd_out : Queue SupervisorCommand
  pub actuator_cmd_in : Queue (ActuatorCmd F)
  pub desired_rpm_in : Queue DesiredRpm
  pub desired_motion_out : Queue (DesiredMotion F)

-- The queues of what is reported.
pub record ReportPorts (Queue : Type 0 → Type 0) : Type 0 where
  pub control_feedback_out : Queue SpeedControlFeedback
  pub robot_state_in : Queue RobotState

module _ (f : Floats) (k : Msgq) where
  open f use {F32, of_int, lit32, div32}
  open k use {Queue, contents}

  abbrev pub pwm_cmd : ℤ → ℤ → ActuatorCmd F32
  pwm_cmd left right = record {
    motor_0 = div32 (of_int left) (lit32 100 1);
    motor_1 = div32 (of_int (neg_ℤ right)) (lit32 100 1);
  }

  -- An `int32_t` is assigned to an `int16_t`.
  abbrev pub rpm_cmd : ℤ → ℤ → DesiredRpm
  rpm_cmd left right = record { motor_0 = int16 left; motor_1 = int16 (neg_ℤ right) }

  -- The `switch` of the receiving loop.
  unfoldable pub dispatch : TbotMsg F32 → CommandPorts Queue F32 → Option (CommandPorts Queue F32)
  dispatch (supervisor_command mode) w =
      elim (post k w.supervisor_cmd_out (record { supervised_mode = mode })) [
        | none ↦ none
        | some q ↦ some (record w { supervisor_cmd_out = q })
      ]
  dispatch (pwm_command left right) w = elim (post k w.actuator_cmd_in (pwm_cmd left right)) [
    | none ↦ none
    | some q ↦ some (record w { actuator_cmd_in = q })
  ]
  dispatch (motor_command left right) w = elim (post k w.desired_rpm_in (rpm_cmd left right)) [
    | none ↦ none
    | some q ↦ some (record w { desired_rpm_in = q })
  ]
  dispatch (motion_command linear angular) w =
      elim (post k w.desired_motion_out (record { linear = linear; angular = angular })) [
        | none ↦ none
        | some q ↦ some (record w { desired_motion_out = q })
      ]
  dispatch _ w = some w

  -- One frame through `MessengerServiceRxLoop`, whose variable `msg` lives across frames.
  unfoldable pub receive_frame :
      CanFrame
      → TbotMsg F32 × CommandPorts Queue F32
      → Option (TbotMsg F32 × CommandPorts Queue F32)
  receive_frame frame (msg, w) =
      let (decoded, msg2) = decode_can_message f frame msg in
      if decoded
      then elim (dispatch msg2 w) [ none ↦ none | some w2 ↦ some (msg2, w2) ]
      else some (msg2, w)

  module _ (d : CanDriver) (dd : CanDescriptor) where
    open d use {State}

    -- A message into the variable `tx_frame`, and the frame to the driver. The result is printed only.
    unfoldable pub send_message : TbotMsg F32 → CanFrame × State → CanFrame × State
    send_message msg (frame, s) =
        let sent = encode_can_message msg frame in
        (sent, (send_can_frame d dd s sent.id true sent.bytes sent.dlc).1)

    -- The bodies of the two inner loops of `MessengerServiceTxLoop`.
    unfoldable pub send_feedback : SpeedControlFeedback → CanFrame × State → CanFrame × State
    unfolding send_message
    send_feedback fb t =
        send_message (target_rpm_data fb.target_speed.motor_0 fb.target_speed.motor_1) (
          send_message
            (encoder_filtered_data fb.measured_speed.filtered_rpm_0
              fb.measured_speed.filtered_rpm_1)
            (send_message (encoder_raw_data fb.measured_speed.raw_rpm_0 fb.measured_speed.raw_rpm_1)
              t))

    unfoldable pub send_robot_state : RobotState → CanFrame × State → CanFrame × State
    unfolding send_message
    send_robot_state state t = send_message (supervised_state_data state.sup_mode) t

    -- One turn of `MessengerServiceTxLoop`; each inner loop may take `fuel` gets.
    unfoldable pub transmit_turn :
        ℕ → ReportPorts Queue → CanFrame × State → Option (ReportPorts Queue × CanFrame × State)
    unfolding send_feedback send_robot_state
    transmit_turn fuel w t = elim (drain_within k send_feedback fuel w.control_feedback_out t) [
      | none ↦ none
      | some (q, t2) ↦ elim (drain_within k send_robot_state fuel w.robot_state_in t2) [
        | none ↦ none
        | some (q2, t3) ↦
            some (record { control_feedback_out = q; robot_state_in = q2 }, t3.0, t3.1)
      ]
    ]
