-- ===== src/Tbot/System.antt =====
-- The services of the tracked robot together, on the queues by which src/app/tbot/tbot_interface.c
-- joins them: one turn of one thread at a time, in any order.
pub mod Sound
pub mod Turns
pub mod Run
pub mod Start
pub mod Estop
pub mod Append
pub mod Halt
pub mod Drive
pub mod Pwm
use robofw.Common.{ℕ, suc, ◌+◌, Option, none, some, List, [], ◌∷◌, ◌++◌, length}
use robofw.Common.Floats.{Floats}
use robofw.Common.Msgq.{Msgq}
use robofw.Can.{CanFrame, CanDriver, CanDescriptor}
use robofw.Mcal.{HwCall, LedDescriptor}
use robofw.Sbus.{SbusDecodeBuffer, SbusMessage}
use robofw.Receiver.{receive_bytes}
use robofw.Types.{
  SupervisorCommand, RobotState, DesiredMotion, ReceiverData, ActuatorCmd, DesiredRpm,
  EstimatedSpeed, SpeedControlFeedback,
}
use robofw.Encoder.Loop.{EncoderConf, EncoderVars, encoder_turn}
use robofw.Actuator.Tbot.{TbotActuatorConf, actuator_turn}
use robofw.Tbot.Codec.{TbotMsg}
use robofw.Tbot.Coordinator.{Coordinator, coordinator_turn}
use robofw.Tbot.Messenger.{receive_frame, transmit_turn}
use robofw.Tbot.Motion.{motion_turn}
use robofw.Tbot.Speed.{SpeedVars, speed_turn}

-- The queues that `InitRobot` gives to the services.
pub record Queues (Queue : Type 0 → Type 0) (F : Type 0) : Type 0 where
  pub receiver_data : Queue (ReceiverData F)
  pub actuator_data : Queue (ActuatorCmd F)
  pub encoder_rpm : Queue EstimatedSpeed
  pub desired_rpm : Queue DesiredRpm
  pub speed_control_feedback : Queue SpeedControlFeedback
  pub desired_motion : Queue (DesiredMotion F)
  pub robot_state : Queue RobotState
  pub can_desired_motion : Queue (DesiredMotion F)
  pub supervisor_cmd : Queue SupervisorCommand

-- The variables of the eight threads; `Can` is the state of the CAN driver.
pub record Threads (F : Type 0) (Can : Type 0) : Type 0 where
  pub decoder : SbusDecodeBuffer
  pub sbus_msg : SbusMessage
  pub coordinator : Coordinator F
  pub prev_target_rpm : DesiredRpm
  pub speed : SpeedVars F
  pub encoder : EncoderVars
  pub rx_msg : TbotMsg F
  pub tx_frame : CanFrame
  pub can : Can

-- The devices of the configuration.
pub record Devices : Type 0 where
  pub dd_led_status : LedDescriptor
  pub actuators : TbotActuatorConf
  pub encoders : EncoderConf
  pub dd_can : CanDescriptor

-- Whose turn it is, and what comes in from outside.
pub data Turn : Type 0 where
  receiver_reads : List ℕ → Turn
  command_arrives : CanFrame → Turn
  coordinator_turns motion_turns speed_turns : Turn
  -- the readings of the two encoders and the time since the last turn
  encoder_turns : ℕ → ℕ → ℕ → Turn
  actuators_turn messenger_sends : Turn

module _ (f : Floats) (k : Msgq) (d : CanDriver) (dev : Devices) where
  open f use {F32}
  open k use {Queue, get, contents}
  open d use {State}

  abbrev pub World : Type 0
  World = Queues Queue F32 × Threads F32 State

  -- One turn: the new state, and the calls to pins and PWM channels. `none` means that it has not
  -- ended.
  unfoldable pub turn : Turn → World → Option (World × List HwCall)
  turn (receiver_reads bytes) (q, t) =
      elim (receive_bytes f k bytes (t.decoder, t.sbus_msg, q.receiver_data)) [
        | none ↦ none
        | some (decoder, msg, rc) ↦
            some (
              (record q { receiver_data = rc }, record t { decoder = decoder; sbus_msg = msg }),
              [],
            )
      ]
  turn (command_arrives frame) (q, t) =
      elim (receive_frame f k frame (
        t.rx_msg,
        record {
          supervisor_cmd_out = q.supervisor_cmd;
          actuator_cmd_in = q.actuator_data;
          desired_rpm_in = q.desired_rpm;
          desired_motion_out = q.can_desired_motion;
        },
      )) [
        | none ↦ none
        | some (msg, w) ↦ some (
          (
            record q {
              supervisor_cmd = w.supervisor_cmd_out;
              actuator_data = w.actuator_cmd_in;
              desired_rpm = w.desired_rpm_in;
              can_desired_motion = w.desired_motion_out;
            },
            record t { rx_msg = msg },
          ),
          [],
        )
      ]
  turn coordinator_turns (q, t) =
      elim (coordinator_turn f k dev.dd_led_status (
        t.coordinator,
        record {
          rc_data = q.receiver_data;
          can_motion = q.can_desired_motion;
          supervisor = q.supervisor_cmd;
          motion_in = q.desired_motion;
          robot_state_in = q.robot_state;
        },
      )) [
        | none ↦ none
        | some (c, w, calls) ↦ some (
          (
            record q {
              receiver_data = w.rc_data;
              can_desired_motion = w.can_motion;
              supervisor_cmd = w.supervisor;
              desired_motion = w.motion_in;
              robot_state = w.robot_state_in;
            },
            record t { coordinator = c },
          ),
          calls,
        )
      ]
  turn motion_turns (q, t) =
      elim (motion_turn f k t.prev_target_rpm
        (record { desired_motion_in = q.desired_motion; desired_rpm_in = q.desired_rpm })) [
          | none ↦ none
          | some (prev, w) ↦ some (
            (
              record q { desired_motion = w.desired_motion_in; desired_rpm = w.desired_rpm_in },
              record t { prev_target_rpm = prev },
            ),
            [],
          )
        ]
  turn speed_turns (q, t) =
      elim (speed_turn f k (
        t.speed,
        record {
          rpm_out = q.encoder_rpm;
          desired_rpm_in = q.desired_rpm;
          actuator_cmd_in = q.actuator_data;
          control_feedback_out = q.speed_control_feedback;
        },
      )) [
        | none ↦ none
        | some (v, w) ↦ some (
          (
            record q {
              encoder_rpm = w.rpm_out;
              desired_rpm = w.desired_rpm_in;
              actuator_data = w.actuator_cmd_in;
              speed_control_feedback = w.control_feedback_out;
            },
            record t { speed = v },
          ),
          [],
        )
      ]
  turn (encoder_turns reading_0 reading_1 time_diff) (q, t) =
      elim (encoder_turn f k dev.encoders reading_0 reading_1 time_diff
        (t.encoder, q.encoder_rpm)) [
          | none ↦ none
          | some (v, rpm) ↦ some ((record q { encoder_rpm = rpm }, record t { encoder = v }), [])
        ]
  turn actuators_turn (q, t) =
      let (got, rest) = get q.actuator_data in
      let w : World = (record q { actuator_data = rest }, t) in
      elim got [ none ↦ some (w, []) | some cmd ↦ some (w, actuator_turn f dev.actuators cmd) ]
  turn messenger_sends (q, t) =
      let fuel =
        suc (length (contents q.speed_control_feedback) + length (contents q.robot_state)) in
      elim (transmit_turn f k d dev.dd_can fuel
        (record { control_feedback_out = q.speed_control_feedback; robot_state_in = q.robot_state })
        (t.tx_frame, t.can)) [
          | none ↦ none
          | some (w, frame, s) ↦ some (
            (
              record q {
                speed_control_feedback = w.control_feedback_out;
                robot_state = w.robot_state_in;
              },
              record t { tx_frame = frame; can = s },
            ),
            [],
          )
        ]

  -- Turns one after the other, and all their calls.
  unfoldable pub run : List Turn → World → Option (World × List HwCall)
  run [] w = some (w, [])
  run (t ∷ ts) w = elim (turn t w) [
    | none ↦ none
    | some (w2, calls) ↦ elim (run ts w2) [
      | none ↦ none
      | some (w3, more) ↦ some (w3, calls ++ more)
    ]
  ]
