-- ===== src/Rccar/System.antt =====
-- The services of the RC car together, on the queues by which src/app/rccar/rccar_interface.c joins
-- them: one turn of one thread at a time, in any order.
pub mod Run
pub mod Start
pub mod Sticks
use robofw.Common.{ℕ, Option, none, some, List, [], ◌∷◌, ◌++◌}
use robofw.Common.Floats.{Floats}
use robofw.Common.Msgq.{Msgq}
use robofw.Can.{CanFrame, CanDriver, CanDescriptor}
use robofw.Mcal.{HwCall, LedDescriptor}
use robofw.Sbus.{SbusDecodeBuffer, SbusMessage}
use robofw.Receiver.{receive_bytes}
use robofw.Types.{RobotState, DesiredMotion, ReceiverData}
use robofw.Vesc.{VescCmdPacket}
use robofw.Rccar.Coordinator.{CarCoordinator, coordinator_turn}
use robofw.Rccar.Messenger.{receive_frame, transmit_turn}

-- The queues that `InitRobot` gives to the services.
pub record CarQueues (Queue : Type 0 → Type 0) (F : Type 0) : Type 0 where
  pub receiver_data : Queue (ReceiverData F)
  pub robot_state : Queue RobotState
  pub rc_desired_motion : Queue (DesiredMotion F)

-- The variables of the four threads; `Can` is the state of the CAN driver.
pub record CarThreads (F : Type 0) (Can : Type 0) : Type 0 where
  pub decoder : SbusDecodeBuffer
  pub sbus_msg : SbusMessage
  pub coordinator : CarCoordinator F
  pub rx_pkt : VescCmdPacket F
  pub can : Can

-- Whose turn it is, and what comes in from outside.
pub data CarTurn : Type 0 where
  receiver_reads : List ℕ → CarTurn
  frame_arrives : CanFrame → CarTurn
  coordinator_turns messenger_sends : CarTurn

-- `id_field` is what a frame's identifier keeps, and `blank` is an uninitialised frame.
module _ (f : Floats) (id_field : ℕ → ℕ) (d : CanDriver) (dd : CanDescriptor) (blank : CanFrame)
    (led : LedDescriptor) (k : Msgq) where
  open f use {F32}
  open k use {Queue}
  open d use {State}

  abbrev pub CarWorld : Type 0
  CarWorld = CarQueues Queue F32 × CarThreads F32 State

  -- One turn: the new state, and the calls to pins. `none` means that it has not ended.
  unfoldable pub turn : CarTurn → CarWorld → Option (CarWorld × List HwCall)
  turn (receiver_reads bytes) (q, t) =
      elim (receive_bytes f k bytes (t.decoder, t.sbus_msg, q.receiver_data)) [
        | none ↦ none
        | some (decoder, msg, rc) ↦
            some (
              (record q { receiver_data = rc }, record t { decoder = decoder; sbus_msg = msg }),
              [],
            )
      ]
  turn (frame_arrives frame) (q, t) =
      some ((q, record t { rx_pkt = receive_frame f frame t.rx_pkt }), [])
  turn coordinator_turns (q, t) =
      elim (coordinator_turn f k led (
        t.coordinator,
        record {
          rc_data = q.receiver_data;
          motion_in = q.rc_desired_motion;
          robot_state_in = q.robot_state;
        },
      )) [
        | none ↦ none
        | some (c, w, calls) ↦ some (
          (
            record q {
              receiver_data = w.rc_data;
              rc_desired_motion = w.motion_in;
              robot_state = w.robot_state_in;
            },
            record t { coordinator = c },
          ),
          calls,
        )
      ]
  turn messenger_sends (q, t) =
      let (w, s) =
        transmit_turn f id_field d dd blank k
          (record { robot_state_in = q.robot_state; motion_in = q.rc_desired_motion }, t.can) in
      some (
        (
          record q { robot_state = w.robot_state_in; rc_desired_motion = w.motion_in },
          record t { can = s },
        ),
        [],
      )

  -- Turns one after the other, and all their calls.
  unfoldable pub run : List CarTurn → CarWorld → Option (CarWorld × List HwCall)
  run [] w = some (w, [])
  run (t ∷ ts) w = elim (turn t w) [
    | none ↦ none
    | some (w2, calls) ↦ elim (run ts w2) [
      | none ↦ none
      | some (w3, more) ↦ some (w3, calls ++ more)
    ]
  ]
