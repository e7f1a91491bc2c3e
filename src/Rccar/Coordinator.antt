-- ===== src/Rccar/Coordinator.antt =====
-- src/service/robot_rccar/coordinator/src/coordinator_service.c: which command drives the car. A turn
-- of the loop is a function on the service's variables and queues; `none` means that it has not ended.
pub mod Sends
pub mod Timeout
use robofw.Common.{
  ℕ, ◌+◌, ◌%◌, Bool, true, false, ◌&&◌, Option, none, some, List, [], ltb, ◌==◌, if◌then◌else◌,
  get_or,
}
use robofw.Common.Int.{pos}
use robofw.Common.Floats.{Floats}
use robofw.Common.Msgq.{Msgq, post}
use robofw.Mcal.{HwCall, LedDescriptor, toggle_led}
use robofw.Types.{
  RobotControlMode, k_control_mode_rc, k_control_mode_can, RobotState, DesiredMotion, ReceiverData,
  k_non_supervised,
}

abbrev pub rc_timeout_count : ℕ
rc_timeout_count = 5

-- The variables of `CoordinatorServiceLoop` that it uses across turns.
pub record CarCoordinator (F : Type 0) : Type 0 where
  pub robot_state : RobotState
  pub desired_motion : DesiredMotion F
  pub loop_counter : ℕ
  pub rc_counter : ℕ

pub record CarPorts (Queue : Type 0 → Type 0) (F : Type 0) : Type 0 where
  pub rc_data : Queue (ReceiverData F)
  pub motion_in : Queue (DesiredMotion F)
  pub robot_state_in : Queue RobotState

abbrev pub is_rc : RobotControlMode → Bool
is_rc k_control_mode_rc = true
is_rc k_control_mode_can = false

module _ (f : Floats) where
  open f use {F32, of_int, lit64, neg32, neg64, lt32, lt64, widen}

  abbrev pub zero_motion : DesiredMotion F32
  zero_motion = record { linear = of_int (pos 0); angular = of_int (pos 0) }

  unfoldable pub coordinator_init : CarCoordinator F32
  coordinator_init = record {
    robot_state = record {
      rc_connected = false;
      estop_triggered = true;
      control_mode = k_control_mode_rc;
      sup_mode = k_non_supervised;
    };
    desired_motion = zero_motion;
    loop_counter = 0;
    rc_counter = 0;
  }

  abbrev channel : ReceiverData F32 → ℕ → F32
  channel r i = get_or r.channels i (of_int (pos 0))

  -- `channels[6] < -0.5` and `channels[5] > 0`
  abbrev pub selects_rc : ReceiverData F32 → Bool
  selects_rc r = lt64 (widen (channel r 6)) (neg64 (lit64 5 10))

  abbrev pub releases_estop : ReceiverData F32 → Bool
  releases_estop r = lt32 (of_int (pos 0)) (channel r 5)

  -- LINEAR_MOTION_DEADZONE and ANGULAR_MOTION_DEADZONE are `double`.
  abbrev pub dead_zone : ℕ → F32 → F32
  dead_zone hundredths x =
      if lt64 (widen x) (lit64 hundredths 100) && lt64 (neg64 (lit64 hundredths 100)) (widen x)
      then of_int (pos 0)
      else x

  -- What the receiver's data, or their absence, do to the variables.
  unfoldable pub read_receiver : Option (ReceiverData F32) → CarCoordinator F32 → CarCoordinator F32
  read_receiver (some r) c =
      let connected = record c {
        rc_counter = 0;
        robot_state = record (c.robot_state) {
          rc_connected = true;
          estop_triggered = if releases_estop r then false else true;
          control_mode = if selects_rc r then k_control_mode_rc else k_control_mode_can;
        };
      } in
      if selects_rc r
      then record connected {
        desired_motion = record {
          linear = dead_zone 5 (channel r 2);
          angular = dead_zone 10 (neg32 (channel r 1));
        };
      }
      else connected
  read_receiver none c =
      if ltb rc_timeout_count c.rc_counter
      then record c {
        robot_state = record (c.robot_state) {
          rc_connected = false;
          estop_triggered = false;
          control_mode = k_control_mode_can;
        };
      }
      else record c { rc_counter = (c.rc_counter + 1) % 256 }

  unfoldable pub halt_if_stopped : CarCoordinator F32 → CarCoordinator F32
  halt_if_stopped c =
      if c.robot_state.estop_triggered then record c { desired_motion = zero_motion } else c

  -- The counter starts again where the light is toggled.
  abbrev pub blink : LedDescriptor → CarCoordinator F32 → CarCoordinator F32 × List HwCall
  blink led c =
      if c.loop_counter % 25 == 0 then (record c { loop_counter = 0 }, toggle_led led) else (c, [])

  module _ (k : Msgq) where
    open k use {Queue, get}

    unfoldable pub send_motion :
        CarCoordinator F32 → CarPorts Queue F32 → Option (CarPorts Queue F32)
    send_motion c w =
        if c.robot_state.sup_mode == k_non_supervised && is_rc c.robot_state.control_mode
        then elim (post k w.motion_in c.desired_motion) [
          | none ↦ none
          | some q ↦ some (record w { motion_in = q })
        ]
        else some w

    unfoldable pub send_state :
        CarCoordinator F32 → CarPorts Queue F32 → Option (CarPorts Queue F32)
    send_state c w = elim (post k w.robot_state_in c.robot_state) [
      | none ↦ none
      | some q ↦ some (record w { robot_state_in = q })
    ]

    -- The variables after the first half of a turn.
    abbrev pub decide :
        LedDescriptor → Option (ReceiverData F32) → CarCoordinator F32 → CarCoordinator F32
    decide led got c = halt_if_stopped (read_receiver got (blink led c).0)

    unfoldable pub coordinator_turn :
        LedDescriptor
        → CarCoordinator F32 × CarPorts Queue F32
        → Option (CarCoordinator F32 × CarPorts Queue F32 × List HwCall)
    coordinator_turn led (c, w) =
        let (got, rest) = get w.rc_data in
        let c2 = decide led got c in
        elim (send_motion c2 (record w { rc_data = rest })) [
          | none ↦ none
          | some w3 ↦ elim (send_state c2 w3) [
            | none ↦ none
            | some w4 ↦
                some (record c2 { loop_counter = (c2.loop_counter + 1) % 256 }, w4, (blink led c).1)
          ]
        ]
