-- ===== src/Tbot/Coordinator.antt =====
-- src/service/robot_tbot/coordinator/src/coordinator_service.c: which command drives the robot.
-- A turn of the loop is a function on the service's variables, the queues that it touches, and the
-- driver calls that it makes; `none` means that a turn has not ended.
pub mod Sends
pub mod Timeouts
use robofw.Common.{
  ℕ, ◌+◌, ◌%◌, Bool, true, false, ◌&&◌, Option, none, some, List, [], ◌++◌, ltb, ◌==◌,
  if◌then◌else◌, get_or,
}
use robofw.Common.Int.{pos}
use robofw.Common.Floats.{Floats}
use robofw.Common.Msgq.{Msgq, post}
use robofw.Mcal.{HwCall, LedDescriptor, toggle_led}
use robofw.Types.{
  SupervisorCommand, RobotControlMode, k_control_mode_rc, k_control_mode_can, RobotState,
  DesiredMotion, ReceiverData, k_non_supervised,
}

abbrev pub rc_timeout_count : ℕ
rc_timeout_count = 5

abbrev pub can_timeout_count : ℕ
can_timeout_count = 5

-- The variables of `CoordinatorServiceLoop` that live across turns.
pub record Coordinator (F : Type 0) : Type 0 where
  pub desired_motion_from_can : DesiredMotion F
  pub robot_state : RobotState
  pub desired_motion : DesiredMotion F
  pub loop_counter : ℕ
  pub rc_counter : ℕ
  pub can_counter : ℕ

-- The queues: two of the messenger and one of the receiver to read, two to write.
pub record Ports (Queue : Type 0 → Type 0) (F : Type 0) : Type 0 where
  pub rc_data : Queue (ReceiverData F)
  pub can_motion : Queue (DesiredMotion F)
  pub supervisor : Queue SupervisorCommand
  pub motion_in : Queue (DesiredMotion F)
  pub robot_state_in : Queue RobotState

abbrev pub is_can : RobotControlMode → Bool
is_can k_control_mode_rc = false
is_can k_control_mode_can = true

module _ (f : Floats) where
  open f use {F32, of_int, lit32, neg32, lt32}

  abbrev pub zero_motion : DesiredMotion F32
  zero_motion = record { linear = of_int (pos 0); angular = of_int (pos 0) }

  unfoldable pub coordinator_init : Coordinator F32
  coordinator_init = record {
    desired_motion_from_can = zero_motion;
    robot_state = record {
      rc_connected = false;
      estop_triggered = false;
      control_mode = k_control_mode_can;
      sup_mode = k_non_supervised;
    };
    desired_motion = zero_motion;
    loop_counter = 0;
    rc_counter = 0;
    can_counter = 0;
  }

  abbrev channel : ReceiverData F32 → ℕ → F32
  channel r i = get_or r.channels i (of_int (pos 0))

  -- `channels[7] < FLOAT_VALUE_DELTA && channels[7] > -FLOAT_VALUE_DELTA`
  abbrev pub selects_rc : ReceiverData F32 → Bool
  selects_rc r = lt32 (channel r 7) (lit32 1 100000) && lt32 (neg32 (lit32 1 100000)) (channel r 7)

  -- `channels[6] > 0`
  abbrev pub selects_estop : ReceiverData F32 → Bool
  selects_estop r = lt32 (of_int (pos 0)) (channel r 6)

  -- What the receiver's data, or their absence, do to the state.
  unfoldable pub read_receiver : Option (ReceiverData F32) → Coordinator F32 → Coordinator F32
  read_receiver (some r) c =
      let connected = record c {
        rc_counter = 0;
        robot_state = record (c.robot_state) {
          rc_connected = true;
          estop_triggered = selects_estop r;
          control_mode = if selects_rc r then k_control_mode_rc else k_control_mode_can;
        };
      } in
      if selects_rc r
      then record connected {
        desired_motion = record { linear = channel r 2; angular = neg32 (channel r 0) };
      }
      else connected
  read_receiver none c =
      if ltb rc_timeout_count c.rc_counter
      then record c {
        robot_state = record (c.robot_state) {
          rc_connected = false;
          estop_triggered = false;
          control_mode = k_control_mode_can;
        };
      }
      else record c { rc_counter = (c.rc_counter + 1) % 256 }

  -- What the CAN motion command, or its absence, does in CAN mode.
  unfoldable pub follow_can : Option (DesiredMotion F32) → Coordinator F32 → Coordinator F32
  follow_can (some m) c = record c {
    can_counter = 0;
    desired_motion_from_can = m;
    desired_motion = m;
  }
  follow_can none c =
      if ltb can_timeout_count c.can_counter
      then record c { desired_motion_from_can = zero_motion; desired_motion = zero_motion }
      else record c {
        can_counter = (c.can_counter + 1) % 256;
        desired_motion = c.desired_motion_from_can;
      }

  unfoldable pub obey_supervisor : Option SupervisorCommand → Coordinator F32 → Coordinator F32
  obey_supervisor (some s) c = record c {
    robot_state = record (c.robot_state) { sup_mode = s.supervised_mode };
  }
  obey_supervisor none c = c

  -- The motion is zeroed where it would be sent and the emergency stop is on.
  unfoldable pub halt_if_stopped : Coordinator F32 → Coordinator F32
  halt_if_stopped c =
      if c.robot_state.estop_triggered then record c { desired_motion = zero_motion } else c

  module _ (k : Msgq) where
    open k use {Queue, get}

    unfoldable pub read_can : Coordinator F32 × Ports Queue F32 → Coordinator F32 × Ports Queue F32
    read_can (c, w) =
        if is_can c.robot_state.control_mode
        then (let (got, rest) = get w.can_motion in
            (follow_can got c, record w { can_motion = rest }))
        else (c, w)

    unfoldable pub send_motion :
        Coordinator F32 → Ports Queue F32 → Option (Coordinator F32 × Ports Queue F32)
    send_motion c w =
        if c.robot_state.sup_mode == k_non_supervised
        then (let halted = halt_if_stopped c in
            elim (post k w.motion_in halted.desired_motion) [
              | none ↦ none
              | some q ↦ some (halted, record w { motion_in = q })
            ])
        else some (c, w)

    unfoldable pub send_state : Coordinator F32 → Ports Queue F32 → Option (Ports Queue F32)
    send_state c w = elim (post k w.robot_state_in c.robot_state) [
      | none ↦ none
      | some q ↦ some (record w { robot_state_in = q })
    ]

    -- The reads of one turn.
    unfoldable pub take_input :
        Coordinator F32 × Ports Queue F32 → Coordinator F32 × Ports Queue F32
    take_input (c, w) =
        let (data_got, data_rest) = get w.rc_data in
        let (c2, w2) = read_can (read_receiver data_got c, record w { rc_data = data_rest }) in
        let (sup_got, sup_rest) = get w2.supervisor in
        (obey_supervisor sup_got c2, record w2 { supervisor = sup_rest })

    -- One turn of the loop: the new variables and queues, and the driver calls.
    unfoldable pub coordinator_turn :
        LedDescriptor
        → Coordinator F32 × Ports Queue F32
        → Option (Coordinator F32 × Ports Queue F32 × List HwCall)
    coordinator_turn led (c, w) =
        let calls = if c.loop_counter % 25 == 0 then toggle_led led else [] in
        let (c2, w2) = take_input (c, w) in
        elim (send_motion c2 w2) [
          | none ↦ none
          | some (c3, w3) ↦ elim (send_state c3 w3) [
            | none ↦ none
            | some w4 ↦ some (record c3 { loop_counter = (c3.loop_counter + 1) % 256 }, w4, calls)
          ]
        ]
