-- ===== src/Tbot/System/Drive.antt =====
-- From a motion command of the CAN uplink to the queue of the speed control.
use robofw.Common.{◌≡◌, refl, ap, ◌∙◌, false, none, some, [], ◌∷◌, ◌++◌, if◌then◌else◌, arith}
use mathlib.Core.Path.{subst}
use robofw.Common.Int.{ℤ}
use robofw.Common.Floats.{Floats}
use robofw.Common.Msgq.{Msgq, MsgqLaws}
use robofw.Common.Msgq.Post.{delivered_one}
use robofw.Can.{CanFrame, CanDriver}
use robofw.Types.{DesiredMotion, k_non_supervised, k_control_mode_can}
use robofw.Tbot.Codec.Laws.{set_motion, IsSendable, command_id, command_bytes, meaning}
use robofw.Tbot.Coordinator.{
  Coordinator, Ports, zero_motion, read_receiver, follow_can, obey_supervisor, read_can, take_input,
}
use robofw.Tbot.Coordinator.Sends.{coordinator_turn-Turned}
use robofw.Tbot.Messenger.{CommandPorts}
use robofw.Tbot.Messenger.Receive.{receive_frame-Received}
use robofw.Tbot.Motion.{MotionPorts, desired_speeds, limited_speeds}
use robofw.Tbot.Motion.Turns.{MotionMade, motion_turn-MotionTurned}
use robofw.Tbot.System.{
  Queues, Threads, Devices, command_arrives, coordinator_turns, motion_turns, turn, run,
}
use robofw.Tbot.System.Sound.{QueuesUsable, Result}

module _ (f : Floats) (k : Msgq) (laws : MsgqLaws k) where
  open f use {F32, of_int, lit32, div32}
  open k use {Queue, get, contents, capacity}
  open laws use {get_empty, get_oldest}

  -- Without the receiver's data or a command of the supervisor, a motion from the CAN bus is followed
  -- in CAN mode.
  take_input-followed :
      (c : Coordinator F32) (w : Ports Queue F32) (m : DesiredMotion F32)
      → (get w.rc_data).0 ≡ none
      → (get w.can_motion).0 ≡ some m
      → (get w.supervisor).0 ≡ none
      → c.robot_state.control_mode ≡ k_control_mode_can
      → c.robot_state.estop_triggered ≡ false
      → c.robot_state.sup_mode ≡ k_non_supervised
      → ((take_input f k (c, w)).0.desired_motion ≡ m)
        × ((take_input f k (c, w)).0.robot_state.estop_triggered ≡ false)
        × ((take_input f k (c, w)).0.robot_state.sup_mode ≡ k_non_supervised)
  unfolding take_input read_can read_receiver follow_can obey_supervisor
  take_input-followed c w m rc got quiet mode go free =
      ground (arith, rc, got, quiet, mode, go, free)

  -- A motion command in hundredths.
  abbrev pub commanded : ℤ → ℤ → DesiredMotion F32
  commanded l a = record {
    linear = div32 (of_int l) (lit32 100 1);
    angular = div32 (of_int a) (lit32 100 1);
  }

  module _ (d : CanDriver) (dev : Devices) where
    open d use {State}

    -- What three turns make of a motion command.
    pub record Driven (frame : CanFrame) (l a : ℤ) (w : Queues Queue F32 × Threads F32 State)
        (out : Result f k laws d dev) : Type 0 where
      pub ended :
          run f k d dev (command_arrives frame ∷ coordinator_turns ∷ motion_turns ∷ []) w ≡ some out
      pub target :
          contents out.0.0.desired_rpm
          ≡ limited_speeds f w.1.prev_target_rpm (desired_speeds f (commanded l a)) ∷ []
      pub kept :
          out.0.1.prev_target_rpm
          ≡ limited_speeds f w.1.prev_target_rpm (desired_speeds f (commanded l a))

    -- A motion command that reaches the CAN uplink, when the CAN bus is in control, drives the motors:
    -- after the turns of the messenger, the coordinator and the motion control, which end, the speeds
    -- that it asks for, limited from the last ones, are all that waits for the speed control. The
    -- command's values fit its fields; the receiver's and the supervisor's queues are empty, no
    -- emergency stop is on and nobody supervises the robot; the queues can hold something, those on the
    -- way just one item.
    pub motion_command-Driven :
        (l a : ℤ) (frame : CanFrame) (w : Queues Queue F32 × Threads F32 State)
        → QueuesUsable f k laws w.0
        → IsSendable (set_motion l a)
        → frame.id ≡ command_id (set_motion l a)
        → frame.bytes ≡ command_bytes (set_motion l a)
        → contents w.0.receiver_data ≡ []
        → contents w.0.supervisor_cmd ≡ []
        → capacity w.0.can_desired_motion ≡ 1
        → capacity w.0.desired_motion ≡ 1
        → capacity w.0.desired_rpm ≡ 1
        → w.1.coordinator.robot_state.control_mode ≡ k_control_mode_can
        → w.1.coordinator.robot_state.estop_triggered ≡ false
        → w.1.coordinator.robot_state.sup_mode ≡ k_non_supervised
        → (out : Result f k laws d dev) × Driven frame l a w out
    unfolding run turn
    motion_command-Driven l a frame (q, t) u fits id bytes no_rc no_sup one_can one_motion one_rpm
          mode go free =
        let ports : CommandPorts Queue F32 = record {
          supervisor_cmd_out = q.supervisor_cmd;
          actuator_cmd_in = q.actuator_data;
          desired_rpm_in = q.desired_rpm;
          desired_motion_out = q.can_desired_motion;
        } in
        let (w1, r1) =
          receive_frame-Received f k laws (set_motion l a) frame t.rx_msg ports fits id bytes
            (record { supervisor = u.8; actuator = u.1; rpm = u.3; motion = u.7 }) in
        let w2 : Ports Queue F32 = record {
          rc_data = q.receiver_data;
          can_motion = w1.desired_motion_out;
          supervisor = w1.supervisor_cmd_out;
          motion_in = q.desired_motion;
          robot_state_in = q.robot_state;
        } in
        let followed =
          take_input-followed t.coordinator w2 (commanded l a)
            (ap (λ x. x.0) (get_empty q.receiver_data no_rc))
            (get_oldest w1.desired_motion_out (commanded l a) []
              (r1.routed.3 ∙ delivered_one _ _ one_can))
            (ap (λ p. (get p).0) r1.routed.0 ∙ ap (λ x. x.0) (get_empty q.supervisor_cmd no_sup))
            mode go free in
        let (out2, r2) =
          coordinator_turn-Turned f k laws dev.dd_led_status t.coordinator w2
            (record { motion = u.5; state = u.6 }) in
        let asked : contents out2.1.motion_in ≡ commanded l a ∷ [] =
          r2.motion.1 followed.2
          ∙ delivered_one _ _ one_motion
          ∙ ap
              (λ b.
                (if b then zero_motion f else (take_input f k (t.coordinator, w2)).0.desired_motion)
                ∷ [])
              followed.1
          ∙ ap (λ m. m ∷ []) followed.0 in
        let w3 : MotionPorts f k = record {
          desired_motion_in = out2.1.motion_in;
          desired_rpm_in = w1.desired_rpm_in;
        } in
        let (out3, r3) = motion_turn-MotionTurned f k laws t.prev_target_rpm w3 r1.usable.rpm in
        let made : MotionMade f k laws (some (commanded l a)) t.prev_target_rpm w3 out3 =
          subst (λ got. MotionMade f k laws got t.prev_target_rpm w3 out3)
            (get_oldest out2.1.motion_in (commanded l a) [] asked) r3.made in
        (
          (
            (
              record q {
                supervisor_cmd = out2.1.supervisor;
                actuator_data = w1.actuator_cmd_in;
                can_desired_motion = out2.1.can_motion;
                receiver_data = out2.1.rc_data;
                robot_state = out2.1.robot_state_in;
                desired_motion = out3.1.desired_motion_in;
                desired_rpm = out3.1.desired_rpm_in;
              },
              record t {
                rx_msg = meaning f (set_motion l a);
                coordinator = out2.0;
                prev_target_rpm = out3.0;
              },
            ),
            out2.2 ++ [],
          ),
          record {
            ended = rw (run, turn, r1.ended, r2.ended, r3.ended) refl;
            target =
                made.1
                ∙ delivered_one _ _ (ap capacity r1.routed.2 ∙ one_rpm)
                ∙ ap (λ m. m ∷ []) made.0;
            kept = made.0;
          },
        )
