-- ===== src/Tbot/System/Turns/Control.antt =====
-- The turns of the coordinator, the motion control and the speed control.
use robofw.Common.{◌%◌, refl, sym, inl, inr, [], ◌==◌, if◌then◌else◌, Bool-cases}
use mathlib.Core.Path.{subst}
use robofw.Common.Floats.{Floats, FloatLaws}
use robofw.Common.Msgq.{Msgq, MsgqLaws}
use robofw.Common.Msgq.Post.{get-IsUsable, IsUsable-of}
use robofw.Tbot.System.Sound.{IsSound, Kept, Result}
use robofw.Can.{CanDriver}
use robofw.Mcal.{toggle_led}
use robofw.Mcal.Duty.{AllSafe, done, toggle_led-AllWithin}
use robofw.Tbot.Coordinator.{Coordinator, Ports}
use robofw.Tbot.Motion.{MotionPorts}
use robofw.Tbot.Speed.{SpeedPorts}
use robofw.Tbot.Coordinator.Sends.{
  coordinator_turn-Turned, coordinator_turn-InputsLeft, coordinator_turn_calls,
}
use robofw.Tbot.Coordinator.Timeouts.{coordinator_turn-CountersBounded}
use robofw.Tbot.Motion.Turns.{motion_turn-MotionTurned, motion_turn_left}
use robofw.Tbot.Speed.Turns.{speed_turn-SpeedTurned, speed_turn_left}
use robofw.Tbot.System.{
  Queues, Threads, Devices, coordinator_turns, motion_turns, speed_turns, turn,
}

module _ (f : Floats) (flaws : FloatLaws f) (k : Msgq) (laws : MsgqLaws k) where
  open f use {F32}
  open k use {Queue, get, contents, capacity}

  module _ (d : CanDriver) (dev : Devices) where
    open d use {State}

    light-AllSafe :
        (c : Coordinator F32)
        → AllSafe f (if c.loop_counter % 25 == 0 then toggle_led dev.dd_led_status else [])
    light-AllSafe c = elim (Bool-cases (c.loop_counter % 25 == 0)) [
      | inl e ↦ rw e (toggle_led-AllWithin f dev.dd_led_status)
      | inr e ↦ rw e done
    ]

    pub coordinator-Kept :
        (w : Queues Queue F32 × Threads F32 State)
        → IsSound f k laws w
        → (out : Result f k laws d dev) × Kept f k laws d dev (coordinator_turns) w out
    unfolding turn
    coordinator-Kept (q, t) (u, s) =
        let w : Ports Queue F32 = record {
          rc_data = q.receiver_data;
          can_motion = q.can_desired_motion;
          supervisor = q.supervisor_cmd;
          motion_in = q.desired_motion;
          robot_state_in = q.robot_state;
        } in
        let (out, r) =
          coordinator_turn-Turned f k laws dev.dd_led_status t.coordinator w
            (record { motion = u.5; state = u.6 }) in
        let left = coordinator_turn-InputsLeft f k laws dev.dd_led_status t.coordinator w r.ended in
        (
          (
            (
              record q {
                receiver_data = out.1.rc_data;
                can_desired_motion = out.1.can_motion;
                supervisor_cmd = out.1.supervisor;
                desired_motion = out.1.motion_in;
                robot_state = out.1.robot_state_in;
              },
              record t { coordinator = out.0 },
            ),
            out.2,
          ),
          record {
            ended = rw (turn, r.ended) refl;
            sound = (
              (
                IsUsable-of k laws (sym left.data_left) (get-IsUsable k laws q.receiver_data u.0),
                u.1,
                u.2,
                u.3,
                u.4,
                r.usable.motion,
                r.usable.state,
                elim left.motion_left [
                  | inl e ↦ IsUsable-of k laws (sym e) u.7
                  | inr e ↦
                      IsUsable-of k laws (sym e) (get-IsUsable k laws q.can_desired_motion u.7)
                ],
                IsUsable-of k laws (sym left.supervisor_left)
                    (get-IsUsable k laws q.supervisor_cmd u.8),
              ),
              (
                s.0,
                coordinator_turn-CountersBounded f k dev.dd_led_status t.coordinator w r.ended s.1,
                s.2,
                s.3,
              ),
            );
            safe =
                subst (λ calls. AllSafe f calls)
                  (sym (coordinator_turn_calls f k laws dev.dd_led_status t.coordinator w r.ended))
                  (light-AllSafe t.coordinator);
          },
        )

    pub motion-Kept :
        (w : Queues Queue F32 × Threads F32 State)
        → IsSound f k laws w
        → (out : Result f k laws d dev) × Kept f k laws d dev (motion_turns) w out
    unfolding turn
    motion-Kept (q, t) (u, s) =
        let w : MotionPorts f k = record {
          desired_motion_in = q.desired_motion;
          desired_rpm_in = q.desired_rpm;
        } in
        let (out, r) = motion_turn-MotionTurned f k laws t.prev_target_rpm w u.3 in
        (
          (
            (
              record q {
                desired_motion = out.1.desired_motion_in;
                desired_rpm = out.1.desired_rpm_in;
              },
              record t { prev_target_rpm = out.0 },
            ),
            [],
          ),
          record {
            ended = rw (turn, r.ended) refl;
            sound = (
              (
                u.0,
                u.1,
                u.2,
                r.usable,
                u.4,
                IsUsable-of k laws (sym (motion_turn_left f k laws t.prev_target_rpm w r.ended))
                    (get-IsUsable k laws q.desired_motion u.5),
                u.6,
                u.7,
                u.8,
              ),
              (s.0, s.1, s.2, s.3),
            );
            safe = done;
          },
        )

    pub speed-Kept :
        (w : Queues Queue F32 × Threads F32 State)
        → IsSound f k laws w
        → (out : Result f k laws d dev) × Kept f k laws d dev (speed_turns) w out
    unfolding turn
    speed-Kept (q, t) (u, s) =
        let w : SpeedPorts Queue F32 = record {
          rpm_out = q.encoder_rpm;
          desired_rpm_in = q.desired_rpm;
          actuator_cmd_in = q.actuator_data;
          control_feedback_out = q.speed_control_feedback;
        } in
        let (out, r) =
          speed_turn-SpeedTurned f k laws t.speed w (record { actuator = u.1; feedback = u.4 }) in
        let left = speed_turn_left f k laws t.speed w r.ended in
        (
          (
            (
              record q {
                encoder_rpm = out.1.rpm_out;
                desired_rpm = out.1.desired_rpm_in;
                actuator_data = out.1.actuator_cmd_in;
                speed_control_feedback = out.1.control_feedback_out;
              },
              record t { speed = out.0 },
            ),
            [],
          ),
          record {
            ended = rw (turn, r.ended) refl;
            sound = (
              (
                u.0,
                r.usable.actuator,
                IsUsable-of k laws (sym left.0) (get-IsUsable k laws q.encoder_rpm u.2),
                IsUsable-of k laws (sym left.1) (get-IsUsable k laws q.desired_rpm u.3),
                r.usable.feedback,
                u.5,
                u.6,
                u.7,
                u.8,
              ),
              (s.0, s.1, s.2, s.3),
            );
            safe = done;
          },
        )
