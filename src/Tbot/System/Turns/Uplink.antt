-- ===== src/Tbot/System/Turns/Uplink.antt =====
-- The turns of the two threads of the CAN uplink.
use robofw.Common.{suc, ◌+◌, ◌≡◌, refl, true, [], length, arith}
use robofw.Common.Floats.{Floats, FloatLaws}
use robofw.Common.Msgq.{Msgq, MsgqLaws}
use robofw.Common.Msgq.Post.{emptied-IsUsable}
use robofw.Tbot.System.Sound.{IsSound, Kept, Result}
use robofw.Can.{CanFrame, CanDriver}
use robofw.Mcal.Duty.{done}
use robofw.Tbot.Messenger.Receive.{receive_frame-ends}
use robofw.Tbot.Messenger.Transmit.{transmit_turn-Transmitted}
use robofw.Tbot.System.{Queues, Threads, Devices, command_arrives, messenger_sends, turn}

module _ (f : Floats) (flaws : FloatLaws f) (k : Msgq) (laws : MsgqLaws k) where
  open f use {F32}
  open k use {Queue, get, contents, capacity}

  module _ (d : CanDriver) (dev : Devices) (active : dev.dd_can.active ≡ true) where
    open d use {State}

    pub command-Kept :
        (frame : CanFrame) (w : Queues Queue F32 × Threads F32 State)
        → IsSound f k laws w
        → (out : Result f k laws d dev) × Kept f k laws d dev (command_arrives frame) w out
    unfolding turn
    command-Kept frame (q, t) (u, s) =
        let (out, ended, ports) =
          receive_frame-ends f k laws frame t.rx_msg
            (record {
              supervisor_cmd_out = q.supervisor_cmd;
              actuator_cmd_in = q.actuator_data;
              desired_rpm_in = q.desired_rpm;
              desired_motion_out = q.can_desired_motion;
            })
            (record { supervisor = u.8; actuator = u.1; rpm = u.3; motion = u.7 }) in
        (
          (
            (
              record q {
                supervisor_cmd = out.1.supervisor_cmd_out;
                actuator_data = out.1.actuator_cmd_in;
                desired_rpm = out.1.desired_rpm_in;
                can_desired_motion = out.1.desired_motion_out;
              },
              record t { rx_msg = out.0 },
            ),
            [],
          ),
          record {
            ended = rw (turn, ended) refl;
            sound = (
              (u.0, ports.actuator, u.2, ports.rpm, u.4, u.5, u.6, ports.motion, ports.supervisor),
              (s.0, s.1, s.2, s.3),
            );
            safe = done;
          },
        )

    pub messenger-Kept :
        (w : Queues Queue F32 × Threads F32 State)
        → IsSound f k laws w
        → (out : Result f k laws d dev) × Kept f k laws d dev (messenger_sends) w out
    unfolding turn
    messenger-Kept (q, t) (u, s) =
        let (out, r) =
          transmit_turn-Transmitted f k d dev.dd_can active laws
            (suc (length (contents q.speed_control_feedback) + length (contents q.robot_state)))
            (record {
              control_feedback_out = q.speed_control_feedback;
              robot_state_in = q.robot_state;
            })
            t.tx_frame t.can (omega arith) (omega arith) s.3 in
        (
          (
            (
              record q {
                speed_control_feedback = out.0.control_feedback_out;
                robot_state = out.0.robot_state_in;
              },
              record t { tx_frame = out.1; can = out.2 },
            ),
            [],
          ),
          record {
            ended = rw (turn, r.ended) refl;
            sound = (
              (
                u.0,
                u.1,
                u.2,
                u.3,
                emptied-IsUsable k laws u.4 r.emptied.0 r.same_capacity.0,
                u.5,
                emptied-IsUsable k laws u.6 r.emptied.1 r.same_capacity.1,
                u.7,
                u.8,
              ),
              (s.0, s.1, s.2, r.reusable),
            );
            safe = done;
          },
        )
