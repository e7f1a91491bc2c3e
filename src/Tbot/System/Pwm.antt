-- ===== src/Tbot/System/Pwm.antt =====
-- From a PWM command of the CAN uplink to the motors.
use robofw.Common.{◌%◌, ◌≡◌, refl, ap, ◌∙◌, some, [], ◌∷◌, ◌++◌, ◌==◌, if◌then◌else◌}
use mathlib.Core.List.{append-nil}
use robofw.Common.Int.{ℤ, neg_ℤ}
use robofw.Common.Floats.{Floats}
use robofw.Common.Msgq.{Msgq, MsgqLaws}
use robofw.Common.Msgq.Post.{delivered_empty}
use robofw.Mcal.{toggle_led}
use robofw.Can.{CanFrame, CanDriver}
use robofw.Actuator.Tbot.{actuator_turn}
use robofw.Tbot.Codec.Laws.{set_pwm, IsSendable, command_id, command_bytes, meaning}
use robofw.Tbot.Coordinator.{Ports}
use robofw.Tbot.Coordinator.Sends.{coordinator_turn-Turned, coordinator_turn_calls}
use robofw.Tbot.Messenger.{CommandPorts, pwm_cmd}
use robofw.Tbot.Messenger.Receive.{receive_frame-Received}
use robofw.Tbot.System.{
  Queues, Threads, Devices, command_arrives, coordinator_turns, actuators_turn, turn, run,
}
use robofw.Tbot.System.Sound.{QueuesUsable, Result}

module _ (f : Floats) (k : Msgq) (laws : MsgqLaws k) where
  open f use {F32, of_int, lit32, div32}
  open k use {Queue, get, contents}
  open laws use {get_oldest, get_rest}

  module _ (d : CanDriver) (dev : Devices) where
    open d use {State}

    -- What three turns make of a PWM command.
    pub record Powered (frame : CanFrame) (l r : ℤ) (w : Queues Queue F32 × Threads F32 State)
        (out : Result f k laws d dev) : Type 0 where
      pub ended :
          run f k d dev (command_arrives frame ∷ coordinator_turns ∷ actuators_turn ∷ []) w
          ≡ some out
      pub calls :
          out.1
          ≡ (if w.1.coordinator.loop_counter % 25 == 0 then toggle_led dev.dd_led_status else [])
            ++ actuator_turn f dev.actuators (record {
              motor_0 = div32 (of_int l) (lit32 100 1);
              motor_1 = div32 (of_int (neg_ℤ r)) (lit32 100 1);
            })
      pub taken : contents out.0.0.actuator_data ≡ []
      pub speeds_kept : out.0.0.desired_rpm ≡ w.0.desired_rpm

    -- A PWM command that reaches the CAN uplink is carried out by the actuators, whatever the state of
    -- the coordinator, which has its turn in between: the calls to the devices are its light and then
    -- exactly those for the command's hundredths, with the right one negated. A
    -- byte is an `int8_t`, as in the code; tbot_protocol.md calls it a `uint8_t`. The
    -- queue of the actuators is empty again, that of the desired speeds as before. The command's
    -- values fit its fields, no command waits for the actuators, and the queues can hold something.
    pub pwm_command-Powered :
        (l r : ℤ) (frame : CanFrame) (w : Queues Queue F32 × Threads F32 State)
        → QueuesUsable f k laws w.0
        → IsSendable (set_pwm l r)
        → frame.id ≡ command_id (set_pwm l r)
        → frame.bytes ≡ command_bytes (set_pwm l r)
        → contents w.0.actuator_data ≡ []
        → (out : Result f k laws d dev) × Powered frame l r w out
    unfolding run turn
    pwm_command-Powered l r frame (q, t) u fits id bytes idle =
        let ports : CommandPorts Queue F32 = record {
          supervisor_cmd_out = q.supervisor_cmd;
          actuator_cmd_in = q.actuator_data;
          desired_rpm_in = q.desired_rpm;
          desired_motion_out = q.can_desired_motion;
        } in
        let (w1, r1) =
          receive_frame-Received f k laws (set_pwm l r) frame t.rx_msg ports fits id bytes
            (record { supervisor = u.8; actuator = u.1; rpm = u.3; motion = u.7 }) in
        let w2 : Ports Queue F32 = record {
          rc_data = q.receiver_data;
          can_motion = w1.desired_motion_out;
          supervisor = w1.supervisor_cmd_out;
          motion_in = q.desired_motion;
          robot_state_in = q.robot_state;
        } in
        let (out2, r2) =
          coordinator_turn-Turned f k laws dev.dd_led_status t.coordinator w2
            (record { motion = u.5; state = u.6 }) in
        let waiting : contents w1.actuator_cmd_in ≡ pwm_cmd f k l r ∷ [] =
          r1.routed.1 ∙ delivered_empty _ (pwm_cmd f k l r) idle u.1.room in
        let got = get_oldest w1.actuator_cmd_in (pwm_cmd f k l r) [] waiting in
        (
          (
            (
              record q {
                supervisor_cmd = out2.1.supervisor;
                actuator_data = (get w1.actuator_cmd_in).1;
                can_desired_motion = out2.1.can_motion;
                receiver_data = out2.1.rc_data;
                robot_state = out2.1.robot_state_in;
                desired_motion = out2.1.motion_in;
                desired_rpm = w1.desired_rpm_in;
              },
              record t { rx_msg = meaning f (set_pwm l r); coordinator = out2.0 },
            ),
            out2.2 ++ (actuator_turn f dev.actuators (pwm_cmd f k l r) ++ []),
          ),
          record {
            ended = rw (run, turn, r1.ended, r2.ended, got) refl;
            calls =
                ap (λ light. light ++ (actuator_turn f dev.actuators (pwm_cmd f k l r) ++ []))
                  (coordinator_turn_calls f k laws dev.dd_led_status t.coordinator w2 r2.ended)
                ∙ ap
                    (λ motors.
                      (if t.coordinator.loop_counter % 25 == 0
                        then toggle_led dev.dd_led_status
                        else [])
                      ++ motors)
                    (append-nil (actuator_turn f dev.actuators (pwm_cmd f k l r)));
            taken = get_rest w1.actuator_cmd_in (pwm_cmd f k l r) [] waiting;
            speeds_kept = r1.routed.2;
          },
        )
