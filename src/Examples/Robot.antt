-- ===== src/Examples/Robot.antt =====
-- The robot's coordinator, motion control and speed control on concrete values.
use robofw.Common.{ℕ, zero, suc, ◌≡◌, refl, true, false, List, arith}
use robofw.Common.Int.{ℤ, pos, negsuc}
use robofw.Common.Floats.{fixed, fixed-FloatLaws}
use robofw.Common.Msgq.Bounded.{Bounded, bounded, bounded-MsgqLaws}
use robofw.Common.Msgq.Post.{Delivered, post_delivers}
use robofw.Mcal.{HwCall}
use robofw.Types.{DesiredRpm, k_control_mode_rc, k_control_mode_can, k_non_supervised}
use robofw.Tbot.Coordinator.{Coordinator, Ports, zero_motion}
use robofw.Tbot.Coordinator.Sends.{PortsUsable, Turned, coordinator_turn-Turned}
use robofw.Tbot.Coordinator.Timeouts.{
  CountersBounded, Silent, start, turn, silent_run_lost, silent_run_stops,
}
use robofw.Tbot.Motion.{MotionPorts, rpm_limit, apply_motion_limit}
use robofw.Tbot.Motion.Limit.{
  InRange, Limited, limited_turns, apply_motion_limit-Limited, limited_turns-arrive,
}
use robofw.Tbot.Motion.Turns.{MotionTurned, motion_turn-MotionTurned}
use robofw.Tbot.Speed.{
  PidControllerInstance, SpeedVars, SpeedPorts, speed_init, update_pid_controller,
}
use robofw.Tbot.Speed.Pid.{Updated, update_pid_controller-Updated}
use robofw.Tbot.Speed.Turns.{SpeedTurned, speed_turn-SpeedTurned}
use robofw.Examples.Data.{queue, holding, queue-IsUsable, led, speeds}

-- Driving under remote control, with the emergency stop on.
abbrev driving : Coordinator ℤ
driving = record {
  desired_motion_from_can = record { linear = pos 1000000; angular = pos 0 };
  robot_state = record {
    rc_connected = true;
    estop_triggered = true;
    control_mode = k_control_mode_rc;
    sup_mode = k_non_supervised;
  };
  desired_motion = record { linear = pos 500000; angular = negsuc 0 };
  loop_counter = 24;
  rc_counter = 0;
  can_counter = 0;
}

abbrev ports : Ports Bounded ℤ
ports = record {
  rc_data = queue;
  can_motion = queue;
  supervisor = queue;
  motion_in = queue;
  robot_state_in = queue;
}

ports-PortsUsable : PortsUsable fixed bounded bounded-MsgqLaws ports
ports-PortsUsable = record { motion = queue-IsUsable; state = queue-IsUsable }

driving-CountersBounded : CountersBounded driving
driving-CountersBounded = record { rc = omega arith; can = omega arith }

-- A silent run of any length.
silent_for : (n : ℕ) → (c : Coordinator ℤ) × Silent fixed bounded led driving n c
silent_for zero = (driving, start)
silent_for (suc n) =
    let (c, run) = silent_for n in
    let (out, t) =
      coordinator_turn-Turned fixed bounded bounded-MsgqLaws led c ports ports-PortsUsable in
    (out.0, turn ports out run refl refl t.ended)

silent_run_lost_example :
    ((silent_for 7).0.robot_state.rc_connected ≡ false)
    × ((silent_for 7).0.robot_state.estop_triggered ≡ false)
    × ((silent_for 7).0.robot_state.control_mode ≡ k_control_mode_can)
silent_run_lost_example =
    silent_run_lost fixed bounded bounded-MsgqLaws led driving {n = 7} driving-CountersBounded
      (silent_for 7).1 (omega arith)

silent_run_stops_example : (silent_for 13).0.desired_motion ≡ zero_motion fixed
silent_run_stops_example =
    silent_run_stops fixed bounded bounded-MsgqLaws led driving {n = 13} driving-CountersBounded
      (silent_for 13).1 (omega arith)

coordinator_turn-Turned_example :
    (out : Coordinator ℤ × Ports Bounded ℤ × List HwCall) × Turned fixed bounded bounded-MsgqLaws
      driving ports led out
coordinator_turn-Turned_example =
    coordinator_turn-Turned fixed bounded bounded-MsgqLaws led driving ports ports-PortsUsable

post_delivers_example : (q : Bounded ℕ) × Delivered bounded bounded-MsgqLaws (holding 3) 4 q
post_delivers_example =
    post_delivers bounded bounded-MsgqLaws (holding 3) 4
      (record { room = omega arith; within = omega arith })

in_range : InRange (pos 20) (negsuc 99)
in_range = record { prev_fits = omega arith; value_fits = omega arith; diff_fits = omega arith }

apply_motion_limit-Limited_example :
    Limited 2 7 (pos 20) (negsuc 99) (apply_motion_limit rpm_limit (pos 20) (negsuc 99))
apply_motion_limit-Limited_example = apply_motion_limit-Limited 2 7 (pos 20) (negsuc 99) in_range

limited_turns-arrive_example : limited_turns rpm_limit 40 (pos 20) (negsuc 99) ≡ negsuc 99
limited_turns-arrive_example =
    limited_turns-arrive 2 7 40 (pos 20) (negsuc 99) in_range (omega arith)

abbrev still : DesiredRpm
still = record { motor_0 = pos 0; motor_1 = pos 0 }

abbrev motion_ports : MotionPorts fixed bounded
motion_ports = record {
  desired_motion_in = holding (record { linear = pos 100000; angular = pos 0 });
  desired_rpm_in = queue;
}

motion_turn-MotionTurned_example :
    (out : DesiredRpm × MotionPorts fixed bounded) × MotionTurned fixed bounded bounded-MsgqLaws
      still motion_ports out
motion_turn-MotionTurned_example =
    motion_turn-MotionTurned fixed bounded bounded-MsgqLaws still motion_ports queue-IsUsable

abbrev vars : SpeedVars ℤ
vars = speed_init fixed 20 speeds

abbrev speed_ports : SpeedPorts Bounded ℤ
speed_ports = record {
  rpm_out = holding speeds;
  desired_rpm_in = holding still;
  actuator_cmd_in = queue;
  control_feedback_out = queue;
}

speed_turn-SpeedTurned_example :
    (out : SpeedVars ℤ × SpeedPorts Bounded ℤ) × SpeedTurned fixed bounded bounded-MsgqLaws vars
      speed_ports out
speed_turn-SpeedTurned_example =
    speed_turn-SpeedTurned fixed bounded bounded-MsgqLaws vars speed_ports
      (record { actuator = queue-IsUsable; feedback = queue-IsUsable })

abbrev pid : PidControllerInstance ℤ
pid = record {
  kp = pos 200000;
  ki = pos 1200000;
  kd = pos 0;
  umax = pos 100000000;
  ts = pos 20000;
  integral = pos 0;
  error_last = pos 0;
}

update_pid_controller-Updated_example :
    Updated fixed fixed-FloatLaws pid
      (pos 900000000)
      (pos 0)
      (update_pid_controller fixed pid (pos 900000000) (pos 0))
update_pid_controller-Updated_example =
    update_pid_controller-Updated fixed fixed-FloatLaws pid (pos 900000000) (pos 0) refl
