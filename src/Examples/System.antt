-- ===== src/Examples/System.antt =====
-- The robot as a whole on concrete values.
use robofw.Common.{ℕ, ◌≡◌, refl, true, some, List, [], ◌∷◌, arith}
use robofw.Common.Int.{ℤ, pos, negsuc}
use robofw.Common.Floats.{fixed, fixed-FloatLaws}
use robofw.Common.Msgq.Bounded.{Bounded, bounded, bounded-MsgqLaws}
use robofw.Can.{CanFrame, standard}
use robofw.Sbus.RoundTrip.{AllBelow, sent_frame}
use robofw.Receiver.{scale_channel}
use robofw.Tbot.Codec.{supervisor_command}
use robofw.Tbot.Codec.Laws.{set_motion, set_pwm, command_bytes}
use robofw.Tbot.Coordinator.{coordinator_init}
use robofw.Tbot.Speed.{speed_init}
use robofw.Tbot.System.{
  Queues, Threads, Devices, Turn, receiver_reads, command_arrives, coordinator_turns, motion_turns,
  speed_turns, encoder_turns, actuators_turn, messenger_sends, run,
}
use robofw.Tbot.System.Sound.{IsSound, QueuesUsable, Result, TimesPass}
use robofw.Tbot.System.Run.{Ran, run-Ran}
use robofw.Tbot.System.Start.{Uninitialised, threads_init, QueuesDefined, started_run-Ran}
use robofw.Tbot.System.Estop.{Stoppable, Stopped, estop_frame-Stopped}
use robofw.Tbot.System.Halt.{rounds, at_rest, held_estop-Halted}
use robofw.Tbot.Motion.{desired_speeds, to_rpm}
use robofw.Tbot.System.Drive.{Driven, motion_command-Driven}
use robofw.Tbot.System.Pwm.{Powered, pwm_command-Powered}
use robofw.Examples.Data.{queue, queue-IsUsable, led, logging, can, blank, speeds}
use robofw.Examples.Sbus.{waiting, old, waiting-IsValid}
use robofw.Examples.Devices.{vars, conf, conf-IsConfigured, motors, estimator-IsEstimator}

abbrev queues : Queues Bounded ℤ
queues = record {
  receiver_data = queue;
  actuator_data = queue;
  encoder_rpm = queue;
  desired_rpm = queue;
  speed_control_feedback = queue;
  desired_motion = queue;
  robot_state = queue;
  can_desired_motion = queue;
  supervisor_cmd = queue;
}

abbrev threads : Threads ℤ (List CanFrame)
threads = record {
  decoder = waiting;
  sbus_msg = old;
  coordinator = coordinator_init fixed;
  prev_target_rpm = record { motor_0 = pos 0; motor_1 = pos 0 };
  speed = speed_init fixed 20 speeds;
  encoder = vars;
  rx_msg = supervisor_command 0;
  tx_frame = blank;
  can = [];
}

abbrev devices : Devices
devices = record { dd_led_status = led; actuators = motors; encoders = conf; dd_can = can }

queues-QueuesUsable : QueuesUsable fixed bounded bounded-MsgqLaws queues
queues-QueuesUsable = (
  queue-IsUsable, queue-IsUsable, queue-IsUsable, queue-IsUsable, queue-IsUsable, queue-IsUsable,
  queue-IsUsable, queue-IsUsable, queue-IsUsable,
)

at_start-IsSound : IsSound fixed bounded bounded-MsgqLaws (queues, threads)
unfolding coordinator_init
at_start-IsSound = (
  queues-QueuesUsable,
  (
    waiting-IsValid,
    record { rc = omega arith; can = omega arith },
    record { left = estimator-IsEstimator; right = estimator-IsEstimator; counter = omega arith },
    refl,
  ),
)

-- The stick of the emergency stop at its end.
abbrev stop_sticks : List ℕ
stop_sticks =
    1023 ∷ 1023 ∷ 1023 ∷ 1023 ∷ 1023 ∷ 1023 ∷ 1807 ∷ 1023 ∷ 0 ∷ 0 ∷ 0 ∷ 0 ∷ 0 ∷ 0 ∷ 0 ∷ 0 ∷ []

stop_sticks-AllBelow : AllBelow 2048 stop_sticks
stop_sticks-AllBelow = omega arith

-- Half a metre per second ahead.
abbrev motion_frame : CanFrame
motion_frame = record {
  id_type = standard;
  id = 0x103;
  rtr = 0;
  dlc = 8;
  bytes = command_bytes (set_motion (pos 50) (negsuc 9));
}

-- Half of the duty cycle ahead on the left, a fifth on the right.
abbrev pwm_frame : CanFrame
pwm_frame = record motion_frame {
  id = 0x101;
  dlc = 2;
  bytes = command_bytes (set_pwm (pos 50) (pos 20));
}

abbrev turns : List Turn
turns =
    receiver_reads (sent_frame stop_sticks 0)
    ∷ encoder_turns 100 65500 5
    ∷ coordinator_turns
    ∷ command_arrives motion_frame
    ∷ motion_turns
    ∷ speed_turns
    ∷ actuators_turn
    ∷ messenger_sends
    ∷ []

turns-TimesPass : TimesPass turns
turns-TimesPass = (tt, (omega arith, (tt, (tt, (tt, (tt, (tt, (tt, tt))))))))

run-Ran_example :
    (out : Result fixed bounded bounded-MsgqLaws logging devices) × Ran fixed fixed-FloatLaws
      bounded bounded-MsgqLaws logging devices refl conf-IsConfigured turns
      (queues, threads)
      out
run-Ran_example =
    run-Ran fixed fixed-FloatLaws bounded bounded-MsgqLaws logging devices refl conf-IsConfigured
      turns (queues, threads) turns-TimesPass at_start-IsSound

ready-Stoppable : Stoppable fixed bounded bounded-MsgqLaws (queues, threads)
unfolding coordinator_init
ready-Stoppable = record {
  received = queue-IsUsable;
  motion = queue-IsUsable;
  state = queue-IsUsable;
  rpm = queue-IsUsable;
  one_received = refl;
  one_motion = refl;
  quiet = refl;
  free = refl;
  waits = refl;
}

estop_frame-Stopped_example :
    (out : Result fixed bounded bounded-MsgqLaws logging devices) × Stopped fixed bounded
      bounded-MsgqLaws logging devices
      (sent_frame stop_sticks 0)
      (queues, threads)
      out
unfolding scale_channel
estop_frame-Stopped_example =
    estop_frame-Stopped fixed bounded bounded-MsgqLaws logging devices stop_sticks 0
      (queues, threads) ready-Stoppable refl stop_sticks-AllBelow (omega arith) refl

-- A robot that turns.
abbrev turning : Threads ℤ (List CanFrame)
turning = record threads { prev_target_rpm = record { motor_0 = pos 25; motor_1 = negsuc 30 } }

turning-Stoppable : Stoppable fixed bounded bounded-MsgqLaws (queues, turning)
unfolding coordinator_init
turning-Stoppable = record {
  received = queue-IsUsable;
  motion = queue-IsUsable;
  state = queue-IsUsable;
  rpm = queue-IsUsable;
  one_received = refl;
  one_motion = refl;
  quiet = refl;
  free = refl;
  waits = refl;
}

held_estop-Halted_example :
    (out : Result fixed bounded bounded-MsgqLaws logging devices) × (run fixed bounded logging
        devices
        (rounds (sent_frame stop_sticks 0) 11)
        (queues, turning)
      ≡ some out)
    × (out.0.1.prev_target_rpm ≡ at_rest fixed bounded bounded-MsgqLaws logging devices)
    × (out.0.1.coordinator.robot_state.estop_triggered ≡ true)
unfolding scale_channel desired_speeds to_rpm
held_estop-Halted_example =
    held_estop-Halted fixed bounded bounded-MsgqLaws logging devices stop_sticks 0 refl
      stop_sticks-AllBelow (omega arith) refl 11 (queues, turning) turning-Stoppable (omega arith)
      (record { prev_fits = ground arith; value_fits = ground arith; diff_fits = ground arith })
      (record { prev_fits = ground arith; value_fits = ground arith; diff_fits = ground arith })
      (omega arith) (omega arith)

motion_command-Driven_example :
    (out : Result fixed bounded bounded-MsgqLaws logging devices) × Driven fixed bounded
      bounded-MsgqLaws logging devices motion_frame
      (pos 50)
      (negsuc 9)
      (queues, threads)
      out
unfolding coordinator_init
motion_command-Driven_example =
    motion_command-Driven fixed bounded bounded-MsgqLaws logging devices (pos 50) (negsuc 9)
      motion_frame (queues, threads) queues-QueuesUsable (omega arith) refl refl refl refl refl refl
      refl refl refl refl

pwm_command-Powered_example :
    (out : Result fixed bounded bounded-MsgqLaws logging devices) × Powered fixed bounded
      bounded-MsgqLaws logging devices pwm_frame
      (pos 50)
      (pos 20)
      (queues, threads)
      out
pwm_command-Powered_example =
    pwm_command-Powered fixed bounded bounded-MsgqLaws logging devices (pos 50) (pos 20) pwm_frame
      (queues, threads) queues-QueuesUsable (omega arith) refl refl refl

-- The queues as the firmware defines them, and variables that the code does not initialise.
abbrev defined : Queues Bounded ℤ
defined = record queues { actuator_data = record { items = []; bound = 16 } }

abbrev uninitialised : Uninitialised ℤ (List CanFrame)
uninitialised = record {
  measured = speeds;
  speed_estimate = speeds;
  rx_msg = supervisor_command 0;
  tx_frame = blank;
  can = [];
}

defined-QueuesDefined : QueuesDefined fixed fixed-FloatLaws bounded bounded-MsgqLaws defined
defined-QueuesDefined = record {
  receiver_data = (refl, refl);
  actuator_data = (refl, refl);
  encoder_rpm = (refl, refl);
  desired_rpm = (refl, refl);
  speed_control_feedback = (refl, refl);
  desired_motion = (refl, refl);
  robot_state = (refl, refl);
  can_desired_motion = (refl, refl);
  supervisor_cmd = (refl, refl);
}

started_run-Ran_example :
    (out : Result fixed bounded bounded-MsgqLaws logging devices) × Ran fixed fixed-FloatLaws
      bounded bounded-MsgqLaws logging devices refl conf-IsConfigured turns
      (defined, threads_init fixed uninitialised)
      out
started_run-Ran_example =
    started_run-Ran fixed fixed-FloatLaws bounded bounded-MsgqLaws logging devices refl
      conf-IsConfigured turns defined uninitialised turns-TimesPass defined-QueuesDefined refl
