-- ===== src/Examples/Car.antt =====
-- The RC car's services on concrete values.
use robofw.Common.{ℕ, zero, suc, ◌≡◌, refl, true, false, some, List, [], ◌∷◌, replicate, arith}
use robofw.Common.Int.{ℤ, pos, negsuc}
use robofw.Common.Floats.{fixed}
use robofw.Common.Msgq.Bounded.{Bounded, bounded, bounded-MsgqLaws}
use robofw.Mcal.{HwCall}
use robofw.Types.{k_control_mode_rc, k_control_mode_can, k_non_supervised}
use robofw.Rccar.Coordinator.{CarCoordinator, CarPorts, coordinator_init}
use robofw.Rccar.Coordinator.Sends.{CarTurned, car_turn-CarTurned}
use robofw.Rccar.Coordinator.Timeout.{CarSilent, start, turn, car_silent_run}
use robofw.Rccar.Messenger.{CarTxPorts, transmit_turn}
use robofw.Rccar.Messenger.Commands.{Relayed, transmit_turn-Relayed}
use robofw.Can.{CanFrame}
use robofw.Vesc.{vesc_unknown_cmd}
use robofw.Receiver.{scale_channel}
use robofw.Sbus.RoundTrip.{AllBelow, sent_frame}
use robofw.Rccar.System.{
  CarQueues, CarThreads, CarTurn, receiver_reads, frame_arrives, coordinator_turns, messenger_sends,
  run,
}
use robofw.Rccar.System.Run.{CarSound}
use robofw.Rccar.System.Start.{threads_init, started_car-CarSound}
use robofw.Rccar.System.Sticks.{may_drive, Drivable, Answered, car_frame-Answered}
use robofw.Examples.Sbus.{waiting, old}
use robofw.Examples.Data.{queue, holding, queue-IsUsable, led, logging, can, blank, id_29}

abbrev at_start : CarCoordinator ℤ
at_start = coordinator_init fixed

abbrev car_ports : CarPorts Bounded ℤ
car_ports = record { rc_data = queue; motion_in = queue; robot_state_in = queue }

car_turn-CarTurned_example :
    (out : CarCoordinator ℤ × CarPorts Bounded ℤ × List HwCall) × CarTurned fixed bounded
      bounded-MsgqLaws led at_start car_ports out
car_turn-CarTurned_example =
    car_turn-CarTurned fixed bounded bounded-MsgqLaws led at_start car_ports
      (record { motion = queue-IsUsable; state = queue-IsUsable })

-- A silent run of any length, from a car that drives.
abbrev driving : CarCoordinator ℤ
driving = record {
  robot_state = record {
    rc_connected = true;
    estop_triggered = true;
    control_mode = k_control_mode_rc;
    sup_mode = k_non_supervised;
  };
  desired_motion = record { linear = pos 500000; angular = negsuc 0 };
  loop_counter = 25;
  rc_counter = 2;
}

silent_for : (n : ℕ) → (c : CarCoordinator ℤ) × CarSilent fixed bounded led driving n c
silent_for zero = (driving, start)
silent_for (suc n) =
    let (c, run) = silent_for n in
    let (out, t) =
      car_turn-CarTurned fixed bounded bounded-MsgqLaws led c car_ports
        (record { motion = queue-IsUsable; state = queue-IsUsable }) in
    (out.0, turn car_ports out run refl t.ended)

car_silent_run_example :
    ((silent_for 7).0.robot_state.rc_connected ≡ false)
    × ((silent_for 7).0.robot_state.estop_triggered ≡ false)
    × ((silent_for 7).0.robot_state.control_mode ≡ k_control_mode_can)
car_silent_run_example =
    car_silent_run fixed bounded bounded-MsgqLaws led driving {n = 7} (omega arith) (silent_for 7).1
      (omega arith)

abbrev tx_ports : CarTxPorts Bounded ℤ
tx_ports = record {
  robot_state_in = holding (record {
    rc_connected = true;
    estop_triggered = false;
    control_mode = k_control_mode_rc;
    sup_mode = k_non_supervised;
  });
  motion_in = holding (record { linear = pos 500000; angular = pos 250000 });
}

transmit_turn-Relayed_example :
    Relayed fixed id_29 logging can blank refl refl bounded bounded-MsgqLaws
      (tx_ports.robot_state_in.items)
      (tx_ports.motion_in.items)
      []
      (
        (transmit_turn fixed id_29 logging can blank bounded (tx_ports, [])).0.motion_in.items,
        (transmit_turn fixed id_29 logging can blank bounded (tx_ports, [])).1,
      )
transmit_turn-Relayed_example =
    transmit_turn-Relayed fixed id_29 logging can blank refl refl bounded bounded-MsgqLaws tx_ports
      []

-- The car as a whole, with the sticks of a car that may drive.
abbrev go_sticks : List ℕ
go_sticks =
    1023 ∷ 1400 ∷ 1700 ∷ 1023 ∷ 1023 ∷ 1807 ∷ 240 ∷ 1023 ∷ 0 ∷ 0 ∷ 0 ∷ 0 ∷ 0 ∷ 0 ∷ 0 ∷ 0 ∷ []

go_sticks-AllBelow : AllBelow 2048 go_sticks
go_sticks-AllBelow = omega arith

abbrev queues : CarQueues Bounded ℤ
queues = record { receiver_data = queue; robot_state = queue; rc_desired_motion = queue }

abbrev threads : CarThreads ℤ (List CanFrame)
threads = record {
  decoder = waiting;
  sbus_msg = old;
  coordinator = at_start;
  rx_pkt = vesc_unknown_cmd;
  can = [];
}

threads-Drivable :
    Drivable fixed bounded bounded-MsgqLaws id_29 logging can blank refl refl led (queues, threads)
unfolding coordinator_init
threads-Drivable = record {
  received = queue-IsUsable;
  motion = queue-IsUsable;
  state = queue-IsUsable;
  one_received = refl;
  one_state = refl;
  no_motion = refl;
  free = refl;
  waits = refl;
}

-- These sticks drive, and those of a car at rest do not.
go_sticks_drive : may_drive fixed go_sticks ≡ true
unfolding scale_channel
go_sticks_drive = refl

zeros_halt : may_drive fixed (replicate 16 1023) ≡ false
unfolding scale_channel
zeros_halt = refl

car_frame-Answered_example :
    (out : _) × Answered fixed bounded bounded-MsgqLaws id_29 logging can blank refl refl led
      go_sticks 0
      (queues, threads)
      out
car_frame-Answered_example =
    car_frame-Answered fixed bounded bounded-MsgqLaws id_29 logging can blank refl refl led
      go_sticks 0 (queues, threads) threads-Drivable refl go_sticks-AllBelow (omega arith)

abbrev car_turns : List CarTurn
car_turns =
    receiver_reads (sent_frame go_sticks 0)
    ∷ coordinator_turns
    ∷ frame_arrives blank
    ∷ messenger_sends
    ∷ coordinator_turns
    ∷ []

abbrev defined : CarQueues Bounded ℤ
defined = record {
  receiver_data = queue;
  robot_state = queue;
  rc_desired_motion = record { items = []; bound = 2 };
}

started_car-CarSound_example :
    (out : _) × (run fixed id_29 logging can blank led bounded car_turns
        (defined, threads_init fixed vesc_unknown_cmd [])
      ≡ some out)
    × CarSound fixed bounded bounded-MsgqLaws out.0
started_car-CarSound_example =
    started_car-CarSound fixed bounded bounded-MsgqLaws id_29 logging can blank led car_turns
      defined vesc_unknown_cmd []
      (record {
        receiver_data = (refl, refl);
        robot_state = (refl, refl);
        rc_desired_motion = (refl, refl);
      })
