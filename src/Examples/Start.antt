-- ===== src/Examples/Start.antt =====
-- The start of the robot, of the car and of their services on concrete values.
use robofw.Common.{ℕ, ◌≡◌, refl, true, false, none, some, [], ◌∷◌, arith}
use robofw.Common.Floats.{fixed}
use robofw.Common.Msgq.Bounded.{bounded, bounded-MsgqLaws}
use robofw.Mcal.{LedDescriptor}
use robofw.Startup.{
  QueueIn, QueueOut, ControlInterface, MessengerInterface, actr_tbot, actr_rccar, actr_other,
  receiver_loop, tbot_actuator_loop, rccar_actuator_loop, speed_loop, motion_loop, coordinator_loop,
  encoder_loop, messenger_rx_loop, messenger_tx_loop, start_actuator_service, start_encoder_service,
  start_speed_control_service, start_motion_service, start_coordinator_service,
  start_messenger_service,
}
use robofw.Startup.Receiver.{SbusConf, static_conf, start_receiver_service}
use robofw.Startup.Receiver.Ready.{start_receiver_service-FrameTaken}
use robofw.Startup.Threads.{Starts, services-Starts}
use robofw.Startup.Robot.{no_interfaces, init_robot, init_robot_lem}
use robofw.Receiver.Chunks.{FrameTaken}
use robofw.Mcal.Uart.Events.{on_events}
use robofw.Examples.Data.{queue, queue-IsUsable, led, logging, can}
use robofw.Examples.Sbus.{sticks, sticks-AllBelow}
use robofw.Examples.Uart.{plain, plain-UartKernelLaws, counting, uart, pieces}

abbrev into : QueueIn ℕ
into = record { msgq_in = none }

abbrev out : QueueOut ℕ
out = record { msgq_out = none }

abbrev both : ControlInterface ℕ
both = record { command_in = none; feedback_out = none }

abbrev three : MessengerInterface ℕ
three = record { robot_state_in = none; desired_motion_out = none; supervisor_cmd_out = none }

abbrev dark : LedDescriptor
dark = record { active = false; pin = 0 }

-- The inverted line's pin is there in this one.
abbrev sbus : SbusConf plain
sbus = record (static_conf plain uart) {
  dd_dio_inv = some (record { active = true; pin = 7; flags = 0 });
}

init_robot_lem_example :
    init_robot plain counting logging false 3 led led dark (uart, 0) (can, [])
    ≡ some (record {
      ok = false;
      interfaces = no_interfaces;
      threads = [];
      sbus = (static_conf plain uart, 0);
      can = (can, []);
      calls = [];
    })
init_robot_lem_example =
    init_robot_lem plain counting logging false 3 led led dark (uart, 0) (can, [])

services-Starts_example :
    Starts
      (start_receiver_service plain counting {Q = ℕ} 3 true (sbus, 0) (some 1) out).0
      true
      (receiver_loop ∷ [])
    × (actr_tbot ≡ actr_tbot
        → Starts
            (start_actuator_service (some 1) 2 true actr_tbot into)
            true
            (tbot_actuator_loop ∷ []))
    × (actr_tbot ≡ actr_rccar
        → Starts
            (start_actuator_service (some 1) 2 true actr_tbot into)
            true
            (rccar_actuator_loop ∷ []))
    × (actr_tbot ≡ actr_other
        → Starts (start_actuator_service (some 1) 2 true actr_tbot into) false [])
    × Starts (start_encoder_service (some 1) 2 true true out) true (encoder_loop ∷ [])
    × Starts (start_speed_control_service (some 1) none true true both) false (speed_loop ∷ [])
    × Starts (start_motion_service (some 1) none true true both) false (motion_loop ∷ [])
    × Starts (start_coordinator_service true true false) false (coordinator_loop ∷ [])
    × ((r : _) × (start_messenger_service logging
            (some (can, []))
            (some 1)
            none
            (some 2)
            true
            true
            false
            three
          ≡ some r)
        × Starts r.0 false (messenger_rx_loop ∷ messenger_tx_loop ∷ []))
services-Starts_example =
    services-Starts plain counting logging true true false 2 3 (sbus, 0) (can, []) actr_tbot
      (some 1) none (some 2) into out both three

start_receiver_service-FrameTaken_example :
    let (r, (conf2, s2), calls) =
      start_receiver_service plain counting 3 true (sbus, 0) (some 1) out in
    (r.ok ≡ true)
    × ((o : _) × FrameTaken fixed bounded bounded-MsgqLaws plain plain-UartKernelLaws counting 26
          sticks 0
          (on_events plain counting pieces (conf2.dd_uart, s2)).0
          conf2.sbus_decoder
          conf2.sbus_msg_buffer
          queue
          o)
start_receiver_service-FrameTaken_example =
    start_receiver_service-FrameTaken plain plain-UartKernelLaws counting fixed bounded
      bounded-MsgqLaws 3 26 sbus 0 1 out sticks 0 pieces queue
      (record { active = refl; rx = refl; tx = refl }) refl (omega arith) refl sticks-AllBelow
      (omega arith) queue-IsUsable
