-- ===== src/Startup/Robot.antt =====
-- `InitRobot` of src/app/tbot/tbot_interface.c: the services of the robot, started one after the
-- other, and the queues that they share.
use robofw.Common.{
  ℕ, ◌≡◌, refl, Bool, true, false, not, Option, none, some, List, [], ◌∷◌, ◌++◌, if◌then◌else◌,
}
use robofw.Can.{CanDriver, CanDescriptor, configure_can}
use robofw.Mcal.{HwCall, LedDescriptor, turn_off_led}
use robofw.Mcal.Uart.{UartKernel, UartDriver, UartDescriptor}
use robofw.Startup.Receiver.{SbusConf, static_conf, invert_line, init_sbus, start_receiver_service}
use robofw.Startup.{
  Thread, receiver_loop, encoder_loop, speed_loop, motion_loop, messenger_rx_loop,
  messenger_tx_loop, coordinator_loop, tbot_actuator_loop, Started, QueueOut, QueueIn,
  ControlInterface, MessengerInterface, actr_tbot, can_normal_mode, can_filter,
  start_actuator_service, start_encoder_service, start_speed_control_service, start_motion_service,
  start_messenger_service, start_coordinator_service,
}

-- The queues of the file.
pub data TbotQueue : Type 0 where
  receiver_data_queue actuator_data_queue encoder_rpm_queue desired_rpm_queue : TbotQueue
  speed_control_feedback_queue desired_motion_queue motion_control_feedback_queue : TbotQueue
  robot_state_queue can_desired_motion_queue supervisor_cmd_queue : TbotQueue

-- The interfaces of the static service definitions.
pub record TbotInterfaces : Type 0 where
  pub rcvr : QueueOut TbotQueue
  pub actr : QueueIn TbotQueue
  pub encoder : QueueOut TbotQueue
  pub spdcon : ControlInterface TbotQueue
  pub motioncon : ControlInterface TbotQueue
  pub msger : MessengerInterface TbotQueue

-- Static variables start as zero.
abbrev pub no_interfaces : TbotInterfaces
no_interfaces = record {
  rcvr = record { msgq_out = none };
  actr = record { msgq_in = none };
  encoder = record { msgq_out = none };
  spdcon = record { command_in = none; feedback_out = none };
  motioncon = record { command_in = none; feedback_out = none };
  msger = record { robot_state_in = none; desired_motion_out = none; supervisor_cmd_out = none };
}

module _ (u : UartKernel) (ud : UartDriver u) (d : CanDriver) where
  -- What `InitRobot` leaves, with the receiver's UART, the CAN device and the calls to the pins.
  pub record TbotStart : Type 0 where
    pub ok : Bool
    pub interfaces : TbotInterfaces
    pub threads : List Thread
    pub sbus : SbusConf u × ud.State
    pub can : CanDescriptor × d.State
    pub calls : List HwCall

  -- One service after the others: the next step runs only if it started.
  abbrev and_then :
      {I : Type 0}
      → Started I
      → (I → TbotInterfaces → TbotInterfaces)
      → TbotStart
      → (TbotStart → Option TbotStart)
      → Option TbotStart
  and_then r store s next =
      let stored : TbotStart = record s {
        ok = r.ok;
        interfaces = store r.interface s.interfaces;
        threads = s.threads ++ r.threads;
      } in
      let rest = next stored in if not r.ok then some stored else rest

  -- The last two steps, of which the first may follow a null pointer.
  unfoldable pub start_links : TbotStart → Option TbotStart
  unfolding start_messenger_service start_coordinator_service
  start_links s =
      elim (start_messenger_service d (some s.can) (some robot_state_queue)
        (some can_desired_motion_queue) (some supervisor_cmd_queue) true true true
        s.interfaces.msger) [
          | none ↦ none
          | some (r, dd, s_can) ↦
              and_then r (λ i t. record t { msger = i }) (record s { can = (dd, s_can) })
                (λ s2.
                  and_then (start_coordinator_service true true true) (λ i t. t) s2 (λ s3. some s3))
        ]

  -- `InitRobot`: `hardware` is the result of `InitHardware`, and `gpio_flags` are those of the pin that
  -- inverts the receiver's line. The descriptors that it takes are addresses of variables, so never NULL.
  unfoldable pub init_robot :
      Bool
      → ℕ
      → LedDescriptor
      → LedDescriptor
      → LedDescriptor
      → UartDescriptor u × ud.State
      → CanDescriptor × d.State
      → Option TbotStart
  unfolding turn_off_led start_receiver_service start_actuator_service start_encoder_service
      start_speed_control_service start_motion_service start_links
  init_robot hardware gpio_flags led_status led_user1 led_user2 (dd_uart, us) can =
      let start : TbotStart = record {
        ok = true;
        interfaces = no_interfaces;
        threads = [];
        sbus = (static_conf u dd_uart, us);
        can = can;
        calls = [];
      } in
      if not hardware
      then some (record start { ok = false })
      else (let (r, sbus, calls) =
            start_receiver_service u ud gpio_flags true start.sbus (some receiver_data_queue)
              start.interfaces.rcvr in
          let lights =
            turn_off_led led_status ++ turn_off_led led_user1 ++ turn_off_led led_user2 in
          and_then r (λ i t. record t { rcvr = i })
            (record start { sbus = sbus; calls = lights ++ calls })
            (λ s1.
              and_then
                (start_actuator_service (some actuator_data_queue) 2 true actr_tbot
                  s1.interfaces.actr)
                (λ i t. record t { actr = i }) s1
                (λ s2.
                  and_then
                    (start_encoder_service (some encoder_rpm_queue) 2 true true
                      s2.interfaces.encoder)
                    (λ i t. record t { encoder = i }) s2
                    (λ s3.
                      and_then
                        (start_speed_control_service (some desired_rpm_queue)
                          (some speed_control_feedback_queue) true true s3.interfaces.spdcon)
                        (λ i t. record t { spdcon = i }) s3
                        (λ s4.
                          and_then
                            (start_motion_service (some desired_motion_queue)
                              (some motion_control_feedback_queue) true true
                              s4.interfaces.motioncon)
                            (λ i t. record t { motioncon = i }) s4 start_links)))))

  -- Every service has the queues that are meant for it.
  abbrev pub all_connected : TbotInterfaces
  all_connected = record {
    rcvr = record { msgq_out = some receiver_data_queue };
    actr = record { msgq_in = some actuator_data_queue };
    encoder = record { msgq_out = some encoder_rpm_queue };
    spdcon = record {
      command_in = some desired_rpm_queue;
      feedback_out = some speed_control_feedback_queue;
    };
    motioncon = record {
      command_in = some desired_motion_queue;
      feedback_out = some motion_control_feedback_queue;
    };
    msger = record {
      robot_state_in = some robot_state_queue;
      desired_motion_out = some can_desired_motion_queue;
      supervisor_cmd_out = some supervisor_cmd_queue;
    };
  }

  -- What a start leaves that succeeds, and one without hardware.
  abbrev pub running :
      LedDescriptor
      → LedDescriptor
      → LedDescriptor
      → UartDescriptor u × ud.State
      → CanDescriptor × d.State
      → TbotStart
  running led_status led_user1 led_user2 uart can = record {
    ok = true;
    interfaces = all_connected;
    threads =
        receiver_loop ∷ tbot_actuator_loop ∷ encoder_loop ∷ speed_loop ∷ motion_loop
        ∷ messenger_rx_loop ∷ messenger_tx_loop ∷ coordinator_loop ∷ [];
    sbus = (let (done, conf, us) = init_sbus u ud (static_conf u uart.0, uart.1) in (conf, us));
    can =
        (let (done, dd, s_can) = configure_can d can.0 can.1 can_normal_mode 500000 can_filter in
          (dd, s_can));
    calls = (turn_off_led led_status ++ turn_off_led led_user1 ++ turn_off_led led_user2) ++ [];
  }

  abbrev pub idle : UartDescriptor u × ud.State → CanDescriptor × d.State → TbotStart
  idle uart can = record {
    ok = false;
    interfaces = no_interfaces;
    threads = [];
    sbus = (static_conf u uart.0, uart.1);
    can = can;
    calls = [];
  }

  -- Without its hardware the robot starts no thread and touches neither its lights, its UART nor its
  -- CAN device. With it, it starts, whatever became of the receiver's UART and of the CAN device, each
  -- of which is prepared once; its eight threads are created in this order, once each, every service
  -- has the queues that are meant for it, and the three lights are off.
  pub init_robot_lem :
      (hardware : Bool) (gpio_flags : ℕ) (led_status led_user1 led_user2 : LedDescriptor)
      (uart : UartDescriptor u × ud.State) (can : CanDescriptor × d.State)
      → init_robot hardware gpio_flags led_status led_user1 led_user2 uart can
        ≡ some (if hardware then running led_status led_user1 led_user2 uart can else idle uart can)
  unfolding init_robot start_links start_receiver_service start_actuator_service
      start_encoder_service start_speed_control_service start_motion_service start_messenger_service
      start_coordinator_service init_sbus invert_line
  init_robot_lem true gpio_flags led_status led_user1 led_user2 uart can = refl
  init_robot_lem false gpio_flags led_status led_user1 led_user2 uart can = refl
