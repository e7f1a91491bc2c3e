-- ===== src/Startup/Car.antt =====
-- `InitRobot` of src/app/rccar/rccar_interface.c, the two start functions of
-- src/service/robot_rccar that it calls.
use robofw.Common.{
  ℕ, ◌≡◌, refl, Bool, true, false, not, ◌||◌, Option, none, some, List, [], ◌∷◌, ◌++◌,
  if◌then◌else◌,
}
use robofw.Can.{CanDriver, CanDescriptor, configure_can}
use robofw.Mcal.Uart.{UartKernel, UartDriver, UartDescriptor}
use robofw.Startup.Receiver.{SbusConf, static_conf, invert_line, init_sbus, start_receiver_service}
use robofw.Mcal.{HwCall, LedDescriptor, turn_on_led, turn_off_led}
use robofw.Startup.{
  Thread, receiver_loop, messenger_rx_loop, messenger_tx_loop, coordinator_loop, Started, refused,
  QueueOut, can_filter, can_normal_mode,
}

-- The queues of the file.
pub data CarQueue : Type 0 where
  receiver_data_queue actuator_data_queue robot_state_queue : CarQueue
  rc_desired_motion_queue can_desired_motion_queue : CarQueue

pub record CarMessengerInterface (Q : Type 0) : Type 0 where
  pub robot_state_in : Option Q
  pub desired_motion_in : Option Q

unfoldable pub start_coordinator_service : Bool → Bool → Started Unit
start_coordinator_service has_receiver has_messenger =
    if not has_receiver || not has_messenger
    then refused tt
    else record { ok = true; interface = tt; threads = coordinator_loop ∷ [] }

module _ (d : CanDriver) where
  open d use {State}

  -- The CAN device is `none` where the pointer is NULL. The result of `ConfigureCan` is not read.
  unfoldable pub start_messenger_service :
      {Q : Type 0}
      → Option (CanDescriptor × State)
      → Option Q
      → Option Q
      → CarMessengerInterface Q
      → Started (CarMessengerInterface Q) × Option (CanDescriptor × State)
  start_messenger_service none state motion i = (refused i, none)
  start_messenger_service (some can) none motion i = (refused i, some can)
  start_messenger_service (some can) (some q) none i =
      (refused (record i { robot_state_in = some q }), some can)
  start_messenger_service (some can) (some q) (some q2) i =
      let (done, dd2, s2) = configure_can d can.0 can.1 can_normal_mode 500000 can_filter in
      (
        record {
          ok = true;
          interface = record { robot_state_in = some q; desired_motion_in = some q2 };
          threads = messenger_rx_loop ∷ messenger_tx_loop ∷ [];
        },
        some (dd2, s2),
      )

  module _ (u : UartKernel) (ud : UartDriver u) where
    -- What `InitRobot` leaves.
    pub record CarStart : Type 0 where
      pub ok : Bool
      pub rcvr : QueueOut CarQueue
      pub msger : CarMessengerInterface CarQueue
      pub sbus : SbusConf u × ud.State
      pub can : CanDescriptor × State
      pub threads : List Thread
      pub calls : List HwCall

    -- The messenger and the coordinator, after the receiver.
    unfoldable pub start_links : CarStart → CarStart
    unfolding start_messenger_service start_coordinator_service
    start_links s =
        let (r, can) =
          start_messenger_service (some s.can) (some robot_state_queue)
            (some rc_desired_motion_queue) s.msger in
        let s2 : CarStart = record s {
          msger = r.interface;
          can = elim can [ none ↦ s.can | some c ↦ c ];
          threads = s.threads ++ r.threads;
        } in
        if not r.ok
        then record s2 { ok = false }
        else (let c = start_coordinator_service true true in
            record s2 { ok = c.ok; threads = s2.threads ++ c.threads })

    -- `InitRobot`: `hardware` is the result of `InitHardware`, and `gpio_flags` are those of the pin
    -- that inverts the receiver's line.
    unfoldable pub init_robot :
        Bool
        → ℕ
        → LedDescriptor
        → LedDescriptor
        → UartDescriptor u × ud.State
        → CanDescriptor × State
        → CarStart
    unfolding start_receiver_service start_links turn_on_led turn_off_led
    init_robot hardware gpio_flags led_status led_user1 (dd_uart, us) can =
        let start : CarStart = record {
          ok = true;
          rcvr = record { msgq_out = none };
          msger = record { robot_state_in = none; desired_motion_in = none };
          sbus = (static_conf u dd_uart, us);
          can = can;
          threads = [];
          calls = [];
        } in
        if not hardware
        then record start { ok = false }
        else (let (r, sbus, calls) =
              start_receiver_service u ud gpio_flags true start.sbus (some receiver_data_queue)
                start.rcvr in
            let s : CarStart = record start {
              rcvr = r.interface;
              sbus = sbus;
              threads = r.threads;
              calls = (turn_on_led led_status ++ turn_off_led led_user1) ++ calls;
            } in
            if not r.ok then record s { ok = false } else start_links s)

    -- What a start leaves that succeeds, and one without hardware.
    abbrev pub running :
        LedDescriptor
        → LedDescriptor
        → UartDescriptor u × ud.State
        → CanDescriptor × State
        → CarStart
    running led_status led_user1 uart can = record {
      ok = true;
      rcvr = record { msgq_out = some receiver_data_queue };
      msger = record {
        robot_state_in = some robot_state_queue;
        desired_motion_in = some rc_desired_motion_queue;
      };
      sbus = (let (done, conf, us) = init_sbus u ud (static_conf u uart.0, uart.1) in (conf, us));
      can =
          (let (done, dd, s_can) = configure_can d can.0 can.1 can_normal_mode 500000 can_filter in
            (dd, s_can));
      threads = receiver_loop ∷ messenger_rx_loop ∷ messenger_tx_loop ∷ coordinator_loop ∷ [];
      calls = (turn_on_led led_status ++ turn_off_led led_user1) ++ [];
    }

    abbrev pub idle : UartDescriptor u × ud.State → CanDescriptor × State → CarStart
    idle uart can = record {
      ok = false;
      rcvr = record { msgq_out = none };
      msger = record { robot_state_in = none; desired_motion_in = none };
      sbus = (static_conf u uart.0, uart.1);
      can = can;
      threads = [];
      calls = [];
    }

    -- Without its hardware the car starts no thread and touches neither its lights, its UART nor its
    -- CAN device. With it, it starts, whatever became of the receiver's UART and of the CAN device,
    -- each of which is prepared once; its four threads are created in this order, and no actuator
    -- thread is.
    pub init_robot_starts :
        (hardware : Bool) (gpio_flags : ℕ) (led_status led_user1 : LedDescriptor)
        (uart : UartDescriptor u × ud.State) (can : CanDescriptor × State)
        → init_robot hardware gpio_flags led_status led_user1 uart can
          ≡ (if hardware then running led_status led_user1 uart can else idle uart can)
    unfolding init_robot start_links start_receiver_service start_messenger_service
        start_coordinator_service init_sbus invert_line
    init_robot_starts true gpio_flags led_status led_user1 uart can = refl
    init_robot_starts false gpio_flags led_status led_user1 uart can = refl
