-- ===== src/Startup/Threads.antt =====
-- No service that refuses to start leaves a thread behind.
use robofw.Common.{
  ℕ, ◌≡◌, refl, Bool, true, false, ◌&&◌, ◌||◌, Option, none, some, List, [], ◌∷◌, ltb, leb, arith,
}
use robofw.Can.{CanDriver, CanDescriptor}
use robofw.Mcal.Uart.{UartKernel, UartDriver}
use robofw.Startup.Receiver.{SbusConf, init_sbus, start_receiver_service}
use robofw.Startup.{
  Thread, receiver_loop, encoder_loop, speed_loop, motion_loop, messenger_rx_loop,
  messenger_tx_loop, coordinator_loop, tbot_actuator_loop, rccar_actuator_loop, Started, QueueOut,
  QueueIn, ControlInterface, MessengerInterface, ActuatorType, actr_tbot, actr_rccar, actr_other,
  start_actuator_service, start_encoder_service, start_speed_control_service, start_motion_service,
  start_messenger_service, start_coordinator_service,
}

abbrev is_set : {Q : Type 0} → Option Q → Bool
is_set none = false
is_set (some q) = true

-- The start succeeds exactly under the condition; it then creates these threads, and else none.
abbrev pub Starts : {I : Type 0} → Started I → Bool → List Thread → Type 0
Starts r condition threads =
    (r.ok ≡ condition)
    × (condition ≡ false → r.threads ≡ [])
    × (condition ≡ true → r.threads ≡ threads)

module _ {Q : Type 0} (u : UartKernel) (ud : UartDriver u) (d : CanDriver) where
  start_encoder-Starts :
      (n : ℕ) (b0 b1 : Bool) (q : Option Q) (i : QueueOut Q)
      → Starts
          (start_encoder_service q n b0 b1 i)
          (is_set q && (ltb 0 n && ltb n 3) && (b0 && (leb n 1 || b1)))
          (encoder_loop ∷ [])
  unfolding start_encoder_service
  start_encoder-Starts n b0 b1 q i = ground arith

  start_actuator-Starts :
      (n : ℕ) (b0 : Bool) (t : ActuatorType) (q : Option Q) (i : QueueIn Q)
      → (t ≡ actr_tbot
          → Starts
              (start_actuator_service q n b0 t i)
              (is_set q && (ltb 0 n && ltb n 3) && b0)
              (tbot_actuator_loop ∷ []))
        × (t ≡ actr_rccar
            → Starts
                (start_actuator_service q n b0 t i)
                (is_set q && (ltb 0 n && ltb n 3) && b0)
                (rccar_actuator_loop ∷ []))
        × (t ≡ actr_other → Starts (start_actuator_service q n b0 t i) false [])
  unfolding start_actuator_service
  start_actuator-Starts n b0 t q i = ground arith

  start_control-Starts :
      (b0 b1 : Bool) (q q2 : Option Q) (i : ControlInterface Q)
      → Starts
          (start_speed_control_service q q2 b0 b1 i)
          (is_set q && is_set q2 && b0 && b1)
          (speed_loop ∷ [])
        × Starts
            (start_motion_service q q2 b0 b1 i)
            (is_set q && is_set q2 && b0 && b1)
            (motion_loop ∷ [])
  unfolding start_speed_control_service start_motion_service
  start_control-Starts b0 b1 q q2 i = ground arith

  start_messenger-Starts :
      (b0 b1 b2 : Bool) (can : CanDescriptor × d.State) (q q2 q3 : Option Q)
      (i : MessengerInterface Q)
      → (r : Started (MessengerInterface Q) × CanDescriptor × d.State) × (start_messenger_service d
            (some can)
            q
            q2
            q3
            b0
            b1
            b2
            i
          ≡ some r)
        × Starts r.0
            (is_set q && is_set q2 && is_set q3 && b0 && b1 && b2)
            (messenger_rx_loop ∷ messenger_tx_loop ∷ [])
  unfolding start_messenger_service
  start_messenger-Starts b0 b1 b2 can none q2 q3 i = (_, refl, ground arith)
  start_messenger-Starts b0 b1 b2 can (some q) none q3 i = (_, refl, ground arith)
  start_messenger-Starts b0 b1 b2 can (some q) (some q2) none i = (_, refl, ground arith)
  start_messenger-Starts b0 b1 b2 can (some q) (some q2) (some q3) i = (_, refl, ground arith)

  start_rest-Starts :
      (gpio_flags : ℕ) (b0 b1 b2 : Bool) (sbus : SbusConf u × ud.State) (q : Option Q)
      (o : QueueOut Q)
      → Starts
          (start_receiver_service u ud gpio_flags b0 sbus q o).0
          (b0 && is_set q)
          (receiver_loop ∷ [])
        × Starts (start_coordinator_service b0 b1 b2) (b0 && b1 && b2) (coordinator_loop ∷ [])
  unfolding start_receiver_service start_coordinator_service init_sbus
  start_rest-Starts gpio_flags b0 b1 b2 sbus q o = ground arith

  -- Every service starts exactly when what it tests is set: its queues, the structures that it depends
  -- on, its configuration, one or two motors or encoders, and a known kind of receiver or actuators.
  -- A start that is refused creates no thread; one that succeeds creates the service's threads. The
  -- messenger is given a CAN device.
  pub services-Starts :
      (b0 b1 b2 : Bool) (n gpio_flags : ℕ) (sbus : SbusConf u × ud.State)
      (can : CanDescriptor × d.State) (t : ActuatorType) (q q2 q3 : Option Q) (qi : QueueIn Q)
      (qo : QueueOut Q) (ci : ControlInterface Q) (mi : MessengerInterface Q)
      → Starts
          (start_receiver_service u ud gpio_flags b0 sbus q qo).0
          (b0 && is_set q)
          (receiver_loop ∷ [])
        × (t ≡ actr_tbot
            → Starts
                (start_actuator_service q n b0 t qi)
                (is_set q && (ltb 0 n && ltb n 3) && b0)
                (tbot_actuator_loop ∷ []))
        × (t ≡ actr_rccar
            → Starts
                (start_actuator_service q n b0 t qi)
                (is_set q && (ltb 0 n && ltb n 3) && b0)
                (rccar_actuator_loop ∷ []))
        × (t ≡ actr_other → Starts (start_actuator_service q n b0 t qi) false [])
        × Starts
            (start_encoder_service q n b0 b1 qo)
            (is_set q && (ltb 0 n && ltb n 3) && (b0 && (leb n 1 || b1)))
            (encoder_loop ∷ [])
        × Starts
            (start_speed_control_service q q2 b0 b1 ci)
            (is_set q && is_set q2 && b0 && b1)
            (speed_loop ∷ [])
        × Starts
            (start_motion_service q q2 b0 b1 ci)
            (is_set q && is_set q2 && b0 && b1)
            (motion_loop ∷ [])
        × Starts (start_coordinator_service b0 b1 b2) (b0 && b1 && b2) (coordinator_loop ∷ [])
        × ((r : Started (MessengerInterface Q) × CanDescriptor × d.State) × (start_messenger_service
                d
                (some can)
                q
                q2
                q3
                b0
                b1
                b2
                mi
              ≡ some r)
            × Starts r.0
                (is_set q && is_set q2 && is_set q3 && b0 && b1 && b2)
                (messenger_rx_loop ∷ messenger_tx_loop ∷ []))
  services-Starts b0 b1 b2 n gpio_flags sbus can t q q2 q3 qi qo ci mi =
      let rest = start_rest-Starts gpio_flags b0 b1 b2 sbus q qo in
      let act = start_actuator-Starts n b0 t q qi in
      let con = start_control-Starts b0 b1 q q2 ci in
      (
        rest.0,
        act.0,
        act.1,
        act.2,
        start_encoder-Starts n b0 b1 q qo,
        con.0,
        con.1,
        rest.1,
        start_messenger-Starts b0 b1 b2 can q q2 q3 mi,
      )
