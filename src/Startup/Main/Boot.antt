-- ===== src/Startup/Main/Boot.antt =====
-- What becomes of the robot from the nodes of the device tree on.
use robofw.Common.{
  ℕ, zero, suc, ◌<◌, ◌≡◌, refl, ap, Bool, true, false, ◌&&◌, Option, none, some, List, [], ◌∷◌,
  length, if◌then◌else◌, arith,
}
use mathlib.Core.Path.{subst}
use robofw.Can.{CanDriver, CanDescriptor}
use robofw.Mcal.{HwCall, LedDescriptor}
use robofw.Mcal.Uart.{UartKernel, UartDriver, UartDescriptor}
use robofw.Mcal.Tables.{Nodes, Descriptions, leds, dios, pwms, uarts, cans, encoders, init_hardware}
use robofw.Mcal.Tables.Bound.{all_work}
use robofw.Mcal.Tables.Hardware.{
  led_works, SameSizes, init_hardware-HardwareFilled, init_hardware-SameSizes,
}
use robofw.Startup.{
  Thread, receiver_loop, tbot_actuator_loop, encoder_loop, speed_loop, motion_loop,
  messenger_rx_loop, messenger_tx_loop, coordinator_loop,
}
use robofw.Startup.Robot.{TbotStart, init_robot_lem}
use robofw.Startup.Robot
use robofw.Startup.Main.{
  get_descriptor, show_robot_panic, Booted, ◌>>=◌, tbot_after, tbot_boot, tbot_main,
}

pub get_descriptor_lem :
    {D : Type 0} (ds : List D) (i : ℕ) → i < length ds → (d : D) × (get_descriptor ds i ≡ some d)
get_descriptor_lem [] i h = absurd (omega arith)
get_descriptor_lem (d ∷ ds) zero h = (d, refl)
get_descriptor_lem (d ∷ ds) (suc i) h = get_descriptor_lem ds i (omega arith)

-- Every thread of the robot, in the order of their creation.
abbrev pub tbot_threads : List Thread
tbot_threads =
    receiver_loop ∷ tbot_actuator_loop ∷ encoder_loop ∷ speed_loop ∷ motion_loop ∷ messenger_rx_loop
    ∷ messenger_tx_loop ∷ coordinator_loop ∷ []

-- `n` null pointers.
abbrev pub nulls : ℕ → List (Option Thread)
nulls zero = []
nulls (suc n) = none ∷ nulls n

module _ (u : UartKernel) where
  -- The result of `InitHardware`.
  abbrev pub hardware_works : ℕ → Nodes u → Bool
  hardware_works inactive n =
      all_work (leds inactive) led_works n.led
      && all_work dios (λ x. x.found) n.dio
      && all_work pwms (λ x. x.found) n.pwm
      && all_work (uarts u) (λ x. x.found) n.uart
      && all_work cans (λ x. x.found) n.can
      && all_work encoders (λ x. x.found) n.encoder

  module _ (ud : UartDriver u) (d : CanDriver) where
    -- The start succeeds exactly if the hardware works. Then these threads were created and nothing is
    -- aborted; else no thread was created, and what is aborted is a null pointer, six times.
    pub record TbotBooted (works : Bool) (out : Booted (TbotStart u ud d) (Descriptions u))
        : Type 0 where
      pub result : out.start.ok ≡ works
      pub up : works ≡ true → (out.start.threads ≡ tbot_threads) × (out.aborted ≡ [])
      pub down : works ≡ false → (out.start.threads ≡ []) × (out.aborted ≡ nulls 6)

    tbot_after-TbotBooted :
        (n gpio_flags : ℕ) (hardware : Bool) (t : Descriptions u) (calls : List HwCall)
        (led0 led1 led2 : LedDescriptor) (uart : UartDescriptor u × ud.State)
        (can : CanDescriptor × d.State)
        → TbotBooted hardware (
            tbot_after u ud d n t calls (led0 ∷ led1 ∷ led2 ∷ []) (
              if hardware
              then Robot.running u ud d led0 led1 led2 uart can
              else Robot.idle u ud d uart can))
    unfolding tbot_after show_robot_panic
    tbot_after-TbotBooted n gpio_flags true t calls led0 led1 led2 uart can = record {
      result = refl;
      up = λ h. (refl, refl);
      down = λ h. absurd (ground arith);
    }
    tbot_after-TbotBooted n gpio_flags false t calls led0 led1 led2 uart can = record {
      result = refl;
      up = λ h. absurd (ground arith);
      down = λ h. (refl, refl);
    }

    tbot_boot_lem :
        (n gpio_flags : ℕ) (hardware : Bool) (t : Descriptions u) (calls : List HwCall)
        (us : ud.State) (cs : d.State)
        → 2 < length t.led
        → 0 < length t.uart
        → 0 < length t.can
        → (out : Booted (TbotStart u ud d) (Descriptions u)) × (tbot_boot u ud d n gpio_flags
              (hardware, t, calls)
              us
              cs
            ≡ some out)
          × TbotBooted hardware out
    unfolding tbot_boot
    tbot_boot_lem n gpio_flags hardware t calls us cs leds3 uart1 can1 =
        let (led0, e0) = get_descriptor_lem t.led 0 (omega arith) in
        let (led1, e1) = get_descriptor_lem t.led 1 (omega arith) in
        let (led2, e2) = get_descriptor_lem t.led 2 leds3 in
        let (uart, eu) = get_descriptor_lem t.uart 0 uart1 in
        let (can, ec) = get_descriptor_lem t.can 0 can1 in
        let s =
          if hardware
          then Robot.running u ud d led0 led1 led2 (uart, us) (can, cs)
          else Robot.idle u ud d (uart, us) (can, cs) in
        (
          tbot_after u ud d n t calls (led0 ∷ led1 ∷ led2 ∷ []) s,
          rw (e0, e1, e2, eu, ec)
              (ap (λ o. o >>= λ s. some (tbot_after u ud d n t calls (led0 ∷ led1 ∷ led2 ∷ []) s))
                (init_robot_lem u ud d hardware gpio_flags led0 led1 led2 (uart, us) (can, cs))),
          tbot_after-TbotBooted n gpio_flags hardware t calls led0 led1 led2 (uart, us) (can, cs),
        )

    -- From the nodes of the device tree on, the robot comes up or panics: `main` ends its start, which
    -- succeeds exactly if every node has a device that is found and every light can be configured.
    -- Then the eight threads were created and nothing is aborted. Else no thread was created, and each
    -- of the six that the panic aborts is a null pointer. There are as many nodes as entries in every
    -- table, three lights at least, a UART and a CAN device.
    pub tbot_main-TbotBooted :
        (n inactive gpio_flags : ℕ) (nodes : Nodes u) (tables : Descriptions u) (us : ud.State)
        (cs : d.State)
        → SameSizes u nodes tables
        → 2 < length nodes.led
        → 0 < length nodes.uart
        → 0 < length nodes.can
        → (out : Booted (TbotStart u ud d) (Descriptions u)) × (tbot_main u ud d n inactive
              gpio_flags nodes tables us cs
            ≡ some out)
          × TbotBooted (hardware_works inactive nodes) out
    unfolding tbot_main
    tbot_main-TbotBooted n inactive gpio_flags nodes tables us cs s leds3 uart1 can1 =
        let (hardware, t, calls) = init_hardware u inactive nodes tables in
        let kept = init_hardware-SameSizes u inactive nodes tables s in
        let (out, e, b) =
          tbot_boot_lem n gpio_flags hardware t calls us cs (omega (arith, kept.led, leds3))
            (omega (arith, kept.uart, uart1)) (omega (arith, kept.can, can1)) in
        (
          out,
          e,
          subst (λ works. TbotBooted works out)
              (init_hardware-HardwareFilled u inactive nodes tables s).result b,
        )
