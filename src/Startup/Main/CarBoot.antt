-- ===== src/Startup/Main/CarBoot.antt =====
-- What becomes of the car from the nodes of the device tree on.
use robofw.Common.{
  ℕ, ◌<◌, ◌≡◌, refl, ap, Bool, true, false, some, List, [], ◌∷◌, length, if◌then◌else◌, arith,
}
use mathlib.Core.Path.{subst}
use robofw.Can.{CanDriver, CanDescriptor}
use robofw.Mcal.{HwCall, LedDescriptor}
use robofw.Mcal.Uart.{UartKernel, UartDriver, UartDescriptor}
use robofw.Mcal.Tables.{Nodes, Descriptions, init_hardware}
use robofw.Mcal.Tables.Hardware.{SameSizes, init_hardware-HardwareFilled, init_hardware-SameSizes}
use robofw.Startup.{Thread, receiver_loop, messenger_rx_loop, messenger_tx_loop, coordinator_loop}
use robofw.Startup.Car.{CarStart, init_robot_starts}
use robofw.Startup.Car
use robofw.Startup.Main.{show_robot_panic, Booted, rccar_after, rccar_boot, rccar_main}
use robofw.Startup.Main.Boot.{get_descriptor_lem, nulls, hardware_works}

abbrev pub rccar_threads : List Thread
rccar_threads = receiver_loop ∷ messenger_rx_loop ∷ messenger_tx_loop ∷ coordinator_loop ∷ []

module _ (u : UartKernel) (ud : UartDriver u) (d : CanDriver) where
  -- What `main` of the car leaves.
  pub record CarBooted (works : Bool) (out : Booted (CarStart d u ud) (Descriptions u))
      : Type 0 where
    pub result : out.start.ok ≡ works
    pub up : works ≡ true → (out.start.threads ≡ rccar_threads) × (out.aborted ≡ [])
    pub down : works ≡ false → (out.start.threads ≡ []) × (out.aborted ≡ nulls 2)

  rccar_after-CarBooted :
      (n : ℕ) (hardware : Bool) (t : Descriptions u) (calls : List HwCall)
      (led0 led1 : LedDescriptor) (uart : UartDescriptor u × ud.State)
      (can : CanDescriptor × d.State)
      → CarBooted hardware (
          rccar_after u ud d n t calls
            (led0 ∷ led1 ∷ [])
            (if hardware then Car.running d u ud led0 led1 uart can else Car.idle d u ud uart can))
  unfolding rccar_after show_robot_panic
  rccar_after-CarBooted n true t calls led0 led1 uart can = record {
    result = refl;
    up = λ h. (refl, refl);
    down = λ h. absurd (ground arith);
  }
  rccar_after-CarBooted n false t calls led0 led1 uart can = record {
    result = refl;
    up = λ h. absurd (ground arith);
    down = λ h. (refl, refl);
  }

  rccar_boot_lem :
      (n gpio_flags : ℕ) (hardware : Bool) (t : Descriptions u) (calls : List HwCall)
      (us : ud.State) (cs : d.State)
      → 1 < length t.led
      → 0 < length t.uart
      → 0 < length t.can
      → (out : Booted (CarStart d u ud) (Descriptions u)) × (rccar_boot u ud d n gpio_flags
            (hardware, t, calls)
            us
            cs
          ≡ some out)
        × CarBooted hardware out
  unfolding rccar_boot
  rccar_boot_lem n gpio_flags hardware t calls us cs leds2 uart1 can1 =
      let (led0, e0) = get_descriptor_lem t.led 0 (omega arith) in
      let (led1, e1) = get_descriptor_lem t.led 1 leds2 in
      let (uart, eu) = get_descriptor_lem t.uart 0 uart1 in
      let (can, ec) = get_descriptor_lem t.can 0 can1 in
      let s =
        if hardware
        then Car.running d u ud led0 led1 (uart, us) (can, cs)
        else Car.idle d u ud (uart, us) (can, cs) in
      (
        rccar_after u ud d n t calls (led0 ∷ led1 ∷ []) s,
        rw (e0, e1, eu, ec)
            (ap (λ s. some (rccar_after u ud d n t calls (led0 ∷ led1 ∷ []) s))
              (init_robot_starts d u ud hardware gpio_flags led0 led1 (uart, us) (can, cs))),
        rccar_after-CarBooted n hardware t calls led0 led1 (uart, us) (can, cs),
      )

  -- From the nodes of the device tree on, the car comes up or panics: `main` ends its start, which
  -- succeeds exactly if every node has a device that is found and every light can be configured.
  -- Then the four threads were created and nothing is aborted. Else no thread was created, and both
  -- that the panic aborts are null pointers. There are as many nodes as entries in every table, two
  -- lights at least, a UART and a CAN device.
  pub rccar_main-CarBooted :
      (n inactive gpio_flags : ℕ) (nodes : Nodes u) (tables : Descriptions u) (us : ud.State)
      (cs : d.State)
      → SameSizes u nodes tables
      → 1 < length nodes.led
      → 0 < length nodes.uart
      → 0 < length nodes.can
      → (out : Booted (CarStart d u ud) (Descriptions u)) × (rccar_main u ud d n inactive gpio_flags
            nodes tables us cs
          ≡ some out)
        × CarBooted (hardware_works u inactive nodes) out
  unfolding rccar_main
  rccar_main-CarBooted n inactive gpio_flags nodes tables us cs s leds2 uart1 can1 =
      let (hardware, t, calls) = init_hardware u inactive nodes tables in
      let kept = init_hardware-SameSizes u inactive nodes tables s in
      let (out, e, b) =
        rccar_boot_lem n gpio_flags hardware t calls us cs (omega (arith, kept.led, leds2))
          (omega (arith, kept.uart, uart1)) (omega (arith, kept.can, can1)) in
      (
        out,
        e,
        subst (λ works. CarBooted works out)
            (init_hardware-HardwareFilled u inactive nodes tables s).result b,
      )
