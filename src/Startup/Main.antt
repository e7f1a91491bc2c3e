-- ===== src/Startup/Main.antt =====
-- `main` of src/app/tbot/main.c and src/app/rccar/main.c, from the nodes of the device tree on, and
-- `ShowRobotPanic` of src/app/tbot/tbot_interface.c and src/app/rccar/rccar_interface.c.
pub mod Boot
pub mod CarBoot
use robofw.Common.{
  ℕ, zero, suc, Bool, true, false, Option, none, some, List, [], ◌∷◌, ◌++◌, map, ◌==◌,
  if◌then◌else◌,
}
use robofw.Can.{CanDriver, CanDescriptor}
use robofw.Mcal.{HwCall, LedDescriptor, turn_on_led, toggle_led}
use robofw.Mcal.Uart.{UartKernel, UartDriver, UartDescriptor}
use robofw.Mcal.Tables.{Nodes, Descriptions, init_hardware}
use robofw.Startup.{
  Thread, receiver_loop, tbot_actuator_loop, rccar_actuator_loop, encoder_loop, speed_loop,
  motion_loop, messenger_rx_loop, messenger_tx_loop, coordinator_loop,
}
use robofw.Startup.Robot.{TbotStart}
use robofw.Startup.Robot
use robofw.Startup.Car.{CarStart}
use robofw.Startup.Car

infixl 5 ◌>>=◌
abbrev pub ◌>>=◌ : {A B : Type 0} → Option A → (A → Option B) → Option B
none >>= f = none
some a >>= f = f a

-- `GetLedDescriptor` and its kin; `none` where the assertion fails.
abbrev pub get_descriptor : {D : Type 0} → List D → ℕ → Option D
get_descriptor [] i = none
get_descriptor (d ∷ ds) zero = some d
get_descriptor (d ∷ ds) (suc i) = get_descriptor ds i

abbrev pub thread_code : Thread → ℕ
thread_code receiver_loop = 0
thread_code tbot_actuator_loop = 1
thread_code rccar_actuator_loop = 2
thread_code encoder_loop = 3
thread_code speed_loop = 4
thread_code motion_loop = 5
thread_code messenger_rx_loop = 6
thread_code messenger_tx_loop = 7
thread_code coordinator_loop = 8

-- `tconf.tid` of a thread: NULL until it was created.
abbrev pub tid : List Thread → Thread → Option Thread
tid [] t = none
tid (u ∷ us) t = let rest = tid us t in if thread_code t == thread_code u then some u else rest

abbrev pub all_leds : (LedDescriptor → List HwCall) → List LedDescriptor → List HwCall
all_leds f [] = []
all_leds f (d ∷ ds) = f d ++ all_leds f ds

-- `n` turns of the loop that blinks.
abbrev pub blink_all : List LedDescriptor → ℕ → List HwCall
blink_all leds zero = []
blink_all leds (suc n) = all_leds toggle_led leds ++ blink_all leds n

-- The threads that are aborted, and the calls to the lights' pins.
unfoldable pub show_robot_panic :
    List Thread → List Thread → List LedDescriptor → ℕ → List (Option Thread) × List HwCall
unfolding turn_on_led toggle_led
show_robot_panic created to_abort leds n =
    (map (tid created) to_abort, all_leds turn_on_led leds ++ blink_all leds n)

-- What `main` leaves, after `n` turns of the loop that blinks if it panics.
pub record Booted (S T : Type 0) : Type 0 where
  pub start : S
  pub tables : T
  pub calls : List HwCall
  pub aborted : List (Option Thread)

module _ (u : UartKernel) (ud : UartDriver u) (d : CanDriver) where
  -- After `InitRobot`.
  unfoldable pub tbot_after :
      ℕ
      → Descriptions u
      → List HwCall
      → List LedDescriptor
      → TbotStart u ud d
      → Booted (TbotStart u ud d) (Descriptions u)
  unfolding show_robot_panic
  tbot_after n t calls lights s =
      let (aborted, panic_calls) =
        show_robot_panic s.threads
          (receiver_loop ∷ tbot_actuator_loop ∷ coordinator_loop ∷ encoder_loop ∷ messenger_tx_loop
            ∷ messenger_rx_loop ∷ [])
          lights n in
      if s.ok
      then record { start = s; tables = t; calls = calls ++ s.calls; aborted = [] }
      else record {
        start = s;
        tables = t;
        calls = calls ++ s.calls ++ panic_calls;
        aborted = aborted;
      }

  -- After `InitHardware`, whose result and tables it takes.
  unfoldable pub tbot_boot :
      ℕ
      → ℕ
      → Bool × Descriptions u × List HwCall
      → ud.State
      → d.State
      → Option (Booted (TbotStart u ud d) (Descriptions u))
  unfolding Robot.init_robot tbot_after
  tbot_boot n gpio_flags (hardware, t, calls) us cs = do
    led0 ← get_descriptor t.led 0
    led1 ← get_descriptor t.led 1
    led2 ← get_descriptor t.led 2
    uart ← get_descriptor t.uart 0
    can ← get_descriptor t.can 0
    s ← Robot.init_robot u ud d hardware gpio_flags led0 led1 led2 (uart, us) (can, cs)
    some (tbot_after n t calls (led0 ∷ led1 ∷ led2 ∷ []) s)

  unfoldable pub tbot_main :
      ℕ
      → ℕ
      → ℕ
      → Nodes u
      → Descriptions u
      → ud.State
      → d.State
      → Option (Booted (TbotStart u ud d) (Descriptions u))
  unfolding init_hardware tbot_boot
  tbot_main n gpio_output_inactive gpio_flags nodes tables us cs =
      tbot_boot n gpio_flags (init_hardware u gpio_output_inactive nodes tables) us cs

  -- The actuators of the car are never started, but their thread is aborted.
  unfoldable pub rccar_after :
      ℕ
      → Descriptions u
      → List HwCall
      → List LedDescriptor
      → CarStart d u ud
      → Booted (CarStart d u ud) (Descriptions u)
  unfolding show_robot_panic
  rccar_after n t calls lights s =
      let (aborted, panic_calls) =
        show_robot_panic s.threads (receiver_loop ∷ rccar_actuator_loop ∷ []) lights n in
      if s.ok
      then record { start = s; tables = t; calls = calls ++ s.calls; aborted = [] }
      else record {
        start = s;
        tables = t;
        calls = calls ++ s.calls ++ panic_calls;
        aborted = aborted;
      }

  unfoldable pub rccar_boot :
      ℕ
      → ℕ
      → Bool × Descriptions u × List HwCall
      → ud.State
      → d.State
      → Option (Booted (CarStart d u ud) (Descriptions u))
  unfolding Car.init_robot rccar_after
  rccar_boot n gpio_flags (hardware, t, calls) us cs = do
    led0 ← get_descriptor t.led 0
    led1 ← get_descriptor t.led 1
    uart ← get_descriptor t.uart 0
    can ← get_descriptor t.can 0
    let s = Car.init_robot d u ud hardware gpio_flags led0 led1 (uart, us) (can, cs)
    some (rccar_after n t calls (led0 ∷ led1 ∷ []) s)

  unfoldable pub rccar_main :
      ℕ
      → ℕ
      → ℕ
      → Nodes u
      → Descriptions u
      → ud.State
      → d.State
      → Option (Booted (CarStart d u ud) (Descriptions u))
  unfolding init_hardware rccar_boot
  rccar_main n gpio_output_inactive gpio_flags nodes tables us cs =
      rccar_boot n gpio_flags (init_hardware u gpio_output_inactive nodes tables) us cs
