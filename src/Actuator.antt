-- ===== src/Actuator.antt =====
-- src/service/common/actuator: from commands to what the motors' pins and PWM channels get. A loop's
-- turn is a function from the command to the driver calls, in order.
pub mod RcCar
pub mod Tbot
pub mod Safety
use robofw.Common.{ℕ, ◌*◌, Bool, true, false, ◌&&◌, List, [], ◌∷◌, ◌++◌, if◌then◌else◌, bit_or}
use robofw.Common.Int.{ℤ, pos}
use robofw.Common.Floats.{Floats}
use robofw.Mcal.{HwCall, DioDescriptor, PwmDescriptor, configure_dio, set_dio, set_pwm_duty_cycle}
use robofw.Types.{ActuatorCmd}

module _ (f : Floats) where
  open f use {
    F32, of_int, of_int64, lit32, lit64, neg32, neg64, add32, sub32, lt32, lt64, widen, narrow,
  }

  -- The dead zone and the two ends. The constants are of type `double`.
  abbrev pub without_dead_zone : F32 → F32
  without_dead_zone input =
      if lt64 (neg64 (lit64 5 100)) (widen input) && lt64 (widen input) (lit64 5 100)
      then narrow (lit64 0 1)
      else input

  abbrev pub within_ends : F32 → F32
  within_ends cmd =
      let lowered = if lt64 (lit64 99 100) (widen cmd) then narrow (lit64 99 100) else cmd in
      if lt64 (widen lowered) (neg64 (lit64 99 100)) then narrow (neg64 (lit64 99 100)) else lowered
