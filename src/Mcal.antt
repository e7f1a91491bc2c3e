-- ===== src/Mcal.antt =====
-- src/module/mcal: the LED, DIO and PWM devices. What they ask of Zephyr's drivers is a list of calls,
-- in order; the firmware reads no result of them.
pub mod Duty
pub mod Uart
pub mod Tables
use robofw.Common.{ℕ, Bool, true, false, not, List, [], ◌∷◌, if◌then◌else◌}
use robofw.Common.Int.{ℤ, pos}
use robofw.Common.Floats.{Floats}

-- A driver call. The device is named by its pin or channel.
pub data HwCall : Type 0 where
  gpio_pin_configure : ℕ → ℕ → HwCall
  gpio_pin_set : ℕ → ℕ → HwCall
  gpio_pin_toggle : ℕ → HwCall
  -- channel, period, pulse width and flags
  pwm_pin_set_usec : ℕ → ℕ → ℤ → ℕ → HwCall

pub record LedDescriptor : Type 0 where
  pub active : Bool
  pub pin : ℕ

unfoldable pub turn_on_led : LedDescriptor → List HwCall
turn_on_led dd = if not dd.active then [] else gpio_pin_set dd.pin 1 ∷ []

unfoldable pub turn_off_led : LedDescriptor → List HwCall
turn_off_led dd = if not dd.active then [] else gpio_pin_set dd.pin 0 ∷ []

unfoldable pub toggle_led : LedDescriptor → List HwCall
toggle_led dd = if not dd.active then [] else gpio_pin_toggle dd.pin ∷ []

pub record DioDescriptor : Type 0 where
  pub active : Bool
  pub pin : ℕ
  pub flags : ℕ

unfoldable pub configure_dio : DioDescriptor → ℕ → List HwCall
configure_dio dd flags = if not dd.active then [] else gpio_pin_configure dd.pin flags ∷ []

unfoldable pub set_dio : DioDescriptor → ℕ → List HwCall
set_dio dd value = if not dd.active then [] else gpio_pin_set dd.pin value ∷ []

unfoldable pub toggle_dio : DioDescriptor → List HwCall
toggle_dio dd = if not dd.active then [] else gpio_pin_toggle dd.pin ∷ []

pub record PwmDescriptor : Type 0 where
  pub active : Bool
  pub channel : ℕ
  pub period : ℕ
  pub flags : ℕ

module _ (f : Floats) where
  open f use {F32, of_int, lt32, mul32, trunc32}

  -- The two tests of `SetPwmDutyCycle`.
  unfoldable pub limit_duty_cycle : F32 → F32
  limit_duty_cycle duty_cycle =
      let raised = if lt32 duty_cycle (of_int (pos 0)) then of_int (pos 0) else duty_cycle in
      if lt32 (of_int (pos 1)) raised then of_int (pos 1) else raised

  -- The pulse is the product of `uint32_t` and `float`, cut to an integer.
  unfoldable pub set_pwm_duty_cycle : PwmDescriptor → F32 → List HwCall
  unfolding limit_duty_cycle
  set_pwm_duty_cycle dd duty_cycle =
      if not dd.active
      then []
      else pwm_pin_set_usec dd.channel dd.period
          (trunc32 (mul32 (of_int (pos dd.period)) (limit_duty_cycle duty_cycle))) dd.flags
        ∷ []
