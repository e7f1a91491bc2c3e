-- ===== src/Mcal/Duty.antt =====
-- What the PWM devices are asked for. A NaN passes both tests of `SetPwmDutyCycle`, so what it asks for
-- is in [0, 1] if it is asked for a number, and else just neither below 0 nor above 1.
use robofw.Common.{ℕ, ◌≡◌, true, false, List, [], ◌∷◌, ◌++◌, Bool-cases, inl, inr, arith}
use robofw.Common.Int.{pos}
use robofw.Common.Floats.{Floats, FloatLaws, IsNumber, NumberLaws}
use robofw.Mcal.{
  HwCall, gpio_pin_configure, gpio_pin_set, gpio_pin_toggle, pwm_pin_set_usec, LedDescriptor,
  toggle_led, DioDescriptor, configure_dio, set_dio, PwmDescriptor, limit_duty_cycle,
  set_pwm_duty_cycle,
}

module _ (f : Floats) where
  open f use {F32, of_int, lt32, le32, mul32, trunc32}

  -- At least 0 and at most 1.
  abbrev pub DutyInUnit : F32 → Type 0
  DutyInUnit d = (le32 (of_int (pos 0)) d ≡ true) × (le32 d (of_int (pos 1)) ≡ true)

  -- Not below 0 and not above 1: in [0, 1], or a NaN.
  abbrev pub DutyNotOutside : F32 → Type 0
  DutyNotOutside d = (lt32 d (of_int (pos 0)) ≡ false) × (lt32 (of_int (pos 1)) d ≡ false)

  module _ (P : F32 → Type 0) where
    -- A call that moves no PWM channel, or asks for the part of its period that such a duty cycle is.
    pub data CallWithin : HwCall → Type 0 where
      configures : (pin flags : ℕ) → CallWithin (gpio_pin_configure pin flags)
      sets : (pin value : ℕ) → CallWithin (gpio_pin_set pin value)
      toggles : (pin : ℕ) → CallWithin (gpio_pin_toggle pin)
      pulses :
          (channel period flags : ℕ) (d : F32)
          → P d
          → CallWithin
              (pwm_pin_set_usec channel period (trunc32 (mul32 (of_int (pos period)) d)) flags)

    pub data AllWithin : List HwCall → Type 0 where
      done : AllWithin []
      next :
          {call : HwCall} {calls : List HwCall}
          → CallWithin call
          → AllWithin calls
          → AllWithin (call ∷ calls)

  abbrev pub AllInUnit : List HwCall → Type 0
  AllInUnit = AllWithin DutyInUnit

  abbrev pub AllSafe : List HwCall → Type 0
  AllSafe = AllWithin DutyNotOutside

  module _ {P : F32 → Type 0} where
    pub AllWithin-append :
        {xs ys : List HwCall} → AllWithin P xs → AllWithin P ys → AllWithin P (xs ++ ys)
    AllWithin-append done h = h
    AllWithin-append (next c cs) h = next c (AllWithin-append cs h)

    pub configure_dio-AllWithin :
        (dd : DioDescriptor) (flags : ℕ) → AllWithin P (configure_dio dd flags)
    unfolding configure_dio
    configure_dio-AllWithin dd flags = elim (Bool-cases dd.active) [
      | inl e ↦ rw e (next (configures dd.pin flags) done)
      | inr e ↦ rw e done
    ]

    pub set_dio-AllWithin : (dd : DioDescriptor) (value : ℕ) → AllWithin P (set_dio dd value)
    unfolding set_dio
    set_dio-AllWithin dd value = elim (Bool-cases dd.active) [
      | inl e ↦ rw e (next (sets dd.pin value) done)
      | inr e ↦ rw e done
    ]

    pub toggle_led-AllWithin : (dd : LedDescriptor) → AllWithin P (toggle_led dd)
    unfolding toggle_led
    toggle_led-AllWithin dd = elim (Bool-cases dd.active) [
      | inl e ↦ rw e (next (toggles dd.pin) done)
      | inr e ↦ rw e done
    ]

    pub set_pwm_duty_cycle-AllWithin :
        (dd : PwmDescriptor) (d : F32)
        → P (limit_duty_cycle f d)
        → AllWithin P (set_pwm_duty_cycle f dd d)
    unfolding set_pwm_duty_cycle
    set_pwm_duty_cycle-AllWithin dd d h = elim (Bool-cases dd.active) [
      | inl e ↦ rw e (next (pulses dd.channel dd.period dd.flags (limit_duty_cycle f d) h) done)
      | inr e ↦ rw e done
    ]

  module _ (laws : FloatLaws f) where
    open laws use {lt32_irrefl, lt32_of_int}

    -- The duty cycle that is used is not outside [0, 1], and one that is not outside is kept.
    pub limit_duty_cycle-DutyNotOutside :
        (d : F32)
        → DutyNotOutside (limit_duty_cycle f d) × (DutyNotOutside d → limit_duty_cycle f d ≡ d)
    unfolding limit_duty_cycle
    limit_duty_cycle-DutyNotOutside d = ground (
      arith,
      lt32_irrefl (of_int (pos 0)),
      lt32_irrefl (of_int (pos 1)),
      lt32_of_int (pos 0) (pos 1) (omega arith),
    )

    -- The duty cycle that is used for a number is in [0, 1].
    pub limit_duty_cycle-DutyInUnit :
        (numbers : NumberLaws f) (d : F32) → IsNumber f d → DutyInUnit (limit_duty_cycle f d)
    unfolding limit_duty_cycle
    limit_duty_cycle-DutyInUnit numbers d h =
        let zero_number = numbers.of_int-IsNumber (pos 0) in
        let one_number = numbers.of_int-IsNumber (pos 1) in
        let zero_one =
          numbers.le32_total (of_int (pos 0)) (of_int (pos 1)) zero_number one_number
            (lt32_of_int (pos 0) (pos 1) (omega arith)) in
        elim (Bool-cases (lt32 d (of_int (pos 0)))) [
          | inl below ↦ elim (Bool-cases (lt32 (of_int (pos 1)) (of_int (pos 0)))) [
            | inl e ↦ rw (below, e) (zero_one, one_number)
            | inr e ↦ rw (below, e) (zero_number, zero_one)
          ]
          | inr low ↦ elim (Bool-cases (lt32 (of_int (pos 1)) d)) [
            | inl above ↦ rw (low, above) (zero_one, one_number)
            | inr high ↦
                rw (low, high)
                  (
                    numbers.le32_total (of_int (pos 0)) d zero_number h low,
                    numbers.le32_total d (of_int (pos 1)) h one_number high,
                  )
          ]
        ]
