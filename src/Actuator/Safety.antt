-- ===== src/Actuator/Safety.antt =====
-- What the actuators ask the devices for, whatever command arrives, and at the start.
use robofw.Common.{ℕ, Bool, true, false, Bool-cases, inl, inr, if◌then◌else◌, arith}
use robofw.Common.Int.{pos}
use robofw.Common.Floats.{Floats, FloatLaws, IsNumber, NumberLaws}
use robofw.Mcal.{DioDescriptor, PwmDescriptor, limit_duty_cycle}
use robofw.Mcal.Duty.{
  AllWithin, AllInUnit, AllSafe, AllWithin-append, configure_dio-AllWithin, set_dio-AllWithin,
  set_pwm_duty_cycle-AllWithin, limit_duty_cycle-DutyNotOutside, limit_duty_cycle-DutyInUnit,
}
use robofw.Types.{ActuatorCmd}
use robofw.Actuator.{without_dead_zone, within_ends}
use robofw.Actuator.RcCar
use robofw.Actuator.Tbot

module _ (f : Floats) where
  open f use {F32, lt32, of_int, lit32, lit64, narrow, neg32, neg64, add32, sub32}

  -- Duty cycles in `P` for inputs in `G`.
  module _ {P G : F32 → Type 0} (limited : (d : F32) → G d → P (limit_duty_cycle f d))
      (negated : (d : F32) → G d → G (neg32 d)) where
    drive_motor-AllWithin :
        (en dir : DioDescriptor) (pwm : PwmDescriptor) (cmd : F32)
        → G cmd
        → AllWithin f P (Tbot.drive_motor f en dir pwm cmd)
    unfolding Tbot.drive_motor
    drive_motor-AllWithin en dir pwm cmd g = elim (Bool-cases (lt32 cmd (of_int (pos 0)))) [
      | inl e ↦ rw e (
          AllWithin-append f
            (AllWithin-append f (set_dio-AllWithin f en 1) (set_dio-AllWithin f dir 1))
            (set_pwm_duty_cycle-AllWithin f pwm _ (limited _ (negated cmd g))))
      | inr e ↦ rw e (
          AllWithin-append f
            (AllWithin-append f (set_dio-AllWithin f en 1) (set_dio-AllWithin f dir 0))
            (set_pwm_duty_cycle-AllWithin f pwm _ (limited _ g)))
    ]

    tbot_turn-AllWithin :
        (cfg : Tbot.TbotActuatorConf) (cmd : ActuatorCmd F32)
        → G (Tbot.limit_command f cmd.motor_0)
        → G (Tbot.limit_command f cmd.motor_1)
        → AllWithin f P (Tbot.actuator_turn f cfg cmd)
    unfolding Tbot.actuator_turn Tbot.set_motor_cmd
    tbot_turn-AllWithin cfg cmd g0 g1 =
        AllWithin-append f (drive_motor-AllWithin cfg.dd_dio_en1 cfg.dd_dio_dir1 cfg.dd_pwm1 _ g0)
          (drive_motor-AllWithin cfg.dd_dio_en2 cfg.dd_dio_dir2 cfg.dd_pwm2 _ g1)

    tbot_init-AllWithin :
        (flags : ℕ) (cfg : Tbot.TbotActuatorConf)
        → G (narrow (neg64 (lit64 1 1)))
        → G (narrow (lit64 1 1))
        → AllWithin f P (Tbot.init_actuators f flags cfg)
    unfolding Tbot.init_actuators
    tbot_init-AllWithin flags cfg g0 g1 =
        AllWithin-append f
          (AllWithin-append f
            (AllWithin-append f
              (AllWithin-append f
                (AllWithin-append f
                  (AllWithin-append f
                    (AllWithin-append f
                      (AllWithin-append f
                        (AllWithin-append f (configure_dio-AllWithin f cfg.dd_dio_en1 flags)
                          (configure_dio-AllWithin f cfg.dd_dio_dir1 flags))
                        (configure_dio-AllWithin f cfg.dd_dio_en2 flags))
                      (configure_dio-AllWithin f cfg.dd_dio_dir2 flags))
                    (set_dio-AllWithin f cfg.dd_dio_en1 0))
                  (set_dio-AllWithin f cfg.dd_dio_dir1 0))
                (set_dio-AllWithin f cfg.dd_dio_en2 0))
              (set_dio-AllWithin f cfg.dd_dio_dir2 0))
            (set_pwm_duty_cycle-AllWithin f cfg.dd_pwm1 _ (limited _ g0)))
          (set_pwm_duty_cycle-AllWithin f cfg.dd_pwm2 _ (limited _ g1))

  if-IsNumber :
      (b : Bool) (x y : F32) → IsNumber f x → IsNumber f y → IsNumber f (if b then x else y)
  if-IsNumber true x y h k = h
  if-IsNumber false x y h k = k

  module _ (numbers : NumberLaws f) where
    open numbers use {
      narrow-IsNumber, narrow_neg-IsNumber, neg32-IsNumber, add_to_1-IsNumber, sub_from_1-IsNumber,
    }

    within_ends-IsNumber : (x : F32) → IsNumber f x → IsNumber f (within_ends f x)
    within_ends-IsNumber x h =
        if-IsNumber _ _ _ (narrow_neg-IsNumber 99 100 (omega arith))
          (if-IsNumber _ _ _ (narrow-IsNumber 99 100 (omega arith)) h)

    limit_command-IsNumber : (x : F32) → IsNumber f x → IsNumber f (Tbot.limit_command f x)
    unfolding Tbot.limit_command
    limit_command-IsNumber x h =
        let cmd =
          within_ends-IsNumber (without_dead_zone f x)
            (if-IsNumber _ _ _ (narrow-IsNumber 0 1 (omega arith)) h) in
        if-IsNumber _ _ _ (sub_from_1-IsNumber _ cmd) (neg32-IsNumber _ (add_to_1-IsNumber _ cmd))

  module _ (laws : FloatLaws f) where
    -- No PWM call for either of the car's channels has a duty cycle below 0 or above 1, for every
    -- command, and at the start.
    pub rccar_turn-AllSafe :
        (cfg : RcCar.RcCarActuatorConf) (cmd : ActuatorCmd F32)
        → AllSafe f (RcCar.init_actuators f cfg) × AllSafe f (RcCar.actuator_turn f cfg cmd)
    unfolding RcCar.init_actuators RcCar.actuator_turn
    rccar_turn-AllSafe cfg cmd =
        let limited = λ (d : F32). (limit_duty_cycle-DutyNotOutside f laws d).0 in
        (
          AllWithin-append f (set_pwm_duty_cycle-AllWithin f cfg.dd_pwm1 _ (limited _))
              (set_pwm_duty_cycle-AllWithin f cfg.dd_pwm2 _ (limited _)),
          AllWithin-append f (set_pwm_duty_cycle-AllWithin f cfg.dd_pwm1 _ (limited _))
              (set_pwm_duty_cycle-AllWithin f cfg.dd_pwm2 _ (limited _)),
        )

    -- No PWM call for either of the robot's motors has a duty cycle below 0 or above 1, for every
    -- command, a NaN also.
    pub tbot_turn-AllSafe :
        (cfg : Tbot.TbotActuatorConf) (cmd : ActuatorCmd F32)
        → AllSafe f (Tbot.actuator_turn f cfg cmd)
    tbot_turn-AllSafe cfg cmd =
        tbot_turn-AllWithin {G = λ d. Unit {0}}
          (λ d g. (limit_duty_cycle-DutyNotOutside f laws d).0) (λ d g. tt) cfg cmd tt tt

    -- Both of the robot's motors get a duty cycle that is at least 0 and at most 1, at the start and
    -- for every command whose two values are numbers. A NaN passes the tests of the code.
    pub tbot_turn-AllInUnit :
        (numbers : NumberLaws f) (flags : ℕ) (cfg : Tbot.TbotActuatorConf) (cmd : ActuatorCmd F32)
        → IsNumber f cmd.motor_0
        → IsNumber f cmd.motor_1
        → AllInUnit f (Tbot.init_actuators f flags cfg) × AllInUnit f (Tbot.actuator_turn f cfg cmd)
    tbot_turn-AllInUnit numbers flags cfg cmd h0 h1 =
        let limited = limit_duty_cycle-DutyInUnit f laws numbers in
        (
          tbot_init-AllWithin limited numbers.neg32-IsNumber flags cfg
              (numbers.narrow_neg-IsNumber 1 1 (omega arith))
              (numbers.narrow-IsNumber 1 1 (omega arith)),
          tbot_turn-AllWithin limited numbers.neg32-IsNumber cfg cmd
              (limit_command-IsNumber numbers cmd.motor_0 h0)
              (limit_command-IsNumber numbers cmd.motor_1 h1),
        )
