-- ===== src/Actuator/Tbot.antt =====
-- src/service/common/actuator/src/tbot_actuators.c
use robofw.Common.{ℕ, List, ◌++◌, if◌then◌else◌}
use robofw.Common.Int.{pos}
use robofw.Common.Floats.{Floats}
use robofw.Mcal.{HwCall, DioDescriptor, PwmDescriptor, configure_dio, set_dio, set_pwm_duty_cycle}
use robofw.Types.{ActuatorCmd}
use robofw.Actuator.{without_dead_zone, within_ends}

-- `TbotActuatorConf`
pub record TbotActuatorConf : Type 0 where
  pub dd_dio_en1 : DioDescriptor
  pub dd_dio_dir1 : DioDescriptor
  pub dd_dio_en2 : DioDescriptor
  pub dd_dio_dir2 : DioDescriptor
  pub dd_pwm1 : PwmDescriptor
  pub dd_pwm2 : PwmDescriptor

module _ (f : Floats) where
  open f use {F32, of_int, lit32, lit64, neg32, neg64, add32, sub32, lt32, narrow}

  -- `LimitCommand` of tbot_actuators.c: the PWM input of the motor driver is inverted.
  unfoldable pub limit_command : F32 → F32
  limit_command input =
      let cmd = within_ends f (without_dead_zone f input) in
      if lt32 (of_int (pos 0)) cmd then sub32 (lit32 1 1) cmd else neg32 (add32 (lit32 1 1) cmd)

  -- The direction pin and the duty cycle of one motor.
  unfoldable pub drive_motor : DioDescriptor → DioDescriptor → PwmDescriptor → F32 → List HwCall
  drive_motor en dir pwm cmd =
      if lt32 cmd (of_int (pos 0))
      then set_dio en 1 ++ set_dio dir 1 ++ set_pwm_duty_cycle f pwm (neg32 cmd)
      else set_dio en 1 ++ set_dio dir 0 ++ set_pwm_duty_cycle f pwm cmd

  -- `SetMotorCmd` of tbot_actuators.c
  unfoldable pub set_motor_cmd : TbotActuatorConf → F32 → F32 → List HwCall
  unfolding drive_motor
  set_motor_cmd cfg left right =
      drive_motor cfg.dd_dio_en1 cfg.dd_dio_dir1 cfg.dd_pwm1 left
      ++ drive_motor cfg.dd_dio_en2 cfg.dd_dio_dir2 cfg.dd_pwm2 right

  -- `InitTbotActuators`; the flags are GPIO_OUTPUT_ACTIVE | GPIO_PULL_UP of Zephyr.
  unfoldable pub init_actuators : ℕ → TbotActuatorConf → List HwCall
  init_actuators flags cfg =
      configure_dio cfg.dd_dio_en1 flags
      ++ configure_dio cfg.dd_dio_dir1 flags
      ++ configure_dio cfg.dd_dio_en2 flags
      ++ configure_dio cfg.dd_dio_dir2 flags
      ++ set_dio cfg.dd_dio_en1 0
      ++ set_dio cfg.dd_dio_dir1 0
      ++ set_dio cfg.dd_dio_en2 0
      ++ set_dio cfg.dd_dio_dir2 0
      ++ set_pwm_duty_cycle f cfg.dd_pwm1 (narrow (neg64 (lit64 1 1)))
      ++ set_pwm_duty_cycle f cfg.dd_pwm2 (narrow (lit64 1 1))

  -- One command through `TbotActuatorServiceLoop`.
  unfoldable pub actuator_turn : TbotActuatorConf → ActuatorCmd F32 → List HwCall
  unfolding limit_command set_motor_cmd
  actuator_turn cfg cmd = set_motor_cmd cfg (limit_command cmd.motor_0) (limit_command cmd.motor_1)
