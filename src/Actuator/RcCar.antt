-- ===== src/Actuator/RcCar.antt =====
-- src/service/common/actuator/src/rccar_actuators.c
use robofw.Common.{List, ◌++◌}
use robofw.Common.Floats.{Floats}
use robofw.Mcal.{HwCall, PwmDescriptor, set_pwm_duty_cycle}
use robofw.Types.{ActuatorCmd}
use robofw.Actuator.{without_dead_zone, within_ends}

-- `RcCarActuatorConf`
pub record RcCarActuatorConf : Type 0 where
  pub dd_pwm1 : PwmDescriptor
  pub dd_pwm2 : PwmDescriptor

module _ (f : Floats) where
  open f use {F32, of_int, lit32, lit64, neg32, neg64, add32, sub32, lt32, narrow}

  -- `LimitCommand` of rccar_actuators.c: what `*out` becomes.
  unfoldable pub limit_command : F32 → F32
  limit_command input = within_ends f (without_dead_zone f input)

  -- `SetMotorCmd` of rccar_actuators.c
  unfoldable pub set_motor_cmd : RcCarActuatorConf → F32 → F32 → List HwCall
  set_motor_cmd cfg left right =
      set_pwm_duty_cycle f cfg.dd_pwm1 left ++ set_pwm_duty_cycle f cfg.dd_pwm2 right

  unfoldable pub init_actuators : RcCarActuatorConf → List HwCall
  init_actuators cfg =
      set_pwm_duty_cycle f cfg.dd_pwm1 (lit32 0 1) ++ set_pwm_duty_cycle f cfg.dd_pwm2 (lit32 0 1)

  -- One command through `RcCarActuatorServiceLoop`.
  unfoldable pub actuator_turn : RcCarActuatorConf → ActuatorCmd F32 → List HwCall
  unfolding limit_command set_motor_cmd
  actuator_turn cfg cmd = set_motor_cmd cfg (limit_command cmd.motor_0) (limit_command cmd.motor_1)
