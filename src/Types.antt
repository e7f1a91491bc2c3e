-- ===== src/Types.antt =====
-- src/service/interface/include/interface/type.h and the messages that services exchange.
use robofw.Common.{ℕ, Bool, List}
use robofw.Common.Int.{ℤ}

-- `SupervisedMode` is assigned any byte of a CAN frame, so it is a number; these are its names.
abbrev pub k_non_supervised : ℕ
k_non_supervised = 0

abbrev pub k_supervised_pwm : ℕ
k_supervised_pwm = 1

abbrev pub k_supervised_rpm : ℕ
k_supervised_rpm = 2

pub record SupervisorCommand : Type 0 where
  pub supervised_mode : ℕ

pub data RobotControlMode : Type 0 where
  k_control_mode_rc k_control_mode_can : RobotControlMode

pub record RobotState : Type 0 where
  pub rc_connected : Bool
  pub estop_triggered : Bool
  pub control_mode : RobotControlMode
  pub sup_mode : ℕ

-- `F` is the type `float`.
pub record DesiredMotion (F : Type 0) : Type 0 where
  pub linear : F
  pub angular : F

-- `ReceiverData`: the channels, scaled.
pub record ReceiverData (F : Type 0) : Type 0 where
  pub channels : List F

-- `ActuatorCmd`, `DesiredRpm`, `EstimatedSpeed`: the left motor, then the right one.
pub record ActuatorCmd (F : Type 0) : Type 0 where
  pub motor_0 : F
  pub motor_1 : F

pub record DesiredRpm : Type 0 where
  pub motor_0 : ℤ
  pub motor_1 : ℤ

pub record EstimatedSpeed : Type 0 where
  pub raw_rpm_0 : ℤ
  pub raw_rpm_1 : ℤ
  pub filtered_rpm_0 : ℤ
  pub filtered_rpm_1 : ℤ

pub record SpeedControlFeedback : Type 0 where
  pub target_speed : DesiredRpm
  pub measured_speed : EstimatedSpeed
