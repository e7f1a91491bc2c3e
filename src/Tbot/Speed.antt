-- ===== src/Tbot/Speed.antt =====
-- src/service/robot_tbot/speed_control: the two PID controllers, and the loop that runs them.
pub mod Pid
pub mod Turns
use robofw.Common.{ℕ, Bool, true, false, Option, none, some, List, if◌then◌else◌}
use robofw.Common.Int.{ℤ, pos}
use robofw.Common.Floats.{Floats}
use robofw.Common.Msgq.{Msgq, post}
use robofw.Types.{ActuatorCmd, DesiredRpm, EstimatedSpeed, SpeedControlFeedback}

-- `PidControllerInstance`
pub record PidControllerInstance (F : Type 0) : Type 0 where
  pub kp : F
  pub ki : F
  pub kd : F
  pub umax : F
  pub ts : F
  pub integral : F
  pub error_last : F

-- The variables of `SpeedServiceLoop`.
pub record SpeedVars (F : Type 0) : Type 0 where
  pub target_rpm : DesiredRpm
  pub measured_rpm : EstimatedSpeed
  pub actuator_cmd : ActuatorCmd F
  pub left_ctrl : PidControllerInstance F
  pub right_ctrl : PidControllerInstance F

-- The queues: the encoder's, the service's own two, and the actuators'.
pub record SpeedPorts (Queue : Type 0 → Type 0) (F : Type 0) : Type 0 where
  pub rpm_out : Queue EstimatedSpeed
  pub desired_rpm_in : Queue DesiredRpm
  pub actuator_cmd_in : Queue (ActuatorCmd F)
  pub control_feedback_out : Queue SpeedControlFeedback

module _ (f : Floats) where
  open f use {F32, lit32, lit64, narrow, of_int, neg32, add32, sub32, mul32, div32, lt32}

  unfoldable pub init_pid_controller : PidControllerInstance F32 → PidControllerInstance F32
  init_pid_controller inst = record inst { integral = of_int (pos 0); error_last = of_int (pos 0) }

  -- The output before it is limited.
  abbrev pub pid_output : PidControllerInstance F32 → F32 → F32
  pid_output inst error =
      add32 (add32 (mul32 inst.kp error) (mul32 inst.ki inst.integral))
        (mul32 inst.kd (div32 (sub32 error inst.error_last) inst.ts))

  -- The new instance and the result.
  unfoldable pub update_pid_controller :
      PidControllerInstance F32 → F32 → F32 → PidControllerInstance F32 × F32
  update_pid_controller inst reference measurement =
      let error = sub32 reference measurement in
      let new_integral = add32 inst.integral (mul32 error inst.ts) in
      let u = pid_output inst error in
      if lt32 inst.umax u
      then (record inst { error_last = error }, inst.umax)
      else (if lt32 u (neg32 inst.umax)
          then (record inst { error_last = error }, neg32 inst.umax)
          else (record inst { integral = new_integral; error_last = error }, u))

  -- A controller with its constants, for a period in milliseconds.
  abbrev pub controller : F32 → F32 → ℕ → PidControllerInstance F32
  controller kp ki period_ms = init_pid_controller (record {
    kp = kp;
    ki = ki;
    kd = of_int (pos 0);
    umax = of_int (pos 100);
    ts = div32 (of_int (pos period_ms)) (lit32 1000 1);
    integral = of_int (pos 0);
    error_last = of_int (pos 0);
  })

  -- The variables before the loop; `measured` is what the uninitialised raw speeds hold.
  unfoldable pub speed_init : ℕ → EstimatedSpeed → SpeedVars F32
  unfolding init_pid_controller
  speed_init period_ms measured = record {
    target_rpm = record { motor_0 = pos 0; motor_1 = pos 0 };
    measured_rpm = record measured { filtered_rpm_0 = pos 0; filtered_rpm_1 = pos 0 };
    actuator_cmd = record { motor_0 = of_int (pos 0); motor_1 = of_int (pos 0) };
    left_ctrl = controller (narrow (lit64 2 10)) (narrow (lit64 12 10)) period_ms;
    right_ctrl = controller (narrow (lit64 2 10)) (narrow (lit64 95 100)) period_ms;
  }

  -- The newest measurement, if there is one.
  unfoldable pub take_measured : Option EstimatedSpeed → SpeedVars F32 → SpeedVars F32
  take_measured none v = v
  take_measured (some m) v = record v { measured_rpm = m }

  -- A wanted speed runs both controllers.
  unfoldable pub control_motors : DesiredRpm → SpeedVars F32 → SpeedVars F32
  unfolding update_pid_controller
  control_motors target v =
      let (left, u0) =
        update_pid_controller v.left_ctrl (of_int target.motor_0)
          (of_int v.measured_rpm.filtered_rpm_0) in
      let (right, u1) =
        update_pid_controller v.right_ctrl (of_int target.motor_1)
          (of_int v.measured_rpm.filtered_rpm_1) in
      record v {
        target_rpm = target;
        left_ctrl = left;
        right_ctrl = right;
        actuator_cmd = record {
          motor_0 = div32 u0 (lit32 100 1);
          motor_1 = div32 u1 (lit32 100 1);
        };
      }

  module _ (k : Msgq) where
    open k use {Queue, get}

    unfoldable pub run_control :
        Option DesiredRpm
        → SpeedVars F32
        → SpeedPorts Queue F32
        → Option (SpeedVars F32 × SpeedPorts Queue F32)
    run_control none v w = some (v, w)
    run_control (some target) v w =
        let controlled = control_motors target v in
        elim (post k w.actuator_cmd_in controlled.actuator_cmd) [
          | none ↦ none
          | some q ↦ some (controlled, record w { actuator_cmd_in = q })
        ]

    abbrev pub feedback_of : SpeedVars F32 → SpeedControlFeedback
    feedback_of v = record { target_speed = v.target_rpm; measured_speed = v.measured_rpm }

    -- One turn of `SpeedServiceLoop`.
    unfoldable pub speed_turn :
        SpeedVars F32 × SpeedPorts Queue F32 → Option (SpeedVars F32 × SpeedPorts Queue F32)
    speed_turn (v, w) =
        let (measured, rpm_rest) = get w.rpm_out in
        let (target, desired_rest) = get w.desired_rpm_in in
        elim (run_control target (take_measured measured v)
          (record w { rpm_out = rpm_rest; desired_rpm_in = desired_rest })) [
            | none ↦ none
            | some (v2, w2) ↦ elim (post k w2.control_feedback_out (feedback_of v2)) [
              | none ↦ none
              | some q ↦ some (v2, record w2 { control_feedback_out = q })
            ]
          ]
