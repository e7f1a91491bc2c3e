-- ===== src/Tbot/Motion.antt =====
-- src/service/robot_tbot/motion_control/src/motion_control_service.c: from a desired motion to the
-- speeds of the two motors, with limited changes.
pub mod Limit
pub mod Turns
use robofw.Common.{ℕ, Bool, true, false, ◌&&◌, Option, none, some, List, if◌then◌else◌}
use robofw.Common.Int.{ℤ, pos, ◌+ℤ◌, ◌-ℤ◌, neg_ℤ, ltb_ℤ, int16}
use robofw.Common.Floats.{Floats}
use robofw.Common.Msgq.{Msgq, post}
use robofw.Types.{DesiredMotion, DesiredRpm}

-- Two `int16_t`.
pub record MotionLimit : Type 0 where
  pub accel : ℤ
  pub decel : ℤ

-- Operands are `int`; only what is stored in an `int16_t` wraps.
abbrev pub limit_change : MotionLimit → ℤ → ℤ → ℤ → ℤ
limit_change limit prev_value value diff =
    if ltb_ℤ (pos 0) prev_value && ltb_ℤ limit.accel diff
    then int16 (prev_value +ℤ limit.accel)
    else (if ltb_ℤ prev_value (pos 0) && ltb_ℤ diff (neg_ℤ limit.accel)
        then int16 (prev_value -ℤ limit.accel)
        else (if ltb_ℤ prev_value (pos 0) && ltb_ℤ limit.decel diff
            then int16 (prev_value +ℤ limit.decel)
            else (if ltb_ℤ (pos 0) prev_value && ltb_ℤ diff (neg_ℤ limit.decel)
                then int16 (prev_value -ℤ limit.decel)
                else value)))

unfoldable pub apply_motion_limit : MotionLimit → ℤ → ℤ → ℤ
apply_motion_limit limit prev_value value =
    limit_change limit prev_value value (int16 (value -ℤ prev_value))

abbrev pub rpm_limit : MotionLimit
rpm_limit = record { accel = pos 3; decel = pos 8 }

module _ (f : Floats) where
  open f use {
    F32, F64, lit32, lit64, of_int, of_int64, widen, narrow, trunc64, add32, sub32, mul32, div32,
    mul64, div64,
  }

  -- `const float r = 0.0188`, `const float track = 0.185`, and `M_PI` of math.h.
  abbrev pub wheel_radius : F32
  wheel_radius = narrow (lit64 188 10000)

  abbrev pub track : F32
  track = narrow (lit64 185 1000)

  abbrev pub m_pi : F64
  m_pi = lit64 314159265358979323846 100000000000000000000

  -- `omega * 60 / (2 * M_PI)`, stored in an `int16_t`. Beyond that type's range the conversion is
  -- undefined, and taken as a wrap.
  unfoldable pub to_rpm : F32 → ℤ
  to_rpm omega =
      int16
        (trunc64 (div64 (widen (mul32 omega (of_int (pos 60)))) (mul64 (of_int64 (pos 2)) m_pi)))

  -- The speeds that a motion asks for; the right motor is mounted the other way round.
  unfoldable pub desired_speeds : DesiredMotion F32 → DesiredRpm
  unfolding to_rpm
  desired_speeds m = record {
    motor_0 = to_rpm (div32 (sub32 m.linear (mul32 m.angular track)) wheel_radius);
    motor_1 = int16 (neg_ℤ (to_rpm (div32 (add32 m.linear (mul32 m.angular track)) wheel_radius)));
  }

  unfoldable pub limited_speeds : DesiredRpm → DesiredRpm → DesiredRpm
  unfolding apply_motion_limit
  limited_speeds prev target = record {
    motor_0 = apply_motion_limit rpm_limit prev.motor_0 target.motor_0;
    motor_1 = apply_motion_limit rpm_limit prev.motor_1 target.motor_1;
  }

  module _ (k : Msgq) where
    open k use {Queue, get}

    pub record MotionPorts : Type 0 where
      pub desired_motion_in : Queue (DesiredMotion F32)
      pub desired_rpm_in : Queue DesiredRpm

    -- One turn of the loop, on `prev_target_rpm` and the two queues; `none` means that it has not ended.
    unfoldable pub motion_turn : DesiredRpm → MotionPorts → Option (DesiredRpm × MotionPorts)
    motion_turn prev w =
        let (got, rest) = get w.desired_motion_in in
        elim got [
          | none ↦ some (prev, record w { desired_motion_in = rest })
          | some m ↦
              (let target = limited_speeds prev (desired_speeds m) in
                elim (post k w.desired_rpm_in target) [
                  | none ↦ none
                  | some q ↦ some (target, record { desired_motion_in = rest; desired_rpm_in = q })
                ])
        ]
