-- ===== src/Examples/Devices.antt =====
-- The encoders, the actuators, the VESC commands and the start of the robot on concrete values.
use robofw.Common.{◌≡◌, refl, true, false, [], ◌∷◌, replicate, arith}
use robofw.Common.Int.{ℤ, pos, negsuc}
use robofw.Common.Floats.{fixed, fixed-FloatLaws, fixed-NumberLaws}
use robofw.Common.Msgq.Bounded.{Bounded, bounded, bounded-MsgqLaws}
use robofw.Can.{CanFrame, extended}
use robofw.Mcal.{DioDescriptor, PwmDescriptor}
use robofw.Mcal.Duty.{AllSafe, AllInUnit}
use robofw.Types.{EstimatedSpeed, ActuatorCmd}
use robofw.Encoder.{EncoderChannel, Estimator, update_channel, channel_init}
use robofw.Encoder.Direction.{
  IsSettled, small, none_left, follow, follow-total, channel_init-decrease,
}
use robofw.Encoder.Estimate.{IsEstimator, zeros-AllPossible}
use robofw.Encoder.Loop.{EncoderConf, EncoderVars}
use robofw.Encoder.Running.{IsConfigured}
use robofw.Encoder.Turns.{Sampled, encoder_turn-Sampled}
use robofw.Actuator.Tbot
use robofw.Actuator.RcCar
use robofw.Actuator.Safety.{tbot_turn-AllInUnit, rccar_turn-AllSafe}
use robofw.Vesc.{vesc_unknown_cmd, clamp_command, can_frame_to_cmd_packet}
use robofw.Vesc.RoundTrip.{
  Fits, VescCommand, duty_cycle, packet_of, flagged, vesc_frame, vesc_frame-decoded,
  narrow_id-refused,
}
use robofw.Examples.Data.{queue, queue-IsUsable, blank, speeds, id_29}

-- The second encoder, just below the end of its counter.
abbrev turning : EncoderChannel
turning = record {
  overflow_detected = false;
  underflow_detected = false;
  is_counting_up = false;
  encoder_prev_reading = 65500;
  accumulated_error = 7;
}

turning-IsSettled : IsSettled turning
turning-IsSettled = record { overflow = refl; underflow = refl; reading = omega arith }

follow-total_example :
    IsSettled (follow (pos 100 ∷ negsuc 99 ∷ []) turning)
    × ((follow (pos 100 ∷ negsuc 99 ∷ []) turning).accumulated_error ≡ 207)
follow-total_example =
    follow-total (pos 100 ∷ negsuc 99 ∷ []) turning turning-IsSettled (omega arith)
      (small (omega arith) (small (omega arith) none_left))

channel_init-decrease_example :
    let c = record (channel_init true) { encoder_prev_reading = 1000 } in
    ((update_channel 995 c).is_counting_up ≡ true)
    × ((update_channel 995 c).accumulated_error ≡ 65531)
channel_init-decrease_example =
    channel_init-decrease 1000 4 (omega arith) (omega arith) (omega arith)

abbrev estimator : Estimator
estimator = record {
  last_filtered_rpm = pos 100;
  raw_rpm_history_0 = pos 90;
  raw_rpm_history_1 = pos 9000;
  indexer = 3;
  estimated_rpm_history = replicate 10 (pos 0);
}

pub estimator-IsEstimator : IsEstimator estimator
estimator-IsEstimator = record {
  last = omega arith;
  history = zeros-AllPossible 10;
  long = refl;
  index = omega arith;
}

abbrev pub conf : EncoderConf
conf = record {
  active_encoder_num = 2;
  pulse_per_round_0 = 1320;
  pulse_per_round_1 = 1320;
  sample_per_every_iteration = 2;
}

abbrev pub vars : EncoderVars
vars = record {
  channel_0 = turning;
  channel_1 = turning;
  estimator_0 = estimator;
  estimator_1 = estimator;
  first_time = false;
  accumulated_time = 5;
  loop_counter = 4;
  estimator_counter = 20;
  speed_estimate = speeds;
}

pub conf-IsConfigured : IsConfigured conf
conf-IsConfigured = record {
  samples = omega arith;
  pulses_0 = λ h. omega arith;
  pulses_1 = λ h. omega arith;
}

encoder_turn-Sampled_example :
    (out : EncoderVars × Bounded EstimatedSpeed) × Sampled fixed bounded bounded-MsgqLaws conf 64
      65400 5 vars queue out
encoder_turn-Sampled_example =
    encoder_turn-Sampled fixed bounded bounded-MsgqLaws conf 64 65400 5 vars queue conf-IsConfigured
      (omega arith)
      (record {
        left = estimator-IsEstimator;
        right = estimator-IsEstimator;
        counter = omega arith;
      })
      queue-IsUsable

abbrev dio : DioDescriptor
dio = record { active = true; pin = 4; flags = 0 }

abbrev pwm : PwmDescriptor
pwm = record { active = true; channel = 1; period = 50; flags = 0 }

abbrev pub motors : Tbot.TbotActuatorConf
motors = record {
  dd_dio_en1 = dio;
  dd_dio_dir1 = dio;
  dd_dio_en2 = dio;
  dd_dio_dir2 = dio;
  dd_pwm1 = pwm;
  dd_pwm2 = pwm;
}

abbrev servos : RcCar.RcCarActuatorConf
servos = record { dd_pwm1 = pwm; dd_pwm2 = pwm }

abbrev command : ActuatorCmd ℤ
command = record { motor_0 = pos 700000; motor_1 = negsuc 1999999 }

tbot_turn-AllInUnit_example :
    AllInUnit fixed (Tbot.init_actuators fixed 3 motors)
    × AllInUnit fixed (Tbot.actuator_turn fixed motors command)
tbot_turn-AllInUnit_example =
    tbot_turn-AllInUnit fixed fixed-FloatLaws fixed-NumberLaws 3 motors command refl refl

rccar_turn-AllSafe_example :
    AllSafe fixed (RcCar.init_actuators fixed servos)
    × AllSafe fixed (RcCar.actuator_turn fixed servos command)
rccar_turn-AllSafe_example = rccar_turn-AllSafe fixed fixed-FloatLaws servos command

abbrev duty : VescCommand ℤ
duty = duty_cycle (pos 250000)

duty-Fits : Fits fixed duty
unfolding clamp_command
duty-Fits = ground arith

vesc_frame-decoded_example :
    (can_frame_to_cmd_packet fixed (vesc_frame fixed id_29 duty blank) vesc_unknown_cmd
      ≡ (false, vesc_unknown_cmd))
    × (can_frame_to_cmd_packet fixed
          (flagged fixed (vesc_frame fixed id_29 duty blank))
          vesc_unknown_cmd
        ≡ (true, packet_of fixed duty))
vesc_frame-decoded_example =
    vesc_frame-decoded fixed id_29 duty blank vesc_unknown_cmd (λ n. refl) refl duty-Fits

abbrev narrow_frame : CanFrame
narrow_frame = record {
  id_type = extended;
  id = 0x360;
  rtr = 0;
  dlc = 4;
  bytes = 0 ∷ 0 ∷ 1 ∷ 0 ∷ [];
}

narrow_id-refused_example :
    can_frame_to_cmd_packet fixed narrow_frame vesc_unknown_cmd ≡ (false, vesc_unknown_cmd)
narrow_id-refused_example = narrow_id-refused fixed narrow_frame vesc_unknown_cmd (omega arith)
