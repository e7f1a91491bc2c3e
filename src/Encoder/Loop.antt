-- ===== src/Encoder/Loop.antt =====
-- `EncoderServiceMainLoop` of src/service/common/encoder/src/encoder_service.c: a turn on the readings
-- of both encoders and the time since the last turn.
use robofw.Common.{
  ℕ, ◌+◌, ◌%◌, Bool, true, false, replicate, Option, none, some, ltb, leb, ◌==◌, ◌&&◌, ◌||◌,
  if◌then◌else◌,
}
use robofw.Common.Int.{pos, int32}
use robofw.Common.Floats.{Floats}
use robofw.Common.Msgq.{Msgq, post}
use robofw.Types.{EstimatedSpeed}
use robofw.Encoder.{
  EncoderChannel, Estimator, channel_init, update_channel, raw_rpm, estimate,
  min_estimate_num_before_valid,
}

-- The fields of an `EncoderSrvConf`, beside the devices.
pub record EncoderConf : Type 0 where
  pub active_encoder_num : ℕ
  pub pulse_per_round_0 : ℕ
  pub pulse_per_round_1 : ℕ
  pub sample_per_every_iteration : ℕ

pub record EncoderVars : Type 0 where
  pub channel_0 : EncoderChannel
  pub channel_1 : EncoderChannel
  pub estimator_0 : Estimator
  pub estimator_1 : Estimator
  pub first_time : Bool
  pub accumulated_time : ℕ
  pub loop_counter : ℕ
  pub estimator_counter : ℕ
  pub speed_estimate : EstimatedSpeed

-- The values before the loop; `speed_estimate` is not initialised.
unfoldable pub encoder_init : EstimatedSpeed → EncoderVars
unfolding channel_init
encoder_init speed_estimate =
    let estimator : Estimator = record {
      last_filtered_rpm = pos 0;
      raw_rpm_history_0 = pos 0;
      raw_rpm_history_1 = pos 0;
      indexer = 0;
      estimated_rpm_history = replicate 10 (pos 0);
    } in
    record {
      channel_0 = channel_init true;
      channel_1 = channel_init false;
      estimator_0 = estimator;
      estimator_1 = estimator;
      first_time = true;
      accumulated_time = 0;
      loop_counter = 0;
      estimator_counter = 0;
      speed_estimate = speed_estimate;
    }

-- A loop over the active encoders.
abbrev pub each_active :
    ℕ → (EncoderVars → EncoderVars) → (EncoderVars → EncoderVars) → EncoderVars → EncoderVars
each_active n body_0 body_1 v =
    let v0 = if leb 1 n then body_0 v else v in if leb 2 n then body_1 v0 else v0

-- The bodies of those loops, for the first encoder and the second.
abbrev pub store_0 : ℕ → EncoderVars → EncoderVars
store_0 reading u = record u { channel_0 = record (u.channel_0) { encoder_prev_reading = reading } }

abbrev pub store_1 : ℕ → EncoderVars → EncoderVars
store_1 reading u = record u { channel_1 = record (u.channel_1) { encoder_prev_reading = reading } }

abbrev pub clear_0 : EncoderVars → EncoderVars
clear_0 u = record u { channel_0 = record (u.channel_0) { accumulated_error = 0 } }

abbrev pub clear_1 : EncoderVars → EncoderVars
clear_1 u = record u { channel_1 = record (u.channel_1) { accumulated_error = 0 } }

unfoldable pub track_0 : ℕ → EncoderVars → EncoderVars
unfolding update_channel
track_0 reading u = record u { channel_0 = update_channel reading u.channel_0 }

unfoldable pub track_1 : ℕ → EncoderVars → EncoderVars
unfolding update_channel
track_1 reading u = record u { channel_1 = update_channel reading u.channel_1 }

-- The first turn only stores the readings.
unfoldable pub first_turn : EncoderConf → ℕ → ℕ → EncoderVars → EncoderVars
first_turn conf reading_0 reading_1 v =
    let stored = each_active conf.active_encoder_num (store_0 reading_0) (store_1 reading_1) v in
    record stored { first_time = false }

unfoldable pub track : EncoderConf → ℕ → ℕ → ℕ → EncoderVars → EncoderVars
unfolding track_0 track_1
track conf reading_0 reading_1 time_diff v =
    each_active conf.active_encoder_num (track_0 reading_0) (track_1 reading_1)
      (record v { accumulated_time = v.accumulated_time + time_diff })

-- Whether the estimates of the active encoders divide by 0, which is undefined.
unfoldable pub divides_by_zero : EncoderConf → EncoderVars → Bool
divides_by_zero conf v =
    (leb 1 conf.active_encoder_num && (v.accumulated_time == 0 || conf.pulse_per_round_0 == 0))
    || (leb 2 conf.active_encoder_num && conf.pulse_per_round_1 == 0)

module _ (f : Floats) where
  unfoldable pub estimate_0 : EncoderConf → EncoderVars → EncoderVars
  unfolding estimate
  estimate_0 conf v =
      let raw = int32 (raw_rpm v.channel_0 v.accumulated_time conf.pulse_per_round_0) in
      let (e, filtered) = estimate f v.estimator_counter raw v.estimator_0 in
      record v {
        estimator_0 = e;
        speed_estimate = record (v.speed_estimate) { raw_rpm_0 = raw; filtered_rpm_0 = filtered };
      }

  unfoldable pub estimate_1 : EncoderConf → EncoderVars → EncoderVars
  unfolding estimate
  estimate_1 conf v =
      let raw = int32 (raw_rpm v.channel_1 v.accumulated_time conf.pulse_per_round_1) in
      let (e, filtered) = estimate f v.estimator_counter raw v.estimator_1 in
      record v {
        estimator_1 = e;
        speed_estimate = record (v.speed_estimate) { raw_rpm_1 = raw; filtered_rpm_1 = filtered };
      }

  -- The estimates of all active encoders, and what is reset after them.
  unfoldable pub make_estimates : EncoderConf → EncoderVars → EncoderVars
  unfolding estimate_0 estimate_1
  make_estimates conf v =
      let made = each_active conf.active_encoder_num (estimate_0 conf) (estimate_1 conf) v in
      each_active conf.active_encoder_num clear_0 clear_1 (record made {
        estimator_counter = (made.estimator_counter + 1) % 4294967296;
        accumulated_time = 0;
      })

  module _ (k : Msgq) where
    open k use {Queue}

    -- The estimate goes out once more than 20 have been made; the counter then stays at 20.
    unfoldable pub report :
        EncoderVars → Queue EstimatedSpeed → Option (EncoderVars × Queue EstimatedSpeed)
    report v q =
        if ltb min_estimate_num_before_valid v.estimator_counter
        then elim (post k q v.speed_estimate) [
          | none ↦ none
          | some q2 ↦ some (record v { estimator_counter = min_estimate_num_before_valid }, q2)
        ]
        else some (v, q)

    -- Where the code would divide by 0, which is undefined, there is no result.
    unfoldable pub encoder_turn :
        EncoderConf
        → ℕ
        → ℕ
        → ℕ
        → EncoderVars × Queue EstimatedSpeed
        → Option (EncoderVars × Queue EstimatedSpeed)
    encoder_turn conf reading_0 reading_1 time_diff (v, q) =
        if v.first_time
        then some (first_turn conf reading_0 reading_1 v, q)
        else (let tracked = track conf reading_0 reading_1 time_diff v in
            let counted = record tracked {
              loop_counter = (tracked.loop_counter + 1) % 4294967296;
            } in
            if conf.sample_per_every_iteration == 0
            then none
            else (if v.loop_counter % conf.sample_per_every_iteration == 0
                then (if divides_by_zero conf counted
                    then none
                    else report (make_estimates conf counted) q)
                else some (counted, q)))
