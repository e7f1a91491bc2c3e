-- ===== src/Encoder.antt =====
-- src/service/common/encoder/src/encoder_service.c: from the counters of the wheels to their speeds.
pub mod Direction
pub mod Estimate
pub mod Loop
pub mod Running
pub mod Turns
use robofw.Common.{
  ℕ, ◌+◌, ◌-◌, ◌*◌, ◌%◌, Bool, true, false, ◌&&◌, ◌||◌, not, Option, none, some, List, [], ◌∷◌, ltb,
  leb, ◌==◌, if◌then◌else◌, set, replicate,
}
use robofw.Common.Int.{ℤ, pos, negsuc, ◌+ℤ◌, ◌*ℤ◌, ◌/ℤ◌, ltb_ℤ, int32}
use robofw.Common.Floats.{Floats}
use robofw.Common.Msgq.{Msgq, post}
use robofw.Types.{EstimatedSpeed}

abbrev pub max_pulse_per_period : ℕ
max_pulse_per_period = 150

abbrev pub max_possible_rpm : ℤ
max_possible_rpm = pos 600

abbrev pub average_filter_len : ℕ
average_filter_len = 10

abbrev pub min_estimate_num_before_valid : ℕ
min_estimate_num_before_valid = 20

-- The variables of one encoder: two `bool`s of the file, and the loop's own.
pub record EncoderChannel : Type 0 where
  pub overflow_detected : Bool
  pub underflow_detected : Bool
  pub is_counting_up : Bool
  pub encoder_prev_reading : ℕ
  pub accumulated_error : ℕ

-- Their initial values: `overflow_detected` of the first encoder is true, and that of the second false.
unfoldable pub channel_init : Bool → EncoderChannel
channel_init is_first = record {
  overflow_detected = is_first;
  underflow_detected = false;
  is_counting_up = true;
  encoder_prev_reading = 0;
  accumulated_error = 0;
}

-- The check for a passage through the counter's end.
unfoldable pub detect_overflow : ℕ → EncoderChannel → EncoderChannel
detect_overflow reading c =
    if leb c.encoder_prev_reading reading
      && ltb max_pulse_per_period (reading - c.encoder_prev_reading)
    then record c { underflow_detected = true }
    else (if ltb max_pulse_per_period (c.encoder_prev_reading - reading)
        then record c { overflow_detected = true }
        else c)

unfoldable pub find_direction : ℕ → EncoderChannel → EncoderChannel
find_direction reading c =
    if leb c.encoder_prev_reading reading
    then (if c.underflow_detected
        then record c { is_counting_up = false; underflow_detected = false }
        else record c { is_counting_up = true })
    else (if c.overflow_detected
        then record c { is_counting_up = true; overflow_detected = false }
        else record c { is_counting_up = false })

-- The difference of two readings, as a `uint16_t`.
abbrev pub difference_16 : ℕ → ℕ → ℕ
difference_16 a b = (a + 65536 - b) % 65536

unfoldable pub add_error : ℕ → EncoderChannel → EncoderChannel
add_error reading c =
    let reading_error =
      if c.is_counting_up
      then difference_16 reading c.encoder_prev_reading
      else difference_16 c.encoder_prev_reading reading in
    record c {
      accumulated_error = (c.accumulated_error + reading_error) % 65536;
      encoder_prev_reading = reading;
    }

-- The loop's body for one encoder, on a new reading.
unfoldable pub update_channel : ℕ → EncoderChannel → EncoderChannel
unfolding detect_overflow find_direction add_error
update_channel reading c = add_error reading (find_direction reading (detect_overflow reading c))

-- The variables of one encoder's filters.
pub record Estimator : Type 0 where
  pub last_filtered_rpm : ℤ
  pub raw_rpm_history_0 : ℤ
  pub raw_rpm_history_1 : ℤ
  pub indexer : ℕ
  pub estimated_rpm_history : List ℤ

abbrev pub sum_ℤ : List ℤ → ℤ
sum_ℤ [] = pos 0
sum_ℤ (x ∷ xs) = x +ℤ sum_ℤ xs

-- `sign * (int32_t)error * 60 * 1000 / time / pulse_per_round`: the product is an `int32_t`, whose
-- overflow is undefined and taken as a wrap; the quotients have 64 bits. `encoder_turn` comes here with
-- both divisors above 0 only.
unfoldable pub raw_rpm : EncoderChannel → ℕ → ℕ → ℤ
raw_rpm c time pulse_per_round =
    let sign = if not c.is_counting_up then negsuc 0 else pos 1 in
    int32 (sign *ℤ pos (c.accumulated_error * 60 * 1000)) /ℤ pos time /ℤ pos pulse_per_round

module _ (f : Floats) where
  open f use {F32, of_int, lit64, narrow, add32, mul32, trunc32}

  abbrev pub filter_a : F32
  filter_a = narrow (lit64 7284895 10000000)

  abbrev pub filter_b : F32
  filter_b = narrow (lit64 13575525 100000000)

  unfoldable pub low_pass : Estimator → ℤ
  low_pass e = int32 (
      trunc32 (
        add32
          (add32 (mul32 filter_a (of_int e.last_filtered_rpm))
            (mul32 filter_b (of_int e.raw_rpm_history_1)))
          (mul32 filter_b (of_int e.raw_rpm_history_0))))

  -- An outlier is replaced by the last estimate.
  unfoldable pub without_outlier : Estimator → ℤ
  unfolding low_pass
  without_outlier e =
      let filtered = low_pass e in
      if ltb_ℤ max_possible_rpm filtered || ltb_ℤ filtered (negsuc 599)
      then e.last_filtered_rpm
      else filtered

  -- The estimate of one encoder: the new variables, and the filtered speed that goes out.
  unfoldable pub estimate : ℕ → ℤ → Estimator → Estimator × ℤ
  unfolding without_outlier
  estimate estimator_counter raw e =
      let filtered = without_outlier e in
      let history = set e.estimated_rpm_history e.indexer filtered in
      (
        record e {
          raw_rpm_history_0 = e.raw_rpm_history_1;
          raw_rpm_history_1 = raw;
          last_filtered_rpm = filtered;
          estimated_rpm_history = history;
          indexer = (e.indexer + 1) % average_filter_len;
        },
        if leb average_filter_len estimator_counter
            then sum_ℤ history /ℤ pos average_filter_len
            else filtered,
      )
