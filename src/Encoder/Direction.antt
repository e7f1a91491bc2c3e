-- ===== src/Encoder/Direction.antt =====
-- The direction and the distance that a wheel has turned, across the ends of its 16-bit counter.
use robofw.Common.{ℕ, suc, ◌+◌, ◌-◌, ◌%◌, ◌<◌, ◌≤◌, ◌≡◌, Bool, true, false, List, [], ◌∷◌, arith}
use robofw.Common.Int.{ℤ, pos, negsuc}
use robofw.Encoder.{
  EncoderChannel, detect_overflow, find_direction, add_error, update_channel, channel_init,
}

-- The counter after the wheel moved by some pulses.
abbrev pub moved : ℕ → ℤ → ℕ
moved reading (pos d) = (reading + d) % 65536
moved reading (negsuc d) = (reading + 65536 - suc d) % 65536

abbrev pub magnitude : ℤ → ℕ
magnitude (pos d) = d
magnitude (negsuc d) = suc d

abbrev pub is_forward : ℤ → Bool
is_forward (pos d) = true
is_forward (negsuc d) = false

-- Between two turns no passage is pending, and the last reading has 16 bits.
pub record IsSettled (c : EncoderChannel) : Type 0 where
  pub overflow : c.overflow_detected ≡ false
  pub underflow : c.underflow_detected ≡ false
  pub reading : c.encoder_prev_reading < 65536

-- What a move of at most 150 pulses does.
pub record Tracked (c : EncoderChannel) (move : ℤ) (out : EncoderChannel) : Type 0 where
  pub settled : IsSettled out
  pub direction : out.is_counting_up ≡ is_forward move
  pub distance : out.accumulated_error ≡ (c.accumulated_error + magnitude move) % 65536
  pub position : out.encoder_prev_reading ≡ moved c.encoder_prev_reading move

-- A wheel that moves by at most 150 pulses from a settled channel to its next reading is followed
-- exactly, also across both ends of the counter: the direction is the move's, and its size is added to the error.
pub update_channel-Tracked :
    (c : EncoderChannel) (move : ℤ)
    → IsSettled c
    → magnitude move ≤ 150
    → Tracked c move (update_channel (moved c.encoder_prev_reading move) c)
unfolding update_channel detect_overflow find_direction add_error
update_channel-Tracked c (pos d) s h = record {
  settled = record { overflow = ground arith; underflow = ground arith; reading = ground arith };
  direction = ground arith;
  distance = ground arith;
  position = ground arith;
}
update_channel-Tracked c (negsuc d) s h = record {
  settled = record { overflow = ground arith; underflow = ground arith; reading = ground arith };
  direction = ground arith;
  distance = ground arith;
  position = ground arith;
}

-- The loop over the moves of a wheel, a reading after each.
abbrev pub follow : List ℤ → EncoderChannel → EncoderChannel
follow [] c = c
follow (m ∷ ms) c = follow ms (update_channel (moved c.encoder_prev_reading m) c)

abbrev pub total : List ℤ → ℕ
total [] = 0
total (m ∷ ms) = magnitude m + total ms

pub data AllSmall : List ℤ → Type 0 where
  none_left : AllSmall []
  small : {m : ℤ} {ms : List ℤ} → magnitude m ≤ 150 → AllSmall ms → AllSmall (m ∷ ms)

-- After any number of moves of at most 150 pulses from a settled channel the error is the sum of their sizes, as 16 bits
-- hold it, and no passage is pending.
pub follow-total :
    (ms : List ℤ) (c : EncoderChannel)
    → IsSettled c
    → c.accumulated_error < 65536
    → AllSmall ms
    → IsSettled (follow ms c)
      × ((follow ms c).accumulated_error ≡ (c.accumulated_error + total ms) % 65536)
follow-total [] c s h none_left = (s, omega arith)
follow-total (m ∷ ms) c s h (small k rest) =
    let t = update_channel-Tracked c m s k in
    let next = update_channel (moved c.encoder_prev_reading m) c in
    let more = follow-total ms next t.settled (omega (arith, t.distance)) rest in
    (more.0, omega (arith, more.1, t.distance))

-- The first decrease of the first encoder, by at most 150 pulses, counts as an increase of 65536
-- less its size, since `overflow_detected` starts as true.
pub channel_init-decrease :
    (start d : ℕ)
    → start < 65536
    → suc d ≤ 150
    → suc d ≤ start
    → let c = record (channel_init true) { encoder_prev_reading = start } in
      ((update_channel (start - suc d) c).is_counting_up ≡ true)
      × ((update_channel (start - suc d) c).accumulated_error ≡ 65536 - suc d)
unfolding channel_init update_channel detect_overflow find_direction add_error
channel_init-decrease start d h k l = ground arith
