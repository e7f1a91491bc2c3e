-- ===== src/Tbot/System/Run.antt =====
-- Every run of the robot, in any order of its threads' turns.
use robofw.Common.{◌≡◌, refl, true, some, List, [], ◌∷◌, ◌++◌}
use robofw.Common.Floats.{Floats, FloatLaws}
use robofw.Common.Msgq.{Msgq, MsgqLaws}
use robofw.Can.{CanDriver}
use robofw.Encoder.Running.{IsConfigured}
use robofw.Mcal.Duty.{AllSafe, done, AllWithin-append}
use robofw.Tbot.System.{Queues, Threads, Devices, Turn, run}
use robofw.Tbot.System.Sound.{IsSound, Result, TimesPass}
use robofw.Tbot.System.Turns.{turn-Kept}

module _ (f : Floats) (flaws : FloatLaws f) (k : Msgq) (laws : MsgqLaws k) (d : CanDriver)
    (dev : Devices) (active : dev.dd_can.active ≡ true)
    (configured : IsConfigured dev.encoders) where
  open f use {F32}
  open k use {Queue}
  open d use {State}

  -- A run ends, what it leaves is sound, and its calls are safe.
  pub record Ran (ts : List Turn) (w : Queues Queue F32 × Threads F32 State)
      (out : Result f k laws d dev) : Type 0 where
    pub ended : run f k d dev ts w ≡ some out
    pub sound : IsSound f k laws out.0
    pub safe : AllSafe f out.1

  -- In whatever order the threads take their turns and whatever comes in, no turn blocks or divides by
  -- 0: the run ends, if the CAN device is active, neither the encoder service's sampling nor the
  -- pulses per round of an active encoder are 0, time passes before each turn of that service, and the
  -- state is sound before the run, which means that every queue can hold something and holds no more
  -- than it can, the decode buffer is valid, the timeout counters are at most 6, the encoder's filters
  -- are in order and the variable for frames has eight bytes. The state is sound after it, and no PWM
  -- call has a duty cycle below 0 or above 1: each is in [0, 1], unless it is a NaN.
  pub run-Ran :
      (ts : List Turn) (w : Queues Queue F32 × Threads F32 State)
      → TimesPass ts
      → IsSound f k laws w
      → (out : Result f k laws d dev) × Ran ts w out
  unfolding run
  run-Ran [] w h s = ((w, []), record { ended = refl; sound = s; safe = done })
  run-Ran (t ∷ ts) w h s =
      let ((w2, calls), one) = turn-Kept f flaws k laws d dev active configured t w h.0 s in
      let ((w3, more), rest) = run-Ran ts w2 h.1 one.sound in
      (
        (w3, calls ++ more),
        record {
          ended = rw (run, one.ended, rest.ended) refl;
          sound = rest.sound;
          safe = AllWithin-append f one.safe rest.safe;
        },
      )
