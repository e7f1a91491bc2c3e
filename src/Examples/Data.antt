-- ===== src/Examples/Data.antt =====
-- What the examples share: fixed-point numbers, bounded queues, and a CAN driver that logs its frames.
use robofw.Common.{ℕ, ◌%◌, true, List, [], ◌∷◌, ◌++◌, arith}
use robofw.Common.Int.{pos, negsuc}
use robofw.Common.Msgq.Bounded.{Bounded, bounded, bounded-MsgqLaws}
use robofw.Common.Msgq.Post.{IsUsable}
use robofw.Can.{CanFrame, CanDriver, CanDescriptor, standard}
use robofw.Mcal.{LedDescriptor}
use robofw.Types.{EstimatedSpeed}

abbrev pub queue : {A : Type 0} → Bounded A
queue = record { items = []; bound = 1 }

abbrev pub holding : {A : Type 0} → A → Bounded A
holding a = record { items = a ∷ []; bound = 1 }

pub queue-IsUsable : {A : Type 0} → IsUsable bounded bounded-MsgqLaws {A = A} queue
queue-IsUsable = record { room = omega arith; within = omega arith }

abbrev pub led : LedDescriptor
led = record { active = true; pin = 0 }

-- Every call succeeds; a sent frame is added to the log.
abbrev pub logging : CanDriver
logging = record {
  State = List CanFrame;
  Timing = ℕ;
  calc_timing = λ s bitrate point. (pos 0, bitrate);
  set_timing = λ s timing. (pos 0, s);
  configure = λ s mode bitrate. (pos 0, s);
  attach_msgq = λ s filter. (pos 0, s);
  send = λ s frame. (pos 0, s ++ (frame ∷ []));
}

abbrev pub can : CanDescriptor
can = record { active = true; bitrate = 500000 }

abbrev pub blank : CanFrame
blank = record {
  id_type = standard;
  id = 0;
  rtr = 0;
  dlc = 0;
  bytes = 0 ∷ 0 ∷ 0 ∷ 0 ∷ 0 ∷ 0 ∷ 0 ∷ 0 ∷ [];
}

abbrev pub speeds : EstimatedSpeed
speeds = record {
  raw_rpm_0 = pos 100;
  raw_rpm_1 = negsuc 99;
  filtered_rpm_0 = pos 98;
  filtered_rpm_1 = negsuc 97;
}

-- What the 29 bits of an identifier keep.
abbrev pub id_29 : ℕ → ℕ
id_29 n = n % 536870912
