-- ===== src/Tbot/System/Sound.antt =====
-- When the state of the robot is sound, and what a turn has to keep.
use robofw.Common.{◌<◌, ◌≡◌, some, List, [], ◌∷◌, length}
use robofw.Common.Floats.{Floats}
use robofw.Common.Msgq.{Msgq, MsgqLaws}
use robofw.Common.Msgq.Post.{IsUsable}
use robofw.Can.{CanDriver}
use robofw.Mcal.{HwCall}
use robofw.Mcal.Duty.{AllSafe}
use robofw.Sbus.Stream.{IsValid}
use robofw.Encoder.Running.{IsRunning}
use robofw.Tbot.Coordinator.Timeouts.{CountersBounded}
use robofw.Tbot.System.{Queues, Threads, Devices, Turn, encoder_turns, turn}

-- The clock has gone on since the encoder service had its last turn.
abbrev pub TimePasses : Turn → Type 0
TimePasses (encoder_turns r0 r1 time) = 0 < time
TimePasses _ = Unit {0}

abbrev pub TimesPass : List Turn → Type 0
TimesPass [] = Unit {0}
TimesPass (t ∷ ts) = TimePasses t × TimesPass ts

module _ (f : Floats) (k : Msgq) (laws : MsgqLaws k) where
  open f use {F32}
  open k use {Queue, get, contents, capacity}

  -- Every queue can hold something and holds no more than it can.
  abbrev pub QueuesUsable : Queues Queue F32 → Type 0
  QueuesUsable q =
      IsUsable k laws q.receiver_data
      × IsUsable k laws q.actuator_data
      × IsUsable k laws q.encoder_rpm
      × IsUsable k laws q.desired_rpm
      × IsUsable k laws q.speed_control_feedback
      × IsUsable k laws q.desired_motion
      × IsUsable k laws q.robot_state
      × IsUsable k laws q.can_desired_motion
      × IsUsable k laws q.supervisor_cmd

  -- The decode buffer is valid, no timeout counter is past 6, the encoder's filters are in order, and
  -- the variable for frames has eight bytes.
  abbrev pub ThreadsSound : {Can : Type 0} → Threads F32 Can → Type 0
  ThreadsSound t =
      IsValid t.decoder
      × CountersBounded t.coordinator
      × IsRunning t.encoder
      × (length t.tx_frame.bytes ≡ 8)

  abbrev pub IsSound : {Can : Type 0} → Queues Queue F32 × Threads F32 Can → Type 0
  IsSound w = QueuesUsable w.0 × ThreadsSound w.1

  module _ (d : CanDriver) (dev : Devices) where
    open d use {State}

    abbrev pub Result : Type 0
    Result = (Queues Queue F32 × Threads F32 State) × List HwCall

    -- A turn ends, what it leaves is sound, and its calls are safe.
    pub record Kept (t : Turn) (w : Queues Queue F32 × Threads F32 State) (out : Result)
        : Type 0 where
      pub ended : turn f k d dev t w ≡ some out
      pub sound : IsSound out.0
      pub safe : AllSafe f out.1
