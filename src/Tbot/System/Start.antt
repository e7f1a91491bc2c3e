-- ===== src/Tbot/System/Start.antt =====
-- The state in which the threads of the robot begin, and every run from it.
use robofw.Common.{◌≡◌, refl, true, List, length, arith}
use robofw.Common.Int.{pos}
use robofw.Common.Floats.{Floats, FloatLaws}
use robofw.Common.Msgq.{Msgq, MsgqLaws}
use robofw.Common.Msgq.Post.{Defined, Defined-IsUsable}
use robofw.Can.{CanFrame, CanDriver}
use robofw.Sbus.{sbus_decoder_init}
use robofw.Startup.Receiver.{static_decoder, static_message}
use robofw.Sbus.Stream.{decoder_init-IsValid}
use robofw.Types.{EstimatedSpeed}
use robofw.Encoder.Loop.{encoder_init}
use robofw.Encoder.Running.{IsConfigured, encoder_init-IsRunning}
use robofw.Tbot.Codec.{TbotMsg}
use robofw.Tbot.Coordinator.{coordinator_init}
use robofw.Tbot.Speed.{speed_init}
use robofw.Tbot.System.{Queues, Threads, Devices, Turn}
use robofw.Tbot.System.Sound.{IsSound, Result, TimesPass}
use robofw.Tbot.System.Run.{Ran, run-Ran}

-- What the variables that the code does not initialise hold, and the state of the CAN driver.
pub record Uninitialised (F : Type 0) (Can : Type 0) : Type 0 where
  pub measured : EstimatedSpeed
  pub speed_estimate : EstimatedSpeed
  pub rx_msg : TbotMsg F
  pub tx_frame : CanFrame
  pub can : Can

module _ (f : Floats) where
  open f use {F32}

  -- Static variables are zero, but for the decoder, which the start of the receiver prepares.
  unfoldable pub threads_init : {Can : Type 0} → Uninitialised F32 Can → Threads F32 Can
  unfolding sbus_decoder_init coordinator_init speed_init encoder_init
  threads_init u = record {
    decoder = sbus_decoder_init static_decoder;
    sbus_msg = static_message;
    coordinator = coordinator_init f;
    prev_target_rpm = record { motor_0 = pos 0; motor_1 = pos 0 };
    speed = speed_init f 20 u.measured;
    encoder = encoder_init u.speed_estimate;
    rx_msg = u.rx_msg;
    tx_frame = u.tx_frame;
    can = u.can;
  }

  module _ (flaws : FloatLaws f) (k : Msgq) (laws : MsgqLaws k) where
    open k use {Queue, contents, capacity}

    pub record QueuesDefined (q : Queues Queue F32) : Type 0 where
      pub receiver_data : Defined k laws 1 q.receiver_data
      pub actuator_data : Defined k laws 16 q.actuator_data
      pub encoder_rpm : Defined k laws 1 q.encoder_rpm
      pub desired_rpm : Defined k laws 1 q.desired_rpm
      pub speed_control_feedback : Defined k laws 1 q.speed_control_feedback
      pub desired_motion : Defined k laws 1 q.desired_motion
      pub robot_state : Defined k laws 1 q.robot_state
      pub can_desired_motion : Defined k laws 1 q.can_desired_motion
      pub supervisor_cmd : Defined k laws 1 q.supervisor_cmd

    threads_init-IsSound :
        {Can : Type 0} (q : Queues Queue F32) (u : Uninitialised F32 Can)
        → QueuesDefined q
        → length u.tx_frame.bytes ≡ 8
        → IsSound f k laws (q, threads_init u)
    unfolding threads_init coordinator_init
    threads_init-IsSound q u s long = (
      (
        Defined-IsUsable k laws 1 (omega arith) s.receiver_data,
        Defined-IsUsable k laws 16 (omega arith) s.actuator_data,
        Defined-IsUsable k laws 1 (omega arith) s.encoder_rpm,
        Defined-IsUsable k laws 1 (omega arith) s.desired_rpm,
        Defined-IsUsable k laws 1 (omega arith) s.speed_control_feedback,
        Defined-IsUsable k laws 1 (omega arith) s.desired_motion,
        Defined-IsUsable k laws 1 (omega arith) s.robot_state,
        Defined-IsUsable k laws 1 (omega arith) s.can_desired_motion,
        Defined-IsUsable k laws 1 (omega arith) s.supervisor_cmd,
      ),
      (
        decoder_init-IsValid static_decoder refl,
        record { rc = omega arith; can = omega arith },
        encoder_init-IsRunning u.speed_estimate,
        long,
      ),
    )

    -- From its start on, the robot runs: with the queues as the firmware defines them and the threads'
    -- variables as their loops initialise them, whatever the other variables hold, in whatever order
    -- the threads take their turns and whatever comes in, the run ends, no PWM call has a duty cycle
    -- below 0 or above 1, and the state is sound after it, if the CAN device is active, neither the
    -- encoder service's sampling nor the pulses per round of an active encoder are 0, time passes
    -- before each turn of that service, and a frame has eight bytes.
    pub started_run-Ran :
        (d : CanDriver) (dev : Devices) (active : dev.dd_can.active ≡ true)
        (configured : IsConfigured dev.encoders) (ts : List Turn) (q : Queues Queue F32)
        (u : Uninitialised F32 d.State)
        → TimesPass ts
        → QueuesDefined q
        → length u.tx_frame.bytes ≡ 8
        → (out : Result f k laws d dev) × Ran f flaws k laws d dev active configured ts
            (q, threads_init u)
            out
    started_run-Ran d dev active configured ts q u times s long =
        run-Ran f flaws k laws d dev active configured ts (q, threads_init u) times
          (threads_init-IsSound q u s long)
