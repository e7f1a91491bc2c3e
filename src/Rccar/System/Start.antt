-- ===== src/Rccar/System/Start.antt =====
-- The state in which the threads of the car begin, and every run from it.
use robofw.Common.{ℕ, ◌≡◌, refl, some, List, arith}
use robofw.Common.Floats.{Floats}
use robofw.Common.Msgq.{Msgq, MsgqLaws}
use robofw.Common.Msgq.Post.{Defined, Defined-IsUsable}
use robofw.Can.{CanFrame, CanDriver, CanDescriptor}
use robofw.Mcal.{HwCall, LedDescriptor}
use robofw.Sbus.{sbus_decoder_init}
use robofw.Startup.Receiver.{static_decoder, static_message}
use robofw.Sbus.Stream.{decoder_init-IsValid}
use robofw.Vesc.{VescCmdPacket}
use robofw.Rccar.Coordinator.{coordinator_init}
use robofw.Rccar.System.{CarQueues, CarThreads, CarTurn, run}
use robofw.Rccar.System.Run.{CarSound, car_run-CarSound}

module _ (f : Floats) where
  open f use {F32}

  -- `rx_pkt` is not initialised; static variables are zero, but for the decoder, which the start of the
  -- receiver prepares.
  unfoldable pub threads_init : {Can : Type 0} → VescCmdPacket F32 → Can → CarThreads F32 Can
  unfolding sbus_decoder_init coordinator_init
  threads_init rx_pkt can = record {
    decoder = sbus_decoder_init static_decoder;
    sbus_msg = static_message;
    coordinator = coordinator_init f;
    rx_pkt = rx_pkt;
    can = can;
  }

  module _ (k : Msgq) (laws : MsgqLaws k) where
    open k use {Queue, contents, capacity}

    pub record CarQueuesDefined (q : CarQueues Queue F32) : Type 0 where
      pub receiver_data : Defined k laws 1 q.receiver_data
      pub robot_state : Defined k laws 1 q.robot_state
      pub rc_desired_motion : Defined k laws 2 q.rc_desired_motion

    threads_init-CarSound :
        {Can : Type 0} (q : CarQueues Queue F32) (rx_pkt : VescCmdPacket F32) (can : Can)
        → CarQueuesDefined q
        → CarSound f k laws (q, threads_init rx_pkt can)
    unfolding threads_init coordinator_init
    threads_init-CarSound q rx_pkt can s = record {
      received = Defined-IsUsable k laws 1 (omega arith) s.receiver_data;
      state = Defined-IsUsable k laws 1 (omega arith) s.robot_state;
      motion = Defined-IsUsable k laws 2 (omega arith) s.rc_desired_motion;
      decoder = decoder_init-IsValid static_decoder refl;
      coordinator = record { rc = omega arith; light = omega arith; halted = λ h. refl };
    }

    -- From its start on, the car runs: with the queues as the firmware defines them and the threads'
    -- variables as their loops initialise them, whatever the other variables hold, in whatever order
    -- the threads take their turns and whatever comes in, the run ends, and the state is sound after
    -- it; in particular no motion but zero is desired under an emergency stop.
    pub started_car-CarSound :
        (id_field : ℕ → ℕ) (d : CanDriver) (dd : CanDescriptor) (blank : CanFrame)
        (led : LedDescriptor) (ts : List CarTurn) (q : CarQueues Queue F32)
        (rx_pkt : VescCmdPacket F32) (can : d.State)
        → CarQueuesDefined q
        → (out : (CarQueues Queue F32 × CarThreads F32 d.State) × List HwCall) × (run f id_field d
              dd blank led k ts
              (q, threads_init rx_pkt can)
            ≡ some out)
          × CarSound f k laws out.0
    started_car-CarSound id_field d dd blank led ts q rx_pkt can s =
        car_run-CarSound f k laws id_field d dd blank led ts (q, threads_init rx_pkt can)
          (threads_init-CarSound q rx_pkt can s)
