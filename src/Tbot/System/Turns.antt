-- ===== src/Tbot/System/Turns.antt =====
-- Every turn of every thread ends, if time passes between those of the encoder service, and keeps the
-- state sound.
mod Control
mod Edges
mod Uplink
use robofw.Common.{
  ℕ, suc, ◌+◌, ◌%◌, ◌<◌, ◌≡◌, refl, sym, ap, ◌∙◌, ◌⊎◌, inl, inr, true, Option, none, some, List, [],
  ◌∷◌, ◌++◌, length, ◌==◌, if◌then◌else◌, Bool-cases, Option-cases, arith,
}
use mathlib.Core.Path.{subst}
use robofw.Common.Floats.{Floats, FloatLaws}
use robofw.Common.Msgq.{Msgq, MsgqLaws}
use robofw.Common.Msgq.Post.{get-IsUsable, IsUsable-of, emptied-IsUsable}
use robofw.Tbot.System.Sound.{IsSound, Kept, Result, TimePasses}
use robofw.Can.{CanFrame, CanDriver}
use robofw.Mcal.{HwCall, toggle_led}
use robofw.Mcal.Duty.{AllSafe, done, AllWithin-append, toggle_led-AllWithin}
use robofw.Actuator.Safety.{tbot_turn-AllSafe}
use robofw.Actuator.Tbot.{actuator_turn}
use robofw.Sbus.Stream.{feed, IsValid, feed-IsValid}
use robofw.Receiver.Bytes.{receive_bytes-Received}
use robofw.Encoder.Running.{IsConfigured}
use robofw.Encoder.Turns.{encoder_turn-Sampled}
use robofw.Types.{ActuatorCmd}
use robofw.Tbot.Coordinator.{Coordinator, Ports}
use robofw.Tbot.Motion.{MotionPorts}
use robofw.Tbot.Speed.{SpeedPorts}
use robofw.Tbot.Coordinator.Sends.{
  coordinator_turn-Turned, coordinator_turn-InputsLeft, coordinator_turn_calls,
}
use robofw.Tbot.Coordinator.Timeouts.{CountersBounded, coordinator_turn-CountersBounded}
use robofw.Tbot.Messenger.Receive.{receive_frame-ends}
use robofw.Tbot.Messenger.Transmit.{transmit_turn-Transmitted}
use robofw.Tbot.Motion.Turns.{motion_turn-MotionTurned, motion_turn_left}
use robofw.Tbot.Speed.Turns.{speed_turn-SpeedTurned, speed_turn_left}
use robofw.Tbot.System.{
  Queues, Threads, Devices, Turn, receiver_reads, command_arrives, coordinator_turns, motion_turns,
  speed_turns, encoder_turns, actuators_turn, messenger_sends, turn, run,
}
use Control.{coordinator-Kept, motion-Kept, speed-Kept}
use Edges.{receiver-Kept, encoder-Kept, actuators-Kept}
use Uplink.{command-Kept, messenger-Kept}

module _ (f : Floats) (flaws : FloatLaws f) (k : Msgq) (laws : MsgqLaws k) where
  open f use {F32}
  open k use {Queue, get, contents, capacity}

  module _ (d : CanDriver) (dev : Devices) (active : dev.dd_can.active ≡ true)
      (configured : IsConfigured dev.encoders) where
    open d use {State}

    -- Every turn of every thread ends, if time passes between the encoder's, and keeps the state
    -- sound; its calls are safe.
    pub turn-Kept :
        (t : Turn) (w : Queues Queue F32 × Threads F32 State)
        → TimePasses t
        → IsSound f k laws w
        → (out : Result f k laws d dev) × Kept f k laws d dev t w out
    turn-Kept (receiver_reads bytes) w h s = receiver-Kept f flaws k laws d dev bytes w s
    turn-Kept (command_arrives frame) w h s = command-Kept f flaws k laws d dev active frame w s
    turn-Kept coordinator_turns w h s = coordinator-Kept f flaws k laws d dev w s
    turn-Kept motion_turns w h s = motion-Kept f flaws k laws d dev w s
    turn-Kept speed_turns w h s = speed-Kept f flaws k laws d dev w s
    turn-Kept (encoder_turns r0 r1 time) w h s =
        encoder-Kept f flaws k laws d dev r0 r1 time w configured h s
    turn-Kept actuators_turn w h s = actuators-Kept f flaws k laws d dev w s
    turn-Kept messenger_sends w h s = messenger-Kept f flaws k laws d dev active w s
