-- ===== src/Tbot/System/Turns/Edges.antt =====
-- The turns of the receiver, the encoder service and the actuators.
use robofw.Common.{ℕ, ◌<◌, refl, inl, inr, List, [], Option-cases}
use robofw.Common.Floats.{Floats, FloatLaws}
use robofw.Common.Msgq.{Msgq, MsgqLaws}
use robofw.Common.Msgq.Post.{get-IsUsable}
use robofw.Tbot.System.Sound.{IsSound, Kept, Result}
use robofw.Can.{CanDriver}
use robofw.Mcal.Duty.{done}
use robofw.Actuator.Safety.{tbot_turn-AllSafe}
use robofw.Actuator.Tbot.{actuator_turn}
use robofw.Sbus.Stream.{feed, feed-IsValid}
use robofw.Receiver.Bytes.{receive_bytes-Received}
use robofw.Encoder.Running.{IsConfigured}
use robofw.Encoder.Turns.{encoder_turn-Sampled}
use robofw.Tbot.System.{
  Queues, Threads, Devices, receiver_reads, encoder_turns, actuators_turn, turn,
}

module _ (f : Floats) (flaws : FloatLaws f) (k : Msgq) (laws : MsgqLaws k) where
  open f use {F32}
  open k use {Queue, get, contents, capacity}

  module _ (d : CanDriver) (dev : Devices) where
    open d use {State}

    pub receiver-Kept :
        (bytes : List ℕ) (w : Queues Queue F32 × Threads F32 State)
        → IsSound f k laws w
        → (out : Result f k laws d dev) × Kept f k laws d dev (receiver_reads bytes) w out
    unfolding turn
    receiver-Kept bytes (q, t) (u, s) =
        let (q', r) =
          receive_bytes-Received f k laws bytes t.decoder t.sbus_msg q.receiver_data u.0 in
        let (decoder, msg, reported) = feed t.decoder t.sbus_msg bytes in
        (
          ((record q { receiver_data = q' }, record t { decoder = decoder; sbus_msg = msg }), []),
          record {
            ended = rw (turn, r.ended) refl;
            sound = (
              (r.usable, u.1, u.2, u.3, u.4, u.5, u.6, u.7, u.8),
              (feed-IsValid bytes t.decoder t.sbus_msg s.0, s.1, s.2, s.3),
            );
            safe = done;
          },
        )

    pub encoder-Kept :
        (r0 r1 time : ℕ) (w : Queues Queue F32 × Threads F32 State)
        → IsConfigured dev.encoders
        → 0 < time
        → IsSound f k laws w
        → (out : Result f k laws d dev) × Kept f k laws d dev (encoder_turns r0 r1 time) w out
    unfolding turn
    encoder-Kept r0 r1 time (q, t) c passed (u, s) =
        let (out, r) =
          encoder_turn-Sampled f k laws dev.encoders r0 r1 time t.encoder q.encoder_rpm c passed s.2
            u.2 in
        (
          ((record q { encoder_rpm = out.1 }, record t { encoder = out.0 }), []),
          record {
            ended = rw (turn, r.ended) refl;
            sound =
                ((u.0, u.1, r.usable, u.3, u.4, u.5, u.6, u.7, u.8), (s.0, s.1, r.running, s.3));
            safe = done;
          },
        )

    pub actuators-Kept :
        (w : Queues Queue F32 × Threads F32 State)
        → IsSound f k laws w
        → (out : Result f k laws d dev) × Kept f k laws d dev actuators_turn w out
    unfolding turn
    actuators-Kept (q, t) (u, s) =
        let left = get-IsUsable k laws q.actuator_data u.1 in
        let sound : IsSound f k laws (record q { actuator_data = (get q.actuator_data).1 }, t) =
          ((u.0, left, u.2, u.3, u.4, u.5, u.6, u.7, u.8), s) in
        let after : Queues Queue F32 × Threads F32 State =
          (record q { actuator_data = (get q.actuator_data).1 }, t) in
        elim (Option-cases (get q.actuator_data).0) [
          | inl e ↦ ((after, []), record { ended = rw (turn, e) refl; sound = sound; safe = done })
          | inr (cmd, e) ↦ (
            (after, actuator_turn f dev.actuators cmd),
            record {
              ended = rw (turn, e) refl;
              sound = sound;
              safe = tbot_turn-AllSafe f flaws dev.actuators cmd;
            },
          )
        ]
