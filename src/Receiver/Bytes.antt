-- ===== src/Receiver/Bytes.antt =====
-- Every message that the decoder reports reaches the receiver's queue, scaled and in order.
use robofw.Common.{
  ℕ, ◌<◌, ◌≡◌, refl, ap, ◌∙◌, true, false, some, List, [], ◌∷◌, length, Bool-cases, inl, inr,
}
use mathlib.Core.Path.{ap₂}
use robofw.Common.Floats.{Floats}
use robofw.Common.Msgq.{Msgq, MsgqLaws, post}
use robofw.Common.Msgq.Post.{IsUsable, delivered, post_delivers}
use robofw.Sbus.{SbusDecodeBuffer, SbusMessage, sbus_decode_message, wait_for_sof}
use robofw.Sbus.Stream.{feed}
use robofw.Sbus.RoundTrip.{
  sent_frame, sent_message, AllBelow, feed-sent_frame, feed-sent_frame_waits,
}
use robofw.Types.{ReceiverData}
use robofw.Receiver.{receiver_data, receive_byte, receive_bytes}

-- A queue after several posts.
abbrev pub delivered_all : {A : Type 0} → ℕ → List A → List A → List A
delivered_all cap held [] = held
delivered_all cap held (x ∷ xs) = delivered_all cap (delivered cap held x) xs

module _ (f : Floats) where
  open f use {F32}

  abbrev pub data_of : List SbusMessage → List (ReceiverData F32)
  data_of [] = []
  data_of (m ∷ ms) = receiver_data f m ∷ data_of ms

  module _ (k : Msgq) (laws : MsgqLaws k) where
    open k use {Queue, contents, capacity}

    pub record Received (bytes : List ℕ) (inst : SbusDecodeBuffer) (msg : SbusMessage)
        (q : Queue (ReceiverData F32)) (q' : Queue (ReceiverData F32)) : Type 0 where
      pub ended :
          receive_bytes f k bytes (inst, msg, q)
          ≡ some ((feed inst msg bytes).0, (feed inst msg bytes).1, q')
      pub queued :
          contents q' ≡ delivered_all (capacity q) (contents q) (data_of (feed inst msg bytes).2)
      pub usable : IsUsable k laws q'
      pub same_capacity : capacity q' ≡ capacity q

    receive_byte-found :
        (ch : ℕ) (inst : SbusDecodeBuffer) (msg : SbusMessage) (q q2 : Queue (ReceiverData F32))
        → (sbus_decode_message inst ch msg).0 ≡ true
        → post k q (receiver_data f (sbus_decode_message inst ch msg).2) ≡ some q2
        → receive_byte f k ch (inst, msg, q)
          ≡ some ((sbus_decode_message inst ch msg).1, (sbus_decode_message inst ch msg).2, q2)
    unfolding receive_byte
    receive_byte-found ch inst msg q q2 e p = rw (receive_byte, e, p) refl

    receive_byte-quiet :
        (ch : ℕ) (inst : SbusDecodeBuffer) (msg : SbusMessage) (q : Queue (ReceiverData F32))
        → (sbus_decode_message inst ch msg).0 ≡ false
        → receive_byte f k ch (inst, msg, q)
          ≡ some ((sbus_decode_message inst ch msg).1, (sbus_decode_message inst ch msg).2, q)
    unfolding receive_byte
    receive_byte-quiet ch inst msg q e = rw (receive_byte, e) refl

    -- The loop over any bytes ends, if the queue can hold something: the decoder and its message are
    -- as the stream leaves them, and the queue has got the scaled channels of every message that
    -- the decoder reported, in order.
    pub receive_bytes-Received :
        (bytes : List ℕ) (inst : SbusDecodeBuffer) (msg : SbusMessage)
        (q : Queue (ReceiverData F32))
        → IsUsable k laws q
        → (q' : Queue (ReceiverData F32)) × Received bytes inst msg q q'
    unfolding receive_bytes feed
    receive_bytes-Received [] inst msg q u =
        (q, record { ended = refl; queued = refl; usable = u; same_capacity = refl })
    receive_bytes-Received (ch ∷ bytes) inst msg q u =
        let (found, inst2, msg2) = sbus_decode_message inst ch msg in
        elim (Bool-cases found) [
          | inl e ↦
              (let (q2, d) = post_delivers k laws q (receiver_data f msg2) u in
                let (q', r) = receive_bytes-Received bytes inst2 msg2 q2 d.usable in
                (
                  q',
                  record {
                    ended =
                        rw (receive_bytes, receive_byte-found ch inst msg q q2 e d.posted) r.ended;
                    queued = rw e (
                        r.queued
                        ∙ ap₂
                            (λ cap held. delivered_all cap held (data_of (feed inst2 msg2 bytes).2))
                            d.same_capacity d.holds);
                    usable = r.usable;
                    same_capacity = r.same_capacity ∙ d.same_capacity;
                  },
                ))
          | inr e ↦
              (let (q', r) = receive_bytes-Received bytes inst2 msg2 q u in
                (
                  q',
                  record {
                    ended = rw (receive_bytes, receive_byte-quiet ch inst msg q e) r.ended;
                    queued = rw e r.queued;
                    usable = r.usable;
                    same_capacity = r.same_capacity;
                  },
                ))
        ]

    pub record FrameReceived (cs : List ℕ) (flags : ℕ) (inst : SbusDecodeBuffer) (msg : SbusMessage)
        (q : Queue (ReceiverData F32))
        (out : SbusDecodeBuffer × SbusMessage × Queue (ReceiverData F32)) : Type 0 where
      pub ended : receive_bytes f k (sent_frame cs flags) (inst, msg, q) ≡ some out
      pub queued :
          contents out.2
          ≡ delivered (capacity q) (contents q) (receiver_data f (sent_message cs flags))
      pub usable : IsUsable k laws out.2
      pub same_capacity : capacity out.2 ≡ capacity q
      pub waits : out.0.decode_state ≡ wait_for_sof

    -- A whole frame of sixteen channels of 11 bits, to a decoder that waits for one, puts the scaled
    -- values of its first eight channels into the queue, if that can hold something, whatever its
    -- flags say: they are not looked at. The decoder waits for the next frame.
    pub receive_bytes-sent_frame :
        (cs : List ℕ) (flags : ℕ) (inst : SbusDecodeBuffer) (msg : SbusMessage)
        (q : Queue (ReceiverData F32))
        → IsUsable k laws q
        → inst.decode_state ≡ wait_for_sof
        → length cs ≡ 16
        → AllBelow 2048 cs
        → flags < 256
        → (out : SbusDecodeBuffer × SbusMessage × Queue (ReceiverData F32)) × FrameReceived cs flags
            inst msg q out
    receive_bytes-sent_frame cs flags inst msg q u s n below small =
        let (q', r) = receive_bytes-Received (sent_frame cs flags) inst msg q u in
        (
          ((feed inst msg (sent_frame cs flags)).0, (feed inst msg (sent_frame cs flags)).1, q'),
          record {
            ended = r.ended;
            queued =
                r.queued
                ∙ ap (λ ms. delivered_all (capacity q) (contents q) (data_of ms))
                    (feed-sent_frame inst msg cs flags s n below small);
            usable = r.usable;
            same_capacity = r.same_capacity;
            waits = feed-sent_frame_waits inst msg cs flags s;
          },
        )
