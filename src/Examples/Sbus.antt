-- ===== src/Examples/Sbus.antt =====
-- The SBUS decoder and the receiver service on concrete frames.
use robofw.Common.{ℕ, ◌<◌, ◌≡◌, refl, true, false, List, [], ◌∷◌, map, get_or, replicate, arith}
use robofw.Common.Floats.{fixed}
use robofw.Common.Msgq.Bounded.{Bounded, bounded, bounded-MsgqLaws}
use robofw.Types.{ReceiverData}
use robofw.Sbus.{
  SbusDecodeBuffer, SbusMessage, wait_for_sof, wait_for_eof, sbus_build_message,
  sbus_decode_message,
}
use robofw.Sbus.Stream.{feed, IsValid}
use robofw.Sbus.Frames.{Sound, decode_message-Sound, frame_bytes, all_bytes, feed-frames}
use robofw.Sbus.RoundTrip.{AllBelow, sent_frame, sent_message, feed-sent_frame}
use robofw.Receiver.Bytes.{Received, receive_bytes-Received}
use robofw.Examples.Data.{queue, queue-IsUsable}

abbrev pub waiting : SbusDecodeBuffer
waiting = record { decode_state = wait_for_sof; frame = replicate 25 0; indexer = 0 }

-- At the end of a payload.
abbrev ending : SbusDecodeBuffer
ending = record { decode_state = wait_for_eof; frame = 0x0f ∷ replicate 24 0; indexer = 23 }

abbrev pub old : SbusMessage
old = record { channels = []; frame_loss = true; fault_protection = false }

abbrev pub sticks : List ℕ
sticks =
    1023 ∷ 240 ∷ 1807 ∷ 5 ∷ 2047 ∷ 0 ∷ 1 ∷ 2 ∷ 3 ∷ 1024 ∷ 600 ∷ 700 ∷ 800 ∷ 900 ∷ 1000 ∷ 1100 ∷ []

pub sticks-AllBelow : AllBelow 2048 sticks
sticks-AllBelow = omega arith

pub waiting-IsValid : IsValid waiting
waiting-IsValid = record {
  size = refl;
  room = λ e. absurd (ground arith);
  filled = λ e. absurd (ground arith);
  headed = λ e. absurd (e refl);
}

ending-IsValid : IsValid ending
ending-IsValid = record {
  size = refl;
  room = λ e. absurd (ground arith);
  filled = λ e. refl;
  headed = λ e. refl;
}

feed-sent_frame_example :
    (feed waiting old (sent_frame sticks 0x20)).2 ≡ sent_message sticks 0x20 ∷ []
feed-sent_frame_example =
    feed-sent_frame waiting old sticks 0x20 refl refl sticks-AllBelow (omega arith)

receive_bytes-Received_example :
    (q : Bounded (ReceiverData _)) × Received fixed bounded bounded-MsgqLaws
      (1 ∷ 0x0f ∷ 3 ∷ [])
      waiting
      old
      queue
      q
receive_bytes-Received_example =
    receive_bytes-Received fixed bounded bounded-MsgqLaws (1 ∷ 0x0f ∷ 3 ∷ []) waiting old queue
      queue-IsUsable

feed-frames_example :
    (feed waiting old (all_bytes (replicate 23 1 ∷ replicate 23 2 ∷ []))).2
    ≡ map (λ p. sbus_build_message (frame_bytes p)) (replicate 23 1 ∷ replicate 23 2 ∷ [])
feed-frames_example =
    feed-frames (replicate 23 1 ∷ replicate 23 2 ∷ []) waiting old refl (refl, (refl, tt))

decode_message-Sound_example : Sound ending old (sbus_decode_message ending 0 old)
decode_message-Sound_example = decode_message-Sound ending 0 old ending-IsValid

zero-below : (i : ℕ) → get_or [] i 0 < 256
zero-below i = omega arith
