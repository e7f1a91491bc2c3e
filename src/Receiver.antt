-- ===== src/Receiver.antt =====
-- src/service/common/receiver/src/sbus_receiver.c: from the bytes of the receiver to scaled channels.
pub mod Bytes
pub mod Loop
pub mod Chunks
use robofw.Common.{ℕ, Bool, true, false, Option, none, some, List, [], ◌∷◌, ltb, if◌then◌else◌}
use robofw.Common.Int.{ℤ, pos, ◌-ℤ◌}
use robofw.Common.Floats.{Floats}
use robofw.Common.Msgq.{Msgq, post}
use robofw.Sbus.{SbusDecodeBuffer, SbusMessage, sbus_decode_message, first_eight}
use robofw.Types.{ReceiverData}

abbrev pub sbus_chn_max : ℤ
sbus_chn_max = pos 1807

abbrev pub sbus_chn_mid : ℤ
sbus_chn_mid = pos 1023

abbrev pub sbus_chn_min : ℤ
sbus_chn_min = pos 240

module _ (f : Floats) where
  open f use {F32, of_int, lit32, mul32, div32}

  -- (channel - SBUS_CHN_MID) * 1.0f / (the half of the range that it is in)
  unfoldable pub scale_channel : ℕ → F32
  scale_channel c =
      let offset = mul32 (of_int (pos c -ℤ sbus_chn_mid)) (lit32 1 1) in
      if ltb 1023 c
      then div32 offset (of_int (sbus_chn_max -ℤ sbus_chn_mid))
      else div32 offset (of_int (sbus_chn_mid -ℤ sbus_chn_min))

  abbrev pub scale_all : List ℕ → List F32
  scale_all [] = []
  scale_all (c ∷ cs) = scale_channel c ∷ scale_all cs

  -- The first eight channels of a message.
  unfoldable pub receiver_data : SbusMessage → ReceiverData F32
  unfolding scale_channel
  receiver_data msg = record { channels = scale_all (first_eight msg.channels) }

  module _ (k : Msgq) where
    open k use {Queue}

    -- One byte of the ring buffer through the inner loop of `SbusReceiverServiceLoop`.
    unfoldable pub receive_byte :
        ℕ
        → SbusDecodeBuffer × SbusMessage × Queue (ReceiverData F32)
        → Option (SbusDecodeBuffer × SbusMessage × Queue (ReceiverData F32))
    unfolding receiver_data
    receive_byte ch (inst, msg, q) =
        let (found, inst2, msg2) = sbus_decode_message inst ch msg in
        if found
        then elim (post k q (receiver_data msg2)) [ none ↦ none | some q2 ↦ some (inst2, msg2, q2) ]
        else some (inst2, msg2, q)

    -- The inner loop over the bytes at hand.
    unfoldable pub receive_bytes :
        List ℕ
        → SbusDecodeBuffer × SbusMessage × Queue (ReceiverData F32)
        → Option (SbusDecodeBuffer × SbusMessage × Queue (ReceiverData F32))
    receive_bytes [] s = some s
    receive_bytes (ch ∷ bytes) s = elim (receive_byte ch s) [
      | none ↦ none
      | some s2 ↦ receive_bytes bytes s2
    ]
