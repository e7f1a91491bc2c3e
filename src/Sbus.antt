-- ===== src/Sbus.antt =====
-- src/module/sbus: the frame decoder of the SBUS receiver, a byte at a time.
-- A function that writes through a pointer returns the new value beside its result.
pub mod Channels
pub mod Stream
pub mod Frames
pub mod RoundTrip
pub mod Validate
use robofw.Common.{
  ℕ, ◌+◌, ◌<◌, ◌≡◌, Bool, true, false, ◌||◌, List, [], ◌∷◌, ltb, leb, ◌==◌, if◌then◌else◌, not,
  get_or, set, replicate, bit_and, bit_or,
}
use robofw.Common.Bits.{shr, shl}

abbrev pub sbus_frame_length : ℕ
sbus_frame_length = 25

abbrev pub sbus_frame_head : ℕ
sbus_frame_head = 0x0f

abbrev pub sbus_frame_tail : ℕ
sbus_frame_tail = 0x00

-- `SbusDecodeState`; the code keeps it in a `uint8_t` and assigns it no other value.
pub data SbusDecodeState : Type 0 where
  wait_for_sof wait_for_payload wait_for_eof : SbusDecodeState

-- `SbusDecodeBuffer`, which is all of an `SbusDecoderInstance`.
pub record SbusDecodeBuffer : Type 0 where
  pub decode_state : SbusDecodeState
  pub frame : List ℕ
  pub indexer : ℕ

pub record SbusMessage : Type 0 where
  pub channels : List ℕ
  pub frame_loss : Bool
  pub fault_protection : Bool

-- Only the state is reset: the other two fields are set at the start of a frame.
unfoldable pub sbus_decoder_init : SbusDecodeBuffer → SbusDecodeBuffer
sbus_decoder_init inst = record inst { decode_state = wait_for_sof }

-- An analog channel is 11 bits wide, from two bytes or from three.
abbrev pub two_bytes : ℕ → ℕ → ℕ
two_bytes low high = bit_and (bit_or low high) 0x07ff

abbrev pub three_bytes : ℕ → ℕ → ℕ → ℕ
three_bytes low middle high = bit_and (bit_or (bit_or low middle) high) 0x07ff

unfoldable pub sbus_build_message : List ℕ → SbusMessage
sbus_build_message buf = record {
  channels =
      two_bytes (shr (get_or buf 1 0) 0) (shl (get_or buf 2 0) 8)
      ∷ two_bytes (shr (get_or buf 2 0) 3) (shl (get_or buf 3 0) 5)
      ∷ three_bytes (shr (get_or buf 3 0) 6) (shl (get_or buf 4 0) 2) (shl (get_or buf 5 0) 10)
      ∷ two_bytes (shr (get_or buf 5 0) 1) (shl (get_or buf 6 0) 7)
      ∷ two_bytes (shr (get_or buf 6 0) 4) (shl (get_or buf 7 0) 4)
      ∷ three_bytes (shr (get_or buf 7 0) 7) (shl (get_or buf 8 0) 1) (shl (get_or buf 9 0) 9)
      ∷ two_bytes (shr (get_or buf 9 0) 2) (shl (get_or buf 10 0) 6)
      ∷ two_bytes (shr (get_or buf 10 0) 5) (shl (get_or buf 11 0) 3)
      ∷ two_bytes (shl (get_or buf 12 0) 0) (shl (get_or buf 13 0) 8)
      ∷ two_bytes (shr (get_or buf 13 0) 3) (shl (get_or buf 14 0) 5)
      ∷ three_bytes (shr (get_or buf 14 0) 6) (shl (get_or buf 15 0) 2) (shl (get_or buf 16 0) 10)
      ∷ two_bytes (shr (get_or buf 16 0) 1) (shl (get_or buf 17 0) 7)
      ∷ two_bytes (shr (get_or buf 17 0) 4) (shl (get_or buf 18 0) 4)
      ∷ three_bytes (shr (get_or buf 18 0) 7) (shl (get_or buf 19 0) 1) (shl (get_or buf 20 0) 9)
      ∷ two_bytes (shr (get_or buf 20 0) 2) (shl (get_or buf 21 0) 6)
      ∷ two_bytes (shr (get_or buf 21 0) 5) (shl (get_or buf 22 0) 3)
      ∷ bit_and (get_or buf 23 0) 0x80
      ∷ bit_and (get_or buf 23 0) 0x40
      ∷ [];
  frame_loss = not (bit_and (get_or buf 23 0) 0x20 == 0);
  fault_protection = not (bit_and (get_or buf 23 0) 0x10 == 0);
}

-- The cases of the `switch`: the result, the new buffer, and what `sbus_msg` points to.
unfoldable pub decode_sof :
    SbusDecodeBuffer → ℕ → SbusMessage → Bool × SbusDecodeBuffer × SbusMessage
decode_sof inst ch msg =
    let cleared = record inst { indexer = 0; frame = replicate sbus_frame_length 0 } in
    if ch == sbus_frame_head
    then (
      false,
      record cleared {
        decode_state = wait_for_payload;
        frame = set cleared.frame cleared.indexer ch;
      },
      msg,
    )
    else (false, cleared, msg)

unfoldable pub decode_payload :
    SbusDecodeBuffer → ℕ → SbusMessage → Bool × SbusDecodeBuffer × SbusMessage
decode_payload inst ch msg =
    let i = inst.indexer + 1 in
    let stored = record inst { indexer = i; frame = set inst.frame i ch } in
    if i == 23
    then (false, record stored { decode_state = wait_for_eof }, msg)
    else (false, stored, msg)

unfoldable pub decode_eof :
    SbusDecodeBuffer → ℕ → SbusMessage → Bool × SbusDecodeBuffer × SbusMessage
unfolding sbus_build_message
decode_eof inst ch msg =
    if ch == sbus_frame_tail
    then (let i = inst.indexer + 1 in
        let buf = set inst.frame i ch in
        (
          true,
          record inst { indexer = i; frame = buf; decode_state = wait_for_sof },
          sbus_build_message buf,
        ))
    else (false, record inst { decode_state = wait_for_sof }, msg)

abbrev decode_in :
    SbusDecodeState → SbusDecodeBuffer → ℕ → SbusMessage → Bool × SbusDecodeBuffer × SbusMessage
decode_in wait_for_sof = decode_sof
decode_in wait_for_payload = decode_payload
decode_in wait_for_eof = decode_eof

unfoldable pub sbus_decode_message :
    SbusDecodeBuffer → ℕ → SbusMessage → Bool × SbusDecodeBuffer × SbusMessage
sbus_decode_message inst ch msg = decode_in inst.decode_state inst ch msg

-- The loop of `ValidateSbusMessage` over the channels that are left, with the zeros seen so far
-- (at most 5, so `uint8_t` does not wrap).
unfoldable pub few_zeros : List ℕ → ℕ → Bool
few_zeros [] zero_num = true
few_zeros (c ∷ cs) zero_num =
    let n = zero_num + (if c == 0 then 1 else 0) in
    let rest = few_zeros cs n in if ltb 4 n then false else rest

abbrev pub first_eight : List ℕ → List ℕ
first_eight cs =
    get_or cs 0 0
    ∷ get_or cs 1 0
    ∷ get_or cs 2 0
    ∷ get_or cs 3 0
    ∷ get_or cs 4 0
    ∷ get_or cs 5 0
    ∷ get_or cs 6 0
    ∷ get_or cs 7 0
    ∷ []

unfoldable pub validate_sbus_message : SbusMessage → Bool
unfolding few_zeros
validate_sbus_message msg =
    if msg.fault_protection || msg.frame_loss then false else few_zeros (first_eight msg.channels) 0
