-- ===== src/Sbus/Stream.antt =====
-- The decoder over a stream of bytes: its buffer stays in bounds, it reports only whole frames, and
-- it reports every whole frame that starts where it waits for one.
use robofw.Common.{
  ℕ, zero, suc, ◌+◌, ◌<◌, ◌≡◌, refl, ◌≢◌, List, [], ◌∷◌, arith, get_or, set, length, length-set,
  if◌then◌else◌,
}
use robofw.Sbus.{
  SbusDecodeState, wait_for_sof, wait_for_payload, wait_for_eof, SbusDecodeBuffer, SbusMessage,
  sbus_frame_length, sbus_frame_head, sbus_decoder_init, sbus_decode_message, decode_sof,
  decode_payload, decode_eof,
}

-- The receiver's loop over the bytes at hand: the decoder and the message buffer afterwards, and the
-- messages that were reported, in order.
unfoldable pub feed :
    SbusDecodeBuffer → SbusMessage → List ℕ → SbusDecodeBuffer × SbusMessage × List SbusMessage
feed inst msg [] = (inst, msg, [])
feed inst msg (ch ∷ bytes) =
    let (found, inst', msg') = sbus_decode_message inst ch msg in
    let (last, buffer, reported) = feed inst' msg' bytes in
    (last, buffer, if found then msg' ∷ reported else reported)

pub record IsValid (inst : SbusDecodeBuffer) : Type 0 where
  pub size : length inst.frame ≡ sbus_frame_length
  pub room : inst.decode_state ≡ wait_for_payload → inst.indexer < 23
  pub filled : inst.decode_state ≡ wait_for_eof → inst.indexer ≡ 23
  pub headed : inst.decode_state ≢ wait_for_sof → get_or inst.frame 0 0 ≡ sbus_frame_head

-- `SbusDecoderInit` makes any buffer of the right size valid.
pub decoder_init-IsValid :
    (inst : SbusDecodeBuffer)
    → length inst.frame ≡ sbus_frame_length
    → IsValid (sbus_decoder_init inst)
unfolding sbus_decoder_init
decoder_init-IsValid inst h = record {
  size = h;
  room = λ e. cc;
  filled = λ e. cc;
  headed = λ e. absurd (e refl);
}

pub get_or-set_later : (xs : List ℕ) (i v : ℕ) → 0 < i → get_or (set xs i v) 0 0 ≡ get_or xs 0 0
get_or-set_later [] i v h = refl
get_or-set_later (x ∷ xs) zero v h = elim h [ ]
get_or-set_later (x ∷ xs) (suc i) v h = refl

decode_message-IsValid_in :
    (s : SbusDecodeState) (inst : SbusDecodeBuffer) (ch : ℕ) (msg : SbusMessage)
    → inst.decode_state ≡ s
    → IsValid inst
    → IsValid (sbus_decode_message inst ch msg).1
unfolding sbus_decode_message decode_sof decode_payload decode_eof
decode_message-IsValid_in wait_for_sof inst ch msg e v = rw e (ground arith)
decode_message-IsValid_in wait_for_payload inst ch msg e v = rw e (
    ground (
      arith,
      length-set inst.frame (inst.indexer + 1) ch,
      get_or-set_later inst.frame (inst.indexer + 1) ch,
    ))
decode_message-IsValid_in wait_for_eof inst ch msg e v = rw e (
    ground (
      arith,
      length-set inst.frame (inst.indexer + 1) ch,
      get_or-set_later inst.frame (inst.indexer + 1) ch,
    ))

-- Every byte keeps a valid decode buffer valid, in every state.
pub decode_message-IsValid :
    (inst : SbusDecodeBuffer) (ch : ℕ) (msg : SbusMessage)
    → IsValid inst
    → IsValid (sbus_decode_message inst ch msg).1
decode_message-IsValid inst ch msg v =
    decode_message-IsValid_in inst.decode_state inst ch msg refl v

-- So do any bytes.
pub feed-IsValid :
    (bytes : List ℕ) (inst : SbusDecodeBuffer) (msg : SbusMessage)
    → IsValid inst
    → IsValid (feed inst msg bytes).0
unfolding feed
feed-IsValid [] inst msg v = v
feed-IsValid (ch ∷ bytes) inst msg v = feed-IsValid bytes _ _ (decode_message-IsValid inst ch msg v)

-- The index that the next byte of a frame is written to lies inside a valid buffer, where the
-- decoder is not waiting for a frame.
pub next_index_in_bounds :
    (inst : SbusDecodeBuffer)
    → IsValid inst
    → inst.decode_state ≢ wait_for_sof
    → inst.indexer + 1 < length inst.frame
next_index_in_bounds inst v h = ground arith
