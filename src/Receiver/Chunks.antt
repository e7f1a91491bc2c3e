-- ===== src/Receiver/Chunks.antt =====
-- From the events of the UART to the receiver's queue.
use robofw.Common.{
  ℕ, zero, suc, ◌<◌, ◌≤◌, ◌≡◌, refl, ap, ◌∙◌, Option, none, some, List, [], ◌∷◌, ◌++◌, length, inr,
  arith,
}
use robofw.Common.Floats.{Floats}
use robofw.Common.Msgq.{Msgq, MsgqLaws}
use robofw.Common.Msgq.Post.{IsUsable, delivered}
use robofw.Mcal.Uart.{UartKernel, UartKernelLaws, UartDriver, UartDescriptor, UartEvent}
use robofw.Mcal.Uart.Events.{arrived, announced_of, on_events, on_events-Arrived}
use robofw.Sbus.{SbusDecodeBuffer, SbusMessage, wait_for_sof}
use robofw.Sbus.RoundTrip.{sent_frame, sent_message, AllBelow}
use robofw.Types.{ReceiverData}
use robofw.Receiver.{receiver_data, receive_byte, receive_bytes}
use robofw.Receiver.Bytes.{receive_bytes-sent_frame}
use robofw.Receiver.Loop.{receive_within, receiver_turn}

module _ (f : Floats) (k : Msgq) (laws : MsgqLaws k) (u : UartKernel)
    (ulaws : UartKernelLaws u) where
  open f use {F32}
  open k use {Queue, contents, capacity}
  open u use {Ring, waiting, room, count, ring_get, sem_take}
  open ulaws use {get_none, get_none_waiting, get_some, get_rest, taken}

  abbrev Vars : Type 0
  Vars = SbusDecodeBuffer × SbusMessage × Queue (ReceiverData F32)

  abbrev with_ring : Ring → Option Vars → Option (Ring × Vars)
  with_ring r none = none
  with_ring r (some s) = some (r, s)

  with_ring-step :
      (r : Ring) (go : Vars → Option (Ring × Vars)) (after : Vars → Option Vars) (o : Option Vars)
      → ((s : Vars) → go s ≡ with_ring r (after s))
      → elim o [ none ↦ none | some s ↦ go s ]
        ≡ with_ring r (elim o [ none ↦ none | some s ↦ after s ])
  with_ring-step r go after none h = refl
  with_ring-step r go after (some s) h = h s

  -- With one read more than bytes wait, the loop does what those bytes do, and none are left.
  receive_within-bytes :
      (fuel : ℕ) (bytes : List ℕ) (r : Ring)
      → waiting r ≡ bytes
      → length bytes < fuel
      → (r' : Ring) × ((s : Vars)
          → receive_within f k u fuel r s ≡ with_ring r' (receive_bytes f k bytes s))
        × (waiting r' ≡ [])
  unfolding receive_within receive_bytes
  receive_within-bytes zero bytes r e h = absurd (omega arith)
  receive_within-bytes (suc fuel) [] r e h =
      ((ring_get r).1, λ s. rw (receive_within, get_none r e) refl, get_none_waiting r e)
  receive_within-bytes (suc fuel) (b ∷ bytes) r e h =
      let (r', same, empty) =
        receive_within-bytes fuel bytes (ring_get r).1 (get_rest r b bytes e) (omega arith) in
      (
        r',
        λ s.
            rw (receive_within, receive_bytes, get_some r b bytes e)
              (with_ring-step r' (receive_within f k u fuel (ring_get r).1)
                (receive_bytes f k bytes) (receive_byte f k b s) same),
        empty,
      )

  module _ (d : UartDriver u) where
    open d use {State}

    -- What one turn does with a whole frame.
    pub record FrameTaken (fuel : ℕ) (cs : List ℕ) (flags : ℕ) (dd : UartDescriptor u)
        (inst : SbusDecodeBuffer) (msg : SbusMessage) (q : Queue (ReceiverData F32))
        (out : UartDescriptor u × Vars) : Type 0 where
      pub ended : receiver_turn f k u fuel (dd, (inst, msg, q)) ≡ some out
      pub emptied : waiting out.0.ring_buffer ≡ []
      pub queued :
          contents out.1.2
          ≡ delivered (capacity q) (contents q) (receiver_data f (sent_message cs flags))

    -- A frame of sixteen channels of 11 bits that reaches the UART in any pieces, between any other
    -- events, from a ring buffer that is empty and has room for it and an index of one of the two
    -- buffers: one turn of the service, which may read one byte more than the frame has, ends, empties
    -- the ring buffer, and puts the scaled channels into the receiver's queue, if that can hold
    -- something and the decoder waits for a frame.
    pub receiver_turn-FrameTaken :
        (fuel : ℕ) (cs : List ℕ) (flags : ℕ) (es : List (UartEvent u))
        (t : UartDescriptor u × State) (inst : SbusDecodeBuffer) (msg : SbusMessage)
        (q : Queue (ReceiverData F32))
        → arrived u es ≡ sent_frame cs flags
        → waiting t.0.ring_buffer ≡ []
        → 25 ≤ room t.0.ring_buffer
        → t.0.double_buffer_index < 2
        → 25 < fuel
        → inst.decode_state ≡ wait_for_sof
        → length cs ≡ 16
        → AllBelow 2048 cs
        → flags < 256
        → IsUsable k laws q
        → (out : UartDescriptor u × Vars) × FrameTaken fuel cs flags
            (on_events u d es t).0
            inst
            msg
            q
            out
    unfolding receiver_turn
    receiver_turn-FrameTaken fuel cs flags es t inst msg q pieces empty big index enough s n below
          small use_q =
        let at_hand = on_events u d es t in
        let r = on_events-Arrived u d ulaws es t (omega (arith, size, ap length empty)) index in
        let held : waiting at_hand.0.ring_buffer ≡ sent_frame cs flags =
          r.behind ∙ ap (λ w. w ++ arrived u es) empty ∙ pieces in
        let can =
          taken at_hand.0.rx_sem (r.can_take (inr (announced_of u es (omega (arith, size))))) in
        let (r', same, none_left) =
          receive_within-bytes fuel (sent_frame cs flags) at_hand.0.ring_buffer held enough in
        let (vars, taken_in) =
          receive_bytes-sent_frame f k laws cs flags inst msg q use_q s n below small in
        (
          (record (at_hand.0) { rx_sem = (sem_take at_hand.0.rx_sem).1; ring_buffer = r' }, vars),
          record {
            ended = rw (receiver_turn, can, same (inst, msg, q), taken_in.ended) refl;
            emptied = none_left;
            queued = taken_in.queued;
          },
        )
      where
        size : length (arrived u es) ≡ 25
        size = ap length pieces
