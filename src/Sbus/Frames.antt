-- ===== src/Sbus/Frames.antt =====
-- Whole frames through the decoder: what is fed in comes out as the message of those bytes.
use mathlib.Core.List.{append_assoc}
use robofw.Common.{
  ℕ, zero, suc, ◌+◌, ◌-◌, ◌<◌, ◌≡◌, refl, sym, ap, ◌∙◌, Bool, true, false, List, [], ◌∷◌, ◌++◌, map,
  arith, get_or, set, replicate, length, length-append, set-append,
}
use robofw.Sbus.{
  SbusDecodeState, wait_for_sof, wait_for_payload, wait_for_eof, SbusDecodeBuffer, SbusMessage,
  sbus_frame_head, sbus_frame_tail, sbus_build_message, sbus_decode_message, decode_sof,
  decode_payload, decode_eof,
}
use robofw.Sbus.Stream.{feed, IsValid, get_or-set_later}

abbrev pub Sound : SbusDecodeBuffer → SbusMessage → Bool × SbusDecodeBuffer × SbusMessage → Type 0
Sound inst msg out =
    (out.0 ≡ false → out.2 ≡ msg)
    × (out.0 ≡ true
        → (inst.decode_state ≡ wait_for_eof)
          × (out.1.decode_state ≡ wait_for_sof)
          × (out.2 ≡ sbus_build_message out.1.frame)
          × (get_or out.1.frame 0 0 ≡ sbus_frame_head)
          × (get_or out.1.frame 24 1 ≡ sbus_frame_tail))

get_or-set_self : (xs : List ℕ) (i v d : ℕ) → i < length xs → get_or (set xs i v) i d ≡ v
get_or-set_self [] i v d h = elim h [ ]
get_or-set_self (x ∷ xs) zero v d h = refl
get_or-set_self (x ∷ xs) (suc i) v d h = get_or-set_self xs i v d (omega arith)

decode_message-Sound_in :
    (s : SbusDecodeState) (inst : SbusDecodeBuffer) (ch : ℕ) (msg : SbusMessage)
    → inst.decode_state ≡ s
    → IsValid inst
    → Sound inst msg (sbus_decode_message inst ch msg)
unfolding sbus_decode_message decode_sof decode_payload decode_eof
decode_message-Sound_in wait_for_sof inst ch msg e v = rw e (ground arith)
decode_message-Sound_in wait_for_payload inst ch msg e v = rw e (ground arith)
decode_message-Sound_in wait_for_eof inst ch msg e v = rw e (
    ground (
      arith,
      get_or-set_self inst.frame (inst.indexer + 1) ch 1,
      get_or-set_later inst.frame (inst.indexer + 1) ch,
    ))

-- From a valid buffer, a byte is reported to complete a frame only where the decoder waits for the
-- tail; then the
-- message is built from the frame that is in the buffer, which has its head and its tail. At every
-- other byte the message stays as it was.
pub decode_message-Sound :
    (inst : SbusDecodeBuffer) (ch : ℕ) (msg : SbusMessage)
    → IsValid inst
    → Sound inst msg (sbus_decode_message inst ch msg)
decode_message-Sound inst ch msg v = decode_message-Sound_in inst.decode_state inst ch msg refl v

-- The decoder with the bytes `pre` of a frame stored and `n` to come, and with all but the last.
abbrev midway : List ℕ → ℕ → SbusDecodeBuffer
midway pre n = record {
  decode_state = wait_for_payload;
  frame = pre ++ replicate n 0;
  indexer = length pre - 1;
}

abbrev almost : List ℕ → SbusDecodeBuffer
almost pre = record { decode_state = wait_for_eof; frame = pre ++ (0 ∷ []); indexer = 23 }

abbrev finished : List ℕ → SbusDecodeBuffer
finished frame = record { decode_state = wait_for_sof; frame = frame; indexer = 24 }

feed-quiet :
    (inst inst' : SbusDecodeBuffer) (msg : SbusMessage) (ch : ℕ) (bytes : List ℕ)
    → sbus_decode_message inst ch msg ≡ (false, inst', msg)
    → feed inst msg (ch ∷ bytes) ≡ feed inst' msg bytes
unfolding feed
feed-quiet inst inst' msg ch bytes e = rw e

append_one : (xs : List ℕ) (x : ℕ) (ys : List ℕ) → xs ++ (x ∷ ys) ≡ (xs ++ (x ∷ [])) ++ ys
append_one xs x ys = sym (append_assoc xs (x ∷ []) ys)

store_next :
    (pre : List ℕ) (x n : ℕ)
    → 0 < length pre
    → set (pre ++ replicate (suc n) 0) (length pre - 1 + 1) x ≡ (pre ++ (x ∷ [])) ++ replicate n 0
store_next pre x n h =
    ap (λ i. set (pre ++ replicate (suc n) 0) i x) (omega arith)
    ∙ set-append pre 0 (replicate n 0) x
    ∙ append_one pre x (replicate n 0)

-- A byte of the payload, and its last byte.
decode_message-midway :
    (pre : List ℕ) (x n : ℕ) (msg : SbusMessage)
    → 0 < length pre
    → length pre < 23
    → sbus_decode_message (midway pre (suc n)) x msg ≡ (false, midway (pre ++ (x ∷ [])) n, msg)
unfolding sbus_decode_message decode_payload
decode_message-midway pre x n msg h k =
    ground (arith, store_next pre x n h, length-append pre (x ∷ []))

decode_message-last :
    (pre : List ℕ) (x : ℕ) (msg : SbusMessage)
    → length pre ≡ 23
    → sbus_decode_message (midway pre 2) x msg ≡ (false, almost (pre ++ (x ∷ [])), msg)
unfolding sbus_decode_message decode_payload
decode_message-last pre x msg h = ground (arith, store_next pre x 1)

-- The payload loop stores what is left of the payload.
feed-payload :
    (pre : List ℕ) (x : ℕ) (xs rest : List ℕ) (msg : SbusMessage)
    → 0 < length pre
    → length pre + length xs ≡ 23
    → feed (midway pre (suc (suc (length xs)))) msg ((x ∷ xs) ++ rest)
      ≡ feed (almost (pre ++ (x ∷ xs))) msg rest
feed-payload pre x [] rest msg h e =
    feed-quiet (midway pre 2) (almost (pre ++ (x ∷ []))) msg x rest
      (decode_message-last pre x msg (omega arith))
feed-payload pre x (y ∷ xs) rest msg h e =
    feed-quiet (midway pre (suc (suc (suc (length xs)))))
      (midway (pre ++ (x ∷ [])) (suc (suc (length xs)))) msg x ((y ∷ xs) ++ rest)
      (decode_message-midway pre x (suc (suc (length xs))) msg h (omega arith))
    ∙ feed-payload (pre ++ (x ∷ [])) y xs rest msg (omega (arith, length-append pre (x ∷ [])))
        (omega (arith, length-append pre (x ∷ [])))
    ∙ ap (λ f. feed (almost f) msg rest) (sym (append_one pre x (y ∷ xs)))

decode_message-head :
    (inst : SbusDecodeBuffer) (msg : SbusMessage)
    → inst.decode_state ≡ wait_for_sof
    → sbus_decode_message inst sbus_frame_head msg ≡ (false, midway (sbus_frame_head ∷ []) 24, msg)
unfolding sbus_decode_message decode_sof
decode_message-head inst msg s = rw s

decode_message-tail :
    (pre : List ℕ) (msg : SbusMessage)
    → length pre ≡ 24
    → sbus_decode_message (almost pre) sbus_frame_tail msg ≡ (
      true,
      finished (pre ++ (sbus_frame_tail ∷ [])),
      sbus_build_message (pre ++ (sbus_frame_tail ∷ [])),
    )
unfolding sbus_decode_message decode_eof
decode_message-tail pre msg h = rw stored
  where
    stored : set (pre ++ (0 ∷ [])) 24 0 ≡ pre ++ (0 ∷ [])
    stored = ap (λ i. set (pre ++ (0 ∷ [])) i 0) (sym h) ∙ set-append pre 0 [] 0

-- A frame of 23 bytes between head and tail, from any state that waits for a frame: one message is
-- reported, that of the frame's bytes, and the decoder waits for a frame again.
pub feed-frame :
    (inst : SbusDecodeBuffer) (msg : SbusMessage) (payload rest : List ℕ)
    → inst.decode_state ≡ wait_for_sof
    → length payload ≡ 23
    → let frame = sbus_frame_head ∷ payload ++ (sbus_frame_tail ∷ []) in
      let (last, buffer, reported) = feed (finished frame) (sbus_build_message frame) rest in
      feed inst msg (sbus_frame_head ∷ payload ++ (sbus_frame_tail ∷ rest))
      ≡ (last, buffer, sbus_build_message frame ∷ reported)
unfolding feed
feed-frame inst msg [] rest s h = absurd (omega arith)
feed-frame inst msg (x ∷ xs) rest s h =
    feed-quiet inst (midway (sbus_frame_head ∷ []) 24) msg sbus_frame_head
      ((x ∷ xs) ++ (sbus_frame_tail ∷ rest)) (decode_message-head inst msg s)
    ∙ ap (λ n. feed (midway (sbus_frame_head ∷ []) n) msg ((x ∷ xs) ++ (sbus_frame_tail ∷ rest)))
        count
    ∙ feed-payload (sbus_frame_head ∷ []) x xs (sbus_frame_tail ∷ rest) msg (omega arith)
        (omega arith)
    ∙ rw (decode_message-tail (sbus_frame_head ∷ x ∷ xs) msg (omega arith))
  where
    count : ◌≡◌ {A = ℕ} 24 (suc (suc (length xs)))
    count = omega arith

abbrev pub frame_bytes : List ℕ → List ℕ
frame_bytes payload = sbus_frame_head ∷ payload ++ (sbus_frame_tail ∷ [])

abbrev pub all_bytes : List (List ℕ) → List ℕ
all_bytes [] = []
all_bytes (p ∷ ps) = frame_bytes p ++ all_bytes ps

abbrev pub AllLength : ℕ → List (List ℕ) → Type 0
AllLength n [] = Unit {0}
AllLength n (p ∷ ps) = (length p ≡ n) × AllLength n ps

-- Frames sent back to back are reported one by one, in order, each as the message of its bytes, if
-- the decoder starts where it waits for a frame and every frame has 23 bytes between head and tail.
pub feed-frames :
    (payloads : List (List ℕ)) (inst : SbusDecodeBuffer) (msg : SbusMessage)
    → inst.decode_state ≡ wait_for_sof
    → AllLength 23 payloads
    → (feed inst msg (all_bytes payloads)).2
      ≡ map (λ p. sbus_build_message (frame_bytes p)) payloads
unfolding feed
feed-frames [] inst msg s h = refl
feed-frames (p ∷ ps) inst msg s h =
    ap (λ t. (feed inst msg (sbus_frame_head ∷ t)).2)
      (append_assoc p (sbus_frame_tail ∷ []) (all_bytes ps))
    ∙ ap (λ t. t.2) (feed-frame inst msg p (all_bytes ps) s h.0)
    ∙ ap (λ t. sbus_build_message (frame_bytes p) ∷ t)
        (feed-frames ps (finished (frame_bytes p)) (sbus_build_message (frame_bytes p)) refl h.1)
