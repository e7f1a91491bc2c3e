-- ===== src/Tbot/Codec/Laws.antt =====
-- What the CAN messages carry: the codec loses nothing, and feedback is never taken for a command.
use robofw.Common.{ℕ, ◌%◌, ◌<◌, ◌≡◌, refl, true, false, List, [], ◌∷◌, get_or, set, length, arith}
use robofw.Common.Int.{ℤ, to_unsigned, u8_mod, FitsInt32, FitsInt8, int8_fits}
use robofw.Common.Floats.{Floats}
use robofw.Can.{CanFrame}
use robofw.Wire.{to_signed-join_bytes}
use robofw.Tbot.Codec.{
  TbotMsg, supervisor_command, pwm_command, motor_command, motion_command, supervised_state_data,
  encoder_raw_data, encoder_filtered_data, target_rpm_data, two_int32, read_int32,
  encode_can_message, decode_can_message,
}

-- The commands as the other end of the uplink sends them.
pub data Command : Type 0 where
  set_mode : ℕ → Command
  set_pwm : ℤ → ℤ → Command
  set_rpm : ℤ → ℤ → Command
  set_motion : ℤ → ℤ → Command

abbrev pub IsSendable : Command → Type 0
IsSendable (set_mode m) = m < 256
IsSendable (set_pwm l r) = FitsInt8 l × FitsInt8 r
IsSendable (set_rpm l r) = FitsInt32 l × FitsInt32 r
IsSendable (set_motion l a) = FitsInt32 l × FitsInt32 a

-- `linear` and `angular` are sent in hundredths.
abbrev pub command_id : Command → ℕ
command_id (set_mode m) = 0x100
command_id (set_pwm l r) = 0x101
command_id (set_rpm l r) = 0x102
command_id (set_motion l a) = 0x103

abbrev pub command_bytes : Command → List ℕ
command_bytes (set_mode m) = m ∷ []
command_bytes (set_pwm l r) = to_unsigned u8_mod l ∷ to_unsigned u8_mod r ∷ []
command_bytes (set_rpm l r) = two_int32 l r
command_bytes (set_motion l a) = two_int32 l a

-- The two values that the other end reads from eight bytes.
read-two_int32 :
    (l r : ℤ)
    → FitsInt32 l
    → FitsInt32 r
    → (read_int32 (two_int32 l r) 0 1 2 3 ≡ l) × (read_int32 (two_int32 l r) 4 5 6 7 ≡ r)
read-two_int32 l r h k = (to_signed-join_bytes l h, to_signed-join_bytes r k)

module _ (f : Floats) where
  open f use {F32, of_int, lit32, div32}

  -- The message that a command means.
  abbrev pub meaning : Command → TbotMsg F32
  meaning (set_mode m) = supervisor_command m
  meaning (set_pwm l r) = pwm_command l r
  meaning (set_rpm l r) = motor_command l r
  meaning (set_motion l a) =
      motion_command (div32 (of_int l) (lit32 100 1)) (div32 (of_int a) (lit32 100 1))

  -- Every command whose values fit its fields is decoded as it was sent.
  pub decode-command :
      (c : Command) (frame : CanFrame) (msg : TbotMsg F32)
      → IsSendable c
      → frame.id ≡ command_id c
      → frame.bytes ≡ command_bytes c
      → decode_can_message f frame msg ≡ (true, meaning c)
  unfolding decode_can_message
  decode-command (set_mode m) frame msg h e b = rw (e, b)
  decode-command (set_pwm l r) frame msg h e b =
      rw (e, b) (ground (arith, int8_fits l, int8_fits r))
  decode-command (set_rpm l r) frame msg h e b = rw (e, b) (ground (arith, read-two_int32 l r))
  decode-command (set_motion l a) frame msg h e b = rw (e, b) (ground (arith, read-two_int32 l a))

-- The feedback messages.
pub data Feedback : Type 0 where
  state_of : ℕ → Feedback
  raw_of filtered_of target_of : ℤ → ℤ → Feedback

abbrev pub feedback_msg : (F : Type 0) → Feedback → TbotMsg F
feedback_msg F (state_of m) = supervised_state_data m
feedback_msg F (raw_of l r) = encoder_raw_data l r
feedback_msg F (filtered_of l r) = encoder_filtered_data l r
feedback_msg F (target_of l r) = target_rpm_data l r

-- What the other end reads from a feedback frame, by its identifier.
abbrev pub ReadFeedback : CanFrame → Feedback → Type 0
ReadFeedback frame (state_of m) =
    (frame.id ≡ 0x200) × (frame.dlc ≡ 1) × (get_or frame.bytes 0 0 ≡ m)
ReadFeedback frame (raw_of l r) =
    (frame.id ≡ 0x211)
    × (frame.dlc ≡ 8)
    × (read_int32 frame.bytes 0 1 2 3 ≡ l)
    × (read_int32 frame.bytes 4 5 6 7 ≡ r)
ReadFeedback frame (filtered_of l r) =
    (frame.id ≡ 0x212)
    × (frame.dlc ≡ 8)
    × (read_int32 frame.bytes 0 1 2 3 ≡ l)
    × (read_int32 frame.bytes 4 5 6 7 ≡ r)
ReadFeedback frame (target_of l r) =
    (frame.id ≡ 0x213)
    × (frame.dlc ≡ 8)
    × (read_int32 frame.bytes 0 1 2 3 ≡ l)
    × (read_int32 frame.bytes 4 5 6 7 ≡ r)

abbrev pub IsReadable : Feedback → Type 0
IsReadable (state_of m) = m < 256
IsReadable (raw_of l r) = FitsInt32 l × FitsInt32 r
IsReadable (filtered_of l r) = FitsInt32 l × FitsInt32 r
IsReadable (target_of l r) = FitsInt32 l × FitsInt32 r

get_or-set_first : (xs : List ℕ) (v d : ℕ) → 0 < length xs → get_or (set xs 0 v) 0 d ≡ v
get_or-set_first [] v d h = elim h [ ]
get_or-set_first (x ∷ xs) v d h = refl

-- Every feedback message whose values fit is read back from its frame as it was, and the robot's own
-- decoder refuses that frame.
pub encode-feedback :
    (f : Floats) (b : Feedback) (frame : CanFrame) (msg : TbotMsg f.F32)
    → IsReadable b
    → 0 < length frame.bytes
    → let sent = encode_can_message (feedback_msg f.F32 b) frame in
      ReadFeedback sent b × (decode_can_message f sent msg ≡ (false, msg))
unfolding encode_can_message decode_can_message
encode-feedback f (state_of m) frame msg h room =
    ((refl, refl, ground (arith, get_or-set_first frame.bytes (m % 256) 0 room)), refl)
encode-feedback f (raw_of l r) frame msg h room =
    ((refl, refl, (read-two_int32 l r h.0 h.1).0, (read-two_int32 l r h.0 h.1).1), refl)
encode-feedback f (filtered_of l r) frame msg h room =
    ((refl, refl, (read-two_int32 l r h.0 h.1).0, (read-two_int32 l r h.0 h.1).1), refl)
encode-feedback f (target_of l r) frame msg h room =
    ((refl, refl, (read-two_int32 l r h.0 h.1).0, (read-two_int32 l r h.0 h.1).1), refl)
