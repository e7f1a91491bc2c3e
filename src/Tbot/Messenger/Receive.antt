-- ===== src/Tbot/Messenger/Receive.antt =====
-- Every command that arrives reaches the one queue that it is for.
use robofw.Common.{◌≡◌, refl, ap, some, Bool-cases, inl, inr}
use robofw.Common.Floats.{Floats}
use robofw.Common.Msgq.{Msgq, MsgqLaws}
use robofw.Common.Msgq.Post.{IsUsable, delivered, post_delivers}
use robofw.Can.{CanFrame}
use robofw.Tbot.Codec.{
  TbotMsg, supervisor_command, pwm_command, motor_command, motion_command, supervised_state_data,
  encoder_raw_data, encoder_filtered_data, target_rpm_data, decode_can_message,
}
use robofw.Tbot.Codec.Laws.{Command, IsSendable, command_id, command_bytes, meaning, decode-command}
use robofw.Tbot.Messenger.{CommandPorts, pwm_cmd, rpm_cmd, dispatch, receive_frame}

module _ (f : Floats) (k : Msgq) (laws : MsgqLaws k) where
  open f use {F32, of_int, lit32, div32}
  open k use {Queue, contents, capacity}

  pub record CommandPortsUsable (w : CommandPorts Queue F32) : Type 0 where
    pub supervisor : IsUsable k laws w.supervisor_cmd_out
    pub actuator : IsUsable k laws w.actuator_cmd_in
    pub rpm : IsUsable k laws w.desired_rpm_in
    pub motion : IsUsable k laws w.desired_motion_out

  -- The queues after a message: that of a command has its item, and the others are as before.
  abbrev pub Routed : TbotMsg F32 → CommandPorts Queue F32 → CommandPorts Queue F32 → Type 0
  Routed (supervisor_command m) w out =
      (contents out.supervisor_cmd_out
        ≡ delivered (capacity w.supervisor_cmd_out) (contents w.supervisor_cmd_out)
            (record { supervised_mode = m }))
      × (out.actuator_cmd_in ≡ w.actuator_cmd_in)
      × (out.desired_rpm_in ≡ w.desired_rpm_in)
      × (out.desired_motion_out ≡ w.desired_motion_out)
  Routed (pwm_command l r) w out =
      (out.supervisor_cmd_out ≡ w.supervisor_cmd_out)
      × (contents out.actuator_cmd_in
          ≡ delivered (capacity w.actuator_cmd_in) (contents w.actuator_cmd_in) (pwm_cmd f k l r))
      × (out.desired_rpm_in ≡ w.desired_rpm_in)
      × (out.desired_motion_out ≡ w.desired_motion_out)
  Routed (motor_command l r) w out =
      (out.supervisor_cmd_out ≡ w.supervisor_cmd_out)
      × (out.actuator_cmd_in ≡ w.actuator_cmd_in)
      × (contents out.desired_rpm_in
          ≡ delivered (capacity w.desired_rpm_in) (contents w.desired_rpm_in) (rpm_cmd f k l r))
      × (out.desired_motion_out ≡ w.desired_motion_out)
  Routed (motion_command l a) w out =
      (out.supervisor_cmd_out ≡ w.supervisor_cmd_out)
      × (out.actuator_cmd_in ≡ w.actuator_cmd_in)
      × (out.desired_rpm_in ≡ w.desired_rpm_in)
      × (contents out.desired_motion_out
          ≡ delivered (capacity w.desired_motion_out) (contents w.desired_motion_out)
              (record { linear = l; angular = a }))
  Routed _ w out = out ≡ w

  pub record Dispatched (m : TbotMsg F32) (w out : CommandPorts Queue F32) : Type 0 where
    pub ended : dispatch f k m w ≡ some out
    pub routed : Routed m w out
    pub usable : CommandPortsUsable out

  -- Whatever a message says, its item is posted, if the queues can hold something.
  dispatch-Dispatched :
      (m : TbotMsg F32) (w : CommandPorts Queue F32)
      → CommandPortsUsable w
      → (out : CommandPorts Queue F32) × Dispatched m w out
  unfolding dispatch
  dispatch-Dispatched (supervisor_command m) w u =
      let (q, d) =
        post_delivers k laws w.supervisor_cmd_out (record { supervised_mode = m }) u.supervisor in
      (
        record w { supervisor_cmd_out = q },
        record {
          ended = rw (dispatch, d.posted) refl;
          routed = (d.holds, refl, refl, refl);
          usable = record {
            supervisor = d.usable;
            actuator = u.actuator;
            rpm = u.rpm;
            motion = u.motion;
          };
        },
      )
  dispatch-Dispatched (pwm_command l r) w u =
      let (q, d) = post_delivers k laws w.actuator_cmd_in (pwm_cmd f k l r) u.actuator in
      (
        record w { actuator_cmd_in = q },
        record {
          ended = rw (dispatch, d.posted) refl;
          routed = (refl, d.holds, refl, refl);
          usable = record {
            supervisor = u.supervisor;
            actuator = d.usable;
            rpm = u.rpm;
            motion = u.motion;
          };
        },
      )
  dispatch-Dispatched (motor_command l r) w u =
      let (q, d) = post_delivers k laws w.desired_rpm_in (rpm_cmd f k l r) u.rpm in
      (
        record w { desired_rpm_in = q },
        record {
          ended = rw (dispatch, d.posted) refl;
          routed = (refl, refl, d.holds, refl);
          usable = record {
            supervisor = u.supervisor;
            actuator = u.actuator;
            rpm = d.usable;
            motion = u.motion;
          };
        },
      )
  dispatch-Dispatched (motion_command l a) w u =
      let (q, d) =
        post_delivers k laws w.desired_motion_out (record { linear = l; angular = a }) u.motion in
      (
        record w { desired_motion_out = q },
        record {
          ended = rw (dispatch, d.posted) refl;
          routed = (refl, refl, refl, d.holds);
          usable = record {
            supervisor = u.supervisor;
            actuator = u.actuator;
            rpm = u.rpm;
            motion = d.usable;
          };
        },
      )
  dispatch-Dispatched (supervised_state_data m) w u =
      (w, record { ended = refl; routed = refl; usable = u })
  dispatch-Dispatched (encoder_raw_data l r) w u =
      (w, record { ended = refl; routed = refl; usable = u })
  dispatch-Dispatched (encoder_filtered_data l r) w u =
      (w, record { ended = refl; routed = refl; usable = u })
  dispatch-Dispatched (target_rpm_data l r) w u =
      (w, record { ended = refl; routed = refl; usable = u })

  pub record Received (c : Command) (frame : CanFrame) (msg : TbotMsg F32)
      (w out : CommandPorts Queue F32) : Type 0 where
    pub ended : receive_frame f k frame (msg, w) ≡ some (meaning f c, out)
    pub routed : Routed (meaning f c) w out
    pub usable : CommandPortsUsable out

  -- A frame with a command whose values fit its fields is handled, if the four queues can hold
  -- something: its one queue gets the command's item, the other three stay, and all can be used again.
  -- The bytes of a PWM command are read as `int8_t`, where tbot_protocol.md has `uint8_t`.
  pub receive_frame-Received :
      (c : Command) (frame : CanFrame) (msg : TbotMsg F32) (w : CommandPorts Queue F32)
      → IsSendable c
      → frame.id ≡ command_id c
      → frame.bytes ≡ command_bytes c
      → CommandPortsUsable w
      → (out : CommandPorts Queue F32) × Received c frame msg w out
  unfolding receive_frame
  receive_frame-Received c frame msg w h e b u =
      let (out, d) = dispatch-Dispatched (meaning f c) w u in
      (
        out,
        record {
          ended =
              rw (receive_frame, decode-command f c frame msg h e b, d.ended)
                (ap (λ t. some (t.1, out)) (decode-command f c frame msg h e b));
          routed = d.routed;
          usable = d.usable;
        },
      )

  -- Every frame is handled, whatever it holds, and the queues can be used again.
  pub receive_frame-ends :
      (frame : CanFrame) (msg : TbotMsg F32) (w : CommandPorts Queue F32)
      → CommandPortsUsable w
      → (out : TbotMsg F32 × CommandPorts Queue F32) × (receive_frame f k frame (msg, w) ≡ some out)
        × CommandPortsUsable out.1
  unfolding receive_frame
  receive_frame-ends frame msg w u =
      let (decoded, msg2) = decode_can_message f frame msg in
      let (w2, r) = dispatch-Dispatched msg2 w u in
      elim (Bool-cases decoded) [
        | inl e ↦ ((msg2, w2), rw (receive_frame, e, r.ended) refl, r.usable)
        | inr e ↦ ((msg2, w), rw (receive_frame, e) refl, u)
      ]
