-- ===== src/Tbot/Speed/Turns.antt =====
-- What one turn of the speed control does to its queues.
use robofw.Common.{◌≡◌, refl, Option, none, some, Option-cases, inl, inr, arith}
use robofw.Common.Floats.{Floats}
use robofw.Common.Msgq.{Msgq, MsgqLaws, post}
use robofw.Common.Msgq.Post.{IsUsable, delivered, post_delivers, same-IsUsable, same-delivered}
use robofw.Types.{DesiredRpm, SpeedControlFeedback}
use robofw.Tbot.Speed.{
  SpeedVars, SpeedPorts, take_measured, control_motors, run_control, feedback_of, speed_turn,
}

module _ (f : Floats) (k : Msgq) (laws : MsgqLaws k) where
  open k use {Queue, get, contents, capacity}
  open f use {F32}

  pub record SpeedPortsUsable (w : SpeedPorts Queue F32) : Type 0 where
    pub actuator : IsUsable k laws w.actuator_cmd_in
    pub feedback : IsUsable k laws w.control_feedback_out

  -- The control stage, for what was read from the queue of wanted speeds.
  abbrev pub Controlled :
      Option DesiredRpm
      → SpeedVars F32
      → SpeedPorts Queue F32
      → SpeedVars F32 × SpeedPorts Queue F32
      → Type 0
  Controlled none v w out = (out.0 ≡ v) × (out.1.actuator_cmd_in ≡ w.actuator_cmd_in)
  Controlled (some target) v w out =
      (out.0 ≡ control_motors f target v)
      × (contents out.1.actuator_cmd_in
          ≡ delivered (capacity w.actuator_cmd_in) (contents w.actuator_cmd_in)
              (control_motors f target v).actuator_cmd)

  record ControlStage (target : Option DesiredRpm) (v : SpeedVars F32) (w : SpeedPorts Queue F32)
      (out : SpeedVars F32 × SpeedPorts Queue F32) : Type 0 where
    ran : run_control f k target v w ≡ some out
    controlled : Controlled target v w out
    same : out.1.control_feedback_out ≡ w.control_feedback_out
    usable : IsUsable k laws out.1.actuator_cmd_in

  run_control-ControlStage :
      (target : Option DesiredRpm) (v : SpeedVars F32) (w : SpeedPorts Queue F32)
      → IsUsable k laws w.actuator_cmd_in
      → (out : SpeedVars F32 × SpeedPorts Queue F32) × ControlStage target v w out
  unfolding run_control
  run_control-ControlStage none v w u =
      ((v, w), record { ran = refl; controlled = (refl, refl); same = refl; usable = u })
  run_control-ControlStage (some target) v w u =
      let v' = control_motors f target v in
      let (q, d) = post_delivers k laws w.actuator_cmd_in v'.actuator_cmd u in
      (
        (v', record w { actuator_cmd_in = q }),
        record {
          ran = rw (run_control, d.posted) refl;
          controlled = (refl, d.holds);
          same = refl;
          usable = d.usable;
        },
      )

  -- The reads of a turn.
  abbrev read_ports : SpeedPorts Queue F32 → SpeedPorts Queue F32
  read_ports w = record w { rpm_out = (get w.rpm_out).1; desired_rpm_in = (get w.desired_rpm_in).1 }

  speed_turn_of_stages :
      (v v2 : SpeedVars F32) (w w2 : SpeedPorts Queue F32) {q : Queue SpeedControlFeedback}
      → run_control f k
          (get w.desired_rpm_in).0
          (take_measured f (get w.rpm_out).0 v)
          (read_ports w)
        ≡ some (v2, w2)
      → post k w2.control_feedback_out (feedback_of f k v2) ≡ some q
      → speed_turn f k (v, w) ≡ some (v2, record w2 { control_feedback_out = q })
  unfolding speed_turn
  speed_turn_of_stages v v2 w w2 p q = ground arith

  kept :
      (target : Option DesiredRpm) (v : SpeedVars F32) (w : SpeedPorts Queue F32)
      (v2 : SpeedVars F32) (w2 : SpeedPorts Queue F32) (q : Queue SpeedControlFeedback)
      → Controlled target v (read_ports w) (v2, w2)
      → Controlled target v w (v2, record w2 { control_feedback_out = q })
  kept none v w v2 w2 q c = c
  kept (some target) v w v2 w2 q c = c

  pub record SpeedTurned (v : SpeedVars F32) (w : SpeedPorts Queue F32)
      (out : SpeedVars F32 × SpeedPorts Queue F32) : Type 0 where
    pub ended : speed_turn f k (v, w) ≡ some out
    pub controlled : Controlled (get w.desired_rpm_in).0 (take_measured f (get w.rpm_out).0 v) w out
    pub feedback :
        contents out.1.control_feedback_out
        ≡ delivered
            (capacity w.control_feedback_out)
            (contents w.control_feedback_out)
            (feedback_of f k out.0)
    pub usable : SpeedPortsUsable out.1

  -- A turn ends, if the two queues that it writes can hold something. A wanted speed runs both
  -- controllers on the newest measurement and the command goes to the actuators; without one neither
  -- changes. The feedback always goes out, and both queues can be used again.
  pub speed_turn-SpeedTurned :
      (v : SpeedVars F32) (w : SpeedPorts Queue F32)
      → SpeedPortsUsable w
      → (out : SpeedVars F32 × SpeedPorts Queue F32) × SpeedTurned v w out
  speed_turn-SpeedTurned v w u =
      let ((v2, w2), s) =
        run_control-ControlStage (get w.desired_rpm_in).0 (take_measured f (get w.rpm_out).0 v)
          (read_ports w) u.actuator in
      let (q, d) =
        post_delivers k laws w2.control_feedback_out (feedback_of f k v2)
          (same-IsUsable k laws s.same u.feedback) in
      (
        (v2, record w2 { control_feedback_out = q }),
        record {
          ended = speed_turn_of_stages v v2 w w2 s.ran d.posted;
          controlled =
              kept (get w.desired_rpm_in).0 (take_measured f (get w.rpm_out).0 v) w v2 w2 q
                s.controlled;
          feedback = same-delivered k laws (feedback_of f k v2) s.same d.holds;
          usable = record { actuator = s.usable; feedback = d.usable };
        },
      )

  -- The queues that a turn reads, afterwards.
  pub speed_turn_left :
      (v : SpeedVars F32) (w : SpeedPorts Queue F32) {out : SpeedVars F32 × SpeedPorts Queue F32}
      → speed_turn f k (v, w) ≡ some out
      → (out.1.rpm_out ≡ (get w.rpm_out).1) × (out.1.desired_rpm_in ≡ (get w.desired_rpm_in).1)
  unfolding speed_turn run_control
  speed_turn_left v w e = elim (Option-cases (get w.desired_rpm_in).0) [
    | inl n ↦ ground (arith, n)
    | inr (a, n) ↦ ground (arith, n)
  ]
