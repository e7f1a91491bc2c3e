-- ===== src/Tbot/Motion/Turns.antt =====
-- What one turn of the motion control does to its queues.
use robofw.Common.{◌≡◌, refl, Option, none, some, arith}
use robofw.Common.Floats.{Floats}
use robofw.Common.Msgq.{Msgq, MsgqLaws, post}
use robofw.Common.Msgq.Post.{IsUsable, delivered, post_delivers}
use robofw.Types.{DesiredMotion, DesiredRpm}
use robofw.Tbot.Motion.{MotionPorts, motion_turn, limited_speeds, desired_speeds}

module _ (f : Floats) (k : Msgq) (laws : MsgqLaws k) where
  open k use {Queue, get, contents, capacity}
  open f use {F32}

  -- The speeds and the queue after a turn that read `m`.
  abbrev pub MotionMade :
      Option (DesiredMotion F32)
      → DesiredRpm
      → MotionPorts f k
      → DesiredRpm × MotionPorts f k
      → Type 0
  MotionMade none prev w out = (out.0 ≡ prev) × (out.1.desired_rpm_in ≡ w.desired_rpm_in)
  MotionMade (some m) prev w out =
      (out.0 ≡ limited_speeds f prev (desired_speeds f m))
      × (contents out.1.desired_rpm_in
          ≡ delivered (capacity w.desired_rpm_in) (contents w.desired_rpm_in) out.0)

  pub record MotionTurned (prev : DesiredRpm) (w : MotionPorts f k)
      (out : DesiredRpm × MotionPorts f k) : Type 0 where
    pub ended : motion_turn f k prev w ≡ some out
    pub made : MotionMade (get w.desired_motion_in).0 prev w out
    pub usable : IsUsable k laws out.1.desired_rpm_in

  motion_turn-none :
      (prev : DesiredRpm) (w : MotionPorts f k)
      → (get w.desired_motion_in).0 ≡ none
      → motion_turn f k prev w
        ≡ some (prev, record w { desired_motion_in = (get w.desired_motion_in).1 })
  unfolding motion_turn
  motion_turn-none prev w e = rw (motion_turn, e) refl

  motion_turn-some :
      (prev : DesiredRpm) (w : MotionPorts f k) (m : DesiredMotion F32) (q : Queue DesiredRpm)
      → (get w.desired_motion_in).0 ≡ some m
      → post k w.desired_rpm_in (limited_speeds f prev (desired_speeds f m)) ≡ some q
      → motion_turn f k prev w
        ≡ some (
          limited_speeds f prev (desired_speeds f m),
          record { desired_motion_in = (get w.desired_motion_in).1; desired_rpm_in = q },
        )
  unfolding motion_turn
  motion_turn-some prev w m q e p = rw (motion_turn, e, p) refl

  made_of :
      (got : Option (DesiredMotion F32)) (prev : DesiredRpm) (w : MotionPorts f k)
      → (get w.desired_motion_in).0 ≡ got
      → IsUsable k laws w.desired_rpm_in
      → (out : DesiredRpm × MotionPorts f k) × MotionTurned prev w out
  made_of none prev w e u = (
    (prev, record w { desired_motion_in = (get w.desired_motion_in).1 }),
    record { ended = motion_turn-none prev w e; made = rw e (refl, refl); usable = u },
  )
  made_of (some m) prev w e u =
      let target = limited_speeds f prev (desired_speeds f m) in
      let (q, d) = post_delivers k laws w.desired_rpm_in target u in
      (
        (target, record { desired_motion_in = (get w.desired_motion_in).1; desired_rpm_in = q }),
        record {
          ended = motion_turn-some prev w m q e d.posted;
          made = rw e (refl, d.holds);
          usable = d.usable;
        },
      )

  -- A turn ends, if the queue that it writes can hold something. A wanted motion puts its speeds,
  -- limited from the last ones, into the queue, which can be used again, and they are the last ones
  -- from then on; without one nothing is put, and the last ones stay.
  pub motion_turn-MotionTurned :
      (prev : DesiredRpm) (w : MotionPorts f k)
      → IsUsable k laws w.desired_rpm_in
      → (out : DesiredRpm × MotionPorts f k) × MotionTurned prev w out
  motion_turn-MotionTurned prev w u = made_of (get w.desired_motion_in).0 prev w refl u

  -- The queue that a turn reads, afterwards.
  pub motion_turn_left :
      (prev : DesiredRpm) (w : MotionPorts f k) {out : DesiredRpm × MotionPorts f k}
      → motion_turn f k prev w ≡ some out
      → out.1.desired_motion_in ≡ (get w.desired_motion_in).1
  unfolding motion_turn
  motion_turn_left prev w e = ground arith
