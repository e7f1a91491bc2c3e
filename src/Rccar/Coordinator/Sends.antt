-- ===== src/Rccar/Coordinator/Sends.antt =====
-- What one turn of the car's coordinator sends.
use robofw.Common.{
  ◌+◌, ◌%◌, ◌≡◌, refl, Bool, true, false, ◌&&◌, some, List, ◌==◌, Bool-cases, inl, inr, arith,
}
use robofw.Common.Floats.{Floats}
use robofw.Common.Msgq.{Msgq, MsgqLaws, post}
use robofw.Common.Msgq.Post.{IsUsable, delivered, post_delivers, same-IsUsable, same-delivered}
use robofw.Mcal.{HwCall, LedDescriptor}
use robofw.Types.{k_non_supervised}
use robofw.Rccar.Coordinator.{
  CarCoordinator, CarPorts, is_rc, zero_motion, halt_if_stopped, read_receiver, blink, decide,
  send_motion, send_state, coordinator_turn,
}

module _ (f : Floats) (k : Msgq) (laws : MsgqLaws k) where
  open k use {Queue, get, contents, capacity}
  open f use {F32}

  pub record CarPortsUsable (w : CarPorts Queue F32) : Type 0 where
    pub motion : IsUsable k laws w.motion_in
    pub state : IsUsable k laws w.robot_state_in

  -- The car is driven by its remote control.
  abbrev pub drives : CarCoordinator F32 → Bool
  drives c = c.robot_state.sup_mode == k_non_supervised && is_rc c.robot_state.control_mode

  pub record CarTurned (led : LedDescriptor) (c : CarCoordinator F32) (w : CarPorts Queue F32)
      (out : CarCoordinator F32 × CarPorts Queue F32 × List HwCall) : Type 0 where
    pub ended : coordinator_turn f k led (c, w) ≡ some out
    pub stopped : out.0.robot_state.estop_triggered ≡ true → out.0.desired_motion ≡ zero_motion f
    pub silent : drives out.0 ≡ false → out.1.motion_in ≡ w.motion_in
    pub driven :
        drives out.0 ≡ true
        → contents out.1.motion_in
          ≡ delivered (capacity w.motion_in) (contents w.motion_in) out.0.desired_motion
    pub reported :
        contents out.1.robot_state_in
        ≡ delivered (capacity w.robot_state_in) (contents w.robot_state_in) out.0.robot_state
    pub usable : CarPortsUsable out.1

  record Moved (c : CarCoordinator F32) (w out : CarPorts Queue F32) : Type 0 where
    sent : send_motion f k c w ≡ some out
    silent : drives c ≡ false → out.motion_in ≡ w.motion_in
    driven :
        drives c ≡ true
        → contents out.motion_in
          ≡ delivered (capacity w.motion_in) (contents w.motion_in) c.desired_motion
    same : out.robot_state_in ≡ w.robot_state_in
    usable : IsUsable k laws out.motion_in

  send_motion-Moved :
      (c : CarCoordinator F32) (w : CarPorts Queue F32)
      → IsUsable k laws w.motion_in
      → (out : CarPorts Queue F32) × Moved c w out
  unfolding send_motion
  send_motion-Moved c w u = elim (Bool-cases (drives c)) [
    | inl e ↦
        (let (q, d) = post_delivers k laws w.motion_in c.desired_motion u in
          (
            record w { motion_in = q },
            record {
              sent = rw (send_motion, e, d.posted) refl;
              silent = λ h. absurd (ground arith);
              driven = λ h. d.holds;
              same = refl;
              usable = d.usable;
            },
          ))
    | inr e ↦ (
      w,
      record {
        sent = rw (send_motion, e) refl;
        silent = λ h. refl;
        driven = λ h. absurd (ground arith);
        same = refl;
        usable = u;
      },
    )
  ]

  send_state_lem :
      (c : CarCoordinator F32) (w : CarPorts Queue F32) {q : Queue _}
      → post k w.robot_state_in c.robot_state ≡ some q
      → send_state f k c w ≡ some (record w { robot_state_in = q })
  unfolding send_state
  send_state_lem c w e = rw (send_state, e) refl

  halted :
      (c : CarCoordinator F32)
      → (halt_if_stopped f c).robot_state.estop_triggered ≡ true
      → (halt_if_stopped f c).desired_motion ≡ zero_motion f
  unfolding halt_if_stopped
  halted c h = ground arith

  turn_of_stages :
      (led : LedDescriptor) (c : CarCoordinator F32) (w w3 w4 : CarPorts Queue F32)
      → send_motion f k
          (decide f k led (get w.rc_data).0 c)
          (record w { rc_data = (get w.rc_data).1 })
        ≡ some w3
      → send_state f k (decide f k led (get w.rc_data).0 c) w3 ≡ some w4
      → coordinator_turn f k led (c, w)
        ≡ some (
          record (decide f k led (get w.rc_data).0 c) {
            loop_counter = ((decide f k led (get w.rc_data).0 c).loop_counter + 1) % 256;
          },
          w4,
          (blink f led c).1,
        )
  unfolding coordinator_turn
  turn_of_stages led c w w3 w4 p q = ground arith

  -- A turn ends, if the two queues that it writes can hold something. Under an emergency stop the
  -- desired motion is zero. It is sent if the car is driven by its remote control and not
  -- supervised, and nothing is sent else; the state is always sent.
  pub car_turn-CarTurned :
      (led : LedDescriptor) (c : CarCoordinator F32) (w : CarPorts Queue F32)
      → CarPortsUsable w
      → (out : CarCoordinator F32 × CarPorts Queue F32 × List HwCall) × CarTurned led c w out
  car_turn-CarTurned led c w u =
      let c2 = decide f k led (get w.rc_data).0 c in
      let w2 : CarPorts Queue F32 = record w { rc_data = (get w.rc_data).1 } in
      let (w3, m) = send_motion-Moved c2 w2 u.motion in
      let (q, d) =
        post_delivers k laws w3.robot_state_in c2.robot_state
          (same-IsUsable k laws m.same u.state) in
      (
        (
          record c2 { loop_counter = (c2.loop_counter + 1) % 256 },
          record w3 { robot_state_in = q },
          (blink f led c).1,
        ),
        record {
          ended =
              turn_of_stages led c w w3 (record w3 { robot_state_in = q }) m.sent
                (send_state_lem c2 w3 d.posted);
          stopped = λ h. halted (read_receiver f (get w.rc_data).0 (blink f led c).0) h;
          silent = m.silent;
          driven = m.driven;
          reported = same-delivered k laws c2.robot_state m.same d.holds;
          usable = record { motion = m.usable; state = d.usable };
        },
      )
