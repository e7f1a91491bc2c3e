-- ===== src/Tbot/Coordinator/Sends.antt =====
-- What one turn of the coordinator sends.
use mathlib.Core.Path.{◌≡◌, refl, sym, ap, ◌∙◌, subst}
use robofw.Common.{
  ◌+◌, ◌%◌, ◌≢◌, ◌⊎◌, some, List, [], arith, ==_iff, ◌==◌, Bool-cases, inl, inr, if◌then◌else◌,
  Option, none,
}
use robofw.Common.Floats.{Floats}
use robofw.Common.Msgq.{Msgq, MsgqLaws, post}
use robofw.Common.Msgq.Post.{IsUsable, delivered, post_delivers, post_capacity}
use robofw.Mcal.{HwCall, LedDescriptor, toggle_led}
use robofw.Types.{RobotState, DesiredMotion, k_non_supervised}
use robofw.Tbot.Coordinator.{
  Coordinator, Ports, zero_motion, halt_if_stopped, read_can, take_input, send_motion, send_state,
  coordinator_turn,
}

module _ (f : Floats) (k : Msgq) (laws : MsgqLaws k) where
  open k use {Queue, contents, capacity, get}
  open f use {F32}

  -- The two queues that the coordinator writes can hold something.
  pub record PortsUsable (w : Ports Queue F32) : Type 0 where
    pub motion : IsUsable k laws w.motion_in
    pub state : IsUsable k laws w.robot_state_in

  -- The input stage leaves the two queues that are written as they were.
  take_input-keeps_outputs :
      (c : Coordinator F32) (w : Ports Queue F32)
      → ((take_input f k (c, w)).1.motion_in ≡ w.motion_in)
        × ((take_input f k (c, w)).1.robot_state_in ≡ w.robot_state_in)
  unfolding take_input read_can
  take_input-keeps_outputs c w = ground arith

  -- Where motion is sent: nothing in a supervised mode; else the desired motion, or zero under an
  -- emergency stop.
  abbrev pub MotionSent :
      Coordinator F32 → Queue (DesiredMotion F32) → Queue (DesiredMotion F32) → Type 0
  MotionSent c before after =
      (c.robot_state.sup_mode ≢ k_non_supervised → after ≡ before)
      × (c.robot_state.sup_mode ≡ k_non_supervised
          → contents after
            ≡ delivered (capacity before) (contents before)
                (if c.robot_state.estop_triggered then zero_motion f else c.desired_motion))

  pub record MotionStage (c : Coordinator F32) (w : Ports Queue F32)
      (out : Coordinator F32 × Ports Queue F32) : Type 0 where
    pub sent : send_motion f k c w ≡ some out
    pub motion : MotionSent c w.motion_in out.1.motion_in
    pub same_state : out.0.robot_state ≡ c.robot_state
    pub same_port : out.1.robot_state_in ≡ w.robot_state_in
    pub usable : IsUsable k laws out.1.motion_in

  halted_motion :
      (c : Coordinator F32)
      → (halt_if_stopped f c).desired_motion
        ≡ (if c.robot_state.estop_triggered then zero_motion f else c.desired_motion)
  unfolding halt_if_stopped
  halted_motion c = elim (Bool-cases c.robot_state.estop_triggered) [ inl e ↦ rw e | inr e ↦ rw e ]

  halted_state : (c : Coordinator F32) → (halt_if_stopped f c).robot_state ≡ c.robot_state
  unfolding halt_if_stopped
  halted_state c = elim (Bool-cases c.robot_state.estop_triggered) [ inl e ↦ rw e | inr e ↦ rw e ]

  send_motion-MotionStage :
      (c : Coordinator F32) (w : Ports Queue F32)
      → PortsUsable w
      → (out : Coordinator F32 × Ports Queue F32) × MotionStage c w out
  unfolding send_motion halt_if_stopped
  send_motion-MotionStage c w u = elim (Bool-cases (c.robot_state.sup_mode == k_non_supervised)) [
    | inl free ↦
        (let (q, d) =
            post_delivers k laws w.motion_in (halt_if_stopped f c).desired_motion u.motion in
          (
            (halt_if_stopped f c, record w { motion_in = q }),
            record {
              sent = rw (free, d.posted);
              motion = (
                λ h. absurd (h ((==_iff _ _).0 free)),
                λ h.
                    d.holds
                    ∙ ap (delivered (capacity w.motion_in) (contents w.motion_in))
                        (halted_motion c),
              );
              same_state = halted_state c;
              same_port = refl;
              usable = d.usable;
            },
          ))
    | inr held ↦ (
      (c, w),
      record {
        sent = rw held;
        motion = (λ h. refl, λ h. ground arith);
        same_state = refl;
        same_port = refl;
        usable = u.motion;
      },
    )
  ]

  -- What a turn does to the queues, beside `take_input`.
  pub record Turned (c : Coordinator F32) (w : Ports Queue F32) (led : LedDescriptor)
      (out : Coordinator F32 × Ports Queue F32 × List HwCall) : Type 0 where
    pub ended : coordinator_turn f k led (c, w) ≡ some out
    pub motion : MotionSent (take_input f k (c, w)).0 w.motion_in out.1.motion_in
    pub state : out.0.robot_state ≡ (take_input f k (c, w)).0.robot_state
    pub report :
        contents out.1.robot_state_in
        ≡ delivered (capacity w.robot_state_in) (contents w.robot_state_in) out.0.robot_state
    pub usable : PortsUsable out.1

  turn_of_stages :
      (led : LedDescriptor) (c c3 : Coordinator F32) (w w3 w4 : Ports Queue F32)
      → send_motion f k (take_input f k (c, w)).0 (take_input f k (c, w)).1 ≡ some (c3, w3)
      → send_state f k c3 w3 ≡ some w4
      → coordinator_turn f k led (c, w)
        ≡ some (
          record c3 { loop_counter = (c3.loop_counter + 1) % 256 },
          w4,
          if c.loop_counter % 25 == 0 then toggle_led led else [],
        )
  unfolding coordinator_turn
  turn_of_stages led c c3 w w3 w4 p q = ground arith

  send_state_lem :
      (c : Coordinator F32) (w : Ports Queue F32) {q : Queue RobotState}
      → post k w.robot_state_in c.robot_state ≡ some q
      → send_state f k c w ≡ some (record w { robot_state_in = q })
  unfolding send_state
  send_state_lem c w e = ground arith

  -- A turn ends, if the two queues that it writes can hold something. In a supervised mode it leaves
  -- the motion queue alone; else it delivers the desired motion there, and zero motion if the
  -- emergency stop is on. It delivers its state to the messenger, and both queues can be used again.
  pub coordinator_turn-Turned :
      (led : LedDescriptor) (c : Coordinator F32) (w : Ports Queue F32)
      → PortsUsable w
      → (out : Coordinator F32 × Ports Queue F32 × List HwCall) × Turned c w led out
  coordinator_turn-Turned led c w u =
      let i = take_input f k (c, w) in
      let keeps = take_input-keeps_outputs c w in
      let (out, m) = send_motion-MotionStage i.0 i.1 (record {
        motion = subst (λ q. IsUsable k laws q) (sym keeps.0) u.motion;
        state = subst (λ q. IsUsable k laws q) (sym keeps.1) u.state;
      }) in
      let port : out.1.robot_state_in ≡ w.robot_state_in = m.same_port ∙ keeps.1 in
      let (q, d) =
        post_delivers k laws out.1.robot_state_in out.0.robot_state
          (subst (λ q. IsUsable k laws q) (sym port) u.state) in
      (
        (
          record (out.0) { loop_counter = (out.0.loop_counter + 1) % 256 },
          record (out.1) { robot_state_in = q },
          if c.loop_counter % 25 == 0 then toggle_led led else [],
        ),
        record {
          ended =
              turn_of_stages led c out.0 w out.1 (record (out.1) { robot_state_in = q }) m.sent
                (send_state_lem out.0 out.1 d.posted);
          motion = subst (λ q. MotionSent i.0 q out.1.motion_in) keeps.0 m.motion;
          state = m.same_state;
          report =
              subst (λ q'. contents q ≡ delivered (capacity q') (contents q') out.0.robot_state)
                port d.holds;
          usable = record { motion = m.usable; state = d.usable };
        },
      )

  -- What a turn that ended leaves of the queues that it only reads.
  pub record InputsLeft (w out : Ports Queue F32) : Type 0 where
    pub data_left : out.rc_data ≡ (get w.rc_data).1
    pub motion_left : (out.can_motion ≡ w.can_motion) ⊎ (out.can_motion ≡ (get w.can_motion).1)
    pub supervisor_left : out.supervisor ≡ (get w.supervisor).1

  take_input-InputsLeft :
      (c : Coordinator F32) (w : Ports Queue F32) → InputsLeft w (take_input f k (c, w)).1
  unfolding take_input read_can
  take_input-InputsLeft c w = ground arith

  pub coordinator_turn-InputsLeft :
      (led : LedDescriptor) (c : Coordinator F32) (w : Ports Queue F32)
      {out : Coordinator F32 × Ports Queue F32 × List HwCall}
      → coordinator_turn f k led (c, w) ≡ some out
      → InputsLeft w out.1
  unfolding coordinator_turn send_motion send_state
  coordinator_turn-InputsLeft led c w e = ground (arith, take_input-InputsLeft c w)

  -- The calls of a turn that ended: the light, every 25 turns.
  pub coordinator_turn_calls :
      (led : LedDescriptor) (c : Coordinator F32) (w : Ports Queue F32)
      {out : Coordinator F32 × Ports Queue F32 × List HwCall}
      → coordinator_turn f k led (c, w) ≡ some out
      → out.2 ≡ (if c.loop_counter % 25 == 0 then toggle_led led else [])
  unfolding coordinator_turn
  coordinator_turn_calls led c w e = ground arith

  send_motion_capacity :
      (c : Coordinator F32) (w : Ports Queue F32) {out : Coordinator F32 × Ports Queue F32}
      → send_motion f k c w ≡ some out
      → capacity out.1.motion_in ≡ capacity w.motion_in
  unfolding send_motion
  send_motion_capacity c w {out} e =
      elim (Bool-cases (c.robot_state.sup_mode == k_non_supervised)) [
        | inl free ↦
            posted (post k w.motion_in (halt_if_stopped f c).desired_motion) refl
              (sym (λ i. if free i then after else some (c, w)) ∙ e)
        | inr held ↦ ground (arith, e, held)
      ]
    where
      to : Queue (DesiredMotion F32) → Coordinator F32 × Ports Queue F32
      to q = (halt_if_stopped f c, record w { motion_in = q })

      after : Option (Coordinator F32 × Ports Queue F32)
      after = elim (post k w.motion_in (halt_if_stopped f c).desired_motion) [
        | none ↦ none
        | some q ↦ some (to q)
      ]

      posted :
          (o : Option (Queue (DesiredMotion F32)))
          → post k w.motion_in (halt_if_stopped f c).desired_motion ≡ o
          → elim o [ none ↦ none | some q ↦ some (to q) ] ≡ some out
          → capacity out.1.motion_in ≡ capacity w.motion_in
      posted none p h = ground (arith, h)
      posted (some q) p h = ground (arith, h, post_capacity k laws w.motion_in _ p)

  -- A turn that ended leaves the size of the queue for motions.
  pub coordinator_turn_capacity :
      (led : LedDescriptor) (c : Coordinator F32) (w : Ports Queue F32)
      {out : Coordinator F32 × Ports Queue F32 × List HwCall}
      → coordinator_turn f k led (c, w) ≡ some out
      → capacity out.1.motion_in ≡ capacity w.motion_in
  unfolding coordinator_turn send_state
  coordinator_turn_capacity led c w {out} e =
      let (c2, w2) = take_input f k (c, w) in through (send_motion f k c2 w2) refl e
    where
      through :
          (o : Option (Coordinator F32 × Ports Queue F32))
          → send_motion f k (take_input f k (c, w)).0 (take_input f k (c, w)).1 ≡ o
          → elim o [
            | none ↦ none
            | some (c3, w3) ↦ elim (send_state f k c3 w3) [
              | none ↦ none
              | some w4 ↦ some (
                record c3 { loop_counter = (c3.loop_counter + 1) % 256 },
                w4,
                if c.loop_counter % 25 == 0 then toggle_led led else [],
              )
            ]
          ]
            ≡ some out
          → capacity out.1.motion_in ≡ capacity w.motion_in
      through none p h = ground (arith, h)
      through (some (c3, w3)) p h =
          ground (arith, h, send_motion_capacity _ _ p, take_input-keeps_outputs c w)
