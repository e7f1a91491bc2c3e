-- ===== src/Tbot/Coordinator/Timeouts.antt =====
-- What the coordinator does when nothing arrives: its counters, and the two timeouts.
use mathlib.Core.Path.{◌≡◌, ap, ◌∙◌, ap₂}
use robofw.Common.{
  ℕ, suc, ◌+◌, ◌-◌, ◌%◌, ◌≤◌, min, false, Option, none, some, List, [], arith, ◌==◌, Bool-cases,
  inl, inr, if◌then◌else◌,
}
use robofw.Common.Floats.{Floats}
use robofw.Common.Msgq.{Msgq, MsgqLaws}
use robofw.Mcal.{HwCall, LedDescriptor}
use robofw.Types.{
  DesiredMotion, k_non_supervised, SupervisorCommand, k_control_mode_can, ReceiverData,
}
use robofw.Tbot.Coordinator.{
  Coordinator, Ports, zero_motion, read_receiver, follow_can, obey_supervisor, halt_if_stopped,
  read_can, take_input, send_motion, send_state, coordinator_turn, is_can,
}

-- No turn takes a `uint8_t` counter past 6, so none wraps.
pub record CountersBounded {F : Type 0} (c : Coordinator F) : Type 0 where
  pub rc : c.rc_counter ≤ 6
  pub can : c.can_counter ≤ 6

module _ (f : Floats) (k : Msgq) where
  open k use {Queue, contents, get}
  open f use {F32}

  abbrev sent_vars : Coordinator F32 → Coordinator F32
  sent_vars c = if c.robot_state.sup_mode == k_non_supervised then halt_if_stopped f c else c

  -- The variables after a turn.
  turn_vars :
      (led : LedDescriptor) (c : Coordinator F32) (w : Ports Queue F32)
      {out : Coordinator F32 × Ports Queue F32 × List HwCall}
      → coordinator_turn f k led (c, w) ≡ some out
      → out.0 ≡ record (sent_vars (take_input f k (c, w)).0) {
        loop_counter = ((sent_vars (take_input f k (c, w)).0).loop_counter + 1) % 256;
      }
  unfolding coordinator_turn send_motion send_state
  turn_vars led c w e = ground arith

  -- What the input stage does to the variables, for the items that were read.
  abbrev input_vars :
      Option (ReceiverData F32)
      → Option (DesiredMotion F32)
      → Option SupervisorCommand
      → Coordinator F32
      → Coordinator F32
  input_vars r m s c =
      let c1 = read_receiver f r c in
      obey_supervisor f s (if is_can c1.robot_state.control_mode then follow_can f m c1 else c1)

  read_can_vars :
      (c : Coordinator F32) (w : Ports Queue F32)
      → (read_can f k (c, w)).0
        ≡ (if is_can c.robot_state.control_mode then follow_can f (get w.can_motion).0 c else c)
  unfolding read_can
  read_can_vars c w = elim (Bool-cases (is_can c.robot_state.control_mode)) [
    | inl e ↦ rw e
    | inr e ↦ rw e
  ]

  take_input_vars :
      (c : Coordinator F32) (w : Ports Queue F32)
      → (s : Option SupervisorCommand) × ((take_input f k (c, w)).0
          ≡ input_vars (get w.rc_data).0 (get w.can_motion).0 s c)
  unfolding take_input
  take_input_vars c w =
      let c1 = read_receiver f (get w.rc_data).0 c in
      let w1 : Ports Queue F32 = record w { rc_data = (get w.rc_data).1 } in
      let s = (get (read_can f k (c1, w1)).1.supervisor).0 in
      (s, ap (obey_supervisor f s) (read_can_vars c1 w1))

  input_vars-CountersBounded :
      (r : Option (ReceiverData F32)) (m : Option (DesiredMotion F32))
      (s : Option SupervisorCommand) (c : Coordinator F32)
      → CountersBounded c
      → CountersBounded (input_vars r m s c)
  unfolding read_receiver follow_can obey_supervisor
  input_vars-CountersBounded r m s c b = ground arith

  -- A turn that ends leaves the counters at most at 6, if they were before it.
  pub coordinator_turn-CountersBounded :
      (led : LedDescriptor) (c : Coordinator F32) (w : Ports Queue F32)
      {out : Coordinator F32 × Ports Queue F32 × List HwCall}
      → coordinator_turn f k led (c, w) ≡ some out
      → CountersBounded c
      → CountersBounded out.0
  unfolding halt_if_stopped
  coordinator_turn-CountersBounded led c w e b =
      let (s, i) = take_input_vars c w in
      ground (
        arith,
        turn_vars led c w e,
        i,
        input_vars-CountersBounded (get w.rc_data).0 (get w.can_motion).0 s c b,
      )

  -- Turns in which the receiver and the CAN bus give nothing; the supervisor may speak at any time.
  pub data Silent (led : LedDescriptor) (c : Coordinator F32) : ℕ → Coordinator F32 → Type 0 where
    start : Silent led c 0 c
    turn :
        {n : ℕ} {c' : Coordinator F32} (w : Ports Queue F32)
        (out : Coordinator F32 × Ports Queue F32 × List HwCall)
        → Silent led c n c'
        → contents w.rc_data ≡ []
        → contents w.can_motion ≡ []
        → coordinator_turn f k led (c', w) ≡ some out
        → Silent led c (suc n) out.0

  -- What holds after `n` silent turns.
  record Quiet (n : ℕ) (c : Coordinator F32) : Type 0 where
    bounded : CountersBounded c
    rc : min n 6 ≤ c.rc_counter
    can : min (n - 6) 6 ≤ c.can_counter
    lost :
        7 ≤ n
        → (c.robot_state.rc_connected ≡ false)
          × (c.robot_state.estop_triggered ≡ false)
          × (c.robot_state.control_mode ≡ k_control_mode_can)
    halted : 13 ≤ n → (c.desired_motion ≡ zero_motion f)

  silent_input-Quiet :
      (n : ℕ) (s : Option SupervisorCommand) (c : Coordinator F32)
      → Quiet n c
      → Quiet (suc n) (input_vars none none s c)
  unfolding read_receiver follow_can obey_supervisor
  silent_input-Quiet n s c q = ground arith

  sent_vars-Quiet : (n : ℕ) (c : Coordinator F32) → Quiet n c → Quiet n (sent_vars c)
  unfolding halt_if_stopped
  sent_vars-Quiet n c q = ground arith

  module _ (laws : MsgqLaws k) where
    silent_turn_vars :
        (led : LedDescriptor) (c : Coordinator F32) (w : Ports Queue F32)
        {out : Coordinator F32 × Ports Queue F32 × List HwCall}
        → contents w.rc_data ≡ []
        → contents w.can_motion ≡ []
        → coordinator_turn f k led (c, w) ≡ some out
        → (s : Option SupervisorCommand) × (out.0 ≡ record (sent_vars (input_vars none none s c)) {
          loop_counter = ((sent_vars (input_vars none none s c)).loop_counter + 1) % 256;
        })
    silent_turn_vars led c w {out} r m e =
        let (s, i) = take_input_vars c w in
        let no_data : (get w.rc_data).0 ≡ none = ap (λ t. t.0) (laws.get_empty w.rc_data r) in
        let no_motion : (get w.can_motion).0 ≡ none =
          ap (λ t. t.0) (laws.get_empty w.can_motion m) in
        let input : (take_input f k (c, w)).0 ≡ input_vars none none s c =
          i ∙ ap₂ (λ a b. input_vars a b s c) no_data no_motion in
        (
          s,
          turn_vars led c w e
              ∙ ap
                  (λ v. record (sent_vars v) {
                    loop_counter = ((sent_vars v).loop_counter + 1) % 256;
                  })
                  input,
        )

    Silent-Quiet :
        (led : LedDescriptor) (c : Coordinator F32) {n : ℕ} {c' : Coordinator F32}
        → CountersBounded c
        → Silent led c n c'
        → Quiet n c'
    Silent-Quiet led c b start = record {
      bounded = b;
      rc = omega arith;
      can = omega arith;
      lost = λ h. absurd (omega arith);
      halted = λ h. absurd (omega arith);
    }
    Silent-Quiet led c b (turn {n = m} {c' = c1} w out before r q e) =
        let (s, v) = silent_turn_vars led c1 w r q e in
        let quiet =
          sent_vars-Quiet (suc m) (input_vars none none s c1)
            (silent_input-Quiet m s c1 (Silent-Quiet led c b before)) in
        ground (arith, v, quiet)

    -- A receiver that falls silent: after seven turns without its data or a motion from the CAN bus
    -- the link counts as lost, the emergency stop is off and the CAN bus is in control. The counters
    -- start at most at 6, as every turn leaves them.
    pub silent_run_lost :
        (led : LedDescriptor) (c : Coordinator F32) {n : ℕ} {c' : Coordinator F32}
        → CountersBounded c
        → Silent led c n c'
        → 7 ≤ n
        → (c'.robot_state.rc_connected ≡ false)
          × (c'.robot_state.estop_triggered ≡ false)
          × (c'.robot_state.control_mode ≡ k_control_mode_can)
    silent_run_lost led c b run h = (Silent-Quiet led c b run).lost h

    -- After thirteen turns without data from the receiver or a motion from the CAN bus the desired
    -- motion is zero. The counters start at most at 6.
    pub silent_run_stops :
        (led : LedDescriptor) (c : Coordinator F32) {n : ℕ} {c' : Coordinator F32}
        → CountersBounded c
        → Silent led c n c'
        → 13 ≤ n
        → c'.desired_motion ≡ zero_motion f
    silent_run_stops led c b run h = (Silent-Quiet led c b run).halted h
