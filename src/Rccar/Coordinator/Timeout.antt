-- ===== src/Rccar/Coordinator/Timeout.antt =====
-- What the car's coordinator does when its receiver falls silent.
use robofw.Common.{
  ℕ, suc, ◌+◌, ◌%◌, ◌≤◌, min, ◌≡◌, sym, ap, ◌∙◌, false, none, some, List, [], arith,
}
use mathlib.Core.Path.{subst}
use robofw.Common.Floats.{Floats}
use robofw.Common.Msgq.{Msgq, MsgqLaws}
use robofw.Mcal.{HwCall, LedDescriptor}
use robofw.Types.{k_control_mode_can}
use robofw.Rccar.Coordinator.{
  CarCoordinator, CarPorts, read_receiver, halt_if_stopped, decide, coordinator_turn,
}

module _ (f : Floats) (k : Msgq) where
  open k use {Queue, get, contents}
  open f use {F32}

  -- Turns in which the receiver gives nothing.
  pub data CarSilent (led : LedDescriptor) (c : CarCoordinator F32)
      : ℕ → CarCoordinator F32 → Type 0 where
    start : CarSilent led c 0 c
    turn :
        {n : ℕ} {c' : CarCoordinator F32} (w : CarPorts Queue F32)
        (out : CarCoordinator F32 × CarPorts Queue F32 × List HwCall)
        → CarSilent led c n c'
        → contents w.rc_data ≡ []
        → coordinator_turn f k led (c', w) ≡ some out
        → CarSilent led c (suc n) out.0

  record CarQuiet (n : ℕ) (c : CarCoordinator F32) : Type 0 where
    bounded : c.rc_counter ≤ 6
    counted : min n 6 ≤ c.rc_counter
    lost :
        7 ≤ n
        → (c.robot_state.rc_connected ≡ false)
          × (c.robot_state.estop_triggered ≡ false)
          × (c.robot_state.control_mode ≡ k_control_mode_can)

  decide-CarQuiet :
      (led : LedDescriptor) (n : ℕ) (c : CarCoordinator F32)
      → CarQuiet n c
      → CarQuiet (suc n) (decide f k led none c)
  unfolding read_receiver halt_if_stopped
  decide-CarQuiet led n c q = ground arith

  pub turn_vars :
      (led : LedDescriptor) (c : CarCoordinator F32) (w : CarPorts Queue F32)
      {out : CarCoordinator F32 × CarPorts Queue F32 × List HwCall}
      → coordinator_turn f k led (c, w) ≡ some out
      → out.0 ≡ record (decide f k led (get w.rc_data).0 c) {
        loop_counter = ((decide f k led (get w.rc_data).0 c).loop_counter + 1) % 256;
      }
  unfolding coordinator_turn
  turn_vars led c w e = ground arith

  module _ (laws : MsgqLaws k) where
    CarSilent-CarQuiet :
        (led : LedDescriptor) (c : CarCoordinator F32) {n : ℕ} {c' : CarCoordinator F32}
        → c.rc_counter ≤ 6
        → CarSilent led c n c'
        → CarQuiet n c'
    CarSilent-CarQuiet led c b start = record {
      bounded = b;
      counted = omega arith;
      lost = λ h. absurd (omega arith);
    }
    CarSilent-CarQuiet led c b (turn {n = m} {c' = c1} w out before e t) =
        let q = decide-CarQuiet led m c1 (CarSilent-CarQuiet led c b before) in
        let v =
          turn_vars led c1 w t
          ∙ ap
              (λ g. record (decide f k led g c1) {
                loop_counter = ((decide f k led g c1).loop_counter + 1) % 256;
              })
              (ap (λ t. t.0) (laws.get_empty w.rc_data e)) in
        subst (CarQuiet (suc m)) (sym v)
          (record { bounded = q.bounded; counted = q.counted; lost = q.lost })

    -- After seven turns without data from the receiver the car's link counts as lost, the emergency
    -- stop is off and the CAN bus is in control, whatever was the case before. The counter starts at
    -- most at 6.
    pub car_silent_run :
        (led : LedDescriptor) (c : CarCoordinator F32) {n : ℕ} {c' : CarCoordinator F32}
        → c.rc_counter ≤ 6
        → CarSilent led c n c'
        → 7 ≤ n
        → (c'.robot_state.rc_connected ≡ false)
          × (c'.robot_state.estop_triggered ≡ false)
          × (c'.robot_state.control_mode ≡ k_control_mode_can)
    car_silent_run led c b run h = (CarSilent-CarQuiet led c b run).lost h
