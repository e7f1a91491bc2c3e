-- ===== src/Tbot/System/Halt.antt =====
-- The motors stop while the stick of the emergency stop is held.
use robofw.Common.{
  ℕ, zero, suc, ◌*◌, ◌<◌, ◌≤◌, ◌≡◌, refl, sym, ap, ◌∙◌, true, some, List, [], ◌∷◌, ◌++◌, length,
  get_or, arith,
}
use mathlib.Core.Path.{subst}
use native.Mathlib.Decide.{dec_lt}
use robofw.Common.Int.{pos}
use robofw.Common.Floats.{Floats}
use robofw.Common.Msgq.{Msgq, MsgqLaws}
use robofw.Common.Msgq.Post.{IsUsable-of, get-IsUsable}
use robofw.Can.{CanDriver}
use robofw.Sbus.RoundTrip.{sent_frame, AllBelow}
use robofw.Receiver.{scale_channel}
use robofw.Types.{DesiredRpm}
use robofw.Tbot.Coordinator.{zero_motion}
use robofw.Tbot.Motion.{MotionPorts, rpm_limit, desired_speeds, limited_speeds}
use robofw.Tbot.Motion.Limit.{InRange, distance, limited_turns, limited_turns-arrive}
use robofw.Tbot.Motion.Turns.{MotionMade, motion_turn-MotionTurned, motion_turn_left}
use robofw.Tbot.System.{
  Queues, Threads, Devices, Turn, receiver_reads, coordinator_turns, motion_turns, turn, run,
}
use robofw.Tbot.System.Append.{run-append}
use robofw.Tbot.System.Sound.{Result}
use robofw.Tbot.System.Estop.{Stoppable, estop_frame-Stopped}

-- A frame for the receiver, then a turn of the coordinator and one of the motion control, `n` times.
abbrev pub rounds : List ℕ → ℕ → List Turn
rounds bytes zero = []
rounds bytes (suc n) = receiver_reads bytes ∷ coordinator_turns ∷ motion_turns ∷ rounds bytes n

module _ (f : Floats) (k : Msgq) (laws : MsgqLaws k) (d : CanDriver) (dev : Devices) where
  open f use {F32, of_int, lt32}
  open k use {Queue, get, contents, capacity}
  open laws use {get_oldest, get_capacity}
  open d use {State}

  abbrev World : Type 0
  World = Queues Queue F32 × Threads F32 State

  -- The speeds that a zero motion asks for.
  abbrev pub at_rest : DesiredRpm
  at_rest = desired_speeds f (zero_motion f)

  record MotionHalting (w : World) (out : Result f k laws d dev) : Type 0 where
    ended : turn f k d dev motion_turns w ≡ some out
    target : out.0.1.prev_target_rpm ≡ limited_speeds f w.1.prev_target_rpm at_rest
    again : Stoppable f k laws out.0
    same_coordinator : out.0.1.coordinator ≡ w.1.coordinator

  motion-Halting :
      (w : World)
      → Stoppable f k laws w
      → contents w.0.desired_motion ≡ zero_motion f ∷ []
      → (out : Result f k laws d dev) × MotionHalting w out
  unfolding turn
  motion-Halting (q, t) s asked =
      let w : MotionPorts f k = record {
        desired_motion_in = q.desired_motion;
        desired_rpm_in = q.desired_rpm;
      } in
      let (out, r) = motion_turn-MotionTurned f k laws t.prev_target_rpm w s.rpm in
      let made : MotionMade f k laws (some (zero_motion f)) t.prev_target_rpm w out =
        subst (λ got. MotionMade f k laws got t.prev_target_rpm w out)
          (get_oldest q.desired_motion (zero_motion f) [] asked) r.made in
      let left = motion_turn_left f k laws t.prev_target_rpm w r.ended in
      (
        (
          (
            record q {
              desired_motion = out.1.desired_motion_in;
              desired_rpm = out.1.desired_rpm_in;
            },
            record t { prev_target_rpm = out.0 },
          ),
          [],
        ),
        record {
          ended = rw (turn, r.ended) refl;
          target = made.0;
          again = record {
            received = s.received;
            state = s.state;
            one_received = s.one_received;
            quiet = s.quiet;
            free = s.free;
            waits = s.waits;
            motion = IsUsable-of k laws (sym left) (get-IsUsable k laws q.desired_motion s.motion);
            one_motion = ap capacity left ∙ get_capacity q.desired_motion ∙ s.one_motion;
            rpm = r.usable;
          };
          same_coordinator = refl;
        },
      )

  -- What rounds under a held emergency stop leave.
  pub record Halting (bytes : List ℕ) (n : ℕ) (w : World) (out : Result f k laws d dev)
      : Type 0 where
    pub ended : run f k d dev (rounds bytes n) w ≡ some out
    pub left :
        out.0.1.prev_target_rpm.motor_0
        ≡ limited_turns rpm_limit n w.1.prev_target_rpm.motor_0 at_rest.motor_0
    pub right :
        out.0.1.prev_target_rpm.motor_1
        ≡ limited_turns rpm_limit n w.1.prev_target_rpm.motor_1 at_rest.motor_1
    pub estop : 0 < n → out.0.1.coordinator.robot_state.estop_triggered ≡ true
    pub none_yet : n ≡ 0 → out.0.1.coordinator ≡ w.1.coordinator

  module _ (cs : List ℕ) (flags : ℕ) (channels : length cs ≡ 16) (below : AllBelow 2048 cs)
      (small : flags < 256)
      (stick : lt32 (of_int (pos 0)) (scale_channel f (get_or cs 6 0)) ≡ true) where
    record Round (w : World) (out : Result f k laws d dev) : Type 0 where
      ended :
          run f k d dev
            (receiver_reads (sent_frame cs flags) ∷ coordinator_turns ∷ motion_turns ∷ [])
            w
          ≡ some out
      target : out.0.1.prev_target_rpm ≡ limited_speeds f w.1.prev_target_rpm at_rest
      again : Stoppable f k laws out.0
      estop : out.0.1.coordinator.robot_state.estop_triggered ≡ true

    one-Round : (w : World) → Stoppable f k laws w → (out : Result f k laws d dev) × Round w out
    unfolding run
    one-Round w s =
        let (out, r) = estop_frame-Stopped f k laws d dev cs flags w s channels below small stick in
        let (out2, r2) = motion-Halting out.0 r.again r.motion in
        let last : run f k d dev (motion_turns ∷ []) out.0 ≡ some (out2.0, out2.1 ++ []) =
          rw (run, r2.ended) refl in
        (
          (out2.0, out.1 ++ (out2.1 ++ [])),
          record {
            ended =
                run-append f k laws d dev
                  (receiver_reads (sent_frame cs flags) ∷ coordinator_turns ∷ [])
                  (motion_turns ∷ []) w r.ended last;
            target = r2.target ∙ ap (λ prev. limited_speeds f prev at_rest) r.same_target;
            again = r2.again;
            estop = ap (λ c. c.robot_state.estop_triggered) r2.same_coordinator ∙ r.estop;
          },
        )

    rounds-Halting :
        (n : ℕ) (w : World)
        → Stoppable f k laws w
        → (out : Result f k laws d dev) × Halting (sent_frame cs flags) n w out
    unfolding run limited_speeds
    rounds-Halting zero w s = (
      (w, []),
      record {
        ended = refl;
        left = refl;
        right = refl;
        estop = λ h. absurd (omega arith);
        none_yet = λ h. refl;
      },
    )
    rounds-Halting (suc n) w s =
        let (out, r) = one-Round w s in
        let (out2, r2) = rounds-Halting n out.0 r.again in
        (
          (out2.0, out.1 ++ out2.1),
          record {
            ended =
                run-append f k laws d dev
                  (receiver_reads (sent_frame cs flags) ∷ coordinator_turns ∷ motion_turns ∷ [])
                  (rounds (sent_frame cs flags) n) w r.ended r2.ended;
            left = r2.left ∙ ap (λ t. limited_turns rpm_limit n t.motor_0 at_rest.motor_0) r.target;
            right =
                r2.right ∙ ap (λ t. limited_turns rpm_limit n t.motor_1 at_rest.motor_1) r.target;
            estop = λ h. elim (dec_lt 0 n) [
              | yes later ↦ r2.estop later
              | no now ↦
                  ap (λ c. c.robot_state.estop_triggered) (r2.none_yet (omega arith)) ∙ r.estop
            ];
            none_yet = λ h. absurd (omega arith);
          },
        )

    -- While the stick of the emergency stop is held, the motors are slowed down until nothing more is
    -- asked of them than by a zero motion: if a frame in which the seventh channel is positive, once scaled, comes before every turn of the coordinator
    -- and the motion control, then after enough rounds the target of the motor speeds is what a zero
    -- motion asks for, and the emergency stop is on. The number of rounds is positive, and times 3,
    -- the smaller limit on the change of a speed, it is at least the distance of each speed from that
    -- target; the speeds and the distances fit 16 bits. At the start the decoder waits for a frame, the
    -- queues can hold something, those of the receiver's data and the desired motion just one item, and
    -- nobody supervises the robot or is about to.
    pub held_estop-Halted :
        (n : ℕ) (w : World)
        → Stoppable f k laws w
        → 0 < n
        → InRange w.1.prev_target_rpm.motor_0 at_rest.motor_0
        → InRange w.1.prev_target_rpm.motor_1 at_rest.motor_1
        → distance w.1.prev_target_rpm.motor_0 at_rest.motor_0 ≤ n * 3
        → distance w.1.prev_target_rpm.motor_1 at_rest.motor_1 ≤ n * 3
        → (out : Result f k laws d dev) × (run f k d dev (rounds (sent_frame cs flags) n) w
            ≡ some out)
          × (out.0.1.prev_target_rpm ≡ at_rest)
          × (out.0.1.coordinator.robot_state.estop_triggered ≡ true)
    held_estop-Halted n w s some_rounds range_0 range_1 enough_0 enough_1 =
        let (out, r) = rounds-Halting n w s in
        let left =
          r.left
          ∙ limited_turns-arrive 2 7 n w.1.prev_target_rpm.motor_0 at_rest.motor_0 range_0
              enough_0 in
        let right =
          r.right
          ∙ limited_turns-arrive 2 7 n w.1.prev_target_rpm.motor_1 at_rest.motor_1 range_1
              enough_1 in
        (out, r.ended, λ i. record { motor_0 = left i; motor_1 = right i }, r.estop some_rounds)
