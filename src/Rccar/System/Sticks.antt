-- ===== src/Rccar/System/Sticks.antt =====
-- From the sticks of the remote control to the frames for the motor controller.
use robofw.Common.{
  ℕ, ◌+◌, ◌%◌, ◌<◌, ◌≡◌, ◌⊎◌, refl, sym, ap, ◌∙◌, Bool, true, false, not, ◌&&◌, some, List, [], ◌∷◌,
  ◌++◌, length, get_or, get_or-append, arith,
}
use mathlib.Core.Path.{subst}
use robofw.Common.Int.{pos}
use robofw.Common.Floats.{Floats}
use robofw.Common.Msgq.{Msgq, MsgqLaws}
use robofw.Common.Msgq.Post.{IsUsable, delivered, delivered_one}
use robofw.Can.{CanFrame, CanDriver, CanDescriptor}
use robofw.Mcal.{HwCall, LedDescriptor}
use robofw.Sbus.{wait_for_sof}
use robofw.Sbus.RoundTrip.{sent_frame, sent_message, AllBelow}
use robofw.Receiver.{scale_channel, receiver_data}
use robofw.Receiver.Bytes.{receive_bytes-sent_frame}
use robofw.Types.{
  ReceiverData, RobotState, DesiredMotion, k_non_supervised, k_control_mode_rc, k_control_mode_can,
}
use robofw.Rccar.Coordinator.{
  CarCoordinator, CarPorts, is_rc, dead_zone, selects_rc, releases_estop, read_receiver,
  halt_if_stopped, decide, coordinator_turn,
}
use robofw.Rccar.Coordinator.Sends.{car_turn-CarTurned, drives}
use robofw.Rccar.Coordinator.Timeout.{turn_vars}
use robofw.Rccar.Messenger.{CarTxPorts, transmit_turn}
use robofw.Rccar.Messenger.Commands.{servo_frame, rpm_frame, Relayed, transmit_turn-Relayed}
use robofw.Rccar.System.{
  CarQueues, CarThreads, receiver_reads, coordinator_turns, messenger_sends, turn, run,
}

module _ (f : Floats) where
  open f use {F32, of_int, lit64, neg32, neg64, lt32, lt64, widen}

  -- What the sticks ask for: their linear and angular parts outside the dead zones, if the sixth
  -- channel is positive and the seventh below -0.5.
  abbrev pub stick_motion : List ℕ → DesiredMotion F32
  stick_motion cs = record {
    linear = dead_zone f 5 (scale_channel f (get_or cs 2 0));
    angular = dead_zone f 10 (neg32 (scale_channel f (get_or cs 1 0)));
  }

  abbrev pub may_drive : List ℕ → Bool
  may_drive cs =
      lt32 (of_int (pos 0)) (scale_channel f (get_or cs 5 0))
      && lt64 (widen (scale_channel f (get_or cs 6 0))) (neg64 (lit64 5 10))

  -- The channels of a frame that the car looks at, scaled.
  sent_channels :
      (cs : List ℕ) (flags : ℕ)
      → length cs ≡ 16
      → let at = get_or (receiver_data f (sent_message cs flags)).channels in
        (at 1 (of_int (pos 0)) ≡ scale_channel f (get_or cs 1 0))
        × (at 2 (of_int (pos 0)) ≡ scale_channel f (get_or cs 2 0))
        × (at 5 (of_int (pos 0)) ≡ scale_channel f (get_or cs 5 0))
        × (at 6 (of_int (pos 0)) ≡ scale_channel f (get_or cs 6 0))
  unfolding receiver_data
  sent_channels cs flags n = (
    ap (scale_channel f) (get_or-append cs _ 1 0 (omega (arith, n))),
    ap (scale_channel f) (get_or-append cs _ 2 0 (omega (arith, n))),
    ap (scale_channel f) (get_or-append cs _ 5 0 (omega (arith, n))),
    ap (scale_channel f) (get_or-append cs _ 6 0 (omega (arith, n))),
  )

  delivered_first : {A : Type 0} (cap : ℕ) (a : A) → delivered cap [] a ≡ a ∷ []
  delivered_first cap a = ground arith

  -- What the state lets the messenger do.
  abbrev drives_on : RobotState → Bool
  drives_on s = not s.estop_triggered && is_rc s.control_mode

  drives_on-true :
      (s : RobotState)
      → drives_on s ≡ true
      → (s.estop_triggered ≡ false) × (s.control_mode ≡ k_control_mode_rc)
  drives_on-true s h = ground arith

  drives_on-false :
      (s : RobotState)
      → drives_on s ≡ false
      → (s.estop_triggered ≡ true) ⊎ (s.control_mode ≡ k_control_mode_can)
  drives_on-false s h = ground arith

  -- What data of the receiver make of the car's variables.
  decide_lem :
      (k : Msgq) (led : LedDescriptor) (r : ReceiverData F32) (c : CarCoordinator F32)
      → let c2 = decide f k led (some r) c in
        (c2.robot_state.sup_mode ≡ c.robot_state.sup_mode)
        × (drives_on c2.robot_state ≡ (releases_estop f r && selects_rc f r))
        × ((releases_estop f r && selects_rc f r) ≡ true
            → (c2.desired_motion.linear ≡ dead_zone f 5 (get_or r.channels 2 (of_int (pos 0))))
              × (c2.desired_motion.angular
                  ≡ dead_zone f 10 (neg32 (get_or r.channels 1 (of_int (pos 0))))))
  unfolding read_receiver halt_if_stopped
  decide_lem k led r c = ground arith

  record Decided (cs : List ℕ) (c : CarCoordinator F32) : Type 0 where
    free : c.robot_state.sup_mode ≡ k_non_supervised
    mode : drives_on c.robot_state ≡ may_drive cs
    motion : may_drive cs ≡ true → c.desired_motion ≡ stick_motion cs

  decide-Decided :
      (k : Msgq) (led : LedDescriptor) (cs : List ℕ) (flags : ℕ) (c : CarCoordinator F32)
      → length cs ≡ 16
      → c.robot_state.sup_mode ≡ k_non_supervised
      → Decided cs (decide f k led (some (receiver_data f (sent_message cs flags))) c)
  decide-Decided k led cs flags c n free =
      let r = receiver_data f (sent_message cs flags) in
      let at = sent_channels cs flags n in
      let did = decide_lem k led r c in
      let same : (releases_estop f r && selects_rc f r) ≡ may_drive cs =
        λ i. lt32 (of_int (pos 0)) (at.2 i) && lt64 (widen (at.3 i)) (neg64 (lit64 5 10)) in
      record {
        free = did.0 ∙ free;
        mode = did.1 ∙ same;
        motion = λ go.
            let to = did.2 (same ∙ go) in
            λ i. record {
              linear = (to.0 ∙ ap (dead_zone f 5) at.1) i;
              angular = (to.1 ∙ ap (λ x. dead_zone f 10 (neg32 x)) at.0) i;
            };
      }

  module _ (k : Msgq) (laws : MsgqLaws k) (id_field : ℕ → ℕ) (d : CanDriver) (dd : CanDescriptor)
      (blank : CanFrame) (live : dd.active ≡ true) (long : length blank.bytes ≡ 8)
      (led : LedDescriptor) where
    open k use {Queue, get, contents, capacity}
    open laws use {get_oldest}
    open d use {State, send}

    abbrev World : Type 0
    World = CarQueues Queue F32 × CarThreads F32 State

    -- The two frames of the motion that the sticks ask for.
    abbrev pub driven_by : List ℕ → State → State
    driven_by cs s =
        (send (send s (servo_frame f id_field d dd blank live long (stick_motion cs).angular)).1
          (rpm_frame f id_field d dd blank live long (stick_motion cs).linear)).1

    -- What one frame makes of the car.
    pub record Answered (cs : List ℕ) (flags : ℕ) (w : World) (out : World × List HwCall)
        : Type 0 where
      pub ended :
          run f id_field d dd blank led k
            (receiver_reads (sent_frame cs flags) ∷ coordinator_turns ∷ messenger_sends ∷ [])
            w
          ≡ some out
      pub driven : may_drive cs ≡ true → out.0.1.can ≡ driven_by cs w.1.can
      pub silent : may_drive cs ≡ false → out.0.1.can ≡ w.1.can

    -- Ready for a frame: the decoder waits for one, the queues can hold something, those of the
    -- receiver's data and the state just one item, no motion waits and nobody supervises the car.
    pub record Drivable (w : World) : Type 0 where
      pub received : IsUsable k laws w.0.receiver_data
      pub motion : IsUsable k laws w.0.rc_desired_motion
      pub state : IsUsable k laws w.0.robot_state
      pub one_received : capacity w.0.receiver_data ≡ 1
      pub one_state : capacity w.0.robot_state ≡ 1
      pub no_motion : contents w.0.rc_desired_motion ≡ []
      pub free : w.1.coordinator.robot_state.sup_mode ≡ k_non_supervised
      pub waits : w.1.decoder.decode_state ≡ wait_for_sof

    sends :
        (c : CarCoordinator F32)
        → c.robot_state.sup_mode ≡ k_non_supervised
        → drives_on c.robot_state ≡ true
        → drives f k laws c ≡ true
    sends c free go = ground (arith, free, go)

    turn-Decided :
        (cs : List ℕ) (flags : ℕ) (c : CarCoordinator F32) (w : CarPorts Queue F32)
        (out : CarCoordinator F32 × CarPorts Queue F32 × List HwCall)
        → contents w.rc_data ≡ receiver_data f (sent_message cs flags) ∷ []
        → length cs ≡ 16
        → c.robot_state.sup_mode ≡ k_non_supervised
        → coordinator_turn f k led (c, w) ≡ some out
        → Decided cs out.0
    turn-Decided cs flags c w out newest n free e =
        let did = decide-Decided k led cs flags c n free in
        let vars =
          turn_vars f k led c w e
          ∙ ap
              (λ g. record (decide f k led g c) {
                loop_counter = ((decide f k led g c).loop_counter + 1) % 256;
              })
              (get_oldest w.rc_data _ [] newest) in
        subst (λ x. Decided cs x) (sym vars)
          (record { free = did.free; mode = did.mode; motion = did.motion })

    -- What a turn of the messenger makes of one state and, where it drives, of one motion.
    relay_one :
        (w : CarTxPorts Queue F32) (s : State) (state : RobotState)
        → contents w.robot_state_in ≡ state ∷ []
        → let out = transmit_turn f id_field d dd blank k (w, s) in
          ((m : DesiredMotion F32)
            → drives_on state ≡ true
            → contents w.motion_in ≡ m ∷ []
            → out.1
              ≡ (send
                  (send s (servo_frame f id_field d dd blank live long m.angular)).1
                  (rpm_frame f id_field d dd blank live long m.linear)).1)
          × (drives_on state ≡ false → out.1 ≡ s)
    relay_one w s state one =
        let out = transmit_turn f id_field d dd blank k (w, s) in
        let r : Relayed f id_field d dd blank live long k laws (state ∷ []) (contents w.motion_in) s
            (contents out.0.motion_in, out.1) =
          subst
            (λ states.
              Relayed f id_field d dd blank live long k laws states (contents w.motion_in) s
                (contents out.0.motion_in, out.1))
            one (transmit_turn-Relayed f id_field d dd blank live long k laws w s) in
        (
          λ m go waiting.
              let (off, rc) = drives_on-true state go in ((r.1 off rc).1 m [] waiting).1,
          λ halt. (r.0 (drives_on-false state halt)).1,
        )

    -- A frame of the remote control, to a car that is ready for one, is answered at once: after it was
    -- read by the receiver, the turns of the coordinator and the messenger end, and the motor
    -- controller has got exactly the two frames of the motion that the sticks ask for, if the sixth
    -- channel, scaled, is positive and the seventh below -0.5; else the CAN driver is not called. The
    -- CAN device is active.
    pub car_frame-Answered :
        (cs : List ℕ) (flags : ℕ) (w : World)
        → Drivable w
        → length cs ≡ 16
        → AllBelow 2048 cs
        → flags < 256
        → (out : World × List HwCall) × Answered cs flags w out
    unfolding run turn
    car_frame-Answered cs flags (q, t) s n below small =
        let ((decoder, msg, rc), r1) =
          receive_bytes-sent_frame f k laws cs flags t.decoder t.sbus_msg q.receiver_data s.received
            s.waits n below small in
        let newest : contents rc ≡ receiver_data f (sent_message cs flags) ∷ [] =
          r1.queued ∙ delivered_one _ _ s.one_received in
        let w2 : CarPorts Queue F32 = record {
          rc_data = rc;
          motion_in = q.rc_desired_motion;
          robot_state_in = q.robot_state;
        } in
        let (out, r2) =
          car_turn-CarTurned f k laws led t.coordinator w2
            (record { motion = s.motion; state = s.state }) in
        let decided = turn-Decided cs flags t.coordinator w2 out newest n s.free r2.ended in
        let w3 : CarTxPorts Queue F32 = record {
          robot_state_in = out.1.robot_state_in;
          motion_in = out.1.motion_in;
        } in
        let sent = transmit_turn f id_field d dd blank k (w3, t.can) in
        let relayed =
          relay_one w3 t.can out.0.robot_state (r2.reported ∙ delivered_one _ _ s.one_state) in
        (
          (
            (
              record q {
                receiver_data = out.1.rc_data;
                rc_desired_motion = sent.0.motion_in;
                robot_state = sent.0.robot_state_in;
              },
              record t { decoder = decoder; sbus_msg = msg; coordinator = out.0; can = sent.1 },
            ),
            out.2 ++ [],
          ),
          record {
            ended = rw (run, turn, r1.ended, r2.ended) refl;
            driven = λ go. relayed.0 (stick_motion cs) (decided.mode ∙ go) (
                r2.driven (sends out.0 decided.free (decided.mode ∙ go))
                ∙ ap (λ held. delivered (capacity q.rc_desired_motion) held out.0.desired_motion)
                    s.no_motion
                ∙ delivered_first _ _
                ∙ ap (λ m. m ∷ []) (decided.motion go));
            silent = λ halt. relayed.1 (decided.mode ∙ halt);
          },
        )
