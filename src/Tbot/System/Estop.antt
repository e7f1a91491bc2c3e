-- ===== src/Tbot/System/Estop.antt =====
-- From the stick of the emergency stop to the queue of the motion control.
use robofw.Common.{
  ℕ, ◌<◌, ◌≡◌, refl, sym, ap, ◌∙◌, true, none, some, List, [], ◌∷◌, ◌++◌, length, get_or,
  get_or-append, if◌then◌else◌, arith,
}
use robofw.Common.Int.{pos}
use robofw.Common.Floats.{Floats}
use robofw.Common.Msgq.{Msgq, MsgqLaws}
use robofw.Common.Msgq.Post.{IsUsable, delivered_one, get-IsUsable, IsUsable-of}
use robofw.Can.{CanDriver}
use robofw.Sbus.{wait_for_sof}
use robofw.Sbus.RoundTrip.{sent_frame, sent_message, AllBelow}
use robofw.Receiver.{scale_channel, receiver_data}
use robofw.Receiver.Bytes.{receive_bytes-sent_frame}
use robofw.Types.{ReceiverData, k_non_supervised}
use robofw.Tbot.Coordinator.{
  Coordinator, Ports, zero_motion, selects_estop, read_receiver, follow_can, obey_supervisor,
  read_can, take_input,
}
use robofw.Tbot.Coordinator.Sends.{
  coordinator_turn-Turned, coordinator_turn-InputsLeft, coordinator_turn_capacity,
}
use robofw.Tbot.System.{Queues, Threads, Devices, receiver_reads, coordinator_turns, turn, run}
use robofw.Tbot.System.Sound.{Result}

module _ (f : Floats) (k : Msgq) (laws : MsgqLaws k) where
  open f use {F32, of_int, lt32}
  open k use {Queue, get, contents, capacity}
  open laws use {get_empty, get_oldest, get_capacity}

  -- Data of the receiver whose seventh channel is positive stop the robot, if no command changes the
  -- mode of supervision.
  take_input-stopped :
      (c : Coordinator F32) (w : Ports Queue F32) (r : ReceiverData F32)
      → (get w.rc_data).0 ≡ some r
      → selects_estop f r ≡ true
      → (get w.supervisor).0 ≡ none
      → c.robot_state.sup_mode ≡ k_non_supervised
      → ((take_input f k (c, w)).0.robot_state.estop_triggered ≡ true)
        × ((take_input f k (c, w)).0.robot_state.sup_mode ≡ k_non_supervised)
  unfolding take_input read_can read_receiver follow_can obey_supervisor
  take_input-stopped c w r got stop quiet free = ground (arith, got, stop, quiet, free)

  -- The seventh channel of a frame is the one that selects the emergency stop.
  selects_estop-seventh :
      (cs : List ℕ) (flags : ℕ)
      → length cs ≡ 16
      → lt32 (of_int (pos 0)) (scale_channel f (get_or cs 6 0)) ≡ true
      → selects_estop f (receiver_data f (sent_message cs flags)) ≡ true
  unfolding receiver_data
  selects_estop-seventh cs flags n stick =
      ap (λ c. lt32 (of_int (pos 0)) (scale_channel f c))
        (get_or-append cs _ 6 0 (omega (arith, n)))
      ∙ stick

  -- Ready to be stopped by a frame: the decoder waits for one, the queues can hold something, those of
  -- the receiver's data and the desired motion just one item, and nobody supervises the robot or is
  -- about to.
  pub record Stoppable {Can : Type 0} (w : Queues Queue F32 × Threads F32 Can) : Type 0 where
    pub received : IsUsable k laws w.0.receiver_data
    pub motion : IsUsable k laws w.0.desired_motion
    pub state : IsUsable k laws w.0.robot_state
    pub rpm : IsUsable k laws w.0.desired_rpm
    pub one_received : capacity w.0.receiver_data ≡ 1
    pub one_motion : capacity w.0.desired_motion ≡ 1
    pub quiet : contents w.0.supervisor_cmd ≡ []
    pub free : w.1.coordinator.robot_state.sup_mode ≡ k_non_supervised
    pub waits : w.1.decoder.decode_state ≡ wait_for_sof

  module _ (d : CanDriver) (dev : Devices) where
    open d use {State}

    -- What the robot does about the stick of the emergency stop.
    pub record Stopped (bytes : List ℕ) (w : Queues Queue F32 × Threads F32 State)
        (out : Result f k laws d dev) : Type 0 where
      pub ended : run f k d dev (receiver_reads bytes ∷ coordinator_turns ∷ []) w ≡ some out
      pub estop : out.0.1.coordinator.robot_state.estop_triggered ≡ true
      pub motion : contents out.0.0.desired_motion ≡ zero_motion f ∷ []
      pub again : Stoppable out.0
      pub same_target : out.0.1.prev_target_rpm ≡ w.1.prev_target_rpm

    -- A frame in which the seventh channel is positive, once scaled, stops the robot: after it was
    -- read by the receiver, whose decoder waits for a frame, the next turn of the coordinator ends with
    -- the emergency stop on, and zero motion is all that waits for the motion control. The queues can
    -- hold something, those of the receiver's data and the desired motion just one item, and nobody
    -- supervises the robot or is about to. All this still holds afterwards, and the target of the motor
    -- speeds is the same.
    pub estop_frame-Stopped :
        (cs : List ℕ) (flags : ℕ) (w : Queues Queue F32 × Threads F32 State)
        → Stoppable w
        → length cs ≡ 16
        → AllBelow 2048 cs
        → flags < 256
        → lt32 (of_int (pos 0)) (scale_channel f (get_or cs 6 0)) ≡ true
        → (out : Result f k laws d dev) × Stopped (sent_frame cs flags) w out
    unfolding run turn
    estop_frame-Stopped cs flags (q, t) s n below small stick =
        let ((decoder, msg, rc), r1) =
          receive_bytes-sent_frame f k laws cs flags t.decoder t.sbus_msg q.receiver_data s.received
            s.waits n below small in
        let newest : contents rc ≡ receiver_data f (sent_message cs flags) ∷ [] =
          r1.queued ∙ delivered_one _ _ s.one_received in
        let w2 : Ports Queue F32 = record {
          rc_data = rc;
          can_motion = q.can_desired_motion;
          supervisor = q.supervisor_cmd;
          motion_in = q.desired_motion;
          robot_state_in = q.robot_state;
        } in
        let stopped =
          take_input-stopped t.coordinator w2 (receiver_data f (sent_message cs flags))
            (get_oldest rc _ [] newest) (selects_estop-seventh cs flags n stick)
            (ap (λ t. t.0) (get_empty q.supervisor_cmd s.quiet)) s.free in
        let (out, r) =
          coordinator_turn-Turned f k laws dev.dd_led_status t.coordinator w2
            (record { motion = s.motion; state = s.state }) in
        let left =
          coordinator_turn-InputsLeft f k laws dev.dd_led_status t.coordinator w2 r.ended in
        (
          (
            (
              record q {
                receiver_data = out.1.rc_data;
                can_desired_motion = out.1.can_motion;
                supervisor_cmd = out.1.supervisor;
                desired_motion = out.1.motion_in;
                robot_state = out.1.robot_state_in;
              },
              record t { decoder = decoder; sbus_msg = msg; coordinator = out.0 },
            ),
            out.2 ++ [],
          ),
          record {
            ended = rw (run, turn, r1.ended, r.ended) refl;
            estop = ap (λ v. v.estop_triggered) r.state ∙ stopped.0;
            motion =
                r.motion.1 stopped.1
                ∙ delivered_one _ _ s.one_motion
                ∙ ap
                    (λ b.
                      (if b
                        then zero_motion f
                        else (take_input f k (t.coordinator, w2)).0.desired_motion)
                      ∷ [])
                    stopped.0;
            again = record {
              received = IsUsable-of k laws (sym left.data_left) (get-IsUsable k laws rc r1.usable);
              motion = r.usable.motion;
              state = r.usable.state;
              rpm = s.rpm;
              one_received =
                  ap capacity left.data_left ∙ get_capacity rc ∙ r1.same_capacity ∙ s.one_received;
              one_motion =
                  coordinator_turn_capacity f k laws dev.dd_led_status t.coordinator w2 r.ended
                  ∙ s.one_motion;
              quiet =
                  ap contents left.supervisor_left
                  ∙ ap (λ t. contents t.1) (get_empty q.supervisor_cmd s.quiet)
                  ∙ s.quiet;
              free = ap (λ v. v.sup_mode) r.state ∙ stopped.1;
              waits = r1.waits;
            };
            same_target = refl;
          },
        )
