-- ===== src/Rccar/System/Run.antt =====
-- Every run of the car, in any order of its threads' turns.
use robofw.Common.{
  ℕ, ◌+◌, ◌%◌, ◌≤◌, ◌≡◌, ◌⊎◌, inl, inr, refl, sym, true, some, List, [], ◌∷◌, ◌++◌, arith,
}
use mathlib.Core.Path.{subst}
use robofw.Common.Floats.{Floats}
use robofw.Common.Msgq.{Msgq, MsgqLaws}
use robofw.Common.Msgq.Post.{IsUsable, IsUsable-of, get-IsUsable}
use robofw.Can.{CanFrame, CanDriver, CanDescriptor}
use robofw.Mcal.{HwCall, LedDescriptor}
use robofw.Sbus.Stream.{IsValid, feed, feed-IsValid}
use robofw.Receiver.Bytes.{receive_bytes-Received}
use robofw.Rccar.Coordinator.{
  CarCoordinator, CarPorts, zero_motion, read_receiver, halt_if_stopped, decide, coordinator_turn,
  send_motion, send_state,
}
use robofw.Rccar.Coordinator.Sends.{car_turn-CarTurned}
use robofw.Rccar.Coordinator.Timeout.{turn_vars}
use robofw.Rccar.Messenger.{CarTxPorts, transmit_turn}
use robofw.Rccar.System.{
  CarQueues, CarThreads, CarTurn, receiver_reads, frame_arrives, coordinator_turns, messenger_sends,
  turn, run,
}

module _ (f : Floats) (k : Msgq) (laws : MsgqLaws k) where
  open f use {F32}
  open k use {Queue, get}

  -- The timeout counter is at most 6, the light's counter at most 25, and no motion but zero is
  -- desired under an emergency stop.
  pub record CoordinatorSound (c : CarCoordinator F32) : Type 0 where
    pub rc : c.rc_counter ≤ 6
    pub light : c.loop_counter ≤ 25
    pub halted : c.robot_state.estop_triggered ≡ true → c.desired_motion ≡ zero_motion f

  pub record CarSound {Can : Type 0} (w : CarQueues Queue F32 × CarThreads F32 Can) : Type 0 where
    pub received : IsUsable k laws w.0.receiver_data
    pub state : IsUsable k laws w.0.robot_state
    pub motion : IsUsable k laws w.0.rc_desired_motion
    pub decoder : IsValid w.1.decoder
    pub coordinator : CoordinatorSound w.1.coordinator

  decide-CoordinatorSound :
      (led : LedDescriptor) (got : _) (c : CarCoordinator F32)
      → CoordinatorSound c
      → let c2 = decide f k led got c in
        CoordinatorSound (record c2 { loop_counter = (c2.loop_counter + 1) % 256 })
  unfolding read_receiver halt_if_stopped
  decide-CoordinatorSound led got c s = ground arith

  data_left :
      (led : LedDescriptor) (c : CarCoordinator F32) (w : CarPorts Queue F32)
      {out : CarCoordinator F32 × CarPorts Queue F32 × List HwCall}
      → coordinator_turn f k led (c, w) ≡ some out
      → out.1.rc_data ≡ (get w.rc_data).1
  unfolding coordinator_turn send_motion send_state
  data_left led c w e = ground (arith, e)

  module _ (id_field : ℕ → ℕ) (d : CanDriver) (dd : CanDescriptor) (blank : CanFrame)
      (led : LedDescriptor) where
    open d use {State}

    abbrev World : Type 0
    World = CarQueues Queue F32 × CarThreads F32 State

    record CarKept (t : CarTurn) (w : World) (out : World × List HwCall) : Type 0 where
      ended : turn f id_field d dd blank led k t w ≡ some out
      sound : CarSound out.0

    queues_left :
        (w : CarTxPorts Queue F32) (s : State)
        → let out = transmit_turn f id_field d dd blank k (w, s) in
          (out.0.robot_state_in ≡ (get w.robot_state_in).1)
          × ((out.0.motion_in ≡ w.motion_in) ⊎ (out.0.motion_in ≡ (get w.motion_in).1))
    unfolding transmit_turn
    queues_left w s = ground arith

    receiver-CarKept :
        (bytes : List ℕ) (w : World)
        → CarSound w
        → (out : World × List HwCall) × CarKept (receiver_reads bytes) w out
    unfolding turn
    receiver-CarKept bytes (q, t) s =
        let (q', r) =
          receive_bytes-Received f k laws bytes t.decoder t.sbus_msg q.receiver_data s.received in
        let (decoder, msg, reported) = feed t.decoder t.sbus_msg bytes in
        (
          ((record q { receiver_data = q' }, record t { decoder = decoder; sbus_msg = msg }), []),
          record {
            ended = rw (turn, r.ended) refl;
            sound = record {
              received = r.usable;
              state = s.state;
              motion = s.motion;
              decoder = feed-IsValid bytes t.decoder t.sbus_msg s.decoder;
              coordinator = s.coordinator;
            };
          },
        )

    coordinator-CarKept :
        (w : World) → CarSound w → (out : World × List HwCall) × CarKept coordinator_turns w out
    unfolding turn
    coordinator-CarKept (q, t) s =
        let w : CarPorts Queue F32 = record {
          rc_data = q.receiver_data;
          motion_in = q.rc_desired_motion;
          robot_state_in = q.robot_state;
        } in
        let (out, r) =
          car_turn-CarTurned f k laws led t.coordinator w
            (record { motion = s.motion; state = s.state }) in
        (
          (
            (
              record q {
                receiver_data = out.1.rc_data;
                rc_desired_motion = out.1.motion_in;
                robot_state = out.1.robot_state_in;
              },
              record t { coordinator = out.0 },
            ),
            out.2,
          ),
          record {
            ended = rw (turn, r.ended) refl;
            sound = record {
              received =
                  IsUsable-of k laws (sym (data_left led t.coordinator w r.ended))
                    (get-IsUsable k laws q.receiver_data s.received);
              state = r.usable.state;
              motion = r.usable.motion;
              decoder = s.decoder;
              coordinator =
                  subst (λ c. CoordinatorSound c) (sym (turn_vars f k led t.coordinator w r.ended))
                    (decide-CoordinatorSound led (get q.receiver_data).0 t.coordinator
                      s.coordinator);
            };
          },
        )

    messenger-CarKept :
        (w : World) → CarSound w → (out : World × List HwCall) × CarKept messenger_sends w out
    unfolding turn
    messenger-CarKept (q, t) s =
        let w : CarTxPorts Queue F32 = record {
          robot_state_in = q.robot_state;
          motion_in = q.rc_desired_motion;
        } in
        let out = transmit_turn f id_field d dd blank k (w, t.can) in
        let left = queues_left w t.can in
        (
          (
            (
              record q { robot_state = out.0.robot_state_in; rc_desired_motion = out.0.motion_in },
              record t { can = out.1 },
            ),
            [],
          ),
          record {
            ended = refl;
            sound = record {
              received = s.received;
              state = IsUsable-of k laws (sym left.0) (get-IsUsable k laws q.robot_state s.state);
              motion = elim left.1 [
                | inl e ↦ IsUsable-of k laws (sym e) s.motion
                | inr e ↦
                    IsUsable-of k laws (sym e) (get-IsUsable k laws q.rc_desired_motion s.motion)
              ];
              decoder = s.decoder;
              coordinator = s.coordinator;
            };
          },
        )

    turn-CarKept :
        (t : CarTurn) (w : World) → CarSound w → (out : World × List HwCall) × CarKept t w out
    unfolding turn
    turn-CarKept (receiver_reads bytes) w s = receiver-CarKept bytes w s
    turn-CarKept (frame_arrives frame) (q, t) s = (
      _,
      record {
        ended = refl;
        sound = record {
          received = s.received;
          state = s.state;
          motion = s.motion;
          decoder = s.decoder;
          coordinator = s.coordinator;
        };
      },
    )
    turn-CarKept coordinator_turns w s = coordinator-CarKept w s
    turn-CarKept messenger_sends w s = messenger-CarKept w s

    -- In whatever order the threads of the car take their turns and whatever comes in, no turn blocks:
    -- the run ends, if the state is sound before it, which means that every queue can hold something
    -- and holds no more than it can, the decode buffer is valid, the timeout counter is at most 6 and
    -- the light's counter at most 25, and no motion but zero is desired under an emergency stop. The
    -- state is sound after it.
    pub car_run-CarSound :
        (ts : List CarTurn) (w : World)
        → CarSound w
        → (out : World × List HwCall) × (run f id_field d dd blank led k ts w ≡ some out)
          × CarSound out.0
    unfolding run
    car_run-CarSound [] w s = ((w, []), refl, s)
    car_run-CarSound (t ∷ ts) w s =
        let ((w2, calls), one) = turn-CarKept t w s in
        let ((w3, more), ended, sound) = car_run-CarSound ts w2 one.sound in
        ((w3, calls ++ more), rw (run, one.ended, ended) refl, sound)
