-- ===== src/Tbot/Messenger/Transmit.antt =====
-- What a turn of the transmitting thread hands to the CAN driver.
use robofw.Common.{
  ℕ, ◌%◌, ◌<◌, ◌≡◌, refl, ap, ◌∙◌, sym, true, some, List, [], ◌∷◌, ◌++◌, length, set, take, arith,
}
use robofw.Common.Floats.{Floats}
use robofw.Common.Msgq.{Msgq, MsgqLaws}
use robofw.Common.Msgq.Drain.{run_over, drain_within-contents}
use robofw.Can.{CanFrame, CanDriver, CanDescriptor, send_can_frame, standard, can_dataframe}
use robofw.Types.{RobotState, SpeedControlFeedback}
use robofw.Tbot.Codec.{two_int32, encode_can_message}
use robofw.Tbot.Messenger.{
  ReportPorts, send_message, send_feedback, send_robot_state, transmit_turn,
}

-- A data frame as the driver gets it.
abbrev pub data_frame : ℕ → List ℕ → CanFrame
data_frame id bytes = record {
  id_type = standard;
  id = id;
  rtr = can_dataframe;
  dlc = length bytes;
  bytes = bytes;
}

-- The frames of one feedback: raw speeds, filtered speeds, wanted speeds.
abbrev pub feedback_frames : SpeedControlFeedback → List CanFrame
feedback_frames fb =
    data_frame 0x211 (two_int32 fb.measured_speed.raw_rpm_0 fb.measured_speed.raw_rpm_1)
    ∷ data_frame 0x212 (two_int32 fb.measured_speed.filtered_rpm_0 fb.measured_speed.filtered_rpm_1)
    ∷ data_frame 0x213 (two_int32 fb.target_speed.motor_0 fb.target_speed.motor_1)
    ∷ []

abbrev pub state_frames : RobotState → List CanFrame
state_frames state = data_frame 0x200 (state.sup_mode % 256 ∷ []) ∷ []

abbrev pub all_frames : {A : Type 0} → (A → List CanFrame) → List A → List CanFrame
all_frames frames [] = []
all_frames frames (x ∷ xs) = frames x ++ all_frames frames xs

run_over-append {ℓ} :
    {A : Type 0} {S : Type ℓ} (step : A → S → S) (xs ys : List A) (s : S)
    → run_over step (xs ++ ys) s ≡ run_over step ys (run_over step xs s)
run_over-append step [] ys s = refl
run_over-append step (x ∷ xs) ys s = run_over-append step xs ys (step x s)

module _ (f : Floats) (k : Msgq) (d : CanDriver) (dd : CanDescriptor)
    (live : dd.active ≡ true) where
  open d use {State, send}
  open k use {Queue, contents, capacity}

  -- Frames handed to the driver, one after the other.
  abbrev pub hand_over : List CanFrame → State → State
  hand_over frames s = run_over (λ frame s'. (send s' frame).1) frames s

  -- A body that hands over these frames for an item, and leaves eight bytes in the variable.
  abbrev Hands :
      {A : Type 0} → (A → CanFrame × State → CanFrame × State) → (A → List CanFrame) → Type 0
  Hands {A} body frames =
      (a : A) (frame : CanFrame) (s : State)
      → length frame.bytes ≡ 8
      → (length (body a (frame, s)).0.bytes ≡ 8) × ((body a (frame, s)).1 ≡ hand_over (frames a) s)

  send_feedback-Hands : Hands (send_feedback f k d dd) feedback_frames
  unfolding send_feedback send_message send_can_frame encode_can_message
  send_feedback-Hands fb frame s h = (refl, rw live refl)

  first_byte :
      (bytes : List ℕ) (v : ℕ)
      → length bytes ≡ 8
      → (take 1 (set bytes 0 v) ≡ v ∷ []) × (length (set bytes 0 v) ≡ 8)
  first_byte (b ∷ bytes) v h = (refl, h)
  first_byte [] v h = absurd (omega arith)

  send_robot_state-Hands : Hands (send_robot_state f k d dd) state_frames
  unfolding send_robot_state send_message send_can_frame encode_can_message
  send_robot_state-Hands state frame s h = (
    (first_byte frame.bytes (state.sup_mode % 256) h).1,
    rw (live, (first_byte frame.bytes (state.sup_mode % 256) h).0) refl,
  )

  run_over-Hands :
      {A : Type 0} (body : A → CanFrame × State → CanFrame × State) (frames : A → List CanFrame)
      → Hands body frames
      → (xs : List A) (frame : CanFrame) (s : State) → length frame.bytes ≡ 8
      → (length (run_over body xs (frame, s)).0.bytes ≡ 8)
        × ((run_over body xs (frame, s)).1 ≡ hand_over (all_frames frames xs) s)
  run_over-Hands body frames hands [] frame s h = (h, refl)
  run_over-Hands body frames hands (x ∷ xs) frame s h =
      let one = hands x frame s h in
      let next = body x (frame, s) in
      let more = run_over-Hands body frames hands xs next.0 next.1 one.0 in
      (
        more.0,
        more.1
            ∙ ap (hand_over (all_frames frames xs)) one.1
            ∙ sym (run_over-append (λ fr s'. (send s' fr).1) (frames x) (all_frames frames xs) s),
      )

  module _ (laws : MsgqLaws k) where
    pub record Transmitted (fuel : ℕ) (w : ReportPorts Queue) (frame : CanFrame) (s : State)
        (out : ReportPorts Queue × CanFrame × State) : Type 0 where
      pub ended : transmit_turn f k d dd fuel w (frame, s) ≡ some out
      pub emptied :
          (contents out.0.control_feedback_out ≡ []) × (contents out.0.robot_state_in ≡ [])
      pub same_capacity :
          (capacity out.0.control_feedback_out ≡ capacity w.control_feedback_out)
          × (capacity out.0.robot_state_in ≡ capacity w.robot_state_in)
      pub handed :
          out.2
          ≡ hand_over
              (all_frames feedback_frames (contents w.control_feedback_out)
                ++ all_frames state_frames (contents w.robot_state_in))
              s
      pub reusable : length out.1.bytes ≡ 8

    -- A turn on an active device ends, if each inner loop may take one get more than its queue holds.
    -- Both queues are then empty, and the driver has got three frames for every feedback, in the
    -- order of the queue, then one frame for every state.
    pub transmit_turn-Transmitted :
        (fuel : ℕ) (w : ReportPorts Queue) (frame : CanFrame) (s : State)
        → length (contents w.control_feedback_out) < fuel
        → length (contents w.robot_state_in) < fuel
        → length frame.bytes ≡ 8
        → (out : ReportPorts Queue × CanFrame × State) × Transmitted fuel w frame s out
    unfolding transmit_turn
    transmit_turn-Transmitted fuel w frame s h h' long =
        let fbs = contents w.control_feedback_out in
        let states = contents w.robot_state_in in
        let t2 = run_over (send_feedback f k d dd) fbs (frame, s) in
        let first =
          run_over-Hands (send_feedback f k d dd) feedback_frames send_feedback-Hands fbs frame s
            long in
        let second =
          run_over-Hands (send_robot_state f k d dd) state_frames send_robot_state-Hands states t2.0
            t2.1 first.0 in
        let (q, ended, empty, kept) =
          drain_within-contents k laws (send_feedback f k d dd) fuel w.control_feedback_out fbs
            (frame, s) refl h in
        let (q2, ended2, empty2, kept2) =
          drain_within-contents k laws (send_robot_state f k d dd) fuel w.robot_state_in states t2
            refl h' in
        let t3 = run_over (send_robot_state f k d dd) states t2 in
        (
          (record { control_feedback_out = q; robot_state_in = q2 }, t3.0, t3.1),
          record {
            ended = rw (transmit_turn, ended, ended2) refl;
            emptied = (empty, empty2);
            same_capacity = (kept, kept2);
            handed =
                second.1
                ∙ ap (hand_over (all_frames state_frames states)) first.1
                ∙ sym (
                    run_over-append (λ fr s'. (send s' fr).1) (all_frames feedback_frames fbs)
                      (all_frames state_frames states) s);
            reusable = second.0;
          },
        )
