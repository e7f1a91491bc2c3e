-- ===== src/Encoder/Turns.antt =====
-- What the encoder service reports, over its whole run.
use robofw.Common.{
  ℕ, ◌+◌, ◌%◌, ◌<◌, false, ◌≡◌, refl, ◌∙◌, if-true, if-false, some, ltb, ◌==◌, arith, Bool-cases,
  ◌⊎◌, inl, inr,
}
use robofw.Common.Floats.{Floats}
use robofw.Common.Msgq.{Msgq, MsgqLaws}
use robofw.Common.Msgq.Post.{IsUsable, delivered, post_delivers}
use robofw.Types.{EstimatedSpeed}
use robofw.Encoder.Loop.{
  EncoderConf, EncoderVars, first_turn, track, make_estimates, report, encoder_turn,
}
use robofw.Encoder.Running.{
  IsRunning, Reportable, running, first_turn-IsRunning, track-IsRunning, Counted,
  make_estimates-Counted, track_time, IsConfigured, divides_by_zero-false,
}

module _ (f : Floats) where
  module _ (k : Msgq) (laws : MsgqLaws k) where
    open k use {Queue, contents, capacity}

    -- A turn's result: either nothing is sent, or the new estimates, which are possible speeds.
    pub record Sampled (conf : EncoderConf) (r0 r1 t : ℕ) (v : EncoderVars)
        (q : Queue EstimatedSpeed) (out : EncoderVars × Queue EstimatedSpeed) : Type 0 where
      pub ended : encoder_turn f k conf r0 r1 t (v, q) ≡ some out
      pub running : IsRunning out.0
      pub sent :
          (out.1 ≡ q)
          ⊎ ((contents out.1 ≡ delivered (capacity q) (contents q) out.0.speed_estimate)
              × Reportable conf.active_encoder_num out.0.speed_estimate)
      pub usable : IsUsable k laws out.1

    record Reported (n : ℕ) (v : EncoderVars) (q : Queue EstimatedSpeed)
        (out : EncoderVars × Queue EstimatedSpeed) : Type 0 where
      ended : report f k v q ≡ some out
      running : IsRunning out.0
      sent :
          (out.1 ≡ q)
          ⊎ ((contents out.1 ≡ delivered (capacity q) (contents q) out.0.speed_estimate)
              × Reportable n out.0.speed_estimate)
      usable : IsUsable k laws out.1

    report-Reported :
        (n : ℕ) (v : EncoderVars) (q : Queue EstimatedSpeed)
        → Counted n v
        → IsUsable k laws q
        → (out : EncoderVars × Queue EstimatedSpeed) × Reported n v q out
    unfolding report
    report-Reported n v q c u = elim (Bool-cases (ltb 20 v.estimator_counter)) [
      | inl e ↦
          (let (q2, d) = post_delivers k laws q v.speed_estimate u in
            (
              (record v { estimator_counter = 20 }, q2),
              record {
                ended = rw (report, e, d.posted) refl;
                running = record { left = c.left; right = c.right; counter = omega arith };
                sent = inr (d.holds, c.reportable);
                usable = d.usable;
              },
            ))
      | inr e ↦ (
        (v, q),
        record {
          ended = rw (report, e) refl;
          running = record { left = c.left; right = c.right; counter = ground (arith, c.counter) };
          sent = inl refl;
          usable = u;
        },
      )
    ]

    -- Every turn of the service from variables in order ends and keeps them so, if the queue can hold
    -- something, time has passed since the last turn, and neither the configuration's sampling nor the
    -- pulses per round of an active encoder are 0. What it sends is its new estimate, with the speed of
    -- each active encoder within 600 rounds per minute either way, whatever the counters read.
    pub encoder_turn-Sampled :
        (conf : EncoderConf) (r0 r1 t : ℕ) (v : EncoderVars) (q : Queue EstimatedSpeed)
        → IsConfigured conf
        → 0 < t
        → IsRunning v
        → IsUsable k laws q
        → (out : EncoderVars × Queue EstimatedSpeed) × Sampled conf r0 r1 t v q out
    unfolding encoder_turn
    encoder_turn-Sampled conf r0 r1 t v q c passed h u =
        let sampling : (conf.sample_per_every_iteration == 0) ≡ false = ground (arith, c.samples) in
        let tracked = track conf r0 r1 t v in
        let next : EncoderVars = record tracked {
          loop_counter = (tracked.loop_counter + 1) % 4294967296;
        } in
        let next_runs : IsRunning next =
          running tracked (track-IsRunning conf r0 r1 t v h) refl refl refl in
        let divides =
          divides_by_zero-false conf next c (omega (arith, track_time conf r0 r1 t v, passed)) in
        elim (Bool-cases v.first_time) [
          | inl e ↦ (
            (first_turn conf r0 r1 v, q),
            record {
              ended = if-true _ e;
              running = first_turn-IsRunning conf r0 r1 v h;
              sent = inl refl;
              usable = u;
            },
          )
          | inr e ↦ elim (Bool-cases (v.loop_counter % conf.sample_per_every_iteration == 0)) [
            | inl e2 ↦
                (let (out, r) =
                    report-Reported conf.active_encoder_num (make_estimates f conf next) q
                      (make_estimates-Counted f conf next next_runs) u in
                  (
                    out,
                    record {
                      ended =
                          if-false _ e
                          ∙ if-false _ sampling
                          ∙ if-true _ e2
                          ∙ if-false _ divides
                          ∙ r.ended;
                      running = r.running;
                      sent = r.sent;
                      usable = r.usable;
                    },
                  ))
            | inr e2 ↦ (
              (next, q),
              record {
                ended = if-false _ e ∙ if-false _ sampling ∙ if-false _ e2;
                running = next_runs;
                sent = inl refl;
                usable = u;
              },
            )
          ]
        ]
