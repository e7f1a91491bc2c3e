-- ===== src/Encoder/Running.antt =====
-- The variables of the encoder service stay in order through each stage of a turn.
use mathlib.Core.Path.{subst}
use robofw.Common.{ℕ, ◌+◌, ◌≤◌, ◌<◌, false, ◌≡◌, refl, sym, leb, arith, Bool-cases, inl, inr}
use robofw.Common.Int.{int32}
use robofw.Common.Floats.{Floats}
use robofw.Types.{EstimatedSpeed}
use robofw.Encoder.{raw_rpm}
use robofw.Encoder.Estimate.{IsEstimator, IsPossible, estimate-IsPossible, zeros-AllPossible}
use robofw.Encoder.Loop.{
  EncoderConf, EncoderVars, encoder_init, each_active, store_0, store_1, clear_0, clear_1, track_0,
  track_1, first_turn, track, estimate_0, estimate_1, make_estimates, divides_by_zero,
}

pub record IsRunning (v : EncoderVars) : Type 0 where
  pub left : IsEstimator v.estimator_0
  pub right : IsEstimator v.estimator_1
  pub counter : v.estimator_counter ≤ 20

-- So are the variables before the loop.
pub encoder_init-IsRunning :
    (speed_estimate : EstimatedSpeed) → IsRunning (encoder_init speed_estimate)
unfolding encoder_init
encoder_init-IsRunning speed_estimate =
    let zeros : IsEstimator (encoder_init speed_estimate).estimator_0 = record {
      last = omega arith;
      history = zeros-AllPossible 10;
      long = refl;
      index = omega arith;
    } in
    record { left = zeros; right = zeros; counter = omega arith }

-- The filtered speeds of the active encoders are possible ones.
abbrev pub Reportable : ℕ → EstimatedSpeed → Type 0
Reportable n s = (1 ≤ n → IsPossible s.filtered_rpm_0) × (2 ≤ n → IsPossible s.filtered_rpm_1)

each_active-keeps :
    (P : EncoderVars → Type 0) (n : ℕ) (body_0 body_1 : EncoderVars → EncoderVars) (v : EncoderVars)
    → ((u : EncoderVars) → P u → P (body_0 u))
    → ((u : EncoderVars) → P u → P (body_1 u))
    → P v
    → P (each_active n body_0 body_1 v)
each_active-keeps P n body_0 body_1 v h0 h1 p = elim (Bool-cases (leb 1 n)) [
  | inl e ↦ elim (Bool-cases (leb 2 n)) [
    | inl e2 ↦ rw (e, e2) (h1 (body_0 v) (h0 v p))
    | inr e2 ↦ rw (e, e2) (h0 v p)
  ]
  | inr e ↦ elim (Bool-cases (leb 2 n)) [ inl e2 ↦ rw (e, e2) (h1 v p) | inr e2 ↦ rw (e, e2) p ]
]

pub running :
    (v : EncoderVars) {u : EncoderVars}
    → IsRunning v
    → u.estimator_0 ≡ v.estimator_0
    → u.estimator_1 ≡ v.estimator_1
    → u.estimator_counter ≡ v.estimator_counter
    → IsRunning u
running v h e0 e1 e2 = record {
  left = subst IsEstimator (sym e0) h.left;
  right = subst IsEstimator (sym e1) h.right;
  counter = omega (arith, e2, h.counter);
}

pub first_turn-IsRunning :
    (conf : EncoderConf) (r0 r1 : ℕ) (v : EncoderVars)
    → IsRunning v
    → IsRunning (first_turn conf r0 r1 v)
unfolding first_turn
first_turn-IsRunning conf r0 r1 v h =
    let kept =
      each_active-keeps IsRunning conf.active_encoder_num (store_0 r0) (store_1 r1) v
        (λ u p. running u {u = store_0 r0 u} p refl refl refl)
        (λ u p. running u {u = store_1 r1 u} p refl refl refl) h in
    running _ {u = first_turn conf r0 r1 v} kept refl refl refl

pub track-IsRunning :
    (conf : EncoderConf) (r0 r1 t : ℕ) (v : EncoderVars)
    → IsRunning v
    → IsRunning (track conf r0 r1 t v)
unfolding track track_0 track_1
track-IsRunning conf r0 r1 t v h =
    each_active-keeps IsRunning conf.active_encoder_num (track_0 r0) (track_1 r1) _
      (λ u p. running u {u = track_0 r0 u} p refl refl refl)
      (λ u p. running u {u = track_1 r1 u} p refl refl refl)
      (running v {u = record v { accumulated_time = v.accumulated_time + t }} h refl refl refl)

-- A turn adds its time.
pub track_time :
    (conf : EncoderConf) (r0 r1 t : ℕ) (v : EncoderVars)
    → (track conf r0 r1 t v).accumulated_time ≡ v.accumulated_time + t
unfolding track track_0 track_1
track_time conf r0 r1 t v =
    each_active-keeps (λ u. u.accumulated_time ≡ v.accumulated_time + t) conf.active_encoder_num
      (track_0 r0) (track_1 r1) _ (λ u p. p) (λ u p. p) refl

-- A configuration by which nothing is divided by 0.
pub record IsConfigured (conf : EncoderConf) : Type 0 where
  pub samples : 0 < conf.sample_per_every_iteration
  pub pulses_0 : 1 ≤ conf.active_encoder_num → 0 < conf.pulse_per_round_0
  pub pulses_1 : 2 ≤ conf.active_encoder_num → 0 < conf.pulse_per_round_1

pub divides_by_zero-false :
    (conf : EncoderConf) (v : EncoderVars)
    → IsConfigured conf
    → 0 < v.accumulated_time
    → divides_by_zero conf v ≡ false
unfolding divides_by_zero
divides_by_zero-false conf v c h = ground (arith, c.pulses_0, c.pulses_1, h)

-- After the estimates of a turn.
record Estimated (n : ℕ) (v : EncoderVars) : Type 0 where
  left : IsEstimator v.estimator_0
  right : IsEstimator v.estimator_1
  counter : v.estimator_counter ≤ 20
  reportable : Reportable n v.speed_estimate

-- The same, when they have been counted.
pub record Counted (n : ℕ) (v : EncoderVars) : Type 0 where
  pub left : IsEstimator v.estimator_0
  pub right : IsEstimator v.estimator_1
  pub counter : v.estimator_counter ≤ 21
  pub reportable : Reportable n v.speed_estimate

counted :
    (n : ℕ) (v : EncoderVars) {u : EncoderVars}
    → Counted n v
    → u.estimator_0 ≡ v.estimator_0
    → u.estimator_1 ≡ v.estimator_1
    → u.estimator_counter ≡ v.estimator_counter
    → u.speed_estimate ≡ v.speed_estimate
    → Counted n u
counted n v h e0 e1 e2 e3 = record {
  left = subst IsEstimator (sym e0) h.left;
  right = subst IsEstimator (sym e1) h.right;
  counter = omega (arith, e2, h.counter);
  reportable = subst (Reportable n) (sym e3) h.reportable;
}

module _ (f : Floats) where
  estimates-Estimated :
      (conf : EncoderConf) (v : EncoderVars)
      → IsRunning v
      → Estimated conf.active_encoder_num
          (each_active conf.active_encoder_num (estimate_0 f conf) (estimate_1 f conf) v)
  unfolding estimate_0 estimate_1
  estimates-Estimated conf v h =
      let p0 =
        estimate-IsPossible f v.estimator_counter
          (int32 (raw_rpm v.channel_0 v.accumulated_time conf.pulse_per_round_0)) v.estimator_0
          h.left in
      let p1 =
        estimate-IsPossible f v.estimator_counter
          (int32 (raw_rpm v.channel_1 v.accumulated_time conf.pulse_per_round_1)) v.estimator_1
          h.right in
      elim (Bool-cases (leb 1 conf.active_encoder_num)) [
        | inl e ↦ elim (Bool-cases (leb 2 conf.active_encoder_num)) [
          | inl e2 ↦
              rw (e, e2)
                (record {
                  left = p0.0;
                  right = p1.0;
                  counter = h.counter;
                  reportable = (λ t. p0.1, λ t. p1.1);
                })
          | inr e2 ↦
              rw (e, e2)
                (record {
                  left = p0.0;
                  right = h.right;
                  counter = h.counter;
                  reportable = (λ t. p0.1, λ t. absurd (ground arith));
                })
        ]
        | inr e ↦ elim (Bool-cases (leb 2 conf.active_encoder_num)) [
          | inl e2 ↦ absurd (ground arith)
          | inr e2 ↦
              rw (e, e2)
                (record {
                  left = h.left;
                  right = h.right;
                  counter = h.counter;
                  reportable = (λ t. absurd (ground arith), λ t. absurd (ground arith));
                })
        ]
      ]

  pub make_estimates-Counted :
      (conf : EncoderConf) (v : EncoderVars)
      → IsRunning v
      → Counted conf.active_encoder_num (make_estimates f conf v)
  unfolding make_estimates
  make_estimates-Counted conf v h =
      let made = estimates-Estimated conf v h in
      let n = conf.active_encoder_num in
      each_active-keeps (Counted n) n clear_0 clear_1 _
        (λ u p. counted n u {u = clear_0 u} p refl refl refl refl)
        (λ u p. counted n u {u = clear_1 u} p refl refl refl refl)
        (record {
          left = made.left;
          right = made.right;
          counter = omega (arith, made.counter);
          reportable = made.reportable;
        })
