-- ===== src/Tbot/Speed/Pid.antt =====
-- The PID controller keeps its output within its limit and does not wind up.
use robofw.Common.{◌≡◌, refl, ◌⊎◌, inl, inr, true, false, Bool-cases}
use robofw.Common.Floats.{Floats, FloatLaws}
use robofw.Tbot.Speed.{PidControllerInstance, update_pid_controller, pid_output}

module _ (f : Floats) (laws : FloatLaws f) where
  open f use {F32, neg32, add32, sub32, mul32, lt32}
  open laws use {lt32_irrefl, lt32_asym}

  -- What an update of `inst` by `reference` and `measurement` gives.
  pub record Updated (inst : PidControllerInstance F32) (reference measurement : F32)
      (out : PidControllerInstance F32 × F32) : Type 0 where
    pub not_above : lt32 inst.umax out.1 ≡ false
    pub not_below : lt32 out.1 (neg32 inst.umax) ≡ false
    pub remembers : out.0.error_last ≡ sub32 reference measurement
    pub parameters :
        (out.0.kp ≡ inst.kp)
        × (out.0.ki ≡ inst.ki)
        × (out.0.kd ≡ inst.kd)
        × (out.0.umax ≡ inst.umax)
        × (out.0.ts ≡ inst.ts)
    -- Either the output is the unlimited one, and the error is added up; or it is at an end that the
    -- unlimited one passes, and nothing is added.
    pub no_windup :
        ((out.1 ≡ pid_output f inst (sub32 reference measurement))
          × (out.0.integral ≡ add32 inst.integral (mul32 (sub32 reference measurement) inst.ts)))
        ⊎ ((out.0.integral ≡ inst.integral)
            × (((out.1 ≡ inst.umax)
                  × (lt32 inst.umax (pid_output f inst (sub32 reference measurement)) ≡ true))
                ⊎ ((out.1 ≡ neg32 inst.umax)
                    × (lt32 (pid_output f inst (sub32 reference measurement)) (neg32 inst.umax)
                        ≡ true))))

  -- The output of an update never passes the limit on either side, if the limit is not below its
  -- negative. The parameters stay, the error is remembered, and it is added to the integral exactly
  -- where the output was not limited.
  pub update_pid_controller-Updated :
      (inst : PidControllerInstance F32) (reference measurement : F32)
      → lt32 inst.umax (neg32 inst.umax) ≡ false
      → Updated inst reference measurement (update_pid_controller f inst reference measurement)
  unfolding update_pid_controller
  update_pid_controller-Updated inst reference measurement h =
      let u = pid_output f inst (sub32 reference measurement) in
      elim (Bool-cases (lt32 inst.umax u)) [
        | inl e ↦ rw e (record {
          not_above = lt32_irrefl inst.umax;
          not_below = h;
          remembers = refl;
          parameters = (refl, refl, refl, refl, refl);
          no_windup = inr (refl, inl (refl, e));
        })
        | inr e ↦ elim (Bool-cases (lt32 u (neg32 inst.umax))) [
          | inl e2 ↦
              rw (e, e2)
                (record {
                  not_above = h;
                  not_below = lt32_irrefl (neg32 inst.umax);
                  remembers = refl;
                  parameters = (refl, refl, refl, refl, refl);
                  no_windup = inr (refl, inr (refl, e2));
                })
          | inr e2 ↦
              rw (e, e2)
                (record {
                  not_above = e;
                  not_below = e2;
                  remembers = refl;
                  parameters = (refl, refl, refl, refl, refl);
                  no_windup = inl (refl, refl);
                })
        ]
      ]
