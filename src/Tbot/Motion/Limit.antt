-- ===== src/Tbot/Motion/Limit.antt =====
-- The limit on the change of a motor's speed.
use robofw.Common.{
  ℕ, zero, suc, ◌+◌, ◌*◌, ◌-◌, ◌≤◌, ◌≡◌, refl, ◌⊎◌, inl, inr, Bool-cases, ◌&&◌, arith, min, max,
  ◌≢◌,
}
use robofw.Common.Int.{
  ℤ, pos, negsuc, pos_part, neg_part, ◌+ℤ◌, ◌-ℤ◌, neg_ℤ, ltb_ℤ, ◌≤ℤ◌, int16, FitsInt16, int16_fits,
}
use robofw.Tbot.Motion.{MotionLimit, apply_motion_limit, limit_change}

-- Limits of at least 1, as the firmware's are.
abbrev pub limit_of : ℕ → ℕ → MotionLimit
limit_of a d = record { accel = pos (suc a); decel = pos (suc d) }

-- The two speeds fit their variables, and so does their difference.
pub record InRange (prev value : ℤ) : Type 0 where
  pub prev_fits : FitsInt16 prev
  pub value_fits : FitsInt16 value
  pub diff_fits : FitsInt16 (value -ℤ prev)

-- Between two values, the ends included.
abbrev pub Between : ℤ → ℤ → ℤ → Type 0
Between a b x = ((a ≤ℤ x) × (x ≤ℤ b)) ⊎ ((b ≤ℤ x) × (x ≤ℤ a))

-- |a - b|
abbrev pub distance : ℤ → ℤ → ℕ
distance a b =
    (pos_part a + neg_part b - (pos_part b + neg_part a))
    + (pos_part b + neg_part a - (pos_part a + neg_part b))

-- The four steps and the way out.
data Step (a d : ℕ) (prev value diff : ℤ) : ℤ → Type 0 where
  up :
      pos 1 ≤ℤ prev
      → pos (suc (suc a)) ≤ℤ diff
      → Step a d prev value diff (int16 (prev +ℤ pos (suc a)))
  up_back :
      prev ≤ℤ negsuc 0
      → diff ≤ℤ negsuc (suc a)
      → Step a d prev value diff (int16 (prev -ℤ pos (suc a)))
  down_back :
      prev ≤ℤ negsuc 0
      → pos (suc (suc d)) ≤ℤ diff
      → Step a d prev value diff (int16 (prev +ℤ pos (suc d)))
  down :
      pos 1 ≤ℤ prev
      → diff ≤ℤ negsuc (suc d)
      → Step a d prev value diff (int16 (prev -ℤ pos (suc d)))
  there :
      (prev ≢ pos 0 → (negsuc (max a d) ≤ℤ diff) × (diff ≤ℤ pos (suc (max a d))))
      → Step a d prev value diff value

limit_change-Step :
    (a d : ℕ) (prev value diff : ℤ)
    → Step a d prev value diff (limit_change (limit_of a d) prev value diff)
limit_change-Step a d prev value diff =
    elim (Bool-cases (ltb_ℤ (pos 0) prev && ltb_ℤ (pos (suc a)) diff)) [
      | inl e ↦ rw e (up (ground arith) (ground arith))
      | inr e1 ↦ elim (Bool-cases (ltb_ℤ prev (pos 0) && ltb_ℤ diff (neg_ℤ (pos (suc a))))) [
        | inl e ↦ rw (e1, e) (up_back (ground arith) (ground arith))
        | inr e2 ↦ elim (Bool-cases (ltb_ℤ prev (pos 0) && ltb_ℤ (pos (suc d)) diff)) [
          | inl e ↦ rw (e1, e2, e) (down_back (ground arith) (ground arith))
          | inr e3 ↦ elim (Bool-cases (ltb_ℤ (pos 0) prev && ltb_ℤ diff (neg_ℤ (pos (suc d))))) [
            | inl e ↦ rw (e1, e2, e3, e) (down (ground arith) (ground arith))
            | inr e4 ↦ rw (e1, e2, e3, e4) (there (ground arith))
          ]
        ]
      ]
    ]

-- What one step does: it stays between the two speeds, it moves by a limit at most unless it starts
-- from a standstill, and it arrives or comes closer by the smaller limit at least.
pub record Limited (a d : ℕ) (prev value out : ℤ) : Type 0 where
  pub between : Between prev value out
  pub bounded : prev ≢ pos 0 → distance out prev ≤ max (suc a) (suc d)
  pub closer : (out ≡ value) ⊎ (distance out value + suc (min a d) ≤ distance prev value)

Step-Limited :
    (a d : ℕ) (prev value : ℤ) {out : ℤ}
    → InRange prev value
    → Step a d prev value (value -ℤ prev) out
    → Limited a d prev value out
Step-Limited a d prev value r (up h k) =
    rw (int16_fits (prev +ℤ pos (suc a)) (ground arith))
      (record { between = ground arith; bounded = ground arith; closer = ground arith })
Step-Limited a d prev value r (up_back h k) =
    rw (int16_fits (prev -ℤ pos (suc a)) (ground arith))
      (record { between = ground arith; bounded = ground arith; closer = ground arith })
Step-Limited a d prev value r (down_back h k) =
    rw (int16_fits (prev +ℤ pos (suc d)) (ground arith))
      (record { between = ground arith; bounded = ground arith; closer = ground arith })
Step-Limited a d prev value r (down h k) =
    rw (int16_fits (prev -ℤ pos (suc d)) (ground arith))
      (record { between = ground arith; bounded = ground arith; closer = ground arith })
Step-Limited a d prev value r (there h) = record {
  between = ground arith;
  bounded = ground arith;
  closer = inl refl;
}

-- The limiter stays between the two speeds, moves by at most the larger limit unless the motor
-- stands, and arrives or comes closer by at least the smaller limit, if the speeds and their
-- difference fit 16 bits.
pub apply_motion_limit-Limited :
    (a d : ℕ) (prev value : ℤ)
    → InRange prev value
    → Limited a d prev value (apply_motion_limit (limit_of a d) prev value)
unfolding apply_motion_limit
apply_motion_limit-Limited a d prev value r =
    rw (int16_fits (value -ℤ prev) r.diff_fits)
      (Step-Limited a d prev value r (limit_change-Step a d prev value (value -ℤ prev)))

-- The turns of the loop under one wanted speed.
abbrev pub limited_turns : MotionLimit → ℕ → ℤ → ℤ → ℤ
limited_turns limit zero prev value = prev
limited_turns limit (suc n) prev value =
    limited_turns limit n (apply_motion_limit limit prev value) value

-- A speed between two that are in range is in range with the second one.
Between-InRange :
    (prev value out : ℤ) → InRange prev value → Between prev value out → InRange out value
Between-InRange prev value out r b = record {
  prev_fits = ground arith;
  value_fits = r.value_fits;
  diff_fits = ground arith;
}

distance-zero : (a b : ℤ) → distance a b ≡ 0 → a ≡ b
distance-zero a b h = ground arith

distance_self : (a : ℤ) → distance a a ≡ 0
distance_self a = omega arith

next_distance :
    (m n : ℕ) (prev value out : ℤ)
    → (out ≡ value) ⊎ (distance out value + suc m ≤ distance prev value)
    → distance prev value ≤ suc n * suc m
    → distance out value ≤ n * suc m
next_distance m n prev value out (inl e) h = rw e (omega (arith, distance_self value))
next_distance m n prev value out (inr c) h = omega arith

-- With enough turns the wanted speed is reached: their number times the smaller limit is at least the
-- distance, and the speeds and their difference fit 16 bits.
pub limited_turns-arrive :
    (a d n : ℕ) (prev value : ℤ)
    → InRange prev value
    → distance prev value ≤ n * suc (min a d)
    → limited_turns (limit_of a d) n prev value ≡ value
limited_turns-arrive a d zero prev value r h = distance-zero prev value (omega arith)
limited_turns-arrive a d (suc n) prev value r h =
    let l = apply_motion_limit-Limited a d prev value r in
    let out = apply_motion_limit (limit_of a d) prev value in
    limited_turns-arrive a d n out value (Between-InRange prev value out r l.between)
      (next_distance (min a d) n prev value out l.closer h)
