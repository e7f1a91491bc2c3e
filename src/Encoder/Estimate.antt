-- ===== src/Encoder/Estimate.antt =====
-- The speed that is reported stays within the motors' possible speed.
use robofw.Common.{
  replicate, ℕ, zero, suc, ◌*◌, ◌<◌, ◌≤◌, ◌≡◌, ◌∙◌, List, [], ◌∷◌, leb, set, length, length-set,
  arith, Bool-cases, inl, inr,
}
use robofw.Common.Int.{ℤ, pos, negsuc, ◌/ℤ◌, ◌≤ℤ◌, pos_part, neg_part}
use robofw.Common.Floats.{Floats}
use robofw.Encoder.{Estimator, sum_ℤ, without_outlier, estimate}

-- Between -600 and 600.
abbrev pub IsPossible : ℤ → Type 0
IsPossible z = (negsuc 599 ≤ℤ z) × (z ≤ℤ pos 600)

pub data AllPossible : List ℤ → Type 0 where
  nothing : AllPossible []
  possible : {z : ℤ} {zs : List ℤ} → IsPossible z → AllPossible zs → AllPossible (z ∷ zs)

pub zeros-AllPossible : (n : ℕ) → AllPossible (replicate n (pos 0))
zeros-AllPossible zero = nothing
zeros-AllPossible (suc n) = possible (omega arith) (zeros-AllPossible n)

-- What the variables of an estimator satisfy between two estimates.
pub record IsEstimator (e : Estimator) : Type 0 where
  pub last : IsPossible e.last_filtered_rpm
  pub history : AllPossible e.estimated_rpm_history
  pub long : length e.estimated_rpm_history ≡ 10
  pub index : e.indexer < 10

set-AllPossible :
    (zs : List ℤ) (i : ℕ) (z : ℤ) → AllPossible zs → IsPossible z → AllPossible (set zs i z)
set-AllPossible [] i z h k = nothing
set-AllPossible (x ∷ zs) zero z (possible p ps) k = possible k ps
set-AllPossible (x ∷ zs) (suc i) z (possible p ps) k = possible p (set-AllPossible zs i z ps k)

-- A sum of possible speeds is at most 600 for each of them, on either side.
sum_bound :
    (zs : List ℤ)
    → AllPossible zs
    → (pos_part (sum_ℤ zs) ≤ 600 * length zs) × (neg_part (sum_ℤ zs) ≤ 600 * length zs)
sum_bound [] nothing = (omega arith, omega arith)
sum_bound (z ∷ zs) (possible p ps) = let b = sum_bound zs ps in ground arith

average-IsPossible : (z : ℤ) → pos_part z ≤ 6000 → neg_part z ≤ 6000 → IsPossible (z /ℤ pos 10)
average-IsPossible (pos n) h k = ground arith
average-IsPossible (negsuc n) h k = ground arith

module _ (f : Floats) where
  without_outlier-IsPossible :
      (e : Estimator) → IsPossible e.last_filtered_rpm → IsPossible (without_outlier f e)
  unfolding without_outlier
  without_outlier-IsPossible e h = ground arith

  -- Every estimate keeps variables that are in order so, and the speed that goes out is within 600 rounds per
  -- minute either way, whatever was measured.
  pub estimate-IsPossible :
      (estimator_counter : ℕ) (raw : ℤ) (e : Estimator)
      → IsEstimator e
      → IsEstimator (estimate f estimator_counter raw e).0
        × IsPossible (estimate f estimator_counter raw e).1
  unfolding estimate
  estimate-IsPossible n raw e h =
      let kept = without_outlier-IsPossible e h.last in
      let hist = set e.estimated_rpm_history e.indexer (without_outlier f e) in
      let hist_possible =
        set-AllPossible e.estimated_rpm_history e.indexer (without_outlier f e) h.history kept in
      let hist_long : length hist ≡ 10 =
        length-set e.estimated_rpm_history e.indexer (without_outlier f e) ∙ h.long in
      let b = sum_bound hist hist_possible in
      (
        record { last = kept; history = hist_possible; long = hist_long; index = omega arith },
        elim (Bool-cases (leb 10 n)) [
          | inl t ↦ rw t (
              average-IsPossible (sum_ℤ hist) (omega (arith, b.0, hist_long))
                (omega (arith, b.1, hist_long)))
          | inr t ↦ rw t kept
        ],
      )
