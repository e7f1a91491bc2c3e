-- ===== src/Common/Msgq/Drain.antt =====
-- The loop that empties a queue, `while (k_msgq_get(q, &x, K_NO_WAIT) == 0) { ... }`.
use robofw.Common.Lists.{length}
use robofw.Common.Msgq.{Msgq, MsgqLaws}
use Prim.Native.Nat.{ℕ, zero, suc, ◌<◌}
use mathlib.Core.Path.{◌≡◌, refl, ap, ◌∙◌}
use mathlib.Core.Option.{Option, none, some}
use mathlib.Core.List.{List, [], ◌∷◌}
use native.Mathlib.Omega.{arith}

-- What a loop over a list does to its variables.
abbrev pub run_over {ℓ} : {A : Type 0} {S : Type ℓ} → (A → S → S) → List A → S → S
run_over step [] s = s
run_over step (x ∷ xs) s = run_over step xs (step x s)

module _ (k : Msgq) where
  open k use {Queue, get, contents, capacity}

  -- The loop on fuel: `none` if it has not ended after that many gets.
  unfoldable pub drain_within {ℓ} :
      {A : Type 0} {S : Type ℓ} → (A → S → S) → ℕ → Queue A → S → Option (Queue A × S)
  drain_within step zero q s = none
  drain_within step (suc fuel) q s =
      let rest = drain_within step fuel (get q).1 in
      elim (get q).0 [ none ↦ some ((get q).1, s) | some a ↦ rest (step a s) ]

  module _ (laws : MsgqLaws k) where
    open laws use {get_empty, get_oldest, get_rest, get_capacity}

    -- With one get more than the queue holds the loop ends: it has taken every item, the oldest
    -- first, and the queue is empty and holds as much as before.
    pub drain_within-contents {ℓ} :
        {A : Type 0} {S : Type ℓ} (step : A → S → S) (fuel : ℕ) (q : Queue A) (xs : List A) (s : S)
        → contents q ≡ xs
        → length xs < fuel
        → (q' : Queue A) × (drain_within step fuel q s ≡ some (q', run_over step xs s))
          × (contents q' ≡ [])
          × (capacity q' ≡ capacity q)
    unfolding drain_within
    drain_within-contents step zero q xs s e h = absurd (omega arith)
    drain_within-contents step (suc fuel) q [] s e h =
        let none_left : (get q).0 ≡ none = ap (λ t. t.0) (get_empty q e) in
        (
          (get q).1,
          rw (drain_within, none_left) refl,
          ap (λ t. contents t.1) (get_empty q e) ∙ e,
          get_capacity q,
        )
    drain_within-contents step (suc fuel) q (x ∷ xs) s e h =
        let (q', ended, empty, kept) =
          drain_within-contents step fuel (get q).1 xs (step x s) (get_rest q x xs e)
            (omega arith) in
        (q', rw (drain_within, get_oldest q x xs e) ended, empty, kept ∙ get_capacity q)
