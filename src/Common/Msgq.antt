-- ===== src/Common/Msgq.antt =====
-- Zephyr's message queues (`k_msgq_put`, `k_msgq_get`, `k_msgq_purge`), which are not code of the
-- repository, as a parameter with their documented behaviour; and the loop by which every service
-- replaces what a full queue holds: `while (k_msgq_put(q, &x, K_NO_WAIT) != 0) k_msgq_purge(q);`.
pub mod Post
pub mod Drain
pub mod Bounded
use Prim.Native.Nat.{ℕ, zero, suc, ◌≤◌, ◌<◌}
use mathlib.Core.Path.{◌≡◌}
use mathlib.Core.Bool.{Bool, true, false}
use mathlib.Core.Option.{Option, none, some}
use mathlib.Core.List.{List, [], ◌∷◌, ◌++◌}
use robofw.Common.Tests.{if◌then◌else◌}
use robofw.Common.Lists.{length}

-- `put` is true where the call returns 0; `get` gives the item where the call returns 0.
pub record Msgq : Type 1 where
  pub Queue : Type 0 → Type 0
  pub put : {A : Type 0} → Queue A → A → Bool × Queue A
  pub get : {A : Type 0} → Queue A → Option A × Queue A
  pub purge : {A : Type 0} → Queue A → Queue A
  pub contents : {A : Type 0} → Queue A → List A
  pub capacity : {A : Type 0} → Queue A → ℕ

module _ (k : Msgq) where
  open k use {Queue, put, get, purge, contents, capacity}

  -- The documented behaviour: a put fails exactly when the queue is full, and appends; a get takes
  -- the oldest item; a purge empties the queue.
  pub record MsgqLaws : Type 1 where
    pub put_full :
        {A : Type 0} (q : Queue A) (a : A) → capacity q ≤ length (contents q) → put q a ≡ (false, q)
    pub put_true :
        {A : Type 0} (q : Queue A) (a : A) → length (contents q) < capacity q → (put q a).0 ≡ true
    pub put_appends :
        {A : Type 0} (q : Queue A) (a : A)
        → length (contents q) < capacity q
        → contents (put q a).1 ≡ contents q ++ (a ∷ [])
    pub put_capacity : {A : Type 0} (q : Queue A) (a : A) → capacity (put q a).1 ≡ capacity q
    pub get_empty : {A : Type 0} (q : Queue A) → contents q ≡ [] → get q ≡ (none, q)
    pub get_oldest :
        {A : Type 0} (q : Queue A) (a : A) (rest : List A)
        → contents q ≡ a ∷ rest
        → (get q).0 ≡ some a
    pub get_rest :
        {A : Type 0} (q : Queue A) (a : A) (rest : List A)
        → contents q ≡ a ∷ rest
        → contents (get q).1 ≡ rest
    pub get_capacity : {A : Type 0} (q : Queue A) → capacity (get q).1 ≡ capacity q
    pub purge_contents : {A : Type 0} (q : Queue A) → contents (purge q) ≡ []
    pub purge_capacity : {A : Type 0} (q : Queue A) → capacity (purge q) ≡ capacity q

  -- The loop on fuel: `none` if it has not ended after that many puts.
  pub post_within : {A : Type 0} → ℕ → Queue A → A → Option (Queue A)
  post_within zero q a = none
  post_within (suc fuel) q a =
      let again = post_within fuel (purge (put q a).1) a in
      if (put q a).0 then some (put q a).1 else again

  -- Two puts are enough, as `post_delivers` shows.
  pub post : {A : Type 0} → Queue A → A → Option (Queue A)
  post q a = post_within 2 q a
