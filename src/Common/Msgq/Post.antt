-- ===== src/Common/Msgq/Post.antt =====
-- The overwriting put of every service ends after at most two puts, and delivers its item.
use robofw.Common.Tests.{ltb, if◌then◌else◌}
use robofw.Common.Lists.{length, length-append}
use robofw.Common.Msgq.{Msgq, MsgqLaws, post_within, post}
use Prim.Native.Nat.{ℕ, ◌≤◌, ◌<◌}
use mathlib.Core.Path.{◌≡◌, refl, sym, ap, ◌∙◌, subst}
use mathlib.Core.Option.{some}
use mathlib.Core.List.{List, [], ◌∷◌, ◌++◌}
use native.Mathlib.Decide.{dec_lt}
use native.Mathlib.Omega.{arith}

-- What a queue of `cap` items holds after `a` was posted: a full queue is emptied first.
abbrev pub delivered : {A : Type 0} → ℕ → List A → A → List A
delivered cap xs a = if ltb (length xs) cap then xs ++ (a ∷ []) else a ∷ []

-- A queue of one item holds the newest.
pub delivered_one :
    {A : Type 0} {cap : ℕ} (xs : List A) (a : A) → cap ≡ 1 → delivered cap xs a ≡ a ∷ []
delivered_one [] a e = ground arith
delivered_one (x ∷ xs) a e = ground arith

-- An empty queue that may hold something holds the one item that is posted.
pub delivered_empty :
    {A : Type 0} {cap : ℕ} (xs : List A) (a : A) → xs ≡ [] → 0 < cap → delivered cap xs a ≡ a ∷ []
delivered_empty xs a e room = ground arith

module _ (k : Msgq) (laws : MsgqLaws k) where
  open k use {Queue, put, get, purge, contents, capacity}
  open laws use {
    put_full, put_true, put_appends, put_capacity, get_empty, get_rest, get_capacity,
    purge_contents, purge_capacity,
  }

  -- A queue that holds no more than it may, and may hold something.
  pub record IsUsable {A : Type 0} (q : Queue A) : Type 0 where
    pub room : 0 < capacity q
    pub within : length (contents q) ≤ capacity q

  -- The queue after a post.
  pub record Delivered {A : Type 0} (q : Queue A) (a : A) (q' : Queue A) : Type 0 where
    pub posted : post k q a ≡ some q'
    pub holds : contents q' ≡ delivered (capacity q) (contents q) a
    pub usable : IsUsable q'
    pub same_capacity : capacity q' ≡ capacity q

  purged_room :
      {A : Type 0} (q : Queue A) → IsUsable q → length (contents (purge q)) < capacity (purge q)
  purged_room q u = omega (arith, ap length (purge_contents q), purge_capacity q, u.room)

  -- A post to a usable queue, one that can hold something and holds no more than it can, ends, and
  -- the queue then holds the item behind what it held, or alone if it was full.
  pub post_delivers :
      {A : Type 0} (q : Queue A) (a : A) → IsUsable q → (q' : Queue A) × Delivered q a q'
  unfolding post post_within
  post_delivers q a u = elim (dec_lt (length (contents q)) (capacity q)) [
    | yes h ↦ (
      (put q a).1,
      record {
        posted = ground (arith, put_true q a h);
        holds = ground (arith, put_appends q a h);
        usable = record {
          room = omega (arith, put_capacity q a, u.room);
          within =
              rw (put_appends q a h, length-append {0} (contents q) (a ∷ []))
                (omega (arith, put_capacity q a));
        };
        same_capacity = put_capacity q a;
      },
    )
    | no h ↦ (
      (put (purge q) a).1,
      record {
        posted = ground (arith, put_full q a, put_true (purge q) a, purged);
        holds = put_appends (purge q) a (purged_room q u) ∙ rw (purge_contents q) (ground arith);
        usable = record {
          room = omega (arith, put_capacity (purge q) a, purge_capacity q, u.room);
          within =
              rw (put_appends (purge q) a (purged_room q u), purge_contents q)
                (omega (arith, put_capacity (purge q) a, purge_capacity q, u.room));
        };
        same_capacity = put_capacity (purge q) a ∙ purge_capacity q;
      },
    )
  ]
    where
      purged : (length (contents (purge q)) ≡ 0) × (capacity (purge q) ≡ capacity q)
      purged = (ap length (purge_contents q), purge_capacity q)

  -- A post that ends leaves the size of the queue.
  pub post_capacity :
      {A : Type 0} (q : Queue A) (a : A) {q' : Queue A}
      → post k q a ≡ some q'
      → capacity q' ≡ capacity q
  unfolding post post_within
  post_capacity q a e =
      ground
        (arith, e, put_capacity q a, purge_capacity (put q a).1, put_capacity (purge (put q a).1) a)

  -- A queue that a stage left alone.
  pub same-IsUsable : {A : Type 0} {q q' : Queue A} → q' ≡ q → IsUsable q → IsUsable q'
  same-IsUsable e u = subst (λ t. IsUsable t) (sym e) u

  pub same-delivered :
      {A : Type 0} {q q' : Queue A} (a : A) {xs : List A}
      → q' ≡ q
      → xs ≡ delivered (capacity q') (contents q') a
      → xs ≡ delivered (capacity q) (contents q) a
  same-delivered a {xs = xs} e h = subst (λ t. xs ≡ delivered (capacity t) (contents t) a) e h

  -- A queue that was read can be used again.
  pub get-IsUsable : {A : Type 0} (q : Queue A) → IsUsable q → IsUsable (get q).1
  get-IsUsable q u = of_contents (contents q) refl
    where
      of_contents : (xs : List _) → contents q ≡ xs → IsUsable (get q).1
      of_contents [] e = record {
        room = omega (arith, get_capacity q, u.room);
        within =
            omega
              (arith, ap (λ t. length (contents t.1)) (get_empty q e), get_capacity q, u.within);
      }
      of_contents (x ∷ xs) e = record {
        room = omega (arith, get_capacity q, u.room);
        within =
            omega (arith, ap length (get_rest q x xs e), get_capacity q, u.within, ap length e);
      }

  pub IsUsable-of : {A : Type 0} {q q' : Queue A} → q ≡ q' → IsUsable q → IsUsable q'
  IsUsable-of e u = subst (λ t. IsUsable t) e u

  -- An emptied queue can be used if it can hold as much as before.
  pub emptied-IsUsable :
      {A : Type 0} {q q' : Queue A}
      → IsUsable q
      → contents q' ≡ []
      → capacity q' ≡ capacity q
      → IsUsable q'
  emptied-IsUsable u e c = record {
    room = omega (arith, c, u.room);
    within = omega (arith, ap length e);
  }

  -- A queue as K_MSGQ_DEFINE makes it, for `n` items.
  abbrev pub Defined : {A : Type 0} → ℕ → Queue A → Type 0
  Defined n q = (contents q ≡ []) × (capacity q ≡ n)

  pub Defined-IsUsable : {A : Type 0} (n : ℕ) {q : Queue A} → 0 < n → Defined n q → IsUsable q
  Defined-IsUsable n room (empty, size) = record {
    room = omega (arith, size);
    within = omega (arith, size, ap length empty);
  }
