-- ===== src/Common/Msgq/Bounded.antt =====
-- A list with a bound: message queues that run, and that meet the documented behaviour.
use robofw.Common.Tests.{ltb, if◌then◌else◌}
use robofw.Common.Lists.{length}
use robofw.Common.Msgq.{Msgq, MsgqLaws}
use Prim.Native.Nat.{ℕ, ◌≤◌, ◌<◌}
use mathlib.Core.Path.{◌≡◌, refl}
use mathlib.Core.Bool.{Bool, true, false}
use mathlib.Core.Option.{Option, none, some}
use mathlib.Core.List.{List, [], ◌∷◌, ◌++◌}
use native.Mathlib.Omega.{arith}

pub record Bounded (A : Type 0) : Type 0 where
  pub items : List A
  pub bound : ℕ

abbrev pub put_list : {A : Type 0} → Bounded A → A → Bool × Bounded A
put_list q a =
    if ltb (length q.items) q.bound
    then (true, record { items = q.items ++ (a ∷ []); bound = q.bound })
    else (false, q)

abbrev get_list : {A : Type 0} → ℕ → List A → Option A × Bounded A
get_list n [] = (none, record { items = []; bound = n })
get_list n (x ∷ xs) = (some x, record { items = xs; bound = n })

abbrev pub get_bounded : {A : Type 0} → Bounded A → Option A × Bounded A
get_bounded q = get_list q.bound q.items

abbrev pub bounded : Msgq
bounded = record {
  Queue = Bounded;
  put = put_list;
  get = get_bounded;
  purge = λ q. record { items = []; bound = q.bound };
  contents = λ q. q.items;
  capacity = λ q. q.bound;
}

put_full_list :
    {A : Type 0} (q : Bounded A) (a : A) → q.bound ≤ length q.items → put_list q a ≡ (false, q)
put_full_list q a h = ground arith

put_true_list :
    {A : Type 0} (q : Bounded A) (a : A) → length q.items < q.bound → (put_list q a).0 ≡ true
put_true_list q a h = ground arith

put_appends_list :
    {A : Type 0} (q : Bounded A) (a : A)
    → length q.items < q.bound
    → (put_list q a).1.items ≡ q.items ++ (a ∷ [])
put_appends_list q a h = ground arith

put_bound_list : {A : Type 0} (q : Bounded A) (a : A) → (put_list q a).1.bound ≡ q.bound
put_bound_list q a = ground arith

get_empty_list : {A : Type 0} (q : Bounded A) → q.items ≡ [] → get_bounded q ≡ (none, q)
get_empty_list q e = ground arith

get_oldest_list :
    {A : Type 0} (q : Bounded A) (a : A) (rest : List A)
    → q.items ≡ a ∷ rest
    → (get_bounded q).0 ≡ some a
get_oldest_list q a rest e = ground arith

get_rest_list :
    {A : Type 0} (q : Bounded A) (a : A) (rest : List A)
    → q.items ≡ a ∷ rest
    → (get_bounded q).1.items ≡ rest
get_rest_list q a rest e = ground arith

get_bound_list : {A : Type 0} (q : Bounded A) → (get_bounded q).1.bound ≡ q.bound
get_bound_list q = ground arith

pub bounded-MsgqLaws : MsgqLaws bounded
bounded-MsgqLaws = record {
  put_full = put_full_list;
  put_true = put_true_list;
  put_appends = put_appends_list;
  put_capacity = put_bound_list;
  get_empty = get_empty_list;
  get_oldest = get_oldest_list;
  get_rest = get_rest_list;
  get_capacity = get_bound_list;
  purge_contents = λ q. refl;
  purge_capacity = λ q. refl;
}
