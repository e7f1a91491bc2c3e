-- ===== src/Mcal/Tables/Bound.antt =====
-- Which entries of a table are active after its `Init...` function: never one whose device was not
-- found.
use robofw.Common.{
  suc, ◌≡◌, refl, ap, sym, ◌∙◌, length-map, Bool, true, false, ◌&&◌, Option, none, some, List, [],
  ◌∷◌, map, Bool-cases, inl, inr, length, arith,
}
use robofw.Mcal.{HwCall}
use robofw.Mcal.Tables.{Table, init_entries, init_table}

-- When a node's device can be used, and what makes a table's macro right about it.
pub record TableLaws {N D : Type 0} (t : Table N D) (works : N → Bool) : Type 0 where
  pub off_inactive : (d : D) → t.active_of (t.off d) ≡ false
  pub one_works : (n : N) (d : D) → (t.one n d).0 ≡ works n
  pub one_active : (n : N) (d : D) → t.active_of d ≡ false → t.active_of (t.one n d).1 ≡ works n

module _ {N D : Type 0} (t : Table N D) (works : N → Bool) where
  open t use {active_of, off, one}

  abbrev pub all_work : List (Option N) → Bool
  all_work [] = true
  all_work (none ∷ ns) = all_work ns
  all_work (some n ∷ ns) = works n && all_work ns

  -- An active entry belongs to a node whose device works.
  abbrev pub AllBound : List (Option N) → List D → Type 0
  AllBound ns [] = Unit
  AllBound [] (d ∷ ds) = Unit
  AllBound (none ∷ ns) (d ∷ ds) = (active_of d ≡ false) × AllBound ns ds
  AllBound (some n ∷ ns) (d ∷ ds) = (active_of d ≡ true → works n ≡ true) × AllBound ns ds

  -- Every node has an active entry.
  abbrev pub AllActive : List (Option N) → List D → Type 0
  AllActive [] ds = Unit
  AllActive (n ∷ ns) [] = Unit
  AllActive (none ∷ ns) (d ∷ ds) = AllActive ns ds
  AllActive (some n ∷ ns) (d ∷ ds) = (active_of d ≡ true) × AllActive ns ds

  pub record Filled (ns : List (Option N)) (ds : List D) (out : Bool × List D × List HwCall)
      : Type 0 where
    pub result : out.0 ≡ all_work ns
    pub bound : AllBound ns out.1
    pub active : all_work ns ≡ true → AllActive ns out.1
    pub size : length out.1 ≡ length ds

  AllInactive : List D → Type 0
  AllInactive [] = Unit
  AllInactive (d ∷ ds) = (active_of d ≡ false) × AllInactive ds

  inactive_bound : (ns : List (Option N)) (ds : List D) → AllInactive ds → AllBound ns ds
  unfolding AllInactive
  inactive_bound ns [] h = tt
  inactive_bound [] (d ∷ ds) h = tt
  inactive_bound (none ∷ ns) (d ∷ ds) h = (h.0, inactive_bound ns ds h.1)
  inactive_bound (some n ∷ ns) (d ∷ ds) h = (λ a. ground (arith, a, h.0), inactive_bound ns ds h.1)

  module _ (laws : TableLaws t works) where
    open laws use {off_inactive, one_works, one_active}

    off-AllInactive : (ds : List D) → AllInactive (map off ds)
    unfolding AllInactive
    off-AllInactive [] = tt
    off-AllInactive (d ∷ ds) = (off_inactive d, off-AllInactive ds)

    init_entries-Filled :
        (ns : List (Option N)) (ds : List D)
        → length ns ≡ length ds
        → AllInactive ds
        → Filled ns ds (init_entries t ns ds)
    unfolding init_entries AllInactive
    init_entries-Filled [] [] e h = record {
      result = refl;
      bound = tt;
      active = λ a. tt;
      size = refl;
    }
    init_entries-Filled [] (d ∷ ds) e h = absurd (omega arith)
    init_entries-Filled (n ∷ ns) [] e h = absurd (omega arith)
    init_entries-Filled (none ∷ ns) (d ∷ ds) e h =
        let r = init_entries-Filled ns ds (omega arith) h.1 in
        record {
          result = r.result;
          bound = (h.0, r.bound);
          active = r.active;
          size = ap suc r.size;
        }
    init_entries-Filled (some n ∷ ns) (d ∷ ds) e h =
        let all : (b : Bool) → works n ≡ b → all_work (some n ∷ ns) ≡ (b && all_work ns) =
          λ b w. ap (λ b'. b' && all_work ns) w in
        elim (Bool-cases (works n)) [
          | inl w ↦
              (let r = init_entries-Filled ns ds (omega arith) h.1 in
                rw (init_entries, one_works n d, w)
                  (record {
                    result = r.result ∙ sym (all _ w);
                    bound = (λ a. w, r.bound);
                    active = λ a. (one_active n d h.0 ∙ w, r.active (sym (all _ w) ∙ a));
                    size = ap suc r.size;
                  }))
          | inr w ↦
              rw (init_entries, one_works n d, w)
                (record {
                  result = sym (all _ w);
                  bound = (λ a. sym (one_active n d h.0) ∙ a, inactive_bound ns ds h.1);
                  active = λ a. ground (arith, a, all _ w);
                  size = refl;
                })
        ]

    -- Entries are active only where the device tree has a node whose device works; the function
    -- succeeds exactly when all of them do, and then every node has its active entry.
    pub init_table-Filled :
        (ns : List (Option N)) (ds : List D)
        → length ns ≡ length ds
        → Filled ns ds (init_table t ns ds)
    unfolding init_table
    init_table-Filled ns ds e =
        let r =
          init_entries-Filled ns (map off ds) (omega (arith, length-map off ds, e))
            (off-AllInactive ds) in
        record {
          result = r.result;
          bound = r.bound;
          active = r.active;
          size = r.size ∙ length-map off ds;
        }
