-- ===== src/Tbot/System/Append.antt =====
-- Runs of the robot, one after the other.
use robofw.Common.{◌≡◌, refl, sym, ap, ◌∙◌, Option, none, some, List, [], ◌∷◌, ◌++◌, arith}
use mathlib.Core.Option.{some-injective, some-ne-none}
use mathlib.Core.List.{append_assoc}
use robofw.Common.Floats.{Floats}
use robofw.Common.Msgq.{Msgq, MsgqLaws}
use robofw.Can.{CanDriver}
use robofw.Tbot.System.{Queues, Threads, Devices, Turn, turn, run}
use robofw.Tbot.System.Sound.{Result}

module _ (f : Floats) (k : Msgq) (laws : MsgqLaws k) (d : CanDriver) (dev : Devices) where
  open f use {F32}
  open k use {Queue}
  open d use {State}

  abbrev World : Type 0
  World = Queues Queue F32 × Threads F32 State

  -- The first turn of a run that ended, and the rest.
  record Split (t : Turn) (ts : List Turn) (w : World) (out : Result f k laws d dev) : Type 0 where
    first : Result f k laws d dev
    rest : Result f k laws d dev
    turned : turn f k d dev t w ≡ some first
    went_on : run f k d dev ts first.0 ≡ some rest
    together : out ≡ (rest.0, first.1 ++ rest.1)

  run-Split :
      (t : Turn) (ts : List Turn) (w : World) {out : Result f k laws d dev}
      → run f k d dev (t ∷ ts) w ≡ some out
      → Split t ts w out
  unfolding run
  run-Split t ts w {out} e = through (turn f k d dev t w) refl e
    where
      inner :
          (first : Result f k laws d dev)
          → turn f k d dev t w ≡ some first
          → (o : Option (Result f k laws d dev)) → run f k d dev ts first.0 ≡ o
          → elim o [ none ↦ none | some (w3, more) ↦ some (w3, first.1 ++ more) ] ≡ some out
          → Split t ts w out
      inner first p none r q = absurd (some-ne-none _ (sym q))
      inner first p (some rest) r q = record {
        first = first;
        rest = rest;
        turned = p;
        went_on = r;
        together = sym (some-injective _ _ q);
      }

      through :
          (o : Option (Result f k laws d dev))
          → turn f k d dev t w ≡ o
          → elim o [
            | none ↦ none
            | some (w2, calls) ↦ elim (run f k d dev ts w2) [
              | none ↦ none
              | some (w3, more) ↦ some (w3, calls ++ more)
            ]
          ]
            ≡ some out
          → Split t ts w out
      through none p q = absurd (some-ne-none _ (sym q))
      through (some first) p q = inner first p (run f k d dev ts first.0) refl q

  -- If a run ends, and a second one does from where it ended, so do the turns of both.
  pub run-append :
      (ts us : List Turn) (w : World) {out out2 : Result f k laws d dev}
      → run f k d dev ts w ≡ some out
      → run f k d dev us out.0 ≡ some out2
      → run f k d dev (ts ++ us) w ≡ some (out2.0, out.1 ++ out2.1)
  unfolding run
  run-append [] us w e h = ground (arith, e, h)
  run-append (t ∷ ts) us w {out} {out2} e h =
      let s = run-Split t ts w e in
      rw
        (
          run,
          s.turned,
          run-append ts us s.first.0 s.went_on
              (sym (ap (λ x. run f k d dev us x.0) s.together) ∙ h),
        )
        (ap (λ x. some (out2.0, x))
          (sym (append_assoc s.first.1 s.rest.1 out2.1) ∙ sym (ap (λ x. x.1 ++ out2.1) s.together)))
