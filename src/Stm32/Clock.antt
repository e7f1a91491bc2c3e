-- ===== src/Stm32/Clock.antt =====
-- The clock of the timer, as the comments of `get_tim_clk` in drivers/encoder/encoder_stm32.c mean it.
use robofw.Common.{ℕ, ◌*◌, ◌^◌, ◌<◌, ◌≡◌, ◌⊎◌, ap, false, ◌&&◌, not, min, if◌then◌else◌, arith}
use robofw.Common.Int.{pos, ltb_ℤ}
use robofw.Stm32.{Soc, Pclken, apb_psc, timer_clock, get_tim_clk}

-- The prescalers that the bus of a timer can have.
abbrev pub IsPrescaler : ℕ → Type 0
IsPrescaler n = (n ≡ 1) ⊎ (n ≡ 2) ⊎ (n ≡ 4) ⊎ (n ≡ 8) ⊎ (n ≡ 16)

module _ (soc : Soc) where
  -- By how much the timer may run faster than its bus.
  abbrev pub factor : ℕ
  factor = if soc.has_timpre && not soc.timpre_twice then 4 else 2

  timer_clock_lem :
      (bus psc : ℕ)
      → IsPrescaler psc
      → soc.hclk ≡ bus * psc
      → soc.hclk < 2 ^ 32
      → timer_clock soc bus psc ≡ min soc.hclk (factor * bus)
  timer_clock_lem bus psc p h small = ground (arith, p, h, small)

  -- Where the rate of the bus is known, the timer runs at the smaller of the processor's clock and two
  -- or, with TIMPRE = 1, four times that of the bus, on every series and for every prescaler of the
  -- bus, if the bus runs at the processor's clock over its prescaler and that clock fits 32 bits.
  pub get_tim_clk-min :
      (p : Pclken) (tim_clk : ℕ)
      → ltb_ℤ (soc.clock_control_get_rate p).0 (pos 0) ≡ false
      → IsPrescaler (apb_psc soc p)
      → soc.hclk ≡ (soc.clock_control_get_rate p).1 * apb_psc soc p
      → soc.hclk < 2 ^ 32
      → get_tim_clk soc p tim_clk
        ≡ (pos 0, min soc.hclk (factor * (soc.clock_control_get_rate p).1))
  unfolding get_tim_clk
  get_tim_clk-min p tim_clk known psc h small =
      rw (get_tim_clk, known)
        (ap (λ c. (pos 0, c))
          (timer_clock_lem (soc.clock_control_get_rate p).1 (apb_psc soc p) psc h small))
