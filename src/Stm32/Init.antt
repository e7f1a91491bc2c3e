-- ===== src/Stm32/Init.antt =====
-- When the driver's initialisation succeeds, and what it has asked of the timer by then.
use robofw.Common.{
  ℕ, ◌≡◌, Bool, true, false, ◌&&◌, not, Option, none, some, List, [], ◌∷◌, ◌++◌, arith,
}
use robofw.Common.Int.{ℤ, pos, ltb_ℤ}
use robofw.Can.{is_zero}
use robofw.Stm32.{
  Soc, EncoderStm32Config, LlCall, LlMode, set_encoder_mode, initialize_timer, disable_arr_preload,
  set_trigger_output, disable_master_slave_mode, enable_counter, ll_mode, configure_channel,
  timer_init, get_tim_clk, start_timer, encoder_stm32_init,
}

abbrev is_mode : Option LlMode → Bool
is_mode none = false
is_mode (some mode) = true

-- Whether the counter was started.
abbrev pub starts_counter : List LlCall → Bool
starts_counter [] = false
starts_counter (enable_counter ∷ calls) = true
starts_counter (_ ∷ calls) = starts_counter calls

module _ (soc : Soc) (cfg : EncoderStm32Config) where
  -- All that has to succeed.
  abbrev pub answers : Bool
  answers =
      not (ltb_ℤ (soc.clock_control_on cfg.pclken) (pos 0))
      && not (ltb_ℤ (soc.clock_control_get_rate cfg.pclken).0 (pos 0))
      && not (ltb_ℤ soc.pinctrl_configure (pos 0))
      && is_mode (ll_mode soc cfg.encoder_mode)
      && soc.tim_init (timer_init soc cfg)

  -- The calls of a successful initialisation.
  abbrev pub all_calls : LlMode → List LlCall
  all_calls mode =
      set_encoder_mode mode ∷ configure_channel soc 1
      ++ configure_channel soc 2
      ++ initialize_timer (timer_init soc cfg)
        ∷ disable_arr_preload
        ∷ set_trigger_output
        ∷ disable_master_slave_mode
        ∷ enable_counter
        ∷ []

  pub record Initialised (tim_clk : ℕ) (out : ℤ × ℕ × List LlCall) : Type 0 where
    pub succeeds : is_zero out.0 ≡ answers
    pub started : starts_counter out.2 ≡ answers
    pub complete :
        (mode : LlMode)
        → answers ≡ true
        → ll_mode soc cfg.encoder_mode ≡ some mode
        → (out.2 ≡ all_calls mode) × (out.1 ≡ (get_tim_clk soc cfg.pclken tim_clk).1)

  -- The initialisation returns 0 exactly when the clock, its rate, the pins and the timer answer
  -- without an error and the mode is one of the three; the counter is started then, and only then,
  -- after the mode, both channels and the timer were set up, and the clock is stored.
  pub encoder_stm32_init-Initialised :
      (tim_clk : ℕ) → Initialised tim_clk (encoder_stm32_init soc cfg tim_clk)
  unfolding encoder_stm32_init get_tim_clk start_timer
  encoder_stm32_init-Initialised tim_clk = ground arith
