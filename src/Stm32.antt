-- ===== src/Stm32.antt =====
-- drivers/encoder/encoder_stm32.c and include/drivers/encoder.h: the driver of a timer that counts the
-- pulses of a wheel. The clock control, the pin multiplexer and the timer are the vendor's: what they
-- answer is a parameter, and what they are asked is a list of calls, in order.
pub mod Clock
pub mod Init
use robofw.Common.{
  ℕ, zero, suc, ◌*◌, ◌%◌, ◌^◌, Bool, true, false, not, Option, none, some, List, [], ◌∷◌, ◌++◌, leb,
  ◌==◌, if◌then◌else◌,
}
use robofw.Common.Int.{ℤ, pos, negsuc, ltb_ℤ}

-- `struct stm32_pclken`; the code only asks whether the bus is APB1.
pub record Pclken : Type 0 where
  pub is_apb1 : Bool
  pub enr : ℕ

-- The modes of include/dt-bindings/encoder/encoder.h.
abbrev pub encoder_mode_x2_ti1 : ℕ
encoder_mode_x2_ti1 = 0

abbrev pub encoder_mode_x2_ti2 : ℕ
encoder_mode_x2_ti2 = 1

abbrev pub encoder_mode_x4_ti12 : ℕ
encoder_mode_x4_ti12 = 2

pub record EncoderStm32Config : Type 0 where
  pub encoder_mode : ℕ
  pub prescaler : ℕ
  pub pclken : Pclken

-- `LL_TIM_InitTypeDef`, with the counter mode true for LL_TIM_COUNTERMODE_UP and the clock division 1
-- for LL_TIM_CLOCKDIVISION_DIV1.
pub record TimInit : Type 0 where
  pub prescaler : ℕ
  pub counts_up : Bool
  pub autoreload : ℕ
  pub clock_division : ℕ
  pub repetition_counter : ℕ

-- What the vendor's code answers. `has_timpre` is whether the series defines the TIMPRE bit, and
-- `timpre_twice` whether it reads LL_RCC_TIM_PRESCALER_TWICE.
pub record Soc : Type 0 where
  pub apb1_prescaler : ℕ
  pub apb2_prescaler : ℕ
  pub has_timpre : Bool
  pub timpre_twice : Bool
  pub hclk : ℕ
  pub clock_control_on : Pclken → ℤ
  pub clock_control_get_rate : Pclken → ℤ × ℕ
  pub pinctrl_configure : ℤ
  pub tim_init : TimInit → Bool

-- The modes that the timer knows.
pub data LlMode : Type 0 where
  ll_x2_ti1 ll_x2_ti2 ll_x4_ti12 : LlMode

-- The calls, with the channel where there are two; the other arguments are the same wherever a
-- function is called.
pub data LlCall : Type 0 where
  set_encoder_mode : LlMode → LlCall
  ic_set_active_input ic_set_prescaler ic_set_filter ic_set_polarity : ℕ → LlCall
  initialize_timer : TimInit → LlCall
  disable_arr_preload set_trigger_output disable_master_slave_mode enable_counter : LlCall

abbrev pub eio : ℤ
eio = negsuc 4

abbrev pub enosys : ℤ
enosys = negsuc 87

module _ (soc : Soc) where
  abbrev pub apb_psc : Pclken → ℕ
  apb_psc p = if p.is_apb1 then soc.apb1_prescaler else soc.apb2_prescaler

  abbrev pub timer_clock : ℕ → ℕ → ℕ
  timer_clock bus_clk psc =
      if soc.has_timpre
      then (if soc.timpre_twice
          then (if leb psc 2 then soc.hclk else bus_clk * 2 % 2 ^ 32)
          else (if leb psc 4 then soc.hclk else bus_clk * 4 % 2 ^ 32))
      else (if psc == 1 then bus_clk else bus_clk * 2 % 2 ^ 32)

  -- The result, and what `tim_clk` points to. The series F0 and G0, which have no second prescaler,
  -- are left out.
  unfoldable pub get_tim_clk : Pclken → ℕ → ℤ × ℕ
  get_tim_clk pclken tim_clk =
      let (r, bus_clk) = soc.clock_control_get_rate pclken in
      if ltb_ℤ r (pos 0) then (r, tim_clk) else (pos 0, timer_clock bus_clk (apb_psc pclken))

  abbrev pub ll_mode : ℕ → Option LlMode
  ll_mode mode =
      if mode == encoder_mode_x2_ti1
      then some ll_x2_ti1
      else (if mode == encoder_mode_x2_ti2
          then some ll_x2_ti2
          else (if mode == encoder_mode_x4_ti12 then some ll_x4_ti12 else none))

  abbrev pub configure_channel : ℕ → List LlCall
  configure_channel n =
      ic_set_active_input n ∷ ic_set_prescaler n ∷ ic_set_filter n ∷ ic_set_polarity n ∷ []

  abbrev pub timer_init : EncoderStm32Config → TimInit
  timer_init cfg = record {
    prescaler = cfg.prescaler;
    counts_up = true;
    autoreload = 65535;
    clock_division = 1;
    repetition_counter = 0;
  }

  -- After the encoder mode.
  unfoldable pub start_timer : EncoderStm32Config → List LlCall → ℤ × List LlCall
  start_timer cfg calls =
      let init = timer_init cfg in
      let asked =
        calls ++ configure_channel 1 ++ configure_channel 2 ++ initialize_timer init ∷ [] in
      if not (soc.tim_init init) then (eio, asked) else (
        pos 0,
        asked
            ++ disable_arr_preload ∷ set_trigger_output ∷ disable_master_slave_mode ∷ enable_counter
              ∷ [],
      )

  -- The result, the stored clock, and the calls to the timer.
  unfoldable pub encoder_stm32_init : EncoderStm32Config → ℕ → ℤ × ℕ × List LlCall
  unfolding get_tim_clk start_timer
  encoder_stm32_init cfg tim_clk =
      let r = soc.clock_control_on cfg.pclken in
      if ltb_ℤ r (pos 0)
      then (r, tim_clk, [])
      else (let (r2, clk) = get_tim_clk cfg.pclken tim_clk in
          if ltb_ℤ r2 (pos 0)
          then (r2, clk, [])
          else (if ltb_ℤ soc.pinctrl_configure (pos 0)
              then (soc.pinctrl_configure, clk, [])
              else elim (ll_mode cfg.encoder_mode) [
                | none ↦ (eio, clk, [])
                | some mode ↦
                    (let (r4, calls) = start_timer cfg (set_encoder_mode mode ∷ []) in
                      (r4, clk, calls))
              ]))

-- `struct encoder_driver_api`: a null pointer, or a function that returns a code and what it writes.
pub record EncoderDriverApi : Type 0 where
  pub get_counts : Option (ℤ × ℕ)
  pub is_counting_up : Option (ℤ × Bool)

unfoldable pub encoder_get_counts : EncoderDriverApi → ℕ → ℤ × ℕ
encoder_get_counts api counts = elim api.get_counts [ none ↦ (enosys, counts) | some out ↦ out ]

unfoldable pub encoder_is_counting_up : EncoderDriverApi → Bool → ℤ × Bool
encoder_is_counting_up api counting_up = elim api.is_counting_up [
  | none ↦ (enosys, counting_up)
  | some out ↦ out
]

-- `encoder_stm32_driver_api`, from the timer's counter and its mode.
unfoldable pub encoder_stm32_get_counts : ℕ → ℤ × ℕ
encoder_stm32_get_counts counter = (pos 0, counter)

unfoldable pub encoder_stm32_is_counting_up : Bool → ℤ × Bool
encoder_stm32_is_counting_up mode_is_up = (pos 0, mode_is_up)

unfoldable pub encoder_stm32_driver_api : ℕ → Bool → EncoderDriverApi
unfolding encoder_stm32_get_counts encoder_stm32_is_counting_up
encoder_stm32_driver_api counter mode_is_up = record {
  get_counts = some (encoder_stm32_get_counts counter);
  is_counting_up = some (encoder_stm32_is_counting_up mode_is_up);
}
