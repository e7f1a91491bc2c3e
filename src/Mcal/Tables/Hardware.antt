-- ===== src/Mcal/Tables/Hardware.antt =====
-- `InitHardware` of src/module/mcal/src/hwconfig.c on the six tables.
use robofw.Common.{sym, ◌∙◌, ℕ, ◌≡◌, refl, Bool, true, ◌&&◌, Option, List, length, arith}
use robofw.Can.{is_zero}
use robofw.Mcal.{HwCall}
use robofw.Mcal.Uart.{UartKernel}
use robofw.Mcal.Tables.{
  Table, LedNode, initialize_led, initialize_dio, initialize_pwm, initialize_can,
  initialize_encoder, initialize_uart, leds, dios, pwms, cans, encoders, uarts, Nodes, Descriptions,
  init_hardware,
}
use robofw.Mcal.Tables.Bound.{TableLaws, all_work, AllBound, AllActive, init_table-Filled}

-- A light also needs its pin to be configured.
abbrev pub led_works : LedNode → Bool
led_works n = n.found && is_zero n.configured

leds-TableLaws : (inactive : ℕ) → TableLaws (leds inactive) led_works
unfolding initialize_led
leds-TableLaws inactive = record {
  off_inactive = λ d. refl;
  one_works = λ n d. ground arith;
  one_active = λ n d h. ground arith;
}

dios-TableLaws : TableLaws dios (λ n. n.found)
unfolding initialize_dio
dios-TableLaws = record {
  off_inactive = λ d. refl;
  one_works = λ n d. ground arith;
  one_active = λ n d h. ground arith;
}

pwms-TableLaws : TableLaws pwms (λ n. n.found)
unfolding initialize_pwm
pwms-TableLaws = record {
  off_inactive = λ d. refl;
  one_works = λ n d. ground arith;
  one_active = λ n d h. ground arith;
}

cans-TableLaws : TableLaws cans (λ n. n.found)
unfolding initialize_can
cans-TableLaws = record {
  off_inactive = λ d. refl;
  one_works = λ n d. ground arith;
  one_active = λ n d h. ground arith;
}

encoders-TableLaws : TableLaws encoders (λ n. n.found)
unfolding initialize_encoder
encoders-TableLaws = record {
  off_inactive = λ d. refl;
  one_works = λ n d. ground arith;
  one_active = λ n d h. ground arith;
}

module _ (u : UartKernel) where
  uarts-TableLaws : TableLaws (uarts u) (λ n. n.found)
  unfolding initialize_uart
  uarts-TableLaws = record {
    off_inactive = λ d. refl;
    one_works = λ n d. ground arith;
    one_active = λ n d h. ground arith;
  }

  -- As many nodes as entries, in every table.
  pub record SameSizes (n : Nodes u) (d : Descriptions u) : Type 0 where
    pub dio : length n.dio ≡ length d.dio
    pub led : length n.led ≡ length d.led
    pub pwm : length n.pwm ≡ length d.pwm
    pub uart : length n.uart ≡ length d.uart
    pub can : length n.can ≡ length d.can
    pub encoder : length n.encoder ≡ length d.encoder

  -- Active entries have a device that works, and if all nodes of the table do, every node has one.
  abbrev pub FilledWith :
      {N D : Type 0} → Table N D → (N → Bool) → List (Option N) → List D → Type 0
  FilledWith t works ns ds =
      AllBound t works ns ds × (all_work t works ns ≡ true → AllActive t works ns ds)

  pub record HardwareFilled (inactive : ℕ) (n : Nodes u) (out : Bool × Descriptions u × List HwCall)
      : Type 0 where
    pub result : out.0 ≡ (
        all_work (leds inactive) led_works n.led
        && all_work dios (λ x. x.found) n.dio
        && all_work pwms (λ x. x.found) n.pwm
        && all_work (uarts u) (λ x. x.found) n.uart
        && all_work cans (λ x. x.found) n.can
        && all_work encoders (λ x. x.found) n.encoder)
    pub dio : FilledWith dios (λ x. x.found) n.dio out.1.dio
    pub led : FilledWith (leds inactive) led_works n.led out.1.led
    pub pwm : FilledWith pwms (λ x. x.found) n.pwm out.1.pwm
    pub uart : FilledWith (uarts u) (λ x. x.found) n.uart out.1.uart
    pub can : FilledWith cans (λ x. x.found) n.can out.1.can
    pub encoder : FilledWith encoders (λ x. x.found) n.encoder out.1.encoder

  -- `InitHardware` succeeds exactly when every node of the device tree has a device that is found
  -- and every light's pin can be configured. Whether it does or not, no entry of a table is active
  -- without such a device; a table whose nodes all have one gets an active entry for each, also if
  -- another table fails. There are as many nodes as entries.
  pub init_hardware-HardwareFilled :
      (inactive : ℕ) (n : Nodes u) (d : Descriptions u)
      → SameSizes n d
      → HardwareFilled inactive n (init_hardware u inactive n d)
  unfolding init_hardware
  init_hardware-HardwareFilled inactive n d s =
      let dio = init_table-Filled dios (λ x. x.found) dios-TableLaws n.dio d.dio s.dio in
      let led =
        init_table-Filled (leds inactive) led_works (leds-TableLaws inactive) n.led d.led s.led in
      let pwm = init_table-Filled pwms (λ x. x.found) pwms-TableLaws n.pwm d.pwm s.pwm in
      let uart = init_table-Filled (uarts u) (λ x. x.found) uarts-TableLaws n.uart d.uart s.uart in
      let can = init_table-Filled cans (λ x. x.found) cans-TableLaws n.can d.can s.can in
      let encoder =
        init_table-Filled encoders (λ x. x.found) encoders-TableLaws n.encoder d.encoder
          s.encoder in
      record {
        result =
            rw (led.result, dio.result, pwm.result, uart.result, can.result, encoder.result) refl;
        dio = (dio.bound, dio.active);
        led = (led.bound, led.active);
        pwm = (pwm.bound, pwm.active);
        uart = (uart.bound, uart.active);
        can = (can.bound, can.active);
        encoder = (encoder.bound, encoder.active);
      }

  -- The tables keep their sizes.
  pub init_hardware-SameSizes :
      (inactive : ℕ) (n : Nodes u) (d : Descriptions u)
      → SameSizes n d
      → SameSizes n (init_hardware u inactive n d).1
  unfolding init_hardware
  init_hardware-SameSizes inactive n d s = record {
    dio = s.dio ∙ sym (init_table-Filled dios (λ x. x.found) dios-TableLaws n.dio d.dio s.dio).size;
    led =
        s.led
        ∙ sym
            (init_table-Filled (leds inactive) led_works (leds-TableLaws inactive) n.led d.led
              s.led).size;
    pwm = s.pwm ∙ sym (init_table-Filled pwms (λ x. x.found) pwms-TableLaws n.pwm d.pwm s.pwm).size;
    uart =
        s.uart
        ∙ sym
            (init_table-Filled (uarts u) (λ x. x.found) uarts-TableLaws n.uart d.uart s.uart).size;
    can = s.can ∙ sym (init_table-Filled cans (λ x. x.found) cans-TableLaws n.can d.can s.can).size;
    encoder =
        s.encoder
        ∙ sym
            (init_table-Filled encoders (λ x. x.found) encoders-TableLaws n.encoder d.encoder
              s.encoder).size;
  }
