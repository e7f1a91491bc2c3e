-- ===== src/Mcal/Tables.antt =====
-- The tables of devices that the `Init...` functions of src/module/mcal/src fill from the device tree,
-- and `InitHardware`. The tree is not code: a node is an argument, `none` where it has no status okay.
pub mod Bound
pub mod Hardware
pub mod Encoders
use robofw.Common.{
  ℕ, Bool, true, false, ◌&&◌, not, Option, none, some, List, [], ◌∷◌, ◌++◌, map, bit_or,
  if◌then◌else◌,
}
use robofw.Common.Int.{ℤ}
use robofw.Can.{CanDescriptor, is_zero}
use robofw.Mcal.{HwCall, gpio_pin_configure, LedDescriptor, DioDescriptor, PwmDescriptor}
use robofw.Mcal.Uart.{UartKernel, UartDescriptor}
use Encoders.{EncoderDescriptor}

-- How the entries of one table are made. `one` is the body of its `initialize_...` macro: whether it
-- goes on, the entry, and the driver calls.
pub record Table (N D : Type 0) : Type 0 where
  pub active_of : D → Bool
  pub off : D → D
  pub one : N → D → Bool × D × List HwCall

module _ {N D : Type 0} (t : Table N D) where
  open t use {off, one}

  -- The expansions of the macro, one after the other; the first that fails returns.
  unfoldable pub init_entries : List (Option N) → List D → Bool × List D × List HwCall
  init_entries [] ds = (true, ds, [])
  init_entries (n ∷ ns) [] = (true, [], [])
  init_entries (none ∷ ns) (d ∷ ds) =
      let (ok, rest, calls) = init_entries ns ds in (ok, d ∷ rest, calls)
  init_entries (some n ∷ ns) (d ∷ ds) =
      let (ok, d2, calls) = one n d in
      let (ok2, rest, more) = init_entries ns ds in
      if not ok then (false, d2 ∷ ds, calls) else (ok2, d2 ∷ rest, calls ++ more)

  -- All entries are disabled first.
  unfoldable pub init_table : List (Option N) → List D → Bool × List D × List HwCall
  unfolding init_entries
  init_table ns ds = init_entries ns (map off ds)

-- The nodes: `found` is whether the driver's device was found, and `configured` is the result of
-- `gpio_pin_configure`.
pub record LedNode : Type 0 where
  pub found : Bool
  pub pin : ℕ
  pub flags : ℕ
  pub configured : ℤ

pub record DioNode : Type 0 where
  pub found : Bool
  pub pin : ℕ
  pub flags : ℕ

pub record PwmNode : Type 0 where
  pub found : Bool
  pub channel : ℕ
  pub period : ℕ
  pub flags : ℕ

pub record UartNode : Type 0 where
  pub found : Bool

pub record CanNode : Type 0 where
  pub found : Bool
  pub bus_speed : ℕ

pub record EncoderNode : Type 0 where
  pub found : Bool

-- `gpio_output_inactive` is GPIO_OUTPUT_INACTIVE of Zephyr. The flags of a light are not stored.
unfoldable pub initialize_led : ℕ → LedNode → LedDescriptor → Bool × LedDescriptor × List HwCall
initialize_led gpio_output_inactive n d =
    let placed = record d { pin = n.pin } in
    if not n.found
    then (false, placed, [])
    else (let calls = gpio_pin_configure n.pin (bit_or n.flags gpio_output_inactive) ∷ [] in
        if not (is_zero n.configured)
        then (false, placed, calls)
        else (true, record placed { active = true }, calls))

unfoldable pub initialize_dio : DioNode → DioDescriptor → Bool × DioDescriptor × List HwCall
initialize_dio n d =
    let placed = record d { pin = n.pin; flags = n.flags } in
    if not n.found
    then (false, placed, [])
    else (true, record placed { active = true }, gpio_pin_configure n.pin n.flags ∷ [])

unfoldable pub initialize_pwm : PwmNode → PwmDescriptor → Bool × PwmDescriptor × List HwCall
initialize_pwm n d =
    let placed = record d { channel = n.channel; period = n.period; flags = n.flags } in
    if not n.found then (false, placed, []) else (true, record placed { active = true }, [])

unfoldable pub initialize_can : CanNode → CanDescriptor → Bool × CanDescriptor × List HwCall
initialize_can n d =
    if not n.found
    then (false, d, [])
    else (true, record d { bitrate = n.bus_speed; active = true }, [])

unfoldable pub initialize_encoder :
    EncoderNode → EncoderDescriptor → Bool × EncoderDescriptor × List HwCall
initialize_encoder n d =
    if not n.found then (false, d, []) else (true, record d { active = true }, [])

abbrev pub leds : ℕ → Table LedNode LedDescriptor
leds gpio_output_inactive = record {
  active_of = λ d. d.active;
  off = λ d. record d { active = false };
  one = initialize_led gpio_output_inactive;
}

abbrev pub dios : Table DioNode DioDescriptor
dios = record {
  active_of = λ d. d.active;
  off = λ d. record d { active = false };
  one = initialize_dio;
}

abbrev pub pwms : Table PwmNode PwmDescriptor
pwms = record {
  active_of = λ d. d.active;
  off = λ d. record d { active = false };
  one = initialize_pwm;
}

abbrev pub cans : Table CanNode CanDescriptor
cans = record {
  active_of = λ d. d.active;
  off = λ d. record d { active = false };
  one = initialize_can;
}

abbrev pub encoders : Table EncoderNode EncoderDescriptor
encoders = record {
  active_of = λ d. d.active;
  off = λ d. record d { active = false };
  one = initialize_encoder;
}

module _ (u : UartKernel) where
  unfoldable pub initialize_uart :
      UartNode → UartDescriptor u → Bool × UartDescriptor u × List HwCall
  initialize_uart n d =
      if not n.found then (false, d, []) else (true, record d { active = true }, [])

  abbrev pub uarts : Table UartNode (UartDescriptor u)
  uarts = record {
    active_of = λ d. d.active;
    off = λ d. record d { active = false };
    one = initialize_uart;
  }

  -- The device tree's nodes, and the six tables.
  pub record Nodes : Type 0 where
    pub dio : List (Option DioNode)
    pub led : List (Option LedNode)
    pub pwm : List (Option PwmNode)
    pub uart : List (Option UartNode)
    pub can : List (Option CanNode)
    pub encoder : List (Option EncoderNode)

  pub record Descriptions : Type 0 where
    pub dio : List DioDescriptor
    pub led : List LedDescriptor
    pub pwm : List PwmDescriptor
    pub uart : List (UartDescriptor u)
    pub can : List CanDescriptor
    pub encoder : List EncoderDescriptor

  -- `InitHardware` of hwconfig.c: every table is filled, also after one that failed.
  unfoldable pub init_hardware : ℕ → Nodes → Descriptions → Bool × Descriptions × List HwCall
  init_hardware gpio_output_inactive n d =
      let (dio_ret, dio, dio_calls) = init_table dios n.dio d.dio in
      let (led_ret, led, led_calls) = init_table (leds gpio_output_inactive) n.led d.led in
      let (pwm_ret, pwm, pwm_calls) = init_table pwms n.pwm d.pwm in
      let (uart_ret, uart, uart_calls) = init_table uarts n.uart d.uart in
      let (can_ret, can, can_calls) = init_table cans n.can d.can in
      let (encoder_ret, encoder, encoder_calls) = init_table encoders n.encoder d.encoder in
      (
        led_ret && dio_ret && pwm_ret && uart_ret && can_ret && encoder_ret,
        record { dio = dio; led = led; pwm = pwm; uart = uart; can = can; encoder = encoder },
        dio_calls ++ led_calls ++ pwm_calls ++ uart_calls ++ can_calls ++ encoder_calls,
      )
