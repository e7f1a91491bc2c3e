-- ===== src/Startup/Receiver.antt =====
-- `StartReceiverService` of src/service/common/receiver/src/receiver_service.c and `InitSbus` of
-- sbus_receiver.c there: the receiver's UART before its thread starts.
pub mod Ready
use robofw.Common.{
  ℕ, Bool, true, false, not, Option, none, some, List, [], ◌∷◌, ◌++◌, if◌then◌else◌, replicate,
}
use robofw.Mcal.{HwCall, DioDescriptor, configure_dio, set_dio}
use robofw.Mcal.Uart.{
  UartKernel, UartDriver, UartDescriptor, get_uart_sbus_config, configure_uart,
  setup_uart_async_mode, start_uart_async_receive,
}
use robofw.Sbus.{SbusDecodeBuffer, SbusMessage, wait_for_sof, sbus_decoder_init}
use robofw.Startup.{Started, refused, QueueOut, receiver_loop}

-- `SbusConf`; the pin that inverts the line may be missing.
pub record SbusConf (u : UartKernel) : Type 0 where
  pub dd_uart : UartDescriptor u
  pub dd_dio_inv : Option DioDescriptor
  pub sbus_decoder : SbusDecodeBuffer
  pub sbus_msg_buffer : SbusMessage

-- Static variables start as zero.
abbrev pub static_decoder : SbusDecodeBuffer
static_decoder = record { decode_state = wait_for_sof; frame = replicate 25 0; indexer = 0 }

abbrev pub static_message : SbusMessage
static_message = record { channels = replicate 18 0; frame_loss = false; fault_protection = false }

-- The configuration, once its UART is set.
abbrev pub static_conf : (u : UartKernel) → UartDescriptor u → SbusConf u
static_conf u dd = record {
  dd_uart = dd;
  dd_dio_inv = none;
  sbus_decoder = static_decoder;
  sbus_msg_buffer = static_message;
}

-- `gpio_flags` is GPIO_OUTPUT_ACTIVE | GPIO_PULL_UP of Zephyr.
unfoldable pub invert_line : ℕ → Option DioDescriptor → List HwCall
unfolding configure_dio set_dio
invert_line gpio_flags none = []
invert_line gpio_flags (some dio) = configure_dio dio gpio_flags ++ set_dio dio 1

module _ (u : UartKernel) (ud : UartDriver u) where
  open ud use {State}

  -- The results of `ConfigureUart` and `SetupUartAsyncMode` are only printed.
  unfoldable pub init_sbus : SbusConf u × State → Bool × SbusConf u × State
  unfolding sbus_decoder_init get_uart_sbus_config configure_uart setup_uart_async_mode
      start_uart_async_receive
  init_sbus (conf, s) =
      let (configured, dd, s2) = configure_uart u ud get_uart_sbus_config (conf.dd_uart, s) in
      let (set_up, dd2, s3) = setup_uart_async_mode u ud (dd, s2) in
      let (dd3, s4) = start_uart_async_receive u ud (dd2, s3) in
      (true, record conf { sbus_decoder = sbus_decoder_init conf.sbus_decoder; dd_uart = dd3 }, s4)

  -- What the start leaves of its configuration, and its calls to the pin.
  unfoldable pub start_receiver_service :
      {Q : Type 0}
      → ℕ
      → Bool
      → SbusConf u × State
      → Option Q
      → QueueOut Q
      → Started (QueueOut Q) × (SbusConf u × State) × List HwCall
  unfolding invert_line init_sbus
  start_receiver_service gpio_flags is_sbus (conf, s) rc_data i =
      let calls = invert_line gpio_flags conf.dd_dio_inv in
      let (ok, conf2, s2) = init_sbus (conf, s) in
      if is_sbus
      then (if not ok then (refused i, (conf2, s2), calls) else elim rc_data [
        | none ↦ (refused i, (conf2, s2), calls)
        | some q ↦ (
          record {
            ok = true;
            interface = record { msgq_out = some q };
            threads = receiver_loop ∷ [];
          },
          (conf2, s2),
          calls,
        )
      ])
      else (refused i, (conf, s), [])
