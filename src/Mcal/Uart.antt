-- ===== src/Mcal/Uart.antt =====
-- src/module/mcal/src/uart_interface.c: a UART device, and the callback by which its driver reports
-- events. The ring buffer, the semaphores and the driver are Zephyr's, so they are parameters.
pub mod Events
use robofw.Common.{
  ℕ, ◌+◌, ◌*◌, ◌%◌, ◌≤◌, ◌<◌, ◌≡◌, Bool, true, false, not, Option, none, some, List, [], ◌∷◌, ◌++◌,
  length, take, drop, if◌then◌else◌,
}
use robofw.Common.Int.{ℤ, pos}
use robofw.Can.{is_zero}

-- `struct uart_config`, with the constants of Zephyr's drivers/uart.h.
pub data Parity : Type 0 where
  parity_none parity_odd parity_even : Parity

pub data StopBits : Type 0 where
  stop_bits_1 stop_bits_2 : StopBits

pub data FlowControl : Type 0 where
  flow_none flow_rts_cts flow_dtr_dsr : FlowControl

pub record UartConfig : Type 0 where
  pub baudrate : ℕ
  pub parity : Parity
  pub stop_bits : StopBits
  pub data_bits : ℕ
  pub flow_ctrl : FlowControl

-- The ring buffer and the semaphore. `sem_take` is true where the call returns 0 without waiting, and
-- `ring_get` reads one byte.
pub record UartKernel : Type 1 where
  pub Ring : Type 0
  pub ring_init : Ring → ℕ → Ring
  pub ring_put : Ring → List ℕ → Ring
  pub ring_get : Ring → Option ℕ × Ring
  pub waiting : Ring → List ℕ
  pub room : Ring → ℕ
  pub Sem : Type 0
  pub sem_init : Sem → ℕ → ℕ → ℤ × Sem
  pub sem_give : Sem → Sem
  pub sem_take : Sem → Bool × Sem
  pub count : Sem → ℕ

module _ (u : UartKernel) where
  open u use {
    Ring, ring_init, ring_put, ring_get, waiting, room, Sem, sem_init, sem_give, sem_take, count,
  }

  -- The documented behaviour: bytes that fit are appended, and a get takes the oldest byte; a new
  -- buffer is empty. A semaphore that was given can be taken.
  pub record UartKernelLaws : Type 0 where
    pub init_waiting : (r : Ring) (n : ℕ) → waiting (ring_init r n) ≡ []
    pub init_room : (r : Ring) (n : ℕ) → room (ring_init r n) ≡ n
    pub put_appends :
        (r : Ring) (bytes : List ℕ)
        → length (waiting r) + length bytes ≤ room r
        → waiting (ring_put r bytes) ≡ waiting r ++ bytes
    pub put_room : (r : Ring) (bytes : List ℕ) → room (ring_put r bytes) ≡ room r
    pub get_none : (r : Ring) → waiting r ≡ [] → (ring_get r).0 ≡ none
    pub get_none_waiting : (r : Ring) → waiting r ≡ [] → waiting (ring_get r).1 ≡ []
    pub get_some :
        (r : Ring) (b : ℕ) (rest : List ℕ) → waiting r ≡ b ∷ rest → (ring_get r).0 ≡ some b
    pub get_rest :
        (r : Ring) (b : ℕ) (rest : List ℕ) → waiting r ≡ b ∷ rest → waiting (ring_get r).1 ≡ rest
    pub given : (s : Sem) → 0 < count (sem_give s)
    pub taken : (s : Sem) → 0 < count s → (sem_take s).0 ≡ true

  -- The calls to the driver of one device.
  pub record UartDriver : Type 1 where
    pub State : Type 0
    pub configure : State → UartConfig → ℤ × State
    pub callback_set : State → State
    -- which of the two buffers, its size, and the timeout
    pub rx_enable : State → ℕ → ℕ → ℕ → State
    pub rx_buf_rsp : State → ℕ → ℕ → State
    pub rx_disable : State → State
    pub tx : State → List ℕ → ℤ → ℤ × State

  -- `UartDescriptor`; the device stands in the driver's state.
  pub record UartDescriptor : Type 0 where
    pub active : Bool
    pub rx_sem : Sem
    pub tx_sem : Sem
    pub config : UartConfig
    pub ring_buffer : Ring
    pub double_buffer_index : ℕ

  -- `struct uart_event`; what is received is `len` bytes from `offset` of a buffer.
  pub data UartEvent : Type 0 where
    uart_rx_rdy : List ℕ → ℕ → ℕ → UartEvent
    uart_rx_buf_request uart_rx_buf_released uart_rx_disabled uart_rx_stopped : UartEvent
    uart_tx_done uart_tx_aborted : UartEvent

abbrev pub uart_rx_buf_size : ℕ
uart_rx_buf_size = 256

abbrev pub uart_rx_timeout : ℕ
uart_rx_timeout = 50

unfoldable pub get_uart_sbus_config : UartConfig
get_uart_sbus_config = record {
  baudrate = 100000;
  parity = parity_even;
  stop_bits = stop_bits_2;
  data_bits = 8;
  flow_ctrl = flow_none;
}

module _ (u : UartKernel) (d : UartDriver u) where
  open u use {ring_init, ring_put, sem_init, sem_give}
  open d use {State, configure, callback_set, rx_enable, rx_buf_rsp, rx_disable, tx}

  unfoldable pub configure_uart :
      UartConfig → UartDescriptor u × State → Bool × UartDescriptor u × State
  configure_uart config (dd, s) =
      if not dd.active
      then (false, dd, s)
      else (let (ret, s2) = configure s config in (is_zero ret, record dd { config = config }, s2))

  -- The second semaphore is prepared only after the first.
  unfoldable pub setup_uart_async_mode : UartDescriptor u × State → Bool × UartDescriptor u × State
  setup_uart_async_mode (dd, s) =
      if not dd.active
      then (false, dd, s)
      else (let (ret, rx) = sem_init dd.rx_sem 0 1 in
          let (ret2, tx_set) = sem_init dd.tx_sem 0 1 in
          if not (is_zero ret)
          then (false, record dd { rx_sem = rx }, s)
          else (if not (is_zero ret2)
              then (false, record dd { rx_sem = rx; tx_sem = tx_set }, s)
              else (
                true,
                record dd {
                  rx_sem = rx;
                  tx_sem = tx_set;
                  ring_buffer = ring_init dd.ring_buffer (2 * uart_rx_buf_size);
                },
                callback_set s,
              )))

  unfoldable pub start_uart_async_send :
      List ℕ → ℤ → UartDescriptor u × State → Bool × UartDescriptor u × State
  start_uart_async_send buf timeout (dd, s) =
      if not dd.active
      then (false, dd, s)
      else (let (ret, s2) = tx s buf timeout in (is_zero ret, dd, s2))

  unfoldable pub start_uart_async_receive : UartDescriptor u × State → UartDescriptor u × State
  start_uart_async_receive (dd, s) =
      if not dd.active
      then (dd, s)
      else (record dd { double_buffer_index = 0 }, rx_enable s 0 uart_rx_buf_size uart_rx_timeout)

  unfoldable pub stop_uart_async_receive : UartDescriptor u × State → UartDescriptor u × State
  stop_uart_async_receive (dd, s) = if not dd.active then (dd, s) else (dd, rx_disable s)

  -- The `switch` of `GenericUartCallback`.
  unfoldable pub generic_uart_callback :
      UartEvent u → UartDescriptor u × State → UartDescriptor u × State
  unfolding start_uart_async_receive
  generic_uart_callback (uart_rx_rdy buf offset len) (dd, s) = (
    record dd {
      ring_buffer = ring_put dd.ring_buffer (take len (drop offset buf));
      rx_sem = sem_give dd.rx_sem;
    },
    s,
  )
  generic_uart_callback uart_rx_buf_request (dd, s) =
      let i = (dd.double_buffer_index + 1) % 2 in
      (record dd { double_buffer_index = i }, rx_buf_rsp s i uart_rx_buf_size)
  generic_uart_callback uart_rx_buf_released t = t
  generic_uart_callback uart_rx_disabled (dd, s) =
      start_uart_async_receive (record dd { double_buffer_index = 0 }, s)
  generic_uart_callback uart_rx_stopped t = t
  generic_uart_callback uart_tx_done (dd, s) = (record dd { tx_sem = sem_give dd.tx_sem }, s)
  generic_uart_callback uart_tx_aborted t = t
