-- ===== src/Examples/Uart.antt =====
-- The UART and the receiver's loop on concrete values, with a ring buffer that is a bounded list and
-- a semaphore that is its count.
use robofw.Common.{
  ℕ, ◌+◌, ◌-◌, ◌≤◌, ◌≡◌, refl, true, none, some, List, [], ◌∷◌, ◌++◌, length, take, leb, ltb,
  if◌then◌else◌, arith,
}
use robofw.Common.Int.{pos}
use robofw.Common.Msgq.Bounded.{Bounded, get_bounded}
use robofw.Mcal.Uart.{
  UartKernel, UartKernelLaws, UartDriver, UartDescriptor, UartEvent, get_uart_sbus_config,
  uart_rx_rdy, uart_rx_buf_request, uart_rx_disabled,
}
use robofw.Sbus.RoundTrip.{sent_frame}
use robofw.Examples.Sbus.{sticks}

abbrev put_all : Bounded ℕ → List ℕ → Bounded ℕ
put_all r bytes = record {
  items =
      if leb (length r.items + length bytes) r.bound
      then r.items ++ bytes
      else r.items ++ take (r.bound - length r.items) bytes;
  bound = r.bound;
}

abbrev pub plain : UartKernel
plain = record {
  Ring = Bounded ℕ;
  ring_init = λ r n. record { items = []; bound = n };
  ring_put = put_all;
  ring_get = get_bounded;
  waiting = λ r. r.items;
  room = λ r. r.bound;
  Sem = ℕ;
  sem_init = λ s start limit. (pos 0, start);
  sem_give = λ s. 1;
  sem_take = λ s. (ltb 0 s, s - 1);
  count = λ s. s;
}

put_all_fits :
    (r : Bounded ℕ) (bytes : List ℕ)
    → length r.items + length bytes ≤ r.bound
    → (put_all r bytes).items ≡ r.items ++ bytes
put_all_fits r bytes h = ground arith

get_none_plain : (r : Bounded ℕ) → r.items ≡ [] → (get_bounded r).0 ≡ none
get_none_plain r e = ground arith

get_none_left_plain : (r : Bounded ℕ) → r.items ≡ [] → (get_bounded r).1.items ≡ []
get_none_left_plain r e = ground arith

get_some_plain :
    (r : Bounded ℕ) (b : ℕ) (rest : List ℕ) → r.items ≡ b ∷ rest → (get_bounded r).0 ≡ some b
get_some_plain r b rest e = ground arith

get_rest_plain :
    (r : Bounded ℕ) (b : ℕ) (rest : List ℕ) → r.items ≡ b ∷ rest → (get_bounded r).1.items ≡ rest
get_rest_plain r b rest e = ground arith

pub plain-UartKernelLaws : UartKernelLaws plain
plain-UartKernelLaws = record {
  init_waiting = λ r n. refl;
  init_room = λ r n. refl;
  put_appends = put_all_fits;
  put_room = λ r bytes. refl;
  get_none = get_none_plain;
  get_none_waiting = get_none_left_plain;
  get_some = get_some_plain;
  get_rest = get_rest_plain;
  given = λ s. omega arith;
  taken = λ s h. ground arith;
}

-- The number of buffers that the driver was given.
abbrev pub counting : UartDriver plain
counting = record {
  State = ℕ;
  configure = λ s config. (pos 0, s);
  callback_set = λ s. s;
  rx_enable = λ s i size timeout. s + 1;
  rx_buf_rsp = λ s i size. s + 1;
  rx_disable = λ s. s;
  tx = λ s buf timeout. (pos 0, s);
}

abbrev pub uart : UartDescriptor plain
uart = record {
  active = true;
  rx_sem = 0;
  tx_sem = 0;
  config = get_uart_sbus_config;
  ring_buffer = record { items = []; bound = 512 };
  double_buffer_index = 0;
}

-- The frame in two pieces, of 10 and 15 bytes, the second in the next buffer after a restart.
abbrev pub pieces : List (UartEvent plain)
pieces =
    uart_rx_rdy (sent_frame sticks 0) 0 10
    ∷ uart_rx_buf_request
    ∷ uart_rx_disabled
    ∷ uart_rx_rdy (sent_frame sticks 0) 10 15
    ∷ []
