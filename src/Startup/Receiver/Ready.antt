-- ===== src/Startup/Receiver/Ready.antt =====
-- From the start of the receiver's service to the data of a frame that arrives afterwards.
use robofw.Common.{ℕ, ◌<◌, ◌≡◌, refl, true, some, List, [], length, arith}
use robofw.Common.Int.{pos}
use robofw.Common.Floats.{Floats}
use robofw.Common.Msgq.{Msgq, MsgqLaws}
use robofw.Common.Msgq.Post.{IsUsable}
use robofw.Mcal.Uart.{
  UartKernel, UartKernelLaws, UartDriver, UartDescriptor, UartEvent, configure_uart,
  setup_uart_async_mode, start_uart_async_receive,
}
use robofw.Mcal.Uart.Events.{arrived, on_events}
use robofw.Receiver.Chunks.{FrameTaken, receiver_turn-FrameTaken}
use robofw.Sbus.{wait_for_sof, sbus_decoder_init}
use robofw.Sbus.RoundTrip.{sent_frame, AllBelow}
use robofw.Types.{ReceiverData}
use robofw.Startup.{QueueOut}
use robofw.Startup.Receiver.{SbusConf, init_sbus, start_receiver_service}

module _ (u : UartKernel) (ulaws : UartKernelLaws u) (ud : UartDriver u) where
  open u use {Ring, waiting, room, sem_init}
  open ulaws use {init_waiting, init_room}
  open ud use {State}

  -- The UART is there, and the kernel prepares both of its semaphores.
  pub record CanPrepare (dd : UartDescriptor u) : Type 0 where
    pub active : dd.active ≡ true
    pub rx : (sem_init dd.rx_sem 0 1).0 ≡ pos 0
    pub tx : (sem_init dd.tx_sem 0 1).0 ≡ pos 0

  record Ready (conf : SbusConf u) : Type 0 where
    empty : waiting conf.dd_uart.ring_buffer ≡ []
    big : room conf.dd_uart.ring_buffer ≡ 512
    index : conf.dd_uart.double_buffer_index ≡ 0
    waits : conf.sbus_decoder.decode_state ≡ wait_for_sof

  init_sbus-Ready :
      (conf : SbusConf u) (s : State) → CanPrepare conf.dd_uart → Ready (init_sbus u ud (conf, s)).1
  unfolding init_sbus configure_uart setup_uart_async_mode start_uart_async_receive
      sbus_decoder_init
  init_sbus-Ready conf s c =
      rw (c.active, c.rx, c.tx)
        (record { empty = init_waiting _ _; big = init_room _ _; index = refl; waits = refl })

  module _ (f : Floats) (k : Msgq) (laws : MsgqLaws k) where
    open f use {F32}
    open k use {Queue}

    -- A frame of sixteen channels of 11 bits that reaches the UART after the start of the service, in
    -- any pieces and between any other events: the start succeeds, and the first turn of the service,
    -- which may read one byte more than the frame has, ends, empties the ring buffer, and puts the
    -- scaled channels into the receiver's queue, if that can hold something. The UART is there, and the
    -- kernel prepares its semaphores; what the decoder and the ring buffer held before does not matter.
    pub start_receiver_service-FrameTaken :
        {Q : Type 0} (gpio_flags fuel : ℕ) (conf : SbusConf u) (s : State) (rc_data : Q)
        (i : QueueOut Q) (cs : List ℕ) (flags : ℕ) (es : List (UartEvent u))
        (q : Queue (ReceiverData F32))
        → CanPrepare conf.dd_uart
        → arrived u es ≡ sent_frame cs flags
        → 25 < fuel
        → length cs ≡ 16
        → AllBelow 2048 cs
        → flags < 256
        → IsUsable k laws q
        → let (r, (conf2, s2), calls) =
            start_receiver_service u ud gpio_flags true (conf, s) (some rc_data) i in
          (r.ok ≡ true)
          × ((out : _) × FrameTaken f k laws u ulaws ud fuel cs flags
                (on_events u ud es (conf2.dd_uart, s2)).0
                conf2.sbus_decoder
                conf2.sbus_msg_buffer
                q
                out)
    unfolding start_receiver_service init_sbus
    start_receiver_service-FrameTaken gpio_flags fuel conf s rc_data i cs flags es q c pieces enough
          n below small use_q =
        let (done, conf2, s2) = init_sbus u ud (conf, s) in
        let r = init_sbus-Ready conf s c in
        (
          refl,
          receiver_turn-FrameTaken f k laws u ulaws ud fuel cs flags es (conf2.dd_uart, s2)
              conf2.sbus_decoder conf2.sbus_msg_buffer q pieces r.empty (omega (arith, r.big))
              (omega (arith, r.index)) enough r.waits n below small use_q,
        )
