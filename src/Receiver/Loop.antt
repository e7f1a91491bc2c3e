-- ===== src/Receiver/Loop.antt =====
-- `SbusReceiverServiceLoop` of src/service/common/receiver/src/sbus_receiver.c, with the UART's
-- semaphore and ring buffer.
use robofw.Common.{ℕ, zero, suc, Option, none, some, if◌then◌else◌}
use robofw.Common.Floats.{Floats}
use robofw.Common.Msgq.{Msgq}
use robofw.Mcal.Uart.{UartKernel, UartDescriptor}
use robofw.Sbus.{SbusDecodeBuffer, SbusMessage}
use robofw.Types.{ReceiverData}
use robofw.Receiver.{receive_byte}

module _ (f : Floats) (k : Msgq) (u : UartKernel) where
  open f use {F32}
  open k use {Queue}
  open u use {Ring, ring_get, sem_take}

  -- The inner loop on fuel: `none` if it has not ended after that many reads.
  unfoldable pub receive_within :
      ℕ
      → Ring
      → SbusDecodeBuffer × SbusMessage × Queue (ReceiverData F32)
      → Option (Ring × (SbusDecodeBuffer × SbusMessage × Queue (ReceiverData F32)))
  unfolding receive_byte
  receive_within zero r s = none
  receive_within (suc fuel) r s = elim (ring_get r).0 [
    | none ↦ some ((ring_get r).1, s)
    | some ch ↦ elim (receive_byte f k ch s) [
      | none ↦ none
      | some s2 ↦ receive_within fuel (ring_get r).1 s2
    ]
  ]

  -- One turn of the loop. It waits, and nothing changes, as long as the semaphore cannot be taken.
  unfoldable pub receiver_turn :
      ℕ
      → UartDescriptor u × (SbusDecodeBuffer × SbusMessage × Queue (ReceiverData F32))
      → Option (UartDescriptor u × (SbusDecodeBuffer × SbusMessage × Queue (ReceiverData F32)))
  receiver_turn fuel (dd, s) =
      let (ok, sem) = sem_take dd.rx_sem in
      if ok
      then elim (receive_within fuel dd.ring_buffer s) [
        | none ↦ none
        | some (r, s2) ↦ some (record dd { rx_sem = sem; ring_buffer = r }, s2)
      ]
      else some (dd, s)
