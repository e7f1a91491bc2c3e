-- ===== src/Mcal/Uart/Events.antt =====
-- What the UART events leave in the ring buffer, and which buffers the driver is handed.
use robofw.Common.{
  ℕ, ◌+◌, ◌≤◌, ◌<◌, ◌||◌, ◌⊎◌, ◌≡◌, refl, sym, ap, ◌∙◌, Bool, true, false, List, [], ◌∷◌, ◌++◌,
  length, length-append, take, drop, arith, Bool-cases, inl, inr,
}
use mathlib.Core.List.{append_assoc, append-nil}
use robofw.Mcal.Uart.{
  UartKernel, UartKernelLaws, UartDriver, UartDescriptor, UartEvent, uart_rx_rdy,
  uart_rx_buf_request, uart_rx_buf_released, uart_rx_disabled, uart_rx_stopped, uart_tx_done,
  uart_tx_aborted, generic_uart_callback, start_uart_async_receive,
}

module _ (u : UartKernel) where
  -- The bytes that an event brings.
  abbrev pub brought : UartEvent u → List ℕ
  brought (uart_rx_rdy buf offset len) = take len (drop offset buf)
  brought _ = []

  abbrev pub arrived : List (UartEvent u) → List ℕ
  arrived [] = []
  arrived (e ∷ es) = brought e ++ arrived es

  abbrev announces : UartEvent u → Bool
  announces (uart_rx_rdy buf offset len) = true
  announces _ = false

  -- Whether any event says that bytes are ready.
  abbrev pub announced : List (UartEvent u) → Bool
  announced [] = false
  announced (e ∷ es) = announces e || announced es

  module _ (d : UartDriver u) where
    open u use {Ring, waiting, room, count}
    open d use {State}

    -- The callback over the events, in their order.
    unfoldable pub on_events :
        List (UartEvent u) → UartDescriptor u × State → UartDescriptor u × State
    on_events [] t = t
    on_events (e ∷ es) t = on_events es (generic_uart_callback u d e t)

    module _ (laws : UartKernelLaws u) where
      open laws use {put_appends, put_room, given}

      callback-ring :
          (e : UartEvent u) (t : UartDescriptor u × State)
          → length (waiting t.0.ring_buffer) + length (brought e) ≤ room t.0.ring_buffer
          → (waiting (generic_uart_callback u d e t).0.ring_buffer
              ≡ waiting t.0.ring_buffer ++ brought e)
            × (room (generic_uart_callback u d e t).0.ring_buffer ≡ room t.0.ring_buffer)
      unfolding generic_uart_callback start_uart_async_receive
      callback-ring (uart_rx_rdy buf offset len) t fits =
          (put_appends t.0.ring_buffer _ fits, put_room t.0.ring_buffer _)
      callback-ring uart_rx_buf_request t fits = (sym (append-nil _), refl)
      callback-ring uart_rx_buf_released t fits = (sym (append-nil _), refl)
      callback-ring uart_rx_disabled t fits = elim (Bool-cases t.0.active) [
        | inl e ↦ rw e (sym (append-nil _), refl)
        | inr e ↦ rw e (sym (append-nil _), refl)
      ]
      callback-ring uart_rx_stopped t fits = (sym (append-nil _), refl)
      callback-ring uart_tx_done t fits = (sym (append-nil _), refl)
      callback-ring uart_tx_aborted t fits = (sym (append-nil _), refl)

      callback-signalled :
          (e : UartEvent u) (t : UartDescriptor u × State)
          → (0 < count t.0.rx_sem) ⊎ (announces e ≡ true)
          → 0 < count (generic_uart_callback u d e t).0.rx_sem
      unfolding generic_uart_callback start_uart_async_receive
      callback-signalled (uart_rx_rdy buf offset len) t h = given t.0.rx_sem
      callback-signalled uart_rx_buf_request t h = ground arith
      callback-signalled uart_rx_buf_released t h = ground arith
      callback-signalled uart_rx_disabled t h = elim (Bool-cases t.0.active) [
        | inl e ↦ rw e (ground arith)
        | inr e ↦ rw e (ground arith)
      ]
      callback-signalled uart_rx_stopped t h = ground arith
      callback-signalled uart_tx_done t h = ground arith
      callback-signalled uart_tx_aborted t h = ground arith

      callback-index :
          (e : UartEvent u) (t : UartDescriptor u × State)
          → t.0.double_buffer_index < 2
          → (generic_uart_callback u d e t).0.double_buffer_index < 2
      unfolding generic_uart_callback start_uart_async_receive
      callback-index (uart_rx_rdy buf offset len) t h = h
      callback-index uart_rx_buf_request t h = omega arith
      callback-index uart_rx_buf_released t h = h
      callback-index uart_rx_disabled t h = elim (Bool-cases t.0.active) [
        | inl e ↦ rw e (omega arith)
        | inr e ↦ rw e (omega arith)
      ]
      callback-index uart_rx_stopped t h = h
      callback-index uart_tx_done t h = h
      callback-index uart_tx_aborted t h = h

      -- What the events leave: the bytes behind those that waited, a semaphore that can be taken if
      -- bytes were announced, and an index of one of the two buffers.
      pub record Arrived (es : List (UartEvent u)) (t out : UartDescriptor u × State) : Type 0 where
        pub behind : waiting out.0.ring_buffer ≡ waiting t.0.ring_buffer ++ arrived es
        pub same_room : room out.0.ring_buffer ≡ room t.0.ring_buffer
        pub can_take : (0 < count t.0.rx_sem) ⊎ (announced es ≡ true) → 0 < count out.0.rx_sem
        pub one_of_two : out.0.double_buffer_index < 2

      -- Events whose bytes fit behind those that wait in the ring buffer are added there, in order,
      -- and wake the service; the index stays that of one of the two buffers.
      pub on_events-Arrived :
          (es : List (UartEvent u)) (t : UartDescriptor u × State)
          → length (waiting t.0.ring_buffer) + length (arrived es) ≤ room t.0.ring_buffer
          → t.0.double_buffer_index < 2
          → Arrived es t (on_events es t)
      unfolding on_events
      on_events-Arrived [] t fits index = record {
        behind = sym (append-nil _);
        same_room = refl;
        can_take = λ h. ground arith;
        one_of_two = index;
      }
      on_events-Arrived (e ∷ es) t fits index =
          let both : length (brought e ++ arrived es) ≡ length (brought e) + length (arrived es) =
            length-append (brought e) (arrived es) in
          let (here, kept) = callback-ring e t (omega arith) in
          let longer : length (waiting (generic_uart_callback u d e t).0.ring_buffer)
              ≡ length (waiting t.0.ring_buffer) + length (brought e) =
            ap length here ∙ length-append (waiting t.0.ring_buffer) (brought e) in
          let r =
            on_events-Arrived es (generic_uart_callback u d e t) (omega arith)
              (callback-index e t index) in
          record {
            behind =
                r.behind
                ∙ ap (λ w. w ++ arrived es) here
                ∙ append_assoc (waiting t.0.ring_buffer) (brought e) (arrived es);
            same_room = r.same_room ∙ kept;
            can_take = λ h. r.can_take (signalled_or h);
            one_of_two = r.one_of_two;
          }
        where
          signalled_or :
              (0 < count t.0.rx_sem) ⊎ (announced (e ∷ es) ≡ true)
              → (0 < count (generic_uart_callback u d e t).0.rx_sem) ⊎ (announced es ≡ true)
          signalled_or (inl h) = inl (callback-signalled e t (inl h))
          signalled_or (inr h) = elim (Bool-cases (announces e)) [
            | inl a ↦ inl (callback-signalled e t (inr a))
            | inr a ↦ inr (ap (λ b. b || announced es) (sym a) ∙ h)
          ]

  -- Events that bring bytes announce them.
  pub announced_of : (es : List (UartEvent u)) → 0 < length (arrived es) → announced es ≡ true
  announced_of [] h = absurd (omega arith)
  announced_of (uart_rx_rdy buf offset len ∷ es) h = refl
  announced_of (uart_rx_buf_request ∷ es) h = announced_of es h
  announced_of (uart_rx_buf_released ∷ es) h = announced_of es h
  announced_of (uart_rx_disabled ∷ es) h = announced_of es h
  announced_of (uart_rx_stopped ∷ es) h = announced_of es h
  announced_of (uart_tx_done ∷ es) h = announced_of es h
  announced_of (uart_tx_aborted ∷ es) h = announced_of es h
