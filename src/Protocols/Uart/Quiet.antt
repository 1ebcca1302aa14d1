-- ===== src/Protocols/Uart/Quiet.antt =====
-- The UART protocol's handlers leave the receiving sides alone.
use greybus_for_zephyr.Base.{ℕ, ◌+◌, ◌||◌, Option, none, some, List, [], ◌∷◌, ltb}
use greybus_for_zephyr.OpResult
use greybus_for_zephyr.Core.{State, World, DriverFunction}
use greybus_for_zephyr.Protocols.{byte, bytes_at, le16_at, payload_size}
use greybus_for_zephyr.Protocols.Tidy.{
  Keeps, Keeps-refl, if-Keeps, with_request-Keeps, version_response-Keeps, IsTidyTable,
}
use greybus_for_zephyr.Protocols.Control.Quiet.{Any}
use greybus_for_zephyr.Protocols.Board.{Board, with_dev, call_driver}
use greybus_for_zephyr.Protocols.Board.Quiet.{with_dev-Keeps, call_driver-Keeps}
use greybus_for_zephyr.Protocols.Uart

module _ ⦃b : Board⦄ where
  -- a request that ends with one call of the driver
  call_once-Keeps :
      (p : ℕ) (f : DriverFunction) (args : List ℕ) (s : State)
      → Keeps Any s (with_dev p (λ dev. call_driver dev f args Uart.unknown Uart.succeed) s)
  call_once-Keeps p f args s =
      with_dev-Keeps p _ s
        (λ dev. call_driver-Keeps dev f args _ _ s (λ out t. Keeps-refl Any OpResult.success t))

  configure-Keeps :
      ⦃u : Uart.UartConstants⦄
      → (p baud : ℕ) (stopbit parity : Option ℕ) (databits : ℕ) (s : State)
      → Keeps Any s (Uart.configure p baud stopbit parity databits s)
  configure-Keeps p baud none parity databits s = Keeps-refl Any OpResult.invalid s
  configure-Keeps p baud (some stopbit) none databits s = Keeps-refl Any OpResult.invalid s
  configure-Keeps p baud (some stopbit) (some parity) databits s =
      if-Keeps Any (ltb 8 databits || ltb databits 5) _ _ s
        (λ odd. Keeps-refl Any OpResult.invalid s)
        (λ usual.
          call_once-Keeps p DriverFunction.uart_set_configuration
            (baud ∷ parity ∷ databits ∷ stopbit ∷ 1 ∷ []) s)

  module _ ⦃u : Uart.UartConstants⦄ where
    send_data-Keeps : (p : ℕ) (s : State) → Keeps Any s (Uart.gb_uart_send_data p s)
    unfolding Uart.gb_uart_send_data
    send_data-Keeps p s = with_request-Keeps Any 2 _ p s (λ payload.
        if-Keeps Any (ltb (payload_size p s) (2 + le16_at payload 0)) _ _ s
          (λ short. Keeps-refl Any OpResult.invalid s)
          (λ whole.
            call_once-Keeps p DriverFunction.uart_start_transmitter
              (bytes_at payload 2 (le16_at payload 0)) s))

    line_coding-Keeps : (p : ℕ) (s : State) → Keeps Any s (Uart.gb_uart_set_line_coding p s)
    unfolding Uart.gb_uart_set_line_coding
    line_coding-Keeps p s = with_request-Keeps Any 7 _ p s (λ payload.
        configure-Keeps p (Uart.le32_at payload 0) (Uart.stopbit_of (byte payload 4))
          (Uart.parity_of (byte payload 5)) (byte payload 6) s)

    control_line-Keeps : (p : ℕ) (s : State) → Keeps Any s (Uart.gb_uart_set_control_line_state p s)
    unfolding Uart.gb_uart_set_control_line_state
    control_line-Keeps p s = with_request-Keeps Any 1 _ p s (λ payload. with_dev-Keeps p _ s (λ dev.
        call_driver-Keeps dev DriverFunction.uart_get_modem_ctrl [] _ _ s (λ out t.
          call_driver-Keeps dev DriverFunction.uart_set_modem_ctrl _ _ _ t
            (λ more t'. Keeps-refl Any OpResult.success t'))))

    break-Keeps : (p : ℕ) (s : State) → Keeps Any s (Uart.gb_uart_send_break p s)
    unfolding Uart.gb_uart_send_break
    break-Keeps p s =
        with_request-Keeps Any 1 _ p s
          (λ payload. call_once-Keeps p DriverFunction.uart_set_break (byte payload 0 ∷ []) s)

    pub uart-IsTidyTable : ⦃w : World⦄ → IsTidyTable Any Uart.gb_uart_handlers
    unfolding Uart.gb_uart_protocol_version
    uart-IsTidyTable = (
      version_response-Keeps Any (λ n. tt) 0 1,
      (send_data-Keeps, (line_coding-Keeps, (control_line-Keeps, (break-Keeps, tt)))),
    )
