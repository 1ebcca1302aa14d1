-- ===== src/Protocols/Uart.antt =====
-- The UART protocol's requests: subsys/greybus/uart.c, with the layout of
-- subsys/greybus/uart-gb.h. What the host receives is in the children.
pub mod Receiver
pub mod Channel
pub mod Arrival
pub mod Order
pub mod Status
pub mod Setup
pub mod Started
pub mod Sent
pub mod Quiet
use greybus_for_zephyr.Base.{
  ℕ, ◌+◌, ◌*◌, ◌^◌, ◌-◌, Bool, true, false, ◌||◌, Option, none, some, List, [], ◌∷◌, ◌==◌,
  if◌then◌else◌, ltb, ℤ,
}
use Prim.Native.Nat.{bit_and, bit_or}
use greybus_for_zephyr.OpResult
use greybus_for_zephyr.Core.{State, World, DriverFunction}
use greybus_for_zephyr.Protocols.{
  Table, byte, bytes_at, le16_at, le32_at, payload_size, with_request, version_response,
}
use greybus_for_zephyr.Protocols.Board.{Board, with_dev, call_driver}

-- The drivers' constants: `enum uart_parity` and `enum uart_stopbit`, the bits of the registers.
pub record UartConstants : Type 0 where
  pub no_parity : ℕ
  pub odd_parity : ℕ
  pub even_parity : ℕ
  pub mark_parity : ℕ
  pub space_parity : ℕ
  pub one_stop_bit : ℕ
  pub one5_stop_bits : ℕ
  pub two_stop_bits : ℕ
  pub mcr_dtr : ℕ
  pub mcr_rts : ℕ
  pub msr_dcd : ℕ
  pub msr_dsr : ℕ
  pub msr_ri : ℕ
  pub lsr_oe : ℕ
  pub lsr_pe : ℕ
  pub lsr_fe : ℕ
  pub lsr_bi : ℕ

-- `return GB_OP_UNKNOWN_ERROR` where a driver fails
abbrev pub unknown : ℤ → ℕ
unknown ret = OpResult.unknown_error

abbrev pub succeed : List ℕ → State → ℕ × State
succeed out s = (OpResult.success, s)

-- `x & bit` as a condition
abbrev pub has_bit : ℕ → ℕ → Bool
has_bit x bit = ltb 0 (bit_and x bit)

-- `x |= bit`, or `x &= ~bit`
abbrev pub put_bit : Bool → ℕ → ℕ → ℕ
put_bit true bit x = bit_or x bit
put_bit false bit x = x - bit_and x bit

module _ ⦃u : UartConstants⦄ where
  -- the two switches of gb_uart_set_line_coding
  abbrev pub stopbit_of : ℕ → Option ℕ
  stopbit_of format =
      if format == 0
      then some u.one_stop_bit
      else if format == 1
      then some u.one5_stop_bits
      else if format == 2
      then some u.two_stop_bits
      else none

  abbrev pub parity_of : ℕ → Option ℕ
  parity_of parity =
      if parity == 0
      then some u.no_parity
      else if parity == 1
      then some u.odd_parity
      else if parity == 2
      then some u.even_parity
      else if parity == 3
      then some u.mark_parity
      else if parity == 4
      then some u.space_parity
      else none

  abbrev pub modem_ctrl_of : ℕ → ℕ → ℕ
  modem_ctrl_of control modem_ctrl =
      put_bit (has_bit control 0x02) u.mcr_rts (put_bit (has_bit control 0x01) u.mcr_dtr modem_ctrl)

  module _ ⦃b : Board⦄ where
    unfoldable pub gb_uart_send_data : ℕ → State → ℕ × State
    gb_uart_send_data p =
        with_request 2
          (λ payload s.
            let size = le16_at payload 0 in
            if ltb (payload_size p s) (2 + size)
            then (OpResult.invalid, s)
            else with_dev p
                (λ dev.
                  call_driver dev DriverFunction.uart_start_transmitter (bytes_at payload 2 size)
                    unknown succeed)
                s)
          p

    -- behind the switches; flow control is on
    abbrev pub configure : ℕ → ℕ → Option ℕ → Option ℕ → ℕ → State → ℕ × State
    configure p baud none parity databits s = (OpResult.invalid, s)
    configure p baud (some stopbit) none databits s = (OpResult.invalid, s)
    configure p baud (some stopbit) (some parity) databits s =
        if ltb 8 databits || ltb databits 5
        then (OpResult.invalid, s)
        else with_dev p
            (λ dev.
              call_driver dev DriverFunction.uart_set_configuration
                (baud ∷ parity ∷ databits ∷ stopbit ∷ 1 ∷ []) unknown succeed)
            s

    unfoldable pub gb_uart_set_line_coding : ℕ → State → ℕ × State
    gb_uart_set_line_coding p =
        with_request 7
          (λ payload.
            configure p (le32_at payload 0) (stopbit_of (byte payload 4))
              (parity_of (byte payload 5)) (byte payload 6))
          p

    unfoldable pub gb_uart_set_control_line_state : ℕ → State → ℕ × State
    gb_uart_set_control_line_state p =
        with_request 1
          (λ payload. with_dev p (λ dev.
            call_driver dev DriverFunction.uart_get_modem_ctrl [] unknown (λ out.
              call_driver dev DriverFunction.uart_set_modem_ctrl
                (modem_ctrl_of (byte payload 0) (byte out 0) ∷ []) unknown succeed)))
          p

    unfoldable pub gb_uart_send_break : ℕ → State → ℕ × State
    gb_uart_send_break p =
        with_request 1
          (λ payload. with_dev p (λ dev.
            call_driver dev DriverFunction.uart_set_break (byte payload 0 ∷ []) unknown succeed))
          p

    module _ ⦃w : World⦄ where
      -- GB_UART_VERSION_MAJOR and GB_UART_VERSION_MINOR
      unfoldable pub gb_uart_protocol_version : ℕ → State → ℕ × State
      gb_uart_protocol_version = version_response 0 1

      -- gb_uart_handlers, by the GB_UART_PROTOCOL_* codes
      abbrev pub gb_uart_handlers : Table
      gb_uart_handlers =
          (0x01, gb_uart_protocol_version)
          ∷ (0x02, gb_uart_send_data)
          ∷ (0x04, gb_uart_set_line_coding)
          ∷ (0x05, gb_uart_set_control_line_state)
          ∷ (0x06, gb_uart_send_break)
          ∷ []
