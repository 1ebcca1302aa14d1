-- ===== src/Protocols/Uart/Status.antt =====
-- The thread that tells the host of the modem's status (subsys/greybus/uart.c).
use greybus_for_zephyr.Base.{
  ℕ, ◌-◌, ◌%◌, Bool, true, false, Option, none, some, [], ◌∷◌, ◌==◌, if◌then◌else◌,
}
use greybus_for_zephyr.Errno.{Errno}
use greybus_for_zephyr.Core.{State, World}
use greybus_for_zephyr.Core.Send.{gb_operation_send_request}
use greybus_for_zephyr.Protocols.{put_request_bytes}
use greybus_for_zephyr.Protocols.Uart.{UartConstants}
use greybus_for_zephyr.Protocols.Uart.Receiver.{Port, parse_ms_ls_registers}

module _ ⦃e : Errno⦄ ⦃w : World⦄ where
  -- the request that uart_status_cb_init has created, with the status in it; its result is logged
  abbrev pub tell_status : ℕ → Option ℕ → State → State
  tell_status status none s = s
  tell_status status (some p) s =
      (gb_operation_send_request p none false (put_request_bytes p (status % 256 ∷ []) s)).1

  abbrev pub update_status : ℕ → Port → Port
  update_status status port = if port.info.last_serial_state == status then port else record port {
    info = record (port.info) { last_serial_state = status };
    core = tell_status status port.info.ms_ls_operation port.core;
  }

  -- A round of uart_status_thread: none where it waits; whether it goes on.
  unfoldable pub uart_status_thread : ⦃u : UartConstants⦄ → Port → Option (Bool × Port)
  uart_status_thread port =
      let port₁ = record port {
        info = record (port.info) { status_sem = port.info.status_sem - 1 };
      } in
      if port.info.status_sem == 0
      then none
      else if port.info.thread_stop
      then some (false, port₁)
      else some (
        true,
        update_status (parse_ms_ls_registers port.info.updated_ms port.info.updated_ls) port₁,
      )
