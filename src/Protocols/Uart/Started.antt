-- ===== src/Protocols/Uart/Started.antt =====
-- What gb_uart_init leaves when it succeeds (subsys/greybus/uart.c).
use greybus_for_zephyr.Base.{ℕ, ◌≤◌, ◌≡◌, Option, none, some, [], ℤ}
use greybus_for_zephyr.Errno.{Errno}
use greybus_for_zephyr.Core.{State}
use greybus_for_zephyr.Protocols.Board.{Board}
use greybus_for_zephyr.Protocols.Uart.Channel.{count}
use greybus_for_zephyr.Protocols.Uart.Setup.{Setup}

-- Nothing was received, and the driver does not receive.
pub record IsBlank (x : Setup) : Type 0 where
  pub no_data : x.info.data_queue ≡ []
  pub idle : x.info.receiving ≡ none

-- Nor is a free node in two places.
pub record IsFresh (x : Setup) : Type 0 where
  pub blank : IsBlank x
  pub once : (k : ℕ) → count k x.info.free_queue ≤ 1

-- What a result leaves, if it leaves a port, is fresh.
pub record LeavesFresh (r : ℤ × Option Setup × State) : Type 0 where
  pub leaves : (x : Setup) → r.1 ≡ some x → IsFresh x
