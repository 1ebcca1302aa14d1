-- ===== src/Protocols/Tame.antt =====
-- The protocol drivers in the core: a world whose handlers are theirs.
use greybus_for_zephyr.Base.{ℕ, zero, suc, ◌/◌, ◌%◌, List, [], ◌∷◌, All, refl}
use greybus_for_zephyr.Errno.{Errno}
use greybus_for_zephyr.Core.{State, World, Event}
use greybus_for_zephyr.Core.Quiet.{SameRx, IsTame}
use greybus_for_zephyr.Protocols.{Table, handle}
use greybus_for_zephyr.Protocols.Tidy.{IsTidyTable, handle-IsTidy}
use greybus_for_zephyr.Protocols.Board.{Board}
use greybus_for_zephyr.Protocols.Gpio
use greybus_for_zephyr.Protocols.Gpio.Pins.{CallsOn, gpio-IsTidyTable}
use greybus_for_zephyr.Protocols.Control
use greybus_for_zephyr.Protocols.Control.Quiet.{Any, control-IsTidyTable}
use greybus_for_zephyr.Protocols.I2c
use greybus_for_zephyr.Protocols.I2c.Quiet.{i2c-IsTidyTable}
use greybus_for_zephyr.Protocols.Lights
use greybus_for_zephyr.Protocols.Lights.Quiet.{lights-IsTidyTable}
use greybus_for_zephyr.Protocols.Loopback
use greybus_for_zephyr.Protocols.Loopback.Quiet.{loopback-IsTidyTable}
use greybus_for_zephyr.Protocols.PowerSupply
use greybus_for_zephyr.Protocols.PowerSupply.Quiet.{power_supply-IsTidyTable}
use greybus_for_zephyr.Protocols.Pwm
use greybus_for_zephyr.Protocols.Pwm.Quiet.{pwm-IsTidyTable}
use greybus_for_zephyr.Protocols.Spi
use greybus_for_zephyr.Protocols.Spi.Quiet.{spi-IsTidyTable}
use greybus_for_zephyr.Protocols.Uart
use greybus_for_zephyr.Protocols.Uart.Quiet.{uart-IsTidyTable}

abbrev table_at : ℕ → List Table → Table
table_at n [] = []
table_at zero (table ∷ tables) = table
table_at (suc n) (table ∷ tables) = table_at n tables

-- A table whose requests leave the receiving sides alone.
abbrev IsQuiet : Table → Type 0
IsQuiet table = (type p : ℕ) (s : State) → SameRx s (handle table type p s).1

table_at-IsQuiet : (n : ℕ) (tables : List Table) → All IsQuiet tables → IsQuiet (table_at n tables)
table_at-IsQuiet n [] quiet type p s c = refl
table_at-IsQuiet zero (table ∷ tables) quiet type p s c = quiet.0 type p s c
table_at-IsQuiet (suc n) (table ∷ tables) quiet type p s c =
    table_at-IsQuiet n tables quiet.1 type p s c

tidy-IsQuiet : (P : Event → Type 0) (table : Table) → IsTidyTable P table → IsQuiet table
tidy-IsQuiet P table tidy type p s = (handle-IsTidy P table type p s tidy).same_rx

module _ ⦃w : World⦄ ⦃e : Errno⦄ ⦃g : Gpio.Gpio⦄ ⦃i : I2c.I2c⦄ ⦃m : Pwm.Pwm⦄ ⦃c : Control.Control⦄
    ⦃b : Board⦄ ⦃u : Uart.UartConstants⦄ ⦃spi : Spi.Spi⦄ (props_size : ℕ) where
  -- `props_size` is the size of the power supply driver's `struct power_supply_props_desc`.
  abbrev pub protocol_tables : List Table
  protocol_tables =
      Gpio.gb_gpio_handlers
      ∷ I2c.gb_i2c_handlers
      ∷ Pwm.gb_pwm_handlers
      ∷ Control.gb_control_handlers
      ∷ Loopback.gb_loopback_handlers
      ∷ Uart.gb_uart_handlers
      ∷ Lights.gb_lights_handlers
      ∷ PowerSupply.gb_power_supply_handlers props_size
      ∷ Spi.gb_spi_handlers
      ∷ []

  -- A handler's number in the core: its request type, and 256 times which of the tables it is in.
  unfoldable pub run_protocol : ℕ → ℕ → State → ℕ × State
  run_protocol f p s = handle (table_at (f / 256) protocol_tables) (f % 256) p s

  -- The same world, but for the handlers.
  abbrev pub with_protocols : World
  with_protocols = record w { run_handler = run_protocol }

  protocol_tables-IsQuiet : All IsQuiet protocol_tables
  protocol_tables-IsQuiet = (
    tidy-IsQuiet (CallsOn (λ dev which. Unit)) Gpio.gb_gpio_handlers
        (gpio-IsTidyTable (λ dev which. Unit) (λ dev which below. tt)),
    (
      tidy-IsQuiet Any I2c.gb_i2c_handlers i2c-IsTidyTable,
      (
        tidy-IsQuiet Any Pwm.gb_pwm_handlers pwm-IsTidyTable,
        (
          tidy-IsQuiet Any Control.gb_control_handlers control-IsTidyTable,
          (
            tidy-IsQuiet Any Loopback.gb_loopback_handlers loopback-IsTidyTable,
            (
              tidy-IsQuiet Any Uart.gb_uart_handlers uart-IsTidyTable,
              (
                tidy-IsQuiet Any Lights.gb_lights_handlers lights-IsTidyTable,
                (
                  tidy-IsQuiet Any (PowerSupply.gb_power_supply_handlers props_size)
                      (power_supply-IsTidyTable props_size),
                  (tidy-IsQuiet Any Spi.gb_spi_handlers spi-IsTidyTable, tt),
                ),
              ),
            ),
          ),
        ),
      ),
    ),
  )

  run_protocol-SameRx : (f p : ℕ) (s : State) → SameRx s (run_protocol f p s).1
  unfolding run_protocol
  run_protocol-SameRx f =
      table_at-IsQuiet (f / 256) protocol_tables protocol_tables-IsQuiet (f % 256)

  -- The GPIO, I2C, SPI, PWM, control, loopback, UART, lights and power supply handlers keep to
  -- what the core's theorems ask of handlers: in a world where theirs are the handlers, whatever the device
  -- drivers answer, all of them leave the receiving sides alone, if the fast handlers and the
  -- callbacks do.
  pub protocols-IsTame : IsTame w → IsTame with_protocols
  protocols-IsTame tame = record {
    handler_tame = run_protocol-SameRx;
    fast_tame = tame.fast_tame;
    callback_tame = tame.callback_tame;
  }
