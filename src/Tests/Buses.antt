-- ===== src/Tests/Buses.antt =====
-- A board with one SPI controller: the mapping of its cport, and transfers.
use greybus_for_zephyr.Base.{
  ℕ, zero, suc, Option, none, ◌≡◌, ◌↔◌, refl, true, some, List, [], ◌∷◌, pos, arith,
}
use greybus_for_zephyr.Core.{Operation, Bundle, State, Buffer}
use greybus_for_zephyr.Platform.{
  MapEntry, gb_cport_to_device, gb_device_to_cport, gb_add_cport_device_mapping, is_mapped,
}
use greybus_for_zephyr.Platform.Mapping.{Mapped, both_ways}
use greybus_for_zephyr.Protocols.Spi.{Spi}
use greybus_for_zephyr.Protocols.Spi.Slots.{Slot, buf_set, tx_bufs, no_buf}
use greybus_for_zephyr.Tests.Samples.{
  posix, posix-IsPositive, fine_world, ping, operation_of, state_of,
}

-- Cport 3 is device 7's; the second registration finds both taken.
abbrev board_map : List MapEntry
board_map = record { cport = 3; dev = 7 } ∷ []

board_map-Mapped : Mapped board_map
unfolding gb_add_cport_device_mapping is_mapped
board_map-Mapped = Mapped.add true 3 (some 8) (Mapped.add true 3 (some 7) Mapped.start)

both_ways_example :
    (gb_cport_to_device 3 board_map ≡ some 7) ↔ (gb_device_to_cport 7 board_map ≡ pos 3)
both_ways_example = both_ways posix-IsPositive board_map board_map-Mapped 3 7 (omega arith)

instance abbrev pub small_spi : Spi
small_spi = record {
  map = board_map;
  pairs = record { a = 7; b = 9 } ∷ [];
  config_of = λ dev. record {
    ctrl_rsp = 128 ∷ 100000 ∷ 1000000 ∷ 0 ∷ 0 ∷ 1 ∷ [];
    num_peripherals = 1;
    periph_rsp = λ cs. 0 ∷ 8 ∷ 1000000 ∷ 0 ∷ [];
    cs_port = λ cs. true;
  };
  transceive = λ trace dev config tx rx. pos 0;
  fill = λ trace dev config tx rx payload. payload;
}

-- two descriptors: three bytes are read, and then two written
abbrev read_then_write : List ℕ
read_then_write =
    0 ∷ 0 ∷ 2 ∷ 0 ∷ 0 ∷ 0 ∷ 0 ∷ 0 ∷ 3 ∷ 0 ∷ 0 ∷ 0 ∷ 0 ∷ 0 ∷ 0 ∷ 8 ∷ 1 ∷ 0 ∷ 0 ∷ 0 ∷ 0 ∷ 2 ∷ 0 ∷ 0
    ∷ 0 ∷ 0 ∷ 0 ∷ 0 ∷ 8 ∷ 2 ∷ 65 ∷ 66 ∷ []

abbrev two_slots : List Slot
two_slots =
    record { tx = no_buf; rx = record { buf = some (Buffer.in_response 0); len = 3 } }
    ∷ record { tx = record { buf = some (Buffer.in_request 30); len = 2 }; rx = no_buf }
    ∷ []

-- operation 0 is the transfer, of device 7
abbrev spi_request : ℕ → Option Operation
spi_request zero = some (record (operation_of 1 none) {
  request_buffer = record ping { size = 40; payload = read_then_write };
  bundle = some 0;
})
spi_request (suc p) = none

abbrev spi_slot : ℕ → Option Bundle
spi_slot zero =
    some (record { id = 0; cport_start = 0; dev = 1; devices = λ i. some 7; priv = none })
spi_slot (suc b) = none

abbrev spi_asked : State
spi_asked = record (state_of spi_request) { bundles = spi_slot }

-- The set counts one buffer to write, and its first one is NULL: the two bytes are not sent.
write_is_lost : buf_set (tx_bufs two_slots) ≡ no_buf ∷ []
write_is_lost = refl
