-- ===== src/Protocols/Spi/Reads.antt =====
-- What gb_spi_protocol_transfer hands to the driver, and the response that it allocated for it
-- (subsys/greybus/spi.c).
use greybus_for_zephyr.Base.{ℕ, ◌+◌, ◌<◌, Option, none, some, List, All}
use greybus_for_zephyr.Errno.{Errno}
use greybus_for_zephyr.OpResult
use greybus_for_zephyr.Core.{SpiBuf, DeviceCall, hdr_size, size_mod}
use greybus_for_zephyr.Protocols.Spi
use greybus_for_zephyr.Protocols.Spi.Slots.{transfers_of}
use greybus_for_zephyr.Protocols.Spi.Buffers.{BufFits, spi_read_total}

abbrev pub RxFits : ℕ → Option (List SpiBuf) → Type 0
RxFits room none = Unit
RxFits room (some bufs) = All (BufFits room) bufs

-- The buffers of a transfer that are for reading lie in the first `room` bytes of a response.
abbrev pub RxInRoom : ℕ → DeviceCall → Type 0
RxInRoom room (DeviceCall.spi_transceive config tx rx) = RxFits room rx
RxInRoom room call = Unit

-- The sum of the lengths to read and the header's size do not wrap in 32 bits.
abbrev pub IsSmall : List ℕ → Type 0
IsSmall payload = spi_read_total (transfers_of payload) + hdr_size < size_mod
