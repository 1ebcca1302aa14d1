-- ===== src/Protocols/I2c/Reads.antt =====
-- What gb_i2c_protocol_transfer hands to the driver, and the response that it allocated for it
-- (subsys/greybus/i2c.c).
use greybus_for_zephyr.Base.{ℕ}
use greybus_for_zephyr.Errno.{Errno}
use greybus_for_zephyr.Core.{DeviceCall}
use greybus_for_zephyr.Protocols.I2c
use greybus_for_zephyr.Protocols.I2c.Buffers.{ReadsFit}

-- The buffers of a transfer that are for reading lie in the first `room` bytes of a response.
abbrev pub ReadsInRoom : ℕ → DeviceCall → Type 0
ReadsInRoom room (DeviceCall.i2c_transfer msgs addr) = ReadsFit room msgs
ReadsInRoom room call = Unit
