-- ===== src/OpResult.antt =====
-- `enum gb_operation_result` of include/greybus/greybus.h, by its one-byte codes on the wire.
use Prim.Native.Nat.{ℕ}

abbrev pub success : ℕ
success = 0x00

abbrev pub interrupted : ℕ
interrupted = 0x01

abbrev pub timeout : ℕ
timeout = 0x02

abbrev pub no_memory : ℕ
no_memory = 0x03

abbrev pub protocol_bad : ℕ
protocol_bad = 0x04

abbrev pub overflow : ℕ
overflow = 0x05

abbrev pub invalid : ℕ
invalid = 0x06

abbrev pub retry : ℕ
retry = 0x07

abbrev pub nonexistent : ℕ
nonexistent = 0x08

abbrev pub unknown_error : ℕ
unknown_error = 0xfe

abbrev pub internal : ℕ
internal = 0xff
