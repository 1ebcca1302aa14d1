-- ===== src/Protocols.antt =====
-- What the protocol drivers of subsys/greybus share: reading a request, writing a response, and
-- the device of a cport. A handler takes the address of its operation and the core's state, and
-- returns a gb_operation_result code. What the drivers of Zephyr answer is a parameter.
pub mod Tidy
pub mod Gpio
pub mod I2c
pub mod Pwm
pub mod Answers
pub mod Room
pub mod Control
pub mod Loopback
pub mod Board
pub mod Uart
pub mod Lights
pub mod PowerSupply
pub mod Spi
pub mod Tame
use greybus_for_zephyr.Base.{
  ℕ, zero, suc, ◌+◌, ◌-◌, ◌*◌, ◌/◌, ◌%◌, ◌^◌, Bool, true, false, Option, none, some, List, [], ◌∷◌,
  get_elem?, set, length, ◌==◌, if◌then◌else◌, ℤ, pos, negsuc, ltb,
}
use greybus_for_zephyr.OpResult
use greybus_for_zephyr.Core.{Operation, Bundle, State, World, DeviceCall, Event, set_op, log}
use greybus_for_zephyr.Core.Lifecycle.{
  gb_operation_alloc_response, gb_operation_get_request_payload_size,
}

-- Byte `i` of a payload. Behind its end C would read whatever stands there.
abbrev pub byte : List ℕ → ℕ → ℕ
byte payload i = elim (get_elem? payload i) [ none ↦ 0 | some b ↦ b ]

-- the payload of an operation's request, and its size; of one that is missing, nothing
abbrev pub payload_of : ℕ → State → List ℕ
payload_of p s = elim (s.ops p) [ none ↦ [] | some op ↦ op.request_buffer.payload ]

abbrev pub payload_size : ℕ → State → ℕ
payload_size p s = gb_operation_get_request_payload_size (s.ops p)

abbrev pub le16_at : List ℕ → ℕ → ℕ
le16_at payload i = byte payload i + 256 * byte payload (i + 1)

abbrev pub le32_at : List ℕ → ℕ → ℕ
le32_at payload i = le16_at payload i + 2 ^ 16 * le16_at payload (i + 2)

abbrev pub le64_at : List ℕ → ℕ → ℕ
le64_at payload i = le32_at payload i + 2 ^ 32 * le32_at payload (i + 4)

-- `n` bytes of a payload from the i-th on
abbrev pub bytes_at : List ℕ → ℕ → ℕ → List ℕ
bytes_at payload i zero = []
bytes_at payload i (suc n) = byte payload i ∷ bytes_at payload (suc i) n

-- the bytes of a little-endian number, the lowest first
abbrev pub le_bytes : ℕ → ℕ → List ℕ
le_bytes zero n = []
le_bytes (suc k) n = n % 256 ∷ le_bytes k (n / 256)

-- memcpy to the i-th byte of a payload and those behind it; what is written behind its end is
-- lost here, where C would write to the memory there.
abbrev pub write_at : List ℕ → ℕ → List ℕ → List ℕ
write_at [] i bs = []
write_at (x ∷ xs) zero [] = x ∷ xs
write_at (x ∷ xs) zero (b ∷ bs) = b ∷ write_at xs zero bs
write_at (x ∷ xs) (suc i) bs = x ∷ write_at xs i bs

-- an `int` that is stored in a byte
abbrev pub byte_of : ℤ → ℕ
byte_of (pos n) = n % 256
byte_of (negsuc n) = 255 - n % 256

-- a call of a device driver
abbrev pub call_device : ℕ → DeviceCall → State → State
call_device dev c s = log (Event.called dev c) s

-- Byte `i` of the response's payload is written.
abbrev pub put_in : ℕ → ℕ → Operation → Operation
put_in i b op = record op {
  response_buffer = elim op.response_buffer [
    | none ↦ none
    | some resp ↦ some (record resp { payload = set resp.payload i b })
  ];
}

unfoldable pub put_byte : ℕ → ℕ → ℕ → State → State
put_byte p i b s = elim (s.ops p) [ none ↦ s | some op ↦ set_op p (put_in i b op) s ]

-- Bytes of the response's payload are written, from the i-th on.
abbrev pub put_in_at : ℕ → List ℕ → Operation → Operation
put_in_at i bs op = record op {
  response_buffer = elim op.response_buffer [
    | none ↦ none
    | some resp ↦ some (record resp { payload = write_at resp.payload i bs })
  ];
}

unfoldable pub put_bytes : ℕ → ℕ → List ℕ → State → State
put_bytes p i bs s = elim (s.ops p) [ none ↦ s | some op ↦ set_op p (put_in_at i bs op) s ]

-- The first bytes of the payload of an operation's request are written.
abbrev pub fill_request : List ℕ → Operation → Operation
fill_request bytes op = record op {
  request_buffer = record (op.request_buffer) {
    payload = write_at op.request_buffer.payload 0 bytes;
  };
}

unfoldable pub put_request_bytes : ℕ → List ℕ → State → State
put_request_bytes p bytes s = elim (s.ops p) [
  | none ↦ s
  | some op ↦ set_op p (fill_request bytes op) s
]

-- The check that a request has `len` bytes of payload at least.
unfoldable pub with_request : ℕ → (List ℕ → State → ℕ × State) → ℕ → State → ℕ × State
with_request len k p s =
    if ltb (payload_size p s) len then (OpResult.invalid, s) else k (payload_of p s) s

-- What `bundle->dev[cport_idx]` is for an operation: there may be no operation or bundle, which
-- the handlers do not check, or no device, or a device and the request's payload.
pub data Lookup : Type 0 where
  dangling no_device : Lookup
  device : ℕ → Operation → Lookup

-- `operation->cport - bundle->cport_start`, of `unsigned int`s
abbrev pub cport_idx : ℕ → Bundle → ℕ
cport_idx cport bundle = (cport + 2 ^ 32 - bundle.cport_start) % 2 ^ 32

unfoldable pub device_of : ℕ → State → Lookup
device_of p s = elim (s.ops p) [
  | none ↦ Lookup.dangling
  | some op ↦ elim op.bundle [
    | none ↦ Lookup.dangling
    | some b ↦ elim (s.bundles b) [
      | none ↦ Lookup.dangling
      | some bundle ↦ elim (bundle.devices (cport_idx op.cport bundle)) [
        | none ↦ Lookup.no_device
        | some dev ↦ Lookup.device dev op
      ]
    ]
  ]
]

-- A table of handlers by request type, and the handler that the core finds in it for a type; the
-- core answers GB_OP_INVALID itself where there is none.
abbrev pub Table : Type 0
Table = List (ℕ × (ℕ → State → ℕ × State))

abbrev pub handle : Table → ℕ → ℕ → State → ℕ × State
handle [] type p s = (OpResult.invalid, s)
handle ((t, f) ∷ table) type p s = if type == t then f p s else handle table type p s

-- `response` is NULL or not
abbrev pub on_response_buffer : Bool × State → (State → ℕ × State) → ℕ × State
on_response_buffer (false, s) k = (OpResult.no_memory, s)
on_response_buffer (true, s) k = k s

module _ ⦃w : World⦄ where
  -- gb_operation_alloc_response of `size` bytes, with the check that follows it everywhere
  abbrev pub with_response : ℕ → ℕ → (State → ℕ × State) → State → ℕ × State
  with_response p size k s = on_response_buffer (gb_operation_alloc_response p size s) k

  -- the handlers of the version requests: both numbers go into the response
  unfoldable pub version_response : ℕ → ℕ → ℕ → State → ℕ × State
  version_response major minor p s =
      with_response p 2 (λ s'. (OpResult.success, put_byte p 1 minor (put_byte p 0 major s'))) s

  -- A response of some bytes, all of which are written.
  abbrev pub respond : ℕ → List ℕ → State → ℕ × State
  respond p bs s = with_response p (length bs) (λ s'. (OpResult.success, put_bytes p 0 bs s')) s
