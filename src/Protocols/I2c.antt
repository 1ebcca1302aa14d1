-- ===== src/Protocols/I2c.antt =====
-- The I2C protocol: subsys/greybus/i2c.c, with the layout of subsys/greybus/i2c-gb.h.
use greybus_for_zephyr.Base.{
  ℕ, zero, suc, ◌+◌, ◌-◌, ◌*◌, ◌/◌, ◌%◌, ◌^◌, Bool, true, false, not, Option, none, some, List, [],
  ◌∷◌, ◌==◌, if◌then◌else◌, ℤ, pos, neg, ltb,
}
use greybus_for_zephyr.Errno.{Errno, gb_errno_to_op_result}
use greybus_for_zephyr.OpResult
use greybus_for_zephyr.Core.{
  Operation, Bundle, State, World, DeviceCall, I2cMsg, Buffer, Event, set_op, update, log,
}
use greybus_for_zephyr.Core.Lifecycle.{gb_operation_get_request_payload_size}
use greybus_for_zephyr.Platform.{MapEntry, gb_cport_to_device}
use greybus_for_zephyr.Protocols.{
  Table, Lookup, byte, le16_at, call_device, cport_idx, device_of, put_byte, version_response,
  with_response,
}
pub mod Quiet
pub mod Reads
pub mod Buffers

-- Zephyr's I2C drivers: what i2c_transfer returns, and what it makes of the response's payload.
pub record I2c : Type 0 where
  pub transfer : List Event → ℕ → List I2cMsg → ℕ → ℤ
  pub fill : List Event → ℕ → List I2cMsg → ℕ → List ℕ → List ℕ
  pub map : List MapEntry

-- `struct gb_i2c_transfer_desc`; `read_op` is the bit GB_I2C_M_RD, the lowest, of its flags.
pub record Desc : Type 0 where
  pub addr : ℕ
  pub read_op : Bool
  pub size : ℕ

-- sizeof(struct gb_i2c_transfer_req), sizeof(struct gb_i2c_transfer_desc)
abbrev pub req_len : ℕ
req_len = 2

abbrev pub desc_len : ℕ
desc_len = 6

-- `request->desc[i]`
abbrev pub desc_at : List ℕ → ℕ → Desc
desc_at payload i = record {
  addr = le16_at payload (req_len + desc_len * i);
  read_op = le16_at payload (req_len + desc_len * i + 2) % 2 == 1;
  size = le16_at payload (req_len + desc_len * i + 4);
}

-- `n` descriptors from the i-th on
abbrev pub descs_from : List ℕ → ℕ → ℕ → List Desc
descs_from payload i zero = []
descs_from payload i (suc n) = desc_at payload i ∷ descs_from payload (suc i) n

-- the first loop: the bytes to read, in a `uint32_t`
abbrev pub size_from : ℕ → List Desc → ℕ
size_from size [] = size
size_from size (d ∷ ds) = size_from (if d.read_op then (size + d.size) % 2 ^ 32 else size) ds

-- `requests[i]`
abbrev pub message_of : ℕ → ℕ → Desc → I2cMsg
message_of read_count write_data d = record {
  read = d.read_op;
  len = d.size;
  buf = if d.read_op then Buffer.in_response read_count else Buffer.in_request write_data;
}

abbrev pub cons_message : I2cMsg → Option (List I2cMsg) → Option (List I2cMsg)
cons_message msg none = none
cons_message msg (some msgs) = some (msg ∷ msgs)

-- The second loop, with `read_count` and the place of `write_data` in the request: none for an
-- address that differs from the first one's.
abbrev pub messages_from : ℕ → ℕ → ℕ → List Desc → Option (List I2cMsg)
messages_from addr read_count write_data [] = some []
messages_from addr read_count write_data (d ∷ ds) =
    let rest =
      messages_from addr (if d.read_op then read_count + d.size else read_count)
        (if d.read_op then write_data else write_data + d.size) ds in
    if d.addr == addr then cons_message (message_of read_count write_data d) rest else none

-- the descriptors of a request
abbrev pub descs_of : List ℕ → List Desc
descs_of payload = descs_from payload 0 (le16_at payload 0)

-- `addr`: the first descriptor's, or (uint16_t)-1
abbrev pub first_addr : List Desc → ℕ
first_addr [] = 0xffff
first_addr (d ∷ ds) = d.addr

abbrev pub messages_of : List ℕ → Option (List I2cMsg)
messages_of payload =
    messages_from (first_addr (descs_of payload)) 0 (req_len + desc_len * le16_at payload 0)
      (descs_of payload)

-- the payload of the response, as the transfer left it
abbrev pub filled : (List ℕ → List ℕ) → Operation → Operation
filled f op = record op {
  response_buffer = elim op.response_buffer [
    | none ↦ none
    | some resp ↦ some (record resp { payload = f resp.payload })
  ];
}

unfoldable pub fill_response : ℕ → (List ℕ → List ℕ) → State → State
fill_response p f s = elim (s.ops p) [ none ↦ s | some op ↦ set_op p (filled f op) s ]

-- GB_I2C_FUNC_I2C and the eight GB_I2C_FUNC_SMBUS_* of the response, which share no bit
abbrev pub functionality : ℕ
functionality =
    0x00000001 + 0x00020000 + 0x00040000 + 0x00080000 + 0x00100000 + 0x00200000 + 0x00400000
    + 0x04000000 + 0x08000000

module _ ⦃w : World⦄ where
  -- GB_I2C_VERSION_MAJOR and GB_I2C_VERSION_MINOR
  unfoldable pub gb_i2c_protocol_version : ℕ → State → ℕ × State
  gb_i2c_protocol_version = version_response 0 1

  -- the four bytes of `functionality`, the lowest first
  unfoldable pub gb_i2c_protocol_functionality : ℕ → State → ℕ × State
  gb_i2c_protocol_functionality p = with_response p 4 (λ s. (
    OpResult.success,
    put_byte p 3 (functionality / 2 ^ 24) (
        put_byte p 2 (functionality / 2 ^ 16 % 256)
          (put_byte p 1 (functionality / 2 ^ 8 % 256) (put_byte p 0 (functionality % 256) s))),
  ))

  module _ ⦃e : Errno⦄ ⦃i : I2c⦄ where
    -- behind the malloc: the transfer, unless the addresses differ, and the free
    abbrev pub run_messages : ℕ → ℕ → ℕ → Option (List I2cMsg) → State → ℕ × State
    run_messages dev p addr none s = (gb_errno_to_op_result (neg e.einval), log Event.freed s)
    run_messages dev p addr (some msgs) s = (
      gb_errno_to_op_result (i.transfer s.trace dev msgs addr),
      log Event.freed (
          fill_response p (i.fill s.trace dev msgs addr)
            (call_device dev (DeviceCall.i2c_transfer msgs addr) s)),
    )

    -- behind the allocation of the response
    abbrev pub transfer_messages : ℕ → ℕ → List ℕ → State → ℕ × State
    transfer_messages dev p payload s =
        let s₁ = log (Event.allocated 0) s in
        if w.malloc s.trace
        then run_messages dev p (first_addr (descs_of payload)) (messages_of payload) s₁
        else (OpResult.no_memory, s₁)

    -- The device is not checked: gb_i2c_init has seen to it.
    abbrev pub transfer_for : Lookup → ℕ → State → ℕ × State
    transfer_for Lookup.dangling p s = (OpResult.internal, s)
    transfer_for Lookup.no_device p s = (OpResult.internal, s)
    transfer_for (Lookup.device dev op) p s =
        let payload = op.request_buffer.payload in
        let req_size = gb_operation_get_request_payload_size (some op) in
        if ltb req_size req_len
        then (OpResult.invalid, s)
        else if ltb req_size (req_len + le16_at payload 0 * desc_len)
        then (OpResult.invalid, s)
        else with_response p (size_from 0 (descs_of payload)) (transfer_messages dev p payload) s

    unfoldable pub gb_i2c_protocol_transfer : ℕ → State → ℕ × State
    gb_i2c_protocol_transfer p s = transfer_for (device_of p s) p s

    abbrev pub init_code : Option ℕ → ℤ
    init_code none = neg e.eio
    init_code (some dev) = pos 0

    -- gb_i2c_init, where the bundle is that of the cport
    unfoldable pub gb_i2c_init : ℕ → ℕ → Bundle → State → ℤ × State
    gb_i2c_init cport b bundle s =
        let dev = gb_cport_to_device cport i.map in
        let slots = update bundle.devices (cport_idx cport bundle) dev in
        (
          init_code dev,
          record s { bundles = update s.bundles b (some (record bundle { devices = slots })) },
        )

    -- gb_i2c_handlers, by the GB_I2C_PROTOCOL_* codes
    abbrev pub gb_i2c_handlers : Table
    gb_i2c_handlers =
        (0x01, gb_i2c_protocol_version)
        ∷ (0x02, gb_i2c_protocol_functionality)
        ∷ (0x05, gb_i2c_protocol_transfer)
        ∷ []
