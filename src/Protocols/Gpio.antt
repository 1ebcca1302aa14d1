-- ===== src/Protocols/Gpio.antt =====
-- The GPIO protocol: subsys/greybus/gpio.c, with the codes of subsys/greybus/gpio-gb.h.
use greybus_for_zephyr.Base.{
  ℕ, zero, suc, ◌+◌, ◌-◌, ◌%◌, ◌/◌, ◌^◌, Bool, true, false, not, Option, none, some, List, [], ◌∷◌,
  ◌==◌, if◌then◌else◌, ℤ, pos, negsuc, neg, negate, is_zero, is_neg, magnitude, ltb, leb, set,
}
use Prim.Native.Nat.{bit_or}
use greybus_for_zephyr.Errno.{Errno, gb_errno_to_op_result}
use greybus_for_zephyr.OpResult
use greybus_for_zephyr.Handlers.{Handler}
use greybus_for_zephyr.Core.{
  Message, Operation, Bundle, State, World, DeviceCall, Event, set_op, update, log,
}
use greybus_for_zephyr.Core.Lifecycle.{
  gb_operation_create, gb_operation_destroy, gb_operation_get_request_payload_size,
}
use greybus_for_zephyr.Core.Send.{gb_operation_send_request_nowait}
use greybus_for_zephyr.Platform.{MapEntry, gb_cport_to_device, gb_device_to_cport}
use greybus_for_zephyr.Protocols.{
  Table, Lookup, byte, le16_at, byte_of, call_device, cport_idx, device_of, put_byte,
  version_response, with_response,
}
pub mod Pins

-- Zephyr's GPIO drivers and constants, and the devicetree's cports (subsys/greybus/platform):
-- `port_pin_mask` has a bit for each pin of a device.
pub record Gpio : Type 0 where
  pub port_pin_mask : ℕ → ℕ
  pub is_input : List Event → ℕ → ℕ → Bool
  pub get : List Event → ℕ → ℕ → ℤ
  pub configure : List Event → ℕ → ℕ → ℕ → ℤ
  pub set_pin : List Event → ℕ → ℕ → ℕ → ℤ
  pub interrupt_configure : List Event → ℕ → ℕ → ℕ → ℤ
  pub map : List MapEntry
  pub input : ℕ
  pub output : ℕ
  pub debounce : ℕ
  pub int_disable : ℕ
  pub int_enable : ℕ
  pub int_edge_rising : ℕ
  pub mode_disabled : ℕ
  pub mode_edge : ℕ
  pub mode_level : ℕ
  pub trig_low : ℕ
  pub trig_high : ℕ
  pub trig_both : ℕ

-- GB_GPIO_VERSION_MAJOR, GB_GPIO_VERSION_MINOR
abbrev pub version_major : ℕ
version_major = 0

abbrev pub version_minor : ℕ
version_minor = 1

-- GB_GPIO_TYPE_IRQ_EVENT
abbrev pub type_irq_event : ℕ
type_irq_event = 0x0e

-- the first byte of the payload of the request at an address
unfoldable pub put_request : ℕ → ℕ → State → State
put_request p b s = elim (s.ops p) [
  | none ↦ s
  | some op ↦
      set_op p
        (record op {
          request_buffer = record (op.request_buffer) {
            payload = set op.request_buffer.payload 0 b;
          };
        })
        s
]

-- POPCOUNT, of the lowest `n` bits
unfoldable pub popcount : ℕ → ℕ → ℕ
popcount zero mask = 0
popcount (suc n) mask = mask % 2 + popcount n (mask / 2)

-- Bit `i` of a mask is set.
unfoldable pub pin_bit : ℕ → ℕ → Bool
pin_bit mask i = mask / 2 ^ i % 2 == 1

module _ ⦃g : Gpio⦄ where
  -- POPCOUNT(cfg->port_pin_mask), of 32 bits
  unfoldable pub pin_count : ℕ → ℕ
  pin_count dev = popcount 32 (g.port_pin_mask dev)

  -- The checks that every handler of a request for a pin begins with, in its order: a device, a
  -- request of `len` bytes at least, and a pin below the number of the device's pins.
  abbrev pub on_pin : Lookup → ℕ → (ℕ → ℕ → List ℕ → State → ℕ × State) → State → ℕ × State
  on_pin Lookup.dangling len k s = (OpResult.internal, s)
  on_pin Lookup.no_device len k s = (OpResult.invalid, s)
  on_pin (Lookup.device dev op) len k s =
      let which = byte op.request_buffer.payload 0 in
      if ltb (gb_operation_get_request_payload_size (some op)) len
      then (OpResult.invalid, s)
      else if leb (pin_count dev) which
      then (OpResult.invalid, s)
      else k dev which op.request_buffer.payload s

  abbrev pub with_pin : ℕ → (ℕ → ℕ → List ℕ → State → ℕ × State) → ℕ → State → ℕ × State
  with_pin len k p s = on_pin (device_of p s) len k s

  abbrev pub pin_configure : ℕ → ℕ → ℕ → State → ℤ × State
  pin_configure dev which flags s = (
    g.configure s.trace dev which flags,
    call_device dev (DeviceCall.gpio_pin_configure which flags) s,
  )

  abbrev pub pin_set : ℕ → ℕ → ℕ → State → ℤ × State
  pin_set dev which value s =
      (g.set_pin s.trace dev which value, call_device dev (DeviceCall.gpio_pin_set which value) s)

  abbrev pub pin_interrupt_configure : ℕ → ℕ → ℕ → State → ℤ × State
  pin_interrupt_configure dev which flags s = (
    g.interrupt_configure s.trace dev which flags,
    call_device dev (DeviceCall.gpio_pin_interrupt_configure which flags) s,
  )

  -- gb_gpio_activate and gb_gpio_deactivate: Zephyr has neither
  unfoldable pub gb_gpio_activate : ℕ → State → ℕ × State
  gb_gpio_activate = with_pin 1 (λ dev which payload s. (OpResult.success, s))

  unfoldable pub gb_gpio_deactivate : ℕ → State → ℕ × State
  gb_gpio_deactivate = with_pin 1 (λ dev which payload s. (OpResult.success, s))

  module _ ⦃w : World⦄ where
    unfoldable pub gb_gpio_protocol_version : ℕ → State → ℕ × State
    gb_gpio_protocol_version = version_response version_major version_minor

    -- The count is taken behind the allocation; on 0 the response stays as it is.
    abbrev pub count_pins : Lookup → ℕ → State → ℕ × State
    count_pins Lookup.dangling p s = (OpResult.internal, s)
    count_pins Lookup.no_device p s = (OpResult.invalid, s)
    count_pins (Lookup.device dev op) p s =
        let count = pin_count dev in
        with_response p 1
          (λ s'.
            if count == 0
            then (OpResult.unknown_error, s')
            else (OpResult.success, put_byte p 0 (count - 1) s'))
          s

    unfoldable pub gb_gpio_line_count : ℕ → State → ℕ × State
    gb_gpio_line_count p s = count_pins (device_of p s) p s

    unfoldable pub gb_gpio_get_direction : ℕ → State → ℕ × State
    gb_gpio_get_direction p =
        with_pin 1
          (λ dev which payload. with_response p 1 (λ s.
            let dir = g.is_input s.trace dev which in
            (
              OpResult.success,
              put_byte p 0 (if dir then 0 else 1)
                  (call_device dev (DeviceCall.gpio_pin_is_input which) s),
            )))
          p

    unfoldable pub gb_gpio_get_value : ℕ → State → ℕ × State
    gb_gpio_get_value p =
        with_pin 1
          (λ dev which payload. with_response p 1 (λ s.
            let value = g.get s.trace dev which in
            (
              OpResult.success,
              put_byte p 0 (byte_of value) (call_device dev (DeviceCall.gpio_pin_get which) s),
            )))
          p

  module _ ⦃e : Errno⦄ where
    -- `return gb_errno_to_op_result(...)` of a call
    abbrev pub as_op_result : ℤ × State → ℕ × State
    as_op_result (ret, s) = (gb_errno_to_op_result ret, s)

    unfoldable pub gb_gpio_direction_in : ℕ → State → ℕ × State
    gb_gpio_direction_in =
        with_pin 1 (λ dev which payload s. as_op_result (pin_configure dev which g.input s))

    -- `-ret` on an error, and on none what comes next
    abbrev pub or_error : ℤ × State → (State → ℕ × State) → ℕ × State
    or_error (ret, s) k = if is_zero ret then k s else (gb_errno_to_op_result (negate ret), s)

    unfoldable pub gb_gpio_direction_out : ℕ → State → ℕ × State
    gb_gpio_direction_out = with_pin 2 (λ dev which payload s.
        or_error (pin_configure dev which g.output s)
          (λ s'. or_error (pin_set dev which (byte payload 1) s') (λ s''. (OpResult.success, s''))))

    unfoldable pub gb_gpio_set_value : ℕ → State → ℕ × State
    gb_gpio_set_value =
        with_pin 2 (λ dev which payload s. as_op_result (pin_set dev which (byte payload 1) s))

    -- `flags` is 0 but on the CC13xx and CC26xx
    unfoldable pub gb_gpio_set_debounce : ℕ → State → ℕ × State
    gb_gpio_set_debounce = with_pin 3 (λ dev which payload s.
        if ltb 0 (le16_at payload 1)
        then as_op_result (pin_configure dev which g.debounce s)
        else (OpResult.success, s))

    unfoldable pub gb_gpio_irq_mask : ℕ → State → ℕ × State
    gb_gpio_irq_mask =
        with_pin 1
          (λ dev which payload s. as_op_result (pin_interrupt_configure dev which g.int_disable s))

    unfoldable pub gb_gpio_irq_unmask : ℕ → State → ℕ × State
    gb_gpio_irq_unmask = with_pin 1 (λ dev which payload s.
        as_op_result (pin_interrupt_configure dev which (bit_or g.int_enable g.int_edge_rising) s))

    -- the switch of gb_gpio_irq_type: the mode and the trigger of a GB_GPIO_IRQ_TYPE
    unfoldable pub irq_flags : ℕ → Option ℕ
    irq_flags type =
        if type == 0
        then some (bit_or g.mode_disabled 0)
        else if type == 1
        then some (bit_or g.mode_edge g.trig_high)
        else if type == 2
        then some (bit_or g.mode_edge g.trig_low)
        else if type == 3
        then some (bit_or g.mode_edge g.trig_both)
        else if type == 4
        then some (bit_or g.mode_level g.trig_high)
        else if type == 8
        then some (bit_or g.mode_level g.trig_high)
        else none

    abbrev pub set_irq : Option ℕ → ℕ → ℕ → State → ℕ × State
    set_irq none dev which s = (OpResult.invalid, s)
    set_irq (some flags) dev which s = as_op_result (pin_interrupt_configure dev which flags s)

    unfoldable pub gb_gpio_irq_type : ℕ → State → ℕ × State
    gb_gpio_irq_type =
        with_pin 2 (λ dev which payload. set_irq (irq_flags (byte payload 1)) dev which)

    abbrev pub init_code : Option ℕ → ℤ
    init_code none = neg e.eio
    init_code (some dev) = pos 0

    -- gb_gpio_init, where the bundle is that of the cport
    unfoldable pub gb_gpio_init : ℕ → ℕ → Bundle → State → ℤ × State
    gb_gpio_init cport b bundle s =
        let dev = gb_cport_to_device cport g.map in
        let slots = update bundle.devices (cport_idx cport bundle) dev in
        (
          init_code dev,
          record s { bundles = update s.bundles b (some (record bundle { devices = slots })) },
        )

    module _ ⦃w : World⦄ where
      -- the request of gb_gpio_irq_event, once it is created: the pin goes into its first byte
      abbrev pub send_event : ℕ → ℕ → Option ℕ × State → State
      send_event dev irq (none, s) = s
      send_event dev irq (some p, s) =
          let which = irq % 256 in
          let s₁ = put_request p which s in
          let s₂ = (pin_interrupt_configure dev which g.mode_disabled s₁).1 in
          gb_operation_destroy p (gb_operation_send_request_nowait p none false s₂).1

      unfoldable pub gb_gpio_irq_event : ℕ → ℕ → State → ℤ × State
      gb_gpio_irq_event irq dev s =
          let cport = gb_device_to_cport dev g.map in
          if is_neg cport then (neg e.einval, s) else (
            pos 0,
            send_event dev irq (gb_operation_create (magnitude cport) type_irq_event 1 s),
          )

      -- gb_gpio_handlers, by the GB_GPIO_TYPE_* codes
      abbrev pub gb_gpio_handlers : Table
      gb_gpio_handlers =
          (0x01, gb_gpio_protocol_version)
          ∷ (0x02, gb_gpio_line_count)
          ∷ (0x03, gb_gpio_activate)
          ∷ (0x04, gb_gpio_deactivate)
          ∷ (0x05, gb_gpio_get_direction)
          ∷ (0x06, gb_gpio_direction_in)
          ∷ (0x07, gb_gpio_direction_out)
          ∷ (0x08, gb_gpio_get_value)
          ∷ (0x09, gb_gpio_set_value)
          ∷ (0x0a, gb_gpio_set_debounce)
          ∷ (0x0b, gb_gpio_irq_type)
          ∷ (0x0c, gb_gpio_irq_mask)
          ∷ (0x0d, gb_gpio_irq_unmask)
          ∷ []
