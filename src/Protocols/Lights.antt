-- ===== src/Protocols/Lights.antt =====
-- The lights protocol: subsys/greybus/lights.c, with the layout of subsys/greybus/lights-gb.h. What
-- a driver writes into a structure is the list of its fields, a name being 32 of them.
pub mod Quiet
use greybus_for_zephyr.Base.{
  ℕ, Bool, true, false, Option, none, some, List, [], ◌∷◌, ◌++◌, ℤ, pos, neg, is_zero,
  if◌then◌else◌,
}
use greybus_for_zephyr.Errno.{Errno, gb_errno_to_op_result}
use greybus_for_zephyr.OpResult
use greybus_for_zephyr.Core.{Bundle, State, World, DriverFunction, Event, update, log}
use greybus_for_zephyr.Protocols.{
  Table, byte, bytes_at, le_bytes, le16_at, le32_at, put_bytes, with_request, with_response,
  version_response,
}
use greybus_for_zephyr.Protocols.Board.{
  Board, with_dev, call_driver, call_into, call_silently, event_callback,
}
use greybus_for_zephyr.Protocols.Pwm.{set_bundle}

-- the light and the channel that a request begins with, and what is behind them
abbrev pub light_args : List ℕ → List ℕ → List ℕ
light_args payload more = byte payload 0 ∷ byte payload 1 ∷ more

-- the responses of `struct light_config`, `struct channel_config` (brightness, flags, color, mode
-- and the two names) and `struct channel_flash_config`
abbrev pub light_config : List ℕ → List ℕ
light_config cfg = bytes_at cfg 0 33

abbrev pub channel_config : List ℕ → List ℕ
channel_config cfg =
    byte cfg 0
    ∷ (le_bytes 4 (byte cfg 1)
        ++ le_bytes 4 (byte cfg 2)
        ++ bytes_at cfg 4 32
        ++ le_bytes 4 (byte cfg 3)
        ++ bytes_at cfg 36 32)

abbrev pub channel_flash_config : List ℕ → List ℕ
channel_flash_config fcfg =
    le_bytes 4 (byte fcfg 0)
    ++ le_bytes 4 (byte fcfg 1)
    ++ le_bytes 4 (byte fcfg 2)
    ++ le_bytes 4 (byte fcfg 3)
    ++ le_bytes 4 (byte fcfg 4)
    ++ le_bytes 4 (byte fcfg 5)

abbrev pub count_bytes : List ℕ → List ℕ
count_bytes out = byte out 0 ∷ []

abbrev pub fault_bytes : List ℕ → List ℕ
fault_bytes out = le_bytes 4 (byte out 0)

module _ ⦃e : Errno⦄ ⦃b : Board⦄ where
  -- A request that sets: its size, the driver's function, and the arguments behind the channel.
  abbrev pub set_channel : ℕ → DriverFunction → (List ℕ → List ℕ) → ℕ → State → ℕ × State
  set_channel len f more p =
      with_request len
        (λ payload. with_dev p (λ dev.
          call_driver dev f (light_args payload (more payload)) gb_errno_to_op_result
            (λ out s. (OpResult.success, s))))
        p

  unfoldable pub gb_lights_set_brightness : ℕ → State → ℕ × State
  gb_lights_set_brightness =
      set_channel 3 DriverFunction.lights_set_brightness (λ payload. byte payload 2 ∷ [])

  unfoldable pub gb_lights_set_blink : ℕ → State → ℕ × State
  gb_lights_set_blink =
      set_channel 6 DriverFunction.lights_set_blink
        (λ payload. le16_at payload 2 ∷ le16_at payload 4 ∷ [])

  unfoldable pub gb_lights_set_color : ℕ → State → ℕ × State
  gb_lights_set_color =
      set_channel 6 DriverFunction.lights_set_color (λ payload. le32_at payload 2 ∷ [])

  unfoldable pub gb_lights_set_fade : ℕ → State → ℕ × State
  gb_lights_set_fade =
      set_channel 4 DriverFunction.lights_set_fade (λ payload. byte payload 2 ∷ byte payload 3 ∷ [])

  unfoldable pub gb_lights_set_flash_intensity : ℕ → State → ℕ × State
  gb_lights_set_flash_intensity =
      set_channel 6 DriverFunction.lights_set_flash_intensity (λ payload. le32_at payload 2 ∷ [])

  unfoldable pub gb_lights_set_flash_strobe : ℕ → State → ℕ × State
  gb_lights_set_flash_strobe =
      set_channel 3 DriverFunction.lights_set_flash_strobe (λ payload. byte payload 2 ∷ [])

  unfoldable pub gb_lights_set_flash_timeout : ℕ → State → ℕ × State
  gb_lights_set_flash_timeout =
      set_channel 6 DriverFunction.lights_set_flash_timeout (λ payload. le32_at payload 2 ∷ [])

  module _ ⦃w : World⦄ where
    -- GB_LIGHTS_VERSION_MAJOR and GB_LIGHTS_VERSION_MINOR
    unfoldable pub gb_lights_protocol_version : ℕ → State → ℕ × State
    gb_lights_protocol_version = version_response 0 1

    -- event_callback, for a light and an event of the `struct gb_lights_info` of a cport
    unfoldable pub lights_event_callback : ℕ → ℕ → ℕ → State → ℤ × State
    lights_event_callback cport light_id event =
        event_callback cport 0x0a (light_id ∷ event ∷ []) (neg e.eio)

    unfoldable pub gb_lights_get_lights : ℕ → State → ℕ × State
    gb_lights_get_lights p s =
        with_response p 1
          (with_dev p (λ dev.
            call_into p dev DriverFunction.lights_get_lights [] gb_errno_to_op_result count_bytes))
          s

    -- A request that asks for a structure of the driver's: sizes of both messages, the driver's
    -- function, its arguments, and the response's bytes.
    abbrev pub get_config :
        ℕ → ℕ → DriverFunction → (List ℕ → List ℕ) → (List ℕ → List ℕ) → ℕ → State → ℕ × State
    get_config len size f args bytes p =
        with_request len
          (λ payload. with_response p size (
            with_dev p (λ dev.
              call_driver dev f (args payload) gb_errno_to_op_result
                (λ out s. (OpResult.success, put_bytes p 0 (bytes out) s)))))
          p

    unfoldable pub gb_lights_get_light_config : ℕ → State → ℕ × State
    gb_lights_get_light_config =
        get_config 1 33 DriverFunction.lights_get_light_config (λ payload. byte payload 0 ∷ [])
          light_config

    unfoldable pub gb_lights_get_channel_config : ℕ → State → ℕ × State
    gb_lights_get_channel_config =
        get_config 2 77 DriverFunction.lights_get_channel_config (λ payload. light_args payload [])
          channel_config

    unfoldable pub gb_lights_get_channel_flash_config : ℕ → State → ℕ × State
    gb_lights_get_channel_flash_config =
        get_config 2 24 DriverFunction.lights_get_channel_flash_config
          (λ payload. light_args payload []) channel_flash_config

    unfoldable pub gb_lights_get_flash_fault : ℕ → State → ℕ × State
    gb_lights_get_flash_fault p =
        with_request 2
          (λ payload. with_response p 4 (
            with_dev p (λ dev.
              call_into p dev DriverFunction.lights_get_flash_fault (light_args payload [])
                gb_errno_to_op_result fault_bytes)))
          p

    -- gb_lights_handlers, by the GB_LIGHTS_TYPE_* codes
    abbrev pub gb_lights_handlers : Table
    gb_lights_handlers =
        (0x01, gb_lights_protocol_version)
        ∷ (0x02, gb_lights_get_lights)
        ∷ (0x03, gb_lights_get_light_config)
        ∷ (0x04, gb_lights_get_channel_config)
        ∷ (0x05, gb_lights_get_channel_flash_config)
        ∷ (0x06, gb_lights_set_brightness)
        ∷ (0x07, gb_lights_set_blink)
        ∷ (0x08, gb_lights_set_color)
        ∷ (0x09, gb_lights_set_fade)
        ∷ (0x0b, gb_lights_set_flash_intensity)
        ∷ (0x0c, gb_lights_set_flash_strobe)
        ∷ (0x0d, gb_lights_set_flash_timeout)
        ∷ (0x0e, gb_lights_get_flash_fault)
        ∷ []

    -- behind device_open: whether `bundle->priv` becomes the new `struct gb_lights_info`
    abbrev pub open_lights : Option ℕ → ℕ → Bundle → State → ℤ × Bool × State
    open_lights none n bundle s = (
      neg e.eio,
      false,
      log Event.freed (set_bundle n (record bundle { devices = update bundle.devices 0 none }) s),
    )
    open_lights (some dev) n bundle s =
        let s₁ = set_bundle n (record bundle { devices = update bundle.devices 0 (some dev) }) s in
        let ret = b.ret s₁.trace dev DriverFunction.lights_register_callback [] in
        let s₂ = call_silently dev DriverFunction.lights_register_callback [] s₁ in
        if is_zero ret
        then (pos 0, true, s₂)
        else (ret, false, log Event.freed (call_silently dev DriverFunction.device_close [] s₂))

    -- gb_lights_init, where the bundle is that of the cport
    unfoldable pub gb_lights_init : ℕ → Bundle → State → ℤ × Bool × State
    gb_lights_init n bundle s =
        let s₁ = log (Event.allocated 0) s in
        if w.malloc s.trace
        then open_lights (b.open_device s₁.trace) n bundle s₁
        else (neg e.enomem, false, s₁)

    -- gb_lights_exit, of a bundle with a device
    unfoldable pub gb_lights_exit : ℕ → State → State
    gb_lights_exit dev s = log Event.freed (
        call_silently dev DriverFunction.device_close []
          (call_silently dev DriverFunction.lights_unregister_callback [] s))
