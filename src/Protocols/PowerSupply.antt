-- ===== src/Protocols/PowerSupply.antt =====
-- The power supply protocol: subsys/greybus/power_supply.c, with the layout of
-- subsys/greybus/power_supply-gb.h. What a driver writes into a structure is the list of its
-- fields, a string being 32 of them.
pub mod Quiet
use greybus_for_zephyr.Base.{
  ℕ, ◌+◌, ◌*◌, Option, none, some, List, [], ◌∷◌, ◌++◌, ℤ, pos, neg, is_zero, if◌then◌else◌,
}
use greybus_for_zephyr.Errno.{Errno, gb_errno_to_op_result}
use greybus_for_zephyr.OpResult
use greybus_for_zephyr.Core.{Bundle, State, World, DriverFunction, Event, update, log}
use greybus_for_zephyr.Protocols.{
  Table, byte, bytes_at, le_bytes, le32_at, put_bytes, with_request, with_response,
  version_response,
}
use greybus_for_zephyr.Protocols.Board.{
  Board, with_dev, call_driver, call_into, call_silently, event_callback,
}
use greybus_for_zephyr.Protocols.Pwm.{set_bundle}

-- the responses of `struct power_supply_description` and of the properties, each of which is two
-- fields
abbrev pub description : List ℕ → List ℕ
description out = bytes_at out 0 96 ++ le_bytes 2 (byte out 96) ++ byte out 97 ∷ []

abbrev pub props_desc : ℕ → List ℕ → List ℕ
props_desc properties_count out = properties_count ∷ bytes_at out 0 (2 * properties_count)

abbrev pub supplies_bytes : List ℕ → List ℕ
supplies_bytes out = byte out 0 ∷ []

module _ ⦃e : Errno⦄ ⦃b : Board⦄ where
  unfoldable pub gb_power_supply_set_property : ℕ → State → ℕ × State
  gb_power_supply_set_property p =
      with_request 6
        (λ payload. with_dev p (λ dev.
          call_driver dev DriverFunction.power_supply_set_property
            (byte payload 0 ∷ byte payload 1 ∷ le32_at payload 2 ∷ []) gb_errno_to_op_result
            (λ out s. (OpResult.success, s))))
        p

  module _ ⦃w : World⦄ where
    -- GB_POWER_SUPPLY_VERSION_MAJOR and GB_POWER_SUPPLY_VERSION_MINOR
    unfoldable pub gb_power_supply_version : ℕ → State → ℕ × State
    gb_power_supply_version = version_response 0 1

    -- event_callback, of the `struct gb_power_supply_info` of a cport
    unfoldable pub power_supply_event_callback : ℕ → ℕ → ℕ → State → ℤ × State
    power_supply_event_callback cport psy_id event =
        event_callback cport 0x07 (psy_id ∷ event ∷ []) (neg e.enomem)

    unfoldable pub gb_power_supply_get_supplies : ℕ → State → ℕ × State
    gb_power_supply_get_supplies p s =
        with_response p 1
          (with_dev p (λ dev.
            call_into p dev DriverFunction.power_supply_get_supplies [] gb_errno_to_op_result
              supplies_bytes))
          s

    -- A request that is answered with what the driver wrote: the driver is called first.
    abbrev pub get_from :
        ℕ → ℕ → DriverFunction → (List ℕ → List ℕ) → (List ℕ → List ℕ) → ℕ → State → ℕ × State
    get_from len size f args bytes p =
        with_request len
          (λ payload. with_dev p (λ dev.
            call_driver dev f (args payload) gb_errno_to_op_result
              (λ out. with_response p size (λ s. (OpResult.success, put_bytes p 0 (bytes out) s)))))
          p

    unfoldable pub gb_power_supply_get_description : ℕ → State → ℕ × State
    gb_power_supply_get_description =
        get_from 1 99 DriverFunction.power_supply_get_description (λ payload. byte payload 0 ∷ [])
          description

    unfoldable pub gb_power_supply_get_property : ℕ → State → ℕ × State
    gb_power_supply_get_property =
        get_from 2 4 DriverFunction.power_supply_get_property
          (λ payload. byte payload 0 ∷ byte payload 1 ∷ []) (λ out. le_bytes 4 (byte out 0))

    -- `descriptors` is freed, whatever comes of the handler
    abbrev pub freed : ℕ × State → ℕ × State
    freed (code, s) = (code, log Event.freed s)

    -- behind the count: the descriptors, and the response, of `size` bytes for each of them
    abbrev pub describe : ℕ → ℕ → ℕ → ℕ → ℕ → State → ℕ × State
    describe p size dev psy_id properties_count s =
        let s₁ = log (Event.allocated 0) s in
        if w.malloc s.trace
        then freed (
            call_driver dev DriverFunction.power_supply_get_prop_descriptors (psy_id ∷ [])
              gb_errno_to_op_result
              (λ out.
                with_response p (1 + properties_count * size)
                  (λ s₂. (OpResult.success, put_bytes p 0 (props_desc properties_count out) s₂)))
              s₁)
        else (OpResult.no_memory, s₁)

    -- `size` is that of the driver's `struct power_supply_props_desc`
    unfoldable pub gb_power_supply_get_prop_descriptors : ℕ → ℕ → State → ℕ × State
    gb_power_supply_get_prop_descriptors size p =
        with_request 1
          (λ payload. with_dev p (λ dev.
            call_driver dev DriverFunction.power_supply_get_properties_count (byte payload 0 ∷ [])
              gb_errno_to_op_result (λ out. describe p size dev (byte payload 0) (byte out 0))))
          p

    -- gb_power_supply_handlers, by the GB_POWER_SUPPLY_TYPE_* codes
    abbrev pub gb_power_supply_handlers : ℕ → Table
    gb_power_supply_handlers size =
        (0x01, gb_power_supply_version)
        ∷ (0x02, gb_power_supply_get_supplies)
        ∷ (0x03, gb_power_supply_get_description)
        ∷ (0x04, gb_power_supply_get_prop_descriptors size)
        ∷ (0x05, gb_power_supply_get_property)
        ∷ (0x06, gb_power_supply_set_property)
        ∷ []

    -- behind device_open: `bundle->priv` is not set, though gb_power_supply_exit reads it
    abbrev pub open_power_supply : Option ℕ → ℕ → Bundle → State → ℤ × State
    open_power_supply none n bundle s = (
      neg e.enodev,
      log Event.freed (set_bundle n (record bundle { devices = update bundle.devices 0 none }) s),
    )
    open_power_supply (some dev) n bundle s =
        let s₁ = set_bundle n (record bundle { devices = update bundle.devices 0 (some dev) }) s in
        let ret = b.ret s₁.trace dev DriverFunction.power_supply_attach_callback [] in
        let s₂ = call_silently dev DriverFunction.power_supply_attach_callback [] s₁ in
        if is_zero ret
        then (pos 0, s₂)
        else (ret, log Event.freed (call_silently dev DriverFunction.device_close [] s₂))

    -- gb_power_supply_init, where the bundle is that of the cport
    unfoldable pub gb_power_supply_init : ℕ → Bundle → State → ℤ × State
    gb_power_supply_init n bundle s =
        let s₁ = log (Event.allocated 0) s in
        if w.malloc s.trace
        then open_power_supply (b.open_device s₁.trace) n bundle s₁
        else (neg e.enomem, s₁)

    -- gb_power_supply_exit, of a bundle with a device; 0 stands for the NULL of the callback.
    -- `bundle->priv` is NULL, as gb_power_supply_init left it: the free does nothing.
    unfoldable pub gb_power_supply_exit : ℕ → State → State
    gb_power_supply_exit dev s =
        call_silently dev DriverFunction.device_close []
          (call_silently dev DriverFunction.power_supply_attach_callback (0 ∷ []) s)
