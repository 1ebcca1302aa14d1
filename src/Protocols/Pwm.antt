-- ===== src/Protocols/Pwm.antt =====
-- The PWM protocol: subsys/greybus/pwm-protocol.c, with the layout of subsys/greybus/pwm-gb.h. The
-- file takes `bundle->dev` for the device itself, where others take it for an array: here that is
-- slot 0.
use greybus_for_zephyr.Base.{
  ℕ, zero, suc, ◌+◌, ◌-◌, ◌%◌, ◌^◌, Bool, true, false, not, ◌||◌, Option, none, some, List, [], ◌∷◌,
  ◌==◌, if◌then◌else◌, ℤ, pos, neg, is_zero, ltb, leb,
}
use greybus_for_zephyr.Errno.{Errno}
use greybus_for_zephyr.OpResult
use greybus_for_zephyr.Core.{
  Operation, PwmInfo, Bundle, State, World, DeviceCall, DriverFunction, Event, update, log,
}
use greybus_for_zephyr.Protocols.{
  Table, payload_size, byte, le32_at, call_device, put_byte, version_response, with_response,
}
pub mod Quiet
pub mod Generators

-- The device driver: how many generators a device has, and what each call returns.
pub record Pwm : Type 0 where
  pub count : ℕ → ℕ
  pub ret : List Event → ℕ → DeviceCall → ℤ
  pub open_device : List Event → Option ℕ

-- What `pwm_info` and `bundle->dev` are for an operation: there may be no operation or bundle,
-- which the handlers do not check, or one of the two missing.
pub data PwmLookup : Type 0 where
  dangling missing : PwmLookup
  found : (b dev : ℕ) → Bundle → PwmInfo → Operation → PwmLookup

abbrev pub info_of : ℕ → Bundle → Operation → Option PwmInfo → Option ℕ → PwmLookup
info_of b bundle op none dev = PwmLookup.missing
info_of b bundle op (some info) none = PwmLookup.missing
info_of b bundle op (some info) (some dev) = PwmLookup.found b dev bundle info op

abbrev pub bundle_of : ℕ → Operation → Option Bundle → PwmLookup
bundle_of b op none = PwmLookup.dangling
bundle_of b op (some bundle) = info_of b bundle op bundle.priv (bundle.devices 0)

abbrev pub op_bundle : Operation → Option ℕ → State → PwmLookup
op_bundle op none s = PwmLookup.dangling
op_bundle op (some b) s = bundle_of b op (s.bundles b)

abbrev pub pwm_op : Option Operation → State → PwmLookup
pwm_op none s = PwmLookup.dangling
pwm_op (some op) s = op_bundle op op.bundle s

abbrev pub pwm_of : ℕ → State → PwmLookup
pwm_of p s = pwm_op (s.ops p) s

abbrev pub set_bundle : ℕ → Bundle → State → State
set_bundle b bundle s = record s { bundles = update s.bundles b (some bundle) }

module _ ⦃g : Pwm⦄ where
  -- A call, whose error code becomes GB_OP_UNKNOWN_ERROR.
  abbrev pub call_pwm : ℕ → DeviceCall → State → ℕ × State
  call_pwm dev call s = (
    if is_zero (g.ret s.trace dev call) then OpResult.success else OpResult.unknown_error,
    call_device dev call s,
  )

  -- The checks behind the size's, which every handler of a request for a generator has, and the
  -- call that it makes.
  abbrev pub on_generator : PwmLookup → (ℕ → List ℕ → DeviceCall) → State → ℕ × State
  on_generator PwmLookup.dangling call s = (OpResult.internal, s)
  on_generator PwmLookup.missing call s = (OpResult.unknown_error, s)
  on_generator (PwmLookup.found b dev bundle info op) call s =
      let which = byte op.request_buffer.payload 0 in
      if leb info.num_pwms which
      then (OpResult.invalid, s)
      else call_pwm dev (call which op.request_buffer.payload) s

  abbrev pub with_generator : ℕ → (ℕ → List ℕ → DeviceCall) → ℕ → State → ℕ × State
  with_generator len call p s =
      if ltb (payload_size p s) len then (OpResult.invalid, s) else on_generator (pwm_of p s) call s

  unfoldable pub gb_pwm_protocol_activate : ℕ → State → ℕ × State
  gb_pwm_protocol_activate = with_generator 1 (λ which payload. DeviceCall.pwm_activate which)

  unfoldable pub gb_pwm_protocol_deactivate : ℕ → State → ℕ × State
  gb_pwm_protocol_deactivate = with_generator 1 (λ which payload. DeviceCall.pwm_deactivate which)

  unfoldable pub gb_pwm_protocol_config : ℕ → State → ℕ × State
  gb_pwm_protocol_config =
      with_generator 9
        (λ which payload. DeviceCall.pwm_config which (le32_at payload 1) (le32_at payload 5))

  unfoldable pub gb_pwm_protocol_polarity : ℕ → State → ℕ × State
  gb_pwm_protocol_polarity =
      with_generator 2 (λ which payload. DeviceCall.pwm_set_polarity which (byte payload 1))

  unfoldable pub gb_pwm_protocol_enable : ℕ → State → ℕ × State
  gb_pwm_protocol_enable = with_generator 1 (λ which payload. DeviceCall.pwm_enable which)

  unfoldable pub gb_pwm_protocol_disable : ℕ → State → ℕ × State
  gb_pwm_protocol_disable = with_generator 1 (λ which payload. DeviceCall.pwm_disable which)

  module _ ⦃w : World⦄ where
    -- GB_PWM_VERSION_MAJOR and GB_PWM_VERSION_MINOR
    unfoldable pub gb_pwm_protocol_version : ℕ → State → ℕ × State
    gb_pwm_protocol_version = version_response 0 1

    -- behind the allocation of the count's response: a count of 1 to 256 is kept, and stored in
    -- a byte less one
    abbrev pub store_count : ℕ → ℕ → ℕ → Bundle → PwmInfo → State → ℕ × State
    store_count p b dev bundle info s =
        let s₁ = call_device dev DeviceCall.pwm_get_count s in
        let count = g.count dev in
        if not (is_zero (g.ret s.trace dev DeviceCall.pwm_get_count))
        then (OpResult.unknown_error, s₁)
        else if count == 0 || ltb 256 count
        then (OpResult.unknown_error, s₁)
        else (
          OpResult.success,
          put_byte p 0 ((count % 256 + 255) % 256)
              (set_bundle b (record bundle { priv = some (record info { num_pwms = count }) }) s₁),
        )

    abbrev pub count_for : PwmLookup → ℕ → State → ℕ × State
    count_for PwmLookup.dangling p s = (OpResult.internal, s)
    count_for PwmLookup.missing p s = (OpResult.unknown_error, s)
    count_for (PwmLookup.found b dev bundle info op) p s =
        with_response p 1 (store_count p b dev bundle info) s

    unfoldable pub gb_pwm_protocol_count : ℕ → State → ℕ × State
    gb_pwm_protocol_count p s = count_for (pwm_of p s) p s

    -- gb_pwm_handlers, by the GB_PWM_PROTOCOL_* codes
    abbrev pub gb_pwm_handlers : Table
    gb_pwm_handlers =
        (0x01, gb_pwm_protocol_version)
        ∷ (0x02, gb_pwm_protocol_count)
        ∷ (0x03, gb_pwm_protocol_activate)
        ∷ (0x04, gb_pwm_protocol_deactivate)
        ∷ (0x05, gb_pwm_protocol_config)
        ∷ (0x06, gb_pwm_protocol_polarity)
        ∷ (0x07, gb_pwm_protocol_enable)
        ∷ (0x08, gb_pwm_protocol_disable)
        ∷ []

    module _ ⦃e : Errno⦄ where
      -- gb_pwm_init behind the zalloc, with what device_open returns
      abbrev pub open_pwm : ℕ → ℕ → Bundle → Option ℕ → State → ℤ × State
      open_pwm cport b bundle none s = (
        neg e.eio,
        log Event.freed (set_bundle b (record bundle { devices = update bundle.devices 0 none }) s),
      )
      open_pwm cport b bundle (some dev) s = (
        pos 0,
        set_bundle b
            (record bundle {
              devices = update bundle.devices 0 (some dev);
              priv = some (record { cport = cport % 2 ^ 16; dev_id = 0; num_pwms = 0 });
            })
            s,
      )

      -- gb_pwm_init, where the bundle is that of the cport
      unfoldable pub gb_pwm_init : ℕ → ℕ → Bundle → State → ℤ × State
      gb_pwm_init cport b bundle s =
          let s₁ = log (Event.allocated 0) s in
          if w.malloc s.trace
          then open_pwm cport b bundle (g.open_device s₁.trace) s₁
          else (neg e.enomem, s₁)

-- device_close, of a device that is open
abbrev pub close : Option ℕ → State → State
close none s = s
close (some dev) s = call_device dev (DeviceCall.driver DriverFunction.device_close []) s

-- gb_pwm_exit: the bundle keeps its `priv`, which was freed
unfoldable pub gb_pwm_exit : Bundle → State → State
gb_pwm_exit bundle s =
    let s₁ = close (bundle.devices 0) s in
    elim bundle.priv [ none ↦ s₁ | some info ↦ log Event.freed s₁ ]
