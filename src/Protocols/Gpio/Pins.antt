-- ===== src/Protocols/Gpio/Pins.antt =====
-- Which pins the handlers of subsys/greybus/gpio.c touch.
use greybus_for_zephyr.Base.{
  ℕ, ◌<◌, ◌≡◌, true, Option, none, some, List, ℤ, All, leb, ltb, leb→lt, if◌then◌else◌, is_zero,
  negate, ◌-◌, ◌==◌,
}
use greybus_for_zephyr.Errno.{Errno, gb_errno_to_op_result}
use greybus_for_zephyr.OpResult
use greybus_for_zephyr.Core.Lifecycle.{gb_operation_get_request_payload_size}
use greybus_for_zephyr.Core.{State, World, DeviceCall, Event}
use greybus_for_zephyr.Protocols.{Lookup, handle, byte, device_of, put_byte, le16_at}
use greybus_for_zephyr.Protocols.Tidy.{
  IsTidy, Keeps, Keeps-refl, IsTidy-trans, log-IsTidy, log-Keeps, put_byte-Keeps,
  with_response-Keeps, version_response-Keeps, if-Keeps, log_put-Keeps, IsTidyTable, handle-IsTidy,
}
use greybus_for_zephyr.Protocols.Gpio

-- A call of the GPIO driver is for a pin with the property `P`.
abbrev pub IsOn : (ℕ → Type 0) → DeviceCall → Type 0
IsOn P (DeviceCall.gpio_pin_is_input which) = P which
IsOn P (DeviceCall.gpio_pin_get which) = P which
IsOn P (DeviceCall.gpio_pin_configure which flags) = P which
IsOn P (DeviceCall.gpio_pin_set which value) = P which
IsOn P (DeviceCall.gpio_pin_interrupt_configure which flags) = P which
IsOn P call = Unit

-- An event that calls the GPIO driver does so for a pin with the property, of the device called.
abbrev pub CallsOn : (ℕ → ℕ → Type 0) → Event → Type 0
CallsOn P (Event.called dev call) = IsOn (P dev) call
CallsOn P event = Unit

module _ ⦃g : Gpio.Gpio⦄ (P : ℕ → ℕ → Type 0)
    (fits : (dev which : ℕ) → which < Gpio.pin_count dev → P dev which) where
  on_pin-Keeps :
      (found : Lookup) (len : ℕ) (k : ℕ → ℕ → List ℕ → State → ℕ × State) (s : State)
      → ((dev which : ℕ) (payload : List ℕ)
          → P dev which
          → Keeps (CallsOn P) s (k dev which payload s))
      → Keeps (CallsOn P) s (Gpio.on_pin found len k s)
  on_pin-Keeps Lookup.dangling len k s tidy = Keeps-refl (CallsOn P) _ s
  on_pin-Keeps Lookup.no_device len k s tidy = Keeps-refl (CallsOn P) _ s
  on_pin-Keeps (Lookup.device dev op) len k s tidy =
      let which = byte op.request_buffer.payload 0 in
      let size = gb_operation_get_request_payload_size (some op) in
      let run = k dev which op.request_buffer.payload s in
      if-Keeps (CallsOn P) (ltb size len) (OpResult.invalid, s)
        (if leb (Gpio.pin_count dev) which then (OpResult.invalid, s) else run) s
        (λ short. Keeps-refl (CallsOn P) OpResult.invalid s)
        (λ long.
          if-Keeps (CallsOn P) (leb (Gpio.pin_count dev) which) (OpResult.invalid, s) run s
            (λ beyond. Keeps-refl (CallsOn P) OpResult.invalid s)
            (λ inside.
              tidy dev which op.request_buffer.payload (fits dev which (leb→lt _ _ inside))))

  with_pin-Keeps :
      (len : ℕ) (k : ℕ → ℕ → List ℕ → State → ℕ × State) (p : ℕ) (s : State)
      → ((dev which : ℕ) (payload : List ℕ) (t : State)
          → P dev which
          → Keeps (CallsOn P) t (k dev which payload t))
      → Keeps (CallsOn P) s (Gpio.with_pin len k p s)
  with_pin-Keeps len k p s tidy =
      on_pin-Keeps (device_of p s) len k s (λ dev which payload. tidy dev which payload s)

  activate-Keeps : (p : ℕ) (s : State) → Keeps (CallsOn P) s (Gpio.gb_gpio_activate p s)
  unfolding Gpio.gb_gpio_activate
  activate-Keeps p s =
      with_pin-Keeps 1 _ p s (λ dev which payload t below. Keeps-refl (CallsOn P) _ t)

  deactivate-Keeps : (p : ℕ) (s : State) → Keeps (CallsOn P) s (Gpio.gb_gpio_deactivate p s)
  unfolding Gpio.gb_gpio_deactivate
  deactivate-Keeps p s =
      with_pin-Keeps 1 _ p s (λ dev which payload t below. Keeps-refl (CallsOn P) _ t)

  module _ ⦃w : World⦄ where
    version-Keeps : (p : ℕ) (s : State) → Keeps (CallsOn P) s (Gpio.gb_gpio_protocol_version p s)
    unfolding Gpio.gb_gpio_protocol_version
    version-Keeps p s = version_response-Keeps (CallsOn P) (λ n. tt) 0 1 p s

    count_pins-Keeps :
        (found : Lookup) (p : ℕ) (s : State) → Keeps (CallsOn P) s (Gpio.count_pins found p s)
    count_pins-Keeps Lookup.dangling p s = Keeps-refl (CallsOn P) _ s
    count_pins-Keeps Lookup.no_device p s = Keeps-refl (CallsOn P) _ s
    count_pins-Keeps (Lookup.device dev op) p s =
        let count = Gpio.pin_count dev in
        with_response-Keeps (CallsOn P) (λ n. tt) p 1
          (λ t.
            if count == 0
            then (OpResult.unknown_error, t)
            else (OpResult.success, put_byte p 0 (count - 1) t))
          s
          (λ t.
            if-Keeps (CallsOn P) (count == 0) (OpResult.unknown_error, t)
              (OpResult.success, put_byte p 0 (count - 1) t) t
              (λ zero_count. Keeps-refl (CallsOn P) OpResult.unknown_error t)
              (λ some_count. put_byte-Keeps (CallsOn P) OpResult.success p 0 (count - 1) t))

    line_count-Keeps : (p : ℕ) (s : State) → Keeps (CallsOn P) s (Gpio.gb_gpio_line_count p s)
    unfolding Gpio.gb_gpio_line_count
    line_count-Keeps p s = count_pins-Keeps (device_of p s) p s

    get_direction-Keeps : (p : ℕ) (s : State) → Keeps (CallsOn P) s (Gpio.gb_gpio_get_direction p s)
    unfolding Gpio.gb_gpio_get_direction
    get_direction-Keeps p s = with_pin-Keeps 1 _ p s (λ dev which payload t below.
        with_response-Keeps (CallsOn P) (λ n. tt) p 1 _ t
          (λ u. log_put-Keeps (CallsOn P) _ _ p 0 _ u below))

    get_value-Keeps : (p : ℕ) (s : State) → Keeps (CallsOn P) s (Gpio.gb_gpio_get_value p s)
    unfolding Gpio.gb_gpio_get_value
    get_value-Keeps p s = with_pin-Keeps 1 _ p s (λ dev which payload t below.
        with_response-Keeps (CallsOn P) (λ n. tt) p 1 _ t
          (λ u. log_put-Keeps (CallsOn P) _ _ p 0 _ u below))

  module _ ⦃e : Errno⦄ where
    direction_in-Keeps : (p : ℕ) (s : State) → Keeps (CallsOn P) s (Gpio.gb_gpio_direction_in p s)
    unfolding Gpio.gb_gpio_direction_in
    direction_in-Keeps p s =
        with_pin-Keeps 1 _ p s (λ dev which payload t below. log-Keeps (CallsOn P) _ _ t below)

    or_error-Keeps :
        (s : State) (x : ℤ × State) (k : State → ℕ × State)
        → IsTidy (CallsOn P) s x.1
        → ((t : State) → Keeps (CallsOn P) t (k t))
        → Keeps (CallsOn P) s (Gpio.or_error x k)
    or_error-Keeps s (ret, t) k h tidy =
        if-Keeps (CallsOn P) (is_zero ret) (k t) (gb_errno_to_op_result (negate ret), t) s
          (λ done. record { tidy = IsTidy-trans (CallsOn P) s t (k t).1 h (tidy t).tidy })
          (λ failed. record { tidy = h })

    direction_out-Keeps : (p : ℕ) (s : State) → Keeps (CallsOn P) s (Gpio.gb_gpio_direction_out p s)
    unfolding Gpio.gb_gpio_direction_out
    direction_out-Keeps p s = with_pin-Keeps 2 _ p s (λ dev which payload t below.
        or_error-Keeps t (Gpio.pin_configure dev which g.output t)
          (λ t'.
            Gpio.or_error (Gpio.pin_set dev which (byte payload 1) t')
              (λ t''. (OpResult.success, t'')))
          (log-IsTidy (CallsOn P) _ t below)
          (λ u.
            or_error-Keeps u (Gpio.pin_set dev which (byte payload 1) u)
              (λ t''. (OpResult.success, t'')) (log-IsTidy (CallsOn P) _ u below)
              (λ v. Keeps-refl (CallsOn P) OpResult.success v)))

    set_value-Keeps : (p : ℕ) (s : State) → Keeps (CallsOn P) s (Gpio.gb_gpio_set_value p s)
    unfolding Gpio.gb_gpio_set_value
    set_value-Keeps p s =
        with_pin-Keeps 2 _ p s (λ dev which payload t below. log-Keeps (CallsOn P) _ _ t below)

    set_debounce-Keeps : (p : ℕ) (s : State) → Keeps (CallsOn P) s (Gpio.gb_gpio_set_debounce p s)
    unfolding Gpio.gb_gpio_set_debounce
    set_debounce-Keeps p s = with_pin-Keeps 3 _ p s (λ dev which payload t below.
        if-Keeps (CallsOn P) (ltb 0 (le16_at payload 1))
          (Gpio.as_op_result (Gpio.pin_configure dev which g.debounce t)) (OpResult.success, t) t
          (λ some_time. log-Keeps (CallsOn P) _ _ t below)
          (λ none_given. Keeps-refl (CallsOn P) OpResult.success t))

    irq_mask-Keeps : (p : ℕ) (s : State) → Keeps (CallsOn P) s (Gpio.gb_gpio_irq_mask p s)
    unfolding Gpio.gb_gpio_irq_mask
    irq_mask-Keeps p s =
        with_pin-Keeps 1 _ p s (λ dev which payload t below. log-Keeps (CallsOn P) _ _ t below)

    irq_unmask-Keeps : (p : ℕ) (s : State) → Keeps (CallsOn P) s (Gpio.gb_gpio_irq_unmask p s)
    unfolding Gpio.gb_gpio_irq_unmask
    irq_unmask-Keeps p s =
        with_pin-Keeps 1 _ p s (λ dev which payload t below. log-Keeps (CallsOn P) _ _ t below)

    set_irq-Keeps :
        (flags : Option ℕ) (dev which : ℕ) (s : State)
        → P dev which
        → Keeps (CallsOn P) s (Gpio.set_irq flags dev which s)
    set_irq-Keeps none dev which s below = Keeps-refl (CallsOn P) _ s
    set_irq-Keeps (some flags) dev which s below = log-Keeps (CallsOn P) _ _ s below

    irq_type-Keeps : (p : ℕ) (s : State) → Keeps (CallsOn P) s (Gpio.gb_gpio_irq_type p s)
    unfolding Gpio.gb_gpio_irq_type
    irq_type-Keeps p s =
        with_pin-Keeps 2 _ p s (λ dev which payload t below. set_irq-Keeps _ dev which t below)

    module _ ⦃w : World⦄ where
      pub gpio-IsTidyTable : IsTidyTable (CallsOn P) Gpio.gb_gpio_handlers
      gpio-IsTidyTable = (
        version-Keeps,
        (
          line_count-Keeps,
          (
            activate-Keeps,
            (
              deactivate-Keeps,
              (
                get_direction-Keeps,
                (
                  direction_in-Keeps,
                  (
                    direction_out-Keeps,
                    (
                      get_value-Keeps,
                      (
                        set_value-Keeps,
                        (
                          set_debounce-Keeps,
                          (irq_type-Keeps, (irq_mask-Keeps, (irq_unmask-Keeps, tt))),
                        ),
                      ),
                    ),
                  ),
                ),
              ),
            ),
          ),
        ),
      )

module _ ⦃e : Errno⦄ ⦃w : World⦄ ⦃g : Gpio.Gpio⦄ where
  -- The device has the pin: its bit is set in the mask.
  abbrev pub HasPin : ℕ → ℕ → Type 0
  HasPin dev which = Gpio.pin_bit (g.port_pin_mask dev) which ≡ true

  -- Whatever the request, a GPIO handler calls the device's driver only for pins whose bit is set
  -- in the device's port_pin_mask, if no mask has a hole, that is, if the bits below the number
  -- of bits that are set are set: if all calls so far were of this kind, so are those that it
  -- adds.
  pub gpio_pins_exist :
      ((dev which : ℕ) → which < Gpio.pin_count dev → HasPin dev which)
      → (type p : ℕ) (s : State) → All (CallsOn HasPin) s.trace
      → All (CallsOn HasPin) (handle Gpio.gb_gpio_handlers type p s).1.trace
  gpio_pins_exist no_holes type p s =
      (handle-IsTidy (CallsOn HasPin) Gpio.gb_gpio_handlers type p s
        (gpio-IsTidyTable HasPin no_holes)).adds
