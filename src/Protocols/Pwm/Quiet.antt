-- ===== src/Protocols/Pwm/Quiet.antt =====
-- The PWM protocol's handlers leave the receiving sides alone.
use greybus_for_zephyr.Base.{
  ℕ, ◌%◌, not, ◌||◌, some, List, ◌==◌, if◌then◌else◌, ltb, leb, is_zero, ◌+◌,
}
use greybus_for_zephyr.OpResult
use greybus_for_zephyr.Core.{PwmInfo, Bundle, State, World, DeviceCall, Event}
use greybus_for_zephyr.Protocols.{payload_size, byte, call_device, put_byte}
use greybus_for_zephyr.Protocols.Tidy.{
  IsTidy, Keeps, Keeps-refl, log-IsTidy, if-Keeps, log-Keeps, with_response-Keeps,
  version_response-Keeps, IsTidyTable, put-IsTidy,
}
use greybus_for_zephyr.Protocols.Control.Quiet.{Any}
use greybus_for_zephyr.Protocols.Pwm

module _ ⦃w : World⦄ where
  module _ ⦃g : Pwm.Pwm⦄ where
    on_generator-Keeps :
        (x : Pwm.PwmLookup) (call : ℕ → List ℕ → DeviceCall) (s : State)
        → Keeps Any s (Pwm.on_generator x call s)
    on_generator-Keeps Pwm.PwmLookup.dangling call s = Keeps-refl Any OpResult.internal s
    on_generator-Keeps Pwm.PwmLookup.missing call s = Keeps-refl Any OpResult.unknown_error s
    on_generator-Keeps (Pwm.PwmLookup.found b dev bundle info op) call s =
        let which = byte op.request_buffer.payload 0 in
        if-Keeps Any (leb info.num_pwms which) (OpResult.invalid, s)
          (Pwm.call_pwm dev (call which op.request_buffer.payload) s) s
          (λ beyond. Keeps-refl Any OpResult.invalid s) (λ inside. log-Keeps Any _ _ s tt)

    with_generator-Keeps :
        (len : ℕ) (call : ℕ → List ℕ → DeviceCall) (p : ℕ) (s : State)
        → Keeps Any s (Pwm.with_generator len call p s)
    with_generator-Keeps len call p s =
        if-Keeps Any (ltb (payload_size p s) len) (OpResult.invalid, s)
          (Pwm.on_generator (Pwm.pwm_of p s) call s) s (λ short. Keeps-refl Any OpResult.invalid s)
          (λ long. on_generator-Keeps (Pwm.pwm_of p s) call s)

    set_bundle-after :
        (s t : State) (b : ℕ) (bundle : Bundle)
        → IsTidy Any s t
        → IsTidy Any s (Pwm.set_bundle b bundle t)
    set_bundle-after s t b bundle h = record { same_rx = h.same_rx; adds = h.adds }

    store_count-Keeps :
        (p b dev : ℕ) (bundle : Bundle) (info : PwmInfo) (s : State)
        → Keeps Any s (Pwm.store_count p b dev bundle info s)
    store_count-Keeps p b dev bundle info s =
        let s₁ = call_device dev DeviceCall.pwm_get_count s in
        let count = g.count dev in
        let bundle' = record bundle { priv = some (record info { num_pwms = count }) } in
        let one = log-IsTidy Any (Event.called dev DeviceCall.pwm_get_count) s tt in
        let stored = put_byte p 0 ((count % 256 + 255) % 256) (Pwm.set_bundle b bundle' s₁) in
        if-Keeps Any (not (is_zero (g.ret s.trace dev DeviceCall.pwm_get_count)))
          (OpResult.unknown_error, s₁)
          (if (count == 0) || ltb 256 count
            then (OpResult.unknown_error, s₁)
            else (OpResult.success, stored))
          s (λ failed. record { tidy = one })
          (λ fine.
            if-Keeps Any ((count == 0) || ltb 256 count) (OpResult.unknown_error, s₁)
              (OpResult.success, stored) s (λ odd. record { tidy = one })
              (λ usual. record {
                tidy =
                    put-IsTidy Any s (Pwm.set_bundle b bundle' s₁) p 0 _
                      (set_bundle-after s s₁ b bundle' one);
              }))

    count_for-Keeps : (x : Pwm.PwmLookup) (p : ℕ) (s : State) → Keeps Any s (Pwm.count_for x p s)
    count_for-Keeps Pwm.PwmLookup.dangling p s = Keeps-refl Any OpResult.internal s
    count_for-Keeps Pwm.PwmLookup.missing p s = Keeps-refl Any OpResult.unknown_error s
    count_for-Keeps (Pwm.PwmLookup.found b dev bundle info op) p s =
        with_response-Keeps Any (λ n. tt) p 1 (Pwm.store_count p b dev bundle info) s
          (store_count-Keeps p b dev bundle info)

    pub pwm-IsTidyTable : IsTidyTable Any Pwm.gb_pwm_handlers
    unfolding Pwm.gb_pwm_protocol_version Pwm.gb_pwm_protocol_count Pwm.gb_pwm_protocol_activate
        Pwm.gb_pwm_protocol_deactivate Pwm.gb_pwm_protocol_config Pwm.gb_pwm_protocol_polarity
        Pwm.gb_pwm_protocol_enable Pwm.gb_pwm_protocol_disable
    pwm-IsTidyTable = (
      version_response-Keeps Any (λ n. tt) 0 1,
      (
        λ p s. count_for-Keeps (Pwm.pwm_of p s) p s,
        (
          with_generator-Keeps 1 _,
          (
            with_generator-Keeps 1 _,
            (
              with_generator-Keeps 9 _,
              (
                with_generator-Keeps 2 _,
                (with_generator-Keeps 1 _, (with_generator-Keeps 1 _, tt)),
              ),
            ),
          ),
        ),
      ),
    )
