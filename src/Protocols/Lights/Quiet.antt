-- ===== src/Protocols/Lights/Quiet.antt =====
-- The lights protocol's handlers leave the receiving sides alone.
use greybus_for_zephyr.Base.{ℕ, List}
use greybus_for_zephyr.Errno.{Errno}
use greybus_for_zephyr.OpResult
use greybus_for_zephyr.Core.{State, World, DriverFunction}
use greybus_for_zephyr.Protocols.Tidy.{
  Keeps, Keeps-refl, put_bytes-Keeps, with_request-Keeps, with_response-Keeps,
  version_response-Keeps, IsTidyTable,
}
use greybus_for_zephyr.Protocols.Control.Quiet.{Any}
use greybus_for_zephyr.Protocols.Board.{Board}
use greybus_for_zephyr.Protocols.Board.Quiet.{with_dev-Keeps, call_driver-Keeps, call_into-Keeps}
use greybus_for_zephyr.Protocols.Lights

module _ ⦃e : Errno⦄ ⦃b : Board⦄ where
  set_channel-Keeps :
      (len : ℕ) (f : DriverFunction) (more : List ℕ → List ℕ) (p : ℕ) (s : State)
      → Keeps Any s (Lights.set_channel len f more p s)
  set_channel-Keeps len f more p s = with_request-Keeps Any len _ p s (λ payload.
      with_dev-Keeps p _ s
        (λ dev. call_driver-Keeps dev f _ _ _ s (λ out t. Keeps-refl Any OpResult.success t)))

  module _ ⦃w : World⦄ where
    get_config-Keeps :
        (len size : ℕ) (f : DriverFunction) (args bytes : List ℕ → List ℕ) (p : ℕ) (s : State)
        → Keeps Any s (Lights.get_config len size f args bytes p s)
    get_config-Keeps len size f args bytes p s = with_request-Keeps Any len _ p s (λ payload.
        with_response-Keeps Any (λ n. tt) p size _ s
          (λ t. with_dev-Keeps p _ t (λ dev.
            call_driver-Keeps dev f _ _ _ t
              (λ out. put_bytes-Keeps Any OpResult.success p 0 (bytes out)))))

    lights-Keeps : (p : ℕ) (s : State) → Keeps Any s (Lights.gb_lights_get_lights p s)
    unfolding Lights.gb_lights_get_lights
    lights-Keeps p s =
        with_response-Keeps Any (λ n. tt) p 1 _ s
          (λ t. with_dev-Keeps p _ t (λ dev. call_into-Keeps p dev _ _ _ _ t))

    fault-Keeps : (p : ℕ) (s : State) → Keeps Any s (Lights.gb_lights_get_flash_fault p s)
    unfolding Lights.gb_lights_get_flash_fault
    fault-Keeps p s = with_request-Keeps Any 2 _ p s (λ payload.
        with_response-Keeps Any (λ n. tt) p 4 _ s
          (λ t. with_dev-Keeps p _ t (λ dev. call_into-Keeps p dev _ _ _ _ t)))

    pub lights-IsTidyTable : IsTidyTable Any Lights.gb_lights_handlers
    unfolding Lights.gb_lights_protocol_version Lights.gb_lights_get_light_config
        Lights.gb_lights_get_channel_config Lights.gb_lights_get_channel_flash_config
        Lights.gb_lights_set_brightness Lights.gb_lights_set_blink Lights.gb_lights_set_color
        Lights.gb_lights_set_fade Lights.gb_lights_set_flash_intensity
        Lights.gb_lights_set_flash_strobe Lights.gb_lights_set_flash_timeout
    lights-IsTidyTable = (
      version_response-Keeps Any (λ n. tt) 0 1,
      (
        lights-Keeps,
        (
          get_config-Keeps 1 33 _ _ _,
          (
            get_config-Keeps 2 77 _ _ _,
            (
              get_config-Keeps 2 24 _ _ _,
              (
                set_channel-Keeps 3 _ _,
                (
                  set_channel-Keeps 6 _ _,
                  (
                    set_channel-Keeps 6 _ _,
                    (
                      set_channel-Keeps 4 _ _,
                      (
                        set_channel-Keeps 6 _ _,
                        (set_channel-Keeps 3 _ _, (set_channel-Keeps 6 _ _, (fault-Keeps, tt))),
                      ),
                    ),
                  ),
                ),
              ),
            ),
          ),
        ),
      ),
    )
