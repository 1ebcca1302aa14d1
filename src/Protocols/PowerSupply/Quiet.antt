-- ===== src/Protocols/PowerSupply/Quiet.antt =====
-- The power supply protocol's handlers leave the receiving sides alone.
use greybus_for_zephyr.Base.{ℕ, List}
use greybus_for_zephyr.Errno.{Errno}
use greybus_for_zephyr.OpResult
use greybus_for_zephyr.Core.{State, World, DriverFunction, Event, log}
use greybus_for_zephyr.Protocols.Tidy.{
  IsTidy-trans, Keeps, Keeps-refl, if-Keeps, log-IsTidy, with_request-Keeps, with_response-Keeps,
  version_response-Keeps, IsTidyTable,
}
use greybus_for_zephyr.Protocols.Control.Quiet.{Any}
use greybus_for_zephyr.Protocols.Board.{Board}
use greybus_for_zephyr.Protocols.Board.Quiet.{
  after-Keeps, fill-Keeps, with_dev-Keeps, call_driver-Keeps, call_into-Keeps,
}
use greybus_for_zephyr.Protocols.PowerSupply

module _ ⦃e : Errno⦄ ⦃b : Board⦄ where
  set_property-Keeps :
      (p : ℕ) (s : State) → Keeps Any s (PowerSupply.gb_power_supply_set_property p s)
  unfolding PowerSupply.gb_power_supply_set_property
  set_property-Keeps p s = with_request-Keeps Any 6 _ p s (λ payload.
      with_dev-Keeps p _ s
        (λ dev. call_driver-Keeps dev _ _ _ _ s (λ out t. Keeps-refl Any OpResult.success t)))

  module _ ⦃w : World⦄ where
    freed-Keeps : (s : State) (x : ℕ × State) → Keeps Any s x → Keeps Any s (PowerSupply.freed x)
    freed-Keeps s (code, t) h = record {
      tidy = IsTidy-trans Any s t (log Event.freed t) h.tidy (log-IsTidy Any Event.freed t tt);
    }

    supplies-Keeps :
        (p : ℕ) (s : State) → Keeps Any s (PowerSupply.gb_power_supply_get_supplies p s)
    unfolding PowerSupply.gb_power_supply_get_supplies
    supplies-Keeps p s =
        with_response-Keeps Any (λ n. tt) p 1 _ s
          (λ t. with_dev-Keeps p _ t (λ dev. call_into-Keeps p dev _ _ _ _ t))

    get_from-Keeps :
        (len size : ℕ) (f : DriverFunction) (args bytes : List ℕ → List ℕ) (p : ℕ) (s : State)
        → Keeps Any s (PowerSupply.get_from len size f args bytes p s)
    get_from-Keeps len size f args bytes p s = with_request-Keeps Any len _ p s (λ payload.
        with_dev-Keeps p _ s
          (λ dev. call_driver-Keeps dev f _ _ _ s (λ out t. fill-Keeps p size (bytes out) t)))

    describe-Keeps :
        (p size dev psy_id count : ℕ) (s : State)
        → Keeps Any s (PowerSupply.describe p size dev psy_id count s)
    describe-Keeps p size dev psy_id count s =
        let s₁ = log (Event.allocated 0) s in
        let one = log-IsTidy Any (Event.allocated 0) s tt in
        if-Keeps Any (w.malloc s.trace) _ (OpResult.no_memory, s₁) s
          (λ room. after-Keeps s s₁ _ one (
            freed-Keeps s₁ _ (
              call_driver-Keeps dev _ _ _ _ s₁
                (λ out t. fill-Keeps p _ (PowerSupply.props_desc count out) t))))
          (λ full. record { tidy = one })

    descriptors-Keeps :
        (size p : ℕ) (s : State)
        → Keeps Any s (PowerSupply.gb_power_supply_get_prop_descriptors size p s)
    unfolding PowerSupply.gb_power_supply_get_prop_descriptors
    descriptors-Keeps size p s = with_request-Keeps Any 1 _ p s (λ payload.
        with_dev-Keeps p _ s
          (λ dev. call_driver-Keeps dev _ _ _ _ s (λ out t. describe-Keeps p size dev _ _ t)))

    pub power_supply-IsTidyTable :
        (size : ℕ) → IsTidyTable Any (PowerSupply.gb_power_supply_handlers size)
    unfolding PowerSupply.gb_power_supply_version PowerSupply.gb_power_supply_get_description
        PowerSupply.gb_power_supply_get_property
    power_supply-IsTidyTable size = (
      version_response-Keeps Any (λ n. tt) 0 1,
      (
        supplies-Keeps,
        (
          get_from-Keeps 1 99 _ _ _,
          (descriptors-Keeps size, (get_from-Keeps 2 4 _ _ _, (set_property-Keeps, tt))),
        ),
      ),
    )
