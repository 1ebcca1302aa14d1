-- ===== src/Tests/Registrations.antt =====
-- A driver registered on a free cport.
use greybus_for_zephyr.Base.{◌≡◌, refl, none, some, pos, List, ◌∷◌, []}
use greybus_for_zephyr.Handlers.{Handler}
use greybus_for_zephyr.Handlers.Search.{IsTable}
use greybus_for_zephyr.Core.{State}
use greybus_for_zephyr.Core.Register.{
  fresh_cport, get_bundle, init_driver, start_worker, register_checked, gb_register_driver,
}
use greybus_for_zephyr.Core.Register.Tables.{register_sorts}
use greybus_for_zephyr.Tests.Samples.{
  posix, posix-IsPositive, fine_world, ping_driver, state_of, single_op,
}
use greybus_for_zephyr.Tests.Sorting.{insertion_sort, sort}

-- two handlers, out of order
abbrev unsorted : List Handler
unsorted =
    record { typ = 5; handler = 1; fast_handler = none }
    ∷ record { typ = 2; handler = 2; fast_handler = none }
    ∷ []

abbrev free : State
free = record (state_of single_op) {
  cports = λ c. fresh_cport;
  drivers = λ d. record ping_driver { op_handlers = some unsorted };
}

abbrev registered : State
registered = (gb_register_driver insertion_sort 1 0 (some 0) free).1

registration_works : gb_register_driver insertion_sort 1 0 (some 0) free ≡ (pos 0, registered)
unfolding gb_register_driver register_checked get_bundle init_driver start_worker
registration_works = refl

register_sorts_example :
    IsTable (registered.drivers 0) (sort unsorted) × ((registered.cports 1).driver ≡ some 0)
register_sorts_example =
    register_sorts posix-IsPositive insertion_sort 1 0 0 free registered unsorted refl refl
      registration_works
