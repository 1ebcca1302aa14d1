-- ===== src/Tests/Workers.antt =====
-- Runs of the core from gb_init on.
use greybus_for_zephyr.Base.{zero, suc, ◌≡◌, ◌≢◌, refl, true, false, some, [], pos, arith}
use greybus_for_zephyr.Core.{State, set_cport}
use greybus_for_zephyr.Core.Receive.{
  Round, gb_pending_message_worker, take_up, greybus_rx_handler, gb_operation_timeout, is_linked,
  accept_message, deliver, queue_message, gb_rx_create_operation, tape_message, push_rx,
}
use greybus_for_zephyr.Core.Register.{fresh_cport, start_worker, stop_worker, stop_listening}
use greybus_for_zephyr.Core.Send.{wd_cancel}
use greybus_for_zephyr.Core.Lifecycle.{gb_operation_create}
use greybus_for_zephyr.Handlers.{find_operation_handler, search_from, probe}
use greybus_for_zephyr.Core.Start.{gb_init, gb_tape_communication}
use greybus_for_zephyr.Core.Start.Fresh.{init_never_crashes}
use greybus_for_zephyr.Core.Worker.{AllSound, Step, Reach, AllOrderly, worker_stops_clean}
use greybus_for_zephyr.Core.Timeouts.{timeouts_never_queue}
use greybus_for_zephyr.Tests.Sorting.{insertion_sort}
use greybus_for_zephyr.Tests.Samples.{
  posix, posix-IsPositive, fine_world, fine_world-IsTame, ping, ping_driver, state_of, single_op,
}

abbrev core : State
core = state_of single_op

-- A ping on cport 0, and the watchdog.
abbrev pinged : State
pinged = (greybus_rx_handler 0 (some ping) 8 core).1

run_lem : Reach core (gb_operation_timeout 0 pinged)
run_lem =
    Reach.next (Reach.next Reach.here (Step.receive 0 (some ping) 8 core)) (Step.timeout 0 pinged)

timeouts_never_queue_example :
    (is_linked (((gb_operation_timeout 0 pinged).cports 0).rx_fifo) ≡ false)
    × (gb_operation_timeout 0 (gb_operation_timeout 0 pinged) ≡ gb_operation_timeout 0 pinged)
unfolding is_linked
timeouts_never_queue_example =
    timeouts_never_queue fine_world-IsTame {s = core} {s' = gb_operation_timeout 0 pinged}
      (λ c. refl) run_lem 0

abbrev started : State
started = (gb_init true core).1

gb_init_works : gb_init true core ≡ (pos 0, started)
unfolding gb_init
gb_init_works = refl

-- A worker is started on cport 0, a ping comes in, and the worker is stopped.
abbrev working : State
working = (start_worker insertion_sort 0 0 ping_driver started).1

abbrev asked : State
asked = (greybus_rx_handler 0 (some ping) 8 working).1

abbrev stopped_run : Reach started (stop_worker 0 asked)
stopped_run =
    Reach.next
      (Reach.next (Reach.next Reach.here (Step.start insertion_sort 0 0 ping_driver started))
        (Step.receive 0 (some ping) 8 working))
      (Step.stop 0 asked)

stopped_run_lem : AllOrderly stopped_run
unfolding gb_init start_worker greybus_rx_handler accept_message deliver find_operation_handler
    search_from probe queue_message gb_rx_create_operation gb_operation_create tape_message push_rx
stopped_run_lem = (((tt, refl), tt), refl)

init_never_crashes_example : gb_pending_message_worker 0 (stop_worker 0 asked) ≢ Round.crashed
init_never_crashes_example =
    init_never_crashes posix-IsPositive fine_world-IsTame true core started (stop_worker 0 asked)
      gb_init_works stopped_run stopped_run_lem 0

-- The ping waits, and the semaphore was posted for it and to stop.
stopped_run_test : ((stop_worker 0 asked).cports 0).rx_fifo_lock ≡ 2
unfolding gb_init start_worker greybus_rx_handler accept_message deliver find_operation_handler
    search_from probe queue_message gb_rx_create_operation gb_operation_create tape_message push_rx
    stop_worker wd_cancel stop_listening
stopped_run_test = refl

abbrev recording : State
recording = (gb_tape_communication core).1

-- A cport whose worker was told to stop.
abbrev stopping : State
stopping =
    set_cport 0 (record fresh_cport { thread = true; exit_worker = true; rx_fifo_lock = 1 }) core

abbrev ended : State
ended = set_cport 0 (record fresh_cport { thread = false; exit_worker = true }) stopping

worker_ends : gb_pending_message_worker 0 stopping ≡ Round.stopped ended
unfolding gb_pending_message_worker take_up
worker_ends = refl

stopping-AllSound : AllSound stopping
stopping-AllSound zero = omega arith
stopping-AllSound (suc c) = ground arith

worker_stops_clean_example :
    ((ended.cports 0).rx_fifo ≡ [])
    × ((ended.cports 0).rx_fifo_lock ≡ 0)
    × ((ended.cports 0).thread ≡ false)
worker_stops_clean_example = worker_stops_clean 0 stopping ended stopping-AllSound worker_ends
