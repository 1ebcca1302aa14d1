-- ===== src/Core/Register.antt =====
-- Drivers on cports, listening, notification, start and stop of the core
-- (subsys/greybus/greybus-core.c).
pub mod Tables
use greybus_for_zephyr.Base.{
  ℕ, ◌+◌, Bool, true, false, not, ◌&&◌, ◌||◌, Option, none, some, List, [], ◌∷◌, if◌then◌else◌, ℤ,
  pos, neg, is_zero, ltb, leb,
}
use greybus_for_zephyr.Errno.{Errno}
use greybus_for_zephyr.Handlers.{Driver}
use greybus_for_zephyr.Handlers.Sort.{Qsort}
use greybus_for_zephyr.Core.{Bundle, CPort, State, World, Event, update, log, set_cport}
use greybus_for_zephyr.Core.Lifecycle.{gb_operation_unref}
use greybus_for_zephyr.Core.Send.{remove, wd_cancel}
use greybus_for_zephyr.Core.Receive.{driver_of}

-- `enum gb_event`, and any other value that the caller passes
pub data GbEvent : Type 0 where
  connected disconnected other : GbEvent

abbrev pub is_set : {A : Type 0} → Option A → Bool
is_set none = false
is_set (some a) = true

-- gb_flush_tx_fifo, over the FIFO as it stands
unfoldable pub flush_from : ℕ → List ℕ → State → State
flush_from c [] s = s
flush_from c (p ∷ ps) s =
    let cport = s.cports c in
    flush_from c ps
      (gb_operation_unref p (set_cport c (record cport { tx_fifo = remove p cport.tx_fifo }) s))

unfoldable pub gb_flush_tx_fifo : ℕ → State → State
gb_flush_tx_fifo c s = flush_from c (s.cports c).tx_fifo s

-- the call of `driver->exit`, where there are both
abbrev pub call_exit : Option Driver → ℕ → State → State
call_exit none c s = s
call_exit (some driver) c s = elim driver.exit [ none ↦ s | some f ↦ log (Event.ran_exit f c) s ]

module _ ⦃e : Errno⦄ ⦃w : World⦄ where
  unfoldable pub stop_listening : ℕ → State → ℤ × State
  stop_listening c s = (w.stop_listening s.trace c, log (Event.stopped c) s)

  -- Up to the pthread_join: the worker is told to stop, and woken.
  unfoldable pub stop_worker : ℕ → State → State
  stop_worker c s =
      let s₁ = wd_cancel c (stop_listening c s).1 in
      let cport = s₁.cports c in
      set_cport c (record cport { exit_worker = true; rx_fifo_lock = cport.rx_fifo_lock + 1 }) s₁

  -- Behind the pthread_join.
  unfoldable pub release_driver : ℕ → State → State
  release_driver c s =
      let s₁ = gb_flush_tx_fifo c s in
      let s₂ = call_exit (driver_of c s₁) c s₁ in
      let cport = s₂.cports c in set_cport c (record cport { driver = none }) s₂

  -- gb_unregister_driver. `join` is what the worker does until it has ended. Every backend of the
  -- repository has a `stop_listening`.
  unfoldable pub gb_unregister_driver : (ℕ → State → State) → ℕ → State → ℤ × State
  gb_unregister_driver join c s =
      if leb s.cport_count c || not (is_set (s.cports c).driver) || not s.has_backend
      then (neg e.einval, s)
      else (pos 0, release_driver c (join c (stop_worker c s)))

  -- The bundle of _gb_register_driver: the one that is there, or a new one. `none` for a failed
  -- calloc. A negative bundle_id is out of the model: g_bundle[bundle_id] lies before the array.
  unfoldable pub get_bundle : ℕ → State → Option State
  get_bundle bundle_id s = elim (s.bundles bundle_id) [
    | some b ↦ some s
    | none ↦
        let s₁ = log (Event.allocated 0) s in
        let bundle : Bundle = record {
          id = bundle_id;
          cport_start = w.start_cport_bundle bundle_id;
          dev = w.num_cports_bundle bundle_id;
          devices = λ i. none;
          priv = none;
        } in
        if w.malloc s.trace
        then some (record s₁ { bundles = update s.bundles bundle_id (some bundle) })
        else none
  ]

  -- the call of `driver->init`, if there is one
  unfoldable pub init_driver : ℕ → Driver → State → ℤ × State
  init_driver c driver s = elim driver.init [
    | none ↦ (pos 0, s)
    | some f ↦ (w.init s.trace f c, log (Event.ran_init f c) s)
  ]

  abbrev pub set_driver : ℕ → Driver → State → State
  set_driver d driver s = record s { drivers = update s.drivers d driver }

  module _ (q : Qsort) where
    abbrev pub sort_handlers : Driver → Driver
    sort_handlers driver = record driver {
      op_handlers = elim driver.op_handlers [
        | none ↦ none
        | some table ↦ some (Qsort.qsort q table)
      ];
    }

    -- the worker is created, and the driver entered, or `driver->exit` called
    unfoldable pub start_worker : ℕ → ℕ → Driver → State → ℤ × State
    start_worker c d driver s =
        let cport = s.cports c in
        let retval = w.pthread_create s.trace c in
        let s₁ =
          log (Event.created_thread c) (set_cport c (record cport { exit_worker = false }) s) in
        if is_zero retval
        then (
          pos 0,
          set_cport c (record cport { exit_worker = false; thread = true; driver = some d }) s₁,
        )
        else (retval, elim driver.exit [ none ↦ s₁ | some f ↦ log (Event.ran_exit f c) s₁ ])

    -- _gb_register_driver behind its checks. The driver's structure is written: its bundle, and
    -- its handlers in order.
    unfoldable pub register_checked : ℕ → ℕ → ℕ → State → ℤ × State
    register_checked c bundle_id d s = elim (get_bundle bundle_id s) [
      | none ↦ (neg e.enomem, log (Event.allocated 0) s)
      | some s₁ ↦
          let driver = record (s₁.drivers d) { bundle = some bundle_id } in
          let (retval, s₂) = init_driver c driver (set_driver d driver s₁) in
          if is_zero retval
          then start_worker c d driver (set_driver d (sort_handlers driver) s₂)
          else (retval, s₂)
    ]

    -- _gb_register_driver; the driver is `none` for NULL.
    unfoldable pub gb_register_driver : ℕ → ℕ → Option ℕ → State → ℤ × State
    gb_register_driver c bundle_id none s = (neg e.einval, s)
    gb_register_driver c bundle_id (some d) s =
        let driver = s.drivers d in
        if leb s.cport_count c
        then (neg e.einval, s)
        else if is_set (s.cports c).driver
        then (neg e.eexist, s)
        else if not (is_set driver.op_handlers) && ltb 0 driver.op_handlers_count
        then (neg e.einval, s)
        else if ltb w.max_bundle_id bundle_id
        then (neg e.einval, s)
        else register_checked c bundle_id d s

  unfoldable pub gb_listen : ℕ → State → ℤ × State
  gb_listen c s =
      if leb s.cport_count c
      then (neg e.einval, s)
      else if not (is_set (s.cports c).driver)
      then (neg e.einval, s)
      else (w.listen s.trace c, log (Event.listened c) s)

  unfoldable pub gb_stop_listening : ℕ → State → ℤ × State
  gb_stop_listening c s =
      if leb s.cport_count c
      then (neg e.einval, s)
      else if not (is_set (s.cports c).driver)
      then (neg e.einval, s)
      else stop_listening c s

  -- a callback that may be NULL
  abbrev pub call : Option ℕ → (ℕ → Event) → State → State
  call none event s = s
  call (some f) event s = log (event f) s

  unfoldable pub gb_notify : ℕ → GbEvent → State → ℤ × State
  gb_notify c event s = if leb s.cport_count c then (neg e.einval, s) else elim (driver_of c s) [
    | none ↦ (neg e.enotconn, s)
    | some driver ↦ elim event [
      | connected ↦ (pos 0, call driver.connected (λ f. Event.ran_connected f c) s)
      | disconnected ↦ (pos 0, call driver.disconnected (λ f. Event.ran_disconnected f c) s)
      | other ↦ (neg e.einval, s)
    ]
  ]

  -- gb_bundle_get_by_id
  unfoldable pub gb_bundle_get_by_id : ℕ → State → Option Bundle
  gb_bundle_get_by_id bundle_id s =
      if ltb w.max_bundle_id bundle_id then none else s.bundles bundle_id

-- a cport as the loop of gb_init leaves it
abbrev pub fresh_cport : CPort
fresh_cport = record {
  driver = none;
  tx_fifo = [];
  rx_fifo = [];
  rx_fifo_lock = 0;
  thread = false;
  exit_worker = false;
}
