-- ===== src/Core/Receive.antt =====
-- What the core receives (subsys/greybus/greybus-core.c): greybus_rx_handler queues a message, and the
-- worker of the cport takes it up: a request goes to its handler, a response to its request.
use greybus_for_zephyr.Base.{
  ℕ, ◌+◌, ◌-◌, ◌*◌, ◌/◌, ◌%◌, ◌^◌, Bool, true, false, not, ◌||◌, Option, none, some, List, [], ◌∷◌,
  ◌++◌, ◌==◌, if◌then◌else◌, ℤ, pos, neg, is_neg, ltb, leb, take,
}
use greybus_for_zephyr.Errno.{Errno}
use greybus_for_zephyr.OpResult
use greybus_for_zephyr.Handlers.{Handler, Driver, find_operation_handler}
use greybus_for_zephyr.Core.{
  Operation, Message, Timespec, RxItem, State, World, Event, hdr_size, response_flag, log, set_op,
  set_cport,
}
use greybus_for_zephyr.Core.Lifecycle.{
  gb_operation_ref, gb_operation_unref, gb_operation_create, gb_operation_destroy,
}
use greybus_for_zephyr.Core.Send.{
  remove, gb_watchdog_update, run_callback, gb_operation_send_response,
}

-- TIMEOUT_IN_MS, ONE_SEC_IN_MSEC, ONE_MSEC_IN_NSEC
abbrev pub timeout_in_ms : ℕ
timeout_in_ms = 1000

-- the comparison of gb_operation_has_timedout, with the clock's reading
unfoldable pub has_timedout : Timespec → Timespec → Bool
has_timedout start current =
    let sec = start.tv_sec + timeout_in_ms / 1000 in
    let nsec = start.tv_nsec + timeout_in_ms % 1000 * 1000000 in
    if ltb sec current.tv_sec
    then true
    else if ltb current.tv_sec sec
    then false
    else ltb nsec current.tv_nsec

-- The driver of a cport, if one is registered.
abbrev pub driver_of : ℕ → State → Option Driver
driver_of c s = elim (s.cports c).driver [ none ↦ none | some d ↦ some (s.drivers d) ]

-- The first request of a tx_fifo with the id.
unfoldable pub find_request : ℕ → List ℕ → State → Option ℕ
find_request id [] s = none
find_request id (p ∷ ps) s = elim (s.ops p) [
  | none ↦ find_request id ps s
  | some op ↦ if id == op.request_buffer.id then some p else find_request id ps s
]

unfoldable pub push_rx : ℕ → RxItem → State → State
push_rx c item s =
    let cport = s.cports c in
    set_cport c
      (record cport { rx_fifo = cport.rx_fifo ++ item ∷ []; rx_fifo_lock = cport.rx_fifo_lock + 1 })
      s

-- `sys_dnode_is_linked` of the cport's `timedout_operation`, which goes on its rx_fifo alone
unfoldable pub is_linked : List RxItem → Bool
is_linked [] = false
is_linked (RxItem.timedout ∷ items) = true
is_linked (RxItem.received p ∷ items) = is_linked items

unfoldable pub gb_operation_timeout : ℕ → State → State
gb_operation_timeout c s =
    if not (is_linked (s.cports c).rx_fifo) then s else push_rx c RxItem.timedout s

-- What a round of a worker comes to. `blocked`: the semaphore is at 0; `crashed`: it took an
-- entry from an empty FIFO.
pub data Round : Type 0 where
  blocked crashed : Round
  stopped handled : State → Round

abbrev pub fast_handler_of : Option Handler → Option ℕ
fast_handler_of none = none
fast_handler_of (some h) = h.fast_handler

module _ ⦃e : Errno⦄ ⦃w : World⦄ where
  unfoldable pub gb_process_request : ℕ → State → State
  gb_process_request p s = elim (s.ops p) [
    | none ↦ s
    | some op ↦
        if op.request_buffer.typ == 0x00
        then (gb_operation_send_response p OpResult.success s).1
        else elim (driver_of op.cport s) [
          | none ↦ s
          | some driver ↦ elim (find_operation_handler op.request_buffer.typ driver) [
            | none ↦ (gb_operation_send_response p OpResult.invalid s).1
            | some h ↦
                let s₁ = set_op p (record op { bundle = driver.bundle }) s in
                let (result, s₂) = w.run_handler h.handler p s₁ in
                let s₃ = log (Event.ran_handler h.handler p) s₂ in
                elim (s₃.ops p) [
                  | none ↦ s₃
                  | some op' ↦
                      if op'.request_buffer.id == 0
                      then s₃
                      else (gb_operation_send_response p result s₃).1
                ]
          ]
        ]
  ]

  -- the response `p` becomes that of the request `q`, whose callback is called
  abbrev pub attach : ℕ → ℕ → Option Operation → State → State
  attach q p none s = s
  attach q p (some op) s =
      gb_operation_unref q
        (run_callback q op.callback (set_op q (record op { response = some p }) s))

  -- the body of gb_process_response's loop, at the request `q` whose id matches
  unfoldable pub complete_request : ℕ → ℕ → ℕ → State → State
  complete_request c q p s =
      let cport = s.cports c in
      let s₁ = gb_operation_ref p (
        gb_watchdog_update c (set_cport c (record cport { tx_fifo = remove q cport.tx_fifo }) s)) in
      attach q p (s₁.ops q) s₁

  unfoldable pub gb_process_response : ℕ → State → State
  gb_process_response p s = elim (s.ops p) [
    | none ↦ s
    | some op ↦ elim (find_request op.request_buffer.id (s.cports op.cport).tx_fifo s) [
      | none ↦ s
      | some q ↦ complete_request op.cport q p s
    ]
  ]

  -- one round of gb_clean_timedout_operation's loop
  unfoldable pub clean_one : ℕ → ℕ → State → State
  clean_one c p s = elim (s.ops p) [
    | none ↦ s
    | some op ↦
        let s₁ = log Event.looked_at_clock s in
        if has_timedout op.time (w.clock s.trace)
        then (let cport = s₁.cports c in
            gb_operation_unref p (
              run_callback p op.callback
                (set_cport c (record cport { tx_fifo = remove p cport.tx_fifo }) s₁)))
        else s₁
  ]

  -- The loop goes over the FIFO as it stood: a callback may append to it, not take from it.
  unfoldable pub clean_from : ℕ → List ℕ → State → State
  clean_from c [] s = s
  clean_from c (p ∷ ps) s = clean_from c ps (clean_one c p s)

  unfoldable pub gb_clean_timedout_operation : ℕ → State → State
  gb_clean_timedout_operation c s = gb_watchdog_update c (clean_from c (s.cports c).tx_fifo s)

  -- What the worker does with the entry that it took. `typ & 0x80` of a byte is `0x80 <= typ`.
  unfoldable pub process : ℕ → RxItem → State → State
  process c RxItem.timedout s = gb_clean_timedout_operation c s
  process c (RxItem.received p) s = elim (s.ops p) [
    | none ↦ s
    | some op ↦ gb_operation_destroy p (
        if leb response_flag op.request_buffer.typ
        then gb_process_response p s
        else gb_process_request p s)
  ]

  -- gb_pending_message_worker behind sem_wait, with the FIFO that it finds
  unfoldable pub take_up : ℕ → List RxItem → State → Round
  take_up c [] s =
      let cport = s.cports c in
      if cport.exit_worker
      then Round.stopped
          (set_cport c (record cport { rx_fifo_lock = cport.rx_fifo_lock - 1; thread = false }) s)
      else Round.crashed
  take_up c (item ∷ items) s =
      let cport = s.cports c in
      Round.handled (
        process c item
          (set_cport c (record cport { rx_fifo_lock = cport.rx_fifo_lock - 1; rx_fifo = items }) s))

  -- one round of gb_pending_message_worker
  unfoldable pub gb_pending_message_worker : ℕ → State → Round
  gb_pending_message_worker c s =
      if (s.cports c).rx_fifo_lock == 0 then Round.blocked else take_up c (s.cports c).rx_fifo s

  -- the gb_rx_create_operation of a build without CONFIG_UNIPRO_ZERO_COPY
  unfoldable pub gb_rx_create_operation : ℕ → Message → ℕ → State → Option ℕ × State
  gb_rx_create_operation c msg size s =
      let (created, s') = gb_operation_create c 0 (size - hdr_size) s in
      elim created [
        | none ↦ (none, s')
        | some p ↦ elim (s'.ops p) [
          | none ↦ (none, s')
          | some op ↦
              let request = record msg { payload = take (size - hdr_size) msg.payload } in
              (some p, set_op p (record op { request_buffer = request }) s')
        ]
      ]

  -- the two writes to an open tape
  unfoldable pub tape_message : ℕ → Message → ℕ → State → State
  tape_message c msg size s = elim s.gb_tape [
    | none ↦ s
    | some tape ↦
        if is_neg s.gb_tape_fd
        then s
        else log (Event.taped msg) (log (Event.taped_header (size % 2 ^ 16) (c % 2 ^ 16)) s)
  ]

  -- the end of greybus_rx_handler: the operation goes on the rx_fifo, and the worker is woken
  unfoldable pub queue_message : ℕ → Option ℕ × State → ℤ × State
  queue_message c (none, s) = (neg e.enomem, s)
  queue_message c (some p, s) = (pos 0, push_rx c (RxItem.received p) s)

  -- a message goes to its fast handler, if there is one, or becomes an operation
  unfoldable pub deliver : ℕ → Message → Option ℕ → State → ℤ × State
  deliver c msg (some f) s = (pos 0, log (Event.ran_fast f c) (w.run_fast f c msg s))
  deliver c msg none s = queue_message c (gb_rx_create_operation c msg msg.size s)

  -- greybus_rx_handler behind its checks
  unfoldable pub accept_message : ℕ → Driver → Message → ℕ → State → ℤ × State
  accept_message c driver msg size s =
      deliver c msg (fast_handler_of (find_operation_handler msg.typ driver))
        (tape_message c msg size s)

  -- `driver` and `driver->op_handlers` of the cport are both set
  abbrev pub ready_driver : ℕ → State → Option Driver
  ready_driver c s = elim (driver_of c s) [
    | none ↦ none
    | some driver ↦ elim driver.op_handlers [ none ↦ none | some table ↦ some driver ]
  ]

  -- `data` is `none` for NULL; `size` is what the transport received.
  unfoldable pub greybus_rx_handler : ℕ → Option Message → ℕ → State → ℤ × State
  greybus_rx_handler c none size s = (neg e.einval, s)
  greybus_rx_handler c (some msg) size s =
      if leb s.cport_count c then (neg e.einval, s) else elim (ready_driver c s) [
        | none ↦ (pos 0, s)
        | some driver ↦
            if ltb size hdr_size
            then (neg e.einval, s)
            else if ltb size msg.size || ltb msg.size hdr_size
            then (neg e.einval, s)
            else accept_message c driver msg size s
      ]
