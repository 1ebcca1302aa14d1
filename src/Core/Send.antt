-- ===== src/Core/Send.antt =====
-- What the core sends: requests, with the FIFO of those that wait for a response, and responses
-- (subsys/greybus/greybus-core.c). Where a pointer dangles the model returns -1 and does nothing.
-- irq_lock makes each function atomic towards interrupts; the loopback hooks are empty stubs.
use greybus_for_zephyr.Base.{
  ℕ, ◌+◌, ◌%◌, ◌^◌, Bool, true, false, not, ◌&&◌, Option, none, some, List, [], ◌∷◌, ◌++◌, ◌==◌,
  if◌then◌else◌, ℤ, neg, negsuc, is_zero, keep_if,
}
use Prim.Native.Nat.{bit_or}
use greybus_for_zephyr.Errno.{Errno}
use greybus_for_zephyr.OpResult
use greybus_for_zephyr.Core.{
  Message, Callback, Operation, State, World, Event, hdr_size, response_flag, log, set_op,
  set_cport,
}
use greybus_for_zephyr.Core.Lifecycle.{
  atomic_mod, gb_operation_ref, gb_operation_unref, gb_operation_alloc_response,
}

-- `sys_dlist_remove` of a node from the FIFO that it is on; a node is on it once at most.
abbrev pub remove : ℕ → List ℕ → List ℕ
remove p = keep_if (λ q. not (q == p))

-- The watchdog of subsys/greybus/greybus-stubs.c does nothing.
unfoldable pub wd_start : ℕ → State → State
wd_start cport s = s

unfoldable pub wd_cancel : ℕ → State → State
wd_cancel cport s = s

-- WDOG_ISACTIVE of subsys/greybus/greybus-stubs.h
abbrev pub wdog_isactive : ℕ → Bool
wdog_isactive cport = true

unfoldable pub gb_watchdog_update : ℕ → State → State
gb_watchdog_update cport s = elim (s.cports cport).tx_fifo [
  | [] ↦ wd_cancel cport s
  | p ∷ ps ↦ wd_start cport s
]

-- `sys_cpu_to_le16(atomic_inc(&request_id))`: the low 16 bits of the count before
unfoldable pub take_id : State → ℕ × State
take_id s = (s.request_id % 2 ^ 16, record s { request_id = (s.request_id + 1) % atomic_mod })

-- The id of a request that wants a response: 0 is skipped.
unfoldable pub next_id : State → ℕ × State
next_id s = let (id, s') = take_id s in if id == 0 then take_id s' else (id, s')

module _ ⦃e : Errno⦄ ⦃w : World⦄ where
  -- the `if (need_response)` block of gb_operation_send_request
  unfoldable pub enqueue_request : ℕ → Operation → Option Callback → State → State
  enqueue_request p op callback s =
      let (id, s₁) = next_id s in
      let time = w.clock s₁.trace in
      let s₂ = log Event.looked_at_clock s₁ in
      let s₃ = gb_operation_ref p (
        set_op p
          (record op {
            request_buffer = record (op.request_buffer) { id = id };
            time = time;
            callback = callback;
          })
          s₂) in
      let cport = s₃.cports op.cport in
      let s₄ = set_cport op.cport (record cport { tx_fifo = cport.tx_fifo ++ p ∷ [] }) s₃ in
      if wdog_isactive op.cport then s₄ else wd_start op.cport s₄

  -- what gb_operation_send_request takes back when the backend fails
  unfoldable pub dequeue_request : ℕ → ℕ → State → State
  dequeue_request p c s =
      let cport = s.cports c in
      gb_operation_unref p
        (gb_watchdog_update c (set_cport c (record cport { tx_fifo = remove p cport.tx_fifo }) s))

  -- the call of `transport_backend->send` on the request as it stands
  unfoldable pub transmit : ℕ → ℕ → State → ℤ × State
  transmit p c s = elim (s.ops p) [
    | none ↦ (negsuc 0, s)
    | some op ↦ (w.send s.trace c op.request_buffer, log (Event.sent c op.request_buffer) s)
  ]

  unfoldable pub gb_operation_send_request : ℕ → Option Callback → Bool → State → ℤ × State
  gb_operation_send_request p callback need_response s = elim (s.ops p) [
    | none ↦ (negsuc 0, s)
    | some op ↦
        if (s.cports op.cport).exit_worker
        then (neg e.enetdown, s)
        else let op₀ = record op { request_buffer = record (op.request_buffer) { id = 0 } } in
          let s₀ = set_op p op₀ s in
          let s₁ = if need_response then enqueue_request p op₀ callback s₀ else s₀ in
          let (retval, s₂) = transmit p op.cport s₁ in
          (
            retval,
            if need_response && not (is_zero retval) then dequeue_request p op.cport s₂ else s₂,
          )
  ]

  -- Asynchronous requests want no response: the completion callback is
  -- gb_operation_send_request_nowait_cb below.
  unfoldable pub gb_operation_send_request_nowait : ℕ → Option Callback → Bool → State → ℤ × State
  gb_operation_send_request_nowait p callback need_response s = elim (s.ops p) [
    | none ↦ (negsuc 0, s)
    | some op ↦
        if (s.cports op.cport).exit_worker
        then (neg e.enetdown, s)
        else if need_response
        then (neg e.enotsup, s)
        else let request = record (op.request_buffer) { id = 0 } in
          let s₁ =
            gb_operation_ref p
              (set_op p (record op { request_buffer = request; callback = callback }) s) in
          (w.send_async s₁.trace op.cport request, log (Event.sent_async op.cport request) s₁)
  ]

  unfoldable pub run_callback : ℕ → Option Callback → State → State
  run_callback p none s = s
  run_callback p (some (Callback.user f)) s = log (Event.ran_callback f p) (w.run_callback f p s)
  run_callback p (some Callback.sync) s = elim (s.ops p) [
    | none ↦ s
    | some op ↦ set_op p (record op { sync_sem = op.sync_sem + 1 }) s
  ]

  unfoldable pub gb_operation_send_request_nowait_cb : ℤ → ℕ → State → State
  gb_operation_send_request_nowait_cb status p s = elim (s.ops p) [
    | none ↦ s
    | some op ↦
        let result = if is_zero status then 0 else OpResult.internal in
        let op' = record op { request_buffer = record (op.request_buffer) { result = result } } in
        gb_operation_unref p (run_callback p op.callback (set_op p op' s))
  ]

  -- The first part of gb_operation_send_request_sync. At 0 it then waits for `sync_sem`.
  unfoldable pub gb_operation_send_request_sync : ℕ → State → ℤ × State
  gb_operation_send_request_sync p s = elim (s.ops p) [
    | none ↦ (negsuc 0, s)
    | some op ↦
        gb_operation_send_request p (some Callback.sync) true
          (set_op p (record op { sync_sem = 0 }) s)
  ]

  unfoldable pub gb_operation_send_oom_response : Operation → State → ℤ × State
  gb_operation_send_oom_response op s =
      if (s.cports op.cport).exit_worker
      then (neg e.enetdown, s)
      else let oom_hdr : Message = record {
        size = hdr_size;
        id = op.request_buffer.id;
        typ = bit_or response_flag op.request_buffer.typ;
        result = OpResult.no_memory;
        payload = [];
      } in
        (w.send s.trace op.cport oom_hdr, log (Event.sent op.cport oom_hdr) s)

  -- gb_operation_send_response, once there is a response buffer: `allocated` says whether this
  -- call allocated it.
  unfoldable pub send_buffer : ℕ → ℕ → Bool → State → ℤ × State
  send_buffer p result allocated s = elim (s.ops p) [
    | none ↦ (negsuc 0, s)
    | some op ↦ elim op.response_buffer [
      | none ↦ gb_operation_send_oom_response op s
      | some resp ↦
          let resp' = record resp { result = result } in
          let retval = w.send s.trace op.cport resp' in
          let s₁ = log (Event.sent op.cport resp') s in
          if is_zero retval
          then (
            retval,
            set_op p (record op { response_buffer = some resp'; has_responded = true }) s₁,
          )
          else if allocated
          then (retval, set_op p (record op { response_buffer = none }) (log Event.freed s₁))
          else (retval, set_op p (record op { response_buffer = some resp' }) s₁)
    ]
  ]

  unfoldable pub gb_operation_send_response : ℕ → ℕ → State → ℤ × State
  gb_operation_send_response p result s = elim (s.ops p) [
    | none ↦ (negsuc 0, s)
    | some op ↦
        if (s.cports op.cport).exit_worker
        then (neg e.enetdown, s)
        else if op.has_responded
        then (neg e.einval, s)
        else elim op.response_buffer [
          | some resp ↦ send_buffer p result false s
          | none ↦ send_buffer p result true (gb_operation_alloc_response p 0 s).1
        ]
  ]
