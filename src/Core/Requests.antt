-- ===== src/Core/Requests.antt =====
-- gb_operation_send_request: what a request leaves behind, on success and on failure.
use greybus_for_zephyr.Base.{
  ℕ, ◌+◌, ◌<◌, ◌≡◌, ◌≢◌, refl, sym, ap, ◌∙◌, Bool, true, false, not, Option, some, List, [], ◌∷◌,
  ◌++◌, ◌==◌, if◌then◌else◌, arith, ℤ, pos, neg, is_zero, keep_if-append, All, ==-self, ne→==,
}
use mathlib.Core.List.{append-nil}
use greybus_for_zephyr.Errno.{Errno}
use greybus_for_zephyr.Core.{Operation, Callback, State, World, set_op, set_cport, log, Event}
use greybus_for_zephyr.Core.Lifecycle.{atomic_mod}
use greybus_for_zephyr.Core.Send.{
  remove, next_id, enqueue_request, dequeue_request, transmit, gb_watchdog_update,
  gb_operation_send_request, wd_start, wd_cancel,
}
use greybus_for_zephyr.Core.Refs.{IsLive, ref_lem, unref_held}
use greybus_for_zephyr.Core.Ids.{next_id_ne_zero, next_id-ops, next_id-cports, next_id-trace}

pub remove-fresh : (p : ℕ) (ps : List ℕ) → All (λ q. q ≢ p) ps → remove p ps ≡ ps
remove-fresh p [] h = refl
remove-fresh p (q ∷ ps) h = ground (arith, remove-fresh p ps h.1)

-- What goes on at the end of a FIFO and is taken off again leaves it as it was.
pub remove-append : (p : ℕ) (ps : List ℕ) → All (λ q. q ≢ p) ps → remove p (ps ++ p ∷ []) ≡ ps
remove-append p ps h =
    keep_if-append (λ q. not (q == p)) ps (p ∷ [])
    ∙ ap (λ l. remove p ps ++ l) (rw (==-self p))
    ∙ append-nil (remove p ps)
    ∙ remove-fresh p ps h

pub watchdog_same : (c : ℕ) (s : State) → gb_watchdog_update c s ≡ s
unfolding gb_watchdog_update wd_start wd_cancel
watchdog_same c s = ground arith

module _ ⦃e : Errno⦄ ⦃w : World⦄ where
  -- A cport whose worker is being stopped sends nothing, and the state stays as it is.
  pub send_request_down :
      (p : ℕ) (op : Operation) (callback : Option Callback) (need_response : Bool) (s : State)
      → s.ops p ≡ some op
      → (s.cports op.cport).exit_worker ≡ true
      → gb_operation_send_request p callback need_response s ≡ (neg e.enetdown, s)
  unfolding gb_operation_send_request
  send_request_down p op callback need_response s there down =
      rw (there, gb_operation_send_request, down)

  -- The operation as the queueing of its request leaves it.
  abbrev pub queued : Operation → Option Callback → State → Operation
  queued op callback s = record op {
    request_buffer = record (op.request_buffer) { id = (next_id s).0 };
    time = w.clock s.trace;
    callback = callback;
    ref_count = op.ref_count + 1;
  }

  enqueue_lem :
      (p : ℕ) (op : Operation) (callback : Option Callback) (s : State)
      → IsLive p op s
      → op.ref_count + 1 < atomic_mod
      → let s' = enqueue_request p op callback s in
        (s'.ops p ≡ some (queued op callback s))
        × ((q : ℕ) → q ≢ p → s'.ops q ≡ s.ops q)
        × ((s'.cports op.cport).tx_fifo ≡ (s.cports op.cport).tx_fifo ++ p ∷ [])
        × (s'.trace ≡ Event.looked_at_clock ∷ s.trace)
  unfolding enqueue_request
  enqueue_lem p op callback s l room =
      let s₂ = log Event.looked_at_clock (next_id s).1 in
      let op₁ : Operation = record op {
        request_buffer = record (op.request_buffer) { id = (next_id s).0 };
        time = w.clock (next_id s).1.trace;
        callback = callback;
      } in
      let live : IsLive p op₁ (set_op p op₁ s₂) = record {
        there = rw (==-self p);
        held = l.held;
        no_wrap = l.no_wrap;
      } in
      rw (ref_lem p op₁ (set_op p op₁ s₂) live room) (
        rw (==-self p, next_id-trace s),
        λ q ne. rw (ne→== p q (λ h. ne (sym h)), next_id-ops s),
        rw (==-self op.cport, next_id-cports s),
        rw (next_id-trace s),
      )

  -- The operation with the id cleared, as every request begins.
  abbrev pub cleared : Operation → Operation
  cleared op = record op { request_buffer = record (op.request_buffer) { id = 0 } }

  -- What the queueing of a request leaves, seen from the call.
  abbrev pub as_queued : ℕ → Operation → Option Callback → State → Operation
  as_queued p op callback s = queued (cleared op) callback (set_op p (cleared op) s)

  -- What the backend answers to the request as it is queued.
  abbrev pub answer : ℕ → Operation → Option Callback → State → ℤ
  answer p op callback s =
      w.send (Event.looked_at_clock ∷ s.trace) op.cport (as_queued p op callback s).request_buffer

  send_request_steps :
      (p : ℕ) (op : Operation) (callback : Option Callback) (s : State)
      → IsLive p op s
      → op.ref_count + 1 < atomic_mod
      → (s.cports op.cport).exit_worker ≡ false
      → let s₁ = enqueue_request p (cleared op) callback (set_op p (cleared op) s) in
        let s₂ = log (Event.sent op.cport (as_queued p op callback s).request_buffer) s₁ in
        gb_operation_send_request p callback true s ≡ (
          answer p op callback s,
          if not (is_zero (answer p op callback s)) then dequeue_request p op.cport s₂ else s₂,
        )
  unfolding gb_operation_send_request transmit
  send_request_steps p op callback s l room up =
      let live : IsLive p (cleared op) (set_op p (cleared op) s) = record {
        there = rw (==-self p);
        held = l.held;
        no_wrap = l.no_wrap;
      } in
      let (mine, _, _, tr) =
        enqueue_lem p (cleared op) callback (set_op p (cleared op) s) live room in
      rw (l.there, gb_operation_send_request, up, mine, transmit, tr)

  -- A request that wants a response and that the backend takes, on a cport whose worker is not
  -- being stopped, with a count of references that does not wrap: it waits at the end of its
  -- cport's tx_fifo with one reference more, the id on the wire is the one that it waits under,
  -- is not 0, and no other operation is touched.
  pub send_request_waits :
      (p : ℕ) (op : Operation) (callback : Option Callback) (s : State)
      → IsLive p op s
      → op.ref_count + 1 < atomic_mod
      → (s.cports op.cport).exit_worker ≡ false
      → answer p op callback s ≡ pos 0
      → let (retval, s') = gb_operation_send_request p callback true s in
        let op' = as_queued p op callback s in
        (retval ≡ pos 0)
        × (s'.ops p ≡ some op')
        × (op'.ref_count ≡ op.ref_count + 1)
        × (0 < op'.request_buffer.id)
        × ((s'.cports op.cport).tx_fifo ≡ (s.cports op.cport).tx_fifo ++ p ∷ [])
        × (s'.trace ≡ Event.sent op.cport op'.request_buffer ∷ Event.looked_at_clock ∷ s.trace)
        × ((q : ℕ) → q ≢ p → s'.ops q ≡ s.ops q)
  send_request_waits p op callback s l room up ok =
      let s₀ = set_op p (cleared op) s in
      let live : IsLive p (cleared op) s₀ = record {
        there = rw (==-self p);
        held = l.held;
        no_wrap = l.no_wrap;
      } in
      let (mine, others, fifo, tr) = enqueue_lem p (cleared op) callback s₀ live room in
      rw (send_request_steps p op callback s l room up, ok)
        (
          refl,
          mine,
          refl,
          (next_id_ne_zero s₀).0,
          fifo,
          ap (λ t. Event.sent op.cport (as_queued p op callback s).request_buffer ∷ t) tr,
          λ q ne. others q ne ∙ rw (ne→== p q (λ h. ne (sym h))),
        )

  -- A request that the backend refuses is taken back, if it is not on the tx_fifo before, the
  -- worker runs on and its count of references does not wrap: the error is returned, the tx_fifo is as it
  -- was before, the operation has as many references as before, and no other one is touched.
  pub send_request_taken_back :
      (p : ℕ) (op : Operation) (callback : Option Callback) (s : State)
      → IsLive p op s
      → op.ref_count + 1 < atomic_mod
      → (s.cports op.cport).exit_worker ≡ false
      → All (λ q. q ≢ p) (s.cports op.cport).tx_fifo
      → is_zero (answer p op callback s) ≡ false
      → let (retval, s') = gb_operation_send_request p callback true s in
        (retval ≡ answer p op callback s)
        × (s'.ops p ≡ some (record (as_queued p op callback s) { ref_count = op.ref_count }))
        × ((s'.cports op.cport).tx_fifo ≡ (s.cports op.cport).tx_fifo)
        × ((q : ℕ) → q ≢ p → s'.ops q ≡ s.ops q)
  unfolding dequeue_request
  send_request_taken_back p op callback s l room up fresh failed =
      let s₀ = set_op p (cleared op) s in
      let live : IsLive p (cleared op) s₀ = record {
        there = rw (==-self p);
        held = l.held;
        no_wrap = l.no_wrap;
      } in
      let (mine, others, fifo, tr) = enqueue_lem p (cleared op) callback s₀ live room in
      let op' = as_queued p op callback s in
      let s₁ = enqueue_request p (cleared op) callback s₀ in
      let s₂ = log (Event.sent op.cport op'.request_buffer) s₁ in
      let c = record (s₂.cports op.cport) { tx_fifo = remove p (s₂.cports op.cport).tx_fifo } in
      let s₃ = set_cport op.cport c s₂ in
      let live' : IsLive p op' s₃ = record { there = mine; held = omega arith; no_wrap = room } in
      rw
        (
          send_request_steps p op callback s l room up,
          failed,
          watchdog_same op.cport s₃,
          unref_held p op' s₃ live' (omega (arith, l.held)),
        )
        (
          refl,
          rw (==-self p) (ap (λ n. some (record op' { ref_count = n })) (omega arith)),
          rw (==-self op.cport, fifo) (remove-append p _ fresh),
          λ q ne. rw (ne→== p q (λ h. ne (sym h))) (others q ne ∙ rw (ne→== p q (λ h. ne (sym h)))),
        )
