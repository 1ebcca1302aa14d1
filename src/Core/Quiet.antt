-- ===== src/Core/Quiet.antt =====
-- Which functions leave every rx_fifo, its semaphore and the stop flag alone.
use greybus_for_zephyr.Base.{
  ℕ, zero, suc, ◌-◌, ◌≡◌, refl, ◌∙◌, Bool, true, false, Option, none, some, List, [], ◌∷◌, ◌==◌,
  leb, arith, Bool-cases, inl, inr,
}
use greybus_for_zephyr.Errno.{Errno}
use greybus_for_zephyr.Core.{
  Message, Operation, Callback, RxItem, CPort, State, World, set_op, set_cport, log, Event,
  response_flag, hdr_size,
}
use greybus_for_zephyr.Core.Lifecycle.{
  gb_operation_ref, gb_operation_unref, gb_operation_destroy, unref_rounds, drop_ref, on_response,
  gb_operation_alloc_response, gb_operation_create,
}
use greybus_for_zephyr.Core.Send.{
  remove, run_callback, gb_watchdog_update, wd_start, wd_cancel, gb_operation_send_response,
  send_buffer, gb_operation_send_oom_response,
}
use greybus_for_zephyr.Core.Receive.{
  attach, gb_process_request, gb_process_response, complete_request, clean_one, clean_from,
  gb_clean_timedout_operation, process, has_timedout, tape_message, gb_rx_create_operation,
}

-- The side of a cport that receives.
abbrev pub RxSide : Type 0
RxSide = record { fifo : List RxItem; posts : ℕ; stopping : Bool }

abbrev pub rx_side : CPort → RxSide
rx_side c = record { fifo = c.rx_fifo; posts = c.rx_fifo_lock; stopping = c.exit_worker }

-- No cport's receiving side differs.
abbrev pub SameRx : State → State → Type 0
SameRx s s' = (c : ℕ) → rx_side (s'.cports c) ≡ rx_side (s.cports c)

pub SameRx-trans : (s t u : State) → SameRx s t → SameRx t u → SameRx s u
SameRx-trans s t u h k c = k c ∙ h c

-- What the handlers and the callbacks of the drivers must keep to: they do not queue messages for
-- reception, nor stop a worker.
pub record IsTame (w : World) : Type 0 where
  pub handler_tame : (f p : ℕ) (s : State) → SameRx s (w.run_handler f p s).1
  pub fast_tame : (f c : ℕ) (msg : Message) (s : State) → SameRx s (w.run_fast f c msg s)
  pub callback_tame : (f p : ℕ) (s : State) → SameRx s (w.run_callback f p s)

ref-SameRx : (p : ℕ) (s : State) → SameRx s (gb_operation_ref p s)
unfolding gb_operation_ref
ref-SameRx p s c = ground arith

drop_ref-SameRx : (p : ℕ) (s : State) → SameRx s (drop_ref p s).1
unfolding drop_ref
drop_ref-SameRx p s c = ground arith

on_response-SameRx :
    (f : ℕ → State → State) (s : State) (x : Option ℕ × State)
    → SameRx s x.1
    → ((q : ℕ) (t : State) → SameRx t (f q t))
    → SameRx s (on_response f x)
on_response-SameRx f s (none, t) h k c = h c
on_response-SameRx f s (some q, t) h k c = k q t c ∙ h c

unref_rounds-SameRx : (fuel p : ℕ) (s : State) → SameRx s (unref_rounds fuel p s)
unfolding unref_rounds
unref_rounds-SameRx zero p s c = refl
unref_rounds-SameRx (suc fuel) p s c =
    on_response-SameRx (unref_rounds fuel) s (drop_ref p s) (drop_ref-SameRx p s)
      (λ q t. unref_rounds-SameRx fuel q t) c

pub unref-SameRx : (p : ℕ) (s : State) → SameRx s (gb_operation_unref p s)
unfolding gb_operation_unref
unref-SameRx p s = unref_rounds-SameRx (suc s.next_op) p s

watchdog-SameRx : (c : ℕ) (s : State) → SameRx s (gb_watchdog_update c s)
unfolding gb_watchdog_update wd_start wd_cancel
watchdog-SameRx c s d = ground arith

-- A write to the tx_fifo of a cport.
set_tx-SameRx :
    (c : ℕ) (fifo : List ℕ) (s : State)
    → SameRx s (set_cport c (record (s.cports c) { tx_fifo = fifo }) s)
set_tx-SameRx c fifo s d = elim (Bool-cases (c == d)) [
  | inl e ↦ ground arith
  | inr e ↦ ground arith
]

-- A branch on an operation that may be missing.
for_op-SameRx :
    (s s' : State) (o : Option Operation) (k : Operation → State)
    → SameRx s s'
    → ((op : Operation) → SameRx s (k op))
    → SameRx s (elim o [ none ↦ s' | some op ↦ k op ])
for_op-SameRx s s' none k h g = h
for_op-SameRx s s' (some op) k h g = g op

module _ ⦃e : Errno⦄ ⦃w : World⦄ where
  alloc_response-SameRx : (p n : ℕ) (s : State) → SameRx s (gb_operation_alloc_response p n s).1
  unfolding gb_operation_alloc_response
  alloc_response-SameRx p n s c = ground arith

  oom-SameRx : (op : Operation) (s : State) → SameRx s (gb_operation_send_oom_response op s).1
  unfolding gb_operation_send_oom_response
  oom-SameRx op s c = ground arith

  send_buffer-SameRx : (p r : ℕ) (b : Bool) (s : State) → SameRx s (send_buffer p r b s).1
  unfolding send_buffer
  send_buffer-SameRx p r b s c = grind (arith, oom-SameRx)

  pub send_response-SameRx : (p r : ℕ) (s : State) → SameRx s (gb_operation_send_response p r s).1
  unfolding gb_operation_send_response
  send_response-SameRx p r s c = ground (
    arith,
    send_buffer-SameRx p r false s c,
    send_buffer-SameRx p r true (gb_operation_alloc_response p 0 s).1 c,
    alloc_response-SameRx p 0 s c,
  )

  create-SameRx : (c t n : ℕ) (s : State) → SameRx s (gb_operation_create c t n s).1
  unfolding gb_operation_create
  create-SameRx c t n s d = ground arith

  pub rx_create-SameRx :
      (c : ℕ) (msg : Message) (n : ℕ) (s : State) → SameRx s (gb_rx_create_operation c msg n s).1
  unfolding gb_rx_create_operation
  rx_create-SameRx c msg n s d = ground (arith, create-SameRx c 0 (n - hdr_size) s d)

  pub tape-SameRx : (c : ℕ) (msg : Message) (n : ℕ) (s : State) → SameRx s (tape_message c msg n s)
  unfolding tape_message
  tape-SameRx c msg n s d = ground arith

  module _ (tame : IsTame w) where
    run_callback-SameRx : (p : ℕ) (f : Option Callback) (s : State) → SameRx s (run_callback p f s)
    unfolding run_callback
    run_callback-SameRx p none s c = refl
    run_callback-SameRx p (some (Callback.user f)) s c = tame.callback_tame f p s c
    run_callback-SameRx p (some Callback.sync) s c = ground arith

    attach-SameRx : (q p : ℕ) (o : Option Operation) (s : State) → SameRx s (attach q p o s)
    attach-SameRx q p none s d = refl
    attach-SameRx q p (some op) s d =
        let s₂ = set_op q (record op { response = some p }) s in
        unref-SameRx q (run_callback q op.callback s₂) d ∙ run_callback-SameRx q op.callback s₂ d

    complete_request-SameRx : (c q p : ℕ) (s : State) → SameRx s (complete_request c q p s)
    unfolding complete_request
    complete_request-SameRx c q p s =
        let s₀ = set_cport c (record (s.cports c) { tx_fifo = remove q (s.cports c).tx_fifo }) s in
        let s₁ = gb_operation_ref p (gb_watchdog_update c s₀) in
        let quiet : SameRx s s₁ = λ d.
          ref-SameRx p (gb_watchdog_update c s₀) d
          ∙ watchdog-SameRx c s₀ d
          ∙ set_tx-SameRx c (remove q (s.cports c).tx_fifo) s d in
        λ d. attach-SameRx q p (s₁.ops q) s₁ d ∙ quiet d

    process_response-SameRx : (p : ℕ) (s : State) → SameRx s (gb_process_response p s)
    unfolding gb_process_response
    process_response-SameRx p s c = grind (arith, complete_request-SameRx)

    clean_one-SameRx : (c p : ℕ) (s : State) → SameRx s (clean_one c p s)
    unfolding clean_one
    clean_one-SameRx c p s =
        let s₁ = log Event.looked_at_clock s in
        let s₂ =
          set_cport c (record (s₁.cports c) { tx_fifo = remove p (s₁.cports c).tx_fifo }) s₁ in
        for_op-SameRx s s (s.ops p) _ (λ d. refl)
          (λ op d. elim (Bool-cases (has_timedout op.time (w.clock s.trace))) [
            | inl late ↦ rw late (
                unref-SameRx p (run_callback p op.callback s₂) d
                ∙ run_callback-SameRx p op.callback s₂ d
                ∙ set_tx-SameRx c (remove p (s₁.cports c).tx_fifo) s₁ d)
            | inr fine ↦ rw fine
          ])

    clean_from-SameRx : (c : ℕ) (ps : List ℕ) (s : State) → SameRx s (clean_from c ps s)
    unfolding clean_from
    clean_from-SameRx c [] s d = refl
    clean_from-SameRx c (p ∷ ps) s d =
        clean_from-SameRx c ps (clean_one c p s) d ∙ clean_one-SameRx c p s d

    process_request-SameRx : (p : ℕ) (s : State) → SameRx s (gb_process_request p s)
    unfolding gb_process_request
    process_request-SameRx p s c = grind (arith, send_response-SameRx, IsTame.handler_tame)

    -- Whatever the worker takes up, it leaves the receiving sides alone.
    pub process-SameRx : (c : ℕ) (item : RxItem) (s : State) → SameRx s (process c item s)
    unfolding process gb_clean_timedout_operation gb_operation_destroy
    process-SameRx c RxItem.timedout s d =
        watchdog-SameRx c (clean_from c (s.cports c).tx_fifo s) d
        ∙ clean_from-SameRx c (s.cports c).tx_fifo s d
    process-SameRx c (RxItem.received p) s d =
        for_op-SameRx s s (s.ops p) _ (λ d. refl)
          (λ op d'. elim (Bool-cases (leb response_flag op.request_buffer.typ)) [
            | inl response ↦
                rw response
                  (unref-SameRx p (gb_process_response p s) d' ∙ process_response-SameRx p s d')
            | inr request ↦
                rw request
                  (unref-SameRx p (gb_process_request p s) d' ∙ process_request-SameRx p s d')
          ])
          d
