-- ===== src/Core/Timeouts.antt =====
-- The watchdog's entry and the rx_fifo of its cport: gb_operation_timeout of
-- subsys/greybus/greybus-core.c.
use greybus_for_zephyr.Base.{
  ℕ, ◌-◌, ◌≡◌, refl, false, Option, none, some, List, [], ◌∷◌, ◌++◌, ◌==◌, arith, Bool-cases, inl,
  inr, ◌⊎◌,
}
use greybus_for_zephyr.Errno.{Errno}
use greybus_for_zephyr.Handlers.{Driver, find_operation_handler}
use greybus_for_zephyr.Core.{Message, RxItem, CPort, State, World, set_cport}
use greybus_for_zephyr.Core.Receive.{
  Round, push_rx, is_linked, gb_operation_timeout, gb_pending_message_worker, take_up, process,
  greybus_rx_handler, accept_message, queue_message, deliver, fast_handler_of, tape_message,
  gb_rx_create_operation,
}
use greybus_for_zephyr.Core.Register.{stop_worker, start_worker, stop_listening}
use greybus_for_zephyr.Core.Send.{wd_cancel}
use greybus_for_zephyr.Core.Quiet.{tape-SameRx, rx_create-SameRx, SameRx, IsTame, process-SameRx}
use greybus_for_zephyr.Core.Worker.{Step, Reach, stopped_if}

-- No rx_fifo holds the watchdog's entry.
abbrev pub NoneTimedOut : State → Type 0
NoneTimedOut s = (c : ℕ) → is_linked (s.cports c).rx_fifo ≡ false

SameRx-NoneTimedOut : (s s' : State) → SameRx s s' → NoneTimedOut s → NoneTimedOut s'
SameRx-NoneTimedOut s s' same h c = ground (arith, same c, h c)

is_linked-append :
    (items : List RxItem) (p : ℕ) → is_linked (items ++ RxItem.received p ∷ []) ≡ is_linked items
unfolding is_linked
is_linked-append [] p = refl
is_linked-append (RxItem.timedout ∷ items) p = refl
is_linked-append (RxItem.received q ∷ items) p = is_linked-append items p

is_linked-tail :
    (item : RxItem) (items : List RxItem)
    → is_linked (item ∷ items) ≡ false
    → is_linked items ≡ false
unfolding is_linked
is_linked-tail RxItem.timedout items h = cc
is_linked-tail (RxItem.received q) items h = h

push-NoneTimedOut :
    (c p : ℕ) (s : State) → NoneTimedOut s → NoneTimedOut (push_rx c (RxItem.received p) s)
unfolding push_rx
push-NoneTimedOut c p s h d = elim (Bool-cases (c == d)) [
  | inl here ↦ ground (arith, h c, h d, is_linked-append (s.cports c).rx_fifo p)
  | inr there ↦ ground (arith, h d)
]

-- A write to a cport that keeps the entry off its rx_fifo.
set-NoneTimedOut :
    (c : ℕ) (cport : CPort) (s : State)
    → is_linked cport.rx_fifo ≡ false
    → NoneTimedOut s
    → NoneTimedOut (set_cport c cport s)
set-NoneTimedOut c cport s fine h d = elim (Bool-cases (c == d)) [
  | inl here ↦ ground (arith, h d)
  | inr there ↦ ground (arith, h d)
]

module _ ⦃e : Errno⦄ ⦃w : World⦄ where
  queue-NoneTimedOut :
      (c : ℕ) (x : Option ℕ × State) → NoneTimedOut x.1 → NoneTimedOut (queue_message c x).1
  unfolding queue_message
  queue-NoneTimedOut c (none, s) h = h
  queue-NoneTimedOut c (some p, s) h = push-NoneTimedOut c p s h

  deliver-NoneTimedOut :
      IsTame w
      → (c : ℕ) (msg : Message) (f : Option ℕ) (s : State) → NoneTimedOut s
      → NoneTimedOut (deliver c msg f s).1
  unfolding deliver
  deliver-NoneTimedOut tame c msg (some f) s h =
      SameRx-NoneTimedOut s (w.run_fast f c msg s) (tame.fast_tame f c msg s) h
  deliver-NoneTimedOut tame c msg none s h =
      queue-NoneTimedOut c (gb_rx_create_operation c msg msg.size s) (
        SameRx-NoneTimedOut s (gb_rx_create_operation c msg msg.size s).1
          (rx_create-SameRx c msg msg.size s) h)

  rx_handler-NoneTimedOut :
      IsTame w
      → (c : ℕ) (msg : Option Message) (size : ℕ) (s : State) → NoneTimedOut s
      → NoneTimedOut (greybus_rx_handler c msg size s).1
  unfolding greybus_rx_handler accept_message
  rx_handler-NoneTimedOut tame c none size s h = h
  rx_handler-NoneTimedOut tame c (some msg) size s h =
      let accepted = λ (driver : Driver).
        deliver-NoneTimedOut tame c msg (fast_handler_of (find_operation_handler msg.typ driver))
          (tape_message c msg size s)
          (SameRx-NoneTimedOut s (tape_message c msg size s) (tape-SameRx c msg size s) h) in
      λ d. grind (arith, h d, accepted)

  take_up-NoneTimedOut :
      IsTame w
      → (c : ℕ) (fifo : List RxItem) (s s' : State) → (s.cports c).rx_fifo ≡ fifo
      → NoneTimedOut s
      → (take_up c fifo s ≡ Round.handled s') ⊎ (take_up c fifo s ≡ Round.stopped s')
      → NoneTimedOut s'
  unfolding take_up
  take_up-NoneTimedOut tame c [] s s' e h (inl r) = absurd (ground arith)
  take_up-NoneTimedOut tame c [] s s' e h (inr r) =
      let cport = s.cports c in
      let s₁ =
        set_cport c (record cport { rx_fifo_lock = cport.rx_fifo_lock - 1; thread = false }) s in
      let eq = stopped_if cport.exit_worker s₁ s' r in
      rw (← eq) (
        set-NoneTimedOut c (record cport { rx_fifo_lock = cport.rx_fifo_lock - 1; thread = false })
          s (h c) h)
  take_up-NoneTimedOut tame c (item ∷ items) s s' e h (inl r) =
      let cport = s.cports c in
      let cport₁ : CPort = record cport {
        rx_fifo_lock = cport.rx_fifo_lock - 1;
        rx_fifo = items;
      } in
      let s₁ = set_cport c cport₁ s in
      let fine = set-NoneTimedOut c cport₁ s (is_linked-tail item items (rw (← e) (h c))) h in
      let same : process c item s₁ ≡ s' = cc in
      rw same at (SameRx-NoneTimedOut s₁ (process c item s₁) (process-SameRx tame c item s₁) fine)
  take_up-NoneTimedOut tame c (item ∷ items) s s' e h (inr r) = absurd (ground arith)

  worker-NoneTimedOut :
      IsTame w
      → (c : ℕ) (s s' : State) → NoneTimedOut s
      → (gb_pending_message_worker c s ≡ Round.handled s')
        ⊎ (gb_pending_message_worker c s ≡ Round.stopped s')
      → NoneTimedOut s'
  unfolding gb_pending_message_worker
  worker-NoneTimedOut tame c s s' h r = elim (Bool-cases ((s.cports c).rx_fifo_lock == 0)) [
    | inl none_posted ↦ absurd (ground arith)
    | inr posted ↦ take_up-NoneTimedOut tame c (s.cports c).rx_fifo s s' refl h (rw posted at r)
  ]

  Step-NoneTimedOut : IsTame w → {s s' : State} → Step s s' → NoneTimedOut s → NoneTimedOut s'
  unfolding gb_operation_timeout stop_worker start_worker stop_listening wd_cancel
  Step-NoneTimedOut tame (Step.receive c msg size s) h = rx_handler-NoneTimedOut tame c msg size s h
  Step-NoneTimedOut tame (Step.timeout c s) h = λ d. ground (arith, h d, h c)
  Step-NoneTimedOut tame (Step.work c s s' r) h = worker-NoneTimedOut tame c s s' h (inl r)
  Step-NoneTimedOut tame (Step.finish c s s' r) h = worker-NoneTimedOut tame c s s' h (inr r)
  Step-NoneTimedOut tame (Step.stop c s) h = λ d. elim (Bool-cases (c == d)) [
    | inl here ↦ ground (arith, h c, h d)
    | inr there ↦ ground (arith, h d)
  ]
  Step-NoneTimedOut tame (Step.start q c d driver s) h = λ k. elim (Bool-cases (c == k)) [
    | inl here ↦ ground (arith, h c, h k)
    | inr there ↦ ground (arith, h k)
  ]
  Step-NoneTimedOut tame (Step.other s s' same) h = SameRx-NoneTimedOut s s' same h

  -- The requests that wait for a response never time out: from a state in which no rx_fifo holds
  -- the watchdog's entry, as gb_init leaves them, no reachable state has it on an rx_fifo, and
  -- gb_operation_timeout changes nothing in any of them, if
  -- the handlers and callbacks leave the receiving sides alone.
  pub timeouts_never_queue :
      IsTame w
      → {s s' : State} → NoneTimedOut s
      → Reach s s'
      → (c : ℕ) → (is_linked (s'.cports c).rx_fifo ≡ false) × (gb_operation_timeout c s' ≡ s')
  unfolding gb_operation_timeout
  timeouts_never_queue tame h Reach.here c = (h c, rw (h c))
  timeouts_never_queue tame h (Reach.next {t = t} {u = u} r st) c =
      let before : NoneTimedOut t = λ d. (timeouts_never_queue tame h r d).0 in
      let after = Step-NoneTimedOut tame st before c in (after, rw after)
