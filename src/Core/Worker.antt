-- ===== src/Core/Worker.antt =====
-- The rx_fifo of a cport and its semaphore, over sequences of messages, worker rounds,
-- starts and stops (subsys/greybus/greybus-core.c).
use greybus_for_zephyr.Base.{
  ℕ, ◌+◌, ◌-◌, ◌≤◌, ◌≡◌, ◌≢◌, refl, Bool, true, false, Option, none, some, List, [], ◌∷◌, ◌==◌,
  if◌then◌else◌, arith, Bool-cases, inl, inr, length, length-append, ==-self, ==→ne,
}
use greybus_for_zephyr.Errno.{Errno}
use greybus_for_zephyr.Core.{Message, RxItem, CPort, State, World, set_cport}
use greybus_for_zephyr.Core.Receive.{
  Round, push_rx, gb_operation_timeout, gb_pending_message_worker, take_up, process,
  greybus_rx_handler, accept_message, queue_message, deliver, fast_handler_of, tape_message,
  gb_rx_create_operation,
}
use greybus_for_zephyr.Core.Register.{stop_worker, start_worker, stop_listening}
use greybus_for_zephyr.Handlers.Sort.{Qsort}
use greybus_for_zephyr.Handlers.{Driver, find_operation_handler}
use greybus_for_zephyr.Core.Send.{wd_cancel}
use greybus_for_zephyr.Core.Quiet.{tape-SameRx, rx_create-SameRx, SameRx, IsTame, process-SameRx}

-- The semaphore was posted at most once for each entry of the FIFO, and once more to stop.
abbrev pub posts_bound : CPort → ℕ
posts_bound c = if c.exit_worker then length c.rx_fifo + 1 else length c.rx_fifo

abbrev pub IsSound : CPort → Type 0
IsSound c = c.rx_fifo_lock ≤ posts_bound c

-- The invariant, at every cport.
abbrev pub AllSound : State → Type 0
AllSound s = (c : ℕ) → IsSound (s.cports c)

SameRx-IsSound : (s s' : State) → SameRx s s' → AllSound s → AllSound s'
SameRx-IsSound s s' same sound c = ground (arith, same c, sound c)

pub stopped_if :
    (b : Bool) (s s' : State)
    → (if b then Round.stopped s else Round.crashed) ≡ Round.stopped s'
    → s ≡ s'
stopped_if true s s' h = cc
stopped_if false s s' h = cc

push_rx-AllSound : (c : ℕ) (item : RxItem) (s : State) → AllSound s → AllSound (push_rx c item s)
unfolding push_rx
push_rx-AllSound c item s sound d = elim (Bool-cases (c == d)) [
  | inl here ↦ ground (arith, sound c, sound d, length-append (s.cports c).rx_fifo (item ∷ []))
  | inr there ↦ ground (arith, sound d)
]

module _ ⦃e : Errno⦄ ⦃w : World⦄ where
  take_up_sound :
      (c : ℕ) (fifo : List RxItem) (s : State)
      → (s.cports c).rx_fifo ≡ fifo
      → (s.cports c).rx_fifo_lock ≢ 0
      → IsSound (s.cports c)
      → take_up c fifo s ≢ Round.crashed
  unfolding take_up
  take_up_sound c [] s e posted sound = ground arith
  take_up_sound c (item ∷ items) s e posted sound = ground arith

  -- Under the invariant a worker whose semaphore lets it through finds an entry, or was told to
  -- stop: it never takes from an empty FIFO.
  pub worker_never_crashes :
      (c : ℕ) (s : State) → AllSound s → gb_pending_message_worker c s ≢ Round.crashed
  unfolding gb_pending_message_worker
  worker_never_crashes c s sound = elim (Bool-cases ((s.cports c).rx_fifo_lock == 0)) [
    | inl none_posted ↦ λ h. cc (rw none_posted at h)
    | inr posted ↦ λ h.
        take_up_sound c (s.cports c).rx_fifo s refl (==→ne _ _ posted) (sound c) (rw posted at h)
  ]

  take_up-AllSound :
      IsTame w
      → (c : ℕ) (fifo : List RxItem) (s s' : State) → (s.cports c).rx_fifo ≡ fifo
      → (s.cports c).rx_fifo_lock ≢ 0
      → AllSound s
      → take_up c fifo s ≡ Round.handled s'
      → AllSound s'
  unfolding take_up
  take_up-AllSound tame c [] s s' e posted sound h = absurd (ground arith)
  take_up-AllSound tame c (item ∷ items) s s' e posted sound h =
      let cport = s.cports c in
      let s₁ =
        set_cport c (record cport { rx_fifo_lock = cport.rx_fifo_lock - 1; rx_fifo = items }) s in
      let sound₁ : AllSound s₁ = λ d. elim (Bool-cases (c == d)) [
        | inl here ↦ ground (arith, sound c, sound d)
        | inr there ↦ ground (arith, sound d)
      ] in
      let same : process c item s₁ ≡ s' = cc in
      rw same at (SameRx-IsSound s₁ (process c item s₁) (process-SameRx tame c item s₁) sound₁)

  worker-AllSound :
      IsTame w
      → (c : ℕ) (s s' : State) → AllSound s
      → gb_pending_message_worker c s ≡ Round.handled s'
      → AllSound s'
  unfolding gb_pending_message_worker
  worker-AllSound tame c s s' sound h = elim (Bool-cases ((s.cports c).rx_fifo_lock == 0)) [
    | inl none_posted ↦ absurd (ground arith)
    | inr posted ↦
        take_up-AllSound tame c (s.cports c).rx_fifo s s' refl (==→ne _ _ posted) sound
          (rw posted at h)
  ]

  timeout-AllSound : (c : ℕ) (s : State) → AllSound s → AllSound (gb_operation_timeout c s)
  unfolding gb_operation_timeout
  timeout-AllSound c s sound d =
      ground (arith, sound d, push_rx-AllSound c RxItem.timedout s sound d)

  stop_round_sound :
      (c : ℕ) (fifo : List RxItem) (s s' : State)
      → (s.cports c).rx_fifo ≡ fifo
      → AllSound s
      → take_up c fifo s ≡ Round.stopped s'
      → AllSound s'
  unfolding take_up
  stop_round_sound c [] s s' e sound h d =
      let cport = s.cports c in
      let s₁ =
        set_cport c (record cport { rx_fifo_lock = cport.rx_fifo_lock - 1; thread = false }) s in
      let eq = stopped_if cport.exit_worker s₁ s' h in
      elim (Bool-cases (c == d)) [
        | inl here ↦ rw (← eq) (ground (arith, sound c, sound d))
        | inr there ↦ rw (← eq) (ground (arith, sound d))
      ]
  stop_round_sound c (item ∷ items) s s' e sound h d = absurd (ground arith)

  stop_round :
      (c : ℕ) (fifo : List RxItem) (s s' : State)
      → (s.cports c).rx_fifo ≡ fifo
      → AllSound s
      → take_up c fifo s ≡ Round.stopped s'
      → ((s'.cports c).rx_fifo ≡ [])
        × ((s'.cports c).rx_fifo_lock ≡ 0)
        × ((s'.cports c).thread ≡ false)
  unfolding take_up
  stop_round c [] s s' e sound h =
      let cport = s.cports c in
      let s₁ =
        set_cport c (record cport { rx_fifo_lock = cport.rx_fifo_lock - 1; thread = false }) s in
      let eq = stopped_if cport.exit_worker s₁ s' h in
      rw (← eq, ==-self c) (e, ground (arith, sound c), refl)
  stop_round c (item ∷ items) s s' e sound h = absurd (ground arith)

  -- Under the invariant, a worker that ends has emptied its FIFO, and has used up every post of its semaphore.
  pub worker_stops_clean :
      (c : ℕ) (s s' : State)
      → AllSound s
      → gb_pending_message_worker c s ≡ Round.stopped s'
      → ((s'.cports c).rx_fifo ≡ [])
        × ((s'.cports c).rx_fifo_lock ≡ 0)
        × ((s'.cports c).thread ≡ false)
  unfolding gb_pending_message_worker
  worker_stops_clean c s s' sound h = elim (Bool-cases ((s.cports c).rx_fifo_lock == 0)) [
    | inl none_posted ↦ absurd (ground arith)
    | inr posted ↦ stop_round c (s.cports c).rx_fifo s s' refl sound (rw posted at h)
  ]

  stop_worker-AllSound :
      (c : ℕ) (s : State)
      → (s.cports c).exit_worker ≡ false
      → AllSound s
      → AllSound (stop_worker c s)
  unfolding stop_worker stop_listening wd_cancel
  stop_worker-AllSound c s up sound d = elim (Bool-cases (c == d)) [
    | inl here ↦ ground (arith, sound c, sound d)
    | inr there ↦ ground (arith, sound d)
  ]

  queue-AllSound : (c : ℕ) (x : Option ℕ × State) → AllSound x.1 → AllSound (queue_message c x).1
  unfolding queue_message
  queue-AllSound c (none, s) sound = sound
  queue-AllSound c (some p, s) sound = push_rx-AllSound c (RxItem.received p) s sound

  deliver-AllSound :
      IsTame w
      → (c : ℕ) (msg : Message) (f : Option ℕ) (s : State) → AllSound s
      → AllSound (deliver c msg f s).1
  unfolding deliver
  deliver-AllSound tame c msg (some f) s sound =
      SameRx-IsSound s (w.run_fast f c msg s) (tame.fast_tame f c msg s) sound
  deliver-AllSound tame c msg none s sound =
      queue-AllSound c (gb_rx_create_operation c msg msg.size s) (
        SameRx-IsSound s (gb_rx_create_operation c msg msg.size s).1
          (rx_create-SameRx c msg msg.size s) sound)

  rx_handler-AllSound :
      IsTame w
      → (c : ℕ) (msg : Option Message) (size : ℕ) (s : State) → AllSound s
      → AllSound (greybus_rx_handler c msg size s).1
  unfolding greybus_rx_handler accept_message
  rx_handler-AllSound tame c none size s sound = sound
  rx_handler-AllSound tame c (some msg) size s sound =
      let accepted = λ (driver : Driver).
        deliver-AllSound tame c msg (fast_handler_of (find_operation_handler msg.typ driver))
          (tape_message c msg size s)
          (SameRx-IsSound s (tape_message c msg size s) (tape-SameRx c msg size s) sound) in
      λ d. grind (arith, sound d, accepted)

  start_worker-AllSound :
      (q : Qsort) (c d : ℕ) (driver : Driver) (s : State)
      → (s.cports c).rx_fifo_lock ≡ 0
      → AllSound s
      → AllSound (start_worker q c d driver s).1
  unfolding start_worker
  start_worker-AllSound q c d driver s idle sound k = elim (Bool-cases (c == k)) [
    | inl here ↦ ground (arith, sound k)
    | inr there ↦ ground (arith, sound k)
  ]

  -- What can happen to the core: a message comes in, the watchdog fires, a worker does a round
  -- or ends, a driver is unregistered (up to the pthread_join) or a worker started, or something
  -- that leaves the receiving sides alone.
  pub data Step : State → State → Type 0 where
    receive :
        (c : ℕ) (msg : Option Message) (size : ℕ) (s : State)
        → Step s (greybus_rx_handler c msg size s).1
    timeout : (c : ℕ) (s : State) → Step s (gb_operation_timeout c s)
    work : (c : ℕ) (s s' : State) → gb_pending_message_worker c s ≡ Round.handled s' → Step s s'
    finish : (c : ℕ) (s s' : State) → gb_pending_message_worker c s ≡ Round.stopped s' → Step s s'
    stop : (c : ℕ) (s : State) → Step s (stop_worker c s)
    start :
        (q : Qsort) (c d : ℕ) (driver : Driver) (s : State) → Step s (start_worker q c d driver s).1
    other : (s s' : State) → SameRx s s' → Step s s'

  pub data Reach (s : State) : State → Type 0 where
    here : Reach s s
    next : {t u : State} → Reach s t → Step t u → Reach s u

  -- What gb_register_driver and gb_unregister_driver leave to their callers: a worker is stopped
  -- when it is not being stopped yet, and started when the semaphore of its cport is at 0.
  abbrev pub IsOrderly : {s s' : State} → Step s s' → Type 0
  IsOrderly (Step.receive c msg size s) = Unit
  IsOrderly (Step.timeout c s) = Unit
  IsOrderly (Step.work c s s' h) = Unit
  IsOrderly (Step.finish c s s' h) = Unit
  IsOrderly (Step.stop c s) = (s.cports c).exit_worker ≡ false
  IsOrderly (Step.start q c d driver s) = (s.cports c).rx_fifo_lock ≡ 0
  IsOrderly (Step.other s s' same) = Unit

  -- Every step of a run is orderly.
  abbrev pub AllOrderly : {s s' : State} → Reach s s' → Type 0
  AllOrderly Reach.here = Unit
  AllOrderly (Reach.next r st) = AllOrderly r × IsOrderly st

  stopped-AllSound :
      (c : ℕ) (s s' : State)
      → AllSound s
      → gb_pending_message_worker c s ≡ Round.stopped s'
      → AllSound s'
  unfolding gb_pending_message_worker
  stopped-AllSound c s s' sound h = elim (Bool-cases ((s.cports c).rx_fifo_lock == 0)) [
    | inl none_posted ↦ absurd (ground arith)
    | inr posted ↦ stop_round_sound c (s.cports c).rx_fifo s s' refl sound (rw posted at h)
  ]

  Step-AllSound :
      IsTame w → {s s' : State} → (st : Step s s') → IsOrderly st → AllSound s → AllSound s'
  Step-AllSound tame (Step.receive c msg size s) o sound =
      rx_handler-AllSound tame c msg size s sound
  Step-AllSound tame (Step.timeout c s) o sound = timeout-AllSound c s sound
  Step-AllSound tame (Step.work c s s' h) o sound = worker-AllSound tame c s s' sound h
  Step-AllSound tame (Step.finish c s s' h) o sound = stopped-AllSound c s s' sound h
  Step-AllSound tame (Step.stop c s) up sound = stop_worker-AllSound c s up sound
  Step-AllSound tame (Step.start q c d driver s) idle sound =
      start_worker-AllSound q c d driver s idle sound
  Step-AllSound tame (Step.other s s' same) o sound = SameRx-IsSound s s' same sound

  Reach-AllSound :
      IsTame w → {s s' : State} → (r : Reach s s') → AllOrderly r → AllSound s → AllSound s'
  Reach-AllSound tame Reach.here o sound = sound
  Reach-AllSound tame (Reach.next r st) o sound =
      Step-AllSound tame st o.1 (Reach-AllSound tame r o.0 sound)

  -- From a state in which every semaphore is at 0, a run of orderly steps brings no worker to
  -- take an entry from an empty rx_fifo, if the handlers and callbacks leave the receiving sides
  -- alone.
  pub reachable_never_crashes :
      IsTame w
      → (s s' : State) → ((c : ℕ) → (s.cports c).rx_fifo_lock ≡ 0)
      → (r : Reach s s') → AllOrderly r
      → (c : ℕ) → gb_pending_message_worker c s' ≢ Round.crashed
  reachable_never_crashes tame s s' fresh r o c =
      worker_never_crashes c s' (Reach-AllSound tame r o (λ d. rw (fresh d) (omega arith)))
