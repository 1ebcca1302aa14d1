-- ===== src/Core/Drain.antt =====
-- A worker that is told to stop, and the pthread_join that waits for it
-- (gb_pending_message_worker and gb_unregister_driver of subsys/greybus/greybus-core.c).
use greybus_for_zephyr.Base.{
  ℕ, zero, suc, ◌-◌, ◌≡◌, ◌≢◌, ap, ◌∙◌, true, false, Option, none, some, List, [], ◌∷◌,
  if◌then◌else◌, arith, length, ==-self, ne→==,
}
use greybus_for_zephyr.Errno.{Errno}
use greybus_for_zephyr.Core.{RxItem, State, World, set_cport}
use greybus_for_zephyr.Core.Receive.{Round, gb_pending_message_worker, take_up, process}
use greybus_for_zephyr.Core.Register.{stop_worker, stop_listening}
use greybus_for_zephyr.Core.Send.{wd_cancel}
use greybus_for_zephyr.Core.Quiet.{SameRx, IsTame, process-SameRx}

-- The end of the loop of gb_pending_message_worker: `none` for a worker that waits on its
-- semaphore for good, takes from an empty FIFO, or needs more rounds than the fuel.
abbrev pub after_work : (State → Option State) → Round → Option State
after_work rest Round.blocked = none
after_work rest Round.crashed = none
after_work rest (Round.stopped s) = some s
after_work rest (Round.handled s) = rest s

module _ ⦃e : Errno⦄ ⦃w : World⦄ where
  -- The loop of gb_pending_message_worker, on fuel.
  unfoldable pub run_worker : ℕ → ℕ → State → Option State
  run_worker zero c s = none
  run_worker (suc fuel) c s = after_work (run_worker fuel c) (gb_pending_message_worker c s)

  woken :
      (c : ℕ) (s : State)
      → (s.cports c).rx_fifo_lock ≢ 0
      → gb_pending_message_worker c s ≡ take_up c (s.cports c).rx_fifo s
  unfolding gb_pending_message_worker
  woken c s posted = rw (ne→== (s.cports c).rx_fifo_lock 0 posted)

  round_item :
      (c : ℕ) (item : RxItem) (items : List RxItem) (s : State)
      → (s.cports c).rx_fifo ≡ item ∷ items
      → (s.cports c).rx_fifo_lock ≢ 0
      → let cport = s.cports c in
        let s₁ =
          set_cport c (record cport { rx_fifo_lock = cport.rx_fifo_lock - 1; rx_fifo = items }) s in
        gb_pending_message_worker c s ≡ Round.handled (process c item s₁)
  unfolding take_up
  round_item c item items s e posted = woken c s posted ∙ ap (λ fifo. take_up c fifo s) e

  round_stop :
      (c : ℕ) (s : State)
      → (s.cports c).rx_fifo ≡ []
      → (s.cports c).rx_fifo_lock ≢ 0
      → (s.cports c).exit_worker ≡ true
      → let cport = s.cports c in
        gb_pending_message_worker c s
        ≡ Round.stopped
            (set_cport c (record cport { rx_fifo_lock = cport.rx_fifo_lock - 1; thread = false }) s)
  unfolding take_up
  round_stop c s e posted stop =
      let cport = s.cports c in
      let s₁ =
        set_cport c (record cport { rx_fifo_lock = cport.rx_fifo_lock - 1; thread = false }) s in
      woken c s posted
      ∙ ap (λ fifo. take_up c fifo s) e
      ∙ ap (λ b. if b then Round.stopped s₁ else Round.crashed) stop

  -- A worker that was told to stop, with a post for each entry and one more.
  pub record IsStopping (c : ℕ) (fifo : List RxItem) (s : State) : Type 0 where
    pub entries : (s.cports c).rx_fifo ≡ fifo
    pub posts : (s.cports c).rx_fifo_lock ≡ suc (length fifo)
    pub told : (s.cports c).exit_worker ≡ true

  -- What the cport looks like behind the worker's end.
  pub record HasEnded (c : ℕ) (s : State) : Type 0 where
    pub no_entry : (s.cports c).rx_fifo ≡ []
    pub no_post : (s.cports c).rx_fifo_lock ≡ 0
    pub no_thread : (s.cports c).thread ≡ false

  SameRx-IsStopping :
      (c : ℕ) (fifo : List RxItem) (s s' : State)
      → SameRx s s'
      → IsStopping c fifo s
      → IsStopping c fifo s'
  SameRx-IsStopping c fifo s s' same h = ground (arith, same c)

  worker_ends :
      IsTame w
      → (c : ℕ) (fifo : List RxItem) (s : State) → IsStopping c fifo s
      → (s' : State) × (run_worker (suc (length fifo)) c s ≡ some s') × HasEnded c s'
  unfolding run_worker
  worker_ends tame c [] s h =
      let cport = s.cports c in
      let s₁ =
        set_cport c (record cport { rx_fifo_lock = cport.rx_fifo_lock - 1; thread = false }) s in
      (
        s₁,
        rw (round_stop c s h.entries (omega (arith, h.posts)) h.told),
        record {
          no_entry = rw (==-self c) h.entries;
          no_post = rw (==-self c) (omega (arith, h.posts));
          no_thread = rw (==-self c);
        },
      )
  worker_ends tame c (item ∷ items) s h =
      let cport = s.cports c in
      let s₁ =
        set_cport c (record cport { rx_fifo_lock = cport.rx_fifo_lock - 1; rx_fifo = items }) s in
      let next : IsStopping c items s₁ = record {
        entries = rw (==-self c);
        posts = rw (==-self c) (omega (arith, h.posts));
        told = rw (==-self c) h.told;
      } in
      let (s', ran, ended) =
        worker_ends tame c items (process c item s₁)
          (SameRx-IsStopping c items s₁ (process c item s₁) (process-SameRx tame c item s₁) next) in
      (s', rw (round_item c item items s h.entries (omega (arith, h.posts))) ran, ended)

  stop_worker-IsStopping :
      (c : ℕ) (s : State)
      → (s.cports c).rx_fifo_lock ≡ length (s.cports c).rx_fifo
      → IsStopping c (s.cports c).rx_fifo (stop_worker c s)
  unfolding stop_worker stop_listening wd_cancel
  stop_worker-IsStopping c s exact = record {
    entries = rw (==-self c);
    posts = rw (==-self c) (omega (arith, exact));
    told = rw (==-self c);
  }

  -- The pthread_join of gb_unregister_driver returns: a worker that is told to stop while its
  -- semaphore counts the entries of its FIFO ends within one round for each of them and one more,
  -- with the FIFO empty, the semaphore at 0 and the thread gone. The handlers and callbacks must
  -- leave the receiving sides alone.
  pub worker_joins :
      IsTame w
      → (c : ℕ) (s : State) → (s.cports c).rx_fifo_lock ≡ length (s.cports c).rx_fifo
      → (s' : State) × (run_worker (suc (length (s.cports c).rx_fifo)) c (stop_worker c s)
          ≡ some s')
        × HasEnded c s'
  worker_joins tame c s exact =
      worker_ends tame c (s.cports c).rx_fifo (stop_worker c s) (stop_worker-IsStopping c s exact)
