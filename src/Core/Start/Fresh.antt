-- ===== src/Core/Start/Fresh.antt =====
-- What gb_init leaves, and what a tape does to it.
use greybus_for_zephyr.Base.{ℕ, ◌≡◌, ◌≢◌, Bool, true, false, [], arith, pos, neg-ne-pos}
use greybus_for_zephyr.Errno.{Errno, IsPositive}
use greybus_for_zephyr.Core.{State, World}
use greybus_for_zephyr.Core.Quiet.{IsTame}
use greybus_for_zephyr.Core.Receive.{Round, gb_pending_message_worker}
use greybus_for_zephyr.Core.Start.{gb_init}
use greybus_for_zephyr.Core.Worker.{Reach, AllOrderly, reachable_never_crashes}

module _ ⦃e : Errno⦄ ⦃w : World⦄ where
  init_lem :
      IsPositive e
      → (transport : Bool) (s s' : State) → gb_init transport s ≡ (pos 0, s')
      → (c : ℕ) → ((s'.cports c).rx_fifo_lock ≡ 0) × ((s'.cports c).rx_fifo ≡ [])
  unfolding gb_init
  init_lem p false s s' h c = absurd (neg-ne-pos e.einval 0 p.einval_pos cc)
  init_lem p true s s' h c = ground (arith, neg-ne-pos e.enomem 0 p.enomem_pos)

  -- From the state that a successful gb_init leaves, no sequence of received messages, worker
  -- rounds, timeouts, starts and stops brings a worker to take an entry from an empty rx_fifo, if
  -- each stop is of a worker that is not being stopped yet, each start of a worker finds the
  -- semaphore of its cport at 0, and the handlers and callbacks leave the receiving sides alone.
  pub init_never_crashes :
      IsPositive e
      → IsTame w
      → (transport : Bool) (s s₀ s' : State) → gb_init transport s ≡ (pos 0, s₀)
      → (r : Reach s₀ s') → AllOrderly r
      → (c : ℕ) → gb_pending_message_worker c s' ≢ Round.crashed
  init_never_crashes p tame transport s s₀ s' started r o =
      reachable_never_crashes tame s₀ s' (λ c. (init_lem p transport s s₀ started c).0) r o
