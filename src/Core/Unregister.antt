-- ===== src/Core/Unregister.antt =====
-- gb_unregister_driver (subsys/greybus/greybus-core.c) with the worker's loop as its pthread_join.
use greybus_for_zephyr.Base.{
  ℕ, zero, suc, ◌≡◌, refl, ap, ◌∙◌, Bool, true, false, ◌||◌, Option, none, some, List, [], ◌∷◌,
  ◌==◌, arith, pos, length, ==-self, leb, All, inl, inr, Bool-cases,
}
use greybus_for_zephyr.Errno.{Errno}
use greybus_for_zephyr.Handlers.{Driver}
use greybus_for_zephyr.Core.{CPort, State, World, set_cport}
use greybus_for_zephyr.Core.Lifecycle.{gb_operation_unref, unref_rounds, drop_ref, on_response}
use greybus_for_zephyr.Core.Send.{remove}
use greybus_for_zephyr.Core.Receive.{driver_of}
use greybus_for_zephyr.Core.Register.{
  flush_from, gb_flush_tx_fifo, stop_worker, call_exit, release_driver, gb_unregister_driver,
  is_set,
}
use greybus_for_zephyr.Core.Quiet.{IsTame}
use greybus_for_zephyr.Core.Drain.{run_worker, worker_joins, HasEnded}

drop_ref-cports : (p : ℕ) (s : State) → (drop_ref p s).1.cports ≡ s.cports
unfolding drop_ref
drop_ref-cports p s = ground arith

on_response-cports :
    (f : ℕ → State → State) (x : Option ℕ × State)
    → ((q : ℕ) (t : State) → (f q t).cports ≡ t.cports)
    → (on_response f x).cports ≡ x.1.cports
on_response-cports f (none, t) h = refl
on_response-cports f (some q, t) h = h q t

unref_rounds-cports : (fuel p : ℕ) (s : State) → (unref_rounds fuel p s).cports ≡ s.cports
unfolding unref_rounds
unref_rounds-cports zero p s = refl
unref_rounds-cports (suc fuel) p s =
    on_response-cports (unref_rounds fuel) (drop_ref p s) (unref_rounds-cports fuel)
    ∙ drop_ref-cports p s

-- References are no matter of the cports.
pub unref-cports : (p : ℕ) (s : State) → (gb_operation_unref p s).cports ≡ s.cports
unfolding gb_operation_unref
unref-cports p s = unref_rounds-cports (suc s.next_op) p s

abbrev is_in : ℕ → List ℕ → Bool
is_in q [] = false
is_in q (p ∷ ps) = (q == p) || is_in q ps

-- What is left of a FIFO behind the removal of each of `ps`.
abbrev remove_all : List ℕ → List ℕ → List ℕ
remove_all [] l = l
remove_all (p ∷ ps) l = remove_all ps (remove p l)

remove_all-none : (ps : List ℕ) → remove_all ps [] ≡ []
remove_all-none [] = refl
remove_all-none (p ∷ ps) = remove_all-none ps

AllIn-remove :
    (p : ℕ) (ps l : List ℕ)
    → All (λ q. is_in q (p ∷ ps) ≡ true) l
    → All (λ q. is_in q ps ≡ true) (remove p l)
AllIn-remove p ps [] h = tt
AllIn-remove p ps (q ∷ l) h = elim (Bool-cases (q == p)) [
  | inl same ↦ rw same (AllIn-remove p ps l h.1)
  | inr other ↦ rw other (rw other at h.0, AllIn-remove p ps l h.1)
]

remove_all-in : (ps l : List ℕ) → All (λ q. is_in q ps ≡ true) l → remove_all ps l ≡ []
remove_all-in [] [] h = refl
remove_all-in [] (q ∷ l) h = cc
remove_all-in (p ∷ ps) l h = remove_all-in ps (remove p l) (AllIn-remove p ps l h)

AllIn-cons :
    (p : ℕ) (ps l : List ℕ) → All (λ q. is_in q ps ≡ true) l → All (λ q. is_in q (p ∷ ps) ≡ true) l
AllIn-cons p ps [] h = tt
AllIn-cons p ps (q ∷ l) h = (ground (arith, h.0), AllIn-cons p ps l h.1)

AllIn-self : (ps : List ℕ) → All (λ q. is_in q ps ≡ true) ps
AllIn-self [] = tt
AllIn-self (p ∷ ps) = (rw (==-self p), AllIn-cons p ps ps (AllIn-self ps))

-- Everything of a cport but its tx_fifo and its driver.
abbrev rest_of : CPort → CPort
rest_of cport = record cport { tx_fifo = []; driver = none }

flush_from_lem :
    (c : ℕ) (ps : List ℕ) (s : State)
    → ((flush_from c ps s).cports c).tx_fifo ≡ remove_all ps (s.cports c).tx_fifo
unfolding flush_from
flush_from_lem c [] s = refl
flush_from_lem c (p ∷ ps) s =
    let cport = s.cports c in
    let s₁ = set_cport c (record cport { tx_fifo = remove p cport.tx_fifo }) s in
    flush_from_lem c ps (gb_operation_unref p s₁)
    ∙ ap (λ f. remove_all ps (f c).tx_fifo) (unref-cports p s₁)
    ∙ rw (==-self c)

flush_from-rest :
    (c : ℕ) (ps : List ℕ) (s : State)
    → rest_of ((flush_from c ps s).cports c) ≡ rest_of (s.cports c)
unfolding flush_from
flush_from-rest c [] s = refl
flush_from-rest c (p ∷ ps) s =
    let cport = s.cports c in
    let s₁ = set_cport c (record cport { tx_fifo = remove p cport.tx_fifo }) s in
    flush_from-rest c ps (gb_operation_unref p s₁)
    ∙ ap (λ f. rest_of (f c)) (unref-cports p s₁)
    ∙ rw (==-self c)

flush_lem :
    (c : ℕ) (s : State)
    → (((gb_flush_tx_fifo c s).cports c).tx_fifo ≡ [])
      × (rest_of ((gb_flush_tx_fifo c s).cports c) ≡ rest_of (s.cports c))
unfolding gb_flush_tx_fifo
flush_lem c s =
    let ps = (s.cports c).tx_fifo in
    (flush_from_lem c ps s ∙ remove_all-in ps ps (AllIn-self ps), flush_from-rest c ps s)

call_exit-cports :
    (driver : Option Driver) (c : ℕ) (s : State) → (call_exit driver c s).cports ≡ s.cports
call_exit-cports none c s = refl
call_exit-cports (some driver) c s = ground arith

abbrev or_same : State → Option State → State
or_same s none = s
or_same s (some s') = s'

module _ ⦃e : Errno⦄ ⦃w : World⦄ where
  -- pthread_join as the worker's loop, which it waits for. A worker that never ends would leave
  -- the state as it is here.
  abbrev pub join_worker : ℕ → ℕ → State → State
  join_worker fuel c s = or_same s (run_worker fuel c s)

  release_lem :
      (c : ℕ) (s : State)
      → let s' = release_driver c s in
        ((s'.cports c).driver ≡ none)
        × ((s'.cports c).tx_fifo ≡ [])
        × (rest_of (s'.cports c) ≡ rest_of (s.cports c))
  unfolding release_driver
  release_lem c s =
      let s₁ = gb_flush_tx_fifo c s in
      let (tx, rest) = flush_lem c s in
      let same = call_exit-cports (driver_of c s₁) c s₁ in rw (same, ==-self c) (refl, tx, rest)

  -- A cport as gb_init leaves it, but for the stop flag, which the next registration clears.
  pub record IsFree (c : ℕ) (s : State) : Type 0 where
    pub no_driver : (s.cports c).driver ≡ none
    pub no_request : (s.cports c).tx_fifo ≡ []
    pub ended : HasEnded c s

  unregister_lem :
      (join : ℕ → State → State) (c : ℕ) (s : State)
      → leb s.cport_count c ≡ false
      → is_set (s.cports c).driver ≡ true
      → s.has_backend ≡ true
      → gb_unregister_driver join c s ≡ (pos 0, release_driver c (join c (stop_worker c s)))
  unfolding gb_unregister_driver
  unregister_lem join c s inside set up = rw (inside, set, up)

  -- gb_unregister_driver of a cport that has a driver returns 0 and leaves the cport free: no
  -- driver, no request that waits, no message, a semaphore at 0 and no thread. It waits for the
  -- worker, whose semaphore must count the entries of its FIFO, and the handlers and callbacks
  -- must leave the receiving sides alone.
  pub unregister_frees :
      IsTame w
      → (c : ℕ) (s : State) → leb s.cport_count c ≡ false
      → is_set (s.cports c).driver ≡ true
      → s.has_backend ≡ true
      → (s.cports c).rx_fifo_lock ≡ length (s.cports c).rx_fifo
      → let (retval, s') =
          gb_unregister_driver (join_worker (suc (length (s.cports c).rx_fifo))) c s in
        (retval ≡ pos 0) × IsFree c s'
  unregister_frees tame c s inside set up exact =
      let (s₁, ran, ended) = worker_joins tame c s exact in
      let (driver, tx, rest) = release_lem c s₁ in
      rw (unregister_lem (join_worker (suc (length (s.cports c).rx_fifo))) c s inside set up, ran)
        (
          refl,
          record {
            no_driver = driver;
            no_request = tx;
            ended = record {
              no_entry = ap (λ cport. cport.rx_fifo) rest ∙ ended.no_entry;
              no_post = ap (λ cport. cport.rx_fifo_lock) rest ∙ ended.no_post;
              no_thread = ap (λ cport. cport.thread) rest ∙ ended.no_thread;
            };
          },
        )
