-- ===== src/Core/Matching.antt =====
-- gb_process_response (subsys/greybus/greybus-core.c): which request a response completes.
use greybus_for_zephyr.Base.{
  ℕ, ◌+◌, ◌-◌, ◌≡◌, ◌≢◌, ◌<◌, refl, sym, ap, ◌∙◌, none, some, List, [], ◌∷◌, ◌++◌, All, inl, inr,
  Option-cases, ==-self, ne→==,
}
use greybus_for_zephyr.Errno.{Errno}
use greybus_for_zephyr.Core.{Operation, Callback, State, World, set_op, set_cport}
use greybus_for_zephyr.Core.Lifecycle.{atomic_mod, gb_operation_ref, gb_operation_unref}
use greybus_for_zephyr.Core.Send.{remove, run_callback}
use greybus_for_zephyr.Core.Receive.{attach, find_request, complete_request, gb_process_response}
use greybus_for_zephyr.Core.Refs.{IsLive, ref_lem, unref_held}
use greybus_for_zephyr.Core.Requests.{watchdog_same}

-- The operation at an address waits under another id, if there is one.
abbrev pub Differs : ℕ → State → ℕ → Type 0
Differs id s p = (op : Operation) → s.ops p ≡ some op → op.request_buffer.id ≢ id

find_request-first :
    (id q : ℕ) (op : Operation) (s : State) (before after : List ℕ)
    → s.ops q ≡ some op
    → op.request_buffer.id ≡ id
    → All (Differs id s) before
    → find_request id (before ++ q ∷ after) s ≡ some q
unfolding find_request
find_request-first id q op s [] after there same differ = rw (there, find_request, same, ==-self id)
find_request-first id q op s (p ∷ before) after there same differ = elim (Option-cases (s.ops p)) [
  | inl gone ↦
      rw (gone, find_request) (find_request-first id q op s before after there same differ.1)
  | inr (x, here) ↦
      rw (here, find_request, ne→== id x.request_buffer.id (λ h. differ.0 x here (sym h)))
        (find_request-first id q op s before after there same differ.1)
]

find_request-none :
    (id : ℕ) (s : State) (ps : List ℕ) → All (Differs id s) ps → find_request id ps s ≡ none
unfolding find_request
find_request-none id s [] differ = refl
find_request-none id s (p ∷ ps) differ = elim (Option-cases (s.ops p)) [
  | inl gone ↦ rw (gone, find_request) (find_request-none id s ps differ.1)
  | inr (x, here) ↦
      rw (here, find_request, ne→== id x.request_buffer.id (λ h. differ.0 x here (sym h)))
        (find_request-none id s ps differ.1)
]

module _ ⦃e : Errno⦄ ⦃w : World⦄ where
  process_response_steps :
      (p q : ℕ) (resp : Operation) (s : State)
      → s.ops p ≡ some resp
      → find_request resp.request_buffer.id (s.cports resp.cport).tx_fifo s ≡ some q
      → gb_process_response p s ≡ complete_request resp.cport q p s
  unfolding gb_process_response
  process_response_steps p q resp s there found = rw (there, gb_process_response, found)

  -- The request as gb_operation_callback_sync leaves it, with a reference less.
  abbrev pub completed : ℕ → Operation → Operation
  completed p op = record op {
    response = some p;
    sync_sem = op.sync_sem + 1;
    ref_count = op.ref_count - 1;
  }

  run_sync :
      (q : ℕ) (op : Operation) (s : State)
      → s.ops q ≡ some op
      → run_callback q (some Callback.sync) s
        ≡ set_op q (record op { sync_sem = op.sync_sem + 1 }) s
  unfolding run_callback
  run_sync q op s there = rw (there, run_callback)

  complete_lem :
      (c p q : ℕ) (resp op : Operation) (s : State)
      → IsLive p resp s
      → IsLive q op s
      → q ≢ p
      → resp.ref_count + 1 < atomic_mod
      → 1 < op.ref_count
      → op.callback ≡ some Callback.sync
      → let cport = s.cports c in
        complete_request c q p s
        ≡ set_op q (completed p op) (
            set_op q
              (record op { response = some p; sync_sem = op.sync_sem + 1 })
              (set_op q
                (record op { response = some p })
                (set_op p
                  (record resp { ref_count = resp.ref_count + 1 })
                  (set_cport c (record cport { tx_fifo = remove q cport.tx_fifo }) s))))
  unfolding complete_request
  complete_lem c p q resp op s l k ne room held sync =
      let cport = s.cports c in
      let s₀ = set_cport c (record cport { tx_fifo = remove q cport.tx_fifo }) s in
      let s₁ = set_op p (record resp { ref_count = resp.ref_count + 1 }) s₀ in
      let op₁ = record op { response = some p; sync_sem = op.sync_sem + 1 } in
      let s₂ = set_op q (record op { response = some p }) s₁ in
      let s₃ = set_op q op₁ s₂ in
      let referred : gb_operation_ref p s₀ ≡ s₁ =
        ref_lem p resp s₀ (record { there = l.there; held = l.held; no_wrap = l.no_wrap }) room in
      let mine : s₁.ops q ≡ some op = rw (ne→== p q (λ h. ne (sym h))) k.there in
      let live : IsLive q op₁ s₃ = record {
        there = rw (==-self q);
        held = k.held;
        no_wrap = k.no_wrap;
      } in
      ap (λ t. attach q p (t.ops q) t) (ap (gb_operation_ref p) (watchdog_same c s₀) ∙ referred)
      ∙ ap (λ o. attach q p o s₁) mine
      ∙ ap (λ f. gb_operation_unref q (run_callback q f s₂)) sync
      ∙ ap (gb_operation_unref q) (run_sync q (record op { response = some p }) s₂ (rw (==-self q)))
      ∙ unref_held q op₁ s₃ live held

  -- A response completes the first request of its cport's tx_fifo that waits under its id, and no
  -- other: the request leaves the FIFO with the response attached, gb_operation_callback_sync
  -- wakes its caller, the FIFO's reference on it is dropped, the response gains one, and no third
  -- operation changes. The request must have that callback and more references than the FIFO's,
  -- and the count of the response must not wrap.
  pub response_completes :
      (p q : ℕ) (resp op : Operation) (s : State) (before after : List ℕ)
      → IsLive p resp s
      → IsLive q op s
      → q ≢ p
      → resp.ref_count + 1 < atomic_mod
      → 1 < op.ref_count
      → op.callback ≡ some Callback.sync
      → op.request_buffer.id ≡ resp.request_buffer.id
      → (s.cports resp.cport).tx_fifo ≡ before ++ q ∷ after
      → All (Differs resp.request_buffer.id s) before
      → let s' = gb_process_response p s in
        (s'.ops q ≡ some (completed p op))
        × (s'.ops p ≡ some (record resp { ref_count = resp.ref_count + 1 }))
        × ((s'.cports resp.cport).tx_fifo ≡ remove q (before ++ q ∷ after))
        × ((r : ℕ) → r ≢ p → r ≢ q → s'.ops r ≡ s.ops r)
  response_completes p q resp op s before after l k ne room held sync same fifo differ =
      let found : find_request resp.request_buffer.id (s.cports resp.cport).tx_fifo s ≡ some q =
        ap (λ ps. find_request resp.request_buffer.id ps s) fifo
        ∙ find_request-first resp.request_buffer.id q op s before after k.there same differ in
      let steps =
        process_response_steps p q resp s l.there found
        ∙ complete_lem resp.cport p q resp op s l k ne room held sync in
      (
        ap (λ t. t.ops q) steps ∙ rw (==-self q),
        ap (λ t. t.ops p) steps ∙ rw (ne→== q p ne, ==-self p),
        ap (λ t. (t.cports resp.cport).tx_fifo) steps
            ∙ rw (==-self resp.cport) (ap (remove q) fifo),
        λ r rp rq.
            ap (λ t. t.ops r) steps ∙ rw (ne→== q r (λ h. rq (sym h)), ne→== p r (λ h. rp (sym h))),
      )

  -- A response that no request of the cport waits for is dropped: the state stays as it is.
  pub response_dropped :
      (p : ℕ) (resp : Operation) (s : State)
      → s.ops p ≡ some resp
      → All (Differs resp.request_buffer.id s) (s.cports resp.cport).tx_fifo
      → gb_process_response p s ≡ s
  unfolding gb_process_response
  response_dropped p resp s there differ = rw (
    there,
    gb_process_response,
    find_request-none resp.request_buffer.id s (s.cports resp.cport).tx_fifo differ,
  )
