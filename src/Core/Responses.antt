-- ===== src/Core/Responses.antt =====
-- gb_operation_send_response: the one response of an operation.
use greybus_for_zephyr.Base.{
  ℕ, ◌≡◌, refl, ap, ◌∙◌, Bool, true, false, none, some, [], ◌∷◌, pos, neg, ==-self, ◌&&◌, not, ℤ,
  is_zero, ◌++◌, if◌then◌else◌, ◌⊎◌, inl, inr, Bool-cases,
}
use Prim.Native.Nat.{bit_or}
use greybus_for_zephyr.Errno.{Errno}
use greybus_for_zephyr.OpResult
use greybus_for_zephyr.Core.{
  Message, Operation, State, World, set_op, log, Event, response_flag, hdr_size,
}
use greybus_for_zephyr.Core.Lifecycle.{gb_operation_alloc_response, zeros}
use greybus_for_zephyr.Core.Send.{
  gb_operation_send_response, send_buffer, gb_operation_send_oom_response,
}

-- The header that answers an operation's request: its id, its type with the response flag.
abbrev pub reply : Operation → ℕ → Message
reply op result = record {
  size = hdr_size;
  id = op.request_buffer.id;
  typ = bit_or response_flag op.request_buffer.typ;
  result = result;
  payload = [];
}

module _ ⦃e : Errno⦄ ⦃w : World⦄ where
  send_response_done :
      (p result : ℕ) (op : Operation) (s : State)
      → s.ops p ≡ some op
      → (s.cports op.cport).exit_worker ≡ false
      → op.has_responded ≡ true
      → gb_operation_send_response p result s ≡ (neg e.einval, s)
  unfolding gb_operation_send_response
  send_response_done p result op s there up done = rw (there, gb_operation_send_response, up, done)

  alloc_response_lem :
      (p : ℕ) (op : Operation) (s : State)
      → s.ops p ≡ some op
      → w.alloc_buf s.trace hdr_size ≡ true
      → gb_operation_alloc_response p 0 s ≡ (
        true,
        set_op p
            (record op { response_buffer = some (reply op 0) })
            (log (Event.allocated hdr_size) s),
      )
  unfolding gb_operation_alloc_response zeros
  alloc_response_lem p op s there room = rw (there, gb_operation_alloc_response, room)

  send_response_alloc :
      (p result : ℕ) (op : Operation) (s : State)
      → s.ops p ≡ some op
      → (s.cports op.cport).exit_worker ≡ false
      → op.has_responded ≡ false
      → op.response_buffer ≡ none
      → gb_operation_send_response p result s
        ≡ send_buffer p result true (gb_operation_alloc_response p 0 s).1
  unfolding gb_operation_send_response
  send_response_alloc p result op s there up open_op empty =
      rw (there, gb_operation_send_response, up, open_op, empty)

  send_buffer_sent :
      (p result : ℕ) (allocated : Bool) (op : Operation) (resp : Message) (s : State)
      → s.ops p ≡ some op
      → op.response_buffer ≡ some resp
      → w.send s.trace op.cport (record resp { result = result }) ≡ pos 0
      → send_buffer p result allocated s ≡ (
        pos 0,
        set_op p
            (record op {
              response_buffer = some (record resp { result = result });
              has_responded = true;
            })
            (log (Event.sent op.cport (record resp { result = result })) s),
      )
  unfolding send_buffer
  send_buffer_sent p result allocated op resp s there buffer sent =
      rw (there, send_buffer, buffer, sent)

  alloc_response_full :
      (p : ℕ) (op : Operation) (s : State)
      → s.ops p ≡ some op
      → w.alloc_buf s.trace hdr_size ≡ false
      → gb_operation_alloc_response p 0 s ≡ (
        false,
        set_op p (record op { response_buffer = none }) (log (Event.allocated hdr_size) s),
      )
  unfolding gb_operation_alloc_response
  alloc_response_full p op s there full = rw (there, gb_operation_alloc_response, full)

  send_buffer_oom :
      (p result : ℕ) (allocated : Bool) (op : Operation) (s : State)
      → s.ops p ≡ some op
      → op.response_buffer ≡ none
      → (s.cports op.cport).exit_worker ≡ false
      → send_buffer p result allocated s ≡ (
        w.send s.trace op.cport (reply op OpResult.no_memory),
        log (Event.sent op.cport (reply op OpResult.no_memory)) s,
      )
  unfolding send_buffer gb_operation_send_oom_response
  send_buffer_oom p result allocated op s there empty up =
      rw (there, send_buffer, empty, gb_operation_send_oom_response, up)

  -- An operation that has no response yet gets one, on the wire with the id of its request, the
  -- type with the response flag, and the result; from then on a further response is refused with
  -- -EINVAL and sends nothing. The allocation and the backend must succeed,
  -- and the worker of the cport must not be being stopped.
  pub send_response_once :
      (p result : ℕ) (op : Operation) (s : State)
      → s.ops p ≡ some op
      → (s.cports op.cport).exit_worker ≡ false
      → op.has_responded ≡ false
      → op.response_buffer ≡ none
      → w.alloc_buf s.trace hdr_size ≡ true
      → w.send (Event.allocated hdr_size ∷ s.trace) op.cport (reply op result) ≡ pos 0
      → let (retval, s') = gb_operation_send_response p result s in
        (retval ≡ pos 0)
        × (s'.trace ≡ Event.sent op.cport (reply op result) ∷ Event.allocated hdr_size ∷ s.trace)
        × ((again : ℕ) → gb_operation_send_response p again s' ≡ (neg e.einval, s'))
  send_response_once p result op s there up open_op empty room sent =
      let op₁ = record op { response_buffer = some (reply op 0) } in
      let s₁ = set_op p op₁ (log (Event.allocated hdr_size) s) in
      let op₂ = record op { response_buffer = some (reply op result); has_responded = true } in
      let s₂ = set_op p op₂ (log (Event.sent op.cport (reply op result)) s₁) in
      let result_eq : gb_operation_send_response p result s ≡ (pos 0, s₂) =
        send_response_alloc p result op s there up open_op empty
        ∙ ap (λ x. send_buffer p result true x.1) (alloc_response_lem p op s there room)
        ∙ send_buffer_sent p result true op₁ (reply op 0) s₁ (rw (==-self p)) refl sent in
      rw result_eq (refl, refl, λ again. send_response_done p again op₂ s₂ (rw (==-self p)) up refl)

  send_buffer_done :
      (p result : ℕ) (op : Operation) (resp : Message) (s : State)
      → s.ops p ≡ some op
      → op.response_buffer ≡ some resp
      → is_zero (w.send s.trace op.cport (record resp { result = result })) ≡ true
      → send_buffer p result true s ≡ (
        w.send s.trace op.cport (record resp { result = result }),
        set_op p
            (record op {
              response_buffer = some (record resp { result = result });
              has_responded = true;
            })
            (log (Event.sent op.cport (record resp { result = result })) s),
      )
  unfolding send_buffer
  send_buffer_done p result op resp s there buffer sent = rw (there, send_buffer, buffer, sent)

  send_buffer_refused :
      (p result : ℕ) (op : Operation) (resp : Message) (s : State)
      → s.ops p ≡ some op
      → op.response_buffer ≡ some resp
      → is_zero (w.send s.trace op.cport (record resp { result = result })) ≡ false
      → send_buffer p result true s ≡ (
        w.send s.trace op.cport (record resp { result = result }),
        set_op p
            (record op { response_buffer = none })
            (log Event.freed (log (Event.sent op.cport (record resp { result = result })) s)),
      )
  unfolding send_buffer
  send_buffer_refused p result op resp s there buffer sent = rw (there, send_buffer, buffer, sent)

  -- One allocation was made, `room` says whether it succeeded, and one reply sent, of which the
  -- backend said what is returned; `taken` says whether it took it. The operation keeps the
  -- response, and counts as responded, only where both are true, and a response that it does not
  -- keep is freed.
  abbrev pub IsAnswered : Bool → Bool → Message → ℕ → Operation → State → ℤ × State → Type 0
  IsAnswered room taken answer p op s x =
      (x.0 ≡ w.send (Event.allocated hdr_size ∷ s.trace) op.cport answer)
      × (x.1.trace
          ≡ (if room && not taken then Event.freed ∷ [] else [])
            ++ Event.sent op.cport answer ∷ Event.allocated hdr_size ∷ s.trace)
      × (x.1.ops p
          ≡ some (record op {
            response_buffer = if room && taken then some answer else none;
            has_responded = if room && taken then true else op.has_responded;
          }))

  answers_lem :
      (p result : ℕ) (room taken : Bool) (op : Operation) (s : State)
      → s.ops p ≡ some op
      → (s.cports op.cport).exit_worker ≡ false
      → op.has_responded ≡ false
      → op.response_buffer ≡ none
      → w.alloc_buf s.trace hdr_size ≡ room
      → let answer = reply op (if room then result else OpResult.no_memory) in
        is_zero (w.send (Event.allocated hdr_size ∷ s.trace) op.cport answer) ≡ taken
        → IsAnswered room taken answer p op s (gb_operation_send_response p result s)
  answers_lem p result true true op s there up open_op empty room sent =
      let op₁ = record op { response_buffer = some (reply op 0) } in
      let s₁ = set_op p op₁ (log (Event.allocated hdr_size) s) in
      let eq =
        send_response_alloc p result op s there up open_op empty
        ∙ ap (λ x. send_buffer p result true x.1) (alloc_response_lem p op s there room)
        ∙ send_buffer_done p result op₁ (reply op 0) s₁ (rw (==-self p)) refl sent in
      rw eq (refl, refl, rw (==-self p))
  answers_lem p result true false op s there up open_op empty room sent =
      let op₁ = record op { response_buffer = some (reply op 0) } in
      let s₁ = set_op p op₁ (log (Event.allocated hdr_size) s) in
      let eq =
        send_response_alloc p result op s there up open_op empty
        ∙ ap (λ x. send_buffer p result true x.1) (alloc_response_lem p op s there room)
        ∙ send_buffer_refused p result op₁ (reply op 0) s₁ (rw (==-self p)) refl sent in
      rw eq (refl, refl, rw (==-self p))
  answers_lem p result false taken op s there up open_op empty full sent =
      let op₁ = record op { response_buffer = none } in
      let s₁ = set_op p op₁ (log (Event.allocated hdr_size) s) in
      let eq =
        send_response_alloc p result op s there up open_op empty
        ∙ ap (λ x. send_buffer p result true x.1) (alloc_response_full p op s there full)
        ∙ send_buffer_oom p result true op₁ s₁ (rw (==-self p)) refl up in
      rw eq (refl, refl, rw (==-self p))

  -- What gb_operation_send_response does for an operation that has no response and has not
  -- responded, in every case. On a cport whose worker is being stopped, it returns -ENETDOWN and
  -- changes nothing. Else it allocates a response and sends one reply, with the id and the type of
  -- the request, and with the result, or with GB_OP_NO_MEMORY where the allocation failed; it
  -- returns what the backend said. The operation has responded, and keeps the response, only
  -- where the allocation succeeded and the backend took the reply; a response that the backend
  -- refused is freed.
  pub send_response_answers :
      (p result : ℕ) (op : Operation) (s : State)
      → s.ops p ≡ some op
      → op.has_responded ≡ false
      → op.response_buffer ≡ none
      → let room = w.alloc_buf s.trace hdr_size in
        let answer = reply op (if room then result else OpResult.no_memory) in
        let taken = is_zero (w.send (Event.allocated hdr_size ∷ s.trace) op.cport answer) in
        (((s.cports op.cport).exit_worker ≡ true)
          × (gb_operation_send_response p result s ≡ (neg e.enetdown, s)))
        ⊎ (((s.cports op.cport).exit_worker ≡ false)
            × IsAnswered room taken answer p op s (gb_operation_send_response p result s))
  unfolding gb_operation_send_response
  send_response_answers p result op s there open_op empty =
      elim (Bool-cases (s.cports op.cport).exit_worker) [
        | inl stopping ↦ inl (stopping, rw (there, gb_operation_send_response, stopping))
        | inr up ↦ inr (up, answers_lem p result _ _ op s there up open_op empty refl refl)
      ]
