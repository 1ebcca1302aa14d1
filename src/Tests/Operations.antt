-- ===== src/Tests/Operations.antt =====
-- Requests, responses and references of a small core.
use greybus_for_zephyr.Base.{
  ℕ, ◌<◌, ◌≡◌, ◌≢◌, ◌⊎◌, refl, true, false, none, some, [], ◌∷◌, pos, neg, negsuc, arith,
}
use greybus_for_zephyr.OpResult
use greybus_for_zephyr.Core.{Operation, State, Event}
use greybus_for_zephyr.Core.Lifecycle.{gb_operation_unref}
use greybus_for_zephyr.Core.Send.{gb_operation_send_request, gb_operation_send_response}
use greybus_for_zephyr.Core.Refs.{IsLive, unref_alone, unref_with_response}
use greybus_for_zephyr.Core.Ids.{nth_id, ids_distinct}
use greybus_for_zephyr.Core.Requests.{as_queued, send_request_waits, send_request_taken_back}
use greybus_for_zephyr.Core.Responses.{reply, send_response_once, send_response_answers, IsAnswered}
use greybus_for_zephyr.Tests.Samples.{
  posix, fine_world, broken_world, full_world, operation_of, state_of, answered_ops, single_op,
}

abbrev alone : Operation
alone = operation_of 1 none

abbrev single : State
single = state_of single_op

abbrev answered : State
answered = state_of answered_ops

alone-IsLive : IsLive 0 alone single
alone-IsLive = record { there = refl; held = omega arith; no_wrap = omega arith }

request-IsLive : IsLive 0 (operation_of 1 (some 1)) answered
request-IsLive = record { there = refl; held = omega arith; no_wrap = omega arith }

response-IsLive : IsLive 1 (operation_of 2 none) answered
response-IsLive = record { there = refl; held = omega arith; no_wrap = omega arith }

unref_alone_example :
    ((gb_operation_unref 0 single).ops 0 ≡ none)
    × ((r : ℕ) → r ≢ 0 → (gb_operation_unref 0 single).ops r ≡ single.ops r)
unref_alone_example = unref_alone 0 alone single alone-IsLive refl

unref_with_response_example :
    let s' = gb_operation_unref 0 answered in
    (s'.ops 0 ≡ none)
    × (s'.ops 1 ≡ some (operation_of 1 none))
    × ((r : ℕ) → r ≢ 0 → r ≢ 1 → s'.ops r ≡ answered.ops r)
unref_with_response_example =
    unref_with_response 0 1 (operation_of 1 (some 1)) (operation_of 2 none) answered request-IsLive
      response-IsLive (omega arith) (omega arith) refl refl

ids_distinct_example : nth_id 0 single ≢ nth_id 65534 single
ids_distinct_example = ids_distinct 0 65534 single (omega arith) (omega arith)

send_request_waits_example :
    let (retval, s') = gb_operation_send_request 0 none true single in
    let op' = as_queued 0 alone none single in
    (retval ≡ pos 0)
    × (s'.ops 0 ≡ some op')
    × (op'.ref_count ≡ 2)
    × (0 < op'.request_buffer.id)
    × ((s'.cports 0).tx_fifo ≡ 0 ∷ [])
    × (s'.trace ≡ Event.sent 0 op'.request_buffer ∷ Event.looked_at_clock ∷ [])
    × ((q : ℕ) → q ≢ 0 → s'.ops q ≡ single.ops q)
send_request_waits_example =
    send_request_waits 0 alone none single alone-IsLive (omega arith) refl refl

send_request_taken_back_example :
    let (retval, s') = gb_operation_send_request ⦃w = broken_world⦄ 0 none true single in
    (retval ≡ negsuc 4)
    × (s'.ops 0
        ≡ some (record (as_queued ⦃w = broken_world⦄ 0 alone none single) { ref_count = 1 }))
    × ((s'.cports 0).tx_fifo ≡ [])
    × ((q : ℕ) → q ≢ 0 → s'.ops q ≡ single.ops q)
send_request_taken_back_example =
    send_request_taken_back ⦃w = broken_world⦄ 0 alone none single alone-IsLive (omega arith) refl
      tt refl

send_response_once_example :
    let (retval, s') = gb_operation_send_response 0 6 single in
    (retval ≡ pos 0)
    × (s'.trace ≡ Event.sent 0 (reply alone 6) ∷ Event.allocated 8 ∷ [])
    × ((again : ℕ) → gb_operation_send_response 0 again s' ≡ (neg 22, s'))
send_response_once_example = send_response_once 0 6 alone single refl refl refl refl refl refl

-- Without memory the static header goes out, and the operation has not responded.
send_response_answers_example :
    let answer = reply alone OpResult.no_memory in
    (((single.cports 0).exit_worker ≡ true)
      × (gb_operation_send_response ⦃w = full_world⦄ 0 6 single ≡ (neg 115, single)))
    ⊎ (((single.cports 0).exit_worker ≡ false)
        × IsAnswered ⦃w = full_world⦄ false true answer 0 alone single
            (gb_operation_send_response ⦃w = full_world⦄ 0 6 single))
send_response_answers_example =
    send_response_answers ⦃w = full_world⦄ 0 6 alone single refl refl refl
