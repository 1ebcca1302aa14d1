-- ===== src/Protocols/Loopback/Echo.antt =====
-- That what gb_loopback_transfer_req_cb answers is an echo for gb_loopback_transfer_resp_cb
-- (subsys/greybus/loopback.c).
use greybus_for_zephyr.Base.{
  take_all, ℕ, suc, ◌+◌, ◌%◌, ◌≤◌, ◌<◌, ◌≡◌, refl, ap, ◌∙◌, true, false, some, List, [], ◌∷◌,
  length, arith, ==-self, ltb, le→ltb,
}
use greybus_for_zephyr.OpResult
use greybus_for_zephyr.Core.{Message, Operation, State, World, hdr_size, size_mod, set_op}
use greybus_for_zephyr.Core.Lifecycle.{zeros}
use greybus_for_zephyr.Protocols.{
  byte, bytes_at, le32_at, write_at, put_in_at, put_bytes, payload_of, payload_size,
}
use greybus_for_zephyr.Protocols.Answers.{
  response_payload, write_all, alloc_lem, length-bytes_at, bytes_at-suc, bytes_at-take,
}
use greybus_for_zephyr.Protocols.Loopback

-- the echo of a payload that states its length: its four first bytes, eight reserved ones, its data
abbrev pub echo : List ℕ → List ℕ
echo payload =
    byte payload 0
    ∷ byte payload 1
    ∷ byte payload 2
    ∷ byte payload 3
    ∷ 0
    ∷ 0
    ∷ 0
    ∷ 0
    ∷ 0
    ∷ 0
    ∷ 0
    ∷ 0
    ∷ bytes_at payload Loopback.transfer_len (le32_at payload 0)

same_bytes_refl : (xs : List ℕ) → Loopback.same_bytes xs xs ≡ true
same_bytes_refl [] = refl
same_bytes_refl (x ∷ xs) = rw (==-self x, same_bytes_refl xs) refl

echo-data :
    (payload : List ℕ) (n : ℕ)
    → le32_at payload 0 ≡ n
    → bytes_at (echo payload) 12 n ≡ bytes_at payload 12 n
echo-data payload n h =
    let data' = bytes_at payload 12 (le32_at payload 0) in
    let whole : length data' ≡ n = length-bytes_at payload 12 (le32_at payload 0) ∙ h in
    let inner : bytes_at (echo payload) 12 n ≡ bytes_at data' 0 n =
      rw
        (
          bytes_at-suc, bytes_at-suc, bytes_at-suc, bytes_at-suc, bytes_at-suc, bytes_at-suc,
          bytes_at-suc, bytes_at-suc, bytes_at-suc, bytes_at-suc, bytes_at-suc, bytes_at-suc,
        )
        refl in
    inner
    ∙ bytes_at-take data' n (omega (arith, whole))
    ∙ take_all data' n whole
    ∙ ap (λ k. bytes_at payload 12 k) h

-- The client's test accepts the echo of its request.
echo_accepted : (payload : List ℕ) → Loopback.is_echo payload (echo payload) ≡ true
echo_accepted payload =
    rw
      (
        echo-data payload (le32_at payload 0) refl,
        ==-self (le32_at payload 0),
        same_bytes_refl (bytes_at payload 12 (le32_at payload 0)),
      )
      refl

-- what the two writes leave of a fresh response
written :
    (payload : List ℕ) (n : ℕ)
    → length (bytes_at payload 12 (le32_at payload 0)) ≡ n
    → write_at
        (write_at (zeros (12 + n)) 0 (bytes_at payload 0 4))
        12
        (bytes_at payload 12 (le32_at payload 0))
      ≡ echo payload
unfolding zeros
written payload n whole =
    let long : 12 + n ≡ suc (suc (suc (suc (suc (suc (suc (suc (suc (suc (suc (suc n))))))))))) =
      omega arith in
    rw (long, write_all n (bytes_at payload 12 (le32_at payload 0)) whole) refl

module _ ⦃w : World⦄ where
  put_twice :
      (p : ℕ) (front bs : List ℕ) (op : Operation) (resp : Message) (s : State)
      → s.ops p ≡ some op
      → op.response_buffer ≡ some resp
      → response_payload p (put_bytes p 12 bs (put_bytes p 0 front s))
        ≡ some (write_at (write_at resp.payload 0 front) 12 bs)
  unfolding put_bytes
  put_twice p front bs op resp s there holds =
      let first : put_bytes p 0 front s ≡ set_op p (put_in_at 0 front op) s =
        rw (there, put_bytes) refl in
      let op₁ = put_in_at 0 front op in
      let there₁ : (set_op p op₁ s).ops p ≡ some op₁ = rw (==-self p) refl in
      let second : put_bytes p 12 bs (set_op p op₁ s)
          ≡ set_op p (put_in_at 12 bs op₁) (set_op p op₁ s) =
        rw (put_bytes, there₁) refl in
      ap (λ t. response_payload p (put_bytes p 12 bs t)) first
      ∙ ap (response_payload p) second
      ∙ rw (response_payload, set_op, ==-self p, put_in_at, holds) refl

  -- the handler's run
  handled :
      (p : ℕ) (op : Operation) (s : State)
      → s.ops p ≡ some op
      → ltb (payload_size p s) 12 ≡ false
      → 12 + le32_at op.request_buffer.payload 0 + hdr_size < size_mod
      → w.alloc_buf s.trace (12 + le32_at op.request_buffer.payload 0 + hdr_size) ≡ true
      → let (code, s') = Loopback.gb_loopback_transfer_req_cb p s in
        (code ≡ OpResult.success) × (response_payload p s' ≡ some (echo op.request_buffer.payload))
  unfolding Loopback.gb_loopback_transfer_req_cb Loopback.with_request
  handled p op s there long small room =
      let payload = op.request_buffer.payload in
      let n = le32_at payload 0 in
      let (s', op', resp, runs, there', holds, blank, sized) =
        alloc_lem p (12 + n) op s there small room in
      let exact : (12 + n) % size_mod ≡ 12 + n = omega arith in
      let read : payload_of p s ≡ payload = rw (payload_of, there) refl in
      let filled : write_at (write_at resp.payload 0 (bytes_at payload 0 4)) 12
            (bytes_at payload 12 n)
          ≡ echo payload =
        ap (λ t. write_at (write_at t 0 (bytes_at payload 0 4)) 12 (bytes_at payload 12 n)) blank
        ∙ written payload n (length-bytes_at payload 12 n) in
      rw (Loopback.gb_loopback_transfer_req_cb, long, read, exact, runs)
        (
          refl,
          put_twice p (bytes_at payload 0 4) (bytes_at payload 12 n) op' resp s' there' holds
              ∙ ap some filled,
        )

  -- A transfer request that holds as many bytes of data as it states comes back whole: the handler
  -- succeeds, if there is room for the response, and at the client, for the operation that sent
  -- these bytes and a response with those of the handler, gb_loopback_transfer_resp_cb counts a
  -- reception and no error.
  pub transfer_comes_back :
      (p : ℕ) (op sent answer : Operation) (s : State) (list : List Loopback.Loopback)
      → s.ops p ≡ some op
      → 12 + le32_at op.request_buffer.payload 0 ≤ payload_size p s
      → 12 + le32_at op.request_buffer.payload 0 + hdr_size < size_mod
      → w.alloc_buf s.trace (12 + le32_at op.request_buffer.payload 0 + hdr_size) ≡ true
      → sent.request_buffer.payload ≡ op.request_buffer.payload
      → some answer.request_buffer.payload
        ≡ response_payload p (Loopback.gb_loopback_transfer_req_cb p s).1
      → ((Loopback.gb_loopback_transfer_req_cb p s).0 ≡ OpResult.success)
        × (Loopback.gb_loopback_transfer_resp_cb sent answer list
            ≡ Loopback.loopback_recv_inc sent.cport list)
  unfolding Loopback.gb_loopback_transfer_resp_cb
  transfer_comes_back p op sent answer s list there long small room same back =
      let payload = op.request_buffer.payload in
      let (code, echoed) =
        handled p op s there (le→ltb (payload_size p s) 12 (omega (arith, long))) small room in
      let equal : some answer.request_buffer.payload ≡ some (echo payload) = back ∙ echoed in
      let arrived : answer.request_buffer.payload ≡ echo payload = cc (equal) in
      let accepted : Loopback.is_echo sent.request_buffer.payload answer.request_buffer.payload
          ≡ true =
        ap (λ x. Loopback.is_echo x answer.request_buffer.payload) same
        ∙ ap (λ y. Loopback.is_echo payload y) arrived
        ∙ echo_accepted payload in
      (code, rw (Loopback.gb_loopback_transfer_resp_cb, accepted) refl)
