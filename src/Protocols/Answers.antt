-- ===== src/Protocols/Answers.antt =====
-- What a response holds, once a handler has allocated it and written its bytes.
use greybus_for_zephyr.Base.{
  ℕ, zero, suc, ◌+◌, ◌-◌, ◌%◌, ◌^◌, ◌≤◌, ◌<◌, ◌≡◌, refl, ap, ◌∙◌, true, Option, none, some, List,
  [], ◌∷◌, length, take, arith, ==-self,
}
use Prim.Native.Nat.{bit_or}
use greybus_for_zephyr.OpResult
use greybus_for_zephyr.Core.{
  Message, Operation, State, World, hdr_size, size_mod, set_op, log, Event, response_flag,
}
use greybus_for_zephyr.Core.Lifecycle.{gb_operation_alloc_response, zeros}
use greybus_for_zephyr.Protocols.{byte, bytes_at, write_at, put_in_at, put_bytes, with_response}

-- the payload of an operation's response, if there is one
abbrev pub response_payload : ℕ → State → Option (List ℕ)
response_payload p s = elim (s.ops p) [
  | none ↦ none
  | some op ↦ elim op.response_buffer [ none ↦ none | some resp ↦ some resp.payload ]
]

-- the size in the header of an operation's response, if there is one
abbrev pub response_size : ℕ → State → Option ℕ
response_size p s = elim (s.ops p) [
  | none ↦ none
  | some op ↦ elim op.response_buffer [ none ↦ none | some resp ↦ some resp.size ]
]

-- Bytes written over as many others take their place.
pub write_all : (n : ℕ) (bs : List ℕ) → length bs ≡ n → write_at (zeros n) 0 bs ≡ bs
unfolding zeros
write_all zero [] h = refl
write_all zero (b ∷ bs) h = absurd (omega arith)
write_all (suc n) [] h = absurd (omega arith)
write_all (suc n) (b ∷ bs) h = ap (λ t. b ∷ t) (write_all n bs (omega arith))

put-payload :
    (p : ℕ) (bs : List ℕ) (op : Operation) (resp : Message) (s : State)
    → op.response_buffer ≡ some resp
    → resp.payload ≡ zeros (length bs)
    → response_payload p (set_op p (put_in_at 0 bs op) s) ≡ some bs
put-payload p bs op resp s holds blank =
    rw (response_payload, set_op, ==-self p, put_in_at, holds, blank, write_all (length bs) bs refl)
      refl

-- what bytes written from the beginning leave of a response of so many
put_bytes-payload :
    (p : ℕ) (bs : List ℕ) (op : Operation) (resp : Message) (s : State)
    → s.ops p ≡ some op
    → op.response_buffer ≡ some resp
    → resp.payload ≡ zeros (length bs)
    → response_payload p (put_bytes p 0 bs s) ≡ some bs
unfolding put_bytes
put_bytes-payload p bs op resp s there holds blank =
    let same : put_bytes p 0 bs s ≡ set_op p (put_in_at 0 bs op) s = rw (there, put_bytes) refl in
    ap (response_payload p) same ∙ put-payload p bs op resp s holds blank

put-size :
    (p : ℕ) (bs : List ℕ) (op : Operation) (resp : Message) (s : State)
    → op.response_buffer ≡ some resp
    → response_size p (set_op p (put_in_at 0 bs op) s) ≡ some resp.size
put-size p bs op resp s holds = rw (response_size, set_op, ==-self p, put_in_at, holds) refl

-- Writing bytes leaves the header.
put_bytes-size :
    (p : ℕ) (bs : List ℕ) (op : Operation) (resp : Message) (s : State)
    → s.ops p ≡ some op
    → op.response_buffer ≡ some resp
    → response_size p (put_bytes p 0 bs s) ≡ some resp.size
unfolding put_bytes
put_bytes-size p bs op resp s there holds =
    let same : put_bytes p 0 bs s ≡ set_op p (put_in_at 0 bs op) s = rw (there, put_bytes) refl in
    ap (response_size p) same ∙ put-size p bs op resp s holds

module _ ⦃w : World⦄ where
  -- A buffer that is to be had holds zeros, of the size asked for.
  pub alloc_lem :
      (p size : ℕ) (op : Operation) (s : State)
      → s.ops p ≡ some op
      → size + hdr_size < size_mod
      → w.alloc_buf s.trace (size + hdr_size) ≡ true
      → (s' : State) × (op' : Operation) × (resp : Message) × (gb_operation_alloc_response p size s
          ≡ (true, s'))
        × (s'.ops p ≡ some op')
        × (op'.response_buffer ≡ some resp)
        × (resp.payload ≡ zeros size)
        × (resp.size ≡ (size + hdr_size) % 2 ^ 16)
  unfolding gb_operation_alloc_response
  alloc_lem p size op s there small room =
      let exact : (size + hdr_size) % size_mod ≡ size + hdr_size = omega arith in
      let whole : size + hdr_size - hdr_size ≡ size = omega arith in
      let resp : Message = record {
        size = (size + hdr_size) % 2 ^ 16;
        id = op.request_buffer.id;
        typ = bit_or response_flag op.request_buffer.typ;
        result = 0;
        payload = zeros (size + hdr_size - hdr_size);
      } in
      let op' = record op { response_buffer = some resp } in
      (
        set_op p op' (log (Event.allocated (size + hdr_size)) s),
        op',
        resp,
        rw (there, gb_operation_alloc_response, exact, room) refl,
        rw (==-self p) refl,
        refl,
        ap zeros whole,
        refl,
      )

  -- A handler that responds with some bytes, of an operation and with a buffer to be had,
  -- succeeds, and the response holds them.
  pub with_response_lem :
      (p : ℕ) (bs : List ℕ) (op : Operation) (s : State)
      → s.ops p ≡ some op
      → length bs + hdr_size < size_mod
      → w.alloc_buf s.trace (length bs + hdr_size) ≡ true
      → let (code, s') =
          with_response p (length bs) (λ t. (OpResult.success, put_bytes p 0 bs t)) s in
        (code ≡ OpResult.success) × (response_payload p s' ≡ some bs)
  with_response_lem p bs op s there small room =
      let (s', op', resp, runs, there', holds, blank, sized) =
        alloc_lem p (length bs) op s there small room in
      rw runs (refl, put_bytes-payload p bs op' resp s' there' holds blank)

  -- The size that its header states, in 16 bits.
  pub with_response-size :
      (p : ℕ) (bs : List ℕ) (op : Operation) (s : State)
      → s.ops p ≡ some op
      → length bs + hdr_size < 2 ^ 16
      → w.alloc_buf s.trace (length bs + hdr_size) ≡ true
      → let (code, s') =
          with_response p (length bs) (λ t. (OpResult.success, put_bytes p 0 bs t)) s in
        response_size p s' ≡ some (length bs + hdr_size)
  with_response-size p bs op s there small room =
      let (s', op', resp, runs, there', holds, blank, sized) =
        alloc_lem p (length bs) op s there (omega arith) room in
      let short : resp.size ≡ length bs + hdr_size = omega (arith, sized) in
      rw runs (put_bytes-size p bs op' resp s' there' holds ∙ ap some short)

-- Bytes behind a first one.
pub bytes_at-suc :
    (b : ℕ) (payload : List ℕ) (i n : ℕ) → bytes_at (b ∷ payload) (suc i) n ≡ bytes_at payload i n
bytes_at-suc b payload i zero = refl
bytes_at-suc b payload i (suc n) = ap (λ t. byte payload i ∷ t) (bytes_at-suc b payload (suc i) n)

-- The bytes that a payload holds are its first ones.
pub bytes_at-take :
    (payload : List ℕ) (n : ℕ) → n ≤ length payload → bytes_at payload 0 n ≡ take n payload
bytes_at-take payload zero h = refl
bytes_at-take [] (suc n) h = absurd (omega arith)
bytes_at-take (b ∷ payload) (suc n) h =
    ap (λ t. b ∷ t) (bytes_at-suc b payload 0 n ∙ bytes_at-take payload n (omega arith))

pub length-take : (payload : List ℕ) (n : ℕ) → n ≤ length payload → length (take n payload) ≡ n
length-take payload zero h = refl
length-take [] (suc n) h = absurd (omega arith)
length-take (b ∷ payload) (suc n) h = ap suc (length-take payload n (omega arith))

pub length-bytes_at : (payload : List ℕ) (i n : ℕ) → length (bytes_at payload i n) ≡ n
length-bytes_at payload i zero = refl
length-bytes_at payload i (suc n) = ap suc (length-bytes_at payload (suc i) n)
