-- ===== src/Core/Lifecycle.antt =====
-- The life of a `struct gb_operation` in subsys/greybus/greybus-core.c: creation, reference counts,
-- responses. An address that holds no operation is a dangling pointer; the C code's behaviour is
-- then undefined, and the model leaves the state alone.
use greybus_for_zephyr.Base.{
  ℕ, zero, suc, ◌+◌, ◌-◌, ◌%◌, ◌^◌, Bool, true, false, Option, none, some, List, [], ◌∷◌, ◌==◌, ltb,
  leb, if◌then◌else◌,
}
use Prim.Native.Nat.{bit_or}
use greybus_for_zephyr.OpResult
use greybus_for_zephyr.Core.{
  Message, Operation, State, World, Event, hdr_size, size_mod, response_flag, update, log, set_op,
}

-- `atomic_t` has 32 bits on the boards of the repository.
abbrev pub atomic_mod : ℕ
atomic_mod = 2 ^ 32

-- `memset(..., 0, n)`
unfoldable pub zeros : ℕ → List ℕ
zeros zero = []
zeros (suc n) = 0 ∷ zeros n

unfoldable pub gb_operation_ref : ℕ → State → State
gb_operation_ref p s = elim (s.ops p) [
  | none ↦ s
  | some op ↦ set_op p (record op { ref_count = (op.ref_count + 1) % atomic_mod }) s
]

-- One round of gb_operation_unref: the count is lowered, and at 0 the operation and its buffers
-- are freed. The result is the response whose reference is then dropped.
unfoldable pub drop_ref : ℕ → State → Option ℕ × State
drop_ref p s = elim (s.ops p) [
  | none ↦ (none, s)
  | some op ↦
      let ref_count = (op.ref_count + atomic_mod - 1) % atomic_mod in
      if ref_count == 0
      then (op.response, log Event.freed (record s { ops = update s.ops p none }))
      else (none, set_op p (record op { ref_count = ref_count }) s)
]

-- The end of a round: a response to drop a reference on, or none.
abbrev pub on_response : (ℕ → State → State) → Option ℕ × State → State
on_response unref (none, s) = s
on_response unref (some q, s) = unref q s

-- gb_operation_unref, which calls itself on the response. Each further round frees an operation,
-- so as many rounds as there are operations, and one, are enough.
unfoldable pub unref_rounds : ℕ → ℕ → State → State
unref_rounds zero p s = s
unref_rounds (suc fuel) p s = on_response (unref_rounds fuel) (drop_ref p s)

unfoldable pub gb_operation_unref : ℕ → State → State
gb_operation_unref p s = unref_rounds (suc s.next_op) p s

unfoldable pub gb_operation_destroy : ℕ → State → State
gb_operation_destroy p s = gb_operation_unref p s

-- the fields that _gb_operation_create's memset and initialisers leave
abbrev pub fresh_op : ℕ → Message → Operation
fresh_op cport request = record {
  cport = cport;
  has_responded = false;
  ref_count = 1;
  time = record { tv_sec = 0; tv_nsec = 0 };
  request_buffer = request;
  response_buffer = none;
  is_unipro_rx_buf = false;
  callback = none;
  sync_sem = 0;
  response = none;
  bundle = none;
}

module _ ⦃w : World⦄ where
  -- gb_operation_create, with _gb_operation_create: malloc of the operation, then alloc_buf of
  -- its request. If the second fails, the first is freed.
  unfoldable pub gb_operation_create : ℕ → ℕ → ℕ → State → Option ℕ × State
  gb_operation_create cport type req_size s =
      if leb s.cport_count cport
      then (none, s)
      else if w.malloc s.trace
      then (let s' = log (Event.allocated 0) s in
          let size = (req_size + hdr_size) % size_mod in
          let request : Message = record {
            size = size % 2 ^ 16;
            id = 0;
            typ = type;
            result = 0;
            payload = zeros (size - hdr_size);
          } in
          if w.alloc_buf s'.trace size
          then (
            some s.next_op,
            record s' {
              ops = update s.ops s.next_op (some (fresh_op cport request));
              next_op = suc s.next_op;
              trace = Event.allocated size ∷ s'.trace;
            },
          )
          else (none, log Event.freed (log (Event.allocated size) s')))
      else (none, log (Event.allocated 0) s)

  -- gb_operation_alloc_response: whether the buffer was allocated stands for the payload pointer.
  -- A response buffer that was there before is lost.
  unfoldable pub gb_operation_alloc_response : ℕ → ℕ → State → Bool × State
  gb_operation_alloc_response p size s = elim (s.ops p) [
    | none ↦ (false, s)
    | some op ↦
        let total = (size + hdr_size) % size_mod in
        let s' = log (Event.allocated total) s in
        let req_hdr = op.request_buffer in
        if w.alloc_buf s.trace total
        then (
          true,
          set_op p
              (record op {
                response_buffer = some (record {
                  size = total % 2 ^ 16;
                  id = req_hdr.id;
                  typ = bit_or response_flag req_hdr.typ;
                  result = 0;
                  payload = zeros (total - hdr_size);
                });
              })
              s',
        )
        else (false, set_op p (record op { response_buffer = none }) s')
  ]

-- gb_operation_get_request_payload_size, of an operation that may be NULL
unfoldable pub gb_operation_get_request_payload_size : Option Operation → ℕ
gb_operation_get_request_payload_size none = 0
gb_operation_get_request_payload_size (some op) =
    if ltb op.request_buffer.size hdr_size then 0 else op.request_buffer.size - hdr_size

-- gb_operation_get_request_result, of an operation that may be NULL
unfoldable pub gb_operation_get_request_result : Option Operation → State → ℕ
gb_operation_get_request_result none s = OpResult.internal
gb_operation_get_request_result (some op) s = elim op.response [
  | none ↦ OpResult.timeout
  | some q ↦ elim (s.ops q) [
    | none ↦ OpResult.internal
    | some r ↦
        if ltb r.request_buffer.size hdr_size then OpResult.internal else r.request_buffer.result
  ]
]
