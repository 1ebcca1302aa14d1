-- ===== src/Protocols/Uart/Sent.antt =====
-- The request that the UART's thread makes of what was received (subsys/greybus/uart.c).
use greybus_for_zephyr.Base.{
  ℕ, suc, ◌+◌, ◌-◌, ◌%◌, ◌^◌, ◌≤◌, ◌<◌, ◌≡◌, refl, ap, sym, ◌∙◌, true, false, some, none, List, ◌∷◌,
  ◌++◌, length, take, leb, arith, ==-self,
}
use greybus_for_zephyr.Errno.{Errno}
use greybus_for_zephyr.Core.{
  Message, Operation, State, World, Event, hdr_size, size_mod, set_op, log,
}
use greybus_for_zephyr.Core.Lifecycle.{
  gb_operation_create, gb_operation_destroy, gb_operation_unref, unref_rounds, drop_ref, zeros,
  fresh_op,
}
use greybus_for_zephyr.Core.Send.{gb_operation_send_request, transmit}
use greybus_for_zephyr.Protocols.{put_request_bytes, le_bytes, fill_request}
use greybus_for_zephyr.Protocols.Answers.{write_all, length-take}
use greybus_for_zephyr.Protocols.Uart.Receiver.{
  BufNode, Pc, Port, send_node, send_created, request_of, put_node_back, uart_rx_thread,
}
use greybus_for_zephyr.Protocols.Board.{Board}

-- The request of a node, as it goes to the host: the number of its bytes, its flags and its bytes.
abbrev pub data_request : BufNode → Message
data_request node = record {
  size = 11 + node.data_size;
  id = 0;
  typ = 0x03;
  result = 0;
  payload = le_bytes 2 node.data_size ++ node.data_flags ∷ take node.data_size node.buffer;
}

-- the operation that gb_operation_create makes for it
abbrev blank_request : ℕ → BufNode → Message
blank_request cport node = record {
  size = 11 + node.data_size;
  id = 0;
  typ = 0x03;
  result = 0;
  payload = zeros (3 + node.data_size);
}

module _ ⦃e : Errno⦄ ⦃w : World⦄ where
  length-request_of :
      (node : BufNode)
      → node.data_size ≤ length node.buffer
      → length (request_of node) ≡ 3 + node.data_size
  length-request_of node h = omega (arith, length-take node.buffer node.data_size h)

  create_lem :
      (cport : ℕ) (node : BufNode) (s : State)
      → node.data_size + 11 < 2 ^ 16
      → leb s.cport_count cport ≡ false
      → w.malloc s.trace ≡ true
      → w.alloc_buf (Event.allocated 0 ∷ s.trace) (11 + node.data_size) ≡ true
      → gb_operation_create cport 0x03 (3 + node.data_size) s ≡ (
        some s.next_op,
        record s {
          next_op = suc s.next_op;
          ops = (set_op s.next_op (fresh_op cport (blank_request cport node)) s).ops;
          trace = Event.allocated (11 + node.data_size) ∷ Event.allocated 0 ∷ s.trace;
        },
      )
  unfolding gb_operation_create
  create_lem cport node s small there room₁ room₂ =
      let exact : (3 + node.data_size + hdr_size) % size_mod ≡ 11 + node.data_size = omega arith in
      let short : (11 + node.data_size) % 2 ^ 16 ≡ 11 + node.data_size = omega arith in
      let whole : 11 + node.data_size - hdr_size ≡ 3 + node.data_size = omega arith in
      rw (gb_operation_create, there, room₁, exact, room₂, short, whole) refl

  send_lem :
      (p : ℕ) (op : Operation) (s : State)
      → s.ops p ≡ some op
      → (s.cports op.cport).exit_worker ≡ false
      → let request = record (op.request_buffer) { id = 0 } in
        (gb_operation_send_request p none false s).1
        ≡ log (Event.sent op.cport request) (set_op p (record op { request_buffer = request }) s)
  unfolding gb_operation_send_request transmit
  send_lem p op s there up = rw (there, gb_operation_send_request, up, transmit, ==-self p) refl

  destroy_lem :
      (p : ℕ) (op : Operation) (s : State)
      → s.ops p ≡ some op
      → op.ref_count ≡ 1
      → op.response ≡ none
      → (gb_operation_destroy p s).trace ≡ Event.freed ∷ s.trace
  unfolding gb_operation_destroy gb_operation_unref unref_rounds drop_ref
  destroy_lem p op s there one alone = rw (there, drop_ref, one, alone) refl

  put_lem :
      (p : ℕ) (bytes : List ℕ) (op : Operation) (s : State)
      → s.ops p ≡ some op
      → put_request_bytes p bytes s ≡ set_op p (fill_request bytes op) s
  unfolding put_request_bytes
  put_lem p bytes op s there = rw (there, put_request_bytes) refl

  -- The request of a node goes to the transport.
  send_node_lem :
      (cport : ℕ) (node : BufNode) (s : State)
      → node.data_size ≤ length node.buffer
      → node.data_size + 11 < 2 ^ 16
      → leb s.cport_count cport ≡ false
      → (s.cports cport).exit_worker ≡ false
      → w.malloc s.trace ≡ true
      → w.alloc_buf (Event.allocated 0 ∷ s.trace) (11 + node.data_size) ≡ true
      → (send_node cport node s).trace
        ≡ Event.freed
          ∷ Event.sent cport (data_request node)
          ∷ Event.allocated (11 + node.data_size)
          ∷ Event.allocated 0
          ∷ s.trace
  unfolding send_node
  send_node_lem cport node s holds small there up room₁ room₂ =
      let p = s.next_op in
      let op = fresh_op cport (blank_request cport node) in
      let s₁ : State = record s {
        next_op = suc s.next_op;
        ops = (set_op p op s).ops;
        trace = Event.allocated (11 + node.data_size) ∷ Event.allocated 0 ∷ s.trace;
      } in
      let bytes = request_of node in
      let op₁ = fill_request bytes op in
      let s₂ = set_op p op₁ s₁ in
      let request = record (op₁.request_buffer) { id = 0 } in
      let s₃ =
        log (Event.sent cport request) (set_op p (record op₁ { request_buffer = request }) s₂) in
      let filled : request ≡ data_request node =
        ap (λ bs. record request { payload = bs })
          (write_all (3 + node.data_size) bytes (length-request_of node holds)) in
      let runs : send_node cport node s ≡ gb_operation_destroy p s₃ =
        ap (send_created bytes) (create_lem cport node s small there room₁ room₂)
        ∙ ap (λ t. gb_operation_destroy p (gb_operation_send_request p none false t).1)
            (put_lem p bytes op s₁ (rw (==-self p) refl))
        ∙ ap (gb_operation_destroy p) (send_lem p op₁ s₂ (rw (==-self p) refl) up) in
      ap (λ t. t.trace) runs
      ∙ destroy_lem p (record op₁ { request_buffer = request }) s₃ (rw (==-self p) refl) refl refl
      ∙ ap (λ msg. Event.freed ∷ Event.sent cport msg ∷ s₁.trace) filled

  module _ ⦃b : Board⦄ where
    -- When the thread makes a request of the node that it has in hand, then one message goes to
    -- the transport, which holds the number of the node's bytes, its flags and its bytes, and
    -- the operation made for it is freed: where the cport is there and its worker is not being
    -- stopped, malloc and alloc_buf succeed, the node holds as many bytes as it says, and they fit
    -- in a message.
    pub thread_sends :
        (dev n : ℕ) (port port' : Port)
        → port.pc ≡ Pc.sending n
        → uart_rx_thread dev port ≡ some port'
        → let node = port.info.nodes n in
          let s = port.core in
          let cport = port.info.cport in
          node.data_size ≤ length node.buffer
          → node.data_size + 11 < 2 ^ 16
          → leb s.cport_count cport ≡ false
          → (s.cports cport).exit_worker ≡ false
          → w.malloc s.trace ≡ true
          → w.alloc_buf (Event.allocated 0 ∷ s.trace) (11 + node.data_size) ≡ true
          → port'.core.trace
            ≡ Event.freed
              ∷ Event.sent cport (data_request node)
              ∷ Event.allocated (11 + node.data_size)
              ∷ Event.allocated 0
              ∷ s.trace
    unfolding uart_rx_thread
    thread_sends dev n port port' there h holds small here up room₁ room₂ =
        let eq : some (record port {
          info = record (port.info) { free_queue = put_node_back port.info.free_queue n };
          pc = Pc.checking;
          core = send_node port.info.cport (port.info.nodes n) port.core;
        })
            ≡ some port' =
          simp (uart_rx_thread, there) at h in
        let same : send_node port.info.cport (port.info.nodes n) port.core ≡ port'.core = cc eq in
        ap (λ t. t.trace) (sym same)
        ∙ send_node_lem port.info.cport (port.info.nodes n) port.core holds small here up room₁
            room₂
