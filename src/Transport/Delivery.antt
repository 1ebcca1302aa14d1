-- ===== src/Transport/Delivery.antt =====
-- That a message that one side sends is the message that the other receives
-- (subsys/greybus/platform/transport-tcpip-multiplex.c).
use greybus_for_zephyr.Base.{
  ℕ, ◌+◌, ◌*◌, ◌/◌, ◌%◌, ◌^◌, ◌<◌, ◌≡◌, refl, ap, ◌∙◌, true, false, some, List, [], ◌∷◌, ◌++◌, pos,
  length, arith, ==-self, le→ltb,
}
use greybus_for_zephyr.Errno.{Errno}
use greybus_for_zephyr.Core.{Message, hdr_size}
use greybus_for_zephyr.Protocols.{le16_at, le_bytes}
use greybus_for_zephyr.Transport.{
  Socket, Network, called, bytes_of_message, message_of_bytes, read_data, on_payload,
  gb_message_payload_len, gb_message_receive, gb_trans_send, send_message,
}
use greybus_for_zephyr.Transport.Stream.{IsStream, read_loop_lem, write_loop_lem}

-- the header's bytes
abbrev header_of : Message → List ℕ
header_of msg = le_bytes 2 msg.size ++ le_bytes 2 msg.id ++ msg.typ ∷ msg.result ∷ 0 ∷ 0 ∷ []

-- A message that states its size, and whose numbers are as wide as their fields.
pub record IsMessage (msg : Message) : Type 0 where
  pub whole : msg.size ≡ hdr_size + length msg.payload
  pub size_small : msg.size < 2 ^ 16
  pub id_small : msg.id < 2 ^ 16

-- the message of the bytes of a message
pub message_of_bytes-bytes_of_message :
    (msg : Message) → IsMessage msg → message_of_bytes (bytes_of_message msg) ≡ msg
message_of_bytes-bytes_of_message msg h =
    let size : msg.size % 256 + 256 * (msg.size / 256 % 256) ≡ msg.size =
      omega (arith, h.size_small) in
    let id : msg.id % 256 + 256 * (msg.id / 256 % 256) ≡ msg.id = omega (arith, h.id_small) in
    rw (size, id) refl

module _ ⦃n : Network⦄ (stream : IsStream n) where
  sent_lem :
      ⦃e : Errno⦄
      → (cport : ℕ) (msg : Message) (s : Socket) → IsMessage msg
      → (s' : Socket) × (gb_trans_send cport
            (bytes_of_message msg)
            (length (bytes_of_message msg))
            s
          ≡ (pos 0, s'))
        × (s'.outgoing ≡ s.outgoing ++ le_bytes 2 cport ++ bytes_of_message msg)
  unfolding gb_trans_send
  sent_lem cport msg s h =
      let bytes = bytes_of_message msg in
      let stated : le16_at bytes 0 ≡ length bytes = omega (arith, h.whole, h.size_small) in
      let long = le→ltb (length bytes) hdr_size (omega arith) in
      let (s₁, runs₁, out₁) = write_loop_lem stream 2 0 (le_bytes 2 cport) s (omega arith) in
      let (s₂, runs₂, out₂) = write_loop_lem stream (length bytes) 0 bytes s₁ (omega arith) in
      (
        s₂,
        rw (gb_trans_send, stated, ==-self (length bytes), long)
            (ap (send_message bytes) runs₁ ∙ rw runs₂ refl),
        out₂ ∙ ap (λ t. t ++ bytes) out₁,
      )

  payload_read :
      (cport len : ℕ) (hdr payload : List ℕ) (s s' : Socket)
      → gb_message_payload_len (le16_at hdr 0) ≡ len
      → read_data len s ≡ (pos len, payload, s')
      → on_payload cport hdr (read_data (gb_message_payload_len (le16_at hdr 0)) s)
        ≡ record { message = some (cport, hdr ++ payload); flag = false; socket = s' }
  payload_read cport len hdr payload s s' stated runs = rw (stated, runs, ==-self len) refl

  payload_lem :
      (cport : ℕ) (msg : Message) (rest : List ℕ) (s : Socket)
      → IsMessage msg
      → s.incoming ≡ msg.payload ++ rest
      → (s' : Socket) × (on_payload cport
            (header_of msg)
            (read_data (gb_message_payload_len (le16_at (header_of msg) 0)) s)
          ≡ record { message = some (cport, bytes_of_message msg); flag = false; socket = s' })
        × (s'.incoming ≡ rest)
  payload_lem cport msg rest s h there =
      let len : gb_message_payload_len (le16_at (header_of msg) 0) ≡ length msg.payload =
        omega (arith, h.whole, h.size_small) in
      let (s', runs, left) =
        read_loop_lem stream (length msg.payload) (length msg.payload) [] msg.payload rest s
          (omega arith) (omega arith) there in
      (s', payload_read cport (length msg.payload) (header_of msg) msg.payload s s' len runs, left)

  pub received_lem :
      (cport : ℕ) (msg : Message) (rest : List ℕ) (s : Socket)
      → cport < 2 ^ 16
      → IsMessage msg
      → ((call size : ℕ) → n.heap_alloc call size ≡ true)
      → s.incoming ≡ le_bytes 2 cport ++ (bytes_of_message msg ++ rest)
      → (s' : Socket) × (gb_message_receive s
          ≡ record { message = some (cport, bytes_of_message msg); flag = false; socket = s' })
        × (s'.incoming ≡ rest)
  unfolding gb_message_receive
  received_lem cport msg rest s narrow h room there =
      let whole : le16_at (le_bytes 2 cport) 0 ≡ cport = omega (arith, narrow) in
      let (s₁, runs₁, left₁) =
        read_loop_lem stream 2 2 [] (le_bytes 2 cport) (bytes_of_message msg ++ rest) s
          (omega arith) (omega arith) there in
      let (s₂, runs₂, left₂) =
        read_loop_lem stream 8 8 [] (header_of msg) (msg.payload ++ rest) s₁ (omega arith)
          (omega arith) left₁ in
      let (s₃, runs₃, left₃) = payload_lem cport msg rest (called s₂) h left₂ in
      (
        s₃,
        rw (gb_message_receive, runs₁, whole, runs₂, room s₂.calls (le16_at (header_of msg) 0))
            runs₃,
        left₃,
      )

-- However the network splits what it carries, on either side, a message that gb_trans_send sends
-- is what gb_message_receive returns, with its cport, and what was sent behind it stays to be
-- read; the bytes are those of the message that the core sent. The message must state its size,
-- and the receiver have room.
pub trans_delivers :
    ⦃e : Errno⦄
    → (out inn : Network) → IsStream out
    → IsStream inn
    → ((call size : ℕ) → inn.heap_alloc call size ≡ true)
    → (cport : ℕ) (msg : Message) (rest : List ℕ) (from to : Socket) → cport < 2 ^ 16
    → IsMessage msg
    → from.outgoing ≡ []
    → let bytes = bytes_of_message msg in
      let (ret, from') = gb_trans_send ⦃n = out⦄ cport bytes (length bytes) from in
      to.incoming ≡ from'.outgoing ++ rest
      → let received = gb_message_receive ⦃n = inn⦄ to in
        (ret ≡ pos 0)
        × (received.message ≡ some (cport, bytes))
        × (received.flag ≡ false)
        × (received.socket.incoming ≡ rest)
        × (message_of_bytes bytes ≡ msg)
trans_delivers out inn out_stream in_stream room cport msg rest from to narrow h fresh carried =
    let bytes = bytes_of_message msg in
    let (from', sends, written) = sent_lem ⦃n = out⦄ out_stream cport msg from h in
    let outgoing : (gb_trans_send ⦃n = out⦄ cport bytes (length bytes) from).1.outgoing
        ≡ le_bytes 2 cport ++ bytes =
      ap (λ x. x.1.outgoing) sends ∙ written ∙ ap (λ t. t ++ le_bytes 2 cport ++ bytes) fresh in
    let there : to.incoming ≡ le_bytes 2 cport ++ (bytes ++ rest) =
      carried ∙ ap (λ t. t ++ rest) outgoing in
    let (to', receives, left) =
      received_lem ⦃n = inn⦄ in_stream cport msg rest to narrow h room there in
    (
      ap (λ x. x.0) sends,
      ap (λ x. x.message) receives,
      ap (λ x. x.flag) receives,
      ap (λ x. x.socket.incoming) receives ∙ left,
      message_of_bytes-bytes_of_message msg h,
    )
