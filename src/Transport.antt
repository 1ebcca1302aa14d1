-- ===== src/Transport.antt =====
-- The transport of messages over one TCP connection:
-- subsys/greybus/platform/transport-tcpip-multiplex.c. Each message has its cport in front.
pub mod Stream
pub mod Delivery
pub mod Order
use greybus_for_zephyr.Base.{
  ℕ, zero, suc, ◌+◌, ◌-◌, ◌%◌, ◌^◌, Bool, true, false, not, ◌||◌, Option, none, some, List, [], ◌∷◌,
  ◌++◌, ◌==◌, if◌then◌else◌, ℤ, pos, neg, negsuc, is_neg, is_zero, ltb, leb, length, take,
}
use greybus_for_zephyr.Errno.{Errno}
use greybus_for_zephyr.Core.{Message, State, World, hdr_size, size_mod}
use greybus_for_zephyr.Core.Receive.{greybus_rx_handler}
use greybus_for_zephyr.Protocols.{byte, le16_at, le_bytes}

-- The connection, as the node sees it: what the peer has sent and was not read, what was written,
-- how often the network was called, and whether the connection is open (`client_sock` is not -1).
pub record Socket : Type 0 where
  pub incoming : List ℕ
  pub outgoing : List ℕ
  pub calls : ℕ
  pub is_open : Bool

-- The network and the heap, which may answer each call differently. recv and send return how many
-- bytes they took of so many, recv also with how many there are; poll says whether it failed, and
-- whether there is something to read.
pub record Network : Type 0 where
  pub recv : ℕ → ℕ → ℕ → ℤ
  pub send : ℕ → ℕ → ℤ
  pub poll : ℕ → ℤ × Bool
  pub heap_alloc : ℕ → ℕ → Bool

abbrev pub drop : ℕ → List ℕ → List ℕ
drop zero xs = xs
drop (suc n) [] = []
drop (suc n) (x ∷ xs) = drop n xs

-- `ret == n`, of an `int` and a size
abbrev pub is_len : ℤ → ℕ → Bool
is_len (pos k) n = k == n
is_len (negsuc k) n = false

-- the bytes that a call took, of those in front
abbrev pub bytes_of : ℤ → List ℕ → List ℕ
bytes_of (pos k) xs = take k xs
bytes_of (negsuc k) xs = []

abbrev pub behind : ℤ → List ℕ → List ℕ
behind (pos k) xs = drop k xs
behind (negsuc k) xs = xs

abbrev pub called : Socket → Socket
called s = record s { calls = s.calls + 1 }

-- the bytes of a message: `struct gb_operation_hdr`, without what is in its `pad`, and the payload
abbrev pub bytes_of_message : Message → List ℕ
bytes_of_message msg =
    le_bytes 2 msg.size ++ le_bytes 2 msg.id ++ msg.typ ∷ msg.result ∷ 0 ∷ 0 ∷ msg.payload

abbrev pub message_of_bytes : List ℕ → Message
message_of_bytes bytes = record {
  size = le16_at bytes 0;
  id = le16_at bytes 2;
  typ = byte bytes 4;
  result = byte bytes 5;
  payload = drop 8 bytes;
}

module _ ⦃n : Network⦄ where
  -- The loop of read_data, with the bytes read so far. A round that does not return reads one at
  -- least, so as many rounds as bytes are wanted are enough.
  unfoldable pub read_loop : ℕ → ℕ → List ℕ → Socket → ℤ × List ℕ × Socket
  read_loop zero len data' s = (pos (length data'), data', s)
  read_loop (suc fuel) len data' s =
      let ret = n.recv s.calls (len - length data') (length s.incoming) in
      let s₁ = record (called s) { incoming = behind ret s.incoming } in
      let rest = read_loop fuel len (data' ++ bytes_of ret s.incoming) s₁ in
      if ltb (length data') len
      then (if is_neg ret || is_zero ret then (ret, data', s₁) else rest)
      else (pos (length data'), data', s)

  abbrev pub read_data : ℕ → Socket → ℤ × List ℕ × Socket
  read_data len s = read_loop len len [] s

  -- The loop of write_data, with how many bytes were written of all, and those that are left.
  unfoldable pub write_loop : ℕ → ℕ → List ℕ → Socket → ℤ × Socket
  write_loop zero transmitted left s = (pos transmitted, s)
  write_loop (suc fuel) transmitted left s =
      let ret = n.send s.calls (length left) in
      let s₁ = record (called s) { outgoing = s.outgoing ++ bytes_of ret left } in
      let rest = write_loop fuel (transmitted + length (bytes_of ret left)) (behind ret left) s₁ in
      if ltb 0 (length left) then (if is_neg ret then (ret, s₁) else rest) else (pos transmitted, s)

  -- A send of no bytes would make write_data go round for ever: it has one round for each byte
  -- here, and is as the code's where each sends one at least.
  abbrev pub write_data : List ℕ → Socket → ℤ × Socket
  write_data bytes s = write_loop (length bytes) 0 bytes s

  -- What gb_message_receive returns, and its `*flag`.
  pub record Received : Type 0 where
    pub message : Option (ℕ × List ℕ)
    pub flag : Bool
    pub socket : Socket

  abbrev pub early_exit : Bool → Socket → Received
  early_exit flag s = record { message = none; flag = flag; socket = s }

  -- gb_message_payload_len, a size_t
  abbrev pub gb_message_payload_len : ℕ → ℕ
  gb_message_payload_len size = (size + size_mod - hdr_size) % size_mod

  abbrev pub on_payload : ℕ → List ℕ → ℤ × List ℕ × Socket → Received
  on_payload cport hdr (ret, payload, s) =
      if is_len ret (gb_message_payload_len (le16_at hdr 0))
      then record { message = some (cport, hdr ++ payload); flag = false; socket = s }
      else early_exit (is_zero ret) s

  -- gb_message_alloc is of as many bytes as the header says, and copies the header there.
  abbrev pub on_header : ℕ → ℤ × List ℕ × Socket → Received
  on_header cport (ret, hdr, s) =
      if is_len ret hdr_size
      then if n.heap_alloc s.calls (le16_at hdr 0)
        then on_payload cport hdr (read_data (gb_message_payload_len (le16_at hdr 0)) (called s))
        else early_exit false (called s)
      else early_exit (is_zero ret) s

  abbrev pub on_cport : ℤ × List ℕ × Socket → Received
  on_cport (ret, bytes, s) =
      if is_len ret 2
      then on_header (le16_at bytes 0) (read_data hdr_size s)
      else early_exit (is_zero ret) s

  unfoldable pub gb_message_receive : Socket → Received
  gb_message_receive s = on_cport (read_data 2 s)

  module _ ⦃e : Errno⦄ where
    -- behind the cport that gb_trans_send writes
    abbrev pub send_message : List ℕ → ℤ × Socket → ℤ × Socket
    send_message buf (ret, s) =
        if is_neg ret
        then (ret, s)
        else let (ret', s') = write_data buf s in (if is_neg ret' then ret' else pos 0, s')

    -- gb_trans_send, of a buffer of bytes that is not NULL
    unfoldable pub gb_trans_send : ℕ → List ℕ → ℕ → Socket → ℤ × Socket
    gb_trans_send cport buf len s =
        if not (le16_at buf 0 == len) || ltb len hdr_size
        then (neg e.einval, s)
        else send_message buf (write_data (le_bytes 2 cport) s)

    module _ ⦃w : World⦄ where
      -- gb_trans_rx behind gb_message_receive
      abbrev pub handle_message : Option (ℕ × List ℕ) → State → State
      handle_message none s = s
      handle_message (some (cport, bytes)) s =
          (greybus_rx_handler cport (some (message_of_bytes bytes)) (le16_at bytes 0) s).1

      abbrev pub on_received : Received → State → Socket × State
      on_received r s =
          if r.flag
          then (record (r.socket) { is_open = false }, s)
          else (r.socket, handle_message r.message s)

      unfoldable pub gb_trans_rx : Socket → State → Socket × State
      gb_trans_rx c s =
          let (ret, pollin) = n.poll c.calls in
          if is_neg ret || not pollin
          then (called c, s)
          else on_received (gb_message_receive (called c)) s
