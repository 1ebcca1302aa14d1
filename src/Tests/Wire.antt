-- ===== src/Tests/Wire.antt =====
-- A message over a network that carries a byte at a time.
use greybus_for_zephyr.Base.{
  ℕ, refl, true, false, ◌≡◌, List, [], ◌∷◌, ◌++◌, pos, ltb, if◌then◌else◌, arith, lt→ltb, some,
}
use greybus_for_zephyr.Core.{Message}
use greybus_for_zephyr.Transport.{
  Socket, Network, bytes_of_message, message_of_bytes, gb_message_receive, gb_trans_send,
  write_loop,
}
use greybus_for_zephyr.Transport.Stream.{IsStream}
use greybus_for_zephyr.Transport.Delivery.{IsMessage, trans_delivers}
use greybus_for_zephyr.Transport.Order.{
  Parcel, wire, IsReady, rx_rounds, handle_all, trans_rx_in_order,
}
use greybus_for_zephyr.Tests.Samples.{posix, fine_world, state_of, single_op}

-- recv and send take one byte, where there is one
abbrev slow : Network
slow = record {
  recv =
      λ call len available. if ltb 0 len then (if ltb 0 available then pos 1 else pos 0) else pos 0;
  send = λ call len. if ltb 0 len then pos 1 else pos 0;
  poll = λ call. (pos 1, true);
  heap_alloc = λ call size. true;
}

slow-IsStream : IsStream slow
slow-IsStream = record {
  recv_some = λ call len available wanted there. (
    1,
    rw (lt→ltb 0 len wanted, lt→ltb 0 available there) refl,
    omega arith,
    omega (arith, wanted),
    omega (arith, there),
  );
  send_some =
      λ call len wanted. (1, rw (lt→ltb 0 len wanted) refl, omega arith, omega (arith, wanted));
}

abbrev ping : Message
ping = record { size = 10; id = 300; typ = 2; result = 0; payload = 7 ∷ 9 ∷ [] }

ping-IsMessage : IsMessage ping
ping-IsMessage = record { whole = refl; size_small = omega arith; id_small = omega arith }

abbrev writer : Socket
writer = record { incoming = []; outgoing = []; calls = 0; is_open = true }

abbrev written : List ℕ
written = 1 ∷ 0 ∷ 10 ∷ 0 ∷ 44 ∷ 1 ∷ 2 ∷ 0 ∷ 0 ∷ 0 ∷ 7 ∷ 9 ∷ []

-- with what is in front of the next message behind it
abbrev reader : Socket
reader = record { incoming = written ++ 5 ∷ []; outgoing = []; calls = 0; is_open = true }

trans_delivers_example :
    let (ret, from') = gb_trans_send ⦃n = slow⦄ 1 (bytes_of_message ping) 10 writer in
    let received = gb_message_receive ⦃n = slow⦄ reader in
    (ret ≡ pos 0)
    × (received.message ≡ some (1, bytes_of_message ping))
    × (received.flag ≡ false)
    × (received.socket.incoming ≡ 5 ∷ [])
    × (message_of_bytes (bytes_of_message ping) ≡ ping)
unfolding gb_trans_send write_loop
trans_delivers_example =
    trans_delivers slow slow slow-IsStream slow-IsStream (λ call size. refl) 1 ping (5 ∷ []) writer
      reader (omega arith) ping-IsMessage refl refl

slow-IsReady : IsReady slow
slow-IsReady = record { polls = λ call. refl; room = λ call size. refl }

-- a request, and an answer that nobody waits for
abbrev two_parcels : List Parcel
two_parcels =
    record { cport = 0; msg = ping }
    ∷ record { cport = 1; msg = record { size = 8; id = 1; typ = 129; result = 0; payload = [] } }
    ∷ []

abbrev full_reader : Socket
full_reader = record { incoming = wire two_parcels; outgoing = []; calls = 0; is_open = true }

trans_rx_in_order_example :
    (rx_rounds ⦃n = slow⦄ 2 full_reader (state_of single_op)).1
    ≡ handle_all two_parcels (state_of single_op)
trans_rx_in_order_example =
    trans_rx_in_order slow slow-IsStream slow-IsReady two_parcels full_reader (state_of single_op)
      (
        record { narrow = omega arith; message = ping-IsMessage },
        (
          record {
            narrow = omega arith;
            message = record { whole = refl; size_small = omega arith; id_small = omega arith };
          },
          tt,
        ),
      )
      refl
