-- ===== src/Transport/Order.antt =====
-- That the messages of a connection reach the core one by one, in order
-- (subsys/greybus/platform/transport-tcpip-multiplex.c).
use greybus_for_zephyr.Base.{
  ℕ, zero, suc, ◌^◌, ◌<◌, ◌≡◌, refl, ap, ◌∙◌, true, some, List, [], ◌∷◌, ◌++◌, pos, All, length,
  arith,
}
use greybus_for_zephyr.Errno.{Errno}
use greybus_for_zephyr.Core.{Message, State, World}
use greybus_for_zephyr.Core.Receive.{greybus_rx_handler}
use greybus_for_zephyr.Protocols.{le16_at, le_bytes}
use greybus_for_zephyr.Transport.{
  Socket, Network, called, bytes_of_message, gb_message_receive, gb_trans_rx, on_received,
}
use greybus_for_zephyr.Transport.Stream.{IsStream}
use greybus_for_zephyr.Transport.Delivery.{
  IsMessage, received_lem, message_of_bytes-bytes_of_message,
}

-- a message, and the cport that it is for
pub record Parcel : Type 0 where
  pub cport : ℕ
  pub msg : Message

pub record IsParcel (parcel : Parcel) : Type 0 where
  pub narrow : parcel.cport < 2 ^ 16
  pub message : IsMessage parcel.msg

-- parcels as they lie on the wire
abbrev pub wire : List Parcel → List ℕ
wire [] = []
wire (parcel ∷ parcels) = le_bytes 2 parcel.cport ++ bytes_of_message parcel.msg ++ wire parcels

-- A network whose poll says that there is something to read, and a heap with room.
pub record IsReady (n : Network) : Type 0 where
  pub polls : (call : ℕ) → n.poll call ≡ (pos 1, true)
  pub room : (call size : ℕ) → n.heap_alloc call size ≡ true

module _ ⦃e : Errno⦄ ⦃w : World⦄ where
  -- what the core makes of parcels, handed to it directly
  abbrev pub handle_all : List Parcel → State → State
  handle_all [] s = s
  handle_all (parcel ∷ parcels) s =
      handle_all parcels (greybus_rx_handler parcel.cport (some parcel.msg) parcel.msg.size s).1

module _ ⦃n : Network⦄ ⦃e : Errno⦄ ⦃w : World⦄ where
  -- so many rounds of the receiving thread
  unfoldable pub rx_rounds : ℕ → Socket → State → Socket × State
  rx_rounds zero c s = (c, s)
  rx_rounds (suc k) c s = let (c', s') = gb_trans_rx c s in rx_rounds k c' s'

  rx_once :
      (parcel : Parcel) (rest : List ℕ) (c : Socket) (s : State)
      → IsStream n
      → IsReady n
      → IsParcel parcel
      → c.incoming ≡ le_bytes 2 parcel.cport ++ bytes_of_message parcel.msg ++ rest
      → (c' : Socket) × (gb_trans_rx c s
          ≡ (c', (greybus_rx_handler parcel.cport (some parcel.msg) parcel.msg.size s).1))
        × (c'.incoming ≡ rest)
  unfolding gb_trans_rx
  rx_once parcel rest c s stream ready fine there =
      let (c', receives, left) =
        received_lem stream parcel.cport parcel.msg rest (called c) fine.narrow fine.message
          ready.room there in
      let whole = message_of_bytes-bytes_of_message parcel.msg fine.message in
      let size : le16_at (bytes_of_message parcel.msg) 0 ≡ parcel.msg.size =
        omega (arith, fine.message.size_small) in
      let polls : gb_trans_rx c s ≡ on_received (gb_message_receive (called c)) s =
        rw (gb_trans_rx, ready.polls c.calls) refl in
      let handled : Message → ℕ → Socket × State =
        λ m k. (c', (greybus_rx_handler parcel.cport (some m) k s).1) in
      (
        c',
        polls
            ∙ ap (λ r. on_received r s) receives
            ∙ ap (λ m. handled m (le16_at (bytes_of_message parcel.msg) 0)) whole
            ∙ ap (handled parcel.msg) size,
        left,
      )

  rounds_lem :
      (parcels : List Parcel) (c : Socket) (s : State)
      → IsStream n
      → IsReady n
      → All IsParcel parcels
      → c.incoming ≡ wire parcels
      → (rx_rounds (length parcels) c s).1 ≡ handle_all parcels s
  unfolding rx_rounds
  rounds_lem [] c s stream ready fine there = refl
  rounds_lem (parcel ∷ parcels) c s stream ready fine there =
      let (c', runs, left) = rx_once parcel (wire parcels) c s stream ready fine.0 there in
      ap (λ x. (rx_rounds (length parcels) x.0 x.1).1) runs
      ∙ rounds_lem parcels c'
          (greybus_rx_handler parcel.cport (some parcel.msg) parcel.msg.size s).1 stream ready
          fine.1 left

-- However the network splits them, the messages that lie on the wire reach greybus_rx_handler one
-- by one, in order, each on its cport and with its size: so many rounds of the receiving thread
-- leave the core as if it had been handed them directly. The messages must state their sizes, poll
-- must report what there is to read, and the heap have room.
pub trans_rx_in_order :
    (n : Network)
    → ⦃e : Errno⦄ → ⦃w : World⦄ → IsStream n
    → IsReady n
    → (parcels : List Parcel) (c : Socket) (s : State) → All IsParcel parcels
    → c.incoming ≡ wire parcels
    → (rx_rounds ⦃n = n⦄ (length parcels) c s).1 ≡ handle_all parcels s
trans_rx_in_order n stream ready parcels c s fine there =
    rounds_lem ⦃n = n⦄ parcels c s stream ready fine there
