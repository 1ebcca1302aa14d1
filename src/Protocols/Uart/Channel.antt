-- ===== src/Protocols/Uart/Channel.antt =====
-- The queue that the UART's buffers are to be, and the steps of the interrupt and of the thread
-- (subsys/greybus/uart.c).
use greybus_for_zephyr.Base.{
  ℕ, ◌+◌, ◌≤◌, ◌≡◌, Bool, true, false, Option, none, some, List, [], ◌∷◌, ◌++◌, map, ◌==◌, length,
  take,
}
use greybus_for_zephyr.Errno.{Errno}
use greybus_for_zephyr.Core.{State, World}
use greybus_for_zephyr.Protocols.Board.{Board}
use greybus_for_zephyr.Protocols.Uart.{UartConstants}
use greybus_for_zephyr.Protocols.Uart.Receiver.{
  BufNode, Pc, Port, recv_flags, receive, uart_rx_thread, uart_ms_callback, uart_ls_callback,
  max_rx_buf_size,
}

-- what was received at once: its bytes and the flags of its errors
pub record Chunk : Type 0 where
  pub flags : ℕ
  pub bytes : List ℕ

abbrev pub content : BufNode → Chunk
content node = record { flags = node.data_flags; bytes = take node.data_size node.buffer }

abbrev pub one_if : Bool → ℕ
one_if true = 1
one_if false = 0

abbrev pub count : ℕ → List ℕ → ℕ
count k [] = 0
count k (n ∷ ns) = one_if (n == k) + count k ns

abbrev pub holds : ℕ → Option ℕ → ℕ
holds k none = 0
holds k (some n) = one_if (n == k)

abbrev pub in_hand : Pc → List ℕ
in_hand (Pc.sending n) = n ∷ []
in_hand pc = []

-- what was received, and what the thread is not yet done with
abbrev pub pending : Port → List Chunk
pending port = map (λ n. content (port.info.nodes n)) (in_hand port.pc ++ port.info.data_queue)

-- No node is in two places, and the driver receives into the node that `rx_node` points to.
pub record IsSound (port : Port) : Type 0 where
  pub once :
      (k : ℕ)
      → count k (in_hand port.pc)
          + count k port.info.data_queue
          + count k port.info.free_queue
          + holds k port.info.receiving
        ≤ 1
  pub linked : (n : ℕ) → port.info.receiving ≡ some n → port.info.rx_node ≡ some n

-- What an end of the abstract channel sees of a step.
pub data Label : Type 0 where
  arrive forward : Chunk → Label
  silent : Label

-- The channel that the UART is to be: a queue of chunks, first in, first out.
pub data Channel : List Chunk → Label → List Chunk → Type 0 where
  put : (q : List Chunk) (c : Chunk) → Channel q (Label.arrive c) (q ++ c ∷ [])
  get : (c : Chunk) (q : List Chunk) → Channel (c ∷ q) (Label.forward c) q
  stay : (q : List Chunk) → Channel q Label.silent q

-- In a step of its own the thread makes a request of the node that it has in hand, and is done with
-- its chunk, whether the request could be created and sent or not.
abbrev pub label_of : Port → Pc → Label
label_of port (Pc.sending n) = Label.forward (content (port.info.nodes n))
label_of port pc = Label.silent

module _ ⦃e : Errno⦄ ⦃w : World⦄ ⦃b : Board⦄ ⦃u : UartConstants⦄ (dev : ℕ) where
  -- What can happen: the driver calls back with at most the bytes that it was given room for, the
  -- thread goes on, the line's status changes, or the core's state does.
  pub data Step : Port → Label → Port → Type 0 where
    arrives :
        (n : ℕ) (bytes : List ℕ) (error : ℕ) (port port' : Port)
        → port.info.receiving ≡ some n
        → length bytes ≤ max_rx_buf_size
        → receive dev n bytes error port ≡ some port'
        → Step port (Label.arrive (record { flags = recv_flags error; bytes = bytes })) port'
    runs :
        (port port' : Port)
        → uart_rx_thread dev port ≡ some port'
        → Step port (label_of port port.pc) port'
    modem :
        (ms : ℕ) (port : Port)
        → Step port Label.silent (record port { info = uart_ms_callback ms port.info })
    line :
        (ls : ℕ) (port : Port)
        → Step port Label.silent (record port { info = uart_ls_callback ls port.info })
    core : (s : State) (port : Port) → Step port Label.silent (record port { core = s })

  -- Steps one behind the other, with what the ends saw.
  pub data Run (port : Port) : List Label → Port → Type 0 where
    here : Run port [] port
    next :
        {ls : List Label} {l : Label} {t u : Port}
        → Run port ls t
        → Step t l u
        → Run port (ls ++ l ∷ []) u

-- The same of the channel.
pub data ChannelRun (q : List Chunk) : List Label → List Chunk → Type 0 where
  here : ChannelRun q [] q
  next :
      {ls : List Label} {l : Label} {t u : List Chunk}
      → ChannelRun q ls t
      → Channel t l u
      → ChannelRun q (ls ++ l ∷ []) u

-- what was put in, and what came out
abbrev pub arrivals : List Label → List Chunk
arrivals [] = []
arrivals (Label.arrive c ∷ ls) = c ∷ arrivals ls
arrivals (Label.forward c ∷ ls) = arrivals ls
arrivals (Label.silent ∷ ls) = arrivals ls

abbrev pub forwards : List Label → List Chunk
forwards [] = []
forwards (Label.arrive c ∷ ls) = forwards ls
forwards (Label.forward c ∷ ls) = c ∷ forwards ls
forwards (Label.silent ∷ ls) = forwards ls
