-- ===== src/Protocols/Uart/Arrival.antt =====
-- What the interrupt's callback does to the queue (subsys/greybus/uart.c).
use greybus_for_zephyr.Base.{
  ℕ, ◌+◌, ◌≤◌, ◌≡◌, ◌%◌, ◌^◌, refl, ap, sym, ◌∙◌, true, none, some, List, [], ◌∷◌, ◌++◌, map, ◌==◌,
  is_zero, length, take_all, arith, Bool-cases, inl, inr, ==-self, ==→eq,
}
use mathlib.Core.List.{append_assoc}
use mathlib.Core.Path.{subst}
use greybus_for_zephyr.Errno.{Errno}
use greybus_for_zephyr.Core.{World, DriverFunction, update}
use greybus_for_zephyr.Protocols.Board.{Board}
use greybus_for_zephyr.Protocols.Uart.{UartConstants}
use greybus_for_zephyr.Protocols.Uart.Receiver.{
  BufNode, Port, recv_flags, start_receiver, next_node, uart_rx_callback, receive, max_rx_buf_size,
}
use greybus_for_zephyr.Protocols.Uart.Channel.{
  Chunk, content, one_if, count, holds, in_hand, pending, IsSound, Label, Channel,
}

pub count-append : (k : ℕ) (xs ys : List ℕ) → count k (xs ++ ys) ≡ count k xs + count k ys
count-append k [] ys = omega arith
count-append k (x ∷ xs) ys = omega (arith, count-append k xs ys)

map-append : (f : ℕ → Chunk) (xs ys : List ℕ) → map f (xs ++ ys) ≡ map f xs ++ map f ys
map-append f [] ys = refl
map-append f (x ∷ xs) ys = ap (λ t. f x ∷ t) (map-append f xs ys)

-- What is written to a node that is not in a list does not change what the list holds.
map-update :
    (nodes : ℕ → BufNode) (n : ℕ) (node : BufNode) (xs : List ℕ)
    → count n xs ≡ 0
    → map (λ k. content (update nodes n node k)) xs ≡ map (λ k. content (nodes k)) xs
map-update nodes n node [] none_there = refl
map-update nodes n node (x ∷ xs) none_there = elim (Bool-cases (n == x)) [
  | inl here ↦
      let same : x == n ≡ true = rw (==→eq n x here, ==-self x) refl in
      absurd (omega (arith, rw same at none_there))
  | inr there ↦
      rw there (ap (λ t. content (nodes x) ∷ t) (map-update nodes n node xs (omega arith)))
]

module _ ⦃e : Errno⦄ ⦃w : World⦄ ⦃b : Board⦄ ⦃u : UartConstants⦄ (dev : ℕ) where
  pub start_receiver-IsSound :
      (n : ℕ) (port : Port)
      → ((k : ℕ)
          → count k (in_hand port.pc)
              + count k port.info.data_queue
              + count k port.info.free_queue
              + one_if (n == k)
            ≤ 1)
      → IsSound (start_receiver dev n port)
  start_receiver-IsSound n port once =
      let ret =
        b.ret port.core.trace dev DriverFunction.uart_start_receiver
          (n ∷ port.info.rx_buf_size ∷ []) in
      elim (Bool-cases (is_zero ret)) [
        | inl started ↦ record { once = λ k. rw started (once k); linked = λ m h. rw started at h }
        | inr failed ↦ record {
          once = λ k. rw failed (omega (arith, once k));
          linked = λ m h. absurd (cc (rw failed at h));
        }
      ]

  next_node-IsSound :
      (free : List ℕ) (port : Port)
      → port.info.free_queue ≡ free
      → port.info.receiving ≡ none
      → ((k : ℕ) → count k (in_hand port.pc) + count k port.info.data_queue + count k free ≤ 1)
      → IsSound (next_node dev free port)
  next_node-IsSound [] port queued off once = record {
    once = λ k. rw (queued, off) (omega (arith, once k));
    linked = λ m h. absurd (cc (h, off));
  }
  next_node-IsSound (n ∷ free) port queued off once =
      start_receiver-IsSound n (record port { info = record (port.info) { free_queue = free } })
        (λ k. omega (arith, once k))

  next_node-pending :
      (free : List ℕ) (port : Port) → pending (next_node dev free port) ≡ pending port
  next_node-pending [] port = refl
  next_node-pending (n ∷ free) port = refl

  -- the node that the driver has written, and the port that rx_done leaves for next_node
  abbrev written : ℕ → List ℕ → Port → ℕ → BufNode
  written n bytes port = update port.info.nodes n (record (port.info.nodes n) { buffer = bytes })

  abbrev arrived : ℕ → List ℕ → ℕ → Port → Port
  arrived n bytes error port = record port {
    info = record (port.info) {
      receiving = none;
      nodes = update (written n bytes port) n (record (written n bytes port n) {
        data_size = length bytes % 2 ^ 16;
        data_flags = recv_flags error;
      });
      data_queue = port.info.data_queue ++ n ∷ [];
      rx_sem = port.info.rx_sem + 1;
    };
  }

  receive_lem :
      (n : ℕ) (bytes : List ℕ) (error : ℕ) (port : Port)
      → port.info.rx_node ≡ some n
      → receive dev n bytes error port
        ≡ some (next_node dev port.info.free_queue (arrived n bytes error port))
  unfolding uart_rx_callback
  receive_lem n bytes error port linked = rw (uart_rx_callback, linked) refl

  arrived-content :
      (n : ℕ) (bytes : List ℕ) (error : ℕ) (port : Port)
      → length bytes ≤ max_rx_buf_size
      → content ((arrived n bytes error port).info.nodes n)
        ≡ record { flags = recv_flags error; bytes = bytes }
  arrived-content n bytes error port fits =
      let small : length bytes % 2 ^ 16 ≡ length bytes = omega (arith, fits) in
      let whole = take_all bytes (length bytes) refl in rw (==-self n, small, whole) refl

  arrived-pending :
      (n : ℕ) (bytes : List ℕ) (error : ℕ) (port : Port)
      → length bytes ≤ max_rx_buf_size
      → count n (in_hand port.pc ++ port.info.data_queue) ≡ 0
      → pending (arrived n bytes error port)
        ≡ pending port ++ record { flags = recv_flags error; bytes = bytes } ∷ []
  arrived-pending n bytes error port fits elsewhere =
      let before = in_hand port.pc ++ port.info.data_queue in
      let f = λ (k : ℕ). content ((arrived n bytes error port).info.nodes k) in
      ap (map f) (sym (append_assoc (in_hand port.pc) port.info.data_queue (n ∷ [])))
      ∙ map-append f before (n ∷ [])
      ∙ ap (λ c. map f before ++ c ∷ []) (arrived-content n bytes error port fits)
      ∙ ap (λ t. t ++ record { flags = recv_flags error; bytes = bytes } ∷ [])
          (map-update (written n bytes port) n _ before elsewhere
            ∙ map-update port.info.nodes n _ before elsewhere)

  -- What a step is to show: the invariant stays, and the queue moves as the channel does.
  abbrev pub Refines : Port → Label → Port → Type 0
  Refines port l port' = IsSound port' × Channel (pending port) l (pending port')

  pub Refines-some :
      (port port₁ port' : Port) (l : Label)
      → some port₁ ≡ some port'
      → Refines port l port₁
      → Refines port l port'
  Refines-some port port₁ port' l h r =
      let same : port₁ ≡ port' = cc h in subst (λ x. Refines port l x) same r

  pub arrives-Refines :
      (n : ℕ) (bytes : List ℕ) (error : ℕ) (port port' : Port)
      → IsSound port
      → port.info.receiving ≡ some n
      → length bytes ≤ max_rx_buf_size
      → receive dev n bytes error port ≡ some port'
      → Refines port (Label.arrive (record { flags = recv_flags error; bytes = bytes })) port'
  arrives-Refines n bytes error port port' sound on fits h =
      let port₁ = arrived n bytes error port in
      let chunk : Chunk = record { flags = recv_flags error; bytes = bytes } in
      let held : (k : ℕ) → holds k port.info.receiving ≡ one_if (n == k) = λ k. rw on refl in
      let snoc = λ (k : ℕ). count-append k port.info.data_queue (n ∷ []) in
      let only : one_if (n == n) ≡ 1 = rw (==-self n) refl in
      let elsewhere : count n (in_hand port.pc ++ port.info.data_queue) ≡ 0 = omega (
        arith,
        sound.once n,
        held n,
        only,
        count-append n (in_hand port.pc) port.info.data_queue,
      ) in
      let moved : pending (next_node dev port.info.free_queue port₁) ≡ pending port ++ chunk ∷ [] =
        next_node-pending port.info.free_queue port₁
        ∙ arrived-pending n bytes error port fits elsewhere in
      let kept =
        next_node-IsSound port.info.free_queue port₁ refl refl
          (λ k. omega (arith, sound.once k, held k, snoc k)) in
      Refines-some port (next_node dev port.info.free_queue port₁) port' (Label.arrive chunk)
        (sym (receive_lem n bytes error port (sound.linked n on)) ∙ h)
        (
          kept,
          subst (λ q. Channel (pending port) (Label.arrive chunk) q) (sym moved)
              (Channel.put (pending port) chunk),
        )
