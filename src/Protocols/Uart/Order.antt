-- ===== src/Protocols/Uart/Order.antt =====
-- What the UART's thread takes up to be sent, against what was received, over every interleaving
-- of the interrupt with the thread (subsys/greybus/uart.c).
use greybus_for_zephyr.Base.{
  ℕ, ◌-◌, ◌≡◌, refl, ap, sym, ◌∙◌, false, some, List, [], ◌∷◌, ◌++◌, map, ◌==◌, arith, Bool-cases,
  inl, inr,
}
use mathlib.Core.List.{append_assoc, append-nil}
use mathlib.Core.Path.{subst}
use greybus_for_zephyr.Errno.{Errno}
use greybus_for_zephyr.Core.{World}
use greybus_for_zephyr.Protocols.Board.{Board}
use greybus_for_zephyr.Protocols.Uart.{UartConstants}
use greybus_for_zephyr.Protocols.Uart.Receiver.{
  Pc, Port, start_receiver, rearm, take_data, wake, uart_rx_thread, put_node_back, send_node,
}
use greybus_for_zephyr.Protocols.Uart.Channel.{
  Chunk, content, pending, IsSound, Label, Channel, label_of, Step, Run, ChannelRun, arrivals,
  forwards,
}
use greybus_for_zephyr.Protocols.Uart.Arrival.{
  Refines, Refines-some, arrives-Refines, start_receiver-IsSound, count-append,
}

module _ ⦃e : Errno⦄ ⦃w : World⦄ ⦃b : Board⦄ ⦃u : UartConstants⦄ (dev : ℕ) where
  -- A silent step is one that leaves what is pending.
  stays :
      (port port' : Port)
      → IsSound port'
      → pending port' ≡ pending port
      → Refines dev port Label.silent port'
  stays port port' sound same = (
    sound,
    subst (λ q. Channel (pending port) Label.silent q) (sym same) (Channel.stay (pending port)),
  )

  taken-Refines :
      (queue : List ℕ) (port : Port)
      → port.pc ≡ Pc.waiting
      → port.info.data_queue ≡ queue
      → IsSound port
      → Refines dev port Label.silent (
          take_data queue
            (record port { info = record (port.info) { rx_sem = port.info.rx_sem - 1 } }))
  taken-Refines [] port idle queued sound =
      stays port _ (record { once = λ k. rw idle at sound.once k; linked = sound.linked })
        (rw idle refl)
  taken-Refines (n ∷ queue) port idle queued sound =
      stays port _
        (record {
          once = λ k. omega (arith, rw (idle, queued) at sound.once k);
          linked = sound.linked;
        })
        (rw (idle, queued) refl)

  wake-Refines :
      (port port' : Port)
      → port.pc ≡ Pc.waiting
      → IsSound port
      → wake port ≡ some port'
      → Refines dev port Label.silent port'
  wake-Refines port port' idle sound h = elim (Bool-cases (port.info.rx_sem == 0)) [
    | inl blocked ↦ absurd (cc (rw blocked at h))
    | inr posted ↦ elim (Bool-cases port.info.thread_stop) [
      | inl told ↦ Refines-some dev port _ port' Label.silent (rw (posted, told) at h) (
          stays port _ (record { once = λ k. rw idle at sound.once k; linked = sound.linked })
            (rw idle refl))
      | inr on ↦
          let port₁ =
            take_data port.info.data_queue
              (record port { info = record (port.info) { rx_sem = port.info.rx_sem - 1 } }) in
          let wakes : wake port ≡ some port₁ = simp (posted, on) in
          Refines-some dev port port₁ port' Label.silent (sym wakes ∙ h)
            (taken-Refines port.info.data_queue port idle refl sound)
    ]
  ]

  rearm-Refines :
      (free : List ℕ) (port port' : Port)
      → port.pc ≡ Pc.checking
      → port.info.free_queue ≡ free
      → IsSound port
      → rearm dev free port ≡ some port'
      → Refines dev port Label.silent port'
  rearm-Refines [] port port' there queued sound h = absurd (cc h)
  rearm-Refines (n ∷ free) port port' there queued sound h =
      let port₁ = record port {
        info = record (port.info) { free_queue = free };
        pc = Pc.clearing;
      } in
      Refines-some dev port (start_receiver dev n port₁) port' Label.silent h (
        stays port (start_receiver dev n port₁)
          (start_receiver-IsSound dev n port₁
            (λ k. omega (arith, rw (there, queued) at sound.once k)))
          (rw there refl))

  forward-Refines :
      (n : ℕ) (port port' : Port)
      → port.pc ≡ Pc.sending n
      → IsSound port
      → some (record port {
        info = record (port.info) { free_queue = put_node_back port.info.free_queue n };
        pc = Pc.checking;
        core = send_node port.info.cport (port.info.nodes n) port.core;
      })
        ≡ some port'
      → Refines dev port (Label.forward (content (port.info.nodes n))) port'
  forward-Refines n port port' there sound h =
      let rest = map (λ k. content (port.info.nodes k)) port.info.data_queue in
      let head : pending port ≡ content (port.info.nodes n) ∷ rest = rw there refl in
      let snoc = λ (k : ℕ). count-append k port.info.free_queue (n ∷ []) in
      Refines-some dev port _ port' (Label.forward (content (port.info.nodes n))) h (
        record {
          once = λ k. omega (arith, snoc k, rw there at sound.once k);
          linked = sound.linked;
        },
        subst (λ q. Channel q (Label.forward (content (port.info.nodes n))) rest) (sym head)
            (Channel.get (content (port.info.nodes n)) rest),
      )

  runs-Refines :
      (pc : Pc) (port port' : Port)
      → port.pc ≡ pc
      → IsSound port
      → uart_rx_thread dev port ≡ some port'
      → Refines dev port (label_of port pc) port'
  unfolding uart_rx_thread
  runs-Refines Pc.waiting port port' there sound h =
      wake-Refines port port' there sound (rw (uart_rx_thread, there) at h)
  runs-Refines (Pc.sending n) port port' there sound h =
      forward-Refines n port port' there sound (simp (uart_rx_thread, there) at h)
  runs-Refines Pc.checking port port' there sound h = elim (Bool-cases port.info.require_node) [
    | inl wants ↦
        rearm-Refines port.info.free_queue port port' there refl sound
          (simp (uart_rx_thread, there, wants) at h)
    | inr has ↦
        Refines-some dev port (record port { pc = Pc.waiting }) port' Label.silent
          (simp (uart_rx_thread, there, has) at h)
          (stays port _ (record { once = λ k. rw there at sound.once k; linked = sound.linked })
            (rw there refl))
  ]
  runs-Refines Pc.clearing port port' there sound h =
      Refines-some dev port _ port' Label.silent (simp (uart_rx_thread, there) at h) (
        stays port
          (record port { info = record (port.info) { require_node = false }; pc = Pc.waiting })
          (record { once = λ k. rw there at sound.once k; linked = sound.linked }) (rw there refl))
  runs-Refines Pc.ended port port' there sound h = absurd (cc (rw (uart_rx_thread, there) at h))

  Step-Refines :
      {port port' : Port} {l : Label}
      → Step dev port l port'
      → IsSound port
      → Refines dev port l port'
  Step-Refines (Step.arrives n bytes error port port' on fits h) sound =
      arrives-Refines dev n bytes error port port' sound on fits h
  Step-Refines (Step.runs port port' h) sound = runs-Refines port.pc port port' refl sound h
  Step-Refines (Step.modem ms port) sound =
      stays port _ (record { once = sound.once; linked = sound.linked }) refl
  Step-Refines (Step.line ls port) sound =
      stays port _ (record { once = sound.once; linked = sound.linked }) refl
  Step-Refines (Step.core s port) sound =
      stays port _ (record { once = sound.once; linked = sound.linked }) refl

  Run-IsSound :
      {port port' : Port} {ls : List Label} → IsSound port → Run dev port ls port' → IsSound port'
  Run-IsSound sound Run.here = sound
  Run-IsSound sound (Run.next r st) = (Step-Refines st (Run-IsSound sound r)).0

  pub uart_refines :
      {port port' : Port} {ls : List Label}
      → IsSound port
      → Run dev port ls port'
      → ChannelRun (pending port) ls (pending port')
  uart_refines sound Run.here = ChannelRun.here
  uart_refines sound (Run.next r st) =
      ChannelRun.next (uart_refines sound r) (Step-Refines st (Run-IsSound sound r)).1

arrivals-snoc :
    (ls : List Label) (l : Label) → arrivals (ls ++ l ∷ []) ≡ arrivals ls ++ arrivals (l ∷ [])
arrivals-snoc [] l = refl
arrivals-snoc (Label.arrive c ∷ ls) l = ap (λ t. c ∷ t) (arrivals-snoc ls l)
arrivals-snoc (Label.forward c ∷ ls) l = arrivals-snoc ls l
arrivals-snoc (Label.silent ∷ ls) l = arrivals-snoc ls l

forwards-snoc :
    (ls : List Label) (l : Label) → forwards (ls ++ l ∷ []) ≡ forwards ls ++ forwards (l ∷ [])
forwards-snoc [] l = refl
forwards-snoc (Label.arrive c ∷ ls) l = forwards-snoc ls l
forwards-snoc (Label.forward c ∷ ls) l = ap (λ t. c ∷ t) (forwards-snoc ls l)
forwards-snoc (Label.silent ∷ ls) l = forwards-snoc ls l

-- one step more on a queue whose ends agree so far
step_in_order :
    (q t u : List Chunk) (l : Label) (ins outs : List Chunk)
    → q ++ ins ≡ outs ++ t
    → Channel t l u
    → q ++ (ins ++ arrivals (l ∷ [])) ≡ outs ++ forwards (l ∷ []) ++ u
step_in_order q t u l ins outs h (Channel.put x c) =
    sym (append_assoc q ins (c ∷ []))
    ∙ ap (λ z. z ++ c ∷ []) h
    ∙ append_assoc outs t (c ∷ [])
    ∙ ap (λ z. z ++ (t ++ c ∷ [])) (sym (append-nil outs))
step_in_order q t u l ins outs h (Channel.get c x) =
    ap (λ z. q ++ z) (append-nil ins) ∙ h ∙ sym (append_assoc outs (c ∷ []) u)
step_in_order q t u l ins outs h (Channel.stay x) =
    ap (λ z. q ++ z) (append-nil ins) ∙ h ∙ ap (λ z. z ++ t) (sym (append-nil outs))

-- What comes out of a channel is what was in it and was put in, in order, less what is left.
channel_in_order :
    {q q' : List Chunk} {ls : List Label}
    → ChannelRun q ls q'
    → q ++ arrivals ls ≡ forwards ls ++ q'
channel_in_order {q} ChannelRun.here = append-nil q
channel_in_order {q} (ChannelRun.next {ls} {l} {t} {u} r st) =
    ap (λ z. q ++ z) (arrivals-snoc ls l)
    ∙ step_in_order q t u l (arrivals ls) (forwards ls) (channel_in_order r) st
    ∙ ap (λ z. z ++ u) (sym (forwards-snoc ls l))

-- What the thread made requests of is what the UART received, in order and unchanged, less what is
-- still pending: no chunk is lost, made up, or written over while it waits, whatever the order in
-- which the interrupt and the thread run. No node must be in two places to begin with, and what is
-- pending then comes first.
pub uart_in_order :
    ⦃e : Errno⦄
    → ⦃w : World⦄ → ⦃b : Board⦄ → ⦃u : UartConstants⦄
    → (dev : ℕ) (port port' : Port) (ls : List Label) → IsSound port
    → Run dev port ls port'
    → pending port ++ arrivals ls ≡ forwards ls ++ pending port'
uart_in_order dev port port' ls sound run = channel_in_order (uart_refines dev sound run)
