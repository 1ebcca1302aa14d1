-- ===== src/Tests/Serial.antt =====
-- The UART of a small board: what it receives, and how its thread may stall.
use greybus_for_zephyr.Base.{◌≡◌, refl, true, false, Option, none, some, List, [], ◌∷◌, pos, arith}
use greybus_for_zephyr.Protocols.Board.{Board}
use greybus_for_zephyr.Protocols.Uart.{UartConstants}
use greybus_for_zephyr.Protocols.Uart.Receiver.{Pc, Port, uart_rx_thread, uart_rx_callback, receive}
use greybus_for_zephyr.Protocols.Uart.Channel.{Chunk, Label}
use greybus_for_zephyr.Protocols.Uart.Setup.{
  Semaphores, Setup, started_port, fresh_setup, gb_uart_init, uart_status_cb_init,
  uart_receiver_cb_init, uart_alloc_buf,
}
use greybus_for_zephyr.Core.{Bundle, Event}
use greybus_for_zephyr.Protocols.Uart.Sent.{thread_sends}
use greybus_for_zephyr.Core.Lifecycle.{gb_operation_create}
use greybus_for_zephyr.Tests.Samples.{posix, fine_world, state_of, single_op}

instance abbrev pub serial_board : Board
serial_board = record {
  ret = λ trace dev f args. pos 0;
  out = λ trace dev f args. [];
  open_device = λ trace. some 0;
}

instance abbrev pub serial_constants : UartConstants
serial_constants = record {
  no_parity = 0;
  odd_parity = 1;
  even_parity = 2;
  mark_parity = 3;
  space_parity = 4;
  one_stop_bit = 0;
  one5_stop_bits = 1;
  two_stop_bits = 2;
  mcr_dtr = 1;
  mcr_rts = 2;
  msr_dcd = 128;
  msr_dsr = 32;
  msr_ri = 64;
  lsr_oe = 2;
  lsr_pe = 4;
  lsr_fe = 8;
  lsr_bi = 16;
}

-- the port as gb_uart_init leaves it
abbrev fresh_port : Port
fresh_port = record {
  info = record {
    cport = 1;
    updated_ms = 0;
    updated_ls = 0;
    last_serial_state = 0;
    ms_ls_operation = none;
    status_sem = 0;
    free_queue = 0 ∷ 1 ∷ 2 ∷ 3 ∷ 4 ∷ [];
    data_queue = [];
    rx_node = none;
    rx_buf_size = 256;
    require_node = true;
    rx_sem = 1;
    thread_stop = false;
    nodes = λ n. record { data_size = 0; data_flags = 0; buffer = [] };
    receiving = none;
  };
  pc = Pc.waiting;
  core = state_of single_op;
}

abbrev after : Option Port → Port
after none = fresh_port
after (some port) = port

-- The thread arms the receiver with node 0, a chunk arrives in it with a framing error, and the
-- thread wakes up and hands it on.
abbrev woken : Port
unfolding uart_rx_thread uart_rx_callback
woken = after (uart_rx_thread 0 fresh_port)

abbrev armed : Port
unfolding uart_rx_thread uart_rx_callback
armed = after (uart_rx_thread 0 woken)

abbrev cleared : Port
unfolding uart_rx_thread uart_rx_callback
cleared = after (uart_rx_thread 0 armed)

abbrev arrived : Port
unfolding uart_rx_thread uart_rx_callback
arrived = after (receive 0 0 (104 ∷ 105 ∷ []) 8 cleared)

abbrev taken : Port
unfolding uart_rx_thread uart_rx_callback
taken = after (uart_rx_thread 0 arrived)

abbrev handed_on : Port
unfolding uart_rx_thread uart_rx_callback
handed_on = after (uart_rx_thread 0 taken)

abbrev chunk : Chunk
chunk = record { flags = 1; bytes = 104 ∷ 105 ∷ [] }

abbrev seen : List Label
seen =
    Label.silent
    ∷ Label.silent
    ∷ Label.silent
    ∷ Label.arrive chunk
    ∷ Label.silent
    ∷ Label.forward chunk
    ∷ []

thread_sends_example :
    handed_on.core.trace
    ≡ Event.freed
      ∷ Event.sent 1
          (record { size = 13; id = 0; typ = 3; result = 0; payload = 2 ∷ 0 ∷ 1 ∷ 104 ∷ 105 ∷ [] })
      ∷ Event.allocated 13
      ∷ Event.allocated 0
      ∷ taken.core.trace
unfolding uart_rx_thread uart_rx_callback taken handed_on arrived cleared armed woken
thread_sends_example =
    thread_sends 0 0 taken handed_on refl refl (omega arith) (omega arith) refl refl refl refl

-- Four chunks wait, and the driver receives into the last node, when the thread is between
-- device_uart_start_receiver and `require_node = 0`.
abbrev late : Port
late = record fresh_port {
  info = record (fresh_port.info) {
    free_queue = [];
    data_queue = 1 ∷ 2 ∷ 3 ∷ 4 ∷ [];
    rx_node = some 0;
    receiving = some 0;
  };
  pc = Pc.clearing;
}

-- The callback then asks for a node, and the thread takes this back: nothing receives any more.
late_stalls :
    let port = after (uart_rx_thread 0 (after (receive 0 0 (1 ∷ []) 0 late))) in
    (port.info.receiving ≡ none) × (port.info.require_node ≡ false)
unfolding uart_rx_thread uart_rx_callback
late_stalls = (refl, refl)

-- Behind put_node_back, with one free node, two callbacks leave the thread no node to receive into.
abbrev drained : Port
drained = record fresh_port {
  info = record (fresh_port.info) {
    free_queue = 1 ∷ [];
    data_queue = 2 ∷ 3 ∷ 4 ∷ [];
    rx_node = some 0;
    receiving = some 0;
    require_node = false;
  };
  pc = Pc.checking;
}

drained_null :
    uart_rx_thread 0 (after (receive 0 1 (2 ∷ []) 0 (after (receive 0 0 (1 ∷ []) 0 drained))))
    ≡ none
unfolding uart_rx_thread uart_rx_callback
drained_null = refl

instance abbrev semaphores : Semaphores
semaphores = record { sem_init = λ trace. pos 0 }

abbrev bundle : Bundle
bundle = record { id = 0; cport_start = 0; dev = 1; devices = λ i. none; priv = none }

abbrev opened_or : Option Setup → Setup
opened_or none = fresh_setup 1 (state_of single_op)
opened_or (some x) = x

abbrev opened : Setup
unfolding gb_uart_init uart_status_cb_init uart_receiver_cb_init uart_alloc_buf gb_operation_create
opened = opened_or (gb_uart_init 1 0 bundle (state_of single_op)).1

-- Its thread wakes up and arms the receiver, a chunk arrives, and the thread deals with it.
abbrev awake : Port
unfolding uart_rx_thread opened
awake = after (uart_rx_thread 0 (started_port opened))

abbrev armed_port : Port
unfolding uart_rx_thread opened
armed_port = after (uart_rx_thread 0 awake)

abbrev settled : Port
unfolding uart_rx_thread opened
settled = after (uart_rx_thread 0 armed_port)

abbrev holding : Port
unfolding uart_rx_thread uart_rx_callback opened
holding = after (receive 0 0 (104 ∷ 105 ∷ []) 8 settled)

abbrev woken_again : Port
unfolding uart_rx_thread uart_rx_callback opened
woken_again = after (uart_rx_thread 0 holding)

abbrev dealt_with : Port
unfolding uart_rx_thread uart_rx_callback opened
dealt_with = after (uart_rx_thread 0 woken_again)

abbrev first_seen : List Label
first_seen =
    Label.silent
    ∷ Label.silent
    ∷ Label.silent
    ∷ Label.arrive chunk
    ∷ Label.silent
    ∷ Label.forward chunk
    ∷ []
