-- ===== src/Protocols/Uart/Receiver.antt =====
-- What the UART receives and the host gets: the buffers, the interrupt's callback and the thread
-- that makes requests of them (subsys/greybus/uart.c).
use greybus_for_zephyr.Base.{
  ℕ, ◌+◌, ◌-◌, ◌%◌, ◌^◌, Bool, true, false, Option, none, some, List, [], ◌∷◌, ◌++◌, ◌==◌,
  if◌then◌else◌, is_zero, length, take,
}
use greybus_for_zephyr.Errno.{Errno}
use greybus_for_zephyr.Core.{State, World, DeviceCall, DriverFunction, update}
use greybus_for_zephyr.Core.Lifecycle.{gb_operation_create, gb_operation_destroy}
use greybus_for_zephyr.Core.Send.{gb_operation_send_request}
use greybus_for_zephyr.Protocols.{put_request_bytes, le_bytes, call_device}
use greybus_for_zephyr.Protocols.Board.{Board}
use greybus_for_zephyr.Protocols.Uart.{UartConstants, has_bit, put_bit}

-- MAX_RX_BUF_NUMBER, MAX_RX_BUF_SIZE
abbrev pub max_rx_buf_number : ℕ
max_rx_buf_number = 5

abbrev pub max_rx_buf_size : ℕ
max_rx_buf_size = 256

-- `struct buf_node`; a pointer to one is a number.
pub record BufNode : Type 0 where
  pub data_size : ℕ
  pub data_flags : ℕ
  pub buffer : List ℕ

-- `struct gb_uart_info`, with the nodes that its pointers point to. `receiving` is the node whose
-- buffer the driver receives into: that of the last device_uart_start_receiver, until the
-- callback.
pub record UartInfo : Type 0 where
  pub cport : ℕ
  pub updated_ms : ℕ
  pub updated_ls : ℕ
  pub last_serial_state : ℕ
  pub ms_ls_operation : Option ℕ
  pub status_sem : ℕ
  pub free_queue : List ℕ
  pub data_queue : List ℕ
  pub rx_node : Option ℕ
  pub rx_buf_size : ℕ
  pub require_node : Bool
  pub rx_sem : ℕ
  pub thread_stop : Bool
  pub nodes : ℕ → BufNode
  pub receiving : Option ℕ

-- Where uart_rx_thread stands: at sem_wait, with a node to send, behind the data, between
-- device_uart_start_receiver and `require_node = 0`, or at its end.
pub data Pc : Type 0 where
  waiting : Pc
  sending : ℕ → Pc
  checking clearing ended : Pc

pub record Port : Type 0 where
  pub info : UartInfo
  pub pc : Pc
  pub core : State

abbrev pub put_node_back : List ℕ → ℕ → List ℕ
put_node_back queue node = queue ++ node ∷ []

module _ ⦃u : UartConstants⦄ where
  -- the flags of a GB_UART_PROTOCOL_RECEIVE_DATA for the bits of an error
  abbrev pub recv_flags : ℕ → ℕ
  recv_flags error = put_bit (has_bit error u.lsr_bi) 0x08 (
      put_bit (has_bit error u.lsr_fe) 0x01
        (put_bit (has_bit error u.lsr_pe) 0x02 (put_bit (has_bit error u.lsr_oe) 0x04 0)))

  -- The line's status is not looked at.
  abbrev pub parse_ms_ls_registers : ℕ → ℕ → ℕ
  parse_ms_ls_registers modem_status line_status = put_bit (has_bit modem_status u.msr_ri) 0x04 (
      put_bit (has_bit modem_status u.msr_dsr) 0x02
        (put_bit (has_bit modem_status u.msr_dcd) 0x01 0))

abbrev pub uart_ms_callback : ℕ → UartInfo → UartInfo
uart_ms_callback ms info = record info { updated_ms = ms; status_sem = info.status_sem + 1 }

abbrev pub uart_ls_callback : ℕ → UartInfo → UartInfo
uart_ls_callback ls info = record info { updated_ls = ls; status_sem = info.status_sem + 1 }

module _ ⦃b : Board⦄ where
  -- device_uart_start_receiver of the node that `rx_node` has become; its error is logged only
  abbrev pub start_receiver : ℕ → ℕ → Port → Port
  start_receiver dev n port =
      let call = n ∷ port.info.rx_buf_size ∷ [] in
      let ret = b.ret port.core.trace dev DriverFunction.uart_start_receiver call in
      record port {
        info = record (port.info) {
          rx_node = some n;
          receiving = if is_zero ret then some n else none;
        };
        core =
            call_device dev (DeviceCall.driver DriverFunction.uart_start_receiver call) port.core;
      }

  -- the end of uart_rx_callback, on a free node or none
  abbrev pub next_node : ℕ → List ℕ → Port → Port
  next_node dev [] port = record port { info = record (port.info) { require_node = true } }
  next_node dev (n ∷ free) port =
      start_receiver dev n (record port { info = record (port.info) { free_queue = free } })

  -- uart_rx_callback, on the node that `rx_node` points to
  abbrev pub rx_done : ⦃u : UartConstants⦄ → ℕ → ℕ → ℕ → Option ℕ → Port → Option Port
  rx_done dev len error none port = none
  rx_done dev len error (some n) port =
      let info = port.info in
      let node = record (info.nodes n) {
        data_size = len % 2 ^ 16;
        data_flags = recv_flags error;
      } in
      some (
        next_node dev info.free_queue (record port {
          info = record info {
            nodes = update info.nodes n node;
            data_queue = put_node_back info.data_queue n;
            rx_sem = info.rx_sem + 1;
          };
        }))

  -- uart_rx_callback: none where `rx_node` is NULL
  unfoldable pub uart_rx_callback : ⦃u : UartConstants⦄ → ℕ → ℕ → ℕ → Port → Option Port
  uart_rx_callback dev len error port = rx_done dev len error port.info.rx_node port

  -- The driver has received: it has written its buffer, and calls back.
  abbrev pub receive : ⦃u : UartConstants⦄ → ℕ → ℕ → List ℕ → ℕ → Port → Option Port
  receive dev n bytes error port =
      let info = port.info in
      let node = record (info.nodes n) { buffer = bytes } in
      uart_rx_callback dev (length bytes) error
        (record port { info = record info { nodes = update info.nodes n node; receiving = none } })

  -- the `if (info->require_node)` of the thread up to `require_node = 0`: none where there is no
  -- free node, whose buffer would be that of a NULL pointer
  abbrev pub rearm : ℕ → List ℕ → Port → Option Port
  rearm dev [] port = none
  rearm dev (n ∷ free) port = some (
      start_receiver dev n
        (record port { info = record (port.info) { free_queue = free }; pc = Pc.clearing }))

-- get_node_from of the queue of data, in the thread
abbrev pub take_data : List ℕ → Port → Port
take_data [] port = record port { pc = Pc.checking }
take_data (n ∷ data_queue) port = record port {
  info = record (port.info) { data_queue = data_queue };
  pc = Pc.sending n;
}

-- behind sem_wait
abbrev pub wake : Port → Option Port
wake port =
    if port.info.rx_sem == 0
    then none
    else if port.info.thread_stop
    then some
        (record port { info = record (port.info) { rx_sem = port.info.rx_sem - 1 }; pc = Pc.ended })
    else some (
        take_data port.info.data_queue
          (record port { info = record (port.info) { rx_sem = port.info.rx_sem - 1 } }))

module _ ⦃e : Errno⦄ ⦃w : World⦄ where
  -- the request of a node, once it is created
  abbrev pub send_created : List ℕ → Option ℕ × State → State
  send_created bytes (none, s) = s
  send_created bytes (some p, s) =
      gb_operation_destroy p
        (gb_operation_send_request p none false (put_request_bytes p bytes s)).1

  -- the payload of the request: `struct gb_uart_receive_data_request`
  abbrev pub request_of : BufNode → List ℕ
  request_of node = le_bytes 2 node.data_size ++ node.data_flags ∷ take node.data_size node.buffer

  unfoldable pub send_node : ℕ → BufNode → State → State
  send_node cport node s =
      send_created (request_of node) (gb_operation_create cport 0x03 (3 + node.data_size) s)

  module _ ⦃b : Board⦄ where
    -- A step of uart_rx_thread: none where it waits, has ended, or has no node to receive into.
    unfoldable pub uart_rx_thread : ℕ → Port → Option Port
    uart_rx_thread dev port = elim port.pc [
      | waiting ↦ wake port
      | sending n ↦ some (record port {
        info = record (port.info) { free_queue = put_node_back port.info.free_queue n };
        pc = Pc.checking;
        core = send_node port.info.cport (port.info.nodes n) port.core;
      })
      | checking ↦
          if port.info.require_node
          then rearm dev port.info.free_queue port
          else some (record port { pc = Pc.waiting })
      | clearing ↦
          some (record port { info = record (port.info) { require_node = false }; pc = Pc.waiting })
      | ended ↦ none
    ]
