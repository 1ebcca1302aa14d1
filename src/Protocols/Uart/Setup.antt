-- ===== src/Protocols/Uart/Setup.antt =====
-- How the UART protocol starts and ends: gb_uart_init and gb_uart_exit of subsys/greybus/uart.c.
use greybus_for_zephyr.Base.{
  ℕ, zero, suc, ◌+◌, ◌%◌, ◌^◌, Bool, true, false, Option, none, some, List, [], ◌∷◌, ℤ, pos, neg,
  negate, is_zero, if◌then◌else◌,
}
use greybus_for_zephyr.Errno.{Errno}
use greybus_for_zephyr.Core.{Bundle, State, World, DriverFunction, Event, update, log}
use greybus_for_zephyr.Core.Lifecycle.{gb_operation_create, gb_operation_destroy}
use greybus_for_zephyr.Protocols.{byte}
use greybus_for_zephyr.Protocols.Board.{Board, call_silently}
use greybus_for_zephyr.Protocols.Pwm.{set_bundle}
use greybus_for_zephyr.Protocols.Uart.{UartConstants}
use greybus_for_zephyr.Protocols.Uart.Receiver.{
  UartInfo, Pc, Port, max_rx_buf_number, max_rx_buf_size, put_node_back, parse_ms_ls_registers,
}

-- What sem_init returns.
pub record Semaphores : Type 0 where
  pub sem_init : List Event → ℤ

-- The `struct gb_uart_info` of a port that starts, with whether its threads run.
pub record Setup : Type 0 where
  pub info : UartInfo
  pub status_thread : Bool
  pub rx_thread : Bool
  pub core : State

-- zalloc
abbrev pub zeroed : ℕ → UartInfo
zeroed cport = record {
  cport = cport % 2 ^ 16;
  updated_ms = 0;
  updated_ls = 0;
  last_serial_state = 0;
  ms_ls_operation = none;
  status_sem = 0;
  free_queue = [];
  data_queue = [];
  rx_node = none;
  rx_buf_size = 0;
  require_node = false;
  rx_sem = 0;
  thread_stop = false;
  nodes = λ n. record { data_size = 0; data_flags = 0; buffer = [] };
  receiving = none;
}

abbrev pub fresh_setup : ℕ → State → Setup
fresh_setup cport s = record {
  info = zeroed cport;
  status_thread = false;
  rx_thread = false;
  core = s;
}

abbrev pub with_serial_state : ℕ → State → Setup → Setup
with_serial_state state s x = record x {
  info = record (x.info) { last_serial_state = state };
  core = s;
}

-- the free of each node
unfoldable pub uart_free_buf : List ℕ → State → State
uart_free_buf [] s = s
uart_free_buf (node ∷ queue) s = uart_free_buf queue (log Event.freed s)

-- pthread_join behind the post: the thread has ended
abbrev pub uart_status_cb_deinit : Setup → State
uart_status_cb_deinit x = elim x.info.ms_ls_operation [
  | none ↦ x.core
  | some p ↦ gb_operation_destroy p x.core
]

abbrev pub uart_receiver_cb_deinit : Setup → Setup
uart_receiver_cb_deinit x = record x {
  info = record (x.info) { thread_stop = true; free_queue = []; data_queue = [] };
  rx_thread = false;
  core = uart_free_buf x.info.free_queue (uart_free_buf x.info.data_queue x.core);
}

module _ ⦃e : Errno⦄ ⦃w : World⦄ where
  -- The loop of uart_alloc_buf; `node` is the next node's address.
  unfoldable pub uart_alloc_buf : ℕ → ℕ → List ℕ → State → ℤ × List ℕ × State
  uart_alloc_buf zero node queue s = (pos 0, queue, s)
  uart_alloc_buf (suc max_nodes) node queue s =
      let s₁ = log (Event.allocated 0) s in
      let rest = uart_alloc_buf max_nodes (suc node) (put_node_back queue node) s₁ in
      if w.malloc s.trace then rest else (pos e.enomem, queue, s₁)

  module _ ⦃m : Semaphores⦄ where
    -- uart_status_cb_init, with the operation
    abbrev pub start_status : Setup → Option ℕ × State → ℤ × Setup
    start_status x (none, s) = (neg e.enomem, record x { core = s })
    start_status x (some p, s) =
        let ret = m.sem_init s.trace in
        let ret' = w.pthread_create s.trace x.info.cport in
        let s₁ = log (Event.created_thread x.info.cport) s in
        let info = record (x.info) { ms_ls_operation = some p } in
        if is_zero ret
        then if is_zero ret'
          then (pos 0, record x { info = info; status_thread = true; core = s₁ })
          else (negate ret', record x { info = info; core = gb_operation_destroy p s₁ })
        else (negate ret, record x { info = info; core = gb_operation_destroy p s })

    unfoldable pub uart_status_cb_init : Setup → ℤ × Setup
    uart_status_cb_init x = start_status x (gb_operation_create x.info.cport 0x07 1 x.core)

    -- behind `err_free_data_buf`
    abbrev pub free_data_buf : ℤ → List ℕ → Setup → State → ℤ × Setup
    free_data_buf ret queue x s = (ret, record x { core = uart_free_buf queue s })

    -- uart_receiver_cb_init, behind uart_alloc_buf; its errors are positive
    abbrev pub start_receiving : Setup → ℤ × List ℕ × State → ℤ × Setup
    start_receiving x (ret, queue, s) =
        let s₁ = log (Event.created_thread x.info.cport) s in
        if is_zero ret
        then if is_zero (m.sem_init s.trace)
          then if is_zero (w.pthread_create s.trace x.info.cport)
            then (
              pos 0,
              record x {
                info = record (x.info) { free_queue = queue; rx_buf_size = max_rx_buf_size };
                rx_thread = true;
                core = s₁;
              },
            )
            else free_data_buf (w.pthread_create s.trace x.info.cport) queue x s₁
          else free_data_buf (m.sem_init s.trace) queue x s
        else free_data_buf ret queue x s

    unfoldable pub uart_receiver_cb_init : Setup → ℤ × Setup
    uart_receiver_cb_init x = start_receiving x (uart_alloc_buf max_rx_buf_number 0 [] x.core)

    module _ ⦃b : Board⦄ ⦃u : UartConstants⦄ where
      abbrev pub close_device : Option ℕ → State → State
      close_device none s = s
      close_device (some dev) s = call_silently dev DriverFunction.device_close [] s

      -- behind `err_device_close`, which makes `bundle->priv` NULL; there is no device to close
      -- where device_open failed
      abbrev pub close_uart : ℕ → Bundle → Option ℕ → ℤ → State → ℤ × Option Setup × State
      close_uart n bundle dev ret s =
          let bundle' = record bundle { devices = update bundle.devices 0 none } in
          (ret, none, log Event.freed (set_bundle n bundle' (close_device dev s)))

      -- behind `err_receiver_cb_deinit`
      abbrev pub stop_receiver : ℕ → Bundle → ℕ → ℤ → Setup → State → ℤ × Option Setup × State
      stop_receiver n bundle dev ret x s =
          close_uart n bundle (some dev) ret
            (uart_status_cb_deinit (uart_receiver_cb_deinit (record x { core = s })))

      -- the callbacks, and the first post
      abbrev pub attach_callbacks : ℕ → Bundle → ℕ → Setup → ℤ × Option Setup × State
      attach_callbacks n bundle dev x =
          let ret = b.ret x.core.trace dev DriverFunction.uart_attach_ms_callback [] in
          let s₁ = call_silently dev DriverFunction.uart_attach_ms_callback [] x.core in
          let ret' = b.ret s₁.trace dev DriverFunction.uart_attach_ls_callback [] in
          let s₂ = call_silently dev DriverFunction.uart_attach_ls_callback [] s₁ in
          let s₃ = call_silently dev DriverFunction.uart_attach_ms_callback (0 ∷ []) s₂ in
          let info = record (x.info) { require_node = true; rx_sem = x.info.rx_sem + 1 } in
          if is_zero ret
          then if is_zero ret'
            then (pos 0, some (record x { info = info; core = s₂ }), s₂)
            else stop_receiver n bundle dev ret' x s₃
          else stop_receiver n bundle dev ret x s₁

      -- the serial status
      abbrev pub read_status : ℕ → Bundle → ℕ → Setup → ℤ × Option Setup × State
      read_status n bundle dev x =
          let ret = b.ret x.core.trace dev DriverFunction.uart_get_modem_status [] in
          let ms = byte (b.out x.core.trace dev DriverFunction.uart_get_modem_status []) 0 in
          let s₁ = call_silently dev DriverFunction.uart_get_modem_status [] x.core in
          let ret' = b.ret s₁.trace dev DriverFunction.uart_get_line_status [] in
          let ls = byte (b.out s₁.trace dev DriverFunction.uart_get_line_status []) 0 in
          let s₂ = call_silently dev DriverFunction.uart_get_line_status [] s₁ in
          if is_zero ret
          then if is_zero ret'
            then attach_callbacks n bundle dev
                (with_serial_state (parse_ms_ls_registers ms ls) s₂ x)
            else stop_receiver n bundle dev ret' x s₂
          else stop_receiver n bundle dev ret x s₁

      abbrev pub with_receiver : ℕ → Bundle → ℕ → ℤ × Setup → ℤ × Option Setup × State
      with_receiver n bundle dev (ret, x) =
          if is_zero ret
          then read_status n bundle dev x
          else close_uart n bundle (some dev) ret (uart_status_cb_deinit x)

      abbrev pub with_status : ℕ → Bundle → ℕ → ℤ × Setup → ℤ × Option Setup × State
      with_status n bundle dev (ret, x) =
          if is_zero ret
          then with_receiver n bundle dev (uart_receiver_cb_init x)
          else close_uart n bundle (some dev) ret x.core

      abbrev pub open_uart : ℕ → ℕ → Bundle → Option ℕ → State → ℤ × Option Setup × State
      open_uart cport n bundle none s = close_uart n bundle none (neg e.enodev) s
      open_uart cport n bundle (some dev) s = with_status n bundle dev (
          uart_status_cb_init (
            fresh_setup cport
              (set_bundle n (record bundle { devices = update bundle.devices 0 (some dev) }) s)))

      -- gb_uart_init, where the bundle is that of the cport, with what `bundle->priv` points to
      unfoldable pub gb_uart_init : ℕ → ℕ → Bundle → State → ℤ × Option Setup × State
      gb_uart_init cport n bundle s =
          let s₁ = log (Event.allocated 0) s in
          if w.malloc s.trace
          then open_uart cport n bundle (b.open_device s₁.trace) s₁
          else (neg e.enomem, none, s₁)

      -- gb_uart_exit, of a bundle with a device
      unfoldable pub gb_uart_exit : ℕ → Bundle → ℕ → Option Setup → State → State
      gb_uart_exit n bundle dev none s = s
      gb_uart_exit n bundle dev (some x) s =
          let s₁ = call_silently dev DriverFunction.uart_attach_ls_callback (0 ∷ []) s in
          let s₂ = call_silently dev DriverFunction.uart_attach_ms_callback (0 ∷ []) s₁ in
          let s₃ = uart_status_cb_deinit (uart_receiver_cb_deinit (record x { core = s₂ })) in
          let s₄ = call_silently dev DriverFunction.device_close [] s₃ in
          log Event.freed
            (set_bundle n (record bundle { devices = update bundle.devices 0 none }) s₄)

-- the port that runs behind gb_uart_init: the receiving thread waits
abbrev pub started_port : Setup → Port
started_port x = record { info = x.info; pc = Pc.waiting; core = x.core }
