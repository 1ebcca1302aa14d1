-- ===== src/Lib.antt =====
-- Greybus for Zephyr: the core of the Greybus protocol (operations, drivers, messages), the
-- parser of the interface manifest, and drivers of single protocols.
--
-- How the parts work together. The manifest of an interface lists its bundles and cports
-- (Manifest). Each cport gets a driver, which owns a table of handlers by message type
-- (Handlers, Core/Register). A transport backend calls greybus_rx_handler with each message; the
-- message becomes an operation on the rx_fifo of its cport, and the worker of the cport hands a
-- request to its handler and a response to the request that waits for it (Core/Receive). A
-- handler's result goes back as a response; requests of our own wait on the tx_fifo of the cport
-- (Core/Send). Operations are counted references (Core/Lifecycle).
--
-- Base           shared types and lemmas: C's int (Int), arrays and queues (Lists), tests (Tests)
-- Errno          subsys/greybus/greybus-core.c: gb_errno_to_op_result
-- OpResult       include/greybus/greybus.h: enum gb_operation_result
-- Handlers       subsys/greybus/greybus-core.c: gb_compare_handlers, find_operation_handler
-- Manifest       subsys/greybus/greybus-manifest.c: identify_descriptor, _manifest_parse and what
--                calls it, and the lookups over the registered cports; the byte layout is that
--                of subsys/greybus/greybus-manifest.h
-- Manifest/Blob  subsys/greybus/greybus-manifest.c: enable_manifest, disable_manifest
-- Manifest/Patch subsys/greybus/greybus-manifest.c: identify_patch_descriptor, manifest_patch
-- Manifest/Protocols  subsys/greybus/greybus-manifest.c: enable_cports
-- Core           subsys/greybus/greybus-core.c: the static variables and the heap (State), and
--                what lies outside (World)
-- Core/Lifecycle creation, references and buffers of operations
-- Core/Send      gb_operation_send_request, its variants, gb_operation_send_response
-- Core/Receive   greybus_rx_handler, gb_pending_message_worker and what it calls, timeouts
-- Core/Register  _gb_register_driver, gb_unregister_driver, gb_listen, gb_notify
-- Core/Start     gb_init, gb_deinit, the tape
-- Core/Drain     gb_pending_message_worker until it ends; Core/Unregister: behind pthread_join
-- Protocols      what the protocol drivers share
-- Protocols/Control  subsys/greybus/control-gpb.c, with get_manifest_size
-- Protocols/Gpio subsys/greybus/gpio.c
-- Protocols/I2c  subsys/greybus/i2c.c
-- Protocols/Loopback  subsys/greybus/loopback.c, less gb_loopback_send_req and the registration
-- Protocols/Pwm  subsys/greybus/pwm-protocol.c
-- Protocols/Board  how uart.c, lights.c and power_supply.c call their drivers, and send events
-- Protocols/Uart subsys/greybus/uart.c: the requests; Uart/Setup: gb_uart_init and gb_uart_exit;
--                Uart/Receiver and Uart/Status: the driver's callbacks and the two threads;
--                Uart/Channel: the queue that they are; Uart/Sent: the request of a chunk
-- Protocols/Lights  subsys/greybus/lights.c
-- Protocols/PowerSupply  subsys/greybus/power_supply.c
-- Protocols/Spi  subsys/greybus/spi.c
-- Protocols/Room the response that a bus reads into: what i2c.c and spi.c allocate before a transfer
-- Platform       subsys/greybus/platform/platform.c: which cport is which device's;
--                Platform/SpiControl: subsys/greybus/platform/spi.c
-- Transport      subsys/greybus/platform/transport-tcpip-multiplex.c: messages over one TCP
--                connection, which gb_trans_rx hands to greybus_rx_handler
-- The children of these modules hold the theorems; Tests holds samples and runs.
--
-- The model. A C function is a function with the same name; one that changes state takes the
-- state and returns a pair of its result and the new state. _gb_register_driver and
-- _manifest_parse are called gb_register_driver and manifest_parse_release. A pointer to an
-- operation is an address; addresses are not used twice, and a dangling one is the address of no
-- operation. Functions that the drivers supply are numbers, and World says what they do. Message
-- fields hold the CPU's values; the parser of manifests reads bytes. `size_t` and `atomic_t` have
-- 32 bits. The order of what happens between threads is a sequence of steps (Core/Worker.Step):
-- each step is what runs under irq_lock, or between two waits, at once. gb_register_driver and
-- gb_unregister_driver do not check the semaphore of a cport that they start a worker on, or that
-- the worker they stop is not being stopped: Core/Worker.AllOrderly says that a run does so.
--
-- Fuel. The loop of _manifest_parse has as many rounds as there are bytes and one more, since a
-- round takes a byte at least. The binary search has one round for each entry and one more.
-- The loop of manifest_patch takes its fuel as an argument: its `size` may wrap on a bad fragment.
-- gb_operation_unref calls itself at most once for each operation that there is. A worker that is
-- told to stop has one round for each entry of its rx_fifo and one more (Core.Drain.run_worker).
-- read_loop and write_loop have one round for each byte: each takes a byte at least, where recv and
-- send do.
--
-- Parameters. errno's values are positive (Errno.IsPositive), qsort sorts (Handlers.Sort), and the
-- handlers and callbacks leave the receiving side of every cport alone (Core.Quiet.IsTame), where
-- a theorem says so. Zephyr's drivers are Protocols.Gpio.Gpio, Protocols.I2c.I2c,
-- Protocols.Spi.Spi and Protocols.Pwm.Pwm; what they answer may depend on all that happened
-- before. The drivers of uart.c, lights.c and power_supply.c are Protocols.Board.Board and
-- Protocols.Uart.UartConstants, sem_init is Protocols.Uart.Setup.Semaphores. The sockets are
-- Transport.Network; where a theorem says so, recv and send take at least one byte of those that
-- are there (Transport.Stream.IsStream). The manifest that is served, and the functions of
-- timesync.h, are Protocols.Control.Control. The transport backend, malloc, alloc_buf,
-- clock_gettime, pthread_create and the tape are fields of World and of Manifest.Build, with no
-- assumption.
--
-- Not modelled: log messages and names; the hooks of loopback and timesync, which are stubs;
-- timestamps (CONFIG_GREYBUS_FEATURE_HAVE_TIMESTAMPS); zero copy (CONFIG_UNIPRO_ZERO_COPY); the
-- other protocols' drivers; the set-up of sockets, the other transports and platform glue, which
-- are calls of Zephyr.
pub mod Base
pub mod Errno
pub mod OpResult
pub mod Manifest
pub mod Handlers
pub mod Core
pub mod Protocols
pub mod Platform
pub mod Transport
pub mod Tests
