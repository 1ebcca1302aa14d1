-- ===== src/Core.antt =====
-- The state of subsys/greybus/greybus-core.c, with the structures of include/greybus/greybus.h, and
-- what lies outside: the transport backend, the C library, the handlers and the callbacks.
use greybus_for_zephyr.Base.{
  ℕ, ◌^◌, Bool, true, false, Option, List, ◌∷◌, [], ℤ, ◌==◌, if◌then◌else◌,
}
use greybus_for_zephyr.Handlers.{Driver}
pub mod Lifecycle
pub mod Send
pub mod Receive
pub mod Register
pub mod Refs
pub mod Ids
pub mod Requests
pub mod Responses
pub mod Quiet
pub mod Worker
pub mod Timeouts
pub mod Start
pub mod Drain
pub mod Matching
pub mod Unregister

-- sizeof(struct gb_operation_hdr)
abbrev pub hdr_size : ℕ
hdr_size = 8

-- `size_t` has 32 bits on the boards of the repository.
abbrev pub size_mod : ℕ
size_mod = 2 ^ 32

-- GB_TYPE_RESPONSE_FLAG
abbrev pub response_flag : ℕ
response_flag = 0x80

-- A buffer: `struct gb_operation_hdr`, its fields in the CPU's byte order, and the payload.
pub record Message : Type 0 where
  pub size : ℕ
  pub id : ℕ
  pub typ : ℕ
  pub result : ℕ
  pub payload : List ℕ

-- `struct timespec`
pub record Timespec : Type 0 where
  pub tv_sec : ℕ
  pub tv_nsec : ℕ

-- `gb_operation_callback`: gb_operation_callback_sync, or another function.
pub data Callback : Type 0 where
  sync : Callback
  user : ℕ → Callback

-- `struct gb_operation`, less its list node. The request buffer is never NULL behind
-- gb_operation_create. The timestamps of CONFIG_GREYBUS_FEATURE_HAVE_TIMESTAMPS are left out.
pub record Operation : Type 0 where
  pub cport : ℕ
  pub has_responded : Bool
  pub ref_count : ℕ
  pub time : Timespec
  pub request_buffer : Message
  pub response_buffer : Option Message
  pub is_unipro_rx_buf : Bool
  pub callback : Option Callback
  pub sync_sem : ℕ
  pub response : Option ℕ
  pub bundle : Option ℕ

-- An entry of an rx_fifo: the `timedout_operation` of the cport, or an operation by its address.
pub data RxItem : Type 0 where
  timedout : RxItem
  received : ℕ → RxItem

-- `struct gb_cport_driver`. The stub watchdog has no state; `thread` says whether the worker runs.
pub record CPort : Type 0 where
  pub driver : Option ℕ
  pub tx_fifo : List ℕ
  pub rx_fifo : List RxItem
  pub rx_fifo_lock : ℕ
  pub thread : Bool
  pub exit_worker : Bool

-- `struct gb_pwm_info` of subsys/greybus/pwm-protocol.c, less the name of the device's type.
pub record PwmInfo : Type 0 where
  pub cport : ℕ
  pub dev_id : ℕ
  pub num_pwms : ℕ

-- `struct gb_bundle`: the length of `dev`, the device in each of its slots, and `priv`, which of
-- the drivers here the PWM one uses.
pub record Bundle : Type 0 where
  pub id : ℕ
  pub cport_start : ℕ
  pub dev : ℕ
  pub devices : ℕ → Option ℕ
  pub priv : Option PwmInfo

-- Where a buffer that is handed to a driver begins: so many bytes into the response's payload, or
-- into the request's.
pub data Buffer : Type 0 where
  in_response in_request : ℕ → Buffer

-- `struct i2c_msg`; `read` is its flag I2C_MSG_READ.
pub record I2cMsg : Type 0 where
  pub read : Bool
  pub len : ℕ
  pub buf : Buffer

-- `struct spi_buf`, whose `buf` may be NULL
pub record SpiBuf : Type 0 where
  pub buf : Option Buffer
  pub len : ℕ

-- `struct spi_config`: its frequency and slave, what its operation says, and whether `cs` was set
pub record SpiConfig : Type 0 where
  pub frequency : ℕ
  pub slave : ℕ
  pub word_size : ℕ
  pub cpha : Bool
  pub cpol : Bool
  pub cs_active_high : Bool
  pub transfer_lsb : Bool
  pub mode_loop : Bool
  pub has_cs : Bool

-- The functions of the device drivers that subsys/greybus/uart.c, lights.c and
-- power_supply.c call, less the `device_` before their names.
pub data DriverFunction : Type 0 where
  uart_start_transmitter uart_start_receiver uart_set_configuration : DriverFunction
  uart_get_modem_ctrl uart_set_modem_ctrl uart_set_break : DriverFunction
  uart_get_modem_status uart_get_line_status : DriverFunction
  uart_attach_ms_callback uart_attach_ls_callback : DriverFunction
  lights_get_lights lights_get_light_config lights_get_channel_config : DriverFunction
  lights_get_channel_flash_config lights_set_brightness lights_set_blink : DriverFunction
  lights_set_color lights_set_fade lights_set_flash_intensity : DriverFunction
  lights_set_flash_strobe lights_set_flash_timeout lights_get_flash_fault : DriverFunction
  lights_register_callback lights_unregister_callback : DriverFunction
  power_supply_get_supplies power_supply_get_description : DriverFunction
  power_supply_get_properties_count power_supply_get_prop_descriptors : DriverFunction
  power_supply_get_property power_supply_set_property : DriverFunction
  power_supply_attach_callback : DriverFunction
  device_open device_close : DriverFunction

-- A call of a function of Zephyr's device drivers, by the function, with its arguments behind
-- the device. Pins and generators come first.
pub data DeviceCall : Type 0 where
  gpio_pin_is_input gpio_pin_get : ℕ → DeviceCall
  gpio_pin_configure gpio_pin_set gpio_pin_interrupt_configure : ℕ → ℕ → DeviceCall
  i2c_transfer : List I2cMsg → ℕ → DeviceCall
  spi_transceive : SpiConfig → List SpiBuf → Option (List SpiBuf) → DeviceCall
  pwm_get_count : DeviceCall
  pwm_activate pwm_deactivate pwm_enable pwm_disable : ℕ → DeviceCall
  pwm_config : ℕ → ℕ → ℕ → DeviceCall
  pwm_set_polarity : ℕ → ℕ → DeviceCall
  driver : DriverFunction → List ℕ → DeviceCall

-- What the outside sees of the core, latest first in a trace.
pub data Event : Type 0 where
  sent : ℕ → Message → Event
  sent_async : ℕ → Message → Event
  listened stopped : ℕ → Event
  allocated : ℕ → Event
  freed : Event
  looked_at_clock : Event
  ran_handler ran_fast : ℕ → ℕ → Event
  ran_callback : ℕ → ℕ → Event
  ran_init ran_exit : ℕ → ℕ → Event
  ran_connected ran_disconnected : ℕ → ℕ → Event
  created_thread : ℕ → Event
  taped_header : ℕ → ℕ → Event
  taped : Message → Event
  made_backend closed_backend : Event
  opened_tape : ℕ → Event
  closed_tape : ℤ → Event
  called : ℕ → DeviceCall → Event

-- The file's static variables and the heap of operations. `next_op` is the next free address;
-- addresses are not used twice. `drivers` are the structures that the protocols own.
pub record State : Type 0 where
  pub cport_count : ℕ
  pub cports : ℕ → CPort
  pub request_id : ℕ
  pub drivers : ℕ → Driver
  pub bundles : ℕ → Option Bundle
  pub ops : ℕ → Option Operation
  pub next_op : ℕ
  pub has_backend : Bool
  pub gb_tape : Option ℕ
  pub gb_tape_fd : ℤ
  pub trace : List Event

-- What the outside answers. It may answer differently each time, so it sees the trace.
pub record World : Type 0 where
  pub send : List Event → ℕ → Message → ℤ
  pub send_async : List Event → ℕ → Message → ℤ
  pub listen : List Event → ℕ → ℤ
  pub stop_listening : List Event → ℕ → ℤ
  pub alloc_buf : List Event → ℕ → Bool
  pub malloc : List Event → Bool
  pub clock : List Event → Timespec
  pub pthread_create : List Event → ℕ → ℤ
  pub init : List Event → ℕ → ℕ → ℤ
  pub unipro_cport_count : ℕ
  pub tape_open : List Event → ℕ → ℤ
  pub max_bundle_id : ℕ
  pub num_cports_bundle : ℕ → ℕ
  pub start_cport_bundle : ℕ → ℕ
  pub run_handler : ℕ → ℕ → State → ℕ × State
  pub run_fast : ℕ → ℕ → Message → State → State
  pub run_callback : ℕ → ℕ → State → State

-- An array or a heap with one place written.
abbrev pub update {ℓ} : {A : Type ℓ} → (ℕ → A) → ℕ → A → ℕ → A
update f k v j = if k == j then v else f j

abbrev pub log : Event → State → State
log e s = record s { trace = e ∷ s.trace }

abbrev pub set_op : ℕ → Operation → State → State
set_op p op s = record s { ops = update s.ops p (Option.some op) }

abbrev pub set_cport : ℕ → CPort → State → State
set_cport c cport s = record s { cports = update s.cports c cport }
