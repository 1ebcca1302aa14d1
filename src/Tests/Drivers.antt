-- ===== src/Tests/Drivers.antt =====
-- Protocol drivers on the devices of a small board, and the end of a worker.
use greybus_for_zephyr.Base.{
  ℕ, zero, suc, ◌<◌, ◌≤◌, ◌≡◌, ◌≢◌, refl, ap, ◌∙◌, true, false, Option, none, some, List, [], ◌∷◌,
  pos, arith, All,
}
use greybus_for_zephyr.Core.{Operation, Callback, RxItem, Bundle, PwmInfo, State, Buffer, set_cport}
use greybus_for_zephyr.Core.Quiet.{IsTame}
use greybus_for_zephyr.Core.Refs.{IsLive}
use greybus_for_zephyr.Core.Receive.{gb_process_response}
use greybus_for_zephyr.Core.Register.{fresh_cport, stop_worker, gb_unregister_driver}
use greybus_for_zephyr.Core.Drain.{run_worker, HasEnded, worker_joins}
use greybus_for_zephyr.Core.Matching.{completed, response_completes}
use greybus_for_zephyr.Core.Unregister.{IsFree, join_worker, unregister_frees}
use greybus_for_zephyr.Protocols.{handle}
use greybus_for_zephyr.Protocols.Gpio.{Gpio, gb_gpio_handlers, popcount, pin_count, pin_bit}
use greybus_for_zephyr.Protocols.Gpio.Pins.{CallsOn, HasPin, gpio_pins_exist}
use greybus_for_zephyr.Protocols.I2c.{I2c, messages_of, gb_i2c_protocol_transfer, fill_response}
use greybus_for_zephyr.Core.{Event, DeviceCall}
use greybus_for_zephyr.Protocols.{device_of}
use greybus_for_zephyr.Core.Lifecycle.{
  gb_operation_get_request_payload_size, gb_operation_alloc_response, zeros,
}
use greybus_for_zephyr.Protocols.Pwm.{Pwm, gb_pwm_handlers}
use greybus_for_zephyr.Protocols.Pwm.Generators.{IsSound, pwm_generators_exist}
use greybus_for_zephyr.Protocols.Tame.{with_protocols, protocols-IsTame}
use greybus_for_zephyr.Tests.Hosting.{board_control}
use greybus_for_zephyr.Tests.Buses.{small_spi}
use greybus_for_zephyr.Tests.Serial.{serial_board, serial_constants}
use greybus_for_zephyr.Tests.Samples.{
  posix, fine_world, fine_world-IsTame, ping, operation_of, state_of, single_op,
}

-- A cport whose worker has two entries to take.
abbrev busy : State
busy =
    set_cport 0
      (record fresh_cport {
        driver = some 0;
        thread = true;
        tx_fifo = 0 ∷ [];
        rx_fifo = RxItem.timedout ∷ RxItem.received 0 ∷ [];
        rx_fifo_lock = 2;
      })
      (state_of single_op)

worker_joins_example :
    (s' : State) × (run_worker 3 0 (stop_worker 0 busy) ≡ some s') × HasEnded 0 s'
worker_joins_example = worker_joins fine_world-IsTame 0 busy refl

unregister_frees_example :
    let (retval, s') = gb_unregister_driver (join_worker 3) 0 busy in (retval ≡ pos 0) × IsFree 0 s'
unregister_frees_example = unregister_frees fine_world-IsTame 0 busy refl refl refl refl

-- A request that waits for its response, and the response.
abbrev request : Operation
request = record (operation_of 2 none) { callback = some Callback.sync }

abbrev one_pair : ℕ → Option Operation
one_pair zero = some request
one_pair (suc zero) = some (operation_of 1 none)
one_pair (suc (suc p)) = none

abbrev waiting : State
waiting = set_cport 0 (record fresh_cport { tx_fifo = 0 ∷ [] }) (state_of one_pair)

waiting-IsLive : IsLive 0 request waiting
waiting-IsLive = record { there = refl; held = omega arith; no_wrap = omega arith }

arrived-IsLive : IsLive 1 (operation_of 1 none) waiting
arrived-IsLive = record { there = refl; held = omega arith; no_wrap = omega arith }

response_completes_example :
    let s' = gb_process_response 1 waiting in
    (s'.ops 0 ≡ some (completed 1 request))
    × (s'.ops 1 ≡ some (operation_of 2 none))
    × ((s'.cports 0).tx_fifo ≡ [])
    × ((r : ℕ) → r ≢ 1 → r ≢ 0 → s'.ops r ≡ waiting.ops r)
response_completes_example =
    response_completes 1 0 (operation_of 1 none) request waiting [] [] arrived-IsLive waiting-IsLive
      (omega arith) (omega arith) (omega arith) refl refl refl tt

-- A write of one byte and a read of four, to the address 0x50.
abbrev i2c_payload : List ℕ
i2c_payload = 2 ∷ 0 ∷ 80 ∷ 0 ∷ 0 ∷ 0 ∷ 1 ∷ 0 ∷ 80 ∷ 0 ∷ 1 ∷ 0 ∷ 4 ∷ 0 ∷ 7 ∷ []

-- The size of the buffer to write from is not checked: a request with no byte behind its
-- descriptor has a message of 200 bytes that begins at its end.
i2c_write_beyond :
    messages_of (1 ∷ 0 ∷ 80 ∷ 0 ∷ 0 ∷ 0 ∷ 200 ∷ 0 ∷ [])
    ≡ some (record { read = false; len = 200; buf = Buffer.in_request 8 } ∷ [])
i2c_write_beyond = refl

instance abbrev board_gpio : Gpio
board_gpio = record {
  port_pin_mask = λ dev. 15;
  is_input = λ trace dev which. true;
  get = λ trace dev which. pos 1;
  configure = λ trace dev which flags. pos 0;
  set_pin = λ trace dev which value. pos 0;
  interrupt_configure = λ trace dev which flags. pos 0;
  map = record { cport = 0; dev = 0 } ∷ [];
  input = 1;
  output = 2;
  debounce = 0;
  int_disable = 4;
  int_enable = 8;
  int_edge_rising = 16;
  mode_disabled = 4;
  mode_edge = 32;
  mode_level = 0;
  trig_low = 64;
  trig_high = 128;
  trig_both = 192;
}

instance abbrev board_i2c : I2c
board_i2c = record {
  transfer = λ trace dev msgs addr. pos 0;
  fill = λ trace dev msgs addr payload. payload;
  map = record { cport = 0; dev = 0 } ∷ [];
}

instance abbrev board_pwm : Pwm
board_pwm = record {
  count = λ dev. 2;
  ret = λ trace dev call. pos 0;
  open_device = λ trace. some 0;
}

-- operation 0 asks for pin or generator 1, of device 0 in bundle 0
abbrev asking : ℕ → Option Operation
asking zero = some (record (operation_of 1 none) {
  request_buffer = record ping { size = 10; payload = 1 ∷ 1 ∷ [] };
  bundle = some 0;
})
asking (suc p) = none

abbrev bundle_slot : ℕ → Option Bundle
bundle_slot zero = some (record {
  id = 0;
  cport_start = 0;
  dev = 1;
  devices = λ i. some 0;
  priv = some (record { cport = 0; dev_id = 0; num_pwms = 2 });
})
bundle_slot (suc b) = none

abbrev asked : State
asked = record (state_of asking) { bundles = bundle_slot }

-- operation 0 is the I2C transfer, of the same device
abbrev i2c_request : Operation
i2c_request = record (operation_of 1 none) {
  request_buffer = record ping { size = 23; payload = i2c_payload };
  bundle = some 0;
}

abbrev i2c_asking : ℕ → Option Operation
i2c_asking zero = some i2c_request
i2c_asking (suc p) = none

abbrev i2c_asked : State
i2c_asked = record (state_of i2c_asking) { bundles = bundle_slot }

-- A response of 12 bytes is allocated, four behind its header, and the driver is called.
i2c_transfer_test :
    (gb_i2c_protocol_transfer 0 i2c_asked).1.trace
    ≡ Event.freed
      ∷ Event.called 0 (
          DeviceCall.i2c_transfer
            (record { read = false; len = 1; buf = Buffer.in_request 14 }
              ∷ record { read = true; len = 4; buf = Buffer.in_response 0 }
              ∷ [])
            80)
      ∷ Event.allocated 0
      ∷ Event.allocated 12
      ∷ []
unfolding gb_i2c_protocol_transfer device_of gb_operation_get_request_payload_size
    gb_operation_alloc_response fill_response zeros
i2c_transfer_test = refl

no_holes : (dev which : ℕ) → which < pin_count dev → HasPin dev which
unfolding pin_count popcount pin_bit
no_holes dev zero h = refl
no_holes dev (suc zero) h = refl
no_holes dev (suc (suc zero)) h = refl
no_holes dev (suc (suc (suc zero))) h = refl
no_holes dev (suc (suc (suc (suc which)))) h = absurd (omega arith)

gpio_pins_exist_example : All (CallsOn HasPin) (handle gb_gpio_handlers 0x07 0 asked).1.trace
gpio_pins_exist_example = gpio_pins_exist no_holes 0x07 0 asked tt

-- A device with the pins 0 and 2 has two pins: the handlers let the request for pin 1 pass, which
-- it does not have, and refuse the one for pin 2, which it has.
pins_with_a_hole_test : (popcount 32 5 ≡ 2) × (pin_bit 5 1 ≡ false) × (pin_bit 5 2 ≡ true)
unfolding popcount pin_bit
pins_with_a_hole_test = (refl, refl, refl)

slot_counted :
    (b dev : ℕ) (bundle : Bundle) (info : PwmInfo)
    → bundle_slot b ≡ some bundle
    → bundle.priv ≡ some info
    → bundle.devices 0 ≡ some dev
    → info.num_pwms ≤ 2
slot_counted zero dev bundle info at has slot =
    let known : PwmInfo = record { cport = 0; dev_id = 0; num_pwms = 2 } in
    let shared : Bundle = record {
      id = 0;
      cport_start = 0;
      dev = 1;
      devices = λ i. some 0;
      priv = some known;
    } in
    let same : shared ≡ bundle = cc in
    let both : some known ≡ some info = ap (λ x. x.priv) same ∙ has in
    let same_info : known ≡ info = cc in rw (← same_info) (omega arith)
slot_counted (suc b) dev bundle info at has slot = cc

asked-IsSound : IsSound asked
asked-IsSound = record { counted = slot_counted; calls = tt }

pwm_generators_exist_example : IsSound (handle gb_pwm_handlers 0x03 0 asked).1
pwm_generators_exist_example = pwm_generators_exist 0x03 0 asked asked-IsSound

protocols-IsTame_example : IsTame (with_protocols 2)
protocols-IsTame_example = protocols-IsTame 2 fine_world-IsTame
