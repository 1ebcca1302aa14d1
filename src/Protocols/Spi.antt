-- ===== src/Protocols/Spi.antt =====
-- The SPI protocol: subsys/greybus/spi.c, with the layout of subsys/greybus/spi-gb.h.
pub mod Slots
pub mod Buffers
pub mod Quiet
pub mod Reads
use greybus_for_zephyr.Base.{
  ℕ, zero, suc, ◌+◌, ◌*◌, ◌/◌, ◌%◌, ◌^◌, Bool, true, false, not, Option, none, some, List, [], ◌∷◌,
  ◌++◌, ◌&&◌, ◌==◌, if◌then◌else◌, ℤ, pos, neg, negate, is_zero, ltb, take,
}
use greybus_for_zephyr.Errno.{Errno, gb_errno_to_op_result}
use greybus_for_zephyr.OpResult
use greybus_for_zephyr.Core.{
  Operation, Bundle, State, World, DeviceCall, SpiBuf, SpiConfig, Buffer, Event, update, log,
}
use greybus_for_zephyr.Platform.{MapEntry, gb_cport_to_device}
use greybus_for_zephyr.Platform.SpiControl.{
  DevPair, SpiControlConfig, gb_spidev_from_zephyr_spidev, gb_plat_api_controller_config_response,
  gb_plat_api_peripheral_config_response, gb_plat_api_get_cs_control,
}
use greybus_for_zephyr.Protocols.{
  Table, Lookup, byte, bytes_at, le16_at, le32_at, le_bytes, call_device, cport_idx, device_of,
  payload_size, put_bytes, version_response, with_request, with_response,
}
use greybus_for_zephyr.Protocols.Spi.Slots.{
  SpiDesc, spi_req_len, spi_desc_len, transfer_at, transfers_from, op_count, transfers_of, reads,
  read_step, read_data_size, Slot, no_buf, cons_slot, slots_from, buf_count, tx_bufs, rx_bufs,
  buf_set,
}
use greybus_for_zephyr.Protocols.I2c.{fill_response}
use greybus_for_zephyr.Protocols.Pwm.{set_bundle}

-- What the platform registered at boot, and Zephyr's SPI drivers: what spi_transceive returns, and
-- what it makes of the response's payload.
pub record Spi : Type 0 where
  pub map : List MapEntry
  pub pairs : List DevPair
  pub config_of : ℕ → SpiControlConfig
  pub transceive : List Event → ℕ → SpiConfig → List SpiBuf → Option (List SpiBuf) → ℤ
  pub fill : List Event → ℕ → SpiConfig → List SpiBuf → Option (List SpiBuf) → List ℕ → List ℕ

-- the responses of `struct gb_spi_master_config_response` and `struct gb_spi_device_config_response`
abbrev pub master_config : List ℕ → List ℕ
master_config rsp =
    le_bytes 4 (byte rsp 0)
    ++ le_bytes 4 (byte rsp 1)
    ++ le_bytes 4 (byte rsp 2)
    ++ le_bytes 2 (byte rsp 3)
    ++ le_bytes 2 (byte rsp 4)
    ++ byte rsp 5 ∷ []

abbrev pub device_config : List ℕ → List ℕ
device_config rsp =
    le_bytes 2 (byte rsp 0)
    ++ byte rsp 1 ∷ le_bytes 4 (byte rsp 2)
    ++ byte rsp 3 ∷ bytes_at rsp 4 32

-- `spi_mode & bit`
abbrev pub has_mode : ℕ → ℕ → Bool
has_mode mode bit = mode / bit % 2 == 1

-- an operation, which the handlers do not check for NULL
abbrev pub on_op : Option Operation → (Operation → State → ℕ × State) → State → ℕ × State
on_op none k s = (OpResult.internal, s)
on_op (some op) k s = k op s

-- `bundle->dev[cport_idx]`, behind a bundle that is not NULL
abbrev pub with_slot : Lookup → (Option ℕ → State → ℕ × State) → State → ℕ × State
with_slot Lookup.dangling k s = (OpResult.internal, s)
with_slot Lookup.no_device k s = k none s
with_slot (Lookup.device dev op) k s = k (some dev) s

module _ ⦃w : World⦄ where
  -- GB_SPI_VERSION_MAJOR and GB_SPI_VERSION_MINOR
  unfoldable pub gb_spi_protocol_version : ℕ → State → ℕ × State
  gb_spi_protocol_version = version_response 0 1

  module _ ⦃e : Errno⦄ ⦃spi : Spi⦄ where
    -- device_spi_get_master_config, with what it writes
    abbrev pub get_master_config : ℕ → Option ℕ → State → ℕ × State
    get_master_config p none s = (gb_errno_to_op_result (neg e.enodev), s)
    get_master_config p (some gb_spidev) s = (
      OpResult.success,
      put_bytes p 0
          (master_config (gb_plat_api_controller_config_response (spi.config_of gb_spidev)).1) s,
    )

    unfoldable pub gb_spi_protocol_master_config : ℕ → State → ℕ × State
    gb_spi_protocol_master_config p s =
        on_op (s.ops p)
          (λ op. with_response p 17 (
            get_master_config p
              (gb_spidev_from_zephyr_spidev (gb_cport_to_device op.cport spi.map) spi.pairs)))
          s

    -- What the platform wrote of the response, which it leaves alone where it fails: only an
    -- assertion looks at what it returns.
    abbrev pub put_config : ℕ → ℤ × Option (List ℕ) → State → ℕ × State
    put_config p (ret, none) s = (OpResult.success, s)
    put_config p (ret, some rsp) s = (OpResult.success, put_bytes p 0 (device_config rsp) s)

    -- device_spi_get_device_config, which does not check for NULL
    abbrev pub get_device_config : ℕ → ℕ → Option ℕ → State → ℕ × State
    get_device_config p cs none s = (OpResult.internal, s)
    get_device_config p cs (some gb_spidev) s =
        put_config p (gb_plat_api_peripheral_config_response (spi.config_of gb_spidev) cs) s

    unfoldable pub gb_spi_protocol_device_config : ℕ → State → ℕ × State
    gb_spi_protocol_device_config p s =
        on_op (s.ops p)
          (λ op.
            with_request 1
              (λ payload. with_response p 40 (
                get_device_config p (byte payload 0)
                  (gb_spidev_from_zephyr_spidev (gb_cport_to_device op.cport spi.map) spi.pairs)))
              p)
          s

    -- request_to_spi_config, behind the look-up of the controller
    abbrev pub spi_config_of : List ℕ → ℕ → SpiConfig
    spi_config_of payload gb_spidev =
        let mode = byte payload 1 in
        let first = transfer_at payload 0 in
        record {
          frequency = first.speed_hz;
          slave = byte payload 0;
          word_size = first.bits_per_word;
          cpha = has_mode mode 0x01;
          cpol = has_mode mode 0x02;
          cs_active_high = has_mode mode 0x04;
          transfer_lsb = has_mode mode 0x08;
          mode_loop = has_mode mode 0x20;
          has_cs = is_zero (gb_plat_api_get_cs_control (spi.config_of gb_spidev) (byte payload 0));
        }

    -- `free(tx_buf)`, whatever comes of what is in front of it
    abbrev pub free_bufs : ℕ × State → ℕ × State
    free_bufs (code, s) = (code, log Event.freed s)

    -- the call of spi_transceive
    abbrev pub transceive :
        ℕ → ℕ → SpiConfig → List SpiBuf → Option (List SpiBuf) → State → ℕ × State
    transceive p dev config tx rx s =
        let ret = spi.transceive s.trace dev config tx rx in
        let s₁ =
          fill_response p (spi.fill s.trace dev config tx rx)
            (call_device dev (DeviceCall.spi_transceive config tx rx) s) in
        (if is_zero ret then OpResult.success else gb_errno_to_op_result (negate ret), s₁)

    -- Behind the buffers: the configuration, and the transfer. A size that wrapped to 0 leaves
    -- `rx_buf_set` NULL, which the switch writes through at the first descriptor that reads.
    abbrev pub run_slots :
        ℕ → ℕ → List ℕ → Option (List Slot) → Option ℕ → Option ℕ → State → ℕ × State
    run_slots p size payload none dev gb_spidev s = (OpResult.invalid, s)
    run_slots p size payload (some slots) dev none s = (gb_errno_to_op_result (pos e.enodev), s)
    run_slots p size payload (some slots) none (some gb_spidev) s = (OpResult.internal, s)
    run_slots p size payload (some slots) (some dev) (some gb_spidev) s =
        if (size == 0) && ltb 0 (buf_count (rx_bufs slots))
        then (OpResult.internal, s)
        else transceive p dev (spi_config_of payload gb_spidev) (buf_set (tx_bufs slots))
            (if ltb 0 size then some (buf_set (rx_bufs slots)) else none) s

    -- behind the malloc of the descriptors
    abbrev pub with_bufs : ℕ → ℕ → List ℕ → Option ℕ → State → ℕ × State
    with_bufs p size payload dev s =
        if ltb (payload_size p s) (spi_req_len + op_count payload * spi_desc_len)
        then (OpResult.invalid, s)
        else with_response p size
            (run_slots p size payload
              (slots_from (spi_req_len + spi_desc_len * op_count payload) 0 (transfers_of payload))
              dev (gb_spidev_from_zephyr_spidev dev spi.pairs))
            s

    abbrev pub transfer_checked : ℕ → Option ℕ → List ℕ → Option ℕ → State → ℕ × State
    transfer_checked p none payload dev s = (OpResult.invalid, s)
    transfer_checked p (some size) payload dev s =
        let s₁ = log (Event.allocated 0) s in
        if w.malloc s.trace
        then free_bufs (with_bufs p size payload dev s₁)
        else (OpResult.no_memory, s₁)

    unfoldable pub gb_spi_protocol_transfer : ℕ → State → ℕ × State
    gb_spi_protocol_transfer p s =
        with_slot (device_of p s)
          (λ dev.
            with_request spi_req_len
              (λ payload s₁.
                if op_count payload == 0
                then (OpResult.success, s₁)
                else transfer_checked p
                    (read_data_size (transfer_at payload 0).bits_per_word 0 (transfers_of payload))
                    payload dev s₁)
              p)
          s

    abbrev pub init_result : Option ℕ → ℤ
    init_result none = neg e.eio
    init_result (some dev) = pos 0

    -- gb_spi_init, where the bundle is that of the cport; gb_spi_exit does nothing
    unfoldable pub gb_spi_init : ℕ → ℕ → Bundle → State → ℤ × State
    gb_spi_init cport b bundle s =
        let dev = gb_cport_to_device cport spi.map in
        (
          init_result dev,
          set_bundle b
              (record bundle { devices = update bundle.devices (cport_idx cport bundle) dev }) s,
        )

    -- gb_spi_handlers, by the GB_SPI_* codes
    abbrev pub gb_spi_handlers : Table
    gb_spi_handlers =
        (0x01, gb_spi_protocol_version)
        ∷ (0x02, gb_spi_protocol_master_config)
        ∷ (0x03, gb_spi_protocol_device_config)
        ∷ (0x04, gb_spi_protocol_transfer)
        ∷ []
