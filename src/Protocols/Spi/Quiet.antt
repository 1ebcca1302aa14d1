-- ===== src/Protocols/Spi/Quiet.antt =====
-- The SPI protocol's handlers leave the receiving sides alone.
use greybus_for_zephyr.Base.{ℕ, ◌+◌, ◌*◌, ◌&&◌, Option, none, some, List, ℤ, ◌==◌, ltb}
use greybus_for_zephyr.Errno.{Errno}
use greybus_for_zephyr.OpResult
use greybus_for_zephyr.Core.{Operation, State, World, DeviceCall, SpiBuf, SpiConfig, Event, log}
use greybus_for_zephyr.Protocols.{Lookup, byte, device_of, payload_size}
use greybus_for_zephyr.Protocols.Tidy.{
  IsTidy-trans, IsTidyTable, Keeps, Keeps-refl, if-Keeps, log-IsTidy, put_bytes-Keeps,
  with_request-Keeps, with_response-Keeps, version_response-Keeps,
}
use greybus_for_zephyr.Protocols.Control.Quiet.{Any}
use greybus_for_zephyr.Protocols.Board.Quiet.{after-Keeps}
use greybus_for_zephyr.Protocols.I2c.Quiet.{fill-IsTidy}
use greybus_for_zephyr.Protocols.Spi
use greybus_for_zephyr.Protocols.Spi.Slots.{
  spi_req_len, spi_desc_len, transfer_at, op_count, transfers_of, read_data_size, Slot, slots_from,
  buf_count, rx_bufs,
}
use greybus_for_zephyr.Platform.{gb_cport_to_device}
use greybus_for_zephyr.Platform.SpiControl.{
  gb_spidev_from_zephyr_spidev, gb_plat_api_peripheral_config_response,
}

on_op-Keeps :
    (o : Option Operation) (k : Operation → State → ℕ × State) (s : State)
    → ((op : Operation) → Keeps Any s (k op s))
    → Keeps Any s (Spi.on_op o k s)
on_op-Keeps none k s h = Keeps-refl Any OpResult.internal s
on_op-Keeps (some op) k s h = h op

with_slot-Keeps :
    (x : Lookup) (k : Option ℕ → State → ℕ × State) (s : State)
    → ((dev : Option ℕ) → Keeps Any s (k dev s))
    → Keeps Any s (Spi.with_slot x k s)
with_slot-Keeps Lookup.dangling k s h = Keeps-refl Any OpResult.internal s
with_slot-Keeps Lookup.no_device k s h = h none
with_slot-Keeps (Lookup.device dev op) k s h = h (some dev)

module _ ⦃w : World⦄ ⦃e : Errno⦄ ⦃spi : Spi.Spi⦄ where
  free_bufs-Keeps : (s : State) (x : ℕ × State) → Keeps Any s x → Keeps Any s (Spi.free_bufs x)
  free_bufs-Keeps s (code, t) h = record {
    tidy = IsTidy-trans Any s t (log Event.freed t) h.tidy (log-IsTidy Any Event.freed t tt);
  }

  get_master_config-Keeps :
      (p : ℕ) (spidev : Option ℕ) (s : State) → Keeps Any s (Spi.get_master_config p spidev s)
  get_master_config-Keeps p none s = Keeps-refl Any _ s
  get_master_config-Keeps p (some spidev) s = put_bytes-Keeps Any OpResult.success p 0 _ s

  master_config-Keeps : (p : ℕ) (s : State) → Keeps Any s (Spi.gb_spi_protocol_master_config p s)
  unfolding Spi.gb_spi_protocol_master_config
  master_config-Keeps p s = on_op-Keeps (s.ops p) _ s (λ op.
      with_response-Keeps Any (λ n. tt) p 17 _ s
        (get_master_config-Keeps p
          (gb_spidev_from_zephyr_spidev (gb_cport_to_device op.cport spi.map) spi.pairs)))

  put_config-Keeps :
      (p : ℕ) (x : ℤ × Option (List ℕ)) (s : State) → Keeps Any s (Spi.put_config p x s)
  put_config-Keeps p (ret, none) s = Keeps-refl Any OpResult.success s
  put_config-Keeps p (ret, some rsp) s = put_bytes-Keeps Any OpResult.success p 0 _ s

  get_device_config-Keeps :
      (p cs : ℕ) (spidev : Option ℕ) (s : State) → Keeps Any s (Spi.get_device_config p cs spidev s)
  get_device_config-Keeps p cs none s = Keeps-refl Any OpResult.internal s
  get_device_config-Keeps p cs (some spidev) s =
      put_config-Keeps p (gb_plat_api_peripheral_config_response (spi.config_of spidev) cs) s

  device_config-Keeps : (p : ℕ) (s : State) → Keeps Any s (Spi.gb_spi_protocol_device_config p s)
  unfolding Spi.gb_spi_protocol_device_config
  device_config-Keeps p s = on_op-Keeps (s.ops p) _ s (λ op.
      with_request-Keeps Any 1 _ p s (λ payload.
        with_response-Keeps Any (λ n. tt) p 40 _ s
          (get_device_config-Keeps p (byte payload 0)
            (gb_spidev_from_zephyr_spidev (gb_cport_to_device op.cport spi.map) spi.pairs))))

  transceive-Keeps :
      (p dev : ℕ) (config : SpiConfig) (tx : List SpiBuf) (rx : Option (List SpiBuf)) (s : State)
      → Keeps Any s (Spi.transceive p dev config tx rx s)
  transceive-Keeps p dev config tx rx s = record {
    tidy =
        fill-IsTidy s _ p (spi.fill s.trace dev config tx rx)
          (log-IsTidy Any (Event.called dev (DeviceCall.spi_transceive config tx rx)) s tt);
  }

  run_slots-Keeps :
      (p size : ℕ) (payload : List ℕ) (o : Option (List Slot)) (dev spidev : Option ℕ) (s : State)
      → Keeps Any s (Spi.run_slots p size payload o dev spidev s)
  run_slots-Keeps p size payload none dev spidev s = Keeps-refl Any OpResult.invalid s
  run_slots-Keeps p size payload (some slots) dev none s = Keeps-refl Any _ s
  run_slots-Keeps p size payload (some slots) none (some spidev) s =
      Keeps-refl Any OpResult.internal s
  run_slots-Keeps p size payload (some slots) (some dev) (some spidev) s =
      if-Keeps Any ((size == 0) && ltb 0 (buf_count (rx_bufs slots))) _ _ s
        (λ wrapped. Keeps-refl Any OpResult.internal s) (λ whole. transceive-Keeps p dev _ _ _ s)

  with_bufs-Keeps :
      (p size : ℕ) (payload : List ℕ) (dev : Option ℕ) (s : State)
      → Keeps Any s (Spi.with_bufs p size payload dev s)
  with_bufs-Keeps p size payload dev s =
      if-Keeps Any (ltb (payload_size p s) (spi_req_len + op_count payload * spi_desc_len)) _ _ s
        (λ short. Keeps-refl Any OpResult.invalid s)
        (λ whole.
          with_response-Keeps Any (λ n. tt) p size _ s
            (run_slots-Keeps p size payload
              (slots_from (spi_req_len + spi_desc_len * op_count payload) 0 (transfers_of payload))
              dev (gb_spidev_from_zephyr_spidev dev spi.pairs)))

  transfer_checked-Keeps :
      (p : ℕ) (size : Option ℕ) (payload : List ℕ) (dev : Option ℕ) (s : State)
      → Keeps Any s (Spi.transfer_checked p size payload dev s)
  transfer_checked-Keeps p none payload dev s = Keeps-refl Any OpResult.invalid s
  transfer_checked-Keeps p (some size) payload dev s =
      let s₁ = log (Event.allocated 0) s in
      let one = log-IsTidy Any (Event.allocated 0) s tt in
      if-Keeps Any (w.malloc s.trace) (Spi.free_bufs (Spi.with_bufs p size payload dev s₁))
        (OpResult.no_memory, s₁) s
        (λ room. after-Keeps s s₁ _ one (
          free_bufs-Keeps s₁ (Spi.with_bufs p size payload dev s₁)
            (with_bufs-Keeps p size payload dev s₁)))
        (λ full. record { tidy = one })

  transfer-Keeps : (p : ℕ) (s : State) → Keeps Any s (Spi.gb_spi_protocol_transfer p s)
  unfolding Spi.gb_spi_protocol_transfer
  transfer-Keeps p s = with_slot-Keeps (device_of p s) _ s (λ dev.
      with_request-Keeps Any spi_req_len _ p s (λ payload.
        if-Keeps Any (op_count payload == 0) _ _ s (λ empty. Keeps-refl Any OpResult.success s)
          (λ filled.
            transfer_checked-Keeps p
              (read_data_size (transfer_at payload 0).bits_per_word 0 (transfers_of payload))
              payload dev s)))

  pub spi-IsTidyTable : IsTidyTable Any Spi.gb_spi_handlers
  unfolding Spi.gb_spi_protocol_version
  spi-IsTidyTable = (
    version_response-Keeps Any (λ n. tt) 0 1,
    (master_config-Keeps, (device_config-Keeps, (transfer-Keeps, tt))),
  )
