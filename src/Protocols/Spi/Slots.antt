-- ===== src/Protocols/Spi/Slots.antt =====
-- The descriptors and the buffers of an SPI transfer: subsys/greybus/spi.c, with the layout of
-- subsys/greybus/spi-gb.h.
use greybus_for_zephyr.Base.{
  ℕ, zero, suc, ◌+◌, ◌*◌, ◌%◌, ◌^◌, Bool, not, Option, none, some, List, [], ◌∷◌, ◌==◌,
  if◌then◌else◌, take,
}
use greybus_for_zephyr.Core.{SpiBuf, Buffer}
use greybus_for_zephyr.Protocols.{byte, le16_at, le32_at}

-- `struct gb_spi_transfer_desc`, less `delay_usecs`, which is not read
pub record SpiDesc : Type 0 where
  pub speed_hz : ℕ
  pub len : ℕ
  pub cs_change : ℕ
  pub bits_per_word : ℕ
  pub rdwr : ℕ

-- sizeof(struct gb_spi_transfer_request), sizeof(struct gb_spi_transfer_desc)
abbrev pub spi_req_len : ℕ
spi_req_len = 4

abbrev pub spi_desc_len : ℕ
spi_desc_len = 13

-- `request->transfers[i]`; behind the request's end C reads what stands there, here 0
abbrev pub transfer_at : List ℕ → ℕ → SpiDesc
transfer_at payload i =
    let at = spi_req_len + spi_desc_len * i in
    record {
      speed_hz = le32_at payload at;
      len = le32_at payload (at + 4);
      cs_change = byte payload (at + 10);
      bits_per_word = byte payload (at + 11);
      rdwr = byte payload (at + 12);
    }

-- `n` descriptors from the i-th on
abbrev pub transfers_from : List ℕ → ℕ → ℕ → List SpiDesc
transfers_from payload i zero = []
transfers_from payload i (suc n) = transfer_at payload i ∷ transfers_from payload (suc i) n

-- `request->count`
abbrev pub op_count : List ℕ → ℕ
op_count payload = le16_at payload 2

abbrev pub transfers_of : List ℕ → List SpiDesc
transfers_of payload = transfers_from payload 0 (op_count payload)

-- the bits GB_SPI_XFER_READ and GB_SPI_XFER_WRITE of `rdwr`
abbrev pub reads : SpiDesc → Bool
reads d = d.rdwr % 2 == 1

abbrev pub read_step : SpiDesc → ℕ → Option ℕ
read_step d size =
    if reads d then (if d.len == 0 then none else some ((size + d.len) % 2 ^ 32)) else some size

-- The first loop: the bytes to read, in a `uint32_t`, or none where a descriptor is refused.
unfoldable pub read_data_size : ℕ → ℕ → List SpiDesc → Option ℕ
read_data_size bits_per_word size [] = some size
read_data_size bits_per_word size (d ∷ ds) = elim (read_step d size) [
  | none ↦ none
  | some size' ↦
      if not (d.bits_per_word == bits_per_word)
      then none
      else if not (d.cs_change == 0)
      then none
      else read_data_size bits_per_word size' ds
]

-- `tx_buf[i]` and `rx_buf[i]`
pub record Slot : Type 0 where
  pub tx : SpiBuf
  pub rx : SpiBuf

abbrev pub no_buf : SpiBuf
no_buf = record { buf = none; len = 0 }

abbrev pub cons_slot : Slot → Option (List Slot) → Option (List Slot)
cons_slot slot none = none
cons_slot slot (some slots) = some (slot ∷ slots)

-- The switch over `rdwr`, with the places of `write_data` in the request and of `read_data` in the
-- response: none for invalid flags.
unfoldable pub slots_from : ℕ → ℕ → List SpiDesc → Option (List Slot)
slots_from write_data read_data [] = some []
slots_from write_data read_data (d ∷ ds) =
    let written : SpiBuf = record { buf = some (Buffer.in_request write_data); len = d.len } in
    let read : SpiBuf = record { buf = some (Buffer.in_response read_data); len = d.len } in
    let behind_write = slots_from (write_data + d.len) read_data ds in
    let behind_read = slots_from write_data (read_data + d.len) ds in
    let behind_both = slots_from (write_data + d.len) (read_data + d.len) ds in
    if d.rdwr == 2
    then cons_slot (record { tx = written; rx = no_buf }) behind_write
    else if d.rdwr == 1
    then cons_slot (record { tx = no_buf; rx = read }) behind_read
    else if d.rdwr == 3
    then cons_slot (record { tx = written; rx = read }) behind_both
    else none

-- `tx_buf_set->count` and `rx_buf_set->count`: how many of the buffers are not NULL
abbrev pub buf_count : List SpiBuf → ℕ
buf_count [] = 0
buf_count (b ∷ bs) = elim b.buf [ none ↦ buf_count bs | some at ↦ suc (buf_count bs) ]

abbrev pub tx_bufs : List Slot → List SpiBuf
tx_bufs [] = []
tx_bufs (slot ∷ slots) = slot.tx ∷ tx_bufs slots

abbrev pub rx_bufs : List Slot → List SpiBuf
rx_bufs [] = []
rx_bufs (slot ∷ slots) = slot.rx ∷ rx_bufs slots

-- The buffers of a set are the first ones, as many as it counts.
abbrev pub buf_set : List SpiBuf → List SpiBuf
buf_set bufs = take (buf_count bufs) bufs
