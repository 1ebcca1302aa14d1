-- ===== src/Protocols/Spi/Buffers.antt =====
-- Where the buffers of an SPI transfer lie (subsys/greybus/spi.c).
use greybus_for_zephyr.Base.{
  ℕ, zero, suc, ◌+◌, ◌*◌, ◌^◌, ◌≤◌, ◌<◌, ◌≡◌, ◌⊎◌, refl, ◌∙◌, true, false, Option, none, some, List,
  [], ◌∷◌, ◌==◌, if◌then◌else◌, All, take, arith, Bool-cases, Option-cases, inl, inr, ==→eq,
}
use greybus_for_zephyr.Core.{SpiBuf, Buffer, hdr_size, size_mod}
use greybus_for_zephyr.Protocols.I2c.Buffers.{FitsIn}
use greybus_for_zephyr.Protocols.Spi.Slots.{
  SpiDesc, Slot, no_buf, reads, read_step, read_data_size, slots_from, cons_slot, buf_set, rx_bufs,
  transfers_of, op_count, transfer_at, spi_req_len, spi_desc_len,
}

-- A buffer that is NULL, or fits.
abbrev pub BufFits : ℕ → SpiBuf → Type 0
BufFits room b = elim b.buf [ none ↦ Unit | some at ↦ FitsIn room b.len at ]

-- the bytes to read, with no wrap
abbrev pub spi_read_total : List SpiDesc → ℕ
spi_read_total [] = 0
spi_read_total (d ∷ ds) = (if reads d then d.len else 0) + spi_read_total ds

read_step_lem :
    (d : SpiDesc) (size n : ℕ)
    → read_step d size ≡ some n
    → size + (if reads d then d.len else 0) < 2 ^ 32
    → n ≡ size + (if reads d then d.len else 0)
read_step_lem d size n h small = ground arith

size_exact :
    (bpw size n : ℕ) (ds : List SpiDesc)
    → read_data_size bpw size ds ≡ some n
    → size + spi_read_total ds < 2 ^ 32
    → n ≡ size + spi_read_total ds
unfolding read_data_size
size_exact bpw size n [] h small = let same : size ≡ n = cc in omega (arith, same)
size_exact bpw size n (d ∷ ds) h small = elim (Option-cases (read_step d size)) [
  | inl refused ↦ absurd (cc (rw (read_data_size, refused) at h))
  | inr (size', steps) ↦
      let step = read_step_lem d size size' steps (omega (arith, small)) in
      let rest : read_data_size bpw size' ds ≡ some n = ground (arith, steps) in
      size_exact bpw size' n ds rest (omega (arith, step, small)) ∙ omega (arith, step)
]

cons_slot-some :
    (slot : Slot) (rest : Option (List Slot)) (slots : List Slot)
    → cons_slot slot rest ≡ some slots
    → (tail : List Slot) × (rest ≡ some tail) × (slots ≡ slot ∷ tail)
cons_slot-some slot none slots h = absurd (cc h)
cons_slot-some slot (some tail) slots h = (tail, refl, cc h)

-- A descriptor's flags, of those that the switch takes.
slots-cases :
    (wd rd : ℕ) (d : SpiDesc) (ds : List SpiDesc) (slots : List Slot)
    → slots_from wd rd (d ∷ ds) ≡ some slots
    → ((wd' : ℕ) × (tx : SpiBuf) × (tail : List Slot) × (reads d ≡ false)
        × (slots_from wd' rd ds ≡ some tail)
        × (slots ≡ record { tx = tx; rx = no_buf } ∷ tail))
      ⊎ ((wd' : ℕ) × (tx : SpiBuf) × (tail : List Slot) × (reads d ≡ true)
          × (slots_from wd' (rd + d.len) ds ≡ some tail)
          × (slots
              ≡ record { tx = tx; rx = record { buf = some (Buffer.in_response rd); len = d.len } }
                ∷ tail))
unfolding slots_from
slots-cases wd rd d ds slots h =
    let written : SpiBuf = record { buf = some (Buffer.in_request wd); len = d.len } in
    let read : SpiBuf = record { buf = some (Buffer.in_response rd); len = d.len } in
    elim (Bool-cases (d.rdwr == 2)) [
      | inl writing ↦
          let (tail, rest, same) =
            cons_slot-some (record { tx = written; rx = no_buf }) _ slots
              (rw (slots_from, writing) at h) in
          inl (wd + d.len, written, tail, rw (==→eq d.rdwr 2 writing) refl, rest, same)
      | inr not_writing ↦ elim (Bool-cases (d.rdwr == 1)) [
        | inl reading ↦
            let (tail, rest, same) =
              cons_slot-some (record { tx = no_buf; rx = read }) _ slots
                (rw (slots_from, not_writing, reading) at h) in
            inr (wd, no_buf, tail, rw (==→eq d.rdwr 1 reading) refl, rest, same)
        | inr not_reading ↦ elim (Bool-cases (d.rdwr == 3)) [
          | inl both ↦
              let (tail, rest, same) =
                cons_slot-some (record { tx = written; rx = read }) _ slots
                  (rw (slots_from, not_writing, not_reading, both) at h) in
              inr (wd + d.len, written, tail, rw (==→eq d.rdwr 3 both) refl, rest, same)
          | inr none_of_them ↦
              absurd (cc (rw (slots_from, not_writing, not_reading, none_of_them) at h))
        ]
      ]
    ]

reads_fit :
    (wd rd room : ℕ) (ds : List SpiDesc) (slots : List Slot)
    → slots_from wd rd ds ≡ some slots
    → rd + spi_read_total ds ≤ room
    → All (BufFits room) (rx_bufs slots)
unfolding slots_from
reads_fit wd rd room [] slots h fits = let same : [] ≡ slots = cc in rw (← same) tt
reads_fit wd rd room (d ∷ ds) slots h fits = elim (slots-cases wd rd d ds slots h) [
  | inl (wd', tx, tail, writes, rest, same) ↦
      let fits' : rd + spi_read_total ds ≤ room = omega (arith, rw writes at fits) in
      rw same (tt, reads_fit wd' rd room ds tail rest fits')
  | inr (wd', tx, tail, is_read, rest, same) ↦
      let whole : rd + (d.len + spi_read_total ds) ≤ room = rw is_read at fits in
      rw same
        (omega (arith, whole), reads_fit wd' (rd + d.len) room ds tail rest (omega (arith, whole)))
]

All-take : (P : SpiBuf → Type 0) (n : ℕ) (bufs : List SpiBuf) → All P bufs → All P (take n bufs)
All-take P zero bufs all = tt
All-take P (suc n) [] all = tt
All-take P (suc n) (b ∷ bufs) all = (all.0, All-take P n bufs all.1)

size_total :
    (payload : List ℕ) (size : ℕ)
    → read_data_size (transfer_at payload 0).bits_per_word 0 (transfers_of payload) ≡ some size
    → spi_read_total (transfers_of payload) + hdr_size < size_mod
    → size ≡ spi_read_total (transfers_of payload)
size_total payload size sized small =
    let exact =
      size_exact (transfer_at payload 0).bits_per_word 0 size (transfers_of payload) sized
        (omega (arith, small)) in
    omega (arith, exact)

pub read_data_size-small :
    (payload : List ℕ) (size : ℕ)
    → read_data_size (transfer_at payload 0).bits_per_word 0 (transfers_of payload) ≡ some size
    → spi_read_total (transfers_of payload) + hdr_size < size_mod
    → size + hdr_size < size_mod
read_data_size-small payload size sized small =
    let exact = size_total payload size sized small in omega (arith, exact, small)

-- The buffers for reading lie in a response of the size that was summed up, whatever flags,
-- lengths and order the descriptors have, unless the sum of the lengths to read and the header's
-- size wraps in 32 bits.
pub spi-BufFits :
    (payload : List ℕ) (size : ℕ) (slots : List Slot)
    → let ds = transfers_of payload in
      read_data_size (transfer_at payload 0).bits_per_word 0 ds ≡ some size
      → slots_from (spi_req_len + spi_desc_len * op_count payload) 0 ds ≡ some slots
      → spi_read_total ds + hdr_size < size_mod
      → All (BufFits size) (buf_set (rx_bufs slots))
spi-BufFits payload size slots sized built small =
    let ds = transfers_of payload in
    let exact = size_total payload size sized small in
    All-take (BufFits size) _ (rx_bufs slots) (
      reads_fit (spi_req_len + spi_desc_len * op_count payload) 0 size ds slots built
        (omega (arith, exact)))
