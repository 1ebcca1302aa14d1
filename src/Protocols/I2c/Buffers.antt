-- ===== src/Protocols/I2c/Buffers.antt =====
-- Where the buffers of an I2C transfer lie (subsys/greybus/i2c.c).
use greybus_for_zephyr.Base.{
  ℕ, zero, suc, ◌+◌, ◌*◌, ◌^◌, ◌≤◌, ◌<◌, ◌≡◌, refl, ap, ◌∙◌, Option, none, some, List, [], ◌∷◌,
  ◌==◌, if◌then◌else◌, All, length, arith, Bool-cases, inl, inr,
}
use greybus_for_zephyr.Core.{I2cMsg, Buffer, hdr_size, size_mod}
use greybus_for_zephyr.Protocols.{byte, le16_at}
use greybus_for_zephyr.Protocols.I2c.{
  message_of, cons_message, Desc, descs_of, descs_from, desc_at, size_from, messages_from,
  messages_of, first_addr, req_len, desc_len,
}

-- `len` bytes from where a buffer begins, if that is the response, lie in its first `room` bytes.
abbrev pub FitsIn : ℕ → ℕ → Buffer → Type 0
FitsIn room len (Buffer.in_response off) = off + len ≤ room
FitsIn room len (Buffer.in_request off) = Unit

-- the bytes to read, with no wrap
abbrev pub read_total : List Desc → ℕ
read_total [] = 0
read_total (d ∷ ds) = (if d.read_op then d.size else 0) + read_total ds

-- Each message's buffer, if it is for reading, lies in the response.
abbrev pub ReadsFit : ℕ → List I2cMsg → Type 0
ReadsFit room = All (λ m. FitsIn room m.len m.buf)

message_fits :
    (rc wd room : ℕ) (d : Desc)
    → rc + (if d.read_op then d.size else 0) ≤ room
    → FitsIn room d.size (message_of rc wd d).buf
message_fits rc wd room d h = elim (Bool-cases d.read_op) [
  | inl reads ↦ rw reads (rw reads at h)
  | inr writes ↦ rw writes tt
]

reads_fit_lem :
    (addr rc wd room : ℕ) (ds : List Desc) (msgs : List I2cMsg)
    → messages_from addr rc wd ds ≡ some msgs
    → rc + read_total ds ≤ room
    → ReadsFit room msgs × (length msgs ≡ length ds)
reads_fit_lem addr rc wd room [] msgs h fits = let same : [] ≡ msgs = cc in rw (← same) (tt, refl)
reads_fit_lem addr rc wd room (d ∷ ds) msgs h fits =
    go
      (messages_from addr (if d.read_op then rc + d.size else rc)
        (if d.read_op then wd else wd + d.size) ds)
      refl h
      (λ rest eq.
        reads_fit_lem addr (if d.read_op then rc + d.size else rc)
          (if d.read_op then wd else wd + d.size) room ds rest eq (ground (arith, fits)))
  where
    go :
        (rest : Option (List I2cMsg))
        → messages_from addr
            (if d.read_op then rc + d.size else rc)
            (if d.read_op then wd else wd + d.size)
            ds
          ≡ rest
        → (if d.addr == addr then cons_message (message_of rc wd d) rest else none) ≡ some msgs
        → ((tail : List I2cMsg)
            → messages_from addr
                (if d.read_op then rc + d.size else rc)
                (if d.read_op then wd else wd + d.size)
                ds
              ≡ some tail
            → ReadsFit room tail × (length tail ≡ length ds))
        → ReadsFit room msgs × (length msgs ≡ suc (length ds))
    go none eq k ih = absurd (ground arith)
    go (some rest) eq k ih =
        let (tail, count) = ih rest eq in
        let same : message_of rc wd d ∷ rest ≡ msgs = ground arith in
        rw (← same) ((message_fits rc wd room d (omega (arith, fits)), tail), ap suc count)

abbrev IsByte : List ℕ → Type 0
IsByte = All (λ b. b < 256)

byte-lt : (payload : List ℕ) (i : ℕ) → IsByte payload → byte payload i < 256
byte-lt [] i h = omega arith
byte-lt (b ∷ payload) zero h = h.0
byte-lt (b ∷ payload) (suc i) h = byte-lt payload i h.1

desc_at-size : (payload : List ℕ) (i : ℕ) → IsByte payload → (desc_at payload i).size < 2 ^ 16
desc_at-size payload i h = omega (
  arith,
  byte-lt payload (req_len + desc_len * i + 4) h,
  byte-lt payload (req_len + desc_len * i + 4 + 1) h,
)

read_total-le :
    (payload : List ℕ) (i n : ℕ) → IsByte payload → read_total (descs_from payload i n) ≤ 65535 * n
read_total-le payload i zero h = omega arith
read_total-le payload i (suc n) h =
    let small = desc_at-size payload i h in
    let rest = read_total-le payload (suc i) n h in ground (arith, small, rest)

size_from_lem :
    (size : ℕ) (ds : List Desc)
    → size + read_total ds < 2 ^ 32
    → size_from size ds ≡ size + read_total ds
size_from_lem size [] h = omega arith
size_from_lem size (d ∷ ds) h = elim (Bool-cases d.read_op) [
  | inl reads ↦
      let fits : size + d.size + read_total ds < 2 ^ 32 = omega (arith, rw reads at h) in
      rw reads (
        ap (λ n. size_from n ds) (omega (arith, fits))
        ∙ size_from_lem (size + d.size) ds fits
        ∙ omega arith)
  | inr writes ↦ rw writes (size_from_lem size ds (omega (arith, rw writes at h)) ∙ omega arith)
]

-- Neither sum of the sizes wraps, and the response has the bytes to read.
size_from_total :
    (payload : List ℕ)
    → All (λ b. b < 256) payload
    → let size = size_from 0 (descs_of payload) in
      (size ≡ read_total (descs_of payload)) × (size + hdr_size < size_mod)
size_from_total payload bytes =
    let n = le16_at payload 0 in
    let low = byte-lt payload 0 bytes in
    let high = byte-lt payload (0 + 1) bytes in
    let total = read_total-le payload 0 n bytes in
    let size = size_from_lem 0 (descs_of payload) (omega (arith, total, low, high)) in
    (omega (arith, size), omega (arith, size, total, low, high))

pub size_from-small :
    (payload : List ℕ)
    → All (λ b. b < 256) payload
    → size_from 0 (descs_of payload) + hdr_size < size_mod
size_from-small payload bytes = (size_from_total payload bytes).1

-- The buffers for reading lie in a response of that size, whatever the request's bytes say. There
-- is one message for each descriptor.
pub i2c-ReadsFit :
    (payload : List ℕ) (msgs : List I2cMsg)
    → All (λ b. b < 256) payload
    → messages_of payload ≡ some msgs
    → ReadsFit (size_from 0 (descs_of payload)) msgs × (length msgs ≡ length (descs_of payload))
i2c-ReadsFit payload msgs bytes h =
    let n = le16_at payload 0 in
    let size = (size_from_total payload bytes).0 in
    reads_fit_lem (first_addr (descs_of payload)) 0 (req_len + desc_len * n)
      (size_from 0 (descs_of payload)) (descs_of payload) msgs h (omega (arith, size))
