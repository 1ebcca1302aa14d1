-- ===== src/Core/Start.antt =====
-- Start and stop of the core, and the tape on which messages are recorded
-- (subsys/greybus/greybus-core.c).
pub mod Fresh
use greybus_for_zephyr.Base.{
  ℕ, zero, suc, ◌+◌, ◌-◌, Bool, true, false, not, ◌||◌, Option, none, some, List, [], ◌∷◌, ◌==◌,
  if◌then◌else◌, ℤ, pos, neg, negsuc, is_neg,
}
use greybus_for_zephyr.Errno.{Errno}
use greybus_for_zephyr.Core.{Message, Operation, State, World, Event, log}
use greybus_for_zephyr.Core.Receive.{greybus_rx_handler}
use greybus_for_zephyr.Core.Register.{gb_unregister_driver, fresh_cport, is_set}

-- gb_operation_get_bundle, of an operation that may be NULL
unfoldable pub gb_operation_get_bundle : Option Operation → Option ℕ
gb_operation_get_bundle none = none
gb_operation_get_bundle (some op) = op.bundle

-- GB_TAPE_RDONLY, GB_TAPE_WRONLY
abbrev pub tape_rdonly : ℕ
tape_rdonly = 0

abbrev pub tape_wronly : ℕ
tape_wronly = 1

-- What the reads of a round of gb_tape_replay return: a header of another length, or a header
-- and the message behind it, of which `nread` bytes were read.
pub data TapeRecord : Type 0 where
  short_header : TapeRecord
  whole : (cport size : ℕ) → (nread : ℤ) → Message → TapeRecord

-- `hdr.size == nread`
abbrev pub is_size : ℕ → ℤ → Bool
is_size size (pos n) = size == n
is_size size (negsuc n) = false

module _ ⦃e : Errno⦄ ⦃w : World⦄ where
  -- gb_init; the transport is `false` for NULL. Where the second calloc fails, g_cport is NULL: the
  -- old cports are lost, and nobody may look at one. Behind `cport_count` no cport is ever looked at.
  unfoldable pub gb_init : Bool → State → ℤ × State
  gb_init false s = (neg e.einval, s)
  gb_init true s =
      let s₁ = log (Event.allocated 0) s in
      if not (w.malloc s.trace)
      then (neg e.enomem, s₁)
      else let s₂ = record s₁ {
        cport_count = w.unipro_cport_count;
        bundles = λ i. none;
        trace = Event.allocated 0 ∷ s₁.trace;
      } in
        if not (w.malloc s₁.trace)
        then (neg e.enomem, log Event.freed (record s₂ { cports = λ c. fresh_cport }))
        else (
          pos 0,
          record s₂ {
            cports = λ c. fresh_cport;
            request_id = 0;
            has_backend = true;
            trace = Event.made_backend ∷ s₂.trace;
          },
        )

  -- the loop of gb_deinit, over `n` cports from `c` on
  unfoldable pub deinit_from : (ℕ → State → State) → ℕ → ℕ → State → State
  deinit_from join c zero s = s
  deinit_from join c (suc n) s = deinit_from join (suc c) n (gb_unregister_driver join c s).1

  -- gb_deinit. Every backend's `exit` is called where it is set; the array of bundles stays.
  unfoldable pub gb_deinit : (ℕ → State → State) → State → State
  gb_deinit join s =
      if s.has_backend
      then (let s₁ = log Event.freed (deinit_from join 0 s.cport_count s) in
          record s₁ { has_backend = false; trace = Event.closed_backend ∷ s₁.trace })
      else s

  -- gb_tape_register_mechanism; the mechanism is `none` where it, or one of its functions, is NULL.
  unfoldable pub gb_tape_register_mechanism : Option ℕ → State → ℤ × State
  gb_tape_register_mechanism none s = (neg e.einval, s)
  gb_tape_register_mechanism (some mechanism) s =
      if is_set s.gb_tape then (neg e.ebusy, s) else (pos 0, record s { gb_tape = some mechanism })

  unfoldable pub gb_tape_communication : State → ℤ × State
  gb_tape_communication s =
      if not (is_set s.gb_tape)
      then (neg e.einval, s)
      else if not (is_neg s.gb_tape_fd)
      then (neg e.ebusy, s)
      else let fd = w.tape_open s.trace tape_wronly in
        let s₁ = log (Event.opened_tape tape_wronly) (record s { gb_tape_fd = fd }) in
        if is_neg fd then (fd, s₁) else (pos 0, s₁)

  unfoldable pub gb_tape_stop : State → ℤ × State
  gb_tape_stop s =
      if not (is_set s.gb_tape) || is_neg s.gb_tape_fd
      then (neg e.einval, s)
      else (pos 0, log (Event.closed_tape s.gb_tape_fd) (record s { gb_tape_fd = neg e.ebadf }))

  -- The loop of gb_tape_replay over what the reads return, up to the end of the tape.
  unfoldable pub replay_from : List TapeRecord → State → ℤ × State
  replay_from [] s = (pos 0, s)
  replay_from (short_header ∷ rest) s = (neg e.eio, s)
  replay_from (whole cport size nread msg ∷ rest) s =
      let replayed = replay_from rest (greybus_rx_handler cport (some msg) size s).1 in
      if is_size size nread then replayed else (neg e.eio, s)

  -- gb_tape_replay of a tape; its name is `false` for NULL.
  unfoldable pub gb_tape_replay : Bool → List TapeRecord → State → ℤ × State
  gb_tape_replay has_name tape s =
      if not has_name || not (is_set s.gb_tape)
      then (neg e.einval, s)
      else let fd = w.tape_open s.trace tape_rdonly in
        let s₁ = log (Event.opened_tape tape_rdonly) s in
        if is_neg fd
        then (fd, s₁)
        else let s₂ = log (Event.allocated 0) s₁ in
          let (retval, s₃) = replay_from tape s₂ in
          if w.malloc s₁.trace
          then (retval, log (Event.closed_tape fd) (log Event.freed s₃))
          else (neg e.enomem, log (Event.closed_tape fd) s₂)
