-- ===== src/Protocols/Room.antt =====
-- The room for what a bus reads: the response that a handler allocated last
-- (gb_operation_alloc_response of subsys/greybus/greybus-core.c), at each call of a driver.
use greybus_for_zephyr.Base.{
  ℕ, ◌+◌, ◌-◌, ◌%◌, ◌<◌, ◌≡◌, refl, Bool, true, false, some, List, [], ◌∷◌, ◌==◌, if◌then◌else◌,
  arith, Bool-cases, Option-cases, inl, inr,
}
use greybus_for_zephyr.Core.{Operation, State, World, Event, DeviceCall, hdr_size, size_mod}
use greybus_for_zephyr.Core.Lifecycle.{gb_operation_alloc_response}
use greybus_for_zephyr.Protocols.{Lookup, device_of, on_response_buffer, with_response}
use greybus_for_zephyr.Protocols.I2c.{fill_response}

-- The payload's size of the response that was allocated last; 0 bytes in the trace are a malloc.
abbrev pub room_in : List Event → ℕ
room_in [] = 0
room_in (Event.allocated n ∷ trace) = if n == 0 then room_in trace else n - hdr_size
room_in (event ∷ trace) = room_in trace

-- Each call of a driver has the property, with the room that there was when it was made.
abbrev pub AllInRoom : (ℕ → DeviceCall → Type 0) → List Event → Type 0
AllInRoom P [] = Unit
AllInRoom P (Event.called dev call ∷ trace) = P (room_in trace) call × AllInRoom P trace
AllInRoom P (event ∷ trace) = AllInRoom P trace

pub fill_response-trace :
    (p : ℕ) (f : List ℕ → List ℕ) (s : State) → (fill_response p f s).trace ≡ s.trace
unfolding fill_response
fill_response-trace p f s = elim (Option-cases (s.ops p)) [
  | inl gone ↦ rw (fill_response, gone) refl
  | inr (op, there) ↦ rw (fill_response, there) refl
]

-- The operation that a look-up of a device finds is the one asked for.
pub device_of-op :
    (p dev : ℕ) (found op : Operation) (s : State)
    → s.ops p ≡ some op
    → device_of p s ≡ Lookup.device dev found
    → op ≡ found
unfolding device_of
device_of-op p dev found op s there h = ground (arith, there, h)

module _ ⦃w : World⦄ (P : ℕ → DeviceCall → Type 0) where
  after_alloc :
      (k : State → ℕ × State) (b : Bool) (s : State)
      → AllInRoom P s.trace
      → (b ≡ true → AllInRoom P (k s).1.trace)
      → AllInRoom P (on_response_buffer (b, s) k).1.trace
  after_alloc k false s fine h = fine
  after_alloc k true s fine h = h refl

  -- Behind the allocation of a response a handler has the room that it asked for.
  pub with_response-AllInRoom :
      (p n : ℕ) (k : State → ℕ × State) (s : State)
      → n + hdr_size < size_mod
      → AllInRoom P s.trace
      → ((t : State) → room_in t.trace ≡ n → AllInRoom P t.trace → AllInRoom P (k t).1.trace)
      → AllInRoom P (with_response p n k s).1.trace
  unfolding gb_operation_alloc_response
  with_response-AllInRoom p n k s small fine h = elim (Option-cases (s.ops p)) [
    | inl gone ↦ rw (gb_operation_alloc_response, gone) fine
    | inr (op, there) ↦
        let exact : (n + hdr_size) % size_mod ≡ n + hdr_size = omega arith in
        let posted : (n + hdr_size == 0) ≡ false = ground arith in
        let whole : n + hdr_size - hdr_size ≡ n = omega arith in
        elim (Bool-cases (w.alloc_buf s.trace (n + hdr_size))) [
          | inl room ↦
              rw (gb_operation_alloc_response, there, exact, room)
                (h _ (rw (posted, whole) refl) fine)
          | inr full ↦ rw (gb_operation_alloc_response, there, exact, full) fine
        ]
  ]
