-- ===== src/Protocols/Board.antt =====
-- The device drivers that subsys/greybus/uart.c, lights.c and power_supply.c call, and how their
-- handlers call them. These files take `bundle->dev` for the device itself: slot 0 here.
pub mod Quiet
use greybus_for_zephyr.Base.{
  ℕ, Option, none, some, List, ℤ, is_zero, if◌then◌else◌, pos, length, false,
}
use greybus_for_zephyr.OpResult
use greybus_for_zephyr.Core.{State, World, DeviceCall, DriverFunction, Event}
use greybus_for_zephyr.Core.Lifecycle.{gb_operation_create, gb_operation_destroy}
use greybus_for_zephyr.Core.Send.{gb_operation_send_request_nowait}
use greybus_for_zephyr.Errno.{Errno}
use greybus_for_zephyr.Protocols.{Lookup, call_device, put_bytes, put_request_bytes}

-- What a function of the drivers returns for a device and its arguments, what it writes through
-- its pointers, and what device_open gives.
pub record Board : Type 0 where
  pub ret : List Event → ℕ → DriverFunction → List ℕ → ℤ
  pub out : List Event → ℕ → DriverFunction → List ℕ → List ℕ
  pub open_device : List Event → Option ℕ

-- the device of an operation's bundle
unfoldable pub bundle_dev : ℕ → State → Lookup
bundle_dev p s = elim (s.ops p) [
  | none ↦ Lookup.dangling
  | some op ↦ elim op.bundle [
    | none ↦ Lookup.dangling
    | some b ↦ elim (s.bundles b) [
      | none ↦ Lookup.dangling
      | some bundle ↦ elim (bundle.devices 0) [
        | none ↦ Lookup.no_device
        | some dev ↦ Lookup.device dev op
      ]
    ]
  ]
]

-- The handlers check neither the bundle nor the device, which init has seen to.
abbrev pub on_dev : Lookup → (ℕ → State → ℕ × State) → State → ℕ × State
on_dev Lookup.dangling k s = (OpResult.internal, s)
on_dev Lookup.no_device k s = (OpResult.internal, s)
on_dev (Lookup.device dev op) k s = k dev s

abbrev pub with_dev : ℕ → (ℕ → State → ℕ × State) → State → ℕ × State
with_dev p k s = on_dev (bundle_dev p s) k s

-- `ret`, and what stands where it is not 0, or is
abbrev pub on_ret : ℤ → (ℤ → ℕ) → (State → ℕ × State) → State → ℕ × State
on_ret ret code k s = if is_zero ret then k s else (code ret, s)

module _ ⦃b : Board⦄ where
  -- A call, with what the code goes on with: what the call wrote, behind a call that returned 0.
  unfoldable pub call_driver :
      ℕ → DriverFunction → List ℕ → (ℤ → ℕ) → (List ℕ → State → ℕ × State) → State → ℕ × State
  call_driver dev f args code k s =
      on_ret (b.ret s.trace dev f args) code (k (b.out s.trace dev f args))
        (call_device dev (DeviceCall.driver f args) s)

  -- A call that writes some of the response, whatever it returns.
  unfoldable pub call_into :
      ℕ → ℕ → DriverFunction → List ℕ → (ℤ → ℕ) → (List ℕ → List ℕ) → State → ℕ × State
  call_into p dev f args code bytes s =
      on_ret (b.ret s.trace dev f args) code (λ s'. (OpResult.success, s'))
        (put_bytes p 0 (bytes (b.out s.trace dev f args))
          (call_device dev (DeviceCall.driver f args) s))

  -- A call whose error the code does not look at.
  abbrev pub call_silently : ℕ → DriverFunction → List ℕ → State → State
  call_silently dev f args s = call_device dev (DeviceCall.driver f args) s

module _ ⦃e : Errno⦄ ⦃w : World⦄ where
  -- The request of an event of two bytes, once it is created, and the event's callback, with the
  -- error of one that is not.
  abbrev pub send_event_bytes : List ℕ → ℤ → Option ℕ × State → ℤ × State
  send_event_bytes bytes error (none, s) = (error, s)
  send_event_bytes bytes error (some p, s) = (
    pos 0,
    gb_operation_destroy p
        (gb_operation_send_request_nowait p none false (put_request_bytes p bytes s)).1,
  )

  abbrev pub event_callback : ℕ → ℕ → List ℕ → ℤ → State → ℤ × State
  event_callback cport type bytes error s =
      send_event_bytes bytes error (gb_operation_create cport type (length bytes) s)
