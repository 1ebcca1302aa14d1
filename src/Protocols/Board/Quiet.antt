-- ===== src/Protocols/Board/Quiet.antt =====
-- What calls a device driver the way subsys/greybus/uart.c, lights.c and power_supply.c do leaves
-- the receiving sides alone, if what it goes on with does.
use greybus_for_zephyr.Base.{ℕ, List, ℤ, is_zero}
use greybus_for_zephyr.OpResult
use greybus_for_zephyr.Core.{State, World, DeviceCall, DriverFunction, Event}
use greybus_for_zephyr.Protocols.{Lookup, call_device, put_bytes, with_response}
use greybus_for_zephyr.Protocols.Tidy.{
  IsTidy, IsTidy-trans, Keeps, Keeps-refl, if-Keeps, log-IsTidy, put_bytes-IsTidy, put_bytes-Keeps,
  with_response-Keeps,
}
use greybus_for_zephyr.Protocols.Control.Quiet.{Any}
use greybus_for_zephyr.Protocols.Board.{Board, bundle_dev, on_dev, with_dev, call_driver, call_into}

-- A handler that went on from a state that it left tidy.
pub after-Keeps : (s t : State) (x : ℕ × State) → IsTidy Any s t → Keeps Any t x → Keeps Any s x
after-Keeps s t x h k = record { tidy = IsTidy-trans Any s t x.1 h k.tidy }

-- the bytes of a response, behind its allocation
pub fill-Keeps :
    ⦃w : World⦄
    → (p n : ℕ) (bs : List ℕ) (s : State)
    → Keeps Any s (with_response p n (λ t. (OpResult.success, put_bytes p 0 bs t)) s)
fill-Keeps p n bs s =
    with_response-Keeps Any (λ m. tt) p n _ s (put_bytes-Keeps Any OpResult.success p 0 bs)

on_dev-Keeps :
    (x : Lookup) (k : ℕ → State → ℕ × State) (s : State)
    → ((dev : ℕ) → Keeps Any s (k dev s))
    → Keeps Any s (on_dev x k s)
on_dev-Keeps Lookup.dangling k s h = Keeps-refl Any OpResult.internal s
on_dev-Keeps Lookup.no_device k s h = Keeps-refl Any OpResult.internal s
on_dev-Keeps (Lookup.device dev op) k s h = h dev

pub with_dev-Keeps :
    (p : ℕ) (k : ℕ → State → ℕ × State) (s : State)
    → ((dev : ℕ) → Keeps Any s (k dev s))
    → Keeps Any s (with_dev p k s)
with_dev-Keeps p k s h = on_dev-Keeps (bundle_dev p s) k s h

module _ ⦃b : Board⦄ where
  pub call_driver-Keeps :
      (dev : ℕ) (f : DriverFunction) (args : List ℕ) (code : ℤ → ℕ) (k : List ℕ → State → ℕ × State)
      (s : State)
      → ((out : List ℕ) (t : State) → Keeps Any t (k out t))
      → Keeps Any s (call_driver dev f args code k s)
  unfolding call_driver
  call_driver-Keeps dev f args code k s h =
      let s₁ = call_device dev (DeviceCall.driver f args) s in
      let one = log-IsTidy Any (Event.called dev (DeviceCall.driver f args)) s tt in
      let out = b.out s.trace dev f args in
      let ret = b.ret s.trace dev f args in
      if-Keeps Any (is_zero ret) (k out s₁) (code ret, s₁) s
        (λ fine. after-Keeps s s₁ (k out s₁) one (h out s₁)) (λ failed. record { tidy = one })

  pub call_into-Keeps :
      (p dev : ℕ) (f : DriverFunction) (args : List ℕ) (code : ℤ → ℕ) (bytes : List ℕ → List ℕ)
      (s : State)
      → Keeps Any s (call_into p dev f args code bytes s)
  unfolding call_into
  call_into-Keeps p dev f args code bytes s =
      let s₁ = call_device dev (DeviceCall.driver f args) s in
      let one = log-IsTidy Any (Event.called dev (DeviceCall.driver f args)) s tt in
      let ret = b.ret s.trace dev f args in
      let s₂ = put_bytes p 0 (bytes (b.out s.trace dev f args)) s₁ in
      let two = IsTidy-trans Any s s₁ s₂ one (put_bytes-IsTidy Any p 0 _ s₁) in
      if-Keeps Any (is_zero ret) (OpResult.success, s₂) (code ret, s₂) s
        (λ fine. record { tidy = two }) (λ failed. record { tidy = two })
