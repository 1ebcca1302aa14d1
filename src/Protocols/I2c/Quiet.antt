-- ===== src/Protocols/I2c/Quiet.antt =====
-- The I2C protocol's handlers leave the receiving sides alone.
use greybus_for_zephyr.Base.{
  ℕ, Option, none, some, List, if◌then◌else◌, refl, ltb, ◌+◌, ◌*◌, Option-cases, inl, inr,
}
use greybus_for_zephyr.Errno.{Errno}
use greybus_for_zephyr.OpResult
use greybus_for_zephyr.Core.{State, World, DeviceCall, I2cMsg, Event, log}
use greybus_for_zephyr.Core.Lifecycle.{gb_operation_get_request_payload_size}
use greybus_for_zephyr.Protocols.{Lookup, le16_at, device_of, with_response}
use greybus_for_zephyr.Protocols.Tidy.{
  IsTidy, Keeps, Keeps-refl, IsTidy-refl, IsTidy-trans, log-IsTidy, if-Keeps, with_response-Keeps,
  version_response-Keeps, IsTidyTable, put-IsTidy, log-after,
}
use greybus_for_zephyr.Protocols.Control.Quiet.{Any}
use greybus_for_zephyr.Protocols.I2c

pub fill-IsTidy :
    (s t : State) (p : ℕ) (f : List ℕ → List ℕ)
    → IsTidy Any s t
    → IsTidy Any s (I2c.fill_response p f t)
unfolding I2c.fill_response
fill-IsTidy s t p f h =
    IsTidy-trans Any s t (I2c.fill_response p f t) h (elim (Option-cases (t.ops p)) [
      | inl gone ↦ rw (gone, I2c.fill_response) (IsTidy-refl Any t)
      | inr (op, there) ↦
          rw (there, I2c.fill_response) (record { same_rx = λ c. refl; adds = λ x. x })
    ])

module _ ⦃w : World⦄ where
  module _ ⦃e : Errno⦄ ⦃i : I2c.I2c⦄ where
    functionality-Keeps : (p : ℕ) (s : State) → Keeps Any s (I2c.gb_i2c_protocol_functionality p s)
    unfolding I2c.gb_i2c_protocol_functionality
    functionality-Keeps p s =
        with_response-Keeps Any (λ n. tt) p 4 _ s
          (λ t. record {
            tidy = put-IsTidy Any t _ p 3 _ (
                put-IsTidy Any t _ p 2 _
                  (put-IsTidy Any t _ p 1 _ (put-IsTidy Any t t p 0 _ (IsTidy-refl Any t))));
          })

    version-Keeps : (p : ℕ) (s : State) → Keeps Any s (I2c.gb_i2c_protocol_version p s)
    unfolding I2c.gb_i2c_protocol_version
    version-Keeps p s = version_response-Keeps Any (λ n. tt) 0 1 p s

    run_messages-Keeps :
        (dev p addr : ℕ) (o : Option (List I2cMsg)) (s t : State)
        → IsTidy Any s t
        → Keeps Any s (I2c.run_messages dev p addr o t)
    run_messages-Keeps dev p addr none s t h = record { tidy = log-after Any s t Event.freed tt h }
    run_messages-Keeps dev p addr (some msgs) s t h = record {
      tidy = log-after Any s _ Event.freed tt (
          fill-IsTidy s _ p (i.fill t.trace dev msgs addr)
            (log-after Any s t (Event.called dev (DeviceCall.i2c_transfer msgs addr)) tt h));
    }

    transfer_messages-Keeps :
        (dev p : ℕ) (payload : List ℕ) (s : State)
        → Keeps Any s (I2c.transfer_messages dev p payload s)
    transfer_messages-Keeps dev p payload s =
        let s₁ = log (Event.allocated 0) s in
        let one = log-IsTidy Any (Event.allocated 0) s tt in
        if-Keeps Any (w.malloc s.trace)
          (I2c.run_messages dev p (I2c.first_addr (I2c.descs_of payload)) (I2c.messages_of payload)
            s₁)
          (OpResult.no_memory, s₁) s
          (λ room. run_messages-Keeps dev p _ (I2c.messages_of payload) s s₁ one)
          (λ full. record { tidy = one })

    transfer_for-Keeps : (x : Lookup) (p : ℕ) (s : State) → Keeps Any s (I2c.transfer_for x p s)
    transfer_for-Keeps Lookup.dangling p s = Keeps-refl Any OpResult.internal s
    transfer_for-Keeps Lookup.no_device p s = Keeps-refl Any OpResult.internal s
    transfer_for-Keeps (Lookup.device dev op) p s =
        let payload = op.request_buffer.payload in
        let size = gb_operation_get_request_payload_size (some op) in
        let room = I2c.size_from 0 (I2c.descs_of payload) in
        let run = with_response p room (I2c.transfer_messages dev p payload) s in
        if-Keeps Any (ltb size I2c.req_len) (OpResult.invalid, s)
          (if ltb size (I2c.req_len + le16_at payload 0 * I2c.desc_len)
            then (OpResult.invalid, s)
            else run)
          s (λ short. Keeps-refl Any OpResult.invalid s)
          (λ long.
            if-Keeps Any (ltb size (I2c.req_len + le16_at payload 0 * I2c.desc_len))
              (OpResult.invalid, s) run s (λ few. Keeps-refl Any OpResult.invalid s)
              (λ enough.
                with_response-Keeps Any (λ n. tt) p room (I2c.transfer_messages dev p payload) s
                  (transfer_messages-Keeps dev p payload)))

    transfer-Keeps : (p : ℕ) (s : State) → Keeps Any s (I2c.gb_i2c_protocol_transfer p s)
    unfolding I2c.gb_i2c_protocol_transfer
    transfer-Keeps p s = transfer_for-Keeps (device_of p s) p s

    pub i2c-IsTidyTable : IsTidyTable Any I2c.gb_i2c_handlers
    i2c-IsTidyTable = (version-Keeps, (functionality-Keeps, (transfer-Keeps, tt)))
