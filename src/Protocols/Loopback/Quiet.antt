-- ===== src/Protocols/Loopback/Quiet.antt =====
-- The loopback protocol's handlers leave the receiving sides alone.
use greybus_for_zephyr.Base.{ℕ, ◌+◌, ◌%◌, List}
use greybus_for_zephyr.OpResult
use greybus_for_zephyr.Core.{State, World, size_mod}
use greybus_for_zephyr.Protocols.{bytes_at, le32_at, put_bytes, with_response}
use greybus_for_zephyr.Protocols.Tidy.{
  IsTidy-trans, Keeps, Keeps-refl, put_bytes-IsTidy, with_request-Keeps, with_response-Keeps,
  version_response-Keeps, IsTidyTable,
}
use greybus_for_zephyr.Protocols.Control.Quiet.{Any}
use greybus_for_zephyr.Protocols.Loopback

module _ ⦃w : World⦄ where
  put_twice-Keeps :
      (p i : ℕ) (front bs : List ℕ) (s : State)
      → Keeps Any s (OpResult.success, put_bytes p i bs (put_bytes p 0 front s))
  put_twice-Keeps p i front bs s = record {
    tidy =
        IsTidy-trans Any s (put_bytes p 0 front s) (put_bytes p i bs (put_bytes p 0 front s))
          (put_bytes-IsTidy Any p 0 front s) (put_bytes-IsTidy Any p i bs (put_bytes p 0 front s));
  }

  transfer-Keeps : (p : ℕ) (s : State) → Keeps Any s (Loopback.gb_loopback_transfer_req_cb p s)
  unfolding Loopback.gb_loopback_transfer_req_cb
  transfer-Keeps p s =
      let answer : List ℕ → State → ℕ × State = λ payload t. (
        OpResult.success,
        put_bytes p Loopback.transfer_len
            (bytes_at payload Loopback.transfer_len (le32_at payload 0))
            (put_bytes p 0 (bytes_at payload 0 4) t),
      ) in
      with_request-Keeps Any Loopback.transfer_len
        (λ payload.
          with_response p ((Loopback.transfer_len + le32_at payload 0) % size_mod) (answer payload))
        p s
        (λ payload.
          with_response-Keeps Any (λ n. tt) p
            ((Loopback.transfer_len + le32_at payload 0) % size_mod) (answer payload) s
            (λ t. put_twice-Keeps p Loopback.transfer_len (bytes_at payload 0 4) _ t))

  ping-Keeps : (p : ℕ) (s : State) → Keeps Any s (Loopback.gb_loopback_ping_sink_req_cb p s)
  unfolding Loopback.gb_loopback_ping_sink_req_cb
  ping-Keeps p s = Keeps-refl Any OpResult.success s

  pub loopback-IsTidyTable : IsTidyTable Any Loopback.gb_loopback_handlers
  unfolding Loopback.gb_loopback_protocol_ver_cb
  loopback-IsTidyTable =
      (version_response-Keeps Any (λ n. tt) 0 1, (ping-Keeps, (transfer-Keeps, (ping-Keeps, tt))))
