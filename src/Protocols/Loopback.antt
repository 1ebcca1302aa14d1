-- ===== src/Protocols/Loopback.antt =====
-- The loopback protocol: subsys/greybus/loopback.c, with the layout of include/greybus/loopback.h.
-- The list of the registered cports is a state of its own. Cports are not negative here.
use greybus_for_zephyr.Base.{
  ℕ, zero, suc, ◌+◌, ◌*◌, ◌%◌, ◌^◌, Bool, true, false, not, ◌&&◌, Option, none, some, List, [], ◌∷◌,
  ◌++◌, ◌==◌, if◌then◌else◌, ℤ, pos, neg, is_neg,
}
use greybus_for_zephyr.Errno.{Errno}
use greybus_for_zephyr.OpResult
use greybus_for_zephyr.Core.{Operation, State, World, Event, size_mod, log}
use greybus_for_zephyr.Core.Lifecycle.{gb_operation_get_request_result}
use greybus_for_zephyr.Protocols.{
  Table, bytes_at, le32_at, put_bytes, with_request, with_response, version_response,
}
pub mod Echo
pub mod Quiet

-- `struct gb_loopback_statistics`
pub record Statistics : Type 0 where
  pub recv : ℕ
  pub recv_err : ℕ
  pub throughput_min : ℕ
  pub throughput_max : ℕ
  pub throughput_avg : ℕ
  pub latency_min : ℕ
  pub latency_max : ℕ
  pub latency_avg : ℕ
  pub reqs_per_sec_min : ℕ
  pub reqs_per_sec_max : ℕ
  pub reqs_per_sec_avg : ℕ

-- `struct gb_loopback`, less its lock and its timestamp
pub record Loopback : Type 0 where
  pub cport : ℕ
  pub stats : Statistics

abbrev pub no_statistics : Statistics
no_statistics = record {
  recv = 0;
  recv_err = 0;
  throughput_min = 0;
  throughput_max = 0;
  throughput_avg = 0;
  latency_min = 0;
  latency_max = 0;
  latency_avg = 0;
  reqs_per_sec_min = 0;
  reqs_per_sec_max = 0;
  reqs_per_sec_avg = 0;
}

-- sizeof(struct gb_loopback_transfer_request), and that of the response
abbrev pub transfer_len : ℕ
transfer_len = 12

-- the loop of gb_loopback_get_cports: until the callback fails
unfoldable pub gb_loopback_get_cports : {A : Type 0} → (ℕ → A → ℤ × A) → List Loopback → A → ℤ × A
gb_loopback_get_cports cb [] x = (pos 0, x)
gb_loopback_get_cports cb (loopback ∷ []) x = cb loopback.cport x
gb_loopback_get_cports cb (loopback ∷ next ∷ list) x =
    let status = cb loopback.cport x in
    let rest = gb_loopback_get_cports cb (next ∷ list) status.1 in
    if is_neg status.0 then status else rest

unfoldable pub loopback_from_cport : ℕ → List Loopback → Option Loopback
loopback_from_cport cport [] = none
loopback_from_cport cport (loopback ∷ list) =
    if loopback.cport == cport then some loopback else loopback_from_cport cport list

-- What is written through the pointer that loopback_from_cport returns, if it is not NULL.
unfoldable pub update_stats : ℕ → (Statistics → Statistics) → List Loopback → List Loopback
update_stats cport f [] = []
update_stats cport f (loopback ∷ list) =
    let rest = update_stats cport f list in
    if loopback.cport == cport
    then record loopback { stats = f loopback.stats } ∷ list
    else loopback ∷ rest

-- the counters are `unsigned`
abbrev pub loopback_error_notify : ℕ → List Loopback → List Loopback
loopback_error_notify cport =
    update_stats cport (λ stats. record stats { recv_err = (stats.recv_err + 1) % 2 ^ 32 })

abbrev pub loopback_recv_inc : ℕ → List Loopback → List Loopback
loopback_recv_inc cport =
    update_stats cport (λ stats. record stats { recv = (stats.recv + 1) % 2 ^ 32 })

abbrev pub gb_loopback_reset : ℕ → List Loopback → List Loopback
gb_loopback_reset cport = update_stats cport (λ stats. no_statistics)

abbrev pub gb_loopback_cport_valid : ℕ → List Loopback → Bool
gb_loopback_cport_valid cport list = elim (loopback_from_cport cport list) [
  | none ↦ false
  | some loopback ↦ true
]

-- gb_loopback_get_stats, with what it copies
abbrev pub gb_loopback_get_stats : ⦃e : Errno⦄ → ℕ → List Loopback → ℤ × Option Statistics
gb_loopback_get_stats ⦃e = e⦄ cport list = elim (loopback_from_cport cport list) [
  | none ↦ (neg e.einval, none)
  | some loopback ↦ (pos 0, some loopback.stats)
]

-- of an operation that is there
abbrev pub gb_loopback_ping_sink_resp_cb : Operation → State → List Loopback → List Loopback
gb_loopback_ping_sink_resp_cb op s list =
    if gb_operation_get_request_result (some op) s == 0
    then loopback_recv_inc op.cport list
    else loopback_error_notify op.cport list

abbrev pub same_bytes : List ℕ → List ℕ → Bool
same_bytes [] [] = true
same_bytes [] (y ∷ ys) = false
same_bytes (x ∷ xs) [] = false
same_bytes (x ∷ xs) (y ∷ ys) = x == y && same_bytes xs ys

-- Whether the response's payload is taken for an echo of the request's: the test of
-- gb_loopback_transfer_resp_cb.
abbrev pub is_echo : List ℕ → List ℕ → Bool
is_echo request response =
    le32_at request 0 == le32_at response 0
    && same_bytes (bytes_at request transfer_len (le32_at request 0))
        (bytes_at response transfer_len (le32_at request 0))

-- of an operation and its response, which are both there
unfoldable pub gb_loopback_transfer_resp_cb : Operation → Operation → List Loopback → List Loopback
gb_loopback_transfer_resp_cb op response list =
    if is_echo op.request_buffer.payload response.request_buffer.payload
    then loopback_recv_inc op.cport list
    else loopback_error_notify op.cport list

unfoldable pub gb_loopback_ping_sink_req_cb : ℕ → State → ℕ × State
gb_loopback_ping_sink_req_cb p s = (OpResult.success, s)

module _ ⦃w : World⦄ where
  -- GB_LOOPBACK_VERSION_MAJOR and GB_LOOPBACK_VERSION_MINOR
  unfoldable pub gb_loopback_protocol_ver_cb : ℕ → State → ℕ × State
  gb_loopback_protocol_ver_cb = version_response 0 1

  -- The length is copied, and the data; that the request holds as much is not checked.
  unfoldable pub gb_loopback_transfer_req_cb : ℕ → State → ℕ × State
  gb_loopback_transfer_req_cb p =
      with_request transfer_len
        (λ payload.
          let request_length = le32_at payload 0 in
          with_response p ((transfer_len + request_length) % size_mod) (λ s. (
            OpResult.success,
            put_bytes p transfer_len (bytes_at payload transfer_len request_length)
                (put_bytes p 0 (bytes_at payload 0 4) s),
          )))
        p

  -- gb_loopback_handlers, by the GB_LOOPBACK_TYPE_* codes
  abbrev pub gb_loopback_handlers : Table
  gb_loopback_handlers =
      (0x01, gb_loopback_protocol_ver_cb)
      ∷ (0x02, gb_loopback_ping_sink_req_cb)
      ∷ (0x03, gb_loopback_transfer_req_cb)
      ∷ (0x04, gb_loopback_ping_sink_req_cb)
      ∷ []
