-- ===== src/Tests/Hosting.antt =====
-- The control and loopback protocols' requests to a small board.
use greybus_for_zephyr.Base.{
  ◌≤◌, ℕ, zero, suc, ◌≡◌, refl, true, false, Option, none, some, List, [], ◌∷◌, ◌==◌, pos, arith,
}
use greybus_for_zephyr.OpResult
use greybus_for_zephyr.Core.{Operation, State, set_cport}
use greybus_for_zephyr.Core.Register.{
  fresh_cport, gb_listen, gb_notify, gb_stop_listening, stop_listening,
}
use greybus_for_zephyr.Core.Lifecycle.{
  gb_operation_get_request_payload_size, gb_operation_alloc_response, zeros,
}
use greybus_for_zephyr.Protocols.{le_bytes, payload_size, put_bytes, with_request}
use greybus_for_zephyr.Protocols.Answers.{response_payload, response_size}
use greybus_for_zephyr.Protocols.Control.{
  Control, gb_control_connected, gb_control_disconnected, gb_control_get_manifest,
  gb_control_get_manifest_size,
}
use greybus_for_zephyr.Protocols.Control.Listening.{listens, connected_tells, disconnected_silences}
use greybus_for_zephyr.Protocols.Control.Served.{manifest_served}
use greybus_for_zephyr.Protocols.Loopback.{
  Loopback, no_statistics, gb_loopback_transfer_req_cb, gb_loopback_transfer_resp_cb,
  gb_loopback_get_stats, loopback_recv_inc, update_stats, loopback_from_cport,
}
use greybus_for_zephyr.Protocols.Loopback.Echo.{transfer_comes_back}
use greybus_for_zephyr.Tests.Samples.{
  posix, posix-IsPositive, fine_world, ping, operation_of, state_of,
}

-- a manifest of four bytes, and one byte behind it
abbrev blob : List ℕ
blob = 4 ∷ 0 ∷ 0 ∷ 1 ∷ 9 ∷ []

instance abbrev pub board_control : Control
board_control = record {
  bridge_manifest = some blob;
  timesync_enable = λ trace count time delay clock. pos 0;
  timesync_disable = λ trace. pos 0;
  timesync_authoritative = λ trace times. pos 0;
  timesync_get_last_event = λ trace. (pos 0, 0);
}

-- a request that names cport 0
abbrev naming : Operation
naming = record (operation_of 1 none) {
  request_buffer = record ping { size = 10; payload = 0 ∷ 0 ∷ [] };
}

abbrev naming_at : ℕ → Option Operation
naming_at zero = some naming
naming_at (suc p) = none

abbrev in_use : State
in_use = set_cport 0 (record fresh_cport { driver = some 0 }) (state_of naming_at)

connected_tells_example :
    ((gb_control_connected 0 in_use).0 == OpResult.success)
    ≡ listens 0 (gb_control_connected 0 in_use).1.trace
connected_tells_example = connected_tells 0 in_use posix-IsPositive refl

-- The backend listens, in fact.
connected_listens : listens 0 (gb_control_connected 0 in_use).1.trace ≡ true
unfolding with_request gb_control_connected gb_operation_get_request_payload_size gb_listen
    gb_notify
connected_listens = refl

disconnects : (gb_control_disconnected 0 in_use).0 ≡ OpResult.success
unfolding with_request gb_control_disconnected gb_operation_get_request_payload_size
    gb_stop_listening gb_notify stop_listening
disconnects = refl

disconnected_silences_example : listens 0 (gb_control_disconnected 0 in_use).1.trace ≡ false
disconnected_silences_example = disconnected_silences 0 in_use posix-IsPositive disconnects

manifest_served_example :
    let (code₁, s₁) = gb_control_get_manifest_size 0 in_use in
    let (code₂, s₂) = gb_control_get_manifest 0 in_use in
    (code₁ ≡ OpResult.success)
    × (response_payload 0 s₁ ≡ some (le_bytes 2 4))
    × (code₂ ≡ OpResult.success)
    × (response_payload 0 s₂ ≡ some (4 ∷ 0 ∷ 0 ∷ 1 ∷ []))
    × (response_size 0 s₂ ≡ some 12)
manifest_served_example =
    manifest_served blob 0 naming in_use refl (omega arith) (omega arith) refl refl refl

-- a transfer of one byte, and the answer to it
abbrev transfer : Operation
transfer = record (operation_of 1 none) {
  request_buffer = record ping {
    size = 21;
    payload = 1 ∷ 0 ∷ 0 ∷ 0 ∷ 0 ∷ 0 ∷ 0 ∷ 0 ∷ 0 ∷ 0 ∷ 0 ∷ 0 ∷ 42 ∷ [];
  };
}

abbrev request_at : ℕ → Option Operation
request_at zero = some transfer
request_at (suc p) = none

abbrev counters : List Loopback
counters = record { cport = 0; stats = no_statistics } ∷ []

transfer_answer :
    some transfer.request_buffer.payload
    ≡ response_payload 0 (gb_loopback_transfer_req_cb 0 (state_of request_at)).1
unfolding with_request gb_loopback_transfer_req_cb gb_operation_get_request_payload_size
    gb_operation_alloc_response zeros put_bytes
transfer_answer = refl

transfer_size : 13 ≤ payload_size 0 (state_of request_at)
unfolding gb_operation_get_request_payload_size
transfer_size = omega arith

transfer_comes_back_example :
    ((gb_loopback_transfer_req_cb 0 (state_of request_at)).0 ≡ OpResult.success)
    × (gb_loopback_transfer_resp_cb transfer transfer counters ≡ loopback_recv_inc 0 counters)
transfer_comes_back_example =
    transfer_comes_back 0 transfer transfer transfer (state_of request_at) counters refl
      transfer_size (omega arith) refl refl transfer_answer

-- The count of receptions is then 1.
transfer_counts :
    gb_loopback_get_stats 0 (gb_loopback_transfer_resp_cb transfer transfer counters)
    ≡ (pos 0, some (record no_statistics { recv = 1 }))
unfolding gb_loopback_transfer_resp_cb update_stats loopback_from_cport
transfer_counts = refl
