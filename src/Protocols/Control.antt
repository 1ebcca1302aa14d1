-- ===== src/Protocols/Control.antt =====
-- The control protocol: subsys/greybus/control-gpb.c, with the layout of
-- subsys/greybus/control-gb.h, and the manifest's size from subsys/greybus/greybus-manifest.c. The
-- UniPro functions that it calls (subsys/greybus/greybus-stubs.c) do nothing, and what they return
-- is not looked at.
pub mod Served
pub mod Listening
pub mod Quiet
use greybus_for_zephyr.Base.{
  ℕ, zero, suc, ◌+◌, ◌-◌, ◌*◌, ◌/◌, ◌%◌, ◌^◌, Bool, true, false, not, ◌||◌, Option, none, some,
  List, [], ◌∷◌, ◌++◌, ◌==◌, if◌then◌else◌, ℤ, pos, is_zero, length, take,
}
use greybus_for_zephyr.Errno.{Errno, gb_errno_to_op_result}
use greybus_for_zephyr.OpResult
use greybus_for_zephyr.Handlers.Sort.{Qsort}
use greybus_for_zephyr.Core.{Bundle, State, World, Event}
use greybus_for_zephyr.Core.Register.{
  GbEvent, gb_listen, gb_stop_listening, gb_notify, gb_bundle_get_by_id, gb_register_driver,
}
use greybus_for_zephyr.Protocols.{
  Table, byte, bytes_at, le_bytes, le16_at, le32_at, le64_at, put_bytes, with_request,
  with_response, respond, version_response,
}

-- `bridge_manifest`, which set_manifest_blob has set, and what the functions of
-- include/greybus/timesync.h return, with the time that the last writes.
pub record Control : Type 0 where
  pub bridge_manifest : Option (List ℕ)
  pub timesync_enable : List Event → ℕ → ℕ → ℕ → ℕ → ℤ
  pub timesync_disable : List Event → ℤ
  pub timesync_authoritative : List Event → List ℕ → ℤ
  pub timesync_get_last_event : List Event → ℤ × ℕ

-- GB_CONTROL_BUNDLE_PM_OK, GB_CONTROL_PWR_OK
abbrev pub bundle_pm_ok : ℕ
bundle_pm_ok = 0

abbrev pub pwr_ok : ℕ
pwr_ok = 0

-- GB_CONTROL_PWR_STATE_OFF, GB_CONTROL_PWR_STATE_SUSPEND and GB_CONTROL_PWR_STATE_ON
abbrev pub is_pwr_state : ℕ → Bool
is_pwr_state pwr_state = pwr_state == 0 || pwr_state == 1 || pwr_state == 0xff

-- get_manifest_size of the manifest that there is
abbrev pub size_of_blob : Option (List ℕ) → ℕ
size_of_blob none = 0
size_of_blob (some mh) = le16_at mh 0

-- the le64 times of a request
abbrev pub times_at : List ℕ → ℕ → ℕ → List ℕ
times_at payload i zero = []
times_at payload i (suc n) = le64_at payload i ∷ times_at payload (i + 8) n

unfoldable pub gb_control_disconnecting : ℕ → State → ℕ × State
gb_control_disconnecting p s = (OpResult.success, s)

module _ ⦃w : World⦄ where
  -- GB_CONTROL_VERSION_MAJOR and GB_CONTROL_VERSION_MINOR
  unfoldable pub gb_control_protocol_version : ℕ → State → ℕ × State
  gb_control_protocol_version = version_response 0 1

  -- GB_INTERFACE_VERSION_MAJOR and GB_INTERFACE_VERSION_MINOR, of two bytes each
  unfoldable pub gb_control_interface_version : ℕ → State → ℕ × State
  gb_control_interface_version p s = respond p (le_bytes 2 0 ++ le_bytes 2 1) s

  unfoldable pub gb_control_bundle_activate : ℕ → State → ℕ × State
  gb_control_bundle_activate p s = respond p (bundle_pm_ok ∷ []) s

  unfoldable pub gb_control_bundle_suspend : ℕ → State → ℕ × State
  gb_control_bundle_suspend p s = respond p (bundle_pm_ok ∷ []) s

  unfoldable pub gb_control_bundle_resume : ℕ → State → ℕ × State
  gb_control_bundle_resume p s = respond p (bundle_pm_ok ∷ []) s

  unfoldable pub gb_control_bundle_deactivate : ℕ → State → ℕ × State
  gb_control_bundle_deactivate p s = respond p (bundle_pm_ok ∷ []) s

  unfoldable pub gb_control_intf_suspend_prepare : ℕ → State → ℕ × State
  gb_control_intf_suspend_prepare p s = respond p (bundle_pm_ok ∷ []) s

  unfoldable pub gb_control_intf_deactivate_prepare : ℕ → State → ℕ × State
  gb_control_intf_deactivate_prepare p s = respond p (bundle_pm_ok ∷ []) s

  -- in no table: the response stays as it is
  unfoldable pub gb_control_intf_pwr_set : ℕ → State → ℕ × State
  gb_control_intf_pwr_set p =
      with_request 1 (λ payload. with_response p 1 (λ s. (OpResult.protocol_bad, s))) p

  module _ ⦃e : Errno⦄ where
    -- behind gb_notify, and behind gb_listen, of gb_control_connected
    abbrev pub notified : ℕ → ℤ × State → ℕ × State
    notified cport (retval, s) =
        if is_zero retval
        then (OpResult.success, s)
        else (gb_errno_to_op_result retval, (gb_stop_listening cport s).1)

    abbrev pub listening : ℕ → ℤ × State → ℕ × State
    listening cport (retval, s) =
        if is_zero retval
        then notified cport (gb_notify cport GbEvent.connected s)
        else (OpResult.invalid, s)

    unfoldable pub gb_control_connected : ℕ → State → ℕ × State
    gb_control_connected =
        with_request 2
          (λ payload s. listening (le16_at payload 0) (gb_listen (le16_at payload 0) s))

    -- behind gb_stop_listening of gb_control_disconnected, which goes on when gb_notify fails
    abbrev pub silenced : ℤ × State → ℕ × State
    silenced (retval, s) = if is_zero retval then (OpResult.success, s) else (OpResult.invalid, s)

    unfoldable pub gb_control_disconnected : ℕ → State → ℕ × State
    gb_control_disconnected = with_request 2 (λ payload s.
        let cport = le16_at payload 0 in
        silenced (gb_stop_listening cport (gb_notify cport GbEvent.disconnected s).1))

    -- behind the allocation of gb_control_bundle_pwr_set
    abbrev pub set_pwr : ℕ → ℕ → Option Bundle → State → ℕ × State
    set_pwr p pwr_state none s = (OpResult.invalid, s)
    set_pwr p pwr_state (some bundle) s =
        if is_pwr_state pwr_state
        then (OpResult.success, put_bytes p 0 (pwr_ok ∷ []) s)
        else (OpResult.protocol_bad, s)

    -- in no table
    unfoldable pub gb_control_bundle_pwr_set : ℕ → State → ℕ × State
    gb_control_bundle_pwr_set p =
        with_request 2
          (λ payload.
            with_response p 1
              (λ s. set_pwr p (byte payload 1) (gb_bundle_get_by_id (byte payload 0) s) s))
          p

  module _ ⦃c : Control⦄ where
    -- get_manifest_size
    abbrev pub get_manifest_size : ℕ
    get_manifest_size = size_of_blob c.bridge_manifest

    unfoldable pub gb_control_get_manifest_size : ℕ → State → ℕ × State
    gb_control_get_manifest_size p s = respond p (le_bytes 2 get_manifest_size) s

    -- behind the allocation: the manifest's first bytes are copied
    abbrev pub copy_manifest : ℕ → Option (List ℕ) → State → ℕ × State
    copy_manifest p none s = (OpResult.invalid, s)
    copy_manifest p (some mh) s = (OpResult.success, put_bytes p 0 (bytes_at mh 0 (le16_at mh 0)) s)

    unfoldable pub gb_control_get_manifest : ℕ → State → ℕ × State
    gb_control_get_manifest p s =
        with_response p get_manifest_size (copy_manifest p c.bridge_manifest) s

    module _ ⦃e : Errno⦄ where
      unfoldable pub gb_control_timesync_enable : ℕ → State → ℕ × State
      gb_control_timesync_enable = with_request 17 (λ payload s. (
        gb_errno_to_op_result (
            c.timesync_enable s.trace (byte payload 0) (le64_at payload 1) (le32_at payload 9)
              (le32_at payload 13)),
        s,
      ))

      unfoldable pub gb_control_timesync_disable : ℕ → State → ℕ × State
      gb_control_timesync_disable p s = (gb_errno_to_op_result (c.timesync_disable s.trace), s)

      -- GB_TIMESYNC_MAX_STROBES is 4
      unfoldable pub gb_control_timesync_authoritative : ℕ → State → ℕ × State
      gb_control_timesync_authoritative = with_request 32 (λ payload s.
          (gb_errno_to_op_result (c.timesync_authoritative s.trace (times_at payload 0 4)), s))

      abbrev pub put_time : ℕ → ℤ × ℕ → State → ℕ × State
      put_time p (retval, frame_time) s =
          if is_zero retval
          then (gb_errno_to_op_result retval, put_bytes p 0 (le_bytes 8 frame_time) s)
          else (gb_errno_to_op_result retval, s)

      unfoldable pub gb_control_timesync_get_last_event : ℕ → State → ℕ × State
      gb_control_timesync_get_last_event p s =
          with_response p 8 (λ s'. put_time p (c.timesync_get_last_event s'.trace) s') s

      -- gb_control_handlers, by the GB_CONTROL_TYPE_* codes
      abbrev pub gb_control_handlers : Table
      gb_control_handlers =
          (0x01, gb_control_protocol_version)
          ∷ (0x03, gb_control_get_manifest_size)
          ∷ (0x04, gb_control_get_manifest)
          ∷ (0x05, gb_control_connected)
          ∷ (0x06, gb_control_disconnected)
          ∷ (0x0a, gb_control_interface_version)
          ∷ (0x0c, gb_control_disconnecting)
          ∷ (0x12, gb_control_bundle_activate)
          ∷ (0x0f, gb_control_bundle_suspend)
          ∷ (0x10, gb_control_bundle_resume)
          ∷ (0x11, gb_control_bundle_deactivate)
          ∷ (0x13, gb_control_intf_suspend_prepare)
          ∷ (0x14, gb_control_intf_deactivate_prepare)
          ∷ (0x07, gb_control_timesync_enable)
          ∷ (0x08, gb_control_timesync_disable)
          ∷ (0x09, gb_control_timesync_authoritative)
          ∷ (0x0d, gb_control_timesync_get_last_event)
          ∷ []

  -- gb_control_register, where `control_driver` is the driver d
  unfoldable pub gb_control_register : ⦃e : Errno⦄ → Qsort → ℕ → ℕ → ℕ → State → State
  gb_control_register q cport bundle d s =
      (gb_listen cport (gb_register_driver q cport bundle (some d) s).1).1
