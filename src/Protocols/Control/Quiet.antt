-- ===== src/Protocols/Control/Quiet.antt =====
-- The control protocol's handlers leave the receiving sides alone.
use greybus_for_zephyr.Base.{
  ℕ, refl, ◌∙◌, Option, none, some, List, [], ◌∷◌, ◌++◌, ℤ, is_zero, arith, All, Bool-cases, inl,
  inr,
}
use greybus_for_zephyr.Errno.{Errno, gb_errno_to_op_result}
use greybus_for_zephyr.OpResult
use greybus_for_zephyr.Core.{State, World, Event}
use greybus_for_zephyr.Core.Quiet.{SameRx, SameRx-trans}
use greybus_for_zephyr.Core.Register.{
  GbEvent, call, gb_listen, stop_listening, gb_stop_listening, gb_notify,
}
use greybus_for_zephyr.Protocols.{respond, byte, le_bytes, le16_at, le32_at, le64_at}
use greybus_for_zephyr.Protocols.Tidy.{
  IsTidy, Keeps, Keeps-refl, if-Keeps, put_bytes-Keeps, with_request-Keeps, with_response-Keeps,
  respond-Keeps, version_response-Keeps, IsTidyTable,
}
use greybus_for_zephyr.Protocols.Control

-- any event
abbrev pub Any : Event → Type 0
Any e = Unit

All-Any : (trace : List Event) → All Any trace
All-Any [] = tt
All-Any (e ∷ trace) = (tt, All-Any trace)

-- With any event allowed, what is left is the receiving sides.
only_rx : (s t : State) → SameRx s t → IsTidy Any s t
only_rx s t h = record { same_rx = h; adds = λ x. All-Any t.trace }

module _ ⦃w : World⦄ ⦃e : Errno⦄ where
  listen-SameRx : (c : ℕ) (s : State) → SameRx s (gb_listen c s).1
  unfolding gb_listen
  listen-SameRx c s d = ground arith

  stop-SameRx : (c : ℕ) (s : State) → SameRx s (gb_stop_listening c s).1
  unfolding gb_stop_listening stop_listening
  stop-SameRx c s d = ground arith

  call-SameRx : (f : Option ℕ) (event : ℕ → Event) (s : State) → SameRx s (call f event s)
  call-SameRx none event s c = refl
  call-SameRx (some f) event s c = refl

  notify-SameRx : (c : ℕ) (event : GbEvent) (s : State) → SameRx s (gb_notify c event s).1
  unfolding gb_notify
  notify-SameRx c GbEvent.connected s d = ground arith
  notify-SameRx c GbEvent.disconnected s d = ground arith
  notify-SameRx c GbEvent.other s d = ground arith

  notified-SameRx :
      (c : ℕ) (s : State) (x : ℤ × State) → SameRx s x.1 → SameRx s (Control.notified c x).1
  notified-SameRx c s (retval, t) h d = elim (Bool-cases (is_zero retval)) [
    | inl fine ↦ rw fine (h d)
    | inr failed ↦ rw failed (stop-SameRx c t d ∙ h d)
  ]

  listening-SameRx :
      (c : ℕ) (s : State) (x : ℤ × State) → SameRx s x.1 → SameRx s (Control.listening c x).1
  listening-SameRx c s (retval, t) h d = elim (Bool-cases (is_zero retval)) [
    | inl fine ↦ rw fine (
        notified-SameRx c s (gb_notify c GbEvent.connected t)
          (SameRx-trans s t (gb_notify c GbEvent.connected t).1 h
            (notify-SameRx c GbEvent.connected t))
          d)
    | inr failed ↦ rw failed (h d)
  ]

  silenced-SameRx : (s : State) (x : ℤ × State) → SameRx s x.1 → SameRx s (Control.silenced x).1
  silenced-SameRx s (retval, t) h d = elim (Bool-cases (is_zero retval)) [
    | inl fine ↦ rw fine (h d)
    | inr failed ↦ rw failed (h d)
  ]

  connected-Keeps : (p : ℕ) (s : State) → Keeps Any s (Control.gb_control_connected p s)
  unfolding Control.gb_control_connected
  connected-Keeps p s =
      with_request-Keeps Any 2
        (λ payload t. Control.listening (le16_at payload 0) (gb_listen (le16_at payload 0) t)) p s
        (λ payload. record {
          tidy =
              only_rx s (Control.listening (le16_at payload 0) (gb_listen (le16_at payload 0) s)).1
                (listening-SameRx (le16_at payload 0) s (gb_listen (le16_at payload 0) s)
                  (listen-SameRx (le16_at payload 0) s));
        })

  disconnected-Keeps : (p : ℕ) (s : State) → Keeps Any s (Control.gb_control_disconnected p s)
  unfolding Control.gb_control_disconnected
  disconnected-Keeps p s =
      with_request-Keeps Any 2
        (λ payload t. Control.silenced (
          gb_stop_listening (le16_at payload 0)
            (gb_notify (le16_at payload 0) GbEvent.disconnected t).1))
        p s
        (λ payload.
          let c = le16_at payload 0 in
          let t = (gb_notify c GbEvent.disconnected s).1 in
          record {
            tidy = only_rx s (Control.silenced (gb_stop_listening c t)).1 (
                silenced-SameRx s (gb_stop_listening c t) (
                  SameRx-trans s t (gb_stop_listening c t).1
                    (notify-SameRx c GbEvent.disconnected s) (stop-SameRx c t)));
          })

  module _ ⦃c : Control.Control⦄ where
    copy-Keeps :
        (p : ℕ) (o : Option (List ℕ)) (s : State) → Keeps Any s (Control.copy_manifest p o s)
    copy-Keeps p none s = Keeps-refl Any OpResult.invalid s
    copy-Keeps p (some mh) s = put_bytes-Keeps Any OpResult.success p 0 _ s

    put_time-Keeps : (p : ℕ) (x : ℤ × ℕ) (s : State) → Keeps Any s (Control.put_time p x s)
    put_time-Keeps p (retval, frame_time) s =
        if-Keeps Any (is_zero retval) _ (gb_errno_to_op_result retval, s) s
          (λ fine. put_bytes-Keeps Any _ p 0 _ s) (λ failed. Keeps-refl Any _ s)

    enable-Keeps : (p : ℕ) (s : State) → Keeps Any s (Control.gb_control_timesync_enable p s)
    unfolding Control.gb_control_timesync_enable
    enable-Keeps p s =
        with_request-Keeps Any 17
          (λ payload t. (
            gb_errno_to_op_result (
                c.timesync_enable t.trace (byte payload 0) (le64_at payload 1) (le32_at payload 9)
                  (le32_at payload 13)),
            t,
          ))
          p s (λ payload. Keeps-refl Any _ s)

    authoritative-Keeps :
        (p : ℕ) (s : State) → Keeps Any s (Control.gb_control_timesync_authoritative p s)
    unfolding Control.gb_control_timesync_authoritative
    authoritative-Keeps p s =
        with_request-Keeps Any 32
          (λ payload t. (
            gb_errno_to_op_result (c.timesync_authoritative t.trace (Control.times_at payload 0 4)),
            t,
          ))
          p s (λ payload. Keeps-refl Any _ s)

    last_event-Keeps :
        (p : ℕ) (s : State) → Keeps Any s (Control.gb_control_timesync_get_last_event p s)
    unfolding Control.gb_control_timesync_get_last_event
    last_event-Keeps p s =
        with_response-Keeps Any (λ n. tt) p 8
          (λ t. Control.put_time p (c.timesync_get_last_event t.trace) t) s
          (λ t. put_time-Keeps p (c.timesync_get_last_event t.trace) t)

    manifest-Keeps : (p : ℕ) (s : State) → Keeps Any s (Control.gb_control_get_manifest p s)
    unfolding Control.gb_control_get_manifest
    manifest-Keeps p s =
        with_response-Keeps Any (λ n. tt) p Control.get_manifest_size
          (Control.copy_manifest p c.bridge_manifest) s (copy-Keeps p c.bridge_manifest)

    ok-Keeps : (bs : List ℕ) (p : ℕ) (s : State) → Keeps Any s (respond p bs s)
    ok-Keeps bs p s = respond-Keeps Any (λ n. tt) p bs s

    done-Keeps : (p : ℕ) (s : State) → Keeps Any s (Control.gb_control_disconnecting p s)
    unfolding Control.gb_control_disconnecting
    done-Keeps p s = Keeps-refl Any OpResult.success s

    disable-Keeps : (p : ℕ) (s : State) → Keeps Any s (Control.gb_control_timesync_disable p s)
    unfolding Control.gb_control_timesync_disable
    disable-Keeps p s = Keeps-refl Any _ s

    pub control-IsTidyTable : IsTidyTable Any Control.gb_control_handlers
    unfolding Control.gb_control_protocol_version Control.gb_control_get_manifest_size
        Control.gb_control_interface_version Control.gb_control_bundle_activate
        Control.gb_control_bundle_suspend Control.gb_control_bundle_resume
        Control.gb_control_bundle_deactivate Control.gb_control_intf_suspend_prepare
        Control.gb_control_intf_deactivate_prepare
    control-IsTidyTable =
        let ok = ok-Keeps (Control.bundle_pm_ok ∷ []) in
        (
          version_response-Keeps Any (λ n. tt) 0 1,
          (
            ok-Keeps (le_bytes 2 Control.get_manifest_size),
            (
              manifest-Keeps,
              (
                connected-Keeps,
                (
                  disconnected-Keeps,
                  (
                    ok-Keeps (le_bytes 2 0 ++ le_bytes 2 1),
                    (
                      done-Keeps,
                      (
                        ok,
                        (
                          ok,
                          (
                            ok,
                            (
                              ok,
                              (
                                ok,
                                (
                                  ok,
                                  (
                                    enable-Keeps,
                                    (disable-Keeps, (authoritative-Keeps, (last_event-Keeps, tt))),
                                  ),
                                ),
                              ),
                            ),
                          ),
                        ),
                      ),
                    ),
                  ),
                ),
              ),
            ),
          ),
        )
