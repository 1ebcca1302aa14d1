-- ===== src/Protocols/Control/Listening.antt =====
-- Whether the backend listens to a cport, as the control protocol's requests have it
-- (subsys/greybus/control-gpb.c).
use greybus_for_zephyr.Base.{
  ℕ, zero, suc, ◌<◌, ◌≡◌, ◌≢◌, refl, sym, ◌∙◌, Bool, true, false, not, ◌&&◌, ◌||◌, Option, none,
  some, List, [], ◌∷◌, ◌==◌, if◌then◌else◌, pos, neg, Option-cases, is_zero, ltb, leb, arith,
  Bool-cases, inl, inr, ==-self,
}
use greybus_for_zephyr.Errno.{Errno, IsPositive}
use greybus_for_zephyr.OpResult
use greybus_for_zephyr.Core.{State, World, Event, log}
use greybus_for_zephyr.Core.Receive.{driver_of}
use greybus_for_zephyr.Core.Register.{
  GbEvent, call, is_set, gb_listen, stop_listening, gb_stop_listening, gb_notify,
}
use greybus_for_zephyr.Protocols.{le16_at, payload_of, payload_size}
use greybus_for_zephyr.Protocols.Control

module _ ⦃w : World⦄ where
  -- Whether the backend listens to a cport after what a trace tells: a call that it refuses changes
  -- nothing.
  abbrev pub listens : ℕ → List Event → Bool
  listens c [] = false
  listens c (Event.listened d ∷ t) =
      if d == c then is_zero (w.listen t c) || listens c t else listens c t
  listens c (Event.stopped d ∷ t) =
      if d == c then not (is_zero (w.stop_listening t c)) && listens c t else listens c t
  listens c (e ∷ t) = listens c t

  module _ ⦃e : Errno⦄ where
    call-listens :
        (c : ℕ) (f : Option ℕ) (event : ℕ → Event) (s : State)
        → ((n : ℕ) (t : List Event) → listens c (event n ∷ t) ≡ listens c t)
        → listens c (call f event s).trace ≡ listens c s.trace
    call-listens c none event s silent = refl
    call-listens c (some f) event s silent = silent f s.trace

    -- gb_notify of GB_EVT_CONNECTED tells the backend nothing.
    notify-listens :
        (c : ℕ) (s : State)
        → listens c (gb_notify c GbEvent.connected s).1.trace ≡ listens c s.trace
    unfolding gb_notify
    notify-listens c s = elim (Bool-cases (leb s.cport_count c)) [
      | inl out ↦ rw (gb_notify, out) refl
      | inr inside ↦ elim (Option-cases (driver_of c s)) [
        | inl free ↦ rw (gb_notify, inside, free) refl
        | inr (driver, set) ↦
            rw (gb_notify, inside, set) (call-listens c driver.connected _ s (λ n t. refl))
      ]
    ]

    -- A cport in use: it is in range and has a driver.
    abbrev IsUsed : ℕ → State → Type 0
    IsUsed c s = (leb s.cport_count c ≡ false) × (is_set (s.cports c).driver ≡ true)

    listen_used :
        (c : ℕ) (s : State)
        → IsUsed c s
        → gb_listen c s ≡ (w.listen s.trace c, log (Event.listened c) s)
    unfolding gb_listen
    listen_used c s (inside, set) = rw (gb_listen, inside, set) refl

    listen_unused :
        (c : ℕ) (s : State)
        → (leb s.cport_count c || not (is_set (s.cports c).driver)) ≡ true
        → gb_listen c s ≡ (neg e.einval, s)
    unfolding gb_listen
    listen_unused c s h = ground arith

    -- A cport in use has a driver to notify.
    notify_used : (c : ℕ) (s : State) → IsUsed c s → (gb_notify c GbEvent.connected s).0 ≡ pos 0
    unfolding gb_notify
    notify_used c s (inside, set) = elim (Option-cases (s.cports c).driver) [
      | inl free ↦ absurd (cc (free, set))
      | inr (d, there) ↦ rw (gb_notify, inside, there) refl
    ]

    used_agrees :
        (c : ℕ) (s : State)
        → IsUsed c s
        → listens c s.trace ≡ false
        → let (code, s') = Control.listening c (w.listen s.trace c, log (Event.listened c) s) in
          (code == OpResult.success) ≡ listens c s'.trace
    used_agrees c s used silent =
        let s₁ = log (Event.listened c) s in
        elim (Bool-cases (is_zero (w.listen s.trace c))) [
          | inl accepts ↦
              rw (accepts, notify_used c s₁ used)
                (sym (notify-listens c s₁ ∙ rw (==-self c, accepts) refl))
          | inr refuses ↦ rw (refuses, ==-self c, refuses, silent) refl
        ]

    refuse_lem : (n : ℕ) → 0 < n → is_zero (neg n) ≡ false
    refuse_lem zero h = absurd (omega arith)
    refuse_lem (suc n) h = refl

    unused_agrees :
        (c : ℕ) (s : State)
        → IsPositive e
        → (leb s.cport_count c || not (is_set (s.cports c).driver)) ≡ true
        → listens c s.trace ≡ false
        → let (code, s') = Control.listening c (gb_listen c s) in
          (code == OpResult.success) ≡ listens c s'.trace
    unused_agrees c s errors unused silent =
        rw (listen_unused c s unused, refuse_lem e.einval errors.einval_pos, silent) refl

    connect_agrees :
        (c : ℕ) (s : State)
        → IsPositive e
        → listens c s.trace ≡ false
        → let (code, s') = Control.listening c (gb_listen c s) in
          (code == OpResult.success) ≡ listens c s'.trace
    connect_agrees c s errors silent = elim (Bool-cases (leb s.cport_count c)) [
      | inl out ↦ unused_agrees c s errors (rw out refl) silent
      | inr inside ↦ elim (Bool-cases (is_set (s.cports c).driver)) [
        | inl set ↦ rw (listen_used c s (inside, set)) (used_agrees c s (inside, set) silent)
        | inr free ↦ unused_agrees c s errors (rw (inside, free) refl) silent
      ]
    ]

    stop_refused :
        (c : ℕ) (s : State)
        → IsPositive e
        → (leb s.cport_count c || not (is_set (s.cports c).driver)) ≡ true
        → (Control.silenced (gb_stop_listening c s)).0 ≢ OpResult.success
    unfolding gb_stop_listening
    stop_refused c s errors unused =
        let refused : gb_stop_listening c s ≡ (neg e.einval, s) = ground arith in
        rw (refused, refuse_lem e.einval errors.einval_pos) (λ h. omega (arith, h))

    stop_silences :
        (c : ℕ) (s : State)
        → IsPositive e
        → (Control.silenced (gb_stop_listening c s)).0 ≡ OpResult.success
        → listens c (Control.silenced (gb_stop_listening c s)).1.trace ≡ false
    unfolding gb_stop_listening stop_listening
    stop_silences c s errors ok = elim (Bool-cases (leb s.cport_count c)) [
      | inl out ↦ absurd (stop_refused c s errors (rw out refl) ok)
      | inr inside ↦ elim (Bool-cases (is_set (s.cports c).driver)) [
        | inr free ↦ absurd (stop_refused c s errors (rw (inside, free) refl) ok)
        | inl set ↦ elim (Bool-cases (is_zero (w.stop_listening s.trace c))) [
          | inl stops ↦
              rw (gb_stop_listening, inside, set, stop_listening, stops, ==-self c, stops) refl
          | inr goes_on ↦
              absurd (cc (rw (gb_stop_listening, inside, set, stop_listening, goes_on) at ok))
        ]
      ]
    ]

    -- The answer to a connected request is GB_OP_SUCCESS exactly when the backend listens to the
    -- cport behind it, if it did not before.
    pub connected_tells :
        (p : ℕ) (s : State)
        → IsPositive e
        → let cport = le16_at (payload_of p s) 0 in
          listens cport s.trace ≡ false
          → let (code, s') = Control.gb_control_connected p s in
            (code == OpResult.success) ≡ listens cport s'.trace
    unfolding Control.gb_control_connected Control.with_request
    connected_tells p s errors silent = elim (Bool-cases (ltb (payload_size p s) 2)) [
      | inl short ↦ rw (Control.gb_control_connected, short, silent) refl
      | inr long ↦
          rw (Control.gb_control_connected, long)
            (connect_agrees (le16_at (payload_of p s) 0) s errors silent)
    ]

    -- Behind a disconnected request that was answered with GB_OP_SUCCESS the backend does not
    -- listen to the cport.
    pub disconnected_silences :
        (p : ℕ) (s : State)
        → IsPositive e
        → (Control.gb_control_disconnected p s).0 ≡ OpResult.success
        → listens (le16_at (payload_of p s) 0) (Control.gb_control_disconnected p s).1.trace ≡ false
    unfolding Control.gb_control_disconnected Control.with_request
    disconnected_silences p s errors ok = elim (Bool-cases (ltb (payload_size p s) 2)) [
      | inl short ↦ absurd (cc (rw (Control.gb_control_disconnected, short) at ok))
      | inr long ↦
          rw (Control.gb_control_disconnected, long)
            (stop_silences (le16_at (payload_of p s) 0)
              (gb_notify (le16_at (payload_of p s) 0) GbEvent.disconnected s).1 errors
              (rw (Control.gb_control_disconnected, long) at ok))
    ]
