-- ===== src/Protocols/Pwm/Generators.antt =====
-- Which generators the handlers of subsys/greybus/pwm-protocol.c touch.
use greybus_for_zephyr.Base.{
  ℕ, ◌<◌, ◌≤◌, ◌≡◌, refl, sym, ap, ◌∙◌, Bool, true, false, not, ◌||◌, Option, none, some, List, All,
  arith, inl, inr, Bool-cases, leb, ltb, leb→lt, is_zero, ◌==◌,
}
use greybus_for_zephyr.OpResult
use greybus_for_zephyr.Core.{Operation, PwmInfo, Bundle, State, World, DeviceCall, Event}
use greybus_for_zephyr.Core.Lifecycle.{gb_operation_alloc_response}
use greybus_for_zephyr.Protocols.{
  payload_size, handle, byte, call_device, put_byte, on_response_buffer, version_response,
}
use greybus_for_zephyr.Protocols.Tidy.{
  put_byte-IsTidy, alloc-IsTidy, handle_keeps, alloc-bundles, put_byte-bundles,
}
use greybus_for_zephyr.Protocols.Pwm

-- A call is for a generator below `count`, if it is for a generator.
abbrev pub IsBelow : ℕ → DeviceCall → Type 0
IsBelow count (DeviceCall.pwm_activate which) = which < count
IsBelow count (DeviceCall.pwm_deactivate which) = which < count
IsBelow count (DeviceCall.pwm_enable which) = which < count
IsBelow count (DeviceCall.pwm_disable which) = which < count
IsBelow count (DeviceCall.pwm_config which duty period) = which < count
IsBelow count (DeviceCall.pwm_set_polarity which polarity) = which < count
IsBelow count call = Unit

info_lem :
    (b₀ b dev : ℕ) (bundle₀ bundle : Bundle) (op₀ op : Operation) (info : PwmInfo)
    (o : Option PwmInfo) (d : Option ℕ)
    → Pwm.info_of b₀ bundle₀ op₀ o d ≡ Pwm.PwmLookup.found b dev bundle info op
    → (b₀ ≡ b) × (bundle₀ ≡ bundle) × (o ≡ some info) × (d ≡ some dev)
info_lem b₀ b dev bundle₀ bundle op₀ op info none d h = cc
info_lem b₀ b dev bundle₀ bundle op₀ op info (some x) none h = cc
info_lem b₀ b dev bundle₀ bundle op₀ op info (some x) (some y) h = (cc, cc, cc, cc)

-- What a lookup that finds a bundle says of it.
record IsFound (s : State) (b dev : ℕ) (bundle : Bundle) (info : PwmInfo) : Type 0 where
  at : s.bundles b ≡ some bundle
  has_info : bundle.priv ≡ some info
  has_device : bundle.devices 0 ≡ some dev

bundle_lem :
    (s : State) (b₀ b dev : ℕ) (op₀ op : Operation) (bundle : Bundle) (info : PwmInfo)
    (o : Option Bundle)
    → s.bundles b₀ ≡ o
    → Pwm.bundle_of b₀ op₀ o ≡ Pwm.PwmLookup.found b dev bundle info op
    → IsFound s b dev bundle info
bundle_lem s b₀ b dev op₀ op bundle info none e h = cc
bundle_lem s b₀ b dev op₀ op bundle info (some x) e h =
    let (same_b, same, has, slot) = info_lem b₀ b dev x bundle op₀ op info x.priv (x.devices 0) h in
    record {
      at = ap s.bundles (sym same_b) ∙ e ∙ ap some same;
      has_info = ap (λ y. y.priv) (sym same) ∙ has;
      has_device = ap (λ y. y.devices 0) (sym same) ∙ slot;
    }

op_lem :
    (s : State) (b dev : ℕ) (op : Operation) (bundle : Bundle) (info : PwmInfo)
    (o : Option Operation)
    → Pwm.pwm_op o s ≡ Pwm.PwmLookup.found b dev bundle info op
    → IsFound s b dev bundle info
op_lem s b dev op bundle info none h = cc
op_lem s b dev op bundle info (some x) h = go x.bundle h
  where
    go :
        (o : Option ℕ)
        → Pwm.op_bundle x o s ≡ Pwm.PwmLookup.found b dev bundle info op
        → IsFound s b dev bundle info
    go none k = cc
    go (some b₀) k = bundle_lem s b₀ b dev x op bundle info (s.bundles b₀) refl k

module _ ⦃g : Pwm.Pwm⦄ where
  -- An event that calls the PWM driver for a generator does so for one of the device's.
  abbrev pub HasGenerator : Event → Type 0
  HasGenerator (Event.called dev call) = IsBelow (g.count dev) call
  HasGenerator event = Unit

  -- The number of generators that a bundle's info has is not above the device's, and every call so
  -- far was for a generator of the device.
  pub record IsSound (s : State) : Type 0 where
    pub counted :
        (b dev : ℕ) (bundle : Bundle) (info : PwmInfo)
        → s.bundles b ≡ some bundle
        → bundle.priv ≡ some info
        → bundle.devices 0 ≡ some dev
        → info.num_pwms ≤ g.count dev
    pub calls : All HasGenerator s.trace

  same_bundles :
      (s t : State) → t.bundles ≡ s.bundles → All HasGenerator t.trace → IsSound s → IsSound t
  same_bundles s t same calls i = record {
    counted = λ b dev bundle info at. i.counted b dev bundle info (ap (λ f. f b) (sym same) ∙ at);
    calls = calls;
  }

  call-IsSound :
      (dev : ℕ) (call : DeviceCall) (s : State)
      → IsBelow (g.count dev) call
      → IsSound s
      → IsSound (call_device dev call s)
  call-IsSound dev call s below i = same_bundles s (call_device dev call s) refl (below, i.calls) i

  put_byte-IsSound : (p n b : ℕ) (s : State) → IsSound s → IsSound (put_byte p n b s)
  put_byte-IsSound p n b s i =
      same_bundles s (put_byte p n b s) (put_byte-bundles p n b s)
        ((put_byte-IsTidy HasGenerator p n b s).adds i.calls) i

  on_generator-IsSound :
      (x : Pwm.PwmLookup) (call : ℕ → List ℕ → DeviceCall) (s : State)
      → ((b dev : ℕ) (bundle : Bundle) (info : PwmInfo) (op : Operation)
          → x ≡ Pwm.PwmLookup.found b dev bundle info op
          → IsFound s b dev bundle info)
      → ((which count : ℕ) (payload : List ℕ) → which < count → IsBelow count (call which payload))
      → IsSound s
      → IsSound (Pwm.on_generator x call s).1
  on_generator-IsSound Pwm.PwmLookup.dangling call s found below i = i
  on_generator-IsSound Pwm.PwmLookup.missing call s found below i = i
  on_generator-IsSound (Pwm.PwmLookup.found b dev bundle info op) call s found below i =
      let here = found b dev bundle info op refl in
      let which = byte op.request_buffer.payload 0 in
      elim (Bool-cases (leb info.num_pwms which)) [
        | inl beyond ↦ rw beyond i
        | inr inside ↦ rw inside (
            call-IsSound dev (call which op.request_buffer.payload) s
              (below which (g.count dev) op.request_buffer.payload (
                omega (
                  arith,
                  leb→lt _ _ inside,
                  i.counted b dev bundle info here.at here.has_info here.has_device,
                )))
              i)
      ]

  with_generator-IsSound :
      (len : ℕ) (call : ℕ → List ℕ → DeviceCall) (p : ℕ) (s : State)
      → ((which count : ℕ) (payload : List ℕ) → which < count → IsBelow count (call which payload))
      → IsSound s
      → IsSound (Pwm.with_generator len call p s).1
  with_generator-IsSound len call p s below i = elim (Bool-cases (ltb (payload_size p s) len)) [
    | inl short ↦ rw short i
    | inr long ↦ rw long (
        on_generator-IsSound (Pwm.pwm_of p s) call s
          (λ b dev bundle info op. op_lem s b dev op bundle info (s.ops p)) below i)
  ]

  set_info-IsSound :
      (b dev : ℕ) (bundle : Bundle) (info : PwmInfo) (s : State)
      → bundle.devices 0 ≡ some dev
      → info.num_pwms ≤ g.count dev
      → IsSound s
      → IsSound (Pwm.set_bundle b (record bundle { priv = some info }) s)
  set_info-IsSound b dev bundle info s slot few i = record {
    counted = λ b' dev' bundle' info' at has slot'. elim (Bool-cases (b == b')) [
      | inl here ↦
          let same : record bundle { priv = some info } ≡ bundle' = cc (rw here at at) in
          let same_info : info ≡ info' =
            let both : some info ≡ some info' = ap (λ x. x.priv) same ∙ has in cc in
          let same_dev : dev ≡ dev' =
            let both : some dev ≡ some dev' = sym slot ∙ ap (λ x. x.devices 0) same ∙ slot' in cc in
          rw (← same_info, ← same_dev) few
      | inr there ↦ i.counted b' dev' bundle' info' (rw there at at) has slot'
    ];
    calls = i.calls;
  }

  module _ ⦃w : World⦄ where
    store_count-IsSound :
        (p b dev : ℕ) (bundle : Bundle) (info : PwmInfo) (s : State)
        → bundle.devices 0 ≡ some dev
        → IsSound s
        → IsSound (Pwm.store_count p b dev bundle info s).1
    store_count-IsSound p b dev bundle info s slot i =
        let s₁ = call_device dev DeviceCall.pwm_get_count s in
        let i₁ = call-IsSound dev DeviceCall.pwm_get_count s tt i in
        let info' : PwmInfo = record info { num_pwms = g.count dev } in
        elim (Bool-cases (not (is_zero (g.ret s.trace dev DeviceCall.pwm_get_count)))) [
          | inl failed ↦ rw failed i₁
          | inr fine ↦ elim (Bool-cases ((g.count dev == 0) || ltb 256 (g.count dev))) [
            | inl odd ↦ rw (fine, odd) i₁
            | inr usual ↦
                rw (fine, usual)
                  (put_byte-IsSound p 0 _ _
                    (set_info-IsSound b dev bundle info' s₁ slot (omega arith) i₁))
          ]
        ]

    response-IsSound :
        (x : Bool × State) (k : State → ℕ × State)
        → IsSound x.1
        → ((t : State) → IsSound t → IsSound (k t).1)
        → IsSound (on_response_buffer x k).1
    response-IsSound (false, s) k i keeps = i
    response-IsSound (true, s) k i keeps = keeps s i

    alloc-IsSound :
        (p n : ℕ) (s : State) → IsSound s → IsSound (gb_operation_alloc_response p n s).1
    alloc-IsSound p n s i =
        same_bundles s (gb_operation_alloc_response p n s).1 (alloc-bundles p n s)
          ((alloc-IsTidy HasGenerator (λ m. tt) p n s).adds i.calls) i

    version-IsSound : (p : ℕ) (s : State) → IsSound s → IsSound (Pwm.gb_pwm_protocol_version p s).1
    unfolding Pwm.gb_pwm_protocol_version version_response
    version-IsSound p s i =
        response-IsSound (gb_operation_alloc_response p 2 s)
          (λ t. (OpResult.success, put_byte p 1 1 (put_byte p 0 0 t))) (alloc-IsSound p 2 s i)
          (λ t j. put_byte-IsSound p 1 1 (put_byte p 0 0 t) (put_byte-IsSound p 0 0 t j))

    count_for-IsSound :
        (x : Pwm.PwmLookup) (p : ℕ) (s : State)
        → ((b dev : ℕ) (bundle : Bundle) (info : PwmInfo) (op : Operation)
            → x ≡ Pwm.PwmLookup.found b dev bundle info op
            → IsFound s b dev bundle info)
        → IsSound s
        → IsSound (Pwm.count_for x p s).1
    count_for-IsSound Pwm.PwmLookup.dangling p s found i = i
    count_for-IsSound Pwm.PwmLookup.missing p s found i = i
    count_for-IsSound (Pwm.PwmLookup.found b dev bundle info op) p s found i =
        response-IsSound (gb_operation_alloc_response p 1 s) (Pwm.store_count p b dev bundle info)
          (alloc-IsSound p 1 s i)
          (λ t.
            store_count-IsSound p b dev bundle info t (found b dev bundle info op refl).has_device)

    count-IsSound : (p : ℕ) (s : State) → IsSound s → IsSound (Pwm.gb_pwm_protocol_count p s).1
    unfolding Pwm.gb_pwm_protocol_count
    count-IsSound p s =
        count_for-IsSound (Pwm.pwm_of p s) p s
          (λ b dev bundle info op. op_lem s b dev op bundle info (s.ops p))

    activate-IsSound :
        (p : ℕ) (s : State) → IsSound s → IsSound (Pwm.gb_pwm_protocol_activate p s).1
    unfolding Pwm.gb_pwm_protocol_activate
    activate-IsSound p s = with_generator-IsSound 1 _ p s (λ which count payload h. h)

    deactivate-IsSound :
        (p : ℕ) (s : State) → IsSound s → IsSound (Pwm.gb_pwm_protocol_deactivate p s).1
    unfolding Pwm.gb_pwm_protocol_deactivate
    deactivate-IsSound p s = with_generator-IsSound 1 _ p s (λ which count payload h. h)

    config-IsSound : (p : ℕ) (s : State) → IsSound s → IsSound (Pwm.gb_pwm_protocol_config p s).1
    unfolding Pwm.gb_pwm_protocol_config
    config-IsSound p s = with_generator-IsSound 9 _ p s (λ which count payload h. h)

    polarity-IsSound :
        (p : ℕ) (s : State) → IsSound s → IsSound (Pwm.gb_pwm_protocol_polarity p s).1
    unfolding Pwm.gb_pwm_protocol_polarity
    polarity-IsSound p s = with_generator-IsSound 2 _ p s (λ which count payload h. h)

    enable-IsSound : (p : ℕ) (s : State) → IsSound s → IsSound (Pwm.gb_pwm_protocol_enable p s).1
    unfolding Pwm.gb_pwm_protocol_enable
    enable-IsSound p s = with_generator-IsSound 1 _ p s (λ which count payload h. h)

    disable-IsSound : (p : ℕ) (s : State) → IsSound s → IsSound (Pwm.gb_pwm_protocol_disable p s).1
    unfolding Pwm.gb_pwm_protocol_disable
    disable-IsSound p s = with_generator-IsSound 1 _ p s (λ which count payload h. h)

    -- Whatever the request, a PWM handler keeps this: the number of generators that it knows of is
    -- not above the device's, and the driver is called only for generators that the device has.
    pub pwm_generators_exist :
        (type p : ℕ) (s : State) → IsSound s → IsSound (handle Pwm.gb_pwm_handlers type p s).1
    pwm_generators_exist type p s = handle_keeps IsSound Pwm.gb_pwm_handlers type p s (
      version-IsSound,
      (
        count-IsSound,
        (
          activate-IsSound,
          (
            deactivate-IsSound,
            (config-IsSound, (polarity-IsSound, (enable-IsSound, (disable-IsSound, tt)))),
          ),
        ),
      ),
    )
