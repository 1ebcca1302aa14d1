-- ===== src/Core/Register/Tables.antt =====
-- What _gb_register_driver leaves of the driver's table of handlers.
use greybus_for_zephyr.Base.{
  ℕ, ◌≡◌, sym, ap, ◌∙◌, true, some, List, ℤ, pos, neg-ne-pos, is_zero, length, arith, Bool-cases,
  Option-cases, inl, inr, ==-self,
}
use greybus_for_zephyr.Errno.{Errno, IsPositive}
use greybus_for_zephyr.Handlers.{Handler, Driver}
use greybus_for_zephyr.Handlers.Sort.{Qsort}
use greybus_for_zephyr.Handlers.Search.{IsTable}
use greybus_for_zephyr.Core.{State, World}
use greybus_for_zephyr.Core.Register.{
  get_bundle, init_driver, set_driver, sort_handlers, start_worker, register_checked,
  gb_register_driver,
}

is_zero-pos-0 : (x : ℤ) → x ≡ pos 0 → is_zero x ≡ true
is_zero-pos-0 x h = rw h

module _ ⦃e : Errno⦄ ⦃w : World⦄ where
  start_worker_lem :
      (q : Qsort) (c d : ℕ) (driver : Driver) (s s' : State)
      → start_worker q c d driver s ≡ (pos 0, s')
      → (s'.drivers ≡ s.drivers) × ((s'.cports c).driver ≡ some d)
  unfolding start_worker
  start_worker_lem q c d driver s s' h = elim (Bool-cases (is_zero (w.pthread_create s.trace c))) [
    | inl fine ↦
        let same = ap (λ x. x.1) (rw fine at h) in
        (ap (λ t. t.drivers) (sym same), ap (λ t. (t.cports c).driver) (sym same) ∙ rw (==-self c))
    | inr failed ↦
        let zero_code =
          is_zero-pos-0 (w.pthread_create s.trace c) (ap (λ x. x.0) (rw failed at h)) in
        cc
  ]

  get_bundle_lem : (b : ℕ) (s s₁ : State) → get_bundle b s ≡ some s₁ → s₁.drivers ≡ s.drivers
  unfolding get_bundle
  get_bundle_lem b s s₁ h = ground arith

  init_driver_lem :
      (c : ℕ) (driver : Driver) (s : State) → (init_driver c driver s).1.drivers ≡ s.drivers
  unfolding init_driver
  init_driver_lem c driver s = ground arith

  checked_lem :
      IsPositive e
      → (q : Qsort) (c b d : ℕ) (s s' : State) (table : List Handler)
      → (s.drivers d).op_handlers ≡ some table
      → (s.drivers d).op_handlers_count ≡ length table
      → register_checked q c b d s ≡ (pos 0, s')
      → IsTable (s'.drivers d) (q.qsort table) × ((s'.cports c).driver ≡ some d)
  unfolding register_checked
  checked_lem p q c b d s s' table t n h = elim (Option-cases (get_bundle b s)) [
    | inl full ↦
        absurd
          (neg-ne-pos e.enomem 0 p.enomem_pos (ap (λ x. x.0) (rw (full, register_checked) at h)))
    | inr (s₁, got) ↦
        let driver = record (s₁.drivers d) { bundle = some b } in
        let has_table : (s₁.drivers d).op_handlers ≡ some table =
          ap (λ f. (f d).op_handlers) (get_bundle_lem b s s₁ got) ∙ t in
        let has_count : (s₁.drivers d).op_handlers_count ≡ length table =
          ap (λ f. (f d).op_handlers_count) (get_bundle_lem b s s₁ got) ∙ n in
        elim (Bool-cases (is_zero (init_driver c driver (set_driver d driver s₁)).0)) [
          | inl fine ↦
              let (drivers, entered) =
                start_worker_lem q c d driver
                  (set_driver d (sort_handlers q driver)
                    (init_driver c driver (set_driver d driver s₁)).1)
                  s' (rw (got, register_checked, fine) at h) in
              (
                record {
                  handlers = ap (λ f. (f d).op_handlers) drivers ∙ rw (==-self d, has_table);
                  count =
                      ap (λ f. (f d).op_handlers_count) drivers
                      ∙ rw (==-self d) (has_count ∙ sym (q.same_length table));
                  in_order = q.sorted table;
                },
                entered,
              )
          | inr failed ↦
              let zero_code =
                is_zero-pos-0 (init_driver c driver (set_driver d driver s₁)).0
                  (ap (λ x. x.0) (rw (got, register_checked, failed) at h)) in
              absurd (cc)
        ]
  ]

  -- A registration that succeeds, of a driver whose count is the length of its table, leaves the driver's table in order, of the length that its count
  -- says, as find_operation_handler wants it, and enters the driver at its cport.
  pub register_sorts :
      IsPositive e
      → (q : Qsort) (c b d : ℕ) (s s' : State) (table : List Handler)
      → (s.drivers d).op_handlers ≡ some table
      → (s.drivers d).op_handlers_count ≡ length table
      → gb_register_driver q c b (some d) s ≡ (pos 0, s')
      → IsTable (s'.drivers d) (q.qsort table) × ((s'.cports c).driver ≡ some d)
  unfolding gb_register_driver
  register_sorts p q c b d s s' table t n h =
      checked_lem p q c b d s s' table t n
        (ground (arith, neg-ne-pos e.einval 0 p.einval_pos, neg-ne-pos e.eexist 0 p.eexist_pos))
