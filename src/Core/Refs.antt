-- ===== src/Core/Refs.antt =====
-- Reference counts: what gb_operation_ref and gb_operation_unref do to the heap of operations.
use greybus_for_zephyr.Base.{
  ℕ, zero, suc, ◌+◌, ◌-◌, ◌%◌, ◌<◌, ◌≡◌, ◌≢◌, refl, sym, ap, ◌∙◌, Bool, true, false, Option, none,
  some, ◌==◌, if◌then◌else◌, arith, inl, inr, Bool-cases, ==-self, ne→==, ==→eq, ==→ne,
}
use greybus_for_zephyr.Core.{Event, Operation, State, update, set_op, log}
use greybus_for_zephyr.Core.Lifecycle.{
  atomic_mod, gb_operation_ref, drop_ref, on_response, unref_rounds, gb_operation_unref,
}

-- An operation that is on the heap with a count that is within the width of an atomic.
pub record IsLive (p : ℕ) (op : Operation) (s : State) : Type 0 where
  pub there : s.ops p ≡ some op
  pub held : 0 < op.ref_count
  pub no_wrap : op.ref_count < atomic_mod

pub ref_lem :
    (p : ℕ) (op : Operation) (s : State)
    → IsLive p op s
    → op.ref_count + 1 < atomic_mod
    → gb_operation_ref p s ≡ set_op p (record op { ref_count = op.ref_count + 1 }) s
unfolding gb_operation_ref
ref_lem p op s l room =
    rw (l.there, gb_operation_ref)
      (ap (λ n. set_op p (record op { ref_count = n }) s) (omega (arith, room)))

drop_ref-held :
    (p : ℕ) (op : Operation) (s : State)
    → IsLive p op s
    → 1 < op.ref_count
    → drop_ref p s ≡ (none, set_op p (record op { ref_count = op.ref_count - 1 }) s)
unfolding drop_ref
drop_ref-held p op s l h =
    let n : (op.ref_count + atomic_mod - 1) % atomic_mod ≡ op.ref_count - 1 =
      omega (arith, l.no_wrap) in
    rw (l.there, drop_ref, n, ne→== (op.ref_count - 1) 0 (omega arith))

drop_ref-last :
    (p : ℕ) (op : Operation) (s : State)
    → s.ops p ≡ some op
    → op.ref_count ≡ 1
    → drop_ref p s ≡ (op.response, log Event.freed (record s { ops = update s.ops p none }))
unfolding drop_ref
drop_ref-last p op s there h = rw (there, drop_ref, h)

-- The operation behind one reference less; it is freed behind the last.
abbrev pub lowered : Operation → Option Operation
lowered op = if op.ref_count == 1 then none else some (record op { ref_count = op.ref_count - 1 })

-- One round, whichever way it goes.
drop_ref_lem :
    (p : ℕ) (op : Operation) (s : State)
    → IsLive p op s
    → ((drop_ref p s).0 ≡ (if op.ref_count == 1 then op.response else none))
      × ((drop_ref p s).1.ops p ≡ lowered op)
      × ((r : ℕ) → r ≢ p → (drop_ref p s).1.ops r ≡ s.ops r)
      × ((drop_ref p s).1.cports ≡ s.cports)
drop_ref_lem p op s l = elim (Bool-cases (op.ref_count == 1)) [
  | inl last ↦
      rw (drop_ref-last p op s l.there (==→eq op.ref_count 1 last), last)
        (refl, rw (==-self p), λ r ne. ground arith, refl)
  | inr more ↦
      rw (drop_ref-held p op s l (omega (arith, l.held, ==→ne op.ref_count 1 more)), more)
        (refl, rw (==-self p), λ r ne. ground arith, refl)
]

unref_rounds_step :
    (fuel p : ℕ) (s : State)
    → unref_rounds (suc fuel) p s ≡ on_response (unref_rounds fuel) (drop_ref p s)
unfolding unref_rounds
unref_rounds_step fuel p s = refl

if_true {ℓ} : {A : Type ℓ} {b : Bool} (x y : A) → b ≡ true → (if b then x else y) ≡ x
if_true x y h = rw h

if_false {ℓ} : {A : Type ℓ} {b : Bool} (x y : A) → b ≡ false → (if b then x else y) ≡ y
if_false x y h = rw h

if_same {ℓ} : {A : Type ℓ} (b : Bool) (x y : A) → x ≡ y → (if b then x else y) ≡ y
if_same true x y h = h
if_same false x y h = refl

on_response-none :
    (f : ℕ → State → State) (x : Option ℕ × State) → x.0 ≡ none → on_response f x ≡ x.1
on_response-none f (none, s) e = refl
on_response-none f (some q, s) e = cc

on_response-some :
    (f : ℕ → State → State) (x : Option ℕ × State) (q : ℕ)
    → x.0 ≡ some q
    → on_response f x ≡ f q x.1
on_response-some f (none, s) q e = cc
on_response-some f (some r, s) q e = let r-eq-q : r ≡ q = cc in ap (λ t. f t s) r-eq-q

-- A round behind which there is nothing to do is the last.
unref_rounds_one :
    (fuel p : ℕ) (s : State)
    → 0 < fuel
    → (drop_ref p s).0 ≡ none
    → unref_rounds fuel p s ≡ (drop_ref p s).1
unref_rounds_one zero p s h e = absurd (omega arith)
unref_rounds_one (suc fuel) p s h e =
    unref_rounds_step fuel p s ∙ on_response-none (unref_rounds fuel) (drop_ref p s) e

-- A reference that is not the last: only the count changes.
pub unref_held :
    (p : ℕ) (op : Operation) (s : State)
    → IsLive p op s
    → 1 < op.ref_count
    → gb_operation_unref p s ≡ set_op p (record op { ref_count = op.ref_count - 1 }) s
unfolding gb_operation_unref
unref_held p op s l h = rw (unref_rounds_step s.next_op p s, drop_ref-held p op s l h)

-- gb_operation_unref of an operation with no response: it loses a reference, it is freed behind
-- the last one, and no other operation is touched.
pub unref_alone :
    (p : ℕ) (op : Operation) (s : State)
    → IsLive p op s
    → op.response ≡ none
    → ((gb_operation_unref p s).ops p ≡ lowered op)
      × ((r : ℕ) → r ≢ p → (gb_operation_unref p s).ops r ≡ s.ops r)
unfolding gb_operation_unref unref_rounds
unref_alone p op s l e =
    let (next, here, others, _) = drop_ref_lem p op s l in
    let stop : on_response (unref_rounds s.next_op) (drop_ref p s) ≡ (drop_ref p s).1 =
      on_response-none (unref_rounds s.next_op) (drop_ref p s) (ground arith) in
    rw stop (here, others)

-- Where a response is attached, which has none of its own, and both counts are above 0, the reference that the request holds on it is dropped exactly
-- when the request itself is freed; no third operation is touched.
pub unref_with_response :
    (p q : ℕ) (op resp : Operation) (s : State)
    → IsLive p op s
    → IsLive q resp s
    → q < s.next_op
    → q ≢ p
    → op.response ≡ some q
    → resp.response ≡ none
    → let s' = gb_operation_unref p s in
      (s'.ops p ≡ lowered op)
      × (s'.ops q ≡ (if op.ref_count == 1 then lowered resp else some resp))
      × ((r : ℕ) → r ≢ p → r ≢ q → s'.ops r ≡ s.ops r)
unfolding gb_operation_unref
unref_with_response p q op resp s l k below ne e none_behind =
    let (next, here, others, _) = drop_ref_lem p op s l in
    elim (Bool-cases (op.ref_count == 1)) [
      | inr more ↦
          let stop =
            on_response-none (unref_rounds s.next_op) (drop_ref p s) (next ∙ if_false _ _ more) in
          rw (unref_rounds_step s.next_op p s, stop)
            (here, others q ne ∙ k.there ∙ sym (if_false _ _ more), λ r rp rq. others r rp)
      | inl last ↦
          let s₁ = (drop_ref p s).1 in
          let (next', here', others', _) =
            drop_ref_lem q resp s₁
              (record { there = others q ne ∙ k.there; held = k.held; no_wrap = k.no_wrap }) in
          let go =
            on_response-some (unref_rounds s.next_op) (drop_ref p s) q
              (next ∙ if_true _ _ last ∙ e) in
          let stop =
            unref_rounds_one s.next_op q s₁ (omega (arith, below))
              (next' ∙ if_same (resp.ref_count == 1) _ _ none_behind) in
          rw (unref_rounds_step s.next_op p s, go, stop)
            (
              others' p (λ h. ne (sym h)) ∙ here,
              here' ∙ sym (if_true _ _ last),
              λ r rp rq. others' r rq ∙ others r rp,
            )
    ]
