-- ===== src/Protocols/Tidy.antt =====
-- What every handler of a protocol keeps to: it leaves the receiving sides alone, and what it does
-- to the outside is of one kind.
use greybus_for_zephyr.Base.{
  ℕ, ◌≡◌, refl, ◌∙◌, Bool, true, false, [], ◌∷◌, All, arith, inl, inr, Option-cases, Bool-cases,
  ◌+◌, ◌%◌, ◌==◌, if◌then◌else◌, List, length, ltb,
}
use greybus_for_zephyr.OpResult
use greybus_for_zephyr.Core.{State, World, Event, hdr_size, size_mod, log}
use greybus_for_zephyr.Core.Lifecycle.{gb_operation_alloc_response}
use greybus_for_zephyr.Core.Quiet.{SameRx}
use greybus_for_zephyr.Protocols.{
  Table, handle, put_byte, put_bytes, with_request, respond, payload_size, payload_of,
  on_response_buffer, with_response, version_response,
}

-- From one state to the next the receiving sides stay, and each new event satisfies `P`.
pub record IsTidy (P : Event → Type 0) (s s' : State) : Type 0 where
  pub same_rx : SameRx s s'
  pub adds : All P s.trace → All P s'.trace

-- A handler's result, tidy with respect to the state that it began in.
pub record Keeps (P : Event → Type 0) (s : State) (x : ℕ × State) : Type 0 where
  pub tidy : IsTidy P s x.1

module _ (P : Event → Type 0) where
  pub IsTidy-refl : (s : State) → IsTidy P s s
  IsTidy-refl s = record { same_rx = λ c. refl; adds = λ h. h }

  pub IsTidy-trans : (s t u : State) → IsTidy P s t → IsTidy P t u → IsTidy P s u
  IsTidy-trans s t u h k = record {
    same_rx = λ c. k.same_rx c ∙ h.same_rx c;
    adds = λ x. k.adds (h.adds x);
  }

  pub log-IsTidy : (e : Event) (s : State) → P e → IsTidy P s (log e s)
  log-IsTidy e s fine = record { same_rx = λ c. refl; adds = λ h. (fine, h) }

  pub put_byte-IsTidy : (p i b : ℕ) (s : State) → IsTidy P s (put_byte p i b s)
  unfolding put_byte
  put_byte-IsTidy p i b s = elim (Option-cases (s.ops p)) [
    | inl gone ↦ rw (gone, put_byte) (IsTidy-refl s)
    | inr (op, there) ↦ rw (there, put_byte) (record { same_rx = λ c. refl; adds = λ h. h })
  ]

  pub put_bytes-IsTidy : (p i : ℕ) (bs : List ℕ) (s : State) → IsTidy P s (put_bytes p i bs s)
  unfolding put_bytes
  put_bytes-IsTidy p i bs s = elim (Option-cases (s.ops p)) [
    | inl gone ↦ rw (gone, put_bytes) (IsTidy-refl s)
    | inr (op, there) ↦ rw (there, put_bytes) (record { same_rx = λ c. refl; adds = λ h. h })
  ]

  pub put-IsTidy : (s t : State) (p i b : ℕ) → IsTidy P s t → IsTidy P s (put_byte p i b t)
  put-IsTidy s t p i b h = IsTidy-trans s t (put_byte p i b t) h (put_byte-IsTidy p i b t)

  pub log-after : (s t : State) (e : Event) → P e → IsTidy P s t → IsTidy P s (log e t)
  log-after s t e fine h = IsTidy-trans s t (log e t) h (log-IsTidy e t fine)

  pub Keeps-refl : (code : ℕ) (s : State) → Keeps P s (code, s)
  Keeps-refl code s = record { tidy = IsTidy-refl s }

  pub if-Keeps :
      (b : Bool) (x y : ℕ × State) (s : State)
      → (b ≡ true → Keeps P s x)
      → (b ≡ false → Keeps P s y)
      → Keeps P s (if b then x else y)
  if-Keeps true x y s h k = h refl
  if-Keeps false x y s h k = k refl

  pub log-Keeps : (code : ℕ) (e : Event) (s : State) → P e → Keeps P s (code, log e s)
  log-Keeps code e s fine = record { tidy = log-IsTidy e s fine }

  -- One event, and then a byte of the response.
  pub log_put-Keeps :
      (code : ℕ) (e : Event) (p i b : ℕ) (s : State)
      → P e
      → Keeps P s (code, put_byte p i b (log e s))
  log_put-Keeps code e p i b s fine = record {
    tidy =
        IsTidy-trans s (log e s) (put_byte p i b (log e s)) (log-IsTidy e s fine)
          (put_byte-IsTidy p i b (log e s));
  }

  pub put_byte-Keeps : (code p i b : ℕ) (s : State) → Keeps P s (code, put_byte p i b s)
  put_byte-Keeps code p i b s = record { tidy = put_byte-IsTidy p i b s }

  pub put_bytes-Keeps :
      (code p i : ℕ) (bs : List ℕ) (s : State) → Keeps P s (code, put_bytes p i bs s)
  put_bytes-Keeps code p i bs s = record { tidy = put_bytes-IsTidy p i bs s }

  pub with_request-Keeps :
      (len : ℕ) (k : List ℕ → State → ℕ × State) (p : ℕ) (s : State)
      → ((payload : List ℕ) → Keeps P s (k payload s))
      → Keeps P s (with_request len k p s)
  unfolding with_request
  with_request-Keeps len k p s h =
      if-Keeps (ltb (payload_size p s) len) (OpResult.invalid, s) (k (payload_of p s) s) s
        (λ short. Keeps-refl OpResult.invalid s) (λ long. h (payload_of p s))

  module _ ⦃w : World⦄ (allocates : (n : ℕ) → P (Event.allocated n)) where
    pub alloc-IsTidy : (p n : ℕ) (s : State) → IsTidy P s (gb_operation_alloc_response p n s).1
    unfolding gb_operation_alloc_response
    alloc-IsTidy p n s = record {
      same_rx = λ c. ground arith;
      adds = λ h. elim (Option-cases (s.ops p)) [
        | inl gone ↦ rw (gone, gb_operation_alloc_response) h
        | inr (op, there) ↦ elim (Bool-cases (w.alloc_buf s.trace ((n + hdr_size) % size_mod))) [
          | inl room ↦ rw (there, gb_operation_alloc_response, room) (allocates _, h)
          | inr full ↦ rw (there, gb_operation_alloc_response, full) (allocates _, h)
        ]
      ];
    }

    on_response_buffer-Keeps :
        (s : State) (x : Bool × State) (k : State → ℕ × State)
        → IsTidy P s x.1
        → ((t : State) → Keeps P t (k t))
        → Keeps P s (on_response_buffer x k)
    on_response_buffer-Keeps s (false, t) k h g = record { tidy = h }
    on_response_buffer-Keeps s (true, t) k h g = record {
      tidy = IsTidy-trans s t (k t).1 h (g t).tidy;
    }

    pub with_response-Keeps :
        (p n : ℕ) (k : State → ℕ × State) (s : State)
        → ((t : State) → Keeps P t (k t))
        → Keeps P s (with_response p n k s)
    with_response-Keeps p n k s g =
        on_response_buffer-Keeps s (gb_operation_alloc_response p n s) k (alloc-IsTidy p n s) g

    pub respond-Keeps : (p : ℕ) (bs : List ℕ) (s : State) → Keeps P s (respond p bs s)
    respond-Keeps p bs s =
        with_response-Keeps p (length bs) (λ t. (OpResult.success, put_bytes p 0 bs t)) s
          (put_bytes-Keeps OpResult.success p 0 bs)

    pub version_response-Keeps :
        (major minor p : ℕ) (s : State) → Keeps P s (version_response major minor p s)
    unfolding version_response
    version_response-Keeps major minor p s =
        with_response-Keeps p 2 (λ t. (OpResult.success, put_byte p 1 minor (put_byte p 0 major t)))
          s
          (λ t. record {
            tidy =
                IsTidy-trans t (put_byte p 0 major t) _ (put_byte-IsTidy p 0 major t)
                  (put_byte-IsTidy p 1 minor (put_byte p 0 major t));
          })

  -- A table all of whose handlers are tidy.
  abbrev pub IsTidyTable : Table → Type 0
  IsTidyTable = All (λ entry. (p : ℕ) (s : State) → Keeps P s (entry.1 p s))

  pub handle-IsTidy :
      (table : Table) (type p : ℕ) (s : State)
      → IsTidyTable table
      → IsTidy P s (handle table type p s).1
  handle-IsTidy [] type p s tidy = IsTidy-refl s
  handle-IsTidy ((t, f) ∷ table) type p s tidy = elim (Bool-cases (type == t)) [
    | inl here ↦ rw here ((tidy.0 p s).tidy)
    | inr there ↦ rw there (handle-IsTidy table type p s tidy.1)
  ]

-- An invariant that each handler of a table keeps, the table keeps.
pub handle_keeps :
    (I : State → Type 0) (table : Table) (type p : ℕ) (s : State)
    → All (λ entry. (q : ℕ) (t : State) → I t → I (entry.1 q t).1) table
    → I s
    → I (handle table type p s).1
handle_keeps I [] type p s keeps i = i
handle_keeps I ((t, f) ∷ table) type p s keeps i = elim (Bool-cases (type == t)) [
  | inl here ↦ rw here (keeps.0 p s i)
  | inr there ↦ rw there (handle_keeps I table type p s keeps.1 i)
]

pub alloc-bundles :
    ⦃w : World⦄ → (p n : ℕ) (s : State) → (gb_operation_alloc_response p n s).1.bundles ≡ s.bundles
unfolding gb_operation_alloc_response
alloc-bundles p n s = ground arith

pub put_byte-bundles : (p i b : ℕ) (s : State) → (put_byte p i b s).bundles ≡ s.bundles
unfolding put_byte
put_byte-bundles p i b s = ground arith
