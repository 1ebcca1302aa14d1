-- ===== src/Transport/Stream.antt =====
-- What read_data and write_data do, however the network splits the bytes
-- (subsys/greybus/platform/transport-tcpip-multiplex.c).
use greybus_for_zephyr.Base.{
  ℕ, zero, suc, ◌+◌, ◌-◌, ◌≤◌, ◌<◌, ◌≡◌, refl, ap, sym, ◌∙◌, List, [], ◌∷◌, ◌++◌, ℤ, pos, length,
  length-append, take, arith, lt→ltb, le→ltb,
}
use mathlib.Core.List.{append_assoc, append-nil}
use greybus_for_zephyr.Protocols.Answers.{length-take}
use greybus_for_zephyr.Transport.{Socket, Network, drop, called, read_loop, write_loop}

-- What the documentation of recv and send promises: of bytes that are there, or that are given, at
-- least one and at most all are taken.
pub record IsStream (n : Network) : Type 0 where
  pub recv_some :
      (call len available : ℕ)
      → 0 < len
      → 0 < available
      → (k : ℕ) × (n.recv call len available ≡ pos k) × (0 < k) × (k ≤ len) × (k ≤ available)
  pub send_some :
      (call len : ℕ) → 0 < len → (k : ℕ) × (n.send call len ≡ pos k) × (0 < k) × (k ≤ len)

pub take-drop : (k : ℕ) (xs : List ℕ) → take k xs ++ drop k xs ≡ xs
take-drop zero xs = refl
take-drop (suc k) [] = refl
take-drop (suc k) (x ∷ xs) = ap (λ t. x ∷ t) (take-drop k xs)

take-append : (k : ℕ) (xs ys : List ℕ) → k ≤ length xs → take k (xs ++ ys) ≡ take k xs
take-append zero xs ys h = refl
take-append (suc k) [] ys h = absurd (omega arith)
take-append (suc k) (x ∷ xs) ys h = ap (λ t. x ∷ t) (take-append k xs ys (omega arith))

drop-append : (k : ℕ) (xs ys : List ℕ) → k ≤ length xs → drop k (xs ++ ys) ≡ drop k xs ++ ys
drop-append zero xs ys h = refl
drop-append (suc k) [] ys h = absurd (omega arith)
drop-append (suc k) (x ∷ xs) ys h = drop-append k xs ys (omega arith)

taken_whole :
    (k : ℕ) (xs rest incoming : List ℕ)
    → incoming ≡ xs ++ rest
    → k ≤ length xs
    → take k incoming ++ drop k xs ≡ xs
taken_whole k xs rest incoming there within =
    ap (λ t. take k t ++ drop k xs) there
    ∙ ap (λ t. t ++ drop k xs) (take-append k xs rest within)
    ∙ take-drop k xs

length-drop : (k : ℕ) (xs : List ℕ) → k ≤ length xs → length (drop k xs) + k ≡ length xs
length-drop zero xs h = omega arith
length-drop (suc k) [] h = absurd (omega arith)
length-drop (suc k) (x ∷ xs) h = omega (arith, length-drop k xs (omega arith))

module _ ⦃n : Network⦄ (stream : IsStream n) where
  -- Bytes that are there are read, and no others.
  abbrev pub Reads : ℤ × List ℕ × Socket → ℕ → List ℕ → List ℕ → Type 0
  Reads x len bytes rest = (s' : Socket) × (x ≡ (pos len, bytes, s')) × (s'.incoming ≡ rest)

  read_step :
      (fuel len : ℕ) (before : List ℕ) (k : ℕ) (s : Socket)
      → length before < len
      → n.recv s.calls (len - length before) (length s.incoming) ≡ pos k
      → 0 < k
      → read_loop (suc fuel) len before s
        ≡ read_loop fuel len
            (before ++ take k s.incoming)
            (record (called s) { incoming = drop k s.incoming })
  unfolding read_loop
  read_step fuel len before zero s more ret positive = absurd (omega arith)
  read_step fuel len before (suc k) s more ret positive =
      rw (read_loop, lt→ltb (length before) len more, ret) refl

  read_more :
      (fuel len : ℕ) (before xs rest : List ℕ) (k : ℕ) (s s' : Socket)
      → length before < len
      → n.recv s.calls (len - length before) (length s.incoming) ≡ pos k
      → 0 < k
      → k ≤ length xs
      → s.incoming ≡ xs ++ rest
      → read_loop fuel len
          (before ++ take k s.incoming)
          (record (called s) { incoming = drop k s.incoming })
        ≡ (pos len, (before ++ take k s.incoming) ++ drop k xs, s')
      → read_loop (suc fuel) len before s ≡ (pos len, before ++ xs, s')
  read_more fuel len before xs rest k s s' more ret positive within there runs =
      read_step fuel len before k s more ret positive
      ∙ runs
      ∙ ap (λ t. (pos len, t, s')) (append_assoc before (take k s.incoming) (drop k xs))
      ∙ ap (λ t. (pos len, before ++ t, s')) (taken_whole k xs rest s.incoming there within)

  pub read_loop_lem :
      (fuel len : ℕ) (before xs rest : List ℕ) (s : Socket)
      → length xs ≤ fuel
      → length before + length xs ≡ len
      → s.incoming ≡ xs ++ rest
      → Reads (read_loop fuel len before s) len (before ++ xs) rest
  unfolding read_loop
  read_loop_lem zero len before [] rest s room total there = (
    s,
    rw (read_loop, append-nil before) (ap (λ k. (pos k, before, s)) (omega (arith, total))),
    there,
  )
  read_loop_lem zero len before (x ∷ xs) rest s room total there = absurd (omega arith)
  read_loop_lem (suc fuel) len before [] rest s room total there =
      let done = le→ltb (length before) len (omega (arith, total)) in
      (
        s,
        rw (read_loop, done, append-nil before)
            (ap (λ k. (pos k, before, s)) (omega (arith, total))),
        there,
      )
  read_loop_lem (suc fuel) len before (x ∷ xs) rest s room total there =
      let available : length s.incoming ≡ length (x ∷ xs) + length rest =
        ap length there ∙ length-append (x ∷ xs) rest in
      let (k, ret, positive, wanted, in_reach) =
        stream.recv_some s.calls (len - length before) (length s.incoming) (omega (arith, total))
          (omega (arith, available)) in
      let within : k ≤ length (x ∷ xs) = omega (arith, wanted, total) in
      let read : take k s.incoming ≡ take k (x ∷ xs) =
        ap (take k) there ∙ take-append k (x ∷ xs) rest within in
      let left : drop k s.incoming ≡ drop k (x ∷ xs) ++ rest =
        ap (drop k) there ∙ drop-append k (x ∷ xs) rest within in
      let (s', runs, behind_them) =
        read_loop_lem fuel len (before ++ take k s.incoming) (drop k (x ∷ xs)) rest
          (record (called s) { incoming = drop k s.incoming })
          (omega (arith, room, positive, length-drop k (x ∷ xs) within))
          (omega (
            arith,
            total,
            length-append before (take k s.incoming),
            ap length read,
            length-take (x ∷ xs) k within,
            length-drop k (x ∷ xs) within,
          ))
          left in
      (
        s',
        read_more fuel len before (x ∷ xs) rest k s s' (omega (arith, total)) ret positive within
            there runs,
        behind_them,
      )

  -- The bytes are written behind those that were, and all of them.
  abbrev pub Writes : ℤ × Socket → ℕ → List ℕ → Socket → Type 0
  Writes x len bytes s = (s' : Socket) × (x ≡ (pos len, s')) × (s'.outgoing ≡ s.outgoing ++ bytes)

  write_step :
      (fuel transmitted : ℕ) (left : List ℕ) (k : ℕ) (s : Socket)
      → 0 < length left
      → n.send s.calls (length left) ≡ pos k
      → write_loop (suc fuel) transmitted left s
        ≡ write_loop fuel
            (transmitted + length (take k left))
            (drop k left)
            (record (called s) { outgoing = s.outgoing ++ take k left })
  unfolding write_loop
  write_step fuel transmitted left k s more ret =
      rw (write_loop, lt→ltb 0 (length left) more, ret) refl

  pub write_loop_lem :
      (fuel transmitted : ℕ) (left : List ℕ) (s : Socket)
      → length left ≤ fuel
      → Writes (write_loop fuel transmitted left s) (transmitted + length left) left s
  unfolding write_loop
  write_loop_lem zero transmitted [] s room =
      (s, ap (λ k. (pos k, s)) (omega arith), sym (append-nil s.outgoing))
  write_loop_lem zero transmitted (x ∷ xs) s room = absurd (omega arith)
  write_loop_lem (suc fuel) transmitted [] s room =
      (s, ap (λ k. (pos k, s)) (omega arith), sym (append-nil s.outgoing))
  write_loop_lem (suc fuel) transmitted (x ∷ xs) s room =
      let (k, ret, positive, within) = stream.send_some s.calls (length (x ∷ xs)) (omega arith) in
      let (s', runs, behind_them) =
        write_loop_lem fuel (transmitted + length (take k (x ∷ xs))) (drop k (x ∷ xs))
          (record (called s) { outgoing = s.outgoing ++ take k (x ∷ xs) })
          (omega (arith, room, positive, length-drop k (x ∷ xs) within)) in
      (
        s',
        write_step fuel transmitted (x ∷ xs) k s (omega arith) ret
            ∙ runs
            ∙ ap (λ t. (pos t, s'))
                (omega (arith, length-drop k (x ∷ xs) within, length-take (x ∷ xs) k within)),
        behind_them
            ∙ append_assoc s.outgoing (take k (x ∷ xs)) (drop k (x ∷ xs))
            ∙ ap (λ t. s.outgoing ++ t) (take-drop k (x ∷ xs)),
      )
