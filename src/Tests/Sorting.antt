-- ===== src/Tests/Sorting.antt =====
-- A sort that keeps the C standard's promise of qsort.
use greybus_for_zephyr.Base.{
  ℕ, zero, suc, ◌≤◌, ◌≡◌, ◌↔◌, ◌⊎◌, inl, inr, refl, ap, ◌∙◌, some, List, [], ◌∷◌, if◌then◌else◌,
  leb, leb→le, leb→lt, le→leb, get_elem?, length, All, arith, Bool-cases,
}
use greybus_for_zephyr.Handlers.{Handler, compare_handlers_le}
use greybus_for_zephyr.Handlers.Sort.{IsSorted, Has, Qsort}

unfoldable pub insert : Handler → List Handler → List Handler
insert h [] = h ∷ []
insert h (x ∷ xs) = let rest = insert h xs in if leb h.typ x.typ then h ∷ x ∷ xs else x ∷ rest

unfoldable pub sort : List Handler → List Handler
sort [] = []
sort (x ∷ xs) = insert x (sort xs)

abbrev pub Ordered : List Handler → Type 0
Ordered [] = Unit
Ordered (x ∷ xs) = All (λ y. x.typ ≤ y.typ) xs × Ordered xs

All-get :
    (k : ℕ) (xs : List Handler) (i : ℕ) (a : Handler)
    → All (λ y. k ≤ y.typ) xs
    → get_elem? xs i ≡ some a
    → k ≤ a.typ
All-get k [] i a h e = cc
All-get k (x ∷ xs) zero a h e = let same : x ≡ a = cc in rw (← same) h.0
All-get k (x ∷ xs) (suc i) a h e = All-get k xs i a h.1 e

pub Ordered-IsSorted : (xs : List Handler) → Ordered xs → IsSorted xs
unfolding compare_handlers_le
Ordered-IsSorted [] h i j a b lt at_i at_j = cc
Ordered-IsSorted (x ∷ xs) h i zero a b lt at_i at_j = absurd (omega arith)
Ordered-IsSorted (x ∷ xs) h zero (suc j) a b lt at_i at_j =
    let same : x ≡ a = cc in le→leb a.typ b.typ (rw same at (All-get x.typ xs j b h.0 at_j))
Ordered-IsSorted (x ∷ xs) h (suc i) (suc j) a b lt at_i at_j =
    Ordered-IsSorted xs h.1 i j a b (omega arith) at_i at_j

All-le : (k l : ℕ) (xs : List Handler) → k ≤ l → All (λ y. l ≤ y.typ) xs → All (λ y. k ≤ y.typ) xs
All-le k l [] le h = tt
All-le k l (x ∷ xs) le h = (omega (arith, h.0), All-le k l xs le h.1)

insert-All :
    (k : ℕ) (h : Handler) (xs : List Handler)
    → k ≤ h.typ
    → All (λ y. k ≤ y.typ) xs
    → All (λ y. k ≤ y.typ) (insert h xs)
unfolding insert
insert-All k h [] le all = (le, tt)
insert-All k h (x ∷ xs) le all = elim (Bool-cases (leb h.typ x.typ)) [
  | inl front ↦ rw front (le, (all.0, all.1))
  | inr back ↦ rw back (all.0, insert-All k h xs le all.1)
]

insert-Ordered : (h : Handler) (xs : List Handler) → Ordered xs → Ordered (insert h xs)
unfolding insert
insert-Ordered h [] o = (tt, tt)
insert-Ordered h (x ∷ xs) o = elim (Bool-cases (leb h.typ x.typ)) [
  | inl front ↦
      let le = leb→le h.typ x.typ front in rw front ((le, All-le h.typ x.typ xs le o.0), (o.0, o.1))
  | inr back ↦
      rw back (
        insert-All x.typ h xs (omega (arith, leb→lt h.typ x.typ back)) o.0,
        insert-Ordered h xs o.1,
      )
]

pub sort-Ordered : (xs : List Handler) → Ordered (sort xs)
unfolding sort
sort-Ordered [] = tt
sort-Ordered (x ∷ xs) = insert-Ordered x (sort xs) (sort-Ordered xs)

length-insert : (h : Handler) (xs : List Handler) → length (insert h xs) ≡ suc (length xs)
unfolding insert
length-insert h [] = refl
length-insert h (x ∷ xs) = ground (arith, length-insert h xs)

pub length-sort : (xs : List Handler) → length (sort xs) ≡ length xs
unfolding sort
length-sort [] = refl
length-sort (x ∷ xs) = length-insert x (sort xs) ∙ ap suc (length-sort xs)

Has-insert : (y h : Handler) (xs : List Handler) → Has y (insert h xs) ↔ ((h ≡ y) ⊎ Has y xs)
unfolding insert
Has-insert y h [] = (λ k. k, λ k. k)
Has-insert y h (x ∷ xs) =
    let (out, in_) = Has-insert y h xs in
    elim (Bool-cases (leb h.typ x.typ)) [
      | inl front ↦ rw front (λ k. k, λ k. k)
      | inr back ↦ rw back (ground (arith, out, in_))
    ]

pub Has-sort : (y : Handler) (xs : List Handler) → Has y (sort xs) ↔ Has y xs
unfolding sort
Has-sort y [] = (λ k. k, λ k. k)
Has-sort y (x ∷ xs) =
    let (out, in_) = Has-sort y xs in
    let (out', in') = Has-insert y x (sort xs) in
    (
      λ k. elim (out' k) [ inl e ↦ inl e | inr r ↦ inr (out r) ],
      λ k.
          in' (elim k as (λ x'. (x ≡ y) ⊎ Has y (sort xs)) [ inl e ↦ inl e | inr r ↦ inr (in_ r) ]),
    )

abbrev pub insertion_sort : Qsort
insertion_sort = record {
  qsort = sort;
  sorted = λ table. Ordered-IsSorted (sort table) (sort-Ordered table);
  same_length = length-sort;
  same_handlers = λ h table. Has-sort h table;
}
