-- ===== src/Handlers/Search.antt =====
-- The binary search of find_operation_handler (subsys/greybus/greybus-core.c) against a scan.
use greybus_for_zephyr.Base.{
  ℕ, zero, suc, ◌+◌, ◌-◌, ◌/◌, ◌<◌, ◌≤◌, ◌≡◌, ◌≢◌, refl, Option, none, some, List, [], ◌∷◌, ◌==◌,
  ltb, get_elem?, get_elem?-some, get_elem?-lt-length, length, arith, ◌⊎◌, inl, inr, Bool-cases,
  ltb→lt, lt→ltb, ltb→le, leb→le, ==→eq, ==→ne, ne→==, All,
}
use greybus_for_zephyr.Handlers.{
  Handler, Driver, invalid_type, compare_handlers_le, probe, search_from, find_operation_handler,
}
use greybus_for_zephyr.Handlers.Sort.{IsSorted}

probe-cases :
    (type : ℕ) (left right o : Option Handler) (h : Handler)
    → probe type left right o ≡ some h
    → (right ≡ some h) ⊎ (left ≡ some h) ⊎ ((o ≡ some h) × (h.typ ≡ type))
unfolding probe
probe-cases type left right none h eq = cc
probe-cases type left right (some x) h eq = ground arith

-- Whatever the table, a handler that is found has the type and stands in the table.
search_from_sound :
    (fuel type : ℕ) (table : List Handler) (l hi : ℕ) (h : Handler)
    → search_from fuel type table l hi ≡ some h
    → (i : ℕ) × (get_elem? table i ≡ some h) × (h.typ ≡ type)
unfolding search_from
search_from_sound zero type table l hi h eq = cc
search_from_sound (suc fuel) type table l hi h eq =
    let m = (l + (hi - 1)) / 2 in
    elim (Bool-cases (ltb l hi)) [
      | inr done ↦ cc (rw done at eq)
      | inl more ↦ elim (probe-cases type _ _ (get_elem? table m) h (rw more at eq)) [
        | inl right ↦ search_from_sound fuel type table (m + 1) hi h right
        | inr (inl left) ↦ search_from_sound fuel type table l m h left
        | inr (inr (here, same)) ↦ (m, here, same)
      ]
    ]

-- In a sorted table a smaller type stands further to the front.
sorted_lt :
    (table : List Handler) (i j : ℕ) (a b : Handler)
    → IsSorted table
    → get_elem? table i ≡ some a
    → get_elem? table j ≡ some b
    → a.typ < b.typ
    → i < j
unfolding compare_handlers_le
sorted_lt table i j a b sorted at_i at_j lt = elim (Bool-cases (ltb i j)) [
  | inl before ↦ ltb→lt i j before
  | inr after ↦ elim (Bool-cases (i == j)) [
    | inl same ↦ absurd (ground (arith, ==→eq i j same))
    | inr other ↦ absurd (
        ground (
          arith,
          leb→le b.typ a.typ
              (sorted j i b a (omega (arith, ltb→le i j after, ==→ne i j other)) at_j at_i),
        ))
  ]
]

-- In a sorted table, a type that stands at `i` in the range is found.
search_from_complete :
    (fuel type : ℕ) (table : List Handler) (l hi i : ℕ) (x : Handler)
    → IsSorted table
    → hi ≤ length table
    → hi - l < fuel
    → l ≤ i
    → i < hi
    → get_elem? table i ≡ some x
    → x.typ ≡ type
    → (h : Handler) × (search_from fuel type table l hi ≡ some h)
unfolding search_from probe
search_from_complete zero type table l hi i x sorted fits few lo up at_i same = absurd (omega arith)
search_from_complete (suc fuel) type table l hi i x sorted fits few lo up at_i same =
    let m = (l + (hi - 1)) / 2 in
    let (y, at_m) = get_elem?-some table m (omega arith) in
    let more = lt→ltb l hi (omega arith) in
    elim (Bool-cases (ltb y.typ type)) [
      | inl below ↦
          let after = sorted_lt table m i y x sorted at_m at_i (ground arith) in
          let (h, found) =
            search_from_complete fuel type table (m + 1) hi i x sorted fits (omega arith)
              (omega (arith, after)) up at_i same in
          (h, rw (more, at_m, below) found)
      | inr not_below ↦ elim (Bool-cases (ltb type y.typ)) [
        | inl above ↦
            let before = sorted_lt table i m x y sorted at_i at_m (ground arith) in
            let (h, found) =
              search_from_complete fuel type table l m i x sorted (omega arith) (omega arith) lo
                before at_i same in
            (h, rw (more, at_m, not_below, above) found)
        | inr not_above ↦ (y, rw (more, at_m, not_below, not_above))
      ]
    ]

get_elem?-All :
    (type : ℕ) (table : List Handler)
    → ((i : ℕ) (x : Handler) → get_elem? table i ≡ some x → x.typ ≢ type)
    → All (λ x. x.typ ≢ type) table
get_elem?-All type [] h = tt
get_elem?-All type (x ∷ table) h = (h 0 x refl, get_elem?-All type table (λ i y e. h (suc i) y e))

-- A handler table as _gb_register_driver leaves it: sorted, and as long as its count says.
pub record IsTable (driver : Driver) (table : List Handler) : Type 0 where
  pub handlers : driver.op_handlers ≡ some table
  pub count : driver.op_handlers_count ≡ length table
  pub in_order : IsSorted table

-- The binary search agrees with a scan: for any type but the invalid one it finds a handler of
-- that type in the table, or finds none and there is none.
pub find_operation_handler-decides :
    (type : ℕ) (driver : Driver) (table : List Handler)
    → IsTable driver table
    → type ≢ invalid_type
    → ((h : Handler) × (find_operation_handler type driver ≡ some h)
        × (h.typ ≡ type)
        × (i : ℕ) × (get_elem? table i ≡ some h))
      ⊎ ((find_operation_handler type driver ≡ none) × All (λ x. x.typ ≢ type) table)
unfolding find_operation_handler
find_operation_handler-decides type driver table t valid =
    rw (ne→== type invalid_type valid, t.handlers, t.count)
      (go (search_from (suc (length table)) type table 0 (length table)) refl)
  where
    go :
        (o : Option Handler)
        → search_from (suc (length table)) type table 0 (length table) ≡ o
        → ((h : Handler) × (search_from (suc (length table)) type table 0 (length table) ≡ some h)
            × (h.typ ≡ type)
            × (i : ℕ) × (get_elem? table i ≡ some h))
          ⊎ ((search_from (suc (length table)) type table 0 (length table) ≡ none)
              × All (λ x. x.typ ≢ type) table)
    go (some h) found =
        let (i, at_i, same) = search_from_sound _ type table 0 _ h found in
        inl (h, found, same, i, at_i)
    go none missing = inr (
      missing,
      get_elem?-All type table (λ i x at_i same.
          let (h, found) =
            search_from_complete (suc (length table)) type table 0 (length table) i x t.in_order
              (omega arith) (omega arith) (omega arith) (get_elem?-lt-length table i at_i) at_i
              same in
          cc),
    )
