-- ===== src/Handlers/Sort.antt =====
-- qsort of the C library, which _gb_register_driver calls with gb_compare_handlers.
use greybus_for_zephyr.Base.{ℕ, ◌<◌, ◌≡◌, ◌↔◌, ◌⊎◌, true, some, List, [], ◌∷◌, get_elem?, length}
use greybus_for_zephyr.Handlers.{Handler, compare_handlers_le}

-- A table is sorted when each handler compares as no greater than those behind it.
abbrev pub IsSorted : List Handler → Type 0
IsSorted table =
    (i j : ℕ) (a b : Handler)
    → i < j
    → get_elem? table i ≡ some a
    → get_elem? table j ≡ some b
    → compare_handlers_le a b ≡ true

abbrev pub Has : Handler → List Handler → Type 0
Has h [] = ⊥
Has h (x ∷ xs) = (x ≡ h) ⊎ Has h xs

-- What the C standard says of qsort with this comparison.
pub record Qsort : Type 0 where
  pub qsort : List Handler → List Handler
  pub sorted : (table : List Handler) → IsSorted (qsort table)
  pub same_length : (table : List Handler) → length (qsort table) ≡ length table
  pub same_handlers : (h : Handler) (table : List Handler) → Has h (qsort table) ↔ Has h table
