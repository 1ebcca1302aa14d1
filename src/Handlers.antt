-- ===== src/Handlers.antt =====
-- The handler table of a driver: `struct gb_operation_handler` and `struct gb_driver` of
-- include/greybus/greybus.h, gb_compare_handlers and find_operation_handler of
-- subsys/greybus/greybus-core.c. Functions are numbers: what they do is the environment's.
pub mod Search
pub mod Sort
use greybus_for_zephyr.Base.{
  ℕ, zero, suc, ◌+◌, ◌-◌, ◌/◌, ◌≤◌, ◌≡◌, ◌↔◌, Bool, Option, none, some, List, [], ◌∷◌, ◌==◌, ltb,
  if◌then◌else◌, get_elem?, length, ℤ, pos, neg, leb,
}

-- The names of the handlers, which only the log prints, are left out.
pub record Handler : Type 0 where
  pub typ : ℕ
  pub handler : ℕ
  pub fast_handler : Option ℕ

-- `op_handlers` is `none` for NULL. The callbacks are `none` for NULL.
pub record Driver : Type 0 where
  pub init : Option ℕ
  pub exit : Option ℕ
  pub connected : Option ℕ
  pub disconnected : Option ℕ
  pub op_handlers : Option (List Handler)
  pub op_handlers_count : ℕ
  pub bundle : Option ℕ

-- GB_INVALID_TYPE
abbrev pub invalid_type : ℕ
invalid_type = 0x7f

-- The result of gb_compare_handlers, as qsort reads it: not above 0.
unfoldable pub compare_handlers_le : Handler → Handler → Bool
compare_handlers_le a b = leb a.typ b.typ

-- One round: the middle element decides which half, if any, is searched.
unfoldable pub probe : ℕ → Option Handler → Option Handler → Option Handler → Option Handler
probe type left right none = none
probe type left right (some h) =
    if ltb h.typ type then right else if ltb type h.typ then left else some h

-- The loop of find_operation_handler over `l` and `hi`, which is `r + 1`: `l <= r` is `l < hi`.
-- Each round makes the range shorter, so as many rounds as it has elements are enough.
unfoldable pub search_from : ℕ → ℕ → List Handler → ℕ → ℕ → Option Handler
search_from zero type table l hi = none
search_from (suc fuel) type table l hi =
    let m = (l + (hi - 1)) / 2 in
    let right = search_from fuel type table (m + 1) hi in
    let left = search_from fuel type table l m in
    if ltb l hi then probe type left right (get_elem? table m) else none

unfoldable pub find_operation_handler : ℕ → Driver → Option Handler
find_operation_handler type driver =
    if type == invalid_type then none else elim driver.op_handlers [
      | none ↦ none
      | some table ↦
          search_from (suc driver.op_handlers_count) type table 0 driver.op_handlers_count
    ]
