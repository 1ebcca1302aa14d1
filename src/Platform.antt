-- ===== src/Platform.antt =====
-- The mapping of cports to devices: subsys/greybus/platform/platform.c. The mutex makes each
-- function one step.
pub mod Mapping
pub mod SpiControl
use greybus_for_zephyr.Base.{
  ℕ, ◌-◌, ◌%◌, ◌^◌, Bool, true, false, Option, none, some, List, [], ◌∷◌, ◌++◌, ◌==◌, if◌then◌else◌,
  ℤ, pos, neg, ltb,
}
use greybus_for_zephyr.Errno.{Errno}

pub record MapEntry : Type 0 where
  pub cport : ℕ
  pub dev : ℕ

-- an `unsigned int` as an `int`
abbrev pub as_int : ℕ → ℤ
as_int n = if ltb n (2 ^ 31) then pos n else neg (2 ^ 32 - n % 2 ^ 32)

-- the loop of gb_add_cport_device_mapping
unfoldable pub is_mapped : ℕ → ℕ → List MapEntry → Bool
is_mapped cport dev [] = false
is_mapped cport dev (entry ∷ map) =
    if entry.cport == cport
    then true
    else if entry.dev == dev
    then true
    else is_mapped cport dev map

unfoldable pub gb_cport_to_device : ℕ → List MapEntry → Option ℕ
gb_cport_to_device cport [] = none
gb_cport_to_device cport (entry ∷ map) =
    if entry.cport == cport then some entry.dev else gb_cport_to_device cport map

module _ ⦃e : Errno⦄ where
  -- of a device that is not NULL: the map has no entry for NULL
  unfoldable pub gb_device_to_cport : ℕ → List MapEntry → ℤ
  gb_device_to_cport dev [] = neg e.enoent
  gb_device_to_cport dev (entry ∷ map) =
      if entry.dev == dev then as_int entry.cport else gb_device_to_cport dev map

  -- `room` says whether realloc succeeds
  unfoldable pub gb_add_cport_device_mapping :
      Bool → ℕ → Option ℕ → List MapEntry → ℤ × List MapEntry
  gb_add_cport_device_mapping room cport none map = (neg e.einval, map)
  gb_add_cport_device_mapping room cport (some dev) map =
      if is_mapped cport dev map
      then (neg e.ealready, map)
      else if room
      then (pos 0, map ++ record { cport = cport; dev = dev } ∷ [])
      else (neg e.enomem, map)
