-- ===== src/Platform/SpiControl.antt =====
-- The SPI controllers that the devicetree describes: subsys/greybus/platform/spi.c. What is in a
-- `struct gb_spi_*_config_response` is the list of its fields, a name being 32 of them.
use greybus_for_zephyr.Base.{
  ℕ, Bool, true, false, Option, none, some, List, [], ◌∷◌, ◌++◌, ◌==◌, if◌then◌else◌, ℤ, pos, neg,
  leb,
}
use greybus_for_zephyr.Errno.{Errno}

-- `struct devpair`
pub record DevPair : Type 0 where
  pub a : ℕ
  pub b : ℕ

-- `struct greybus_spi_control_config`; `cs_port` says whether a chip select has a GPIO port.
pub record SpiControlConfig : Type 0 where
  pub ctrl_rsp : List ℕ
  pub num_peripherals : ℕ
  pub periph_rsp : ℕ → List ℕ
  pub cs_port : ℕ → Bool

-- the loop of gb_spidev_from_zephyr_spidev
abbrev pub pair_of : ℕ → List DevPair → Option ℕ
pair_of dev [] = none
pair_of dev (p ∷ pairs) = if p.a == dev then some p.b else pair_of dev pairs

-- No pair has a NULL in it.
unfoldable pub gb_spidev_from_zephyr_spidev : Option ℕ → List DevPair → Option ℕ
gb_spidev_from_zephyr_spidev none pairs = none
gb_spidev_from_zephyr_spidev (some dev) pairs = pair_of dev pairs

-- the loop of gb_add_spipair
abbrev pub is_paired : ℕ → ℕ → List DevPair → Bool
is_paired a b [] = false
is_paired a b (p ∷ pairs) =
    if p.a == a then true else if p.b == b then true else is_paired a b pairs

module _ ⦃e : Errno⦄ where
  abbrev pub add_pair : Bool → ℕ → ℕ → List DevPair → ℤ × List DevPair
  add_pair room a b pairs =
      if is_paired a b pairs
      then (neg e.ealready, pairs)
      else if room
      then (pos 0, pairs ++ record { a = a; b = b } ∷ [])
      else (neg e.enomem, pairs)

  -- `room` says whether realloc succeeds
  unfoldable pub gb_add_spipair : Bool → Option ℕ → Option ℕ → List DevPair → ℤ × List DevPair
  gb_add_spipair room none b pairs = (neg e.einval, pairs)
  gb_add_spipair room (some a) none pairs = (neg e.einval, pairs)
  gb_add_spipair room (some a) (some b) pairs = add_pair room a b pairs

  -- The response where there is one; the arguments are not NULL where these are called.
  unfoldable pub gb_plat_api_peripheral_config_response : SpiControlConfig → ℕ → ℤ × Option (List ℕ)
  gb_plat_api_peripheral_config_response config chip_select =
      if leb config.num_peripherals chip_select
      then (neg e.einval, none)
      else (pos 0, some (config.periph_rsp chip_select))

  unfoldable pub gb_plat_api_get_cs_control : SpiControlConfig → ℕ → ℤ
  gb_plat_api_get_cs_control config chip_select =
      if leb config.num_peripherals chip_select
      then neg e.einval
      else if config.cs_port chip_select
      then pos 0
      else neg e.enodev

unfoldable pub gb_plat_api_controller_config_response : SpiControlConfig → ℤ × List ℕ
gb_plat_api_controller_config_response config = (pos 0, config.ctrl_rsp)

unfoldable pub gb_plat_api_num_peripherals : SpiControlConfig → ℕ
gb_plat_api_num_peripherals config = config.num_peripherals
