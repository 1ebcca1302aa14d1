-- ===== src/Manifest/Protocols.antt =====
-- Which protocol takes which cport: enable_cports of subsys/greybus/greybus-manifest.c, with the
-- codes of `enum greybus_protocol` (subsys/greybus/greybus-manifest.h).
pub mod Calls
use greybus_for_zephyr.Base.{
  ℕ, ◌+◌, Bool, true, false, ◌&&◌, Option, none, some, List, [], ◌∷◌, ◌++◌, ◌==◌, if◌then◌else◌,
}
use greybus_for_zephyr.Manifest.{GbCport}

-- The protocols that the library has a gb_*_register function for.
pub data Protocol : Type 0 where
  control gpio i2c power_supply loopback vibrator usb pwm spi uart hid lights sdio : Protocol
  camera_mgmt audio_mgmt audio_data : Protocol

-- GREYBUS_PROTOCOL_*
abbrev pub code : Protocol → ℕ
code Protocol.control = 0x00
code Protocol.gpio = 0x02
code Protocol.i2c = 0x03
code Protocol.uart = 0x04
code Protocol.hid = 0x05
code Protocol.usb = 0x06
code Protocol.sdio = 0x07
code Protocol.power_supply = 0x08
code Protocol.pwm = 0x09
code Protocol.spi = 0x0b
code Protocol.camera_mgmt = 0x0d
code Protocol.lights = 0x0f
code Protocol.vibrator = 0x10
code Protocol.loopback = 0x11
code Protocol.audio_mgmt = 0x12
code Protocol.audio_data = 0x13

-- Which of the `#ifdef CONFIG_GREYBUS_*` the build has; audio's is one for both.
pub record Config : Type 0 where
  pub has : Protocol → Bool
  pub has_audio : Bool

-- a call of a gb_*_register function
pub record Call : Type 0 where
  pub protocol : Protocol
  pub cport_id : ℕ
  pub bundle_id : ℕ

-- whether the build has the protocol's `if`
abbrev pub enabled : Config → Protocol → Bool
enabled config Protocol.audio_mgmt = config.has_audio
enabled config Protocol.audio_data = config.has_audio
enabled config p = config.has p

-- one `if` of the loop's body
unfoldable pub register_if : Config → GbCport → Protocol → List Call
register_if config c p =
    if enabled config p && (c.protocol == code p)
    then (record { protocol = p; cport_id = c.id; bundle_id = c.bundle }) ∷ []
    else []

-- the `if`s in the order of the source
abbrev pub order : List Protocol
order =
    Protocol.control ∷ Protocol.gpio ∷ Protocol.i2c ∷ Protocol.power_supply ∷ Protocol.loopback
    ∷ Protocol.vibrator ∷ Protocol.usb ∷ Protocol.pwm ∷ Protocol.spi ∷ Protocol.uart ∷ Protocol.hid
    ∷ Protocol.lights ∷ Protocol.sdio ∷ Protocol.camera_mgmt ∷ Protocol.audio_mgmt
    ∷ Protocol.audio_data ∷ []

unfoldable pub register_all : Config → GbCport → List Protocol → List Call
register_all config c [] = []
register_all config c (p ∷ ps) = register_if config c p ++ register_all config c ps

-- enable_cports, as the calls that it makes
unfoldable pub enable_cports : Config → List GbCport → List Call
enable_cports config [] = []
enable_cports config (c ∷ cs) = register_all config c order ++ enable_cports config cs
