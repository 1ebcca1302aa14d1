-- ===== src/Manifest/Protocols/Calls.antt =====
-- The calls that enable_cports makes.
use greybus_for_zephyr.Base.{
  ℕ, ◌≡◌, refl, Bool, true, not, ◌&&◌, Option, none, some, List, [], ◌∷◌, ◌++◌, ◌==◌, if◌then◌else◌,
  arith,
}
use greybus_for_zephyr.Manifest.{GbCport}
use greybus_for_zephyr.Manifest.Protocols.{
  Protocol, code, Config, Call, enabled, register_if, order, register_all, enable_cports,
}

-- `enum greybus_protocol`, read backwards: the protocol of a code, of those that have a register
-- function.
unfoldable pub decode : ℕ → Option Protocol
decode k =
    if k == 0x00
    then some Protocol.control
    else if k == 0x02
    then some Protocol.gpio
    else if k == 0x03
    then some Protocol.i2c
    else if k == 0x04
    then some Protocol.uart
    else if k == 0x05
    then some Protocol.hid
    else if k == 0x06
    then some Protocol.usb
    else if k == 0x07
    then some Protocol.sdio
    else if k == 0x08
    then some Protocol.power_supply
    else if k == 0x09
    then some Protocol.pwm
    else if k == 0x0b
    then some Protocol.spi
    else if k == 0x0d
    then some Protocol.camera_mgmt
    else if k == 0x0f
    then some Protocol.lights
    else if k == 0x10
    then some Protocol.vibrator
    else if k == 0x11
    then some Protocol.loopback
    else if k == 0x12
    then some Protocol.audio_mgmt
    else if k == 0x13
    then some Protocol.audio_data
    else none

-- One call for a cport, with its bundle, by the protocol, if the build has it.
abbrev call_of : Config → GbCport → Option Protocol → List Call
call_of config c none = []
call_of config c (some p) =
    if enabled config p
    then (record { protocol = p; cport_id = c.id; bundle_id = c.bundle }) ∷ []
    else []

-- The calls for the cports, one after another.
abbrev pub wanted_calls : Config → List GbCport → List Call
wanted_calls config [] = []
wanted_calls config (c ∷ cs) = call_of config c (decode c.protocol) ++ wanted_calls config cs

-- the first protocol of a list that has the code
abbrev find : ℕ → List Protocol → Option Protocol
find k [] = none
find k (p ∷ ps) = if k == code p then some p else find k ps

abbrev is_absent : ℕ → List Protocol → Bool
is_absent k [] = true
is_absent k (p ∷ ps) = not (k == code p) && is_absent k ps

abbrev is_distinct : List Protocol → Bool
is_distinct [] = true
is_distinct (p ∷ ps) = is_absent (code p) ps && is_distinct ps

register_all-absent :
    (config : Config) (c : GbCport) (ps : List Protocol)
    → is_absent c.protocol ps ≡ true
    → register_all config c ps ≡ []
unfolding register_all register_if
register_all-absent config c [] h = refl
register_all-absent config c (p ∷ ps) h = ground (arith, register_all-absent config c ps)

register_all-find :
    (config : Config) (c : GbCport) (ps : List Protocol)
    → is_distinct ps ≡ true
    → register_all config c ps ≡ call_of config c (find c.protocol ps)
unfolding register_all register_if
register_all-find config c [] h = refl
register_all-find config c (p ∷ ps) h =
    ground (arith, register_all-find config c ps, register_all-absent config c ps)

find-order : (k : ℕ) → find k order ≡ decode k
unfolding decode
find-order k = ground arith

-- enable_cports makes, for the cports in their order, one call each of the register function of
-- the cport's protocol, with its id and its bundle, where the protocol's code has a register
-- function that the build has, and no other call.
pub enable_cports_registers :
    (config : Config) (cs : List GbCport) → enable_cports config cs ≡ wanted_calls config cs
unfolding enable_cports
enable_cports_registers config [] = refl
enable_cports_registers config (c ∷ cs) =
    rw
      (
        register_all-find config c order refl,
        find-order c.protocol,
        enable_cports_registers config cs,
      )
      refl
