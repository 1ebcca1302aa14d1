-- ===== src/Manifest.antt =====
-- The interface manifest: subsys/greybus/greybus-manifest.c, with the byte layout of
-- subsys/greybus/greybus-manifest.h and `struct gb_cport` of include/greybus-utils/manifest.h.
-- A descriptor is read where it stands in memory, its union members by offset.
use greybus_for_zephyr.Base.{
  ℕ, zero, suc, ◌+◌, ◌-◌, ◌*◌, ◌%◌, ◌^◌, max, Bool, true, false, not, Option, none, some, List, [],
  ◌∷◌, ◌++◌, ◌==◌, ltb, leb, if◌then◌else◌, keep_if, ℤ, pos, negsuc, neg, ◌&&◌, ◌||◌,
}
use greybus_for_zephyr.Errno.{Errno}
pub mod Step
pub mod Layout
pub mod Parse
pub mod Release
pub mod Bounds
pub mod Cports
pub mod Protocols
pub mod Patch
pub mod Blob

-- The byte at each address. What lies behind a buffer's end is whatever stands there.
abbrev pub Memory : Type 0
Memory = ℕ → ℕ

-- `sys_le16_to_cpu` of a two-byte field
abbrev pub le16 : Memory → ℕ → ℕ
le16 m a = m a + 256 * m (a + 1)

-- `struct gb_cport`, less its list node
pub record GbCport : Type 0 where
  pub id : ℕ
  pub bundle : ℕ
  pub protocol : ℕ

-- `struct greybus`: `cports` in list order. `allocs` counts the calls of malloc so far.
pub record Greybus : Type 0 where
  pub cports : List GbCport
  pub max_bundle_id : ℕ
  pub max_property_id : ℕ
  pub max_device_id : ℕ
  pub max_string_id : ℕ
  pub max_patch_property_id : ℕ
  pub max_patch_device_id : ℕ
  pub max_patch_string_id : ℕ
  pub allocs : ℕ

-- `static struct greybus g_greybus`
abbrev pub g_greybus : Greybus
g_greybus = record {
  cports = [];
  max_bundle_id = 0;
  max_property_id = 0;
  max_device_id = 0;
  max_string_id = 0;
  max_patch_property_id = 0;
  max_patch_device_id = 0;
  max_patch_string_id = 0;
  allocs = 0;
}

-- `enum greybus_descriptor_type`; `invalid` also stands for the codes that the enum lacks.
pub data DescriptorType : Type 0 where
  invalid interface string bundle cport mikrobus property device : DescriptorType

-- What the build and the C library decide: whether CONFIG_GREYBUS_MIKROBUS is set, and whether
-- the n-th malloc succeeds.
pub record Build : Type 0 where
  pub has_mikrobus : Bool
  pub malloc_ok : ℕ → Bool

-- sizeof(struct greybus_descriptor_header), sizeof(struct greybus_manifest_header)
abbrev pub header_size : ℕ
header_size = 4

-- GREYBUS_VERSION_MAJOR
abbrev pub version_major : ℕ
version_major = 0

-- `size_t` has 32 bits on the boards of the repository.
abbrev pub size_mod : ℕ
size_mod = 2 ^ 32

-- The macro ALIGN: `x & 3` is `x % 4`, and `x & ~3` is `x - x % 4`.
unfoldable pub align : ℕ → ℕ
align x = if x % 4 == 0 then x else x - x % 4 + 4

-- `desc->cport` as a registered cport
abbrev pub cport_at : Memory → ℕ → GbCport
cport_at m desc = record { id = le16 m (desc + 4); bundle = m (desc + 6); protocol = m (desc + 7) }

unfoldable pub alloc_cport : GbCport → Greybus → Greybus
alloc_cport c g = record g { cports = g.cports ++ c ∷ []; allocs = suc g.allocs }

unfoldable pub free_cport : ℕ → Greybus → Greybus
free_cport cportid g = record g { cports = keep_if (λ c. not (c.id == cportid)) g.cports }

module _ ⦃build : Build⦄ where
  -- the labels of the switch on `desc_header->type`
  unfoldable pub type_of : ℕ → DescriptorType
  type_of code =
      if code == 0x01
      then DescriptorType.interface
      else if code == 0x02
      then DescriptorType.string
      else if code == 0x03
      then DescriptorType.bundle
      else if code == 0x04
      then DescriptorType.cport
      else if code == 0x05
      then (if build.has_mikrobus then DescriptorType.mikrobus else DescriptorType.invalid)
      else if code == 0x06
      then DescriptorType.property
      else if code == 0x07
      then DescriptorType.device
      else DescriptorType.invalid

  -- `expected_size` after the switch
  unfoldable pub expected_size : Memory → ℕ → DescriptorType → ℕ
  expected_size m desc DescriptorType.string = align (header_size + 2 + m (desc + 4))
  expected_size m desc DescriptorType.interface = header_size + 4
  expected_size m desc DescriptorType.bundle = header_size + 4
  expected_size m desc DescriptorType.cport = header_size + 4
  expected_size m desc DescriptorType.property = align (header_size + 4 + m (desc + 4))
  expected_size m desc DescriptorType.device = header_size + 16
  expected_size m desc DescriptorType.mikrobus = header_size + 12
  expected_size m desc DescriptorType.invalid = header_size

  -- the updates of the largest ids seen
  unfoldable pub note_ids : Memory → ℕ → DescriptorType → Greybus → Greybus
  note_ids m desc DescriptorType.string g = record g {
    max_string_id = max g.max_string_id (m (desc + 5));
  }
  note_ids m desc DescriptorType.bundle g = record g {
    max_bundle_id = max g.max_bundle_id (m (desc + 4));
  }
  note_ids m desc DescriptorType.property g = record g {
    max_property_id = max g.max_property_id (m (desc + 5));
  }
  note_ids m desc DescriptorType.device g = record g {
    max_device_id = max g.max_device_id (m (desc + 4));
  }
  note_ids m desc t g = g

-- The three early returns of _manifest_parse: too short, another size than stated, too new.
unfoldable pub bad_header : Memory → ℕ → ℕ → Bool
bad_header m manifest size =
    leb size header_size || not (le16 m manifest == size) || ltb version_major (m (manifest + 2))

-- The end of a round: stop on `desc_size <= 0`, or go on with the rest.
abbrev pub after_round :
    (ℕ → Greybus → Option (Bool × Greybus)) → ℤ × Greybus → Option (Bool × Greybus)
after_round rest (pos zero, g) = some (false, g)
after_round rest (pos (suc n), g) = rest (suc n) g
after_round rest (negsuc n, g) = some (false, g)

module _ ⦃e : Errno⦄ ⦃build : Build⦄ where
  -- the comparison of `desc_size` and `expected_size` behind the switch
  unfoldable pub check_size : ℕ → ℕ → ℤ
  check_size desc_size expected = if ltb desc_size expected then neg e.einval else pos desc_size

  -- case GREYBUS_TYPE_CPORT, for a descriptor of at least the expected size
  unfoldable pub visit_cport : Memory → ℕ → ℕ → Bool → Greybus → ℤ × Greybus
  visit_cport m desc desc_size release g =
      if release
      then (pos desc_size, free_cport (le16 m (desc + 4)) g)
      else if build.malloc_ok g.allocs
      then (pos desc_size, alloc_cport (cport_at m desc) g)
      else (neg e.enomem, record g { allocs = suc g.allocs })

  -- the switch on the type, and what follows it
  unfoldable pub visit : Memory → ℕ → ℕ → Bool → DescriptorType → Greybus → ℤ × Greybus
  visit m desc desc_size release DescriptorType.invalid g = (neg e.einval, g)
  visit m desc desc_size release DescriptorType.cport g =
      if ltb desc_size (expected_size m desc DescriptorType.cport)
      then (neg e.einval, g)
      else visit_cport m desc desc_size release g
  visit m desc desc_size release t g =
      (check_size desc_size (expected_size m desc t), note_ids m desc t g)

  -- identify_descriptor; its result as C's `int`, negative for an error
  unfoldable pub identify_descriptor : Memory → ℕ → ℕ → Bool → Greybus → ℤ × Greybus
  identify_descriptor m desc size release g =
      let desc_size = le16 m desc in
      if ltb size header_size
      then (neg e.einval, g)
      else if ltb size desc_size
      then (neg e.einval, g)
      else visit m desc desc_size release (type_of (m (desc + 2))) g

  -- The `while (size)` loop of _manifest_parse. `none`: the fuel ran out.
  unfoldable pub parse_loop : ℕ → Memory → ℕ → ℕ → Bool → Greybus → Option (Bool × Greybus)
  parse_loop zero m desc size release g = none
  parse_loop (suc fuel) m desc size release g =
      let rest = λ (n : ℕ) (g' : Greybus). parse_loop fuel m (desc + n) (size - n) release g' in
      if size == 0
      then some (true, g)
      else after_round rest (identify_descriptor m desc size release g)

  -- _manifest_parse. Each round takes a byte at least, so `size + 1` rounds are enough. In
  -- release mode the header is not looked at, and a size below the header's wraps.
  unfoldable pub manifest_parse_release : Memory → ℕ → ℕ → Bool → Greybus → Option (Bool × Greybus)
  manifest_parse_release m manifest size release g =
      let rest = (size + size_mod - header_size) % size_mod in
      if not release && bad_header m manifest size
      then some (false, g)
      else parse_loop (suc rest) m (manifest + header_size) rest release g

  unfoldable pub manifest_parse : Memory → ℕ → ℕ → Greybus → Option (Bool × Greybus)
  manifest_parse m manifest size g = manifest_parse_release m manifest size false g

  unfoldable pub manifest_release : Memory → ℕ → ℕ → Greybus → Option (Bool × Greybus)
  manifest_release m manifest size g = manifest_parse_release m manifest size true g

  unfoldable pub parse_manifest_blob : Memory → ℕ → Greybus → Option (Bool × Greybus)
  parse_manifest_blob m manifest g = manifest_parse m manifest (le16 m manifest) g

  unfoldable pub release_manifest_blob : Memory → ℕ → Greybus → Option (Bool × Greybus)
  release_manifest_blob m manifest g = manifest_release m manifest (le16 m manifest) g

-- manifest_get_num_cports
unfoldable pub manifest_get_num_cports : List GbCport → ℕ
manifest_get_num_cports [] = 0
manifest_get_num_cports (c ∷ cs) = suc (manifest_get_num_cports cs)

-- The loop of manifest_get_num_cports_bundle, with `r` so far. A bundle is a plain number here:
-- a negative bundle id matches no cport.
num_cports_from : ℕ → ℕ → List GbCport → ℕ
num_cports_from bundle_id r [] = r
num_cports_from bundle_id r (c ∷ cs) =
    num_cports_from bundle_id (if c.bundle == bundle_id then suc r else r) cs

unfoldable pub manifest_get_num_cports_bundle : ℕ → List GbCport → ℕ
unfolding num_cports_from
manifest_get_num_cports_bundle bundle_id cs = num_cports_from bundle_id 0 cs

abbrev pub uint_max : ℕ
uint_max = 2 ^ 32 - 1

-- The loop of manifest_get_start_cport_bundle, with `cport_id` so far.
start_cport_from : ℕ → ℕ → List GbCport → ℕ
start_cport_from bundle_id cport_id [] = cport_id
start_cport_from bundle_id cport_id (c ∷ cs) =
    start_cport_from bundle_id
      (if (c.bundle == bundle_id) && ltb c.id cport_id then c.id else cport_id) cs

unfoldable pub manifest_get_start_cport_bundle : ℕ → List GbCport → ℕ
unfolding start_cport_from
manifest_get_start_cport_bundle bundle_id cs = start_cport_from bundle_id uint_max cs
