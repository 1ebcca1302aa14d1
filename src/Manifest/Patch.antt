-- ===== src/Manifest/Patch.antt =====
-- Manifest fragments: identify_patch_descriptor and manifest_patch of
-- subsys/greybus/greybus-manifest.c. A fragment is changed in place, so its bytes are state.
use greybus_for_zephyr.Base.{
  ℕ, zero, suc, ◌+◌, ◌-◌, ◌/◌, ◌%◌, ◌^◌, max, Bool, true, false, Option, none, some, ◌==◌, ltb, leb,
  ◌&&◌, if◌then◌else◌, ℤ, pos, negsuc, neg,
}
use greybus_for_zephyr.Errno.{Errno}
use greybus_for_zephyr.Core.{update}
use greybus_for_zephyr.Manifest.{
  Memory, le16, Greybus, DescriptorType, Build, header_size, size_mod, type_of, expected_size,
  check_size, bad_header,
}

-- What manifest_patch works on: the fragment's memory, the tables, and the manifest that it
-- extends with `manifest_size`, a `uint16_t`. The manifest lies at address 0 of its memory.
pub record Patching : Type 0 where
  pub fragment : Memory
  pub tables : Greybus
  pub mnfb : Memory
  pub manifest_size : ℕ

-- `byte += n`
abbrev pub add_byte : ℕ → ℕ → Memory → Memory
add_byte a n m = update m a ((m a + n) % 256)

-- the cases of the switch that write: ids of the descriptor are moved behind those that are taken
unfoldable pub move_ids : ℕ → DescriptorType → Patching → Patching
move_ids desc DescriptorType.string s =
    let m = add_byte (desc + 5) s.tables.max_string_id s.fragment in
    record s {
      fragment = m;
      tables = record (s.tables) {
        max_patch_string_id = max s.tables.max_patch_string_id (m (desc + 5));
      };
    }
move_ids desc DescriptorType.property s =
    let m₁ = add_byte (desc + 5) s.tables.max_property_id s.fragment in
    let m = add_byte (desc + 6) s.tables.max_string_id m₁ in
    record s {
      fragment = m;
      tables = record (s.tables) {
        max_patch_property_id = max s.tables.max_patch_property_id (m (desc + 5));
      };
    }
move_ids desc DescriptorType.device s =
    let m₁ = add_byte (desc + 4) s.tables.max_device_id s.fragment in
    let m = add_byte (desc + 5) s.tables.max_string_id m₁ in
    record s {
      fragment = m;
      tables = record (s.tables) {
        max_patch_device_id = max s.tables.max_patch_device_id (m (desc + 4));
      };
    }
move_ids desc t s = s

-- `skip`: the descriptor does not go into the manifest
abbrev pub is_skipped : DescriptorType → Bool
is_skipped DescriptorType.interface = true
is_skipped DescriptorType.bundle = true
is_skipped DescriptorType.cport = true
is_skipped t = false

-- `return skip ? -desc_size : desc_size`, of a code that the size check left
abbrev pub skip_code : DescriptorType → ℤ → ℤ
skip_code t (pos n) = if is_skipped t then neg n else pos n
skip_code t (negsuc n) = negsuc n

-- byte `i` of a copied block of `n` bytes, or what was there before
unfoldable pub copy : Memory → ℕ → Memory → ℕ → ℕ → Memory
copy dest to src from n a = if leb to a && ltb a (to + n) then src (from + (a - to)) else dest a

-- `header->size += desc_size`, on a little-endian CPU
unfoldable pub add_size : ℕ → Memory → Memory
add_size n m = let size = (le16 m 0 + n) % 2 ^ 16 in update (update m 0 (size % 256)) 1 (size / 256)

-- the realloc, which is taken to succeed as the source does, and the memcpy
unfoldable pub append_descriptor : ℕ → ℕ → Patching → Patching
append_descriptor desc desc_size s = record s {
  mnfb = add_size desc_size (copy s.mnfb s.manifest_size s.fragment desc desc_size);
  manifest_size = (s.manifest_size + desc_size) % 2 ^ 16;
}

-- the maxima that the fragment's ids raise
unfoldable pub raise_maxima : Greybus → Greybus
raise_maxima g = record g {
  max_property_id = g.max_property_id + g.max_patch_property_id;
  max_device_id = g.max_device_id + g.max_patch_device_id;
  max_string_id = g.max_string_id + g.max_patch_string_id;
}

-- What a round of manifest_patch's loop goes on with. A code that is not above 0 is skipped by
-- its absolute value, also where it is an error, and `size` may wrap there.
unfoldable pub after_descriptor :
    (ℕ → ℕ → Patching → Option Patching) → ℕ → ℕ → ℤ × Patching → Option Patching
after_descriptor rest desc size (pos zero, s) = rest desc size s
after_descriptor rest desc size (pos (suc n), s) =
    rest (desc + suc n) (size - suc n) (append_descriptor desc (suc n) s)
after_descriptor rest desc size (negsuc n, s) =
    rest (desc + suc n) ((size + size_mod - suc n) % size_mod) s

module _ ⦃e : Errno⦄ ⦃build : Build⦄ where
  -- the switch of identify_patch_descriptor, and what follows it
  unfoldable pub visit_patch : ℕ → ℕ → DescriptorType → Patching → ℤ × Patching
  visit_patch desc desc_size DescriptorType.invalid s = (neg e.einval, s)
  visit_patch desc desc_size t s =
      (skip_code t (check_size desc_size (expected_size s.fragment desc t)), move_ids desc t s)

  unfoldable pub identify_patch_descriptor : ℕ → ℕ → Patching → ℤ × Patching
  identify_patch_descriptor desc size s =
      let desc_size = le16 s.fragment desc in
      if ltb size header_size
      then (neg e.einval, s)
      else if ltb size desc_size
      then (neg e.einval, s)
      else visit_patch desc desc_size (type_of (s.fragment (desc + 2))) s

  -- The `while (size)` loop. `none`: the fuel ran out; as `size` may wrap, no fuel is enough for
  -- every fragment.
  unfoldable pub patch_loop : ℕ → ℕ → ℕ → Patching → Option Patching
  patch_loop zero desc size s = none
  patch_loop (suc fuel) desc size s =
      let rest = λ (desc' : ℕ) (size' : ℕ) (s' : Patching). patch_loop fuel desc' size' s' in
      if size == 0
      then some s
      else after_descriptor rest desc size (identify_patch_descriptor desc size s)

  -- manifest_patch of the fragment at `start`, on fuel for its loop
  unfoldable pub manifest_patch : ℕ → ℕ → ℕ → Patching → Option (Bool × Patching)
  manifest_patch fuel start size s =
      let tables = record (s.tables) {
        max_patch_property_id = 0;
        max_patch_device_id = 0;
        max_patch_string_id = 0;
      } in
      let s₁ = record s { tables = tables; manifest_size = le16 s.mnfb 0 } in
      let patched = patch_loop fuel (start + header_size) (size - header_size) s₁ in
      if bad_header s.fragment start size then some (false, s) else elim patched [
        | none ↦ none
        | some s' ↦ some (true, record s' { tables = raise_maxima s'.tables })
      ]
