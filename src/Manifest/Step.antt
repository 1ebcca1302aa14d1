-- ===== src/Manifest/Step.antt =====
-- One descriptor: identify_descriptor accepts it, or says why not, and what it writes.
use greybus_for_zephyr.Base.{
  ℕ, ◌+◌, ◌≤◌, ◌<◌, ◌≡◌, ◌≢◌, ◌⊎◌, inl, inr, refl, Bool, true, false, pos, neg-ne-pos, arith,
}
use greybus_for_zephyr.Errno.{Errno, IsPositive}
use greybus_for_zephyr.Manifest.{
  Memory, le16, Greybus, DescriptorType, Build, align, type_of, expected_size, check_size, visit,
  visit_cport, note_ids, header_size, free_cport, alloc_cport, cport_at, identify_descriptor,
}

pub align-le : (x : ℕ) → (x ≤ align x) × (align x < x + 4)
unfolding align
align-le x = ground arith

module _ ⦃build : Build⦄ where
  pub header-le-expected_size :
      (m : Memory) (desc : ℕ) (t : DescriptorType) → header_size ≤ expected_size m desc t
  unfolding expected_size
  header-le-expected_size m desc DescriptorType.string =
      omega (arith, align-le (header_size + 2 + m (desc + 4)))
  header-le-expected_size m desc DescriptorType.property =
      omega (arith, align-le (header_size + 4 + m (desc + 4)))
  header-le-expected_size m desc _ = omega arith

  -- What makes the bytes at `desc` a descriptor, with `size` bytes left.
  pub record IsDescriptor (m : Memory) (desc size : ℕ) : Type 0 where
    pub fits : le16 m desc ≤ size
    pub known : type_of (m (desc + 2)) ≢ DescriptorType.invalid
    pub enough : expected_size m desc (type_of (m (desc + 2))) ≤ le16 m desc

  pub IsDescriptor-le :
      (m : Memory) (desc size : ℕ) → IsDescriptor m desc size → header_size ≤ le16 m desc
  IsDescriptor-le m desc size d =
      omega (arith, d.enough, header-le-expected_size m desc (type_of (m (desc + 2))))

  -- What an accepted descriptor does to the tables.
  abbrev pub enter : Memory → ℕ → Bool → DescriptorType → Greybus → Greybus
  enter m desc true DescriptorType.cport g = free_cport (le16 m (desc + 4)) g
  enter m desc false DescriptorType.cport g = alloc_cport (cport_at m desc) g
  enter m desc release t g = note_ids m desc t g

module _ ⦃e : Errno⦄ ⦃build : Build⦄ where
  check_size_pos : IsPositive e → (ds ex n : ℕ) → check_size ds ex ≡ pos n → (ex ≤ ds) × (n ≡ ds)
  unfolding check_size
  check_size_pos p ds ex n h = ground (arith, neg-ne-pos e.einval n p.einval_pos)

  visit_pos :
      IsPositive e
      → (m : Memory) (desc ds : ℕ) (release : Bool) (t : DescriptorType) (g : Greybus) (n : ℕ)
      → (visit m desc ds release t g).0 ≡ pos n
      → (t ≢ DescriptorType.invalid)
        × (expected_size m desc t ≤ ds)
        × (n ≡ ds)
        × ((visit m desc ds release t g).1 ≡ enter m desc release t g)
  unfolding visit visit_cport
  visit_pos p m desc ds release DescriptorType.invalid g n h =
      absurd (neg-ne-pos e.einval n p.einval_pos h)
  visit_pos p m desc ds release DescriptorType.cport g n h =
      ground (arith, neg-ne-pos e.einval n p.einval_pos, neg-ne-pos e.enomem n p.enomem_pos)
  visit_pos p m desc ds release t g n h =
      ground (arith, check_size_pos p ds (expected_size m desc t) n)

  -- A positive result: the bytes are a descriptor, its size is returned, and it is entered.
  pub identify_descriptor_accepts :
      IsPositive e
      → (m : Memory) (desc size : ℕ) (release : Bool) (g : Greybus) (n : ℕ)
      → (identify_descriptor m desc size release g).0 ≡ pos n
      → IsDescriptor m desc size
        × (n ≡ le16 m desc)
        × ((identify_descriptor m desc size release g).1
            ≡ enter m desc release (type_of (m (desc + 2))) g)
  unfolding identify_descriptor
  identify_descriptor_accepts p m desc size release g n h = ground (
    arith,
    neg-ne-pos e.einval n p.einval_pos,
    visit_pos p m desc (le16 m desc) release (type_of (m (desc + 2))) g n,
  )

  -- The other way round, a descriptor is accepted, unless it is parsed and malloc fails.
  visit_enters :
      (m : Memory) (desc ds : ℕ) (release : Bool) (t : DescriptorType) (g : Greybus)
      → (release ≡ true) ⊎ ((k : ℕ) → build.malloc_ok k ≡ true)
      → t ≢ DescriptorType.invalid
      → expected_size m desc t ≤ ds
      → visit m desc ds release t g ≡ (pos ds, enter m desc release t g)
  unfolding visit visit_cport check_size
  visit_enters m desc ds release DescriptorType.invalid g ok ne h = absurd (ne refl)
  visit_enters m desc ds true DescriptorType.cport g ok ne h = ground arith
  visit_enters m desc ds false DescriptorType.cport g (inl r) ne h = cc
  visit_enters m desc ds false DescriptorType.cport g (inr ok) ne h = ground (arith, ok g.allocs)
  visit_enters m desc ds release t g ok ne h = ground arith

  pub identify_descriptor_enters :
      (m : Memory) (desc size : ℕ) (release : Bool) (g : Greybus)
      → (release ≡ true) ⊎ ((k : ℕ) → build.malloc_ok k ≡ true)
      → IsDescriptor m desc size
      → identify_descriptor m desc size release g
        ≡ (pos (le16 m desc), enter m desc release (type_of (m (desc + 2))) g)
  unfolding identify_descriptor
  identify_descriptor_enters m desc size release g ok d = ground (
    arith,
    header-le-expected_size m desc (type_of (m (desc + 2))),
    visit_enters m desc (le16 m desc) release (type_of (m (desc + 2))) g ok d.known d.enough,
  )
