-- ===== src/Manifest/Bounds.antt =====
-- Which bytes the parser of subsys/greybus/greybus-manifest.c looks at.
use greybus_for_zephyr.Base.{
  ℕ, zero, suc, ◌+◌, ◌-◌, ◌*◌, ◌<◌, ◌≤◌, ◌≡◌, refl, Bool, true, false, Option, some, none, arith,
  tests, inl, inr, Bool-cases, ℤ, pos, negsuc, ◌==◌, ltb,
}
use greybus_for_zephyr.Errno.{Errno, IsPositive}
use greybus_for_zephyr.Manifest.{
  Memory, le16, Greybus, DescriptorType, Build, type_of, free_cport, alloc_cport, note_ids,
  header_size, size_mod, manifest_parse, manifest_parse_release, expected_size, check_size,
  visit_cport, visit, identify_descriptor, parse_loop, after_round, bad_header, cport_at,
}
use greybus_for_zephyr.Manifest.Step.{align-le, identify_descriptor_accepts}
use greybus_for_zephyr.Manifest.Parse.{header_iff}

-- The same bytes at the `size` addresses from `a` on.
abbrev pub Agree : Memory → Memory → ℕ → ℕ → Type 0
Agree m m' a size = (i : ℕ) → a ≤ i → i < a + size → m i ≡ m' i

-- The same registered cports, and as many calls of malloc.
pub record SameCports (g g' : Greybus) : Type 0 where
  pub same_cports : g.cports ≡ g'.cports
  pub same_allocs : g.allocs ≡ g'.allocs

bad_header-Agree :
    (m m' : Memory) (manifest size : ℕ)
    → Agree m m' manifest size
    → bad_header m manifest size ≡ bad_header m' manifest size
unfolding bad_header
bad_header-Agree m m' manifest size a =
    ground (arith, a manifest, a (manifest + 1), a (manifest + 2))

module _ ⦃e : Errno⦄ ⦃build : Build⦄ where
  expected_size-Agree :
      (m m' : Memory) (desc ds : ℕ) (t : DescriptorType)
      → Agree m m' desc ds
      → check_size ds (expected_size m desc t) ≡ check_size ds (expected_size m' desc t)
  unfolding check_size expected_size
  expected_size-Agree m m' desc ds DescriptorType.string a = ground (
    arith,
    align-le (header_size + 2 + m (desc + 4)),
    align-le (header_size + 2 + m' (desc + 4)),
    a (desc + 4),
  )
  expected_size-Agree m m' desc ds DescriptorType.property a = ground (
    arith,
    align-le (header_size + 4 + m (desc + 4)),
    align-le (header_size + 4 + m' (desc + 4)),
    a (desc + 4),
  )
  expected_size-Agree m m' desc ds _ a = refl

  note_ids-cports :
      (m : Memory) (desc : ℕ) (t : DescriptorType) (g : Greybus)
      → SameCports (note_ids m desc t g) g
  unfolding note_ids
  note_ids-cports m desc DescriptorType.string g = record { same_cports = refl; same_allocs = refl }
  note_ids-cports m desc t g = record { same_cports = refl; same_allocs = refl }

  cport_at-Agree :
      (m m' : Memory) (desc ds : ℕ)
      → header_size + 4 ≤ ds
      → Agree m m' desc ds
      → cport_at m desc ≡ cport_at m' desc
  cport_at-Agree m m' desc ds h a =
      ground (arith, a (desc + 4), a (desc + 5), a (desc + 6), a (desc + 7))

  visit_cport-Agree :
      (m m' : Memory) (desc ds : ℕ) (release : Bool) (g g' : Greybus)
      → header_size + 4 ≤ ds
      → Agree m m' desc ds
      → SameCports g g'
      → ((visit_cport m desc ds release g).0 ≡ (visit_cport m' desc ds release g').0)
        × SameCports (visit_cport m desc ds release g).1 (visit_cport m' desc ds release g').1
  unfolding visit_cport alloc_cport free_cport
  visit_cport-Agree m m' desc ds true g g' h a s =
      (refl, ground (arith, a (desc + 4), a (desc + 5)))
  visit_cport-Agree m m' desc ds false g g' h a s =
      (ground arith, ground (arith, cport_at-Agree m m' desc ds h a))

  visit-Agree :
      (m m' : Memory) (desc ds : ℕ) (release : Bool) (t : DescriptorType) (g g' : Greybus)
      → Agree m m' desc ds
      → SameCports g g'
      → ((visit m desc ds release t g).0 ≡ (visit m' desc ds release t g').0)
        × SameCports (visit m desc ds release t g).1 (visit m' desc ds release t g').1
  unfolding visit expected_size
  visit-Agree m m' desc ds release DescriptorType.invalid g g' a s = (refl, s)
  visit-Agree m m' desc ds release DescriptorType.cport g g' a s =
      elim (Bool-cases (ltb ds (expected_size m desc DescriptorType.cport))) [
        | inl short ↦ rw (short, expected_size) (refl, s)
        | inr long ↦ rw long (visit_cport-Agree m m' desc ds release g g' (ground arith) a s)
      ]
  visit-Agree m m' desc ds release t g g' a s = (
    expected_size-Agree m m' desc ds t a,
    ground (arith, note_ids-cports m desc t g, note_ids-cports m' desc t g'),
  )

  identify_descriptor-Agree :
      (m m' : Memory) (desc size : ℕ) (release : Bool) (g g' : Greybus)
      → Agree m m' desc size
      → SameCports g g'
      → ((identify_descriptor m desc size release g).0
          ≡ (identify_descriptor m' desc size release g').0)
        × SameCports
            (identify_descriptor m desc size release g).1
            (identify_descriptor m' desc size release g').1
  unfolding identify_descriptor
  identify_descriptor-Agree m m' desc size release g g' a s =
      elim (Bool-cases (ltb size header_size)) [
        | inl short ↦ rw short (refl, s)
        | inr long ↦
            let byte : m desc ≡ m' desc = a desc (omega arith) (omega (tests)) in
            let high : m (desc + 1) ≡ m' (desc + 1) = a (desc + 1) (omega arith) (omega tests) in
            let code : m (desc + 2) ≡ m' (desc + 2) = a (desc + 2) (omega arith) (omega tests) in
            elim (Bool-cases (ltb size (m' desc + 256 * m' (desc + 1)))) [
              | inl big ↦ rw (long, byte, high, big) (refl, s)
              | inr fits ↦
                  rw (long, byte, high, code, fits)
                    (visit-Agree m m' desc (le16 m' desc) release (type_of (m' (desc + 2))) g g'
                      (λ i lo hi. a i lo (omega tests)) s)
            ]
      ]

  -- Two outcomes with the same verdict and the same cports.
  abbrev pub Alike : Option (Bool × Greybus) → Option (Bool × Greybus) → Type 0
  Alike none none = Unit
  Alike (some (r, g)) (some (r', g')) = (r ≡ r') × SameCports g g'
  Alike _ _ = ⊥

  after_round_agree :
      (rest rest' : ℕ → Greybus → Option (Bool × Greybus)) (x x' : ℤ × Greybus)
      → x.0 ≡ x'.0
      → SameCports x.1 x'.1
      → ((n : ℕ) (g g' : Greybus) → x.0 ≡ pos n → SameCports g g' → Alike (rest n g) (rest' n g'))
      → Alike (after_round rest x) (after_round rest' x')
  after_round_agree rest rest' (pos zero, g) (x', g') same s h = rw (← same) (refl, s)
  after_round_agree rest rest' (pos (suc n), g) (x', g') same s h =
      rw (← same) (h (suc n) g g' refl s)
  after_round_agree rest rest' (negsuc n, g) (x', g') same s h = rw (← same) (refl, s)

  parse_loop-Agree :
      IsPositive e
      → (fuel : ℕ) (m m' : Memory) (desc size : ℕ) (release : Bool) (g g' : Greybus)
      → Agree m m' desc size
      → SameCports g g'
      → Alike (parse_loop fuel m desc size release g) (parse_loop fuel m' desc size release g')
  unfolding parse_loop
  parse_loop-Agree p zero m m' desc size release g g' a s = tt
  parse_loop-Agree p (suc fuel) m m' desc size release g g' a s = elim (Bool-cases (size == 0)) [
    | inl done ↦ rw done (refl, s)
    | inr more ↦
        let (same, s') = identify_descriptor-Agree m m' desc size release g g' a s in
        rw more (
          after_round_agree _ _ _ _ same s' (λ n g₁ g₂ eq s₁.
            let (d, len, _) = identify_descriptor_accepts p m desc size release g n eq in
            parse_loop-Agree p fuel m m' (desc + n) (size - n) release g₁ g₂
              (λ i lo hi. a i (omega arith) (omega (arith, d.fits, len))) s₁))
  ]

  -- Memory safety of the outcome: the verdict of _manifest_parse and the cports that it leaves
  -- registered depend only on the bytes of the buffer, in parse mode whatever its size. The code
  -- does read up to two bytes behind the buffer's end, of a descriptor that it then rejects.
  pub manifest_parse_in_bounds :
      IsPositive e
      → (m m' : Memory) (manifest size : ℕ) (g : Greybus) → size < size_mod
      → Agree m m' manifest size
      → Alike (manifest_parse m manifest size g) (manifest_parse m' manifest size g)
  unfolding manifest_parse manifest_parse_release
  manifest_parse_in_bounds p m m' manifest size g small a =
      elim (Bool-cases (bad_header m' manifest size)) [
        | inl bad ↦ rw (bad_header-Agree m m' manifest size a, bad) (refl, here)
        | inr good ↦
            rw (bad_header-Agree m m' manifest size a, good)
              (parse_loop-Agree p _ m m' (manifest + header_size) _ false g g
                (λ i lo hi. a i (omega arith) (omega (arith, (header_iff m' manifest size).0 good)))
                here)
      ]
    where
      here : SameCports g g
      here = record { same_cports = refl; same_allocs = refl }
