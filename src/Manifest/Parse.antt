-- ===== src/Manifest/Parse.antt =====
-- _manifest_parse of subsys/greybus/greybus-manifest.c against the format.
use greybus_for_zephyr.Base.{
  ℕ, zero, suc, ◌+◌, ◌-◌, ◌%◌, ◌≤◌, ◌<◌, max, ◌≡◌, ◌↔◌, ◌⊎◌, refl, sym, ap, ◌∙◌, Bool, true, false,
  Option, some, List, [], ◌∷◌, ◌++◌, ℤ, pos, negsuc, arith, ◌==◌, if◌then◌else◌, Bool-cases, ==→ne,
  ne→==, ==→eq, inl, inr, not, ◌&&◌,
}
use greybus_for_zephyr.Errno.{Errno, IsPositive}
use greybus_for_zephyr.Manifest.{
  Memory, le16, Greybus, Build, identify_descriptor, parse_loop, after_round, type_of,
  manifest_parse_release, manifest_parse, header_size, version_major, size_mod, bad_header,
}
use greybus_for_zephyr.Manifest.Step.{
  IsDescriptor-le, enter, identify_descriptor_accepts, identify_descriptor_enters,
}
use greybus_for_zephyr.Manifest.Layout.{
  Layout, enter_all, enter_all-cports, enter_all-max_bundle_id, listed_cports, listed_bundles,
}
use mathlib.Core.List.{foldl}

after_round_pos :
    (rest : ℕ → Greybus → Option (Bool × Greybus)) (n : ℕ)
    → 0 < n
    → (g : Greybus) → after_round rest (pos n, g) ≡ rest n g
after_round_pos rest zero h g = absurd (omega arith)
after_round_pos rest (suc n) h g = refl

module _ ⦃e : Errno⦄ ⦃build : Build⦄ where
  -- The loop ends within `size + 1` rounds, whatever the bytes are.
  pub parse_loop_total :
      IsPositive e
      → (fuel : ℕ) (m : Memory) (desc size : ℕ) (release : Bool) (g : Greybus) → size < fuel
      → (r : Bool × Greybus) × (parse_loop fuel m desc size release g ≡ some r)
  unfolding parse_loop
  parse_loop_total p zero m desc size release g h = absurd (omega arith)
  parse_loop_total p (suc fuel) m desc size release g h =
      go (identify_descriptor m desc size release g)
        (λ n g' k. parse_loop_total p fuel m (desc + suc n) (size - suc n) release g' (omega arith))
    where
      go :
          (r : ℤ × Greybus)
          → ((n : ℕ) (g' : Greybus)
              → 0 < size
              → (x : Bool × Greybus) × (parse_loop fuel m (desc + suc n) (size - suc n) release g'
                  ≡ some x))
          → (x : Bool × Greybus) × ((if size == 0
                then some (true, g)
                else after_round (λ n g'. parse_loop fuel m (desc + n) (size - n) release g') r)
              ≡ some x)
      go (pos zero, g') ih = elim (Bool-cases (size == 0)) [
        | inl done ↦ ((true, g), ground arith)
        | inr more ↦ ((false, g'), ground arith)
      ]
      go (pos (suc n), g') ih = elim (Bool-cases (size == 0)) [
        | inl done ↦ ((true, g), ground arith)
        | inr more ↦ let (x, eq) = ih n g' (omega (arith, ==→ne size 0 more)) in (x, rw more eq)
      ]
      go (negsuc n, g') ih = elim (Bool-cases (size == 0)) [
        | inl done ↦ ((true, g), ground arith)
        | inr more ↦ ((false, g'), ground arith)
      ]

  -- An accepting run has read a run of descriptors, and has entered each of them.
  pub parse_loop_accepts :
      IsPositive e
      → (fuel : ℕ) (m : Memory) (desc size : ℕ) (release : Bool) (g g' : Greybus)
      → parse_loop fuel m desc size release g ≡ some (true, g')
      → (ds : List ℕ) × Layout m desc size ds × (g' ≡ enter_all m release ds g)
  unfolding parse_loop
  parse_loop_accepts p zero m desc size release g g' h = cc
  parse_loop_accepts p (suc fuel) m desc size release g g' h = elim (Bool-cases (size == 0)) [
    | inl done ↦ ([], omega (arith, ==→eq size 0 done), ground arith)
    | inr more ↦
        go (identify_descriptor m desc size release g) refl (rw more at h)
          (λ n g₁. parse_loop_accepts p fuel m (desc + n) (size - n) release g₁ g')
  ]
    where
      go :
          (r : ℤ × Greybus)
          → identify_descriptor m desc size release g ≡ r
          → after_round (λ n g₁. parse_loop fuel m (desc + n) (size - n) release g₁) r
            ≡ some (true, g')
          → ((n : ℕ) (g₁ : Greybus)
              → parse_loop fuel m (desc + n) (size - n) release g₁ ≡ some (true, g')
              → (ds : List ℕ) × Layout m (desc + n) (size - n) ds
                × (g' ≡ enter_all m release ds g₁))
          → (ds : List ℕ) × Layout m desc size ds × (g' ≡ enter_all m release ds g)
      go (pos zero, g₁) eq k ih = cc
      go (pos (suc n), g₁) eq k ih =
          let (d, len, entered) =
            identify_descriptor_accepts p m desc size release g (suc n) (ap (λ x. x.0) eq) in
          let (ds, l, all) = ih (suc n) g₁ k in
          (
            desc ∷ ds,
            (refl, d, rw len at l),
            all ∙ ap (enter_all m release ds) (sym (ap (λ x. x.1) eq) ∙ entered),
          )
      go (negsuc n, g₁) eq k ih = cc

  -- A run of descriptors is accepted, and each is entered, as long as malloc succeeds
  -- when it is called.
  pub parse_loop_enters :
      (fuel : ℕ) (m : Memory) (desc size : ℕ) (release : Bool) (g : Greybus) (ds : List ℕ)
      → (release ≡ true) ⊎ ((k : ℕ) → build.malloc_ok k ≡ true)
      → size < fuel
      → Layout m desc size ds
      → parse_loop fuel m desc size release g ≡ some (true, enter_all m release ds g)
  unfolding parse_loop
  parse_loop_enters zero m desc size release g ds ok h l = absurd (omega arith)
  parse_loop_enters (suc fuel) m desc size release g [] ok h l = rw l
  parse_loop_enters (suc fuel) m desc size release g (d ∷ ds) ok h (same, isd, l) =
      let four = IsDescriptor-le m desc size isd in
      rw
        (
          ne→== size 0 (omega (arith, isd.fits)),
          identify_descriptor_enters m desc size release g ok isd,
          after_round_pos (λ n g'. parse_loop fuel m (desc + n) (size - n) release g') (le16 m desc)
              (omega (arith, four)),
          same,
        )
        (parse_loop_enters fuel m (desc + le16 m desc) (size - le16 m desc) release
          (enter m desc release (type_of (m (desc + 2))) g) ds ok (omega (arith, isd.fits)) l)

  -- Neither parsing nor release can run forever, on any bytes and any size: the fuel that the
  -- model gives the loop is never used up.
  pub manifest_parse_total :
      IsPositive e
      → (m : Memory) (manifest size : ℕ) (release : Bool) (g : Greybus)
      → (r : Bool × Greybus) × (manifest_parse_release m manifest size release g ≡ some r)
  unfolding manifest_parse_release
  manifest_parse_total p m manifest size release g =
      let rest = (size + size_mod - header_size) % size_mod in
      let (r, eq) =
        parse_loop_total p (suc rest) m (manifest + header_size) rest release g (omega arith) in
      elim (Bool-cases (not release && bad_header m manifest size)) [
        | inl bad ↦ ((false, g), rw bad)
        | inr good ↦ (r, rw good eq)
      ]

  -- What a manifest must be for manifest_parse to accept it: the size field states the size, the
  -- version is one that is known, and descriptors fill the rest.
  pub record IsManifest (m : Memory) (manifest size : ℕ) (ds : List ℕ) : Type 0 where
    pub has_header : header_size < size
    pub states_size : le16 m manifest ≡ size
    pub version : m (manifest + 2) ≤ version_major
    pub layout : Layout m (manifest + header_size) (size - header_size) ds

  pub header_iff :
      (m : Memory) (manifest size : ℕ)
      → (bad_header m manifest size ≡ false)
        ↔ ((header_size < size) × (le16 m manifest ≡ size) × (m (manifest + 2) ≤ version_major))
  unfolding bad_header
  header_iff m manifest size =
      (λ h. (ground arith, ground arith, ground arith), λ (a, b, c). ground arith)

  -- Soundness: an accepted buffer is a manifest, the cports that it lists were appended in
  -- order, and the largest bundle id is the largest of those listed and the old one.
  pub manifest_parse_accepts :
      IsPositive e
      → (m : Memory) (manifest size : ℕ) (g g' : Greybus) → size < size_mod
      → manifest_parse m manifest size g ≡ some (true, g')
      → (ds : List ℕ) × IsManifest m manifest size ds
        × (g'.cports ≡ g.cports ++ listed_cports m ds)
        × (g'.max_bundle_id ≡ foldl max g.max_bundle_id (listed_bundles m ds))
  unfolding manifest_parse manifest_parse_release
  manifest_parse_accepts p m manifest size g g' small h =
      elim (Bool-cases (bad_header m manifest size)) [
        | inl bad ↦ cc (rw bad at h)
        | inr good ↦
            let (long, states, version) = (header_iff m manifest size).0 good in
            let same : (size + size_mod - header_size) % size_mod ≡ size - header_size =
              omega (arith, long) in
            let run = rw (good, same) at h in
            let (ds, l, all) =
              parse_loop_accepts p (suc (size - header_size)) m (manifest + header_size)
                (size - header_size) false g g' run in
            (
              ds,
              record { has_header = long; states_size = states; version = version; layout = l },
              ap (λ x. x.cports) all ∙ enter_all-cports m ds g,
              ap (λ x. x.max_bundle_id) all ∙ enter_all-max_bundle_id m ds false g,
            )
      ]

  -- Completeness: a manifest is accepted, and each of its descriptors is entered, if malloc
  -- succeeds.
  pub manifest_parse_complete :
      (m : Memory) (manifest size : ℕ) (g : Greybus) (ds : List ℕ)
      → ((k : ℕ) → build.malloc_ok k ≡ true)
      → size < size_mod
      → IsManifest m manifest size ds
      → manifest_parse m manifest size g ≡ some (true, enter_all m false ds g)
  unfolding manifest_parse manifest_parse_release
  manifest_parse_complete m manifest size g ds ok small man =
      let same : (size + size_mod - header_size) % size_mod ≡ size - header_size =
        omega (arith, man.has_header) in
      rw ((header_iff m manifest size).1 (man.has_header, man.states_size, man.version), same)
        (parse_loop_enters (suc (size - header_size)) m (manifest + header_size)
          (size - header_size) false g ds (inr ok) (omega arith) man.layout)
