-- ===== src/Manifest/Layout.antt =====
-- The manifest format, apart from the parser: a run of descriptors that fills its bytes.
use greybus_for_zephyr.Base.{
  ℕ, ◌+◌, ◌-◌, ◌≡◌, refl, sym, ap, ◌∙◌, Bool, true, false, List, [], ◌∷◌, ◌++◌, max,
}
use mathlib.Core.List.{append-nil, append_assoc, foldl, foldl-append}
use greybus_for_zephyr.Manifest.{
  Memory, le16, Greybus, GbCport, DescriptorType, Build, type_of, free_cport, alloc_cport, note_ids,
  cport_at,
}
use greybus_for_zephyr.Manifest.Step.{IsDescriptor, enter}

module _ ⦃build : Build⦄ where
  -- `ds` are the addresses of descriptors that lie one behind the other from `desc` on and fill
  -- `size` bytes exactly.
  abbrev pub Layout : Memory → ℕ → ℕ → List ℕ → Type 0
  Layout m desc size [] = size ≡ 0
  Layout m desc size (d ∷ ds) =
      (d ≡ desc) × IsDescriptor m desc size × Layout m (desc + le16 m desc) (size - le16 m desc) ds

  -- The cport that a descriptor of type `t` lists, if any.
  abbrev pub listed_cport : Memory → ℕ → DescriptorType → List GbCport
  listed_cport m d DescriptorType.cport = cport_at m d ∷ []
  listed_cport m d t = []

  -- The cports that the descriptors list, in order.
  abbrev pub listed_cports : Memory → List ℕ → List GbCport
  listed_cports m [] = []
  listed_cports m (d ∷ ds) = listed_cport m d (type_of (m (d + 2))) ++ listed_cports m ds

  -- The bundle ids that the descriptors list, in order.
  abbrev pub listed_bundle : Memory → ℕ → DescriptorType → List ℕ
  listed_bundle m d DescriptorType.bundle = m (d + 4) ∷ []
  listed_bundle m d t = []

  abbrev pub listed_bundles : Memory → List ℕ → List ℕ
  listed_bundles m [] = []
  listed_bundles m (d ∷ ds) = listed_bundle m d (type_of (m (d + 2))) ++ listed_bundles m ds

  -- All descriptors entered, from the first to the last.
  abbrev pub enter_all : Memory → Bool → List ℕ → Greybus → Greybus
  enter_all m release [] g = g
  enter_all m release (d ∷ ds) g =
      enter_all m release ds (enter m d release (type_of (m (d + 2))) g)

  enter_cports :
      (m : Memory) (d : ℕ) (t : DescriptorType) (g : Greybus)
      → (enter m d false t g).cports ≡ g.cports ++ listed_cport m d t
  unfolding alloc_cport note_ids
  enter_cports m d DescriptorType.cport g = refl
  enter_cports m d t g = sym (append-nil g.cports)

  pub enter_all-cports :
      (m : Memory) (ds : List ℕ) (g : Greybus)
      → (enter_all m false ds g).cports ≡ g.cports ++ listed_cports m ds
  enter_all-cports m [] g = sym (append-nil g.cports)
  enter_all-cports m (d ∷ ds) g =
      let t = type_of (m (d + 2)) in
      enter_all-cports m ds (enter m d false t g)
      ∙ ap (λ cs. cs ++ listed_cports m ds) (enter_cports m d t g)
      ∙ append_assoc g.cports (listed_cport m d t) (listed_cports m ds)

  -- In either mode the largest bundle id is the largest seen.
  pub enter-max_bundle_id :
      (m : Memory) (d : ℕ) (release : Bool) (t : DescriptorType) (g : Greybus)
      → (enter m d release t g).max_bundle_id ≡ foldl max g.max_bundle_id (listed_bundle m d t)
  unfolding alloc_cport note_ids free_cport
  enter-max_bundle_id m d true DescriptorType.cport g = refl
  enter-max_bundle_id m d false DescriptorType.cport g = refl
  enter-max_bundle_id m d true t g = refl
  enter-max_bundle_id m d false t g = refl

  pub enter_all-max_bundle_id :
      (m : Memory) (ds : List ℕ) (release : Bool) (g : Greybus)
      → (enter_all m release ds g).max_bundle_id ≡ foldl max g.max_bundle_id (listed_bundles m ds)
  enter_all-max_bundle_id m [] release g = refl
  enter_all-max_bundle_id m (d ∷ ds) release g =
      let t = type_of (m (d + 2)) in
      enter_all-max_bundle_id m ds release (enter m d release t g)
      ∙ ap (λ b. foldl max b (listed_bundles m ds)) (enter-max_bundle_id m d release t g)
      ∙ sym (foldl-append max g.max_bundle_id (listed_bundle m d t) (listed_bundles m ds))
