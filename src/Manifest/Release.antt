-- ===== src/Manifest/Release.antt =====
-- manifest_parse and manifest_release of subsys/greybus/greybus-manifest.c, one behind the other.
use greybus_for_zephyr.Base.{
  ℕ, suc, ◌+◌, ◌-◌, ◌<◌, ◌%◌, ◌≡◌, refl, sym, ap, ◌∙◌, Bool, true, false, not, ◌||◌, ◌==◌, some,
  List, [], ◌∷◌, ◌++◌, arith, keep_if, keep_if-append, All, inl,
}
use mathlib.Core.List.{append-nil}
use mathlib.Core.Path.{fun_ext}
use greybus_for_zephyr.Errno.{Errno, IsPositive}
use greybus_for_zephyr.Manifest.{
  Memory, le16, Greybus, GbCport, DescriptorType, Build, type_of, free_cport, note_ids, header_size,
  size_mod, manifest_parse, manifest_parse_release, manifest_release,
}
use greybus_for_zephyr.Manifest.Step.{enter, IsDescriptor-le}
use greybus_for_zephyr.Manifest.Layout.{Layout, enter_all, listed_cport, listed_cports}
use greybus_for_zephyr.Manifest.Parse.{IsManifest, manifest_parse_accepts, parse_loop_enters}

-- Some cport of the list has the id `i`.
abbrev pub lists_id : ℕ → List GbCport → Bool
lists_id i [] = false
lists_id i (c ∷ cs) = (i == c.id) || lists_id i cs

lists_id-append :
    (i : ℕ) (xs ys : List GbCport) → lists_id i (xs ++ ys) ≡ (lists_id i xs || lists_id i ys)
lists_id-append i [] ys = refl
lists_id-append i (x ∷ xs) ys = ground (arith, lists_id-append i xs ys)

-- The cports whose ids `l` does not list.
abbrev pub without : List GbCport → List GbCport → List GbCport
without l = keep_if (λ c. not (lists_id c.id l))

without-append : (k l xs : List GbCport) → without l (without k xs) ≡ without (k ++ l) xs
without-append k l [] = refl
without-append k l (x ∷ xs) = ground (arith, lists_id-append x.id k l, without-append k l xs)

or-false : (b : Bool) → b ≡ (b || false)
or-false true = refl
or-false false = refl

without-nil : (xs : List GbCport) → without [] xs ≡ xs
without-nil [] = refl
without-nil (x ∷ xs) = ap (λ l. x ∷ l) (without-nil xs)

without-fresh : (l xs : List GbCport) → All (λ c. lists_id c.id l ≡ false) xs → without l xs ≡ xs
without-fresh l [] h = refl
without-fresh l (x ∷ xs) h = ground (arith, without-fresh l xs h.1)

-- Every cport that is listed goes, also if an id is listed twice.
without-All : (k l : List GbCport) → All (λ c. lists_id c.id l ≡ true) k → without l k ≡ []
without-All [] l h = refl
without-All (x ∷ k) l h = ground (arith, without-All k l h.1)

All-lists_id-weaken :
    (c : GbCport) (k l : List GbCport)
    → All (λ x. lists_id x.id l ≡ true) k
    → All (λ x. lists_id x.id (c ∷ l) ≡ true) k
All-lists_id-weaken c [] l h = tt
All-lists_id-weaken c (x ∷ k) l h = (ground arith, All-lists_id-weaken c k l h.1)

All-lists_id : (l : List GbCport) → All (λ x. lists_id x.id l ≡ true) l
All-lists_id [] = tt
All-lists_id (x ∷ l) = (ground arith, All-lists_id-weaken x l l (All-lists_id l))

module _ ⦃build : Build⦄ where
  release-cports :
      (m : Memory) (d : ℕ) (t : DescriptorType) (g : Greybus)
      → (enter m d true t g).cports ≡ without (listed_cport m d t) g.cports
  unfolding free_cport note_ids
  release-cports m d DescriptorType.cport g =
      ap (λ p. keep_if p g.cports) (fun_ext λ c. ap not (or-false (c.id == le16 m (d + 4))))
  release-cports m d t g = sym (without-nil g.cports)

  release_all-cports :
      (m : Memory) (ds : List ℕ) (g : Greybus)
      → (enter_all m true ds g).cports ≡ without (listed_cports m ds) g.cports
  release_all-cports m [] g = sym (without-nil g.cports)
  release_all-cports m (d ∷ ds) g =
      let t = type_of (m (d + 2)) in
      release_all-cports m ds (enter m d true t g)
      ∙ ap (without (listed_cports m ds)) (release-cports m d t g)
      ∙ without-append (listed_cport m d t) (listed_cports m ds) g.cports

  Layout-unique :
      (m : Memory) (desc size : ℕ) (ds es : List ℕ)
      → Layout m desc size ds
      → Layout m desc size es
      → ds ≡ es
  Layout-unique m desc size [] [] k l = refl
  Layout-unique m desc size [] (e ∷ es) k (same, d, l) =
      absurd (omega (arith, IsDescriptor-le m desc size d, d.fits))
  Layout-unique m desc size (d ∷ ds) [] (same, isd, k) l =
      absurd (omega (arith, IsDescriptor-le m desc size isd, isd.fits))
  Layout-unique m desc size (d ∷ ds) (e ∷ es) (p, _, k) (q, _, l) =
      cc (Layout-unique m (desc + le16 m desc) (size - le16 m desc) ds es k l)

module _ ⦃e : Errno⦄ ⦃build : Build⦄ where
  -- Releasing a manifest succeeds without malloc, and drops exactly the cports whose ids it lists.
  manifest_release-without :
      (m : Memory) (manifest size : ℕ) (ds : List ℕ) (g : Greybus)
      → size < size_mod
      → IsManifest m manifest size ds
      → manifest_release m manifest size g ≡ some (true, enter_all m true ds g)
  unfolding manifest_release manifest_parse_release
  manifest_release-without m manifest size ds g small man =
      let same : (size + size_mod - header_size) % size_mod ≡ size - header_size =
        omega (arith, man.has_header) in
      rw same (
        parse_loop_enters (suc (size - header_size)) m (manifest + header_size) (size - header_size)
          true g ds (inl refl) (omega arith) man.layout)

  -- Round trip: after manifest_parse accepts a manifest none of whose cport ids was registered
  -- before, manifest_release of the same bytes succeeds and leaves the list of cports as it was.
  -- Any other cports would be dropped with the manifest's if they had one of its ids.
  pub manifest_release_undoes_parse :
      IsPositive e
      → (m : Memory) (manifest size : ℕ) (ds : List ℕ) (g g' : Greybus) → size < size_mod
      → IsManifest m manifest size ds
      → All (λ c. lists_id c.id (listed_cports m ds) ≡ false) g.cports
      → manifest_parse m manifest size g ≡ some (true, g')
      → (g'' : Greybus) × (manifest_release m manifest size g' ≡ some (true, g''))
        × (g''.cports ≡ g.cports)
  manifest_release_undoes_parse p m manifest size ds g g' small man fresh parsed =
      let (es, man', cs, _) = manifest_parse_accepts p m manifest size g g' small parsed in
      let same = Layout-unique m _ _ es ds man'.layout man.layout in
      let listed = listed_cports m ds in
      (
        enter_all m true ds g',
        manifest_release-without m manifest size ds g' small man,
        release_all-cports m ds g'
            ∙ ap (without listed) (cs ∙ ap (λ l. g.cports ++ listed_cports m l) same)
            ∙ keep_if-append (λ c. not (lists_id c.id listed)) g.cports listed
            ∙ ap (λ l. l ++ without listed listed) (without-fresh listed g.cports fresh)
            ∙ ap (λ l. g.cports ++ l) (without-All listed listed (All-lists_id listed))
            ∙ append-nil g.cports,
      )
