-- ===== src/Manifest/Blob.antt =====
-- The manifest that the interface serves, and what enables and disables it
-- (subsys/greybus/greybus-manifest.c).
use greybus_for_zephyr.Base.{ℕ, ◌<◌, ◌≡◌, ap, ◌∙◌, Bool, true, false, Option, none, some, List, All}
use greybus_for_zephyr.Errno.{Errno, IsPositive}
use greybus_for_zephyr.Manifest.{
  Memory, Greybus, Build, le16, size_mod, manifest_parse, parse_manifest_blob,
  release_manifest_blob,
}
use greybus_for_zephyr.Manifest.Layout.{listed_cports}
use greybus_for_zephyr.Manifest.Parse.{IsManifest}
use greybus_for_zephyr.Manifest.Release.{lists_id, manifest_release_undoes_parse}

-- `bridge_manifest` may be NULL.
abbrev pub set_manifest_blob : Option ℕ → Option ℕ → Option ℕ
set_manifest_blob blob bridge_manifest = blob

-- `manifest`, or get_manifest_blob() where it is NULL
abbrev pub manifest_or_blob : Option ℕ → Option ℕ → Option ℕ
manifest_or_blob none bridge_manifest = bridge_manifest
manifest_or_blob (some manifest) bridge_manifest = some manifest

abbrev pub registry : Greybus → Option (Bool × Greybus) → Greybus
registry g none = g
registry g (some (accepted, g')) = g'

module _ ⦃e : Errno⦄ ⦃build : Build⦄ where
  abbrev pub enable_blob : Memory → Option ℕ → Greybus → Greybus
  enable_blob m none g = g
  enable_blob m (some manifest) g = registry g (parse_manifest_blob m manifest g)

  -- enable_manifest, less the interface's name, which only a log message is about
  unfoldable pub enable_manifest : Memory → Option ℕ → Option ℕ → Greybus → Greybus
  enable_manifest m manifest bridge_manifest g =
      enable_blob m (manifest_or_blob manifest bridge_manifest) g

  unfoldable pub disable_manifest : Memory → Option ℕ → Greybus → Greybus
  disable_manifest m none g = g
  disable_manifest m (some manifest) g = registry g (release_manifest_blob m manifest g)

  -- Where the manifest is accepted, and lists no cport that was registered before, what is disabled
  -- behind its enabling leaves the cports as they were.
  pub disable_undoes_enable :
      IsPositive e
      → (m : Memory) (manifest : ℕ) (ds : List ℕ) (g g' : Greybus) → le16 m manifest < size_mod
      → IsManifest m manifest (le16 m manifest) ds
      → All (λ c. lists_id c.id (listed_cports m ds) ≡ false) g.cports
      → manifest_parse m manifest (le16 m manifest) g ≡ some (true, g')
      → (disable_manifest m (some manifest) (enable_manifest m none (some manifest) g)).cports
        ≡ g.cports
  unfolding enable_manifest disable_manifest parse_manifest_blob release_manifest_blob
  disable_undoes_enable p m manifest ds g g' small man fresh parsed =
      let (g'', released, same) =
        manifest_release_undoes_parse p m manifest (le16 m manifest) ds g g' small man fresh
          parsed in
      let enabled : enable_manifest m none (some manifest) g ≡ g' = ap (registry g) parsed in
      ap (λ x. (disable_manifest m (some manifest) x).cports) enabled
      ∙ ap (λ r. (registry g' r).cports) released
      ∙ same
