-- ===== src/Manifest/Cports.antt =====
-- The lookups over the registered cports.
use greybus_for_zephyr.Base.{
  ℕ, suc, ◌+◌, ◌≤◌, ◌≡◌, refl, List, [], ◌∷◌, arith, inl, ◌⊎◌, ◌==◌, keep_if, length, All,
}
use greybus_for_zephyr.Manifest.{
  GbCport, manifest_get_num_cports, manifest_get_num_cports_bundle, num_cports_from,
  manifest_get_start_cport_bundle, start_cport_from, uint_max,
}

-- The cports of one bundle.
abbrev pub of_bundle : ℕ → List GbCport → List GbCport
of_bundle bundle_id = keep_if (λ c. c.bundle == bundle_id)

num_cports_from_lem :
    (bundle_id r : ℕ) (cs : List GbCport)
    → num_cports_from bundle_id r cs ≡ r + length (of_bundle bundle_id cs)
unfolding num_cports_from
num_cports_from_lem bundle_id r [] = omega arith
num_cports_from_lem bundle_id r (c ∷ cs) =
    ground (arith, num_cports_from_lem bundle_id r cs, num_cports_from_lem bundle_id (suc r) cs)

length-of_bundle :
    (bundle_id : ℕ) (cs : List GbCport)
    → length (of_bundle bundle_id cs) ≤ manifest_get_num_cports cs
unfolding manifest_get_num_cports
length-of_bundle bundle_id [] = omega arith
length-of_bundle bundle_id (c ∷ cs) = ground (arith, length-of_bundle bundle_id cs)

-- manifest_get_num_cports_bundle counts the cports of the bundle, which are at most all of them.
pub num_cports_bundle_counts :
    (bundle_id : ℕ) (cs : List GbCport)
    → (manifest_get_num_cports_bundle bundle_id cs ≡ length (of_bundle bundle_id cs))
      × (manifest_get_num_cports_bundle bundle_id cs ≤ manifest_get_num_cports cs)
unfolding manifest_get_num_cports_bundle
num_cports_bundle_counts bundle_id cs =
    omega (arith, num_cports_from_lem bundle_id 0 cs, length-of_bundle bundle_id cs)

-- Some cport of the list has the id `i`.
abbrev pub HasId : ℕ → List GbCport → Type 0
HasId i [] = ⊥
HasId i (c ∷ cs) = (c.id ≡ i) ⊎ HasId i cs

-- `start_cport_from` is at most its start and every id of the bundle, and is one of these.
start_cport_from_lem :
    (bundle_id k : ℕ) (cs : List GbCport)
    → (start_cport_from bundle_id k cs ≤ k)
      × All (λ c. start_cport_from bundle_id k cs ≤ c.id) (of_bundle bundle_id cs)
      × ((start_cport_from bundle_id k cs ≡ k)
          ⊎ HasId (start_cport_from bundle_id k cs) (of_bundle bundle_id cs))
unfolding start_cport_from
start_cport_from_lem bundle_id k [] = (omega arith, tt, inl refl)
start_cport_from_lem bundle_id k (c ∷ cs) =
    ground (arith, start_cport_from_lem bundle_id k cs, start_cport_from_lem bundle_id c.id cs)

-- manifest_get_start_cport_bundle returns the least cport id of the bundle: no cport of the bundle
-- has a smaller one, and the result is the id of one of them, or UINT_MAX.
pub start_cport_least :
    (bundle_id : ℕ) (cs : List GbCport)
    → let start = manifest_get_start_cport_bundle bundle_id cs in
      All (λ c. start ≤ c.id) (of_bundle bundle_id cs)
      × ((start ≡ uint_max) ⊎ HasId start (of_bundle bundle_id cs))
unfolding manifest_get_start_cport_bundle
start_cport_least bundle_id cs =
    let (_, least, found) = start_cport_from_lem bundle_id uint_max cs in (least, found)
