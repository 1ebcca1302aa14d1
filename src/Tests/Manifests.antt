-- ===== src/Tests/Manifests.antt =====
-- A manifest of a bundle and a cport, and tables of handlers and cports.
use greybus_for_zephyr.Base.{
  ℕ, zero, suc, ◌+◌, ◌<◌, ◌≤◌, ◌≡◌, ◌≢◌, ◌↔◌, refl, max, Bool, true, false, Option, none, some,
  List, [], ◌∷◌, ◌++◌, pos, negsuc, arith, get_elem?, get_elem?-some, All, ◌⊎◌,
}
use mathlib.Core.List.{foldl}
use greybus_for_zephyr.OpResult
use greybus_for_zephyr.Errno.{gb_errno_to_op_result}
use greybus_for_zephyr.Errno.Results.{errno_success}
use greybus_for_zephyr.Manifest.{
  Memory, Greybus, GbCport, g_greybus, type_of, expected_size, manifest_parse,
  manifest_parse_release, manifest_release, manifest_get_start_cport_bundle, uint_max,
}
use greybus_for_zephyr.Manifest.Step.{IsDescriptor}
use greybus_for_zephyr.Manifest.Layout.{enter_all, listed_cports, listed_bundles}
use greybus_for_zephyr.Manifest.Parse.{
  IsManifest, manifest_parse_total, manifest_parse_accepts, manifest_parse_complete,
}
use greybus_for_zephyr.Manifest.Release.{manifest_release_undoes_parse}
use greybus_for_zephyr.Manifest.Bounds.{Alike, manifest_parse_in_bounds}
use greybus_for_zephyr.Manifest.Cports.{of_bundle, HasId, start_cport_least}
use greybus_for_zephyr.Manifest.Protocols.{Config, enable_cports}
use greybus_for_zephyr.Manifest.Protocols.Calls.{wanted_calls, enable_cports_registers}
use greybus_for_zephyr.Handlers.{Handler, find_operation_handler, compare_handlers_le}
use greybus_for_zephyr.Handlers.Search.{IsTable, find_operation_handler-decides}
use greybus_for_zephyr.Handlers.Sort.{IsSorted}
use greybus_for_zephyr.Tests.Samples.{
  posix, posix-IsPositive, plain_build, ping_handlers, ping_driver,
}

abbrev bytes : List ℕ
bytes = 20 ∷ 0 ∷ 0 ∷ 1 ∷ 8 ∷ 0 ∷ 3 ∷ 0 ∷ 1 ∷ 2 ∷ 0 ∷ 0 ∷ 8 ∷ 0 ∷ 4 ∷ 0 ∷ 5 ∷ 0 ∷ 1 ∷ 2 ∷ []

abbrev or_byte : ℕ → Option ℕ → ℕ
or_byte b none = b
or_byte b (some x) = x

-- The manifest at address 0, with `b` at each address behind it.
abbrev memory : ℕ → Memory
memory b a = or_byte b (get_elem? bytes a)

bundle-IsDescriptor : IsDescriptor (memory 0) 4 16
unfolding type_of expected_size
bundle-IsDescriptor = record { fits = omega arith; known = λ h. cc; enough = omega arith }

cport-IsDescriptor : IsDescriptor (memory 0) 12 8
unfolding type_of expected_size
cport-IsDescriptor = record { fits = omega arith; known = λ h. cc; enough = omega arith }

bytes-IsManifest : IsManifest (memory 0) 0 20 (4 ∷ 12 ∷ [])
bytes-IsManifest = record {
  has_header = omega arith;
  states_size = refl;
  version = omega arith;
  layout = (refl, bundle-IsDescriptor, (refl, cport-IsDescriptor, refl));
}

abbrev parsed : Greybus
parsed = enter_all (memory 0) false (4 ∷ 12 ∷ []) g_greybus

manifest_parse_complete_example : manifest_parse (memory 0) 0 20 g_greybus ≡ some (true, parsed)
manifest_parse_complete_example =
    manifest_parse_complete (memory 0) 0 20 g_greybus (4 ∷ 12 ∷ []) (λ k. refl) (omega arith)
      bytes-IsManifest

bytes_parsed : manifest_parse (memory 0) 0 20 g_greybus ≡ some (true, parsed)
bytes_parsed =
    manifest_parse_complete (memory 0) 0 20 g_greybus (4 ∷ 12 ∷ []) (λ k. refl) (omega arith)
      bytes-IsManifest

manifest_parse_accepts_example :
    (ds : List ℕ) × IsManifest (memory 0) 0 20 ds
    × (parsed.cports ≡ [] ++ listed_cports (memory 0) ds)
    × (parsed.max_bundle_id ≡ foldl max 0 (listed_bundles (memory 0) ds))
manifest_parse_accepts_example =
    manifest_parse_accepts posix-IsPositive (memory 0) 0 20 g_greybus parsed (omega arith)
      bytes_parsed

manifest_parse_total_example :
    (r : Bool × Greybus) × (manifest_parse_release (memory 0) 0 3 true g_greybus ≡ some r)
manifest_parse_total_example = manifest_parse_total posix-IsPositive (memory 0) 0 3 true g_greybus

manifest_release_undoes_parse_example :
    (g'' : Greybus) × (manifest_release (memory 0) 0 20 parsed ≡ some (true, g''))
    × (g''.cports ≡ [])
manifest_release_undoes_parse_example =
    manifest_release_undoes_parse posix-IsPositive (memory 0) 0 20 (4 ∷ 12 ∷ []) g_greybus parsed
      (omega arith) bytes-IsManifest tt bytes_parsed

bytes_agree : (b i : ℕ) → 0 ≤ i → i < 0 + 20 → memory 0 i ≡ memory b i
bytes_agree b i lo hi = let (x, at_i) = get_elem?-some bytes i hi in rw at_i refl

manifest_parse_in_bounds_example :
    Alike (manifest_parse (memory 0) 0 20 g_greybus) (manifest_parse (memory 255) 0 20 g_greybus)
manifest_parse_in_bounds_example =
    manifest_parse_in_bounds posix-IsPositive (memory 0) (memory 255) 0 20 g_greybus (omega arith)
      (bytes_agree 255)

abbrev two_cports : List GbCport
two_cports =
    record { id = 5; bundle = 1; protocol = 2 }
    ∷ record { id = 3; bundle = 1; protocol = 0xfe }
    ∷ []

start_cport_least_example :
    let start = manifest_get_start_cport_bundle 1 two_cports in
    All (λ c. start ≤ c.id) (of_bundle 1 two_cports)
    × ((start ≡ uint_max) ⊎ HasId start (of_bundle 1 two_cports))
start_cport_least_example = start_cport_least 1 two_cports

abbrev all_protocols : Config
all_protocols = record { has = λ p. true; has_audio = false }

enable_cports_registers_example :
    enable_cports all_protocols two_cports ≡ wanted_calls all_protocols two_cports
enable_cports_registers_example = enable_cports_registers all_protocols two_cports

ping_handlers-IsSorted : IsSorted ping_handlers
unfolding compare_handlers_le
ping_handlers-IsSorted zero zero a b lt at_i at_j = absurd (omega arith)
ping_handlers-IsSorted zero (suc zero) a b lt at_i at_j = ground arith
ping_handlers-IsSorted zero (suc (suc j)) a b lt at_i at_j = cc
ping_handlers-IsSorted (suc zero) zero a b lt at_i at_j = absurd (omega arith)
ping_handlers-IsSorted (suc zero) (suc zero) a b lt at_i at_j = absurd (omega arith)
ping_handlers-IsSorted (suc zero) (suc (suc j)) a b lt at_i at_j = cc
ping_handlers-IsSorted (suc (suc i)) j a b lt at_i at_j = cc

ping_driver-IsTable : IsTable ping_driver ping_handlers
ping_driver-IsTable = record { handlers = refl; count = refl; in_order = ping_handlers-IsSorted }

find_operation_handler-decides_example :
    ((h : Handler) × (find_operation_handler 2 ping_driver ≡ some h)
      × (h.typ ≡ 2)
      × (i : ℕ) × (get_elem? ping_handlers i ≡ some h))
    ⊎ ((find_operation_handler 2 ping_driver ≡ none) × All (λ x. x.typ ≢ 2) ping_handlers)
find_operation_handler-decides_example =
    find_operation_handler-decides 2 ping_driver ping_handlers ping_driver-IsTable (omega arith)

errno_success_example : (gb_errno_to_op_result (negsuc 11) ≡ OpResult.success) ↔ (negsuc 11 ≡ pos 0)
errno_success_example = errno_success (negsuc 11)
