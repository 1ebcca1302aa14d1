-- ===== src/Platform/Mapping.antt =====
-- That the mapping of cports to devices is one to one (subsys/greybus/platform/platform.c).
use greybus_for_zephyr.Base.{
  ℕ, ◌-◌, ◌%◌, ◌^◌, ◌<◌, ◌≡◌, ◌≢◌, ◌↔◌, refl, ap, ◌∙◌, Bool, false, Option, none, some, List, [],
  ◌∷◌, ◌++◌, ◌==◌, pos, ltb, All, arith, inl, inr, Bool-cases, ==→eq, ==→ne, ==-self, ne→==, lt→ltb,
  neg-ne-pos,
}
use greybus_for_zephyr.Errno.{Errno, IsPositive}
use greybus_for_zephyr.Platform.{
  MapEntry, as_int, is_mapped, gb_cport_to_device, gb_device_to_cport, gb_add_cport_device_mapping,
}

-- Two entries that share neither the cport nor the device.
pub record IsApart (x y : MapEntry) : Type 0 where
  pub cports : x.cport ≢ y.cport
  pub devs : x.dev ≢ y.dev

-- No two entries share a cport or a device.
abbrev pub IsOneToOne : List MapEntry → Type 0
IsOneToOne [] = Unit
IsOneToOne (entry ∷ map) = All (IsApart entry) map × IsOneToOne map

All-snoc :
    (P : MapEntry → Type 0) (map : List MapEntry) (x : MapEntry)
    → All P map
    → P x
    → All P (map ++ x ∷ [])
All-snoc P [] x all last = (last, tt)
All-snoc P (entry ∷ map) x all last = (all.0, All-snoc P map x all.1 last)

-- What the loop of gb_add_cport_device_mapping finds nothing in is apart from what is added.
unmapped_apart :
    (cport dev : ℕ) (map : List MapEntry)
    → is_mapped cport dev map ≡ false
    → IsOneToOne map
    → IsOneToOne (map ++ record { cport = cport; dev = dev } ∷ [])
unfolding is_mapped
unmapped_apart cport dev [] h one = (tt, tt)
unmapped_apart cport dev (entry ∷ map) h one = elim (Bool-cases (entry.cport == cport)) [
  | inl same ↦ absurd (ground arith)
  | inr other ↦ elim (Bool-cases (entry.dev == dev)) [
    | inl same ↦ absurd (ground arith)
    | inr another ↦
        let rest : is_mapped cport dev map ≡ false = ground arith in
        (
          All-snoc (IsApart entry) map (record { cport = cport; dev = dev }) one.0
              (record {
                cports = ==→ne entry.cport cport other;
                devs = ==→ne entry.dev dev another;
              }),
          unmapped_apart cport dev map rest one.1,
        )
  ]
]

-- the maps that calls of gb_add_cport_device_mapping lead to
pub data Mapped ⦃e : Errno⦄ : List MapEntry → Type 0 where
  start : Mapped []
  add :
      {map : List MapEntry} (room : Bool) (cport : ℕ) (dev : Option ℕ)
      → Mapped map
      → Mapped (gb_add_cport_device_mapping room cport dev map).1

add-IsOneToOne :
    ⦃e : Errno⦄
    → (room : Bool) (cport : ℕ) (dev : Option ℕ) (map : List MapEntry) → IsOneToOne map
    → IsOneToOne (gb_add_cport_device_mapping room cport dev map).1
unfolding gb_add_cport_device_mapping
add-IsOneToOne room cport none map one = one
add-IsOneToOne room cport (some dev) map one = elim (Bool-cases (is_mapped cport dev map)) [
  | inl taken ↦ rw (gb_add_cport_device_mapping, taken) one
  | inr unused ↦ elim (Bool-cases room) [
    | inl some_room ↦
        rw (gb_add_cport_device_mapping, unused, some_room)
          (unmapped_apart cport dev map unused one)
    | inr full ↦ rw (gb_add_cport_device_mapping, unused, full) one
  ]
]

Mapped-IsOneToOne : ⦃e : Errno⦄ → {map : List MapEntry} → Mapped map → IsOneToOne map
Mapped-IsOneToOne Mapped.start = tt
Mapped-IsOneToOne (Mapped.add {map} room cport dev before) =
    add-IsOneToOne room cport dev map (Mapped-IsOneToOne before)

-- What all entries have, one that is found has.
cport_found :
    (P : MapEntry → Type 0) (cport dev : ℕ) (map : List MapEntry)
    → All P map
    → gb_cport_to_device cport map ≡ some dev
    → P (record { cport = cport; dev = dev })
unfolding gb_cport_to_device
cport_found P cport dev [] all h = absurd (cc h)
cport_found P cport dev (entry ∷ map) all h = elim (Bool-cases (entry.cport == cport)) [
  | inl here ↦
      let at : entry.cport ≡ cport = ==→eq entry.cport cport here in
      let of : entry.dev ≡ dev = cc (rw (gb_cport_to_device, here) at h) in rw (← at, ← of) (all.0)
  | inr there ↦ cport_found P cport dev map all.1 (rw (gb_cport_to_device, there) at h)
]

as_int-pos : (n c : ℕ) → as_int n ≡ pos c → n ≡ c
as_int-pos n c h = elim (Bool-cases (ltb n (2 ^ 31))) [
  | inl small ↦ cc (rw small at h)
  | inr large ↦ absurd (neg-ne-pos (2 ^ 32 - n % 2 ^ 32) c (omega arith) (rw large at h))
]

as_int-small : (n : ℕ) → n < 2 ^ 31 → as_int n ≡ pos n
as_int-small n h = rw (lt→ltb n (2 ^ 31) h) refl

module _ ⦃e : Errno⦄ where
  dev_found :
      (P : MapEntry → Type 0) (cport dev : ℕ) (map : List MapEntry)
      → 0 < e.enoent
      → All P map
      → gb_device_to_cport dev map ≡ pos cport
      → P (record { cport = cport; dev = dev })
  unfolding gb_device_to_cport
  dev_found P cport dev [] positive all h = absurd (neg-ne-pos e.enoent cport positive h)
  dev_found P cport dev (entry ∷ map) positive all h = elim (Bool-cases (entry.dev == dev)) [
    | inl here ↦
        let at : entry.dev ≡ dev = ==→eq entry.dev dev here in
        let of : entry.cport ≡ cport =
          as_int-pos entry.cport cport (rw (gb_device_to_cport, here) at h) in
        rw (← at, ← of) (all.0)
    | inr there ↦ dev_found P cport dev map positive all.1 (rw (gb_device_to_cport, there) at h)
  ]

  cport_then_dev :
      (cport dev : ℕ) (map : List MapEntry)
      → cport < 2 ^ 31
      → IsOneToOne map
      → gb_cport_to_device cport map ≡ some dev
      → gb_device_to_cport dev map ≡ pos cport
  unfolding gb_cport_to_device gb_device_to_cport
  cport_then_dev cport dev [] small one h = absurd (cc h)
  cport_then_dev cport dev (entry ∷ map) small one h = elim (Bool-cases (entry.cport == cport)) [
    | inl here ↦
        let at : entry.cport ≡ cport = ==→eq entry.cport cport here in
        let of : entry.dev ≡ dev = cc (rw (gb_cport_to_device, here) at h) in
        rw (gb_device_to_cport, of, ==-self dev) (ap as_int at ∙ as_int-small cport small)
    | inr there ↦
        let found = rw (gb_cport_to_device, there) at h in
        let apart = cport_found (IsApart entry) cport dev map one.0 found in
        rw (gb_device_to_cport, ne→== entry.dev dev apart.devs)
          (cport_then_dev cport dev map small one.1 found)
  ]

  dev_then_cport :
      (cport dev : ℕ) (map : List MapEntry)
      → 0 < e.enoent
      → IsOneToOne map
      → gb_device_to_cport dev map ≡ pos cport
      → gb_cport_to_device cport map ≡ some dev
  unfolding gb_cport_to_device gb_device_to_cport
  dev_then_cport cport dev [] positive one h = absurd (neg-ne-pos e.enoent cport positive h)
  dev_then_cport cport dev (entry ∷ map) positive one h = elim (Bool-cases (entry.dev == dev)) [
    | inl here ↦
        let at : entry.dev ≡ dev = ==→eq entry.dev dev here in
        let of : entry.cport ≡ cport =
          as_int-pos entry.cport cport (rw (gb_device_to_cport, here) at h) in
        rw (gb_cport_to_device, of, ==-self cport) (ap some at)
    | inr there ↦
        let found = rw (gb_device_to_cport, there) at h in
        let apart = dev_found (IsApart entry) cport dev map positive one.0 found in
        rw (gb_cport_to_device, ne→== entry.cport cport apart.cports)
          (dev_then_cport cport dev map positive one.1 found)
  ]

  -- Whatever was registered, and refused, before: a cport that an `int` can hold is that of a
  -- device exactly when the device is that of the cport.
  pub both_ways :
      IsPositive e
      → (map : List MapEntry) → Mapped map
      → (cport dev : ℕ) → cport < 2 ^ 31
      → (gb_cport_to_device cport map ≡ some dev) ↔ (gb_device_to_cport dev map ≡ pos cport)
  both_ways positive map mapped cport dev small =
      let one = Mapped-IsOneToOne mapped in
      (cport_then_dev cport dev map small one, dev_then_cport cport dev map positive.enoent_pos one)

added_last :
    (cport dev : ℕ) (map : List MapEntry)
    → is_mapped cport dev map ≡ false
    → gb_cport_to_device cport (map ++ record { cport = cport; dev = dev } ∷ []) ≡ some dev
unfolding is_mapped gb_cport_to_device
added_last cport dev [] h = rw (gb_cport_to_device, ==-self cport) refl
added_last cport dev (entry ∷ map) h = elim (Bool-cases (entry.cport == cport)) [
  | inl same ↦ absurd (ground arith)
  | inr other ↦ rw (gb_cport_to_device, other) (added_last cport dev map (ground arith))
]

kept_before :
    (cport dev : ℕ) (map more : List MapEntry)
    → gb_cport_to_device cport map ≡ some dev
    → gb_cport_to_device cport (map ++ more) ≡ some dev
unfolding gb_cport_to_device
kept_before cport dev [] more h = absurd (cc h)
kept_before cport dev (entry ∷ map) more h = elim (Bool-cases (entry.cport == cport)) [
  | inl here ↦ rw (gb_cport_to_device, here) (rw (gb_cport_to_device, here) at h)
  | inr there ↦
      rw (gb_cport_to_device, there)
        (kept_before cport dev map more (rw (gb_cport_to_device, there) at h))
]

-- A registration that returns 0 maps the cport to the device, and every cport that had a device
-- keeps it; one that does not return 0 changes nothing.
pub add_mapping_lem :
    ⦃e : Errno⦄
    → IsPositive e
    → (room : Bool) (cport dev : ℕ) (map : List MapEntry)
    → let (ret, map') = gb_add_cport_device_mapping room cport (some dev) map in
      (ret ≡ pos 0 → gb_cport_to_device cport map' ≡ some dev)
      × ((c d : ℕ) → gb_cport_to_device c map ≡ some d → gb_cport_to_device c map' ≡ some d)
      × (ret ≢ pos 0 → map' ≡ map)
unfolding gb_add_cport_device_mapping
add_mapping_lem ⦃e = e⦄ positive room cport dev map = elim (Bool-cases (is_mapped cport dev map)) [
  | inl taken ↦
      rw (gb_add_cport_device_mapping, taken)
        (
          λ fine. absurd (neg-ne-pos e.ealready 0 positive.ealready_pos fine),
          λ c d h. h,
          λ failed. refl,
        )
  | inr unused ↦ elim (Bool-cases room) [
    | inl some_room ↦
        rw (gb_add_cport_device_mapping, unused, some_room)
          (
            λ fine. added_last cport dev map unused,
            λ c d h. kept_before c d map _ h,
            λ failed. absurd (failed refl),
          )
    | inr full ↦
        rw (gb_add_cport_device_mapping, unused, full)
          (
            λ fine. absurd (neg-ne-pos e.enomem 0 positive.enomem_pos fine),
            λ c d h. h,
            λ failed. refl,
          )
  ]
]
