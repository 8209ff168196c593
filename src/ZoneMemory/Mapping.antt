-- ===== src/ZoneMemory/Mapping.antt =====
-- The regions that `mmap_virtio_zone_memory` of tools/virtio/virtio.c leaves. Another thread may append
-- regions while the lock is released for `mmap`.
use hvisor_tool.Base.{
  ℕ, ◌+◌, ◌<◌, ◌≡◌, refl, sym, ◌∙◌, true, ◌||◌, List, [], ◌∷◌, ◌++◌, append-nil, Option, none, some,
  All, All-append, length, length-append, arith, leb, ◌==◌, Bool-cases, inl, inr, ◌⊎◌, ==_iff,
  ==_self, subst,
}
use hvisor_tool.ZoneMemory.{
  ZoneMem, ZoneMemRegion, MemoryRegionConfig, Mmap, Others, Mapped, max_memory_regions, current,
  same_memory_region, region_of, Found, at, absent, conflict, find_from,
  find_zone_memory_region_locked, MapStep, go_on, refuse, store_region, map_absent, map_region,
  stop, mmap_virtio_zone_memory,
}
use hvisor_tool.ZoneMemory.Valid.{Disjoint, AllDisjoint, IsValidZone, Backed, Appends, OnlyAppends}
use hvisor_tool.ZoneMemory.Backed.{mmap_virtio_zone_memory-AllBacked}
use hvisor_tool.ZoneMemory.Ranges.{ranges_overlap_comm}

Disjoint-sym : (r s : ZoneMemRegion) → Disjoint r s → Disjoint s r
Disjoint-sym r s d = record {
  zone0 = ranges_overlap_comm s.zone0_ipa s.mem_size r.zone0_ipa r.mem_size ∙ d.zone0;
  zonex = ranges_overlap_comm s.zonex_ipa s.mem_size r.zonex_ipa r.mem_size ∙ d.zonex;
}

AllDisjoint-append :
    (rs : List ZoneMemRegion) (s : ZoneMemRegion)
    → AllDisjoint rs
    → All (Disjoint s) rs
    → AllDisjoint (rs ++ (s ∷ []))
AllDisjoint-append [] s d h = (tt, tt)
AllDisjoint-append (r ∷ rs) s d h = (
  All-append (Disjoint r) rs (s ∷ []) d.0 (Disjoint-sym s r h.0, tt),
  AllDisjoint-append rs s d.1 h.1,
)

-- `find_from` reports a region absent only if none overlaps it.
absent-Disjoint :
    (virt i : ℕ) (mem : MemoryRegionConfig) (rs : List ZoneMemRegion)
    → find_from i rs mem ≡ absent
    → All (Disjoint (region_of virt mem)) rs
unfolding find_from region_of
absent-Disjoint virt i mem [] h = tt
absent-Disjoint virt i mem (r ∷ rs) h = (
  record { zone0 = ground arith; zonex = ground arith },
  absent-Disjoint virt (i + 1) mem rs (ground arith),
)

-- Some region of the list is the configured one.
abbrev pub Has : MemoryRegionConfig → List ZoneMemRegion → Type 0
Has mem [] = ⊥
Has mem (r ∷ rs) = (same_memory_region (current r) mem ≡ true) ⊎ Has mem rs

Has-append_left :
    (mem : MemoryRegionConfig) (rs ss : List ZoneMemRegion) → Has mem rs → Has mem (rs ++ ss)
Has-append_left mem [] ss h = absurd h
Has-append_left mem (r ∷ rs) ss (inl e) = inl e
Has-append_left mem (r ∷ rs) ss (inr h) = inr (Has-append_left mem rs ss h)

Has-append_new :
    (virt : ℕ) (mem : MemoryRegionConfig) (rs : List ZoneMemRegion)
    → Has mem (rs ++ (region_of virt mem ∷ []))
unfolding region_of same_memory_region current
Has-append_new virt mem [] = inl (ground arith)
Has-append_new virt mem (r ∷ rs) = inr (Has-append_new virt mem rs)

at-Has :
    (i k : ℕ) (mem : MemoryRegionConfig) (rs : List ZoneMemRegion)
    → find_from i rs mem ≡ at k
    → Has mem rs
unfolding find_from
at-Has i k mem [] h = cc
at-Has i k mem (r ∷ rs) h = elim (Bool-cases (same_memory_region (current r) mem)) [
  | inl e ↦ inl e
  | inr e ↦ inr (at-Has (i + 1) k mem rs (ground arith))
]

append_new-IsValidZone :
    (virt : ℕ) (mem : MemoryRegionConfig) (rs : List ZoneMemRegion)
    → IsValidZone rs
    → length rs < max_memory_regions
    → 0 < mem.size
    → All (Disjoint (region_of virt mem)) rs
    → IsValidZone (rs ++ (region_of virt mem ∷ []))
unfolding region_of
append_new-IsValidZone virt mem rs v room pos d = record {
  bounded = omega (arith, length-append rs (region_of virt mem ∷ []));
  nonempty = All-append (λ r. 0 < r.mem_size) rs (region_of virt mem ∷ []) v.nonempty (pos, tt);
  disjoint = AllDisjoint-append rs (region_of virt mem) v.disjoint d;
}

abbrev AllValid : ZoneMem → Type 0
AllValid z = (j : ℕ) → IsValidZone (z j)

abbrev Grows : ZoneMem → ZoneMem → Type 0
Grows z z' = (j : ℕ) (m : MemoryRegionConfig) → Has m (z j) → Has m (z' j)

-- What one region's step leaves behind, for the table before it.
abbrev Kept : ZoneMem → ℕ → MemoryRegionConfig → MapStep → Type 0
Kept z zone_id mem (go_on z') = AllValid z' × Grows z z' × Has mem (z' zone_id)
Kept z zone_id mem (refuse z' unmapped) = AllValid z'

append_same_length {ℓ} : {A : Type ℓ} (xs ys : List A) → length xs ≡ length (xs ++ ys) → ys ≡ []
append_same_length xs [] h = refl
append_same_length xs (y ∷ ys) h = absurd (omega (arith, length-append xs (y ∷ ys)))

store_region-Kept :
    (z z' : ZoneMem) (zone_id virt : ℕ) (mem : MemoryRegionConfig)
    → AllValid z'
    → Grows z z'
    → (length (z zone_id) ≡ length (z' zone_id)
        → IsValidZone (z' zone_id ++ (region_of virt mem ∷ [])))
    → Kept z zone_id mem (store_region zone_id (length (z zone_id)) mem (some virt, z'))
unfolding store_region
store_region-Kept z z' zone_id virt mem v g fit =
    elim (Bool-cases (length (z zone_id) == length (z' zone_id))) [
      | inl e ↦ rw e (
        λ j. elim (Bool-cases (j == zone_id)) [
          | inl q ↦ rw q (fit ((==_iff _ _).0 e))
          | inr q ↦ rw q (v j)
        ],
        λ j m h. elim (Bool-cases (j == zone_id)) [
          | inl q ↦ rw q (
              subst (λ k. Has m (z' k ++ (region_of virt mem ∷ []))) ((==_iff j zone_id).0 q)
                (Has-append_left m (z' j) (region_of virt mem ∷ []) (g j m h)))
          | inr q ↦ rw q (g j m h)
        ],
        rw (==_self zone_id) (Has-append_new virt mem (z' zone_id)),
      )
      | inr e ↦ rw e v
    ]

map_result-Kept :
    (z : ZoneMem) (zone_id : ℕ) (mem : MemoryRegionConfig) (r : Option ℕ × ZoneMem)
    → AllValid r.1
    → Grows z r.1
    → ((virt : ℕ)
        → length (z zone_id) ≡ length (r.1 zone_id)
        → IsValidZone (r.1 zone_id ++ (region_of virt mem ∷ [])))
    → Kept z zone_id mem (store_region zone_id (length (z zone_id)) mem r)
unfolding store_region
map_result-Kept z zone_id mem (none, z') v g fit = v
map_result-Kept z zone_id mem (some virt, z') v g fit =
    store_region-Kept z z' zone_id virt mem v g (fit virt)

Appends-Grows : (mmap : Mmap) (z z' : ZoneMem) → Appends mmap z z' → Grows z z'
Appends-Grows mmap z z' a j m h = rw (a.appended j) (Has-append_left m (z j) (a.extra j) h)

module _ (mmap : Mmap) (others : Others) (env : OnlyAppends mmap others) (zone_id : ℕ) where
  mmap_same_length :
      (mem : MemoryRegionConfig) (z : ZoneMem)
      → length (z zone_id) ≡ length ((mmap mem z).1 zone_id)
      → (mmap mem z).1 zone_id ≡ z zone_id
  mmap_same_length mem z e =
      let a = env.during mem z in
      rw
        (
          a.appended zone_id,
          append_same_length (z zone_id) (a.extra zone_id) (rw (a.appended zone_id) at e),
        )
        (append-nil (z zone_id))

  found-Has :
      (mem : MemoryRegionConfig) (z : ZoneMem) (i : ℕ)
      → find_zone_memory_region_locked z zone_id mem ≡ at i
      → Has mem (z zone_id)
  unfolding find_zone_memory_region_locked
  found-Has mem z i e = at-Has 0 i mem (z zone_id) e

  map_absent-Kept :
      (mem : MemoryRegionConfig) (z : ZoneMem)
      → AllValid z
      → find_zone_memory_region_locked z zone_id mem ≡ absent
      → Kept z zone_id mem (map_absent mmap z zone_id mem)
  unfolding map_absent find_zone_memory_region_locked
  map_absent-Kept mem z v e =
      elim (Bool-cases (mem.size == 0 || leb max_memory_regions (length (z zone_id)))) [
        | inl t ↦ rw t v
        | inr t ↦ rw t (
            map_result-Kept z zone_id mem (mmap mem z) (λ j. (env.during mem z).keeps_valid j (v j))
              (Appends-Grows mmap z (mmap mem z).1 (env.during mem z))
              λ virt same. rw (mmap_same_length mem z same) (
                append_new-IsValidZone virt mem (z zone_id) (v zone_id) (ground arith)
                  (ground arith) (absent-Disjoint virt 0 mem (z zone_id) e)))
      ]

  map_region-Kept :
      (mem : MemoryRegionConfig) (z : ZoneMem)
      → AllValid z
      → Kept z zone_id mem (map_region mmap z zone_id mem)
  unfolding map_region
  map_region-Kept mem z v = go (find_zone_memory_region_locked z zone_id mem) refl
    where
      go :
          (f : Found)
          → find_zone_memory_region_locked z zone_id mem ≡ f
          → Kept z zone_id mem (map_region mmap z zone_id mem)
      go (at i) e = rw (e, map_region) (v, (λ j m h. h), found-Has mem z i e)
      go conflict e = rw (e, map_region) v
      go absent e = rw (e, map_region) (map_absent-Kept mem z v e)

  abbrev RunKept : ZoneMem → List MemoryRegionConfig → Mapped → Type 0
  RunKept z mems r =
      ((j : ℕ) → IsValidZone (r.zones j))
      × (r.success ≡ true
          → All (λ m. Has m (r.zones zone_id)) mems
            × ((j : ℕ) (m : MemoryRegionConfig) → Has m (z j) → Has m (r.zones j)))

  module _ (mem : MemoryRegionConfig) (mems : List MemoryRegionConfig) (z z' : ZoneMem) where
    abbrev before : ZoneMem
    before = others (mem ∷ mems) z

    go_on_step :
        map_region mmap before zone_id mem ≡ go_on z'
        → mmap_virtio_zone_memory mmap others z zone_id (mem ∷ mems)
          ≡ mmap_virtio_zone_memory mmap others z' zone_id mems
    unfolding mmap_virtio_zone_memory
    go_on_step e = rw (e, mmap_virtio_zone_memory)

    refuse_step :
        (unmapped : List ℕ)
        → map_region mmap before zone_id mem ≡ refuse z' unmapped
        → mmap_virtio_zone_memory mmap others z zone_id (mem ∷ mems) ≡ stop z' unmapped
    unfolding mmap_virtio_zone_memory
    refuse_step unmapped e = rw (e, mmap_virtio_zone_memory)

  run-RunKept :
      (mems : List MemoryRegionConfig) (z : ZoneMem)
      → ((j : ℕ) → IsValidZone (z j))
      → RunKept z mems (mmap_virtio_zone_memory mmap others z zone_id mems)
  unfolding mmap_virtio_zone_memory stop
  run-RunKept [] z v = (v, λ _. (tt, λ j m h. h))
  run-RunKept (mem ∷ mems) z v =
      let z1 : ZoneMem = others (mem ∷ mems) z in
      let a = env.between (mem ∷ mems) z in
      go (map_region mmap z1 zone_id mem) refl (map_region-Kept mem z1 (λ j. a.keeps_valid j (v j)))
        (Appends-Grows mmap z z1 a) (λ z' v'. run-RunKept mems z' v')
    where
      go :
          (s : MapStep)
          → map_region mmap (others (mem ∷ mems) z) zone_id mem ≡ s
          → Kept (others (mem ∷ mems) z) zone_id mem s
          → Grows z (others (mem ∷ mems) z)
          → ((z' : ZoneMem)
              → AllValid z'
              → RunKept z' mems (mmap_virtio_zone_memory mmap others z' zone_id mems))
          → RunKept z (mem ∷ mems) (mmap_virtio_zone_memory mmap others z zone_id (mem ∷ mems))
      go (go_on z') e (v', g, h) first rest =
          subst (RunKept z (mem ∷ mems)) (sym (go_on_step mem mems z z' e)) (
            (rest z' v').0,
            λ ok.
                let (all, grows) = (rest z' v').1 ok in
                ((grows zone_id mem h, all), λ j m k. grows j m (g j m (first j m k))),
          )
      go (refuse z' unmapped) e v' first rest =
          subst (RunKept z (mem ∷ mems)) (sym (refuse_step mem mems z z' unmapped e)) (v', λ ok. cc)

  -- If every zone's regions are valid before and stand at addresses that `mmap` gave for them, and the
  -- other threads only append such regions whenever the lock is released, then after
  -- `mmap_virtio_zone_memory` every zone's regions are valid, whether it succeeded or not: at most 64 of
  -- them, none empty, no two overlapping in zone 0 or in the guest; and each stands at an address that
  -- `mmap` gave for it. If it succeeded, each region that it was given is among the zone's, and no
  -- region that was there before is gone.
  pub mmap_virtio_zone_memory_lem :
      (mems : List MemoryRegionConfig) (z : ZoneMem)
      → ((j : ℕ) → IsValidZone (z j))
      → ((j : ℕ) → All (Backed mmap) (z j))
      → let r = mmap_virtio_zone_memory mmap others z zone_id mems in
        RunKept z mems r × ((j : ℕ) → All (Backed mmap) (r.zones j))
  mmap_virtio_zone_memory_lem mems z v b =
      (run-RunKept mems z v, mmap_virtio_zone_memory-AllBacked mmap others env zone_id mems z b)
