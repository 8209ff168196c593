-- ===== src/ZoneMemory/Backed.antt =====
-- The addresses that `mmap_virtio_zone_memory` of tools/virtio/virtio.c stores.
use hvisor_tool.Base.{
  ℕ, ◌≡◌, refl, ◌||◌, List, [], ◌∷◌, Option, none, some, All, All-append, length, leb, ◌==◌,
  Bool-cases, inl, inr,
}
use hvisor_tool.ZoneMemory.{
  ZoneMem, MemoryRegionConfig, Mmap, Others, Mapped, max_memory_regions, current, region_of, Found,
  at, absent, conflict, find_zone_memory_region_locked, MapStep, go_on, refuse, store_region,
  map_absent, map_region, stop, mmap_virtio_zone_memory,
}
use hvisor_tool.ZoneMemory.Valid.{Backed, Appends, OnlyAppends}

-- The table that a step leaves.
abbrev table_of : MapStep → ZoneMem
table_of (go_on z) = z
table_of (refuse z unmapped) = z

module _ (mmap : Mmap) where
  abbrev pub AllBacked : ZoneMem → Type 0
  AllBacked z = (j : ℕ) → All (Backed mmap) (z j)

  Appends-AllBacked : (z z' : ZoneMem) → Appends mmap z z' → AllBacked z → AllBacked z'
  Appends-AllBacked z z' a b j =
      rw (a.appended j) (All-append (Backed mmap) (z j) (a.extra j) (b j) (a.extra_backed j))

  store_region-AllBacked :
      (zone_id slot virt : ℕ) (mem : MemoryRegionConfig) (z z' : ZoneMem)
      → (mmap mem z').0 ≡ some virt
      → AllBacked z
      → AllBacked (table_of (store_region zone_id slot mem (some virt, z)))
  unfolding store_region region_of current
  store_region-AllBacked zone_id slot virt mem z z' got b =
      elim (Bool-cases (slot == length (z zone_id))) [
        | inr e ↦ rw e b
        | inl e ↦ rw e (λ j. elim (Bool-cases (j == zone_id)) [
          | inr q ↦ rw q (b j)
          | inl q ↦ rw q (
              All-append (Backed mmap) (z zone_id) (region_of virt mem ∷ []) (b zone_id)
                ((z', got), tt))
        ])
      ]

  result-AllBacked :
      (zone_id slot : ℕ) (mem : MemoryRegionConfig) (z : ZoneMem) (r : Option ℕ × ZoneMem)
      → mmap mem z ≡ r
      → AllBacked r.1
      → AllBacked (table_of (store_region zone_id slot mem r))
  unfolding store_region
  result-AllBacked zone_id slot mem z (none, z') e b = b
  result-AllBacked zone_id slot mem z (some virt, z') e b =
      store_region-AllBacked zone_id slot virt mem z' z (rw e refl) b

  module _ (others : Others) (env : OnlyAppends mmap others) (zone_id : ℕ) where
    map_region-AllBacked :
        (mem : MemoryRegionConfig) (z : ZoneMem)
        → AllBacked z
        → AllBacked (table_of (map_region mmap z zone_id mem))
    unfolding map_region map_absent
    map_region-AllBacked mem z b = go (find_zone_memory_region_locked z zone_id mem)
      where
        go :
            (f : Found)
            → AllBacked (
                table_of (elim f [
                  | at i ↦ go_on z
                  | conflict ↦ refuse z []
                  | absent ↦ map_absent mmap z zone_id mem
                ]))
        go (at i) = b
        go conflict = b
        go absent =
            elim (Bool-cases (mem.size == 0 || leb max_memory_regions (length (z zone_id)))) [
              | inl t ↦ rw t b
              | inr t ↦ rw t (
                  result-AllBacked zone_id (length (z zone_id)) mem z (mmap mem z) refl
                    (Appends-AllBacked z (mmap mem z).1 (env.during mem z) b))
            ]

    pub mmap_virtio_zone_memory-AllBacked :
        (mems : List MemoryRegionConfig) (z : ZoneMem)
        → AllBacked z
        → AllBacked (mmap_virtio_zone_memory mmap others z zone_id mems).zones
    unfolding mmap_virtio_zone_memory stop
    mmap_virtio_zone_memory-AllBacked [] z b = b
    mmap_virtio_zone_memory-AllBacked (mem ∷ mems) z b =
        let z1 : ZoneMem = others (mem ∷ mems) z in
        let b1 = Appends-AllBacked z z1 (env.between (mem ∷ mems) z) b in
        go (map_region mmap z1 zone_id mem) (map_region-AllBacked mem z1 b1)
          (λ z' b'. mmap_virtio_zone_memory-AllBacked mems z' b')
      where
        go :
            (s : MapStep)
            → AllBacked (table_of s)
            → ((z' : ZoneMem)
                → AllBacked z'
                → AllBacked (mmap_virtio_zone_memory mmap others z' zone_id mems).zones)
            → AllBacked
                (elim s as (λ _. Mapped) [
                  | go_on z' ↦ mmap_virtio_zone_memory mmap others z' zone_id mems
                  | refuse z' unmapped ↦ stop z' unmapped
                ]).zones
        go (go_on z') b' rest = rest z' b'
        go (refuse z' unmapped) b' rest = b'
