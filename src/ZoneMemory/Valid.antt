-- ===== src/ZoneMemory/Valid.antt =====
-- What `zone_mem` of tools/virtio/virtio.c keeps to, and what other threads may do to it.
use hvisor_tool.Base.{ℕ, ◌≤◌, ◌<◌, ◌≡◌, false, List, [], ◌∷◌, ◌++◌, some, All, length}
use hvisor_tool.ZoneMemory.{
  ZoneMem, ZoneMemRegion, MemoryRegionConfig, Mmap, Others, max_memory_regions, ranges_overlap,
  current,
}

-- Two regions share no address of zone 0 and none of the guest.
pub record Disjoint (r s : ZoneMemRegion) : Type 0 where
  pub zone0 : ranges_overlap r.zone0_ipa r.mem_size s.zone0_ipa s.mem_size ≡ false
  pub zonex : ranges_overlap r.zonex_ipa r.mem_size s.zonex_ipa s.mem_size ≡ false

abbrev pub AllDisjoint : List ZoneMemRegion → Type 0
AllDisjoint [] = Unit
AllDisjoint (r ∷ rs) = All (Disjoint r) rs × AllDisjoint rs

pub record IsValidZone (rs : List ZoneMemRegion) : Type 0 where
  pub bounded : length rs ≤ max_memory_regions
  pub nonempty : All (λ r. 0 < r.mem_size) rs
  pub disjoint : AllDisjoint rs

-- The region's address is one that `mmap` gave for the region's own configuration.
abbrev pub Backed : Mmap → ZoneMemRegion → Type 0
Backed mmap r = (z : ZoneMem) × ((mmap (current r) z).0 ≡ some r.virt_addr)

-- From one table to another, valid regions that are backed have been appended, or nothing.
pub record Appends (mmap : Mmap) (z z' : ZoneMem) : Type 0 where
  pub extra : ℕ → List ZoneMemRegion
  pub appended : (j : ℕ) → z' j ≡ z j ++ extra j
  pub extra_backed : (j : ℕ) → All (Backed mmap) (extra j)
  pub keeps_valid : (j : ℕ) → IsValidZone (z j) → IsValidZone (z' j)

-- What the other threads do while the lock is released, for `mmap` and between two regions.
pub record OnlyAppends (mmap : Mmap) (others : Others) : Type 0 where
  pub during : (mem : MemoryRegionConfig) (z : ZoneMem) → Appends mmap z (mmap mem z).1
  pub between : (mems : List MemoryRegionConfig) (z : ZoneMem) → Appends mmap z (others mems z)
