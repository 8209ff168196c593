-- ===== src/ZoneMemory.antt =====
-- The memory regions of the zones, as tools/virtio/virtio.c keeps them in `zone_mem`: where a guest
-- physical address is mapped in the daemon, and how a zone's regions are mapped.
pub mod Ranges
pub mod Translate
pub mod Valid
pub mod Backed
pub mod Mapping
use hvisor_tool.Base.{
  ℕ, zero, suc, ◌+◌, ◌-◌, ◌%◌, ◌^◌, Bool, true, false, ◌&&◌, ◌||◌, List, [], ◌∷◌, ◌++◌, Option,
  none, some, ltb, leb, ◌==◌, if◌then◌else◌, length,
}
use hvisor_tool.Memory.{null}

-- MAX_ZONES and CONFIG_MAX_MEMORY_REGIONS
abbrev pub max_zones : ℕ
max_zones = 32

abbrev pub max_memory_regions : ℕ
max_memory_regions = 64

abbrev pub u64_max : ℕ
u64_max = 2 ^ 64 - 1

-- `struct zone_mem_region`
pub record ZoneMemRegion : Type 0 where
  pub virt_addr : ℕ
  pub zone0_ipa : ℕ
  pub zonex_ipa : ℕ
  pub mem_size : ℕ

-- `zone_mem`: the regions of each zone, `num_regions` of them.
abbrev pub ZoneMem : Type 0
ZoneMem = ℕ → List ZoneMemRegion

-- The loop of `get_virt_addr`. Sums of addresses wrap at 64 bits.
find_virt_addr : List ZoneMemRegion → ℕ → ℕ
find_virt_addr [] ipa = null
find_virt_addr (r ∷ rs) ipa =
    if leb r.zonex_ipa ipa && ltb ipa ((r.zonex_ipa + r.mem_size) % 2 ^ 64)
    then (ipa - r.zonex_ipa + r.virt_addr) % 2 ^ 64
    else find_virt_addr rs ipa

-- NULL for a zone that is out of range (a negative `int` is above every zone too) and for an address
-- that no region holds.
unfoldable pub get_virt_addr : ZoneMem → ℕ → ℕ → ℕ
unfolding find_virt_addr
get_virt_addr z ipa zone_id = if leb max_zones zone_id then null else find_virt_addr (z zone_id) ipa

unfoldable pub range_end : ℕ → ℕ → ℕ
range_end base len = if ltb (u64_max - base) len then u64_max else base + len

unfoldable pub ranges_overlap : ℕ → ℕ → ℕ → ℕ → Bool
unfolding range_end
ranges_overlap base_a len_a base_b len_b =
    if len_a == 0 || len_b == 0
    then false
    else ltb base_a (range_end base_b len_b) && ltb base_b (range_end base_a len_a)

-- `VirtioMemoryRegionConfig`
pub record MemoryRegionConfig : Type 0 where
  pub zone0_ipa : ℕ
  pub zonex_ipa : ℕ
  pub size : ℕ

unfoldable pub current : ZoneMemRegion → MemoryRegionConfig
current r = record { zone0_ipa = r.zone0_ipa; zonex_ipa = r.zonex_ipa; size = r.mem_size }

pub same_memory_region : MemoryRegionConfig → MemoryRegionConfig → Bool
same_memory_region a b =
    a.zone0_ipa == b.zone0_ipa && (a.zonex_ipa == b.zonex_ipa && a.size == b.size)

-- The results i ≥ 0, -1 and -2 of `find_zone_memory_region_locked`.
pub data Found : Type 0 where
  at : ℕ → Found
  absent : Found
  conflict : Found

find_from : ℕ → List ZoneMemRegion → MemoryRegionConfig → Found
find_from i [] mem = absent
find_from i (r ∷ rs) mem =
    if same_memory_region (current r) mem
    then at i
    else if ranges_overlap mem.zone0_ipa mem.size r.zone0_ipa r.mem_size
        || ranges_overlap mem.zonex_ipa mem.size r.zonex_ipa r.mem_size
    then conflict
    else find_from (i + 1) rs mem

find_zone_memory_region_locked : ZoneMem → ℕ → MemoryRegionConfig → Found
find_zone_memory_region_locked z zone_id mem = find_from 0 (z zone_id) mem

abbrev set_zone : ZoneMem → ℕ → List ZoneMemRegion → ZoneMem
set_zone z zone_id rs i = if i == zone_id then rs else z i

region_of : ℕ → MemoryRegionConfig → ZoneMemRegion
region_of virt mem = record {
  virt_addr = virt;
  zone0_ipa = mem.zone0_ipa;
  zonex_ipa = mem.zonex_ipa;
  mem_size = mem.size;
}

-- The regions after a run of `mmap_virtio_zone_memory`, whether it returned 0, and what it unmapped.
pub record Mapped : Type 0 where
  pub zones : ZoneMem
  pub success : Bool
  pub unmapped : List ℕ

-- `mmap` of the kernel module's device: the address, or MAP_FAILED, and the table of regions that is
-- found once the lock is taken again, which another thread may have changed in the meantime.
abbrev pub Mmap : Type 0
Mmap = MemoryRegionConfig → ZoneMem → Option ℕ × ZoneMem

stop : ZoneMem → List ℕ → Mapped
stop z unmapped = record { zones = z; success = false; unmapped = unmapped }

-- What happens to one region: already there, refused, or mapped and stored.
data MapStep : Type 0 where
  go_on : ZoneMem → MapStep
  refuse : ZoneMem → List ℕ → MapStep

-- The second critical section, with the slot that the first one read.
store_region : ℕ → ℕ → MemoryRegionConfig → Option ℕ × ZoneMem → MapStep
store_region zone_id slot mem (none, z) = refuse z []
store_region zone_id slot mem (some virt, z) =
    if slot == length (z zone_id)
    then go_on (set_zone z zone_id (z zone_id ++ (region_of virt mem ∷ [])))
    else refuse z (virt ∷ [])

map_absent : Mmap → ZoneMem → ℕ → MemoryRegionConfig → MapStep
map_absent mmap z zone_id mem =
    if mem.size == 0 || leb max_memory_regions (length (z zone_id))
    then refuse z []
    else store_region zone_id (length (z zone_id)) mem (mmap mem z)

map_region : Mmap → ZoneMem → ℕ → MemoryRegionConfig → MapStep
map_region mmap z zone_id mem = elim (find_zone_memory_region_locked z zone_id mem) [
  | at i ↦ go_on z
  | conflict ↦ refuse z []
  | absent ↦ map_absent mmap z zone_id mem
]

-- What other threads do to the table before the lock is taken for the regions that are left.
abbrev pub Others : Type 0
Others = List MemoryRegionConfig → ZoneMem → ZoneMem

pub mmap_virtio_zone_memory : Mmap → Others → ZoneMem → ℕ → List MemoryRegionConfig → Mapped
mmap_virtio_zone_memory mmap others z zone_id [] = record {
  zones = z;
  success = true;
  unmapped = [];
}
mmap_virtio_zone_memory mmap others z zone_id (mem ∷ mems) =
    elim (map_region mmap (others (mem ∷ mems) z) zone_id mem) [
      | go_on z' ↦ mmap_virtio_zone_memory mmap others z' zone_id mems
      | refuse z' unmapped ↦ stop z' unmapped
    ]
