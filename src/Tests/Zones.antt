-- ===== src/Tests/Zones.antt =====
-- Runs of the zone memory and of the device configuration of tools/virtio/virtio.c.
use hvisor_tool.Base.{
  ℕ, ◌+◌, ◌≡◌, ◌↔◌, refl, ◌≤◌, arith, List, [], ◌∷◌, append-nil, sym, All, length, true, Option,
  some,
}
use hvisor_tool.ZoneMemory.{
  ZoneMem, MemoryRegionConfig, Mmap, Others, current, get_virt_addr, ranges_overlap,
  mmap_virtio_zone_memory,
}
use hvisor_tool.ZoneMemory.Ranges.{InRange, ranges_overlap_lem}
use hvisor_tool.ZoneMemory.Translate.{Translates, get_virt_addr_lem}
use hvisor_tool.ZoneMemory.Valid.{IsValidZone, Backed, Appends, OnlyAppends}
use hvisor_tool.ZoneMemory.Mapping.{Has, mmap_virtio_zone_memory_lem}
use hvisor_tool.Device.{VirtIoDevice}
use hvisor_tool.Setup.{
  VirtioDeviceConfig, InitOps, validate_virtio_config_devices, create_virtio_config_devices,
  validate_zones, validate_zone, clashes, clashes_earlier, publish_virtio_devices, create_zones,
  create_devices, create_virtio_device_unpublished, init_virtio_queue, new_device, init_queues,
}
use hvisor_tool.Setup.Apart.{Separate, InitKeepsPlace, create_virtio_config_devices-Separate}
use hvisor_tool.Tests.{guest_region, zones, device}

ranges_overlap_lem_example :
    (ranges_overlap 0x1000 0x200 0x1100 0x200 ≡ true)
    ↔ ((x : ℕ) × InRange 0x1000 0x200 x × InRange 0x1100 0x200 x)
ranges_overlap_lem_example = ranges_overlap_lem 0x1000 0x200 0x1100 0x200

get_virt_addr_lem_example :
    (get_virt_addr zones 0x1010 1 ≡ 0x10010) ↔ Translates 0x1010 (guest_region ∷ []) 0x10010
get_virt_addr_lem_example =
    get_virt_addr_lem zones 1 0x1010 0x10010 (omega arith)
      (record { guest_fits = omega arith; host_fits = omega arith; host_nonnull = omega arith }, tt)
      (tt, tt) (omega arith)

-- The kernel maps each region where its address in the guest has 0xf000 added, and no other thread maps
-- any.
abbrev mmap : Mmap
mmap mem z = (some (mem.zonex_ipa + 0xf000), z)

abbrev nobody : Others
nobody mems z = z

nothing-Appends : (z : ZoneMem) → Appends mmap z z
nothing-Appends z = record {
  extra = λ j. [];
  appended = λ j. sym (append-nil (z j));
  extra_backed = λ j. tt;
  keeps_valid = λ j v. v;
}

mmap-OnlyAppends : OnlyAppends mmap nobody
mmap-OnlyAppends = record {
  during = λ mem z. nothing-Appends z;
  between = λ mems z. nothing-Appends z;
}

abbrev second_region : MemoryRegionConfig
second_region = record { zone0_ipa = 0x9000; zonex_ipa = 0x2000; size = 0x1000 }

zones-IsValidZone : (j : ℕ) → IsValidZone (zones j)
zones-IsValidZone j = record {
  bounded = omega arith;
  nonempty = (omega arith, tt);
  disjoint = (tt, tt);
}

zones-Backed : (j : ℕ) → All (Backed mmap) (zones j)
unfolding current
zones-Backed j = ((zones, refl), tt)

mmap_virtio_zone_memory_lem_example :
    let r = mmap_virtio_zone_memory mmap nobody zones 1 (second_region ∷ []) in
    (((j : ℕ) → IsValidZone (r.zones j))
      × (r.success ≡ true
          → All (λ m. Has m (r.zones 1)) (second_region ∷ [])
            × ((j : ℕ) (m : MemoryRegionConfig) → Has m (zones j) → Has m (r.zones j))))
    × ((j : ℕ) → All (Backed mmap) (r.zones j))
mmap_virtio_zone_memory_lem_example =
    mmap_virtio_zone_memory_lem mmap nobody mmap-OnlyAppends 1 (second_region ∷ []) zones
      zones-IsValidZone zones-Backed

-- A device type with one queue and nothing of its own.
abbrev simple_ops : InitOps ℕ ℕ
simple_ops = record {
  features = 5;
  num_queues = 1;
  queue_max_size = 4;
  notify_handlers = λ i. true;
  initial = 0;
  init = λ params d. some (record d { dev = params });
}

abbrev lookup_simple : ℕ → Option (InitOps ℕ ℕ)
lookup_simple type = some simple_ops

abbrev new_config : VirtioDeviceConfig ℕ
new_config = record {
  type = 2;
  enabled = true;
  zone_id = 1;
  addr = 0xa000200;
  len = 0x200;
  irq = 79;
  params = 3;
}

lookup_simple-InitKeepsPlace : InitKeepsPlace lookup_simple
lookup_simple-InitKeepsPlace type ops cfg d d' e p h = record {
  zone = ground (arith, p.zone);
  base = ground (arith, p.base);
  len = ground (arith, p.len);
}

abbrev both : List (VirtIoDevice ℕ)
both =
    device
    ∷ record (new_device lookup_simple simple_ops new_config) {
      vqs = init_queues (λ i. true) 4 0 1;
      dev = 3;
    }
    ∷ []

new_config_passes : validate_virtio_config_devices (device ∷ []) ((new_config ∷ []) ∷ []) ≡ true
unfolding validate_virtio_config_devices validate_zones validate_zone clashes clashes_earlier
    ranges_overlap
new_config_passes = refl

new_config_created :
    create_virtio_config_devices lookup_simple (device ∷ []) ((new_config ∷ []) ∷ []) ≡ some both
unfolding create_virtio_config_devices create_zones create_devices create_virtio_device_unpublished
    init_virtio_queue new_device publish_virtio_devices
new_config_created = refl

create_virtio_config_devices-Separate_example : Separate both × (length both ≤ 8)
create_virtio_config_devices-Separate_example =
    create_virtio_config_devices-Separate lookup_simple lookup_simple-InitKeepsPlace (device ∷ [])
      ((new_config ∷ []) ∷ []) both (tt, tt) (omega arith) new_config_passes new_config_created
