-- ===== src/Tests.antt =====
-- A zone with one mapped region and one queue, on which the operations of tools/virtio are run.
mod Chains
mod Zones
mod Devices
mod Loop
mod Block
mod Events
mod Scmi
mod Net
mod Console
mod Config
use hvisor_tool.Base.{ℕ, zero, suc, Bool, true, false, List, [], ◌∷◌, ◌==◌, if◌then◌else◌}
use hvisor_tool.Memory.{Memory}
use hvisor_tool.ZoneMemory.{ZoneMem, ZoneMemRegion}
use hvisor_tool.Queue.{VirtQueue, zeroed}
use hvisor_tool.Device.{VirtMmioRegs, VirtIoDevice, VirtioBridge, DeviceRes, World, Attempt}

-- Guest addresses 0x1000 to 0x1fff at 0x10000.
abbrev pub guest_region : ZoneMemRegion
guest_region = record {
  virt_addr = 0x10000;
  zone0_ipa = 0x8000;
  zonex_ipa = 0x1000;
  mem_size = 0x1000;
}

abbrev pub zones : ZoneMem
zones i = guest_region ∷ []

-- Descriptor 0 of the table at 4096: 16 bytes at 0x1010, which the device reads.
abbrev pub one_buffer : Memory
one_buffer x = if x == 4096 then 0x10 else if x == 4097 then 0x10 else if x == 4104 then 16 else 0

-- Descriptor 0 of the table at 4096: an indirect table of 16 bytes at the guest address 0.
abbrev pub bad_indirect : Memory
bad_indirect x = if x == 4104 then 16 else if x == 4108 then 4 else 0

abbrev pub queue : VirtQueue
queue = record zeroed {
  num = 4;
  queue_num_max = 4;
  desc_table = 4096;
  avail_ring = 8192;
  used_ring = 12288;
}

abbrev pub regs : VirtMmioRegs
regs = record {
  device_id = 2;
  dev_feature_sel = 0;
  drv_feature_sel = 0;
  queue_sel = 0;
  interrupt_status = 0;
  status = 15;
  generation = 0;
  dev_feature = 0;
  drv_feature = 0;
}

abbrev pub device : VirtIoDevice ℕ
device = record {
  zone_id = 1;
  irq_id = 78;
  base_addr = 0xa000000;
  len = 0x200;
  regs = regs;
  vqs = queue ∷ [];
  dev = 7;
  activated = true;
  interrupt_line_asserted = false;
}

abbrev none_yet : DeviceRes
none_yet = record { target_zone = 0; irq_id = 0 }

abbrev repeat_res : ℕ → List DeviceRes
repeat_res zero = []
repeat_res (suc n) = none_yet ∷ repeat_res n

abbrev pub responses_32 : List DeviceRes
responses_32 = repeat_res 32

abbrev pub bridge : VirtioBridge
bridge = record {
  res_front = 0;
  res_rear = 31;
  res_list = responses_32;
  cfg_flags = 0 ∷ 0 ∷ [];
  cfg_values = 0 ∷ 0 ∷ [];
  mmio_addrs = [];
  mmio_avail = 1;
}

abbrev pub world : World
world = record {
  memory = one_buffer;
  zones = zones;
  bridge = bridge;
  line_control = true;
  attempts = Attempt.interrupted ∷ Attempt.done ∷ Attempt.done ∷ [];
  calls = [];
  res_fronts = 0 ∷ 4 ∷ [];
}
