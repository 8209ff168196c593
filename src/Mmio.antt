-- ===== src/Mmio.antt =====
-- The MMIO registers of a virtio device: `virtio_mmio_read`, `virtio_mmio_write` and
-- `virtio_dev_reset` of tools/virtio/virtio.c, over the offsets of
-- tools/include/linux/virtio_mmio.h. An access outside `vqs` or the device's configuration faults.
pub mod Registers
pub mod Config
pub mod Safety
pub mod Setup
use hvisor_tool.Base.{
  ℕ, zero, suc, ◌+◌, ◌-◌, ◌*◌, ◌/◌, ◌%◌, ◌^◌, bit_or, Bool, true, false, not, ◌&&◌, List, [], ◌∷◌,
  Option, none, some, set, get_elem?, length, ltb, leb, ◌==◌, if◌then◌else◌, test_bit,
}
use hvisor_tool.ZoneMemory.{ZoneMem}
use hvisor_tool.Queue.{
  VirtQueue, virtqueue_reset, virtqueue_set_desc_table, virtqueue_set_avail, virtqueue_set_used,
}
use hvisor_tool.Device.{VirtMmioRegs, VirtIoDevice, World, Result, returns, faults, spins, ◌>>=◌}
use hvisor_tool.Interrupt.{set_regs, acknowledge, reset_line}
use Registers.{Register, register_at}
use Registers
use Config.{config_read}

-- VIRT_MAGIC, VIRT_VERSION, VIRT_VENDOR and VIRTIO_MMIO_CONFIG
abbrev pub virt_magic : ℕ
virt_magic = 0x74726976

abbrev pub virt_version : ℕ
virt_version = 2

abbrev pub virt_vendor : ℕ
virt_vendor = 0x48564953

abbrev pub mmio_config : ℕ
mmio_config = 0x100

-- VIRTIO_RING_F_EVENT_IDX
abbrev pub ring_event_idx : ℕ
ring_event_idx = 29

-- What `virtio_mmio_read` returns where there is no device.
unfoldable pub read_absent : ℕ → ℕ
read_absent offset = elim (register_at offset) [
  | Register.magic_value ↦ virt_magic
  | Register.version ↦ virt_version
  | Register.vendor_id ↦ virt_vendor
  | _ ↦ 0
]

-- A device's own functions (`struct virtio_device_ops`): its configuration's bytes as they stand at
-- `vdev->dev`, and what its handlers do to the device and the world. `notify i` is that of queue `i`.
pub record DeviceOps (Dev : Type 0) : Type 0 where
  pub config_bytes : Dev → List ℕ
  pub reset : VirtIoDevice Dev → World → Result (VirtIoDevice Dev × World)
  pub status_changed : Option (ℕ → VirtIoDevice Dev → World → Result (VirtIoDevice Dev × World))
  pub notify : ℕ → VirtIoDevice Dev → World → Result (VirtIoDevice Dev × World)

-- `virtqueue_reset(&vdev->vqs[i], i)` for each queue from `i` on.
unfoldable pub reset_queues : ℕ → List VirtQueue → List VirtQueue
reset_queues i [] = []
reset_queues i (vq ∷ vqs) = virtqueue_reset vq i ∷ reset_queues (i + 1) vqs

unfoldable pub enable_event_idx : List VirtQueue → List VirtQueue
enable_event_idx [] = []
enable_event_idx (vq ∷ vqs) = record vq { event_idx_enabled = 1 } ∷ enable_event_idx vqs

abbrev pub flag : ℕ → ℕ
flag value = if value == 0 then 0 else 1

-- The low and the high half of a 64-bit address, as the driver writes them.
abbrev pub low_half : ℕ → ℕ
low_half value = value % 2 ^ 32

abbrev pub high_half : ℕ → ℕ
high_half value = value * 2 ^ 32 % 2 ^ 64

module _ {Dev : Type 0} where
  -- A field of the selected queue.
  unfoldable pub selected : VirtIoDevice Dev → (VirtQueue → ℕ) → Result ℕ
  selected d field = elim (get_elem? d.vqs d.regs.queue_sel) [
    | none ↦ faults
    | some vq ↦ returns (field vq)
  ]

  abbrev pub set_queue : VirtIoDevice Dev → ℕ → VirtQueue → VirtIoDevice Dev
  set_queue d i vq = record d { vqs = set d.vqs i vq }

  -- A write to the selected queue.
  unfoldable pub update_selected :
      (VirtQueue → VirtQueue) → VirtIoDevice Dev → World → Result (VirtIoDevice Dev × World)
  update_selected f d w = elim (get_elem? d.vqs d.regs.queue_sel) [
    | none ↦ faults
    | some vq ↦ returns (set_queue d d.regs.queue_sel (f vq), w)
  ]

  -- DRIVER_FEATURES, over 64-bit words.
  unfoldable pub accept_features : ℕ → VirtIoDevice Dev → VirtIoDevice Dev
  unfolding enable_event_idx
  accept_features value d =
      let word = if d.regs.drv_feature_sel == 0 then value else value * 2 ^ 32 % 2 ^ 64 in
      let features = bit_or d.regs.drv_feature word in
      let d' = set_regs d (record (d.regs) { drv_feature = features }) in
      if test_bit features ring_event_idx then record d' { vqs = enable_event_idx d.vqs } else d'

module _ {Dev : Type 0} (ops : DeviceOps Dev) where
  unfoldable pub read_register : Register → VirtIoDevice Dev → Result ℕ
  unfolding selected
  read_register r d = elim r [
    | Register.magic_value ↦ returns virt_magic
    | Register.version ↦ returns virt_version
    | Register.device_id ↦ returns d.regs.device_id
    | Register.vendor_id ↦ returns virt_vendor
    | Register.device_features ↦
        returns
          (if d.regs.dev_feature_sel == 0 then d.regs.dev_feature else d.regs.dev_feature / 2 ^ 32)
    | Register.queue_num_max ↦
        if leb (length d.vqs) d.regs.queue_sel
        then returns 0
        else selected d (λ vq. vq.queue_num_max)
    | Register.queue_ready ↦ selected d (λ vq. vq.ready)
    | Register.interrupt_status ↦ returns d.regs.interrupt_status
    | Register.status ↦ returns d.regs.status
    | Register.config_generation ↦ returns d.regs.generation
    | _ ↦ returns 0
  ]

  unfoldable pub virtio_mmio_read : VirtIoDevice Dev → ℕ → ℕ → Result ℕ
  unfolding read_register
  virtio_mmio_read d offset size =
      if leb mmio_config offset
      then config_read (ops.config_bytes d.dev) (offset - mmio_config)
      else if size == 4
      then read_register (register_at offset) d
      else returns 0

  unfoldable pub virtio_dev_reset : VirtIoDevice Dev → World → Result (VirtIoDevice Dev × World)
  unfolding reset_queues update_selected
  virtio_dev_reset d w = do
    let (d1, w1) = reset_line d w
    (d2, w2) ←
        update_selected (λ vq. record vq { ready = 0 })
          (set_regs d1 (record (d1.regs) { status = 0 })) w1
    (d3, w3) ← ops.reset d2 w2
    returns (record d3 { vqs = reset_queues 0 d3.vqs; activated = false }, w3)

  -- STATUS
  unfoldable pub write_status : ℕ → VirtIoDevice Dev → World → Result (VirtIoDevice Dev × World)
  write_status value d w = do
    let d0 = set_regs d (record (d.regs) { status = value % 2 ^ 32 })
    (d1, w1) ← if value % 2 ^ 32 == 0 then virtio_dev_reset d0 w else returns (d0, w)
    elim ops.status_changed [ none ↦ returns (d1, w1) | some f ↦ f (value % 2 ^ 32) d1 w1 ]

  -- QUEUE_NOTIFY
  unfoldable pub notify_queue : ℕ → VirtIoDevice Dev → World → Result (VirtIoDevice Dev × World)
  notify_queue value d w = elim (get_elem? d.vqs value) [
    | none ↦ returns (d, w)
    | some vq ↦ if vq.notify_handler then ops.notify value d w else returns (d, w)
  ]

  unfoldable pub write_register :
      Register → ℕ → VirtIoDevice Dev → World → Result (VirtIoDevice Dev × World)
  unfolding update_selected accept_features write_status notify_queue
  write_register r value d w = elim r [
    | Register.device_features_sel ↦
        returns (set_regs d (record (d.regs) { dev_feature_sel = flag value }), w)
    | Register.driver_features ↦ returns (accept_features value d, w)
    | Register.driver_features_sel ↦
        returns (set_regs d (record (d.regs) { drv_feature_sel = flag value }), w)
    | Register.queue_sel ↦ returns (set_regs d (record (d.regs) { queue_sel = value % 2 ^ 32 }), w)
    | Register.queue_num ↦ update_selected (λ vq. record vq { num = value }) d w
    | Register.queue_ready ↦ update_selected (λ vq. record vq { ready = value % 2 ^ 8 }) d w
    | Register.queue_notify ↦ notify_queue value d w
    | Register.interrupt_ack ↦ returns (acknowledge value d w)
    | Register.status ↦ write_status value d w
    | Register.queue_desc_low ↦
        update_selected
          (λ vq. record vq { desc_table_addr = bit_or vq.desc_table_addr (low_half value) }) d w
    | Register.queue_desc_high ↦
        update_selected
          (λ vq.
            virtqueue_set_desc_table w.zones d.zone_id
              (record vq { desc_table_addr = bit_or vq.desc_table_addr (high_half value) }))
          d w
    | Register.queue_avail_low ↦
        update_selected (λ vq. record vq { avail_addr = bit_or vq.avail_addr (low_half value) }) d w
    | Register.queue_avail_high ↦
        update_selected
          (λ vq.
            virtqueue_set_avail w.zones d.zone_id
              (record vq { avail_addr = bit_or vq.avail_addr (high_half value) }))
          d w
    | Register.queue_used_low ↦
        update_selected (λ vq. record vq { used_addr = bit_or vq.used_addr (low_half value) }) d w
    | Register.queue_used_high ↦
        update_selected
          (λ vq.
            virtqueue_set_used w.zones d.zone_id
              (record vq { used_addr = bit_or vq.used_addr (high_half value) }))
          d w
    | _ ↦ returns (d, w)
  ]

  -- The write of a register; a write to the configuration or of another size than 4 does nothing.
  unfoldable pub virtio_mmio_write :
      VirtIoDevice Dev → ℕ → ℕ → ℕ → World → Result (VirtIoDevice Dev × World)
  unfolding write_register
  virtio_mmio_write d offset value size w =
      if leb mmio_config offset
      then returns (d, w)
      else if size == 4
      then write_register (register_at offset) value d w
      else returns (d, w)
