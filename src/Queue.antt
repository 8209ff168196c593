-- ===== src/Queue.antt =====
-- `struct VirtQueue` of tools/virtio/include/virtio.h and the operations of tools/virtio/virtio.c on
-- one queue: emptiness, reset, notification control and the used ring. Barriers order these stores for
-- other processors and change no value; the model runs one operation at a time.
pub mod Used
use hvisor_tool.Base.{
  ℕ, zero, suc, ◌+◌, ◌-◌, ◌*◌, ◌/◌, ◌%◌, ◌^◌, bit_and, bit_or, Bool, true, false, List, [], ◌∷◌,
  ltb, leb, ◌==◌, if◌then◌else◌, length,
}
use hvisor_tool.Memory.{
  Memory, null, load16, store16, store32, avail_idx, avail_flags, avail_ring_at, used_idx,
  used_flags, used_elem,
}
use hvisor_tool.ZoneMemory.{ZoneMem, get_virt_addr}

-- The queue's device is the one that holds it (`dev`), and its handler, where it has one, is that of
-- the device type for `vq_idx` (`notify_handler`).
pub record VirtQueue : Type 0 where
  pub vq_idx : ℕ
  pub num : ℕ
  pub queue_num_max : ℕ
  pub desc_table_addr : ℕ
  pub avail_addr : ℕ
  pub used_addr : ℕ
  pub desc_table : ℕ
  pub avail_ring : ℕ
  pub used_ring : ℕ
  pub notify_handler : Bool
  pub last_avail_idx : ℕ
  pub last_used_idx : ℕ
  pub ready : ℕ
  pub event_idx_enabled : ℕ

-- `calloc`
abbrev pub zeroed : VirtQueue
zeroed = record {
  vq_idx = 0;
  num = 0;
  queue_num_max = 0;
  desc_table_addr = 0;
  avail_addr = 0;
  used_addr = 0;
  desc_table = null;
  avail_ring = null;
  used_ring = null;
  notify_handler = false;
  last_avail_idx = 0;
  last_used_idx = 0;
  ready = 0;
  event_idx_enabled = 0;
}

unfoldable pub virtqueue_reset : VirtQueue → ℕ → VirtQueue
virtqueue_reset vq idx = record zeroed {
  vq_idx = idx;
  notify_handler = vq.notify_handler;
  queue_num_max = vq.queue_num_max;
}

unfoldable pub vq_is_empty : Memory → VirtQueue → Bool
vq_is_empty m vq =
    if vq.avail_ring == null then true else avail_idx m vq.avail_ring == vq.last_avail_idx

-- `x++` and `x--` on a `uint16_t`
abbrev pub inc16 : ℕ → ℕ
inc16 x = (x + 1) % 2 ^ 16

abbrev pub dec16 : ℕ → ℕ
dec16 x = (x + 2 ^ 16 - 1) % 2 ^ 16

unfoldable pub advance_avail : VirtQueue → VirtQueue
advance_avail vq = record vq { last_avail_idx = inc16 vq.last_avail_idx }

-- `x & (num - 1)` where `num` is a `uint64_t`
abbrev pub masked : ℕ → ℕ → ℕ
masked x num = bit_and x ((num + 2 ^ 64 - 1) % 2 ^ 64)

-- `vq->avail_ring->ring[vq->last_avail_idx & (vq->num - 1)]`
unfoldable pub next_avail : Memory → VirtQueue → ℕ
next_avail m vq = avail_ring_at m vq.avail_ring (masked vq.last_avail_idx vq.num)

-- `VQ_USED_EVENT`, and the address of `VQ_AVAIL_EVENT`
unfoldable pub used_event : Memory → VirtQueue → ℕ
used_event m vq = avail_ring_at m vq.avail_ring vq.num

unfoldable pub avail_event : VirtQueue → ℕ
avail_event vq = used_elem vq.used_ring vq.num

-- VRING_USED_F_NO_NOTIFY is bit 0.
unfoldable pub virtqueue_disable_notify : Memory → VirtQueue → Memory
virtqueue_disable_notify m vq =
    if vq.event_idx_enabled == 0
    then store16 m vq.used_ring (bit_or (used_flags m vq.used_ring) 1)
    else store16 m (avail_event vq) (dec16 vq.last_avail_idx)

unfoldable pub virtqueue_enable_notify : Memory → VirtQueue → Memory
virtqueue_enable_notify m vq =
    if vq.event_idx_enabled == 0
    then store16 m vq.used_ring (bit_and (used_flags m vq.used_ring) (2 ^ 16 - 2))
    else store16 m (avail_event vq) (avail_idx m vq.avail_ring)

unfoldable pub virtqueue_set_desc_table : ZoneMem → ℕ → VirtQueue → VirtQueue
virtqueue_set_desc_table z zone_id vq = record vq {
  desc_table = get_virt_addr z vq.desc_table_addr zone_id;
}

unfoldable pub virtqueue_set_avail : ZoneMem → ℕ → VirtQueue → VirtQueue
virtqueue_set_avail z zone_id vq = record vq { avail_ring = get_virt_addr z vq.avail_addr zone_id }

unfoldable pub virtqueue_set_used : ZoneMem → ℕ → VirtQueue → VirtQueue
virtqueue_set_used z zone_id vq = record vq { used_ring = get_virt_addr z vq.used_addr zone_id }

-- `mask = vq->num - 1` as a `uint16_t`
abbrev pub used_mask : VirtQueue → ℕ
used_mask vq = (vq.num + 2 ^ 64 - 1) % 2 ^ 16

-- An element of the used ring: the head of the chain, and the bytes written.
pub record UsedElem : Type 0 where
  pub id : ℕ
  pub len : ℕ

unfoldable pub write_elem : Memory → ℕ → ℕ → UsedElem → Memory
write_elem m used_ring slot e =
    store32 (store32 m (used_elem used_ring slot) e.id) (used_elem used_ring slot + 4) e.len

unfoldable pub update_used_ring : Memory → VirtQueue → UsedElem → Memory
update_used_ring m vq e =
    let idx = used_idx m vq.used_ring in
    store16 (write_elem m vq.used_ring (bit_and idx (used_mask vq)) e) (vq.used_ring + 2)
      (inc16 idx)

-- The loop of `update_used_ring_batch`, from entry `i` on. `used_idx + i` is a `size_t`.
unfoldable pub write_elems : Memory → ℕ → ℕ → ℕ → ℕ → List UsedElem → Memory
write_elems m used_ring mask idx i [] = m
write_elems m used_ring mask idx i (e ∷ es) =
    write_elems (write_elem m used_ring (bit_and (idx + i) mask) e) used_ring mask idx (i + 1) es

unfoldable pub update_used_ring_batch : Memory → VirtQueue → List UsedElem → Memory
update_used_ring_batch m vq es =
    if length es == 0
    then m
    else store16 (write_elems m vq.used_ring (used_mask vq) (used_idx m vq.used_ring) 0 es)
        (vq.used_ring + 2) (used_idx m vq.used_ring + length es)
