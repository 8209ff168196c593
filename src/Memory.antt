-- ===== src/Memory.antt =====
-- The memory of the daemon's process, a byte at each host address, and the split virtqueue layout
-- that tools/virtio/virtio.c reads and writes through `VirtqDesc`, `VirtqAvail` and `VirtqUsed`.
-- All hosts are little-endian. Guest memory is mapped into it (`ZoneMemory`), so guest and daemon
-- see the same bytes.
pub mod Laws
use hvisor_tool.Base.{ℕ, ◌+◌, ◌-◌, ◌*◌, ◌/◌, ◌%◌, ◌^◌, Bool, ◌==◌, if◌then◌else◌}

abbrev pub Memory : Type 0
Memory = ℕ → ℕ

-- A pointer is an address, and 0 is NULL.
abbrev pub null : ℕ
null = 0

unfoldable pub load8 : Memory → ℕ → ℕ
load8 m a = m a % 256

unfoldable pub load16 : Memory → ℕ → ℕ
unfolding load8
load16 m a = load8 m a + 256 * load8 m (a + 1)

unfoldable pub load32 : Memory → ℕ → ℕ
unfolding load16
load32 m a = load16 m a + 2 ^ 16 * load16 m (a + 2)

unfoldable pub load64 : Memory → ℕ → ℕ
unfolding load32
load64 m a = load32 m a + 2 ^ 32 * load32 m (a + 4)

unfoldable pub store8 : Memory → ℕ → ℕ → Memory
store8 m a v x = if x == a then v % 256 else m x

unfoldable pub store16 : Memory → ℕ → ℕ → Memory
unfolding store8
store16 m a v = store8 (store8 m a v) (a + 1) (v / 256)

unfoldable pub store32 : Memory → ℕ → ℕ → Memory
unfolding store16
store32 m a v = store16 (store16 m a v) (a + 2) (v / 2 ^ 16)

-- `struct vring_desc`, as one read of it.
pub record VirtqDesc : Type 0 where
  pub addr : ℕ
  pub len : ℕ
  pub flags : ℕ
  pub next : ℕ

-- `table[i]`
unfoldable pub desc_at : Memory → ℕ → ℕ → VirtqDesc
desc_at m table i =
    let p = table + 16 * i in
    record {
      addr = load64 m p;
      len = load32 m (p + 8);
      flags = load16 m (p + 12);
      next = load16 m (p + 14);
    }

-- Flags of a descriptor: VRING_DESC_F_NEXT is 1, VRING_DESC_F_WRITE 2, VRING_DESC_F_INDIRECT 4.
abbrev pub next_bit : ℕ
next_bit = 0

abbrev pub write_bit : ℕ
write_bit = 1

abbrev pub indirect_bit : ℕ
indirect_bit = 2

-- The fields of `struct vring_avail` at `p`.
abbrev pub avail_flags : Memory → ℕ → ℕ
avail_flags m p = load16 m p

abbrev pub avail_idx : Memory → ℕ → ℕ
avail_idx m p = load16 m (p + 2)

abbrev pub avail_ring_at : Memory → ℕ → ℕ → ℕ
avail_ring_at m p i = load16 m (p + 4 + 2 * i)

-- The fields of `struct vring_used` at `p`.
abbrev pub used_flags : Memory → ℕ → ℕ
used_flags m p = load16 m p

abbrev pub used_idx : Memory → ℕ → ℕ
used_idx m p = load16 m (p + 2)

abbrev pub used_elem : ℕ → ℕ → ℕ
used_elem p i = p + 4 + 8 * i
