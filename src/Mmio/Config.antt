-- ===== src/Mmio/Config.antt =====
-- Reads of the configuration of a device in tools/virtio/virtio.c, from the bytes at `vdev->dev`.
use hvisor_tool.Base.{ℕ, zero, suc, ◌+◌, ◌*◌, ◌%◌, List, none, some, get_elem?}
use hvisor_tool.Device.{Result, returns, faults}

-- `n` bytes from `offset` on, little-endian.
read_bytes : List ℕ → ℕ → ℕ → Result ℕ
read_bytes bytes zero offset = returns 0
read_bytes bytes (suc n) offset = elim (get_elem? bytes offset) [
  | none ↦ faults
  | some b ↦ elim (read_bytes bytes n (offset + 1)) [
    | returns v ↦ returns (b % 256 + 256 * v)
    | Result.faults ↦ faults
    | Result.spins ↦ faults
  ]
]

-- `*(uint64_t *)(vdev->dev + offset)`
unfoldable pub config_read : List ℕ → ℕ → Result ℕ
unfolding read_bytes
config_read bytes offset = read_bytes bytes 8 offset
