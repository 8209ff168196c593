-- ===== src/Mmio/Registers.antt =====
-- The registers of a virtio MMIO device, by the offsets of tools/include/linux/virtio_mmio.h. The
-- legacy registers, which tools/virtio/virtio.c only names in its log, are `other`.
use hvisor_tool.Base.{ℕ, ◌==◌, List, [], ◌∷◌, if◌then◌else◌}

pub data Register : Type 0 where
  magic_value version device_id vendor_id : Register
  device_features device_features_sel driver_features driver_features_sel : Register
  queue_sel queue_num_max queue_num queue_ready queue_notify : Register
  interrupt_status interrupt_ack status config_generation other : Register
  queue_desc_low queue_desc_high queue_avail_low queue_avail_high : Register
  queue_used_low queue_used_high : Register

offsets : List (ℕ × Register)
offsets =
    (0x000, Register.magic_value)
    ∷ (0x004, Register.version)
    ∷ (0x008, Register.device_id)
    ∷ (0x00c, Register.vendor_id)
    ∷ (0x010, Register.device_features)
    ∷ (0x014, Register.device_features_sel)
    ∷ (0x020, Register.driver_features)
    ∷ (0x024, Register.driver_features_sel)
    ∷ (0x030, Register.queue_sel)
    ∷ (0x034, Register.queue_num_max)
    ∷ (0x038, Register.queue_num)
    ∷ (0x044, Register.queue_ready)
    ∷ (0x050, Register.queue_notify)
    ∷ (0x060, Register.interrupt_status)
    ∷ (0x064, Register.interrupt_ack)
    ∷ (0x070, Register.status)
    ∷ (0x080, Register.queue_desc_low)
    ∷ (0x084, Register.queue_desc_high)
    ∷ (0x090, Register.queue_avail_low)
    ∷ (0x094, Register.queue_avail_high)
    ∷ (0x0a0, Register.queue_used_low)
    ∷ (0x0a4, Register.queue_used_high)
    ∷ (0x0fc, Register.config_generation)
    ∷ []

find_register : List (ℕ × Register) → ℕ → Register
find_register [] offset = Register.other
find_register ((o, r) ∷ rest) offset = if offset == o then r else find_register rest offset

-- The case of the `switch` that an offset selects.
unfoldable pub register_at : ℕ → Register
unfolding find_register offsets
register_at offset = find_register offsets offset
