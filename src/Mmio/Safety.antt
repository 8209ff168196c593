-- ===== src/Mmio/Safety.antt =====
-- Which accesses of `virtio_mmio_read` and `virtio_mmio_write` (tools/virtio/virtio.c) stay inside the
-- queues of the device.
use hvisor_tool.Base.{
  ℕ, ◌+◌, ◌%◌, ◌^◌, ◌≤◌, ◌<◌, ◌≡◌, refl, List, [], ◌∷◌, some, get_elem?, length, length-set,
  get_elem?_of_lt, get_elem?_of_le, leb, ◌==◌, if◌then◌else◌, arith, Bool-cases, Option-cases, inl,
  inr, All,
}
use hvisor_tool.Queue.{VirtQueue}
use hvisor_tool.Device.{VirtIoDevice, World, Result, returns, ◌>>=◌}
use hvisor_tool.Interrupt.{set_regs, acknowledge, reset_line}
use hvisor_tool.Mmio.Registers.{Register, register_at}
use hvisor_tool.Mmio.{
  DeviceOps, selected, read_register, update_selected, set_queue, reset_queues, virtio_dev_reset,
  enable_event_idx, accept_features, write_status, notify_queue, write_register, virtio_mmio_write,
  virtio_mmio_read, mmio_config,
}

reset_queues-length : (i : ℕ) (vqs : List VirtQueue) → length (reset_queues i vqs) ≡ length vqs
unfolding reset_queues
reset_queues-length i [] = refl
reset_queues-length i (vq ∷ vqs) = omega (arith, reset_queues-length (i + 1) vqs)

enable_event_idx-length : (vqs : List VirtQueue) → length (enable_event_idx vqs) ≡ length vqs
unfolding enable_event_idx
enable_event_idx-length [] = refl
enable_event_idx-length (vq ∷ vqs) = omega (arith, enable_event_idx-length vqs)

module _ {Dev : Type 0} where
  -- The operation returns, and leaves a device of `n` queues of which one is selected.
  abbrev pub Keeps : ℕ → Result (VirtIoDevice Dev × World) → Type 0
  Keeps n r =
      (d : VirtIoDevice Dev) × (w : World) × (r ≡ returns (d, w))
      × (length d.vqs ≡ n)
      × (d.regs.queue_sel < n)

  -- The device type's own functions, run on a device of `n` queues with one selected, do so too.
  pub record HandlersKeep (ops : DeviceOps Dev) (n : ℕ) : Type 0 where
    pub reset :
        (d : VirtIoDevice Dev) (w : World)
        → length d.vqs ≡ n
        → d.regs.queue_sel < n
        → Keeps n (ops.reset d w)
    pub notify :
        (i : ℕ) (d : VirtIoDevice Dev) (w : World)
        → length d.vqs ≡ n
        → d.regs.queue_sel < n
        → Keeps n (ops.notify i d w)
    pub status_changed :
        (f : ℕ → VirtIoDevice Dev → World → Result (VirtIoDevice Dev × World))
        → ops.status_changed ≡ some f
        → (value : ℕ) (d : VirtIoDevice Dev) (w : World) → length d.vqs ≡ n
        → d.regs.queue_sel < n
        → Keeps n (f value d w)

  returns-Keeps :
      (n : ℕ) (d : VirtIoDevice Dev) (w : World)
      → length d.vqs ≡ n
      → d.regs.queue_sel < n
      → Keeps n (returns (d, w))
  returns-Keeps n d w hn hs = (d, w, refl, hn, hs)

  >>=-Keeps :
      (n : ℕ) (r : Result (VirtIoDevice Dev × World))
      (f : VirtIoDevice Dev × World → Result (VirtIoDevice Dev × World))
      → Keeps n r
      → ((d : VirtIoDevice Dev) (w : World)
          → length d.vqs ≡ n
          → d.regs.queue_sel < n
          → Keeps n (f (d, w)))
      → Keeps n (r >>= f)
  >>=-Keeps n r f (d, w, e, hn, hs) h = rw e (h d w hn hs)

  reset_line-same :
      (d : VirtIoDevice Dev) (w : World)
      → ((reset_line d w).0.vqs ≡ d.vqs) × ((reset_line d w).0.regs.queue_sel ≡ d.regs.queue_sel)
  unfolding reset_line
  reset_line-same d w = ground arith

  acknowledge-same :
      (value : ℕ) (d : VirtIoDevice Dev) (w : World)
      → ((acknowledge value d w).0.vqs ≡ d.vqs)
        × ((acknowledge value d w).0.regs.queue_sel ≡ d.regs.queue_sel)
  unfolding acknowledge
  acknowledge-same value d w = ground arith

  module _ (ops : DeviceOps Dev) (n : ℕ) where
    update_selected-Keeps :
        (f : VirtQueue → VirtQueue) (d : VirtIoDevice Dev) (w : World)
        → length d.vqs ≡ n
        → d.regs.queue_sel < n
        → Keeps n (update_selected f d w)
    unfolding update_selected
    update_selected-Keeps f d w hn hs =
        let (vq, e) = get_elem?_of_lt d.vqs d.regs.queue_sel (omega arith) in
        rw (update_selected, e)
          (returns-Keeps n (set_queue d d.regs.queue_sel (f vq)) w
            (omega (arith, length-set d.vqs d.regs.queue_sel (f vq))) hs)

    virtio_dev_reset-Keeps :
        (d : VirtIoDevice Dev) (w : World)
        → HandlersKeep ops n
        → length d.vqs ≡ n
        → d.regs.queue_sel < n
        → Keeps n (virtio_dev_reset ops d w)
    unfolding virtio_dev_reset
    virtio_dev_reset-Keeps d w hk hn hs =
        let same = reset_line-same d w in
        >>=-Keeps n _ _
          (update_selected-Keeps (λ vq. record vq { ready = 0 })
            (set_regs (reset_line d w).0 (record ((reset_line d w).0.regs) { status = 0 }))
            (reset_line d w).1 (rw same.0 hn) (rw same.1 hs))
          (λ d2 w2 hn2 hs2. >>=-Keeps n _ _ (hk.reset d2 w2 hn2 hs2) (λ d3 w3 hn3 hs3.
            returns-Keeps n _ w3 (omega (arith, reset_queues-length 0 d3.vqs)) hs3))

    accept_features-Keeps :
        (value : ℕ) (d : VirtIoDevice Dev) (w : World)
        → length d.vqs ≡ n
        → d.regs.queue_sel < n
        → Keeps n (returns (accept_features value d, w))
    unfolding accept_features
    accept_features-Keeps value d w hn hs =
        returns-Keeps n _ w (ground (arith, enable_event_idx-length d.vqs)) (ground arith)

    write_status-Keeps :
        (value : ℕ) (d : VirtIoDevice Dev) (w : World)
        → HandlersKeep ops n
        → length d.vqs ≡ n
        → d.regs.queue_sel < n
        → Keeps n (write_status ops value d w)
    unfolding write_status
    write_status-Keeps value d w hk hn hs =
        let d0 : VirtIoDevice Dev = set_regs d (record (d.regs) { status = value % 2 ^ 32 }) in
        >>=-Keeps n (if value % 2 ^ 32 == 0 then virtio_dev_reset ops d0 w else returns (d0, w)) _
          (elim (Bool-cases (value % 2 ^ 32 == 0)) [
            | inl e ↦ rw e (virtio_dev_reset-Keeps d0 w hk hn hs)
            | inr e ↦ rw e (returns-Keeps n d0 w hn hs)
          ])
          (λ d1 w1 hn1 hs1. elim (Option-cases ops.status_changed) [
            | inl e ↦ rw e (returns-Keeps n d1 w1 hn1 hs1)
            | inr (f, e) ↦ rw e (hk.status_changed f e (value % 2 ^ 32) d1 w1 hn1 hs1)
          ])

    notify_queue-Keeps :
        (value : ℕ) (d : VirtIoDevice Dev) (w : World)
        → HandlersKeep ops n
        → length d.vqs ≡ n
        → d.regs.queue_sel < n
        → Keeps n (notify_queue ops value d w)
    unfolding notify_queue
    notify_queue-Keeps value d w hk hn hs = elim (Option-cases (get_elem? d.vqs value)) [
      | inl e ↦ rw (notify_queue, e) (returns-Keeps n d w hn hs)
      | inr (vq, e) ↦ elim (Bool-cases vq.notify_handler) [
        | inl up ↦ rw (notify_queue, e, up) (hk.notify value d w hn hs)
        | inr down ↦ rw (notify_queue, e, down) (returns-Keeps n d w hn hs)
      ]
    ]

    -- A write that selects a queue selects one of the device's.
    abbrev pub SelectsQueue : Register → ℕ → Type 0
    SelectsQueue r value = r ≡ Register.queue_sel → value % 2 ^ 32 < n

    write_register-Keeps :
        (r : Register) (value : ℕ) (d : VirtIoDevice Dev) (w : World)
        → HandlersKeep ops n
        → SelectsQueue r value
        → length d.vqs ≡ n
        → d.regs.queue_sel < n
        → Keeps n (write_register ops r value d w)
    unfolding write_register
    write_register-Keeps Register.queue_sel value d w hk sel hn hs =
        returns-Keeps n _ w hn (sel refl)
    write_register-Keeps Register.device_features_sel value d w hk sel hn hs =
        returns-Keeps n _ w hn hs
    write_register-Keeps Register.driver_features_sel value d w hk sel hn hs =
        returns-Keeps n _ w hn hs
    write_register-Keeps Register.driver_features value d w hk sel hn hs =
        accept_features-Keeps value d w hn hs
    write_register-Keeps Register.queue_num value d w hk sel hn hs =
        update_selected-Keeps _ d w hn hs
    write_register-Keeps Register.queue_ready value d w hk sel hn hs =
        update_selected-Keeps _ d w hn hs
    write_register-Keeps Register.queue_notify value d w hk sel hn hs =
        notify_queue-Keeps value d w hk hn hs
    write_register-Keeps Register.interrupt_ack value d w hk sel hn hs =
        let same = acknowledge-same value d w in
        returns-Keeps n (acknowledge value d w).0 (acknowledge value d w).1 (rw same.0 hn)
          (rw same.1 hs)
    write_register-Keeps Register.status value d w hk sel hn hs =
        write_status-Keeps value d w hk hn hs
    write_register-Keeps Register.queue_desc_low value d w hk sel hn hs =
        update_selected-Keeps _ d w hn hs
    write_register-Keeps Register.queue_desc_high value d w hk sel hn hs =
        update_selected-Keeps _ d w hn hs
    write_register-Keeps Register.queue_avail_low value d w hk sel hn hs =
        update_selected-Keeps _ d w hn hs
    write_register-Keeps Register.queue_avail_high value d w hk sel hn hs =
        update_selected-Keeps _ d w hn hs
    write_register-Keeps Register.queue_used_low value d w hk sel hn hs =
        update_selected-Keeps _ d w hn hs
    write_register-Keeps Register.queue_used_high value d w hk sel hn hs =
        update_selected-Keeps _ d w hn hs
    write_register-Keeps Register.magic_value value d w hk sel hn hs = returns-Keeps n d w hn hs
    write_register-Keeps Register.version value d w hk sel hn hs = returns-Keeps n d w hn hs
    write_register-Keeps Register.device_id value d w hk sel hn hs = returns-Keeps n d w hn hs
    write_register-Keeps Register.vendor_id value d w hk sel hn hs = returns-Keeps n d w hn hs
    write_register-Keeps Register.device_features value d w hk sel hn hs = returns-Keeps n d w hn hs
    write_register-Keeps Register.queue_num_max value d w hk sel hn hs = returns-Keeps n d w hn hs
    write_register-Keeps Register.interrupt_status value d w hk sel hn hs =
        returns-Keeps n d w hn hs
    write_register-Keeps Register.config_generation value d w hk sel hn hs =
        returns-Keeps n d w hn hs
    write_register-Keeps Register.other value d w hk sel hn hs = returns-Keeps n d w hn hs

    virtio_mmio_write-Keeps :
        (d : VirtIoDevice Dev) (offset value size : ℕ) (w : World)
        → HandlersKeep ops n
        → SelectsQueue (register_at offset) value
        → length d.vqs ≡ n
        → d.regs.queue_sel < n
        → Keeps n (virtio_mmio_write ops d offset value size w)
    unfolding virtio_mmio_write
    virtio_mmio_write-Keeps d offset value size w hk sel hn hs =
        elim (Bool-cases (leb mmio_config offset)) [
          | inl e ↦ rw e (returns-Keeps n d w hn hs)
          | inr e ↦ elim (Bool-cases (size == 4)) [
            | inl four ↦
                rw (e, four) (write_register-Keeps (register_at offset) value d w hk sel hn hs)
            | inr other ↦ rw (e, other) (returns-Keeps n d w hn hs)
          ]
        ]

    -- A driver's writes, one after another.
    abbrev pub writes :
        List (ℕ × ℕ × ℕ) → VirtIoDevice Dev → World → Result (VirtIoDevice Dev × World)
    writes [] d w = returns (d, w)
    writes ((offset, value, size) ∷ rest) d w = do
      (d1, w1) ← virtio_mmio_write ops d offset value size w
      writes rest d1 w1

    -- If the device type's functions keep the device's queues, the first selected queue exists and so
    -- does every queue that a write to QUEUE_SEL selects, then any sequence of register writes of any
    -- sizes returns, and leaves as many queues, of which one is selected.
    pub virtio_mmio_write-safe :
        (accesses : List (ℕ × ℕ × ℕ)) (d : VirtIoDevice Dev) (w : World)
        → HandlersKeep ops n
        → All (λ a. SelectsQueue (register_at a.0) a.1) accesses
        → length d.vqs ≡ n
        → d.regs.queue_sel < n
        → Keeps n (writes accesses d w)
    virtio_mmio_write-safe [] d w hk sel hn hs = returns-Keeps n d w hn hs
    virtio_mmio_write-safe ((offset, value, size) ∷ rest) d w hk sel hn hs =
        >>=-Keeps n _ _ (virtio_mmio_write-Keeps d offset value size w hk sel.0 hn hs)
          (λ d1 w1 hn1 hs1. virtio_mmio_write-safe rest d1 w1 hk sel.1 hn1 hs1)

  -- If a guest selects a queue that the device does not have, then its next read of QUEUE_READY, write
  -- of QUEUE_NUM, QUEUE_READY or QUEUE_DESC_LOW, and reset through STATUS all go outside the array of
  -- queues.
  pub virtio_mmio_write-unselected :
      (ops : DeviceOps Dev) (d : VirtIoDevice Dev) (value : ℕ) (w : World)
      → length d.vqs ≤ d.regs.queue_sel
      → (virtio_mmio_read ops d 0x44 4 ≡ Result.faults)
        × (virtio_mmio_write ops d 0x38 value 4 w ≡ Result.faults)
        × (virtio_mmio_write ops d 0x44 value 4 w ≡ Result.faults)
        × (virtio_mmio_write ops d 0x80 value 4 w ≡ Result.faults)
        × (virtio_mmio_write ops d 0x70 0 4 w ≡ Result.faults)
  unfolding virtio_mmio_read virtio_mmio_write read_register write_register register_at selected
      update_selected write_status virtio_dev_reset
  virtio_mmio_write-unselected ops d value w h =
      let e = get_elem?_of_le d.vqs d.regs.queue_sel h in
      let same = reset_line-same (set_regs d (record (d.regs) { status = 0 })) w in
      let e0 =
        get_elem?_of_le (reset_line (set_regs d (record (d.regs) { status = 0 })) w).0.vqs
          (reset_line (set_regs d (record (d.regs) { status = 0 })) w).0.regs.queue_sel
          (rw same.0 (rw same.1 h)) in
      (
        ground (arith, e),
        ground (arith, e),
        ground (arith, e),
        ground (arith, e),
        ground (arith, e0),
      )
