-- ===== src/Tests/Devices.antt =====
-- Runs of the registers and of the interrupt line of a device of tools/virtio/virtio.c.
use hvisor_tool.Base.{
  Option, some, ℕ, ◌%◌, ◌≡◌, ◌≢◌, inl, inr, refl, arith, List, [], ◌∷◌, All, Bool, true, none, ◌==◌,
  if◌then◌else◌, set,
}
use hvisor_tool.Memory.{Memory, load16, load8}
use hvisor_tool.ZoneMemory.{get_virt_addr}
use hvisor_tool.Device.{
  VirtIoDevice, World, Attempt, Ioctl, Result, returns, gives_answer, call_kernel, ioctl_retry,
  is_queue_full,
}
use hvisor_tool.Interrupt.{
  inject_queue, wants_interrupt, raise_interrupt, send_interrupt, push_response, announce,
  wait_room, acknowledge,
}
use hvisor_tool.Interrupt.Line.{LineInv, LineReach, LineStep, LineReach-LineInv}
use hvisor_tool.Interrupt.Delivery.{AnswerComes, inject_queue-returns}
use hvisor_tool.Interrupt.Responses.{Raised, noted, IsValidRing, inject_queue_lem}
use hvisor_tool.Mmio.{DeviceOps, virtio_mmio_read, virtio_mmio_write, virtio_dev_reset, set_queue}
use hvisor_tool.Mmio.Registers.{register_at}
use hvisor_tool.Mmio.Safety.{
  Keeps, SelectsQueue, writes, virtio_mmio_write-safe, virtio_mmio_write-unselected,
}
use hvisor_tool.Mmio.Setup.{
  TouchesOwn, IsReset, write_pair, virtio_mmio_write-addresses, virtio_dev_reset_lem,
}
use hvisor_tool.Blk.Threads.{Threads, parked}
use hvisor_tool.Blk.Worker.{started}
use hvisor_tool.Blk.Ops.{BlkDev, virtio_blk_ops, virtio_blk_ops-HandlersKeep}
use hvisor_tool.Tests.{zones, queue, device, regs, world, bridge, responses_32}

-- A device type whose functions do nothing.
abbrev inert : DeviceOps ℕ
inert = record {
  config_bytes = λ d. 1 ∷ 2 ∷ [];
  reset = λ d w. returns (d, w);
  status_changed = none;
  notify = λ i d w. returns (d, w);
}

-- A block device whose worker grants every reset.
abbrev grants : Threads → Option Threads
grants t = some (record t { worker = parked; worker_paused = true })

abbrev blk_device : VirtIoDevice BlkDev
blk_device = record {
  zone_id = device.zone_id;
  irq_id = device.irq_id;
  base_addr = device.base_addr;
  len = device.len;
  regs = device.regs;
  vqs = device.vqs;
  dev = record { config_bytes = []; thread_started = true; threads = started };
  activated = device.activated;
  interrupt_line_asserted = device.interrupt_line_asserted;
}

-- Select queue 0, give its size and ring, make it ready, notify it, and reset the device.
abbrev setup : List (ℕ × ℕ × ℕ)
setup =
    (0x30, 0, 4)
    ∷ (0x38, 4, 4)
    ∷ (0x80, 0x1000, 4)
    ∷ (0x84, 0, 4)
    ∷ (0x44, 1, 4)
    ∷ (0x50, 0, 4)
    ∷ (0x70, 0, 4)
    ∷ []

setup_selects : All (λ a. SelectsQueue (virtio_blk_ops grants) 1 (register_at a.0) a.1) setup
unfolding register_at
setup_selects =
    (λ e. omega arith, (λ e. cc, (λ e. cc, (λ e. cc, (λ e. cc, (λ e. cc, (λ e. cc, tt)))))))

virtio_mmio_write-safe_example : Keeps 1 (writes (virtio_blk_ops grants) 1 setup blk_device world)
virtio_mmio_write-safe_example =
    virtio_mmio_write-safe (virtio_blk_ops grants) 1 setup blk_device world
      (virtio_blk_ops-HandlersKeep grants 1
        (λ t. (record t { worker = parked; worker_paused = true }, refl)))
      setup_selects refl (omega arith)

-- The device after a guest selected queue 5.
abbrev queue_5 : VirtIoDevice ℕ
queue_5 = record device { regs = record regs { queue_sel = 5 } }

virtio_mmio_write-unselected_example :
    (virtio_mmio_read inert queue_5 0x44 4 ≡ Result.faults)
    × (virtio_mmio_write inert queue_5 0x38 4 4 world ≡ Result.faults)
    × (virtio_mmio_write inert queue_5 0x44 4 4 world ≡ Result.faults)
    × (virtio_mmio_write inert queue_5 0x80 4 4 world ≡ Result.faults)
    × (virtio_mmio_write inert queue_5 0x70 0 4 world ≡ Result.faults)
virtio_mmio_write-unselected_example =
    virtio_mmio_write-unselected inert queue_5 4 world (omega arith)

inert-TouchesOwn : TouchesOwn inert
inert-TouchesOwn d w = (d.dev, w, refl)

virtio_dev_reset_lem_example :
    (d' : VirtIoDevice ℕ) × (w' : World) × (virtio_dev_reset inert device world ≡ returns (d', w'))
    × IsReset device d'
virtio_dev_reset_lem_example = virtio_dev_reset_lem inert device world queue inert-TouchesOwn refl

-- Where a device is asserted and its status shows the queue's interrupt.
abbrev up : VirtIoDevice ℕ
up = record device { regs = record regs { interrupt_status = 1 }; interrupt_line_asserted = true }

abbrev need_event : ℕ → ℕ → ℕ → Bool
need_event event idx last = true

acknowledged : LineReach need_event (up, world) (acknowledge 1 up world)
acknowledged = LineReach.later LineReach.start (LineStep.acks 1 refl)

LineReach-LineInv_example : LineInv (acknowledge 1 up world).0
LineReach-LineInv_example = LineReach-LineInv need_event (up, world) (λ h. omega arith) acknowledged

-- A used index of 1, which the daemon has not announced yet.
abbrev one_done : Memory
one_done x = if x == 12290 then 1 else 0

abbrev busy : World
busy = record world { memory = one_done }

abbrev announced : VirtIoDevice ℕ
announced = record device {
  regs = record regs { interrupt_status = 1 };
  vqs = record queue { last_used_idx = 1 } ∷ [];
  interrupt_line_asserted = true;
}

-- The ring was full at the first look; the kernel module's call was interrupted once.
abbrev answered : World
answered = record busy {
  bridge = record bridge {
    res_front = 4;
    res_list = set responses_32 31 (record { target_zone = 1; irq_id = 78 });
    res_rear = 0;
  };
  res_fronts = [];
  attempts = Attempt.done ∷ [];
  calls = Ioctl.finish_req ∷ Ioctl.finish_req ∷ [];
}

one_done_runs : inject_queue need_event 0 queue device busy ≡ returns (announced, answered)
unfolding inject_queue wants_interrupt raise_interrupt send_interrupt push_response wait_room
    is_queue_full announce gives_answer call_kernel ioctl_retry load16 load8
one_done_runs = refl

busy-IsValidRing : IsValidRing busy
busy-IsValidRing = record { rear_in = omega arith; entries = refl }

inject_queue_lem_example : (1 % 2 ≡ 1) × Raised (noted 0 queue device busy) announced busy answered
inject_queue_lem_example =
    inject_queue_lem need_event 0 queue device announced busy answered busy-IsValidRing
      (omega arith, (omega arith, tt)) one_done_moved one_done_wanted one_done_runs
  where
    one_done_moved : load16 one_done 12290 ≢ 0
    one_done_moved = unfold load16 load8 in omega arith

    one_done_wanted : wants_interrupt need_event one_done queue (load16 one_done 12290) 0 ≡ true
    one_done_wanted = unfold wants_interrupt load16 load8 in refl

virtio_mmio_write-addresses_example :
    (write_pair inert 0x80 0x84 0x1010 0 device world
      ≡ returns (
        set_queue device 0
            (record queue { desc_table_addr = 0x1010; desc_table = get_virt_addr zones 0x1010 1 }),
        world,
      ))
    × (write_pair inert 0x90 0x94 0x1010 0 device world
        ≡ returns (
          set_queue device 0
              (record queue { avail_addr = 0x1010; avail_ring = get_virt_addr zones 0x1010 1 }),
          world,
        ))
    × (write_pair inert 0xa0 0xa4 0x1010 0 device world
        ≡ returns (
          set_queue device 0
              (record queue { used_addr = 0x1010; used_ring = get_virt_addr zones 0x1010 1 }),
          world,
        ))
virtio_mmio_write-addresses_example =
    virtio_mmio_write-addresses inert device world queue 0x1010 0 refl refl refl refl (omega arith)
      (omega arith)

answer_comes : AnswerComes busy.attempts
answer_comes = inr (inl (λ e. absurd cc))

inject_queue-returns_example :
    (r : VirtIoDevice ℕ × World) × (inject_queue need_event 0 queue device busy ≡ returns r)
inject_queue-returns_example =
    inject_queue-returns need_event 0 queue device busy (omega arith) (inr (inl (omega arith)))
      answer_comes (omega arith) (omega arith)
