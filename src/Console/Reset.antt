-- ===== src/Console/Reset.antt =====
-- A reset of a console device (tools/virtio/devices/console/virtio_console.c) by the driver.
use hvisor_tool.Base.{ℕ, ◌≡◌, refl, ap, Bool, true, some, get_elem?, arith, ◌==◌}
use hvisor_tool.Memory.{null}
use hvisor_tool.Queue.{VirtQueue, vq_is_empty}
use hvisor_tool.Device.{VirtIoDevice, World, returns, faults}
use hvisor_tool.Interrupt.{virtio_inject_irq, inject_queue}
use hvisor_tool.Mmio.{virtio_dev_reset}
use hvisor_tool.Mmio.Setup.{LeavesOwn, virtio_dev_reset-own}
use hvisor_tool.Console.{
  Terminal, ConsoleDev, virtio_console_reset, virtio_console_ops, virtio_console_event_handler,
}

module _ {T : Type 0} (host : Terminal T) (need_event : ℕ → ℕ → ℕ → Bool)
    (limit requests rounds : ℕ) where
  no_avail-vq_is_empty :
      (w : World) (vq : VirtQueue) → vq.avail_ring ≡ 0 → vq_is_empty w.memory vq ≡ true
  unfolding vq_is_empty
  no_avail-vq_is_empty w vq e = ground arith

  no_used-faults :
      (d : VirtIoDevice (ConsoleDev T)) (w : World) (vq : VirtQueue)
      → get_elem? d.vqs 0 ≡ some vq
      → vq.used_ring ≡ 0
      → virtio_inject_irq need_event 0 d w ≡ faults
  unfolding virtio_inject_irq inject_queue
  no_used-faults d w vq found e =
      let unset : (vq.used_ring == null) ≡ true = ground arith in
      rw (virtio_inject_irq, found, inject_queue, unset) refl

  -- A device that receives, with its receive queue not set up.
  unset_faults :
      (d : VirtIoDevice (ConsoleDev T)) (w : World) (vq : VirtQueue)
      → get_elem? d.vqs 0 ≡ some vq
      → vq.avail_ring ≡ 0
      → vq.used_ring ≡ 0
      → d.dev.master_fd ≡ true
      → d.dev.rx_ready ≡ true
      → virtio_console_event_handler host need_event limit rounds true d w ≡ faults
  unfolding virtio_console_event_handler
  unset_faults d w vq found no_avail no_used fd ready =
      let quiet : VirtIoDevice (ConsoleDev T) = record d {
        dev = record (d.dev) { terminal = host.read_trash d.dev.terminal };
      } in
      rw (virtio_console_event_handler, fd, ready, found, no_avail-vq_is_empty w vq no_avail)
        (no_used-faults quiet w vq found no_used)

  -- The terminal is open and the device receives.
  abbrev Receives : ConsoleDev T → Type 0
  Receives own = (own.master_fd ≡ true) × (own.rx_ready ≡ true)

  keeps_own : LeavesOwn Receives Receives (virtio_console_ops host need_event limit requests rounds)
  unfolding virtio_console_ops virtio_console_reset
  keeps_own d w own = (d.dev, w, refl, own)

  -- A console device that was receiving, with its terminal open, and that the driver resets with an
  -- existing queue selected: the next event of the terminal makes its handler read the used ring of the
  -- receive queue through NULL.
  pub virtio_console_event_handler-reset_faults :
      (d : VirtIoDevice (ConsoleDev T)) (w : World) (vq rx : VirtQueue)
      → get_elem? d.vqs d.regs.queue_sel ≡ some vq
      → get_elem? d.vqs 0 ≡ some rx
      → d.dev.master_fd ≡ true
      → d.dev.rx_ready ≡ true
      → (d' : VirtIoDevice (ConsoleDev T)) × (w' : World) × (virtio_dev_reset
            (virtio_console_ops host need_event limit requests rounds)
            d
            w
          ≡ returns (d', w'))
        × (virtio_console_event_handler host need_event limit rounds true d' w' ≡ faults)
  virtio_console_event_handler-reset_faults d w vq rx h h0 fd ready =
      let (d', w', run, reset, own) =
        virtio_dev_reset-own Receives Receives
          (virtio_console_ops host need_event limit requests rounds) d w vq keeps_own (fd, ready)
          h in
      let (rx', found, fresh) = reset.fresh 0 rx h0 in
      (
        d',
        w',
        run,
        unset_faults d' w' rx' found (ap (λ q. q.avail_ring) fresh) (ap (λ q. q.used_ring) fresh)
            own.0 own.1,
      )
