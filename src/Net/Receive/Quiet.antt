-- ===== src/Net/Receive/Quiet.antt =====
-- The receive queue of tools/virtio/devices/net/virtio_net.c around a reset of the device by the driver
-- (`virtio_dev_reset` of tools/virtio/virtio.c).
use hvisor_tool.Base.{
  ℕ, ◌≡◌, refl, ap, ◌∙◌, Bool, true, some, get_elem?, arith, Bool-cases, inl, inr, not, ◌||◌,
}
use hvisor_tool.Queue.{VirtQueue}
use hvisor_tool.Device.{VirtIoDevice, World, returns, faults}
use hvisor_tool.Mmio.{DeviceOps, virtio_dev_reset, notify_queue}
use hvisor_tool.Mmio.Setup.{IsReset, LeavesOwn, virtio_dev_reset-own}
use hvisor_tool.Net.{TapHost, NetDev, virtio_net_reset, disable_notify}
use hvisor_tool.Net.Receive.{virtio_net_event_handler, virtio_net_rxq_notify_handler}
use hvisor_tool.Net.Setup.{virtio_net_ops}

module _ {T : Type 0} (host : TapHost T) (need_event : ℕ → ℕ → ℕ → Bool) (requests rounds : ℕ) where
  abbrev ops : DeviceOps (NetDev T)
  ops = virtio_net_ops host need_event requests rounds

  clears_ready : LeavesOwn (λ net. net ≡ net) (λ net. net.rx_ready ≡ 0) ops
  unfolding virtio_net_ops virtio_net_reset
  clears_ready d w same = (record (d.dev) { rx_ready = 0 }, w, refl, refl)

  not_ready_quiet :
      (valid : Bool) (d : VirtIoDevice (NetDev T)) (w : World)
      → d.dev.rx_ready ≡ 0
      → (net : NetDev T) × (virtio_net_event_handler host need_event requests valid d w
          ≡ returns (record d { dev = net }, w))
        × (net.rx_ready ≡ 0)
  unfolding virtio_net_event_handler
  not_ready_quiet valid d w e = elim (Bool-cases (not valid || not d.dev.tapfd)) [
    | inl skip ↦ (d.dev, rw (virtio_net_event_handler, skip) refl, e)
    | inr go ↦ (
      record (d.dev) { tap = host.read_trash d.dev.tap },
      rw (virtio_net_event_handler, go, e) refl,
      e,
    )
  ]

  -- The selected queue exists.
  net_reset_lem :
      (d : VirtIoDevice (NetDev T)) (w : World) (vq : VirtQueue)
      → get_elem? d.vqs d.regs.queue_sel ≡ some vq
      → (d' : VirtIoDevice (NetDev T)) × (w' : World) × (virtio_dev_reset ops d w
          ≡ returns (d', w'))
        × (d'.dev.rx_ready ≡ 0)
        × IsReset d d'
  unfolding virtio_dev_reset
  net_reset_lem d w vq h =
      let (d', w', run, fresh, quiet) =
        virtio_dev_reset-own (λ net. net ≡ net) (λ net. net.rx_ready ≡ 0) ops d w vq clears_ready
          refl h in
      (d', w', run, quiet, fresh)

  -- After a reset that the driver asked for, with an existing queue selected, the handler of the tap
  -- device's events returns without touching memory, the bridge or a queue, and keeps `rx_ready` 0.
  pub virtio_net_event_handler-reset :
      (valid : Bool) (d : VirtIoDevice (NetDev T)) (w : World) (vq : VirtQueue)
      → get_elem? d.vqs d.regs.queue_sel ≡ some vq
      → (d' : VirtIoDevice (NetDev T)) × (w' : World) × (virtio_dev_reset
            (virtio_net_ops host need_event requests rounds)
            d
            w
          ≡ returns (d', w'))
        × ((net : NetDev T) × (virtio_net_event_handler host need_event requests valid d' w'
              ≡ returns (record d' { dev = net }, w'))
            × (net.rx_ready ≡ 0))
  virtio_net_event_handler-reset valid d w vq h =
      let (d', w', run, quiet, fresh) = net_reset_lem d w vq h in
      (d', w', run, not_ready_quiet valid d' w' quiet)

  unset_faults :
      (d : VirtIoDevice (NetDev T)) (w : World) (vq : VirtQueue)
      → get_elem? d.vqs 0 ≡ some vq
      → vq.used_ring ≡ 0
      → d.dev.rx_ready ≡ 0
      → virtio_net_rxq_notify_handler host need_event d w ≡ faults
  unfolding virtio_net_rxq_notify_handler disable_notify
  unset_faults d w vq found null_ring quiet =
      let unset : disable_notify w.memory vq ≡ faults = ground (arith, null_ring) in
      rw (virtio_net_rxq_notify_handler, quiet, found, unset) refl

  -- After such a reset, a notification of the receive queue that comes before the driver has set the
  -- address of its used ring writes through NULL.
  pub notify_queue-reset_faults :
      (d : VirtIoDevice (NetDev T)) (w : World) (vq rx : VirtQueue)
      → get_elem? d.vqs d.regs.queue_sel ≡ some vq
      → get_elem? d.vqs 0 ≡ some rx
      → rx.notify_handler ≡ true
      → (d' : VirtIoDevice (NetDev T)) × (w' : World) × (virtio_dev_reset
            (virtio_net_ops host need_event requests rounds)
            d
            w
          ≡ returns (d', w'))
        × (notify_queue (virtio_net_ops host need_event requests rounds) 0 d' w' ≡ faults)
  unfolding notify_queue virtio_net_ops
  notify_queue-reset_faults d w vq rx h h0 handled =
      let (d', w', run, quiet, fresh) = net_reset_lem d w vq h in
      let (rx', found, is_fresh) = fresh.fresh 0 rx h0 in
      let kept : rx'.notify_handler ≡ true = ap (λ q. q.notify_handler) is_fresh ∙ handled in
      let null_ring : rx'.used_ring ≡ 0 = ap (λ q. q.used_ring) is_fresh in
      (d', w', run, rw (notify_queue, found, kept) (unset_faults d' w' rx' found null_ring quiet))
