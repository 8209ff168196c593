-- ===== src/Net/Receive.antt =====
-- The receive queue of tools/virtio/devices/net/virtio_net.c: `virtio_net_event_handler` and
-- `virtio_net_rxq_notify_handler`.
pub mod Quiet
use hvisor_tool.Base.{
  ℕ, zero, suc, ◌+◌, ◌-◌, ◌*◌, ◌%◌, ◌^◌, Bool, true, false, not, ◌&&◌, ◌||◌, List, [], ◌∷◌, ◌++◌,
  Option, none, some, get_elem?, set, length, ltb, ◌==◌, if◌then◌else◌,
}
use hvisor_tool.Memory.{Memory}
use hvisor_tool.ZoneMemory.{ZoneMem}
use hvisor_tool.Queue.{
  VirtQueue, UsedElem, advance_avail, next_avail, vq_is_empty, dec16, update_used_ring_batch,
}
use hvisor_tool.Chain.{
  Outcome, ok, failed, fault, Iovec, VirtioBufConfig, VirtioRequest, chain_len,
  process_descriptor_chain_buf,
}
use hvisor_tool.Device.{
  VirtIoDevice, World, Result, returns, faults, spins, ◌>>=◌, Transfer, moved, errno,
}
use hvisor_tool.Interrupt.{virtio_inject_irq}
use hvisor_tool.Net.{
  virtqueue_net_max_size, ewouldblock, TapHost, NetDev, add_entry, set_dev, disable_notify,
}

-- `max_out` is left out of the designated initializer, so it is 0.
abbrev pub rx_cfg : VirtioBufConfig
rx_cfg = record { max_out = 0; max_in = virtqueue_net_max_size }

-- What the loop changes: memory, the queue, the tap device, the batch so far, and `rx_ready`.
pub record Receiving (T : Type 0) : Type 0 where
  pub memory : Memory
  pub vq : VirtQueue
  pub tap : T
  pub batch : List UsedElem
  pub rx_ready : ℕ

module _ {T : Type 0} (host : TapHost T) (z : ZoneMem) (zone_id : ℕ) where
  -- Store an entry for the chain at `idx`, and whether the loop goes on.
  unfoldable pub store_entry : Bool → ℕ → ℕ → Receiving T → Result (Bool × Receiving T)
  store_entry continues idx len x = do
    batch' ← add_entry x.batch (record { id = idx; len = len })
    returns (continues, record x { batch = batch' })

  -- The end of a round, after `readv`.
  unfoldable pub after_readv : ℕ → Receiving T → Transfer → Result (Bool × Receiving T)
  after_readv idx x (errno e) =
      let blocked : VirtQueue = record (x.vq) { last_avail_idx = dec16 x.vq.last_avail_idx } in
      if e == ewouldblock
      then returns (false, record x { vq = blocked })
      else store_entry false idx 0 x
  after_readv idx x (moved n) =
      if n == 0
      then store_entry false idx 0 (record x { rx_ready = 0 })
      else store_entry true idx (n % 2 ^ 32) x

  -- One round of the loop.
  unfoldable pub receive : Receiving T → Result (Bool × Receiving T)
  receive x =
      let idx = next_avail x.memory x.vq in
      elim (process_descriptor_chain_buf x.memory z zone_id rx_cfg x.vq idx) [
        | fault ↦ faults
        | failed ↦ store_entry false idx 0 (record x { vq = advance_avail x.vq })
        | ok (vq', req) ↦
            let (read_memory, read, tap') = host.readv x.memory req.in_iov x.tap in
            let taken : Receiving T = record x { vq = vq'; memory = read_memory; tap = tap' } in
            if chain_len req == 0
            then store_entry false idx 0 (record x { vq = advance_avail vq' })
            else if ltb virtqueue_net_max_size (chain_len req)
            then store_entry false idx 0 (record x { vq = vq' })
            else after_readv idx taken read
      ]

  -- The loop, for at most so many rounds.
  unfoldable pub rx_requests : ℕ → Receiving T → Result (Receiving T)
  rx_requests zero x = spins
  rx_requests (suc rounds) x =
      let next : Result (Receiving T) = do
        (continues, x') ← receive x
        let rest = rx_requests rounds x'
        if continues then rest else returns x'
      in if vq_is_empty x.memory x.vq then returns x else next

-- NET_QUEUE_RX
abbrev pub net_queue_rx : ℕ
net_queue_rx = 0

module _ {T : Type 0} (host : TapHost T) (need_event : ℕ → ℕ → ℕ → Bool) where
  -- After the loop: the batch and the interrupt.
  unfoldable pub flush_received :
      Receiving T → VirtIoDevice (NetDev T) → World → Result (VirtIoDevice (NetDev T) × World)
  flush_received x d w =
      let net : NetDev T = record (d.dev) { tap = x.tap; rx_ready = x.rx_ready } in
      let d' : VirtIoDevice (NetDev T) = record d {
        vqs = set d.vqs net_queue_rx x.vq;
        dev = net;
      } in
      let m' = update_used_ring_batch x.memory x.vq x.batch in
      virtio_inject_irq need_event net_queue_rx d' (record w { memory = m' })

  -- `valid` tells whether the descriptor is `tapfd` and the event EPOLLIN.
  unfoldable pub virtio_net_event_handler :
      ℕ → Bool → VirtIoDevice (NetDev T) → World → Result (VirtIoDevice (NetDev T) × World)
  virtio_net_event_handler rounds valid d w =
      let dropped : VirtIoDevice (NetDev T) =
        set_dev host d (record (d.dev) { tap = host.read_trash d.dev.tap }) in
      let on_queue : Result (VirtIoDevice (NetDev T) × World) =
        elim (get_elem? d.vqs net_queue_rx) [
          | none ↦ faults
          | some vq ↦
              let started : Receiving T = record {
                memory = w.memory;
                vq = vq;
                tap = d.dev.tap;
                batch = [];
                rx_ready = d.dev.rx_ready;
              } in
              let received : Result (VirtIoDevice (NetDev T) × World) = do
                x ← rx_requests host w.zones d.zone_id rounds started
                flush_received x d w
              in if vq_is_empty w.memory vq
                then virtio_inject_irq need_event net_queue_rx dropped w
                else received
        ] in
      if not valid || not d.dev.tapfd
      then returns (d, w)
      else if d.dev.rx_ready == 0
      then returns (dropped, w)
      else on_queue

  unfoldable pub virtio_net_rxq_notify_handler :
      VirtIoDevice (NetDev T) → World → Result (VirtIoDevice (NetDev T) × World)
  virtio_net_rxq_notify_handler d w =
      let started : Result (VirtIoDevice (NetDev T) × World) = elim (get_elem? d.vqs net_queue_rx) [
        | none ↦ faults
        | some vq ↦ do
          m' ← disable_notify w.memory vq
          returns (set_dev host d (record (d.dev) { rx_ready = 1 }), record w { memory = m' })
      ] in
      if d.dev.rx_ready == 0 then started else returns (d, w)
