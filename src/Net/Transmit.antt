-- ===== src/Net/Transmit.antt =====
-- The transmit queue of tools/virtio/devices/net/virtio_net.c: `virtq_tx_handle_one_request` and
-- `virtio_net_txq_notify_handler`.
use hvisor_tool.Base.{
  ℕ, zero, suc, ◌+◌, ◌-◌, ◌%◌, ◌^◌, Bool, List, [], ◌∷◌, ◌++◌, none, some, get_elem?, set, length,
  ltb, ◌==◌, if◌then◌else◌,
}
use hvisor_tool.Memory.{Memory}
use hvisor_tool.ZoneMemory.{ZoneMem}
use hvisor_tool.Queue.{
  VirtQueue, UsedElem, advance_avail, next_avail, vq_is_empty, virtqueue_disable_notify,
  virtqueue_enable_notify, update_used_ring_batch,
}
use hvisor_tool.Chain.{
  ok, failed, fault, Iovec, VirtioBufConfig, chain_len, process_descriptor_chain_buf,
}
use hvisor_tool.Device.{VirtIoDevice, World, Result, returns, faults, spins, ◌>>=◌, moved, errno}
use hvisor_tool.Interrupt.{virtio_inject_irq}
use hvisor_tool.Net.{
  virtqueue_net_max_size, TapHost, NetDev, add_entry, get_nethdr_size, set_dev, disable_notify,
}

-- `max_in` is left out of the designated initializer, so it is 0.
abbrev pub tx_cfg : VirtioBufConfig
tx_cfg = record { max_out = virtqueue_net_max_size - 1; max_in = 0 }

unfoldable pub total_len : List Iovec → ℕ
total_len [] = 0
total_len (b ∷ bs) = b.iov_len + total_len bs

-- The queue, the tap device and the batch so far.
pub record Sending (T : Type 0) : Type 0 where
  pub vq : VirtQueue
  pub tap : T
  pub batch : List UsedElem

module _ {T : Type 0} (host : TapHost T) (z : ZoneMem) (zone_id : ℕ) (header_len : ℕ)
    (m : Memory) where
  -- The buffers of a packet, with padding where it is short.
  unfoldable pub packet : List Iovec → List Iovec
  packet out_iov =
      let packet_len = total_len out_iov - header_len in
      if ltb packet_len 64
      then out_iov ++ (record { iov_base = host.pad; iov_len = 64 - packet_len } ∷ [])
      else out_iov

  -- The tap device after `writev`, and the length to report.
  unfoldable pub send_packet : List Iovec → T → T × ℕ
  send_packet out_iov tap =
      let (sent, tap') = host.writev m (packet out_iov) tap in
      (tap', elim sent [ moved n ↦ total_len out_iov % 2 ^ 32 | errno e ↦ 0 ])

  -- A request up to the entry that it stores: the queue, the tap device, and the length of the entry.
  -- Without a buffer, `out_iov[0]` is not one of the request's.
  unfoldable pub transmit : VirtQueue → T → Result (VirtQueue × T × ℕ)
  transmit vq tap = elim (process_descriptor_chain_buf m z zone_id tx_cfg vq (next_avail m vq)) [
    | fault ↦ faults
    | failed ↦ returns (advance_avail vq, tap, 0)
    | ok (vq', req) ↦
        if chain_len req == 0 then returns (advance_avail vq', tap, 0) else elim req.out_iov [
          | [] ↦ faults
          | first ∷ others ↦
              let sent = send_packet (first ∷ others) tap in
              if ltb first.iov_len header_len
              then returns (vq', tap, 0)
              else returns (vq', sent.0, sent.1)
        ]
  ]

  unfoldable pub virtq_tx_handle_one_request : Bool → Sending T → Result (Sending T)
  virtq_tx_handle_one_request tapfd x =
      let handled : Result (Sending T) = do
        (vq', tap', len) ← transmit x.vq x.tap
        batch' ← add_entry x.batch (record { id = next_avail m x.vq; len = len })
        returns (record { vq = vq'; tap = tap'; batch = batch' })
      in if tapfd then handled else returns x

  -- The inner loop, for at most so many rounds.
  unfoldable pub tx_requests : ℕ → Bool → Sending T → Result (Sending T)
  tx_requests zero tapfd x = spins
  tx_requests (suc rounds) tapfd x =
      let next : Result (Sending T) = do
        x' ← virtq_tx_handle_one_request tapfd x
        tx_requests rounds tapfd x'
      in if vq_is_empty m x.vq then returns x else next

-- The batch of what the inner loop sent, and `virtio_inject_irq`, for queue `i`.
module _ {T : Type 0} (host : TapHost T) (need_event : ℕ → ℕ → ℕ → Bool) (i : ℕ) where
  abbrev pub put_queue : VirtQueue → VirtIoDevice (NetDev T) → VirtIoDevice (NetDev T)
  put_queue vq d = record d { vqs = set d.vqs i vq }

  unfoldable pub flush_batch :
      Sending T → VirtIoDevice (NetDev T) → World → Result (VirtIoDevice (NetDev T) × World)
  flush_batch x d w =
      let d' : VirtIoDevice (NetDev T) =
        set_dev host (put_queue x.vq d) (record (d.dev) { tap = x.tap }) in
      let m' = update_used_ring_batch w.memory x.vq x.batch in
      if ltb 0 (length x.batch)
      then virtio_inject_irq need_event i d' (record w { memory = m' })
      else returns (d', w)

  -- The rounds of the outer loop, each with at most `requests` rounds of the inner one.
  unfoldable pub tx_rounds :
      ℕ → ℕ → VirtIoDevice (NetDev T) → World → Result (VirtIoDevice (NetDev T) × World)
  tx_rounds requests zero d w = spins
  tx_rounds requests (suc rounds) d w = elim (get_elem? d.vqs i) [
    | none ↦ faults
    | some vq ↦ do
      x ←
          tx_requests host w.zones d.zone_id (get_nethdr_size host d) w.memory requests d.dev.tapfd
            (record { vq = vq; tap = d.dev.tap; batch = [] })
      (d1, w1) ← flush_batch x d w
      let enabled : Memory = virtqueue_enable_notify w1.memory x.vq
      let again =
          tx_rounds requests rounds d1
            (record w1 { memory = virtqueue_disable_notify enabled x.vq })
      if vq_is_empty enabled x.vq then returns (d1, record w1 { memory = enabled }) else again
  ]

  unfoldable pub virtio_net_txq_notify_handler :
      ℕ → ℕ → VirtIoDevice (NetDev T) → World → Result (VirtIoDevice (NetDev T) × World)
  virtio_net_txq_notify_handler requests rounds d w = elim (get_elem? d.vqs i) [
    | none ↦ faults
    | some vq ↦ do
      disabled ← disable_notify w.memory vq
      tx_rounds requests rounds d (record w { memory = disabled })
  ]
