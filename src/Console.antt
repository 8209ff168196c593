-- ===== src/Console.antt =====
-- The console device of tools/virtio/devices/console/virtio_console.c: the handler of the terminal's
-- events, both notify handlers, and its functions as a virtio device. The master side of the
-- pseudo-terminal is an argument.
pub mod Rounds
pub mod Reset
use hvisor_tool.Base.{
  ℕ, zero, suc, ◌+◌, ◌%◌, ◌^◌, Bool, true, false, not, ◌&&◌, ◌||◌, List, [], ◌∷◌, Option, none,
  some, get_elem?, set, ltb, ◌==◌, if◌then◌else◌,
}
use hvisor_tool.Memory.{Memory, null}
use hvisor_tool.ZoneMemory.{ZoneMem}
use hvisor_tool.Queue.{
  VirtQueue, UsedElem, vq_is_empty, dec16, update_used_ring, virtqueue_disable_notify,
  virtqueue_enable_notify,
}
use hvisor_tool.Chain.{Iovec}
use hvisor_tool.Chain.Allocating.{Chained, process_descriptor_chain}
use hvisor_tool.Device.{
  VirtIoDevice, World, Result, returns, faults, spins, ◌>>=◌, Transfer, moved, errno,
}
use hvisor_tool.Interrupt.{virtio_inject_irq}
use hvisor_tool.Mmio.{DeviceOps}

-- CONSOLE_QUEUE_RX and CONSOLE_QUEUE_TX
abbrev pub console_queue_rx : ℕ
console_queue_rx = 0

abbrev pub console_queue_tx : ℕ
console_queue_tx = 1

-- The terminal, whose state is a `T`.
pub record Terminal (T : Type 0) : Type 0 where
  pub read_trash : T → T
  pub readv : Memory → List Iovec → T → Memory × Transfer × T
  pub writev : Memory → List Iovec → T → Transfer × T

-- `ConsoleDev`, where `master_fd` and `rx_ready` tell whether the fields are positive.
pub record ConsoleDev (T : Type 0) : Type 0 where
  pub config_bytes : List ℕ
  pub master_fd : Bool
  pub rx_ready : Bool
  pub terminal : T

-- The array as it is passed to a system call. An entry that was never stored is garbage.
unfoldable pub initialized : List (Option Iovec) → Result (List Iovec)
initialized [] = returns []
initialized (none ∷ iov) = faults
initialized (some b ∷ iov) = do bs ← initialized iov; returns (b ∷ bs)

-- What a loop over a queue changes.
pub record Running (T : Type 0) : Type 0 where
  pub memory : Memory
  pub vq : VirtQueue
  pub terminal : T

-- `process_descriptor_chain` is bounded by `limit` rounds of its loops.
module _ {T : Type 0} (host : Terminal T) (z : ZoneMem) (zone_id : ℕ) (limit : ℕ) where
  -- The end of a round that receives, after `readv`, and whether the loop goes on.
  unfoldable pub after_readv : ℕ → Running T → Transfer → Bool × Running T
  after_readv head x (errno e) =
      (false, record x { vq = record (x.vq) { last_avail_idx = dec16 x.vq.last_avail_idx } })
  after_readv head x (moved n) = (
    true,
    record x { memory = update_used_ring x.memory x.vq (record { id = head; len = n % 2 ^ 32 }) },
  )

  -- One round of the loop of `virtio_console_event_handler`.
  unfoldable pub receive : Running T → Result (Bool × Running T)
  receive x = do
    (vq', chain) ← process_descriptor_chain x.memory z zone_id limit x.vq
    elim chain [
      | none ↦ returns (false, record x { vq = vq' })
      | some c ↦
          let taken : Result (Bool × Running T) = do
            iov ← initialized c.iov
            let (read_memory, read, t') = host.readv x.memory iov x.terminal
            returns
                (after_readv c.head (record { memory = read_memory; vq = vq'; terminal = t' }) read)
          in if c.count == 0 then returns (false, record x { vq = vq' }) else taken
    ]

  unfoldable pub rx_requests : ℕ → Running T → Result (Running T)
  rx_requests zero x = spins
  rx_requests (suc rounds) x =
      let next : Result (Running T) = do
        (continues, x') ← receive x
        let rest = rx_requests rounds x'
        if continues then rest else returns x'
      in if vq_is_empty x.memory x.vq then returns x else next

  unfoldable pub virtq_tx_handle_one_request : Bool → Running T → Result (Running T)
  virtq_tx_handle_one_request master_fd x =
      let handled : Result (Running T) = do
        (vq', chain) ← process_descriptor_chain x.memory z zone_id limit x.vq
        elim chain [
          | none ↦ returns (record x { vq = vq' })
          | some c ↦
              let sent : Result (Running T) = do
                iov ← initialized c.iov
                let (written, t') = host.writev x.memory iov x.terminal
                returns (record {
                  memory = update_used_ring x.memory vq' (record { id = c.head; len = 0 });
                  vq = vq';
                  terminal = t';
                })
              in if c.count == 0 then returns (record x { vq = vq' }) else sent
        ]
      in if master_fd then handled else returns x

  -- The inner loop of `virtio_console_txq_notify_handler`.
  unfoldable pub tx_requests : ℕ → Bool → Running T → Result (Running T)
  tx_requests zero master_fd x = spins
  tx_requests (suc rounds) master_fd x =
      let next : Result (Running T) = do
        x' ← virtq_tx_handle_one_request master_fd x
        tx_requests rounds master_fd x'
      in if vq_is_empty x.memory x.vq then returns x else next

  -- The outer loop, with `requests` rounds of the inner one at most.
  unfoldable pub tx_rounds : ℕ → ℕ → Bool → Running T → Result (Running T)
  tx_rounds requests zero master_fd x = spins
  tx_rounds requests (suc rounds) master_fd x =
      let next : Result (Running T) = do
        x' ←
            tx_requests requests master_fd
              (record x { memory = virtqueue_disable_notify x.memory x.vq })
        tx_rounds requests rounds master_fd
            (record x' { memory = virtqueue_enable_notify x'.memory x'.vq })
      in if vq_is_empty x.memory x.vq
        then returns x
        else if x.vq.used_ring == null
        then faults
        else next

module _ {T : Type 0} (host : Terminal T) (need_event : ℕ → ℕ → ℕ → Bool) (limit : ℕ) where
  -- The loop's results in the device, and `virtio_inject_irq` for queue `i`.
  unfoldable pub finish :
      ℕ
      → Running T
      → VirtIoDevice (ConsoleDev T)
      → World
      → Result (VirtIoDevice (ConsoleDev T) × World)
  finish i x d w =
      virtio_inject_irq need_event i
        (record d { vqs = set d.vqs i x.vq; dev = record (d.dev) { terminal = x.terminal } })
        (record w { memory = x.memory })

  -- `valid` tells whether the descriptor is `master_fd` and the event EPOLLIN.
  unfoldable pub virtio_console_event_handler :
      ℕ → Bool → VirtIoDevice (ConsoleDev T) → World → Result (VirtIoDevice (ConsoleDev T) × World)
  virtio_console_event_handler rounds valid d w =
      let dropped : VirtIoDevice (ConsoleDev T) = record d {
        dev = record (d.dev) { terminal = host.read_trash d.dev.terminal };
      } in
      let on_queue : Result (VirtIoDevice (ConsoleDev T) × World) =
        elim (get_elem? d.vqs console_queue_rx) [
          | none ↦ faults
          | some vq ↦
              let received : Result (VirtIoDevice (ConsoleDev T) × World) = do
                x ←
                    rx_requests host w.zones d.zone_id limit rounds
                      (record { memory = w.memory; vq = vq; terminal = d.dev.terminal })
                finish console_queue_rx x d w
              in if vq_is_empty w.memory vq
                then virtio_inject_irq need_event console_queue_rx dropped w
                else received
        ] in
      if not valid || not d.dev.master_fd
      then returns (d, w)
      else if not d.dev.rx_ready
      then returns (dropped, w)
      else on_queue

  unfoldable pub virtio_console_rxq_notify_handler :
      VirtIoDevice (ConsoleDev T) → World → Result (VirtIoDevice (ConsoleDev T) × World)
  virtio_console_rxq_notify_handler d w =
      let started : Result (VirtIoDevice (ConsoleDev T) × World) =
        elim (get_elem? d.vqs console_queue_rx) [
          | none ↦ faults
          | some vq ↦
              if vq.used_ring == null
              then faults
              else returns (
                record d { dev = record (d.dev) { rx_ready = true } },
                record w { memory = virtqueue_disable_notify w.memory vq },
              )
        ] in
      if d.dev.rx_ready then returns (d, w) else started

  unfoldable pub virtio_console_txq_notify_handler :
      ℕ → ℕ → VirtIoDevice (ConsoleDev T) → World → Result (VirtIoDevice (ConsoleDev T) × World)
  virtio_console_txq_notify_handler requests rounds d w = elim (get_elem? d.vqs console_queue_tx) [
    | none ↦ faults
    | some vq ↦ do
      x ←
          tx_rounds host w.zones d.zone_id limit requests rounds d.dev.master_fd
            (record { memory = w.memory; vq = vq; terminal = d.dev.terminal })
      finish console_queue_tx x d w
  ]

  unfoldable pub virtio_console_reset : VirtIoDevice (ConsoleDev T) → VirtIoDevice (ConsoleDev T)
  virtio_console_reset d = d

  -- The functions of a console device.
  unfoldable pub virtio_console_ops : ℕ → ℕ → DeviceOps (ConsoleDev T)
  virtio_console_ops requests rounds = record {
    config_bytes = λ dev. dev.config_bytes;
    reset = λ d w. returns (virtio_console_reset d, w);
    status_changed = none;
    notify = λ i d w.
        if i == console_queue_rx
        then virtio_console_rxq_notify_handler d w
        else if i == console_queue_tx
        then virtio_console_txq_notify_handler requests rounds d w
        else returns (d, w);
  }
