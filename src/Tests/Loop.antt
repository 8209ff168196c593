-- ===== src/Tests/Loop.antt =====
-- Runs of the request loop of tools/virtio/virtio.c.
use hvisor_tool.Base.{
  ℕ, zero, suc, ◌+◌, ◌%◌, ◌^◌, true, ◌≡◌, refl, arith, List, [], ◌∷◌, append-nil, sym, length, none,
  some, get_elem?,
}
use hvisor_tool.Device.{VirtIoDevice, DeviceReq, RequestRing, Result, returns}
use hvisor_tool.Bridge.{
  poll, consume_pending_requests, virtio_handle_req, Daemon, find_device, in_range,
  virtio_finish_cfg_req, access,
}
use hvisor_tool.Bridge.Fifo.{
  requests, IsValidRequests, IsProducer, Drained, consume_pending_requests-fifo,
}
use hvisor_tool.Bridge.Polling.{consume_pending_requests-returns}
use hvisor_tool.Bridge.Lookup.{Serves, virtio_handle_req-isolation}
use hvisor_tool.Blk.Threads.{parked}
use hvisor_tool.Blk.Worker.{started}
use hvisor_tool.Blk.Ops.{BlkDev, virtio_blk_ops}
use hvisor_tool.Mmio.{DeviceOps, virtio_mmio_read, read_register, selected}
use hvisor_tool.Mmio.Registers.{register_at}
use hvisor_tool.Tests.{device, world, bridge}

abbrev request : ℕ → DeviceReq
request address = record {
  src_cpu = 1;
  address = address;
  size = 4;
  value = 0;
  src_zone = 1;
  is_write = 0;
  need_interrupt = 0;
}

abbrev repeat_req : ℕ → List DeviceReq
repeat_req zero = []
repeat_req (suc n) = request 0xa000000 ∷ repeat_req n

-- Two requests round the end of the ring.
abbrev ring : RequestRing
ring = record { req_front = 31; req_rear = 1; req_list = repeat_req 32; need_wakeup = 1 }

ring-IsValidRequests : IsValidRequests ring
ring-IsValidRequests = record { front_in = omega arith; rear_in = omega arith; size = refl }

abbrev two : List DeviceReq
two = request 0xa000000 ∷ request 0xa000000 ∷ []

-- A hypervisor that has sent its two requests, and a handler that counts.
abbrev quiet : RequestRing → Unit {0} → RequestRing × Unit {0}
quiet r e = (r, e)

abbrev sent : Unit {0} → List DeviceReq
sent e = two

abbrev count : DeviceReq → ℕ → Result ℕ
count req n = returns (n + 1)

quiet-IsProducer : (r : RequestRing) (e : Unit {0}) → IsValidRequests r → IsProducer sent quiet r e
quiet-IsProducer r e v = record {
  valid = v;
  front_same = refl;
  wakeup_same = refl;
  added = [];
  sends = refl;
  appends = sym (append-nil (requests r));
}

abbrev drained : ℕ × RequestRing × Unit {0} × ℕ
drained = (2, record ring { req_front = 1 }, tt, 2)

ring_runs : consume_pending_requests 3 count quiet 6 ring tt 0 ≡ returns drained
unfolding consume_pending_requests poll
ring_runs = refl

consume_pending_requests-fifo_example : Drained 3 count quiet sent quiet-IsProducer [] 0 0 drained
consume_pending_requests-fifo_example =
    consume_pending_requests-fifo 3 count quiet sent quiet-IsProducer 6 [] ring tt 0 drained
      ring-IsValidRequests refl ring_runs

-- Two devices, of zones 1 and 2 at the same address.
abbrev inert : DeviceOps ℕ
inert = record {
  config_bytes = λ d. [];
  reset = λ d w. returns (d, w);
  status_changed = none;
  notify = λ i d w. returns (d, w);
}

abbrev neighbour : VirtIoDevice ℕ
neighbour = record device { zone_id = 2 }

abbrev daemon : Daemon ℕ
daemon = record { vdevs = device ∷ neighbour ∷ []; world = world }

-- Zone 1 asks its device for the queue's maximal size.
abbrev served : Daemon ℕ
served = record daemon {
  world = record world {
    bridge = record bridge { cfg_flags = 0 ∷ 1 ∷ []; cfg_values = 0 ∷ 4 ∷ [] };
  };
}

request_runs : virtio_handle_req inert (request 0xa000034) daemon ≡ returns served
unfolding virtio_handle_req find_device in_range virtio_finish_cfg_req access virtio_mmio_read
    read_register register_at selected
request_runs = refl

other_zone : ¬ Serves 1 0xa000034 neighbour
other_zone s = absurd (omega (arith, s.same_zone))

virtio_handle_req-isolation_example :
    (length served.vdevs ≡ 2) × (get_elem? served.vdevs 1 ≡ some neighbour)
virtio_handle_req-isolation_example =
    virtio_handle_req-isolation inert (request 0xa000034) daemon served 1 neighbour request_runs
      refl other_zone

-- A block device whose worker grants every reset, and 32 reads of its queue's maximal size.
abbrev blk_ops : DeviceOps BlkDev
blk_ops = virtio_blk_ops (λ t. some (record t { worker = parked; worker_paused = true }))

abbrev blk_device : VirtIoDevice BlkDev
blk_device = record {
  zone_id = device.zone_id;
  irq_id = device.irq_id;
  base_addr = device.base_addr;
  len = device.len;
  regs = device.regs;
  vqs = device.vqs;
  dev = record { config_bytes = []; thread_started = true; threads = started };
  activated = device.activated;
  interrupt_line_asserted = device.interrupt_line_asserted;
}

abbrev with_answers : ℕ → ℕ → ℕ → ℕ → Daemon BlkDev
with_answers a b c d = record {
  vdevs = blk_device ∷ [];
  world = record world {
    bridge = record bridge { cfg_flags = a ∷ b ∷ []; cfg_values = c ∷ d ∷ [] };
  };
}

abbrev IsAnswering : Daemon BlkDev → Type 0
IsAnswering s = (a b c d : ℕ) × (s ≡ with_answers a b c d)

abbrev size_read : DeviceReq
size_read = request 0xa000034

abbrev IsSizeRead : DeviceReq → Type 0
IsSizeRead req = req ≡ size_read

one_answer :
    (a b c d : ℕ)
    → virtio_handle_req blk_ops size_read (with_answers a b c d)
      ≡ returns (with_answers a ((b + 1) % 2 ^ 64) c 4)
unfolding virtio_handle_req find_device in_range virtio_finish_cfg_req access virtio_mmio_read
    read_register register_at selected
one_answer a b c d = refl

answers_on :
    (req : DeviceReq) (s : Daemon BlkDev)
    → IsSizeRead req
    → IsAnswering s
    → (s' : Daemon BlkDev) × (virtio_handle_req blk_ops req s ≡ returns s') × IsAnswering s'
answers_on req s q (a, b, c, d, e) = (
  with_answers a ((b + 1) % 2 ^ 64) c 4,
  rw (q, e) (one_answer a b c d),
  (a, (b + 1) % 2 ^ 64, c, 4, refl),
)

abbrev repeat_read : ℕ → List DeviceReq
repeat_read zero = []
repeat_read (suc n) = size_read ∷ repeat_read n

abbrev reads : RequestRing
reads = record { req_front = 31; req_rear = 1; req_list = repeat_read 32; need_wakeup = 1 }

repeat_read-IsSizeRead :
    (n i : ℕ) (req : DeviceReq) → get_elem? (repeat_read n) i ≡ some req → IsSizeRead req
repeat_read-IsSizeRead zero i req e = cc
repeat_read-IsSizeRead (suc n) zero req e = cc
repeat_read-IsSizeRead (suc n) (suc i) req e = repeat_read-IsSizeRead n i req e

consume_pending_requests-returns_example :
    (out : ℕ × RequestRing × Unit {0} × Daemon BlkDev) × (consume_pending_requests 3
        (virtio_handle_req blk_ops)
        quiet
        6
        reads
        tt
        (with_answers 0 0 0 0)
      ≡ returns out)
consume_pending_requests-returns_example =
    consume_pending_requests-returns 3 (virtio_handle_req blk_ops) quiet (λ r e. refl) IsSizeRead
      IsAnswering answers_on 6 reads tt (with_answers 0 0 0 0)
      (record { front_in = omega arith; rear_in = omega arith; size = refl })
      (repeat_read-IsSizeRead 32) (0, 0, 0, 0, refl) (omega arith)
