-- ===== src/Bridge.antt =====
-- The requests of the hypervisor in tools/virtio/virtio.c: `in_range`, `virtio_finish_cfg_req`,
-- `virtio_handle_req` and the loop of `consume_pending_requests`.
pub mod Lookup
pub mod Fifo
pub mod Polling
use hvisor_tool.Base.{
  ℕ, zero, suc, ◌+◌, ◌-◌, ◌%◌, ◌^◌, bit_and, Bool, true, false, not, ◌&&◌, List, [], ◌∷◌, Option,
  none, some, set, get_elem?, ltb, leb, ◌==◌, if◌then◌else◌,
}
use hvisor_tool.Device.{
  VirtIoDevice, DeviceReq, RequestRing, VirtioBridge, World, max_req, Result, returns, faults,
  spins, ◌>>=◌,
}
use hvisor_tool.Mmio.{DeviceOps, virtio_mmio_read, virtio_mmio_write}

-- Over `uint64_t`.
unfoldable pub in_range : ℕ → ℕ → ℕ → Bool
in_range value lower len = leb lower value && ltb value ((lower + len) % 2 ^ 64)

-- MAX_CPUS
abbrev pub max_cpus : ℕ
max_cpus = 32

-- `target_cpu` is a `uint32_t`.
unfoldable pub virtio_finish_cfg_req : ℕ → ℕ → World → Result World
virtio_finish_cfg_req target_cpu value w =
    let b = w.bridge in
    let cpu = target_cpu % 2 ^ 32 in
    elim (get_elem? b.cfg_flags cpu) [
      | none ↦ faults
      | some flag ↦ returns (record w {
        bridge = record b {
          cfg_values = set b.cfg_values cpu value;
          cfg_flags = set b.cfg_flags cpu ((flag + 1) % 2 ^ 64);
        };
      })
    ]

-- The devices (`vdevs`) and what surrounds them.
pub record Daemon (Dev : Type 0) : Type 0 where
  pub vdevs : List (VirtIoDevice Dev)
  pub world : World

module _ {Dev : Type 0} where
  -- The first device of the zone whose registers hold the address, and its place.
  unfoldable pub find_device : ℕ → ℕ → ℕ → List (VirtIoDevice Dev) → Option (ℕ × VirtIoDevice Dev)
  find_device src_zone address i [] = none
  find_device src_zone address i (d ∷ ds) =
      if src_zone == d.zone_id && in_range address d.base_addr d.len
      then some (i, d)
      else find_device src_zone address (i + 1) ds

  -- Where `ops` runs each device's own functions.
  module _ (ops : DeviceOps Dev) where
    -- The access itself, with the value that a read gives and 0 for a write. The size is cut to an
    -- `unsigned`.
    unfoldable pub access :
        DeviceReq → VirtIoDevice Dev → World → Result (VirtIoDevice Dev × World × ℕ)
    access req d w =
        let offs = req.address - d.base_addr in
        let written : Result (VirtIoDevice Dev × World × ℕ) = do
          (d', w') ← virtio_mmio_write ops d offs req.value (req.size % 2 ^ 32) w
          returns (d', w', 0)
        in let read : Result (VirtIoDevice Dev × World × ℕ) = do
          value ← virtio_mmio_read ops d offs (req.size % 2 ^ 32)
          returns (d, w, value)
          in if req.is_write == 0 then read else written

    unfoldable pub virtio_handle_req : DeviceReq → Daemon Dev → Result (Daemon Dev)
    unfolding access
    virtio_handle_req req s = elim (find_device req.src_zone req.address 0 s.vdevs) [
      | none ↦ do w ← virtio_finish_cfg_req req.src_cpu 0 s.world; returns (record s { world = w })
      | some (i, d) ↦ do
        (d', w', value) ← access req d s.world
        w'' ←
            if req.need_interrupt == 0
            then virtio_finish_cfg_req req.src_cpu value w'
            else returns w'
        returns (record { vdevs = set s.vdevs i d'; world = w'' })
    ]

-- The loop, where `handle` is `virtio_handle_req` and `hypervisor` what the hypervisor does to the ring
-- before each load of `req_rear` and before the store that sets `need_wakeup`. `fuel` bounds the loads of the loop's head. The daemon alone moves
-- `req_front`, so its copy of it is the ring's.
module _ {S E : Type 0} (max_poll_count : ℕ) (handle : DeviceReq → S → Result S)
    (hypervisor : RequestRing → E → RequestRing × E) where
  unfoldable pub poll : ℕ → ℕ → ℕ → RequestRing → E → S → Result (ℕ × RequestRing × E × S)
  poll zero poll_count proc_count r e s = spins
  poll (suc fuel) poll_count proc_count r e s =
      let (r1, e1) = hypervisor r e in
      let (r0, e0) = hypervisor r1 e1 in
      let (r2, e2) = hypervisor (record r0 { need_wakeup = 1 }) e0 in
      let served : Result (ℕ × RequestRing × E × S) = elim (get_elem? r1.req_list r1.req_front) [
        | none ↦ faults
        | some req ↦ do
          s' ← handle req s
          poll fuel 0 (proc_count + 1)
              (record r1 { req_front = bit_and (r1.req_front + 1) (max_req - 1) }) e1 s'
      ] in
      let polled = poll fuel (poll_count + 1) proc_count r1 e1 s in
      let raced = poll fuel 0 proc_count (record r2 { need_wakeup = 0 }) e2 s in
      if not (r1.req_front == r1.req_rear)
      then served
      else if ltb (poll_count + 1) max_poll_count
      then polled
      else if r2.req_front == r2.req_rear
      then returns (proc_count, r2, e2, s)
      else raced

  unfoldable pub consume_pending_requests :
      ℕ → RequestRing → E → S → Result (ℕ × RequestRing × E × S)
  consume_pending_requests fuel r e s = poll fuel 0 0 (record r { need_wakeup = 0 }) e s
