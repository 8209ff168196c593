-- ===== src/Interrupt.antt =====
-- The interrupt line of a device in tools/virtio/virtio.c: `virtio_deassert_line_locked`, the
-- INTERRUPT_ACK register, the interrupt part of `virtio_dev_reset`, and `virtio_inject_irq` with the
-- response ring of the bridge. `interrupt_lock` makes each of them one step.
pub mod Line
pub mod Responses
pub mod Delivery
use hvisor_tool.Base.{
  ℕ, ◌+◌, ◌-◌, ◌%◌, ◌^◌, bit_and, bit_or, Bool, true, false, not, ◌&&◌, List, [], ◌∷◌, Option, none,
  some, set, get_elem?, ltb, ◌==◌, if◌then◌else◌, test_bit,
}
use hvisor_tool.Memory.{Memory, null, used_idx, avail_flags}
use hvisor_tool.Queue.{VirtQueue, used_event}
use hvisor_tool.Device.{
  VirtMmioRegs, VirtIoDevice, VirtioBridge, DeviceRes, World, Ioctl, deassert_irq, finish_req,
  call_kernel, gives_answer, is_queue_full, max_req, Result, returns, faults, spins, ◌>>=◌,
}

-- VIRTIO_MMIO_INT_VRING and VIRTIO_MMIO_INT_CONFIG
abbrev pub int_vring : ℕ
int_vring = 1

abbrev pub int_config : ℕ
int_config = 2

-- The loop that waits for room, with the values of `res_front` still to be read.
unfoldable pub wait_room : ℕ → List ℕ → Option (ℕ × List ℕ)
wait_room rear [] = none
wait_room rear (front ∷ fronts) =
    let rest = wait_room rear fronts in
    if is_queue_full front rear max_req then rest else some (front, fronts)

-- `need_event` is `vring_need_event` of the Linux headers, and VRING_AVAIL_F_NO_INTERRUPT bit 0.
-- Whether the driver wants an interrupt for what was added to the used ring.
unfoldable pub wants_interrupt : (ℕ → ℕ → ℕ → Bool) → Memory → VirtQueue → ℕ → ℕ → Bool
wants_interrupt need_event m vq idx last =
    if vq.event_idx_enabled == 0
    then not (test_bit (avail_flags m vq.avail_ring) 0)
    else need_event (used_event m vq) idx last

-- The call that announces a response, repeated while it is interrupted.
unfoldable pub announce : World → Result (Bool × World)
announce w = if gives_answer w.attempts then returns (call_kernel finish_req w) else spins

module _ {Dev : Type 0} where
  abbrev pub set_regs : VirtIoDevice Dev → VirtMmioRegs → VirtIoDevice Dev
  set_regs d r = record d { regs = r }

  abbrev pub set_status : VirtIoDevice Dev → ℕ → VirtIoDevice Dev
  set_status d status = set_regs d (record (d.regs) { interrupt_status = status })

  abbrev pub set_line : VirtIoDevice Dev → Bool → VirtIoDevice Dev
  set_line d up = record d { interrupt_line_asserted = up }

  -- Whether it returned 0, as it always does where the architecture has no such call.
  unfoldable pub virtio_deassert_line_locked : VirtIoDevice Dev → World → Bool × World
  virtio_deassert_line_locked d w =
      if w.line_control then call_kernel (deassert_irq d.zone_id d.irq_id) w else (true, w)

  -- INTERRUPT_ACK, with the value that the driver writes.
  unfoldable pub acknowledge : ℕ → VirtIoDevice Dev → World → VirtIoDevice Dev × World
  acknowledge value d w =
      let before = d.regs.interrupt_status in
      let ack = bit_and (value % 2 ^ 32) (int_vring + int_config) in
      let after = bit_and before (2 ^ 32 - 1 - ack) in
      let (ok, w') =
        if not (before == 0) && (after == 0 && d.interrupt_line_asserted)
        then virtio_deassert_line_locked d w
        else (true, w) in
      (
        if ok
            then if after == 0 then set_line (set_status d after) false else set_status d after
            else d,
        w',
      )

  -- The first part of `virtio_dev_reset`.
  unfoldable pub reset_line : VirtIoDevice Dev → World → VirtIoDevice Dev × World
  reset_line d w =
      let (ok, w') =
        if d.interrupt_line_asserted then virtio_deassert_line_locked d w else (false, w) in
      let d' = if ok then set_line d false else d in
      (if d'.interrupt_line_asserted then d' else set_status d' 0, w')

  -- The critical section under RES_MUTEX, once there is room.
  unfoldable pub push_response : VirtIoDevice Dev → World → Result World
  push_response d w =
      let rear = w.bridge.res_rear in
      let res : DeviceRes = record { target_zone = d.zone_id; irq_id = d.irq_id } in
      elim (wait_room rear w.res_fronts) [
        | none ↦ spins
        | some (front, fronts) ↦
            if ltb rear max_req
            then returns (record w {
              bridge = record (w.bridge) {
                res_front = front;
                res_list = set w.bridge.res_list rear res;
                res_rear = bit_and (rear + 1) (max_req - 1);
              };
              res_fronts = fronts;
            })
            else faults
      ]

  -- Send the interrupt: a response in the ring and the call that announces it.
  unfoldable pub send_interrupt : VirtIoDevice Dev → World → Result (VirtIoDevice Dev × World)
  send_interrupt d w = do
    w1 ← push_response d w
    (ok, w2) ← announce w1
    returns (if ok then set_line d true else d, w2)

  -- The status bit, and the send unless the line is up already.
  unfoldable pub raise_interrupt : VirtIoDevice Dev → World → Result (VirtIoDevice Dev × World)
  raise_interrupt d w =
      let d' = set_status d (bit_or d.regs.interrupt_status int_vring) in
      if d.interrupt_line_asserted then returns (d', w) else send_interrupt d' w

  module _ (need_event : ℕ → ℕ → ℕ → Bool) where
    -- `vq` is entry `i` of the device's queues.
    unfoldable pub inject_queue :
        ℕ → VirtQueue → VirtIoDevice Dev → World → Result (VirtIoDevice Dev × World)
    inject_queue i vq d w =
        let idx = used_idx w.memory vq.used_ring in
        let d' : VirtIoDevice Dev = record d {
          vqs = set d.vqs i (record vq { last_used_idx = idx });
        } in
        if vq.used_ring == null
        then faults
        else if idx == vq.last_used_idx
        then returns (d', w)
        else if vq.avail_ring == null
        then faults
        else if wants_interrupt need_event w.memory vq idx vq.last_used_idx
        then raise_interrupt d' w
        else returns (d', w)

    unfoldable pub virtio_inject_irq :
        ℕ → VirtIoDevice Dev → World → Result (VirtIoDevice Dev × World)
    virtio_inject_irq i d w = elim (get_elem? d.vqs i) [
      | none ↦ faults
      | some vq ↦ inject_queue i vq d w
    ]
