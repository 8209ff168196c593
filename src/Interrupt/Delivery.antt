-- ===== src/Interrupt/Delivery.antt =====
-- When `virtio_inject_irq` of tools/virtio/virtio.c comes to an end.
use hvisor_tool.Base.{
  ℕ, ◌+◌, ◌-◌, ◌%◌, ◌<◌, ◌≡◌, ◌≢◌, ◌⊎◌, refl, sym, subst, inl, inr, Bool, true, List, [], ◌∷◌, some,
  arith, ◌==◌, if◌then◌else◌, bit_and, bit_or, set, Bool-cases,
}
use hvisor_tool.Memory.{null, used_idx}
use hvisor_tool.Queue.{VirtQueue}
use hvisor_tool.Device.{
  VirtIoDevice, World, Attempt, done, interrupted, refused, gives_answer, finish_req, call_kernel,
  is_queue_full, max_req, returns,
}
use hvisor_tool.Ring.{is_queue_full_iff}
use hvisor_tool.Interrupt.{
  int_vring, set_status, set_line, wait_room, push_response, announce, send_interrupt,
  raise_interrupt, wants_interrupt, inject_queue,
}

-- One of the fronts that the hypervisor publishes leaves room in the ring.
abbrev pub RoomComes : ℕ → List ℕ → Type 0
RoomComes rear [] = ⊥
RoomComes rear (f ∷ fs) = ((rear + 1) % max_req ≢ f) ⊎ RoomComes rear fs

room-found :
    (rear : ℕ) (fs : List ℕ)
    → rear < max_req
    → RoomComes rear fs
    → (p : ℕ × List ℕ) × (wait_room rear fs ≡ some p)
unfolding wait_room
room-found rear [] hr h = absurd h
room-found rear (f ∷ fs) hr (inl ne) = ((f, fs), ground (arith, is_queue_full_iff f rear hr))
room-found rear (f ∷ fs) hr (inr h) =
    let (p, e) = room-found rear fs hr h in
    elim (Bool-cases (is_queue_full f rear max_req)) [
      | inl full ↦ (p, rw full e)
      | inr free ↦ ((f, fs), rw free refl)
    ]

-- One of the answers of the kernel module is not EINTR.
abbrev pub AnswerComes : List Attempt → Type 0
AnswerComes [] = ⊥
AnswerComes (a ∷ rest) = (a ≢ interrupted) ⊎ AnswerComes rest

AnswerComes-gives_answer : (l : List Attempt) → AnswerComes l → gives_answer l ≡ true
unfolding gives_answer
AnswerComes-gives_answer [] h = absurd h
AnswerComes-gives_answer (done ∷ rest) h = refl
AnswerComes-gives_answer (refused ∷ rest) h = refl
AnswerComes-gives_answer (interrupted ∷ rest) (inl ne) = absurd (ne refl)
AnswerComes-gives_answer (interrupted ∷ rest) (inr h) = AnswerComes-gives_answer rest h

announce-returns :
    (w : World) → AnswerComes w.attempts → announce w ≡ returns (call_kernel finish_req w)
unfolding announce
announce-returns w h = rw (announce, AnswerComes-gives_answer w.attempts h) refl

module _ {Dev : Type 0} where
  push_response-returns :
      (d : VirtIoDevice Dev) (w : World)
      → w.bridge.res_rear < max_req
      → RoomComes w.bridge.res_rear w.res_fronts
      → (w' : World) × (push_response d w ≡ returns w') × (w'.attempts ≡ w.attempts)
  unfolding push_response
  push_response-returns d w hr h =
      let ((f, fs), e) = room-found w.bridge.res_rear w.res_fronts hr h in
      let b = w.bridge in
      let w' : World = record w {
        bridge = record b {
          res_front = f;
          res_list =
              set b.res_list b.res_rear (record { target_zone = d.zone_id; irq_id = d.irq_id });
          res_rear = bit_and (b.res_rear + 1) (max_req - 1);
        };
        res_fronts = fs;
      } in
      (w', ground (arith, e), refl)

  send_interrupt-returns :
      (d : VirtIoDevice Dev) (w : World)
      → w.bridge.res_rear < max_req
      → RoomComes w.bridge.res_rear w.res_fronts
      → AnswerComes w.attempts
      → (r : VirtIoDevice Dev × World) × (send_interrupt d w ≡ returns r)
  unfolding send_interrupt
  send_interrupt-returns d w hr h k =
      let (w1, e, same) = push_response-returns d w hr h in
      let told = announce-returns w1 (subst AnswerComes (sym same) k) in
      (
        (
          if (call_kernel finish_req w1).0 then set_line d true else d,
          (call_kernel finish_req w1).1,
        ),
        rw (e, told) refl,
      )

  raise_interrupt-returns :
      (d : VirtIoDevice Dev) (w : World)
      → w.bridge.res_rear < max_req
      → RoomComes w.bridge.res_rear w.res_fronts
      → AnswerComes w.attempts
      → (r : VirtIoDevice Dev × World) × (raise_interrupt d w ≡ returns r)
  unfolding raise_interrupt
  raise_interrupt-returns d w hr h k =
      let d' : VirtIoDevice Dev = set_status d (bit_or d.regs.interrupt_status int_vring) in
      elim (Bool-cases d.interrupt_line_asserted) [
        | inl up ↦ ((d', w), rw up refl)
        | inr down ↦ let (r, e) = send_interrupt-returns d' w hr h k in (r, ground (arith, down, e))
      ]

  -- If the response ring's rear is in range, one of the fronts that the hypervisor publishes leaves
  -- room, the kernel module at last gives an answer other than EINTR, and the queue's rings are mapped,
  -- then `virtio_inject_irq` on that queue returns, whatever the driver wants and whether that answer is
  -- 0 or an error.
  pub inject_queue-returns :
      (need_event : ℕ → ℕ → ℕ → Bool) (i : ℕ) (vq : VirtQueue) (d : VirtIoDevice Dev) (w : World)
      → w.bridge.res_rear < max_req
      → RoomComes w.bridge.res_rear w.res_fronts
      → AnswerComes w.attempts
      → vq.used_ring ≢ null
      → vq.avail_ring ≢ null
      → (r : VirtIoDevice Dev × World) × (inject_queue need_event i vq d w ≡ returns r)
  unfolding inject_queue
  inject_queue-returns need_event i vq d w hr h k used avail =
      let idx : ℕ = used_idx w.memory vq.used_ring in
      let d' : VirtIoDevice Dev = record d {
        vqs = set d.vqs i (record vq { last_used_idx = idx });
      } in
      let (r, e) = raise_interrupt-returns d' w hr h k in
      elim (Bool-cases (idx == vq.last_used_idx)) [
        | inl same ↦ ((d', w), ground (arith, same))
        | inr moved ↦
            elim (Bool-cases (wants_interrupt need_event w.memory vq idx vq.last_used_idx)) [
              | inl wants ↦ (r, ground (arith, moved, wants, e))
              | inr unwanted ↦ ((d', w), ground (arith, moved, unwanted))
            ]
      ]
