-- ===== src/Interrupt/Responses.antt =====
-- What `virtio_inject_irq` of tools/virtio/virtio.c delivers, with the response ring as a queue.
use hvisor_tool.Base.{
  ℕ, ◌+◌, ◌-◌, ◌%◌, ◌<◌, ◌≡◌, ◌≢◌, ◌⊎◌, refl, sym, ap, ◌∙◌, subst, inl, inr, Bool, true, false,
  List, [], ◌∷◌, ◌++◌, Option, none, some, arith, if◌then◌else◌, bit_and, bit_or, bit_or_one,
  length, set, length-set, Bool-cases,
}
use hvisor_tool.Memory.{used_idx}
use hvisor_tool.Queue.{VirtQueue}
use hvisor_tool.Device.{
  VirtIoDevice, VirtioBridge, DeviceRes, World, Ioctl, finish_req, call_kernel, gives_answer,
  max_req, Result, returns, spins, >>=-eq-returns,
}
use hvisor_tool.Ring.{contents, contents-push, next-index, is_queue_full_iff}
use hvisor_tool.Interrupt.{
  int_vring, set_status, set_line, wait_room, push_response, announce, send_interrupt,
  raise_interrupt, wants_interrupt, inject_queue,
}

-- The response ring of a bridge, with the front that the hypervisor published.
abbrev pub responses : VirtioBridge → List (Option DeviceRes)
responses b = contents b.res_list b.res_front b.res_rear

-- The daemon's index is in range, and so is every front that the hypervisor publishes.
pub record IsValidRing (w : World) : Type 0 where
  pub rear_in : w.bridge.res_rear < max_req
  pub entries : length w.bridge.res_list ≡ max_req

abbrev pub AllBelow : List ℕ → Type 0
AllBelow [] = Unit
AllBelow (f ∷ fs) = (f < max_req) × AllBelow fs

wait_room_lem :
    (rear f : ℕ) (fs rest : List ℕ)
    → rear < max_req
    → AllBelow fs
    → wait_room rear fs ≡ some (f, rest)
    → (f < max_req) × ((rear + 1) % max_req ≢ f) × AllBelow rest
unfolding wait_room
wait_room_lem rear f [] rest hr h e = cc
wait_room_lem rear f (g ∷ fs) rest hr h e =
    grind (arith, is_queue_full_iff g rear hr, wait_room_lem rear f fs rest hr h.1)

-- What a response pushed into a valid ring leaves.
pub record Delivered (res : DeviceRes) (w w' : World) : Type 0 where
  pub valid : IsValidRing w'
  pub front_in : w'.bridge.res_front < max_req
  pub queued :
      responses w'.bridge
      ≡ contents w.bridge.res_list w'.bridge.res_front w.bridge.res_rear ++ (some res ∷ [])

call_kernel-bridge : (c : Ioctl) (w : World) → (call_kernel c w).1.bridge ≡ w.bridge
unfolding call_kernel
call_kernel-bridge c w = refl

Delivered-bridge :
    (res : DeviceRes) (w w1 w2 : World)
    → w2.bridge ≡ w1.bridge
    → Delivered res w w1
    → Delivered res w w2
Delivered-bridge res w w1 w2 e h = record {
  valid = record { rear_in = rw e h.valid.rear_in; entries = rw e h.valid.entries };
  front_in = rw e h.front_in;
  queued = rw e h.queued;
}

announce-bridge : (w w' : World) (ok : Bool) → announce w ≡ returns (ok, w') → w'.bridge ≡ w.bridge
unfolding announce
announce-bridge w w' ok h = elim (Bool-cases (gives_answer w.attempts)) [
  | inl some_answer ↦
      let e : returns (call_kernel finish_req w) ≡ returns (ok, w') =
        (rw (announce, some_answer) at h) in
      let same : (call_kernel finish_req w).1 ≡ w' = cc in
      ap (λ (x : World). x.bridge) (sym same) ∙ call_kernel-bridge finish_req w
  | inr never ↦ absurd (
      let e : ◌≡◌ {A = Result (Bool × World)} spins (returns (ok, w')) =
        (rw (announce, never) at h) in
      cc)
]

module _ {Dev : Type 0} where
  abbrev response_of : VirtIoDevice Dev → DeviceRes
  response_of d = record { target_zone = d.zone_id; irq_id = d.irq_id }

  -- The world once there is room: the response is stored and published.
  abbrev stored : VirtIoDevice Dev → World → ℕ → List ℕ → World
  stored d w front fronts = record w {
    bridge = record (w.bridge) {
      res_front = front;
      res_list = set w.bridge.res_list w.bridge.res_rear (response_of d);
      res_rear = bit_and (w.bridge.res_rear + 1) (max_req - 1);
    };
    res_fronts = fronts;
  }

  push_response-eq :
      (d : VirtIoDevice Dev) (w w' : World)
      → push_response d w ≡ returns w'
      → (front : ℕ) × (fronts : List ℕ) × (wait_room w.bridge.res_rear w.res_fronts
          ≡ some (front, fronts))
        × (w' ≡ stored d w front fronts)
  unfolding push_response
  push_response-eq d w w' h = go (wait_room w.bridge.res_rear w.res_fronts) refl
    where
      go :
          (o : Option (ℕ × List ℕ))
          → wait_room w.bridge.res_rear w.res_fronts ≡ o
          → (front : ℕ) × (fronts : List ℕ) × (wait_room w.bridge.res_rear w.res_fronts
              ≡ some (front, fronts))
            × (w' ≡ stored d w front fronts)
      go none e = ground arith
      go (some (front, fronts)) e = (front, fronts, e, ground arith)

  stored-Delivered :
      (d : VirtIoDevice Dev) (w : World) (front : ℕ) (fronts : List ℕ)
      → IsValidRing w
      → front < max_req
      → (w.bridge.res_rear + 1) % max_req ≢ front
      → Delivered (response_of d) w (stored d w front fronts)
  stored-Delivered d w front fronts v hf ne =
      let b = w.bridge in
      record {
        valid = record {
          rear_in = omega (arith, next-index (b.res_rear + 1));
          entries = length-set b.res_list b.res_rear (response_of d) ∙ v.entries;
        };
        front_in = hf;
        queued =
            rw (next-index (b.res_rear + 1))
              (contents-push b.res_list (response_of d) front b.res_rear v.entries hf v.rear_in ne);
      }

  push_response-Delivered :
      (d : VirtIoDevice Dev) (w w' : World)
      → IsValidRing w
      → AllBelow w.res_fronts
      → push_response d w ≡ returns w'
      → Delivered (response_of d) w w'
  push_response-Delivered d w w' v below h =
      let (front, fronts, found, e) = push_response-eq d w w' h in
      let (hf, ne, rest) =
        wait_room_lem w.bridge.res_rear front w.res_fronts fronts v.rear_in below found in
      subst (Delivered (response_of d) w) (sym e) (stored-Delivered d w front fronts v hf ne)

  -- The second device is the first one, but for the line.
  abbrev pub OnlyLine : VirtIoDevice Dev → VirtIoDevice Dev → Type 0
  OnlyLine d d' = d' ≡ set_line d d'.interrupt_line_asserted

  sent_world :
      (d d' : VirtIoDevice Dev) (w w' : World) (ok : Bool)
      → ◌≡◌ {A = Result (VirtIoDevice Dev × World)}
          (returns (if ok then set_line d true else d, w))
          (returns (d', w'))
      → (w ≡ w') × OnlyLine d d'
  sent_world d d' w w' true h =
      let same : w ≡ w' = cc in
      let e : d' ≡ set_line d true = cc in
      (same, e ∙ ap (λ (x : VirtIoDevice Dev). set_line d x.interrupt_line_asserted) (sym e))
  sent_world d d' w w' false h =
      let same : w ≡ w' = cc in
      let e : d' ≡ d = cc in
      (same, e ∙ ap (λ (x : VirtIoDevice Dev). set_line d x.interrupt_line_asserted) (sym e))

  send_interrupt_lem :
      (d d' : VirtIoDevice Dev) (w w' : World)
      → IsValidRing w
      → AllBelow w.res_fronts
      → send_interrupt d w ≡ returns (d', w')
      → Delivered (response_of d) w w' × OnlyLine d d'
  unfolding send_interrupt
  send_interrupt_lem d d' w w' v below h =
      let (w1, pushed, rest) = >>=-eq-returns (push_response d w) _ h in
      let ((ok, w2), told, rest') = >>=-eq-returns (announce w1) _ rest in
      let (same, line) = sent_world d d' w2 w' ok rest' in
      let e : w'.bridge ≡ w1.bridge =
        ap (λ (x : World). x.bridge) (sym same) ∙ announce-bridge w1 w2 ok told in
      (
        Delivered-bridge (response_of d) w w1 w' e (push_response-Delivered d w w1 v below pushed),
        line,
      )

  -- The device with its status bit set.
  abbrev pub pending : VirtIoDevice Dev → VirtIoDevice Dev
  pending d = set_status d (bit_or d.regs.interrupt_status 1)

  pending_lem :
      (d d' : VirtIoDevice Dev) → OnlyLine (pending d) d' → d'.regs.interrupt_status % 2 ≡ 1
  pending_lem d d' e =
      ap (λ (x : VirtIoDevice Dev). x.regs.interrupt_status % 2) e
      ∙ bit_or_one d.regs.interrupt_status

  merged :
      (d d' : VirtIoDevice Dev) (w w' : World)
      → d.interrupt_line_asserted ≡ true
      → raise_interrupt d w ≡ returns (d', w')
      → (d' ≡ pending d) × (w' ≡ w)
  unfolding raise_interrupt
  merged d d' w w' up h =
      let e : raise_interrupt d w ≡ returns (pending d, w) = ground (arith, up) in
      let k : ◌≡◌ {A = Result (VirtIoDevice Dev × World)} (returns (pending d, w))
          (returns (d', w')) =
        sym e ∙ h in
      let same_d : d' ≡ pending d = cc in let same_w : w' ≡ w = cc in (same_d, same_w)

  sent :
      (d d' : VirtIoDevice Dev) (w w' : World)
      → d.interrupt_line_asserted ≡ false
      → raise_interrupt d w ≡ returns (d', w')
      → send_interrupt (set_status d (bit_or d.regs.interrupt_status int_vring)) w
        ≡ returns (d', w')
  unfolding raise_interrupt
  sent d d' w w' down h = ground arith

  -- Either the line was up, and only the status bit is new, or a response has been delivered, and the
  -- line alone may have changed besides the bit.
  abbrev pub Raised : VirtIoDevice Dev → VirtIoDevice Dev → World → World → Type 0
  Raised d d' w w' =
      ((d.interrupt_line_asserted ≡ true) × (d' ≡ pending d) × (w' ≡ w))
      ⊎ ((d.interrupt_line_asserted ≡ false)
          × OnlyLine (pending d) d'
          × Delivered (response_of d) w w')

  raise_interrupt_lem :
      (d d' : VirtIoDevice Dev) (w w' : World)
      → IsValidRing w
      → AllBelow w.res_fronts
      → raise_interrupt d w ≡ returns (d', w')
      → (d'.regs.interrupt_status % 2 ≡ 1) × Raised d d' w w'
  raise_interrupt_lem d d' w w' v below h = elim (Bool-cases d.interrupt_line_asserted) [
    | inl e ↦
        let (device, same) = merged d d' w w' e h in
        (
          ap (λ (x : VirtIoDevice Dev). x.regs.interrupt_status % 2) device
              ∙ bit_or_one d.regs.interrupt_status,
          inl (e, device, same),
        )
    | inr e ↦
        let (delivered, line) =
          send_interrupt_lem (pending d) d' w w' v below (sent d d' w w' e h) in
        (pending_lem d d' line, inr (e, line, delivered))
  ]

  abbrev pub noted : ℕ → VirtQueue → VirtIoDevice Dev → World → VirtIoDevice Dev
  noted i vq d w = record d {
    vqs = set d.vqs i (record vq { last_used_idx = used_idx w.memory vq.used_ring });
  }

  raised :
      (need_event : ℕ → ℕ → ℕ → Bool) (i : ℕ) (vq : VirtQueue) (d d' : VirtIoDevice Dev)
      (w w' : World)
      → used_idx w.memory vq.used_ring ≢ vq.last_used_idx
      → wants_interrupt need_event w.memory vq (used_idx w.memory vq.used_ring) vq.last_used_idx
        ≡ true
      → inject_queue need_event i vq d w ≡ returns (d', w')
      → raise_interrupt (noted i vq d w) w ≡ returns (d', w')
  unfolding inject_queue
  raised need_event i vq d d' w w' moved wants h = ground arith

  -- If the ring is valid, the fronts that the hypervisor publishes are in range, the used index has
  -- moved since the last call, and the driver wants an interrupt: when `virtio_inject_irq` returns,
  -- the queue interrupt is pending in the status register, and either the line was up already and,
  -- besides the queue's `last_used_idx` and that bit, neither the device nor anything around it has
  -- changed; or the line was down, besides those two and the line nothing of the device has changed, and
  -- one response for its zone and interrupt has been appended to the response ring, behind those that
  -- the hypervisor has yet to take and over none of them.
  pub inject_queue_lem :
      (need_event : ℕ → ℕ → ℕ → Bool) (i : ℕ) (vq : VirtQueue) (d d' : VirtIoDevice Dev)
      (w w' : World)
      → IsValidRing w
      → AllBelow w.res_fronts
      → used_idx w.memory vq.used_ring ≢ vq.last_used_idx
      → wants_interrupt need_event w.memory vq (used_idx w.memory vq.used_ring) vq.last_used_idx
        ≡ true
      → inject_queue need_event i vq d w ≡ returns (d', w')
      → (d'.regs.interrupt_status % 2 ≡ 1) × Raised (noted i vq d w) d' w w'
  inject_queue_lem need_event i vq d d' w w' v below moved wants h =
      raise_interrupt_lem (noted i vq d w) d' w w' v below
        (raised need_event i vq d d' w w' moved wants h)
