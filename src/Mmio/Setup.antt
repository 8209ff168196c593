-- ===== src/Mmio/Setup.antt =====
-- What a driver's setup of a queue and a reset leave in tools/virtio/virtio.c: the ring addresses, the
-- queues after `virtio_dev_reset`, and the accepted features.
use hvisor_tool.Base.{
  ℕ, zero, suc, ◌+◌, ◌*◌, ◌%◌, ◌^◌, ◌<◌, ◌≡◌, refl, sym, ap, subst, ◌∙◌, bit_or, bit_or_shift,
  bit_or_zero, false, List, [], ◌∷◌, some, set, get_elem?, length, get_elem?-set_self, set-set,
  lt_of_get_elem?, arith,
}
use hvisor_tool.ZoneMemory.{get_virt_addr}
use hvisor_tool.Queue.{
  VirtQueue, virtqueue_reset, virtqueue_set_desc_table, virtqueue_set_avail, virtqueue_set_used,
  zeroed,
}
use hvisor_tool.Device.{VirtIoDevice, World, Result, returns, ◌>>=◌}
use hvisor_tool.Interrupt.{reset_line}
use hvisor_tool.Mmio.Registers.{register_at}
use hvisor_tool.Mmio.{
  DeviceOps, update_selected, set_queue, reset_queues, virtio_dev_reset, low_half, high_half,
  write_register, virtio_mmio_write,
}

-- Two halves written to an address that was 0.
halves :
    (lo hi : ℕ)
    → lo < 2 ^ 32
    → hi < 2 ^ 32
    → bit_or (bit_or 0 (low_half lo)) (high_half hi) ≡ lo + hi * 2 ^ 32
halves lo hi hl hh =
    let e : lo % 2 ^ 32 ≡ lo = omega arith in
    let e' : hi * 2 ^ 32 % 2 ^ 64 ≡ hi * 2 ^ 32 = omega arith in
    rw (e, e', bit_or_zero lo) (bit_or_shift 32 lo hi hl)

-- Queue `i` is as new, but for its handler and its maximal size.
abbrev pub IsFresh : ℕ → VirtQueue → VirtQueue → Type 0
IsFresh i before after = after ≡ record zeroed {
  vq_idx = i;
  notify_handler = before.notify_handler;
  queue_num_max = before.queue_num_max;
}

reset_queues-length : (k : ℕ) (vqs : List VirtQueue) → length (reset_queues k vqs) ≡ length vqs
unfolding reset_queues
reset_queues-length k [] = refl
reset_queues-length k (vq ∷ vqs) = omega (arith, reset_queues-length (k + 1) vqs)

reset_queues-fresh :
    (k i n : ℕ) (vqs : List VirtQueue) (vq : VirtQueue)
    → k + i ≡ n
    → get_elem? vqs i ≡ some vq
    → get_elem? (reset_queues k vqs) i ≡ some (virtqueue_reset vq n)
unfolding reset_queues
reset_queues-fresh k i n [] vq e h = cc
reset_queues-fresh k zero n (v ∷ vqs) vq e h =
    let q : k ≡ n = omega arith in rw (sym q) (ground arith)
reset_queues-fresh k (suc i) n (v ∷ vqs) vq e h =
    reset_queues-fresh (k + 1) i n vqs vq (omega arith) h

-- Clearing a queue's `ready` before its reset makes no difference.
reset_queues-set :
    (k i : ℕ) (vqs : List VirtQueue) (vq : VirtQueue)
    → get_elem? vqs i ≡ some vq
    → reset_queues k (set vqs i (record vq { ready = 0 })) ≡ reset_queues k vqs
unfolding reset_queues virtqueue_reset
reset_queues-set k i [] vq h = refl
reset_queues-set k zero (v ∷ vqs) vq h = ground arith
reset_queues-set k (suc i) (v ∷ vqs) vq h = rw (reset_queues-set (k + 1) i vqs vq h) refl

module _ {Dev : Type 0} where
  update_selected-twice :
      (f g : VirtQueue → VirtQueue) (d : VirtIoDevice Dev) (w : World) (vq : VirtQueue)
      → get_elem? d.vqs d.regs.queue_sel ≡ some vq
      → (update_selected f d w >>= λ r. update_selected g r.0 r.1)
        ≡ returns (set_queue d d.regs.queue_sel (g (f vq)), w)
  unfolding update_selected
  update_selected-twice f g d w vq e =
      let i = d.regs.queue_sel in
      let e' = get_elem?-set_self d.vqs i (f vq) (lt_of_get_elem? d.vqs i e) in
      ground (arith, e, e', set-set d.vqs i (f vq) (g (f vq)))

  -- Two register writes of four bytes.
  abbrev pub write_pair :
      DeviceOps Dev → ℕ → ℕ → ℕ → ℕ → VirtIoDevice Dev → World → Result (VirtIoDevice Dev × World)
  write_pair ops low high lo hi d w =
      virtio_mmio_write ops d low lo 4 w >>= λ r. virtio_mmio_write ops r.0 high hi 4 r.1

  -- If the selected queue's addresses are 0, as they are after a reset, and a driver writes the low and
  -- then the high half of a ring's address, the queue has that 64-bit address and the address in the
  -- daemon at which the zone's memory holds it, for each of the three rings, and no other queue and no
  -- register changes.
  pub virtio_mmio_write-addresses :
      (ops : DeviceOps Dev) (d : VirtIoDevice Dev) (w : World) (vq : VirtQueue) (lo hi : ℕ)
      → get_elem? d.vqs d.regs.queue_sel ≡ some vq
      → vq.desc_table_addr ≡ 0
      → vq.avail_addr ≡ 0
      → vq.used_addr ≡ 0
      → lo < 2 ^ 32
      → hi < 2 ^ 32
      → (write_pair ops 0x80 0x84 lo hi d w
          ≡ returns (
            set_queue d d.regs.queue_sel (record vq {
              desc_table_addr = lo + hi * 2 ^ 32;
              desc_table = get_virt_addr w.zones (lo + hi * 2 ^ 32) d.zone_id;
            }),
            w,
          ))
        × (write_pair ops 0x90 0x94 lo hi d w
            ≡ returns (
              set_queue d d.regs.queue_sel (record vq {
                avail_addr = lo + hi * 2 ^ 32;
                avail_ring = get_virt_addr w.zones (lo + hi * 2 ^ 32) d.zone_id;
              }),
              w,
            ))
        × (write_pair ops 0xa0 0xa4 lo hi d w
            ≡ returns (
              set_queue d d.regs.queue_sel (record vq {
                used_addr = lo + hi * 2 ^ 32;
                used_ring = get_virt_addr w.zones (lo + hi * 2 ^ 32) d.zone_id;
              }),
              w,
            ))
  unfolding virtio_mmio_write write_register register_at update_selected virtqueue_set_desc_table
      virtqueue_set_avail virtqueue_set_used
  virtio_mmio_write-addresses ops d w vq lo hi e hd ha hu hl hh =
      let e' = halves lo hi hl hh in
      let i = d.regs.queue_sel in
      let lt = lt_of_get_elem? d.vqs i e in
      let whole : ℕ = lo + hi * 2 ^ 32 in
      let at : ℕ = get_virt_addr w.zones whole d.zone_id in
      let desc_low : VirtQueue = record vq {
        desc_table_addr = bit_or vq.desc_table_addr (low_half lo);
      } in
      let desc_set : VirtQueue = record vq { desc_table_addr = whole; desc_table = at } in
      let avail_low : VirtQueue = record vq { avail_addr = bit_or vq.avail_addr (low_half lo) } in
      let avail_set : VirtQueue = record vq { avail_addr = whole; avail_ring = at } in
      let used_low : VirtQueue = record vq { used_addr = bit_or vq.used_addr (low_half lo) } in
      let used_set : VirtQueue = record vq { used_addr = whole; used_ring = at } in
      (
        ground (
          arith,
          e,
          e',
          hd,
          set-set d.vqs i desc_low desc_set,
          get_elem?-set_self d.vqs i desc_low lt,
        ),
        ground (
          arith,
          e,
          e',
          ha,
          set-set d.vqs i avail_low avail_set,
          get_elem?-set_self d.vqs i avail_low lt,
        ),
        ground (
          arith,
          e,
          e',
          hu,
          set-set d.vqs i used_low used_set,
          get_elem?-set_self d.vqs i used_low lt,
        ),
      )

  -- The device type's reset, if it has one, changes only the type's own state and the world.
  abbrev pub TouchesOwn : DeviceOps Dev → Type 0
  TouchesOwn ops =
      (d : VirtIoDevice Dev) (w : World)
      → (own : Dev) × (w' : World) × (ops.reset d w ≡ returns (record d { dev = own }, w'))

  -- The device after a reset of `d`.
  pub record IsReset (d d' : VirtIoDevice Dev) : Type 0 where
    pub fresh :
        (i : ℕ) (vq : VirtQueue)
        → get_elem? d.vqs i ≡ some vq
        → (vq' : VirtQueue) × (get_elem? d'.vqs i ≡ some vq') × IsFresh i vq vq'
    pub count : length d'.vqs ≡ length d.vqs
    pub status : d'.regs.status ≡ 0
    pub inactive : d'.activated ≡ false
    pub line : d'.interrupt_line_asserted ≡ false → d'.regs.interrupt_status ≡ 0
    pub features_kept : d'.regs.drv_feature ≡ d.regs.drv_feature

  reset_line-lem :
      (d : VirtIoDevice Dev) (w : World) (status : ℕ)
      → let d' = (reset_line d w).0 in
        (d'.vqs ≡ d.vqs)
        × (d'.regs.queue_sel ≡ d.regs.queue_sel)
        × (d'.regs.drv_feature ≡ d.regs.drv_feature)
        × (d'.interrupt_line_asserted ≡ false → d'.regs.interrupt_status ≡ 0)
  unfolding reset_line
  reset_line-lem d w status = ground arith

  -- The same, where the type's own state has the property P before and Q afterwards.
  abbrev pub LeavesOwn : (Dev → Type 0) → (Dev → Type 0) → DeviceOps Dev → Type 0
  LeavesOwn P Q ops =
      (d : VirtIoDevice Dev) (w : World)
      → P d.dev
      → (own : Dev) × (w' : World) × (ops.reset d w ≡ returns (record d { dev = own }, w')) × Q own

  reset_line-dev : (d : VirtIoDevice Dev) (w : World) → (reset_line d w).0.dev ≡ d.dev
  unfolding reset_line
  reset_line-dev d w = ground arith

  pub virtio_dev_reset-own :
      (P Q : Dev → Type 0) (ops : DeviceOps Dev) (d : VirtIoDevice Dev) (w : World) (vq : VirtQueue)
      → LeavesOwn P Q ops
      → P d.dev
      → get_elem? d.vqs d.regs.queue_sel ≡ some vq
      → (d' : VirtIoDevice Dev) × (w' : World) × (virtio_dev_reset ops d w ≡ returns (d', w'))
        × IsReset d d'
        × Q d'.dev
  unfolding virtio_dev_reset update_selected virtqueue_reset
  virtio_dev_reset-own P Q ops d w vq own before h =
      let (hq, hs, hf, hl) = reset_line-lem d w 0 in
      let d1 : VirtIoDevice Dev = (reset_line d w).0 in
      let i : ℕ = d1.regs.queue_sel in
      let found : get_elem? d1.vqs i ≡ some vq = rw (hq, hs) h in
      let d2 : VirtIoDevice Dev = record d1 {
        regs = record (d1.regs) { status = 0 };
        vqs = set d1.vqs i (record vq { ready = 0 });
      } in
      let (dev, w3, e3, p3) =
        own d2 (reset_line d w).1 (subst P (sym (reset_line-dev d w)) before) in
      let same : reset_queues 0 d2.vqs ≡ reset_queues 0 d.vqs =
        reset_queues-set 0 i d1.vqs vq found ∙ ap (reset_queues 0) hq in
      (
        record d2 { dev = dev; vqs = reset_queues 0 d2.vqs; activated = false },
        w3,
        ground (arith, found, e3),
        record {
          fresh = λ j v hv. (
            virtqueue_reset v j,
            rw same (reset_queues-fresh 0 j j d.vqs v (omega arith) hv),
            refl,
          );
          count = rw same (reset_queues-length 0 d.vqs);
          status = refl;
          inactive = refl;
          line = hl;
          features_kept = hf;
        },
        p3,
      )

  -- If the device type's reset changes only the type's own state and the selected queue exists, a
  -- reset returns. It leaves every queue as new but for its handler and its maximal size, the status 0
  -- and the device inactive, and no interrupt pending if the line is down. The features that the
  -- driver accepted stay.
  pub virtio_dev_reset_lem :
      (ops : DeviceOps Dev) (d : VirtIoDevice Dev) (w : World) (vq : VirtQueue)
      → TouchesOwn ops
      → get_elem? d.vqs d.regs.queue_sel ≡ some vq
      → (d' : VirtIoDevice Dev) × (w' : World) × (virtio_dev_reset ops d w ≡ returns (d', w'))
        × IsReset d d'
  virtio_dev_reset_lem ops d w vq own h =
      let kept : LeavesOwn (λ o. o ≡ o) (λ o. o ≡ o) ops =
        λ d w q. let (o, w', e) = own d w in (o, w', e, refl) in
      let (d', w', run, reset, same) =
        virtio_dev_reset-own (λ o. o ≡ o) (λ o. o ≡ o) ops d w vq kept refl h in
      (d', w', run, reset)
