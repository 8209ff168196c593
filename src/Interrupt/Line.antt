-- ===== src/Interrupt/Line.antt =====
-- The interrupt line of tools/virtio/virtio.c and the interrupts that are pending.
use hvisor_tool.Base.{
  ℕ, ◌<◌, ◌≡◌, refl, Bool, true, Option, none, some, arith, bit_or_one, get_elem?, set,
}
use hvisor_tool.Memory.{used_idx}
use hvisor_tool.Queue.{VirtQueue}
use hvisor_tool.Device.{VirtIoDevice, World, returns}
use hvisor_tool.Interrupt.{
  acknowledge, reset_line, announce, send_interrupt, raise_interrupt, inject_queue,
  virtio_inject_irq,
}

module _ {Dev : Type 0} where
  abbrev pub LineInv : VirtIoDevice Dev → Type 0
  LineInv d = d.interrupt_line_asserted ≡ true → 0 < d.regs.interrupt_status

  acknowledge-LineInv :
      (value : ℕ) (d : VirtIoDevice Dev) (w : World) → LineInv d → LineInv (acknowledge value d w).0
  unfolding acknowledge
  acknowledge-LineInv value d w v = ground arith

  reset_line-LineInv : (d : VirtIoDevice Dev) (w : World) → LineInv d → LineInv (reset_line d w).0
  unfolding reset_line
  reset_line-LineInv d w v = ground arith

  raise_interrupt-LineInv :
      (d d' : VirtIoDevice Dev) (w w' : World) → raise_interrupt d w ≡ returns (d', w') → LineInv d'
  unfolding raise_interrupt send_interrupt announce
  raise_interrupt-LineInv d d' w w' h = ground (arith, bit_or_one d.regs.interrupt_status)

  inject_queue-LineInv :
      (need_event : ℕ → ℕ → ℕ → Bool) (i : ℕ) (vq : VirtQueue) (d d' : VirtIoDevice Dev)
      (w w' : World)
      → LineInv d
      → inject_queue need_event i vq d w ≡ returns (d', w')
      → LineInv d'
  unfolding inject_queue
  inject_queue-LineInv need_event i vq d d' w w' v h = ground (
    arith,
    raise_interrupt-LineInv
        (record d {
          vqs = set d.vqs i (record vq { last_used_idx = used_idx w.memory vq.used_ring });
        })
        d' w w',
  )

  virtio_inject_irq-LineInv :
      (need_event : ℕ → ℕ → ℕ → Bool) (i : ℕ) (d d' : VirtIoDevice Dev) (w w' : World)
      → LineInv d
      → virtio_inject_irq need_event i d w ≡ returns (d', w')
      → LineInv d'
  unfolding virtio_inject_irq
  virtio_inject_irq-LineInv need_event i d d' w w' v h = go (get_elem? d.vqs i) refl
    where
      go : (o : Option VirtQueue) → get_elem? d.vqs i ≡ o → LineInv d'
      go none e = ground arith
      go (some vq) e = inject_queue-LineInv need_event i vq d d' w w' v (ground arith)

  -- One critical section under `interrupt_lock`, by whichever thread, or a change of the world by the
  -- guest, the hypervisor or another device.
  pub data LineStep (need_event : ℕ → ℕ → ℕ → Bool) (s t : VirtIoDevice Dev × World) : Type 0 where
    acks : (value : ℕ) → t ≡ acknowledge value s.0 s.1 → LineStep need_event s t
    resets : t ≡ reset_line s.0 s.1 → LineStep need_event s t
    injects : (i : ℕ) → virtio_inject_irq need_event i s.0 s.1 ≡ returns t → LineStep need_event s t
    outside : t.0 ≡ s.0 → LineStep need_event s t

  pub data LineReach (need_event : ℕ → ℕ → ℕ → Bool) (s : VirtIoDevice Dev × World)
      : VirtIoDevice Dev × World → Type 0 where
    start : LineReach need_event s s
    later :
        {t u : VirtIoDevice Dev × World}
        → LineReach need_event s t
        → LineStep need_event t u
        → LineReach need_event s u

  LineStep-LineInv :
      (need_event : ℕ → ℕ → ℕ → Bool) (s t : VirtIoDevice Dev × World)
      → LineStep need_event s t
      → LineInv s.0
      → LineInv t.0
  LineStep-LineInv need_event s t (acks value e) v = rw e (acknowledge-LineInv value s.0 s.1 v)
  LineStep-LineInv need_event s t (resets e) v = rw e (reset_line-LineInv s.0 s.1 v)
  LineStep-LineInv need_event s t (injects i e) v =
      virtio_inject_irq-LineInv need_event i s.0 t.0 s.1 t.1 v e
  LineStep-LineInv need_event s t (outside e) v = rw e v

  -- However acknowledgements, resets and injections of a device's threads follow one another, whatever
  -- the kernel module answers, the interrupt line is up only while the status register shows a pending
  -- interrupt, if it was so at the start.
  pub LineReach-LineInv :
      (need_event : ℕ → ℕ → ℕ → Bool) (s : VirtIoDevice Dev × World) {t : VirtIoDevice Dev × World}
      → LineInv s.0
      → LineReach need_event s t
      → LineInv t.0
  LineReach-LineInv need_event s v start = v
  LineReach-LineInv need_event s v (later {t = m} {u = t} r step) =
      LineStep-LineInv need_event m t step (LineReach-LineInv need_event s v r)
