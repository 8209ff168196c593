-- ===== src/Blk/Ops.antt =====
-- The functions of a block device (`virtio_blk_ops` of tools/virtio/devices/blk/virtio_blk.c).
use hvisor_tool.Base.{
  ℕ, ◌<◌, ◌≡◌, refl, List, Option, none, some, Bool, true, false, if◌then◌else◌, length, arith,
  Bool-cases, inl, inr,
}
use hvisor_tool.Device.{VirtIoDevice, World, Result, returns, spins}
use hvisor_tool.Mmio.{DeviceOps}
use hvisor_tool.Mmio.Safety.{Keeps, HandlersKeep}
use hvisor_tool.Blk.Threads.{Threads, wake_worker, resetting, idle}

-- `BlkDev`: the bytes of its configuration, `thread_started`, and the flags that the threads share.
pub record BlkDev : Type 0 where
  pub config_bytes : List ℕ
  pub thread_started : Bool
  pub threads : Threads

-- The flags are cleared or set under `mtx`, and the worker is woken.
unfoldable pub virtio_blk_notify_handler :
    VirtIoDevice BlkDev → World → Result (VirtIoDevice BlkDev × World)
virtio_blk_notify_handler d w =
    let t = d.dev.threads in
    returns (
      record d {
        dev = record (d.dev) {
          threads = record t { reset = false; worker = wake_worker t.worker };
        };
      },
      w,
    )

-- `worker` tells how the threads stand once `worker_paused` is seen, for how they stand when the wait
-- begins, or that this never happens.
unfoldable pub virtio_blk_reset :
    (Threads → Option Threads) → VirtIoDevice BlkDev → World → Result (VirtIoDevice BlkDev × World)
virtio_blk_reset worker d w =
    let t = d.dev.threads in
    let asked : Threads = record t {
      main = resetting;
      reset = true;
      worker = wake_worker t.worker;
    } in
    if d.dev.thread_started
    then elim (worker asked) [
      | none ↦ spins
      | some t' ↦
          returns (record d { dev = record (d.dev) { threads = record t' { main = idle } } }, w)
    ]
    else returns (d, w)

unfoldable pub virtio_blk_ops : (Threads → Option Threads) → DeviceOps BlkDev
virtio_blk_ops worker = record {
  config_bytes = λ dev. dev.config_bytes;
  reset = virtio_blk_reset worker;
  status_changed = none;
  notify = λ i d w. virtio_blk_notify_handler d w;
}

virtio_blk_reset-Keeps :
    (worker : Threads → Option Threads) (n : ℕ) (d : VirtIoDevice BlkDev) (w : World)
    → ((t : Threads) → (u : Threads) × (worker t ≡ some u))
    → length d.vqs ≡ n
    → d.regs.queue_sel < n
    → Keeps n (virtio_blk_reset worker d w)
unfolding virtio_blk_reset
virtio_blk_reset-Keeps worker n d w comes hn hs =
    let t = d.dev.threads in
    let (u, e) =
      comes (record t { main = resetting; reset = true; worker = wake_worker t.worker }) in
    elim (Bool-cases d.dev.thread_started) [
      | inl up ↦ (
        record d { dev = record (d.dev) { threads = record u { main = idle } } },
        w,
        ground (arith, up, e),
        hn,
        hs,
      )
      | inr down ↦ (d, w, ground (arith, down), hn, hs)
    ]

-- With a worker that always comes to its wait, the functions of a block device return and leave its
-- queues.
pub virtio_blk_ops-HandlersKeep :
    (worker : Threads → Option Threads) (n : ℕ)
    → ((t : Threads) → (u : Threads) × (worker t ≡ some u))
    → HandlersKeep (virtio_blk_ops worker) n
unfolding virtio_blk_ops virtio_blk_notify_handler
virtio_blk_ops-HandlersKeep worker n comes = record {
  reset = λ d w hn hs. virtio_blk_reset-Keeps worker n d w comes hn hs;
  notify = λ i d w hn hs. (_, w, refl, hn, hs);
  status_changed = λ f e. absurd cc;
}
