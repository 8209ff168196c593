-- ===== src/Blk/Threads.antt =====
-- The two threads of a block device in tools/virtio/devices/blk/virtio_blk.c: `blkproc_thread`, and the
-- main thread in `virtio_blk_notify_handler`, `virtio_blk_reset`, `virtio_dev_reset` and
-- `virtio_blk_close`. Each stretch of code between two points where `mtx` is taken or given up is one
-- step. A wait on `cond` ends when the other thread signals it, or spuriously. Each round of the loop
-- over the queue ends.
use hvisor_tool.Base.{◌≡◌, Bool, true, false, not, ◌&&◌, ◌||◌}

-- Where the worker is: before the test of the outer wait, asleep in it, past it with its copies of
-- `close` and `reset`, draining the queue, asleep in the wait of a reset, woken in it and before its
-- test, or at its end.
pub data WorkerAt : Type 0 where
  waiting : WorkerAt
  asleep : WorkerAt
  decided : Bool → Bool → WorkerAt
  draining : Bool → WorkerAt
  parked : WorkerAt
  rechecking : WorkerAt
  exited : WorkerAt

-- Where the main thread is: elsewhere, before the test of the wait of `virtio_blk_reset`, asleep in it,
-- re-initializing the queues in `virtio_dev_reset`, in `pthread_join`, or past `virtio_blk_close`.
pub data MainAt : Type 0 where
  idle : MainAt
  resetting : MainAt
  sleeping : MainAt
  reinitializing : MainAt
  joining : MainAt
  closed : MainAt

pub record Threads : Type 0 where
  pub close : Bool
  pub reset : Bool
  pub worker_paused : Bool
  pub worker : WorkerAt
  pub main : MainAt

-- What `pthread_cond_signal` and `pthread_cond_broadcast` do to the other thread, if it is asleep.
abbrev pub wake_worker : WorkerAt → WorkerAt
wake_worker asleep = waiting
wake_worker parked = rechecking
wake_worker w = w

abbrev pub wake_main : MainAt → MainAt
wake_main sleeping = resetting
wake_main m = m

-- One step of the worker. `empty` is what `vq_is_empty` finds.
pub data WorkerStep (s : Threads) : Threads → Type 0 where
  -- The outer wait: past it, or asleep in it.
  wakes :
      (empty : Bool)
      → s.worker ≡ waiting
      → (not empty || s.close || s.reset) ≡ true
      → WorkerStep s (record s { worker = decided s.close s.reset })
  sleeps :
      s.worker ≡ waiting
      → s.close ≡ false
      → s.reset ≡ false
      → WorkerStep s (record s { worker = asleep })
  -- The critical section of a reset: one round of its loop up to the wait, which broadcasts, or its end.
  parks :
      s.worker ≡ decided false true
      → s.reset ≡ true
      → s.close ≡ false
      → WorkerStep s (record s { worker = parked; worker_paused = true; main = wake_main s.main })
  passes :
      s.worker ≡ decided false true
      → (s.reset && not s.close) ≡ false
      → WorkerStep s (record s { worker = waiting; worker_paused = false })
  stays :
      s.worker ≡ rechecking
      → s.reset ≡ true
      → s.close ≡ false
      → WorkerStep s (record s { worker = parked; worker_paused = true; main = wake_main s.main })
  resumes :
      s.worker ≡ rechecking
      → (s.reset && not s.close) ≡ false
      → WorkerStep s (record s { worker = waiting; worker_paused = false })
  -- The loop over the queue, and the end of the round.
  drains :
      (closing was_reset : Bool)
      → s.worker ≡ decided closing was_reset
      → (was_reset && not closing) ≡ false
      → WorkerStep s (record s { worker = draining closing })
  loops : s.worker ≡ draining false → WorkerStep s (record s { worker = waiting })
  exits : s.worker ≡ draining true → WorkerStep s (record s { worker = exited })

-- One step of the main thread.
pub data MainStep (s : Threads) : Threads → Type 0 where
  -- `virtio_blk_notify_handler`, which broadcasts.
  notifies : s.main ≡ idle → MainStep s (record s { reset = false; worker = wake_worker s.worker })
  -- `virtio_blk_reset`: its first part, which signals, and its wait.
  asks :
      s.main ≡ idle
      → MainStep s (record s { main = resetting; reset = true; worker = wake_worker s.worker })
  waits : s.main ≡ resetting → s.worker_paused ≡ false → MainStep s (record s { main = sleeping })
  granted :
      s.main ≡ resetting → s.worker_paused ≡ true → MainStep s (record s { main = reinitializing })
  -- The end of the loop over `virtqueue_reset`.
  reinitialized : s.main ≡ reinitializing → MainStep s (record s { main = idle })
  -- `virtio_blk_close`, which signals.
  closes :
      s.main ≡ idle
      → MainStep s (record s { main = joining; close = true; worker = wake_worker s.worker })
  joined : s.main ≡ joining → s.worker ≡ exited → MainStep s (record s { main = closed })

-- A step of either thread, or a wait on `cond` that ends without a signal.
pub data Step (s : Threads) : Threads → Type 0 where
  by_worker : {t : Threads} → WorkerStep s t → Step s t
  by_main : {t : Threads} → MainStep s t → Step s t
  worker_stirs : Step s (record s { worker = wake_worker s.worker })
  main_stirs : Step s (record s { main = wake_main s.main })
