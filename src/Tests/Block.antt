-- ===== src/Tests/Block.antt =====
-- Runs of the block device of tools/virtio/devices/blk/virtio_blk.c.
use hvisor_tool.Base.{ℕ, ◌≡◌, refl, inl, [], ◌∷◌, true, some, ◌==◌, if◌then◌else◌}
use hvisor_tool.Memory.{Memory, load16, load32, load8}
use hvisor_tool.Chain.{Iovec, VirtioRequest, chain_len}
use hvisor_tool.Blk.{BlkHost, Layout, check_layout, last_iov}
use hvisor_tool.Device.{Transfer}
use hvisor_tool.Blk.Complete.{IsLayout, check_layout_lem}
use hvisor_tool.Blk.Threads.{
  Threads, WorkerStep, MainStep, Step, parked, resetting, reinitializing, closed, exited,
}
use hvisor_tool.Blk.Worker.{Reach, WorkerReach, InPause, started, Reach-exclusion, Reach-granted}

-- An image of one number, which nothing reads and a write sets to 1.
abbrev host : BlkHost ℕ
host = record {
  preadv = λ img m iov off. (m, Transfer.moved 0);
  pwritev = λ img m iov off. (1, Transfer.moved 512);
  fdatasync = λ img. (img, Transfer.moved 0);
  snprintf_id = λ m b. m;
}

-- A flush: the header at 20000 and the status byte at 21000.
abbrev flush : Memory
flush x = if x == 20000 then 4 else 0

abbrev header : Iovec
header = record { iov_base = 20000; iov_len = 16 }

abbrev status : Iovec
status = record { iov_base = 21000; iov_len = 1 }

abbrev flush_request : VirtioRequest
flush_request = record { out_iov = header ∷ []; in_iov = status ∷ [] }

abbrev flush_layout : Layout
flush_layout = record { hdr = 20000; out_data = []; in_data = []; status = status }

flush_checked : check_layout flush flush_request ≡ some flush_layout
unfolding check_layout last_iov chain_len load32 load16 load8
flush_checked = refl

check_layout_lem_example : IsLayout flush flush_request flush_layout
check_layout_lem_example = check_layout_lem flush flush_request flush_layout flush_checked

-- The worker goes to sleep, and a reset is asked for.
abbrev asked : Threads
asked = record started { main = resetting; reset = true }

asked_reached : Reach started asked
asked_reached =
    Reach.later (Reach.later Reach.start (Step.by_worker (WorkerStep.sleeps refl refl refl)))
      (Step.by_main (MainStep.asks refl))

Reach-granted_example :
    (t : Threads) × WorkerReach asked t × (t.main ≡ resetting) × (t.worker_paused ≡ true)
Reach-granted_example = Reach-granted asked_reached (inl refl)

abbrev paused : Threads
paused = record asked { worker = parked; worker_paused = true; main = reinitializing }

paused_reached : Reach started paused
paused_reached =
    Reach.later
      (Reach.later (Reach.later asked_reached (Step.by_worker (WorkerStep.wakes true refl refl)))
        (Step.by_worker (WorkerStep.parks refl refl refl)))
      (Step.by_main (MainStep.granted refl refl))

Reach-exclusion_example :
    (reinitializing ≡ reinitializing → InPause parked × (true ≡ true))
    × (reinitializing ≡ closed → parked ≡ exited)
Reach-exclusion_example = Reach-exclusion paused_reached
