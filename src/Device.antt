-- ===== src/Device.antt =====
-- A virtio device and what surrounds it: `struct VirtMmioRegs`, `struct VirtIoDevice` and
-- `struct virtio_bridge` (tools/virtio/include/virtio.h, include/hvisor.h), the memory and the calls of
-- the kernel module. Log lines, and the counter that samples them, are left out.
mod Results
pub use Results.{Transfer, moved, errno, Result, returns, faults, spins, ◌>>=◌, >>=-eq-returns}
use hvisor_tool.Base.{ℕ, ◌+◌, ◌-◌, ◌%◌, ◌^◌, bit_and, Bool, true, false, List, [], ◌∷◌, ◌==◌}
use hvisor_tool.Memory.{Memory}
use hvisor_tool.ZoneMemory.{ZoneMem}
use hvisor_tool.Queue.{VirtQueue}

-- MAX_REQ
abbrev pub max_req : ℕ
max_req = 32

-- `VirtMmioRegs`
pub record VirtMmioRegs : Type 0 where
  pub device_id : ℕ
  pub dev_feature_sel : ℕ
  pub drv_feature_sel : ℕ
  pub queue_sel : ℕ
  pub interrupt_status : ℕ
  pub status : ℕ
  pub generation : ℕ
  pub dev_feature : ℕ
  pub drv_feature : ℕ

-- `struct VirtIoDevice`, where `Dev` is the device type's own state (`dev`) and `vqs_len` is the length
-- of `vqs`. The type's functions are in `DeviceOps`.
pub record VirtIoDevice (Dev : Type 0) : Type 0 where
  pub zone_id : ℕ
  pub irq_id : ℕ
  pub base_addr : ℕ
  pub len : ℕ
  pub regs : VirtMmioRegs
  pub vqs : List VirtQueue
  pub dev : Dev
  pub activated : Bool
  pub interrupt_line_asserted : Bool

-- `struct device_req`
pub record DeviceReq : Type 0 where
  pub src_cpu : ℕ
  pub address : ℕ
  pub size : ℕ
  pub value : ℕ
  pub src_zone : ℕ
  pub is_write : ℕ
  pub need_interrupt : ℕ

-- `struct device_res`
pub record DeviceRes : Type 0 where
  pub target_zone : ℕ
  pub irq_id : ℕ

-- `struct virtio_bridge` in two parts: the ring of requests, which only the main loop reads, and what
-- the device operations use.
pub record RequestRing : Type 0 where
  pub req_front : ℕ
  pub req_rear : ℕ
  pub req_list : List DeviceReq
  pub need_wakeup : ℕ

pub record VirtioBridge : Type 0 where
  pub res_front : ℕ
  pub res_rear : ℕ
  pub res_list : List DeviceRes
  pub cfg_flags : List ℕ
  pub cfg_values : List ℕ
  pub mmio_addrs : List ℕ
  pub mmio_avail : ℕ

-- An `ioctl` of the kernel module, and how one attempt of it ends: with 0, with EINTR, or otherwise.
pub data Ioctl : Type 0 where
  deassert_irq : ℕ → ℕ → Ioctl
  finish_req : Ioctl

pub data Attempt : Type 0 where
  done : Attempt
  interrupted : Attempt
  refused : Attempt

-- What a device's operations act on besides the device. `line_control` tells whether the architecture
-- lowers interrupt lines through the kernel module (LOONGARCH64 or X86_64). `attempts` are the answers
-- that the kernel module has yet to give; past them, `HVISOR_FINISH_REQ` is interrupted for ever and
-- `HVISOR_DEASSERT_IRQ` is refused. `calls` are the calls made so far, the latest first. `res_fronts` are the values of `res_front` that further reads will find.
pub record World : Type 0 where
  pub memory : Memory
  pub zones : ZoneMem
  pub bridge : VirtioBridge
  pub line_control : Bool
  pub attempts : List Attempt
  pub calls : List Ioctl
  pub res_fronts : List ℕ

-- `do ret = ioctl(…); while (ret < 0 && errno == EINTR);`, and whether `ret == 0` at its end.
unfoldable pub ioctl_retry : Ioctl → List Attempt → List Ioctl → Bool × List Attempt × List Ioctl
ioctl_retry c [] calls = (false, [], c ∷ calls)
ioctl_retry c (done ∷ rest) calls = (true, rest, c ∷ calls)
ioctl_retry c (refused ∷ rest) calls = (false, rest, c ∷ calls)
ioctl_retry c (interrupted ∷ rest) calls = ioctl_retry c rest (c ∷ calls)

unfoldable pub call_kernel : Ioctl → World → Bool × World
call_kernel c w =
    let (ok, rest, calls) = ioctl_retry c w.attempts w.calls in
    (ok, record w { attempts = rest; calls = calls })

-- Some answer is not EINTR, so the loop that repeats the call ends.
unfoldable pub gives_answer : List Attempt → Bool
gives_answer [] = false
gives_answer (done ∷ rest) = true
gives_answer (refused ∷ rest) = true
gives_answer (interrupted ∷ rest) = gives_answer rest

-- `is_queue_full`, over `unsigned int`
unfoldable pub is_queue_full : ℕ → ℕ → ℕ → Bool
is_queue_full front rear size =
    bit_and ((rear + 1) % 2 ^ 32) ((size + 2 ^ 32 - 1) % 2 ^ 32) == front
