-- ===== src/Net.antt =====
-- The network device of tools/virtio/devices/net/virtio_net.c: the transmit and receive queues in
-- batches, the notify handlers, and its functions as a virtio device. The tap device, and the sizes of
-- the two virtio-net headers of the Linux headers, are an argument.
pub mod Receive
pub mod Transmit
pub mod Batch
pub mod Setup
use hvisor_tool.Base.{
  ℕ, zero, suc, ◌+◌, ◌-◌, ◌*◌, ◌%◌, ◌^◌, Bool, true, false, not, ◌&&◌, ◌||◌, List, [], ◌∷◌, ◌++◌,
  Option, none, some, get_elem?, set, length, ltb, leb, ◌==◌, if◌then◌else◌, test_bit,
}
use hvisor_tool.Memory.{Memory, null}
use hvisor_tool.Queue.{VirtQueue, UsedElem, virtqueue_disable_notify}
use hvisor_tool.Chain.{Iovec}
use hvisor_tool.Device.{VirtIoDevice, World, Result, returns, faults, spins, Transfer}

-- VIRTQUEUE_NET_MAX_SIZE, which is also NET_IOV_MAX
abbrev pub virtqueue_net_max_size : ℕ
virtqueue_net_max_size = 256

-- EWOULDBLOCK
abbrev pub ewouldblock : ℕ
ewouldblock = 11

-- VIRTIO_F_VERSION_1 and VIRTIO_CONFIG_S_FEATURES_OK, as bits
abbrev pub f_version_1 : ℕ
f_version_1 = 32

abbrev pub features_ok : ℕ
features_ok = 3

-- The tap device, whose state is a `T`. `pad` is the address of the 64 zero
-- bytes, and `config_rest` what follows `status` in the configuration.
pub record TapHost (T : Type 0) : Type 0 where
  pub read_trash : T → T
  pub readv : Memory → List Iovec → T → Memory × Transfer × T
  pub writev : Memory → List Iovec → T → Transfer × T
  pub set_header_size : ℕ → T → T
  pub pad : ℕ
  pub header_v1 : ℕ
  pub header_legacy : ℕ
  pub config_rest : List ℕ

-- `NetDev`. The arrays of buffers are those of the handlers, and `tapfd` tells whether it is not -1.
pub record NetDev (T : Type 0) : Type 0 where
  pub config_bytes : List ℕ
  pub tapfd : Bool
  pub rx_ready : ℕ
  pub tap : T

-- `virtqueue_disable_notify`, which writes through the address of the used ring.
unfoldable pub disable_notify : Memory → VirtQueue → Result Memory
disable_notify m vq =
    if vq.used_ring == null then faults else returns (virtqueue_disable_notify m vq)

-- Store an entry in the two arrays of a batch.
unfoldable pub add_entry : List UsedElem → UsedElem → Result (List UsedElem)
add_entry batch e =
    if leb virtqueue_net_max_size (length batch) then faults else returns (batch ++ (e ∷ []))

module _ {T : Type 0} (host : TapHost T) where
  unfoldable pub get_nethdr_size : VirtIoDevice (NetDev T) → ℕ
  get_nethdr_size d =
      if test_bit d.regs.drv_feature f_version_1 then host.header_v1 else host.header_legacy

  abbrev pub set_dev : VirtIoDevice (NetDev T) → NetDev T → VirtIoDevice (NetDev T)
  set_dev d net = record d { dev = net }

  unfoldable pub virtio_net_reset : VirtIoDevice (NetDev T) → VirtIoDevice (NetDev T)
  virtio_net_reset d = set_dev d (record (d.dev) { rx_ready = 0 })

  unfoldable pub net_on_status : ℕ → VirtIoDevice (NetDev T) → VirtIoDevice (NetDev T)
  net_on_status status d =
      let net = d.dev in
      let net1 : NetDev T =
        if test_bit status features_ok
        then record net { tap = host.set_header_size (get_nethdr_size d) net.tap }
        else net in
      set_dev d (if status == 0 then record net1 { rx_ready = 0 } else net1)
