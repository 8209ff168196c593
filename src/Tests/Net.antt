-- ===== src/Tests/Net.antt =====
-- Runs of the network device of tools/virtio/devices/net/virtio_net.c.
use hvisor_tool.Base.{
  ℕ, ◌+◌, ◌≡◌, ◌≤◌, ◌<◌, refl, Bool, true, false, List, [], ◌∷◌, Option, some, ◌==◌, if◌then◌else◌,
  length, arith,
}
use hvisor_tool.Memory.{Memory, load8, load16, load32, load64, desc_at}
use hvisor_tool.ZoneMemory.{get_virt_addr}
use hvisor_tool.Queue.{VirtQueue, next_avail, vq_is_empty}
use hvisor_tool.Chain.{
  Iovec, process_descriptor_chain_buf, walk, take_desc, add_buffer, push_descriptor, read_desc,
}
use hvisor_tool.Device.{VirtIoDevice, World, returns, faults, Transfer}
use hvisor_tool.Mmio.{virtio_dev_reset, notify_queue}
use hvisor_tool.Net.{TapHost, NetDev}
use hvisor_tool.Net.Transmit.{Sending, tx_requests}
use hvisor_tool.Net.Batch.{pending, heads, ids, ArePlain, tx_requests_lem}
use hvisor_tool.Net.Receive.{virtio_net_event_handler}
use hvisor_tool.Net.Receive.Quiet.{virtio_net_event_handler-reset, notify_queue-reset_faults}
use hvisor_tool.Net.Setup.{VirtioNetInitParams, Parsed, virtio_net_parse_params, virtio_net_ops}
use hvisor_tool.Net.Setup.Params.{present, virtio_net_parse_params_lem}
use hvisor_tool.Tests.{zones, queue, one_buffer, regs, world}

-- A tap device that counts what is sent and never has a packet.
abbrev host : TapHost ℕ
host = record {
  read_trash = λ t. t;
  readv = λ m iov t. (m, Transfer.errno 11, t);
  writev = λ m iov t. (Transfer.moved 64, t + 1);
  set_header_size = λ n t. t;
  pad = 30000;
  header_v1 = 12;
  header_legacy = 10;
  config_rest = [];
}

abbrev never : ℕ → ℕ → ℕ → Bool
never e i l = false

-- One packet of 16 bytes is available.
abbrev one_packet : Memory
one_packet x = if x == 8194 then 1 else one_buffer x

abbrev buffer : Iovec
buffer = record { iov_base = 0x10010; iov_len = 16 }

one_packet_plain : ArePlain zones 1 one_packet queue (pending one_packet queue)
unfolding process_descriptor_chain_buf walk take_desc add_buffer push_descriptor read_desc desc_at
    load64 load32 load16 load8 get_virt_addr next_avail
one_packet_plain = (record { readable = λ h. cc; buffers = λ req e. (buffer, [], cc) }, tt)

tx_requests_lem_example :
    (pending one_packet queue ≤ 256
      → (y : Sending ℕ) × (tx_requests host zones 1 12 one_packet 2 true
            (record { vq = queue; tap = 0; batch = [] })
          ≡ returns y)
        × (vq_is_empty one_packet y.vq ≡ true)
        × (ids y.batch ≡ heads one_packet queue (pending one_packet queue)))
    × (256 < pending one_packet queue
        → tx_requests host zones 1 12 one_packet 2 true (record { vq = queue; tap = 0; batch = [] })
          ≡ faults)
unfolding load16 load8
tx_requests_lem_example =
    tx_requests_lem zones 1 one_packet host 12 2 queue 0 (omega arith) (omega arith) (omega arith)
      one_packet_plain

abbrev net_dev : NetDev ℕ
net_dev = record { config_bytes = []; tapfd = true; rx_ready = 1; tap = 0 }

abbrev rx_queue : VirtQueue
rx_queue = record queue { notify_handler = true }

abbrev net_device : VirtIoDevice (NetDev ℕ)
net_device = record {
  zone_id = 1;
  irq_id = 78;
  base_addr = 0xa000000;
  len = 0x200;
  regs = regs;
  vqs = rx_queue ∷ queue ∷ [];
  dev = net_dev;
  activated = true;
  interrupt_line_asserted = false;
}

virtio_net_event_handler-reset_example :
    (d' : VirtIoDevice (NetDev ℕ)) × (w' : World) × (virtio_dev_reset
        (virtio_net_ops host never 9 9)
        net_device
        world
      ≡ returns (d', w'))
    × ((net : NetDev ℕ) × (virtio_net_event_handler host never 9 true d' w'
          ≡ returns (record d' { dev = net }, w'))
        × (net.rx_ready ≡ 0))
virtio_net_event_handler-reset_example =
    virtio_net_event_handler-reset host never 9 9 true net_device world rx_queue refl

notify_queue-reset_faults_example :
    (d' : VirtIoDevice (NetDev ℕ)) × (w' : World) × (virtio_dev_reset
        (virtio_net_ops host never 9 9)
        net_device
        world
      ≡ returns (d', w'))
    × (notify_queue (virtio_net_ops host never 9 9) 0 d' w' ≡ faults)
notify_queue-reset_faults_example =
    notify_queue-reset_faults host never 9 9 net_device world rx_queue rx_queue refl refl refl

-- tap0
abbrev params : VirtioNetInitParams
params = record { mac = 0 ∷ 22 ∷ 62 ∷ 16 ∷ 16 ∷ 16 ∷ []; tap = 116 ∷ 97 ∷ 112 ∷ 48 ∷ [] }

virtio_net_parse_params_lem_example :
    (0 < length params.tap
      → length params.tap < 16
      → length params.mac ≡ 6
      → virtio_net_parse_params (some params.tap) (present params.mac) ≡ Parsed.parsed params)
    × ((tap : Option (List ℕ)) (mac : List (Option ℕ))
        → virtio_net_parse_params tap mac ≡ Parsed.parsed params
        → (tap ≡ some params.tap)
          × (mac ≡ present params.mac)
          × (0 < length params.tap)
          × (length params.tap < 16)
          × (length params.mac ≡ 6))
virtio_net_parse_params_lem_example = virtio_net_parse_params_lem params
