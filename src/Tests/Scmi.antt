-- ===== src/Tests/Scmi.antt =====
-- Runs of the SCMI device of tools/virtio/devices/scmi.
use hvisor_tool.Base.{
  ℕ, ◌+◌, ◌≡◌, ◌≢◌, refl, true, false, [], ◌∷◌, some, none, ◌==◌, if◌then◌else◌, arith,
}
use hvisor_tool.Memory.{Memory, load16, load32, load64, load8, desc_at}
use hvisor_tool.ZoneMemory.{get_virt_addr}
use hvisor_tool.Queue.{next_avail}
use hvisor_tool.Chain.{
  fault, Iovec, process_descriptor_chain_buf, walk, take_desc, add_buffer, push_descriptor,
  read_desc,
}
use hvisor_tool.Device.{returns}
use hvisor_tool.Scmi.{
  read_header, scmi_build_header, Exchange, ScmiDev, ScmiKernel, Protocol, clock_protocol,
}
use hvisor_tool.Scmi.Header.{read_header-scmi_build_header}
use hvisor_tool.Scmi.Clock.{proto_clock}
use hvisor_tool.Scmi.Contained.{Answers}
use hvisor_tool.Scmi.Device.{
  VirtioScmiInitParams, virtio_scmi_do_init, scmi_handle_message, scmi_dev_register_protocol,
  registered,
}
use hvisor_tool.Scmi.Device.Registry.{
  IsTable, Registers, number, offered, virtio_scmi_do_init-IsTable, scmi_dev_register_protocol_lem,
  virtio_scmi_do_init_lem,
}
use hvisor_tool.Scmi.Safety.{Refuses, scmi_handle_message-Answers}
use hvisor_tool.Scmi.Transmit.{Sent, virtq_tx_handle_one_request}
use hvisor_tool.Scmi.Transmit.Handled.{Ended, chain_of, virtq_tx_handle_one_request_lem}
use hvisor_tool.Tests.{zones, queue}

-- A kernel module that knows the rate of clock 5 and counts the calls.
abbrev kernel : ScmiKernel ℕ
kernel = record {
  clock_get_attributes = λ id k. (none, k + 1);
  clock_rate_get = λ id k. (if id == 5 then some 24000000 else none, k + 1);
  clock_rate_set = λ id flags rate k. (true, k + 1);
  clock_config_get = λ id flags k. (none, k + 1);
  clock_config_set = λ id config k. (true, k + 1);
  clock_name_get = λ id k. (none, k + 1);
  power_get_attributes = λ id k. (none, k + 1);
  power_state_set = λ id state k. (true, k + 1);
  power_state_get = λ id k. (none, k + 1);
  reset_reset = λ id flags state k. (true, k + 1);
}

-- One clock and no other domain.
abbrev params : VirtioScmiInitParams
params = record { clock_ids = 5 ∷ []; reset_ids = []; power_ids = [] }

-- Descriptors 0 and 1 of the table at 4096: 4 bytes at 0x1010, read, and 16 bytes at 0x1100, written.
-- At 0x10010, where 0x1010 is mapped, the header of the base protocol's message 0.
abbrev version_request : Memory
version_request x =
    if x == 4096
    then 0x10
    else if x == 4097
    then 0x10
    else if x == 4104
    then 4
    else if x == 4108
    then 1
    else if x == 4110
    then 1
    else if x == 4113
    then 0x11
    else if x == 4120
    then 16
    else if x == 4124
    then 2
    else if x == 0x10011
    then 0x40
    else 0

version_request_readable : chain_of zones 1 kernel (some params) version_request queue ≢ fault
unfolding process_descriptor_chain_buf walk take_desc add_buffer push_descriptor read_desc desc_at
    load64 load32 load16 load8 get_virt_addr next_avail
version_request_readable h = cc

virtq_tx_handle_one_request_lem_example :
    (s : Sent ℕ) × (virtq_tx_handle_one_request zones 1 kernel
        (virtio_scmi_do_init (some params))
        version_request
        queue
        0
      ≡ returns s)
    × Ended zones 1 kernel (some params) version_request queue 0 s
virtq_tx_handle_one_request_lem_example =
    virtq_tx_handle_one_request_lem zones 1 kernel (some params) version_request queue 0
      version_request_readable

abbrev request : Iovec
request = record { iov_base = 0x10010; iov_len = 8 }

abbrev exchange : Exchange ℕ
exchange = record {
  memory = version_request;
  ctx = record { iov = record { iov_base = 0x10100; iov_len = 16 }; written = 0; capacity = 16 };
  kernel = 0;
}

scmi_handle_message-Answers_example :
    let r =
      scmi_handle_message kernel (virtio_scmi_do_init (some params)) 20 6 3 request exchange in
    Answers 20 6 3 exchange r × (exchange.ctx.iov.iov_base ≡ 0 → Refuses exchange r)
scmi_handle_message-Answers_example =
    scmi_handle_message-Answers kernel (some params) 20 6 3 request exchange (omega arith)

read_header-scmi_build_header_example :
    read_header (scmi_build_header 20 6 1027)
    ≡ record { msg_id = 6; msg_type = 0; protocol_id = 20; token = 3; reserved = 0 }
read_header-scmi_build_header_example = read_header-scmi_build_header 20 6 1027

abbrev fresh : ScmiDev
fresh = virtio_scmi_do_init (some params)

scmi_dev_register_protocol_lem_example :
    IsTable (scmi_dev_register_protocol fresh proto_clock clock_protocol).1.protocols
    × Registers fresh proto_clock clock_protocol
        (scmi_dev_register_protocol fresh proto_clock clock_protocol)
scmi_dev_register_protocol_lem_example =
    scmi_dev_register_protocol_lem fresh proto_clock clock_protocol
      (virtio_scmi_do_init-IsTable (some params)) refl

virtio_scmi_do_init_lem_example :
    ((h : Protocol)
      → registered fresh.protocols (number h)
        ≡ (if offered true false false h then some h else none))
    × (fresh.clock_ids ≡ (5 ∷ []))
    × (fresh.power_ids ≡ [])
    × (fresh.reset_ids ≡ [])
virtio_scmi_do_init_lem_example = virtio_scmi_do_init_lem params
