-- ===== src/Lib.antt =====
-- The virtio daemon of hvisor-tool: the device side of virtio over MMIO for the zones of the hvisor
-- hypervisor (tools/virtio), written in C.
--
-- A guest's accesses to the registers of a device reach the daemon as requests in a ring that it
-- shares with the hypervisor. `consume_pending_requests` takes them out, `virtio_handle_req` finds the
-- device, and `virtio_mmio_read` and `virtio_mmio_write` act on its registers and queues. A device type
-- reads the guest's requests from descriptor chains in guest memory, completes them in the used ring,
-- and announces that through `virtio_inject_irq` with a response ring back to the hypervisor.
--
-- The files, and the code that each is about:
--   Base: names of the libraries, lists, options and bits over the native numbers.
--   Memory: bytes of the daemon's memory, and the layout of descriptors and rings.
--   ZoneMemory: the regions of `zone_mem`, `get_virt_addr`, `mmap_virtio_zone_memory` and the range
--     tests of tools/virtio/virtio.c.
--   Queue: `struct VirtQueue` (tools/virtio/include/virtio.h) and the functions on one queue.
--   Chain: `process_descriptor_chain_buf` and `push_descriptor`; Chain/Flat says what a chain of
--     descriptors is, without the code. Chain/Allocating: `process_descriptor_chain`.
--   Device: `VirtMmioRegs`, `struct VirtIODevice`, `struct virtio_bridge` (include/hvisor.h), and the
--     calls of the kernel module. An array is a list, and its length is that of the list.
--   Ring: the contents of the bridge's rings.
--   Interrupt: the interrupt line, its acknowledgement, and `virtio_inject_irq`.
--   Mmio: the registers, and `virtio_dev_reset`. The functions of the device types are a record.
--   Bridge: `virtio_handle_req` and `consume_pending_requests`.
--   Blk: the block device of tools/virtio/devices/blk/virtio_blk.c, one request at a time in Blk, its
--     two threads as a step relation in Blk/Threads and Blk/Worker, its record of functions in Blk/Ops.
--   Net: the network device of tools/virtio/devices/net/virtio_net.c; Net/Transmit and Net/Receive
--     are its queues, Net/Setup its parameters and its record of functions.
--   Console: the console device of tools/virtio/devices/console/virtio_console.c.
--   Scmi: the SCMI device of tools/virtio/devices/scmi: message headers and responses in Scmi,
--     the messages of base.c, clock.c, power.c and reset.c in Scmi/Base, Scmi/Clock and
--     Scmi/Domains, the table of protocols in Scmi/Device, one request of the queue in
--     Scmi/Transmit. Scmi/Contained says what a handler may do, Scmi/Respond, Scmi/Rules and
--     Scmi/Fills hold the rules that Scmi/Safety applies to every handler.
--   Config: parsing of the daemon's configuration, `parse_virtio_config`, with tools/json_parse.c and
--     tools/safe_cjson.c. The cJSON library is a record of functions.
--   Setup: validation, creation and publication of devices.
--   EventMonitor: the table of watched files of tools/virtio/event_monitor.c.
--   Tests: runs on a small zone.
--
-- Numbers are natural numbers; where C wraps or truncates, the model has the remainder. An operation
-- that would leave an array or go through NULL has its own outcome, but for stores where only the caller
-- can rule NULL out: those of `update_used_ring`, of `virtqueue_enable_notify` and of
-- `scmi_make_response` go to the address that they are given. State is passed on explicitly.
-- Code that runs under a lock is one step; where the code releases a lock or waits, other threads, the
-- hypervisor and the kernel module are arguments of the model: `Mmap`, `Others`, the answers of `ioctl`
-- (`attempts`), the fronts of the response ring still to be read (`res_fronts`), and the hypervisor's
-- part of the request ring. The loop over the request ring has fuel for the loads of the ring's rear
-- index; with a silent hypervisor, one for each pending request and each poll is enough. The loops of
-- `process_descriptor_chain_buf` are bounded by the code itself. Those of `process_descriptor_chain`
-- and of the devices' handlers have fuel, and running out of it is the outcome `spins`: for a chain
-- without indirect tables more than its length is enough, and for the net device's inner transmit loop
-- more than the number of available entries. A guest that rewrites a chain while it is read, and
-- the order of stores between processors, are outside the model. In the
-- step relation of Blk/Threads each drain of the queue is a step, and so ends; a wait ends by a signal
-- of the other thread or spuriously. A call of HVISOR_FINISH_REQ that is interrupted for ever is the
-- outcome `spins`; one of HVISOR_DEASSERT_IRQ ends, with a refusal if `attempts` has no answer.
--
-- Not modelled: the GPU device, the loop over many requests of the SCMI device, the control socket and
-- command line, the parameters of the block, console and GPU devices, opening the tap
-- device, the pseudo-terminal and the image, the thread of the event monitor, the kernel module
-- (driver) and the boot images; logging; allocation failures. `preadv`, `pwritev`, `readv`, `writev`,
-- `fdatasync`, `snprintf` for the block device's id, `vring_need_event`, `mmap`, `ioctl`, and the
-- kernel module's answers about clocks, power domains and resets are arguments, and so are the sizes
-- of the Linux headers' structures.
pub mod Base
pub mod Memory
pub mod ZoneMemory
pub mod Queue
pub mod Chain
pub mod Device
pub mod Ring
pub mod Interrupt
pub mod Mmio
pub mod Bridge
pub mod Blk
pub mod Setup
pub mod EventMonitor
pub mod Scmi
pub mod Net
pub mod Console
pub mod Config
pub mod Tests
