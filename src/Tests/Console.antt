-- ===== src/Tests/Console.antt =====
-- Runs of the console device of tools/virtio/devices/console/virtio_console.c, and of the chains that it
-- reads.
use hvisor_tool.Base.{
  ℕ, ◌+◌, ◌%◌, ◌^◌, ◌≡◌, ◌≢◌, refl, Bool, true, false, List, [], ◌∷◌, some, ◌==◌, if◌then◌else◌,
  length, arith,
}
use hvisor_tool.Memory.{Memory, VirtqDesc, load8, load16, load32, load64, desc_at, avail_idx}
use hvisor_tool.ZoneMemory.{get_virt_addr}
use hvisor_tool.Queue.{next_avail, advance_avail, update_used_ring}
use hvisor_tool.Device.{VirtIoDevice, World, returns, faults, Transfer}
use hvisor_tool.Chain.Allocating.{process_descriptor_chain}
use hvisor_tool.Chain.Allocating.Laws.{
  Direct, stored, buffers, process_descriptor_chain_lem, process_descriptor_chain-overlong,
}
use hvisor_tool.Mmio.{virtio_dev_reset}
use hvisor_tool.Console.{
  Terminal, ConsoleDev, Running, receive, virtio_console_ops, virtio_console_event_handler,
}
use hvisor_tool.Console.Rounds.{IsNext, receive_lem}
use hvisor_tool.Console.Reset.{virtio_console_event_handler-reset_faults}
use hvisor_tool.Tests.{zones, queue, one_buffer, regs, world}

-- One chain of one buffer of 16 bytes is available.
abbrev one_chain : Memory
one_chain x = if x == 8194 then 1 else one_buffer x

abbrev first : List VirtqDesc
first = desc_at one_chain 4096 0 ∷ []

first-Direct : Direct one_chain 4096 (next_avail one_chain queue) first
unfolding desc_at load64 load32 load16 load8 next_avail
first-Direct = Direct.last refl refl

first_available : queue.last_avail_idx ≢ avail_idx one_chain queue.avail_ring
unfolding load16 load8
first_available = omega arith

process_descriptor_chain_lem_example :
    process_descriptor_chain one_chain zones 1 2 queue
    ≡ returns (
      advance_avail queue,
      some (record {
        count = length first;
        head = next_avail one_chain queue;
        iov = stored (buffers one_chain zones 1 first);
      }),
    )
process_descriptor_chain_lem_example =
    process_descriptor_chain_lem one_chain zones 1 2 queue first (omega arith) (omega arith)
      first_available first-Direct (omega arith) (omega arith) (omega arith)

-- An indirect table of one entry at 0x1010, which links to a further one.
abbrev linked_on : Memory
linked_on x = if x == 4108 then 4 else if x == 0x1001c then 1 else one_chain x

process_descriptor_chain-overlong_example :
    process_descriptor_chain linked_on zones 1 3 queue ≡ faults
unfolding desc_at load64 load32 load16 load8 next_avail get_virt_addr
process_descriptor_chain-overlong_example =
    process_descriptor_chain-overlong linked_on zones 1 3 queue (omega arith) (omega arith)
      (omega arith) (omega arith) (omega arith) refl refl (omega arith) (omega arith) (refl, tt)
      (omega arith)

-- A terminal that gives 5 bytes at a time, which it counts.
abbrev host : Terminal ℕ
host = record {
  read_trash = λ t. t;
  readv = λ m iov t. (m, Transfer.moved 5, t + 1);
  writev = λ m iov t. (Transfer.moved 5, t);
}

abbrev running : Running ℕ
running = record { memory = one_chain; vq = queue; terminal = 0 }

running-IsNext : IsNext host zones 1 2 running first
running-IsNext = record {
  mapped = omega arith;
  ring = omega arith;
  available = first_available;
  chain = first-Direct;
  some_buffer = omega arith;
  small = omega arith;
  within = omega arith;
  rounds = omega arith;
}

receive_lem_example :
    ((e : ℕ)
      → Transfer.moved 5 ≡ Transfer.errno e
      → receive host zones 1 2 running
        ≡ returns (false, record { memory = one_chain; vq = queue; terminal = 1 }))
    × ((n : ℕ)
        → Transfer.moved 5 ≡ Transfer.moved n
        → receive host zones 1 2 running
          ≡ returns (
            true,
            record {
              memory =
                  update_used_ring one_chain
                    (advance_avail queue)
                    (record { id = next_avail one_chain queue; len = n % 2 ^ 32 });
              vq = advance_avail queue;
              terminal = 1;
            },
          ))
receive_lem_example = receive_lem host zones 1 2 running first running-IsNext (omega arith)

abbrev console : VirtIoDevice (ConsoleDev ℕ)
console = record {
  zone_id = 1;
  irq_id = 76;
  base_addr = 0xa000000;
  len = 0x200;
  regs = regs;
  vqs = queue ∷ queue ∷ [];
  dev = record { config_bytes = []; master_fd = true; rx_ready = true; terminal = 0 };
  activated = true;
  interrupt_line_asserted = false;
}

abbrev never : ℕ → ℕ → ℕ → Bool
never e i l = false

virtio_console_event_handler-reset_faults_example :
    (d' : VirtIoDevice (ConsoleDev ℕ)) × (w' : World) × (virtio_dev_reset
        (virtio_console_ops host never 9 9 9)
        console
        world
      ≡ returns (d', w'))
    × (virtio_console_event_handler host never 9 9 true d' w' ≡ faults)
virtio_console_event_handler-reset_faults_example =
    virtio_console_event_handler-reset_faults host never 9 9 9 console world queue queue refl refl
      refl refl
