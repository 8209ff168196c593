-- ===== src/Console/Rounds.antt =====
-- One round of the receive loop of tools/virtio/devices/console/virtio_console.c.
use hvisor_tool.Base.{
  ℕ, ◌%◌, ◌^◌, ◌≤◌, ◌<◌, ◌≡◌, ◌≢◌, refl, ap, ◌∙◌, true, false, List, [], ◌∷◌, length, ◌==◌, arith,
}
use hvisor_tool.Memory.{Memory, null, VirtqDesc, avail_idx}
use hvisor_tool.ZoneMemory.{ZoneMem}
use hvisor_tool.Queue.{VirtQueue, advance_avail, next_avail, dec16, inc16, update_used_ring}
use hvisor_tool.Chain.{Iovec}
use hvisor_tool.Chain.Allocating.Laws.{Direct, stored, buffers, process_descriptor_chain_lem}
use hvisor_tool.Device.{returns, Transfer, moved, errno}
use hvisor_tool.Console.{Terminal, Running, initialized, after_readv, receive}

initialized-stored : (bs : List Iovec) → initialized (stored bs) ≡ returns bs
unfolding initialized
initialized-stored [] = refl
initialized-stored (b ∷ bs) = rw (initialized, initialized-stored bs) refl

module _ {T : Type 0} (host : Terminal T) (z : ZoneMem) (zone_id limit : ℕ) where
  abbrev read_of : Running T → List VirtqDesc → Memory × Transfer × T
  read_of x ds = host.readv x.memory (buffers x.memory z zone_id ds) x.terminal

  -- The next available chain has no indirect table and as many descriptors as the queue at most.
  pub record IsNext (x : Running T) (ds : List VirtqDesc) : Type 0 where
    pub mapped : x.vq.desc_table ≢ null
    pub ring : x.vq.avail_ring ≢ null
    pub available : x.vq.last_avail_idx ≢ avail_idx x.memory x.vq.avail_ring
    pub chain : Direct x.memory x.vq.desc_table (next_avail x.memory x.vq) ds
    pub some_buffer : 0 < length ds
    pub small : x.vq.num < 2 ^ 31
    pub within : length ds ≤ x.vq.num
    pub rounds : length ds < limit

  back_again :
      (vq : VirtQueue)
      → vq.last_avail_idx < 2 ^ 16
      → record (advance_avail vq) { last_avail_idx = dec16 (advance_avail vq).last_avail_idx } ≡ vq
  unfolding advance_avail
  back_again vq h =
      let e : dec16 (inc16 vq.last_avail_idx) ≡ vq.last_avail_idx = omega arith in
      λ i. record vq { last_avail_idx = e i }

  receive-chain :
      (x : Running T) (ds : List VirtqDesc)
      → IsNext x ds
      → receive host z zone_id limit x
        ≡ returns (
            after_readv host z zone_id limit
              (next_avail x.memory x.vq)
              (record {
                memory = (read_of x ds).0;
                vq = advance_avail x.vq;
                terminal = (read_of x ds).2;
              })
              (read_of x ds).1)
  unfolding receive
  receive-chain x ds n =
      let chain =
        process_descriptor_chain_lem x.memory z zone_id limit x.vq ds n.mapped n.ring n.available
          n.chain n.small n.within n.rounds in
      let some_len : (length ds == 0) ≡ false = ground (arith, n.some_buffer) in
      rw (receive, chain, some_len, initialized-stored (buffers x.memory z zone_id ds)) refl

  -- If the next chain has no indirect table and from 1 to `num` descriptors, a round of the receive loop
  -- reads the terminal into just the buffers of that chain. If the read fails, the queue is as it was before, and the loop ends; otherwise the chain is used with the number
  -- of bytes read, and the loop goes on.
  pub receive_lem :
      (x : Running T) (ds : List VirtqDesc)
      → IsNext x ds
      → x.vq.last_avail_idx < 2 ^ 16
      → let (m', read, t') = host.readv x.memory (buffers x.memory z zone_id ds) x.terminal in
        ((e : ℕ)
          → read ≡ errno e
          → receive host z zone_id limit x
            ≡ returns (false, record { memory = m'; vq = x.vq; terminal = t' }))
        × ((n : ℕ)
            → read ≡ moved n
            → receive host z zone_id limit x
              ≡ returns (
                true,
                record {
                  memory =
                      update_used_ring m'
                        (advance_avail x.vq)
                        (record { id = next_avail x.memory x.vq; len = n % 2 ^ 32 });
                  vq = advance_avail x.vq;
                  terminal = t';
                },
              ))
  unfolding after_readv
  receive_lem x ds n small = (
    λ e q.
        receive-chain x ds n
        ∙ ap
            (λ r. returns (
              after_readv host z zone_id limit (next_avail x.memory x.vq)
                (record {
                  memory = (read_of x ds).0;
                  vq = advance_avail x.vq;
                  terminal = (read_of x ds).2;
                })
                r))
            q
        ∙ ap
            (λ v.
              returns
                (false, record { memory = (read_of x ds).0; vq = v; terminal = (read_of x ds).2 }))
            (back_again x.vq small),
    λ k q.
        receive-chain x ds n
        ∙ ap
            (λ r. returns (
              after_readv host z zone_id limit (next_avail x.memory x.vq)
                (record {
                  memory = (read_of x ds).0;
                  vq = advance_avail x.vq;
                  terminal = (read_of x ds).2;
                })
                r))
            q,
  )
