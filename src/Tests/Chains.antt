-- ===== src/Tests/Chains.antt =====
-- Runs of the descriptor chains of tools/virtio/virtio.c.
use hvisor_tool.Base.{ℕ, ◌+◌, ◌*◌, ◌≡◌, ◌≢◌, refl, ◌≤◌, arith, List, [], ◌∷◌, All}
use hvisor_tool.Memory.{VirtqDesc, desc_at, load16, load32, load64, load8}
use hvisor_tool.ZoneMemory.{get_virt_addr}
use hvisor_tool.Queue.{advance_avail, UsedElem, update_used_ring, update_used_ring_batch}
use hvisor_tool.Queue.Used.{update_each, update_used_ring_batch_lem, update_used_ring_lem}
use hvisor_tool.Chain.{
  ok, fault, VirtioBufConfig, VirtioRequest, process_descriptor_chain_buf, walk, take_desc,
  add_buffer, push_descriptor, read_desc,
}
use hvisor_tool.Chain.Flat.{Visited, Linked, Expands, readable, writable, IsTranslated}
use hvisor_tool.Chain.Sound.{process_descriptor_chain_buf_sound}
use hvisor_tool.Chain.Complete.{
  TableMapped, process_descriptor_chain_buf_complete, indirect_unmapped_faults,
}
use hvisor_tool.Tests.{one_buffer, bad_indirect, zones, queue}

abbrev cfg : VirtioBufConfig
cfg = record { max_out = 2; max_in = 2 }

abbrev request : VirtioRequest
request = record { out_iov = record { iov_base = 0x10010; iov_len = 16 } ∷ []; in_iov = [] }

one_buffer_runs :
    process_descriptor_chain_buf one_buffer zones 1 cfg queue 0 ≡ ok (advance_avail queue, request)
unfolding process_descriptor_chain_buf walk take_desc add_buffer push_descriptor read_desc desc_at
    load64 load32 load16 load8 get_virt_addr
one_buffer_runs = refl

process_descriptor_chain_buf_sound_example :
    (advance_avail queue ≡ advance_avail queue)
    × (1 ≤ 2)
    × (0 ≤ 2)
    × ((ds : List VirtqDesc) × Linked one_buffer zones 1 4096 4 0 ds
        × (request.out_iov ≡ readable zones 1 ds)
        × (request.in_iov ≡ writable zones 1 ds)
        × All (IsTranslated zones 1) ds)
process_descriptor_chain_buf_sound_example =
    process_descriptor_chain_buf_sound one_buffer zones 1 cfg queue (advance_avail queue) 0 request
      one_buffer_runs

abbrev first : VirtqDesc
first = desc_at one_buffer 4096 0

no_tables :
    (j : ℕ)
    → Visited one_buffer 4096 4 0 j
    → TableMapped one_buffer zones 1 cfg (desc_at one_buffer 4096 j)
unfolding desc_at load16 load8
no_tables j v h = absurd (ground arith)

first_linked : Linked one_buffer zones 1 4096 4 0 (first ∷ [])
unfolding desc_at load16 load8
first_linked = Linked.last refl (Expands.direct refl)

first-IsTranslated : All (IsTranslated zones 1) (first ∷ [])
unfolding desc_at load64 load32 load16 load8 get_virt_addr
first-IsTranslated = (omega arith, tt)

process_descriptor_chain_buf_complete_example :
    process_descriptor_chain_buf one_buffer zones 1 cfg queue 0
    ≡ ok (
      advance_avail queue,
      record { out_iov = readable zones 1 (first ∷ []); in_iov = writable zones 1 (first ∷ []) },
    )
unfolding desc_at load16 load8
process_descriptor_chain_buf_complete_example =
    process_descriptor_chain_buf_complete one_buffer zones 1 cfg queue 0 (first ∷ []) (omega arith)
      no_tables first_linked first-IsTranslated (omega arith) (omega arith)

indirect_unmapped_faults_example :
    process_descriptor_chain_buf bad_indirect zones 1 cfg queue 0 ≡ fault
unfolding desc_at load64 load32 load16 load8 get_virt_addr
indirect_unmapped_faults_example =
    indirect_unmapped_faults bad_indirect zones 1 cfg queue 0 (omega arith) (omega arith) refl refl
      (omega arith)

abbrev three_used : List UsedElem
three_used =
    record { id = 3; len = 513 } ∷ record { id = 0; len = 1 } ∷ record { id = 2; len = 9 } ∷ []

update_used_ring_batch_lem_example :
    update_used_ring_batch one_buffer queue three_used ≡ update_each one_buffer queue three_used
update_used_ring_batch_lem_example =
    update_used_ring_batch_lem queue 2 (omega arith) refl one_buffer three_used

abbrev one_used : UsedElem
one_used = record { id = 3; len = 513 }

update_used_ring_lem_example :
    let m' = update_used_ring one_buffer queue one_used in
    (load32 m' (12288 + 4 + 8 * 0) ≡ 3)
    × (load32 m' (12288 + 4 + 8 * 0 + 4) ≡ 513)
    × ((j : ℕ)
        → j ≢ 0
        → (load32 m' (12288 + 4 + 8 * j) ≡ load32 one_buffer (12288 + 4 + 8 * j))
          × (load32 m' (12288 + 4 + 8 * j + 4) ≡ load32 one_buffer (12288 + 4 + 8 * j + 4)))
    × (load16 m' 12288 ≡ 0)
    × (load16 m' 12290 ≡ 1)
unfolding load16 load8
update_used_ring_lem_example = update_used_ring_lem one_buffer queue one_used 2 (omega arith) refl
