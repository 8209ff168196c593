-- ===== src/Chain/Cases.antt =====
-- How `process_descriptor_chain_buf` of tools/virtio/virtio.c can end.
use hvisor_tool.Base.{ℕ, ◌≡◌, refl, ◌⊎◌, inl, inr, arith}
use hvisor_tool.Memory.{Memory}
use hvisor_tool.ZoneMemory.{ZoneMem}
use hvisor_tool.Queue.{VirtQueue, advance_avail}
use hvisor_tool.Chain.{
  Outcome, ok, failed, fault, >>=-eq-ok, VirtioBufConfig, VirtioRequest, walk, no_buffers,
  process_descriptor_chain_buf,
}

module _ (m : Memory) (z : ZoneMem) (zone_id : ℕ) (cfg : VirtioBufConfig) (vq : VirtQueue)
    (head : ℕ) where
  chain-advances :
      (vq' : VirtQueue) (req : VirtioRequest)
      → process_descriptor_chain_buf m z zone_id cfg vq head ≡ ok (vq', req)
      → vq' ≡ advance_avail vq
  unfolding process_descriptor_chain_buf
  chain-advances vq' req h =
      let (r, e, e') =
        >>=-eq-ok (walk m z zone_id cfg vq.desc_table vq.num head no_buffers)
          (λ req. ok (advance_avail vq, req)) h in
      ground arith

  -- A chain is read up to a NULL pointer, or is refused, or uses one entry up.
  pub process_descriptor_chain_buf-cases :
      (process_descriptor_chain_buf m z zone_id cfg vq head ≡ fault)
      ⊎ (process_descriptor_chain_buf m z zone_id cfg vq head ≡ failed)
      ⊎ ((req : VirtioRequest) × (process_descriptor_chain_buf m z zone_id cfg vq head
            ≡ ok (advance_avail vq, req)))
  process_descriptor_chain_buf-cases =
      go (process_descriptor_chain_buf m z zone_id cfg vq head) refl
    where
      go :
          (o : Outcome (VirtQueue × VirtioRequest))
          → process_descriptor_chain_buf m z zone_id cfg vq head ≡ o
          → (process_descriptor_chain_buf m z zone_id cfg vq head ≡ fault)
            ⊎ (process_descriptor_chain_buf m z zone_id cfg vq head ≡ failed)
            ⊎ ((req : VirtioRequest) × (process_descriptor_chain_buf m z zone_id cfg vq head
                  ≡ ok (advance_avail vq, req)))
      go fault e = inl e
      go failed e = inr (inl e)
      go (ok (vq', req)) e = let same = chain-advances vq' req e in inr (inr (req, ground arith))
