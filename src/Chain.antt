-- ===== src/Chain.antt =====
-- Descriptor chains: `push_descriptor` and `process_descriptor_chain_buf` of tools/virtio/virtio.c, with
-- the buffers of `struct VirtioBufConfig` and `struct VirtioRequest`. The guest does not write the
-- descriptors while they are read.
pub mod Flat
pub mod Collect
pub mod Sound
pub mod Complete
pub mod Cases
pub mod Allocating
use hvisor_tool.Base.{
  ℕ, zero, suc, ◌+◌, ◌-◌, ◌*◌, ◌/◌, ◌^◌, Bool, ◌≡◌, refl, List, [], ◌∷◌, ◌++◌, leb, ◌==◌,
  if◌then◌else◌, length, test_bit,
}
use hvisor_tool.Memory.{Memory, null, VirtqDesc, desc_at, next_bit, write_bit, indirect_bit}
use hvisor_tool.ZoneMemory.{ZoneMem, get_virt_addr}
use hvisor_tool.Queue.{VirtQueue, advance_avail}

-- A result, the error return -1, or a read through NULL.
pub data Outcome {ℓ} (A : Type ℓ) : Type ℓ where
  ok : A → Outcome A
  failed : Outcome A
  fault : Outcome A

infixl 5 ◌>>=◌
abbrev pub ◌>>=◌ {ℓ κ} : {A : Type ℓ} {B : Type κ} → Outcome A → (A → Outcome B) → Outcome B
ok a >>= f = f a
failed >>= f = failed
fault >>= f = fault

-- `struct iovec`
pub record Iovec : Type 0 where
  pub iov_base : ℕ
  pub iov_len : ℕ

-- The capacities of the caller's arrays. One that the caller leaves out is 0.
pub record VirtioBufConfig : Type 0 where
  pub max_out : ℕ
  pub max_in : ℕ

-- The used parts of the arrays, `out_count` and `in_count` entries long.
pub record VirtioRequest : Type 0 where
  pub out_iov : List Iovec
  pub in_iov : List Iovec

abbrev pub no_buffers : VirtioRequest
no_buffers = record { out_iov = []; in_iov = [] }

unfoldable pub chain_len : VirtioRequest → ℕ
chain_len req = length req.out_iov + length req.in_iov

unfoldable pub read_desc : Memory → ℕ → ℕ → Outcome VirtqDesc
read_desc m table i = if table == null then fault else ok (desc_at m table i)

module _ (m : Memory) (z : ZoneMem) (zone_id : ℕ) (cfg : VirtioBufConfig) where
  unfoldable pub push_descriptor : ℕ → ℕ → ℕ → VirtioRequest → Outcome VirtioRequest
  push_descriptor flags address len req =
      let buffer : Iovec = record { iov_base = address; iov_len = len } in
      if test_bit flags write_bit
      then if leb cfg.max_in (length req.in_iov)
        then failed
        else ok (record req { in_iov = req.in_iov ++ (buffer ∷ []) })
      else if leb cfg.max_out (length req.out_iov)
      then failed
      else ok (record req { out_iov = req.out_iov ++ (buffer ∷ []) })

  -- Translate the buffer of a descriptor and record it.
  unfoldable pub add_buffer : VirtqDesc → VirtioRequest → Outcome VirtioRequest
  add_buffer d req =
      if get_virt_addr z d.addr zone_id == null
      then failed
      else push_descriptor d.flags (get_virt_addr z d.addr zone_id) d.len req

  -- The loop over an indirect table, with the rounds that are left.
  unfoldable pub walk_indirect : ℕ → ℕ → ℕ → ℕ → VirtioRequest → Outcome VirtioRequest
  walk_indirect table count zero next req = ok req
  walk_indirect table count (suc rounds) next req =
      let body : Outcome VirtioRequest = do
        d ← read_desc m table next
        req' ← add_buffer d req
        let rest = walk_indirect table count rounds d.next req'
        if test_bit d.flags next_bit then rest else ok req'
      in if leb count next then failed else body

  unfoldable pub take_desc : VirtqDesc → VirtioRequest → Outcome VirtioRequest
  take_desc d req =
      if test_bit d.flags indirect_bit
      then walk_indirect (get_virt_addr z d.addr zone_id) (d.len / 16) (d.len / 16) 0 req
      else add_buffer d req

  -- The loop over the descriptor table.
  unfoldable pub walk : ℕ → ℕ → ℕ → VirtioRequest → Outcome VirtioRequest
  walk table zero next req = ok req
  walk table (suc rounds) next req = do
    d ← read_desc m table next
    req' ← take_desc d req
    let rest = walk table rounds d.next req'
    if test_bit d.flags next_bit then rest else ok req'

  unfoldable pub process_descriptor_chain_buf : VirtQueue → ℕ → Outcome (VirtQueue × VirtioRequest)
  process_descriptor_chain_buf vq head = do
    req ← walk vq.desc_table vq.num head no_buffers
    ok (advance_avail vq, req)

pub >>=-eq-ok {ℓ κ} :
    {A : Type ℓ} {B : Type κ} (r : Outcome A) (f : A → Outcome B) {b : B}
    → (r >>= f) ≡ ok b
    → (a : A) × (r ≡ ok a) × (f a ≡ ok b)
>>=-eq-ok (ok a) f h = (a, refl, h)
>>=-eq-ok failed f h = cc
>>=-eq-ok fault f h = cc
