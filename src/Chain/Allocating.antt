-- ===== src/Chain/Allocating.antt =====
-- `process_descriptor_chain` of tools/virtio/virtio.c, which counts the buffers of a chain, allocates an
-- array for them and stores them. Allocation succeeds, counts fit an `int`, and the guest does not write
-- the descriptors while they are read. The flags are not copied, and no entry is appended.
pub mod Laws
use hvisor_tool.Base.{
  ℕ, zero, suc, ◌+◌, ◌/◌, ◌%◌, ◌^◌, Bool, true, false, not, List, [], ◌∷◌, Option, none, some, set,
  length, ltb, ◌==◌, if◌then◌else◌, test_bit,
}
use hvisor_tool.Memory.{Memory, null, VirtqDesc, desc_at, next_bit, indirect_bit, avail_idx}
use hvisor_tool.ZoneMemory.{ZoneMem, get_virt_addr}
use hvisor_tool.Queue.{VirtQueue, advance_avail, next_avail}
use hvisor_tool.Device.{Result, returns, faults, spins, ◌>>=◌}
use hvisor_tool.Chain.{Iovec}

-- A read of a table, through NULL if it is not mapped.
unfoldable pub table_at : Memory → ℕ → ℕ → Result VirtqDesc
table_at m table i = if table == null then faults else returns (desc_at m table i)

-- `(int)vq->num` as a bound of a loop from 0 on.
unfoldable pub int_bound : ℕ → ℕ
int_bound num = if ltb (num % 2 ^ 32) (2 ^ 31) then num % 2 ^ 32 else 0

-- The entries of an array that is not initialized.
unfoldable pub malloc : ℕ → List (Option Iovec)
malloc zero = []
malloc (suc n) = none ∷ malloc n

-- What the caller gets: the length returned, `*desc_idx` and `*iov`.
pub record Chained : Type 0 where
  pub count : ℕ
  pub head : ℕ
  pub iov : List (Option Iovec)

module _ (m : Memory) (z : ZoneMem) (zone_id : ℕ) where
  -- The first loop, which counts, from the descriptor `next` and the counter `i` on, for at most so many
  -- rounds; an indirect descriptor counts for its table and not in `i`.
  unfoldable pub count_chain : ℕ → ℕ → ℕ → ℕ → ℕ → ℕ → Result ℕ
  count_chain table num zero next i chain_len = spins
  count_chain table num (suc rounds) next i chain_len =
      let body : Result ℕ = do
        d ← table_at m table next
        let indirect = test_bit d.flags indirect_bit
        let chain_len' = if indirect then chain_len + d.len / 16 else chain_len
        let i' = if indirect then i else i + 1
        let rest = count_chain table num rounds d.next i' chain_len'
        if test_bit d.flags next_bit then rest else returns (chain_len' + i')
      in if ltb i num then body else returns (chain_len + i + 1)

  unfoldable pub descriptor2iov : ℕ → VirtqDesc → List (Option Iovec) → Result (List (Option Iovec))
  descriptor2iov i d iov =
      let buffer : Iovec = record { iov_base = get_virt_addr z d.addr zone_id; iov_len = d.len } in
      if ltb i (length iov) then returns (set iov i (some buffer)) else faults

  -- The loop over an indirect table: the counter, the number of entries taken and the array afterwards.
  unfoldable pub fill_indirect :
      ℕ → ℕ → ℕ → ℕ → ℕ → List (Option Iovec) → Result (ℕ × ℕ × List (Option Iovec))
  fill_indirect table zero next i taken iov = spins
  fill_indirect table (suc rounds) next i taken iov = do
    d ← table_at m table next
    iov' ← descriptor2iov i d iov
    let rest = fill_indirect table rounds d.next (i + 1) (taken + 1) iov'
    if test_bit d.flags next_bit then rest else returns (i + 1, taken + 1, iov')

  -- The second loop, which stores. `rounds` bounds the loops over indirect tables too.
  unfoldable pub fill_chain : ℕ → ℕ → ℕ → ℕ → ℕ → List (Option Iovec) → Result (List (Option Iovec))
  fill_chain table chain_len zero next i iov = spins
  fill_chain table chain_len (suc rounds) next i iov =
      let body : Result (List (Option Iovec)) = do
        d ← table_at m table next
        let direct : Result (List (Option Iovec)) = do
          iov' ← descriptor2iov i d iov
          fill_chain table chain_len rounds d.next (i + 1) iov'
        let indirect : Result (List (Option Iovec)) = do
          (i', taken, iov') ← fill_indirect (get_virt_addr z d.addr zone_id) rounds 0 i 0 iov
          let rest = fill_chain table chain_len rounds d.next (i' + 1) iov'
          if taken == d.len / 16 then rest else returns iov'
        if test_bit d.flags indirect_bit then indirect else direct
      in if ltb i chain_len then body else returns iov

  -- `none` where there is no new request.
  unfoldable pub process_descriptor_chain : ℕ → VirtQueue → Result (VirtQueue × Option Chained)
  process_descriptor_chain rounds vq =
      let head = next_avail m vq in
      let chain : Result (VirtQueue × Option Chained) = do
        count ← count_chain vq.desc_table (int_bound vq.num) rounds head 0 0
        iov ← fill_chain vq.desc_table count rounds head 0 (malloc count)
        returns (advance_avail vq, some (record { count = count; head = head; iov = iov }))
      in if vq.avail_ring == null
        then faults
        else if vq.last_avail_idx == avail_idx m vq.avail_ring
        then returns (vq, none)
        else chain
