-- ===== src/Chain/Allocating/Laws.antt =====
-- What `process_descriptor_chain` of tools/virtio/virtio.c returns for a chain without indirect tables,
-- and what it does with an indirect table that goes on past its length.
use hvisor_tool.Base.{
  ℕ, zero, suc, ◌+◌, ◌/◌, ◌^◌, ◌≤◌, ◌<◌, ◌≡◌, ◌≢◌, refl, ap, subst, ◌∙◌, true, false, List, [], ◌∷◌,
  ◌++◌, append-nil, append_assoc, Option, none, some, set, length, length-set, length-append, ltb,
  ◌==◌, test_bit, arith,
}
use hvisor_tool.Memory.{Memory, null, VirtqDesc, desc_at, next_bit, indirect_bit, avail_idx}
use hvisor_tool.ZoneMemory.{ZoneMem, get_virt_addr}
use hvisor_tool.Queue.{VirtQueue, advance_avail, next_avail}
use hvisor_tool.Device.{returns, faults}
use hvisor_tool.Chain.{Iovec}
use hvisor_tool.Chain.Flat.{buffer_of}
use hvisor_tool.Chain.Allocating.{
  table_at, int_bound, malloc, count_chain, descriptor2iov, fill_indirect, fill_chain,
  process_descriptor_chain,
}

-- From entry `i` of a table the links give `ds`, none of them an indirect table.
pub data Direct (m : Memory) (table : ℕ) : ℕ → List VirtqDesc → Type 0 where
  last :
      {i : ℕ}
      → test_bit (desc_at m table i).flags indirect_bit ≡ false
      → test_bit (desc_at m table i).flags next_bit ≡ false
      → Direct m table i (desc_at m table i ∷ [])
  more :
      {i : ℕ} {ds : List VirtqDesc}
      → test_bit (desc_at m table i).flags indirect_bit ≡ false
      → test_bit (desc_at m table i).flags next_bit ≡ true
      → Direct m table (desc_at m table i).next ds
      → Direct m table i (desc_at m table i ∷ ds)

abbrev pub stored : List Iovec → List (Option Iovec)
stored [] = []
stored (b ∷ bs) = some b ∷ stored bs

table_at-mapped :
    (m : Memory) (table i : ℕ) → table ≢ null → table_at m table i ≡ returns (desc_at m table i)
unfolding table_at
table_at-mapped m table i h = ground arith

set-append :
    {A : Type 0} (pre : List A) (x v : A) (rest : List A)
    → set (pre ++ (x ∷ rest)) (length pre) v ≡ (pre ++ (v ∷ [])) ++ rest
set-append [] x v rest = refl
set-append (p ∷ pre) x v rest = ap (λ l. p ∷ l) (set-append pre x v rest)

length-malloc : (n : ℕ) → length (malloc n) ≡ n
unfolding malloc
length-malloc zero = refl
length-malloc (suc n) = ap suc (length-malloc n)

module _ (m : Memory) (z : ZoneMem) (zone_id : ℕ) where
  abbrev pub buffers : List VirtqDesc → List Iovec
  buffers [] = []
  buffers (d ∷ ds) = buffer_of z zone_id d ∷ buffers ds

  count_chain-Direct :
      (table num rounds i acc k : ℕ) (ds : List VirtqDesc)
      → table ≢ null
      → Direct m table i ds
      → k + length ds ≤ num
      → length ds ≤ rounds
      → count_chain m z zone_id table num rounds i k acc ≡ returns (acc + k + length ds)
  unfolding count_chain
  count_chain-Direct table num zero i acc k ds mapped (last d n) h r = absurd (omega arith)
  count_chain-Direct table num zero i acc k ds mapped (more d n c) h r = absurd (omega arith)
  count_chain-Direct table num (suc rounds) i acc k ds mapped (last d n) h r =
      let lt : ltb k num ≡ true = ground arith in
      let same : acc + (k + 1) ≡ acc + k + 1 = omega arith in
      rw (count_chain, lt, table_at-mapped m table i mapped, d, n) (ap returns same)
  count_chain-Direct table num (suc rounds) i acc k ds mapped (more d n c) h r =
      let lt : ltb k num ≡ true = ground arith in
      rw (count_chain, lt, table_at-mapped m table i mapped, d, n)
        (count_chain-Direct table num rounds _ acc (k + 1) _ mapped c (omega arith) (omega arith)
          ∙ ap returns (omega arith))

  store_next :
      (pre : List (Option Iovec)) (n : ℕ) (d : VirtqDesc)
      → descriptor2iov m z zone_id (length pre) d (pre ++ malloc (suc n))
        ≡ returns ((pre ++ (some (buffer_of z zone_id d) ∷ [])) ++ malloc n)
  unfolding descriptor2iov malloc
  store_next pre n d =
      let lt : ltb (length pre) (length (pre ++ malloc (suc n))) ≡ true =
        ground (arith, length-append pre (malloc (suc n))) in
      rw (descriptor2iov, lt)
        (ap returns (set-append pre none (some (buffer_of z zone_id d)) (malloc n)))

  fill_end :
      (table chain_len rounds i k : ℕ) (iov : List (Option Iovec))
      → chain_len ≤ k
      → fill_chain m z zone_id table chain_len (suc rounds) i k iov ≡ returns iov
  unfolding fill_chain
  fill_end table chain_len rounds i k iov h = ground arith

  fill_chain-Direct :
      (table chain_len rounds i k : ℕ) (pre : List (Option Iovec)) (ds : List VirtqDesc)
      → table ≢ null
      → Direct m table i ds
      → length pre ≡ k
      → chain_len ≡ k + length ds
      → length ds < rounds
      → fill_chain m z zone_id table chain_len rounds i k (pre ++ malloc (length ds))
        ≡ returns (pre ++ stored (buffers ds))
  unfolding fill_chain malloc
  fill_chain-Direct table chain_len zero i k pre ds mapped c e l r = absurd (omega arith)
  fill_chain-Direct table chain_len (suc zero) i k pre ds mapped (last d n) e l r =
      absurd (omega arith)
  fill_chain-Direct table chain_len (suc (suc rounds)) i k pre ds mapped (last d n) e l r =
      let lt : ltb k chain_len ≡ true = ground arith in
      let store : descriptor2iov m z zone_id k (desc_at m table i) (pre ++ malloc 1)
          ≡ returns ((pre ++ (some (buffer_of z zone_id (desc_at m table i)) ∷ [])) ++ malloc 0) =
        subst
          (λ j.
            descriptor2iov m z zone_id j (desc_at m table i) (pre ++ malloc 1)
            ≡ returns ((pre ++ (some (buffer_of z zone_id (desc_at m table i)) ∷ [])) ++ malloc 0))
          e (store_next pre 0 (desc_at m table i)) in
      rw (fill_chain, lt, table_at-mapped m table i mapped, d, store)
        (fill_end table chain_len rounds _ (k + 1) _ (omega arith) ∙ ap returns (append-nil _))
  fill_chain-Direct table chain_len (suc rounds) i k pre ds mapped (more {ds = es} d n c) e l r =
      let b : Iovec = buffer_of z zone_id (desc_at m table i) in
      let lt : ltb k chain_len ≡ true = ground arith in
      let store : descriptor2iov m z zone_id k (desc_at m table i) (pre ++ malloc (suc (length es)))
          ≡ returns ((pre ++ (some b ∷ [])) ++ malloc (length es)) =
        subst
          (λ j.
            descriptor2iov m z zone_id j (desc_at m table i) (pre ++ malloc (suc (length es)))
            ≡ returns ((pre ++ (some b ∷ [])) ++ malloc (length es)))
          e (store_next pre (length es) (desc_at m table i)) in
      rw (fill_chain, lt, table_at-mapped m table i mapped, d, store)
        (fill_chain-Direct table chain_len rounds _ (k + 1) (pre ++ (some b ∷ [])) es mapped c
            (omega (arith, length-append pre (some b ∷ []))) (omega arith) (omega arith)
          ∙ ap returns (append_assoc pre (some b ∷ []) (stored (buffers es))))

  -- If the queue's table and available ring are mapped, a chain without indirect tables, of at most as
  -- many descriptors as the queue has, is returned with
  -- its length, its head, and an array of just its translated buffers in order, and uses one entry up.
  pub process_descriptor_chain_lem :
      (rounds : ℕ) (vq : VirtQueue) (ds : List VirtqDesc)
      → vq.desc_table ≢ null
      → vq.avail_ring ≢ null
      → vq.last_avail_idx ≢ avail_idx m vq.avail_ring
      → Direct m vq.desc_table (next_avail m vq) ds
      → vq.num < 2 ^ 31
      → length ds ≤ vq.num
      → length ds < rounds
      → process_descriptor_chain m z zone_id rounds vq
        ≡ returns (
          advance_avail vq,
          some (record { count = length ds; head = next_avail m vq; iov = stored (buffers ds) }),
        )
  unfolding process_descriptor_chain int_bound
  process_descriptor_chain_lem rounds vq ds mapped ring new c small h r =
      let there_is : (vq.avail_ring == null) ≡ false = ground arith in
      let pending : (vq.last_avail_idx == avail_idx m vq.avail_ring) ≡ false = ground arith in
      let bound : int_bound vq.num ≡ vq.num = ground arith in
      let counted : count_chain m z zone_id vq.desc_table vq.num rounds (next_avail m vq) 0 0
          ≡ returns (length ds) =
        count_chain-Direct vq.desc_table vq.num rounds _ 0 0 ds mapped c (omega arith) (omega arith)
        ∙ ap returns (omega arith) in
      let filled =
        fill_chain-Direct vq.desc_table (length ds) rounds _ 0 [] ds mapped c refl (omega arith)
          r in
      rw (process_descriptor_chain, there_is, pending, bound, counted, filled) refl

-- The next `n` entries of a table, from `i` on, all link to another.
abbrev pub Runs : Memory → ℕ → ℕ → ℕ → Type 0
Runs m table i zero = Unit
Runs m table i (suc n) =
    (test_bit (desc_at m table i).flags next_bit ≡ true) × Runs m table (desc_at m table i).next n

module _ (m : Memory) (z : ZoneMem) (zone_id : ℕ) where
  fill_indirect-overlong :
      (table rounds i k taken n : ℕ) (iov : List (Option Iovec))
      → table ≢ null
      → Runs m table i n
      → length iov ≡ k + n
      → n < rounds
      → fill_indirect m z zone_id table rounds i k taken iov ≡ faults
  unfolding fill_indirect descriptor2iov
  fill_indirect-overlong table zero i k taken n iov mapped runs e r = absurd (omega arith)
  fill_indirect-overlong table (suc rounds) i k taken zero iov mapped runs e r =
      let full : ltb k (length iov) ≡ false = ground arith in
      rw (fill_indirect, table_at-mapped m table i mapped, descriptor2iov, full) refl
  fill_indirect-overlong table (suc rounds) i k taken (suc n) iov mapped (link, runs) e r =
      let free : ltb k (length iov) ≡ true = ground arith in
      let b : Iovec = buffer_of z zone_id (desc_at m table i) in
      rw (fill_indirect, table_at-mapped m table i mapped, descriptor2iov, free, link)
        (fill_indirect-overlong table rounds _ (k + 1) (taken + 1) n (set iov k (some b)) mapped
          runs (length-set iov k (some b) ∙ omega arith) (omega arith))

  -- A chain of one descriptor, which is indirect.
  count_chain-indirect :
      (table num rounds i : ℕ)
      → table ≢ null
      → 0 < num
      → test_bit (desc_at m table i).flags indirect_bit ≡ true
      → test_bit (desc_at m table i).flags next_bit ≡ false
      → count_chain m z zone_id table num (suc rounds) i 0 0
        ≡ returns ((desc_at m table i).len / 16)
  unfolding count_chain
  count_chain-indirect table num rounds i mapped some_num ind alone =
      let lt : ltb 0 num ≡ true = ground arith in
      rw (count_chain, lt, table_at-mapped m table i mapped, ind, alone) (ap returns (omega arith))

  fill_chain-overlong :
      (table rounds i n : ℕ)
      → table ≢ null
      → test_bit (desc_at m table i).flags indirect_bit ≡ true
      → get_virt_addr z (desc_at m table i).addr zone_id ≢ null
      → 0 < n
      → Runs m (get_virt_addr z (desc_at m table i).addr zone_id) 0 n
      → n < rounds
      → fill_chain m z zone_id table n (suc rounds) i 0 (malloc n) ≡ faults
  unfolding fill_chain
  fill_chain-overlong table rounds i n mapped ind there long runs r =
      let more : ltb 0 n ≡ true = ground arith in
      let over =
        fill_indirect-overlong (get_virt_addr z (desc_at m table i).addr zone_id) rounds 0 0 0 n
          (malloc n) there runs (length-malloc n ∙ omega arith) r in
      rw (fill_chain, more, table_at-mapped m table i mapped, ind, over) refl

  -- If the next chain is a single descriptor, with a mapped indirect table of at least one entry that
  -- links on past the length that the descriptor gives, then `process_descriptor_chain` writes past the
  -- end of the array that it allocated.
  pub process_descriptor_chain-overlong :
      (rounds : ℕ) (vq : VirtQueue)
      → let d : VirtqDesc = desc_at m vq.desc_table (next_avail m vq) in
        let table : ℕ = get_virt_addr z d.addr zone_id in
        vq.desc_table ≢ null
        → vq.avail_ring ≢ null
        → vq.last_avail_idx ≢ avail_idx m vq.avail_ring
        → 0 < vq.num
        → vq.num < 2 ^ 31
        → test_bit d.flags indirect_bit ≡ true
        → test_bit d.flags next_bit ≡ false
        → table ≢ null
        → 0 < d.len / 16
        → Runs m table 0 (d.len / 16)
        → d.len / 16 + 1 < rounds
        → process_descriptor_chain m z zone_id rounds vq ≡ faults
  unfolding process_descriptor_chain int_bound
  process_descriptor_chain-overlong zero vq mapped ring new some_num small ind alone there long runs
        r =
      absurd (omega arith)
  process_descriptor_chain-overlong (suc rounds) vq mapped ring new some_num small ind alone there
        long runs r =
      let there_is : (vq.avail_ring == null) ≡ false = ground arith in
      let pending : (vq.last_avail_idx == avail_idx m vq.avail_ring) ≡ false = ground arith in
      let bound : int_bound vq.num ≡ vq.num = ground arith in
      let counted =
        count_chain-indirect vq.desc_table vq.num rounds (next_avail m vq) mapped some_num ind
          alone in
      let filled =
        fill_chain-overlong vq.desc_table rounds (next_avail m vq) _ mapped ind there long runs
          (omega arith) in
      rw (process_descriptor_chain, there_is, pending, bound, counted, filled) refl
