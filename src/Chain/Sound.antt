-- ===== src/Chain/Sound.antt =====
-- What a successful walk of a descriptor chain in tools/virtio/virtio.c has collected.
use hvisor_tool.Base.{
  ℕ, zero, suc, ◌/◌, ◌≤◌, ◌<◌, ◌≡◌, subst, List, [], ◌∷◌, ◌++◌, length, All, arith, test_bit,
  if◌then◌else◌, Bool-cases, inl, inr,
}
use hvisor_tool.Memory.{Memory, VirtqDesc, desc_at, next_bit, indirect_bit}
use hvisor_tool.ZoneMemory.{ZoneMem, get_virt_addr}
use hvisor_tool.Queue.{VirtQueue, advance_avail}
use hvisor_tool.Chain.{
  ok, VirtioBufConfig, VirtioRequest, no_buffers, read_desc, add_buffer, walk_indirect, take_desc,
  walk, process_descriptor_chain_buf,
}
use hvisor_tool.Chain.Flat.{InTable, Expands, Linked, readable, writable, IsTranslated}
use hvisor_tool.Chain.Collect.{Collected, Collected-nil, Collected-trans, add_buffer-Collected}

read_desc-eq-ok :
    (m : Memory) (table i : ℕ) (d : VirtqDesc) → read_desc m table i ≡ ok d → desc_at m table i ≡ d
unfolding read_desc
read_desc-eq-ok m table i d h = ground arith

module _ (m : Memory) (z : ZoneMem) (zone_id : ℕ) (cfg : VirtioBufConfig) where
  -- The descriptors behind a result, if it is one.
  abbrev Gathered : (List VirtqDesc → Type 0) → VirtioRequest → VirtioRequest → Type 0
  Gathered Shape req req' = (ds : List VirtqDesc) × Shape ds × Collected m z zone_id cfg req ds req'

  Collected-cons :
      (d : VirtqDesc) {a b c : VirtioRequest} (ds : List VirtqDesc)
      → Collected m z zone_id cfg a (d ∷ []) b
      → Collected m z zone_id cfg b ds c
      → Collected m z zone_id cfg a (d ∷ ds) c
  Collected-cons d ds p q = Collected-trans m z zone_id cfg (d ∷ []) ds p q

  -- One round of a walk that succeeds: the entry is in the table, its buffer is added, and the walk
  -- goes on or ends.
  walk_indirect_round :
      (table count rounds next : ℕ) (req req' : VirtioRequest)
      → walk_indirect m z zone_id cfg table count (suc rounds) next req ≡ ok req'
      → let d = desc_at m table next in
        (next < count)
        × ((req1 : VirtioRequest) × (add_buffer m z zone_id cfg d req ≡ ok req1)
            × ((if test_bit d.flags next_bit
                  then walk_indirect m z zone_id cfg table count rounds d.next req1
                  else ok req1)
                ≡ ok req'))
  unfolding walk_indirect read_desc
  walk_indirect_round table count rounds next req req' h = ground arith

  take_round :
      (table rounds next : ℕ) (req req' : VirtioRequest)
      → walk m z zone_id cfg table (suc rounds) next req ≡ ok req'
      → let d = desc_at m table next in
        (req1 : VirtioRequest) × (take_desc m z zone_id cfg d req ≡ ok req1)
        × ((if test_bit d.flags next_bit
              then walk m z zone_id cfg table rounds d.next req1
              else ok req1)
            ≡ ok req')
  unfolding walk read_desc
  take_round table rounds next req req' h = ground arith

  Collected-done :
      {req req' : VirtioRequest} → ok req ≡ ok req' → Collected m z zone_id cfg req [] req'
  Collected-done {req} {req'} h =
      subst (Collected m z zone_id cfg req []) (the_same h) (Collected-nil m z zone_id cfg req)
    where
      the_same : {a b : VirtioRequest} → ok a ≡ ok b → a ≡ b
      the_same e = cc

  walk_indirect-Gathered :
      (table count rounds next : ℕ) (req req' : VirtioRequest)
      → walk_indirect m z zone_id cfg table count rounds next req ≡ ok req'
      → Gathered (InTable m table count rounds next) req req'
  unfolding walk_indirect
  walk_indirect-Gathered table count zero next req req' h = ([], InTable.stop, Collected-done h)
  walk_indirect-Gathered table count (suc rounds) next req req' h =
      let d : VirtqDesc = desc_at m table next in
      let (below, round) = walk_indirect_round table count rounds next req req' h in
      let (req1, add, rest) = round in
      let one : Collected m z zone_id cfg req (d ∷ []) req1 =
        add_buffer-Collected m z zone_id cfg d req req1 add in
      elim (Bool-cases (test_bit d.flags next_bit)) [
        | inl e ↦
            let (ds, linked, more) =
              walk_indirect-Gathered table count rounds d.next req1 req' (rw e at rest) in
            (d ∷ ds, InTable.more below e linked, Collected-cons d ds one more)
        | inr e ↦
            (d ∷ [], InTable.last below e, Collected-cons d [] one (Collected-done (rw e at rest)))
      ]

  take_desc-Gathered :
      (d : VirtqDesc) (req req' : VirtioRequest)
      → take_desc m z zone_id cfg d req ≡ ok req'
      → Gathered (Expands m z zone_id d) req req'
  unfolding take_desc
  take_desc-Gathered d req req' h = elim (Bool-cases (test_bit d.flags indirect_bit)) [
    | inl e ↦
        let (ds, inside, got) =
          walk_indirect-Gathered (get_virt_addr z d.addr zone_id) (d.len / 16) (d.len / 16) 0 req
            req' (rw e at h) in
        (ds, Expands.indirect e inside, got)
    | inr e ↦
        (d ∷ [], Expands.direct e, add_buffer-Collected m z zone_id cfg d req req' (rw e at h))
  ]

  walk-Gathered :
      (table rounds next : ℕ) (req req' : VirtioRequest)
      → walk m z zone_id cfg table rounds next req ≡ ok req'
      → Gathered (Linked m z zone_id table rounds next) req req'
  unfolding walk
  walk-Gathered table zero next req req' h = ([], Linked.stop, Collected-done h)
  walk-Gathered table (suc rounds) next req req' h =
      let d : VirtqDesc = desc_at m table next in
      let (req1, taken, rest) = take_round table rounds next req req' h in
      let (ds, expands, first) = take_desc-Gathered d req req1 taken in
      elim (Bool-cases (test_bit d.flags next_bit)) [
        | inl e ↦
            let (es, linked, more) = walk-Gathered table rounds d.next req1 req' (rw e at rest) in
            (
              ds ++ es,
              Linked.more e expands linked,
              Collected-trans m z zone_id cfg ds es first more,
            )
        | inr e ↦ (
          ds,
          Linked.last e expands,
          subst (Collected m z zone_id cfg req ds) (same_request (rw e at rest)) first,
        )
      ]
    where
      same_request : {a b : VirtioRequest} → ok a ≡ ok b → a ≡ b
      same_request e = cc

  -- A chain that `process_descriptor_chain_buf` accepts: the guest linked some descriptors `ds` within
  -- `num` entries of its table, indirect tables expanded. The request holds, in their order, the
  -- buffers of those that the device only reads as its `out_iov` and of those that it writes as its
  -- `in_iov`, each translated to memory of the zone, and neither array is longer than the caller's.
  -- The queue has consumed one available entry and is otherwise unchanged.
  pub process_descriptor_chain_buf_sound :
      (vq vq' : VirtQueue) (head : ℕ) (req : VirtioRequest)
      → process_descriptor_chain_buf m z zone_id cfg vq head ≡ ok (vq', req)
      → (vq' ≡ advance_avail vq)
        × (length req.out_iov ≤ cfg.max_out)
        × (length req.in_iov ≤ cfg.max_in)
        × ((ds : List VirtqDesc) × Linked m z zone_id vq.desc_table vq.num head ds
            × (req.out_iov ≡ readable z zone_id ds)
            × (req.in_iov ≡ writable z zone_id ds)
            × All (IsTranslated z zone_id) ds)
  process_descriptor_chain_buf_sound vq vq' head req h =
      let (walked, moved) = accepted vq vq' head req h in
      let (ds, linked, got) = walk-Gathered vq.desc_table vq.num head no_buffers req walked in
      (
        moved,
        got.out_fits (omega arith),
        got.in_fits (omega arith),
        (ds, linked, got.out, got.written, got.translated),
      )
    where
      accepted :
          (vq vq' : VirtQueue) (head : ℕ) (req : VirtioRequest)
          → process_descriptor_chain_buf m z zone_id cfg vq head ≡ ok (vq', req)
          → (walk m z zone_id cfg vq.desc_table vq.num head no_buffers ≡ ok req)
            × (vq' ≡ advance_avail vq)
      accepted vq vq' head req e = unfold process_descriptor_chain_buf in (ground arith)
