-- ===== src/Chain/Complete.antt =====
-- Which descriptor chains `process_descriptor_chain_buf` of tools/virtio/virtio.c accepts.
use hvisor_tool.Base.{
  ℕ, zero, suc, ◌+◌, ◌/◌, ◌≤◌, ◌<◌, ◌≡◌, ◌≢◌, refl, sym, ap, true, List, [], ◌∷◌, ◌++◌, append-nil,
  append_assoc, length, length-append, All, All-left, All-right, arith, test_bit,
}
use hvisor_tool.Memory.{Memory, null, VirtqDesc, desc_at, indirect_bit}
use hvisor_tool.ZoneMemory.{ZoneMem, get_virt_addr}
use hvisor_tool.Queue.{VirtQueue, advance_avail}
use hvisor_tool.Chain.{
  ok, fault, VirtioBufConfig, VirtioRequest, no_buffers, read_desc, push_descriptor, add_buffer,
  walk_indirect, take_desc, walk, process_descriptor_chain_buf,
}
use hvisor_tool.Chain.Flat.{
  InTable, Visited, Expands, Linked, readable, writable, readable-append, writable-append,
  IsTranslated,
}

module _ (m : Memory) (z : ZoneMem) (zone_id : ℕ) (cfg : VirtioBufConfig) where
  abbrev extend : VirtioRequest → List VirtqDesc → VirtioRequest
  extend req ds = record {
    out_iov = req.out_iov ++ readable z zone_id ds;
    in_iov = req.in_iov ++ writable z zone_id ds;
  }

  -- There is room for the buffers of `ds`.
  pub record HasRoom (req : VirtioRequest) (ds : List VirtqDesc) : Type 0 where
    pub out : length req.out_iov + length (readable z zone_id ds) ≤ cfg.max_out
    pub written : length req.in_iov + length (writable z zone_id ds) ≤ cfg.max_in

  extend-nil : (req : VirtioRequest) → extend req [] ≡ req
  extend-nil req = ground (arith, append-nil req.out_iov, append-nil req.in_iov)

  extend-append :
      (req : VirtioRequest) (ds es : List VirtqDesc)
      → extend (extend req ds) es ≡ extend req (ds ++ es)
  extend-append req ds es = ground (
    arith,
    append_assoc req.out_iov (readable z zone_id ds) (readable z zone_id es),
    append_assoc req.in_iov (writable z zone_id ds) (writable z zone_id es),
    readable-append z zone_id ds es,
    writable-append z zone_id ds es,
  )

  HasRoom-left :
      (req : VirtioRequest) (ds es : List VirtqDesc) → HasRoom req (ds ++ es) → HasRoom req ds
  HasRoom-left req ds es r = record {
    out = omega (
      arith,
      r.out,
      ap length (readable-append z zone_id ds es),
      length-append (readable z zone_id ds) (readable z zone_id es),
    );
    written = omega (
      arith,
      r.written,
      ap length (writable-append z zone_id ds es),
      length-append (writable z zone_id ds) (writable z zone_id es),
    );
  }

  HasRoom-right :
      (req : VirtioRequest) (ds es : List VirtqDesc)
      → HasRoom req (ds ++ es)
      → HasRoom (extend req ds) es
  HasRoom-right req ds es r = record {
    out = omega (
      arith,
      r.out,
      ap length (readable-append z zone_id ds es),
      length-append (readable z zone_id ds) (readable z zone_id es),
      length-append req.out_iov (readable z zone_id ds),
    );
    written = omega (
      arith,
      r.written,
      ap length (writable-append z zone_id ds es),
      length-append (writable z zone_id ds) (writable z zone_id es),
      length-append req.in_iov (writable z zone_id ds),
    );
  }

  add_buffer-extend :
      (d : VirtqDesc) (req : VirtioRequest)
      → IsTranslated z zone_id d
      → HasRoom req (d ∷ [])
      → add_buffer m z zone_id cfg d req ≡ ok (extend req (d ∷ []))
  unfolding add_buffer push_descriptor
  add_buffer-extend d req t r = ground (arith, append-nil req.out_iov, append-nil req.in_iov)

  walk_indirect-extend :
      (table count rounds i : ℕ) (ds : List VirtqDesc) (req : VirtioRequest)
      → table ≢ null
      → InTable m table count rounds i ds
      → All (IsTranslated z zone_id) ds
      → HasRoom req ds
      → walk_indirect m z zone_id cfg table count rounds i req ≡ ok (extend req ds)
  unfolding walk_indirect read_desc
  walk_indirect-extend table count zero i ds req mapped InTable.stop t r =
      ap ok (sym (extend-nil req))
  walk_indirect-extend table count (suc rounds) i ds req mapped (InTable.last below e) t r =
      ground (arith, add_buffer-extend (desc_at m table i) req t.0 r)
  walk_indirect-extend table count (suc rounds) i ds req mapped
        (InTable.more {ds = es} below e rest) t r =
      let d : VirtqDesc = desc_at m table i in
      ground (
        arith,
        add_buffer-extend d req t.0 (HasRoom-left req (d ∷ []) es r),
        walk_indirect-extend table count rounds d.next es (extend req (d ∷ [])) mapped rest t.1
            (HasRoom-right req (d ∷ []) es r),
        extend-append req (d ∷ []) es,
      )

  -- An indirect table with an entry to read is mapped.
  abbrev pub TableMapped : VirtqDesc → Type 0
  TableMapped d =
      test_bit d.flags indirect_bit ≡ true → 0 < d.len / 16 → get_virt_addr z d.addr zone_id ≢ null

  indirect_rounds-extend :
      (d : VirtqDesc) (rounds : ℕ) (ds : List VirtqDesc) (req : VirtioRequest)
      → rounds ≡ d.len / 16
      → TableMapped d
      → test_bit d.flags indirect_bit ≡ true
      → InTable m (get_virt_addr z d.addr zone_id) (d.len / 16) rounds 0 ds
      → All (IsTranslated z zone_id) ds
      → HasRoom req ds
      → walk_indirect m z zone_id cfg (get_virt_addr z d.addr zone_id) (d.len / 16) rounds 0 req
        ≡ ok (extend req ds)
  unfolding walk_indirect
  indirect_rounds-extend d zero ds req n mapped e InTable.stop t r = ap ok (sym (extend-nil req))
  indirect_rounds-extend d (suc rounds) ds req n mapped e inside t r =
      walk_indirect-extend (get_virt_addr z d.addr zone_id) (d.len / 16) (suc rounds) 0 ds req
        (mapped e (omega arith)) inside t r

  take_desc-extend :
      (d : VirtqDesc) (ds : List VirtqDesc) (req : VirtioRequest)
      → TableMapped d
      → Expands m z zone_id d ds
      → All (IsTranslated z zone_id) ds
      → HasRoom req ds
      → take_desc m z zone_id cfg d req ≡ ok (extend req ds)
  unfolding take_desc
  take_desc-extend d ds req mapped (Expands.direct e) t r = rw e (add_buffer-extend d req t.0 r)
  take_desc-extend d ds req mapped (Expands.indirect e inside) t r =
      rw e (indirect_rounds-extend d (d.len / 16) ds req refl mapped e inside t r)

  walk-extend :
      (table rounds i : ℕ) (ds : List VirtqDesc) (req : VirtioRequest)
      → table ≢ null
      → ((j : ℕ) → Visited m table rounds i j → TableMapped (desc_at m table j))
      → Linked m z zone_id table rounds i ds
      → All (IsTranslated z zone_id) ds
      → HasRoom req ds
      → walk m z zone_id cfg table rounds i req ≡ ok (extend req ds)
  unfolding walk read_desc
  walk-extend table zero i ds req mapped tables Linked.stop t r = ap ok (sym (extend-nil req))
  walk-extend table (suc rounds) i ds req mapped tables (Linked.last e x) t r =
      ground (arith, take_desc-extend (desc_at m table i) ds req (tables i Visited.here) x t r)
  walk-extend table (suc rounds) i ds req mapped tables (Linked.more {ds = xs} {es = es} e x rest) t
        r =
      let d : VirtqDesc = desc_at m table i in
      ground (
        arith,
        take_desc-extend d xs req (tables i Visited.here) x
            (All-left (IsTranslated z zone_id) xs es t) (HasRoom-left req xs es r),
        walk-extend table rounds d.next es (extend req xs) mapped
            (λ j v. tables j (Visited.later e v)) rest (All-right (IsTranslated z zone_id) xs es t)
            (HasRoom-right req xs es r),
        extend-append req xs es,
      )

  -- If the queue's table is mapped, and so is every indirect table that an entry on the way from `head`
  -- names, then a chain that links `ds` from `head`, whose buffers all lie in the zone's memory and fit the caller's
  -- arrays, is accepted: the request is exactly the translated buffers of `ds`, split by direction,
  -- and the queue consumes one available entry.
  pub process_descriptor_chain_buf_complete :
      (vq : VirtQueue) (head : ℕ) (ds : List VirtqDesc)
      → vq.desc_table ≢ null
      → ((j : ℕ) → Visited m vq.desc_table vq.num head j → TableMapped (desc_at m vq.desc_table j))
      → Linked m z zone_id vq.desc_table vq.num head ds
      → All (IsTranslated z zone_id) ds
      → length (readable z zone_id ds) ≤ cfg.max_out
      → length (writable z zone_id ds) ≤ cfg.max_in
      → process_descriptor_chain_buf m z zone_id cfg vq head
        ≡ ok (
          advance_avail vq,
          record { out_iov = readable z zone_id ds; in_iov = writable z zone_id ds },
        )
  unfolding process_descriptor_chain_buf
  process_descriptor_chain_buf_complete vq head ds mapped tables linked t out written = rw (
      walk-extend vq.desc_table vq.num head ds no_buffers mapped tables linked t
        (record { out = omega arith; written = omega arith }))

  indirect_unmapped_rounds :
      (d : VirtqDesc) (rounds : ℕ) (req : VirtioRequest)
      → 0 < rounds
      → 0 < d.len / 16
      → walk_indirect m z zone_id cfg null (d.len / 16) rounds 0 req ≡ fault
  unfolding walk_indirect read_desc
  indirect_unmapped_rounds d zero req h k = absurd (omega arith)
  indirect_unmapped_rounds d (suc rounds) req h k = ground arith

  walk_unmapped :
      (table rounds head : ℕ) (req : VirtioRequest)
      → table ≢ null
      → 0 < rounds
      → let d = desc_at m table head in
        test_bit d.flags indirect_bit ≡ true
        → get_virt_addr z d.addr zone_id ≡ null
        → 16 ≤ d.len
        → walk m z zone_id cfg table rounds head req ≡ fault
  unfolding walk read_desc take_desc
  walk_unmapped table zero head req mapped h e u long = absurd (omega arith)
  walk_unmapped table (suc rounds) head req mapped h e u long =
      let d : VirtqDesc = desc_at m table head in
      ground (arith, indirect_unmapped_rounds d (d.len / 16) req (omega arith) (omega arith))

  -- A chain whose first descriptor names an indirect table of at least one entry outside the zone's
  -- memory makes `process_descriptor_chain_buf` read through NULL.
  pub indirect_unmapped_faults :
      (vq : VirtQueue) (head : ℕ)
      → vq.desc_table ≢ null
      → 0 < vq.num
      → let d = desc_at m vq.desc_table head in
        test_bit d.flags indirect_bit ≡ true
        → get_virt_addr z d.addr zone_id ≡ null
        → 16 ≤ d.len
        → process_descriptor_chain_buf m z zone_id cfg vq head ≡ fault
  unfolding process_descriptor_chain_buf
  indirect_unmapped_faults vq head mapped h e u long =
      rw (walk_unmapped vq.desc_table vq.num head no_buffers mapped h e u long)
