-- ===== src/Chain/Flat.antt =====
-- What a descriptor chain says, without regard to buffers and capacities: the descriptors that the
-- guest linked, indirect tables included, in order.
use hvisor_tool.Base.{
  ℕ, zero, suc, ◌/◌, ◌<◌, ◌≡◌, ◌≢◌, refl, arith, true, false, List, [], ◌∷◌, ◌++◌, if◌then◌else◌,
  test_bit,
}
use hvisor_tool.Memory.{Memory, null, VirtqDesc, desc_at, next_bit, write_bit, indirect_bit}
use hvisor_tool.ZoneMemory.{ZoneMem, get_virt_addr}
use hvisor_tool.Chain.{Iovec}

-- `InTable m table count rounds i ds`: from entry `i` of an indirect table of `count` entries the links
-- give `ds`, in at most `rounds` entries, none past the end of the table.
pub data InTable (m : Memory) (table count : ℕ) : ℕ → ℕ → List VirtqDesc → Type 0 where
  stop : {i : ℕ} → InTable m table count zero i []
  last :
      {rounds i : ℕ}
      → i < count
      → test_bit (desc_at m table i).flags next_bit ≡ false
      → InTable m table count (suc rounds) i (desc_at m table i ∷ [])
  more :
      {rounds i : ℕ} {ds : List VirtqDesc}
      → i < count
      → test_bit (desc_at m table i).flags next_bit ≡ true
      → InTable m table count rounds (desc_at m table i).next ds
      → InTable m table count (suc rounds) i (desc_at m table i ∷ ds)

-- `Visited m table rounds i j`: from entry `i` of the queue's table the links come to entry `j`, in
-- fewer than `rounds` steps.
pub data Visited (m : Memory) (table : ℕ) : ℕ → ℕ → ℕ → Type 0 where
  here : {rounds i : ℕ} → Visited m table (suc rounds) i i
  later :
      {rounds i j : ℕ}
      → test_bit (desc_at m table i).flags next_bit ≡ true
      → Visited m table rounds (desc_at m table i).next j
      → Visited m table (suc rounds) i j

module _ (m : Memory) (z : ZoneMem) (zone_id : ℕ) where
  -- What one descriptor of the queue's table stands for: itself, or the entries of its indirect table.
  pub data Expands (d : VirtqDesc) : List VirtqDesc → Type 0 where
    direct : test_bit d.flags indirect_bit ≡ false → Expands d (d ∷ [])
    indirect :
        {ds : List VirtqDesc}
        → test_bit d.flags indirect_bit ≡ true
        → InTable m (get_virt_addr z d.addr zone_id) (d.len / 16) (d.len / 16) 0 ds
        → Expands d ds

  -- From entry `i` of the queue's table the links give `ds`, in at most `rounds` entries.
  pub data Linked (table : ℕ) : ℕ → ℕ → List VirtqDesc → Type 0 where
    stop : {i : ℕ} → Linked table zero i []
    last :
        {rounds i : ℕ} {ds : List VirtqDesc}
        → test_bit (desc_at m table i).flags next_bit ≡ false
        → Expands (desc_at m table i) ds
        → Linked table (suc rounds) i ds
    more :
        {rounds i : ℕ} {ds es : List VirtqDesc}
        → test_bit (desc_at m table i).flags next_bit ≡ true
        → Expands (desc_at m table i) ds
        → Linked table rounds (desc_at m table i).next es
        → Linked table (suc rounds) i (ds ++ es)

-- The buffers of a list of descriptors, translated: those that the device reads, and those it writes.
module _ (z : ZoneMem) (zone_id : ℕ) where
  abbrev pub buffer_of : VirtqDesc → Iovec
  buffer_of d = record { iov_base = get_virt_addr z d.addr zone_id; iov_len = d.len }

  abbrev pub readable : List VirtqDesc → List Iovec
  readable [] = []
  readable (d ∷ ds) =
      if test_bit d.flags write_bit then readable ds else (buffer_of d ∷ readable ds)

  abbrev pub writable : List VirtqDesc → List Iovec
  writable [] = []
  writable (d ∷ ds) =
      if test_bit d.flags write_bit then (buffer_of d ∷ writable ds) else writable ds

  -- The buffer lies in memory of the zone.
  abbrev pub IsTranslated : VirtqDesc → Type 0
  IsTranslated d = get_virt_addr z d.addr zone_id ≢ null

  pub readable-append : (ds es : List VirtqDesc) → readable (ds ++ es) ≡ readable ds ++ readable es
  readable-append [] es = refl
  readable-append (d ∷ ds) es = ground (arith, readable-append ds es)

  pub writable-append : (ds es : List VirtqDesc) → writable (ds ++ es) ≡ writable ds ++ writable es
  writable-append [] es = refl
  writable-append (d ∷ ds) es = ground (arith, writable-append ds es)
