-- ===== src/ZoneMemory/Translate.antt =====
-- What `get_virt_addr` of tools/virtio/virtio.c finds.
use hvisor_tool.Base.{
  ℕ, ◌+◌, ◌-◌, ◌%◌, ◌^◌, ◌≤◌, ◌<◌, ◌≡◌, ◌≢◌, refl, Bool, true, false, List, [], ◌∷◌, All, arith,
  ltb, leb, ◌&&◌, Bool-cases, inl, inr, ◌↔◌, ◌∙◌, sym,
}
use hvisor_tool.Memory.{null}
use hvisor_tool.ZoneMemory.{ZoneMem, ZoneMemRegion, max_zones, find_virt_addr, get_virt_addr}

-- A region as the kernel maps it: neither side runs past the end of the address space, and the
-- mapping does not begin at NULL.
pub record IsMapped (r : ZoneMemRegion) : Type 0 where
  pub guest_fits : r.zonex_ipa + r.mem_size < 2 ^ 64
  pub host_fits : r.virt_addr + r.mem_size ≤ 2 ^ 64
  pub host_nonnull : 0 < r.virt_addr

-- The guest address `ipa` lies in the region.
pub record Holds (r : ZoneMemRegion) (ipa : ℕ) : Type 0 where
  pub above : r.zonex_ipa ≤ ipa
  pub below : ipa < r.zonex_ipa + r.mem_size

-- A region of the list that holds `ipa`, and the host address that corresponds to it.
pub data Translates (ipa : ℕ) : List ZoneMemRegion → ℕ → Type 0 where
  here :
      {r : ZoneMemRegion} {rs : List ZoneMemRegion} {host : ℕ}
      → Holds r ipa
      → host ≡ r.virt_addr + (ipa - r.zonex_ipa)
      → Translates ipa (r ∷ rs) host
  there :
      {r : ZoneMemRegion} {rs : List ZoneMemRegion} {host : ℕ}
      → Translates ipa rs host
      → Translates ipa (r ∷ rs) host

-- The test of the loop.
abbrev hits : ZoneMemRegion → ℕ → Bool
hits r ipa = leb r.zonex_ipa ipa && ltb ipa ((r.zonex_ipa + r.mem_size) % 2 ^ 64)

Holds-hits : (r : ZoneMemRegion) (ipa : ℕ) → IsMapped r → hits r ipa ≡ true → Holds r ipa
Holds-hits r ipa m h = ground arith

hits_of_Holds : (r : ZoneMemRegion) (ipa : ℕ) → IsMapped r → Holds r ipa → hits r ipa ≡ true
hits_of_Holds r ipa m h = ground arith

host_address :
    (r : ZoneMemRegion) (ipa : ℕ)
    → IsMapped r
    → Holds r ipa
    → (ipa - r.zonex_ipa + r.virt_addr) % 2 ^ 64 ≡ r.virt_addr + (ipa - r.zonex_ipa)
host_address r ipa m h = omega arith

find_virt_addr-Translates :
    (rs : List ZoneMemRegion) (ipa : ℕ)
    → All IsMapped rs
    → find_virt_addr rs ipa ≢ null
    → Translates ipa rs (find_virt_addr rs ipa)
unfolding find_virt_addr
find_virt_addr-Translates [] ipa v h = absurd (h refl)
find_virt_addr-Translates (r ∷ rs) ipa v h = elim (Bool-cases (hits r ipa)) [
  | inl e ↦ rw e (here (Holds-hits r ipa v.0 e) (host_address r ipa v.0 (Holds-hits r ipa v.0 e)))
  | inr e ↦ rw e (there (find_virt_addr-Translates rs ipa v.1 (rw e at h)))
]

-- No guest address lies in two regions.
abbrev pub Apart : ZoneMemRegion → ZoneMemRegion → Type 0
Apart r s = (x : ℕ) → Holds r x → Holds s x → ⊥

abbrev pub AllApart : List ZoneMemRegion → Type 0
AllApart [] = Unit
AllApart (r ∷ rs) = All (Apart r) rs × AllApart rs

Translates-Apart :
    {ipa host : ℕ} (r : ZoneMemRegion) {rs : List ZoneMemRegion}
    → All (Apart r) rs
    → Translates ipa rs host
    → ¬ (Holds r ipa)
Translates-Apart {ipa} r a (here h e) k = a.0 ipa k h
Translates-Apart r a (there t) k = Translates-Apart r a.1 t k

find_virt_addr_of_Translates :
    {ipa host : ℕ} (rs : List ZoneMemRegion)
    → All IsMapped rs
    → AllApart rs
    → Translates ipa rs host
    → find_virt_addr rs ipa ≡ host
unfolding find_virt_addr
find_virt_addr_of_Translates [] v a t = elim t [ ]
find_virt_addr_of_Translates {ipa} (r ∷ rs) v a (here h e) =
    rw (hits_of_Holds r ipa v.0 h) (host_address r ipa v.0 h ∙ sym e)
find_virt_addr_of_Translates {ipa} (r ∷ rs) v a (there t) = elim (Bool-cases (hits r ipa)) [
  | inl e ↦ absurd (Translates-Apart r a.0 t (Holds-hits r ipa v.0 e))
  | inr e ↦ rw e (find_virt_addr_of_Translates rs v.1 a.1 t)
]

-- For a zone below MAX_ZONES whose regions are mapped and hold no guest address twice, and a host
-- address other than NULL: `get_virt_addr` returns it exactly when some region of the zone holds the
-- guest address and maps it there.
pub get_virt_addr_lem :
    (z : ZoneMem) (zone_id ipa host : ℕ)
    → zone_id < max_zones
    → All IsMapped (z zone_id)
    → AllApart (z zone_id)
    → host ≢ null
    → (get_virt_addr z ipa zone_id ≡ host) ↔ Translates ipa (z zone_id) host
unfolding get_virt_addr
get_virt_addr_lem z zone_id ipa host lt v a ne = rw (lt_zones zone_id lt) (
  λ e. rw e at (find_virt_addr-Translates (z zone_id) ipa v (λ q. ne (sym e ∙ q))),
  λ t. find_virt_addr_of_Translates (z zone_id) v a t,
)
  where
    lt_zones : (i : ℕ) → i < max_zones → leb max_zones i ≡ false
    lt_zones i h = ground arith
