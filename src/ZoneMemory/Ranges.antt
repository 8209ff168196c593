-- ===== src/ZoneMemory/Ranges.antt =====
-- `range_end` and `ranges_overlap` of tools/virtio/virtio.c against ranges of addresses.
use hvisor_tool.Base.{ℕ, ◌+◌, ◌≤◌, ◌<◌, ◌≡◌, ◌↔◌, true, max, arith}
use hvisor_tool.ZoneMemory.{u64_max, ranges_overlap}

-- `x` lies in the `len` bytes from `base`, and is not the last 64-bit address.
pub record InRange (base len x : ℕ) : Type 0 where
  pub above : base ≤ x
  pub below : x < base + len
  pub not_last : x < u64_max

overlap_of_shared :
    (a la b lb x : ℕ) → InRange a la x → InRange b lb x → ranges_overlap a la b lb ≡ true
unfolding ranges_overlap
overlap_of_shared a la b lb x p q = ground arith

shared_of_overlap :
    (a la b lb : ℕ)
    → ranges_overlap a la b lb ≡ true
    → InRange a la (max a b) × InRange b lb (max a b)
unfolding ranges_overlap
shared_of_overlap a la b lb h = (ground arith, ground arith)

-- Two ranges overlap exactly when some 64-bit address but the last lies in both.
pub ranges_overlap_lem :
    (a la b lb : ℕ)
    → (ranges_overlap a la b lb ≡ true) ↔ ((x : ℕ) × InRange a la x × InRange b lb x)
ranges_overlap_lem a la b lb = (
  λ h. let (p, q) = shared_of_overlap a la b lb h in (max a b, p, q),
  λ s. overlap_of_shared a la b lb s.0 s.1 s.2,
)

pub ranges_overlap_comm : (a la b lb : ℕ) → ranges_overlap a la b lb ≡ ranges_overlap b lb a la
unfolding ranges_overlap
ranges_overlap_comm a la b lb = ground arith
