-- ===== src/Memory/Laws.antt =====
-- What a load sees after a store.
use hvisor_tool.Base.{ℕ, ◌+◌, ◌%◌, ◌^◌, ◌≤◌, ◌<◌, ◌≡◌, ◌⊎◌, fun_ext, arith}
use hvisor_tool.Memory.{Memory, load16, load32, store16, store32}

pub load16-lt : (m : Memory) (a : ℕ) → load16 m a < 2 ^ 16
unfolding load16
load16-lt m a = omega arith

pub load32-lt : (m : Memory) (a : ℕ) → load32 m a < 2 ^ 32
unfolding load32
load32-lt m a = omega arith

-- A store changes only its own bytes.
pub store16_frame : (m : Memory) (a v x : ℕ) → (x < a) ⊎ (a + 2 ≤ x) → store16 m a v x ≡ m x
unfolding store16
store16_frame m a v x h = ground arith

pub store32_frame : (m : Memory) (a v x : ℕ) → (x < a) ⊎ (a + 4 ≤ x) → store32 m a v x ≡ m x
unfolding store32
store32_frame m a v x h = ground arith

pub load16-store16_self : (m : Memory) (a v : ℕ) → load16 (store16 m a v) a ≡ v % 2 ^ 16
unfolding load16 store16
load16-store16_self m a v = ground arith

pub load32-store32_self : (m : Memory) (a v : ℕ) → load32 (store32 m a v) a ≡ v % 2 ^ 32
unfolding load32 store32
load32-store32_self m a v = ground arith

module _ (m : Memory) (a b v : ℕ) where
  pub load16-store16_disjoint : (b + 2 ≤ a) ⊎ (a + 2 ≤ b) → load16 (store16 m a v) b ≡ load16 m b
  unfolding load16 store16
  load16-store16_disjoint h = ground arith

  pub load16-store32_disjoint : (b + 2 ≤ a) ⊎ (a + 4 ≤ b) → load16 (store32 m a v) b ≡ load16 m b
  unfolding load16
  load16-store32_disjoint h = ground (arith, store32_frame m a v b, store32_frame m a v (b + 1))

  pub load32-store16_disjoint : (b + 4 ≤ a) ⊎ (a + 2 ≤ b) → load32 (store16 m a v) b ≡ load32 m b
  unfolding load32
  load32-store16_disjoint h = ground (
    arith,
    store16_frame m a v b,
    store16_frame m a v (b + 1),
    store16_frame m a v (b + 2),
    store16_frame m a v (b + 2 + 1),
  )

  pub load32-store32_disjoint : (b + 4 ≤ a) ⊎ (a + 4 ≤ b) → load32 (store32 m a v) b ≡ load32 m b
  unfolding load32
  load32-store32_disjoint h = ground (
    arith,
    store32_frame m a v b,
    store32_frame m a v (b + 1),
    store32_frame m a v (b + 2),
    store32_frame m a v (b + 2 + 1),
  )

-- Of two stores to one place the later stands, and stores to different places commute.
pub store16-store16_self : (m : Memory) (a v w : ℕ) → store16 (store16 m a v) a w ≡ store16 m a w
unfolding store16
store16-store16_self m a v w = fun_ext λ x. ground arith

pub store32-store16_comm :
    (m : Memory) (a b v w : ℕ)
    → (b + 2 ≤ a) ⊎ (a + 4 ≤ b)
    → store32 (store16 m b w) a v ≡ store16 (store32 m a v) b w
unfolding store32
store32-store16_comm m a b v w h = fun_ext λ x. ground arith
