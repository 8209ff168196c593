-- ===== src/Queue/Used.antt =====
-- What `update_used_ring` and `update_used_ring_batch` of tools/virtio/virtio.c write to the used ring.
use hvisor_tool.Base.{
  ℕ, suc, ◌+◌, ◌-◌, ◌%◌, ◌^◌, ◌≤◌, ◌<◌, ◌≡◌, ◌≢◌, ◌⊎◌, refl, sym, ap, ◌∙◌, inl, inr, bit_and,
  bit_and_mask, mod-mod_pow2, pow2_bounds, false, List, [], ◌∷◌, length, arith, ◌==◌, fun_ext,
}
use native.Mathlib.Nat.{add-zero, add_assoc}
use hvisor_tool.Memory.{Memory, load16, load32, store16, store32, used_idx, used_flags, used_elem}
use hvisor_tool.Memory.Laws.{
  store32-store16_comm, store16-store16_self, load16-store16_self, load16-store16_disjoint,
  load16-store32_disjoint, load32-store16_disjoint, load32-store32_disjoint, load32-store32_self,
}
use hvisor_tool.Queue.{
  VirtQueue, UsedElem, used_mask, inc16, write_elem, write_elems, update_used_ring,
  update_used_ring_batch,
}

-- The calls of `update_used_ring`, one for each element.
pub update_each : Memory → VirtQueue → List UsedElem → Memory
update_each m vq [] = m
update_each m vq (e ∷ es) = update_each (update_used_ring m vq e) vq es

store16-mod : (m : Memory) (a v w : ℕ) → v % 2 ^ 16 ≡ w % 2 ^ 16 → store16 m a v ≡ store16 m a w
unfolding store16
store16-mod m a v w h = fun_ext λ x. ground arith

write_elem-store16 :
    (m : Memory) (u slot v : ℕ) (e : UsedElem)
    → write_elem (store16 m (u + 2) v) u slot e ≡ store16 (write_elem m u slot e) (u + 2) v
unfolding write_elem
write_elem-store16 m u slot v e = rw (
  store32-store16_comm m (used_elem u slot) (u + 2) e.id v (omega arith),
  store32-store16_comm (store32 m (used_elem u slot) e.id) (used_elem u slot + 4) (u + 2) e.len v
      (omega arith),
)

used_idx-write_elem :
    (m : Memory) (u slot : ℕ) (e : UsedElem) → used_idx (write_elem m u slot e) u ≡ used_idx m u
unfolding write_elem
used_idx-write_elem m u slot e =
    load16-store32_disjoint (store32 m (used_elem u slot) e.id) (used_elem u slot + 4) (u + 2) e.len
      (omega arith)
    ∙ load16-store32_disjoint m (used_elem u slot) (u + 2) e.id (omega arith)

-- The queue has 2^k entries, as the virtio specification has it.
module _ (vq : VirtQueue) (k : ℕ) (k_small : k < 16) (size : vq.num ≡ 2 ^ k) where
  mask_lem : used_mask vq ≡ 2 ^ k - 1
  mask_lem =
      omega (arith, size, (pow2_bounds k 15 (omega arith)).0, (pow2_bounds k 15 (omega arith)).1)

  slot-mod : (x : ℕ) → bit_and (x % 2 ^ 16) (used_mask vq) ≡ bit_and x (used_mask vq)
  slot-mod x =
      rw mask_lem
        (bit_and_mask k (x % 2 ^ 16) ∙ mod-mod_pow2 x k 16 (omega arith) ∙ sym (bit_and_mask k x))

  -- One step, from a memory whose index field holds `w`.
  step_from :
      (m : Memory) (w : ℕ) (e : UsedElem)
      → update_used_ring (store16 m (vq.used_ring + 2) w) vq e
        ≡ store16
            (write_elem m vq.used_ring (bit_and w (used_mask vq)) e)
            (vq.used_ring + 2)
            (w + 1)
  unfolding update_used_ring
  step_from m w e =
      rw
        (
          load16-store16_self m (vq.used_ring + 2) w,
          slot-mod w,
          write_elem-store16 m vq.used_ring (bit_and w (used_mask vq)) w e,
          store16-store16_self (write_elem m vq.used_ring (bit_and w (used_mask vq)) e)
              (vq.used_ring + 2) w (inc16 (w % 2 ^ 16)),
        )
        (store16-mod _ _ _ _ (omega arith))

  update_each_from :
      (es : List UsedElem) (m : Memory) (idx i : ℕ)
      → update_each (store16 m (vq.used_ring + 2) (idx + i)) vq es
        ≡ store16
            (write_elems m vq.used_ring (used_mask vq) idx i es)
            (vq.used_ring + 2)
            (idx + i + length es)
  unfolding update_each write_elems
  update_each_from [] m idx i = ap (store16 m (vq.used_ring + 2)) (omega arith)
  update_each_from (e ∷ es) m idx i =
      let slot : ℕ = bit_and (idx + i) (used_mask vq) in
      rw (step_from m (idx + i) e, add_assoc idx i 1)
        (update_each_from es (write_elem m vq.used_ring slot e) idx (i + 1)
          ∙ ap (store16 _ (vq.used_ring + 2)) (omega arith))

  update_used_ring_cons :
      (m : Memory) (e : UsedElem)
      → update_used_ring m vq e
        ≡ store16
            (write_elem m vq.used_ring (bit_and (used_idx m vq.used_ring + 0) (used_mask vq)) e)
            (vq.used_ring + 2)
            (used_idx m vq.used_ring + 1)
  unfolding update_used_ring
  update_used_ring_cons m e =
      rw (add-zero (used_idx m vq.used_ring)) (store16-mod _ _ _ _ (omega arith))

  batch_cons :
      (m : Memory) (e : UsedElem) (es : List UsedElem)
      → update_used_ring_batch m vq (e ∷ es)
        ≡ store16
            (write_elems
              (write_elem m vq.used_ring (bit_and (used_idx m vq.used_ring + 0) (used_mask vq)) e)
              vq.used_ring
              (used_mask vq)
              (used_idx m vq.used_ring)
              1
              es)
            (vq.used_ring + 2)
            (used_idx m vq.used_ring + 1 + length es)
  unfolding update_used_ring_batch write_elems
  batch_cons m e es = rw (suc_ne (length es)) (ap (store16 _ (vq.used_ring + 2)) (omega arith))
    where
      suc_ne : (n : ℕ) → (suc n == 0) ≡ false
      suc_ne n = ground arith

  -- For a queue of 2^k entries, k at most 15: writing a batch of used elements with one update of the
  -- index leaves the same memory as calling `update_used_ring` for each of them in order.
  pub update_used_ring_batch_lem :
      (m : Memory) (es : List UsedElem) → update_used_ring_batch m vq es ≡ update_each m vq es
  unfolding update_each
  update_used_ring_batch_lem m [] = batch_nil
    where
      batch_nil : update_used_ring_batch m vq [] ≡ m
      batch_nil = unfold update_used_ring_batch in refl
  update_used_ring_batch_lem m (e ∷ es) =
      rw (batch_cons m e es, update_used_ring_cons m e)
        (sym (
          update_each_from es
            (write_elem m vq.used_ring (bit_and (used_idx m vq.used_ring + 0) (used_mask vq)) e)
            (used_idx m vq.used_ring) 1))

-- The words of the element that is written, and those beside it.
module _ (m : Memory) (u slot : ℕ) (e : UsedElem) where
  abbrev after_id : Memory
  after_id = store32 m (used_elem u slot) e.id

  load32-write_elem_id : load32 (write_elem m u slot e) (used_elem u slot) ≡ e.id % 2 ^ 32
  unfolding write_elem
  load32-write_elem_id =
      load32-store32_disjoint after_id (used_elem u slot + 4) (used_elem u slot) e.len
        (inl (omega arith))
      ∙ load32-store32_self m (used_elem u slot) e.id

  load32-write_elem_len : load32 (write_elem m u slot e) (used_elem u slot + 4) ≡ e.len % 2 ^ 32
  unfolding write_elem
  load32-write_elem_len = load32-store32_self after_id (used_elem u slot + 4) e.len

  load32-write_elem_disjoint :
      (a : ℕ)
      → (a + 4 ≤ used_elem u slot) ⊎ (used_elem u slot + 8 ≤ a)
      → load32 (write_elem m u slot e) a ≡ load32 m a
  unfolding write_elem
  load32-write_elem_disjoint a h =
      load32-store32_disjoint after_id (used_elem u slot + 4) a e.len (omega arith)
      ∙ load32-store32_disjoint m (used_elem u slot) a e.id (omega arith)

  load16-write_elem_below :
      (a : ℕ) → a + 2 ≤ used_elem u slot → load16 (write_elem m u slot e) a ≡ load16 m a
  unfolding write_elem
  load16-write_elem_below a h =
      load16-store32_disjoint after_id (used_elem u slot + 4) a e.len (omega arith)
      ∙ load16-store32_disjoint m (used_elem u slot) a e.id (omega arith)

module _ (m : Memory) (vq : VirtQueue) (e : UsedElem) (slot : ℕ)
    (at_slot : bit_and (used_idx m vq.used_ring) (used_mask vq) ≡ slot) where
  abbrev next_idx : ℕ
  next_idx = inc16 (used_idx m vq.used_ring)

  update_lem :
      update_used_ring m vq e
      ≡ store16 (write_elem m vq.used_ring slot e) (vq.used_ring + 2) next_idx
  unfolding update_used_ring
  update_lem = rw at_slot

  load32-update :
      (a : ℕ)
      → vq.used_ring + 4 ≤ a
      → load32 (update_used_ring m vq e) a ≡ load32 (write_elem m vq.used_ring slot e) a
  load32-update a h = rw update_lem (
      load32-store16_disjoint (write_elem m vq.used_ring slot e) (vq.used_ring + 2) a next_idx
        (inr (omega arith)))

  load32-update_other :
      (a : ℕ)
      → vq.used_ring + 4 ≤ a
      → (a + 4 ≤ used_elem vq.used_ring slot) ⊎ (used_elem vq.used_ring slot + 8 ≤ a)
      → load32 (update_used_ring m vq e) a ≡ load32 m a
  load32-update_other a h d =
      load32-update a h ∙ load32-write_elem_disjoint m vq.used_ring slot e a d

  flags-update : used_flags (update_used_ring m vq e) vq.used_ring ≡ used_flags m vq.used_ring
  flags-update = rw update_lem (
      load16-store16_disjoint (write_elem m vq.used_ring slot e) (vq.used_ring + 2) vq.used_ring
        next_idx (inl (omega arith))
      ∙ load16-write_elem_below m vq.used_ring slot e vq.used_ring (omega arith))

  idx-update : used_idx (update_used_ring m vq e) vq.used_ring ≡ next_idx
  idx-update = rw update_lem (load16-store16_self _ (vq.used_ring + 2) next_idx ∙ (omega arith))

-- For a queue of 2^k entries, k at most 15: `update_used_ring` stores the element at the slot that the
-- index selects modulo the size, leaves every other slot and the flags as they were, and advances the
-- 16-bit index by one.
pub update_used_ring_lem :
    (m : Memory) (vq : VirtQueue) (e : UsedElem) (k : ℕ)
    → k < 16
    → vq.num ≡ 2 ^ k
    → let m' = update_used_ring m vq e in
      let slot = used_idx m vq.used_ring % 2 ^ k in
      (load32 m' (used_elem vq.used_ring slot) ≡ e.id % 2 ^ 32)
      × (load32 m' (used_elem vq.used_ring slot + 4) ≡ e.len % 2 ^ 32)
      × ((j : ℕ)
          → j ≢ slot
          → (load32 m' (used_elem vq.used_ring j) ≡ load32 m (used_elem vq.used_ring j))
            × (load32 m' (used_elem vq.used_ring j + 4) ≡ load32 m (used_elem vq.used_ring j + 4)))
      × (used_flags m' vq.used_ring ≡ used_flags m vq.used_ring)
      × (used_idx m' vq.used_ring ≡ inc16 (used_idx m vq.used_ring))
update_used_ring_lem m vq e k small size =
    let slot : ℕ = used_idx m vq.used_ring % 2 ^ k in
    let s : bit_and (used_idx m vq.used_ring) (used_mask vq) ≡ slot =
      rw (mask_lem vq k small size) (bit_and_mask k (used_idx m vq.used_ring)) in
    (
      load32-update m vq e slot s (used_elem vq.used_ring slot) (omega arith)
          ∙ load32-write_elem_id m vq.used_ring slot e,
      load32-update m vq e slot s (used_elem vq.used_ring slot + 4) (omega arith)
          ∙ load32-write_elem_len m vq.used_ring slot e,
      λ j ne. (
        load32-update_other m vq e slot s (used_elem vq.used_ring j) (omega arith) (omega arith),
        load32-update_other m vq e slot s (used_elem vq.used_ring j + 4) (omega arith)
            (omega arith),
      ),
      flags-update m vq e slot s,
      idx-update m vq e slot s,
    )
