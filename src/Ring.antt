-- ===== src/Ring.antt =====
-- The two rings of `struct virtio_bridge` (include/hvisor.h), of MAX_REQ entries each, as queues.
use hvisor_tool.Base.{
  ℕ, zero, suc, ◌+◌, ◌-◌, ◌%◌, ◌^◌, ◌<◌, ◌≡◌, ◌≢◌, refl, ap₂, true, false, List, [], ◌∷◌, ◌++◌,
  Option, some, get_elem?, set, length, get_elem?-set_self, get_elem?-set_ne, arith, bit_and,
  bit_and_mask,
}
use hvisor_tool.Device.{max_req, is_queue_full}

-- The number of entries between the two indices.
abbrev pub pending : ℕ → ℕ → ℕ
pending front rear = (rear + max_req - front) % max_req

module _ {ℓ} {A : Type ℓ} where
  -- The `n` entries from index `i` on, going round at MAX_REQ.
  abbrev pub window : List A → ℕ → ℕ → List (Option A)
  window l i zero = []
  window l i (suc n) = get_elem? l i ∷ window l ((i + 1) % max_req) n

  -- What a ring holds, the oldest first.
  abbrev pub contents : List A → ℕ → ℕ → List (Option A)
  contents l front rear = window l front (pending front rear)

  window-set :
      (l : List A) (x : A) (n h i : ℕ)
      → length l ≡ max_req
      → h < max_req
      → n < max_req
      → i ≡ (h + n) % max_req
      → window (set l i x) h (suc n) ≡ window l h n ++ (some x ∷ [])
  window-set l x zero h i len hh hn e =
      let q : i ≡ h = omega arith in rw (q, get_elem?-set_self l h x (omega arith))
  window-set l x (suc n) h i len hh hn e =
      ap₂ ◌∷◌ (get_elem?-set_ne l i h x (omega arith))
        (window-set l x n ((h + 1) % max_req) i len (omega arith) (omega arith) (omega arith))

  pub contents-push :
      (l : List A) (x : A) (front rear : ℕ)
      → length l ≡ max_req
      → front < max_req
      → rear < max_req
      → (rear + 1) % max_req ≢ front
      → contents (set l rear x) front ((rear + 1) % max_req)
        ≡ contents l front rear ++ (some x ∷ [])
  contents-push l x front rear len hf hr ne =
      let n : ℕ = pending front rear in
      let e : pending front ((rear + 1) % max_req) ≡ suc n = omega arith in
      rw e (window-set l x n front rear len hf (omega arith) (omega arith))

  -- A ring that is not empty gives up its oldest entry.
  pub contents-pop :
      (l : List A) (front rear : ℕ)
      → front < max_req
      → rear < max_req
      → front ≢ rear
      → contents l front rear ≡ get_elem? l front ∷ contents l ((front + 1) % max_req) rear
  contents-pop l front rear hf hr ne =
      let n : ℕ = pending ((front + 1) % max_req) rear in
      let e : pending front rear ≡ suc n = omega arith in rw e refl

  pub contents-empty : (l : List A) (i : ℕ) → i < max_req → contents l i i ≡ []
  contents-empty l i h = let e : pending i i ≡ 0 = omega arith in rw e refl

pub next-index : (i : ℕ) → bit_and i (max_req - 1) ≡ i % max_req
next-index i = bit_and_mask 5 i

pub is_queue_full_iff :
    (front rear : ℕ)
    → rear < max_req
    → (is_queue_full front rear max_req ≡ false → (rear + 1) % max_req ≢ front)
      × (is_queue_full front rear max_req ≡ true → (rear + 1) % max_req ≡ front)
unfolding is_queue_full
is_queue_full_iff front rear h = ground (arith, next-index ((rear + 1) % 2 ^ 32))
