-- ===== src/Blk/Complete.antt =====
-- What `virtq_blk_handle_one_request` (tools/virtio/devices/blk/virtio_blk.c) accepts and how it completes
-- a request.
use hvisor_tool.Base.{
  ℕ, ◌+◌, ◌%◌, ◌^◌, ◌<◌, ◌≡◌, ◌≢◌, refl, sym, ap, ◌∙◌, subst, inl, inr, List, [], ◌∷◌, ◌++◌, none,
  some, length, length-append, arith, Option-cases,
}
use hvisor_tool.Memory.{Memory}
use hvisor_tool.ZoneMemory.{ZoneMem}
use hvisor_tool.Queue.{VirtQueue, update_used_ring, advance_avail, next_avail}
use hvisor_tool.Chain.{
  Outcome, ok, failed, Iovec, VirtioBufConfig, VirtioRequest, chain_len,
  process_descriptor_chain_buf,
}
use hvisor_tool.Blk.Performs.{put_status, Performs}
use hvisor_tool.Blk.{virtqueue_blk_max_size, BlkHost, head_type, last_iov, Layout, check_layout}

last_iov-none : (bs : List Iovec) → last_iov bs ≡ none → bs ≡ []
unfolding last_iov
last_iov-none [] h = refl
last_iov-none (b ∷ bs) h = elim (Option-cases (last_iov bs)) [
  | inl e ↦ absurd (ground arith)
  | inr (p, e) ↦ absurd (ground arith)
]

last_iov_lem :
    (bs front : List Iovec) (l : Iovec) → last_iov bs ≡ some (front, l) → bs ≡ front ++ (l ∷ [])
unfolding last_iov
last_iov_lem [] front l h = cc
last_iov_lem (b ∷ bs) front l h = elim (Option-cases (last_iov bs)) [
  | inl e ↦ ground (arith, last_iov-none bs e)
  | inr ((front', l'), e) ↦ ground (arith, last_iov_lem bs front' l' e)
]

-- The layout that the specification of the device asks for: a header of 16 bytes, then the data that
-- the device reads; the data that it writes, then a status byte. Only a write has data to read, and
-- a write has none to be written.
pub record IsLayout (m : Memory) (req : VirtioRequest) (l : Layout) : Type 0 where
  pub head : Iovec
  pub out_split : req.out_iov ≡ head ∷ l.out_data
  pub in_split : req.in_iov ≡ l.in_data ++ (l.status ∷ [])
  pub head_base : head.iov_base ≡ l.hdr
  pub head_len : head.iov_len ≡ 16
  pub status_len : l.status.iov_len ≡ 1
  pub write_side : head_type m l.hdr ≡ 1 → l.in_data ≡ []
  pub read_side : head_type m l.hdr ≢ 1 → l.out_data ≡ []

length-zero {ℓ} : {A : Type ℓ} (l : List A) → length l ≡ 0 → l ≡ []
length-zero [] h = refl
length-zero (x ∷ xs) h = absurd (omega arith)

abbrev layout : List Iovec → Iovec → List Iovec → Iovec → Layout
layout out_data head in_data st = record {
  hdr = head.iov_base;
  out_data = out_data;
  in_data = in_data;
  status = st;
}

checked :
    (m : Memory) (out_data : List Iovec) (head : Iovec) (in_iov in_data : List Iovec) (st : Iovec)
    (l : Layout)
    → last_iov in_iov ≡ some (in_data, st)
    → check_layout m (record { out_iov = head ∷ out_data; in_iov = in_iov }) ≡ some l
    → (l ≡ layout out_data head in_data st)
      × (head.iov_len ≡ 16)
      × (st.iov_len ≡ 1)
      × (head_type m head.iov_base ≡ 1 → length in_iov ≡ 1)
      × (head_type m head.iov_base ≢ 1 → length out_data ≡ 0)
unfolding check_layout
checked m out_data head in_iov in_data st l e h = ground (arith, e)

check_layout_lists :
    (m : Memory) (out_iov in_iov : List Iovec) (l : Layout)
    → check_layout m (record { out_iov = out_iov; in_iov = in_iov }) ≡ some l
    → IsLayout m (record { out_iov = out_iov; in_iov = in_iov }) l
unfolding check_layout
check_layout_lists m [] in_iov l h = cc
check_layout_lists m (head ∷ out_data) in_iov l h = elim (Option-cases (last_iov in_iov)) [
  | inl e ↦ absurd (ground (arith, e))
  | inr ((in_data, st), e) ↦
      let (same, head_len, status_len, one, none_out) =
        checked m out_data head in_iov in_data st l e h in
      let split = last_iov_lem in_iov in_data st e in
      let len : length in_iov ≡ length in_data + 1 =
        ap length split ∙ length-append in_data (st ∷ []) in
      subst (IsLayout m (record { out_iov = head ∷ out_data; in_iov = in_iov })) (sym same)
        (record {
          head = head;
          out_split = refl;
          in_split = split;
          head_base = refl;
          head_len = head_len;
          status_len = status_len;
          write_side = λ w. length-zero in_data (omega (arith, one w));
          read_side = λ w. length-zero out_data (none_out w);
        })
]

-- Every request that passes the checks of `virtq_blk_handle_one_request` has the layout of its type.
pub check_layout_lem :
    (m : Memory) (req : VirtioRequest) (l : Layout) → check_layout m req ≡ some l → IsLayout m req l
check_layout_lem m req l h = check_layout_lists m req.out_iov req.in_iov l h

module _ {Img : Type 0} (host : BlkHost Img) (z : ZoneMem) (zone_id : ℕ) where
  abbrev chain_cfg : VirtioBufConfig
  chain_cfg = record { max_out = virtqueue_blk_max_size; max_in = virtqueue_blk_max_size }

  abbrev pub chain_of : Memory → VirtQueue → Outcome (VirtQueue × VirtioRequest)
  chain_of m vq = process_descriptor_chain_buf m z zone_id chain_cfg vq (next_avail m vq)

  -- How one request ends, on each of its branches.
  pub data Handled (m : Memory) (vq : VirtQueue) (img : Img) (m' : Memory) (vq' : VirtQueue)
      (img' : Img) : Type 0 where
    refused :
        chain_of m vq ≡ failed
        → vq' ≡ advance_avail vq
        → img' ≡ img
        → m' ≡ update_used_ring m vq' (record { id = next_avail m vq; len = 1 })
        → Handled m vq img m' vq' img'
    malformed :
        (req : VirtioRequest)
        → chain_of m vq ≡ ok (advance_avail vq, req)
        → 0 < chain_len req
        → check_layout m req ≡ none
        → vq' ≡ advance_avail vq
        → img' ≡ img
        → m' ≡ update_used_ring m vq' (record { id = next_avail m vq; len = 1 })
        → Handled m vq img m' vq' img'
    performed :
        (req : VirtioRequest) (l : Layout) (m1 : Memory) (status wlen : ℕ)
        → chain_of m vq ≡ ok (advance_avail vq, req)
        → IsLayout m req l
        → Performs host m img l m1 img' status wlen
        → vq' ≡ advance_avail vq
        → m'
          ≡ update_used_ring
              (put_status m1 l.status.iov_base status)
              vq'
              (record { id = next_avail m vq; len = (wlen + 1) % 2 ^ 32 })
        → Handled m vq img m' vq' img'
    skipped :
        (req : VirtioRequest)
        → chain_of m vq ≡ ok (advance_avail vq, req)
        → chain_len req ≡ 0
        → vq' ≡ advance_avail (advance_avail vq)
        → img' ≡ img
        → m' ≡ update_used_ring m vq' (record { id = next_avail m vq; len = 1 })
        → Handled m vq img m' vq' img'
