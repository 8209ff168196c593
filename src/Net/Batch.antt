-- ===== src/Net/Batch.antt =====
-- What the inner loop of `virtio_net_txq_notify_handler` (tools/virtio/devices/net/virtio_net.c) puts
-- into its batch of 256 entries.
use hvisor_tool.Base.{
  ℕ, zero, suc, ◌+◌, ◌-◌, ◌%◌, ◌^◌, ◌≤◌, ◌<◌, ◌≡◌, ◌≢◌, refl, sym, ap, ◌∙◌, inl, inr, true, false,
  List, [], ◌∷◌, ◌++◌, append_assoc, length, length-append, ltb, leb, ◌==◌, arith, Bool-cases,
  append-nil,
}
use hvisor_tool.Memory.{Memory, null, avail_idx}
use hvisor_tool.Memory.Laws.{load16-lt}
use hvisor_tool.ZoneMemory.{ZoneMem}
use hvisor_tool.Queue.{VirtQueue, UsedElem, advance_avail, next_avail, vq_is_empty}
use hvisor_tool.Chain.{
  Outcome, ok, fault, Iovec, VirtioRequest, chain_len, process_descriptor_chain_buf,
}
use hvisor_tool.Chain.Cases.{process_descriptor_chain_buf-cases}
use hvisor_tool.Device.{returns, faults}
use hvisor_tool.Net.{TapHost, add_entry}
use hvisor_tool.Net.Transmit.{
  send_packet, tx_cfg, Sending, transmit, virtq_tx_handle_one_request, tx_requests,
}

-- The entries that the driver has made available and the device has not taken.
abbrev pub pending : Memory → VirtQueue → ℕ
pending m vq = (avail_idx m vq.avail_ring + 2 ^ 16 - vq.last_avail_idx) % 2 ^ 16

-- The heads of the next `n` entries.
abbrev pub heads : Memory → VirtQueue → ℕ → List ℕ
heads m vq zero = []
heads m vq (suc n) = next_avail m vq ∷ heads m (advance_avail vq) n

abbrev pub ids : List UsedElem → List ℕ
ids [] = []
ids (e ∷ es) = e.id ∷ ids es

ids-append : (es fs : List UsedElem) → ids (es ++ fs) ≡ ids es ++ ids fs
ids-append [] fs = refl
ids-append (e ∷ es) fs = ap (λ l. e.id ∷ l) (ids-append es fs)

module _ (z : ZoneMem) (zone_id : ℕ) (m : Memory) where
  abbrev pub chain_of : VirtQueue → Outcome (VirtQueue × VirtioRequest)
  chain_of vq = process_descriptor_chain_buf m z zone_id tx_cfg vq (next_avail m vq)

  -- The chain of the next entry can be read, and is refused or begins with a buffer to read.
  pub record IsPlain (vq : VirtQueue) : Type 0 where
    pub readable : chain_of vq ≢ fault
    pub buffers :
        (req : VirtioRequest)
        → chain_of vq ≡ ok (advance_avail vq, req)
        → (first : Iovec) × (others : List Iovec) × (req.out_iov ≡ first ∷ others)

  -- So for each of the next `n` entries.
  abbrev pub ArePlain : VirtQueue → ℕ → Type 0
  ArePlain vq zero = Unit
  ArePlain vq (suc n) = IsPlain vq × ArePlain (advance_avail vq) n

  module _ {T : Type 0} (host : TapHost T) (header_len : ℕ) where
    transmit-returns :
        (vq : VirtQueue) (tap : T)
        → IsPlain vq
        → (tap' : T) × (len : ℕ) × (transmit host z zone_id header_len m vq tap
            ≡ returns (advance_avail vq, tap', len))
    unfolding transmit chain_len
    transmit-returns vq tap plain =
        elim (process_descriptor_chain_buf-cases m z zone_id tx_cfg vq (next_avail m vq)) [
          | inl e ↦ absurd (plain.readable e)
          | inr (inl e) ↦ (tap, 0, rw (transmit, e) refl)
          | inr (inr (req, e)) ↦
              let (first, others, q) = plain.buffers req e in
              let l : length req.out_iov ≡ suc (length others) = ap length q in
              let some_len : (chain_len req == 0) ≡ false = ground (arith, l) in
              elim (Bool-cases (ltb first.iov_len header_len)) [
                | inl short ↦ (tap, 0, rw (transmit, e, some_len, q, short) refl)
                | inr long ↦
                    let sent = send_packet host z zone_id header_len m (first ∷ others) tap in
                    (sent.0, sent.1, rw (transmit, e, some_len, q, long) refl)
              ]
        ]

    request-returns :
        (x : Sending T)
        → IsPlain x.vq
        → length x.batch < 256
        → (tap' : T) × (len : ℕ) × (virtq_tx_handle_one_request host z zone_id header_len m true x
            ≡ returns (record {
              vq = advance_avail x.vq;
              tap = tap';
              batch = x.batch ++ (record { id = next_avail m x.vq; len = len } ∷ []);
            }))
    unfolding virtq_tx_handle_one_request add_entry
    request-returns x plain room =
        let (tap', len, e) = transmit-returns x.vq x.tap plain in
        let free : leb 256 (length x.batch) ≡ false = ground arith in
        (tap', len, rw (virtq_tx_handle_one_request, e, add_entry, free) refl)

    request-faults :
        (x : Sending T)
        → IsPlain x.vq
        → 256 ≤ length x.batch
        → virtq_tx_handle_one_request host z zone_id header_len m true x ≡ faults
    unfolding virtq_tx_handle_one_request add_entry
    request-faults x plain full =
        let (tap', len, e) = transmit-returns x.vq x.tap plain in
        let no : leb 256 (length x.batch) ≡ true = ground arith in
        rw (virtq_tx_handle_one_request, e, add_entry, no) refl

    empty_iff :
        (vq : VirtQueue)
        → vq.avail_ring ≢ null
        → vq.last_avail_idx < 2 ^ 16
        → (pending m vq ≡ 0 → vq_is_empty m vq ≡ true)
          × (pending m vq ≢ 0 → vq_is_empty m vq ≡ false)
    unfolding vq_is_empty
    empty_iff vq ring small =
        let bound = load16-lt m (vq.avail_ring + 2) in
        (λ e. ground (arith, bound), λ e. ground (arith, bound))

    tx_requests_go :
        (n rounds : ℕ) (x : Sending T)
        → pending m x.vq ≡ n
        → n < rounds
        → x.vq.avail_ring ≢ null
        → x.vq.last_avail_idx < 2 ^ 16
        → ArePlain x.vq n
        → length x.batch + n ≤ 256
        → (y : Sending T) × (tx_requests host z zone_id header_len m rounds true x ≡ returns y)
          × (vq_is_empty m y.vq ≡ true)
          × (ids y.batch ≡ ids x.batch ++ heads m x.vq n)
    unfolding tx_requests advance_avail
    tx_requests_go n zero x e h ring small plain room = absurd (omega arith)
    tx_requests_go zero (suc rounds) x e h ring small plain room = (
      x,
      rw (tx_requests, (empty_iff x.vq ring small).0 e) refl,
      (empty_iff x.vq ring small).0 e,
      sym (append-nil (ids x.batch)),
    )
    tx_requests_go (suc n) (suc rounds) x e h ring small plain room =
        let (tap', len, run) = request-returns x plain.0 (omega arith) in
        let x' : Sending T = record {
          vq = advance_avail x.vq;
          tap = tap';
          batch = x.batch ++ (record { id = next_avail m x.vq; len = len } ∷ []);
        } in
        let bound = load16-lt m (x.vq.avail_ring + 2) in
        let left : pending m x'.vq ≡ n = omega arith in
        let more : length x'.batch + n ≤ 256 =
          omega
            (arith, length-append x.batch (record { id = next_avail m x.vq; len = len } ∷ [])) in
        let (y, rest, done, list) =
          tx_requests_go n rounds x' left (omega arith) ring (omega arith) plain.1 more in
        let full : vq_is_empty m x.vq ≡ false = (empty_iff x.vq ring small).1 (omega arith) in
        (
          y,
          rw (tx_requests, full, run) rest,
          done,
          list
              ∙ ap (λ l. l ++ heads m (advance_avail x.vq) n)
                  (ids-append x.batch (record { id = next_avail m x.vq; len = len } ∷ []))
              ∙ append_assoc (ids x.batch) _ _,
        )

    tx_requests_overflow :
        (n rounds : ℕ) (x : Sending T)
        → pending m x.vq ≡ n
        → n < rounds
        → x.vq.avail_ring ≢ null
        → x.vq.last_avail_idx < 2 ^ 16
        → ArePlain x.vq n
        → length x.batch ≤ 256
        → 256 < length x.batch + n
        → tx_requests host z zone_id header_len m rounds true x ≡ faults
    unfolding tx_requests advance_avail
    tx_requests_overflow n zero x e h ring small plain fits more = absurd (omega arith)
    tx_requests_overflow zero (suc rounds) x e h ring small plain fits more = absurd (omega arith)
    tx_requests_overflow (suc n) (suc rounds) x e h ring small plain fits more =
        let full : vq_is_empty m x.vq ≡ false = (empty_iff x.vq ring small).1 (omega arith) in
        elim (Bool-cases (leb 256 (length x.batch))) [
          | inl stop ↦ rw (tx_requests, full, request-faults x plain.0 (ground arith)) refl
          | inr free ↦
              let (tap', len, run) = request-returns x plain.0 (ground arith) in
              let x' : Sending T = record {
                vq = advance_avail x.vq;
                tap = tap';
                batch = x.batch ++ (record { id = next_avail m x.vq; len = len } ∷ []);
              } in
              let bound = load16-lt m (x.vq.avail_ring + 2) in
              let left : pending m x'.vq ≡ n = omega arith in
              let longer : length x'.batch ≡ length x.batch + 1 = omega (
                arith,
                length-append x.batch (record { id = next_avail m x.vq; len = len } ∷ []),
              ) in
              rw (tx_requests, full, run)
                (tx_requests_overflow n rounds x' left (omega arith) ring (omega arith) plain.1
                  (let f : length x.batch < 256 = ground arith in omega (arith, longer, f))
                  (omega (arith, longer)))
        ]

    -- The inner loop, over available entries whose chains are refused or begin with a buffer to read,
    -- and with the tap device open. Where the driver has made at most 256 entries available, it returns
    -- with an empty queue and a batch of exactly their heads, in order. Where it has made more available,
    -- the loop writes outside the arrays of the batch.
    pub tx_requests_lem :
        (rounds : ℕ) (vq : VirtQueue) (tap : T)
        → pending m vq < rounds
        → vq.avail_ring ≢ null
        → vq.last_avail_idx < 2 ^ 16
        → ArePlain vq (pending m vq)
        → (pending m vq ≤ 256
            → (y : Sending T) × (tx_requests host z zone_id header_len m rounds true
                  (record { vq = vq; tap = tap; batch = [] })
                ≡ returns y)
              × (vq_is_empty m y.vq ≡ true)
              × (ids y.batch ≡ heads m vq (pending m vq)))
          × (256 < pending m vq
              → tx_requests host z zone_id header_len m rounds true
                  (record { vq = vq; tap = tap; batch = [] })
                ≡ faults)
    tx_requests_lem rounds vq tap h ring small plain =
        let x : Sending T = record { vq = vq; tap = tap; batch = [] } in
        (
          λ fits. tx_requests_go (pending m vq) rounds x refl h ring small plain (omega arith),
          λ more.
              tx_requests_overflow (pending m vq) rounds x refl h ring small plain (omega arith)
                (omega arith),
        )
