-- ===== src/Scmi/Transmit/Handled.antt =====
-- How `virtq_tx_handle_one_request` of tools/virtio/devices/scmi/virtio_scmi.c ends.
use hvisor_tool.Base.{
  ℕ, ◌+◌, ◌≤◌, ◌<◌, ◌≡◌, ◌≢◌, ◌⊎◌, refl, sym, ap, subst, ◌∙◌, inl, inr, Bool, true, false, List, [],
  ◌∷◌, Option, none, some, ◌==◌, arith, Bool-cases, Option-cases,
}
use hvisor_tool.Memory.{Memory, load32}
use hvisor_tool.ZoneMemory.{ZoneMem}
use hvisor_tool.Queue.{VirtQueue, update_used_ring, advance_avail, next_avail}
use hvisor_tool.Chain.{
  Outcome, ok, failed, fault, Iovec, VirtioRequest, chain_len, process_descriptor_chain_buf,
}
use hvisor_tool.Chain.Cases.{process_descriptor_chain_buf-cases}
use hvisor_tool.Device.{Result, returns, ◌>>=◌}
use hvisor_tool.Scmi.{read_header, Exchange, ScmiKernel, scmi_resp_ctx_init}
use hvisor_tool.Scmi.Device.{VirtioScmiInitParams, virtio_scmi_do_init, scmi_handle_message}
use hvisor_tool.Scmi.Header.{scmi_build_header-read_header}
use hvisor_tool.Scmi.Safety.{scmi_handle_message-Answers}
use hvisor_tool.Scmi.Transmit.{
  scmi_cfg, Sent, request_and_response, valid_request, complete, complete_message, handle_request,
  virtq_tx_handle_one_request,
}

-- A chain that passes the layout check has one buffer to read and one to write.
request_and_response_lem :
    (r : VirtioRequest) (a b : Iovec)
    → request_and_response r ≡ some (a, b)
    → (r.out_iov ≡ a ∷ []) × (r.in_iov ≡ b ∷ [])
unfolding request_and_response
request_and_response_lem r a b = go r.out_iov r.in_iov
  where
    go :
        (out_iov in_iov : List Iovec)
        → request_and_response (record { out_iov = out_iov; in_iov = in_iov }) ≡ some (a, b)
        → (out_iov ≡ a ∷ []) × (in_iov ≡ b ∷ [])
    go [] in_iov e = absurd cc
    go (c ∷ out_iov) [] e = absurd cc
    go (c ∷ []) (d ∷ []) e = (cc, cc)
    go (c ∷ []) (d ∷ d' ∷ in_iov) e = absurd (ground arith)
    go (c ∷ c' ∷ out_iov) (d ∷ in_iov) e = absurd (ground arith)

request_and_response-none :
    (r : VirtioRequest)
    → request_and_response r ≡ none
    → (a b : Iovec) → r ≡ record { out_iov = a ∷ []; in_iov = b ∷ [] }
    → ⊥
unfolding request_and_response
request_and_response-none r e a b same =
    let c : request_and_response (record { out_iov = a ∷ []; in_iov = b ∷ [] }) ≡ none =
      subst (λ v. request_and_response v ≡ none) same e in
    let d : ◌≡◌ {A = Option (Iovec × Iovec)} (some (a, b)) none = c in absurd cc

request_and_response-only :
    (r : VirtioRequest) (a b a' b' : Iovec)
    → request_and_response r ≡ some (a, b)
    → r ≡ record { out_iov = a' ∷ []; in_iov = b' ∷ [] }
    → a ≡ a'
request_and_response-only r a b a' b' e same =
    let l = (request_and_response_lem r a b e).0 in
    let c : (a ∷ []) ≡ (a' ∷ []) = sym l ∙ ap (λ (v : VirtioRequest). v.out_iov) same in cc

module _ {K : Type 0} (z : ZoneMem) (zone_id : ℕ) (kernel : ScmiKernel K)
    (p : Option VirtioScmiInitParams) where
  abbrev pub chain_of : Memory → VirtQueue → Outcome (VirtQueue × VirtioRequest)
  chain_of m vq = process_descriptor_chain_buf m z zone_id scmi_cfg vq (next_avail m vq)

  -- What the handlers leave of memory and of the response buffer `resp`.
  pub record Kept (m : Memory) (resp : Iovec) (x : Exchange K) : Type 0 where
    pub fits : x.ctx.written ≤ resp.iov_len
    pub outside :
        (a : ℕ) → (a < resp.iov_base) ⊎ (resp.iov_base + resp.iov_len ≤ a) → x.memory a ≡ m a

  -- One used element for the head `idx` has been put into the used ring over the memory `m'`.
  pub record Completed (good : Bool) (m' : Memory) (vq' : VirtQueue) (idx len : ℕ) (k : K)
      (s : Sent K) : Type 0 where
    pub result : s.good ≡ good
    pub used : s.memory ≡ update_used_ring m' vq' (record { id = idx; len = len })
    pub queue : s.vq ≡ vq'
    pub same_kernel : s.kernel ≡ k

  complete-Completed :
      (good : Bool) (m' : Memory) (vq' : VirtQueue) (idx len : ℕ) (k : K)
      → Completed good m' vq' idx len k (complete good m' vq' idx len k)
  unfolding complete
  complete-Completed good m' vq' idx len k = record {
    result = refl;
    used = refl;
    queue = refl;
    same_kernel = refl;
  }

  -- The request's buffer holds at least a header, is not NULL and at most 1 MiB long, and the message
  -- is a command.
  pub record IsCommand (m : Memory) (req : Iovec) : Type 0 where
    pub header : 4 ≤ req.iov_len
    pub mapped : req.iov_base ≢ 0
    pub bounded : req.iov_len ≤ 1048576
    pub command : (read_header (load32 m req.iov_base)).msg_type ≡ 0

  valid_request-true : (m : Memory) (req : Iovec) → valid_request m req ≡ true → IsCommand m req
  unfolding valid_request
  valid_request-true m req e = record {
    header = ground arith;
    mapped = ground arith;
    bounded = ground arith;
    command = ground arith;
  }

  valid_request-false : (m : Memory) (req : Iovec) → valid_request m req ≡ false → ¬ IsCommand m req
  unfolding valid_request
  valid_request-false m req e c =
      let h = c.header in
      let q = c.mapped in let b = c.bounded in let t = c.command in absurd (ground arith)

  -- `scmi_handle_message` with the fields of the request's header and an empty response in `resp`.
  abbrev pub message : Memory → K → Iovec → Iovec → Result (ℕ × Exchange K)
  message m k req resp =
      let hdr = read_header (load32 m req.iov_base) in
      scmi_handle_message kernel (virtio_scmi_do_init p) hdr.protocol_id hdr.msg_id hdr.token req
        (record {
          memory = m;
          ctx = record { iov = resp; written = 0; capacity = resp.iov_len };
          kernel = k;
        })

  -- How one request ends. The queue's next entry is `next_avail m vq`.
  pub data Ended (m : Memory) (vq : VirtQueue) (k : K) (s : Sent K) : Type 0 where
    refused :
        chain_of m vq ≡ failed
        → Completed false m (advance_avail vq) (next_avail m vq) 0 k s
        → Ended m vq k s
    skipped :
        (r : VirtioRequest)
        → chain_of m vq ≡ ok (advance_avail vq, r)
        → chain_len r ≡ 0
        → Completed false m (advance_avail (advance_avail vq)) (next_avail m vq) 0 k s
        → Ended m vq k s
    malformed :
        (r : VirtioRequest)
        → chain_of m vq ≡ ok (advance_avail vq, r)
        → 0 < chain_len r
        → ((req resp : Iovec)
            → r ≡ record { out_iov = req ∷ []; in_iov = resp ∷ [] }
            → ¬ IsCommand m req)
        → Completed false m (advance_avail vq) (next_avail m vq) 0 k s
        → Ended m vq k s
    declined :
        (req resp : Iovec) (code : ℕ) (x : Exchange K)
        → chain_of m vq ≡ ok (advance_avail vq, record { out_iov = req ∷ []; in_iov = resp ∷ [] })
        → IsCommand m req
        → message m k req resp ≡ returns (code, x)
        → code ≢ 0
        → Kept m resp x
        → Completed false x.memory (advance_avail vq) (next_avail m vq) 0 x.kernel s
        → Ended m vq k s
    answered :
        (req resp : Iovec) (x : Exchange K)
        → chain_of m vq ≡ ok (advance_avail vq, record { out_iov = req ∷ []; in_iov = resp ∷ [] })
        → IsCommand m req
        → message m k req resp ≡ returns (0, x)
        → Kept m resp x
        → 8 ≤ x.ctx.written
        → ((read_header (load32 m req.iov_base)).reserved ≡ 0
            → load32 x.memory resp.iov_base ≡ load32 m req.iov_base)
        → Completed true x.memory (advance_avail vq) (next_avail m vq) x.ctx.written x.kernel s
        → Ended m vq k s

  valid-command :
      (m : Memory) (req : Iovec)
      → valid_request m req ≡ true
      → (read_header (load32 m req.iov_base)).msg_type ≡ 0
  unfolding valid_request
  valid-command m req e = ground arith

  -- From the answer of `scmi_handle_message` to the end of the request.
  message-Ended :
      (m : Memory) (vq : VirtQueue) (k : K) (req resp : Iovec)
      → chain_of m vq ≡ ok (advance_avail vq, record { out_iov = req ∷ []; in_iov = resp ∷ [] })
      → valid_request m req ≡ true
      → (s : Sent K) × ((handle_request z zone_id kernel (virtio_scmi_do_init p) m k req resp
            >>= (λ r. returns (complete_message (advance_avail vq) (next_avail m vq) r)))
          ≡ returns s)
        × Ended m vq k s
  unfolding handle_request complete_message scmi_resp_ctx_init
  message-Ended m vq k req resp e valid =
      let hdr = read_header (load32 m req.iov_base) in
      let x : Exchange K = record { memory = m; ctx = scmi_resp_ctx_init resp; kernel = k } in
      let a =
        (scmi_handle_message-Answers kernel p hdr.protocol_id hdr.msg_id hdr.token req x
          (omega arith)).0 in
      let kept : Kept m resp a.after = record {
        fits = a.within.fits;
        outside = a.within.outside;
      } in
      let finish : Sent K =
        complete_message (advance_avail vq) (next_avail m vq) (a.code, a.after) in
      (
        finish,
        ap (λ r. r >>= (λ q. returns (complete_message (advance_avail vq) (next_avail m vq) q)))
            a.returned,
        elim (Bool-cases (a.code == 0)) [
          | inl zero_code ↦
              let echo = a.echo (ground arith) in
              answered req resp a.after e (valid_request-true m req valid)
                (a.returned
                  ∙ ap (λ c. returns (c, a.after)) (let q : a.code ≡ 0 = ground arith in q))
                kept echo.0
                (λ clear.
                  echo.1
                  ∙ scmi_build_header-read_header (load32 m req.iov_base)
                      (valid-command m req valid) clear)
                (rw zero_code (
                  complete-Completed true a.after.memory (advance_avail vq) (next_avail m vq)
                    a.after.ctx.written a.after.kernel))
          | inr code ↦
              declined req resp a.code a.after e (valid_request-true m req valid) a.returned
                (ground arith) kept
                (rw code (
                  complete-Completed false a.after.memory (advance_avail vq) (next_avail m vq) 0
                    a.after.kernel))
        ],
      )

  -- A request whose chain can be read always ends in one of five ways, each with one element put into
  -- the used ring, for the head of the chain. It is of length 0 where the chain is refused, has no
  -- buffers (which alone advances `last_avail_idx` by two), is not one buffer to read and one to write
  -- with a command of 4 bytes to 1 MiB in the first, or where the message is declined; otherwise its length is that of the response, at most the response buffer's. The handlers
  -- change no byte outside the response buffer, and the response to a request with the reserved bits
  -- clear begins with the request's own header.
  pub virtq_tx_handle_one_request_lem :
      (m : Memory) (vq : VirtQueue) (k : K)
      → chain_of m vq ≢ fault
      → (s : Sent K) × (virtq_tx_handle_one_request z zone_id kernel (virtio_scmi_do_init p) m vq k
          ≡ returns s)
        × Ended m vq k s
  unfolding virtq_tx_handle_one_request
  virtq_tx_handle_one_request_lem m vq k readable =
      elim (process_descriptor_chain_buf-cases m z zone_id scmi_cfg vq (next_avail m vq)) [
        | inl e ↦ absurd (readable e)
        | inr (inl e) ↦ (
          _,
          rw (virtq_tx_handle_one_request, e) refl,
          refused e (complete-Completed false m (advance_avail vq) (next_avail m vq) 0 k),
        )
        | inr (inr (r, e)) ↦ elim (Bool-cases (chain_len r == 0)) [
          | inl empty ↦ (
            _,
            rw (virtq_tx_handle_one_request, e, empty) refl,
            skipped r e (ground arith) (
                complete-Completed false m (advance_avail (advance_avail vq)) (next_avail m vq) 0
                  k),
          )
          | inr some_len ↦ elim (Option-cases (request_and_response r)) [
            | inl bad ↦ (
              _,
              rw (virtq_tx_handle_one_request, e, some_len, bad) refl,
              malformed r e (ground arith)
                  (λ req resp q c. request_and_response-none r bad req resp q)
                  (complete-Completed false m (advance_avail vq) (next_avail m vq) 0 k),
            )
            | inr ((req, resp), q) ↦ elim (Bool-cases (valid_request m req)) [
              | inr invalid ↦ (
                _,
                rw (virtq_tx_handle_one_request, e, some_len, q, invalid) refl,
                malformed r e (ground arith)
                    (λ req' resp' q' c. valid_request-false m req invalid (
                      subst (IsCommand m)
                        (sym (request_and_response-only r req resp req' resp' q q')) c))
                    (complete-Completed false m (advance_avail vq) (next_avail m vq) 0 k),
              )
              | inl valid ↦
                  let iovs = request_and_response_lem r req resp q in
                  let same : r ≡ record { out_iov = req ∷ []; in_iov = resp ∷ [] } =
                    λ i. record { out_iov = iovs.0 i; in_iov = iovs.1 i } in
                  let (s, run, end) =
                    message-Ended m vq k req resp (e ∙ ap (λ v. ok (advance_avail vq, v)) same)
                      valid in
                  (s, rw (virtq_tx_handle_one_request, e, some_len, q, valid) run, end)
            ]
          ]
        ]
      ]
