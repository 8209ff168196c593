-- ===== src/Scmi/Transmit.antt =====
-- The transmit queue of the SCMI device in tools/virtio/devices/scmi/virtio_scmi.c: one request, from
-- its descriptor chain to the used ring.
pub mod Handled
use hvisor_tool.Base.{
  ℕ, ◌+◌, ◌*◌, ◌^◌, ◌-◌, Bool, true, false, not, ◌&&◌, ◌||◌, List, [], ◌∷◌, Option, none, some,
  length, ltb, ◌==◌, if◌then◌else◌,
}
use hvisor_tool.Memory.{Memory, null, load32}
use hvisor_tool.ZoneMemory.{ZoneMem}
use hvisor_tool.Queue.{VirtQueue, UsedElem, update_used_ring, advance_avail, next_avail}
use hvisor_tool.Chain.{
  Outcome, ok, failed, fault, Iovec, VirtioBufConfig, VirtioRequest, chain_len,
  process_descriptor_chain_buf,
}
use hvisor_tool.Device.{Result, returns, faults, spins, ◌>>=◌}
use hvisor_tool.Scmi.{read_header, Exchange, ScmiDev, ScmiKernel, scmi_resp_ctx_init}
use hvisor_tool.Scmi.Device.{scmi_handle_message}

-- SCMI_MAX_BUFFER_SIZE
abbrev pub scmi_max_buffer_size : ℕ
scmi_max_buffer_size = 1024 * 1024

-- The two arrays of `virtq_tx_handle_one_request`.
abbrev pub scmi_cfg : VirtioBufConfig
scmi_cfg = record { max_out = 2; max_in = 2 }

-- What one request leaves: whether it returned 0 (and not -EINVAL), memory, the queue, and what is
-- behind the kernel module.
pub record Sent (K : Type 0) : Type 0 where
  pub good : Bool
  pub memory : Memory
  pub vq : VirtQueue
  pub kernel : K

-- The layout check: one buffer to read and one to write.
unfoldable pub request_and_response : VirtioRequest → Option (Iovec × Iovec)
request_and_response req = elim req.out_iov [
  | [] ↦ none
  | a ∷ more_out ↦ elim req.in_iov [
    | [] ↦ none
    | b ∷ more_in ↦ if (length more_out == 0) && (length more_in == 0) then some (a, b) else none
  ]
]

-- The checks of the request buffer and of the type of its message.
unfoldable pub valid_request : Memory → Iovec → Bool
valid_request m req =
    if ltb req.iov_len 4 || (req.iov_base == null) || ltb scmi_max_buffer_size req.iov_len
    then false
    else (read_header (load32 m req.iov_base)).msg_type == 0

module _ {K : Type 0} where
  -- `update_used_ring(vq, desc_idx, …)` and the return.
  unfoldable pub complete : Bool → Memory → VirtQueue → ℕ → ℕ → K → Sent K
  complete good m vq desc_idx len k = record {
    good = good;
    memory = update_used_ring m vq (record { id = desc_idx; len = len });
    vq = vq;
    kernel = k;
  }

  -- The return value of `scmi_handle_message` and the completion of the request.
  unfoldable pub complete_message : VirtQueue → ℕ → ℕ × Exchange K → Sent K
  complete_message vq desc_idx (code, x) =
      if code == 0
      then complete true x.memory vq desc_idx x.ctx.written x.kernel
      else complete false x.memory vq desc_idx 0 x.kernel

module _ {K : Type 0} (z : ZoneMem) (zone_id : ℕ) (kernel : ScmiKernel K) (dev : ScmiDev) where
  -- `scmi_handle_message` on the request's header and a fresh response.
  unfoldable pub handle_request : Memory → K → Iovec → Iovec → Result (ℕ × Exchange K)
  handle_request m k req resp =
      let hdr = read_header (load32 m req.iov_base) in
      scmi_handle_message kernel dev hdr.protocol_id hdr.msg_id hdr.token req
        (record { memory = m; ctx = scmi_resp_ctx_init resp; kernel = k })

  unfoldable pub virtq_tx_handle_one_request : Memory → VirtQueue → K → Result (Sent K)
  virtq_tx_handle_one_request m vq k =
      let desc_idx = next_avail m vq in
      elim (process_descriptor_chain_buf m z zone_id scmi_cfg vq desc_idx) [
        | fault ↦ faults
        | failed ↦ returns (complete false m (advance_avail vq) desc_idx 0 k)
        | ok (vq', vreq) ↦
            if chain_len vreq == 0
            then returns (complete false m (advance_avail vq') desc_idx 0 k)
            else elim (request_and_response vreq) [
              | none ↦ returns (complete false m vq' desc_idx 0 k)
              | some (req, resp) ↦
                  let answered : Result (Sent K) = do
                    r ← handle_request m k req resp
                    returns (complete_message vq' desc_idx r)
                  in if valid_request m req
                    then answered
                    else returns (complete false m vq' desc_idx 0 k)
            ]
      ]
