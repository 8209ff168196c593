-- ===== src/Scmi/Safety/DomainHandlers.antt =====
-- The handlers of tools/virtio/devices/scmi/power.c and reset.c and the response buffer.
use hvisor_tool.Base.{ℕ, ◌≤◌, List, ltb, ◌==◌, arith, test_bit}
use hvisor_tool.Memory.{store32}
use hvisor_tool.Chain.{Iovec}
use hvisor_tool.Scmi.{err_support, err_range, ScmiDev, Exchange, ScmiKernel, payload}
use hvisor_tool.Scmi.Contained.{Ready, Answers, refuse_rule, if_rule}
use hvisor_tool.Scmi.Respond.{reply_rule, respond_checked_rule, respond_unchecked_rule}
use hvisor_tool.Scmi.Rules.{
  validate_rule, case_rule, guard_rule, domain_rule, answer_rule, set_rule,
}
use hvisor_tool.Scmi.Fills.{
  store32-Fills, write_power_attributes-Fills, write_reset_attributes-Fills,
}
use hvisor_tool.Scmi.Domains.{
  proto_power, proto_reset, write_power_attributes, write_reset_attributes, phys_id_of,
  handle_version, handle_protocol_attributes, handle_power_domain_attributes,
  handle_power_state_set, handle_power_state_get, virtio_scmi_power_handle_req,
  handle_reset_attributes, handle_reset, virtio_scmi_reset_handle_req,
}

module _ {K : Type 0} (kernel : ScmiKernel K) (dev : ScmiDev) (token : ℕ) (req : Iovec)
    {x : Exchange K} (ready : Ready x) where
  handle_version-Answers :
      (protocol_id : ℕ)
      → Answers protocol_id 0 token x (handle_version kernel dev token req protocol_id x)
  unfolding handle_version
  handle_version-Answers protocol_id =
      validate_rule req.iov_len 4 x.ctx.capacity 12 ready
        (λ a b. respond_checked_rule protocol_id 0 token 4 _ ready (store32-Fills _))

  handle_protocol_attributes-Answers :
      (protocol_id : ℕ) (ids : List ℕ)
      → Answers protocol_id 1 token x
          (handle_protocol_attributes kernel dev token req protocol_id ids x)
  unfolding handle_protocol_attributes
  handle_protocol_attributes-Answers protocol_id ids =
      validate_rule req.iov_len 4 x.ctx.capacity 12 ready
        (λ a b. respond_checked_rule protocol_id 1 token 4 _ ready (store32-Fills _))

  handle_power_domain_attributes-Answers :
      Answers proto_power 3 token x (handle_power_domain_attributes kernel dev token req x)
  unfolding handle_power_domain_attributes
  handle_power_domain_attributes-Answers =
      domain_rule 3 req.iov_len 8
        (phys_id_of kernel dev token req dev.power_ids (payload x.memory req 0)) ready
        (λ phys_id.
          if_rule (ltb x.ctx.capacity 28) (λ less. reply_rule proto_power 3 token err_range ready)
            (λ enough.
              answer_rule 3 (kernel.power_get_attributes phys_id x.kernel) ready (λ name y same r.
                respond_unchecked_rule proto_power 3 token 20 (write_power_attributes name)
                  (ground (arith, same)) (write_power_attributes-Fills name))))

  handle_power_state_set-Answers :
      Answers proto_power 4 token x (handle_power_state_set kernel dev token req x)
  unfolding handle_power_state_set
  handle_power_state_set-Answers =
      domain_rule 4 req.iov_len 16
        (phys_id_of kernel dev token req dev.power_ids (payload x.memory req 1)) ready
        (λ phys_id.
          if_rule (test_bit (payload x.memory req 0) 0)
            (λ async. reply_rule proto_power 4 token err_support ready)
            (λ sync. set_rule 4 _ _ ready))

  handle_power_state_get-Answers :
      Answers proto_power 5 token x (handle_power_state_get kernel dev token req x)
  unfolding handle_power_state_get
  handle_power_state_get-Answers =
      domain_rule 5 req.iov_len 8
        (phys_id_of kernel dev token req dev.power_ids (payload x.memory req 0)) ready
        (λ phys_id.
          if_rule (ltb x.ctx.capacity 12) (λ less. reply_rule proto_power 5 token err_range ready)
            (λ enough.
              answer_rule 5 (kernel.power_state_get phys_id x.kernel) ready (λ state y same r.
                respond_checked_rule proto_power 5 token 4 (λ m p. store32 m p state) r
                  (store32-Fills state))))

  handle_reset_attributes-Answers :
      Answers proto_reset 3 token x (handle_reset_attributes kernel dev token req x)
  unfolding handle_reset_attributes
  handle_reset_attributes-Answers =
      domain_rule 3 req.iov_len 8
        (phys_id_of kernel dev token req dev.reset_ids (payload x.memory req 0)) ready
        (λ phys_id.
          if_rule (ltb x.ctx.capacity 32) (λ less. reply_rule proto_reset 3 token err_range ready)
            (λ enough.
              respond_unchecked_rule proto_reset 3 token 24 (write_reset_attributes phys_id)
                (ground arith) (write_reset_attributes-Fills phys_id)))

  handle_reset-Answers : Answers proto_reset 4 token x (handle_reset kernel dev token req x)
  unfolding handle_reset
  handle_reset-Answers =
      domain_rule 4 req.iov_len 16
        (phys_id_of kernel dev token req dev.reset_ids (payload x.memory req 0)) ready
        (λ phys_id.
          if_rule (test_bit (payload x.memory req 1) 2)
            (λ async. reply_rule proto_reset 4 token err_support ready)
            (λ sync. set_rule 4 _ _ ready))

module _ {K : Type 0} (kernel : ScmiKernel K) (dev : ScmiDev) (token : ℕ) (req : Iovec)
    {x : Exchange K} where
  pub virtio_scmi_power_handle_req-Answers :
      (msg_id : ℕ)
      → x.ctx.written ≤ x.ctx.capacity
      → Answers proto_power msg_id token x
          (virtio_scmi_power_handle_req kernel dev token req msg_id x)
  unfolding virtio_scmi_power_handle_req
  virtio_scmi_power_handle_req-Answers msg_id fits = guard_rule fits (λ ready.
      case_rule 0 (handle_version-Answers kernel dev token req ready proto_power) (
        case_rule 1
          (handle_protocol_attributes-Answers kernel dev token req ready proto_power dev.power_ids)
          (if_rule (msg_id == 2) (λ e. reply_rule proto_power msg_id token err_support ready)
            (λ e. case_rule 3 (handle_power_domain_attributes-Answers kernel dev token req ready) (
              case_rule 4 (handle_power_state_set-Answers kernel dev token req ready) (
                case_rule 5 (handle_power_state_get-Answers kernel dev token req ready) (
                  case_rule 6 (reply_rule proto_power 6 token err_support ready)
                    (refuse_rule err_support fits (omega arith)))))))))

  pub virtio_scmi_reset_handle_req-Answers :
      (msg_id : ℕ)
      → x.ctx.written ≤ x.ctx.capacity
      → Answers proto_reset msg_id token x
          (virtio_scmi_reset_handle_req kernel dev token req msg_id x)
  unfolding virtio_scmi_reset_handle_req
  virtio_scmi_reset_handle_req-Answers msg_id fits = guard_rule fits (λ ready.
      case_rule 0 (handle_version-Answers kernel dev token req ready proto_reset) (
        case_rule 1
          (handle_protocol_attributes-Answers kernel dev token req ready proto_reset dev.reset_ids)
          (case_rule 3 (handle_reset_attributes-Answers kernel dev token req ready) (
            case_rule 4 (handle_reset-Answers kernel dev token req ready) (
              case_rule 5 (reply_rule proto_reset 5 token err_support ready)
                (refuse_rule err_support fits (omega arith)))))))
