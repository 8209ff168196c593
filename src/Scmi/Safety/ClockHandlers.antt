-- ===== src/Scmi/Safety/ClockHandlers.antt =====
-- The handlers of tools/virtio/devices/scmi/clock.c and the response buffer.
use hvisor_tool.Base.{ℕ, ◌%◌, ◌^◌, ◌≤◌, ltb, ◌==◌, arith, not}
use hvisor_tool.Chain.{Iovec}
use hvisor_tool.Scmi.{err_support, err_params, err_range, ScmiDev, Exchange, ScmiKernel, payload}
use hvisor_tool.Scmi.Contained.{Ready, Answers, refuse_rule, if_rule}
use hvisor_tool.Scmi.Respond.{reply_rule, respond_checked_rule, respond_unchecked_rule}
use hvisor_tool.Scmi.Rules.{
  validate_rule, case_rule, guard_rule, domain_rule, answer_rule, set_rule,
}
use hvisor_tool.Scmi.Fills.{
  store32-Fills, write_rate-Fills, write_protocol_attributes-Fills, write_clock_attributes-Fills,
  write_rates-Fills, write_config-Fills, write_name-Fills,
}
use hvisor_tool.Scmi.Clock.{
  proto_clock, write_rate, write_config, write_name, write_clock_attributes, clk_phys_id,
  handle_clock_version, handle_clock_protocol_attributes, handle_clock_clock_attributes,
  handle_clock_describe_rates, handle_clock_rate_get, handle_clock_rate_set,
  handle_clock_config_get, handle_clock_config_set, handle_clock_name_get, clock_message,
  virtio_scmi_clock_handle_req,
}

module _ {K : Type 0} (kernel : ScmiKernel K) (dev : ScmiDev) (token : ℕ) (req : Iovec)
    {x : Exchange K} (ready : Ready x) where
  handle_clock_version-Answers :
      Answers proto_clock 0 token x (handle_clock_version kernel dev token req x)
  unfolding handle_clock_version
  handle_clock_version-Answers =
      validate_rule req.iov_len 4 x.ctx.capacity 12 ready
        (λ a b. respond_checked_rule proto_clock 0 token 4 _ ready (store32-Fills _))

  handle_clock_protocol_attributes-Answers :
      Answers proto_clock 1 token x (handle_clock_protocol_attributes kernel dev token req x)
  unfolding handle_clock_protocol_attributes
  handle_clock_protocol_attributes-Answers =
      validate_rule req.iov_len 4 x.ctx.capacity 12 ready (λ a b.
        respond_unchecked_rule proto_clock 1 token 4 _ b (write_protocol_attributes-Fills dev))

  handle_clock_clock_attributes-Answers :
      Answers proto_clock 3 token x (handle_clock_clock_attributes kernel dev token req x)
  unfolding handle_clock_clock_attributes
  handle_clock_clock_attributes-Answers =
      domain_rule 3 req.iov_len 8 (clk_phys_id kernel dev token req (payload x.memory req 0)) ready
        (λ phys_id.
          if_rule (ltb x.ctx.capacity 28) (λ less. reply_rule proto_clock 3 token err_range ready)
            (λ enough.
              answer_rule 3 (kernel.clock_get_attributes phys_id x.kernel) ready (λ a y same r.
                respond_unchecked_rule proto_clock 3 token 20 (write_clock_attributes a)
                  (ground (arith, same)) (write_clock_attributes-Fills a))))

  handle_clock_describe_rates-Answers :
      Answers proto_clock 4 token x (handle_clock_describe_rates kernel dev token req x)
  unfolding handle_clock_describe_rates
  handle_clock_describe_rates-Answers =
      domain_rule 4 req.iov_len 12 (clk_phys_id kernel dev token req (payload x.memory req 0)) ready
        (λ phys_id.
          if_rule (ltb x.ctx.capacity 36) (λ less. reply_rule proto_clock 4 token err_range ready)
            (λ enough.
              if_rule (ltb 0 (payload x.memory req 1))
                (λ index. reply_rule proto_clock 4 token err_range ready)
                (λ start.
                  respond_unchecked_rule proto_clock 4 token 28 _ (ground arith)
                    write_rates-Fills)))

  handle_clock_rate_set-Answers :
      Answers proto_clock 5 token x (handle_clock_rate_set kernel dev token req x)
  unfolding handle_clock_rate_set
  handle_clock_rate_set-Answers =
      domain_rule 5 req.iov_len 20 (clk_phys_id kernel dev token req (payload x.memory req 1)) ready
        (λ phys_id.
          if_rule (not (payload x.memory req 0 % 2 == 0))
            (λ async. reply_rule proto_clock 5 token err_support ready)
            (λ sync. set_rule 5 _ _ ready))

  handle_clock_rate_get-Answers :
      Answers proto_clock 6 token x (handle_clock_rate_get kernel dev token req x)
  unfolding handle_clock_rate_get
  handle_clock_rate_get-Answers =
      domain_rule 6 req.iov_len 8 (clk_phys_id kernel dev token req (payload x.memory req 0)) ready
        (λ phys_id.
          if_rule (ltb x.ctx.capacity 16) (λ less. reply_rule proto_clock 6 token err_range ready)
            (λ enough.
              answer_rule 6 (kernel.clock_rate_get phys_id x.kernel) ready (λ rate y same r.
                respond_checked_rule proto_clock 6 token 8 (write_rate rate) r
                  (write_rate-Fills rate))))

  handle_clock_config_set-Answers :
      Answers proto_clock 7 token x (handle_clock_config_set kernel dev token req x)
  unfolding handle_clock_config_set
  handle_clock_config_set-Answers =
      domain_rule 7 req.iov_len 12 (clk_phys_id kernel dev token req (payload x.memory req 0)) ready
        (λ phys_id. set_rule 7 _ _ ready)

  handle_clock_config_get-Answers :
      Answers proto_clock 8 token x (handle_clock_config_get kernel dev token req x)
  unfolding handle_clock_config_get
  handle_clock_config_get-Answers =
      domain_rule 8 req.iov_len 12 (clk_phys_id kernel dev token req (payload x.memory req 0)) ready
        (λ phys_id.
          if_rule (not (payload x.memory req 1 % 2 ^ 8 == 0))
            (λ flags. reply_rule proto_clock 8 token err_params ready)
            (λ plain.
              if_rule (ltb x.ctx.capacity 20)
                (λ less. reply_rule proto_clock 8 token err_range ready)
                (λ enough.
                  answer_rule 8 (kernel.clock_config_get phys_id (payload x.memory req 1) x.kernel)
                    ready
                    (λ config y same r.
                      respond_checked_rule proto_clock 8 token 12 (write_config config) r
                        (write_config-Fills config)))))

  handle_clock_name_get-Answers :
      Answers proto_clock 9 token x (handle_clock_name_get kernel dev token req x)
  unfolding handle_clock_name_get
  handle_clock_name_get-Answers =
      domain_rule 9 req.iov_len 8 (clk_phys_id kernel dev token req (payload x.memory req 0)) ready
        (λ phys_id.
          if_rule (ltb x.ctx.capacity 76) (λ less. reply_rule proto_clock 9 token err_range ready)
            (λ enough.
              answer_rule 9 (kernel.clock_name_get phys_id x.kernel) ready (λ name y same r.
                respond_unchecked_rule proto_clock 9 token 68 (write_name name)
                  (ground (arith, same)) (write_name-Fills name))))

module _ {K : Type 0} (kernel : ScmiKernel K) (dev : ScmiDev) (token : ℕ) (req : Iovec)
    {x : Exchange K} where
  -- The clock protocol's function always returns, and writes within the response buffer only. If it
  -- returns 0, the response begins with the header of the request's message.
  pub virtio_scmi_clock_handle_req-Answers :
      (msg_id : ℕ)
      → x.ctx.written ≤ x.ctx.capacity
      → Answers proto_clock msg_id token x
          (virtio_scmi_clock_handle_req kernel dev token req msg_id x)
  unfolding virtio_scmi_clock_handle_req clock_message
  virtio_scmi_clock_handle_req-Answers msg_id fits = guard_rule fits (λ ready.
      case_rule 0 (handle_clock_version-Answers kernel dev token req ready) (
        case_rule 1 (handle_clock_protocol_attributes-Answers kernel dev token req ready) (
          case_rule 3 (handle_clock_clock_attributes-Answers kernel dev token req ready) (
            case_rule 4 (handle_clock_describe_rates-Answers kernel dev token req ready) (
              case_rule 5 (handle_clock_rate_set-Answers kernel dev token req ready) (
                case_rule 6 (handle_clock_rate_get-Answers kernel dev token req ready) (
                  case_rule 7 (handle_clock_config_set-Answers kernel dev token req ready) (
                    case_rule 8 (handle_clock_config_get-Answers kernel dev token req ready) (
                      case_rule 9 (handle_clock_name_get-Answers kernel dev token req ready)
                        (refuse_rule err_support fits (omega arith)))))))))))
