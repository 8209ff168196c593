-- ===== src/Scmi/Safety/BaseHandlers.antt =====
-- The handlers of tools/virtio/devices/scmi/base.c and the response buffer.
use hvisor_tool.Base.{
  ℕ, ◌+◌, ◌-◌, ◌*◌, ◌/◌, ◌≤◌, ◌<◌, ap, ◌∙◌, inl, inr, Bool, true, false, length, ltb, ◌==◌,
  if◌then◌else◌, arith, not, ◌&&◌, Bool-cases,
}
use hvisor_tool.Chain.{Iovec}
use hvisor_tool.Scmi.{
  success, err_support, err_params, err_entry, ScmiDev, Exchange, scmi_make_response,
  scmi_resp_write, payload,
}
use hvisor_tool.Scmi.Contained.{Ready, Answers, refuse_rule, if_rule}
use hvisor_tool.Scmi.Respond.{
  reply_rule, respond_checked_rule, made, make-made, write_room, write_no_room, filled-Answers,
  refused-Answers,
}
use hvisor_tool.Scmi.Rules.{validate_rule, case_rule, guard_rule}
use hvisor_tool.Scmi.Fills.{
  then-Fills, store8-Fills, store16-Fills, store32-Fills, strncpy-Fills, get_protocol_list-Fills,
  protocol_list_count_le,
}
use hvisor_tool.Scmi.Base.{
  proto_base, list_protocols, get_protocol_list, protocol_list_count, handle_base_attributes,
  handle_base_version, handle_base_vendor, handle_base_protocol_list, handle_base_discover_agent,
  handle_base_impl_version, handle_base_error_notify, virtio_scmi_base_handle_req,
}

module _ {K : Type 0} (dev : ScmiDev) (token : ℕ) (req : Iovec) {x : Exchange K}
    (ready : Ready x) where
  handle_base_version-Answers : Answers proto_base 0 token x (handle_base_version dev token req x)
  unfolding handle_base_version
  handle_base_version-Answers =
      validate_rule req.iov_len 4 x.ctx.capacity 12 ready
        (λ a b. respond_checked_rule proto_base 0 token 4 _ ready (store32-Fills _))

  handle_base_attributes-Answers :
      Answers proto_base 1 token x (handle_base_attributes dev token req x)
  unfolding handle_base_attributes
  handle_base_attributes-Answers = validate_rule req.iov_len 4 x.ctx.capacity 12 ready (λ a b.
      respond_checked_rule proto_base 1 token 4 _ ready (
        then-Fills 2 2 4 2 _ _
          (then-Fills 1 1 2 1 _ _ (store8-Fills (length dev.protocols)) (store8-Fills 1)
            (omega arith) (omega arith))
          (store16-Fills 0) (omega arith) (omega arith)))

  handle_base_vendor-Answers :
      (sub_vendor : Bool)
      → Answers proto_base
          (if sub_vendor then 4 else 3)
          token
          x
          (handle_base_vendor dev token req sub_vendor x)
  unfolding handle_base_vendor
  handle_base_vendor-Answers sub_vendor =
      validate_rule req.iov_len 4 x.ctx.capacity 24 ready (λ a b.
        respond_checked_rule proto_base (if sub_vendor then 4 else 3) token 16 _ ready
          (strncpy-Fills _ 16))

  handle_base_impl_version-Answers :
      Answers proto_base 5 token x (handle_base_impl_version dev token req x)
  unfolding handle_base_impl_version
  handle_base_impl_version-Answers =
      validate_rule req.iov_len 4 x.ctx.capacity 12 ready
        (λ a b. respond_checked_rule proto_base 5 token 4 _ ready (store32-Fills 1))

  handle_base_discover_agent-Answers :
      Answers proto_base 7 token x (handle_base_discover_agent dev token req x)
  unfolding handle_base_discover_agent
  handle_base_discover_agent-Answers = validate_rule req.iov_len 8 x.ctx.capacity 24 ready (λ a b.
      if_rule (not (payload x.memory req 0 == 0xffffffff) && not (payload x.memory req 0 == 0))
        (λ e. reply_rule proto_base 7 token err_entry ready)
        (λ e. respond_checked_rule proto_base 7 token 16 _ ready (strncpy-Fills _ 16)))

  handle_base_error_notify-Answers :
      Answers proto_base 8 token x (handle_base_error_notify dev token req x)
  unfolding handle_base_error_notify
  handle_base_error_notify-Answers =
      validate_rule req.iov_len 8 x.ctx.capacity 0 ready
        (λ a b. reply_rule proto_base 8 token success ready)

  list_protocols_room :
      length dev.protocols ≤ 16
      → 28 ≤ x.ctx.capacity
      → Answers proto_base 6 token x (
          list_protocols dev token req
            (payload x.memory req 0)
            (scmi_resp_write 20 (scmi_make_response proto_base 6 token success x).1))
  unfolding list_protocols
  list_protocols_room small room =
      let skip : ℕ = payload x.memory req 0 in
      let total : ℕ = length dev.protocols in
      let max_protos : ℕ = if ltb skip total then total - skip else 0 in
      let count : ℕ = protocol_list_count total skip max_protos in
      let few : count ≤ 16 = protocol_list_count_le total skip small in
      filled-Answers proto_base 6 token 20 (8 + (4 + (count + 3) / 4 * 4))
        (get_protocol_list dev skip max_protos) x (get_protocol_list-Fills dev skip small) room
        (omega arith) (omega arith)
        (ap (λ a. list_protocols dev token req skip (scmi_resp_write 20 a.1))
            (make-made proto_base 6 token success x ready.room)
          ∙ ap (list_protocols dev token req skip)
              (write_room proto_base 6 token 20 (made proto_base 6 token success x) room))

  list_protocols_no_room :
      x.ctx.capacity < 28
      → Answers proto_base 6 token x (
          list_protocols dev token req
            (payload x.memory req 0)
            (scmi_resp_write 20 (scmi_make_response proto_base 6 token success x).1))
  unfolding list_protocols
  list_protocols_no_room full =
      let skip : ℕ = payload x.memory req 0 in
      refused-Answers proto_base 6 token err_params x ready (omega arith) (
        ap (λ a. list_protocols dev token req skip (scmi_resp_write 20 a.1))
          (make-made proto_base 6 token success x ready.room)
        ∙ ap (list_protocols dev token req skip)
            (write_no_room proto_base 6 token 20 (made proto_base 6 token success x) full))

  handle_base_protocol_list-Answers :
      length dev.protocols ≤ 16
      → Answers proto_base 6 token x (handle_base_protocol_list dev token req x)
  unfolding handle_base_protocol_list
  handle_base_protocol_list-Answers small =
      validate_rule req.iov_len 8 x.ctx.capacity 16 ready (λ a b.
        elim (Bool-cases (ltb x.ctx.capacity 28)) [
          | inl less ↦ list_protocols_no_room (ground arith)
          | inr enough ↦ list_protocols_room small (ground arith)
        ])

module _ {K : Type 0} (dev : ScmiDev) (token : ℕ) (req : Iovec) {x : Exchange K} where
  -- The base protocol's function always returns, and writes within the response buffer only. If it
  -- returns 0, the response begins with the header of the request's message.
  pub virtio_scmi_base_handle_req-Answers :
      (msg_id : ℕ)
      → length dev.protocols ≤ 16
      → x.ctx.written ≤ x.ctx.capacity
      → Answers proto_base msg_id token x (virtio_scmi_base_handle_req dev token req msg_id x)
  unfolding virtio_scmi_base_handle_req
  virtio_scmi_base_handle_req-Answers msg_id small fits = guard_rule fits (λ ready.
      case_rule 0 (handle_base_version-Answers dev token req ready) (
        case_rule 1 (handle_base_attributes-Answers dev token req ready) (
          case_rule 8 (handle_base_error_notify-Answers dev token req ready) (
            case_rule 3 (handle_base_vendor-Answers dev token req ready false) (
              case_rule 4 (handle_base_vendor-Answers dev token req ready true) (
                case_rule 5 (handle_base_impl_version-Answers dev token req ready) (
                  case_rule 6 (handle_base_protocol_list-Answers dev token req ready small) (
                    case_rule 7 (handle_base_discover_agent-Answers dev token req ready)
                      (refuse_rule err_support fits (omega arith))))))))))
