-- ===== src/Scmi/Rules.antt =====
-- The rules for the shapes of the handlers of tools/virtio/devices/scmi: a validated request, a `switch`
-- over the message, and the guards before it.
use hvisor_tool.Base.{
  ℕ, ◌≤◌, ◌≡◌, refl, subst, not, ltb, ◌==◌, if◌then◌else◌, arith, Option, none, some,
}
use hvisor_tool.Memory.{null}
use hvisor_tool.Device.{Result, returns}
use hvisor_tool.Scmi.{
  success, err_params, err_entry, err_generic, Exchange, scmi_validate_request, reply,
}
use hvisor_tool.Scmi.Contained.{Ready, Answers, refuse_rule, if_rule, kernel_rule}
use hvisor_tool.Scmi.Respond.{reply_rule}

-- The rules for the shapes of the handlers.
module _ {K : Type 0} {protocol_id token : ℕ} where
  pub validate_rule :
      {msg_id : ℕ} (size least room most : ℕ) {x : Exchange K} {r : Result (ℕ × Exchange K)}
      → Ready x
      → (least ≤ size → most ≤ room → Answers protocol_id msg_id token x r)
      → Answers protocol_id msg_id token x (
          if not (scmi_validate_request size least room most == success)
          then returns (scmi_validate_request size least room most, x)
          else r)
  unfolding scmi_validate_request
  validate_rule size least room most ready f =
      if_rule _
        (λ e. refuse_rule (scmi_validate_request size least room most) ready.fits (ground arith))
        (λ e. f (ground arith) (ground arith))

  -- One `case` of a `switch` over the message.
  pub case_rule :
      {msg_id : ℕ} (k : ℕ) {x : Exchange K} {r s : Result (ℕ × Exchange K)}
      → Answers protocol_id k token x r
      → Answers protocol_id msg_id token x s
      → Answers protocol_id msg_id token x (if msg_id == k then r else s)
  case_rule {msg_id} k {x} {r} {s} h g =
      if_rule (msg_id == k)
        (λ e.
          subst (λ n. Answers protocol_id n token x r) (let q : k ≡ msg_id = ground arith in q) h)
        (λ e. g)

  -- The guards of a protocol's function, before the `switch`.
  pub guard_rule :
      {msg_id : ℕ} {x : Exchange K} {r : Result (ℕ × Exchange K)}
      → x.ctx.written ≤ x.ctx.capacity
      → (Ready x → Answers protocol_id msg_id token x r)
      → Answers protocol_id msg_id token x (
          if ltb x.ctx.capacity 8
          then returns (err_params, x)
          else if x.ctx.iov.iov_base == null
          then returns (err_params, x)
          else r)
  guard_rule {msg_id} {x} fits f =
      if_rule (ltb x.ctx.capacity 8) (λ e. refuse_rule err_params fits (omega arith))
        (λ e.
          if_rule (x.ctx.iov.iov_base == null) (λ q. refuse_rule err_params fits (omega arith))
            (λ q. f (record { room = ground arith; fits = fits })))

  -- A handler that takes the id of a domain: a short request, then an id that is not known.
  pub domain_rule :
      (msg_id size least : ℕ) {x : Exchange K} (o : Option ℕ) {f : ℕ → Result (ℕ × Exchange K)}
      → Ready x
      → ((phys_id : ℕ) → Answers protocol_id msg_id token x (f phys_id))
      → Answers protocol_id msg_id token x (
          if ltb size least then returns (err_params, x) else elim o [
            | none ↦ reply protocol_id msg_id token err_entry x
            | some phys_id ↦ f phys_id
          ])
  domain_rule msg_id size least none ready h =
      if_rule (ltb size least) (λ e. refuse_rule err_params ready.fits (omega arith))
        (λ e. reply_rule protocol_id msg_id token err_entry ready)
  domain_rule msg_id size least (some phys_id) ready h =
      if_rule (ltb size least) (λ e. refuse_rule err_params ready.fits (omega arith))
        (λ e. h phys_id)

  -- A response with what the kernel module answers.
  pub answer_rule :
      {A : Type 0} (msg_id : ℕ) {x : Exchange K} (call : Option A × K)
      {f : A → Exchange K → Result (ℕ × Exchange K)}
      → Ready x
      → ((a : A) (y : Exchange K)
          → y.ctx ≡ x.ctx
          → Ready y
          → Answers protocol_id msg_id token y (f a y))
      → Answers protocol_id msg_id token x (elim call.0 [
        | none ↦ reply protocol_id msg_id token err_generic (record x { kernel = call.1 })
        | some a ↦ f a (record x { kernel = call.1 })
      ])
  answer_rule msg_id {x} (none, k) ready h = kernel_rule x k (
      reply_rule protocol_id msg_id token err_generic {x = record x { kernel = k }}
        (record { room = ready.room; fits = ready.fits }))
  answer_rule msg_id {x} (some a, k) ready h =
      kernel_rule x k
        (h a (record x { kernel = k }) refl (record { room = ready.room; fits = ready.fits }))

  -- A reply with a status, after a call of the kernel module.
  pub set_rule :
      (msg_id status : ℕ) {x : Exchange K} (k : K)
      → Ready x
      → Answers protocol_id msg_id token x
          (reply protocol_id msg_id token status (record x { kernel = k }))
  set_rule msg_id status {x} k ready = kernel_rule x k (
      reply_rule protocol_id msg_id token status {x = record x { kernel = k }}
        (record { room = ready.room; fits = ready.fits }))
