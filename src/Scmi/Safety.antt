-- ===== src/Scmi/Safety.antt =====
-- The functions of the protocols of tools/virtio/devices/scmi keep to the response buffer.
pub mod BaseHandlers
pub mod ClockHandlers
pub mod DomainHandlers
use hvisor_tool.Base.{
  inl, inr, ℕ, ◌+◌, ◌≤◌, ◌≡◌, ◌≢◌, subst, sym, Option, none, some, length, arith, refl,
  Option-cases, Bool-cases, Bool, true, false, ltb, ◌==◌, ==_iff, if◌then◌else◌, ◌^◌, ◌-◌,
}
use hvisor_tool.Memory.{null}
use hvisor_tool.Chain.{Iovec}
use hvisor_tool.Scmi.Base.{virtio_scmi_base_handle_req}
use hvisor_tool.Scmi.Clock.{virtio_scmi_clock_handle_req}
use hvisor_tool.Scmi.Domains.{virtio_scmi_power_handle_req, virtio_scmi_reset_handle_req}
use hvisor_tool.Device.{Result, returns}
use hvisor_tool.Scmi.{
  err_support, err_params, ScmiDev, Protocol, base_protocol, power_protocol, clock_protocol,
  reset_protocol, Exchange, ScmiKernel,
}
use hvisor_tool.Scmi.Contained.{Answers, refuse_rule}
use hvisor_tool.Scmi.Device.{
  registered, scmi_handle_message, call_handler, VirtioScmiInitParams, virtio_scmi_do_init,
}
use hvisor_tool.Scmi.Device.Registry.{IsTable, number, virtio_scmi_do_init-IsTable}
use BaseHandlers.{virtio_scmi_base_handle_req-Answers}
use ClockHandlers.{virtio_scmi_clock_handle_req-Answers}
use DomainHandlers.{virtio_scmi_power_handle_req-Answers, virtio_scmi_reset_handle_req-Answers}

module _ {K : Type 0} (kernel : ScmiKernel K) (dev : ScmiDev) (token : ℕ) (req : Iovec)
    {x : Exchange K} where
  call_handler-Answers :
      (h : Protocol) (msg_id : ℕ)
      → length dev.protocols ≤ 16
      → x.ctx.written ≤ x.ctx.capacity
      → Answers (number h) msg_id token x (call_handler kernel dev h msg_id token req x)
  unfolding call_handler
  call_handler-Answers base_protocol msg_id few fits =
      virtio_scmi_base_handle_req-Answers dev token req msg_id few fits
  call_handler-Answers power_protocol msg_id few fits =
      virtio_scmi_power_handle_req-Answers kernel dev token req msg_id fits
  call_handler-Answers clock_protocol msg_id few fits =
      virtio_scmi_clock_handle_req-Answers kernel dev token req msg_id fits
  call_handler-Answers reset_protocol msg_id few fits =
      virtio_scmi_reset_handle_req-Answers kernel dev token req msg_id fits

-- The message is refused with an error, and nothing at all is written.
abbrev pub Refuses : {K : Type 0} → Exchange K → Result (ℕ × Exchange K) → Type 0
Refuses x r = (code : ℕ) × (r ≡ returns (code, x)) × (code ≢ 0)

call_handler-null :
    {K : Type 0} (kernel : ScmiKernel K) (dev : ScmiDev) (h : Protocol) (msg_id token : ℕ)
    (req : Iovec) (x : Exchange K)
    → x.ctx.iov.iov_base ≡ null
    → call_handler kernel dev h msg_id token req x ≡ returns (err_params, x)
unfolding call_handler virtio_scmi_base_handle_req virtio_scmi_power_handle_req
    virtio_scmi_clock_handle_req virtio_scmi_reset_handle_req
call_handler-null kernel dev h msg_id token req x e = elim (Bool-cases (ltb x.ctx.capacity 8)) [
  | inl small ↦ go_small h small
  | inr room ↦ go_room h room
]
  where
    base_null : (x.ctx.iov.iov_base == null) ≡ true
    base_null = (==_iff x.ctx.iov.iov_base null).1 e

    go_small :
        (p : Protocol)
        → ltb x.ctx.capacity 8 ≡ true
        → call_handler kernel dev p msg_id token req x ≡ returns (err_params, x)
    go_small base_protocol s = rw s refl
    go_small power_protocol s = rw s refl
    go_small clock_protocol s = rw s refl
    go_small reset_protocol s = rw s refl

    go_room :
        (p : Protocol)
        → ltb x.ctx.capacity 8 ≡ false
        → call_handler kernel dev p msg_id token req x ≡ returns (err_params, x)
    go_room base_protocol s = rw (s, base_null) refl
    go_room power_protocol s = rw (s, base_null) refl
    go_room clock_protocol s = rw (s, base_null) refl
    go_room reset_protocol s = rw (s, base_null) refl

handle_message-null :
    {K : Type 0} (kernel : ScmiKernel K) (dev : ScmiDev) (protocol_id msg_id token : ℕ)
    (req : Iovec) (x : Exchange K)
    → x.ctx.iov.iov_base ≡ null
    → Refuses x (scmi_handle_message kernel dev protocol_id msg_id token req x)
unfolding scmi_handle_message
handle_message-null kernel dev protocol_id msg_id token req x e =
    elim (Option-cases (registered dev.protocols protocol_id)) [
      | inl q ↦ (err_support, rw (q, scmi_handle_message) refl, omega arith)
      | inr (h, q) ↦ (
        err_params,
        rw (q, scmi_handle_message) (call_handler-null kernel dev h msg_id token req x e),
        omega arith,
      )
    ]

message-Answers :
    {K : Type 0} (kernel : ScmiKernel K) (p : Option VirtioScmiInitParams)
    (protocol_id msg_id token : ℕ) (req : Iovec) (x : Exchange K)
    → x.ctx.written ≤ x.ctx.capacity
    → Answers protocol_id msg_id token x
        (scmi_handle_message kernel (virtio_scmi_do_init p) protocol_id msg_id token req x)
unfolding scmi_handle_message
message-Answers kernel p protocol_id msg_id token req x fits =
    let dev = virtio_scmi_do_init p in
    let t = virtio_scmi_do_init-IsTable p in
    elim (Option-cases (registered dev.protocols protocol_id)) [
      | inl e ↦ rw (e, scmi_handle_message) (refuse_rule err_support fits (omega arith))
      | inr (h, e) ↦
          rw (e, scmi_handle_message)
            (subst (λ n. Answers n msg_id token x (call_handler kernel dev h msg_id token req x))
              (t.own protocol_id h e)
              (call_handler-Answers kernel dev token req h msg_id t.few fits))
    ]

-- On a device that `virtio_scmi_do_init` has set up, `scmi_handle_message` returns for every protocol,
-- message, token and request. It keeps the response buffer and its capacity, counts at most that
-- many bytes as written, and changes no byte outside the buffer. If it returns 0, the response begins
-- with the header of a command of that protocol, message and token. If the response buffer is NULL, it
-- returns an error and writes nothing.
pub scmi_handle_message-Answers :
    {K : Type 0} (kernel : ScmiKernel K) (p : Option VirtioScmiInitParams)
    (protocol_id msg_id token : ℕ) (req : Iovec) (x : Exchange K)
    → x.ctx.written ≤ x.ctx.capacity
    → let r = scmi_handle_message kernel (virtio_scmi_do_init p) protocol_id msg_id token req x in
      Answers protocol_id msg_id token x r × (x.ctx.iov.iov_base ≡ null → Refuses x r)
scmi_handle_message-Answers kernel p protocol_id msg_id token req x fits = (
  message-Answers kernel p protocol_id msg_id token req x fits,
  handle_message-null kernel (virtio_scmi_do_init p) protocol_id msg_id token req x,
)
