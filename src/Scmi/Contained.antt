-- ===== src/Scmi/Contained.antt =====
-- What a handler of tools/virtio/devices/scmi may do to the response, and the rules by which the
-- building blocks of scmi_core.c keep to it.
use hvisor_tool.Base.{ℕ, ◌+◌, ◌≤◌, ◌<◌, ◌≡◌, ◌≢◌, ◌⊎◌, refl, Bool, true, false, if◌then◌else◌}
use hvisor_tool.Memory.{Memory, load32}
use hvisor_tool.Device.{Result, returns}
use hvisor_tool.Scmi.{Exchange, scmi_build_header}

-- Writing `size` bytes at a pointer changes no other byte.
pub record Fills (size : ℕ) (fill : Memory → ℕ → Memory) : Type 0 where
  pub frame : (m : Memory) (p a : ℕ) → (a < p) ⊎ (p + size ≤ a) → fill m p a ≡ m a

module _ {K : Type 0} where
  -- The response buffer is the same and no byte outside it has changed.
  pub record Within (x x' : Exchange K) : Type 0 where
    pub same_iov : x'.ctx.iov ≡ x.ctx.iov
    pub same_capacity : x'.ctx.capacity ≡ x.ctx.capacity
    pub fits : x'.ctx.written ≤ x.ctx.capacity
    pub outside :
        (a : ℕ)
        → (a < x.ctx.iov.iov_base) ⊎ (x.ctx.iov.iov_base + x.ctx.capacity ≤ a)
        → x'.memory a ≡ x.memory a

  -- There is room for a header and a status.
  pub record Ready (x : Exchange K) : Type 0 where
    pub room : 8 ≤ x.ctx.capacity
    pub fits : x.ctx.written ≤ x.ctx.capacity

  -- The handler returns. If it returns 0, the response begins with the header of a command of the
  -- given protocol, message and token.
  pub record Answers (protocol_id msg_id token : ℕ) (x : Exchange K) (r : Result (ℕ × Exchange K))
      : Type 0 where
    pub code : ℕ
    pub after : Exchange K
    pub returned : r ≡ returns (code, after)
    pub within : Within x after
    pub echo :
        code ≡ 0
        → (8 ≤ after.ctx.written)
          × (load32 after.memory x.ctx.iov.iov_base ≡ scmi_build_header protocol_id msg_id token)

  pub refuse_rule :
      {protocol_id msg_id token : ℕ} (code : ℕ) {x : Exchange K}
      → x.ctx.written ≤ x.ctx.capacity
      → code ≢ 0
      → Answers protocol_id msg_id token x (returns (code, x))
  refuse_rule code {x} fits ne = record {
    code = code;
    after = x;
    returned = refl;
    within = record { same_iov = refl; same_capacity = refl; fits = fits; outside = λ a h. refl };
    echo = λ e. absurd (ne e);
  }

  pub if_rule :
      {protocol_id msg_id token : ℕ} {x : Exchange K} (b : Bool) {r s : Result (ℕ × Exchange K)}
      → (b ≡ true → Answers protocol_id msg_id token x r)
      → (b ≡ false → Answers protocol_id msg_id token x s)
      → Answers protocol_id msg_id token x (if b then r else s)
  if_rule true f g = f refl
  if_rule false f g = g refl

  -- What the kernel module does, does not count.
  pub kernel_rule :
      {protocol_id msg_id token : ℕ} (x : Exchange K) (k : K) {r : Result (ℕ × Exchange K)}
      → Answers protocol_id msg_id token (record x { kernel = k }) r
      → Answers protocol_id msg_id token x r
  kernel_rule x k h = record {
    code = h.code;
    after = h.after;
    returned = h.returned;
    within = record {
      same_iov = h.within.same_iov;
      same_capacity = h.within.same_capacity;
      fits = h.within.fits;
      outside = h.within.outside;
    };
    echo = h.echo;
  }
