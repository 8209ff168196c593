-- ===== src/Scmi/Respond.antt =====
-- The building blocks of responses in tools/virtio/devices/scmi/scmi_core.c: what they leave of the
-- response buffer, and the rules by which the handlers that use them keep to it.
use hvisor_tool.Base.{
  ℕ, ◌+◌, ◌^◌, ◌≤◌, ◌<◌, ◌≡◌, ◌≢◌, ◌⊎◌, refl, ap, ◌∙◌, inl, inr, Bool, true, false, none, some, ltb,
  arith, Bool-cases,
}
use hvisor_tool.Memory.{Memory, load32, store32}
use hvisor_tool.Memory.Laws.{store32_frame, load32-store32_self, load32-store32_disjoint}
use hvisor_tool.Device.{Result, returns}
use hvisor_tool.Scmi.{
  success, err_params, Exchange, scmi_build_header, scmi_make_response, scmi_resp_write, reply,
  respond, fill_in,
}
use hvisor_tool.Scmi.Contained.{Fills, Ready, Answers}

build-lt : (protocol_id msg_id token : ℕ) → scmi_build_header protocol_id msg_id token < 2 ^ 32
unfolding scmi_build_header
build-lt protocol_id msg_id token = omega arith

module _ {K : Type 0} (protocol_id msg_id token : ℕ) where
  abbrev pub made : ℕ → Exchange K → Exchange K
  made status x = record x {
    memory =
        store32 (store32 x.memory x.ctx.iov.iov_base (scmi_build_header protocol_id msg_id token))
          (x.ctx.iov.iov_base + 4) status;
    ctx = record (x.ctx) { written = 8 };
  }

  pub made-outside :
      (status : ℕ) (x : Exchange K) (a : ℕ)
      → (a < x.ctx.iov.iov_base) ⊎ (x.ctx.iov.iov_base + 8 ≤ a)
      → (made status x).memory a ≡ x.memory a
  made-outside status x a h =
      let b = x.ctx.iov.iov_base in
      let header = scmi_build_header protocol_id msg_id token in
      store32_frame (store32 x.memory b header) (b + 4) status a (ground arith)
      ∙ store32_frame x.memory b header a (ground arith)

  pub made-header :
      (status : ℕ) (x : Exchange K)
      → load32 (made status x).memory x.ctx.iov.iov_base
        ≡ scmi_build_header protocol_id msg_id token
  made-header status x =
      let b = x.ctx.iov.iov_base in
      let header : ℕ = scmi_build_header protocol_id msg_id token in
      load32-store32_disjoint (store32 x.memory b header) (b + 4) b status (inl (omega arith))
      ∙ load32-store32_self x.memory b header
      ∙ omega (arith, build-lt protocol_id msg_id token)

  pub make-made :
      (status : ℕ) (x : Exchange K)
      → 8 ≤ x.ctx.capacity
      → scmi_make_response protocol_id msg_id token status x ≡ (0, made status x)
  unfolding scmi_make_response
  make-made status x h = ground arith

  pub reply_rule :
      (status : ℕ) {x : Exchange K}
      → Ready x
      → Answers protocol_id msg_id token x (reply protocol_id msg_id token status x)
  unfolding reply
  reply_rule status {x} ready = record {
    code = 0;
    after = made status x;
    returned = rw (make-made status x ready.room) refl;
    within = record {
      same_iov = refl;
      same_capacity = refl;
      fits = ready.room;
      outside = λ a h. made-outside status x a (ground (arith, ready.room));
    };
    echo = λ e. (omega arith, made-header status x);
  }

  abbrev pub filled : ℕ → (Memory → ℕ → Memory) → Exchange K → Exchange K
  filled written fill x = record x {
    memory = fill (made success x).memory (x.ctx.iov.iov_base + 8);
    ctx = record (x.ctx) { written = written };
  }

  pub write_room :
      (size : ℕ) (y : Exchange K)
      → y.ctx.written + size ≤ y.ctx.capacity
      → scmi_resp_write size y ≡ (
        some (y.ctx.iov.iov_base + y.ctx.written),
        record y { ctx = record (y.ctx) { written = y.ctx.written + size } },
      )
  unfolding scmi_resp_write
  write_room size y h = ground arith

  pub write_no_room :
      (size : ℕ) (y : Exchange K)
      → y.ctx.capacity < y.ctx.written + size
      → scmi_resp_write size y ≡ (none, y)
  unfolding scmi_resp_write
  write_no_room size y h = ground arith

  respond_room :
      (unchecked : Bool) (size : ℕ) (fill : Memory → ℕ → Memory) (x : Exchange K)
      → 8 + size ≤ x.ctx.capacity
      → respond unchecked protocol_id msg_id token size fill x
        ≡ returns (success, filled (8 + size) fill x)
  unfolding respond fill_in
  respond_room unchecked size fill x h =
      ap (λ a. fill_in unchecked fill (scmi_resp_write size a.1))
        (make-made success x (omega arith))
      ∙ ap (fill_in unchecked fill) (write_room size (made success x) h)

  respond_no_room :
      (size : ℕ) (fill : Memory → ℕ → Memory) (x : Exchange K)
      → 8 ≤ x.ctx.capacity
      → x.ctx.capacity < 8 + size
      → respond false protocol_id msg_id token size fill x ≡ returns (err_params, made success x)
  unfolding respond fill_in
  respond_no_room size fill x h less =
      ap (λ a. fill_in false fill (scmi_resp_write size a.1)) (make-made success x h)
      ∙ ap (fill_in false fill) (write_no_room size (made success x) less)

  pub filled-Answers :
      (size written : ℕ) (fill : Memory → ℕ → Memory) (x : Exchange K)
      → Fills size fill
      → 8 + size ≤ x.ctx.capacity
      → 8 ≤ written
      → written ≤ x.ctx.capacity
      → {r : Result (ℕ × Exchange K)} → r ≡ returns (success, filled written fill x)
      → Answers protocol_id msg_id token x r
  unfolding load32
  filled-Answers size written fill x f room long short {r} e =
      let b = x.ctx.iov.iov_base in
      let m = (made success x).memory in
      record {
        code = 0;
        after = filled written fill x;
        returned = e;
        within = record {
          same_iov = refl;
          same_capacity = refl;
          fits = short;
          outside =
              λ a h. f.frame m (b + 8) a (ground arith) ∙ made-outside success x a (ground arith);
        };
        echo = λ q. (
          long,
          load32_same m (fill m (b + 8)) b (λ a h. f.frame m (b + 8) a (inl (omega arith)))
              ∙ made-header success x,
        );
      }
    where
      load32_same :
          (m m' : Memory) (b : ℕ) → ((a : ℕ) → a < b + 4 → m' a ≡ m a) → load32 m' b ≡ load32 m b
      load32_same m m' b h = ground (
        arith,
        h b (omega arith),
        h (b + 1) (omega arith),
        h (b + 2) (omega arith),
        h (b + 2 + 1) (omega arith),
      )

  -- A response that was begun and is given up.
  pub refused-Answers :
      (code : ℕ) (x : Exchange K)
      → Ready x
      → code ≢ 0
      → {r : Result (ℕ × Exchange K)} → r ≡ returns (code, made success x)
      → Answers protocol_id msg_id token x r
  refused-Answers code x ready ne {r} e = record {
    code = code;
    after = made success x;
    returned = e;
    within = record {
      same_iov = refl;
      same_capacity = refl;
      fits = ready.room;
      outside = λ a h. made-outside success x a (ground (arith, ready.room));
    };
    echo = λ q. absurd (ne q);
  }

  pub respond_checked_rule :
      (size : ℕ) (fill : Memory → ℕ → Memory) {x : Exchange K}
      → Ready x
      → Fills size fill
      → Answers protocol_id msg_id token x (respond false protocol_id msg_id token size fill x)
  respond_checked_rule size fill {x} ready f = elim (Bool-cases (ltb x.ctx.capacity (8 + size))) [
    | inr enough ↦
        let room : 8 + size ≤ x.ctx.capacity = ground arith in
        filled-Answers size (8 + size) fill x f room (omega arith) room
          (respond_room false size fill x room)
    | inl less ↦
        refused-Answers err_params x ready (omega arith)
          (respond_no_room size fill x ready.room (ground arith))
  ]

  pub respond_unchecked_rule :
      (size : ℕ) (fill : Memory → ℕ → Memory) {x : Exchange K}
      → 8 + size ≤ x.ctx.capacity
      → Fills size fill
      → Answers protocol_id msg_id token x (respond true protocol_id msg_id token size fill x)
  respond_unchecked_rule size fill {x} room f =
      filled-Answers size (8 + size) fill x f room (omega arith) room
        (respond_room true size fill x room)
