-- ===== src/Scmi/Base.antt =====
-- The base protocol of tools/virtio/devices/scmi/base.c.
use hvisor_tool.Base.{
  ℕ, zero, suc, ◌+◌, ◌-◌, ◌*◌, ◌/◌, ◌%◌, ◌^◌, min, bit_or, Bool, true, false, not, ◌&&◌, List, [],
  ◌∷◌, Option, none, some, get_elem?, length, ltb, leb, ◌==◌, if◌then◌else◌,
}
use hvisor_tool.Memory.{Memory, null, load32, store8, store16, store32}
use hvisor_tool.Chain.{Iovec}
use hvisor_tool.Device.{Result, returns}
use hvisor_tool.Scmi.{
  success, err_support, err_params, err_entry, ScmiDev, Protocol, Exchange, scmi_validate_request,
  scmi_make_response, scmi_resp_write, payload, strncpy, reply, respond,
}

-- SCMI_PROTO_ID_BASE and SCMI_BASE_VERSION
abbrev pub proto_base : ℕ
proto_base = 0x10

abbrev pub base_version : ℕ
base_version = 0x20001

-- "HVIS", "SUB_HVIS", "OSPM" and "platform"
abbrev vendor : List ℕ
vendor = 72 ∷ 86 ∷ 73 ∷ 83 ∷ []

abbrev sub_vendor_name : List ℕ
sub_vendor_name = 83 ∷ 85 ∷ 66 ∷ 95 ∷ 72 ∷ 86 ∷ 73 ∷ 83 ∷ []

abbrev ospm : List ℕ
ospm = 79 ∷ 83 ∷ 80 ∷ 77 ∷ []

abbrev platform : List ℕ
platform = 112 ∷ 108 ∷ 97 ∷ 116 ∷ 102 ∷ 111 ∷ 114 ∷ 109 ∷ []

-- The loop of `get_protocol_list`, for `n` protocols, the next of which goes to place `i`.
unfoldable pub write_slots : List (ℕ × Protocol) → ℕ → ℕ → ℕ → Memory → ℕ → Memory
write_slots protocols skip i zero m p = m
write_slots protocols skip i (suc n) m p =
    let slot : ℕ = p + 4 + 4 * (i / 4) in
    let cleared : Memory = if i % 4 == 0 then store32 m slot 0 else m in
    elim (get_elem? protocols (skip + i)) [
      | none ↦ m
      | some (id, h) ↦
          write_slots protocols skip (i + 1) n
            (store32 cleared slot (bit_or (load32 cleared slot) (id % 2 ^ 8 * 2 ^ (i % 4 * 8)))) p
    ]

-- The number of protocols that `get_protocol_list` returns; `skip` is an `int` there.
unfoldable pub protocol_list_count : ℕ → ℕ → ℕ → ℕ
protocol_list_count total skip limit =
    if ltb skip (2 ^ 31)
    then if leb total skip then 0 else min (total - skip) limit
    else min (total + (2 ^ 32 - skip)) limit

unfoldable pub get_protocol_list : ScmiDev → ℕ → ℕ → Memory → ℕ → Memory
get_protocol_list dev skip limit m p =
    let count = protocol_list_count (length dev.protocols) skip limit in
    write_slots dev.protocols skip 0 count (store32 m p count) p

module _ {K : Type 0} (dev : ScmiDev) (token : ℕ) (req : Iovec) where
  unfoldable pub handle_base_attributes : Exchange K → Result (ℕ × Exchange K)
  handle_base_attributes x =
      let ret = scmi_validate_request req.iov_len 4 x.ctx.capacity 12 in
      if not (ret == success)
      then returns (ret, x)
      else respond false proto_base 1 token 4
          (λ m p. store16 (store8 (store8 m p (length dev.protocols)) (p + 1) 1) (p + 2) 0) x

  unfoldable pub handle_base_version : Exchange K → Result (ℕ × Exchange K)
  handle_base_version x =
      let ret = scmi_validate_request req.iov_len 4 x.ctx.capacity 12 in
      if not (ret == success)
      then returns (ret, x)
      else respond false proto_base 0 token 4 (λ m p. store32 m p base_version) x

  unfoldable pub handle_base_vendor : Bool → Exchange K → Result (ℕ × Exchange K)
  handle_base_vendor sub_vendor x =
      let ret = scmi_validate_request req.iov_len 4 x.ctx.capacity 24 in
      if not (ret == success)
      then returns (ret, x)
      else respond false proto_base (if sub_vendor then 4 else 3) token 16
          (λ m p. strncpy m p (if sub_vendor then sub_vendor_name else vendor) 16) x

  -- The end of `handle_base_protocol_list`, at the pointer that `scmi_resp_write` returned. The bytes
  -- that are counted may be fewer than those that were reserved.
  unfoldable pub list_protocols : ℕ → Option ℕ × Exchange K → Result (ℕ × Exchange K)
  list_protocols skip (none, x) = returns (err_params, x)
  list_protocols skip (some p, x) =
      let total = length dev.protocols in
      let max_protos = if ltb skip total then total - skip else 0 in
      let count = protocol_list_count total skip max_protos in
      returns (
        success,
        record x {
          memory = get_protocol_list dev skip max_protos x.memory p;
          ctx = record (x.ctx) { written = 8 + (4 + (count + 3) / 4 * 4) };
        },
      )

  unfoldable pub handle_base_protocol_list : Exchange K → Result (ℕ × Exchange K)
  handle_base_protocol_list x =
      let ret = scmi_validate_request req.iov_len 8 x.ctx.capacity 16 in
      let skip = payload x.memory req 0 in
      let (made, x1) = scmi_make_response proto_base 6 token success x in
      if not (ret == success) then returns (ret, x) else list_protocols skip (scmi_resp_write 20 x1)

  unfoldable pub handle_base_discover_agent : Exchange K → Result (ℕ × Exchange K)
  handle_base_discover_agent x =
      let ret = scmi_validate_request req.iov_len 8 x.ctx.capacity 24 in
      let agent_id = payload x.memory req 0 in
      if not (ret == success)
      then returns (ret, x)
      else if not (agent_id == 0xffffffff) && not (agent_id == 0)
      then reply proto_base 7 token err_entry x
      else respond false proto_base 7 token 16
          (λ m p. strncpy m p (if agent_id == 0xffffffff then ospm else platform) 16) x

  unfoldable pub handle_base_impl_version : Exchange K → Result (ℕ × Exchange K)
  handle_base_impl_version x =
      let ret = scmi_validate_request req.iov_len 4 x.ctx.capacity 12 in
      if not (ret == success)
      then returns (ret, x)
      else respond false proto_base 5 token 4 (λ m p. store32 m p 1) x

  unfoldable pub handle_base_error_notify : Exchange K → Result (ℕ × Exchange K)
  handle_base_error_notify x =
      let ret = scmi_validate_request req.iov_len 8 x.ctx.capacity 0 in
      if not (ret == success) then returns (ret, x) else reply proto_base 8 token success x

  unfoldable pub virtio_scmi_base_handle_req : ℕ → Exchange K → Result (ℕ × Exchange K)
  virtio_scmi_base_handle_req msg_id x =
      if ltb x.ctx.capacity 8
      then returns (err_params, x)
      else if x.ctx.iov.iov_base == null
      then returns (err_params, x)
      else if msg_id == 0
      then handle_base_version x
      else if msg_id == 1
      then handle_base_attributes x
      else if msg_id == 8
      then handle_base_error_notify x
      else if msg_id == 3
      then handle_base_vendor false x
      else if msg_id == 4
      then handle_base_vendor true x
      else if msg_id == 5
      then handle_base_impl_version x
      else if msg_id == 6
      then handle_base_protocol_list x
      else if msg_id == 7
      then handle_base_discover_agent x
      else returns (err_support, x)
