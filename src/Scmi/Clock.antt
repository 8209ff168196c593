-- ===== src/Scmi/Clock.antt =====
-- The clock protocol of tools/virtio/devices/scmi/clock.c.
use hvisor_tool.Base.{
  ℕ, ◌+◌, ◌-◌, ◌*◌, ◌/◌, ◌%◌, ◌^◌, true, false, not, List, Option, none, some, get_elem?, length,
  ltb, ◌==◌, if◌then◌else◌,
}
use hvisor_tool.Memory.{Memory, null, store8, store16, store32}
use hvisor_tool.Chain.{Iovec}
use hvisor_tool.Device.{Result, returns}
use hvisor_tool.Scmi.{
  success, err_support, err_params, err_entry, err_range, err_generic, ScmiDev, Exchange,
  ScmiKernel, ClockAttributes, scmi_validate_request, payload, strncpy, reply, respond,
}

-- SCMI_PROTO_ID_CLOCK and SCMI_CLOCK_VERSION
abbrev pub proto_clock : ℕ
proto_clock = 0x14

abbrev pub clock_version : ℕ
clock_version = 0x30000

-- The number of an enabled or disabled clock's `attributes`.
unfoldable pub clock_flags : ClockAttributes → ℕ
clock_flags a =
    (if a.enabled == 0 then 0 else 1) + (if a.parent_id == 2 ^ 32 - 1 then 0 else 2 ^ 28)

-- Two words: the low and the high half of a rate.
unfoldable pub write_rate : ℕ → Memory → ℕ → Memory
write_rate rate m p = store32 (store32 m p (rate % 2 ^ 32)) (p + 4) (rate / 2 ^ 32 % 2 ^ 32)

unfoldable pub requested_rate : ℕ → ℕ → ℕ
requested_rate high low = high * 2 ^ 32 + low

-- What the handlers write behind the header.
unfoldable pub write_protocol_attributes : ScmiDev → Memory → ℕ → Memory
write_protocol_attributes dev m p =
    store8 (store8 (store16 m p (length dev.clock_ids)) (p + 2) 1) (p + 3) 0

unfoldable pub write_clock_attributes : ClockAttributes → Memory → ℕ → Memory
write_clock_attributes a m p =
    store8 (strncpy (store32 m p (clock_flags a)) (p + 4) a.clock_name 15) (p + 19) 0

unfoldable pub write_rates : Memory → ℕ → Memory
unfolding write_rate
write_rates m p =
    let count = 2 ^ 12 + 3 in
    write_rate 1 (write_rate 10000000000 (write_rate 0 (store32 m p count) (p + 4)) (p + 12))
      (p + 20)

unfoldable pub write_config : ℕ × ℕ → Memory → ℕ → Memory
write_config (config, extended) m p =
    store32 (store32 (store32 m p 0) (p + 4) config) (p + 8) extended

unfoldable pub write_name : List ℕ → Memory → ℕ → Memory
write_name name m p = store8 (strncpy (store32 m p 0) (p + 4) name 63) (p + 67) 0

module _ {K : Type 0} (kernel : ScmiKernel K) (dev : ScmiDev) (token : ℕ) (req : Iovec) where
  -- `clk_phys_id`, which takes a clock's number in the zone to that of the machine.
  unfoldable pub clk_phys_id : ℕ → Option ℕ
  clk_phys_id id = get_elem? dev.clock_ids id

  unfoldable pub handle_clock_version : Exchange K → Result (ℕ × Exchange K)
  handle_clock_version x =
      let ret = scmi_validate_request req.iov_len 4 x.ctx.capacity 12 in
      if not (ret == success)
      then returns (ret, x)
      else respond false proto_clock 0 token 4 (λ m p. store32 m p clock_version) x

  unfoldable pub handle_clock_protocol_attributes : Exchange K → Result (ℕ × Exchange K)
  handle_clock_protocol_attributes x =
      let ret = scmi_validate_request req.iov_len 4 x.ctx.capacity 12 in
      if not (ret == success)
      then returns (ret, x)
      else respond true proto_clock 1 token 4 (write_protocol_attributes dev) x

  unfoldable pub handle_clock_clock_attributes : Exchange K → Result (ℕ × Exchange K)
  handle_clock_clock_attributes x =
      let asked : Result (ℕ × Exchange K) = elim (clk_phys_id (payload x.memory req 0)) [
        | none ↦ reply proto_clock 3 token err_entry x
        | some phys_id ↦
            let (answer, k) = kernel.clock_get_attributes phys_id x.kernel in
            let done : Result (ℕ × Exchange K) = elim answer [
              | none ↦ reply proto_clock 3 token err_generic (record x { kernel = k })
              | some a ↦
                  respond true proto_clock 3 token 20 (write_clock_attributes a)
                    (record x { kernel = k })
            ] in
            if ltb x.ctx.capacity 28 then reply proto_clock 3 token err_range x else done
      ] in
      if ltb req.iov_len 8 then returns (err_params, x) else asked

  unfoldable pub handle_clock_describe_rates : Exchange K → Result (ℕ × Exchange K)
  handle_clock_describe_rates x =
      let asked : Result (ℕ × Exchange K) = elim (clk_phys_id (payload x.memory req 0)) [
        | none ↦ reply proto_clock 4 token err_entry x
        | some phys_id ↦
            if ltb x.ctx.capacity 36
            then reply proto_clock 4 token err_range x
            else if ltb 0 (payload x.memory req 1)
            then reply proto_clock 4 token err_range x
            else respond true proto_clock 4 token 28 write_rates x
      ] in
      if ltb req.iov_len 12 then returns (err_params, x) else asked

  unfoldable pub handle_clock_rate_get : Exchange K → Result (ℕ × Exchange K)
  handle_clock_rate_get x =
      let asked : Result (ℕ × Exchange K) = elim (clk_phys_id (payload x.memory req 0)) [
        | none ↦ reply proto_clock 6 token err_entry x
        | some phys_id ↦
            let (answer, k) = kernel.clock_rate_get phys_id x.kernel in
            let done : Result (ℕ × Exchange K) = elim answer [
              | none ↦ reply proto_clock 6 token err_generic (record x { kernel = k })
              | some rate ↦
                  respond false proto_clock 6 token 8 (write_rate rate) (record x { kernel = k })
            ] in
            if ltb x.ctx.capacity 16 then reply proto_clock 6 token err_range x else done
      ] in
      if ltb req.iov_len 8 then returns (err_params, x) else asked

  unfoldable pub handle_clock_rate_set : Exchange K → Result (ℕ × Exchange K)
  handle_clock_rate_set x =
      let flags = payload x.memory req 0 in
      let rate = requested_rate (payload x.memory req 3) (payload x.memory req 2) in
      let asked : Result (ℕ × Exchange K) = elim (clk_phys_id (payload x.memory req 1)) [
        | none ↦ reply proto_clock 5 token err_entry x
        | some phys_id ↦
            let (ok, k) = kernel.clock_rate_set phys_id flags rate x.kernel in
            if not (flags % 2 == 0)
            then reply proto_clock 5 token err_support x
            else reply proto_clock 5 token (if ok then success else err_generic)
                (record x { kernel = k })
      ] in
      if ltb req.iov_len 20 then returns (err_params, x) else asked

  unfoldable pub handle_clock_config_get : Exchange K → Result (ℕ × Exchange K)
  handle_clock_config_get x =
      let flags = payload x.memory req 1 in
      let asked : Result (ℕ × Exchange K) = elim (clk_phys_id (payload x.memory req 0)) [
        | none ↦ reply proto_clock 8 token err_entry x
        | some phys_id ↦
            let (answer, k) = kernel.clock_config_get phys_id flags x.kernel in
            let done : Result (ℕ × Exchange K) = elim answer [
              | none ↦ reply proto_clock 8 token err_generic (record x { kernel = k })
              | some config ↦
                  respond false proto_clock 8 token 12 (write_config config)
                    (record x { kernel = k })
            ] in
            if not (flags % 2 ^ 8 == 0)
            then reply proto_clock 8 token err_params x
            else if ltb x.ctx.capacity 20
            then reply proto_clock 8 token err_range x
            else done
      ] in
      if ltb req.iov_len 12 then returns (err_params, x) else asked

  unfoldable pub handle_clock_config_set : Exchange K → Result (ℕ × Exchange K)
  handle_clock_config_set x =
      let asked : Result (ℕ × Exchange K) = elim (clk_phys_id (payload x.memory req 0)) [
        | none ↦ reply proto_clock 7 token err_entry x
        | some phys_id ↦
            let (ok, k) = kernel.clock_config_set phys_id (payload x.memory req 1) x.kernel in
            reply proto_clock 7 token (if ok then success else err_generic)
              (record x { kernel = k })
      ] in
      if ltb req.iov_len 12 then returns (err_params, x) else asked

  unfoldable pub handle_clock_name_get : Exchange K → Result (ℕ × Exchange K)
  handle_clock_name_get x =
      let asked : Result (ℕ × Exchange K) = elim (clk_phys_id (payload x.memory req 0)) [
        | none ↦ reply proto_clock 9 token err_entry x
        | some phys_id ↦
            let (answer, k) = kernel.clock_name_get phys_id x.kernel in
            let done : Result (ℕ × Exchange K) = elim answer [
              | none ↦ reply proto_clock 9 token err_generic (record x { kernel = k })
              | some name ↦
                  respond true proto_clock 9 token 68 (write_name name) (record x { kernel = k })
            ] in
            if ltb x.ctx.capacity 76 then reply proto_clock 9 token err_range x else done
      ] in
      if ltb req.iov_len 8 then returns (err_params, x) else asked

  -- The cases of the `switch` over the message.
  unfoldable pub clock_message : ℕ → Exchange K → Result (ℕ × Exchange K)
  clock_message msg_id x =
      if msg_id == 0
      then handle_clock_version x
      else if msg_id == 1
      then handle_clock_protocol_attributes x
      else if msg_id == 3
      then handle_clock_clock_attributes x
      else if msg_id == 4
      then handle_clock_describe_rates x
      else if msg_id == 5
      then handle_clock_rate_set x
      else if msg_id == 6
      then handle_clock_rate_get x
      else if msg_id == 7
      then handle_clock_config_set x
      else if msg_id == 8
      then handle_clock_config_get x
      else if msg_id == 9
      then handle_clock_name_get x
      else returns (err_support, x)

  unfoldable pub virtio_scmi_clock_handle_req : ℕ → Exchange K → Result (ℕ × Exchange K)
  virtio_scmi_clock_handle_req msg_id x =
      if ltb x.ctx.capacity 8
      then returns (err_params, x)
      else if x.ctx.iov.iov_base == null
      then returns (err_params, x)
      else clock_message msg_id x
