-- ===== src/Scmi/Domains.antt =====
-- The power and the reset protocol of tools/virtio/devices/scmi/power.c and reset.c.
use hvisor_tool.Base.{
  ℕ, zero, suc, ◌+◌, ◌/◌, ◌%◌, ◌^◌, true, false, not, List, [], ◌∷◌, ◌++◌, Option, none, some,
  get_elem?, length, ltb, ◌==◌, if◌then◌else◌, test_bit,
}
use hvisor_tool.Memory.{Memory, null, store8, store32}
use hvisor_tool.Chain.{Iovec}
use hvisor_tool.Device.{Result, returns}
use hvisor_tool.Scmi.{
  success, err_support, err_params, err_entry, err_range, err_generic, ScmiDev, Exchange,
  ScmiKernel, scmi_validate_request, payload, strncpy, reply, respond,
}

-- SCMI_PROTO_ID_POWER and SCMI_PROTO_ID_RESET, and the version of both
abbrev pub proto_power : ℕ
proto_power = 0x11

abbrev pub proto_reset : ℕ
proto_reset = 0x16

abbrev pub domain_version : ℕ
domain_version = 0x20000

unfoldable pub write_power_attributes : List ℕ → Memory → ℕ → Memory
write_power_attributes name m p = store8 (strncpy (store32 m p (2 ^ 29)) (p + 4) name 15) (p + 19) 0

-- The decimal digits of a number below 10 ^ n.
unfoldable pub digits : ℕ → ℕ → List ℕ
digits zero x = []
digits (suc n) x =
    let rest = digits n (x / 10) in
    if x / 10 == 0 then (48 + x % 10) ∷ [] else rest ++ ((48 + x % 10) ∷ [])

-- The bytes of a string, and the NUL behind them.
unfoldable pub write_string : Memory → ℕ → List ℕ → Memory
write_string m p [] = store8 m p 0
write_string m p (c ∷ s) = write_string (store8 m p c) (p + 1) s

-- "rst_%u" needs 15 bytes at most for an id of 32 bits, which is what `snprintf` may write.
unfoldable pub write_reset_attributes : ℕ → Memory → ℕ → Memory
write_reset_attributes phys_id m p =
    store8
      (write_string (store32 (store32 m p 0) (p + 4) 100) (p + 8)
        (114 ∷ 115 ∷ 116 ∷ 95 ∷ digits 10 (phys_id % 2 ^ 32)))
      (p + 23) 0

module _ {K : Type 0} (kernel : ScmiKernel K) (dev : ScmiDev) (token : ℕ) (req : Iovec) where
  -- The versions, and the words with the number of domains, of both protocols.
  unfoldable pub handle_version : ℕ → Exchange K → Result (ℕ × Exchange K)
  handle_version protocol_id x =
      let ret = scmi_validate_request req.iov_len 4 x.ctx.capacity 12 in
      if not (ret == success)
      then returns (ret, x)
      else respond false protocol_id 0 token 4 (λ m p. store32 m p domain_version) x

  unfoldable pub handle_protocol_attributes : ℕ → List ℕ → Exchange K → Result (ℕ × Exchange K)
  handle_protocol_attributes protocol_id ids x =
      let ret = scmi_validate_request req.iov_len 4 x.ctx.capacity 12 in
      if not (ret == success)
      then returns (ret, x)
      else respond false protocol_id 1 token 4 (λ m p. store32 m p (length ids % 2 ^ 16)) x

  -- `pwr_phys_id` and `rst_phys_id`
  unfoldable pub phys_id_of : List ℕ → ℕ → Option ℕ
  phys_id_of ids id = get_elem? ids id

  abbrev pub handle_power_version : Exchange K → Result (ℕ × Exchange K)
  handle_power_version x = handle_version proto_power x

  abbrev pub handle_reset_version : Exchange K → Result (ℕ × Exchange K)
  handle_reset_version x = handle_version proto_reset x

  abbrev pub handle_power_protocol_attributes : Exchange K → Result (ℕ × Exchange K)
  handle_power_protocol_attributes x = handle_protocol_attributes proto_power dev.power_ids x

  abbrev pub handle_reset_protocol_attributes : Exchange K → Result (ℕ × Exchange K)
  handle_reset_protocol_attributes x = handle_protocol_attributes proto_reset dev.reset_ids x

  abbrev pub pwr_phys_id : ℕ → Option ℕ
  pwr_phys_id id = phys_id_of dev.power_ids id

  abbrev pub rst_phys_id : ℕ → Option ℕ
  rst_phys_id id = phys_id_of dev.reset_ids id

  unfoldable pub handle_power_domain_attributes : Exchange K → Result (ℕ × Exchange K)
  handle_power_domain_attributes x =
      let asked : Result (ℕ × Exchange K) = elim (pwr_phys_id (payload x.memory req 0)) [
        | none ↦ reply proto_power 3 token err_entry x
        | some phys_id ↦
            let (answer, k) = kernel.power_get_attributes phys_id x.kernel in
            let done : Result (ℕ × Exchange K) = elim answer [
              | none ↦ reply proto_power 3 token err_generic (record x { kernel = k })
              | some name ↦
                  respond true proto_power 3 token 20 (write_power_attributes name)
                    (record x { kernel = k })
            ] in
            if ltb x.ctx.capacity 28 then reply proto_power 3 token err_range x else done
      ] in
      if ltb req.iov_len 8 then returns (err_params, x) else asked

  unfoldable pub handle_power_state_set : Exchange K → Result (ℕ × Exchange K)
  handle_power_state_set x =
      let flags = payload x.memory req 0 in
      let state = payload x.memory req 2 in
      let asked : Result (ℕ × Exchange K) = elim (pwr_phys_id (payload x.memory req 1)) [
        | none ↦ reply proto_power 4 token err_entry x
        | some phys_id ↦
            let (ok, k) = kernel.power_state_set phys_id state x.kernel in
            if test_bit flags 0
            then reply proto_power 4 token err_support x
            else reply proto_power 4 token (if ok then success else err_generic)
                (record x { kernel = k })
      ] in
      if ltb req.iov_len 16 then returns (err_params, x) else asked

  unfoldable pub handle_power_state_get : Exchange K → Result (ℕ × Exchange K)
  handle_power_state_get x =
      let asked : Result (ℕ × Exchange K) = elim (pwr_phys_id (payload x.memory req 0)) [
        | none ↦ reply proto_power 5 token err_entry x
        | some phys_id ↦
            let (answer, k) = kernel.power_state_get phys_id x.kernel in
            let done : Result (ℕ × Exchange K) = elim answer [
              | none ↦ reply proto_power 5 token err_generic (record x { kernel = k })
              | some state ↦
                  respond false proto_power 5 token 4 (λ m p. store32 m p state)
                    (record x { kernel = k })
            ] in
            if ltb x.ctx.capacity 12 then reply proto_power 5 token err_range x else done
      ] in
      if ltb req.iov_len 8 then returns (err_params, x) else asked

  unfoldable pub virtio_scmi_power_handle_req : ℕ → Exchange K → Result (ℕ × Exchange K)
  virtio_scmi_power_handle_req msg_id x =
      if ltb x.ctx.capacity 8
      then returns (err_params, x)
      else if x.ctx.iov.iov_base == null
      then returns (err_params, x)
      else if msg_id == 0
      then handle_power_version x
      else if msg_id == 1
      then handle_power_protocol_attributes x
      else if msg_id == 2
      then reply proto_power msg_id token err_support x
      else if msg_id == 3
      then handle_power_domain_attributes x
      else if msg_id == 4
      then handle_power_state_set x
      else if msg_id == 5
      then handle_power_state_get x
      else if msg_id == 6
      then reply proto_power 6 token err_support x
      else returns (err_support, x)

  unfoldable pub handle_reset_attributes : Exchange K → Result (ℕ × Exchange K)
  handle_reset_attributes x =
      let asked : Result (ℕ × Exchange K) = elim (rst_phys_id (payload x.memory req 0)) [
        | none ↦ reply proto_reset 3 token err_entry x
        | some phys_id ↦
            if ltb x.ctx.capacity 32
            then reply proto_reset 3 token err_range x
            else respond true proto_reset 3 token 24 (write_reset_attributes phys_id) x
      ] in
      if ltb req.iov_len 8 then returns (err_params, x) else asked

  unfoldable pub handle_reset : Exchange K → Result (ℕ × Exchange K)
  handle_reset x =
      let flags = payload x.memory req 1 in
      let state = payload x.memory req 2 in
      let asked : Result (ℕ × Exchange K) = elim (rst_phys_id (payload x.memory req 0)) [
        | none ↦ reply proto_reset 4 token err_entry x
        | some phys_id ↦
            let (ok, k) = kernel.reset_reset phys_id flags state x.kernel in
            if test_bit flags 2
            then reply proto_reset 4 token err_support x
            else reply proto_reset 4 token (if ok then success else err_generic)
                (record x { kernel = k })
      ] in
      if ltb req.iov_len 16 then returns (err_params, x) else asked

  unfoldable pub virtio_scmi_reset_handle_req : ℕ → Exchange K → Result (ℕ × Exchange K)
  virtio_scmi_reset_handle_req msg_id x =
      if ltb x.ctx.capacity 8
      then returns (err_params, x)
      else if x.ctx.iov.iov_base == null
      then returns (err_params, x)
      else if msg_id == 0
      then handle_reset_version x
      else if msg_id == 1
      then handle_reset_protocol_attributes x
      else if msg_id == 3
      then handle_reset_attributes x
      else if msg_id == 4
      then handle_reset x
      else if msg_id == 5
      then reply proto_reset 5 token err_support x
      else returns (err_support, x)
