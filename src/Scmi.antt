-- ===== src/Scmi.antt =====
-- The SCMI device of tools/virtio/devices/scmi: the header of a message (tools/virtio/include/virtio_scmi.h)
-- and the response of a request (scmi_core.c). The answers of the kernel module are an argument.
pub mod Base
pub mod Clock
pub mod Domains
pub mod Header
pub mod Contained
pub mod Respond
pub mod Rules
pub mod Fills
pub mod Safety
pub mod Device
pub mod Transmit
use hvisor_tool.Base.{
  ℕ, zero, suc, ◌+◌, ◌-◌, ◌*◌, ◌/◌, ◌%◌, ◌^◌, Bool, true, false, List, [], ◌∷◌, Option, none, some,
  ltb, leb, ◌==◌, if◌then◌else◌,
}
use hvisor_tool.Memory.{Memory, store8, store32, load32}
use hvisor_tool.Chain.{Iovec}
use hvisor_tool.Device.{Result, returns, faults, spins, ◌>>=◌}

-- `struct scmi_msg_header`, a word of bit fields.
pub record ScmiMsgHeader : Type 0 where
  pub msg_id : ℕ
  pub msg_type : ℕ
  pub protocol_id : ℕ
  pub token : ℕ
  pub reserved : ℕ

unfoldable pub read_header : ℕ → ScmiMsgHeader
read_header word = record {
  msg_id = word % 2 ^ 8;
  msg_type = word / 2 ^ 8 % 2 ^ 2;
  protocol_id = word / 2 ^ 10 % 2 ^ 8;
  token = word / 2 ^ 18 % 2 ^ 10;
  reserved = word / 2 ^ 28;
}

-- The word that `scmi_build_header` writes: a command (SCMI_MSG_TYPE_COMMAND is 0).
unfoldable pub scmi_build_header : ℕ → ℕ → ℕ → ℕ
scmi_build_header protocol_id msg_id token =
    msg_id % 2 ^ 8 + 2 ^ 10 * (protocol_id % 2 ^ 8) + 2 ^ 18 * (token % 2 ^ 10)

-- `enum scmi_error_codes`, as the words that an `int32_t` holds.
abbrev pub success : ℕ
success = 0

abbrev pub err_support : ℕ
err_support = 2 ^ 32 - 1

abbrev pub err_params : ℕ
err_params = 2 ^ 32 - 2

abbrev pub err_entry : ℕ
err_entry = 2 ^ 32 - 4

abbrev pub err_range : ℕ
err_range = 2 ^ 32 - 5

abbrev pub err_generic : ℕ
err_generic = 2 ^ 32 - 8

-- `struct scmi_resp_ctx`
pub record ScmiRespCtx : Type 0 where
  pub iov : Iovec
  pub written : ℕ
  pub capacity : ℕ

-- What a handler acts on: memory, the response, and what is behind the kernel module.
pub record Exchange (K : Type 0) : Type 0 where
  pub memory : Memory
  pub ctx : ScmiRespCtx
  pub kernel : K

unfoldable pub scmi_validate_request : ℕ → ℕ → ℕ → ℕ → ℕ
scmi_validate_request req_size min_req_size resp_size min_resp_size =
    if ltb req_size min_req_size
    then err_params
    else if ltb resp_size min_resp_size
    then err_params
    else success

unfoldable pub scmi_resp_ctx_init : Iovec → ScmiRespCtx
scmi_resp_ctx_init iov = record { iov = iov; written = 0; capacity = iov.iov_len }

-- Words after the header of a request.
unfoldable pub payload : Memory → Iovec → ℕ → ℕ
payload m req i = load32 m (req.iov_base + 4 + 4 * i)

-- `strncpy`, from the bytes of a string.
unfoldable pub strncpy : Memory → ℕ → List ℕ → ℕ → Memory
strncpy m p s zero = m
strncpy m p [] (suc n) = strncpy (store8 m p 0) (p + 1) [] n
strncpy m p (c ∷ s) (suc n) = strncpy (store8 m p c) (p + 1) (if c == 0 then [] else s) n

module _ {K : Type 0} where
  unfoldable pub scmi_make_response : ℕ → ℕ → ℕ → ℕ → Exchange K → ℕ × Exchange K
  scmi_make_response protocol_id msg_id token status x =
      if ltb x.ctx.capacity 8 then (err_params, x) else (
        0,
        record x {
          memory =
              store32
                (store32 x.memory x.ctx.iov.iov_base (scmi_build_header protocol_id msg_id token))
                (x.ctx.iov.iov_base + 4) status;
          ctx = record (x.ctx) { written = 8 };
        },
      )

  -- The pointer, or NULL.
  unfoldable pub scmi_resp_write : ℕ → Exchange K → Option ℕ × Exchange K
  scmi_resp_write size x = if ltb x.ctx.capacity (x.ctx.written + size) then (none, x) else (
    some (x.ctx.iov.iov_base + x.ctx.written),
    record x { ctx = record (x.ctx) { written = x.ctx.written + size } },
  )

  -- `return scmi_make_response(…)`
  unfoldable pub reply : ℕ → ℕ → ℕ → ℕ → Exchange K → Result (ℕ × Exchange K)
  reply protocol_id msg_id token status x =
      returns (scmi_make_response protocol_id msg_id token status x)

  -- A handler's last step, which writes at the pointer. Where the handler does not look whether the
  -- pointer is NULL (`unchecked`), that is a fault.
  unfoldable pub fill_in :
      Bool → (Memory → ℕ → Memory) → Option ℕ × Exchange K → Result (ℕ × Exchange K)
  fill_in unchecked fill (none, x) = if unchecked then faults else returns (err_params, x)
  fill_in unchecked fill (some at, x) = returns (success, record x { memory = fill x.memory at })

  -- A successful response with `size` bytes that `fill` writes.
  unfoldable pub respond :
      Bool → ℕ → ℕ → ℕ → ℕ → (Memory → ℕ → Memory) → Exchange K → Result (ℕ × Exchange K)
  respond unchecked protocol_id msg_id token size fill x =
      let (ret, x1) = scmi_make_response protocol_id msg_id token success x in
      fill_in unchecked fill (scmi_resp_write size x1)

-- `struct scmi_dev_protocol_entry`: the functions are those of the four protocols of this device.
pub data Protocol : Type 0 where
  base_protocol power_protocol clock_protocol reset_protocol : Protocol

-- `SCMIDev`. An array of ids is NULL where it is empty; `protocols` has `protocol_count` entries.
pub record ScmiDev : Type 0 where
  pub clock_ids : List ℕ
  pub reset_ids : List ℕ
  pub power_ids : List ℕ
  pub protocols : List (ℕ × Protocol)

-- What the kernel module answers about a clock: `clock_attr`.
pub record ClockAttributes : Type 0 where
  pub enabled : ℕ
  pub parent_id : ℕ
  pub clock_name : List ℕ

-- The commands of `hvisor_scmi_ioctl_cmd`. `none` and `false` stand for its failure. Strings are the
-- bytes of a `char` array.
pub record ScmiKernel (K : Type 0) : Type 0 where
  pub clock_get_attributes : ℕ → K → Option ClockAttributes × K
  pub clock_rate_get : ℕ → K → Option ℕ × K
  pub clock_rate_set : ℕ → ℕ → ℕ → K → Bool × K
  pub clock_config_get : ℕ → ℕ → K → Option (ℕ × ℕ) × K
  pub clock_config_set : ℕ → ℕ → K → Bool × K
  pub clock_name_get : ℕ → K → Option (List ℕ) × K
  pub power_get_attributes : ℕ → K → Option (List ℕ) × K
  pub power_state_set : ℕ → ℕ → K → Bool × K
  pub power_state_get : ℕ → K → Option ℕ × K
  pub reset_reset : ℕ → ℕ → ℕ → K → Bool × K
