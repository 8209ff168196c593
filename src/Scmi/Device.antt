-- ===== src/Scmi/Device.antt =====
-- The protocols of an SCMI device: `scmi_dev_register_protocol` and `scmi_handle_message` of
-- tools/virtio/devices/scmi/scmi_core.c, and the part of virtio_scmi.c that sets the device up.
-- Allocation succeeds, and the items of a JSON array are what `parse_json_u32` made of them.
pub mod Registry
use hvisor_tool.Base.{
  ℕ, ◌+◌, ◌^◌, ◌-◌, Bool, true, false, List, [], ◌∷◌, ◌++◌, Option, none, some, length, ltb, leb,
  ◌==◌, if◌then◌else◌,
}
use hvisor_tool.Chain.{Iovec}
use hvisor_tool.Device.{Result, returns}
use hvisor_tool.Scmi.{
  err_support, ScmiDev, Protocol, base_protocol, power_protocol, clock_protocol, reset_protocol,
  Exchange, ScmiKernel,
}
use hvisor_tool.Scmi.Base.{proto_base, virtio_scmi_base_handle_req}
use hvisor_tool.Scmi.Clock.{proto_clock, virtio_scmi_clock_handle_req}
use hvisor_tool.Scmi.Domains.{
  proto_power, proto_reset, virtio_scmi_power_handle_req, virtio_scmi_reset_handle_req,
}

-- SCMI_MAX_PROTOCOLS
abbrev pub scmi_max_protocols : ℕ
scmi_max_protocols = 16

-- The loop over the table: the entry of a number.
unfoldable pub registered : List (ℕ × Protocol) → ℕ → Option Protocol
registered [] protocol_id = none
registered ((id, h) ∷ rest) protocol_id =
    let later = registered rest protocol_id in if id == protocol_id then some h else later

-- The value returned (-1 is 2 ^ 32 - 1) and the device.
unfoldable pub scmi_dev_register_protocol : ScmiDev → ℕ → Protocol → ℕ × ScmiDev
scmi_dev_register_protocol dev protocol_id handler =
    if leb scmi_max_protocols (length dev.protocols)
    then (2 ^ 32 - 1, dev)
    else elim (registered dev.protocols protocol_id) [
      | some h ↦ (0, dev)
      | none ↦ (0, record dev { protocols = dev.protocols ++ ((protocol_id, handler) ∷ []) })
    ]

module _ {K : Type 0} (kernel : ScmiKernel K) (dev : ScmiDev) where
  -- `handler(dev, msg_id, token, req_iov, ctx)`
  unfoldable pub call_handler : Protocol → ℕ → ℕ → Iovec → Exchange K → Result (ℕ × Exchange K)
  call_handler base_protocol msg_id token req x = virtio_scmi_base_handle_req dev token req msg_id x
  call_handler power_protocol msg_id token req x =
      virtio_scmi_power_handle_req kernel dev token req msg_id x
  call_handler clock_protocol msg_id token req x =
      virtio_scmi_clock_handle_req kernel dev token req msg_id x
  call_handler reset_protocol msg_id token req x =
      virtio_scmi_reset_handle_req kernel dev token req msg_id x

  unfoldable pub scmi_handle_message : ℕ → ℕ → ℕ → Iovec → Exchange K → Result (ℕ × Exchange K)
  scmi_handle_message protocol_id msg_id token req x = elim (registered dev.protocols protocol_id) [
    | some h ↦ call_handler h msg_id token req x
    | none ↦ returns (err_support, x)
  ]

-- `struct virtio_scmi_init_params`
pub record VirtioScmiInitParams : Type 0 where
  pub clock_ids : List ℕ
  pub reset_ids : List ℕ
  pub power_ids : List ℕ

-- An array of ids, where there is one. `none` is -EINVAL.
unfoldable pub parse_items : List (Option ℕ) → Option (List ℕ)
parse_items [] = some []
parse_items (none ∷ items) = none
parse_items (some id ∷ items) = elim (parse_items items) [
  | none ↦ none
  | some ids ↦ some (id ∷ ids)
]

unfoldable pub parse_id_array : Option (List (Option ℕ)) → Option (List ℕ)
parse_id_array none = some []
parse_id_array (some items) = parse_items items

unfoldable pub virtio_scmi_parse_params :
    Option (List (Option ℕ))
    → Option (List (Option ℕ))
    → Option (List (Option ℕ))
    → Option VirtioScmiInitParams
virtio_scmi_parse_params clocks resets powers = elim (parse_id_array clocks) [
  | none ↦ none
  | some clock_ids ↦ elim (parse_id_array resets) [
    | none ↦ none
    | some reset_ids ↦ elim (parse_id_array powers) [
      | none ↦ none
      | some power_ids ↦
          some (record { clock_ids = clock_ids; reset_ids = reset_ids; power_ids = power_ids })
    ]
  ]
]

-- `if (count > 0) scmi_dev_register_protocol(…)`
unfoldable pub register_if : Bool → ℕ → Protocol → ScmiDev → ScmiDev
register_if present protocol_id handler dev =
    if present then (scmi_dev_register_protocol dev protocol_id handler).1 else dev

abbrev pub no_protocols : ScmiDev
no_protocols = record { clock_ids = []; reset_ids = []; power_ids = []; protocols = [] }

-- The registrations, where the device has clocks, power domains and resets.
unfoldable pub register_protocols : Bool → Bool → Bool → ScmiDev → ScmiDev
register_protocols clocks powers resets dev =
    let with_base = (scmi_dev_register_protocol dev proto_base base_protocol).1 in
    let with_clock = register_if clocks proto_clock clock_protocol with_base in
    let with_power = register_if powers proto_power power_protocol with_clock in
    register_if resets proto_reset reset_protocol with_power

-- The device that `vdev->dev` points to afterwards.
unfoldable pub virtio_scmi_do_init : Option VirtioScmiInitParams → ScmiDev
virtio_scmi_do_init none = no_protocols
virtio_scmi_do_init (some p) =
    register_protocols (ltb 0 (length p.clock_ids)) (ltb 0 (length p.power_ids))
      (ltb 0 (length p.reset_ids))
      (record no_protocols {
        clock_ids = p.clock_ids;
        reset_ids = p.reset_ids;
        power_ids = p.power_ids;
      })
