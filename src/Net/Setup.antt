-- ===== src/Net/Setup.antt =====
-- How a network device of tools/virtio/devices/net/virtio_net.c is configured and set up, and its
-- functions as a virtio device. `parse_json_u8`, the opening of the tap device, and the event monitor's
-- answer are arguments; allocation succeeds.
pub mod Params
use hvisor_tool.Base.{
  ℕ, ◌+◌, ◌-◌, ◌^◌, Bool, true, false, not, ◌&&◌, List, [], ◌∷◌, ◌++◌, Option, none, some, length,
  ltb, leb, ◌==◌, if◌then◌else◌,
}
use hvisor_tool.Device.{VirtIoDevice, World, Result, returns}
use hvisor_tool.Mmio.{DeviceOps}
use hvisor_tool.Net.{TapHost, NetDev, virtio_net_reset, net_on_status}
use hvisor_tool.Net.Receive.{virtio_net_rxq_notify_handler}
use hvisor_tool.Net.Transmit.{virtio_net_txq_notify_handler}

-- EINVAL and ENAMETOOLONG
abbrev pub einval : ℕ
einval = 22

abbrev pub enametoolong : ℕ
enametoolong = 36

-- IFNAMSIZ
abbrev pub ifnamsiz : ℕ
ifnamsiz = 16

-- `struct virtio_net_init_params`, the tap's name without its NUL.
pub record VirtioNetInitParams : Type 0 where
  pub mac : List ℕ
  pub tap : List ℕ

-- The loop over the six bytes of the address.
unfoldable pub parse_mac : List (Option ℕ) → Option (List ℕ)
parse_mac [] = some []
parse_mac (none ∷ items) = none
parse_mac (some b ∷ items) = elim (parse_mac items) [ none ↦ none | some bs ↦ some (b ∷ bs) ]

-- What parsing returns: an error, or the parameters.
pub data Parsed : Type 0 where
  refused : ℕ → Parsed
  parsed : VirtioNetInitParams → Parsed

-- `tap` is the string, if there is one, and `mac` the items of the array with what `parse_json_u8` made
-- of them.
unfoldable pub virtio_net_parse_params : Option (List ℕ) → List (Option ℕ) → Parsed
virtio_net_parse_params none mac = refused einval
virtio_net_parse_params (some tap) mac =
    let bytes : Parsed = elim (parse_mac mac) [
      | none ↦ refused einval
      | some bs ↦ parsed (record { mac = bs; tap = tap })
    ] in
    if length tap == 0
    then refused einval
    else if leb ifnamsiz (length tap)
    then refused enametoolong
    else if length mac == 6
    then bytes
    else refused einval

module _ {T : Type 0} (host : TapHost T) where
  -- `status` of the configuration, behind the six bytes, is VIRTIO_NET_S_LINK_UP, which is 1.
  unfoldable pub init_net_dev : T → List ℕ → NetDev T
  init_net_dev tap mac = record {
    config_bytes = mac ++ (1 ∷ 0 ∷ host.config_rest);
    tapfd = false;
    rx_ready = 0;
    tap = tap;
  }

  -- `opened`, `nonblocking` and `watched` tell whether `open_tap`, `set_nonblocking` and `add_event`
  -- succeed. The value returned (-1 is 2 ^ 32 - 1), and `vdev->dev`.
  unfoldable pub virtio_net_do_init :
      Bool → Bool → Bool → T → Option VirtioNetInitParams → ℕ × Option (NetDev T)
  virtio_net_do_init opened nonblocking watched tap none = (2 ^ 32 - einval, none)
  virtio_net_do_init opened nonblocking watched tap (some p) =
      let dev = init_net_dev tap p.mac in
      (
        if opened && (nonblocking && watched) then 0 else 2 ^ 32 - 1,
        some (record dev { tapfd = opened }),
      )

  -- The functions of a network device. The loops of its handlers run for at most `requests` and
  -- `rounds` rounds.
  unfoldable pub virtio_net_ops : (ℕ → ℕ → ℕ → Bool) → ℕ → ℕ → DeviceOps (NetDev T)
  virtio_net_ops need_event requests rounds = record {
    config_bytes = λ net. net.config_bytes;
    reset = λ d w. returns (virtio_net_reset host d, w);
    status_changed = some (λ status d w. returns (net_on_status host status d, w));
    notify = λ i d w.
        if i == 0
        then virtio_net_rxq_notify_handler host need_event d w
        else if i == 1
        then virtio_net_txq_notify_handler host need_event 1 requests rounds d w
        else returns (d, w);
  }
