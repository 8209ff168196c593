-- ===== src/Setup.antt =====
-- How devices come to be in tools/virtio/virtio.c: `validate_virtio_config_devices`,
-- `create_virtio_device_unpublished` with `init_virtio_queue`, `create_virtio_config_devices` and
-- `publish_virtio_devices`. Allocations succeed. A zone's devices are a list, and so are the zones of
-- a configuration.
pub mod Apart
use hvisor_tool.Base.{
  ℕ, zero, suc, ◌+◌, ◌-◌, Bool, true, false, not, ◌&&◌, ◌||◌, List, [], ◌∷◌, ◌++◌, Option, none,
  some, length, ltb, leb, ◌==◌, if◌then◌else◌,
}
use hvisor_tool.ZoneMemory.{ranges_overlap}
use hvisor_tool.Queue.{VirtQueue, zeroed, virtqueue_reset}
use hvisor_tool.Device.{VirtMmioRegs, VirtIoDevice}

-- MAX_DEVS and VIRTIO_MAX_VQUEUES
abbrev pub max_devs : ℕ
max_devs = 8

abbrev pub virtio_max_vqueues : ℕ
virtio_max_vqueues = 4

-- `VirtioDeviceConfig`; `type` is the number of the device type, and `Params` its parameters.
pub record VirtioDeviceConfig (Params : Type 0) : Type 0 where
  pub type : ℕ
  pub enabled : Bool
  pub zone_id : ℕ
  pub addr : ℕ
  pub len : ℕ
  pub irq : ℕ
  pub params : Params

-- `struct virtio_device_ops`, as far as the creation of a device uses it. `initial` is the state of the
-- type before `init`, which gives the device back unless it fails. A handler is there or not.
pub record InitOps (Dev Params : Type 0) : Type 0 where
  pub features : ℕ
  pub num_queues : ℕ
  pub queue_max_size : ℕ
  pub notify_handlers : ℕ → Bool
  pub initial : Dev
  pub init : Params → VirtIoDevice Dev → Option (VirtIoDevice Dev)

module _ {Dev Params : Type 0} where
  -- Whether a device of the configuration lies on one that is there already.
  unfoldable pub clashes : VirtioDeviceConfig Params → List (VirtIoDevice Dev) → Bool
  clashes dev [] = false
  clashes dev (d ∷ ds) =
      (d.zone_id == dev.zone_id && ranges_overlap dev.addr dev.len d.base_addr d.len)
      || clashes dev ds

module _ {Params : Type 0} where
  -- The same for the devices that the configuration names before it.
  unfoldable pub clashes_earlier :
      VirtioDeviceConfig Params → List (VirtioDeviceConfig Params) → Bool
  clashes_earlier dev [] = false
  clashes_earlier dev (e ∷ es) =
      (e.enabled && (e.zone_id == dev.zone_id && ranges_overlap dev.addr dev.len e.addr e.len))
      || clashes_earlier dev es

module _ {Dev Params : Type 0} (vdevs : List (VirtIoDevice Dev)) where
  -- The loop over a zone's devices, with `total` and the devices before them.
  unfoldable pub validate_zone :
      ℕ
      → List (VirtioDeviceConfig Params)
      → List (VirtioDeviceConfig Params)
      → Option (ℕ × List (VirtioDeviceConfig Params))
  validate_zone total earlier [] = some (total, earlier)
  validate_zone total earlier (dev ∷ devs) =
      let skipped = validate_zone total (earlier ++ (dev ∷ [])) devs in
      let rest = validate_zone (total + 1) (earlier ++ (dev ∷ [])) devs in
      if not dev.enabled
      then skipped
      else if ltb max_devs (total + 1) || (clashes dev vdevs || clashes_earlier dev earlier)
      then none
      else rest

  unfoldable pub validate_zones :
      ℕ → List (VirtioDeviceConfig Params) → List (List (VirtioDeviceConfig Params)) → Bool
  validate_zones total earlier [] = true
  validate_zones total earlier (zone ∷ zones) = elim (validate_zone total earlier zone) [
    | none ↦ false
    | some (total', earlier') ↦ validate_zones total' earlier' zones
  ]

  -- Whether it returned 0.
  unfoldable pub validate_virtio_config_devices : List (List (VirtioDeviceConfig Params)) → Bool
  validate_virtio_config_devices zones = validate_zones (length vdevs) [] zones

module _ {Dev : Type 0} where
  -- Whether it returned 0, with `vdevs` afterwards.
  unfoldable pub publish_virtio_devices :
      List (VirtIoDevice Dev) → List (VirtIoDevice Dev) → Option (List (VirtIoDevice Dev))
  publish_virtio_devices vdevs new_devs =
      if ltb (max_devs - length vdevs) (length new_devs) then none else some (vdevs ++ new_devs)

-- The loop of `init_virtio_queue`, for `n` queues from `i` on.
unfoldable pub init_queues : (ℕ → Bool) → ℕ → ℕ → ℕ → List VirtQueue
init_queues handlers size i zero = []
init_queues handlers size i (suc n) =
    record (virtqueue_reset zeroed i) { queue_num_max = size; notify_handler = handlers i }
    ∷ init_queues handlers size (i + 1) n

module _ {Dev Params : Type 0} (lookup_ops : ℕ → Option (InitOps Dev Params)) where
  unfoldable pub init_virtio_queue :
      InitOps Dev Params → VirtIoDevice Dev → Option (VirtIoDevice Dev)
  init_virtio_queue ops d =
      if ops.num_queues == 0 || ltb virtio_max_vqueues ops.num_queues
      then none
      else some
          (record d { vqs = init_queues ops.notify_handlers ops.queue_max_size 0 ops.num_queues })

  -- The device as `create_virtio_device_unpublished` fills it in, before its queues.
  unfoldable pub new_device : InitOps Dev Params → VirtioDeviceConfig Params → VirtIoDevice Dev
  new_device ops cfg = record {
    zone_id = cfg.zone_id;
    irq_id = cfg.irq;
    base_addr = cfg.addr;
    len = cfg.len;
    regs = record {
      device_id = cfg.type;
      dev_feature_sel = 0;
      drv_feature_sel = 0;
      queue_sel = 0;
      interrupt_status = 0;
      status = 0;
      generation = 0;
      dev_feature = ops.features;
      drv_feature = 0;
    };
    vqs = [];
    dev = ops.initial;
    activated = false;
    interrupt_line_asserted = false;
  }

  unfoldable pub create_virtio_device_unpublished :
      VirtioDeviceConfig Params → Option (VirtIoDevice Dev)
  create_virtio_device_unpublished cfg = elim (lookup_ops cfg.type) [
    | none ↦ none
    | some ops ↦ elim (init_virtio_queue ops (new_device ops cfg)) [
      | none ↦ none
      | some d ↦ ops.init cfg.params d
    ]
  ]

  -- The loops of `create_virtio_config_devices`, with the devices made so far.
  unfoldable pub create_devices :
      List (VirtIoDevice Dev) → List (VirtioDeviceConfig Params) → Option (List (VirtIoDevice Dev))
  create_devices made [] = some made
  create_devices made (dev ∷ devs) =
      let skipped = create_devices made devs in
      let next = λ (d : VirtIoDevice Dev). create_devices (made ++ (d ∷ [])) devs in
      if not dev.enabled then skipped else elim (create_virtio_device_unpublished dev) [
        | none ↦ none
        | some d ↦ if length made == max_devs then none else next d
      ]

  unfoldable pub create_zones :
      List (VirtIoDevice Dev)
      → List (List (VirtioDeviceConfig Params))
      → Option (List (VirtIoDevice Dev))
  create_zones made [] = some made
  create_zones made (zone ∷ zones) = elim (create_devices made zone) [
    | none ↦ none
    | some made' ↦ create_zones made' zones
  ]

  -- `vdevs` afterwards, if it returned 0; if it did not, `vdevs` is as it was.
  unfoldable pub create_virtio_config_devices :
      List (VirtIoDevice Dev)
      → List (List (VirtioDeviceConfig Params))
      → Option (List (VirtIoDevice Dev))
  create_virtio_config_devices vdevs zones = elim (create_zones [] zones) [
    | none ↦ none
    | some made ↦ publish_virtio_devices vdevs made
  ]
