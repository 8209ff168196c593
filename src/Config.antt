-- ===== src/Config.antt =====
-- The configuration of the daemon: numbers in JSON (tools/json_parse.c), the accessors of
-- tools/safe_cjson.c, and `parse_virtio_config` with what it calls in tools/virtio/virtio.c. The cJSON
-- library, `strtoumax`, and the parsers of the device types' parameters are arguments.
pub mod Bounded
use hvisor_tool.Base.{
  ℕ, zero, suc, ◌+◌, ◌-◌, ◌^◌, Bool, true, false, not, ◌&&◌, ◌||◌, List, [], ◌∷◌, Option, none,
  some, length, ltb, leb, ◌==◌, if◌then◌else◌, ◌>>=◌,
}
use hvisor_tool.ZoneMemory.{MemoryRegionConfig, max_zones, max_memory_regions}
use hvisor_tool.Setup.{VirtioDeviceConfig, max_devs}

-- The keys that the code asks for.
pub data Key : Type 0 where
  zones_key id_key zone_id_key memory_region_key devices_key zone0_ipa_key zonex_ipa_key size_key
        status_key type_key addr_key len_key irq_key :
      Key

-- `valueint` of a number.
pub data Number : Type 0 where
  negative : Number
  natural : ℕ → Number

-- What `strtoumax` with base 0 gives for the bytes of a string: whether `errno` is ERANGE, how many
-- bytes it took, and the value.
pub record Strtoumax : Type 0 where
  pub erange : Bool
  pub taken : ℕ
  pub value : ℕ

-- Items of JSON, of type `J`, and the library's functions on them. A string is its bytes.
pub record CJson (J : Type 0) : Type 0 where
  pub get_object_item : J → Key → Option J
  pub get_object_item_case_sensitive : J → Key → Option J
  pub get_array_size : J → ℕ
  pub get_array_item : J → ℕ → Option J
  pub number : J → Option Number
  pub valuestring : J → Option (List ℕ)
  pub strtoumax : List ℕ → Strtoumax

-- Equality of strings, as `strcmp` finds it.
unfoldable pub strcmp : List ℕ → List ℕ → Bool
strcmp [] [] = true
strcmp [] (d ∷ t) = false
strcmp (c ∷ s) [] = false
strcmp (c ∷ s) (d ∷ t) = let rest = strcmp s t in if c == d then rest else false

-- "blk", "net", "console", "gpu", "scmi", "disable" and "enable"
abbrev pub blk_name : List ℕ
blk_name = 98 ∷ 108 ∷ 107 ∷ []

abbrev pub net_name : List ℕ
net_name = 110 ∷ 101 ∷ 116 ∷ []

abbrev pub console_name : List ℕ
console_name = 99 ∷ 111 ∷ 110 ∷ 115 ∷ 111 ∷ 108 ∷ 101 ∷ []

abbrev pub gpu_name : List ℕ
gpu_name = 103 ∷ 112 ∷ 117 ∷ []

abbrev pub scmi_name : List ℕ
scmi_name = 115 ∷ 99 ∷ 109 ∷ 105 ∷ []

abbrev pub disable_name : List ℕ
disable_name = 100 ∷ 105 ∷ 115 ∷ 97 ∷ 98 ∷ 108 ∷ 101 ∷ []

abbrev pub enable_name : List ℕ
enable_name = 101 ∷ 110 ∷ 97 ∷ 98 ∷ 108 ∷ 101 ∷ []

-- The number of a device type, VirtioTBlock and so on.
unfoldable pub parse_virtio_device_type : List ℕ → Option ℕ
parse_virtio_device_type type =
    if strcmp type blk_name
    then some 2
    else if strcmp type net_name
    then some 1
    else if strcmp type console_name
    then some 3
    else if strcmp type gpu_name
    then some 16
    else if strcmp type scmi_name
    then some 32
    else none

-- A zone's configuration; the arrays are lists.
pub record VirtioZoneConfig (Params : Type 0) : Type 0 where
  pub zone_id : ℕ
  pub memory_regions : List MemoryRegionConfig
  pub devices : List (VirtioDeviceConfig (Option Params))

-- The guard of a chain: nothing where the test holds.
unfoldable pub refuse_if : Bool → Option Bool
refuse_if b = if b then none else some b

module _ {J : Type 0} (json : CJson J) where
  unfoldable pub safe_get_object_item : Option J → Key → Option J
  safe_get_object_item none key = none
  safe_get_object_item (some object) key = json.get_object_item object key

  unfoldable pub safe_get_array_size : Option J → ℕ
  safe_get_array_size none = 0
  safe_get_array_size (some array) = json.get_array_size array

  unfoldable pub safe_get_array_item : Option J → ℕ → Option J
  safe_get_array_item none index = none
  safe_get_array_item (some array) index =
      if leb (json.get_array_size array) index then none else json.get_array_item array index

  unfoldable pub parse_json_number_string : List ℕ → Option ℕ
  parse_json_number_string str =
      let r = json.strtoumax str in
      if r.erange || (r.taken == 0) || not (r.taken == length str) then none else some r.value

  unfoldable pub parse_json_number : Option J → Option ℕ
  parse_json_number none = none
  parse_json_number (some item) = elim (json.number item) [
    | some negative ↦ none
    | some (natural n) ↦ some n
    | none ↦ elim (json.valuestring item) [ none ↦ none | some str ↦ parse_json_number_string str ]
  ]

  -- `DEFINE_PARSE_JSON_FUNC`, for a maximal value.
  unfoldable pub parse_json_max : ℕ → Option J → Option ℕ
  parse_json_max max_val item = elim (parse_json_number item) [
    | none ↦ none
    | some val ↦ if ltb max_val val then none else some val
  ]

  abbrev pub parse_json_u32 : Option J → Option ℕ
  parse_json_u32 item = parse_json_max (2 ^ 32 - 1) item

  abbrev pub parse_json_u64 : Option J → Option ℕ
  parse_json_u64 item = parse_json_max (2 ^ 64 - 1) item

  unfoldable pub parse_virtio_memory_region_config : Option J → Option MemoryRegionConfig
  parse_virtio_memory_region_config mem_json = do
    zone0_ipa ← parse_json_u64 (safe_get_object_item mem_json zone0_ipa_key)
    zonex_ipa ← parse_json_u64 (safe_get_object_item mem_json zonex_ipa_key)
    size ← parse_json_u64 (safe_get_object_item mem_json size_key)
    some (record { zone0_ipa = zone0_ipa; zonex_ipa = zonex_ipa; size = size })

  -- A loop over the items of an array from `i` on, `n` of them.
  unfoldable pub parse_items :
      {A : Type 0} → (Option J → Option A) → Option J → ℕ → ℕ → Option (List A)
  parse_items parse array i zero = some []
  parse_items parse array i (suc n) = do
    a ← parse (safe_get_array_item array i)
    rest ← parse_items parse array (i + 1) n
    some (a ∷ rest)

  -- `config_ops->parse` of each device type, where it has one: the parameters, unless it fails.
  module _ {P : Type 0} (parse_params : ℕ → Option J → Option P) where
    -- The parameters of an enabled device whose fields were read; an address, length or interrupt of 0
    -- is refused.
    unfoldable pub enabled_device :
        ℕ → Option J → ℕ → ℕ → ℕ → ℕ → Option (VirtioDeviceConfig (Option P))
    enabled_device zone_id device_json type addr len irq =
        if (addr == 0) || (len == 0) || (irq == 0)
        then none
        else (parse_params type device_json >>= (λ params. some (record {
          type = type;
          enabled = true;
          zone_id = zone_id;
          addr = addr;
          len = len;
          irq = irq;
          params = some params;
        })))

    unfoldable pub parse_enabled_device : ℕ → Option J → Option (VirtioDeviceConfig (Option P))
    parse_enabled_device zone_id device_json = do
      item ← safe_get_object_item device_json type_key
      name ← json.valuestring item
      type ← parse_virtio_device_type name
      addr ← parse_json_u64 (safe_get_object_item device_json addr_key)
      len ← parse_json_u64 (safe_get_object_item device_json len_key)
      irq ← parse_json_u32 (safe_get_object_item device_json irq_key)
      enabled_device zone_id device_json type addr len irq

    -- A device that is not enabled has only its zone set.
    abbrev pub disabled_device : ℕ → VirtioDeviceConfig (Option P)
    disabled_device zone_id = record {
      type = 0;
      enabled = false;
      zone_id = zone_id;
      addr = 0;
      len = 0;
      irq = 0;
      params = none;
    }

    unfoldable pub device_with_status :
        ℕ → Option J → List ℕ → Option (VirtioDeviceConfig (Option P))
    device_with_status zone_id device_json status =
        if strcmp status disable_name
        then some (disabled_device zone_id)
        else if strcmp status enable_name
        then parse_enabled_device zone_id device_json
        else none

    unfoldable pub parse_virtio_device_config :
        ℕ → Option J → Option (VirtioDeviceConfig (Option P))
    parse_virtio_device_config zone_id device_json = do
      item ← safe_get_object_item device_json status_key
      status ← json.valuestring item
      device_with_status zone_id device_json status

    unfoldable pub parse_virtio_zone_config : Option J → Option (VirtioZoneConfig P)
    parse_virtio_zone_config zone_json =
        let id_item : Option J = elim (safe_get_object_item zone_json id_key) [
          | none ↦ safe_get_object_item zone_json zone_id_key
          | some item ↦ some item
        ] in
        let memory = safe_get_object_item zone_json memory_region_key in
        let devices = safe_get_object_item zone_json devices_key in
        do
          zone_id ← parse_json_u32 id_item
          in_range ← refuse_if (leb max_zones zone_id)
          memory_fits ← refuse_if (ltb max_memory_regions (safe_get_array_size memory))
          memory_regions ←
              parse_items parse_virtio_memory_region_config memory 0 (safe_get_array_size memory)
          devices_fit ← refuse_if (ltb max_devs (safe_get_array_size devices))
          vdevs ←
              parse_items (parse_virtio_device_config zone_id) devices 0
                (safe_get_array_size devices)
          some (record { zone_id = zone_id; memory_regions = memory_regions; devices = vdevs })

    -- A configuration without "zones" is that of one zone. The list stands for `VirtioConfig`.
    unfoldable pub parse_virtio_config : J → Option (List (VirtioZoneConfig P))
    parse_virtio_config root = elim (json.get_object_item_case_sensitive root zones_key) [
      | none ↦ do zone ← parse_virtio_zone_config (some root); some (zone ∷ [])
      | some zones ↦
          let parsed =
            parse_items parse_virtio_zone_config (some zones) 0 (json.get_array_size zones) in
          if ltb max_zones (json.get_array_size zones) then none else parsed
    ]
