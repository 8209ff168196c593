-- ===== src/Tests/Config.antt =====
-- A run of `parse_virtio_config` (tools/virtio/virtio.c) on one zone with a region and a block device.
use hvisor_tool.Base.{
  ℕ, ◌≡◌, ◌≤◌, refl, true, false, List, [], ◌∷◌, Option, none, some, All, length,
}
use hvisor_tool.ZoneMemory.{max_zones}
use hvisor_tool.Setup.{VirtioDeviceConfig}
use hvisor_tool.Config.{
  Key, zones_key, id_key, memory_region_key, devices_key, status_key, type_key, Number, natural,
  CJson, strcmp, blk_name, enable_name, VirtioZoneConfig, safe_get_object_item, safe_get_array_size,
  safe_get_array_item, parse_json_number, parse_json_max, parse_virtio_device_type,
  parse_virtio_memory_region_config, parse_items, enabled_device, parse_enabled_device,
  device_with_status, refuse_if, parse_virtio_device_config, parse_virtio_zone_config,
  parse_virtio_config,
}
use hvisor_tool.Config.Bounded.{IsZone, parse_virtio_config_lem}

-- The items of one small file.
data Item : Type 0 where
  file_item zones_item zone_item regions_item region_item devices_item device_item nine_item
        enable_item blk_item :
      Item

abbrev zone_field : Key → Option Item
zone_field id_key = some nine_item
zone_field memory_region_key = some regions_item
zone_field devices_key = some devices_item
zone_field k = none

abbrev device_field : Key → Option Item
device_field status_key = some enable_item
device_field type_key = some blk_item
device_field k = some nine_item

abbrev field_of : Item → Key → Option Item
field_of file_item zones_key = some zones_item
field_of zone_item k = zone_field k
field_of region_item k = some nine_item
field_of device_item k = device_field k
field_of i k = none

abbrev element : Item → ℕ → Option Item
element zones_item n = some zone_item
element regions_item n = some region_item
element devices_item n = some device_item
element i n = none

abbrev number_of : Item → Option Number
number_of nine_item = some (natural 9)
number_of i = none

abbrev string_of : Item → Option (List ℕ)
string_of enable_item = some enable_name
string_of blk_item = some blk_name
string_of i = none

abbrev small_file : CJson Item
small_file = record {
  get_object_item = field_of;
  get_object_item_case_sensitive = field_of;
  get_array_size = λ i. 1;
  get_array_item = element;
  number = number_of;
  valuestring = string_of;
  strtoumax = λ s. record { erange = false; taken = 0; value = 0 };
}

abbrev type_and_item : ℕ → Option Item → Option ℕ
type_and_item type item = some type

abbrev block_device : VirtioDeviceConfig (Option ℕ)
block_device = record {
  type = 2;
  enabled = true;
  zone_id = 9;
  addr = 9;
  len = 9;
  irq = 9;
  params = some 2;
}

abbrev zone_nine : VirtioZoneConfig ℕ
zone_nine = record {
  zone_id = 9;
  memory_regions = record { zone0_ipa = 9; zonex_ipa = 9; size = 9 } ∷ [];
  devices = block_device ∷ [];
}

parsed : parse_virtio_config small_file type_and_item file_item ≡ some (zone_nine ∷ [])
unfolding parse_virtio_config parse_virtio_zone_config parse_virtio_device_config device_with_status
    parse_enabled_device enabled_device refuse_if parse_items parse_virtio_memory_region_config
    parse_virtio_device_type parse_json_max parse_json_number safe_get_object_item
    safe_get_array_size safe_get_array_item strcmp
parsed = refl

parse_virtio_config_lem_example :
    (length (zone_nine ∷ []) ≤ max_zones) × All IsZone (zone_nine ∷ [])
parse_virtio_config_lem_example =
    parse_virtio_config_lem small_file type_and_item file_item (zone_nine ∷ []) parsed
