-- ===== src/Config/Bounded.antt =====
-- What a configuration that `parse_virtio_config` (tools/virtio/virtio.c) accepts keeps to.
use hvisor_tool.Base.{
  ℕ, zero, suc, ◌+◌, ◌-◌, ◌^◌, ◌≤◌, ◌<◌, ◌≡◌, refl, ap, subst, inl, inr, Bool, true, false, ◌||◌,
  List, [], ◌∷◌, Option, none, some, All, length, ltb, leb, ◌==◌, >>=-eq-some, arith, Bool-cases,
  Option-cases,
}
use hvisor_tool.ZoneMemory.{MemoryRegionConfig, max_zones, max_memory_regions}
use hvisor_tool.Setup.{VirtioDeviceConfig, max_devs}
use hvisor_tool.Config.{
  CJson, zones_key, id_key, zone_id_key, memory_region_key, devices_key, zone0_ipa_key,
  zonex_ipa_key, size_key, status_key, type_key, addr_key, len_key, irq_key, strcmp, enable_name,
  disable_name, VirtioZoneConfig, safe_get_object_item, safe_get_array_size, safe_get_array_item,
  parse_json_number, parse_json_max, parse_json_u32, parse_json_u64, parse_virtio_device_type,
  parse_virtio_memory_region_config, parse_items, enabled_device, parse_enabled_device,
  disabled_device, device_with_status, refuse_if, parse_virtio_device_config,
  parse_virtio_zone_config, parse_virtio_config,
}

-- Its numbers fit 64 bits.
pub record IsRegion (r : MemoryRegionConfig) : Type 0 where
  pub zone0_ipa : r.zone0_ipa < 2 ^ 64
  pub zonex_ipa : r.zonex_ipa < 2 ^ 64
  pub size : r.size < 2 ^ 64

-- A device of the zone; if it is enabled, its address, length and interrupt fit and are not 0.
pub record IsDevice {P : Type 0} (zone_id : ℕ) (d : VirtioDeviceConfig (Option P)) : Type 0 where
  pub of_zone : d.zone_id ≡ zone_id
  pub addr : d.enabled ≡ true → (0 < d.addr) × (d.addr < 2 ^ 64)
  pub len : d.enabled ≡ true → (0 < d.len) × (d.len < 2 ^ 64)
  pub irq : d.enabled ≡ true → (0 < d.irq) × (d.irq < 2 ^ 32)

-- The zone exists, and its arrays have room for what is in them.
pub record IsZone {P : Type 0} (z : VirtioZoneConfig P) : Type 0 where
  pub exists : z.zone_id < max_zones
  pub regions : length z.memory_regions ≤ max_memory_regions
  pub all_regions : All IsRegion z.memory_regions
  pub devices : length z.devices ≤ max_devs
  pub all_devices : All (IsDevice z.zone_id) z.devices

refuse_if_lem : (b c : Bool) → refuse_if b ≡ some c → b ≡ false
unfolding refuse_if
refuse_if_lem true c e = absurd (let q : none ≡ some c = e in cc)
refuse_if_lem false c e = refl

module _ {J : Type 0} (json : CJson J) where
  parse_json_max-le :
      (max_val : ℕ) (item : Option J) (n : ℕ)
      → parse_json_max json max_val item ≡ some n
      → n ≤ max_val
  unfolding parse_json_max
  parse_json_max-le max_val item n e = elim (Option-cases (parse_json_number json item)) [
    | inl q ↦ absurd (let c : none ≡ some n = (rw (parse_json_max, q) at e) in cc)
    | inr (v, q) ↦ elim (Bool-cases (ltb max_val v)) [
      | inl big ↦ absurd (let c : none ≡ some n = (rw (parse_json_max, q, big) at e) in cc)
      | inr fits ↦
          let c : some v ≡ some n = (rw (parse_json_max, q, fits) at e) in
          let same : v ≡ n = cc in ground (arith, same, fits)
    ]
  ]

  parse_items-All :
      {A : Type 0} (Q : A → Type 0) (parse : Option J → Option A) (array : Option J) (i n : ℕ)
      (as_ : List A)
      → ((o : Option J) (a : A) → parse o ≡ some a → Q a)
      → parse_items json parse array i n ≡ some as_
      → (length as_ ≡ n) × All Q as_
  unfolding parse_items
  parse_items-All Q parse array i zero as_ f e =
      let same : [] ≡ as_ = cc in subst (λ l. (length l ≡ 0) × All Q l) same (refl, tt)
  parse_items-All Q parse array i (suc n) as_ f e =
      let (a, p, e1) = >>=-eq-some (parse (safe_get_array_item json array i)) _ e in
      let (rest, q, e2) = >>=-eq-some (parse_items json parse array (i + 1) n) _ e1 in
      let (len, all) = parse_items-All Q parse array (i + 1) n rest f q in
      let same : (a ∷ rest) ≡ as_ = cc in
      subst (λ l. (length l ≡ suc n) × All Q l) same
        (ap suc len, (f (safe_get_array_item json array i) a p, all))

  parse_virtio_memory_region_config-IsRegion :
      (o : Option J) (r : MemoryRegionConfig)
      → parse_virtio_memory_region_config json o ≡ some r
      → IsRegion r
  unfolding parse_virtio_memory_region_config
  parse_virtio_memory_region_config-IsRegion o r e =
      let (a, ea, e1) =
        >>=-eq-some (parse_json_u64 json (safe_get_object_item json o zone0_ipa_key)) _ e in
      let (b, eb, e2) =
        >>=-eq-some (parse_json_u64 json (safe_get_object_item json o zonex_ipa_key)) _ e1 in
      let (c, ec, e3) =
        >>=-eq-some (parse_json_u64 json (safe_get_object_item json o size_key)) _ e2 in
      let made : MemoryRegionConfig = record { zone0_ipa = a; zonex_ipa = b; size = c } in
      let same : made ≡ r = cc in
      subst IsRegion same (record {
        zone0_ipa = omega (arith, parse_json_max-le (2 ^ 64 - 1) _ a ea);
        zonex_ipa = omega (arith, parse_json_max-le (2 ^ 64 - 1) _ b eb);
        size = omega (arith, parse_json_max-le (2 ^ 64 - 1) _ c ec);
      })

  module _ {P : Type 0} (parse_params : ℕ → Option J → Option P) where
    enabled_device-IsDevice :
        (zone_id : ℕ) (o : Option J) (type addr len irq : ℕ) (d : VirtioDeviceConfig (Option P))
        → addr < 2 ^ 64
        → len < 2 ^ 64
        → irq < 2 ^ 32
        → enabled_device json parse_params zone_id o type addr len irq ≡ some d
        → IsDevice zone_id d
    unfolding enabled_device
    enabled_device-IsDevice zone_id o type addr len irq d a l i e =
        elim (Bool-cases ((addr == 0) || (len == 0) || (irq == 0))) [
          | inl bad ↦ absurd (let c : none ≡ some d = (rw (enabled_device, bad) at e) in cc)
          | inr fine ↦
              let (params, p, e1) =
                >>=-eq-some (parse_params type o) _ (rw (enabled_device, fine) at e) in
              let made : VirtioDeviceConfig (Option P) = record {
                type = type;
                enabled = true;
                zone_id = zone_id;
                addr = addr;
                len = len;
                irq = irq;
                params = some params;
              } in
              let same : made ≡ d = cc in
              subst (IsDevice zone_id) same (record {
                of_zone = refl;
                addr = λ on. (ground (arith, fine), a);
                len = λ on. (ground (arith, fine), l);
                irq = λ on. (ground (arith, fine), i);
              })
        ]

    parse_enabled_device-IsDevice :
        (zone_id : ℕ) (o : Option J) (d : VirtioDeviceConfig (Option P))
        → parse_enabled_device json parse_params zone_id o ≡ some d
        → IsDevice zone_id d
    unfolding parse_enabled_device
    parse_enabled_device-IsDevice zone_id o d e =
        let (item, q1, e1) = >>=-eq-some (safe_get_object_item json o type_key) _ e in
        let (name, q2, e2) = >>=-eq-some (json.valuestring item) _ e1 in
        let (type, q3, e3) = >>=-eq-some (parse_virtio_device_type name) _ e2 in
        let (addr, q4, e4) =
          >>=-eq-some (parse_json_u64 json (safe_get_object_item json o addr_key)) _ e3 in
        let (len, q5, e5) =
          >>=-eq-some (parse_json_u64 json (safe_get_object_item json o len_key)) _ e4 in
        let (irq, q6, e6) =
          >>=-eq-some (parse_json_u32 json (safe_get_object_item json o irq_key)) _ e5 in
        enabled_device-IsDevice zone_id o type addr len irq d
          (omega (arith, parse_json_max-le (2 ^ 64 - 1) _ addr q4))
          (omega (arith, parse_json_max-le (2 ^ 64 - 1) _ len q5))
          (omega (arith, parse_json_max-le (2 ^ 32 - 1) _ irq q6)) e6

    disabled_device-IsDevice :
        (zone_id : ℕ) → IsDevice zone_id (disabled_device json parse_params zone_id)
    disabled_device-IsDevice zone_id = record {
      of_zone = refl;
      addr = λ on. absurd (let c : false ≡ true = on in cc);
      len = λ on. absurd (let c : false ≡ true = on in cc);
      irq = λ on. absurd (let c : false ≡ true = on in cc);
    }

    device_with_status-IsDevice :
        (zone_id : ℕ) (o : Option J) (status : List ℕ) (d : VirtioDeviceConfig (Option P))
        → device_with_status json parse_params zone_id o status ≡ some d
        → IsDevice zone_id d
    unfolding device_with_status
    device_with_status-IsDevice zone_id o status d e =
        elim (Bool-cases (strcmp status disable_name)) [
          | inl off ↦
              let c : some (disabled_device json parse_params zone_id) ≡ some d =
                (rw (device_with_status, off) at e) in
              let same : disabled_device json parse_params zone_id ≡ d = cc in
              subst (IsDevice zone_id) same (disabled_device-IsDevice zone_id)
          | inr n ↦ elim (Bool-cases (strcmp status enable_name)) [
            | inl on ↦
                parse_enabled_device-IsDevice zone_id o d (rw (device_with_status, n, on) at e)
            | inr m ↦ absurd (let c : none ≡ some d = (rw (device_with_status, n, m) at e) in cc)
          ]
        ]

    parse_virtio_device_config-IsDevice :
        (zone_id : ℕ) (o : Option J) (d : VirtioDeviceConfig (Option P))
        → parse_virtio_device_config json parse_params zone_id o ≡ some d
        → IsDevice zone_id d
    unfolding parse_virtio_device_config
    parse_virtio_device_config-IsDevice zone_id o d e =
        let (item, q1, e1) = >>=-eq-some (safe_get_object_item json o status_key) _ e in
        let (status, q2, e2) = >>=-eq-some (json.valuestring item) _ e1 in
        device_with_status-IsDevice zone_id o status d e2

    parse_virtio_zone_config-IsZone :
        (o : Option J) (z : VirtioZoneConfig P)
        → parse_virtio_zone_config json parse_params o ≡ some z
        → IsZone z
    unfolding parse_virtio_zone_config
    parse_virtio_zone_config-IsZone o z e =
        let id_item : Option J = elim (safe_get_object_item json o id_key) [
          | none ↦ safe_get_object_item json o zone_id_key
          | some item ↦ some item
        ] in
        let memory = safe_get_object_item json o memory_region_key in
        let devices = safe_get_object_item json o devices_key in
        let m = safe_get_array_size json memory in
        let n = safe_get_array_size json devices in
        let (zone_id, q1, e1) = >>=-eq-some (parse_json_u32 json id_item) _ e in
        let (b2, q2, e2) = >>=-eq-some (refuse_if (leb max_zones zone_id)) _ e1 in
        let (b3, q3, e3) = >>=-eq-some (refuse_if (ltb max_memory_regions m)) _ e2 in
        let (regions, q4, e4) =
          >>=-eq-some (parse_items json (parse_virtio_memory_region_config json) memory 0 m) _ e3 in
        let (b5, q5, e5) = >>=-eq-some (refuse_if (ltb max_devs n)) _ e4 in
        let (devs, q6, e6) =
          >>=-eq-some
            (parse_items json (parse_virtio_device_config json parse_params zone_id) devices 0 n) _
            e5 in
        let (len_r, all_r) =
          parse_items-All IsRegion _ memory 0 m regions parse_virtio_memory_region_config-IsRegion
            q4 in
        let (len_d, all_d) =
          parse_items-All (IsDevice zone_id) _ devices 0 n devs
            (parse_virtio_device_config-IsDevice zone_id) q6 in
        let made : VirtioZoneConfig P = record {
          zone_id = zone_id;
          memory_regions = regions;
          devices = devs;
        } in
        let same : made ≡ z = cc in
        let in_range = refuse_if_lem _ b2 q2 in
        let memory_fits = refuse_if_lem _ b3 q3 in
        let devices_fit = refuse_if_lem _ b5 q5 in
        subst IsZone same (record {
          exists = ground (arith, in_range);
          regions = ground (arith, memory_fits, len_r);
          all_regions = all_r;
          devices = ground (arith, devices_fit, len_d);
          all_devices = all_d;
        })

    -- A configuration that `parse_virtio_config` accepts has at most 32 zones; in each, the number of
    -- the zone is below 32, there are at most 64 memory regions and 8 devices, the numbers of the
    -- regions fit 64 bits, and each device carries the zone's number and, if it is enabled, an address
    -- and a length that fit 64 bits and an interrupt that fits 32, none of them 0.
    pub parse_virtio_config_lem :
        (root : J) (zs : List (VirtioZoneConfig P))
        → parse_virtio_config json parse_params root ≡ some zs
        → (length zs ≤ max_zones) × All IsZone zs
    unfolding parse_virtio_config
    parse_virtio_config_lem root zs e =
        elim (Option-cases (json.get_object_item_case_sensitive root zones_key)) [
          | inl q ↦
              let (z, p, e1) =
                >>=-eq-some (parse_virtio_zone_config json parse_params (some root)) _
                  (rw (parse_virtio_config, q) at e) in
              let same : (z ∷ []) ≡ zs = cc in
              subst (λ l. (length l ≤ max_zones) × All IsZone l) same
                (omega arith, (parse_virtio_zone_config-IsZone (some root) z p, tt))
          | inr (zones, q) ↦ elim (Bool-cases (ltb max_zones (json.get_array_size zones))) [
            | inl big ↦
                absurd (let c : none ≡ some zs = (rw (parse_virtio_config, q, big) at e) in cc)
            | inr fits ↦
                let (len, all) =
                  parse_items-All IsZone _ (some zones) 0 (json.get_array_size zones) zs
                    parse_virtio_zone_config-IsZone (rw (parse_virtio_config, q, fits) at e) in
                (ground (arith, fits, len), all)
          ]
        ]
