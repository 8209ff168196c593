-- ===== src/Setup/Apart.antt =====
-- The MMIO ranges of the devices that a configuration adds in tools/virtio/virtio.c.
use hvisor_tool.Base.{
  ℕ, ◌+◌, ◌≤◌, ◌<◌, ◌≡◌, refl, sym, ◌∙◌, subst, true, false, List, [], ◌∷◌, ◌++◌, append_assoc,
  append-nil, Option, some, length, length-append, arith, All, All-append, Bool-cases, Option-cases,
  inl, inr,
}
use hvisor_tool.ZoneMemory.{ranges_overlap}
use hvisor_tool.Device.{VirtIoDevice}
use hvisor_tool.Setup.{
  max_devs, VirtioDeviceConfig, InitOps, clashes, clashes_earlier, validate_zone, validate_zones,
  validate_virtio_config_devices, publish_virtio_devices, init_virtio_queue, new_device,
  create_virtio_device_unpublished, create_devices, create_zones, create_virtio_config_devices,
}

module _ {Dev : Type 0} where
  -- Within one zone, the devices' ranges do not overlap.
  abbrev pub Apart : VirtIoDevice Dev → VirtIoDevice Dev → Type 0
  Apart d e = d.zone_id ≡ e.zone_id → ranges_overlap d.base_addr d.len e.base_addr e.len ≡ false

  abbrev pub Separate : List (VirtIoDevice Dev) → Type 0
  Separate [] = Unit
  Separate (d ∷ ds) = All (λ e. Apart e d) ds × Separate ds

  Separate-snoc :
      (ds : List (VirtIoDevice Dev)) (d : VirtIoDevice Dev)
      → Separate ds
      → All (λ e. Apart d e) ds
      → Separate (ds ++ (d ∷ []))
  Separate-snoc [] d s a = (tt, tt)
  Separate-snoc (e ∷ ds) d s a =
      (All-append (λ x. Apart x e) ds (d ∷ []) s.0 (a.0, tt), Separate-snoc ds d s.1 a.1)

module _ {Dev Params : Type 0} where
  -- The device has the place that the configuration gives it.
  pub record HasPlace (cfg : VirtioDeviceConfig Params) (d : VirtIoDevice Dev) : Type 0 where
    pub zone : d.zone_id ≡ cfg.zone_id
    pub base : d.base_addr ≡ cfg.addr
    pub len : d.len ≡ cfg.len

  abbrev ApartConfig : VirtioDeviceConfig Params → VirtIoDevice Dev → Type 0
  ApartConfig cfg e =
      cfg.zone_id ≡ e.zone_id → ranges_overlap cfg.addr cfg.len e.base_addr e.len ≡ false

  clashes_lem :
      (cfg : VirtioDeviceConfig Params) (ds : List (VirtIoDevice Dev))
      → clashes cfg ds ≡ false
      → All (ApartConfig cfg) ds
  unfolding clashes
  clashes_lem cfg [] h = tt
  clashes_lem cfg (d ∷ ds) h = (λ z. ground arith, clashes_lem cfg ds (ground arith))

  apart_lem :
      (cfg : VirtioDeviceConfig Params) (d : VirtIoDevice Dev) (ds : List (VirtIoDevice Dev))
      → HasPlace cfg d
      → All (ApartConfig cfg) ds
      → All (λ e. Apart d e) ds
  apart_lem cfg d [] p h = tt
  apart_lem cfg d (e ∷ ds) p h =
      (λ z. rw (p.base, p.len) (h.0 (sym p.zone ∙ z)), apart_lem cfg d ds p h.1)

  -- What the validation of one more device finds is right for the devices made so far.
  abbrev Covers : List (VirtioDeviceConfig Params) → List (VirtIoDevice Dev) → Type 0
  Covers earlier made =
      (cfg : VirtioDeviceConfig Params)
      → clashes_earlier cfg earlier ≡ false
      → All (ApartConfig cfg) made

module _ {Params : Type 0} where
  clashes_earlier-append :
      (cfg e : VirtioDeviceConfig Params) (es : List (VirtioDeviceConfig Params))
      → clashes_earlier cfg (es ++ (e ∷ [])) ≡ false
      → (clashes_earlier cfg es ≡ false) × (clashes_earlier cfg (e ∷ []) ≡ false)
  unfolding clashes_earlier
  clashes_earlier-append cfg e [] h = (refl, h)
  clashes_earlier-append cfg e (x ∷ es) h = ground (arith, clashes_earlier-append cfg e es)

module _ {Dev Params : Type 0} where
  Covers-skip :
      (earlier : List (VirtioDeviceConfig Params)) (made : List (VirtIoDevice Dev))
      (e : VirtioDeviceConfig Params)
      → Covers earlier made
      → Covers (earlier ++ (e ∷ [])) made
  Covers-skip earlier made e c cfg h = c cfg (clashes_earlier-append cfg e earlier h).0

  Covers-snoc :
      (earlier : List (VirtioDeviceConfig Params)) (made : List (VirtIoDevice Dev))
      (e : VirtioDeviceConfig Params) (d : VirtIoDevice Dev)
      → Covers earlier made
      → e.enabled ≡ true
      → HasPlace e d
      → Covers (earlier ++ (e ∷ [])) (made ++ (d ∷ []))
  unfolding clashes_earlier
  Covers-snoc earlier made e d c on p cfg h =
      let (h0, h1) = clashes_earlier-append cfg e earlier h in
      All-append (ApartConfig cfg) made (d ∷ []) (c cfg h0)
        (λ z. rw (p.base, p.len) (ground (arith, p.zone)), tt)

module _ {Dev Params : Type 0} (lookup_ops : ℕ → Option (InitOps Dev Params)) where
  -- A device type's `init` leaves the device where it is.
  abbrev pub InitKeepsPlace : Type 0
  InitKeepsPlace =
      (type : ℕ) (ops : InitOps Dev Params) (cfg : VirtioDeviceConfig Params)
      (d d' : VirtIoDevice Dev)
      → lookup_ops type ≡ some ops
      → HasPlace cfg d
      → ops.init cfg.params d ≡ some d'
      → HasPlace cfg d'

  create-HasPlace :
      (cfg : VirtioDeviceConfig Params) (d : VirtIoDevice Dev)
      → InitKeepsPlace
      → create_virtio_device_unpublished lookup_ops cfg ≡ some d
      → HasPlace cfg d
  unfolding create_virtio_device_unpublished init_virtio_queue new_device
  create-HasPlace cfg d keeps h = elim (Option-cases (lookup_ops cfg.type)) [
    | inl e ↦ absurd (ground (arith, e))
    | inr (ops, e) ↦
        elim (Option-cases (init_virtio_queue lookup_ops ops (new_device lookup_ops ops cfg))) [
          | inl e1 ↦ absurd (ground (arith, e))
          | inr (d1, e1) ↦
              keeps cfg.type ops cfg d1 d e
                (record { zone = ground arith; base = ground arith; len = ground arith })
                (ground (arith, e))
        ]
  ]

  module _ (keeps : InitKeepsPlace) (vdevs : List (VirtIoDevice Dev)) where
    -- What the two passes over the configuration have established so far.
    record Agree (total : ℕ) (earlier : List (VirtioDeviceConfig Params))
        (made : List (VirtIoDevice Dev)) : Type 0 where
      covers : Covers earlier made
      separate : Separate (vdevs ++ made)
      counted : total ≡ length vdevs + length made
      room : total ≤ max_devs

    add :
        (total : ℕ) (earlier : List (VirtioDeviceConfig Params)) (made : List (VirtIoDevice Dev))
        (e : VirtioDeviceConfig Params) (d : VirtIoDevice Dev)
        → Agree total earlier made
        → e.enabled ≡ true
        → create_virtio_device_unpublished lookup_ops e ≡ some d
        → total < max_devs
        → clashes e vdevs ≡ false
        → clashes_earlier e earlier ≡ false
        → Agree (total + 1) (earlier ++ (e ∷ [])) (made ++ (d ∷ []))
    add total earlier made e d v on c room free free' =
        let p = create-HasPlace e d keeps c in
        record {
          covers = Covers-snoc earlier made e d v.covers on p;
          separate = rw (← append_assoc vdevs made (d ∷ [])) (
              Separate-snoc (vdevs ++ made) d v.separate (
                apart_lem e d (vdevs ++ made) p (
                  All-append (ApartConfig e) vdevs made (clashes_lem e vdevs free)
                    (v.covers e free'))));
          counted = omega (arith, v.counted, length-append made (d ∷ []));
          room = omega arith;
        }

    skip :
        (total : ℕ) (earlier : List (VirtioDeviceConfig Params)) (made : List (VirtIoDevice Dev))
        (e : VirtioDeviceConfig Params)
        → Agree total earlier made
        → Agree total (earlier ++ (e ∷ [])) made
    skip total earlier made e v = record {
      covers = Covers-skip earlier made e v.covers;
      separate = v.separate;
      counted = v.counted;
      room = v.room;
    }

    zone_lem :
        (devs : List (VirtioDeviceConfig Params)) (total total' : ℕ)
        (earlier earlier' : List (VirtioDeviceConfig Params)) (made made' : List (VirtIoDevice Dev))
        → Agree total earlier made
        → validate_zone vdevs total earlier devs ≡ some (total', earlier')
        → create_devices lookup_ops made devs ≡ some made'
        → Agree total' earlier' made'
    unfolding validate_zone create_devices
    zone_lem [] total total' earlier earlier' made made' v h c =
        let e1 : total ≡ total' = ground arith in
        let e2 : earlier ≡ earlier' = ground arith in
        let e3 : made ≡ made' = ground arith in
        subst (λ t. Agree t earlier' made') e1
          (subst (λ x. Agree total x made') e2 (subst (λ x. Agree total earlier x) e3 v))
    zone_lem (e ∷ devs) total total' earlier earlier' made made' v h c =
        elim (Bool-cases e.enabled) [
          | inr off ↦
              zone_lem devs total total' (earlier ++ (e ∷ [])) earlier' made made'
                (skip total earlier made e v) (ground arith) (ground arith)
          | inl on ↦ elim (Option-cases (create_virtio_device_unpublished lookup_ops e)) [
            | inl bad ↦ absurd (ground arith)
            | inr (d, good) ↦
                zone_lem devs (total + 1) total' (earlier ++ (e ∷ [])) earlier' (made ++ (d ∷ []))
                  made'
                  (add total earlier made e d v on good (ground arith) (ground arith)
                    (ground arith))
                  (ground arith) (ground arith)
          ]
        ]

    zones_lem :
        (zones : List (List (VirtioDeviceConfig Params))) (total : ℕ)
        (earlier : List (VirtioDeviceConfig Params)) (made made' : List (VirtIoDevice Dev))
        → Agree total earlier made
        → validate_zones vdevs total earlier zones ≡ true
        → create_zones lookup_ops made zones ≡ some made'
        → Separate (vdevs ++ made') × (length vdevs + length made' ≤ max_devs)
    unfolding validate_zones create_zones
    zones_lem [] total earlier made made' v h c =
        let same : made ≡ made' = ground arith in
        subst (λ x. Separate (vdevs ++ x) × (length vdevs + length x ≤ max_devs)) same
          (v.separate, omega (arith, v.counted, v.room))
    zones_lem (zone ∷ zones) total earlier made made' v h c =
        elim (Option-cases (validate_zone vdevs total earlier zone)) [
          | inl bad ↦ absurd (ground arith)
          | inr ((total1, earlier1), e) ↦
              elim (Option-cases (create_devices lookup_ops made zone)) [
                | inl bad ↦ absurd (ground arith)
                | inr (made1, e1) ↦
                    zones_lem zones total1 earlier1 made1 made'
                      (zone_lem zone total total1 earlier earlier1 made made1 v e e1) (ground arith)
                      (ground arith)
              ]
        ]

    -- If the devices that are there lie apart within their zones and are at most MAX_DEVS, each device
    -- type's `init` leaves a device where it is, and a configuration passes
    -- `validate_virtio_config_devices`, then, if `create_virtio_config_devices` makes its devices, all
    -- devices lie apart within their zones and are still at most MAX_DEVS.
    pub create_virtio_config_devices-Separate :
        (zones : List (List (VirtioDeviceConfig Params))) (vdevs' : List (VirtIoDevice Dev))
        → Separate vdevs
        → length vdevs ≤ max_devs
        → validate_virtio_config_devices vdevs zones ≡ true
        → create_virtio_config_devices lookup_ops vdevs zones ≡ some vdevs'
        → Separate vdevs' × (length vdevs' ≤ max_devs)
    unfolding validate_virtio_config_devices create_virtio_config_devices publish_virtio_devices
    create_virtio_config_devices-Separate zones vdevs' s room h c =
        elim (Option-cases (create_zones lookup_ops [] zones)) [
          | inl bad ↦ absurd (ground arith)
          | inr (made, e) ↦
              let (sep, few) =
                zones_lem zones (length vdevs) [] [] made
                  (record {
                    covers = λ cfg f. tt;
                    separate = rw (append-nil vdevs) s;
                    counted = omega arith;
                    room = room;
                  })
                  h e in
              let same : vdevs ++ made ≡ vdevs' = ground arith in
              subst (λ x. Separate x × (length x ≤ max_devs)) same
                (sep, omega (arith, few, length-append vdevs made))
        ]
