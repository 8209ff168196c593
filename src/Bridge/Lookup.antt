-- ===== src/Bridge/Lookup.antt =====
-- Which device `virtio_handle_req` of tools/virtio/virtio.c gives a request to, and what it leaves alone.
use hvisor_tool.Base.{
  ℕ, suc, ◌+◌, ◌%◌, ◌^◌, ◌≤◌, ◌<◌, ◌≡◌, ◌≢◌, ap, ◌∙◌, subst, true, ◌&&◌, List, [], ◌∷◌, none, some,
  set, get_elem?, length, length-set, get_elem?-set_ne, ◌==◌, if◌then◌else◌, arith, Bool-cases,
  Option-cases, inl, inr,
}
use hvisor_tool.Device.{VirtIoDevice, DeviceReq, World, Result, returns, ◌>>=◌, >>=-eq-returns}
use hvisor_tool.Mmio.{DeviceOps}
use hvisor_tool.Bridge.{
  in_range, virtio_finish_cfg_req, find_device, Daemon, access, virtio_handle_req,
}

module _ {Dev : Type 0} where
  -- The device's registers hold the address, within the zone.
  pub record Serves (src_zone address : ℕ) (d : VirtIoDevice Dev) : Type 0 where
    pub same_zone : src_zone ≡ d.zone_id
    pub above : d.base_addr ≤ address
    pub below : address < (d.base_addr + d.len) % 2 ^ 64

  matches :
      (src_zone address : ℕ) (d : VirtIoDevice Dev)
      → (src_zone == d.zone_id && in_range address d.base_addr d.len) ≡ true
      → Serves src_zone address d
  unfolding in_range
  matches src_zone address d h = record {
    same_zone = ground arith;
    above = ground arith;
    below = ground arith;
  }

  pub find_device_lem :
      (src_zone address i : ℕ) (ds : List (VirtIoDevice Dev)) (j : ℕ) (d : VirtIoDevice Dev)
      → find_device src_zone address i ds ≡ some (j, d)
      → (k : ℕ) × (j ≡ i + k) × (get_elem? ds k ≡ some d) × Serves src_zone address d
  unfolding find_device
  find_device_lem src_zone address i [] j d h = cc
  find_device_lem src_zone address i (x ∷ ds) j d h =
      elim (Bool-cases (src_zone == x.zone_id && in_range address x.base_addr x.len)) [
        | inl e ↦
            let same : x ≡ d = ground arith in
            (0, ground arith, ground arith, rw (← same) (matches src_zone address x e))
        | inr e ↦
            let (k, at, found, serves) =
              find_device_lem src_zone address (i + 1) ds j d (ground arith) in
            (suc k, omega arith, found, serves)
      ]

  handled :
      (ops : DeviceOps Dev) (req : DeviceReq) (s s' : Daemon Dev) (i : ℕ) (d : VirtIoDevice Dev)
      → find_device req.src_zone req.address 0 s.vdevs ≡ some (i, d)
      → virtio_handle_req ops req s ≡ returns s'
      → (d' : VirtIoDevice Dev) × (s'.vdevs ≡ set s.vdevs i d')
  unfolding virtio_handle_req
  handled ops req s s' i d e h =
      let body : VirtIoDevice Dev × World × ℕ → Result (Daemon Dev) = λ r. (do
        w'' ←
            if req.need_interrupt == 0
            then virtio_finish_cfg_req req.src_cpu r.2 r.1
            else returns r.1
        returns (record { vdevs = set s.vdevs i r.0; world = w'' })) in
      let ((d', w', value), got, rest) =
        >>=-eq-returns (access ops req d s.world) body {b = s'} (ground (arith, e)) in
      let last : World → Result (Daemon Dev) =
        λ w''. returns (record { vdevs = set s.vdevs i d'; world = w'' }) in
      let (w'', got', rest') =
        >>=-eq-returns
          (if req.need_interrupt == 0
            then virtio_finish_cfg_req req.src_cpu value w'
            else returns w')
          last {b = s'} rest in
      (d', ground arith)

  absent :
      (ops : DeviceOps Dev) (req : DeviceReq) (s s' : Daemon Dev)
      → find_device req.src_zone req.address 0 s.vdevs ≡ none
      → virtio_handle_req ops req s ≡ returns s'
      → s'.vdevs ≡ s.vdevs
  unfolding virtio_handle_req virtio_finish_cfg_req
  absent ops req s s' e h =
      elim (Option-cases (get_elem? s.world.bridge.cfg_flags (req.src_cpu % 2 ^ 32))) [
        | inl e1 ↦ absurd (ground arith)
        | inr (flag, e1) ↦ ground arith
      ]

  -- If a request of a zone is handled to its end, there are as many devices as before, and every
  -- device of another zone, and every device whose registers do not hold the request's address, is
  -- as it was, whatever the device types' functions do to the device that was asked.
  pub virtio_handle_req-isolation :
      (ops : DeviceOps Dev) (req : DeviceReq) (s s' : Daemon Dev) (j : ℕ) (d : VirtIoDevice Dev)
      → virtio_handle_req ops req s ≡ returns s'
      → get_elem? s.vdevs j ≡ some d
      → ¬ Serves req.src_zone req.address d
      → (length s'.vdevs ≡ length s.vdevs) × (get_elem? s'.vdevs j ≡ some d)
  virtio_handle_req-isolation ops req s s' j d h found other =
      elim (Option-cases (find_device req.src_zone req.address 0 s.vdevs)) [
        | inl e ↦ let same = absent ops req s s' e h in (ap length same, rw same found)
        | inr ((i, x), e) ↦
            let (d', same) = handled ops req s s' i x e h in
            let (k, at, here, serves) = find_device_lem req.src_zone req.address 0 s.vdevs i x e in
            let ne : i ≢ j =
              λ q. other (subst (Serves req.src_zone req.address) (ground arith) serves) in
            (
              ap length same ∙ length-set s.vdevs i d',
              rw (same, get_elem?-set_ne s.vdevs i j d' ne) found,
            )
      ]
