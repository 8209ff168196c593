-- ===== src/Bridge/Polling.antt =====
-- How long `consume_pending_requests` of tools/virtio/virtio.c runs.
use hvisor_tool.Base.{
  ℕ, zero, suc, ◌+◌, ◌-◌, ◌%◌, ◌<◌, ◌≡◌, refl, bit_and, false, ltb, ◌==◌, arith, Bool-cases, inl,
  inr, some, get_elem?, get_elem?_of_lt,
}
use hvisor_tool.Device.{DeviceReq, RequestRing, max_req, Result, returns}
use hvisor_tool.Ring.{pending, next-index}
use hvisor_tool.Bridge.{poll, consume_pending_requests}
use hvisor_tool.Bridge.Fifo.{IsValidRequests}

module _ {S E : Type 0} (max_poll_count : ℕ) (handle : DeviceReq → S → Result S)
    (hypervisor : RequestRing → E → RequestRing × E) where
  module _ (quiet : (r : RequestRing) (e : E) → hypervisor r e ≡ (r, e))
      (Served : DeviceReq → Type 0) (Safe : S → Type 0)
      (total : (req : DeviceReq) (s : S)
        → Served req
        → Safe s
        → (s' : S) × (handle req s ≡ returns s') × Safe s') where
    -- Every request in the ring's entries is one that `handle` is known to serve.
    abbrev pub AllServed : RequestRing → Type 0
    AllServed r = (i : ℕ) (req : DeviceReq) → get_elem? r.req_list i ≡ some req → Served req

    abbrev Returns : ℕ → ℕ → ℕ → RequestRing → E → S → Type 0
    Returns fuel poll_count proc_count r e s =
        (out : ℕ × RequestRing × E × S) × (poll max_poll_count handle hypervisor fuel poll_count
            proc_count r e s
          ≡ returns out)

    empty-Returns :
        (fuel poll_count proc_count : ℕ) (r : RequestRing) (e : E) (s : S)
        → r.req_front ≡ r.req_rear
        → max_poll_count - poll_count < fuel
        → Returns fuel poll_count proc_count r e s
    unfolding poll
    empty-Returns zero poll_count proc_count r e s same h = absurd (omega arith)
    empty-Returns (suc fuel) poll_count proc_count r e s same h =
        elim (Bool-cases (ltb (poll_count + 1) max_poll_count)) [
          | inl more ↦
              let (out, got) =
                empty-Returns fuel (poll_count + 1) proc_count r e s same (ground arith) in
              (out, ground (arith, quiet r e, got))
          | inr enough ↦ (
            (proc_count, record r { need_wakeup = 1 }, e, s),
            ground (arith, quiet r e, quiet (record r { need_wakeup = 1 }) e),
          )
        ]

    pending-Returns :
        (n fuel poll_count proc_count : ℕ) (r : RequestRing) (e : E) (s : S)
        → IsValidRequests r
        → AllServed r
        → Safe s
        → pending r.req_front r.req_rear ≡ n
        → n + max_poll_count < fuel
        → Returns fuel poll_count proc_count r e s
    unfolding poll
    pending-Returns zero fuel poll_count proc_count r e s v served safe p h =
        let f = v.front_in in
        let b = v.rear_in in
        empty-Returns fuel poll_count proc_count r e s (omega arith) (omega arith)
    pending-Returns (suc n) zero poll_count proc_count r e s v served safe p h =
        absurd (omega arith)
    pending-Returns (suc n) (suc fuel) poll_count proc_count r e s v served safe p h =
        let f = v.front_in in
        let b = v.rear_in in
        let (req, found) = get_elem?_of_lt r.req_list r.req_front (omega (arith, v.size)) in
        let (s', done, safe') = total req s (served r.req_front req found) safe in
        let at : bit_and (r.req_front + 1) (max_req - 1) ≡ (r.req_front + 1) % max_req =
          next-index (r.req_front + 1) in
        let (out, got) =
          pending-Returns n fuel 0 (proc_count + 1)
            (record r { req_front = bit_and (r.req_front + 1) (max_req - 1) }) e s'
            (record { front_in = rw at (omega arith); rear_in = b; size = v.size }) served safe'
            (rw at (omega arith)) (omega arith) in
        let ne : (r.req_front == r.req_rear) ≡ false = ground arith in
        (out, ground (arith, quiet r e, ne, found, done, got))

    -- If the ring is in order, the hypervisor adds nothing more, and handling any request of the ring in
    -- a safe state comes to an end in a safe state: from a safe state, `consume_pending_requests` returns
    -- after at most as many loads as there are pending requests and polls.
    pub consume_pending_requests-returns :
        (fuel : ℕ) (r : RequestRing) (e : E) (s : S)
        → IsValidRequests r
        → AllServed r
        → Safe s
        → pending r.req_front r.req_rear + max_poll_count < fuel
        → (out : ℕ × RequestRing × E × S) × (consume_pending_requests max_poll_count handle
              hypervisor fuel r e s
            ≡ returns out)
    unfolding consume_pending_requests
    consume_pending_requests-returns fuel r e s v served safe h =
        pending-Returns (pending r.req_front r.req_rear) fuel 0 0 (record r { need_wakeup = 0 }) e s
          (record { front_in = v.front_in; rear_in = v.rear_in; size = v.size }) served safe refl h
