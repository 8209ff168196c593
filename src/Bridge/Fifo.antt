-- ===== src/Bridge/Fifo.antt =====
-- The requests that `consume_pending_requests` of tools/virtio/virtio.c handles, and their order.
use hvisor_tool.Base.{
  ℕ, zero, suc, ◌+◌, ◌-◌, ◌%◌, ◌<◌, ◌≡◌, ◌≢◌, refl, sym, ap, ◌∙◌, subst, bit_and, List, [], ◌∷◌,
  ◌++◌, append-nil, append_assoc, Option, some, get_elem?, length, ltb, ◌==◌, arith, Bool-cases,
  Option-cases, inl, inr,
}
use hvisor_tool.Device.{DeviceReq, RequestRing, max_req, Result, returns, ◌>>=◌, >>=-eq-returns}
use hvisor_tool.Ring.{contents, contents-pop, contents-empty, next-index}
use hvisor_tool.Bridge.{poll, consume_pending_requests}

-- The entries of a ring as read.
abbrev pub entries : List DeviceReq → List (Option DeviceReq)
entries [] = []
entries (q ∷ qs) = some q ∷ entries qs

entries-append : (qs rs : List DeviceReq) → entries (qs ++ rs) ≡ entries qs ++ entries rs
entries-append [] rs = refl
entries-append (q ∷ qs) rs = ap (λ l. some q ∷ l) (entries-append qs rs)

entries-inj : (qs rs : List DeviceReq) → entries qs ≡ entries rs → qs ≡ rs
entries-inj [] [] h = refl
entries-inj [] (q ∷ qs) h = cc
entries-inj (q ∷ qs) [] h = cc
entries-inj (q ∷ qs) (r ∷ rs) h = ground (arith, entries-inj qs rs)

abbrev pub requests : RequestRing → List (Option DeviceReq)
requests r = contents r.req_list r.req_front r.req_rear

pub record IsValidRequests (r : RequestRing) : Type 0 where
  pub front_in : r.req_front < max_req
  pub rear_in : r.req_rear < max_req
  pub size : length r.req_list ≡ max_req

-- `handle` on one request after another.
abbrev pub handle_all {ℓ} :
    {S : Type ℓ} → (DeviceReq → S → Result S) → List DeviceReq → S → Result S
handle_all handle [] s = returns s
handle_all handle (q ∷ qs) s = handle q s >>= handle_all handle qs

-- What the daemon relies on in the hypervisor, of which `sent` tells all the requests it has ever put
-- into the ring: it only adds requests at the rear, and leaves the front and `need_wakeup` alone.
pub record IsProducer {E : Type 0} (sent : E → List DeviceReq)
    (hypervisor : RequestRing → E → RequestRing × E) (r : RequestRing) (e : E) : Type 0 where
  pub valid : IsValidRequests (hypervisor r e).0
  pub front_same : (hypervisor r e).0.req_front ≡ r.req_front
  pub wakeup_same : (hypervisor r e).0.need_wakeup ≡ r.need_wakeup
  pub added : List DeviceReq
  pub sends : sent (hypervisor r e).1 ≡ sent e ++ added
  pub appends : requests (hypervisor r e).0 ≡ requests r ++ entries added

module _ {S E : Type 0} (max_poll_count : ℕ) (handle : DeviceReq → S → Result S)
    (hypervisor : RequestRing → E → RequestRing × E) where
  abbrev advance : RequestRing → RequestRing
  advance r = record r { req_front = bit_and (r.req_front + 1) (max_req - 1) }

  abbrev sleeping : RequestRing → RequestRing
  sleeping r = record r { need_wakeup = 1 }

  abbrev awake : RequestRing → RequestRing
  awake r = record r { need_wakeup = 0 }

  -- One round of the loop, from the ring as loaded, with what is left to do.
  data Round (fuel poll_count proc_count : ℕ) (r1 : RequestRing) (e1 : E) (s : S)
      (out : ℕ × RequestRing × E × S) : Type 0 where
    served :
        (req : DeviceReq) (s' : S)
        → r1.req_front ≢ r1.req_rear
        → get_elem? r1.req_list r1.req_front ≡ some req
        → handle req s ≡ returns s'
        → poll max_poll_count handle hypervisor fuel 0 (proc_count + 1) (advance r1) e1 s'
          ≡ returns out
        → Round fuel poll_count proc_count r1 e1 s out
    polled :
        r1.req_front ≡ r1.req_rear
        → poll max_poll_count handle hypervisor fuel (poll_count + 1) proc_count r1 e1 s
          ≡ returns out
        → Round fuel poll_count proc_count r1 e1 s out
    slept :
        (r2 : RequestRing) (e2 : E)
        → r1.req_front ≡ r1.req_rear
        → hypervisor (sleeping (hypervisor r1 e1).0) (hypervisor r1 e1).1 ≡ (r2, e2)
        → r2.req_front ≡ r2.req_rear
        → out ≡ (proc_count, r2, e2, s)
        → Round fuel poll_count proc_count r1 e1 s out
    raced :
        (r2 : RequestRing) (e2 : E)
        → r1.req_front ≡ r1.req_rear
        → hypervisor (sleeping (hypervisor r1 e1).0) (hypervisor r1 e1).1 ≡ (r2, e2)
        → poll max_poll_count handle hypervisor fuel 0 proc_count (awake r2) e2 s ≡ returns out
        → Round fuel poll_count proc_count r1 e1 s out

  round :
      (fuel poll_count proc_count : ℕ) (r r1 : RequestRing) (e e1 : E) (s : S)
      (out : ℕ × RequestRing × E × S)
      → hypervisor r e ≡ (r1, e1)
      → poll max_poll_count handle hypervisor (suc fuel) poll_count proc_count r e s ≡ returns out
      → Round fuel poll_count proc_count r1 e1 s out
  unfolding poll
  round fuel poll_count proc_count r r1 e e1 s out h p =
      elim (Bool-cases (r1.req_front == r1.req_rear)) [
        | inl same ↦ elim (Bool-cases (ltb (poll_count + 1) max_poll_count)) [
          | inl more ↦ polled (ground arith) (ground arith)
          | inr enough ↦
              elim (Bool-cases (
                (hypervisor (sleeping (hypervisor r1 e1).0) (hypervisor r1 e1).1).0.req_front
                == (hypervisor (sleeping (hypervisor r1 e1).0) (hypervisor r1 e1).1).0.req_rear)) [
                  | inl same2 ↦
                      slept (hypervisor (sleeping (hypervisor r1 e1).0) (hypervisor r1 e1).1).0
                        (hypervisor (sleeping (hypervisor r1 e1).0) (hypervisor r1 e1).1).1
                        (ground arith) refl (ground arith) (ground arith)
                  | inr other ↦
                      raced (hypervisor (sleeping (hypervisor r1 e1).0) (hypervisor r1 e1).1).0
                        (hypervisor (sleeping (hypervisor r1 e1).0) (hypervisor r1 e1).1).1
                        (ground arith) refl (ground arith)
                ]
        ]
        | inr differ ↦ elim (Option-cases (get_elem? r1.req_list r1.req_front)) [
          | inl missing ↦ absurd (ground arith)
          | inr (req, found) ↦
              let (s', hs, rest) =
                >>=-eq-returns (handle req s)
                  (λ s'.
                    poll max_poll_count handle hypervisor fuel 0 (proc_count + 1) (advance r1) e1
                      s')
                  {b = out} (ground arith) in
              served req s' (ground arith) found hs rest
        ]
      ]

  module _ (sent : E → List DeviceReq)
      (producer : (r : RequestRing) (e : E)
        → IsValidRequests r
        → IsProducer sent hypervisor r e) where
    -- The ring is in order and holds what was sent after `old`.
    record Holds (old : List DeviceReq) (r : RequestRing) (e : E) : Type 0 where
      valid : IsValidRequests r
      held : entries (sent e) ≡ entries old ++ requests r

    loaded :
        (old : List DeviceReq) (r r1 : RequestRing) (e e1 : E)
        → hypervisor r e ≡ (r1, e1)
        → Holds old r e
        → Holds old r1 e1 × (r1.need_wakeup ≡ r.need_wakeup)
    loaded old r r1 e e1 h v =
        let p = producer r e v.valid in
        let q : Holds old (hypervisor r e).0 (hypervisor r e).1 = record {
          valid = p.valid;
          held =
              ap entries p.sends
              ∙ entries-append (sent e) p.added
              ∙ ap (λ l. l ++ entries p.added) v.held
              ∙ append_assoc (entries old) (requests r) (entries p.added)
              ∙ ap (λ l. entries old ++ l) (sym p.appends);
        } in
        (
          subst (λ x. Holds old x.0 x.1) h q,
          subst (λ x. x.0.need_wakeup ≡ r.need_wakeup) h p.wakeup_same,
        )

    advanced :
        (old : List DeviceReq) (r : RequestRing) (e : E) (req : DeviceReq)
        → Holds old r e
        → r.req_front ≢ r.req_rear
        → get_elem? r.req_list r.req_front ≡ some req
        → Holds (old ++ (req ∷ [])) (advance r) e
    advanced old r e req v ne found =
        let e1 : bit_and (r.req_front + 1) (max_req - 1) ≡ (r.req_front + 1) % max_req =
          next-index (r.req_front + 1) in
        record {
          valid = record {
            front_in = rw e1 (omega arith);
            rear_in = v.valid.rear_in;
            size = v.valid.size;
          };
          held =
              v.held
              ∙ ap (λ l. entries old ++ l)
                  (contents-pop r.req_list r.req_front r.req_rear v.valid.front_in v.valid.rear_in
                    ne)
              ∙ rw
                  (
                    e1,
                    found,
                    entries-append old (req ∷ []),
                    append_assoc (entries old) (some req ∷ []),
                  )
                  refl;
        }

    -- What the loop leaves: nothing to do, and a daemon that the hypervisor will wake.
    pub record Drained (old : List DeviceReq) (proc_count : ℕ) (s : S)
        (out : ℕ × RequestRing × E × S) : Type 0 where
      pub handled : List DeviceReq
      pub in_order : sent out.2 ≡ old ++ handled
      pub result : handle_all handle handled s ≡ returns out.3
      pub counted : out.0 ≡ proc_count + length handled
      pub empty : out.1.req_front ≡ out.1.req_rear
      pub wakes : out.1.need_wakeup ≡ 1

    stopped :
        (old : List DeviceReq) (r : RequestRing) (e : E) (proc_count : ℕ) (s : S)
        → Holds old r e
        → r.req_front ≡ r.req_rear
        → r.need_wakeup ≡ 1
        → Drained old proc_count s (proc_count, r, e, s)
    stopped old r e proc_count s v same wakes = record {
      handled = [];
      in_order = entries-inj (sent e) (old ++ []) (
          v.held
          ∙ rw
              (
                ← same,
                contents-empty r.req_list r.req_front v.valid.front_in,
                append-nil (entries old),
                append-nil old,
              )
              refl);
      result = refl;
      counted = omega arith;
      empty = same;
      wakes = wakes;
    }

    one_more :
        (old : List DeviceReq) (proc_count : ℕ) (req : DeviceReq) (s s' : S)
        (out : ℕ × RequestRing × E × S)
        → handle req s ≡ returns s'
        → Drained (old ++ (req ∷ [])) (proc_count + 1) s' out
        → Drained old proc_count s out
    one_more old proc_count req s s' out h d = record {
      handled = req ∷ d.handled;
      in_order = d.in_order ∙ append_assoc old (req ∷ []) d.handled;
      result = rw h d.result;
      counted = omega (arith, d.counted);
      empty = d.empty;
      wakes = d.wakes;
    }

    poll-Drained :
        (fuel poll_count proc_count : ℕ) (old : List DeviceReq) (r : RequestRing) (e : E) (s : S)
        (out : ℕ × RequestRing × E × S)
        → Holds old r e
        → poll max_poll_count handle hypervisor fuel poll_count proc_count r e s ≡ returns out
        → Drained old proc_count s out
    unfolding poll
    poll-Drained zero poll_count proc_count old r e s out v h = cc
    poll-Drained (suc fuel) poll_count proc_count old r e s out v h =
        let r1 : RequestRing = (hypervisor r e).0 in
        let e1 : E = (hypervisor r e).1 in
        let (v1, same1) = loaded old r r1 e e1 refl v in
        let r0 : RequestRing = (hypervisor r1 e1).0 in
        let e0 : E = (hypervisor r1 e1).1 in
        let (v0, same0) = loaded old r1 r0 e1 e0 refl v1 in
        let vs : Holds old (sleeping r0) e0 = record {
          valid = record {
            front_in = v0.valid.front_in;
            rear_in = v0.valid.rear_in;
            size = v0.valid.size;
          };
          held = v0.held;
        } in
        elim (round fuel poll_count proc_count r r1 e e1 s out refl h) [
          | served req s' ne found done rest ↦ one_more old proc_count req s s' out done (
              poll-Drained fuel 0 (proc_count + 1) (old ++ (req ∷ [])) (advance r1) e1 s' out
                (advanced old r1 e1 req v1 ne found) rest)
          | polled same rest ↦ poll-Drained fuel (poll_count + 1) proc_count old r1 e1 s out v1 rest
          | slept r2 e2 same late same2 e3 ↦
              let (v2, wakes) = loaded old (sleeping r0) r2 e0 e2 late vs in
              subst (Drained old proc_count s) (sym e3)
                (stopped old r2 e2 proc_count s v2 same2 wakes)
          | raced r2 e2 same late rest ↦
              let (v2, wakes) = loaded old (sleeping r0) r2 e0 e2 late vs in
              poll-Drained fuel 0 proc_count old (awake r2) e2 s out
                (record {
                  valid = record {
                    front_in = v2.valid.front_in;
                    rear_in = v2.valid.rear_in;
                    size = v2.valid.size;
                  };
                  held = v2.held;
                })
                rest
        ]

    -- If the hypervisor only adds requests at the rear of the ring, and the ring holds the requests that
    -- it has sent after `old`, then when `consume_pending_requests` returns, the requests that the
    -- hypervisor has sent by then are `old` and those handled in this call, each handled once and in the
    -- order sent; the count returned is their number; the ring is empty and `need_wakeup` is set, so the
    -- hypervisor wakes the daemon for the next one.
    pub consume_pending_requests-fifo :
        (fuel : ℕ) (old : List DeviceReq) (r : RequestRing) (e : E) (s : S)
        (out : ℕ × RequestRing × E × S)
        → IsValidRequests r
        → entries (sent e) ≡ entries old ++ requests r
        → consume_pending_requests max_poll_count handle hypervisor fuel r e s ≡ returns out
        → Drained old 0 s out
    unfolding consume_pending_requests
    consume_pending_requests-fifo fuel old r e s out v held h =
        poll-Drained fuel 0 0 old (awake r) e s out
          (record {
            valid = record { front_in = v.front_in; rear_in = v.rear_in; size = v.size };
            held = held;
          })
          h
