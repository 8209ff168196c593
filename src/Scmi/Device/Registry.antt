-- ===== src/Scmi/Device/Registry.antt =====
-- The table of protocols of an SCMI device (tools/virtio/devices/scmi/scmi_core.c) as a map from
-- numbers to handlers.
use hvisor_tool.Base.{
  ℕ, zero, suc, ◌^◌, ◌-◌, ◌≤◌, ◌<◌, ◌≡◌, ◌≢◌, ◌⊎◌, refl, sym, ap, ◌∙◌, subst, inl, inr, Bool, true,
  false, List, [], ◌∷◌, ◌++◌, Option, none, some, get_elem?, length, length-append, ltb, leb, ◌==◌,
  if◌then◌else◌, arith, Bool-cases, Option-cases, ==_self,
}
use hvisor_tool.Scmi.{
  ScmiDev, Protocol, base_protocol, power_protocol, clock_protocol, reset_protocol,
}
use hvisor_tool.Scmi.Base.{proto_base}
use hvisor_tool.Scmi.Clock.{proto_clock}
use hvisor_tool.Scmi.Domains.{proto_power, proto_reset}
use hvisor_tool.Scmi.Device.{
  scmi_max_protocols, registered, scmi_dev_register_protocol, VirtioScmiInitParams, register_if,
  no_protocols, register_protocols, virtio_scmi_do_init,
}

-- The number of a protocol's messages.
abbrev pub number : Protocol → ℕ
number base_protocol = proto_base
number power_protocol = proto_power
number clock_protocol = proto_clock
number reset_protocol = proto_reset

-- The table fits, each entry is the one found under its number, and a handler has the number that it
-- answers with.
pub record IsTable (protocols : List (ℕ × Protocol)) : Type 0 where
  pub few : length protocols ≤ scmi_max_protocols
  pub found :
      (i id : ℕ) (h : Protocol)
      → get_elem? protocols i ≡ some (id, h)
      → registered protocols id ≡ some h
  pub own : (id : ℕ) (h : Protocol) → registered protocols id ≡ some h → number h ≡ id

registered-append_other :
    (ps : List (ℕ × Protocol)) (id k : ℕ) (h : Protocol)
    → id ≢ k
    → registered (ps ++ ((id, h) ∷ [])) k ≡ registered ps k
unfolding registered
registered-append_other [] id k h ne = ground arith
registered-append_other ((n, g) ∷ ps) id k h ne =
    ap (λ o. if n == k then some g else o) (registered-append_other ps id k h ne)

registered-append_self :
    (ps : List (ℕ × Protocol)) (id : ℕ) (h : Protocol)
    → registered ps id ≡ none
    → registered (ps ++ ((id, h) ∷ [])) id ≡ some h
unfolding registered
registered-append_self [] id h e = rw (==_self id) refl
registered-append_self ((n, g) ∷ ps) id h e = elim (Bool-cases (n == id)) [
  | inl q ↦ absurd (let c : some g ≡ none = (rw q at e) in cc)
  | inr q ↦ rw q (registered-append_self ps id h (rw q at e))
]

get-append :
    (ps : List (ℕ × Protocol)) (p q : ℕ × Protocol) (i : ℕ)
    → get_elem? (ps ++ (p ∷ [])) i ≡ some q
    → (get_elem? ps i ≡ some q) ⊎ (p ≡ q)
get-append [] p q zero e = inr cc
get-append [] p q (suc i) e = absurd cc
get-append (r ∷ ps) p q zero e = inl e
get-append (r ∷ ps) p q (suc i) e = get-append ps p q i e

append-IsTable :
    (ps : List (ℕ × Protocol)) (id : ℕ) (h : Protocol)
    → IsTable ps
    → length ps < scmi_max_protocols
    → registered ps id ≡ none
    → number h ≡ id
    → IsTable (ps ++ ((id, h) ∷ []))
append-IsTable ps id h t room new e = record {
  few = rw (length-append ps ((id, h) ∷ [])) (omega arith);
  found = λ i k g q. elim (get-append ps (id, h) (k, g) i q) [
    | inl old ↦ elim (Bool-cases (id == k)) [
      | inl same ↦ absurd (clash k g (let n : id ≡ k = ground arith in n) (t.found i k g old))
      | inr other ↦ registered-append_other ps id k h (ground arith) ∙ t.found i k g old
    ]
    | inr p ↦
        subst (λ r. registered (ps ++ ((id, h) ∷ [])) r.0 ≡ some r.1) p
          (registered-append_self ps id h new)
  ];
  own = λ k g q. elim (Bool-cases (id == k)) [
    | inl same ↦
        let n : id ≡ k = ground arith in
        let there : registered (ps ++ ((id, h) ∷ [])) k ≡ some h =
          subst (λ a. registered (ps ++ ((id, h) ∷ [])) a ≡ some h) n
            (registered-append_self ps id h new) in
        let f : h ≡ g = cc in subst (λ a. number a ≡ k) f (e ∙ n)
    | inr other ↦
        t.own k g (sym (registered-append_other ps id k h (let n : id ≢ k = ground arith in n)) ∙ q)
  ];
}
  where
    clash : (k : ℕ) (g : Protocol) → id ≡ k → registered ps k ≡ some g → ⊥
    clash k g n q = let c : none ≡ some g = sym new ∙ ap (registered ps) n ∙ q in cc

-- What a registration does: the device afterwards, and the value returned.
pub data Registers (dev : ScmiDev) (id : ℕ) (h : Protocol) (r : ℕ × ScmiDev) : Type 0 where
  full : length dev.protocols ≡ scmi_max_protocols → r ≡ (2 ^ 32 - 1, dev) → Registers dev id h r
  again :
      (g : Protocol) → registered dev.protocols id ≡ some g → r ≡ (0, dev) → Registers dev id h r
  added :
      r.0 ≡ 0
      → registered dev.protocols id ≡ none
      → registered r.1.protocols id ≡ some h
      → ((k : ℕ) → id ≢ k → registered r.1.protocols k ≡ registered dev.protocols k)
      → Registers dev id h r

-- A registration of a handler under its own number keeps the table of protocols: at most 16, each found
-- under its number. It is refused where the table is full, leaves the table where the number is taken,
-- and otherwise the number, and no other, has a new handler.
pub scmi_dev_register_protocol_lem :
    (dev : ScmiDev) (id : ℕ) (h : Protocol)
    → IsTable dev.protocols
    → number h ≡ id
    → IsTable (scmi_dev_register_protocol dev id h).1.protocols
      × Registers dev id h (scmi_dev_register_protocol dev id h)
unfolding scmi_dev_register_protocol
scmi_dev_register_protocol_lem dev id h t own =
    let ps = dev.protocols in
    elim (Bool-cases (leb scmi_max_protocols (length ps))) [
      | inl e ↦ rw e (
        t,
        full (omega (arith, t.few, (let l : scmi_max_protocols ≤ length ps = ground arith in l)))
            refl,
      )
      | inr e ↦ elim (Option-cases (registered ps id)) [
        | inr (g, q) ↦ rw (e, q) (t, again g q refl)
        | inl q ↦
            rw (e, q)
              (
                append-IsTable ps id h t (ground arith) q own,
                added refl q (registered-append_self ps id h q)
                    (λ k ne. registered-append_other ps id k h ne),
              )
      ]
    ]

empty-IsTable : IsTable []
unfolding registered
empty-IsTable = record {
  few = omega arith;
  found = λ i id h e. absurd cc;
  own = λ id h e. absurd cc;
}

register_if-IsTable :
    (present : Bool) (h : Protocol) (dev : ScmiDev)
    → IsTable dev.protocols
    → IsTable (register_if present (number h) h dev).protocols
unfolding register_if
register_if-IsTable true h dev t = (scmi_dev_register_protocol_lem dev (number h) h t refl).0
register_if-IsTable false h dev t = t

-- The table of a device that `virtio_scmi_do_init` has set up is well formed.
pub virtio_scmi_do_init-IsTable :
    (p : Option VirtioScmiInitParams) → IsTable (virtio_scmi_do_init p).protocols
unfolding virtio_scmi_do_init register_protocols
virtio_scmi_do_init-IsTable none = empty-IsTable
virtio_scmi_do_init-IsTable (some p) = register_if-IsTable _ reset_protocol _ (
    register_if-IsTable _ power_protocol _ (
      register_if-IsTable _ clock_protocol _
        (scmi_dev_register_protocol_lem _ proto_base base_protocol empty-IsTable refl).0))

-- The protocols that a device is to offer.
unfoldable pub offered : Bool → Bool → Bool → Protocol → Bool
offered clocks powers resets base_protocol = true
offered clocks powers resets power_protocol = powers
offered clocks powers resets clock_protocol = clocks
offered clocks powers resets reset_protocol = resets

every :
    (P : Protocol → Type 0)
    → P base_protocol
    → P power_protocol
    → P clock_protocol
    → P reset_protocol
    → (h : Protocol) → P h
every P b w c r base_protocol = b
every P b w c r power_protocol = w
every P b w c r clock_protocol = c
every P b w c r reset_protocol = r

register_protocols_lem :
    (clocks powers resets : Bool) (clock_ids reset_ids power_ids : List ℕ)
    → let made : ScmiDev = register_protocols clocks powers resets (record no_protocols {
      clock_ids = clock_ids;
      reset_ids = reset_ids;
      power_ids = power_ids;
    }) in
      ((h : Protocol)
        → registered made.protocols (number h)
          ≡ (if offered clocks powers resets h then some h else none))
      × (made.clock_ids ≡ clock_ids)
      × (made.power_ids ≡ power_ids)
      × (made.reset_ids ≡ reset_ids)
unfolding register_protocols register_if scmi_dev_register_protocol registered offered
register_protocols_lem false false false cs rs ps = (every _ refl refl refl refl, refl, refl, refl)
register_protocols_lem false false true cs rs ps = (every _ refl refl refl refl, refl, refl, refl)
register_protocols_lem false true false cs rs ps = (every _ refl refl refl refl, refl, refl, refl)
register_protocols_lem false true true cs rs ps = (every _ refl refl refl refl, refl, refl, refl)
register_protocols_lem true false false cs rs ps = (every _ refl refl refl refl, refl, refl, refl)
register_protocols_lem true false true cs rs ps = (every _ refl refl refl refl, refl, refl, refl)
register_protocols_lem true true false cs rs ps = (every _ refl refl refl refl, refl, refl, refl)
register_protocols_lem true true true cs rs ps = (every _ refl refl refl refl, refl, refl, refl)

-- A device that is set up with parameters has a handler for a protocol exactly if it has a domain of
-- that protocol, and for the base protocol in any case; it keeps the three arrays of ids.
pub virtio_scmi_do_init_lem :
    (p : VirtioScmiInitParams)
    → let made : ScmiDev = virtio_scmi_do_init (some p) in
      ((h : Protocol)
        → registered made.protocols (number h) ≡ (
            if offered
              (ltb 0 (length p.clock_ids))
              (ltb 0 (length p.power_ids))
              (ltb 0 (length p.reset_ids))
              h
            then some h
            else none))
      × (made.clock_ids ≡ p.clock_ids)
      × (made.power_ids ≡ p.power_ids)
      × (made.reset_ids ≡ p.reset_ids)
unfolding virtio_scmi_do_init
virtio_scmi_do_init_lem p =
    register_protocols_lem (ltb 0 (length p.clock_ids)) (ltb 0 (length p.power_ids))
      (ltb 0 (length p.reset_ids)) p.clock_ids p.reset_ids p.power_ids
