-- ===== src/Net/Setup/Params.antt =====
-- The parameters that `virtio_net_parse_params` of tools/virtio/devices/net/virtio_net.c accepts.
use hvisor_tool.Base.{
  ℕ, ◌<◌, ◌≡◌, refl, ap, ◌∙◌, true, false, List, [], ◌∷◌, Option, none, some, length, leb, ◌==◌,
  arith, Bool-cases, Option-cases, inl, inr, suc,
}
use hvisor_tool.Net.Setup.{
  einval, enametoolong, VirtioNetInitParams, parse_mac, refused, parsed, virtio_net_parse_params,
}

-- The items of an array whose bytes could all be parsed.
abbrev pub present : List ℕ → List (Option ℕ)
present [] = []
present (b ∷ bs) = some b ∷ present bs

parse_mac-present : (bs : List ℕ) → parse_mac (present bs) ≡ some bs
unfolding parse_mac
parse_mac-present [] = refl
parse_mac-present (b ∷ bs) = rw (parse_mac, parse_mac-present bs) refl

present-parse_mac :
    (items : List (Option ℕ)) (bs : List ℕ) → parse_mac items ≡ some bs → items ≡ present bs
unfolding parse_mac
present-parse_mac [] bs e = cc
present-parse_mac (none ∷ items) bs e = absurd cc
present-parse_mac (some b ∷ items) bs e = elim (Option-cases (parse_mac items)) [
  | inl n ↦ absurd (let c : none ≡ some bs = (rw n at e) in cc)
  | inr (cs, q) ↦
      let rest = present-parse_mac items cs q in let c : some (b ∷ cs) ≡ some bs = (rw q at e) in cc
]

length-present : (bs : List ℕ) → length (present bs) ≡ length bs
length-present [] = refl
length-present (b ∷ bs) = ap suc (length-present bs)

-- Parsing accepts a tap name of 1 to 15 bytes with an array of six items that are all bytes, and returns
-- just these; and whatever it returns comes from such a name and such an array.
pub virtio_net_parse_params_lem :
    (p : VirtioNetInitParams)
    → (0 < length p.tap
        → length p.tap < 16
        → length p.mac ≡ 6
        → virtio_net_parse_params (some p.tap) (present p.mac) ≡ parsed p)
      × ((tap : Option (List ℕ)) (mac : List (Option ℕ))
          → virtio_net_parse_params tap mac ≡ parsed p
          → (tap ≡ some p.tap)
            × (mac ≡ present p.mac)
            × (0 < length p.tap)
            × (length p.tap < 16)
            × (length p.mac ≡ 6))
unfolding virtio_net_parse_params
virtio_net_parse_params_lem p = (forward, backward)
  where
    forward :
        0 < length p.tap
        → length p.tap < 16
        → length p.mac ≡ 6
        → virtio_net_parse_params (some p.tap) (present p.mac) ≡ parsed p
    forward long short six =
        let a : (length p.tap == 0) ≡ false = ground arith in
        let b : leb 16 (length p.tap) ≡ false = ground arith in
        let c : (length (present p.mac) == 6) ≡ true = ground (arith, length-present p.mac) in
        rw (virtio_net_parse_params, a, b, c, parse_mac-present p.mac) refl

    backward :
        (tap : Option (List ℕ)) (mac : List (Option ℕ))
        → virtio_net_parse_params tap mac ≡ parsed p
        → (tap ≡ some p.tap)
          × (mac ≡ present p.mac)
          × (0 < length p.tap)
          × (length p.tap < 16)
          × (length p.mac ≡ 6)
    backward none mac e = absurd cc
    backward (some s) mac e = elim (Bool-cases (length s == 0)) [
      | inl a ↦ absurd (let c : refused einval ≡ parsed p = (rw a at e) in cc)
      | inr a ↦ elim (Bool-cases (leb 16 (length s))) [
        | inl b ↦ absurd (let c : refused enametoolong ≡ parsed p = (rw (a, b) at e) in cc)
        | inr b ↦ elim (Bool-cases (length mac == 6)) [
          | inr six ↦ absurd (let c : refused einval ≡ parsed p = (rw (a, b, six) at e) in cc)
          | inl six ↦ elim (Option-cases (parse_mac mac)) [
            | inl n ↦ absurd (let c : refused einval ≡ parsed p = (rw (a, b, six, n) at e) in cc)
            | inr (bs, q) ↦
                let made : VirtioNetInitParams = record { mac = bs; tap = s } in
                let c : parsed made ≡ parsed p = (rw (a, b, six, q) at e) in
                let same : made ≡ p = cc in
                let items = present-parse_mac mac bs q in
                let name : length s ≡ length p.tap = ap (λ r. length r.tap) same in
                let bytes : length mac ≡ length p.mac =
                  ap length items ∙ length-present bs ∙ ap (λ r. length r.mac) same in
                (
                  ap (λ r. some r.tap) same,
                  items ∙ ap (λ r. present r.mac) same,
                  ground (arith, a, name),
                  ground (arith, b, name),
                  ground (arith, six, bytes),
                )
          ]
        ]
      ]
    ]
