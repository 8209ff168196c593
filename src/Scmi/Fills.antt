-- ===== src/Scmi/Fills.antt =====
-- The bytes that the handlers of tools/virtio/devices/scmi write behind the header of a response.
use hvisor_tool.Base.{
  ℕ, zero, suc, ◌+◌, ◌-◌, ◌*◌, ◌/◌, ◌%◌, ◌^◌, ◌≤◌, ◌<◌, ◌≡◌, ◌⊎◌, refl, ◌∙◌, inl, inr, List, [],
  ◌∷◌, get_elem?, length, length-append, ltb, ◌==◌, if◌then◌else◌, arith, Bool-cases, Option-cases,
}
use hvisor_tool.Memory.{Memory, store8, store16, store32}
use hvisor_tool.Memory.Laws.{store16_frame, store32_frame}
use hvisor_tool.Scmi.{ScmiDev, Protocol, ClockAttributes, strncpy}
use hvisor_tool.Scmi.Contained.{Fills}
use hvisor_tool.Scmi.Base.{write_slots, protocol_list_count, get_protocol_list}
use hvisor_tool.Scmi.Clock.{
  clock_flags, write_rate, write_protocol_attributes, write_clock_attributes, write_rates,
  write_config, write_name,
}
use hvisor_tool.Scmi.Domains.{write_power_attributes, digits, write_string, write_reset_attributes}

pub then-Fills :
    (a b n k : ℕ) (f g : Memory → ℕ → Memory)
    → Fills a f
    → Fills b g
    → a ≤ n
    → k + b ≤ n
    → Fills n (λ m p. g (f m p) (p + k))
then-Fills a b n k f g hf hg ha hb = record {
  frame = λ m p x h. hg.frame (f m p) (p + k) x (ground arith) ∙ hf.frame m p x (ground arith);
}

pub store8-Fills : (v : ℕ) → Fills 1 (λ m p. store8 m p v)
unfolding store8
store8-Fills v = record { frame = λ m p a h. ground arith }

pub store16-Fills : (v : ℕ) → Fills 2 (λ m p. store16 m p v)
store16-Fills v = record { frame = λ m p a h. store16_frame m p v a h }

pub store32-Fills : (v : ℕ) → Fills 4 (λ m p. store32 m p v)
store32-Fills v = record { frame = λ m p a h. store32_frame m p v a h }

strncpy_frame :
    (n : ℕ) (s : List ℕ) (m : Memory) (p a : ℕ) → (a < p) ⊎ (p + n ≤ a) → strncpy m p s n a ≡ m a
unfolding strncpy store8
strncpy_frame zero s m p a h = refl
strncpy_frame (suc n) [] m p a h =
    strncpy_frame n [] (store8 m p 0) (p + 1) a (ground arith) ∙ ground arith
strncpy_frame (suc n) (c ∷ s) m p a h =
    strncpy_frame n (if c == 0 then [] else s) (store8 m p c) (p + 1) a (ground arith)
    ∙ ground arith

pub strncpy-Fills : (s : List ℕ) (n : ℕ) → Fills n (λ m p. strncpy m p s n)
strncpy-Fills s n = record { frame = λ m p a h. strncpy_frame n s m p a h }

pub write_rate-Fills : (rate : ℕ) → Fills 8 (write_rate rate)
unfolding write_rate
write_rate-Fills rate =
    then-Fills 4 4 8 4 _ _ (store32-Fills (rate % 2 ^ 32)) (store32-Fills (rate / 2 ^ 32 % 2 ^ 32))
      (omega arith) (omega arith)

pub write_protocol_attributes-Fills : (dev : ScmiDev) → Fills 4 (write_protocol_attributes dev)
unfolding write_protocol_attributes
write_protocol_attributes-Fills dev =
    then-Fills 3 1 4 3 _ _
      (then-Fills 2 1 3 2 _ _ (store16-Fills (length dev.clock_ids)) (store8-Fills 1) (omega arith)
        (omega arith))
      (store8-Fills 0) (omega arith) (omega arith)

-- A word, a string that is cut at `n` bytes, and a NUL behind them.
word_name-Fills :
    (v : ℕ) (name : List ℕ) (n : ℕ)
    → Fills (4 + n + 1) (λ m p. store8 (strncpy (store32 m p v) (p + 4) name n) (p + (4 + n)) 0)
word_name-Fills v name n =
    then-Fills (4 + n) 1 (4 + n + 1) (4 + n) _ _
      (then-Fills 4 n (4 + n) 4 _ _ (store32-Fills v) (strncpy-Fills name n) (omega arith)
        (omega arith))
      (store8-Fills 0) (omega arith) (omega arith)

pub write_clock_attributes-Fills : (a : ClockAttributes) → Fills 20 (write_clock_attributes a)
unfolding write_clock_attributes
write_clock_attributes-Fills a = word_name-Fills (clock_flags a) a.clock_name 15

pub write_name-Fills : (name : List ℕ) → Fills 68 (write_name name)
unfolding write_name
write_name-Fills name = word_name-Fills 0 name 63

pub write_power_attributes-Fills : (name : List ℕ) → Fills 20 (write_power_attributes name)
unfolding write_power_attributes
write_power_attributes-Fills name = word_name-Fills (2 ^ 29) name 15

pub write_config-Fills : (config : ℕ × ℕ) → Fills 12 (write_config config)
unfolding write_config
write_config-Fills (config, extended) =
    then-Fills 8 4 12 8 _ _
      (then-Fills 4 4 8 4 _ _ (store32-Fills 0) (store32-Fills config) (omega arith) (omega arith))
      (store32-Fills extended) (omega arith) (omega arith)

pub write_rates-Fills : Fills 28 write_rates
unfolding write_rates
write_rates-Fills =
    then-Fills 20 8 28 20 _ _
      (then-Fills 12 8 20 12 _ _
        (then-Fills 4 8 12 4 _ _ (store32-Fills (2 ^ 12 + 3)) (write_rate-Fills 0) (omega arith)
          (omega arith))
        (write_rate-Fills 10000000000) (omega arith) (omega arith))
      (write_rate-Fills 1) (omega arith) (omega arith)

write_string_frame :
    (s : List ℕ) (m : Memory) (p a : ℕ)
    → (a < p) ⊎ (p + (length s + 1) ≤ a)
    → write_string m p s a ≡ m a
unfolding write_string store8
write_string_frame [] m p a h = ground arith
write_string_frame (c ∷ s) m p a h =
    write_string_frame s (store8 m p c) (p + 1) a (ground arith) ∙ ground arith

length-digits_le : (n x : ℕ) → length (digits n x) ≤ n
unfolding digits
length-digits_le zero x = omega arith
length-digits_le (suc n) x = elim (Bool-cases (x / 10 == 0)) [
  | inl e ↦ rw e (omega arith)
  | inr e ↦
      rw (e, length-append (digits n (x / 10)) ((48 + x % 10) ∷ []))
        (omega (arith, length-digits_le n (x / 10)))
]

pub write_reset_attributes-Fills : (phys_id : ℕ) → Fills 24 (write_reset_attributes phys_id)
unfolding write_reset_attributes
write_reset_attributes-Fills phys_id =
    let text : List ℕ = 114 ∷ 115 ∷ 116 ∷ 95 ∷ digits 10 (phys_id % 2 ^ 32) in
    let short : length text ≤ 14 = omega (arith, length-digits_le 10 (phys_id % 2 ^ 32)) in
    let named : Fills 15 (λ m p. write_string m p text) = record {
      frame = λ m p a h. write_string_frame text m p a (ground arith);
    } in
    then-Fills 23 1 24 23 _ _
      (then-Fills 8 15 23 8 _ _
        (then-Fills 4 4 8 4 _ _ (store32-Fills 0) (store32-Fills 100) (omega arith) (omega arith))
        named (omega arith) (omega arith))
      (store8-Fills 0) (omega arith) (omega arith)

-- The words of the list stay within those that `n` protocols need.
write_slots_frame :
    (protocols : List (ℕ × Protocol)) (skip n i : ℕ) (m : Memory) (p a : ℕ)
    → (a < p) ⊎ (p + 4 + 4 * ((i + n + 3) / 4) ≤ a)
    → write_slots protocols skip i n m p a ≡ m a
unfolding write_slots
write_slots_frame protocols skip zero i m p a h = refl
write_slots_frame protocols skip (suc n) i m p a h =
    let slot : ℕ = p + 4 + 4 * (i / 4) in
    let cleared : Memory = if i % 4 == 0 then store32 m slot 0 else m in
    let clear : cleared a ≡ m a = elim (Bool-cases (i % 4 == 0)) [
      | inl e ↦ rw e (store32_frame m slot 0 a (ground arith))
      | inr e ↦ rw e refl
    ] in
    elim (Option-cases (get_elem? protocols (skip + i))) [
      | inl e ↦ rw (e, write_slots) refl
      | inr ((id, handler), e) ↦
          rw (e, write_slots)
            (write_slots_frame protocols skip n (i + 1) _ p a (ground arith)
              ∙ store32_frame cleared slot _ a (ground arith)
              ∙ clear)
    ]

pub protocol_list_count_le :
    (total skip : ℕ)
    → total ≤ 16
    → protocol_list_count total skip (if ltb skip total then total - skip else 0) ≤ 16
unfolding protocol_list_count
protocol_list_count_le total skip h = ground arith

pub get_protocol_list-Fills :
    (dev : ScmiDev) (skip : ℕ)
    → length dev.protocols ≤ 16
    → Fills 20 (
        get_protocol_list dev skip
          (if ltb skip (length dev.protocols) then length dev.protocols - skip else 0))
unfolding get_protocol_list
get_protocol_list-Fills dev skip small =
    let limit : ℕ = if ltb skip (length dev.protocols) then length dev.protocols - skip else 0 in
    let count : ℕ = protocol_list_count (length dev.protocols) skip limit in
    let few : count ≤ 16 = protocol_list_count_le (length dev.protocols) skip small in
    record {
      frame = λ m p a h.
          write_slots_frame dev.protocols skip count 0 (store32 m p count) p a (ground arith)
          ∙ store32_frame m p count a (ground arith);
    }
