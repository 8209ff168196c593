-- ===== src/Scmi/Header.antt =====
-- The words of SCMI messages (tools/virtio/include/virtio_scmi.h): the bit fields of the header, and
-- the two halves of a clock rate (tools/virtio/devices/scmi/clock.c).
use hvisor_tool.Base.{ℕ, ◌+◌, ◌/◌, ◌%◌, ◌^◌, ◌<◌, ◌≡◌, inl, arith}
use hvisor_tool.Memory.{Memory, load32, store32}
use hvisor_tool.Memory.Laws.{load32-store32_self, load32-store32_disjoint}
use hvisor_tool.Scmi.{ScmiMsgHeader, read_header, scmi_build_header}
use hvisor_tool.Scmi.Clock.{write_rate, requested_rate}

header_fields :
    (h k : ScmiMsgHeader)
    → h.msg_id ≡ k.msg_id
    → h.msg_type ≡ k.msg_type
    → h.protocol_id ≡ k.protocol_id
    → h.token ≡ k.token
    → h.reserved ≡ k.reserved
    → h ≡ k
header_fields h k p q r s t i = record {
  msg_id = p i;
  msg_type = q i;
  protocol_id = r i;
  token = s i;
  reserved = t i;
}

-- The header that `scmi_build_header` packs holds the given protocol, message and token, cut to 8, 8 and
-- 10 bits, and is a command with the reserved bits clear.
pub read_header-scmi_build_header :
    (protocol_id msg_id token : ℕ)
    → read_header (scmi_build_header protocol_id msg_id token) ≡ record {
      msg_id = msg_id % 2 ^ 8;
      msg_type = 0;
      protocol_id = protocol_id % 2 ^ 8;
      token = token % 2 ^ 10;
      reserved = 0;
    }
unfolding read_header scmi_build_header
read_header-scmi_build_header protocol_id msg_id token =
    header_fields _ _ (omega arith) (omega arith) (omega arith) (omega arith) (omega arith)

-- A word that is the header of a command, with the reserved bits clear, is packed again from its fields.
pub scmi_build_header-read_header :
    (word : ℕ)
    → (read_header word).msg_type ≡ 0
    → (read_header word).reserved ≡ 0
    → scmi_build_header
        (read_header word).protocol_id
        (read_header word).msg_id
        (read_header word).token
      ≡ word
unfolding read_header scmi_build_header
scmi_build_header-read_header word command clear = omega arith

-- A 64-bit rate that `handle_clock_rate_get` writes is the rate that `handle_clock_rate_set` reads from
-- the same two words.
requested_rate-write_rate :
    (rate p : ℕ) (m : Memory)
    → rate < 2 ^ 64
    → requested_rate (load32 (write_rate rate m p) (p + 4)) (load32 (write_rate rate m p) p) ≡ rate
unfolding write_rate requested_rate
requested_rate-write_rate rate p m small =
    let low : Memory = store32 m p (rate % 2 ^ 32) in
    let high : ℕ = rate / 2 ^ 32 % 2 ^ 32 in
    omega (
      arith,
      load32-store32_self low (p + 4) high,
      load32-store32_disjoint low (p + 4) p high (inl (omega arith)),
      load32-store32_self m p (rate % 2 ^ 32),
    )
