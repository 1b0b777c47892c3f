-- ===== src/Protocol/Bridge.antt =====
-- internal/protocol/bridge.go: a packet for another peer, wrapped for the peer that forwards it.
pub mod RoundTrip
use bork.Base.{
  ℕ, ◌+◌, Bool, true, false, not, ◌&&◌, ◌||◌, if◌then◌else◌, ◌==◌, ◌=/=◌, ltb, leb, Option, none,
  some, List, [], ◌++◌, length, take, drop, list_eq, Result, ok, err, or_else, or_missing, reject,
  ◌>>=◌, ◌>>◌,
}
use bork.Base.Bytes.{Bytes}
use bork.Protocol.Aead.{Aead}
use bork.Protocol.Sealed.{seal_session, open_session}
use bork.Protocol.Wire.{
  Error, fields_invalid, protector_invalid, header_invalid, authentication_failed, body_invalid,
  target_invalid, inner_invalid, packet_hello_probe, packet_session_hello, packet_ping, packet_pong,
  packet_bridge, packet_bridge_low_priority, packet_reliable, packet_leave, bridge_body_fixed_size,
  max_bridge_inner_size, zero16, SessionHeader, append_session_header, parse_prefix,
  valid_packet_size, valid_pairwise_cipher, parse_session_header,
}

pub record BridgePacket : Type 0 where
  pub target : Bytes
  pub low_priority : Bool
  pub inner : Bytes

unfoldable pub valid_bridge_fields : Bytes → ℕ → Bytes → ℕ → Bool
valid_bridge_fields session_id packet_sequence target inner_size =
    not (list_eq session_id zero16)
    && (packet_sequence =/= 0
        && (not (list_eq target zero16)
            && (ltb 0 inner_size && leb inner_size max_bridge_inner_size)))

-- The `switch` of `validBridgeInner`.
unfoldable pub is_inner_type : ℕ → Bool
is_inner_type packet_type =
    packet_type == packet_hello_probe
    || (packet_type == packet_session_hello
        || (packet_type == packet_ping
            || (packet_type == packet_pong
                || (packet_type == packet_reliable || packet_type == packet_leave))))

unfoldable pub valid_bridge_inner : Bytes → Bool → Bool
unfolding is_inner_type
valid_bridge_inner inner low_priority = elim (parse_prefix inner) [
  | err _ ↦ false
  | ok packet_type ↦
      if not (valid_packet_size packet_type (length inner))
      then false
      else if low_priority && packet_type =/= packet_reliable
      then false
      else is_inner_type packet_type
]

abbrev pub bridge_type : Bool → ℕ
bridge_type low_priority = if low_priority then packet_bridge_low_priority else packet_bridge

unfoldable pub marshal_bridge : Bytes → ℕ → Bytes → Bool → Bytes → Option Aead → Result Error Bytes
marshal_bridge session_id packet_sequence target low_priority inner protector = do
  reject (not (valid_bridge_fields session_id packet_sequence target (length inner))) fields_invalid
  reject (not (valid_pairwise_cipher protector)) protector_invalid
  reject (not (valid_bridge_inner inner low_priority)) inner_invalid
  ok (
      seal_session protector (
        append_session_header [] (bridge_type low_priority) session_id packet_sequence
        ++ (target ++ inner)))

unfoldable pub parse_bridge_body : Bytes → Bool → Result Error BridgePacket
parse_bridge_body opened low_priority = do
  reject (ltb (length opened) bridge_body_fixed_size) body_invalid
  let target = take bridge_body_fixed_size opened
  reject (list_eq target zero16) target_invalid
  let inner = drop bridge_body_fixed_size opened
  reject (not (valid_bridge_inner inner low_priority)) inner_invalid
  ok (record { target = target; low_priority = low_priority; inner = inner })

-- The header tests of `ParseBridge`, which share one error.
unfoldable pub valid_bridge_header : SessionHeader → Bytes → ℕ → Bool
valid_bridge_header header session_id size =
    list_eq header.session_id session_id
    && ((header.kind == packet_bridge || header.kind == packet_bridge_low_priority)
        && valid_packet_size header.kind size)

unfoldable pub parse_bridge : Bytes → Bytes → Option Aead → Result Error BridgePacket
parse_bridge packet expected_session_id protector = do
  reject (not (valid_pairwise_cipher protector)) protector_invalid
  header ← or_else (parse_session_header packet) header_invalid
  reject (not (valid_bridge_header header expected_session_id (length packet))) header_invalid
  opened ← or_missing (open_session protector packet) authentication_failed
  parse_bridge_body opened (header.kind == packet_bridge_low_priority)
