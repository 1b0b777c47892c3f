-- ===== src/Protocol/Control.antt =====
-- internal/protocol/control.go: Ping, Pong and Leave.
pub mod RoundTrip
use bork.Base.{
  ℕ, Bool, true, false, not, ◌&&◌, ◌||◌, if◌then◌else◌, ◌==◌, ◌=/=◌, Option, none, some, List, [],
  ◌++◌, length, take, drop, list_eq, Result, ok, err, or_else, or_missing, reject, ◌>>=◌, ◌>>◌,
}
use bork.Base.Bytes.{Bytes, be_get}
use bork.Protocol.Aead.{Aead}
use bork.Protocol.Sealed.{seal_session, open_session}
use bork.Protocol.Wire.{
  Error, fields_invalid, protector_invalid, header_invalid, authentication_failed, body_invalid,
  packet_ping, packet_pong, packet_leave, pong_plaintext_size, session_header_size, zero16,
  SessionHeader, append_session_header, append_uint64, session_nonce, valid_pairwise_cipher,
  parse_session_header, valid_packet_size,
}

unfoldable pub valid_control_type : ℕ → Bool
valid_control_type packet_type =
    packet_type == packet_ping || (packet_type == packet_pong || packet_type == packet_leave)

-- `(packetType == PacketPong) == (pingSequence != 0)`
unfoldable pub valid_control_fields : ℕ → ℕ → Bool
unfolding valid_control_type
valid_control_fields packet_type ping_sequence =
    valid_control_type packet_type
    && (if packet_type == packet_pong then ping_sequence =/= 0 else ping_sequence == 0)

unfoldable pub valid_control_packet : SessionHeader → Bytes → ℕ → Bool
unfolding valid_control_type
valid_control_packet header session_id size =
    valid_control_type header.kind
    && (list_eq header.session_id session_id && valid_packet_size header.kind size)

unfoldable pub decode_control_body : ℕ → Bytes → Result Error ℕ
decode_control_body packet_type body =
    if packet_type == packet_pong
    then (do
      reject (length body =/= pong_plaintext_size) body_invalid
      reject (be_get body == 0) body_invalid
      ok (be_get body))
    else (do reject (length body =/= 0) body_invalid; ok 0)

-- The packet before it is sealed.
abbrev pub control_packet : ℕ → Bytes → ℕ → ℕ → Bytes
control_packet packet_type session_id packet_sequence ping_sequence =
    let packet = append_session_header [] packet_type session_id packet_sequence in
    if packet_type == packet_pong then append_uint64 packet ping_sequence else packet

unfoldable pub marshal_control : ℕ → Bytes → ℕ → ℕ → Option Aead → Result Error Bytes
marshal_control packet_type session_id packet_sequence ping_sequence protector = do
  reject
      (list_eq session_id zero16
        || (packet_sequence == 0 || not (valid_control_fields packet_type ping_sequence)))
      fields_invalid
  reject (not (valid_pairwise_cipher protector)) protector_invalid
  ok (seal_session protector (control_packet packet_type session_id packet_sequence ping_sequence))

unfoldable pub parse_control : Bytes → Bytes → Option Aead → Result Error ℕ
parse_control packet expected_session_id protector = do
  header ← or_else (parse_session_header packet) header_invalid
  reject (not (valid_control_packet header expected_session_id (length packet))) header_invalid
  reject (not (valid_pairwise_cipher protector)) protector_invalid
  opened ← or_missing (open_session protector packet) authentication_failed
  decode_control_body header.kind opened
