-- ===== src/Protocol/Wire.antt =====
-- internal/protocol/wire.go: packet types, sizes and the cleartext headers.
-- A `[16]byte` is a byte string, of length 16 where a theorem needs it.
pub mod Headers
use bork.Base.{
  ℕ, ◌+◌, ◌-◌, Bool, true, false, not, ◌&&◌, ◌||◌, if◌then◌else◌, ◌==◌, ◌=/=◌, ltb, leb, List, [],
  ◌∷◌, ◌++◌, Option, none, some, length, get_or, take, drop, list_eq, Result, ok, err, or_else,
  reject, ◌>>=◌, ◌>>◌,
}
use bork.Base.Bytes.{Bytes, be_put, be_get}
use bork.Protocol.Aead.{Aead}

pub data Error : Type 0 where
  packet_truncated magic_invalid prefix_invalid header_invalid : Error
  fields_invalid protector_invalid authentication_failed body_invalid : Error
  length_invalid sequence_zero channel_zero ack_invalid ack_only_invalid : Error
  fragment_fields_invalid fragment_sequence_invalid fragment_sequence_overflows : Error
  payload_length_invalid inner_invalid target_invalid header_mismatch : Error
  peer_id_empty session_id_empty ephemeral_key_empty : Error

-- `PacketType` is a byte; these are the values with a meaning.
abbrev pub packet_hello_probe : ℕ
packet_hello_probe = 1

abbrev pub packet_session_hello : ℕ
packet_session_hello = 2

abbrev pub packet_ping : ℕ
packet_ping = 3

abbrev pub packet_pong : ℕ
packet_pong = 4

abbrev pub packet_bridge : ℕ
packet_bridge = 5

abbrev pub packet_bridge_low_priority : ℕ
packet_bridge_low_priority = 6

abbrev pub packet_voice : ℕ
packet_voice = 7

abbrev pub packet_screen_video : ℕ
packet_screen_video = 8

abbrev pub packet_screen_audio : ℕ
packet_screen_audio = 9

abbrev pub packet_reliable : ℕ
packet_reliable = 10

abbrev pub packet_leave : ℕ
packet_leave = 11

abbrev pub version : ℕ
version = 3

abbrev pub magic : Bytes
magic = b'B' ∷ b'R' ∷ b'K' ∷ (b'0' + version) ∷ []

abbrev pub prefix_size : ℕ
prefix_size = 4 + 1

abbrev pub session_header_size : ℕ
session_header_size = prefix_size + 16 + 8

abbrev pub aead_tag_size : ℕ
aead_tag_size = 16

abbrev pub hello_mac_size : ℕ
hello_mac_size = 32

-- `len(identity.PeerID{})`
abbrev pub peer_id_size : ℕ
peer_id_size = 16

abbrev pub hello_probe_packet_size : ℕ
hello_probe_packet_size = prefix_size + peer_id_size + hello_mac_size

abbrev pub session_hello_body_size : ℕ
session_hello_body_size = 16 + peer_id_size + 32

abbrev pub session_hello_packet_size : ℕ
session_hello_packet_size = prefix_size + session_hello_body_size + hello_mac_size

abbrev pub empty_control_packet_size : ℕ
empty_control_packet_size = session_header_size + aead_tag_size

abbrev pub pong_plaintext_size : ℕ
pong_plaintext_size = 8

abbrev pub pong_packet_size : ℕ
pong_packet_size = session_header_size + pong_plaintext_size + aead_tag_size

abbrev pub max_datagram_size : ℕ
max_datagram_size = 1200

abbrev pub room_datagram_header_size : ℕ
room_datagram_header_size = prefix_size + 16 + 8

abbrev pub max_room_datagram_payload : ℕ
max_room_datagram_payload = max_datagram_size - room_datagram_header_size - 4 - aead_tag_size

abbrev pub room_datagram_min_packet_size : ℕ
room_datagram_min_packet_size = room_datagram_header_size + 4 + 1 + aead_tag_size

-- bridge.go and reliable.go: the sizes that `valid_packet_size` names.
abbrev pub bridge_body_fixed_size : ℕ
bridge_body_fixed_size = peer_id_size

abbrev pub max_bridge_inner_size : ℕ
max_bridge_inner_size =
    max_datagram_size - session_header_size - aead_tag_size - bridge_body_fixed_size

abbrev pub reliable_plaintext_fixed_size : ℕ
reliable_plaintext_fixed_size = 2 + 8 + 2 + 2 + 8 + 8

abbrev pub reliable_min_packet_size : ℕ
reliable_min_packet_size = session_header_size + reliable_plaintext_fixed_size + aead_tag_size

abbrev pub max_reliable_payload : ℕ
max_reliable_payload =
    max_bridge_inner_size - session_header_size - reliable_plaintext_fixed_size - aead_tag_size

abbrev pub max_reliable_fragments : ℕ
max_reliable_fragments = 1024

abbrev pub bridge_min_packet_size : ℕ
bridge_min_packet_size =
    session_header_size + aead_tag_size + bridge_body_fixed_size + empty_control_packet_size

abbrev pub bridge_low_priority_min_packet_size : ℕ
bridge_low_priority_min_packet_size =
    session_header_size + aead_tag_size + bridge_body_fixed_size + reliable_min_packet_size

-- The array up to its last index, `PacketLeave`; an entry that is not given is 0.
abbrev pub fixed_packet_sizes : List ℕ
fixed_packet_sizes =
    0 ∷ hello_probe_packet_size ∷ session_hello_packet_size ∷ empty_control_packet_size
    ∷ pong_packet_size ∷ 0 ∷ 0 ∷ 0 ∷ 0 ∷ 0 ∷ 0 ∷ empty_control_packet_size ∷ []

unfoldable pub append_prefix : Bytes → ℕ → Bytes
append_prefix destination packet_type = (destination ++ magic) ++ (packet_type ∷ [])

unfoldable pub parse_prefix : Bytes → Result Error ℕ
parse_prefix packet = do
  reject (ltb (length packet) prefix_size) packet_truncated
  reject (not (list_eq (take 4 packet) magic)) magic_invalid
  ok (get_or packet 4 0)

abbrev pub size_within : ℕ → ℕ → ℕ → Bool
size_within size minimum maximum = leb minimum size && leb size maximum

-- The `switch` below the table.
ranged_packet_size : ℕ → ℕ → Bool
ranged_packet_size packet_type size =
    if packet_type == packet_bridge
    then size_within size bridge_min_packet_size max_datagram_size
    else if packet_type == packet_bridge_low_priority
    then size_within size bridge_low_priority_min_packet_size max_datagram_size
    else if packet_type == packet_voice
        || (packet_type == packet_screen_video || packet_type == packet_screen_audio)
    then size_within size room_datagram_min_packet_size max_datagram_size
    else if packet_type == packet_reliable
    then size_within size reliable_min_packet_size max_bridge_inner_size
    else false

unfoldable pub valid_packet_size : ℕ → ℕ → Bool
unfolding ranged_packet_size
valid_packet_size packet_type size =
    let expected = get_or fixed_packet_sizes packet_type 0 in
    if ltb packet_type (length fixed_packet_sizes) && expected =/= 0
    then size == expected
    else ranged_packet_size packet_type size

pub record SessionHeader : Type 0 where
  pub kind : ℕ
  pub session_id : Bytes
  pub packet_sequence : ℕ

-- `[16]byte{}`
abbrev pub zero16 : Bytes
zero16 = 0 ∷ 0 ∷ 0 ∷ 0 ∷ 0 ∷ 0 ∷ 0 ∷ 0 ∷ 0 ∷ 0 ∷ 0 ∷ 0 ∷ 0 ∷ 0 ∷ 0 ∷ 0 ∷ []

unfoldable pub append_uint64 : Bytes → ℕ → Bytes
append_uint64 destination value = destination ++ be_put 8 value

unfoldable pub append_session_header : Bytes → ℕ → Bytes → ℕ → Bytes
unfolding append_prefix append_uint64
append_session_header destination packet_type session_id sequence =
    append_uint64 (append_prefix destination packet_type ++ session_id) sequence

unfoldable pub valid_session_packet_type : ℕ → Bool
valid_session_packet_type packet_type =
    packet_type == packet_ping
    || (packet_type == packet_pong
        || (packet_type == packet_bridge
            || (packet_type == packet_bridge_low_priority
                || (packet_type == packet_reliable || packet_type == packet_leave))))

-- The header's fields, at their places in a packet that is long enough.
abbrev pub read_session_header : ℕ → Bytes → SessionHeader
read_session_header kind packet = record {
  kind = kind;
  session_id = take 16 (drop prefix_size packet);
  packet_sequence = be_get (take 8 (drop (prefix_size + 16) packet));
}

unfoldable pub parse_session_header : Bytes → Result Error SessionHeader
parse_session_header packet = do
  reject (ltb (length packet) session_header_size) packet_truncated
  packet_type ← or_else (parse_prefix packet) prefix_invalid
  reject (not (valid_session_packet_type packet_type)) prefix_invalid
  let header = read_session_header packet_type packet
  reject (list_eq header.session_id zero16 || header.packet_sequence == 0) header_invalid
  ok header

-- `packet[sessionHeaderSize-12 : sessionHeaderSize]`
unfoldable pub session_nonce : Bytes → Bytes
session_nonce packet = take 12 (drop (session_header_size - 12) packet)

unfoldable pub valid_pairwise_cipher : Option Aead → Bool
valid_pairwise_cipher none = false
valid_pairwise_cipher (some a) = a.nonce_size == 12 && a.overhead == aead_tag_size
