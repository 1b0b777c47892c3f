-- ===== src/Protocol/RoomDatagram.antt =====
-- internal/protocol/room_datagram.go: media sealed once per stream with the room's key and
-- forwarded verbatim.
pub mod RoundTrip
use bork.Base.{
  ℕ, ◌+◌, ◌-◌, Bool, true, false, not, ◌&&◌, ◌||◌, if◌then◌else◌, ◌==◌, ◌=/=◌, ltb, leb, Option,
  none, some, List, [], ◌++◌, length, take, drop, list_eq, Result, ok, err, or_else, or_missing,
  reject, ◌>>=◌, ◌>>◌,
}
use bork.Base.Bytes.{Bytes, be_put, be_get}
use bork.Protocol.Aead.{Aead}
use bork.Protocol.Wire.{
  Error, packet_truncated, prefix_invalid, header_invalid, payload_length_invalid,
  protector_invalid, length_invalid, header_mismatch, authentication_failed, packet_voice,
  packet_screen_video, packet_screen_audio, prefix_size, room_datagram_header_size,
  room_datagram_min_packet_size, max_room_datagram_payload, max_datagram_size, aead_tag_size,
  zero16, size_within, append_prefix, append_uint64, parse_prefix,
}

pub record RoomDatagramHeader : Type 0 where
  pub kind : ℕ
  pub stream_id : Bytes
  pub packet_sequence : ℕ

pub record RoomDatagram : Type 0 where
  pub media_unit_id : ℕ
  pub payload : Bytes

unfoldable pub valid_room_datagram_type : ℕ → Bool
valid_room_datagram_type packet_type =
    packet_type == packet_voice
    || (packet_type == packet_screen_video || packet_type == packet_screen_audio)

unfoldable pub valid_room_datagram_header : RoomDatagramHeader → Bool
unfolding valid_room_datagram_type
valid_room_datagram_header header =
    valid_room_datagram_type header.kind
    && (not (list_eq header.stream_id zero16) && header.packet_sequence =/= 0)

-- `chacha20poly1305.NonceSizeX`, the nonce size of XChaCha20-Poly1305.
abbrev pub nonce_size_x : ℕ
nonce_size_x = 24

unfoldable pub valid_room_datagram_cipher : Option Aead → Bool
valid_room_datagram_cipher none = false
valid_room_datagram_cipher (some a) = a.nonce_size == nonce_size_x && a.overhead == aead_tag_size

abbrev pub read_room_datagram_header : ℕ → Bytes → RoomDatagramHeader
read_room_datagram_header kind packet = record {
  kind = kind;
  stream_id = take 16 (drop prefix_size packet);
  packet_sequence = be_get (take 8 (drop (room_datagram_header_size - 8) packet));
}

unfoldable pub parse_room_datagram_header : Bytes → Result Error RoomDatagramHeader
parse_room_datagram_header packet = do
  reject (ltb (length packet) room_datagram_header_size) packet_truncated
  packet_type ← or_else (parse_prefix packet) prefix_invalid
  reject (not (valid_room_datagram_type packet_type)) prefix_invalid
  let header = read_room_datagram_header packet_type packet
  reject (not (valid_room_datagram_header header)) header_invalid
  ok header

unfoldable pub room_datagram_nonce : Bytes → Bytes
room_datagram_nonce packet =
    take nonce_size_x (drop (room_datagram_header_size - nonce_size_x) packet)

-- `protector.Seal(body[:0], roomDatagramNonce(packet), body, packet[:roomDatagramHeaderSize])`
unfoldable pub seal_room : Option Aead → Bytes → Bytes
seal_room none packet = packet
seal_room (some a) packet =
    take room_datagram_header_size packet
    ++ a.seal (room_datagram_nonce packet) (drop room_datagram_header_size packet)
        (take room_datagram_header_size packet)

unfoldable pub open_room : Option Aead → Bytes → Option Bytes
open_room none packet = none
open_room (some a) packet =
    a.unseal (room_datagram_nonce packet) (drop room_datagram_header_size packet)
      (take room_datagram_header_size packet)

unfoldable pub append_room_header : RoomDatagramHeader → Bytes
unfolding append_prefix append_uint64
append_room_header header =
    append_uint64 (append_prefix [] header.kind ++ header.stream_id) header.packet_sequence

unfoldable pub marshal_room_datagram :
    RoomDatagramHeader → ℕ → Bytes → Option Aead → Result Error Bytes
marshal_room_datagram header media_unit_id payload protector = do
  reject (not (valid_room_datagram_header header)) header_invalid
  reject (not (size_within (length payload) 1 max_room_datagram_payload)) payload_length_invalid
  reject (not (valid_room_datagram_cipher protector)) protector_invalid
  ok (seal_room protector (append_room_header header ++ (be_put 4 media_unit_id ++ payload)))

-- `header != expected`
unfoldable pub same_header : RoomDatagramHeader → RoomDatagramHeader → Bool
same_header a b =
    a.kind == b.kind && (list_eq a.stream_id b.stream_id && a.packet_sequence == b.packet_sequence)

unfoldable pub parse_room_datagram :
    Bytes → RoomDatagramHeader → Option Aead → Result Error RoomDatagram
parse_room_datagram packet expected protector = do
  reject (not (size_within (length packet) room_datagram_min_packet_size max_datagram_size))
      length_invalid
  reject (not (valid_room_datagram_cipher protector)) protector_invalid
  header ← or_else (parse_room_datagram_header packet) header_mismatch
  reject (not (same_header header expected)) header_mismatch
  opened ← or_missing (open_room protector packet) authentication_failed
  reject (leb (length opened) 4) authentication_failed
  ok (record { media_unit_id = be_get (take 4 opened); payload = drop 4 opened })
