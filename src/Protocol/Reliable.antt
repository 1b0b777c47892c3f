-- ===== src/Protocol/Reliable.antt =====
-- internal/protocol/reliable.go: fragments of reliable messages, with the acknowledgment that
-- every packet carries. A uint64 is a number below `2 ^ 64`; the differences below cannot wrap.
pub mod RoundTrip
use bork.Base.{
  ℕ, ◌+◌, ◌-◌, ◌*◌, ◌/◌, ◌^◌, Bool, true, false, not, ◌&&◌, ◌||◌, if◌then◌else◌, ◌==◌, ◌=/=◌, ltb,
  leb, bit_and, Option, none, some, List, [], ◌++◌, length, take, drop, list_eq, Result, ok, err,
  or_else, or_missing, reject, ◌>>=◌, ◌>>◌,
}
use bork.Base.Bytes.{Bytes, be_put, be_get}
use bork.Protocol.Aead.{Aead}
use bork.Protocol.Sealed.{seal_session, open_session}
use bork.Protocol.Wire.{
  Error, sequence_zero, protector_invalid, header_invalid, authentication_failed, length_invalid,
  channel_zero, ack_invalid, ack_only_invalid, fragment_fields_invalid, fragment_sequence_invalid,
  fragment_sequence_overflows, payload_length_invalid, packet_reliable, max_reliable_fragments,
  max_reliable_payload, max_bridge_inner_size, reliable_min_packet_size,
  reliable_plaintext_fixed_size, SessionHeader, append_session_header, valid_pairwise_cipher,
  parse_session_header,
}

pub record ReliablePacket : Type 0 where
  pub channel : ℕ
  pub fragment_sequence : ℕ
  pub fragment_index : ℕ
  pub fragment_count : ℕ
  pub fragment_ack_base : ℕ
  pub fragment_ack_bitmap : ℕ
  pub payload : Bytes

abbrev pub ack_only : ReliablePacket → Bool
ack_only p = p.fragment_sequence == 0

unfoldable pub fragment_ack_contains : ℕ → ℕ → ℕ → Bool
fragment_ack_contains base bitmap sequence =
    if base == 0 || (sequence == 0 || ltb base sequence)
    then false
    else ltb (base - sequence) 64 && bit_and bitmap (2 ^ (base - sequence)) =/= 0

unfoldable pub valid_reliable_ack : ℕ → ℕ → Bool
valid_reliable_ack base bitmap =
    if base == 0
    then bitmap == 0
    else if bit_and bitmap 1 == 0
    then false
    else leb 64 base || bitmap / 2 ^ base == 0

-- The checks on a packet that carries a fragment.
unfoldable pub validate_fragment : ReliablePacket → Result Error (Unit {0})
validate_fragment p = do
  reject
      (p.fragment_count == 0
        || (ltb max_reliable_fragments p.fragment_count || leb p.fragment_count p.fragment_index))
      fragment_fields_invalid
  reject (leb p.fragment_sequence p.fragment_index) fragment_sequence_invalid
  let message_start = p.fragment_sequence - p.fragment_index
  reject (ltb (2 ^ 64 - 1 - message_start) (p.fragment_count - 1)) fragment_sequence_overflows
  reject (length p.payload == 0 || ltb max_reliable_payload (length p.payload))
      payload_length_invalid

unfoldable pub validate_reliable_body : ReliablePacket → Result Error (Unit {0})
unfolding valid_reliable_ack validate_fragment
validate_reliable_body p = do
  reject (p.channel == 0) channel_zero
  reject (not (valid_reliable_ack p.fragment_ack_base p.fragment_ack_bitmap)) ack_invalid
  if ack_only p
      then reject (p.fragment_index =/= 0 || (p.fragment_count =/= 0 || length p.payload =/= 0))
          ack_only_invalid
      else validate_fragment p

-- The `fixed` array and the payload behind it.
abbrev pub reliable_plaintext : ReliablePacket → Bytes
reliable_plaintext p =
    be_put 2 p.channel
    ++ (be_put 8 p.fragment_sequence
        ++ (be_put 2 p.fragment_index
            ++ (be_put 2 p.fragment_count
                ++ (be_put 8 p.fragment_ack_base
                    ++ (be_put 8 p.fragment_ack_bitmap ++ p.payload)))))

unfoldable pub marshal_reliable : Bytes → ℕ → ReliablePacket → Option Aead → Result Error Bytes
marshal_reliable session_id packet_sequence p protector = do
  reject (packet_sequence == 0) sequence_zero
  reject (not (valid_pairwise_cipher protector)) protector_invalid
  validate_reliable_body p
  ok (
      seal_session protector (
        append_session_header [] packet_reliable session_id packet_sequence
        ++ reliable_plaintext p))

abbrev pub read_reliable : Bytes → ReliablePacket
read_reliable opened = record {
  channel = be_get (take 2 opened);
  fragment_sequence = be_get (take 8 (drop 2 opened));
  fragment_index = be_get (take 2 (drop 10 opened));
  fragment_count = be_get (take 2 (drop 12 opened));
  fragment_ack_base = be_get (take 8 (drop 14 opened));
  fragment_ack_bitmap = be_get (take 8 (drop 22 opened));
  payload = drop reliable_plaintext_fixed_size opened;
}

unfoldable pub parse_reliable : Bytes → Bytes → Option Aead → Result Error ReliablePacket
parse_reliable packet expected_session_id protector = do
  reject (ltb (length packet) reliable_min_packet_size || ltb max_bridge_inner_size (length packet))
      length_invalid
  reject (not (valid_pairwise_cipher protector)) protector_invalid
  header ← or_else (parse_session_header packet) header_invalid
  reject (header.kind =/= packet_reliable || not (list_eq header.session_id expected_session_id))
      header_invalid
  opened ← or_missing (open_session protector packet) authentication_failed
  reject (ltb (length opened) reliable_plaintext_fixed_size) authentication_failed
  let decoded = read_reliable opened
  validate_reliable_body decoded
  ok decoded
