-- ===== src/Protocol/Hello.antt =====
-- internal/protocol/hello.go: the two handshake packets, authenticated with the room's admission
-- key. HMAC-SHA256 is the parameter `mac`, of key and message.
pub mod RoundTrip
use bork.Base.{
  ℕ, ◌+◌, ◌-◌, Bool, not, ◌||◌, ◌=/=◌, List, [], ◌++◌, length, take, drop, list_eq, Result, ok,
  or_else, reject, ◌>>=◌, ◌>>◌, ◌∷◌,
}
use bork.Base.Bytes.{Bytes}
use bork.Protocol.Wire.{
  Error, peer_id_empty, session_id_empty, ephemeral_key_empty, length_invalid,
  authentication_failed, fields_invalid, packet_hello_probe, packet_session_hello, prefix_size,
  peer_id_size, hello_mac_size, hello_probe_packet_size, session_hello_packet_size, zero16,
  append_prefix, parse_prefix,
}

-- `wire` keeps the encoded packet for the session's transcript.
pub record SessionHello : Type 0 where
  pub session_id : Bytes
  pub peer_id : Bytes
  pub ephemeral_key : Bytes
  pub wire : Bytes

-- `[32]byte{}`
abbrev pub zero32 : Bytes
zero32 = zero16 ++ zero16

module _ (mac : Bytes → Bytes → Bytes) where
  unfoldable pub append_admission_mac : Bytes → Bytes → Bytes
  append_admission_mac packet admission_key = packet ++ mac admission_key packet

  unfoldable pub valid_admission_mac : Bytes → Bytes → Bool
  valid_admission_mac packet admission_key =
      let body_end = length packet - hello_mac_size in
      list_eq (drop body_end packet) (mac admission_key (take body_end packet))

  unfoldable pub marshal_hello_probe : Bytes → Bytes → Result Error Bytes
  marshal_hello_probe admission_key peer_id = do
    reject (list_eq peer_id zero16) peer_id_empty
    ok (append_admission_mac (append_prefix [] packet_hello_probe ++ peer_id) admission_key)

  unfoldable pub parse_hello_probe : Bytes → Bytes → Result Error Bytes
  parse_hello_probe packet admission_key = do
    reject (length packet =/= hello_probe_packet_size) length_invalid
    packet_type ← or_else (parse_prefix packet) authentication_failed
    reject (packet_type =/= packet_hello_probe || not (valid_admission_mac packet admission_key))
        authentication_failed
    let peer_id = take peer_id_size (drop prefix_size packet)
    reject (list_eq peer_id zero16) peer_id_empty
    ok peer_id

  unfoldable pub marshal_session_hello : Bytes → Bytes → Bytes → Bytes → Result Error Bytes
  marshal_session_hello admission_key peer_id session_id ephemeral_key = do
    reject (list_eq peer_id zero16) peer_id_empty
    reject (list_eq session_id zero16) session_id_empty
    reject (list_eq ephemeral_key zero32) ephemeral_key_empty
    ok (
        append_admission_mac
          (append_prefix [] packet_session_hello ++ (session_id ++ (peer_id ++ ephemeral_key)))
          admission_key)

  abbrev pub read_session_hello : Bytes → SessionHello
  read_session_hello packet = record {
    session_id = take 16 (drop prefix_size packet);
    peer_id = take 16 (drop (prefix_size + 16) packet);
    ephemeral_key = take 32 (drop (prefix_size + 16 + 16) packet);
    wire = packet;
  }

  unfoldable pub parse_session_hello : Bytes → Bytes → Result Error SessionHello
  parse_session_hello packet admission_key = do
    reject (length packet =/= session_hello_packet_size) length_invalid
    packet_type ← or_else (parse_prefix packet) authentication_failed
    reject (packet_type =/= packet_session_hello || not (valid_admission_mac packet admission_key))
        authentication_failed
    let hello = read_session_hello packet
    reject
        (list_eq hello.session_id zero16
          || (list_eq hello.peer_id zero16 || list_eq hello.ephemeral_key zero32))
        fields_invalid
    ok hello
