-- ===== src/Protocol/Tests.antt =====
-- The protocol's theorems at concrete packets, under a cipher and a MAC that do nothing.
use bork.Base.{
  ℕ, ◌-◌, ◌≡◌, refl, sym, ap, subst, ◌∙◌, true, if◌then◌else◌, ltb, [], ◌∷◌, ◌++◌, Option, none,
  some, All, All-take, length, length-append, take, drop, take-append, drop-append,
  take-append-drop, list_eq, list_eq_self, list_eq→eq, Result, ok, err, arith,
}
use bork.Base.Bytes.{Bytes, IsByte, be_put, be_get}
use bork.Protocol.Aead.{Aead, IsAead}
use bork.Protocol.Wire.{
  Error, zero16, packet_pong, packet_voice, SessionHeader, append_prefix, append_uint64,
  append_session_header, parse_prefix, parse_session_header, valid_session_packet_type,
  valid_packet_size, valid_pairwise_cipher,
}
use bork.Protocol.Sealed.{seal_session, open_session}
use bork.Protocol.Control.{
  marshal_control, parse_control, valid_control_type, valid_control_fields, valid_control_packet,
  decode_control_body,
}
use bork.Protocol.Control.RoundTrip.{parse_control-marshal_control, marshal_control-parse_control}
use bork.Protocol.Reliable.{
  ReliablePacket, marshal_reliable, parse_reliable, validate_reliable_body,
}
use bork.Protocol.Reliable.RoundTrip.{
  parse_reliable-marshal_reliable, marshal_reliable-parse_reliable,
}
use bork.Protocol.Bridge.{marshal_bridge, parse_bridge, valid_bridge_fields, valid_bridge_inner}
use bork.Protocol.Bridge.RoundTrip.{parse_bridge-marshal_bridge}
use bork.Protocol.RoomDatagram.{
  RoomDatagramHeader, marshal_room_datagram, parse_room_datagram, parse_room_datagram_header,
  valid_room_datagram_header, valid_room_datagram_cipher,
}
use bork.Protocol.RoomDatagram.RoundTrip.{parse_room-marshal_room}
use bork.Protocol.Hello.{
  zero32, append_admission_mac, marshal_hello_probe, parse_hello_probe, marshal_session_hello,
  parse_session_hello, read_session_hello,
}
use bork.Protocol.Hello.RoundTrip.{
  parse_hello_probe-marshal_hello_probe, parse_session_hello-marshal_session_hello,
  parse_session_hello-authentic,
}

-- A cipher that leaves the text as it is and adds sixteen zero bytes for a tag.
abbrev plain_unseal : Bytes → Option Bytes
plain_unseal c =
    if ltb (length c) 16
    then none
    else if list_eq (drop (length c - 16) c) zero16
    then some (take (length c - 16) c)
    else none

abbrev plain_aead : ℕ → Aead
plain_aead nonce = record {
  nonce_size = nonce;
  overhead = 16;
  seal = λ n p d. p ++ zero16;
  unseal = λ n c d. plain_unseal c;
}

plain_round : (p : Bytes) → plain_unseal (p ++ zero16) ≡ some p
plain_round p =
    let size = length-append p zero16 in
    let cut : length (p ++ zero16) - 16 ≡ length p = omega (arith, size) in
    ground (
      arith,
      size,
      list_eq_self zero16,
      ap (λ t. drop t (p ++ zero16)) cut ∙ drop-append (length p) p zero16 refl,
      ap (λ t. take t (p ++ zero16)) cut ∙ take-append (length p) p zero16 refl,
    )

plain_opens :
    (c : Bytes) {p : Bytes}
    → plain_unseal c ≡ some p
    → (c ≡ p ++ zero16) × (p ≡ take (length c - 16) c)
plain_opens c {p} e =
    let text : p ≡ take (length c - 16) c = ground arith in
    let tag : drop (length c - 16) c ≡ zero16 =
      list_eq→eq (drop (length c - 16) c) zero16 (ground arith) in
    (sym (take-append-drop (length c - 16) c) ∙ rw (tag, ← text), text)

plain_aead-IsAead : (nonce : ℕ) → IsAead (plain_aead nonce)
plain_aead-IsAead nonce = record {
  length-seal = λ n p d. length-append p zero16;
  unseal-seal = λ n p d. plain_round p;
  seal-unseal = λ n c d e. (plain_opens c e).0;
  unseal-IsByte = λ n c d {p} b e.
      subst (All IsByte) (sym (plain_opens c e).1) (All-take IsByte (length c - 16) c b);
}

abbrev pairwise : Option Aead
pairwise = some (plain_aead 12)

abbrev id16 : Bytes
id16 = 1 ∷ 2 ∷ 3 ∷ 4 ∷ 5 ∷ 6 ∷ 7 ∷ 8 ∷ 9 ∷ 10 ∷ 11 ∷ 12 ∷ 13 ∷ 14 ∷ 15 ∷ 16 ∷ []

abbrev taken : Result Error Bytes → Bytes
taken (ok packet) = packet
taken (err e) = []

abbrev pong_header : SessionHeader
pong_header = record { kind = packet_pong; session_id = id16; packet_sequence = 7 }

abbrev pong : Bytes
pong = taken (marshal_control packet_pong id16 7 9 pairwise)

pong_written : marshal_control packet_pong id16 7 9 pairwise ≡ ok pong
unfolding marshal_control valid_control_fields valid_control_type valid_pairwise_cipher list_eq
pong_written = refl

pong_read : parse_control pong id16 pairwise ≡ ok 9
unfolding marshal_control valid_control_fields valid_control_type valid_pairwise_cipher list_eq
    seal_session append_session_header append_prefix append_uint64 be_put parse_control
    parse_session_header parse_prefix valid_session_packet_type be_get valid_control_packet
    valid_packet_size open_session decode_control_body
pong_read = refl

parse_control-marshal_control_example :
    (parse_control pong id16 pairwise ≡ ok 9) × (valid_packet_size packet_pong (length pong) ≡ true)
parse_control-marshal_control_example =
    parse_control-marshal_control (plain_aead 12) pong_header 9 (plain_aead-IsAead 12) refl
      (omega arith) (omega arith) pong_written

pong-IsByte : All IsByte pong
unfolding marshal_control valid_control_fields valid_control_type valid_pairwise_cipher list_eq
    seal_session append_session_header append_prefix append_uint64 be_put
pong-IsByte = omega arith

marshal_control-parse_control_example :
    (h : SessionHeader) × (parse_session_header pong ≡ ok h)
    × (h.session_id ≡ id16)
    × (marshal_control h.kind id16 h.packet_sequence 9 pairwise ≡ ok pong)
marshal_control-parse_control_example =
    marshal_control-parse_control (plain_aead 12) pong id16 (plain_aead-IsAead 12) pong-IsByte
      pong_read

-- The second fragment of a message of three, with an acknowledgment of packets 4 and 5.
abbrev middle : ReliablePacket
middle = record {
  channel = 2;
  fragment_sequence = 12;
  fragment_index = 1;
  fragment_count = 3;
  fragment_ack_base = 5;
  fragment_ack_bitmap = 3;
  payload = 65 ∷ 66 ∷ [];
}

abbrev reliable : Bytes
reliable = taken (marshal_reliable id16 8 middle pairwise)

reliable_written : marshal_reliable id16 8 middle pairwise ≡ ok reliable
unfolding marshal_reliable validate_reliable_body valid_pairwise_cipher
reliable_written = refl

parse_reliable-marshal_reliable_example : parse_reliable reliable id16 pairwise ≡ ok middle
unfolding list_eq
parse_reliable-marshal_reliable_example =
    parse_reliable-marshal_reliable (plain_aead 12) id16 8 middle (plain_aead-IsAead 12) refl refl
      (omega arith) (omega arith) reliable_written

reliable-IsByte : All IsByte reliable
unfolding marshal_reliable validate_reliable_body valid_pairwise_cipher seal_session
    append_session_header be_put
reliable-IsByte = omega arith

marshal_reliable-parse_reliable_example :
    (h : SessionHeader) × (parse_session_header reliable ≡ ok h)
    × (h.session_id ≡ id16)
    × (marshal_reliable id16 h.packet_sequence middle pairwise ≡ ok reliable)
marshal_reliable-parse_reliable_example =
    marshal_reliable-parse_reliable (plain_aead 12) reliable id16 (plain_aead-IsAead 12)
      reliable-IsByte parse_reliable-marshal_reliable_example

abbrev target16 : Bytes
target16 = 9 ∷ 9 ∷ 9 ∷ 9 ∷ 9 ∷ 9 ∷ 9 ∷ 9 ∷ 9 ∷ 9 ∷ 9 ∷ 9 ∷ 9 ∷ 9 ∷ 9 ∷ 9 ∷ []

abbrev bridged : Bytes
bridged = taken (marshal_bridge id16 9 target16 true reliable pairwise)

bridged_written : marshal_bridge id16 9 target16 true reliable pairwise ≡ ok bridged
unfolding marshal_bridge valid_bridge_fields valid_pairwise_cipher valid_bridge_inner list_eq
    marshal_reliable validate_reliable_body seal_session append_session_header be_put parse_prefix
    valid_packet_size
bridged_written = refl

parse_bridge-marshal_bridge_example :
    parse_bridge bridged id16 pairwise
    ≡ ok (record { target = target16; low_priority = true; inner = reliable })
parse_bridge-marshal_bridge_example =
    parse_bridge-marshal_bridge (plain_aead 12) id16 9 target16 true reliable (plain_aead-IsAead 12)
      refl (omega arith) refl bridged_written

abbrev voice_header : RoomDatagramHeader
voice_header = record { kind = packet_voice; stream_id = id16; packet_sequence = 40 }

abbrev voice : Bytes
voice = taken (marshal_room_datagram voice_header 77 (5 ∷ 6 ∷ 7 ∷ []) (some (plain_aead 24)))

voice_written :
    marshal_room_datagram voice_header 77 (5 ∷ 6 ∷ 7 ∷ []) (some (plain_aead 24)) ≡ ok voice
unfolding marshal_room_datagram valid_room_datagram_header valid_room_datagram_cipher list_eq
voice_written = refl

parse_room-marshal_room_example :
    (parse_room_datagram_header voice ≡ ok voice_header)
    × (parse_room_datagram voice voice_header (some (plain_aead 24))
        ≡ ok (record { media_unit_id = 77; payload = 5 ∷ 6 ∷ 7 ∷ [] }))
    × (valid_packet_size packet_voice (length voice) ≡ true)
parse_room-marshal_room_example =
    parse_room-marshal_room (plain_aead 24) voice_header 77 (5 ∷ 6 ∷ 7 ∷ []) (plain_aead-IsAead 24)
      refl (omega arith) (omega arith) voice_written

-- A MAC that is 32 zero bytes whatever it is over.
abbrev zero_mac : Bytes → Bytes → Bytes
zero_mac key message = zero32

abbrev probe : Bytes
probe = taken (marshal_hello_probe zero_mac (1 ∷ []) id16)

probe_written : marshal_hello_probe zero_mac (1 ∷ []) id16 ≡ ok probe
unfolding marshal_hello_probe list_eq
probe_written = refl

parse_hello_probe-marshal_hello_probe_example : parse_hello_probe zero_mac probe (1 ∷ []) ≡ ok id16
parse_hello_probe-marshal_hello_probe_example =
    parse_hello_probe-marshal_hello_probe zero_mac (λ k m. refl) (1 ∷ []) id16 refl probe_written

abbrev hello : Bytes
hello = taken (marshal_session_hello zero_mac (1 ∷ []) id16 target16 (id16 ++ id16))

hello_written : marshal_session_hello zero_mac (1 ∷ []) id16 target16 (id16 ++ id16) ≡ ok hello
unfolding marshal_session_hello list_eq
hello_written = refl

parse_session_hello-marshal_session_hello_example :
    parse_session_hello zero_mac hello (1 ∷ [])
    ≡ ok (record {
      session_id = target16;
      peer_id = id16;
      ephemeral_key = id16 ++ id16;
      wire = hello;
    })
parse_session_hello-marshal_session_hello_example =
    parse_session_hello-marshal_session_hello zero_mac (λ k m. refl) (1 ∷ []) id16 target16
      (id16 ++ id16) refl refl refl hello_written

parse_session_hello-authentic_example :
    (length hello ≡ 101)
    × (hello ≡ append_admission_mac zero_mac (take 69 hello) (1 ∷ []))
    × (record { session_id = target16; peer_id = id16; ephemeral_key = id16 ++ id16; wire = hello }
        ≡ read_session_hello zero_mac hello)
parse_session_hello-authentic_example =
    parse_session_hello-authentic zero_mac (1 ∷ []) hello
      parse_session_hello-marshal_session_hello_example
