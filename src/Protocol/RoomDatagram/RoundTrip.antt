-- ===== src/Protocol/RoomDatagram/RoundTrip.antt =====
-- A datagram comes out of every forwarder as the sender made it: the header is read in the clear,
-- and whoever has the room's key reads the media unit.
use bork.Base.{
  ℕ, ◌+◌, ◌^◌, ◌≡◌, ◌≤◌, ◌<◌, ap, ◌∙◌, true, some, ◌++◌, length, length-append, take, drop,
  take-append, drop-append, field-append, append_assoc, list_eq, list_eq_self, ok, arith,
}
use bork.Base.Bytes.{Bytes, be_put, be_get, length-be_put, be_get-be_put}
use bork.Protocol.Aead.{Aead, IsAead}
use bork.Protocol.Wire.{parse_prefix, valid_packet_size}
use bork.Protocol.RoomDatagram.{
  RoomDatagramHeader, valid_room_datagram_header, valid_room_datagram_cipher,
  parse_room_datagram_header, room_datagram_nonce, seal_room, open_room, append_room_header,
  marshal_room_datagram, same_header, parse_room_datagram,
}

module _ (h : RoomDatagramHeader) (wide : length h.stream_id ≡ 16) (body : Bytes) where
  length-room_header : length (append_room_header h) ≡ 29
  unfolding append_room_header
  length-room_header = omega (
    arith,
    length-append h.stream_id (be_put 8 h.packet_sequence),
    length-be_put 8 h.packet_sequence,
  )

  room_prefix : parse_prefix (append_room_header h ++ body) ≡ ok h.kind
  unfolding append_room_header parse_prefix list_eq
  room_prefix = ground arith

  room_stream : take 16 (drop 5 (append_room_header h ++ body)) ≡ h.stream_id
  unfolding append_room_header
  room_stream =
      ap (take 16) (append_assoc h.stream_id (be_put 8 h.packet_sequence) body)
      ∙ take-append 16 h.stream_id (be_put 8 h.packet_sequence ++ body) wide

  room_sequence :
      h.packet_sequence < 2 ^ 64
      → be_get (take 8 (drop 21 (append_room_header h ++ body))) ≡ h.packet_sequence
  unfolding append_room_header
  room_sequence fits =
      ap (λ t. be_get (take 8 (drop 16 t)))
        (append_assoc h.stream_id (be_put 8 h.packet_sequence) body)
      ∙ ap (λ t. be_get (take 8 t))
          (drop-append 16 h.stream_id (be_put 8 h.packet_sequence ++ body) wide)
      ∙ ap be_get
          (take-append 8 (be_put 8 h.packet_sequence) body (length-be_put 8 h.packet_sequence))
      ∙ be_get-be_put 8 h.packet_sequence fits

  parse_room_header :
      h.packet_sequence < 2 ^ 64
      → valid_room_datagram_header h ≡ true
      → parse_room_datagram_header (append_room_header h ++ body) ≡ ok h
  unfolding parse_room_datagram_header valid_room_datagram_header
  parse_room_header fits v = ground (
    arith,
    length-append (append_room_header h) body,
    length-room_header,
    room_prefix,
    room_stream,
    room_sequence fits,
  )

  front-room : take 29 (append_room_header h ++ body) ≡ append_room_header h
  front-room = take-append 29 (append_room_header h) body length-room_header

  back-room : drop 29 (append_room_header h ++ body) ≡ body
  back-room = drop-append 29 (append_room_header h) body length-room_header

  nonce-room :
      room_datagram_nonce (append_room_header h ++ body)
      ≡ room_datagram_nonce (append_room_header h)
  unfolding room_datagram_nonce
  nonce-room = field-append 5 24 (append_room_header h) body (omega (arith, length-room_header))

  seal-room :
      (a : Aead)
      → seal_room (some a) (append_room_header h ++ body)
        ≡ append_room_header h
          ++ a.seal (room_datagram_nonce (append_room_header h)) body (append_room_header h)
  unfolding seal_room
  seal-room a = rw (front-room, back-room, nonce-room)

open-seal_room :
    (a : Aead) (h : RoomDatagramHeader) (body : Bytes)
    → IsAead a
    → length h.stream_id ≡ 16
    → open_room (some a) (seal_room (some a) (append_room_header h ++ body)) ≡ some body
unfolding open_room
open-seal_room a h body w wide =
    let n = room_datagram_nonce (append_room_header h) in
    let sealed : Bytes = a.seal n body (append_room_header h) in
    rw
      (
        seal-room h wide body a,
        front-room h wide sealed,
        back-room h wide sealed,
        nonce-room h wide sealed,
      )
      (w.unseal-seal n body (append_room_header h))

marshal_room_ok :
    (h : RoomDatagramHeader) (unit : ℕ) (payload : Bytes) (a : Aead) {packet : Bytes}
    → marshal_room_datagram h unit payload (some a) ≡ ok packet
    → (valid_room_datagram_header h ≡ true)
      × (1 ≤ length payload)
      × (length payload ≤ 1151)
      × (valid_room_datagram_cipher (some a) ≡ true)
      × (packet ≡ seal_room (some a) (append_room_header h ++ (be_put 4 unit ++ payload)))
unfolding marshal_room_datagram
marshal_room_ok h unit payload a e = ground arith

cipher_overhead : (a : Aead) → valid_room_datagram_cipher (some a) ≡ true → a.overhead ≡ 16
unfolding valid_room_datagram_cipher
cipher_overhead a e = ground arith

parse_room_steps :
    (packet : Bytes) (h : RoomDatagramHeader) (a : Aead) (opened : Bytes)
    → (50 ≤ length packet) × (length packet ≤ 1200)
    → valid_room_datagram_cipher (some a) ≡ true
    → parse_room_datagram_header packet ≡ ok h
    → open_room (some a) packet ≡ some opened
    → 4 < length opened
    → parse_room_datagram packet h (some a)
      ≡ ok (record { media_unit_id = be_get (take 4 opened); payload = drop 4 opened })
unfolding parse_room_datagram same_header
parse_room_steps packet h a opened size cipher header text long =
    ground (arith, list_eq_self h.stream_id)

-- Under a lawful cipher, where the stream id is 16 bytes, the sequence fits 64 bits and the media unit
-- 32 bits, a room datagram that is written has a header that is read back without the key, is read back
-- with its media unit and payload, and has a size that its type may have.
pub parse_room-marshal_room :
    (a : Aead) (h : RoomDatagramHeader) (unit : ℕ) (payload : Bytes) {packet : Bytes}
    → IsAead a
    → length h.stream_id ≡ 16
    → h.packet_sequence < 2 ^ 64
    → unit < 2 ^ 32
    → marshal_room_datagram h unit payload (some a) ≡ ok packet
    → (parse_room_datagram_header packet ≡ ok h)
      × (parse_room_datagram packet h (some a)
          ≡ ok (record { media_unit_id = unit; payload = payload }))
      × (valid_packet_size h.kind (length packet) ≡ true)
parse_room-marshal_room a h unit payload {packet} w wide fits small e =
    let (known, low, high, cipher, here) = marshal_room_ok h unit payload a e in
    let body : Bytes = be_put 4 unit ++ payload in
    let n = room_datagram_nonce (append_room_header h) in
    let sealed : Bytes = a.seal n body (append_room_header h) in
    let body_size : length body ≡ 4 + length payload =
      omega (arith, length-append (be_put 4 unit) payload, length-be_put 4 unit) in
    let size : length packet ≡ 29 + (4 + length payload) + 16 = omega (
      arith,
      ap length (here ∙ seal-room h wide body a),
      length-append (append_room_header h) sealed,
      length-room_header h wide body,
      w.length-seal n body (append_room_header h),
      body_size,
      cipher_overhead a cipher,
    ) in
    let header : parse_room_datagram_header packet ≡ ok h =
      rw (here, seal-room h wide body a) (parse_room_header h wide sealed fits known) in
    (
      header,
      parse_room_steps packet h a body (omega (arith, size), omega (arith, size)) cipher header
            (rw here (open-seal_room a h body w wide)) (omega (arith, body_size))
          ∙ rw (
            take-append 4 (be_put 4 unit) payload (length-be_put 4 unit),
            drop-append 4 (be_put 4 unit) payload (length-be_put 4 unit),
            be_get-be_put 4 unit small,
          ),
      room_size h (length packet) known (omega (arith, size)) (omega (arith, size)),
    )
  where
    room_size :
        (g : RoomDatagramHeader) (m : ℕ)
        → valid_room_datagram_header g ≡ true
        → 50 ≤ m
        → m ≤ 1200
        → valid_packet_size g.kind m ≡ true
    room_size g m v lo hi = unfold valid_room_datagram_header valid_packet_size in ground arith
