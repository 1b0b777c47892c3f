-- ===== src/Protocol/Control/RoundTrip.antt =====
-- A control packet that is written is read back, and one that is read is what would be written.
use bork.Base.{
  ℕ, ◌+◌, ◌^◌, ◌≡◌, sym, ap, ◌∙◌, ◌<◌, inl, inr, true, false, if◌then◌else◌, ◌==◌, some, [], ◌++◌,
  All, length, append-nil, list_eq, list_eq_self, list_eq→eq, nil_of_length, Bool-cases,
  Result-cases, Option-cases, ok, arith,
}
use bork.Base.Bytes.{Bytes, IsByte, be_put, be_get, length-be_put, be_get-be_put, be_put-be_get}
use bork.Protocol.Aead.{Aead, IsAead}
use bork.Protocol.Sealed.{
  seal_session, open_session, open_session-seal_session, parse_session_header-seal_session,
  length-seal_session, seal_session-open_session, pairwise_overhead, opened_bytes,
}
use bork.Protocol.Wire.{
  packet_pong, zero16, SessionHeader, append_uint64, valid_pairwise_cipher,
  valid_session_packet_type, valid_packet_size, parse_session_header,
}
use bork.Protocol.Wire.Headers.{IsHeader, header_bytes}
use bork.Protocol.Control.{
  valid_control_type, valid_control_fields, valid_control_packet, decode_control_body,
  control_packet, marshal_control, parse_control,
}

-- What stands behind the header before it is sealed.
abbrev body_of : ℕ → ℕ → Bytes
body_of kind ping = if kind == packet_pong then be_put 8 ping else []

control_packet_body :
    (h : SessionHeader) (ping : ℕ)
    → control_packet h.kind h.session_id h.packet_sequence ping
      ≡ header_bytes h ++ body_of h.kind ping
unfolding append_uint64
control_packet_body h ping = ground (arith, append-nil (header_bytes h))

decode-body_of :
    (kind ping : ℕ)
    → ping < 2 ^ 64
    → valid_control_fields kind ping ≡ true
    → decode_control_body kind (body_of kind ping) ≡ ok ping
unfolding decode_control_body valid_control_fields
decode-body_of kind ping fits e = ground (arith, length-be_put 8 ping, be_get-be_put 8 ping fits)

control_size :
    (kind ping : ℕ)
    → valid_control_type kind ≡ true
    → valid_packet_size kind (29 + length (body_of kind ping) + 16) ≡ true
unfolding valid_control_type valid_packet_size
control_size kind ping e = ground (arith, length-be_put 8 ping)

-- What `MarshalControl` checks.
marshal_control_ok :
    (h : SessionHeader) (ping : ℕ) (a : Aead) {packet : Bytes}
    → marshal_control h.kind h.session_id h.packet_sequence ping (some a) ≡ ok packet
    → (list_eq h.session_id zero16 ≡ false)
      × (0 < h.packet_sequence)
      × (valid_control_fields h.kind ping ≡ true)
      × (valid_pairwise_cipher (some a) ≡ true)
      × (packet ≡ seal_session (some a) (control_packet h.kind h.session_id h.packet_sequence ping))
unfolding marshal_control
marshal_control_ok h ping a e = ground arith

IsHeader-ok :
    (h : SessionHeader) (ping : ℕ)
    → length h.session_id ≡ 16
    → h.packet_sequence < 2 ^ 64
    → list_eq h.session_id zero16 ≡ false
    → 0 < h.packet_sequence
    → valid_control_type h.kind ≡ true
    → IsHeader h
unfolding valid_control_type valid_session_packet_type
IsHeader-ok h ping size fits set positive known = record {
  id_size = size;
  id_set = set;
  sequence_set = positive;
  sequence_fits = fits;
  kind_known = ground arith;
}

fields_type :
    (kind ping : ℕ) → valid_control_fields kind ping ≡ true → valid_control_type kind ≡ true
unfolding valid_control_fields
fields_type kind ping e = ground arith

parse_control_steps :
    (packet id : Bytes) (a : Aead) (h : SessionHeader) (body : Bytes)
    → parse_session_header packet ≡ ok h
    → valid_control_packet h id (length packet) ≡ true
    → valid_pairwise_cipher (some a) ≡ true
    → open_session (some a) packet ≡ some body
    → parse_control packet id (some a) ≡ decode_control_body h.kind body
unfolding parse_control
parse_control_steps packet id a h body header known cipher opened = ground arith

-- Under a lawful cipher, where the session id is 16 bytes and the sequence and the ping id fit 64 bits, a
-- control packet that `marshal_control` writes is read back by `parse_control` with its ping id, and its
-- size is one that its type may have.
pub parse_control-marshal_control :
    (a : Aead) (h : SessionHeader) (ping : ℕ) {packet : Bytes}
    → IsAead a
    → length h.session_id ≡ 16
    → h.packet_sequence < 2 ^ 64
    → ping < 2 ^ 64
    → marshal_control h.kind h.session_id h.packet_sequence ping (some a) ≡ ok packet
    → (parse_control packet h.session_id (some a) ≡ ok ping)
      × (valid_packet_size h.kind (length packet) ≡ true)
parse_control-marshal_control a h ping {packet} w size fits small e =
    let (set, positive, fields, cipher, sealed) = marshal_control_ok h ping a e in
    let known = fields_type h.kind ping fields in
    let v = IsHeader-ok h ping size fits set positive known in
    let body : Bytes = body_of h.kind ping in
    let here : packet ≡ seal_session (some a) (header_bytes h ++ body) =
      sealed ∙ ap (seal_session (some a)) (control_packet_body h ping) in
    let long : length packet ≡ 29 + length body + 16 =
      ap length here
      ∙ length-seal_session a h w v body
      ∙ ap (λ t. 29 + length body + t) (pairwise_overhead a cipher) in
    let sized : valid_packet_size h.kind (length packet) ≡ true =
      rw long (control_size h.kind ping known) in
    (
      parse_control_steps packet h.session_id a h body
            (rw here (parse_session_header-seal_session a h w v body))
            (unfold valid_control_packet in ground (arith, known, sized, list_eq_self h.session_id))
            cipher (rw here (open_session-seal_session a h w v body))
          ∙ decode-body_of h.kind ping small fields,
      sized,
    )

-- What `ParseControl` has established when it answers.
parse_control_ok :
    (packet id : Bytes) (a : Aead) {ping : ℕ}
    → parse_control packet id (some a) ≡ ok ping
    → (h : SessionHeader) × (body : Bytes) × (parse_session_header packet ≡ ok h)
      × (valid_control_packet h id (length packet) ≡ true)
      × (valid_pairwise_cipher (some a) ≡ true)
      × (open_session (some a) packet ≡ some body)
      × (decode_control_body h.kind body ≡ ok ping)
unfolding parse_control
parse_control_ok packet id a e = elim (Result-cases (parse_session_header packet)) [
  | inr (_, refused) ↦ absurd (ground (arith, refused))
  | inl (h, header) ↦ elim (Option-cases (open_session (some a) packet)) [
    | inl shut ↦ absurd (ground (arith, header, shut))
    | inr (body, opened) ↦ (
      h,
      body,
      header,
      ground (arith, header, opened),
      ground (arith, header, opened),
      opened,
      ground (arith, header, opened),
    )
  ]
]

body_of-decode :
    (kind ping : ℕ) (body : Bytes)
    → All IsByte body
    → valid_control_type kind ≡ true
    → decode_control_body kind body ≡ ok ping
    → (valid_control_fields kind ping ≡ true) × (body ≡ body_of kind ping)
unfolding decode_control_body valid_control_fields
body_of-decode kind ping body b known e = elim (Bool-cases (kind == packet_pong)) [
  | inl pong ↦
      let long : length body ≡ 8 = ground (arith, pong) in
      let word : be_put 8 (be_get body) ≡ body = be_put-be_get 8 body long b in
      let value : be_get body ≡ ping = ground (arith, pong) in
      (ground (arith, pong), ground (arith, pong, word, ap (be_put 8) value))
  | inr other ↦
      let empty : body ≡ [] = nil_of_length body (ground (arith, other)) in
      (ground (arith, other), ground (arith, other, empty))
]

control_packet_fields :
    (h : SessionHeader) (id : Bytes) (size : ℕ)
    → valid_control_packet h id size ≡ true
    → (valid_control_type h.kind ≡ true) × (h.session_id ≡ id)
unfolding valid_control_packet
control_packet_fields h id size e = (ground arith, list_eq→eq h.session_id id (ground arith))

marshal_control_steps :
    (a : Aead) (h : SessionHeader) (id : Bytes) (ping : ℕ)
    → h.session_id ≡ id
    → IsHeader h
    → valid_control_fields h.kind ping ≡ true
    → valid_pairwise_cipher (some a) ≡ true
    → marshal_control h.kind id h.packet_sequence ping (some a)
      ≡ ok (seal_session (some a) (control_packet h.kind h.session_id h.packet_sequence ping))
unfolding marshal_control
marshal_control_steps a h id ping same v fields cipher = ground (arith, v.id_set, v.sequence_set)

-- Under a lawful cipher, a packet of bytes that `parse_control` reads has a header with the expected
-- session id, and `marshal_control` on that header and the ping id read writes the same packet.
pub marshal_control-parse_control :
    (a : Aead) (packet id : Bytes) {ping : ℕ}
    → IsAead a
    → All IsByte packet
    → parse_control packet id (some a) ≡ ok ping
    → (h : SessionHeader) × (parse_session_header packet ≡ ok h)
      × (h.session_id ≡ id)
      × (marshal_control h.kind id h.packet_sequence ping (some a) ≡ ok packet)
marshal_control-parse_control a packet id w b e =
    let (h, body, header, known, cipher, opened, answer) = parse_control_ok packet id a e in
    let (v, here) = seal_session-open_session a h packet body w b header opened in
    let (known', same) = control_packet_fields h id (length packet) known in
    let (fields, text) =
      body_of-decode h.kind _ body (opened_bytes a packet body w b opened) known' answer in
    (
      h,
      header,
      same,
      marshal_control_steps a h id _ same v fields cipher
          ∙ ap ok (
              ap (seal_session (some a))
                (control_packet_body h _ ∙ ap (λ t. header_bytes h ++ t) (sym text))
              ∙ sym here),
    )
