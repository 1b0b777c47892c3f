-- ===== src/Protocol/Wire/Headers.antt =====
-- The cleartext header of a session packet: what is written is read, and what is read was written.
use bork.Base.{
  ℕ, ◌+◌, ◌^◌, ◌≤◌, ◌<◌, ◌≡◌, refl, ap, ◌∙◌, true, false, [], ◌∷◌, ◌++◌, All, All-take, All-drop,
  length, length-field, drop_field, length-append, take, drop, take-append, drop-append, split_at,
  get_or, list_eq, list_eq→eq, ok, arith,
}
use mathlib.Core.List.{append_assoc}
use bork.Base.Bytes.{
  Bytes, IsByte, be_put, be_get, length-be_put, be_get-lt, be_get-be_put, be_put-be_get,
}
use bork.Protocol.Wire.{
  magic, session_header_size, zero16, parse_prefix, append_session_header,
  valid_session_packet_type, SessionHeader, read_session_header, parse_session_header,
}

-- The fields that a header on the wire can carry.
pub record IsHeader (h : SessionHeader) : Type 0 where
  pub id_size : length h.session_id ≡ 16
  pub id_set : list_eq h.session_id zero16 ≡ false
  pub sequence_set : 0 < h.packet_sequence
  pub sequence_fits : h.packet_sequence < 2 ^ 64
  pub kind_known : valid_session_packet_type h.kind ≡ true

abbrev pub header_bytes : SessionHeader → Bytes
header_bytes h = append_session_header [] h.kind h.session_id h.packet_sequence

pub length-header_bytes :
    (h : SessionHeader) → length h.session_id ≡ 16 → length (header_bytes h) ≡ session_header_size
unfolding append_session_header
length-header_bytes h e = omega (
  arith,
  length-append h.session_id (be_put 8 h.packet_sequence),
  length-be_put 8 h.packet_sequence,
)

module _ (h : SessionHeader) (body : Bytes) where
  pub length-packet :
      length h.session_id ≡ 16 → length (header_bytes h ++ body) ≡ session_header_size + length body
  length-packet e = omega (arith, length-append (header_bytes h) body, length-header_bytes h e)

  -- The header and the body of a packet stand apart at a fixed place.
  pub take-packet :
      length h.session_id ≡ 16 → take session_header_size (header_bytes h ++ body) ≡ header_bytes h
  take-packet e = take-append session_header_size (header_bytes h) body (length-header_bytes h e)

  pub drop-packet :
      length h.session_id ≡ 16 → drop session_header_size (header_bytes h ++ body) ≡ body
  drop-packet e = drop-append session_header_size (header_bytes h) body (length-header_bytes h e)

  prefix-packet : parse_prefix (header_bytes h ++ body) ≡ ok h.kind
  unfolding append_session_header parse_prefix list_eq
  prefix-packet = ground arith

  id-packet : length h.session_id ≡ 16 → take 16 (drop 5 (header_bytes h ++ body)) ≡ h.session_id
  unfolding append_session_header
  id-packet e =
      ap (take 16) (append_assoc h.session_id (be_put 8 h.packet_sequence) body)
      ∙ take-append 16 h.session_id (be_put 8 h.packet_sequence ++ body) e

  sequence-packet :
      length h.session_id ≡ 16
      → h.packet_sequence < 2 ^ 64
      → be_get (take 8 (drop 21 (header_bytes h ++ body))) ≡ h.packet_sequence
  unfolding append_session_header
  sequence-packet e fits =
      ap (λ t. be_get (take 8 (drop 16 t)))
        (append_assoc h.session_id (be_put 8 h.packet_sequence) body)
      ∙ ap (λ t. be_get (take 8 t))
          (drop-append 16 h.session_id (be_put 8 h.packet_sequence ++ body) e)
      ∙ ap be_get
          (take-append 8 (be_put 8 h.packet_sequence) body (length-be_put 8 h.packet_sequence))
      ∙ be_get-be_put 8 h.packet_sequence fits

  -- A header that was written is read back, whatever follows it.
  pub parse_session_header-header_bytes :
      IsHeader h → parse_session_header (header_bytes h ++ body) ≡ ok h
  unfolding parse_session_header
  parse_session_header-header_bytes v = ground (
    arith,
    v.id_set,
    v.kind_known,
    length-packet v.id_size,
    prefix-packet,
    id-packet v.id_size,
    sequence-packet v.id_size v.sequence_fits,
  )

-- What a prefix that is read says of the packet.
pub parse_prefix_ok :
    (packet : Bytes) (kind : ℕ)
    → parse_prefix packet ≡ ok kind
    → (5 ≤ length packet) × (packet ≡ (magic ++ (kind ∷ [])) ++ drop 5 packet)
unfolding parse_prefix
parse_prefix_ok packet kind e =
    let long : 5 ≤ length packet = ground arith in
    let tag : take 4 packet ≡ magic = list_eq→eq _ _ (ground arith) in
    let here : get_or packet 4 0 ≡ kind = ground arith in
    (long, split_at 4 packet 0 (omega arith) ∙ rw (tag, here))

parse_session_header_ok :
    (packet : Bytes) (h : SessionHeader)
    → parse_session_header packet ≡ ok h
    → (session_header_size ≤ length packet)
      × (parse_prefix packet ≡ ok h.kind)
      × (h ≡ read_session_header h.kind packet)
      × (valid_session_packet_type h.kind ≡ true)
      × (list_eq h.session_id zero16 ≡ false)
      × (0 < h.packet_sequence)
unfolding parse_session_header
parse_session_header_ok packet h e = ground arith

-- A packet whose header is read begins with that header as it is written.
pub header_bytes-parse_session_header :
    (packet : Bytes) (h : SessionHeader)
    → All IsByte packet
    → parse_session_header packet ≡ ok h
    → IsHeader h × (packet ≡ header_bytes h ++ drop session_header_size packet)
unfolding append_session_header
header_bytes-parse_session_header packet h b e =
    let (long, tag, fields, known, set, positive) = parse_session_header_ok packet h e in
    let id : Bytes = take 16 (drop 5 packet) in
    let word : Bytes = take 8 (drop 21 packet) in
    let here : h.session_id ≡ id = ap (λ r. r.session_id) fields in
    let count : h.packet_sequence ≡ be_get word = ap (λ r. r.packet_sequence) fields in
    let width : length word ≡ 8 = length-field 21 8 packet (omega arith) in
    let bytes : All IsByte word =
      All-take IsByte 8 (drop 21 packet) (All-drop IsByte 21 packet b) in
    (
      record {
        id_size = ap length here ∙ length-field 5 16 packet (omega arith);
        id_set = set;
        sequence_set = positive;
        sequence_fits = omega (arith, count, be_get-lt word bytes, ap (λ (t : ℕ). 256 ^ t) width);
        kind_known = known;
      },
      (parse_prefix_ok packet h.kind tag).1
          ∙ ap (λ t. magic ++ (h.kind ∷ t))
              (rw (here, count, be_put-be_get 8 word width bytes, append_assoc)
                (drop_field 5 16 21 packet refl
                  ∙ ap (λ t. id ++ t) (drop_field 21 8 29 packet refl))),
    )
