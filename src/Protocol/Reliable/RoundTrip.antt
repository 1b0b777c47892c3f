-- ===== src/Protocol/Reliable/RoundTrip.antt =====
-- A reliable packet that is written is read back, and one that is read is what would be written.
use bork.Base.{
  ℕ, ◌+◌, ◌^◌, ◌≡◌, ◌≤◌, refl, sym, ap, subst, ◌∙◌, ◌<◌, inl, inr, true, false, some, [], ◌++◌, All,
  All-take, All-drop, length, length-field, drop_field, take, drop, list_eq, list_eq_self,
  list_eq→eq, Result-cases, Option-cases, ok, arith,
}
use bork.Base.Bytes.{Bytes, IsByte, be_put, be_get, be_get-be_put, be_put-be_get}
use bork.Protocol.Aead.{Aead, IsAead}
use bork.Protocol.Sealed.{
  seal_session, open_session, open_session-seal_session, parse_session_header-seal_session,
  length-seal_session, seal_session-open_session, pairwise_overhead, opened_bytes,
}
use bork.Protocol.Wire.{
  packet_reliable, zero16, SessionHeader, append_session_header, valid_pairwise_cipher,
  max_bridge_inner_size, valid_session_packet_type, parse_session_header, max_reliable_payload,
}
use bork.Protocol.Wire.Headers.{IsHeader}
use bork.Protocol.Reliable.{
  ReliablePacket, validate_reliable_body, reliable_plaintext, read_reliable, marshal_reliable,
  parse_reliable,
}

-- The numbers fit the words that carry them.
pub record Fits (p : ReliablePacket) : Type 0 where
  pub channel_fits : p.channel < 2 ^ 16
  pub sequence_fits : p.fragment_sequence < 2 ^ 64
  pub index_fits : p.fragment_index < 2 ^ 16
  pub count_fits : p.fragment_count < 2 ^ 16
  pub base_fits : p.fragment_ack_base < 2 ^ 64
  pub bitmap_fits : p.fragment_ack_bitmap < 2 ^ 64

read_reliable-reliable_plaintext :
    (p : ReliablePacket) → Fits p → read_reliable (reliable_plaintext p) ≡ p
read_reliable-reliable_plaintext p f = rw (
  words,
  be_get-be_put 2 p.channel f.channel_fits,
  be_get-be_put 8 p.fragment_sequence f.sequence_fits,
  be_get-be_put 2 p.fragment_index f.index_fits,
  be_get-be_put 2 p.fragment_count f.count_fits,
  be_get-be_put 8 p.fragment_ack_base f.base_fits,
  be_get-be_put 8 p.fragment_ack_bitmap f.bitmap_fits,
)
  where
    words : read_reliable (reliable_plaintext p) ≡ record {
      channel = be_get (be_put 2 p.channel);
      fragment_sequence = be_get (be_put 8 p.fragment_sequence);
      fragment_index = be_get (be_put 2 p.fragment_index);
      fragment_count = be_get (be_put 2 p.fragment_count);
      fragment_ack_base = be_get (be_put 8 p.fragment_ack_base);
      fragment_ack_bitmap = be_get (be_put 8 p.fragment_ack_bitmap);
      payload = p.payload;
    }
    words = unfold be_put in refl

-- A packet that passes the checks fits its limits.
payload_limit :
    (p : ReliablePacket)
    → validate_reliable_body p ≡ ok tt
    → length p.payload ≤ max_reliable_payload
unfolding validate_reliable_body
payload_limit p e = ground arith

length-reliable_plaintext :
    (p : ReliablePacket) → length (reliable_plaintext p) ≡ 30 + length p.payload
length-reliable_plaintext p = unfold be_put in omega arith

marshal_reliable_ok :
    (id : Bytes) (sequence : ℕ) (p : ReliablePacket) (a : Aead) {packet : Bytes}
    → marshal_reliable id sequence p (some a) ≡ ok packet
    → (0 < sequence)
      × (valid_pairwise_cipher (some a) ≡ true)
      × (validate_reliable_body p ≡ ok tt)
      × (packet
          ≡ seal_session
              (some a)
              (append_session_header [] packet_reliable id sequence ++ reliable_plaintext p))
unfolding marshal_reliable
marshal_reliable_ok id sequence p a e = elim (Result-cases (validate_reliable_body p)) [
  | inr (_, refused) ↦ absurd (ground (arith, refused))
  | inl (done, passed) ↦
      (ground (arith, passed), ground (arith, passed), passed, ground (arith, passed))
]

parse_reliable_steps :
    (packet id : Bytes) (a : Aead) (h : SessionHeader) (opened : Bytes) (p : ReliablePacket)
    → (75 ≤ length packet) × (length packet ≤ max_bridge_inner_size)
    → valid_pairwise_cipher (some a) ≡ true
    → parse_session_header packet ≡ ok h
    → (h.kind ≡ packet_reliable) × (list_eq h.session_id id ≡ true)
    → open_session (some a) packet ≡ some opened
    → 30 ≤ length opened
    → read_reliable opened ≡ p
    → validate_reliable_body p ≡ ok tt
    → parse_reliable packet id (some a) ≡ ok p
unfolding parse_reliable
parse_reliable_steps packet id a h opened p size cipher header same text long read passed =
    let read_passed : validate_reliable_body (read_reliable opened) ≡ ok tt = rw read passed in
    ground (arith, read_passed)

-- Under a lawful cipher, where the session id is 16 bytes that are not all zero and the sequence and
-- the packet's fields fit their widths, a reliable packet that is written is read back as it was.
pub parse_reliable-marshal_reliable :
    (a : Aead) (id : Bytes) (sequence : ℕ) (p : ReliablePacket) {packet : Bytes}
    → IsAead a
    → length id ≡ 16
    → list_eq id zero16 ≡ false
    → sequence < 2 ^ 64
    → Fits p
    → marshal_reliable id sequence p (some a) ≡ ok packet
    → parse_reliable packet id (some a) ≡ ok p
parse_reliable-marshal_reliable a id sequence p {packet} w size set fits f e =
    let (positive, cipher, passed, here) = marshal_reliable_ok id sequence p a e in
    let body : Bytes = reliable_plaintext p in
    let h : SessionHeader = record {
      kind = packet_reliable;
      session_id = id;
      packet_sequence = sequence;
    } in
    let v : IsHeader h = record {
      id_size = size;
      id_set = set;
      sequence_set = positive;
      sequence_fits = fits;
      kind_known = unfold valid_session_packet_type in refl;
    } in
    let long = length-seal_session a h w v body in
    parse_reliable_steps packet id a h body p
      (
        omega (
          arith,
          ap length here,
          long,
          pairwise_overhead a cipher,
          length-reliable_plaintext p,
          payload_limit p passed,
        ),
        omega (
          arith,
          ap length here,
          long,
          pairwise_overhead a cipher,
          length-reliable_plaintext p,
          payload_limit p passed,
        ),
      )
      cipher (rw here (parse_session_header-seal_session a h w v body)) (refl, list_eq_self id)
      (rw here (open_session-seal_session a h w v body))
      (omega (arith, length-reliable_plaintext p)) (read_reliable-reliable_plaintext p f) passed

reliable_plaintext-read_reliable :
    (opened : Bytes)
    → All IsByte opened
    → 30 ≤ length opened
    → reliable_plaintext (read_reliable opened) ≡ opened
reliable_plaintext-read_reliable opened b long =
    rw
      (
        word 0 2 (omega arith),
        word 2 8 (omega arith),
        word 10 2 (omega arith),
        word 12 2 (omega arith),
        word 14 8 (omega arith),
        word 22 8 (omega arith),
      )
      (sym (
        next 0 2 2 refl (
          next 2 8 10 refl
            (next 10 2 12 refl (next 12 2 14 refl (next 14 8 22 refl (next 22 8 30 refl refl)))))))
  where
    next :
        (a n k : ℕ) {rest : Bytes}
        → k ≡ a + n
        → drop k opened ≡ rest
        → drop a opened ≡ take n (drop a opened) ++ rest
    next a n k h e = drop_field a n k opened h ∙ ap (λ t. take n (drop a opened) ++ t) e

    word :
        (a n : ℕ)
        → a + n ≤ length opened
        → be_put n (be_get (take n (drop a opened))) ≡ take n (drop a opened)
    word a n h =
        be_put-be_get n (take n (drop a opened)) (length-field a n opened h)
          (All-take IsByte n (drop a opened) (All-drop IsByte a opened b))

-- What `ParseReliable` has established when it answers.
parse_reliable_ok :
    (packet id : Bytes) (a : Aead) {p : ReliablePacket}
    → parse_reliable packet id (some a) ≡ ok p
    → (h : SessionHeader) × (opened : Bytes) × (parse_session_header packet ≡ ok h)
      × ((h.kind ≡ packet_reliable) × (h.session_id ≡ id))
      × (valid_pairwise_cipher (some a) ≡ true)
      × (open_session (some a) packet ≡ some opened)
      × (30 ≤ length opened)
      × (read_reliable opened ≡ p)
      × (validate_reliable_body p ≡ ok tt)
unfolding parse_reliable
parse_reliable_ok packet id a e = elim (Result-cases (parse_session_header packet)) [
  | inr (_, refused) ↦ absurd (ground (arith, refused))
  | inl (h, header) ↦ elim (Option-cases (open_session (some a) packet)) [
    | inl shut ↦ absurd (ground (arith, header, shut))
    | inr (opened, text) ↦ elim (Result-cases (validate_reliable_body (read_reliable opened))) [
      | inr (_, refused) ↦ absurd (ground (arith, header, text, refused))
      | inl (done, passed) ↦ (
        h,
        opened,
        header,
        (
          ground (arith, header, text, passed),
          list_eq→eq h.session_id id (ground (arith, header, text, passed)),
        ),
        ground (arith, header, text, passed),
        text,
        ground (arith, header, text, passed),
        ground (arith, header, text, passed),
        subst (λ q. validate_reliable_body q ≡ ok tt) (ground (arith, header, text, passed)) passed,
      )
    ]
  ]
]

marshal_reliable_steps :
    (id : Bytes) (sequence : ℕ) (p : ReliablePacket) (a : Aead)
    → 0 < sequence
    → valid_pairwise_cipher (some a) ≡ true
    → validate_reliable_body p ≡ ok tt
    → marshal_reliable id sequence p (some a)
      ≡ ok (
          seal_session
            (some a)
            (append_session_header [] packet_reliable id sequence ++ reliable_plaintext p))
unfolding marshal_reliable
marshal_reliable_steps id sequence p a positive cipher passed = ground (arith, passed)

-- Under a lawful cipher, a packet of bytes that `parse_reliable` reads has a header with the expected
-- session id, and `marshal_reliable` on its sequence and the fields read writes the same packet.
pub marshal_reliable-parse_reliable :
    (a : Aead) (packet id : Bytes) {p : ReliablePacket}
    → IsAead a
    → All IsByte packet
    → parse_reliable packet id (some a) ≡ ok p
    → (h : SessionHeader) × (parse_session_header packet ≡ ok h)
      × (h.session_id ≡ id)
      × (marshal_reliable id h.packet_sequence p (some a) ≡ ok packet)
marshal_reliable-parse_reliable a packet id {p} w b e =
    let (h, opened, header, same, cipher, text, long, read, passed) =
      parse_reliable_ok packet id a e in
    let (v, here) = seal_session-open_session a h packet opened w b header text in
    let plain : reliable_plaintext p ≡ opened =
      ap reliable_plaintext (sym read)
      ∙ reliable_plaintext-read_reliable opened (opened_bytes a packet opened w b text) long in
    (
      h,
      header,
      same.1,
      marshal_reliable_steps id h.packet_sequence p a v.sequence_set cipher passed
          ∙ ap ok (rw (plain, ← same.0, ← same.1) (sym here)),
    )
