-- ===== src/Protocol/Bridge/RoundTrip.antt =====
-- A bridged packet comes out of its wrapping whole, for the target and priority that it went in with.
use bork.Base.{
  ℕ, ◌+◌, ◌^◌, ◌≡◌, ◌≤◌, refl, ap, ◌∙◌, ◌<◌, inl, inr, Bool, true, false, ◌==◌, some, [], ◌++◌,
  length, length-append, take-append, drop-append, list_eq, list_eq_self, Result-cases, ok, arith,
}
use bork.Base.Bytes.{Bytes}
use bork.Protocol.Aead.{Aead, IsAead}
use bork.Protocol.Sealed.{
  seal_session, open_session, open_session-seal_session, parse_session_header-seal_session,
  length-seal_session, pairwise_overhead,
}
use bork.Protocol.Wire.{
  packet_bridge_low_priority, zero16, SessionHeader, append_session_header, valid_pairwise_cipher,
  parse_prefix, valid_packet_size, valid_session_packet_type, parse_session_header,
}
use bork.Protocol.Wire.Headers.{IsHeader}
use bork.Protocol.Bridge.{
  valid_bridge_fields, valid_bridge_inner, bridge_type, marshal_bridge, parse_bridge_body,
  valid_bridge_header, parse_bridge,
}

-- What an inner packet that passes weighs: at least an empty control packet, and at least a
-- reliable packet where the priority is low.
inner_size :
    (inner : Bytes) (low_priority : Bool)
    → valid_bridge_inner inner low_priority ≡ true
    → (45 ≤ length inner) × (low_priority ≡ true → 75 ≤ length inner) × (length inner ≤ 1139)
unfolding valid_bridge_inner valid_packet_size
inner_size inner low_priority e = elim (Result-cases (parse_prefix inner)) [
  | inr (_, bad) ↦ absurd (ground (arith, bad))
  | inl (kind, good) ↦
      (ground (arith, good), λ low. ground (arith, good, low), ground (arith, good))
]

marshal_bridge_ok :
    (id : Bytes) (sequence : ℕ) (target : Bytes) (low_priority : Bool) (inner : Bytes) (a : Aead)
    {packet : Bytes}
    → marshal_bridge id sequence target low_priority inner (some a) ≡ ok packet
    → (valid_bridge_fields id sequence target (length inner) ≡ true)
      × (valid_pairwise_cipher (some a) ≡ true)
      × (valid_bridge_inner inner low_priority ≡ true)
      × (packet
          ≡ seal_session (some a) (
              append_session_header [] (bridge_type low_priority) id sequence ++ (target ++ inner)))
unfolding marshal_bridge
marshal_bridge_ok id sequence target low_priority inner a e = ground arith

bridge_fields :
    (id : Bytes) (sequence : ℕ) (target : Bytes) (n : ℕ)
    → valid_bridge_fields id sequence target n ≡ true
    → (list_eq id zero16 ≡ false) × (0 < sequence) × (list_eq target zero16 ≡ false)
unfolding valid_bridge_fields
bridge_fields id sequence target n e = ground arith

bridge_type_known :
    (low_priority : Bool) → valid_session_packet_type (bridge_type low_priority) ≡ true
unfolding valid_session_packet_type
bridge_type_known true = refl
bridge_type_known false = refl

bridge_size :
    (low_priority : Bool) (n : ℕ)
    → (45 ≤ n) × (low_priority ≡ true → 75 ≤ n) × (n ≤ 1139)
    → valid_packet_size (bridge_type low_priority) (29 + (16 + n) + 16) ≡ true
unfolding valid_packet_size
bridge_size true n h = ground (arith, h.1 refl)
bridge_size false n h = ground arith

parse_bridge_body-append :
    (target inner : Bytes) (low_priority : Bool)
    → length target ≡ 16
    → list_eq target zero16 ≡ false
    → valid_bridge_inner inner low_priority ≡ true
    → parse_bridge_body (target ++ inner) low_priority
      ≡ ok (record { target = target; low_priority = low_priority; inner = inner })
unfolding parse_bridge_body
parse_bridge_body-append target inner low_priority size set v = ground (
  arith,
  length-append target inner,
  take-append 16 target inner size,
  drop-append 16 target inner size,
)

low_type :
    (low_priority : Bool) → (bridge_type low_priority == packet_bridge_low_priority) ≡ low_priority
low_type true = refl
low_type false = refl

parse_bridge_steps :
    (packet id : Bytes) (a : Aead) (h : SessionHeader) (opened : Bytes)
    → valid_pairwise_cipher (some a) ≡ true
    → parse_session_header packet ≡ ok h
    → valid_bridge_header h id (length packet) ≡ true
    → open_session (some a) packet ≡ some opened
    → parse_bridge packet id (some a)
      ≡ parse_bridge_body opened (h.kind == packet_bridge_low_priority)
unfolding parse_bridge
parse_bridge_steps packet id a h opened cipher header known text = ground arith

-- Under a lawful cipher, where the session id and the target are 16 bytes and the sequence fits 64 bits,
-- a bridge packet that is written is read back with its target, its priority and its inner packet.
pub parse_bridge-marshal_bridge :
    (a : Aead) (id : Bytes) (sequence : ℕ) (target : Bytes) (low_priority : Bool) (inner : Bytes)
    {packet : Bytes}
    → IsAead a
    → length id ≡ 16
    → sequence < 2 ^ 64
    → length target ≡ 16
    → marshal_bridge id sequence target low_priority inner (some a) ≡ ok packet
    → parse_bridge packet id (some a)
      ≡ ok (record { target = target; low_priority = low_priority; inner = inner })
parse_bridge-marshal_bridge a id sequence target low_priority inner {packet} w size fits wide e =
    let (fields, cipher, fine, here) =
      marshal_bridge_ok id sequence target low_priority inner a e in
    let (set, positive, target_set) = bridge_fields id sequence target (length inner) fields in
    let body : Bytes = target ++ inner in
    let h : SessionHeader = record {
      kind = bridge_type low_priority;
      session_id = id;
      packet_sequence = sequence;
    } in
    let v : IsHeader h = record {
      id_size = size;
      id_set = set;
      sequence_set = positive;
      sequence_fits = fits;
      kind_known = bridge_type_known low_priority;
    } in
    let long : length packet ≡ 29 + (16 + length inner) + 16 = omega (
      arith,
      ap length here,
      length-seal_session a h w v body,
      length-append target inner,
      pairwise_overhead a cipher,
    ) in
    let sized : valid_packet_size (bridge_type low_priority) (length packet) ≡ true =
      rw long (bridge_size low_priority (length inner) (inner_size inner low_priority fine)) in
    parse_bridge_steps packet id a h body cipher
      (rw here (parse_session_header-seal_session a h w v body))
      (header_known low_priority id sequence (length packet) sized)
      (rw here (open_session-seal_session a h w v body))
    ∙ ap (parse_bridge_body body) (low_type low_priority)
    ∙ parse_bridge_body-append target inner low_priority wide target_set fine
  where
    header_known :
        (low : Bool) (i : Bytes) (n size : ℕ)
        → valid_packet_size (bridge_type low) size ≡ true
        → valid_bridge_header
            (record { kind = bridge_type low; session_id = i; packet_sequence = n })
            i
            size
          ≡ true
    header_known true i n size s = unfold valid_bridge_header in ground (arith, list_eq_self i)
    header_known false i n size s = unfold valid_bridge_header in ground (arith, list_eq_self i)
