-- ===== src/Protocol/Hello/RoundTrip.antt =====
-- A hello that is written is read back by whoever holds the same admission key, and a hello that is
-- read ends in the key's own MAC over everything before it.
use bork.Base.{
  ℕ, ◌+◌, ◌-◌, ◌≡◌, refl, sym, ap, subst, ◌∙◌, inl, inr, true, false, [], ◌++◌, length,
  length-append, take, drop, take-append, drop-drop, drop-append, take-append-drop, append_assoc,
  list_eq, list_eq_self, list_eq→eq, Result-cases, ok, arith,
}
use bork.Base.Bytes.{Bytes}
use bork.Protocol.Wire.{
  packet_hello_probe, packet_session_hello, zero16, append_prefix, parse_prefix,
}
use bork.Protocol.Hello.{
  SessionHello, zero32, append_admission_mac, valid_admission_mac, marshal_hello_probe,
  parse_hello_probe, marshal_session_hello, read_session_hello, parse_session_hello,
}

-- A packet behind its prefix.
prefixed :
    (kind : ℕ) (rest : Bytes)
    → (parse_prefix (append_prefix [] kind ++ rest) ≡ ok kind)
      × (drop 5 (append_prefix [] kind ++ rest) ≡ rest)
      × (length (append_prefix [] kind ++ rest) ≡ 5 + length rest)
unfolding parse_prefix append_prefix list_eq
prefixed kind rest = (ground arith, refl, omega arith)

module _ (mac : Bytes → Bytes → Bytes) (mac_size : (k m : Bytes) → length (mac k m) ≡ 32)
    (key : Bytes) where
  valid-append_admission_mac :
      (packet : Bytes) → valid_admission_mac mac (append_admission_mac mac packet key) key ≡ true
  unfolding valid_admission_mac append_admission_mac
  valid-append_admission_mac packet =
      let cut : length (packet ++ mac key packet) - 32 ≡ length packet =
        omega (arith, length-append packet (mac key packet), mac_size key packet) in
      rw
        (
          cut,
          drop-append (length packet) packet (mac key packet) refl,
          take-append (length packet) packet (mac key packet) refl,
        )
        (list_eq_self (mac key packet))

  -- The parts of a packet that `appendAdmissionMAC` has closed.
  closed :
      (kind : ℕ) (rest : Bytes)
      → let packet = append_admission_mac mac (append_prefix [] kind ++ rest) key in
        (parse_prefix packet ≡ ok kind)
        × (drop 5 packet ≡ rest ++ mac key (append_prefix [] kind ++ rest))
        × (length packet ≡ 37 + length rest)
        × (valid_admission_mac mac packet key ≡ true)
  unfolding append_admission_mac
  closed kind rest =
      let plain : Bytes = append_prefix [] kind ++ rest in
      let m : Bytes = mac key plain in
      let (tag, back, size) = prefixed kind (rest ++ m) in
      let same = append_assoc (append_prefix [] kind) rest m in
      (
        rw same tag,
        rw same back,
        rw same (omega (arith, size, length-append rest m, mac_size key plain)),
        valid-append_admission_mac plain,
      )

  probe_steps :
      (packet rest : Bytes)
      → length packet ≡ 53
      → parse_prefix packet ≡ ok packet_hello_probe
      → valid_admission_mac mac packet key ≡ true
      → take 16 (drop 5 packet) ≡ rest
      → list_eq rest zero16 ≡ false
      → parse_hello_probe mac packet key ≡ ok rest
  unfolding parse_hello_probe
  probe_steps packet rest size tag good read set = ground arith

  -- Where the MAC is 32 bytes and the peer id 16, a probe that `marshal_hello_probe` writes is read back,
  -- under the same key, as that peer id.
  pub parse_hello_probe-marshal_hello_probe :
      (peer_id : Bytes) {packet : Bytes}
      → length peer_id ≡ 16
      → marshal_hello_probe mac key peer_id ≡ ok packet
      → parse_hello_probe mac packet key ≡ ok peer_id
  unfolding marshal_hello_probe
  parse_hello_probe-marshal_hello_probe peer_id {packet} wide e =
      let plain : Bytes = append_prefix [] packet_hello_probe ++ peer_id in
      let made : packet ≡ append_admission_mac mac plain key = ground arith in
      let (tag, back, size, good) = closed packet_hello_probe peer_id in
      rw made (
        probe_steps (append_admission_mac mac plain key) peer_id (omega (arith, size)) tag good
          (ap (take 16) back ∙ take-append 16 peer_id (mac key plain) wide) (ground arith))

  session_steps :
      (packet : Bytes) (hello : SessionHello)
      → length packet ≡ 101
      → parse_prefix packet ≡ ok packet_session_hello
      → valid_admission_mac mac packet key ≡ true
      → read_session_hello mac packet ≡ hello
      → (list_eq hello.session_id zero16 ≡ false)
        × (list_eq hello.peer_id zero16 ≡ false)
        × (list_eq hello.ephemeral_key zero32 ≡ false)
      → parse_session_hello mac packet key ≡ ok hello
  unfolding parse_session_hello
  session_steps packet hello size tag good read set =
      subst
        (λ t.
          (list_eq t.session_id zero16 ≡ false)
            × (list_eq t.peer_id zero16 ≡ false)
            × (list_eq t.ephemeral_key zero32 ≡ false)
          → parse_session_hello mac packet key ≡ ok t)
        read (λ h. ground arith) set

  -- Where the MAC is 32 bytes, the ids 16 and the ephemeral key 32, a session hello that is written is
  -- read back, under the same key, with its fields and the packet itself as its wire form.
  pub parse_session_hello-marshal_session_hello :
      (peer_id session_id ephemeral_key : Bytes) {packet : Bytes}
      → length peer_id ≡ 16
      → length session_id ≡ 16
      → length ephemeral_key ≡ 32
      → marshal_session_hello mac key peer_id session_id ephemeral_key ≡ ok packet
      → parse_session_hello mac packet key
        ≡ ok (record {
          session_id = session_id;
          peer_id = peer_id;
          ephemeral_key = ephemeral_key;
          wire = packet;
        })
  unfolding marshal_session_hello
  parse_session_hello-marshal_session_hello peer_id session_id ephemeral_key {packet} p s k e =
      let rest : Bytes = session_id ++ (peer_id ++ ephemeral_key) in
      let plain : Bytes = append_prefix [] packet_session_hello ++ rest in
      let m : Bytes = mac key plain in
      let closed_packet : Bytes = append_admission_mac mac plain key in
      let made : packet ≡ closed_packet = ground arith in
      let (tag, back, size, good) = closed packet_session_hello rest in
      let tail : drop 5 closed_packet ≡ session_id ++ (peer_id ++ (ephemeral_key ++ m)) =
        back
        ∙ append_assoc session_id (peer_id ++ ephemeral_key) m
        ∙ ap (λ t. session_id ++ t) (append_assoc peer_id ephemeral_key m) in
      let middle : drop 21 closed_packet ≡ peer_id ++ (ephemeral_key ++ m) =
        sym (drop-drop 5 16 21 closed_packet refl)
        ∙ ap (drop 16) tail
        ∙ drop-append 16 session_id (peer_id ++ (ephemeral_key ++ m)) s in
      let last : drop 37 closed_packet ≡ ephemeral_key ++ m =
        sym (drop-drop 21 16 37 closed_packet refl)
        ∙ ap (drop 16) middle
        ∙ drop-append 16 peer_id (ephemeral_key ++ m) p in
      rw made (
        session_steps closed_packet _
          (omega (
            arith,
            size,
            length-append session_id (peer_id ++ ephemeral_key),
            length-append peer_id ephemeral_key,
          ))
          tag good
          (rw (
            tail,
            middle,
            last,
            take-append 16 session_id (peer_id ++ (ephemeral_key ++ m)) s,
            take-append 16 peer_id (ephemeral_key ++ m) p,
            take-append 32 ephemeral_key m k,
          ))
          (ground arith, ground arith, ground arith))

closing :
    (mac : Bytes → Bytes → Bytes) (key packet : Bytes)
    → length packet ≡ 101
    → valid_admission_mac mac packet key ≡ true
    → drop 69 packet ≡ mac key (take 69 packet)
unfolding valid_admission_mac
closing mac key packet size good =
    let cut : length packet - 32 ≡ 69 = omega (arith, size) in list_eq→eq _ _ (rw cut at good)

-- A packet that `parse_session_hello` takes is 101 bytes, ends in the admission MAC of its first 69
-- bytes, and the hello is what stands at the fixed places of the packet.
pub parse_session_hello-authentic :
    (mac : Bytes → Bytes → Bytes) (key packet : Bytes) {hello : SessionHello}
    → parse_session_hello mac packet key ≡ ok hello
    → (length packet ≡ 101)
      × (packet ≡ append_admission_mac mac (take 69 packet) key)
      × (hello ≡ read_session_hello mac packet)
unfolding parse_session_hello append_admission_mac
parse_session_hello-authentic mac key packet {hello} e = elim (Result-cases (parse_prefix packet)) [
  | inr (_, bad) ↦ absurd (ground (arith, bad))
  | inl (kind, tag) ↦
      let size : length packet ≡ 101 = ground (arith, tag) in
      let good : valid_admission_mac mac packet key ≡ true = ground (arith, tag) in
      (
        size,
        sym (take-append-drop 69 packet)
            ∙ ap (λ t. take 69 packet ++ t) (closing mac key packet size good),
        ground (arith, tag),
      )
]
