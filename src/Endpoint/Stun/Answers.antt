-- ===== src/Endpoint/Stun/Answers.antt =====
-- What a binding response must be to give an address.
use bork.Base.{
  ℕ, zero, suc, ◌+◌, ◌%◌, ◌≡◌, ◌⊎◌, refl, ap, subst, inl, inr, Bool, true, false, ◌==◌, ltb, [],
  ◌∷◌, length, length-drop, take, drop, get_or, list_eq→eq, Option, none, some, ok, Bool-cases,
  Result-cases, arith,
}
use bork.Base.Bytes.{Bytes, be_get}
use bork.Topology.{AddrPort, unmap, is_valid}
use bork.Endpoint.Stun.{
  stun_mapped_address, stun_xor_mapped_address, stun_binding_success, stun_magic_cookie, xor_bytes,
  unmask, mapped_ip, mapped_port, parse_mapped_address, found, note_mapped, padded, read_attributes,
  check_response, parse_binding_response,
}

-- An address that may be used: 4 or 16 bytes and a port.
pub record IsUsable (a : AddrPort) : Type 0 where
  pub valid : is_valid a ≡ true
  pub port_set : (a.port == 0) ≡ false

length-xor_bytes : (bs mask : Bytes) → length (xor_bytes bs mask) ≡ length bs
unfolding xor_bytes
length-xor_bytes [] mask = refl
length-xor_bytes (b ∷ bs) [] = refl
length-xor_bytes (b ∷ bs) (m ∷ ms) = omega (arith, length-xor_bytes bs ms)

length-unmask :
    (xor : Bool) (transaction bytes : Bytes) → length (unmask xor transaction bytes) ≡ length bytes
length-unmask true transaction bytes = length-xor_bytes bytes _
length-unmask false transaction bytes = refl

mapped_ip-length :
    (value transaction : Bytes) (xor : Bool) {ip : Bytes}
    → mapped_ip value transaction xor ≡ ok ip
    → (length ip ≡ 4) ⊎ (length ip ≡ 16)
unfolding mapped_ip
mapped_ip-length value transaction xor {ip} e =
    let size = length-unmask xor transaction (drop 4 value) in
    let rest = length-drop 4 value in
    elim (Bool-cases (get_or value 1 0 == 1)) [
      | inl four ↦
          let long : length value ≡ 8 = ground (arith, four, e) in
          let same : unmask xor transaction (drop 4 value) ≡ ip = ground (arith, four, e) in
          inl (omega (arith, ap length same, size, rest, long))
      | inr other ↦
          let long : length value ≡ 20 = ground (arith, other, e) in
          let same : unmask xor transaction (drop 4 value) ≡ ip = ground (arith, other, e) in
          inr (omega (arith, ap length same, size, rest, long))
    ]

unmap-IsUsable :
    (a : AddrPort)
    → (length a.ip ≡ 4) ⊎ (length a.ip ≡ 16)
    → (a.port == 0) ≡ false
    → IsUsable (unmap a)
unfolding unmap
unmap-IsUsable a size set = record {
  valid = ground (arith, size, length-drop 12 a.ip);
  port_set = ground (arith, set);
}

parse_mapped_address-IsUsable :
    (value transaction : Bytes) (xor : Bool) {a : AddrPort}
    → parse_mapped_address value transaction xor ≡ ok a
    → IsUsable a
unfolding parse_mapped_address
parse_mapped_address-IsUsable value transaction xor {a} e =
    elim (Result-cases (mapped_ip value transaction xor)) [
      | inr (_, refused) ↦ absurd (ground (arith, refused, e))
      | inl (ip, known) ↦
          let raw : AddrPort = record { ip = ip; zone = []; port = mapped_port value xor } in
          let set : (mapped_port value xor == 0) ≡ false = ground (arith, known, e) in
          let same : unmap raw ≡ a = ground (arith, known, e) in
          subst IsUsable same
            (unmap-IsUsable raw (mapped_ip-length value transaction xor known) set)
    ]

-- The address noted so far, if any, may be used.
abbrev IsNoted : Option AddrPort → Type 0
IsNoted none = Unit {0}
IsNoted (some a) = IsUsable a

note_mapped-IsNoted :
    (kind : ℕ) (value transaction : Bytes) (mapped : Option AddrPort)
    → IsNoted mapped
    → IsNoted (note_mapped kind value transaction mapped)
unfolding note_mapped
note_mapped-IsNoted kind value transaction mapped v =
    elim (Bool-cases (kind == stun_mapped_address)) [
      | inr other ↦ rw (other, note_mapped) v
      | inl hit ↦ elim (Result-cases (parse_mapped_address value transaction false)) [
        | inl (a, read) ↦
            rw (hit, note_mapped, read) (parse_mapped_address-IsUsable value transaction false read)
        | inr (e, refused) ↦ rw (hit, note_mapped, refused) v
      ]
    ]

found-IsUsable :
    (mapped : Option AddrPort) {a : AddrPort} → IsNoted mapped → found mapped ≡ ok a → IsUsable a
found-IsUsable none v e = absurd (ground (arith, e))
found-IsUsable (some b) v e = subst IsUsable (ground (arith, e)) v

read_attributes-IsUsable :
    (rounds : ℕ) (transaction : Bytes) (mapped : Option AddrPort) (rest : Bytes) {a : AddrPort}
    → IsNoted mapped
    → read_attributes rounds transaction mapped rest ≡ ok a
    → IsUsable a
unfolding read_attributes
read_attributes-IsUsable zero transaction mapped [] v e = found-IsUsable mapped v e
read_attributes-IsUsable zero transaction mapped (b ∷ bs) v e = absurd (ground (arith, e))
read_attributes-IsUsable (suc rounds) transaction mapped [] v e = found-IsUsable mapped v e
read_attributes-IsUsable (suc rounds) transaction mapped (b ∷ bs) v e =
    let kind : ℕ = be_get (take 2 (b ∷ bs)) in
    let size : ℕ = be_get (take 2 (drop 2 (b ∷ bs))) in
    let value : Bytes = take size (drop 4 (b ∷ bs)) in
    elim (Bool-cases (ltb (length (b ∷ bs)) 4)) [
      | inl short ↦ absurd (ground (arith, short, e))
      | inr head ↦ elim (Bool-cases (ltb (length (b ∷ bs)) (4 + size))) [
        | inl short ↦ absurd (ground (arith, head, short, e))
        | inr whole ↦ elim (Bool-cases (kind == stun_xor_mapped_address)) [
          | inl xored ↦
              parse_mapped_address-IsUsable value transaction true
                (ground (arith, head, whole, xored, e))
          | inr other ↦ elim (Bool-cases (ltb (length (b ∷ bs)) (4 + padded size))) [
            | inl short ↦ absurd (ground (arith, head, whole, other, short, e))
            | inr room ↦
                read_attributes-IsUsable rounds transaction
                  (note_mapped kind value transaction mapped) (drop (4 + padded size) (b ∷ bs))
                  (note_mapped-IsNoted kind value transaction mapped v)
                  (ground (arith, head, whole, other, room, e))
          ]
        ]
      ]
    ]

-- A success response to the transaction, as long as it declares.
pub record IsResponse (message transaction : Bytes) : Type 0 where
  pub kind : be_get (take 2 message) ≡ stun_binding_success
  pub cookie : be_get (take 4 (drop 4 message)) ≡ stun_magic_cookie
  pub same_transaction : take 12 (drop 8 message) ≡ transaction
  pub whole : 20 + be_get (take 2 (drop 2 message)) ≡ length message
  pub aligned : be_get (take 2 (drop 2 message)) % 4 ≡ 0

check_response-IsResponse :
    (message transaction : Bytes)
    → check_response message transaction ≡ ok tt
    → IsResponse message transaction
unfolding check_response
check_response-IsResponse message transaction e = record {
  kind = ground (arith, e);
  cookie = ground (arith, e);
  same_transaction = list_eq→eq (take 12 (drop 8 message)) transaction (ground (arith, e));
  whole = ground (arith, e);
  aligned = ground (arith, e);
}

-- A message for which `parse_binding_response` gives an address is a success response with the magic
-- cookie and the transaction asked for, exactly as long as its header declares and that a multiple of 4,
-- and the address has 4 or 16 bytes and a port that is not zero.
pub parse_binding_response-IsResponse :
    (message transaction : Bytes) {a : AddrPort}
    → parse_binding_response message transaction ≡ ok a
    → IsResponse message transaction × IsUsable a
unfolding parse_binding_response
parse_binding_response-IsResponse message transaction e =
    elim (Result-cases (check_response message transaction)) [
      | inr (_, refused) ↦ absurd (ground (arith, refused, e))
      | inl (done, passed) ↦ (
        check_response-IsResponse message transaction passed,
        read_attributes-IsUsable (length message) transaction none (drop 20 message) tt
            (ground (arith, passed, e)),
      )
    ]
