-- ===== src/Endpoint/Stun/Ends.antt =====
-- The loop over the attributes ends: as many rounds as bytes are enough.
use bork.Base.{
  ℕ, zero, suc, ◌+◌, ◌≡◌, ◌≢◌, ◌≤◌, ◌⊎◌, refl, inl, inr, Bool, true, [], ◌∷◌, length, length-drop,
  take, drop, Option, none, some, Result, ok, err, Result-cases, arith,
}
use bork.Base.Bytes.{Bytes, be_get}
use bork.Topology.{AddrPort}
use bork.Endpoint.Stun.{
  StunError, out_of_rounds, mapped_ip, parse_mapped_address, found, note_mapped, padded,
  read_attributes, check_response, parse_binding_response,
}

-- An answer that is not for want of rounds.
abbrev IsAnswered {ℓ} : {A : Type ℓ} → Result StunError A → Type ℓ
IsAnswered r = r ≢ err out_of_rounds

mapped_ip-IsAnswered :
    (value transaction : Bytes) (xor : Bool) → IsAnswered (mapped_ip value transaction xor)
unfolding mapped_ip
mapped_ip-IsAnswered value transaction xor e = ground (arith, e)

parse_mapped_address-IsAnswered :
    (value transaction : Bytes) (xor : Bool)
    → IsAnswered (parse_mapped_address value transaction xor)
unfolding parse_mapped_address
parse_mapped_address-IsAnswered value transaction xor e =
    ground (arith, e, mapped_ip-IsAnswered value transaction xor)

check_response-IsAnswered :
    (message transaction : Bytes) → IsAnswered (check_response message transaction)
unfolding check_response
check_response-IsAnswered message transaction e = ground (arith, e)

found-IsAnswered : (mapped : Option AddrPort) → IsAnswered (found mapped)
found-IsAnswered none e = ground (arith, e)
found-IsAnswered (some a) e = ground (arith, e)

-- Each round takes 4 bytes or more, so rounds for all bytes do not run out.
read_attributes-IsAnswered :
    (rounds : ℕ) (transaction : Bytes) (mapped : Option AddrPort) (rest : Bytes)
    → length rest ≤ rounds
    → IsAnswered (read_attributes rounds transaction mapped rest)
unfolding read_attributes
read_attributes-IsAnswered zero transaction mapped [] h e = found-IsAnswered mapped e
read_attributes-IsAnswered zero transaction mapped (b ∷ bs) h e = absurd (omega (arith, h))
read_attributes-IsAnswered (suc rounds) transaction mapped [] h e = found-IsAnswered mapped e
read_attributes-IsAnswered (suc rounds) transaction mapped (b ∷ bs) h e =
    let kind : ℕ = be_get (take 2 (b ∷ bs)) in
    let size : ℕ = be_get (take 2 (drop 2 (b ∷ bs))) in
    let value : Bytes = take size (drop 4 (b ∷ bs)) in
    let later =
      read_attributes-IsAnswered rounds transaction (note_mapped kind value transaction mapped)
        (drop (4 + padded size) (b ∷ bs))
        (omega (arith, h, length-drop (4 + padded size) (b ∷ bs))) in
    ground (arith, e, later, parse_mapped_address-IsAnswered value transaction true)

-- For every message and transaction, `parse_binding_response` gives an address or an error of the source:
-- the rounds that it gives its loop over the attributes, one for each byte, do not run out.
pub parse_binding_response_ends :
    (message transaction : Bytes)
    → ((a : AddrPort) × (parse_binding_response message transaction ≡ ok a))
      ⊎ ((e : StunError) × (parse_binding_response message transaction ≡ err e)
          × (e ≢ out_of_rounds))
unfolding parse_binding_response
parse_binding_response_ends message transaction =
    let size = length-drop 20 message in
    let loop =
      read_attributes-IsAnswered (length message) transaction none (drop 20 message)
        (omega (arith, size)) in
    elim (Result-cases (check_response message transaction)) [
      | inr (e, refused) ↦
          inr (e, rw refused refl, λ same. check_response-IsAnswered message transaction (cc))
      | inl (done, passed) ↦
          elim (Result-cases
            (read_attributes (length message) transaction none (drop 20 message))) [
              | inl (a, read) ↦ inl (a, rw (passed, read) refl)
              | inr (e, failed) ↦ inr (e, rw (passed, failed) refl, λ same. loop (cc))
            ]
    ]
