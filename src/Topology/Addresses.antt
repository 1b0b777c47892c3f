-- ===== src/Topology/Addresses.antt =====
-- Addresses that are written are read back.
use bork.Base.{
  ℕ, suc, ◌^◌, ◌≡◌, ◌≤◌, ◌<◌, ◌⊎◌, refl, sym, ap, ◌∙◌, inl, inr, Bool, true, false, ◌==◌, ◌&&◌,
  List, [], ◌∷◌, ◌++◌, append_assoc, append-nil, map, All, length, length-append, length-drop, take,
  drop, take-append, drop-append, get_or, ok, list_eq, Bool-cases, Result-cases, arith,
}
use bork.Base.Bytes.{Bytes, be_put, be_get, be_get-be_put}
use bork.Topology.{
  AddrPort, mapped_prefix, unmap, is_valid, address_bytes, append_address, append_addresses,
  parse_address, parse_addresses,
}

-- What the other side reads for an address: without its zone, and IPv4 as such.
abbrev pub canonical : AddrPort → AddrPort
canonical a = record (unmap a) { zone = [] }

abbrev is_mapped : Bytes → Bool
is_mapped ip = length ip == 16 && list_eq (take 12 ip) mapped_prefix

unmap_fixed : (a : AddrPort) → is_mapped (unmap a).ip ≡ false
unfolding unmap
unmap_fixed a = elim (Bool-cases (is_mapped a.ip)) [
  | inl mapped ↦ ground (arith, mapped, length-drop 12 a.ip)
  | inr other ↦ ground (arith, other)
]

unmap_self : (a : AddrPort) → is_mapped a.ip ≡ false → unmap a ≡ a
unfolding unmap
unmap_self a h = rw h refl

-- An address that is written.
pub record IsSendable (a : AddrPort) : Type 0 where
  pub valid : is_valid (unmap a) ≡ true
  pub port_set : ((unmap a).port == 0) ≡ false

port-unmap : (a : AddrPort) → (unmap a).port ≡ a.port
unfolding unmap
port-unmap a = ground arith

parse_address_steps :
    (input : Bytes) (family size port : ℕ) (ip rest : Bytes)
    → get_or input 0 0 ≡ family
    → ((family ≡ 4) × (size ≡ 4)) ⊎ ((family ≡ 6) × (size ≡ 16))
    → be_get (take 2 (drop 1 input)) ≡ port
    → 3 ≤ length input
    → (port == 0) ≡ false
    → size ≤ length (drop 3 input)
    → take size (drop 3 input) ≡ ip
    → drop size (drop 3 input) ≡ rest
    → parse_address input ≡ ok (unmap (record { ip = ip; zone = []; port = port }), rest)
unfolding parse_address
parse_address_steps input family size port ip rest kind (inl (four, small)) word head set long front
      back =
    let known : get_or input 0 0 ≡ 4 = kind ∙ four in
    let front' : take 4 (drop 3 input) ≡ ip = ap (λ n. take n (drop 3 input)) (sym small) ∙ front in
    let back' : drop 4 (drop 3 input) ≡ rest = ap (λ n. drop n (drop 3 input)) (sym small) ∙ back in
    rw (known, word, front', back') (ground (arith, head, set, long, small))
parse_address_steps input family size port ip rest kind (inr (six, small)) word head set long front
      back =
    let known : get_or input 0 0 ≡ 6 = kind ∙ six in
    let front' : take 16 (drop 3 input) ≡ ip =
      ap (λ n. take n (drop 3 input)) (sym small) ∙ front in
    let back' : drop 16 (drop 3 input) ≡ rest =
      ap (λ n. drop n (drop 3 input)) (sym small) ∙ back in
    rw (known, word, front', back') (ground (arith, head, set, long, small))

-- Reading one address, of either family.
parse_address_as :
    (family size port : ℕ) (ip rest : Bytes)
    → ((family ≡ 4) × (size ≡ 4)) ⊎ ((family ≡ 6) × (size ≡ 16))
    → length ip ≡ size
    → (port == 0) ≡ false
    → port < 256 ^ 2
    → parse_address ((family ∷ (be_put 2 port ++ ip)) ++ rest)
      ≡ ok (unmap (record { ip = ip; zone = []; port = port }), rest)
unfolding be_put
parse_address_as family size port ip rest kind long set fits =
    let word : be_get (be_put 2 port) ≡ port = be_get-be_put 2 port fits in
    parse_address_steps ((family ∷ (be_put 2 port ++ ip)) ++ rest) family size port ip rest refl
      kind word (omega arith) set (omega (arith, length-append ip rest, long))
      (take-append size ip rest long) (drop-append size ip rest long)

parse-address_bytes :
    (a : AddrPort) (rest : Bytes)
    → IsSendable a
    → a.port < 256 ^ 2
    → parse_address (address_bytes (unmap a) ++ rest) ≡ ok (canonical a, rest)
parse-address_bytes a rest v fits =
    let u : AddrPort = unmap a in
    let fits' : u.port < 256 ^ 2 = omega (arith, fits, port-unmap a) in
    let same = unmap_self (record u { zone = [] }) (unmap_fixed a) in
    elim (Bool-cases (length u.ip == 4)) [
      | inl four ↦
          rw four (
            parse_address_as 4 4 u.port u.ip rest (inl (refl, refl)) (ground (arith, four))
              v.port_set fits')
          ∙ ap (λ t. ok (t, rest)) same
      | inr other ↦
          rw other (
            parse_address_as 6 16 u.port u.ip rest (inr (refl, refl))
              (ground (arith, other, v.valid)) v.port_set fits')
          ∙ ap (λ t. ok (t, rest)) same
    ]

unfoldable pub addresses_bytes : List AddrPort → Bytes
addresses_bytes [] = []
addresses_bytes (a ∷ as') = address_bytes (unmap a) ++ addresses_bytes as'

-- What `append_addresses` does when it answers.
append_address_ok :
    (payload : Bytes) (a : AddrPort) {out : Bytes}
    → append_address payload a ≡ ok out
    → IsSendable a × (out ≡ payload ++ address_bytes (unmap a))
unfolding append_address
append_address_ok payload a e =
    (record { valid = ground (arith, e); port_set = ground (arith, e) }, ground (arith, e))

pub append_addresses_ok :
    (payload : Bytes) (as' : List AddrPort) {out : Bytes}
    → append_addresses payload as' ≡ ok out
    → All IsSendable as' × (out ≡ payload ++ addresses_bytes as')
unfolding append_addresses addresses_bytes
append_addresses_ok payload [] e = (tt, ground (arith, e, append-nil payload))
append_addresses_ok payload (a ∷ as') {out} e = elim (Result-cases (append_address payload a)) [
  | inr (_, refused) ↦ absurd (ground (arith, refused, e))
  | inl (payload', done) ↦
      let (sendable, here) = append_address_ok payload a done in
      let (others, there) = append_addresses_ok payload' as' (ground (arith, done, e)) in
      (
        (sendable, others),
        there
            ∙ (ap (λ t. t ++ addresses_bytes as') here
                ∙ append_assoc payload (address_bytes (unmap a)) (addresses_bytes as')),
      )
]

parse_addresses_step :
    (rounds : ℕ) (input rest rest' : Bytes) (a : AddrPort) (others : List AddrPort)
    → parse_address input ≡ ok (a, rest)
    → parse_addresses rounds rest ≡ ok (others, rest')
    → parse_addresses (suc rounds) input ≡ ok (a ∷ others, rest')
unfolding parse_addresses
parse_addresses_step rounds input rest rest' a others here there = ground (arith, here, there)

pub parse-addresses_bytes :
    (as' : List AddrPort) (rest : Bytes)
    → All IsSendable as'
    → All (λ a. a.port < 256 ^ 2) as'
    → parse_addresses (length as') (addresses_bytes as' ++ rest) ≡ ok (map canonical as', rest)
parse-addresses_bytes [] rest v fits = unfold parse_addresses addresses_bytes in refl
parse-addresses_bytes (a ∷ as') rest v fits =
    let split : addresses_bytes (a ∷ as') ++ rest
        ≡ address_bytes (unmap a) ++ (addresses_bytes as' ++ rest) =
      unfold addresses_bytes in append_assoc (address_bytes (unmap a)) (addresses_bytes as') rest in
    parse_addresses_step (length as') (addresses_bytes (a ∷ as') ++ rest)
      (addresses_bytes as' ++ rest) rest (canonical a) (map canonical as')
      (ap parse_address split ∙ parse-address_bytes a (addresses_bytes as' ++ rest) v.0 fits.0)
      (parse-addresses_bytes as' rest v.1 fits.1)
