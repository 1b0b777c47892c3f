-- ===== src/Endpoint/Stun.antt =====
-- internal/networking/endpoint/stun.go: the binding request and its response. A transaction is 12
-- bytes; an offset into a message is what follows it.
pub mod Answers
pub mod Ends
use bork.Base.{
  ℕ, zero, suc, ◌+◌, ◌*◌, ◌/◌, ◌%◌, bit_xor, Bool, true, false, not, if◌then◌else◌, ◌=/=◌, ◌==◌,
  ltb, ◌||◌, List, [], ◌∷◌, ◌++◌, length, get_or, take, drop, list_eq, Option, none, some, Result,
  ok, err, reject, ◌>>=◌, ◌>>◌,
}
use bork.Base.Bytes.{Bytes, be_put, be_get}
use bork.Topology.{AddrPort, unmap}

abbrev pub stun_header_size : ℕ
stun_header_size = 20

-- `0x2112a442`
abbrev pub stun_magic_cookie : ℕ
stun_magic_cookie = 554_869_826

abbrev pub stun_binding_request : ℕ
stun_binding_request = 1

-- `0x0101` and `0x0111`
abbrev pub stun_binding_success : ℕ
stun_binding_success = 257

abbrev pub stun_binding_error : ℕ
stun_binding_error = 273

abbrev pub stun_mapped_address : ℕ
stun_mapped_address = 1

-- `0x0020`
abbrev pub stun_xor_mapped_address : ℕ
stun_xor_mapped_address = 32

-- The errors of the source, and one of the model: the loop over the attributes has no rounds left.
pub data StunError : Type 0 where
  response_truncated server_error type_unexpected cookie_invalid transaction_differs length_invalid
        attribute_truncated value_truncated padding_truncated address_missing address_malformed
        ipv4_length_invalid ipv6_length_invalid family_unsupported address_unusable out_of_rounds :
      StunError

-- `newBindingRequest`; the argument is what `rand.Read` gives.
unfoldable pub new_binding_request : Bytes → Bytes
new_binding_request transaction =
    be_put 2 stun_binding_request ++ (be_put 2 0 ++ (be_put 4 stun_magic_cookie ++ transaction))

unfoldable pub transaction_from_message : Bytes → Option Bytes
transaction_from_message message =
    if ltb (length message) stun_header_size
      || be_get (take 4 (drop 4 message)) =/= stun_magic_cookie
    then none
    else some (take 12 (drop 8 message))

-- The bytes under a mask of the same length.
unfoldable pub xor_bytes : Bytes → Bytes → Bytes
xor_bytes [] mask = []
xor_bytes (b ∷ bs) [] = b ∷ bs
xor_bytes (b ∷ bs) (m ∷ ms) = bit_xor b m ∷ xor_bytes bs ms

-- The mask of an address: the cookie, and for IPv6 the transaction.
abbrev pub unmask : Bool → Bytes → Bytes → Bytes
unmask xor transaction bytes =
    if xor then xor_bytes bytes (be_put 4 stun_magic_cookie ++ transaction) else bytes

-- `address.IsUnspecified()`
unfoldable pub is_unspecified : Bytes → Bool
is_unspecified [] = true
is_unspecified (b ∷ bs) = if b == 0 then is_unspecified bs else false

-- The address that a family and a value give.
unfoldable pub mapped_ip : Bytes → Bytes → Bool → Result StunError Bytes
unfolding xor_bytes
mapped_ip value transaction xor =
    if get_or value 1 0 == 1
    then (do
      reject (length value =/= 8) ipv4_length_invalid
      ok (unmask xor transaction (drop 4 value)))
    else if get_or value 1 0 == 2
    then (do
      reject (length value =/= 20) ipv6_length_invalid
      ok (unmask xor transaction (drop 4 value)))
    else err family_unsupported

-- The port under the upper half of the cookie.
abbrev pub mapped_port : Bytes → Bool → ℕ
mapped_port value xor =
    let port = be_get (take 2 (drop 2 value)) in
    if xor then bit_xor port (stun_magic_cookie / 65536) else port

unfoldable pub parse_mapped_address : Bytes → Bytes → Bool → Result StunError AddrPort
unfolding mapped_ip
parse_mapped_address value transaction xor = do
  reject (ltb (length value) 4 || get_or value 0 0 =/= 0) address_malformed
  ip ← mapped_ip value transaction xor
  reject (is_unspecified ip || mapped_port value xor == 0) address_unusable
  ok (unmap (record { ip = ip; zone = []; port = mapped_port value xor }))

-- What follows the loop; `mapped` has no address until one has been found.
abbrev pub found : Option AddrPort → Result StunError AddrPort
found none = err address_missing
found (some a) = ok a

-- `mapped` after an attribute that is no XOR-mapped address.
unfoldable pub note_mapped : ℕ → Bytes → Bytes → Option AddrPort → Option AddrPort
unfolding parse_mapped_address
note_mapped kind value transaction mapped =
    if kind == stun_mapped_address
    then elim (parse_mapped_address value transaction false) [ ok a ↦ some a | err e ↦ mapped ]
    else mapped

-- `(attributeLength + 3) &^ 3`
abbrev pub padded : ℕ → ℕ
padded size = (size + 3) / 4 * 4

-- The loop over the attributes, with `rounds` left; without any, `out_of_rounds` unless it is over.
unfoldable pub read_attributes : ℕ → Bytes → Option AddrPort → Bytes → Result StunError AddrPort
unfolding note_mapped parse_mapped_address
read_attributes zero transaction mapped [] = found mapped
read_attributes zero transaction mapped (b ∷ bs) = err out_of_rounds
read_attributes (suc rounds) transaction mapped [] = found mapped
read_attributes (suc rounds) transaction mapped (b ∷ bs) =
    let rest = b ∷ bs in
    let kind = be_get (take 2 rest) in
    let size = be_get (take 2 (drop 2 rest)) in
    let value = take size (drop 4 rest) in
    let later =
      read_attributes rounds transaction (note_mapped kind value transaction mapped)
        (drop (4 + padded size) rest) in
    if ltb (length rest) 4
    then err attribute_truncated
    else if ltb (length rest) (4 + size)
    then err value_truncated
    else if kind == stun_xor_mapped_address
    then parse_mapped_address value transaction true
    else if ltb (length rest) (4 + padded size)
    then err padding_truncated
    else later

-- The tests before the loop.
unfoldable pub check_response : Bytes → Bytes → Result StunError (Unit {0})
check_response message transaction = do
  reject (ltb (length message) stun_header_size) response_truncated
  reject (be_get (take 2 message) == stun_binding_error) server_error
  reject (be_get (take 2 message) =/= stun_binding_success) type_unexpected
  reject (be_get (take 4 (drop 4 message)) =/= stun_magic_cookie) cookie_invalid
  reject (not (list_eq (take 12 (drop 8 message)) transaction)) transaction_differs
  let declared = be_get (take 2 (drop 2 message))
  reject (declared % 4 =/= 0 || stun_header_size + declared =/= length message) length_invalid

-- An attribute takes 4 bytes or more, so there are fewer than bytes.
unfoldable pub parse_binding_response : Bytes → Bytes → Result StunError AddrPort
unfolding check_response read_attributes
parse_binding_response message transaction = do
  check_response message transaction
  read_attributes (length message) transaction none (drop stun_header_size message)
