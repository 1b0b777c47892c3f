-- ===== src/Topology.antt =====
-- internal/peer/topology_message.go: the topology message and its encoding. A peer id is the number
-- of its 16 bytes, so that `comparePeerIDs` is the order of the numbers. An address is that of
-- net/netip: 4 or 16 bytes, or none, with a zone. An offset into a payload is what follows it.
pub mod Addresses
pub mod RoundTrip
mod Tests
use bork.Base.{
  ℕ, zero, suc, ◌+◌, Bool, not, if◌then◌else◌, ◌=/=◌, ◌==◌, ltb, ◌||◌, ◌&&◌, List, [], ◌∷◌, ◌++◌,
  length, get_or, take, drop, list_eq, Result, ok, err, reject, ◌>>=◌, ◌>>◌,
}
use bork.Base.Bytes.{Bytes, be_put, be_get}

pub data TopologyError : Type 0 where
  fields_invalid neighbor_invalid address_invalid header_invalid neighbor_truncated neighbor_zero
        address_truncated family_invalid :
      TopologyError

-- `netip.AddrPort`
pub record AddrPort : Type 0 where
  pub ip : Bytes
  pub zone : Bytes
  pub port : ℕ

pub record TopologyEntry : Type 0 where
  pub peer_id : ℕ
  pub addresses : List AddrPort

pub record TopologyMessage : Type 0 where
  pub candidates : List AddrPort
  pub neighbors : List TopologyEntry

abbrev pub id_size : ℕ
id_size = 16

-- The first 12 bytes of an IPv4 address in IPv6.
abbrev pub mapped_prefix : Bytes
mapped_prefix = 0 ∷ 0 ∷ 0 ∷ 0 ∷ 0 ∷ 0 ∷ 0 ∷ 0 ∷ 0 ∷ 0 ∷ 255 ∷ 255 ∷ []

-- `netip.AddrPortFrom(address.Addr().Unmap(), address.Port())`
unfoldable pub unmap : AddrPort → AddrPort
unmap a =
    if length a.ip == 16 && list_eq (take 12 a.ip) mapped_prefix
    then record a { ip = drop 12 a.ip; zone = [] }
    else a

-- `address.IsValid()`
abbrev pub is_valid : AddrPort → Bool
is_valid a = length a.ip == 4 || length a.ip == 16

abbrev pub address_bytes : AddrPort → Bytes
address_bytes a = (if length a.ip == 4 then 4 else 6) ∷ (be_put 2 a.port ++ a.ip)

unfoldable pub append_address : Bytes → AddrPort → Result TopologyError Bytes
unfolding unmap
append_address payload address = do
  reject (not (is_valid (unmap address)) || (unmap address).port == 0) address_invalid
  ok (payload ++ address_bytes (unmap address))

unfoldable pub append_addresses : Bytes → List AddrPort → Result TopologyError Bytes
unfolding append_address
append_addresses payload [] = ok payload
append_addresses payload (a ∷ as') = do
  payload' ← append_address payload a
  append_addresses payload' as'

unfoldable pub append_neighbors : Bytes → List TopologyEntry → Result TopologyError Bytes
unfolding append_addresses
append_neighbors payload [] = ok payload
append_neighbors payload (n ∷ ns) = do
  reject (n.peer_id == 0 || ltb 65535 (length n.addresses)) neighbor_invalid
  payload' ←
      append_addresses (payload ++ (be_put 16 n.peer_id ++ be_put 2 (length n.addresses)))
        n.addresses
  append_neighbors payload' ns

unfoldable pub encode_message : TopologyMessage → Result TopologyError Bytes
unfolding append_neighbors append_addresses
encode_message m = do
  reject (ltb 65535 (length m.candidates)) fields_invalid
  payload ← append_addresses (be_put 2 (length m.candidates)) m.candidates
  append_neighbors payload m.neighbors

-- `parseTopologyAddress`, with what follows the address.
unfoldable pub parse_address : Bytes → Result TopologyError (AddrPort × Bytes)
unfolding unmap
parse_address rest = do
  reject (ltb (length rest) 3) address_truncated
  reject (not (get_or rest 0 0 == 4 || get_or rest 0 0 == 6)) family_invalid
  let port = be_get (take 2 (drop 1 rest))
  let size = if get_or rest 0 0 == 4 then 4 else 16
  reject (port == 0 || ltb (length (drop 3 rest)) size) address_invalid
  ok (
    unmap (record { ip = take size (drop 3 rest); zone = []; port = port }),
    drop size (drop 3 rest),
  )

-- The loops over a count of addresses, with `rounds` left.
unfoldable pub parse_addresses : ℕ → Bytes → Result TopologyError (List AddrPort × Bytes)
unfolding parse_address
parse_addresses zero rest = ok ([], rest)
parse_addresses (suc rounds) rest = do
  (a, rest') ← parse_address rest
  (others, rest'') ← parse_addresses rounds rest'
  ok (a ∷ others, rest'')

-- The loop over the neighbors; a round takes 18 bytes or more, so there are fewer than bytes.
unfoldable pub parse_neighbors : ℕ → Bytes → Result TopologyError (List TopologyEntry)
unfolding parse_addresses
parse_neighbors zero rest = ok []
parse_neighbors (suc rounds) [] = ok []
parse_neighbors (suc rounds) (b ∷ bs) = do
  reject (ltb (length (b ∷ bs)) (id_size + 2)) neighbor_truncated
  reject (be_get (take 16 (b ∷ bs)) == 0) neighbor_zero
  (addresses, rest') ← parse_addresses (be_get (take 2 (drop 16 (b ∷ bs)))) (drop 18 (b ∷ bs))
  others ← parse_neighbors rounds rest'
  ok (record { peer_id = be_get (take 16 (b ∷ bs)); addresses = addresses } ∷ others)

unfoldable pub decode_message : Bytes → Result TopologyError TopologyMessage
unfolding parse_addresses parse_neighbors
decode_message payload = do
  reject (ltb (length payload) 2) header_invalid
  (candidates, rest) ← parse_addresses (be_get (take 2 payload)) (drop 2 payload)
  neighbors ← parse_neighbors (length payload) rest
  ok (record { candidates = candidates; neighbors = neighbors })
