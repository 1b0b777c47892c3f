-- ===== src/Topology/RoundTrip.antt =====
-- A topology message that is written is read back.
use bork.Base.{
  ℕ, zero, suc, ◌^◌, ◌≡◌, ◌≤◌, ◌<◌, refl, ap, ◌∙◌, inl, inr, false, ◌==◌, List, [], ◌∷◌, ◌++◌,
  append_assoc, append-nil, map, All, length, length-append, take, drop, take-append, drop-append,
  ok, Result-cases, arith,
}
use bork.Base.Bytes.{Bytes, be_put, be_get, length-be_put, be_get-be_put}
use bork.Topology.{
  AddrPort, TopologyEntry, TopologyMessage, append_addresses, append_neighbors, encode_message,
  parse_addresses, parse_neighbors, decode_message,
}
use bork.Topology.Addresses.{
  canonical, IsSendable, addresses_bytes, append_addresses_ok, parse-addresses_bytes,
}

-- Neighbors: an id, a count and the addresses.
neighbor_head : TopologyEntry → Bytes
neighbor_head n = be_put 16 n.peer_id ++ be_put 2 (length n.addresses)

neighbors_bytes : List TopologyEntry → Bytes
unfolding addresses_bytes neighbor_head
neighbors_bytes [] = []
neighbors_bytes (n ∷ ns) = neighbor_head n ++ (addresses_bytes n.addresses ++ neighbors_bytes ns)

-- The values that the fields of an entry have in Go.
pub record IsEntry (n : TopologyEntry) : Type 0 where
  pub id_fits : n.peer_id < 256 ^ 16
  pub ports_fit : All (λ a. a.port < 256 ^ 2) n.addresses

record IsWritten (n : TopologyEntry) : Type 0 where
  id_set : (n.peer_id == 0) ≡ false
  few : length n.addresses ≤ 65535
  sendable : All IsSendable n.addresses

append_neighbors_ok :
    (payload : Bytes) (ns : List TopologyEntry) {out : Bytes}
    → append_neighbors payload ns ≡ ok out
    → All IsWritten ns × (out ≡ payload ++ neighbors_bytes ns)
unfolding append_neighbors neighbors_bytes neighbor_head
append_neighbors_ok payload [] e = (tt, ground (arith, e, append-nil payload))
append_neighbors_ok payload (n ∷ ns) {out} e =
    elim (Result-cases (append_addresses (payload ++ neighbor_head n) n.addresses)) [
      | inr (_, refused) ↦ absurd (ground (arith, refused, e))
      | inl (payload', done) ↦
          let (sendable, here) =
            append_addresses_ok (payload ++ neighbor_head n) n.addresses done in
          let (others, there) = append_neighbors_ok payload' ns (ground (arith, done, e)) in
          (
            (
              record {
                id_set = ground (arith, done, e);
                few = ground (arith, done, e);
                sendable = sendable;
              },
              others,
            ),
            there
                ∙ (ap (λ t. t ++ neighbors_bytes ns) here
                    ∙ (append_assoc (payload ++ neighbor_head n) (addresses_bytes n.addresses)
                          (neighbors_bytes ns)
                        ∙ append_assoc payload (neighbor_head n)
                            (addresses_bytes n.addresses ++ neighbors_bytes ns))),
          )
    ]

parse_neighbors_step :
    (rounds id count : ℕ) (input rest : Bytes) (addresses : List AddrPort)
    (others : List TopologyEntry)
    → 18 ≤ length input
    → be_get (take 16 input) ≡ id
    → (id == 0) ≡ false
    → be_get (take 2 (drop 16 input)) ≡ count
    → parse_addresses count (drop 18 input) ≡ ok (addresses, rest)
    → parse_neighbors rounds rest ≡ ok others
    → parse_neighbors (suc rounds) input
      ≡ ok (record { peer_id = id; addresses = addresses } ∷ others)
unfolding parse_neighbors
parse_neighbors_step rounds id count [] rest addresses others long =
    λ name set number here there. absurd (omega (arith, long))
parse_neighbors_step rounds id count (b ∷ bs) rest addresses others long =
    λ name set number here there. rw (name, number, here, there) (ground (arith, long, set))

-- What the other side reads for a neighbor.
abbrev pub canonical_entry : TopologyEntry → TopologyEntry
canonical_entry n = record { peer_id = n.peer_id; addresses = map canonical n.addresses }

length-neighbor_head : (n : TopologyEntry) → length (neighbor_head n) ≡ 18
unfolding neighbor_head
length-neighbor_head n = omega (
  arith,
  length-append (be_put 16 n.peer_id) (be_put 2 (length n.addresses)),
  length-be_put 16 n.peer_id,
  length-be_put 2 (length n.addresses),
)

parse-neighbor :
    (rounds : ℕ) (n : TopologyEntry) (rest : Bytes) (others : List TopologyEntry)
    → IsEntry n
    → IsWritten n
    → parse_neighbors rounds rest ≡ ok others
    → parse_neighbors (suc rounds) (neighbor_head n ++ (addresses_bytes n.addresses ++ rest))
      ≡ ok (canonical_entry n ∷ others)
unfolding neighbor_head
parse-neighbor rounds n rest others v w later =
    let id : Bytes = be_put 16 n.peer_id in
    let count : Bytes = be_put 2 (length n.addresses) in
    let body : Bytes = addresses_bytes n.addresses ++ rest in
    let split = append_assoc id count body in
    let id_size = length-be_put 16 n.peer_id in
    let count_size = length-be_put 2 (length n.addresses) in
    parse_neighbors_step rounds n.peer_id (length n.addresses) ((id ++ count) ++ body) rest
      (map canonical n.addresses) others
      (omega (arith, length-append (id ++ count) body, length-append id count, id_size, count_size))
      (ap (λ t. be_get (take 16 t)) split
        ∙ (ap be_get (take-append 16 id (count ++ body) id_size)
            ∙ be_get-be_put 16 n.peer_id v.id_fits))
      w.id_set
      (ap (λ t. be_get (take 2 (drop 16 t))) split
        ∙ (ap (λ t. be_get (take 2 t)) (drop-append 16 id (count ++ body) id_size)
            ∙ (ap be_get (take-append 2 count body count_size)
                ∙ be_get-be_put 2 (length n.addresses) (omega (arith, w.few)))))
      (ap (parse_addresses (length n.addresses)) (
          drop-append 18 (id ++ count) body
            (omega (arith, length-append id count, id_size, count_size)))
        ∙ parse-addresses_bytes n.addresses rest w.sendable v.ports_fit)
      later

parse-neighbors_bytes :
    (fuel : ℕ) (ns : List TopologyEntry)
    → length ns ≤ fuel
    → All IsEntry ns
    → All IsWritten ns
    → parse_neighbors fuel (neighbors_bytes ns) ≡ ok (map canonical_entry ns)
unfolding neighbors_bytes
parse-neighbors_bytes zero [] h v w = unfold parse_neighbors in refl
parse-neighbors_bytes (suc fuel) [] h v w = unfold parse_neighbors in refl
parse-neighbors_bytes zero (n ∷ ns) h v w = absurd (omega (arith, h))
parse-neighbors_bytes (suc fuel) (n ∷ ns) h v w =
    parse-neighbor fuel n (neighbors_bytes ns) (map canonical_entry ns) v.0 w.0
      (parse-neighbors_bytes fuel ns (omega (arith, h)) v.1 w.1)

length-neighbors_bytes : (ns : List TopologyEntry) → length ns ≤ length (neighbors_bytes ns)
unfolding neighbors_bytes
length-neighbors_bytes [] = omega arith
length-neighbors_bytes (n ∷ ns) = omega (
  arith,
  length-append (neighbor_head n) (addresses_bytes n.addresses ++ neighbors_bytes ns),
  length-append (addresses_bytes n.addresses) (neighbors_bytes ns),
  length-neighbor_head n,
  length-neighbors_bytes ns,
)

-- The values that the fields of a message have in Go.
pub record IsMessage (m : TopologyMessage) : Type 0 where
  pub ports_fit : All (λ a. a.port < 256 ^ 2) m.candidates
  pub entries : All IsEntry m.neighbors

encode_message_ok :
    (m : TopologyMessage) {payload : Bytes}
    → encode_message m ≡ ok payload
    → (length m.candidates ≤ 65535)
      × All IsSendable m.candidates
      × All IsWritten m.neighbors
      × (payload
          ≡ be_put 2 (length m.candidates)
            ++ (addresses_bytes m.candidates ++ neighbors_bytes m.neighbors))
unfolding encode_message
encode_message_ok m e =
    let head : Bytes = be_put 2 (length m.candidates) in
    elim (Result-cases (append_addresses head m.candidates)) [
      | inr (_, refused) ↦ absurd (ground (arith, refused, e))
      | inl (payload', done) ↦
          let (sendable, here) = append_addresses_ok head m.candidates done in
          let (written, there) =
            append_neighbors_ok payload' m.neighbors (ground (arith, done, e)) in
          (
            ground (arith, done, e),
            sendable,
            written,
            there
                ∙ (ap (λ t. t ++ neighbors_bytes m.neighbors) here
                    ∙ append_assoc head (addresses_bytes m.candidates)
                        (neighbors_bytes m.neighbors)),
          )
    ]

decode_message_steps :
    (payload rest : Bytes) (count : ℕ) (candidates : List AddrPort) (neighbors : List TopologyEntry)
    → 2 ≤ length payload
    → be_get (take 2 payload) ≡ count
    → parse_addresses count (drop 2 payload) ≡ ok (candidates, rest)
    → parse_neighbors (length payload) rest ≡ ok neighbors
    → decode_message payload ≡ ok (record { candidates = candidates; neighbors = neighbors })
unfolding decode_message
decode_message_steps payload rest count candidates neighbors long number here there =
    rw (number, here, there) (ground (arith, long))

-- Where ports fit 16 bits and peer ids 16 bytes, a message that `encode_message` writes is read by
-- `decode_message` as the same candidates and neighbors in the same order, each address without its zone
-- and an IPv4 address in IPv6 as IPv4.
pub decode-encode_message :
    (m : TopologyMessage) {payload : Bytes}
    → IsMessage m
    → encode_message m ≡ ok payload
    → decode_message payload
      ≡ ok (record {
        candidates = map canonical m.candidates;
        neighbors = map canonical_entry m.neighbors;
      })
decode-encode_message m {payload} v e =
    let (few, sendable, written, out) = encode_message_ok m e in
    let head : Bytes = be_put 2 (length m.candidates) in
    let tail : Bytes = neighbors_bytes m.neighbors in
    let body : Bytes = addresses_bytes m.candidates ++ tail in
    let size = length-be_put 2 (length m.candidates) in
    let long = length-append head body in
    ap decode_message out
    ∙ decode_message_steps (head ++ body) tail (length m.candidates) (map canonical m.candidates)
        (map canonical_entry m.neighbors) (omega (arith, long, size))
        (ap be_get (take-append 2 head body size)
          ∙ be_get-be_put 2 (length m.candidates) (omega (arith, few)))
        (ap (parse_addresses (length m.candidates)) (drop-append 2 head body size)
          ∙ parse-addresses_bytes m.candidates tail sendable v.ports_fit)
        (parse-neighbors_bytes (length (head ++ body)) m.neighbors
          (omega (
            arith,
            long,
            length-append (addresses_bytes m.candidates) tail,
            length-neighbors_bytes m.neighbors,
          ))
          v.entries written)
