-- ===== src/Topology/Tests.antt =====
-- The theorem on topology messages at one message.
use bork.Base.{◌≡◌, refl, [], ◌∷◌, ◌++◌, map, ok, arith, list_eq}
use bork.Base.Bytes.{Bytes, be_put}
use bork.Topology.{
  AddrPort, TopologyMessage, mapped_prefix, unmap, append_address, append_addresses,
  append_neighbors, encode_message, decode_message,
}
use bork.Topology.RoundTrip.{IsMessage, canonical_entry, decode-encode_message}
use bork.Topology.Addresses.{canonical}

-- An IPv4 address in IPv6, with a zone.
abbrev mapped_address : AddrPort
mapped_address = record {
  ip = mapped_prefix ++ (192 ∷ 168 ∷ 1 ∷ 20 ∷ []);
  zone = 101 ∷ [];
  port = 4242;
}

abbrev plain_address : AddrPort
plain_address = record { ip = 10 ∷ 0 ∷ 0 ∷ 7 ∷ []; zone = []; port = 80 }

abbrev message : TopologyMessage
message = record {
  candidates = mapped_address ∷ [];
  neighbors =
      record { peer_id = 5; addresses = plain_address ∷ [] }
      ∷ record { peer_id = 6; addresses = [] }
      ∷ [];
}

abbrev message_bytes : Bytes
message_bytes =
    0
    ∷ 1
    ∷ 4
    ∷ 16
    ∷ 146
    ∷ 192
    ∷ 168
    ∷ 1
    ∷ 20
    ∷ (be_put 16 5 ++ (0 ∷ 1 ∷ 4 ∷ 0 ∷ 80 ∷ 10 ∷ 0 ∷ 0 ∷ 7 ∷ (be_put 16 6 ++ (0 ∷ 0 ∷ []))))

message-encoded : encode_message message ≡ ok message_bytes
unfolding encode_message append_addresses append_neighbors append_address unmap list_eq be_put
message-encoded = refl

message-IsMessage : IsMessage message
message-IsMessage = record {
  ports_fit = (omega arith, tt);
  entries = (
    record { id_fits = omega arith; ports_fit = (omega arith, tt) },
    (record { id_fits = omega arith; ports_fit = tt }, tt),
  );
}

decode-encode_message_example :
    decode_message message_bytes
    ≡ ok (record {
      candidates = map canonical message.candidates;
      neighbors = map canonical_entry message.neighbors;
    })
decode-encode_message_example = decode-encode_message message message-IsMessage message-encoded
