-- ===== src/Endpoint/Tests.antt =====
-- The theorems on binding responses at one response.
use bork.Base.{◌≡◌, ◌≢◌, ◌⊎◌, refl, [], ◌∷◌, ◌++◌, ok, err, list_eq}
use bork.Base.Bytes.{Bytes, be_get, be_put}
use bork.Topology.{AddrPort, unmap}
use bork.Endpoint.Stun.{
  StunError, out_of_rounds, xor_bytes, is_unspecified, mapped_ip, parse_mapped_address, note_mapped,
  read_attributes, check_response, parse_binding_response,
}
use bork.Endpoint.Stun.Answers.{IsResponse, IsUsable, parse_binding_response-IsResponse}
use bork.Endpoint.Stun.Ends.{parse_binding_response_ends}

abbrev transaction : Bytes
transaction = 1 ∷ 2 ∷ 3 ∷ 4 ∷ 5 ∷ 6 ∷ 7 ∷ 8 ∷ 9 ∷ 10 ∷ 11 ∷ 12 ∷ []

-- 192.0.2.1, port 32853, as in RFC 5769.
abbrev attributes : Bytes
attributes = 0 ∷ 32 ∷ 0 ∷ 8 ∷ 0 ∷ 1 ∷ 161 ∷ 71 ∷ 225 ∷ 18 ∷ 166 ∷ 67 ∷ []

abbrev response : Bytes
response = 1 ∷ 1 ∷ 0 ∷ 12 ∷ 33 ∷ 18 ∷ 164 ∷ 66 ∷ (transaction ++ attributes)

abbrev public_address : AddrPort
public_address = record { ip = 192 ∷ 0 ∷ 2 ∷ 1 ∷ []; zone = []; port = 32853 }

response-read : parse_binding_response response transaction ≡ ok public_address
unfolding parse_binding_response check_response read_attributes note_mapped parse_mapped_address
    mapped_ip is_unspecified xor_bytes unmap list_eq be_get be_put
response-read = refl

parse_binding_response-IsResponse_example :
    IsResponse response transaction × IsUsable public_address
parse_binding_response-IsResponse_example =
    parse_binding_response-IsResponse response transaction response-read

parse_binding_response_ends_example :
    ((a : AddrPort) × (parse_binding_response response transaction ≡ ok a))
    ⊎ ((e : StunError) × (parse_binding_response response transaction ≡ err e)
        × (e ≢ out_of_rounds))
parse_binding_response_ends_example = parse_binding_response_ends response transaction
