-- ===== src/Peer/Transport/Laws/Counts.antt =====
-- The receiver's counters under every call of the transport.
use bork.Base.{◌≡◌}
use bork.Base.Bytes.{Bytes}
use bork.Peer.Transport.{Transport}

-- The receiver's side of a transport, as far as its counters go.
record SameReceiver (r s : Transport) : Type 0 where
  channels : s.channels ≡ r.channels
  bytes : s.reassembly_bytes ≡ r.reassembly_bytes
  count : s.reassembly_count ≡ r.reassembly_count
  parts : s.reassembly_parts ≡ r.reassembly_parts

abbrev SameTotals : Transport → Transport → Type 0
SameTotals r s =
    (s.reassembly_bytes ≡ r.reassembly_bytes)
    × (s.reassembly_count ≡ r.reassembly_count)
    × (s.reassembly_parts ≡ r.reassembly_parts)
