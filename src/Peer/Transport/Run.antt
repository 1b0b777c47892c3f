-- ===== src/Peer/Transport/Run.antt =====
-- The transport under its whole interface: what a session may call, in any order.
use bork.Base.{ℕ, List, [], ◌∷◌, ok, err}
use bork.Base.Bytes.{Bytes}
use bork.Protocol.Reliable.{ReliablePacket}
use bork.Peer.Transport.{Transport}
use bork.Peer.Transport.Queue.{queue, discard_outbound_channel, discard_inbound_channel}
use bork.Peer.Transport.Send.{Reservation, commit, reject}
use bork.Peer.Transport.Receive.{receive}

-- What an operation of the transport may be.
pub data Call : Type 0 where
  queues : (channel : ℕ) (payload : Bytes) → Call
  receives : (packet : ReliablePacket) (now : ℕ) → Call
  commits rejects : Reservation → Call
  discards_outbound discards_inbound : (channel : ℕ) → Call

unfoldable pub step : Transport → Call → Transport
step r (queues channel payload) = elim (queue r channel payload) [ ok s ↦ s | err _ ↦ r ]
step r (receives packet now) = (receive r packet now).0
step r (commits s) = commit r s
step r (rejects s) = reject r s
step r (discards_outbound channel) = discard_outbound_channel r channel
step r (discards_inbound channel) = discard_inbound_channel r channel

unfoldable pub run : Transport → List Call → Transport
run r [] = r
run r (c ∷ cs) = run (step r c) cs
