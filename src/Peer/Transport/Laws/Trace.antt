-- ===== src/Peer/Transport/Laws/Trace.antt =====
-- The transport as a session drives it (client_loop.go): a choice of `nextSend` is committed or
-- rejected before anything else happens. Through every such trace the byte counters are exact.
use bork.Base.{ℕ, ◌≡◌, refl, ok, some, arith}
use bork.Base.Bytes.{Bytes}
use bork.Protocol.Reliable.{ReliablePacket}
use bork.Peer.Transport.{Transport, new_transport}
use bork.Peer.Transport.Queue.{queue, discard_outbound_channel, discard_inbound_channel}
use bork.Peer.Transport.Receive.{receive}
use bork.Peer.Transport.Send.{Sending, next_send, commit, reject}
use bork.Peer.Transport.Laws.Inert.{discard_inbound-Inert}
use bork.Peer.Transport.Laws.Soundness.{
  IsSound, Inert-IsSound, receive-IsSound, discard_outbound-IsSound,
}
use bork.Peer.Transport.Laws.Queued.{queue-IsSound}
use bork.Peer.Transport.Laws.Committed.{commit-IsSound, reject-IsSound}

-- One thing that a session does to its transport.
pub data Step (r : Transport) : Transport → Type 0 where
  queued :
      (channel : ℕ) (payload : Bytes) {s : Transport} → queue r channel payload ≡ ok s → Step r s
  received : (p : ReliablePacket) (now : ℕ) → Step r (receive r p now).0
  sent :
      (now : ℕ) (choice : Sending)
      → next_send r now ≡ some choice
      → Step r (commit r choice.reservation)
  not_sent :
      (now : ℕ) (choice : Sending)
      → next_send r now ≡ some choice
      → Step r (reject r choice.reservation)
  discarded_outbound : (channel : ℕ) → Step r (discard_outbound_channel r channel)
  discarded_inbound : (channel : ℕ) → Step r (discard_inbound_channel r channel)

pub data Reach (r : Transport) : Transport → Type 0 where
  here : Reach r r
  next : {s t : Transport} → Reach r s → Step s t → Reach r t

Step-IsSound : {r s : Transport} → Step r s → IsSound r → IsSound s
Step-IsSound {r} {s} (queued channel payload e) v = queue-IsSound r s channel payload e v
Step-IsSound {r} (received p now) v = receive-IsSound r p now v
Step-IsSound {r} (sent now choice e) v = commit-IsSound r now choice e v
Step-IsSound {r} (not_sent now choice e) v = reject-IsSound r choice.reservation v
Step-IsSound {r} (discarded_outbound channel) v = discard_outbound-IsSound r channel v
Step-IsSound {r} (discarded_inbound channel) v = Inert-IsSound (discard_inbound-Inert r channel) v

new_transport-IsSound : IsSound new_transport
unfolding new_transport
new_transport-IsSound = record {
  accounted = record { queued = refl; flight = refl; limit = omega arith };
  keyed = tt;
  numbered = tt;
}

-- Whatever a session does to a new transport, in any order, where a choice of `next_send` is committed or
-- rejected before anything else: the byte counters are the sums over `outbound` and within the queue
-- limit, no two fragments of `outbound` share channel and sequence, and none is numbered above the
-- counter of its channel.
pub Reach-IsSound : {r : Transport} → Reach new_transport r → IsSound r
Reach-IsSound here = new_transport-IsSound
Reach-IsSound (next before st) = Step-IsSound st (Reach-IsSound before)
