-- ===== src/Peer/Transport/Congestion.antt =====
-- reliable.go: `consumeFragmentAck` and `updateRTT`, the congestion window and the timeout.
use bork.Base.{
  ℕ, ◌+◌, ◌-◌, ◌*◌, ◌/◌, min, max, Bool, true, not, if◌then◌else◌, ◌==◌, ◌=/=◌, ltb, ◌||◌, ◌&&◌,
  List, [], ◌∷◌, ◌++◌, length,
}
use bork.Protocol.Reliable.{fragment_ack_contains}
use bork.Peer.Transport.{Transport, ReliableFragment, mss, minimum_rto, maximum_rto, maximum_cwnd}

-- Durations are not negative here, so Go's truncated division is that of ℕ.
abbrev pub deviation : ℕ → ℕ → ℕ
deviation srtt sample = if ltb srtt sample then sample - srtt else srtt - sample

unfoldable pub update_rtt : Transport → ℕ → Transport
update_rtt r sample =
    let srtt = if r.have_rtt then (7 * r.srtt + sample) / 8 else sample in
    let rttvar = if r.have_rtt then (3 * r.rttvar + deviation r.srtt sample) / 4 else sample / 2 in
    record r {
      srtt = srtt;
      rttvar = rttvar;
      have_rtt = true;
      rto = min (max (srtt + 4 * rttvar) minimum_rto) maximum_rto;
    }

-- Whether the acknowledgment covers a fragment of `outbound`.
unfoldable pub is_acked : ℕ → ℕ → ℕ → ReliableFragment → Bool
is_acked channel base bitmap f = not (
    f.channel =/= channel
    || (f.transmissions == 0 || not (fragment_ack_contains base bitmap f.fragment_sequence)))

-- What one acknowledged fragment does to the transport.
unfoldable pub acknowledge : Transport → ReliableFragment → ℕ → Transport
unfolding update_rtt
acknowledge r f now =
    let r' = record r {
      queued_bytes = r.queued_bytes - length f.payload;
      bytes_in_flight = r.bytes_in_flight - length f.payload;
    } in
    if f.transmissions == 1 && not (ltb now f.sent_at) then update_rtt r' (now - f.sent_at) else r'

pub record Sweep : Type 0 where
  pub transport : Transport
  pub remaining : List ReliableFragment
  pub acked_bytes : ℕ

abbrev pub sweep_start : Transport → Sweep
sweep_start r = record { transport = r; remaining = []; acked_bytes = 0 }

-- One round of the loop over `outbound`; `remaining` grows at its end.
unfoldable pub sweep_step : ℕ → ℕ → ℕ → ℕ → Sweep → ReliableFragment → Sweep
sweep_step channel base bitmap now s f =
    if is_acked channel base bitmap f
    then record s {
      transport = acknowledge s.transport f now;
      acked_bytes = s.acked_bytes + length f.payload;
    }
    else record s { remaining = s.remaining ++ (f ∷ []) }

unfoldable pub sweep : ℕ → ℕ → ℕ → ℕ → Sweep → List ReliableFragment → Sweep
sweep channel base bitmap now s [] = s
sweep channel base bitmap now s (f ∷ fs) =
    sweep channel base bitmap now (sweep_step channel base bitmap now s f) fs

-- Slow start below `ssthresh`, then one segment per window, never above the maximum.
unfoldable pub grow_window : Transport → ℕ → Transport
grow_window r acked_bytes =
    let cwnd =
      if ltb r.cwnd r.ssthresh
      then r.cwnd + acked_bytes
      else r.cwnd + max (mss * acked_bytes / r.cwnd) 1 in
    record r { cwnd = min cwnd maximum_cwnd }

-- What follows the loop.
unfoldable pub settle : Sweep → Transport
unfolding grow_window
settle s =
    let r = record (s.transport) { outbound = s.remaining } in
    if s.acked_bytes == 0 then r else grow_window r s.acked_bytes

unfoldable pub consume_fragment_ack : Transport → ℕ → ℕ → ℕ → ℕ → Transport
consume_fragment_ack r channel base bitmap now =
    if base == 0 || bitmap == 0
    then r
    else settle (sweep channel base bitmap now (sweep_start r) r.outbound)
