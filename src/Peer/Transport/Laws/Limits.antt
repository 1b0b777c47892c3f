-- ===== src/Peer/Transport/Laws/Limits.antt =====
-- The congestion window and the retransmission timeout stay within their limits.
use bork.Base.{
  ℕ, zero, suc, ◌≡◌, ◌≤◌, refl, Bool, List, [], ◌∷◌, ◌++◌, ◌==◌, ◌=/=◌, ◌||◌, length, map, inl, inr,
  Bool-cases, Option-cases, arith,
}
use bork.Base.Bytes.{Bytes}
use bork.Base.Map.{lookup}
use bork.Protocol.Reliable.{ReliablePacket}
use bork.Peer.Transport.{
  Transport, ReliableFragment, ReliableAssembly, sub64, minimum_cwnd, maximum_cwnd, minimum_rto,
  maximum_rto, new_transport, ensure_channel, DeliveredMessage, channel_ordered, channel_at,
}
use bork.Peer.Transport.Queue.{
  enqueue, queue, discard_from, forget, discard_outbound_channel, discard_keys,
  discard_inbound_channel, remove_assembly,
}
use bork.Peer.Transport.Congestion.{
  acknowledge, Sweep, sweep, sweep_step, sweep_start, settle, is_acked, consume_fragment_ack,
}
use bork.Peer.Transport.Send.{
  Reservation, fresh, retransmit, ack, unreserved, commit, advance, reject,
}
use bork.Peer.Transport.Run.{
  Call, queues, receives, commits, rejects, discards_outbound, discards_inbound, step, run,
}
use bork.Peer.Transport.Receive.{
  receive_fragment, receive, store, deliver, deliver_ordered, deliver_from, message_of,
  pass_assembly, mark_dirty,
}

pub record IsTuned (r : Transport) : Type 0 where
  pub cwnd_low : minimum_cwnd ≤ r.cwnd
  pub cwnd_high : r.cwnd ≤ maximum_cwnd
  pub threshold : minimum_cwnd ≤ r.ssthresh
  pub rto_low : minimum_rto ≤ r.rto
  pub rto_high : r.rto ≤ maximum_rto

-- Nothing of the tuning changes.
abbrev SameTuning : Transport → Transport → Type 0
SameTuning r s = (s.cwnd ≡ r.cwnd) × (s.ssthresh ≡ r.ssthresh) × (s.rto ≡ r.rto)

SameTuning-IsTuned : {r s : Transport} → SameTuning r s → IsTuned r → IsTuned s
SameTuning-IsTuned e v = omega arith

new_transport-IsTuned : IsTuned new_transport
unfolding new_transport
new_transport-IsTuned = omega arith

acknowledge-IsTuned :
    (r : Transport) (f : ReliableFragment) (now : ℕ) → IsTuned r → IsTuned (acknowledge r f now)
unfolding acknowledge
acknowledge-IsTuned r f now v = ground arith

sweep_step-IsTuned :
    (channel base bitmap now : ℕ) (s : Sweep) (f : ReliableFragment)
    → IsTuned s.transport
    → IsTuned (sweep_step channel base bitmap now s f).transport
unfolding sweep_step
sweep_step-IsTuned channel base bitmap now s f v =
    elim (Bool-cases (is_acked channel base bitmap f)) [
      | inl acked ↦ rw acked (acknowledge-IsTuned s.transport f now v)
      | inr open_one ↦ rw open_one v
    ]

sweep-IsTuned :
    (channel base bitmap now : ℕ) (s : Sweep) (fs : List ReliableFragment)
    → IsTuned s.transport
    → IsTuned (sweep channel base bitmap now s fs).transport
unfolding sweep
sweep-IsTuned channel base bitmap now s [] v = v
sweep-IsTuned channel base bitmap now s (f ∷ fs) v =
    sweep-IsTuned channel base bitmap now (sweep_step channel base bitmap now s f) fs
      (sweep_step-IsTuned channel base bitmap now s f v)

settle-IsTuned : (s : Sweep) → IsTuned s.transport → IsTuned (settle s)
unfolding settle
settle-IsTuned s v = ground arith

pub consume_fragment_ack-IsTuned :
    (r : Transport) (channel base bitmap now : ℕ)
    → IsTuned r
    → IsTuned (consume_fragment_ack r channel base bitmap now)
unfolding consume_fragment_ack
consume_fragment_ack-IsTuned r channel base bitmap now v =
    elim (Bool-cases (base == 0 || bitmap == 0)) [
      | inl nothing ↦ rw nothing v
      | inr some_acks ↦
          rw some_acks
            (settle-IsTuned _ (sweep-IsTuned channel base bitmap now (sweep_start r) r.outbound v))
    ]

pub commit-IsTuned : (r : Transport) (s : Reservation) → IsTuned r → IsTuned (commit r s)
unfolding commit
commit-IsTuned r unreserved v = v
commit-IsTuned r (fresh f index now) v = ground arith
commit-IsTuned r (retransmit f index now) v = ground arith
commit-IsTuned r (ack channel index) v = ground arith

ensure-tuning : (r : Transport) (channel : ℕ) → SameTuning r (ensure_channel r channel)
unfolding ensure_channel
ensure-tuning r channel = ground arith

enqueue-tuning :
    (r : Transport) (channel : ℕ) (payload : Bytes) → SameTuning r (enqueue r channel payload)
unfolding enqueue
enqueue-tuning r channel payload = ensure-tuning r channel

discard-tuning :
    (r : Transport) (channel : ℕ) (remaining fs : List ReliableFragment)
    → SameTuning r (discard_from r channel remaining fs)
unfolding discard_from forget
discard-tuning r channel remaining [] = (refl, refl, refl)
discard-tuning r channel remaining (f ∷ fs) = elim (Bool-cases (f.channel =/= channel)) [
  | inl other ↦ rw (other, discard_from) (discard-tuning r channel (remaining ++ (f ∷ [])) fs)
  | inr hit ↦ rw (hit, discard_from) (discard-tuning (forget r f) channel remaining fs)
]

remove-tuning :
    (r : Transport) (channel sequence : ℕ) → SameTuning r (remove_assembly r channel sequence)
unfolding remove_assembly
remove-tuning r channel sequence = ground arith

pass-tuning :
    (r : Transport) (channel : ℕ) (a : ReliableAssembly) → SameTuning r (pass_assembly r channel a)
unfolding pass_assembly
pass-tuning r channel a = remove-tuning r channel (channel_at r channel).next_delivered_fragment

deliver_from-tuning :
    (fuel : ℕ) (r : Transport) (channel : ℕ) (out : List DeliveredMessage)
    → SameTuning r (deliver_from fuel r channel out).0
unfolding deliver_from
deliver_from-tuning zero r channel out = (refl, refl, refl)
deliver_from-tuning (suc fuel) r channel out =
    let state = channel_at r channel in
    elim (Option-cases (lookup state.next_delivered_fragment state.reassemblies)) [
      | inl absent ↦ ground (arith, absent)
      | inr (a, held) ↦ ground (
        arith,
        held,
        pass-tuning r channel a,
        deliver_from-tuning fuel (pass_assembly r channel a) channel
            (out ++ (message_of channel a ∷ [])),
      )
    ]

deliver-tuning :
    (r : Transport) (ordered : Bool) (p : ReliablePacket) → SameTuning r (deliver r ordered p).0
unfolding deliver deliver_ordered
deliver-tuning r ordered p =
    let start = sub64 p.fragment_sequence p.fragment_index in
    let all = length (channel_at r p.channel).reassemblies in
    ground (arith, remove-tuning r p.channel start, deliver_from-tuning all r p.channel [])

receive_fragment-tuning :
    (r : Transport) (ordered : Bool) (p : ReliablePacket)
    → SameTuning r (receive_fragment r ordered p).0
unfolding receive_fragment store
receive_fragment-tuning r ordered p =
    let dirty = mark_dirty (ensure_channel r p.channel) p.channel in
    ground (arith, ensure-tuning r p.channel, deliver-tuning (store dirty p) ordered p)

discard_keys-tuning :
    (r : Transport) (channel : ℕ) (keys : List ℕ) → SameTuning r (discard_keys r channel keys)
unfolding discard_keys
discard_keys-tuning r channel [] = (refl, refl, refl)
discard_keys-tuning r channel (k ∷ ks) =
    omega (
      arith,
      discard_keys-tuning (remove_assembly r channel k) channel ks,
      remove-tuning r channel k,
    )

discard_inbound-tuning :
    (r : Transport) (channel : ℕ) → SameTuning r (discard_inbound_channel r channel)
unfolding discard_inbound_channel
discard_inbound-tuning r channel = elim (Option-cases (lookup channel r.channels)) [
  | inl absent ↦ rw (absent, discard_inbound_channel) (refl, refl, refl)
  | inr (state, held) ↦
      rw (held, discard_inbound_channel)
        (discard_keys-tuning r channel (map (λ e. e.0) state.reassemblies))
]

receive-IsTuned :
    (r : Transport) (p : ReliablePacket) (now : ℕ) → IsTuned r → IsTuned (receive r p now).0
unfolding receive
receive-IsTuned r p now v =
    let r' = consume_fragment_ack r p.channel p.fragment_ack_base p.fragment_ack_bitmap now in
    let v' =
      consume_fragment_ack-IsTuned r p.channel p.fragment_ack_base p.fragment_ack_bitmap now v in
    elim (Option-cases (channel_ordered p.channel)) [
      | inl unknown ↦ rw (unknown, receive) v
      | inr (ordered, known) ↦ ground (
        arith,
        known,
        v',
        SameTuning-IsTuned {r = r'} {s = (receive_fragment r' ordered p).0}
            (receive_fragment-tuning r' ordered p) v',
      )
    ]

step-IsTuned : (r : Transport) (c : Call) → IsTuned r → IsTuned (step r c)
unfolding step queue reject advance discard_outbound_channel
step-IsTuned r (queues channel payload) v = ground (
  arith,
  SameTuning-IsTuned {r = r} {s = enqueue r channel payload} (enqueue-tuning r channel payload) v,
)
step-IsTuned r (receives packet now) v = receive-IsTuned r packet now v
step-IsTuned r (commits s) v = commit-IsTuned r s v
step-IsTuned r (rejects unreserved) v = ground arith
step-IsTuned r (rejects (fresh f index now)) v = ground arith
step-IsTuned r (rejects (retransmit f index now)) v = ground arith
step-IsTuned r (rejects (ack channel index)) v = ground arith
step-IsTuned r (discards_outbound channel) v =
    SameTuning-IsTuned (discard-tuning r channel [] r.outbound) v
step-IsTuned r (discards_inbound channel) v =
    SameTuning-IsTuned (discard_inbound-tuning r channel) v

run_from-IsTuned : (r : Transport) (cs : List Call) → IsTuned r → IsTuned (run r cs)
unfolding run
run_from-IsTuned r [] v = v
run_from-IsTuned r (c ∷ cs) v = run_from-IsTuned (step r c) cs (step-IsTuned r c v)

-- After any calls on a new transport, in any order, the congestion window is between its minimum and
-- its maximum, the threshold is not below the minimum window, and the timeout is between its limits.
pub run-IsTuned : (cs : List Call) → IsTuned (run new_transport cs)
run-IsTuned cs = run_from-IsTuned new_transport cs new_transport-IsTuned
