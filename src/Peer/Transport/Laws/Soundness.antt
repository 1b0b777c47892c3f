-- ===== src/Peer/Transport/Laws/Soundness.antt =====
-- The invariant of a transport that a session drives, under what it receives and discards.
use bork.Base.{
  ℕ, ◌≡◌, ◌≤◌, sym, ap, subst, ◌∙◌, not, ◌==◌, ◌=/=◌, ◌||◌, List, [], ◌∷◌, All, keep, total, inl,
  inr, Bool-cases, Option-cases, arith,
}
use bork.Base.Map.{lookup, value_or}
use bork.Protocol.Reliable.{ReliablePacket, ack_only}
use bork.Peer.Transport.{Transport, ReliableFragment, fresh_channel, channel_ordered}
use bork.Peer.Transport.Queue.{discard_outbound_channel}
use bork.Peer.Transport.Congestion.{sweep, sweep_start, settle, is_acked, consume_fragment_ack}
use bork.Peer.Transport.Receive.{receive}
use bork.Peer.Transport.Laws.Accounts.{
  Accounted, Keyed, size, flying, consume_fragment_ack-Accounted, discard_outbound-Accounted,
}
use bork.Peer.Transport.Laws.Keys.{
  counter, IsNumbered, keep-Keyed, keep-IsNumbered, outbound-discard_from, remaining-sweep,
  channels-sweep, channels-discard_from, channels-discard_from,
}
use bork.Peer.Transport.Laws.Inert.{Inert, receive_fragment-Inert}

pub record IsSound (r : Transport) : Type 0 where
  pub accounted : Accounted r
  pub keyed : Keyed r.outbound
  pub numbered : All (IsNumbered r) r.outbound

pub All-counters :
    (r s : Transport) (fs : List ReliableFragment)
    → ((channel : ℕ) → counter r channel ≤ counter s channel)
    → All (IsNumbered r) fs
    → All (IsNumbered s) fs
All-counters r s [] h n = tt
All-counters r s (f ∷ fs) h n = (omega (arith, n.0, h f.channel), All-counters r s fs h n.1)

pub Inert-IsSound : {r s : Transport} → Inert r s → IsSound r → IsSound s
Inert-IsSound {r} {s} h v = record {
  accounted = record {
    queued = h.queued ∙ v.accounted.queued ∙ ap (total size) (sym h.outbound);
    flight = h.flight ∙ v.accounted.flight ∙ ap (total flying) (sym h.outbound);
    limit = omega (arith, h.queued, v.accounted.limit);
  };
  keyed = subst Keyed (sym h.outbound) v.keyed;
  numbered =
      rw h.outbound (All-counters r s r.outbound (λ c. omega (arith, h.counters c)) v.numbered);
}

outbound-settle-sweep :
    (r : Transport) (channel base bitmap now : ℕ)
    → (settle (sweep channel base bitmap now (sweep_start r) r.outbound)).outbound
      ≡ keep (λ f. not (is_acked channel base bitmap f)) r.outbound
unfolding settle
outbound-settle-sweep r channel base bitmap now =
    ground (arith, remaining-sweep channel base bitmap now (sweep_start r) r.outbound)

channels-settle-sweep :
    (r : Transport) (channel base bitmap now : ℕ)
    → (consume_fragment_ack r channel base bitmap now).channels ≡ r.channels
unfolding consume_fragment_ack settle
channels-settle-sweep r channel base bitmap now =
    ground (arith, channels-sweep channel base bitmap now (sweep_start r) r.outbound)

consume_fragment_ack-IsSound :
    (r : Transport) (channel base bitmap now : ℕ)
    → IsSound r
    → IsSound (consume_fragment_ack r channel base bitmap now)
unfolding consume_fragment_ack
consume_fragment_ack-IsSound r channel base bitmap now v =
    let s : Transport = consume_fragment_ack r channel base bitmap now in
    let same = channels-settle-sweep r channel base bitmap now in
    let left = λ (f : ReliableFragment). not (is_acked channel base bitmap f) in
    let counters = λ (c : ℕ).
      ap (λ t. (value_or (λ state. state) fresh_channel (lookup c t)).next_fragment_sequence)
        same in
    elim (Bool-cases (base == 0 || bitmap == 0)) [
      | inl nothing ↦ rw (nothing, consume_fragment_ack) v
      | inr some_acks ↦
          let out : s.outbound ≡ keep left r.outbound =
            rw (some_acks, consume_fragment_ack)
              (outbound-settle-sweep r channel base bitmap now) in
          record {
            accounted = consume_fragment_ack-Accounted r channel base bitmap now v.accounted;
            keyed = subst Keyed (sym out) (keep-Keyed left r.outbound v.keyed);
            numbered = subst (All (IsNumbered s)) (sym out) (
                All-counters r s (keep left r.outbound) (λ c. omega (arith, counters c))
                  (keep-IsNumbered r left r.outbound v.numbered));
          }
    ]

pub receive-IsSound :
    (r : Transport) (p : ReliablePacket) (now : ℕ) → IsSound r → IsSound (receive r p now).0
unfolding receive
receive-IsSound r p now v =
    let r' = consume_fragment_ack r p.channel p.fragment_ack_base p.fragment_ack_bitmap now in
    let v' =
      consume_fragment_ack-IsSound r p.channel p.fragment_ack_base p.fragment_ack_bitmap now v in
    elim (Option-cases (channel_ordered p.channel)) [
      | inl unknown ↦ rw (unknown, receive) v
      | inr (ordered, known) ↦ elim (Bool-cases (ack_only p)) [
        | inl alone ↦ rw (known, receive, alone) v'
        | inr carries ↦
            rw (known, receive, carries) (Inert-IsSound (receive_fragment-Inert r' ordered p) v')
      ]
    ]

pub discard_outbound-IsSound :
    (r : Transport) (channel : ℕ) → IsSound r → IsSound (discard_outbound_channel r channel)
unfolding discard_outbound_channel
discard_outbound-IsSound r channel v =
    let s : Transport = discard_outbound_channel r channel in
    let others = λ (f : ReliableFragment). f.channel =/= channel in
    let out : s.outbound ≡ keep others r.outbound = outbound-discard_from r channel [] r.outbound in
    let same : s.channels ≡ r.channels = channels-discard_from r channel [] r.outbound in
    let counters = λ (c : ℕ).
      ap (λ t. (value_or (λ state. state) fresh_channel (lookup c t)).next_fragment_sequence)
        same in
    record {
      accounted = discard_outbound-Accounted r channel v.accounted;
      keyed = subst Keyed (sym out) (keep-Keyed others r.outbound v.keyed);
      numbered = subst (All (IsNumbered s)) (sym out) (
          All-counters r s (keep others r.outbound) (λ c. omega (arith, counters c))
            (keep-IsNumbered r others r.outbound v.numbered));
    }
