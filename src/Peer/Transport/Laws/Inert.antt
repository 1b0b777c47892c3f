-- ===== src/Peer/Transport/Laws/Inert.antt =====
-- What reassembly leaves alone: the sender's side, and the counters that number its fragments.
use bork.Base.{
  ℕ, zero, suc, ◌≡◌, refl, ◌∙◌, Bool, List, [], ◌∷◌, ◌++◌, length, map, inl, inr, Bool-cases,
  Option-cases, arith,
}
use bork.Base.Map.{lookup}
use bork.Protocol.Reliable.{ReliablePacket}
use bork.Peer.Transport.{
  Transport, ReliableChannel, ReliableAssembly, DeliveredMessage, sub64, channel_at, put_channel,
  ensure_channel,
}
use bork.Peer.Transport.Queue.{remove_assembly, discard_keys, discard_inbound_channel}
use bork.Peer.Transport.Receive.{
  receive_fragment, store, deliver, deliver_ordered, deliver_from, message_of, pass_assembly,
  mark_dirty, is_complete, has_wrapped, refuses,
}
use bork.Peer.Transport.Laws.Keys.{counter, counter-put, counter-ensure}

pub record Inert (r s : Transport) : Type 0 where
  pub outbound : s.outbound ≡ r.outbound
  pub queued : s.queued_bytes ≡ r.queued_bytes
  pub flight : s.bytes_in_flight ≡ r.bytes_in_flight
  pub counters : (channel : ℕ) → counter s channel ≡ counter r channel

pub Inert-refl : (r : Transport) → Inert r r
Inert-refl r = record { outbound = refl; queued = refl; flight = refl; counters = λ c. refl }

pub Inert-trans : {r s t : Transport} → Inert r s → Inert s t → Inert r t
Inert-trans h k = record {
  outbound = k.outbound ∙ h.outbound;
  queued = k.queued ∙ h.queued;
  flight = k.flight ∙ h.flight;
  counters = λ c. k.counters c ∙ h.counters c;
}

pub ensure-Inert : (r : Transport) (channel : ℕ) → Inert r (ensure_channel r channel)
unfolding ensure_channel
ensure-Inert r channel = record {
  outbound = ground (arith, Option-cases (lookup channel r.channels));
  queued = ground (arith, Option-cases (lookup channel r.channels));
  flight = ground (arith, Option-cases (lookup channel r.channels));
  counters = λ c. counter-ensure r channel c;
}

pub put-Inert :
    (r : Transport) (channel : ℕ) (state : ReliableChannel)
    → state.next_fragment_sequence ≡ counter r channel
    → Inert r (put_channel r channel state)
put-Inert r channel state h = record {
  outbound = refl;
  queued = refl;
  flight = refl;
  counters = λ c. counter-put r channel c state h;
}

-- The reassembly totals are no part of this.
pub remove-Inert :
    (r : Transport) (channel sequence : ℕ) → Inert r (remove_assembly r channel sequence)
unfolding remove_assembly
remove-Inert r channel sequence =
    elim (Option-cases (lookup sequence (channel_at r channel).reassemblies)) [
      | inl absent ↦ rw (absent, remove_assembly) (Inert-refl r)
      | inr (a, held) ↦
          rw (held, remove_assembly)
            (let p = put-Inert r channel _ refl in
              record { outbound = refl; queued = refl; flight = refl; counters = p.counters })
    ]

pass-Inert :
    (r : Transport) (channel : ℕ) (a : ReliableAssembly) → Inert r (pass_assembly r channel a)
unfolding pass_assembly
pass-Inert r channel a =
    Inert-trans (remove-Inert r channel (channel_at r channel).next_delivered_fragment)
      (put-Inert _ channel _ refl)

deliver_from-Inert :
    (fuel : ℕ) (r : Transport) (channel : ℕ) (out : List DeliveredMessage)
    → Inert r (deliver_from fuel r channel out).0
unfolding deliver_from
deliver_from-Inert zero r channel out = Inert-refl r
deliver_from-Inert (suc fuel) r channel out =
    let state = channel_at r channel in
    elim (Option-cases (lookup state.next_delivered_fragment state.reassemblies)) [
      | inl absent ↦ rw (absent, deliver_from) (Inert-refl r)
      | inr (a, held) ↦
          let passed = pass-Inert r channel a in
          elim (Bool-cases (is_complete a)) [
            | inr part ↦ rw (held, deliver_from, part) (Inert-refl r)
            | inl whole ↦ elim (Bool-cases (has_wrapped state a)) [
              | inl last ↦ rw (held, deliver_from, whole, last) passed
              | inr more ↦
                  rw (held, deliver_from, whole, more)
                    (Inert-trans passed (
                      deliver_from-Inert fuel (pass_assembly r channel a) channel
                        (out ++ (message_of channel a ∷ []))))
            ]
          ]
    ]

deliver-Inert :
    (r : Transport) (ordered : Bool) (p : ReliablePacket) → Inert r (deliver r ordered p).0
unfolding deliver deliver_ordered
deliver-Inert r ordered p =
    let start = sub64 p.fragment_sequence p.fragment_index in
    elim (Option-cases (lookup start (channel_at r p.channel).reassemblies)) [
      | inl absent ↦ rw (absent, deliver) (Inert-refl r)
      | inr (a, held) ↦ elim (Bool-cases (is_complete a)) [
        | inr part ↦ rw (held, deliver, part) (Inert-refl r)
        | inl whole ↦ elim (Bool-cases ordered) [
          | inr loose ↦ rw (held, deliver, whole, loose) (remove-Inert r p.channel start)
          | inl in_order ↦
              rw (held, deliver, whole, in_order)
                (deliver_from-Inert (length (channel_at r p.channel).reassemblies) r p.channel [])
        ]
      ]
    ]

store-Inert : (r : Transport) (p : ReliablePacket) → Inert r (store r p)
unfolding store
store-Inert r p =
    let put = put-Inert r p.channel _ refl in
    record { outbound = refl; queued = refl; flight = refl; counters = put.counters }

pub receive_fragment-Inert :
    (r : Transport) (ordered : Bool) (p : ReliablePacket) → Inert r (receive_fragment r ordered p).0
unfolding receive_fragment
receive_fragment-Inert r ordered p =
    let dirty : Transport = mark_dirty (ensure_channel r p.channel) p.channel in
    let to_dirty : Inert r dirty =
      Inert-trans (ensure-Inert r p.channel)
        (put-Inert (ensure_channel r p.channel) p.channel _ refl) in
    elim (Bool-cases (refuses dirty ordered (channel_at dirty p.channel) p)) [
      | inl refused ↦ rw refused to_dirty
      | inr kept ↦ rw kept (
          Inert-trans to_dirty
            (Inert-trans (store-Inert dirty p) (deliver-Inert (store dirty p) ordered p)))
    ]

discard_keys-Inert :
    (r : Transport) (channel : ℕ) (keys : List ℕ) → Inert r (discard_keys r channel keys)
unfolding discard_keys
discard_keys-Inert r channel [] = Inert-refl r
discard_keys-Inert r channel (k ∷ ks) =
    Inert-trans (remove-Inert r channel k)
      (discard_keys-Inert (remove_assembly r channel k) channel ks)

pub discard_inbound-Inert :
    (r : Transport) (channel : ℕ) → Inert r (discard_inbound_channel r channel)
unfolding discard_inbound_channel
discard_inbound-Inert r channel = elim (Option-cases (lookup channel r.channels)) [
  | inl absent ↦ rw (absent, discard_inbound_channel) (Inert-refl r)
  | inr (state, held) ↦
      rw (held, discard_inbound_channel)
        (discard_keys-Inert r channel (map (λ e. e.0) state.reassemblies))
]
