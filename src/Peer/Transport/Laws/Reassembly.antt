-- ===== src/Peer/Transport/Laws/Reassembly.antt =====
-- The receiver's three counters are exact, and within their limits.
use bork.Base.{
  ℕ, zero, suc, ◌+◌, ◌≡◌, ◌≤◌, refl, ap, Bool, List, [], ◌∷◌, ◌++◌, length, map, inl, inr,
  Bool-cases, Option-cases, arith,
}
use bork.Base.Map.{lookup, delete, value_or, total_values, total-insert, total-delete}
use bork.Protocol.Reliable.{ReliablePacket}
use bork.Peer.Transport.{
  Transport, ReliableChannel, ReliableAssembly, DeliveredMessage, fresh_channel,
  max_reassembly_bytes, max_assemblies, max_fragments, sub64, channel_at, put_channel,
  ensure_channel, add_channel,
}
use bork.Peer.Transport.Queue.{remove_assembly, discard_keys, discard_inbound_channel}
use bork.Peer.Transport.Receive.{
  deliver, deliver_ordered, deliver_from, message_of, pass_assembly, is_complete, has_wrapped,
}

abbrev pub assembly_bytes : ReliableAssembly → ℕ
assembly_bytes a = a.bytes

abbrev pub assembly_parts : ReliableAssembly → ℕ
assembly_parts a = length a.fragments

abbrev pub one_assembly : ReliableAssembly → ℕ
one_assembly a = 1

-- A measure of assemblies, over a channel and over all channels.
abbrev pub in_channel : (ReliableAssembly → ℕ) → ReliableChannel → ℕ
in_channel f state = total_values f state.reassemblies

abbrev pub in_all : (ReliableAssembly → ℕ) → Transport → ℕ
in_all f r = total_values (in_channel f) r.channels

pub record IsCounted (r : Transport) : Type 0 where
  pub bytes : r.reassembly_bytes ≡ in_all assembly_bytes r
  pub count : r.reassembly_count ≡ in_all one_assembly r
  pub parts : r.reassembly_parts ≡ in_all assembly_parts r
  pub bytes_limit : r.reassembly_bytes ≤ max_reassembly_bytes
  pub count_limit : r.reassembly_count ≤ max_assemblies
  pub parts_limit : r.reassembly_parts ≤ max_fragments

-- What a write to a channel does to a total: the old channel leaves it.
pub in_all-put :
    (f : ReliableAssembly → ℕ) (r : Transport) (channel : ℕ) (state : ReliableChannel)
    → in_all f (put_channel r channel state) + in_channel f (channel_at r channel)
      ≡ in_all f r + in_channel f state
in_all-put f r channel state =
    let law = total-insert (in_channel f) channel state r.channels in
    elim (Option-cases (lookup channel r.channels)) [
      | inl absent ↦ ground (arith, absent, law)
      | inr (old, held) ↦ ground (arith, held, law)
    ]

-- A write that leaves the assemblies alone.
pub put-IsCounted :
    (r : Transport) (channel : ℕ) (state : ReliableChannel)
    → state.reassemblies ≡ (channel_at r channel).reassemblies
    → IsCounted r
    → IsCounted (put_channel r channel state)
put-IsCounted r channel state h v =
    let same = λ (f : ReliableAssembly → ℕ). ap (total_values f) h in
    record {
      bytes =
          omega (arith, v.bytes, in_all-put assembly_bytes r channel state, same assembly_bytes);
      count = omega (arith, v.count, in_all-put one_assembly r channel state, same one_assembly);
      parts =
          omega (arith, v.parts, in_all-put assembly_parts r channel state, same assembly_parts);
      bytes_limit = v.bytes_limit;
      count_limit = v.count_limit;
      parts_limit = v.parts_limit;
    }

pub ensure-IsCounted :
    (r : Transport) (channel : ℕ) → IsCounted r → IsCounted (ensure_channel r channel)
unfolding ensure_channel
ensure-IsCounted r channel v = elim (Option-cases (lookup channel r.channels)) [
  | inr (state, held) ↦ rw (held, ensure_channel) v
  | inl absent ↦
      rw (absent, ensure_channel, add_channel)
        (let p = put-IsCounted r channel fresh_channel (ground (arith, absent)) v in
          record {
            bytes = p.bytes;
            count = p.count;
            parts = p.parts;
            bytes_limit = v.bytes_limit;
            count_limit = v.count_limit;
            parts_limit = v.parts_limit;
          })
]

pub remove-IsCounted :
    (r : Transport) (channel sequence : ℕ)
    → IsCounted r
    → IsCounted (remove_assembly r channel sequence)
unfolding remove_assembly
remove-IsCounted r channel sequence v =
    let state = channel_at r channel in
    let state' : ReliableChannel = record state {
      reassemblies = delete sequence state.reassemblies;
    } in
    elim (Option-cases (lookup sequence state.reassemblies)) [
      | inl absent ↦ rw (absent, remove_assembly) v
      | inr (a, held) ↦
          let gone = λ (f : ReliableAssembly → ℕ). total-delete f sequence state.reassemblies in
          let value = λ (f : ReliableAssembly → ℕ). ap (value_or f 0) held in
          rw (held, remove_assembly)
            (record {
              bytes = omega (
                arith,
                v.bytes,
                in_all-put assembly_bytes r channel state',
                gone assembly_bytes,
                value assembly_bytes,
              );
              count = omega (
                arith,
                v.count,
                in_all-put one_assembly r channel state',
                gone one_assembly,
                value one_assembly,
              );
              parts = omega (
                arith,
                v.parts,
                in_all-put assembly_parts r channel state',
                gone assembly_parts,
                value assembly_parts,
              );
              bytes_limit = omega (arith, v.bytes_limit);
              count_limit = omega (arith, v.count_limit);
              parts_limit = omega (arith, v.parts_limit);
            })
    ]

pass-IsCounted :
    (r : Transport) (channel : ℕ) (a : ReliableAssembly)
    → IsCounted r
    → IsCounted (pass_assembly r channel a)
unfolding pass_assembly
pass-IsCounted r channel a v =
    put-IsCounted (remove_assembly r channel (channel_at r channel).next_delivered_fragment) channel
      _ refl (remove-IsCounted r channel (channel_at r channel).next_delivered_fragment v)

deliver_from-IsCounted :
    (fuel : ℕ) (r : Transport) (channel : ℕ) (out : List DeliveredMessage)
    → IsCounted r
    → IsCounted (deliver_from fuel r channel out).0
unfolding deliver_from
deliver_from-IsCounted zero r channel out v = v
deliver_from-IsCounted (suc fuel) r channel out v =
    let state = channel_at r channel in
    elim (Option-cases (lookup state.next_delivered_fragment state.reassemblies)) [
      | inl absent ↦ rw (absent, deliver_from) v
      | inr (a, held) ↦
          let passed = pass-IsCounted r channel a v in
          elim (Bool-cases (is_complete a)) [
            | inr part ↦ rw (held, deliver_from, part) v
            | inl whole ↦ elim (Bool-cases (has_wrapped state a)) [
              | inl last ↦ rw (held, deliver_from, whole, last) passed
              | inr more ↦
                  rw (held, deliver_from, whole, more)
                    (deliver_from-IsCounted fuel (pass_assembly r channel a) channel
                      (out ++ (message_of channel a ∷ [])) passed)
            ]
          ]
    ]

pub deliver-IsCounted :
    (r : Transport) (ordered : Bool) (p : ReliablePacket)
    → IsCounted r
    → IsCounted (deliver r ordered p).0
unfolding deliver deliver_ordered
deliver-IsCounted r ordered p v =
    let start = sub64 p.fragment_sequence p.fragment_index in
    elim (Option-cases (lookup start (channel_at r p.channel).reassemblies)) [
      | inl absent ↦ rw (absent, deliver) v
      | inr (a, held) ↦ elim (Bool-cases (is_complete a)) [
        | inr part ↦ rw (held, deliver, part) v
        | inl whole ↦ elim (Bool-cases ordered) [
          | inr loose ↦ rw (held, deliver, whole, loose) (remove-IsCounted r p.channel start v)
          | inl in_order ↦
              rw (held, deliver, whole, in_order)
                (deliver_from-IsCounted (length (channel_at r p.channel).reassemblies) r p.channel
                  [] v)
        ]
      ]
    ]

discard_keys-IsCounted :
    (r : Transport) (channel : ℕ) (keys : List ℕ)
    → IsCounted r
    → IsCounted (discard_keys r channel keys)
unfolding discard_keys
discard_keys-IsCounted r channel [] v = v
discard_keys-IsCounted r channel (k ∷ ks) v =
    discard_keys-IsCounted (remove_assembly r channel k) channel ks (remove-IsCounted r channel k v)

pub discard_inbound-IsCounted :
    (r : Transport) (channel : ℕ) → IsCounted r → IsCounted (discard_inbound_channel r channel)
unfolding discard_inbound_channel
discard_inbound-IsCounted r channel v = elim (Option-cases (lookup channel r.channels)) [
  | inl absent ↦ rw (absent, discard_inbound_channel) v
  | inr (state, held) ↦
      rw (held, discard_inbound_channel)
        (discard_keys-IsCounted r channel (map (λ e. e.0) state.reassemblies) v)
]
