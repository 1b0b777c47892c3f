-- ===== src/Peer/Transport/Laws/Stored.antt =====
-- A fragment that `receive` keeps leaves the receiver's counters exact and within their limits.
use bork.Base.{
  ℕ, ◌-◌, ◌≡◌, ◌≤◌, ◌<◌, refl, ap, Bool, false, [], length, inl, inr, none, some, Bool-cases,
  Option-cases, arith,
}
use bork.Base.Map.{lookup, insert, value_or, total-insert, length-insert_new}
use bork.Base.Bytes.{Bytes}
use bork.Peer.Window.{accept}
use bork.Protocol.Reliable.{ReliablePacket}
use bork.Peer.Transport.{
  Transport, ReliableChannel, ReliableAssembly, max_reassembly_bytes, max_assemblies, max_fragments,
  sub64, channel_at, ensure_channel,
}
use bork.Peer.Transport.Receive.{receive_fragment, store, mark_dirty, refuses, grown, new_assembly}
use bork.Peer.Transport.Laws.Reassembly.{
  assembly_bytes, assembly_parts, one_assembly, in_all-put, IsCounted, put-IsCounted,
  ensure-IsCounted, deliver-IsCounted,
}

lookup_nil : (index : ℕ) → lookup {V = Bytes} index [] ≡ none
unfolding lookup
lookup_nil index = refl

-- What the checks of `receive` leave when they pass, for an assembly that is there and for a new one.
refuses_known :
    (r : Transport) (ordered : Bool) (state : ReliableChannel) (p : ReliablePacket)
    (a : ReliableAssembly)
    → lookup (sub64 p.fragment_sequence p.fragment_index) state.reassemblies ≡ some a
    → refuses r ordered state p ≡ false
    → (lookup p.fragment_index a.fragments ≡ none)
      × (length p.payload ≤ max_reassembly_bytes - r.reassembly_bytes)
      × (r.reassembly_parts < max_fragments)
unfolding refuses
refuses_known r ordered state p a k e = elim (Option-cases (lookup p.fragment_index a.fragments)) [
  | inl absent ↦ (absent, ground (arith, k, e), ground (arith, k, e))
  | inr (b, held) ↦ absurd (ground (arith, k, held, e))
]

refuses_new :
    (r : Transport) (ordered : Bool) (state : ReliableChannel) (p : ReliablePacket)
    → lookup (sub64 p.fragment_sequence p.fragment_index) state.reassemblies ≡ none
    → refuses r ordered state p ≡ false
    → (length p.payload ≤ max_reassembly_bytes - r.reassembly_bytes)
      × (r.reassembly_parts < max_fragments)
      × (r.reassembly_count < max_assemblies)
unfolding refuses
refuses_new r ordered state p k e =
    (ground (arith, k, e), ground (arith, k, e), ground (arith, k, e))

store-IsCounted :
    (r : Transport) (ordered : Bool) (p : ReliablePacket)
    → refuses r ordered (channel_at r p.channel) p ≡ false
    → IsCounted r
    → IsCounted (store r p)
unfolding store
store-IsCounted r ordered p e v =
    let state = channel_at r p.channel in
    let start = sub64 p.fragment_sequence p.fragment_index in
    elim (Option-cases (lookup start state.reassemblies)) [
      | inl absent ↦
          let (room, parts_room, count_room) = refuses_new r ordered state p absent e in
          let a : ReliableAssembly = grown p (new_assembly p.fragment_count) in
          let state' : ReliableChannel = record state {
            reassemblies = insert start a state.reassemblies;
            received = (accept state.received p.fragment_sequence).0;
          } in
          let one = length-insert_new p.fragment_index p.payload [] (lookup_nil p.fragment_index) in
          let put = λ (f : ReliableAssembly → ℕ). total-insert f start a state.reassemblies in
          let value = λ (f : ReliableAssembly → ℕ). ap (value_or f 0) absent in
          rw (absent, store)
            (record {
              bytes = omega (
                arith,
                v.bytes,
                in_all-put assembly_bytes r p.channel state',
                put assembly_bytes,
                value assembly_bytes,
              );
              count = omega (
                arith,
                v.count,
                in_all-put one_assembly r p.channel state',
                put one_assembly,
                value one_assembly,
              );
              parts = omega (
                arith,
                v.parts,
                one,
                in_all-put assembly_parts r p.channel state',
                put assembly_parts,
                value assembly_parts,
              );
              bytes_limit = omega (arith, v.bytes_limit, room);
              count_limit = omega (arith, count_room);
              parts_limit = omega (arith, parts_room);
            })
      | inr (known, held) ↦
          let (fresh_index, room, parts_room) = refuses_known r ordered state p known held e in
          let a : ReliableAssembly = grown p known in
          let state' : ReliableChannel = record state {
            reassemblies = insert start a state.reassemblies;
            received = (accept state.received p.fragment_sequence).0;
          } in
          let one = length-insert_new p.fragment_index p.payload known.fragments fresh_index in
          let put = λ (f : ReliableAssembly → ℕ). total-insert f start a state.reassemblies in
          let value = λ (f : ReliableAssembly → ℕ). ap (value_or f 0) held in
          rw (held, store)
            (record {
              bytes = omega (
                arith,
                v.bytes,
                in_all-put assembly_bytes r p.channel state',
                put assembly_bytes,
                value assembly_bytes,
              );
              count = omega (
                arith,
                v.count,
                in_all-put one_assembly r p.channel state',
                put one_assembly,
                value one_assembly,
              );
              parts = omega (
                arith,
                v.parts,
                one,
                in_all-put assembly_parts r p.channel state',
                put assembly_parts,
                value assembly_parts,
              );
              bytes_limit = omega (arith, v.bytes_limit, room);
              count_limit = omega (arith, v.count_limit);
              parts_limit = omega (arith, parts_room);
            })
    ]

pub receive_fragment-IsCounted :
    (r : Transport) (ordered : Bool) (p : ReliablePacket)
    → IsCounted r
    → IsCounted (receive_fragment r ordered p).0
unfolding receive_fragment
receive_fragment-IsCounted r ordered p v =
    let dirty : Transport = mark_dirty (ensure_channel r p.channel) p.channel in
    let v' : IsCounted dirty =
      put-IsCounted (ensure_channel r p.channel) p.channel _ refl
        (ensure-IsCounted r p.channel v) in
    elim (Bool-cases (refuses dirty ordered (channel_at dirty p.channel) p)) [
      | inl refused ↦ rw refused v'
      | inr kept ↦
          rw kept
            (deliver-IsCounted (store dirty p) ordered p (store-IsCounted dirty ordered p kept v'))
    ]
