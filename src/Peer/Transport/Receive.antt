-- ===== src/Peer/Transport/Receive.antt =====
-- reliable.go: `receive`, reassembly and ordered delivery.
use bork.Base.{
  ℕ, zero, suc, ◌+◌, ◌-◌, ◌%◌, Bool, true, false, not, if◌then◌else◌, ◌==◌, ◌=/=◌, ltb, leb, ◌||◌,
  ◌&&◌, List, [], ◌∷◌, ◌++◌, length, none, some,
}
use bork.Base.Bytes.{Bytes}
use bork.Base.Map.{Map, lookup, insert, value_or}
use bork.Protocol.Reliable.{ReliablePacket, ack_only}
use bork.Peer.Window.{u64_mod, accept, may_accept}
use bork.Peer.Transport.{
  Transport, ReliableChannel, ReliableAssembly, DeliveredMessage, max_reassembly_bytes,
  max_assemblies, max_fragments, sub64, channel_ordered, channel_at, put_channel, ensure_channel,
}
use bork.Peer.Transport.Queue.{remove_assembly}
use bork.Peer.Transport.Congestion.{consume_fragment_ack}

-- The loop of `assembleReliable`, with `rounds` left; a fragment that is missing adds nothing.
unfoldable pub assemble_from : ℕ → ℕ → Map Bytes → Bytes
assemble_from zero index fragments = []
assemble_from (suc rounds) index fragments =
    value_or (λ b. b) [] (lookup index fragments) ++ assemble_from rounds (index + 1) fragments

unfoldable pub assemble_reliable : ReliableAssembly → Bytes
unfolding assemble_from
assemble_reliable a = assemble_from a.fragment_count 0 a.fragments

abbrev pub is_complete : ReliableAssembly → Bool
is_complete a = length a.fragments == a.fragment_count

abbrev pub message_of : ℕ → ReliableAssembly → DeliveredMessage
message_of channel a = record { channel = channel; payload = assemble_reliable a }

-- `state.nextDeliveredFragment + uint64(assembly.fragmentCount)`
abbrev pub next_start : ReliableChannel → ReliableAssembly → ℕ
next_start state a = (state.next_delivered_fragment + a.fragment_count) % u64_mod

abbrev pub has_wrapped : ReliableChannel → ReliableAssembly → Bool
has_wrapped state a = ltb (next_start state a) state.next_delivered_fragment

-- The channel moves past the assembly, to 0 for good once the sequence has wrapped.
unfoldable pub pass_assembly : Transport → ℕ → ReliableAssembly → Transport
pass_assembly r channel a =
    let state = channel_at r channel in
    let r' = remove_assembly r channel state.next_delivered_fragment in
    put_channel r' channel (record (channel_at r' channel) {
      next_delivered_fragment = if has_wrapped state a then 0 else next_start state a;
    })

-- The loop of `deliverOrdered`. A round takes one assembly out, so their number is enough fuel.
unfoldable pub deliver_from :
    ℕ → Transport → ℕ → List DeliveredMessage → Transport × List DeliveredMessage
deliver_from zero r channel delivered = (r, delivered)
deliver_from (suc fuel) r channel delivered =
    let state = channel_at r channel in
    elim (lookup state.next_delivered_fragment state.reassemblies) [
      | none ↦ (r, delivered)
      | some a ↦
          let r' = pass_assembly r channel a in
          let delivered' = delivered ++ (message_of channel a ∷ []) in
          let rest = deliver_from fuel r' channel delivered' in
          if not (is_complete a)
          then (r, delivered)
          else if has_wrapped state a
          then (r', delivered')
          else rest
    ]

unfoldable pub deliver_ordered : Transport → ℕ → Transport × List DeliveredMessage
deliver_ordered r channel = deliver_from (length (channel_at r channel).reassemblies) r channel []

-- The checks between `ackDirty = true` and the first write, each of which returns nil.
unfoldable pub refuses : Transport → Bool → ReliableChannel → ReliablePacket → Bool
refuses r ordered state p =
    let start = sub64 p.fragment_sequence p.fragment_index in
    let known = lookup start state.reassemblies in
    not (may_accept state.received p.fragment_sequence)
    || ((ordered && (state.next_delivered_fragment == 0 || ltb start state.next_delivered_fragment))
        || (value_or
              (λ a.
                a.fragment_count =/= p.fragment_count
                || value_or (λ b. true) false (lookup p.fragment_index a.fragments))
              false known
            || (ltb (max_reassembly_bytes - r.reassembly_bytes) (length p.payload)
                || (leb max_fragments r.reassembly_parts
                    || value_or (λ a. false) (leb max_assemblies r.reassembly_count) known))))

abbrev pub new_assembly : ℕ → ReliableAssembly
new_assembly count = record { fragment_count = count; fragments = []; bytes = 0 }

-- The assembly with the fragment put in.
abbrev pub grown : ReliablePacket → ReliableAssembly → ReliableAssembly
grown p a = record a {
  fragments = insert p.fragment_index p.payload a.fragments;
  bytes = a.bytes + length p.payload;
}

-- The writes of `receive` for a fragment that it keeps.
unfoldable pub store : Transport → ReliablePacket → Transport
store r p =
    let state = channel_at r p.channel in
    let start = sub64 p.fragment_sequence p.fragment_index in
    let known = lookup start state.reassemblies in
    let assembly = grown p (value_or (λ a. a) (new_assembly p.fragment_count) known) in
    record (put_channel r p.channel (record state {
      reassemblies = insert start assembly state.reassemblies;
      received = (accept state.received p.fragment_sequence).0;
    })) {
      reassembly_bytes = r.reassembly_bytes + length p.payload;
      reassembly_count = value_or (λ a. r.reassembly_count) (r.reassembly_count + 1) known;
      reassembly_parts = r.reassembly_parts + 1;
    }

-- What `receive` does after `store`: hand over what is complete.
unfoldable pub deliver : Transport → Bool → ReliablePacket → Transport × List DeliveredMessage
deliver r ordered p =
    let start = sub64 p.fragment_sequence p.fragment_index in
    elim (lookup start (channel_at r p.channel).reassemblies) [
      | none ↦ (r, [])
      | some assembly ↦
          if not (is_complete assembly)
          then (r, [])
          else if not ordered
          then (remove_assembly r p.channel start, message_of p.channel assembly ∷ [])
          else deliver_ordered r p.channel
    ]

abbrev pub mark_dirty : Transport → ℕ → Transport
mark_dirty r channel = put_channel r channel (record (channel_at r channel) { ack_dirty = true })

-- A packet that carries a fragment, once its acknowledgment has been taken.
unfoldable pub receive_fragment :
    Transport → Bool → ReliablePacket → Transport × List DeliveredMessage
unfolding ensure_channel
receive_fragment r ordered p =
    let dirty = mark_dirty (ensure_channel r p.channel) p.channel in
    if refuses dirty ordered (channel_at dirty p.channel) p
    then (dirty, [])
    else deliver (store dirty p) ordered p

unfoldable pub receive : Transport → ReliablePacket → ℕ → Transport × List DeliveredMessage
receive r p now = elim (channel_ordered p.channel) [
  | none ↦ (r, [])
  | some ordered ↦
      let r' = consume_fragment_ack r p.channel p.fragment_ack_base p.fragment_ack_bitmap now in
      if ack_only p then (r', []) else receive_fragment r' ordered p
]
