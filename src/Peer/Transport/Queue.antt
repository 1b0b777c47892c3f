-- ===== src/Peer/Transport/Queue.antt =====
-- reliable.go: `queue`, `canQueue`, `pendingChannel` and the two ways to discard a channel.
use bork.Base.{
  ℕ, zero, suc, ◌+◌, ◌-◌, ◌*◌, ◌/◌, min, Bool, true, false, if◌then◌else◌, ◌==◌, ◌=/=◌, ltb, ◌||◌,
  List, [], ◌∷◌, ◌++◌, length, take, drop, map, Option, none, some, Result, ok, reject, ◌>>◌,
}
use bork.Base.Bytes.{Bytes}
use bork.Base.Map.{lookup, delete}
use bork.Protocol.Wire.{max_reliable_fragments}
use bork.Peer.Window.{u64_mod}
use bork.Peer.Transport.{
  Transport, ReliableChannel, ReliableFragment, mss, max_queued_bytes, channel_ordered, channel_at,
  put_channel, ensure_channel,
}

pub data QueueError : Type 0 where
  channel_unknown message_empty message_too_large queue_full sequence_exhausted : QueueError

-- `(size + reliableMSS - 1) / reliableMSS`
abbrev pub fragments_of : ℕ → ℕ
fragments_of size = (size + mss - 1) / mss

abbrev pub is_unknown : ℕ → Bool
is_unknown channel = elim (channel_ordered channel) [ none ↦ true | some _ ↦ false ]

-- `state != nil && uint64(fragmentCount) > ^uint64(0) - state.nextFragmentSequence`
abbrev pub is_exhausted : Option ReliableChannel → ℕ → Bool
is_exhausted none count = false
is_exhausted (some state) count = ltb (u64_mod - 1 - state.next_fragment_sequence) count

unfoldable pub can_queue : Transport → ℕ → ℕ → Result QueueError (Unit {0})
can_queue r channel size = do
  reject (is_unknown channel) channel_unknown
  reject (size == 0) message_empty
  reject (ltb (max_reliable_fragments * mss) size) message_too_large
  reject (ltb (max_queued_bytes - r.queued_bytes) size) queue_full
  reject (is_exhausted (lookup channel r.channels) (fragments_of size)) sequence_exhausted

-- The loop of `queue`, with `rounds` left. `can_queue` keeps the counter below `2 ^ 64`.
unfoldable pub fragments_from : ℕ → ℕ → ℕ → ℕ → ℕ → Bytes → List ReliableFragment
fragments_from zero index count sequence channel payload = []
fragments_from (suc rounds) index count sequence channel payload =
    let start = index * mss in
    let end = min (start + mss) (length payload) in
    record {
      channel = channel;
      fragment_sequence = sequence + 1;
      fragment_index = index;
      fragment_count = count;
      payload = take (end - start) (drop start payload);
      sent_at = 0;
      transmissions = 0;
      timeout_pending = false;
    }
    ∷ fragments_from rounds (index + 1) count (sequence + 1) channel payload

-- `queue` once `can_queue` has passed.
unfoldable pub enqueue : Transport → ℕ → Bytes → Transport
enqueue r channel payload =
    let count = fragments_of (length payload) in
    let r' = ensure_channel r channel in
    let state = channel_at r' channel in
    record (put_channel r' channel
      (record state { next_fragment_sequence = state.next_fragment_sequence + count })) {
        outbound =
            r'.outbound
            ++ fragments_from count 0 count state.next_fragment_sequence channel payload;
        queued_bytes = r'.queued_bytes + length payload;
      }

unfoldable pub queue : Transport → ℕ → Bytes → Result QueueError Transport
queue r channel payload = do can_queue r channel (length payload); ok (enqueue r channel payload)

unfoldable pub pending_in : ℕ → List ReliableFragment → Bool
pending_in channel [] = false
pending_in channel (f ∷ fs) = f.channel == channel || pending_in channel fs

unfoldable pub pending_channel : Transport → ℕ → Bool
unfolding pending_in
pending_channel r channel = pending_in channel r.outbound

-- What one discarded fragment does to the counters.
unfoldable pub forget : Transport → ReliableFragment → Transport
forget r f = record r {
  queued_bytes = r.queued_bytes - length f.payload;
  bytes_in_flight =
      if f.transmissions =/= 0 then r.bytes_in_flight - length f.payload else r.bytes_in_flight;
}

-- The loop of `discardOutboundChannel` over the fragments left; it builds `remaining`.
unfoldable pub discard_from :
    Transport → ℕ → List ReliableFragment → List ReliableFragment → Transport
discard_from r channel remaining [] = record r { outbound = remaining }
discard_from r channel remaining (f ∷ fs) =
    discard_from (if f.channel =/= channel then r else forget r f) channel
      (if f.channel =/= channel then remaining ++ (f ∷ []) else remaining) fs

unfoldable pub discard_outbound_channel : Transport → ℕ → Transport
unfolding discard_from
discard_outbound_channel r channel = discard_from r channel [] r.outbound

unfoldable pub remove_assembly : Transport → ℕ → ℕ → Transport
remove_assembly r channel sequence =
    let state = channel_at r channel in
    elim (lookup sequence state.reassemblies) [
      | none ↦ r
      | some assembly ↦
          record (put_channel r channel
            (record state { reassemblies = delete sequence state.reassemblies })) {
              reassembly_bytes = r.reassembly_bytes - assembly.bytes;
              reassembly_count = r.reassembly_count - 1;
              reassembly_parts = r.reassembly_parts - length assembly.fragments;
            }
    ]

-- The loop of `discardInboundChannel`, over the keys in some order.
unfoldable pub discard_keys : Transport → ℕ → List ℕ → Transport
discard_keys r channel [] = r
discard_keys r channel (sequence ∷ rest) =
    discard_keys (remove_assembly r channel sequence) channel rest

unfoldable pub discard_inbound_channel : Transport → ℕ → Transport
unfolding discard_keys
discard_inbound_channel r channel = elim (lookup channel r.channels) [
  | none ↦ r
  | some state ↦ discard_keys r channel (map (λ e. e.0) state.reassemblies)
]
