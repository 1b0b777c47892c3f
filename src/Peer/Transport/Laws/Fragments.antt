-- ===== src/Peer/Transport/Laws/Fragments.antt =====
-- How `queue` cuts a message: the fragments hold it whole, in order, in contiguous sequences.
use bork.Base.{
  ℕ, zero, suc, ◌+◌, ◌-◌, ◌*◌, ◌≡◌, ◌≤◌, ◌<◌, refl, sym, ap, ◌∙◌, min, List, [], ◌∷◌, ◌++◌, length,
  length-append, length-drop, length-take, take-slice, total, total-append, drop, drop_all,
  drop-drop, take-append-drop, ok, inl, inr, Option-cases, Result-cases, arith,
}
use bork.Base.Bytes.{Bytes}
use bork.Base.Map.{lookup}
use bork.Protocol.Wire.{max_reliable_fragments}
use bork.Peer.Transport.{
  Transport, ReliableFragment, max_queued_bytes, ensure_channel, channel_at, mss,
}
use bork.Peer.Transport.Queue.{can_queue, enqueue, queue, fragments_from, fragments_of}
use bork.Peer.Transport.Laws.Accounts.{size, flying, Accounted}

-- The bytes of a run of fragments.
abbrev pub joined : List ReliableFragment → Bytes
joined [] = []
joined (f ∷ fs) = f.payload ++ joined fs

-- Fragments `index`, `index + 1`, … of a message of `count`, whose sequences follow `sequence`.
abbrev pub IsRun : ℕ → ℕ → ℕ → ℕ → List ReliableFragment → Type 0
IsRun channel count index sequence [] = index ≡ count
IsRun channel count index sequence (f ∷ fs) =
    (f.channel ≡ channel)
    × (f.fragment_count ≡ count)
    × (f.fragment_index ≡ index)
    × (f.fragment_sequence ≡ sequence + 1)
    × (1 ≤ length f.payload)
    × (length f.payload ≤ mss)
    × (f.transmissions ≡ 0)
    × IsRun channel count (index + 1) (sequence + 1) fs

joined-fragments_from :
    (rounds index count sequence channel : ℕ) (payload : Bytes)
    → length payload ≤ (index + rounds) * mss
    → joined (fragments_from rounds index count sequence channel payload)
      ≡ drop (index * mss) payload
unfolding fragments_from
joined-fragments_from zero index count sequence channel payload h =
    sym (drop_all (index * mss) payload (omega arith))
joined-fragments_from (suc rounds) index count sequence channel payload h =
    let later =
      joined-fragments_from rounds (index + 1) count (sequence + 1) channel payload (omega arith) in
    let next = drop-drop (index * mss) mss ((index + 1) * mss) payload (omega arith) in
    rw (take-slice (index * mss) mss payload, later, ← next)
      (take-append-drop mss (drop (index * mss) payload))

fragments_from-IsRun :
    (rounds index count sequence channel : ℕ) (payload : Bytes)
    → index + rounds ≡ count
    → (count - 1) * mss < length payload
    → IsRun channel count index sequence
        (fragments_from rounds index count sequence channel payload)
unfolding fragments_from
fragments_from-IsRun zero index count sequence channel payload h p = omega arith
fragments_from-IsRun (suc rounds) index count sequence channel payload h p =
    let taken =
      length-take (min (index * mss + mss) (length payload) - index * mss)
        (drop (index * mss) payload) in
    (
      refl,
      refl,
      refl,
      refl,
      omega (arith, taken, length-drop (index * mss) payload),
      omega (arith, taken, length-drop (index * mss) payload),
      refl,
      fragments_from-IsRun rounds (index + 1) count (sequence + 1) channel payload (omega arith) p,
    )

total-size : (fs : List ReliableFragment) → total size fs ≡ length (joined fs)
total-size [] = refl
total-size (f ∷ fs) = omega (arith, total-size fs, length-append f.payload (joined fs))

IsRun-flying :
    (channel count index sequence : ℕ) (fs : List ReliableFragment)
    → IsRun channel count index sequence fs
    → total flying fs ≡ 0
IsRun-flying channel count index sequence [] h = refl
IsRun-flying channel count index sequence (f ∷ fs) h =
    ground (arith, IsRun-flying channel count (index + 1) (sequence + 1) fs h.7)

can_queue_ok :
    (r : Transport) (channel n : ℕ)
    → can_queue r channel n ≡ ok tt
    → (0 < n) × (n ≤ max_reliable_fragments * mss) × (n ≤ max_queued_bytes - r.queued_bytes)
unfolding can_queue
can_queue_ok r channel n e = ground arith

-- What `queue` has done when it answers without an error.
pub queue_ok :
    (r s : Transport) (channel : ℕ) (payload : Bytes)
    → queue r channel payload ≡ ok s
    → (can_queue r channel (length payload) ≡ ok tt) × (s ≡ enqueue r channel payload)
unfolding queue
queue_ok r s channel payload e = elim (Result-cases (can_queue r channel (length payload))) [
  | inl (done, passed) ↦ (passed, ground (arith, passed))
  | inr (_, refused) ↦ absurd (ground (arith, refused))
]

-- The fragments that `queue` appends.
abbrev pub new_fragments : Transport → ℕ → Bytes → List ReliableFragment
new_fragments r channel payload =
    fragments_from (fragments_of (length payload)) 0 (fragments_of (length payload))
      (channel_at (ensure_channel r channel) channel).next_fragment_sequence channel payload

ensure_keeps :
    (r : Transport) (channel : ℕ)
    → ((ensure_channel r channel).outbound ≡ r.outbound)
      × ((ensure_channel r channel).queued_bytes ≡ r.queued_bytes)
      × ((ensure_channel r channel).bytes_in_flight ≡ r.bytes_in_flight)
unfolding ensure_channel
ensure_keeps r channel = elim (Option-cases (lookup channel r.channels)) [
  | inl absent ↦ rw (absent, ensure_channel) (refl, refl, refl)
  | inr (state, held) ↦ rw (held, ensure_channel) (refl, refl, refl)
]

pub enqueue_fields :
    (r : Transport) (channel : ℕ) (payload : Bytes)
    → ((enqueue r channel payload).outbound ≡ r.outbound ++ new_fragments r channel payload)
      × ((enqueue r channel payload).queued_bytes ≡ r.queued_bytes + length payload)
      × ((enqueue r channel payload).bytes_in_flight ≡ r.bytes_in_flight)
unfolding enqueue
enqueue_fields r channel payload =
    let (out, queued, flight) = ensure_keeps r channel in
    (
      ap (λ t. t ++ new_fragments r channel payload) out,
      ap (λ t. t + length payload) queued,
      flight,
    )

-- When `queue` succeeds, it appends to `outbound` fragments of that channel, at most 1024 of them, whose
-- payloads joined are the message. They have the message's count, indices from 0 and sequences from the
-- next one of the channel, each without a gap, payloads of 1 to `mss` bytes, and no transmission.
pub queue_fragments :
    (r s : Transport) (channel : ℕ) (payload : Bytes)
    → queue r channel payload ≡ ok s
    → (fs : List ReliableFragment) × (s.outbound ≡ r.outbound ++ fs)
      × (joined fs ≡ payload)
      × (IsRun channel
          (fragments_of (length payload))
          0
          (channel_at (ensure_channel r channel) channel).next_fragment_sequence
          fs)
      × (fragments_of (length payload) ≤ max_reliable_fragments)
queue_fragments r s channel payload e =
    let (passed, same) = queue_ok r s channel payload e in
    let (some_bytes, small, _) = can_queue_ok r channel (length payload) passed in
    let count : ℕ = fragments_of (length payload) in
    let next : ℕ = (channel_at (ensure_channel r channel) channel).next_fragment_sequence in
    (
      new_fragments r channel payload,
      ap (λ t. t.outbound) same ∙ (enqueue_fields r channel payload).0,
      joined-fragments_from count 0 count next channel payload (omega arith),
      fragments_from-IsRun count 0 count next channel payload (omega arith) (omega arith),
      omega arith,
    )

-- Where the byte counters are the sums over `outbound` and within the queue limit, they still are when
-- `queue` succeeds.
pub queue-Accounted :
    (r s : Transport) (channel : ℕ) (payload : Bytes)
    → queue r channel payload ≡ ok s
    → Accounted r
    → Accounted s
queue-Accounted r s channel payload e v =
    let (passed, same) = queue_ok r s channel payload e in
    let (some_bytes, small, room) = can_queue_ok r channel (length payload) passed in
    let (fs, out, whole, cut, _) = queue_fragments r s channel payload e in
    let (_, queued, flight) = enqueue_fields r channel payload in
    record {
      queued = omega (
        arith,
        ap (λ t. t.queued_bytes) same,
        queued,
        v.queued,
        ap (total size) out,
        total-append size r.outbound fs,
        total-size fs,
        ap length whole,
      );
      flight = omega (
        arith,
        ap (λ t. t.bytes_in_flight) same,
        flight,
        v.flight,
        ap (total flying) out,
        total-append flying r.outbound fs,
        IsRun-flying channel _ 0 _ fs cut,
      );
      limit = omega (arith, ap (λ t. t.queued_bytes) same, queued, room, v.limit);
    }
