-- ===== src/Peer/Transport/Laws/Queued.antt =====
-- `queue` numbers its fragments apart from those that are there.
use bork.Base.{
  ℕ, ◌+◌, ◌-◌, ◌≡◌, ◌≤◌, ◌<◌, sym, ap, subst, ◌∙◌, false, ◌==◌, List, [], ◌∷◌, ◌++◌, All,
  All-append, length, ok, inl, inr, ==_iff, Bool-cases, arith,
}
use bork.Base.Bytes.{Bytes}
use bork.Peer.Transport.{Transport, ReliableFragment, ReliableChannel, channel_at, ensure_channel}
use bork.Peer.Transport.Queue.{queue, enqueue, fragments_of}
use bork.Peer.Transport.Send.{is_same}
use bork.Peer.Transport.Laws.Accounts.{Keyed}
use bork.Peer.Transport.Laws.Fragments.{IsRun, queue-Accounted, queue_ok, queue_fragments}
use bork.Peer.Transport.Laws.Keys.{counter, counter-ensure, channel_at-put, IsNumbered}
use bork.Peer.Transport.Laws.Soundness.{IsSound, All-counters}

-- The sequences of a run of fragments.
IsRun-le :
    (channel count index sequence : ℕ) (fs : List ReliableFragment)
    → IsRun channel count index sequence fs
    → index ≤ count
IsRun-le channel count index sequence [] h = omega arith
IsRun-le channel count index sequence (f ∷ fs) h =
    omega (arith, IsRun-le channel count (index + 1) (sequence + 1) fs h.7)

abbrev Within : ℕ → ℕ → ℕ → ReliableFragment → Type 0
Within channel low high f =
    (f.channel ≡ channel) × (low < f.fragment_sequence) × (f.fragment_sequence ≤ high)

IsRun-Within :
    (channel count index sequence low high : ℕ) (fs : List ReliableFragment)
    → IsRun channel count index sequence fs
    → low ≤ sequence
    → sequence + (count - index) ≤ high
    → All (Within channel low high) fs
IsRun-Within channel count index sequence low high [] h a b = tt
IsRun-Within channel count index sequence low high (f ∷ fs) h a b =
    let more = IsRun-le channel count (index + 1) (sequence + 1) fs h.7 in
    (
      (h.0, omega arith, omega arith),
      IsRun-Within channel count (index + 1) (sequence + 1) low high fs h.7 (omega arith)
          (omega arith),
    )

Within-apart :
    (f : ReliableFragment) (low high : ℕ) (gs : List ReliableFragment)
    → f.fragment_sequence ≤ low
    → All (Within f.channel low high) gs
    → All (λ g. is_same f g ≡ false) gs
Within-apart f low high [] h w = tt
Within-apart f low high (g ∷ gs) h w = (ground (arith, w.0), Within-apart f low high gs h w.1)

Keyed-append :
    (fs gs : List ReliableFragment)
    → Keyed fs
    → Keyed gs
    → All (λ f. All (λ g. is_same f g ≡ false) gs) fs
    → Keyed (fs ++ gs)
Keyed-append [] gs h k a = k
Keyed-append (f ∷ fs) gs h k a =
    (All-append (λ g. is_same f g ≡ false) fs gs h.0 a.0, Keyed-append fs gs h.1 k a.1)

IsRun-Keyed :
    (channel count index sequence : ℕ) (fs : List ReliableFragment)
    → IsRun channel count index sequence fs
    → Keyed fs
IsRun-Keyed channel count index sequence [] h = tt
IsRun-Keyed channel count index sequence (f ∷ fs) h = (
  Within-apart f (sequence + 1) (sequence + 1 + (count - (index + 1))) fs (omega arith) (
      rw h.0 (
        IsRun-Within channel count (index + 1) (sequence + 1) (sequence + 1) _ fs h.7 (omega arith)
          (omega arith))),
  IsRun-Keyed channel count (index + 1) (sequence + 1) fs h.7,
)

numbered_apart :
    (r : Transport) (channel high : ℕ) (fs gs : List ReliableFragment)
    → All (IsNumbered r) fs
    → All (Within channel (counter r channel) high) gs
    → All (λ f. All (λ g. is_same f g ≡ false) gs) fs
numbered_apart r channel high [] gs n w = tt
numbered_apart r channel high (f ∷ fs) gs n w =
    (one gs w, numbered_apart r channel high fs gs n.1 w)
  where
    one :
        (hs : List ReliableFragment)
        → All (Within channel (counter r channel) high) hs
        → All (λ g. is_same f g ≡ false) hs
    one [] v = tt
    one (g ∷ hs) v = elim (Bool-cases (g.channel == f.channel)) [
      | inr other ↦ (ground (arith, other), one hs v.1)
      | inl same ↦
          let where_f : f.channel ≡ channel = sym ((==_iff g.channel f.channel).0 same) ∙ v.0.0 in
          (ground (arith, v.0, n.0, ap (counter r) where_f), one hs v.1)
    ]

-- `enqueue` moves the counter of its channel past the new fragments, and no other.
counter-enqueue :
    (r : Transport) (channel : ℕ) (payload : Bytes)
    → (counter (enqueue r channel payload) channel
        ≡ counter r channel + fragments_of (length payload))
      × ((c : ℕ) → counter r c ≤ counter (enqueue r channel payload) c)
unfolding enqueue
counter-enqueue r channel payload =
    let r' = ensure_channel r channel in
    let count : ℕ = fragments_of (length payload) in
    let base = counter-ensure r channel in
    let state : ReliableChannel = record (channel_at r' channel) {
      next_fragment_sequence = counter r' channel + count;
    } in
    let at_put =
      λ (c : ℕ). ap (λ t. t.next_fragment_sequence) (channel_at-put r' channel c state) in
    (
      ground (arith, at_put channel, base channel),
      λ c. elim (Bool-cases (channel == c)) [
        | inl same ↦
            ground (arith, same, at_put c, base c, ap (counter r') ((==_iff channel c).0 same))
        | inr other ↦ ground (arith, other, at_put c, base c)
      ],
    )

All-Within-IsNumbered :
    (r : Transport) (channel low high : ℕ) (fs : List ReliableFragment)
    → high ≤ counter r channel
    → All (Within channel low high) fs
    → All (IsNumbered r) fs
All-Within-IsNumbered r channel low high [] h w = tt
All-Within-IsNumbered r channel low high (f ∷ fs) h w =
    (omega (arith, ap (counter r) w.0.0, w.0), All-Within-IsNumbered r channel low high fs h w.1)

pub queue-IsSound :
    (r s : Transport) (channel : ℕ) (payload : Bytes)
    → queue r channel payload ≡ ok s
    → IsSound r
    → IsSound s
queue-IsSound r s channel payload e v =
    let (passed, same) = queue_ok r s channel payload e in
    let (fs, out, whole, cut, few) = queue_fragments r s channel payload e in
    let count : ℕ = fragments_of (length payload) in
    let start = counter-ensure r channel channel in
    let (moved, above) = counter-enqueue r channel payload in
    let moved' : counter s channel ≡ counter r channel + count =
      ap (λ t. counter t channel) same ∙ moved in
    let fresh_ones : All (Within channel (counter r channel) (counter r channel + count)) fs =
      IsRun-Within channel count 0 _ (counter r channel) (counter r channel + count) fs cut
        (omega (arith, start)) (omega (arith, start)) in
    record {
      accounted = queue-Accounted r s channel payload e v.accounted;
      keyed = subst Keyed (sym out) (
          Keyed-append r.outbound fs v.keyed (IsRun-Keyed channel count 0 _ fs cut)
            (numbered_apart r channel _ r.outbound fs v.numbered fresh_ones));
      numbered = subst (All (IsNumbered s)) (sym out) (
          All-append (IsNumbered s) r.outbound fs
            (All-counters r s r.outbound (λ c. omega (arith, above c, ap (λ t. counter t c) same))
              v.numbered)
            (All-Within-IsNumbered s channel (counter r channel) _ fs (omega (arith, moved'))
              fresh_ones));
    }
