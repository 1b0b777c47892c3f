-- ===== src/Peer/Transport/Laws/Keys.antt =====
-- Fragments of `outbound` as pointers: no two share channel and sequence, and none is ahead of the
-- counter of its channel.
use bork.Base.{
  ℕ, ◌≡◌, ◌≤◌, refl, sym, ap, ◌∙◌, Bool, false, not, if◌then◌else◌, ◌==◌, ◌=/=◌, List, [], ◌∷◌,
  ◌++◌, All, append-nil, keep, keep-true, keep-false, keep-All, map, inl, inr, ==_iff, Bool-cases,
  Option-cases, arith,
}
use bork.Base.Map.{lookup, lookup-insert, value_or}
use bork.Peer.Transport.{
  Transport, ReliableChannel, ReliableFragment, channel_at, put_channel, fresh_channel,
  ensure_channel, add_channel,
}
use bork.Peer.Transport.Queue.{discard_from, forget}
use bork.Peer.Transport.Congestion.{Sweep, sweep, sweep_step, acknowledge, is_acked}
use bork.Peer.Transport.Send.{update_fragment, is_same}
use bork.Peer.Transport.Laws.Accounts.{Keyed}

pub channel_at-put :
    (r : Transport) (c d : ℕ) (state : ReliableChannel)
    → channel_at (put_channel r c state) d ≡ (if c == d then state else channel_at r d)
channel_at-put r c d state = rw (lookup-insert c d state r.channels) (ground arith)

-- The counter of a channel.
abbrev pub counter : Transport → ℕ → ℕ
counter r channel = (channel_at r channel).next_fragment_sequence

-- What is written to a channel leaves the counters alone when it leaves its own alone.
pub counter-put :
    (r : Transport) (c d : ℕ) (state : ReliableChannel)
    → state.next_fragment_sequence ≡ counter r c
    → counter (put_channel r c state) d ≡ counter r d
counter-put r c d state h =
    ap (λ t. t.next_fragment_sequence) (channel_at-put r c d state) ∙ elim (Bool-cases (c == d)) [
      | inl same ↦ ground (arith, same, h, ap (counter r) ((==_iff c d).0 same))
      | inr other ↦ ground (arith, other)
    ]

pub counter-ensure : (r : Transport) (c d : ℕ) → counter (ensure_channel r c) d ≡ counter r d
unfolding ensure_channel
counter-ensure r c d = elim (Option-cases (lookup c r.channels)) [
  | inl absent ↦
      rw (absent, ensure_channel, add_channel)
        (ap (λ t. (value_or (λ state. state) fresh_channel t).next_fragment_sequence)
            (lookup-insert c d fresh_channel r.channels)
          ∙ elim (Bool-cases (c == d)) [
            | inl same ↦
                ground (arith, same, absent, ap (λ t. lookup t r.channels) ((==_iff c d).0 same))
            | inr other ↦ ground (arith, other)
          ])
  | inr (state, held) ↦ rw (held, ensure_channel) refl
]

-- A fragment is numbered by its channel's counter.
abbrev pub IsNumbered : Transport → ReliableFragment → Type 0
IsNumbered r f = f.fragment_sequence ≤ counter r f.channel

pub keep-Keyed :
    (p : ReliableFragment → Bool) (fs : List ReliableFragment) → Keyed fs → Keyed (keep p fs)
keep-Keyed p [] k = tt
keep-Keyed p (f ∷ fs) k = elim (Bool-cases (p f)) [
  | inl yes_p ↦
      rw (keep-true p f fs yes_p)
        (keep-All (λ g. is_same f g ≡ false) p fs k.0, keep-Keyed p fs k.1)
  | inr no_p ↦ rw (keep-false p f fs no_p) (keep-Keyed p fs k.1)
]

pub keep-IsNumbered :
    (r : Transport) (p : ReliableFragment → Bool) (fs : List ReliableFragment)
    → All (IsNumbered r) fs
    → All (IsNumbered r) (keep p fs)
keep-IsNumbered r p fs h = keep-All (IsNumbered r) p fs h

-- A write to fragments that leaves channel and sequence alone.
abbrev pub KeepsKey : (ReliableFragment → ReliableFragment) → Type 0
KeepsKey write =
    (f : ReliableFragment)
    → ((write f).channel ≡ f.channel) × ((write f).fragment_sequence ≡ f.fragment_sequence)

pub map-Keyed :
    (write : ReliableFragment → ReliableFragment) (fs : List ReliableFragment)
    → KeepsKey write
    → Keyed fs
    → Keyed (map write fs)
map-Keyed write [] w k = tt
map-Keyed write (f ∷ fs) w k = (apart_map fs k.0, map-Keyed write fs w k.1)
  where
    apart_map :
        (gs : List ReliableFragment)
        → All (λ g. is_same f g ≡ false) gs
        → All (λ g. is_same (write f) g ≡ false) (map write gs)
    apart_map [] h = tt
    apart_map (g ∷ gs) h = (ground (arith, h.0, w f, w g), apart_map gs h.1)

pub map-IsNumbered :
    (r : Transport) (write : ReliableFragment → ReliableFragment) (fs : List ReliableFragment)
    → KeepsKey write
    → All (IsNumbered r) fs
    → All (IsNumbered r) (map write fs)
map-IsNumbered r write [] w h = tt
map-IsNumbered r write (f ∷ fs) w h =
    let (c, s) = w f in (rw (c, s) h.0, map-IsNumbered r write fs w h.1)

-- A write through one pointer is a write to all that keeps the keys.
pub update-eq-map :
    (f : ReliableFragment) (write : ReliableFragment → ReliableFragment)
    (fs : List ReliableFragment)
    → update_fragment f write fs ≡ map (λ g. if is_same f g then write g else g) fs
unfolding update_fragment
update-eq-map f write [] = refl
update-eq-map f write (g ∷ gs) =
    ap (λ t. (if is_same f g then write g else g) ∷ t) (update-eq-map f write gs)

pub KeepsKey-update :
    (f : ReliableFragment) (write : ReliableFragment → ReliableFragment)
    → KeepsKey write
    → KeepsKey (λ g. if is_same f g then write g else g)
KeepsKey-update f write w g = ground (arith, w g)

-- The two loops over `outbound` that drop fragments are filters.
append_keep :
    (kept fs : List ReliableFragment) (f : ReliableFragment)
    → (kept ++ (f ∷ [])) ++ fs ≡ kept ++ (f ∷ fs)
append_keep [] fs f = refl
append_keep (k ∷ ks) fs f = ap (λ t. k ∷ t) (append_keep ks fs f)

pub outbound-discard_from :
    (r : Transport) (channel : ℕ) (kept fs : List ReliableFragment)
    → (discard_from r channel kept fs).outbound ≡ kept ++ keep (λ f. f.channel =/= channel) fs
unfolding discard_from
outbound-discard_from r channel kept [] = sym (append-nil kept)
outbound-discard_from r channel kept (f ∷ fs) = elim (Bool-cases (f.channel =/= channel)) [
  | inl other ↦
      rw (other, discard_from, keep-true (λ g. g.channel =/= channel) f fs other)
        (outbound-discard_from r channel (kept ++ (f ∷ [])) fs
          ∙ append_keep kept (keep (λ g. g.channel =/= channel) fs) f)
  | inr hit ↦
      rw (hit, discard_from, keep-false (λ g. g.channel =/= channel) f fs hit)
        (outbound-discard_from (forget r f) channel kept fs)
]

pub remaining-sweep :
    (channel base bitmap now : ℕ) (s : Sweep) (fs : List ReliableFragment)
    → (sweep channel base bitmap now s fs).remaining
      ≡ s.remaining ++ keep (λ f. not (is_acked channel base bitmap f)) fs
unfolding sweep sweep_step
remaining-sweep channel base bitmap now s [] = sym (append-nil s.remaining)
remaining-sweep channel base bitmap now s (f ∷ fs) =
    let later =
      remaining-sweep channel base bitmap now (sweep_step channel base bitmap now s f) fs in
    let open_ones = λ (g : ReliableFragment). not (is_acked channel base bitmap g) in
    elim (Bool-cases (is_acked channel base bitmap f)) [
      | inl acked ↦
          let dropped = keep-false open_ones f fs (rw acked refl) in
          later ∙ ground (arith, acked, dropped)
      | inr open_one ↦
          let kept = keep-true open_ones f fs (rw open_one refl) in
          later ∙ ground (arith, open_one, kept, append_keep s.remaining (keep open_ones fs) f)
    ]

pub channels-sweep :
    (channel base bitmap now : ℕ) (s : Sweep) (fs : List ReliableFragment)
    → (sweep channel base bitmap now s fs).transport.channels ≡ s.transport.channels
unfolding sweep sweep_step acknowledge
channels-sweep channel base bitmap now s [] = refl
channels-sweep channel base bitmap now s (f ∷ fs) =
    channels-sweep channel base bitmap now (sweep_step channel base bitmap now s f) fs
    ∙ ground (arith, Bool-cases (is_acked channel base bitmap f))

pub channels-discard_from :
    (r : Transport) (channel : ℕ) (kept fs : List ReliableFragment)
    → (discard_from r channel kept fs).channels ≡ r.channels
unfolding discard_from forget
channels-discard_from r channel kept [] = refl
channels-discard_from r channel kept (f ∷ fs) = elim (Bool-cases (f.channel =/= channel)) [
  | inl other ↦ rw (other, discard_from) (channels-discard_from r channel (kept ++ (f ∷ [])) fs)
  | inr hit ↦ rw (hit, discard_from) (channels-discard_from (forget r f) channel kept fs)
]
