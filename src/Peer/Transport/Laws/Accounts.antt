-- ===== src/Peer/Transport/Laws/Accounts.antt =====
-- The byte counters of the sender agree with the fragments in `outbound`, so that none of the
-- subtractions from them stops at 0.
use bork.Base.{
  ℕ, zero, suc, ◌+◌, ◌-◌, ◌%◌, ◌≡◌, ◌≤◌, refl, ap, subst, Bool, true, false, if◌then◌else◌, ◌==◌,
  ◌=/=◌, ◌||◌, ◌&&◌, ◌⊎◌, List, [], ◌∷◌, ◌++◌, All, length, total, total-append, get_or, map, inl,
  inr, some, Bool-cases, Option-cases, arith,
}
use bork.Peer.Transport.{Transport, ReliableFragment, max_queued_bytes}
use bork.Peer.Transport.Queue.{discard_from, forget, discard_outbound_channel}
use bork.Peer.Transport.Congestion.{
  acknowledge, Sweep, sweep, sweep_step, sweep_start, settle, is_acked, consume_fragment_ack,
}
use bork.Peer.Transport.Send.{
  fresh, find_fragment, scan_channels, update_fragment, transmitted, retransmitted, is_same, freeze,
  commit,
}

abbrev pub size : ReliableFragment → ℕ
size f = length f.payload

-- What a fragment has in flight: its size once it has been transmitted.
abbrev pub flying : ReliableFragment → ℕ
flying f = if f.transmissions == 0 then 0 else length f.payload

pub record Accounted (r : Transport) : Type 0 where
  pub queued : r.queued_bytes ≡ total size r.outbound
  pub flight : r.bytes_in_flight ≡ total flying r.outbound
  pub limit : r.queued_bytes ≤ max_queued_bytes

-- In the middle of a loop over `outbound`: what is kept so far, and what is left.
record Between (r : Transport) (kept rest : List ReliableFragment) : Type 0 where
  queued : r.queued_bytes ≡ total size kept + total size rest
  flight : r.bytes_in_flight ≡ total flying kept + total flying rest
  limit : r.queued_bytes ≤ max_queued_bytes

acknowledge-bytes :
    (r : Transport) (f : ReliableFragment) (now : ℕ)
    → ((acknowledge r f now).queued_bytes ≡ r.queued_bytes - size f)
      × ((acknowledge r f now).bytes_in_flight ≡ r.bytes_in_flight - size f)
unfolding acknowledge
acknowledge-bytes r f now = ground arith

acked-flying :
    (channel base bitmap : ℕ) (f : ReliableFragment)
    → is_acked channel base bitmap f ≡ true
    → flying f ≡ size f
unfolding is_acked
acked-flying channel base bitmap f e = ground arith

sweep_step-Between :
    (channel base bitmap now : ℕ) (s : Sweep) (f : ReliableFragment) (fs : List ReliableFragment)
    → Between s.transport s.remaining (f ∷ fs)
    → let t = sweep_step channel base bitmap now s f in Between t.transport t.remaining fs
unfolding sweep_step
sweep_step-Between channel base bitmap now s f fs b =
    elim (Bool-cases (is_acked channel base bitmap f)) [
      | inl acked ↦ rw acked (
          omega (
            arith,
            b,
            acknowledge-bytes s.transport f now,
            acked-flying channel base bitmap f acked,
          ))
      | inr kept ↦ rw kept (
          omega (
            arith,
            b,
            total-append size s.remaining (f ∷ []),
            total-append flying s.remaining (f ∷ []),
          ))
    ]

sweep-Between :
    (channel base bitmap now : ℕ) (s : Sweep) (fs : List ReliableFragment)
    → Between s.transport s.remaining fs
    → let t = sweep channel base bitmap now s fs in Between t.transport t.remaining []
unfolding sweep
sweep-Between channel base bitmap now s [] b = b
sweep-Between channel base bitmap now s (f ∷ fs) b =
    sweep-Between channel base bitmap now (sweep_step channel base bitmap now s f) fs
      (sweep_step-Between channel base bitmap now s f fs b)

settle-Accounted : (s : Sweep) → Between s.transport s.remaining [] → Accounted (settle s)
unfolding settle
settle-Accounted s b = ground (arith, b.queued, b.flight, b.limit)

-- Where the byte counters are the sums over `outbound` and within the queue limit, they still are after
-- `consume_fragment_ack`, whatever the channel, the acknowledgment and the time.
pub consume_fragment_ack-Accounted :
    (r : Transport) (channel base bitmap now : ℕ)
    → Accounted r
    → Accounted (consume_fragment_ack r channel base bitmap now)
unfolding consume_fragment_ack
consume_fragment_ack-Accounted r channel base bitmap now v =
    elim (Bool-cases (base == 0 || bitmap == 0)) [
      | inl nothing ↦ rw nothing v
      | inr some_acks ↦ rw some_acks (
          settle-Accounted _ (
            sweep-Between channel base bitmap now (sweep_start r) r.outbound
              (record { queued = omega arith; flight = omega arith; limit = omega arith })))
    ]

discard_from-Accounted :
    (r : Transport) (channel : ℕ) (kept fs : List ReliableFragment)
    → Between r kept fs
    → Accounted (discard_from r channel kept fs)
unfolding discard_from forget
discard_from-Accounted r channel kept [] b = omega (arith, b)
discard_from-Accounted r channel kept (f ∷ fs) b = elim (Bool-cases (f.channel =/= channel)) [
  | inl other ↦
      rw (other, discard_from)
        (discard_from-Accounted r channel (kept ++ (f ∷ [])) fs
          (omega (arith, b, total-append size kept (f ∷ []), total-append flying kept (f ∷ []))))
  | inr hit ↦
      rw (hit, discard_from)
        (discard_from-Accounted (forget r f) channel kept fs (ground (arith, b)))
]

-- Where the byte counters are the sums over `outbound` and within the queue limit, they still are after
-- the outbound fragments of any channel are discarded.
pub discard_outbound-Accounted :
    (r : Transport) (channel : ℕ) → Accounted r → Accounted (discard_outbound_channel r channel)
unfolding discard_outbound_channel
discard_outbound-Accounted r channel v =
    discard_from-Accounted r channel [] r.outbound
      (record { queued = omega arith; flight = omega arith; limit = omega arith })

-- No two fragments of a list are the same for a pointer.
abbrev pub Keyed : List ReliableFragment → Type 0
Keyed [] = Unit {0}
Keyed (f ∷ fs) = All (λ g. is_same f g ≡ false) fs × Keyed fs

abbrev pub Held : ReliableFragment → List ReliableFragment → Type 0
Held f [] = ⊥
Held f (g ∷ gs) = (g ≡ f) ⊎ Held f gs

find_fragment-Held :
    (eligible : ReliableFragment → Bool) (channel : ℕ) (fs : List ReliableFragment)
    {f : ReliableFragment}
    → find_fragment eligible channel fs ≡ some f
    → Held f fs × (eligible f ≡ true)
unfolding find_fragment
find_fragment-Held eligible channel [] e = cc
find_fragment-Held eligible channel (g ∷ gs) {f} e =
    elim (Bool-cases (g.channel == channel && eligible g)) [
      | inl hit ↦
          let here : g ≡ f = ground (arith, hit) in
          (inl here, subst (λ t. eligible t ≡ true) here (ground (arith, hit)))
      | inr miss ↦
          let (later, able) =
            find_fragment-Held eligible channel gs {f = f} (ground (arith, miss)) in
          (inr later, able)
    ]

pub scan_channels-Held :
    (eligible : ReliableFragment → Bool) (r : Transport) (rounds offset : ℕ) {f : ReliableFragment}
    {index : ℕ}
    → scan_channels eligible r rounds offset ≡ some (f, index)
    → Held f r.outbound × (eligible f ≡ true)
unfolding scan_channels
scan_channels-Held eligible r zero offset e = cc
scan_channels-Held eligible r (suc rounds) offset {f} {index} e =
    let channel = get_or r.ack_channels ((r.data_cursor + offset) % length r.ack_channels) 0 in
    elim (Option-cases (find_fragment eligible channel r.outbound)) [
      | inl absent ↦
          scan_channels-Held eligible r rounds (offset + 1) {f = f} {index = index}
            (rw (absent, scan_channels) at e)
      | inr (g, found) ↦
          let here : g ≡ f = ground (arith, found) in
          subst (λ t. Held t r.outbound × (eligible t ≡ true)) here
            (find_fragment-Held eligible channel r.outbound found)
    ]

-- A write through the pointer leaves the other fragments alone.
update_others :
    (f : ReliableFragment) (write : ReliableFragment → ReliableFragment)
    (fs : List ReliableFragment)
    → All (λ g. is_same f g ≡ false) fs
    → update_fragment f write fs ≡ fs
unfolding update_fragment
update_others f write [] h = refl
update_others f write (g ∷ gs) h = rw (h.0, update_others f write gs h.1)

pub apart :
    (f g : ReliableFragment) (gs : List ReliableFragment)
    → All (λ x. is_same g x ≡ false) gs
    → Held f gs
    → is_same f g ≡ false
apart f g [] h m = absurd m
apart f g (x ∷ xs) h (inl e) =
    ground (arith, h.0, ap (λ t. t.channel) e, ap (λ t. t.fragment_sequence) e)
apart f g (x ∷ xs) h (inr m) = apart f g xs h.1 m

-- A write that keeps the payload changes a measure by what it does to the one fragment.
pub total-update :
    (measure : ReliableFragment → ℕ) (f : ReliableFragment)
    (write : ReliableFragment → ReliableFragment) (fs : List ReliableFragment)
    → Keyed fs
    → Held f fs
    → total measure (update_fragment f write fs) + measure f ≡ total measure fs + measure (write f)
unfolding update_fragment
total-update measure f write [] k m = absurd m
total-update measure f write (g ∷ gs) k (inl e) =
    let same : is_same f g ≡ true =
      ground (arith, ap (λ t. t.channel) e, ap (λ t. t.fragment_sequence) e) in
    let rest = update_others f write gs (subst (λ t. All (λ x. is_same t x ≡ false) gs) e k.0) in
    rw (same, rest, e) (omega arith)
total-update measure f write (g ∷ gs) k (inr m) =
    rw (apart f g gs k.0 m) (omega (arith, total-update measure f write gs k.1 m))

pub update-payload :
    (now : ℕ) (f : ReliableFragment)
    → (size (transmitted now f) ≡ size f)
      × (size (retransmitted now f) ≡ size f)
      × (flying (transmitted now f) ≡ size f)
      × (flying (retransmitted now f) ≡ size f)
update-payload now f = ground arith

pub total-freeze :
    (r : Transport) (now : ℕ) (fs : List ReliableFragment)
    → (total size (map (freeze r now) fs) ≡ total size fs)
      × (total flying (map (freeze r now) fs) ≡ total flying fs)
total-freeze r now [] = (refl, refl)
total-freeze r now (f ∷ fs) = ground (arith, total-freeze r now fs)

-- A fragment that goes out for the first time starts to count as in flight.
pub commit_fresh-Accounted :
    (r : Transport) (f : ReliableFragment) (index now : ℕ)
    → Keyed r.outbound
    → Held f r.outbound
    → f.transmissions ≡ 0
    → Accounted r
    → Accounted (commit r (fresh f index now))
unfolding commit
commit_fresh-Accounted r f index now k m z v =
    let sizes = total-update size f (transmitted now) r.outbound k m in
    let flights = total-update flying f (transmitted now) r.outbound k m in
    ground (arith, sizes, flights, update-payload now f, v.queued, v.flight, v.limit)
