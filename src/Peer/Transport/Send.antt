-- ===== src/Peer/Transport/Send.antt =====
-- reliable.go: `nextSend` and what it calls, `commit` and `reject`.
use bork.Base.{
  ℕ, zero, suc, ◌+◌, ◌*◌, ◌/◌, ◌%◌, min, max, Bool, true, false, not, if◌then◌else◌, ◌==◌, ◌=/=◌,
  ltb, ◌||◌, ◌&&◌, List, [], ◌∷◌, length, get_or, map, Option, none, some,
}
use bork.Base.Map.{Map, lookup, insert, value_or}
use bork.Protocol.Reliable.{ReliablePacket}
use bork.Peer.Transport.{
  Transport, ReliableFragment, minimum_cwnd, maximum_rto, sub64, channel_at, put_channel,
}

-- `reliableReservation`, one constructor for each kind; the first is the zero value.
pub data Reservation : Type 0 where
  unreserved : Reservation
  fresh : (fragment : ReliableFragment) (data_index now : ℕ) → Reservation
  retransmit : (fragment : ReliableFragment) (data_index now : ℕ) → Reservation
  ack : (channel ack_index : ℕ) → Reservation

-- What `nextSend` and its parts answer when their last result is true.
pub record Sending : Type 0 where
  pub packet : ReliablePacket
  pub reservation : Reservation

unfoldable pub packet_for : Transport → ReliableFragment → ReliablePacket
packet_for r f = record {
  channel = f.channel;
  fragment_sequence = f.fragment_sequence;
  fragment_index = f.fragment_index;
  fragment_count = f.fragment_count;
  fragment_ack_base = (channel_at r f.channel).received.highest;
  fragment_ack_bitmap = (channel_at r f.channel).received.seen;
  payload = f.payload;
}

-- The inner loop of `nextFragment`.
unfoldable pub find_fragment :
    (ReliableFragment → Bool) → ℕ → List ReliableFragment → Option ReliableFragment
find_fragment eligible channel [] = none
find_fragment eligible channel (f ∷ fs) =
    if f.channel == channel && eligible f then some f else find_fragment eligible channel fs

-- The loop over `offset`, with `rounds` left; `ackChannels` is not empty inside it.
unfoldable pub scan_channels :
    (ReliableFragment → Bool) → Transport → ℕ → ℕ → Option (ReliableFragment × ℕ)
scan_channels eligible r zero offset = none
scan_channels eligible r (suc rounds) offset =
    let index = (r.data_cursor + offset) % length r.ack_channels in
    let later = scan_channels eligible r rounds (offset + 1) in
    elim (find_fragment eligible (get_or r.ack_channels index 0) r.outbound) [
      | some f ↦ some (f, index)
      | none ↦ later
    ]

unfoldable pub next_fragment : (ReliableFragment → Bool) → Transport → Option (ReliableFragment × ℕ)
unfolding scan_channels
next_fragment eligible r = scan_channels eligible r (length r.ack_channels) 0

-- `!now.Before(fragment.sentAt.Add(r.rto))`
abbrev pub is_expired : Transport → ℕ → ReliableFragment → Bool
is_expired r now f = not (ltb now (f.sent_at + r.rto))

unfoldable pub may_retransmit : Transport → ℕ → ReliableFragment → Bool
may_retransmit r now f = f.transmissions =/= 0 && (f.timeout_pending || is_expired r now f)

-- One round of the loop that fills `oldestTransmitted`.
unfoldable pub note_oldest : Map ℕ → ReliableFragment → Map ℕ
note_oldest oldest f =
    let known = value_or (λ s. s) 0 (lookup f.channel oldest) in
    if f.transmissions == 0
    then oldest
    else if known == 0 || ltb f.fragment_sequence known
    then insert f.channel f.fragment_sequence oldest
    else oldest

unfoldable pub oldest_transmitted : Map ℕ → List ReliableFragment → Map ℕ
unfolding note_oldest
oldest_transmitted oldest [] = oldest
oldest_transmitted oldest (f ∷ fs) = oldest_transmitted (note_oldest oldest f) fs

unfoldable pub may_send_new : Transport → Map ℕ → ReliableFragment → Bool
may_send_new r oldest f =
    let first = value_or (λ s. s) 0 (lookup f.channel oldest) in
    if f.transmissions =/= 0 || ltb r.cwnd (r.bytes_in_flight + length f.payload)
    then false
    else first == 0 || ltb (sub64 f.fragment_sequence first) 64

unfoldable pub next_packet : Transport → ℕ → Option Sending
next_packet r now = elim (next_fragment (may_retransmit r now) r) [
  | some (f, index) ↦
      some (record { packet = packet_for r f; reservation = retransmit f index now })
  | none ↦ elim (next_fragment (may_send_new r (oldest_transmitted [] r.outbound)) r) [
    | some (f, index) ↦ some (record { packet = packet_for r f; reservation = fresh f index now })
    | none ↦ none
  ]
]

-- An acknowledgment alone: every other field is zero.
unfoldable pub ack_packet : Transport → ℕ → ReliablePacket
ack_packet r channel = record {
  channel = channel;
  fragment_sequence = 0;
  fragment_index = 0;
  fragment_count = 0;
  fragment_ack_base = (channel_at r channel).received.highest;
  fragment_ack_bitmap = (channel_at r channel).received.seen;
  payload = [];
}

-- The loop of `nextAck`, with `rounds` left.
unfoldable pub scan_acks : Transport → ℕ → ℕ → Option Sending
scan_acks r zero offset = none
scan_acks r (suc rounds) offset =
    let index = (r.ack_cursor + offset) % length r.ack_channels in
    let channel = get_or r.ack_channels index 0 in
    let later = scan_acks r rounds (offset + 1) in
    let here = some (record { packet = ack_packet r channel; reservation = ack channel index }) in
    if (channel_at r channel).ack_dirty then here else later

unfoldable pub next_ack : Transport → Option Sending
unfolding scan_acks
next_ack r = scan_acks r (length r.ack_channels) 0

unfoldable pub next_send : Transport → ℕ → Option Sending
next_send r now =
    if r.prefer_ack
    then elim (next_ack r) [ some s ↦ some s | none ↦ next_packet r now ]
    else elim (next_packet r now) [ some s ↦ some s | none ↦ next_ack r ]

unfoldable pub advance : Transport → Reservation → Transport
advance r (ack channel index) = record r {
  ack_cursor = (index + 1) % length r.ack_channels;
  prefer_ack = false;
}
advance r (fresh f index now) = record r {
  data_cursor = (index + 1) % length r.ack_channels;
  prefer_ack = true;
}
advance r (retransmit f index now) = record r {
  data_cursor = (index + 1) % length r.ack_channels;
  prefer_ack = true;
}
advance r unreserved = record r { data_cursor = (0 + 1) % length r.ack_channels; prefer_ack = true }

unfoldable pub reject : Transport → Reservation → Transport
reject r reservation = advance r reservation

-- Whether a fragment of `outbound` is the one that a reservation points to.
abbrev pub is_same : ReliableFragment → ReliableFragment → Bool
is_same f g = g.channel == f.channel && g.fragment_sequence == f.fragment_sequence

-- A write through the pointer to a fragment.
unfoldable pub update_fragment :
    ReliableFragment
    → (ReliableFragment → ReliableFragment)
    → List ReliableFragment
    → List ReliableFragment
update_fragment f write [] = []
update_fragment f write (g ∷ gs) = (if is_same f g then write g else g) ∷ update_fragment f write gs

-- `transmissions++`, `sentAt = now`
abbrev pub transmitted : ℕ → ReliableFragment → ReliableFragment
transmitted now g = record g { transmissions = g.transmissions + 1; sent_at = now }

abbrev pub retransmitted : ℕ → ReliableFragment → ReliableFragment
retransmitted now g = record g {
  transmissions = g.transmissions + 1;
  sent_at = now;
  timeout_pending = false;
}

-- What has expired joins the wave that the first retransmission opens.
abbrev pub freeze : Transport → ℕ → ReliableFragment → ReliableFragment
freeze r now g =
    if g.transmissions =/= 0 && is_expired r now g then record g { timeout_pending = true } else g

unfoldable pub back_off : Transport → ℕ → Transport
back_off r now = record r {
  outbound = map (freeze r now) r.outbound;
  ssthresh = max (r.cwnd / 2) minimum_cwnd;
  cwnd = minimum_cwnd;
  rto = min (r.rto * 2) maximum_rto;
}

-- `reservation.channel.ackDirty = false`
unfoldable pub clear_dirty : Transport → ℕ → Transport
clear_dirty r channel = put_channel r channel (record (channel_at r channel) { ack_dirty = false })

-- A reservation is committed or rejected before anything else happens to the transport, so its
-- copy of the fragment has the flag that the fragment has.
unfoldable pub commit : Transport → Reservation → Transport
unfolding back_off clear_dirty advance
commit r unreserved = r
commit r (fresh f index now) =
    let r' = record r {
      outbound = update_fragment f (transmitted now) r.outbound;
      bytes_in_flight = r.bytes_in_flight + length f.payload;
    } in
    clear_dirty (advance r' (fresh f index now)) f.channel
commit r (retransmit f index now) =
    let waved = if f.timeout_pending then r else back_off r now in
    let r' = record waved { outbound = update_fragment f (retransmitted now) waved.outbound } in
    clear_dirty (advance r' (retransmit f index now)) f.channel
commit r (ack channel index) = clear_dirty (advance r (ack channel index)) channel
