-- ===== src/Peer/Transport/Laws/Committed.antt =====
-- Committing or rejecting what `nextSend` chooses keeps the transport sound.
use bork.Base.{
  ℕ, zero, suc, ◌+◌, ◌%◌, ◌⊎◌, get_or, ◌≡◌, ◌≤◌, refl, sym, subst, false, if◌then◌else◌, List, All,
  map, length, inl, inr, some, Bool-cases, Option-cases, arith,
}
use bork.Peer.Transport.{Transport, ReliableFragment, channel_at}
use bork.Peer.Transport.Send.{
  Sending, Reservation, fresh, retransmit, ack, unreserved, next_send, next_packet, next_ack,
  scan_acks, commit, reject, advance, transmitted, retransmitted, freeze, is_same, clear_dirty,
  update_fragment,
}
use bork.Peer.Transport.Laws.Accounts.{Accounted, Keyed}
use bork.Peer.Transport.Laws.Sends.{commit-next_packet-Accounted}
use bork.Peer.Transport.Laws.Keys.{
  counter, counter-put, IsNumbered, KeepsKey, map-Keyed, map-IsNumbered, update-eq-map,
  KeepsKey-update,
}
use bork.Peer.Transport.Laws.Soundness.{IsSound, All-counters, Inert-IsSound}

-- Whatever reservation is committed, the writes keep the keys.
transmitted-KeepsKey : (now : ℕ) → KeepsKey (transmitted now)
transmitted-KeepsKey now f = (refl, refl)

retransmitted-KeepsKey : (now : ℕ) → KeepsKey (retransmitted now)
retransmitted-KeepsKey now f = (refl, refl)

freeze-KeepsKey : (r : Transport) (now : ℕ) → KeepsKey (freeze r now)
freeze-KeepsKey r now f = ground arith

update-keys :
    (r : Transport) (f : ReliableFragment) (write : ReliableFragment → ReliableFragment)
    (fs : List ReliableFragment)
    → KeepsKey write
    → Keyed fs
    → All (IsNumbered r) fs
    → Keyed (update_fragment f write fs) × All (IsNumbered r) (update_fragment f write fs)
update-keys r f write fs w k n =
    let e = update-eq-map f write fs in
    let w' = KeepsKey-update f write w in
    (
      subst Keyed (sym e) (map-Keyed (λ g. if is_same f g then write g else g) fs w' k),
      subst (All (IsNumbered r)) (sym e)
          (map-IsNumbered r (λ g. if is_same f g then write g else g) fs w' n),
    )

same_counter : (r : Transport) (channel c : ℕ) → counter r c ≤ counter (clear_dirty r channel) c
unfolding clear_dirty
same_counter r channel c =
    omega
      (arith, counter-put r channel c (record (channel_at r channel) { ack_dirty = false }) refl)

commit-keys :
    (r : Transport) (c : Reservation)
    → Keyed r.outbound
    → All (IsNumbered r) r.outbound
    → Keyed (commit r c).outbound × All (IsNumbered (commit r c)) (commit r c).outbound
unfolding commit clear_dirty update_fragment
commit-keys r unreserved k n = (k, n)
commit-keys r (ack channel index) k n =
    (k, All-counters r (commit r (ack channel index)) r.outbound (λ c. same_counter r channel c) n)
commit-keys r (fresh f index now) k n =
    let (k', n') = update-keys r f (transmitted now) r.outbound (transmitted-KeepsKey now) k n in
    (k', All-counters r (clear_dirty r f.channel) _ (λ c. same_counter r f.channel c) n')
commit-keys r (retransmit f index now) k n = elim (Bool-cases f.timeout_pending) [
  | inl pending ↦
      let (k', n') =
        update-keys r f (retransmitted now) r.outbound (retransmitted-KeepsKey now) k n in
      rw pending
        (k', All-counters r (clear_dirty r f.channel) _ (λ c. same_counter r f.channel c) n')
  | inr open_wave ↦
      let frozen = map (freeze r now) r.outbound in
      let (k', n') =
        update-keys r f (retransmitted now) frozen (retransmitted-KeepsKey now)
          (map-Keyed (freeze r now) r.outbound (freeze-KeepsKey r now) k)
          (map-IsNumbered r (freeze r now) r.outbound (freeze-KeepsKey r now) n) in
      rw open_wave
        (k', All-counters r (clear_dirty r f.channel) _ (λ c. same_counter r f.channel c) n')
]

-- What `nextSend` may answer: an acknowledgment, or a choice of `nextPacket`.
scan_acks-ack :
    (r : Transport) (rounds offset : ℕ) {choice : Sending}
    → scan_acks r rounds offset ≡ some choice
    → (channel : ℕ) × (index : ℕ) × (choice.reservation ≡ ack channel index)
unfolding scan_acks
scan_acks-ack r zero offset e = cc
scan_acks-ack r (suc rounds) offset {choice} e =
    let index : ℕ = (r.ack_cursor + offset) % length r.ack_channels in
    let channel = get_or r.ack_channels index 0 in
    elim (Bool-cases (channel_at r channel).ack_dirty) [
      | inl dirty ↦ (channel, index, ground (arith, dirty))
      | inr clean ↦ scan_acks-ack r rounds (offset + 1) {choice = choice} (rw clean at e)
    ]

next_send-cases :
    (r : Transport) (now : ℕ) (choice : Sending)
    → next_send r now ≡ some choice
    → ((channel : ℕ) × (index : ℕ) × (choice.reservation ≡ ack channel index))
      ⊎ (next_packet r now ≡ some choice)
unfolding next_send next_ack
next_send-cases r now choice e =
    let answer = λ (found : next_ack r ≡ some choice).
      scan_acks-ack r (length r.ack_channels) 0 {choice = choice} found in
    elim (Option-cases (next_ack r)) [
      | inl absent ↦ inr (ground (arith, absent))
      | inr (a, found) ↦ elim (Option-cases (next_packet r now)) [
        | inl idle ↦ inl (answer (ground (arith, found, idle)))
        | inr (p, chosen) ↦ elim (Bool-cases r.prefer_ack) [
          | inl ack_first ↦ inl (answer (ground (arith, found, chosen, ack_first)))
          | inr data_first ↦ inr (ground (arith, found, chosen, data_first))
        ]
      ]
    ]

commit_ack-Accounted :
    (r : Transport) (channel index : ℕ) → Accounted r → Accounted (commit r (ack channel index))
unfolding commit
commit_ack-Accounted r channel index v = record {
  queued = v.queued;
  flight = v.flight;
  limit = v.limit;
}

pub commit-IsSound :
    (r : Transport) (now : ℕ) (choice : Sending)
    → next_send r now ≡ some choice
    → IsSound r
    → IsSound (commit r choice.reservation)
commit-IsSound r now choice e v =
    let (k, n) = commit-keys r choice.reservation v.keyed v.numbered in
    record {
      accounted = elim (next_send-cases r now choice e) [
        | inr chosen ↦ commit-next_packet-Accounted r now choice chosen v.keyed v.accounted
        | inl (channel, index, acks) ↦ rw acks (commit_ack-Accounted r channel index v.accounted)
      ];
      keyed = k;
      numbered = n;
    }

pub reject-IsSound : (r : Transport) (c : Reservation) → IsSound r → IsSound (reject r c)
unfolding reject advance
reject-IsSound r unreserved v =
    Inert-IsSound (record { outbound = refl; queued = refl; flight = refl; counters = λ c. refl }) v
reject-IsSound r (ack channel index) v =
    Inert-IsSound (record { outbound = refl; queued = refl; flight = refl; counters = λ c. refl }) v
reject-IsSound r (fresh f index now) v =
    Inert-IsSound (record { outbound = refl; queued = refl; flight = refl; counters = λ c. refl }) v
reject-IsSound r (retransmit f index now) v =
    Inert-IsSound (record { outbound = refl; queued = refl; flight = refl; counters = λ c. refl }) v
