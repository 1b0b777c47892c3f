-- ===== src/Peer/Transport/Laws/Sends.antt =====
-- What `nextSend` may choose, and the counters after its choice is committed.
use bork.Base.{
  ℕ, ◌+◌, ◌≡◌, ◌≤◌, max, refl, ap, subst, Bool, true, false, ◌=/=◌, List, [], ◌∷◌, All, length, map,
  inl, inr, some, Bool-cases, Option-cases, arith,
}
use bork.Peer.Transport.{Transport, ReliableFragment}
use bork.Peer.Transport.Send.{
  Sending, Reservation, fresh, retransmit, next_fragment, may_send_new, may_retransmit, next_packet,
  update_fragment, retransmitted, is_same, freeze, commit, oldest_transmitted,
}
use bork.Peer.Transport.Laws.Accounts.{
  size, flying, Accounted, Keyed, Held, scan_channels-Held, total-update, update-payload,
  total-freeze, commit_fresh-Accounted,
}

-- The two choices of `nextPacket`.
pub data Chosen (r : Transport) (now : ℕ) : Reservation → Type 0 where
  again :
      (f : ReliableFragment) (index : ℕ)
      → Held f r.outbound
      → may_retransmit r now f ≡ true
      → Chosen r now (retransmit f index now)
  first :
      (f : ReliableFragment) (index : ℕ)
      → Held f r.outbound
      → may_send_new r (oldest_transmitted [] r.outbound) f ≡ true
      → Chosen r now (fresh f index now)

next_fragment-Held :
    (eligible : ReliableFragment → Bool) (r : Transport) {f : ReliableFragment} {index : ℕ}
    → next_fragment eligible r ≡ some (f, index)
    → Held f r.outbound × (eligible f ≡ true)
unfolding next_fragment
next_fragment-Held eligible r {f} {index} e =
    scan_channels-Held eligible r (length r.ack_channels) 0 {f = f} {index = index} e

next_packet-Chosen :
    (r : Transport) (now : ℕ) (s : Sending)
    → next_packet r now ≡ some s
    → Chosen r now s.reservation
unfolding next_packet
next_packet-Chosen r now s e = elim (Option-cases (next_fragment (may_retransmit r now) r)) [
  | inr ((f, index), found) ↦
      let (m, able) = next_fragment-Held (may_retransmit r now) r {f = f} {index = index} found in
      let here : retransmit f index now ≡ s.reservation = ground (arith, found) in
      subst (Chosen r now) here (again f index m able)
  | inl idle ↦
      let new = may_send_new r (oldest_transmitted [] r.outbound) in
      elim (Option-cases (next_fragment new r)) [
        | inr ((f, index), found) ↦
            let (m, able) = next_fragment-Held new r {f = f} {index = index} found in
            let here : fresh f index now ≡ s.reservation = ground (arith, idle, found) in
            subst (Chosen r now) here (first f index m able)
        | inl none_left ↦ absurd (ground (arith, idle, none_left))
      ]
]

may_send_new_fits :
    (r : Transport) (f : ReliableFragment)
    → may_send_new r (oldest_transmitted [] r.outbound) f ≡ true
    → (f.transmissions ≡ 0) × (r.bytes_in_flight + length f.payload ≤ r.cwnd)
unfolding may_send_new
may_send_new_fits r f e = ground arith

freeze_sizes :
    (r : Transport) (now : ℕ) (f : ReliableFragment)
    → (size (freeze r now f) ≡ size f) × (flying (freeze r now f) ≡ flying f)
freeze_sizes r now f = ground arith

-- Freezing a wave changes no key and no size.
Keyed-freeze :
    (r : Transport) (now : ℕ) (fs : List ReliableFragment)
    → Keyed fs
    → Keyed (map (freeze r now) fs)
Keyed-freeze r now [] k = tt
Keyed-freeze r now (f ∷ fs) k = (apart_freeze fs k.0, Keyed-freeze r now fs k.1)
  where
    apart_freeze :
        (gs : List ReliableFragment)
        → All (λ g. is_same f g ≡ false) gs
        → All (λ g. is_same (freeze r now f) g ≡ false) (map (freeze r now) gs)
    apart_freeze [] h = tt
    apart_freeze (g ∷ gs) h = (ground (arith, h.0), apart_freeze gs h.1)

Held-freeze :
    (r : Transport) (now : ℕ) (f : ReliableFragment) (fs : List ReliableFragment)
    → Held f fs
    → Held (freeze r now f) (map (freeze r now) fs)
Held-freeze r now f [] m = absurd m
Held-freeze r now f (g ∷ gs) (inl e) = inl (ap (freeze r now) e)
Held-freeze r now f (g ∷ gs) (inr m) = inr (Held-freeze r now f gs m)

update-freeze :
    (r : Transport) (now : ℕ) (f : ReliableFragment) (write : ReliableFragment → ReliableFragment)
    (fs : List ReliableFragment)
    → update_fragment (freeze r now f) write fs ≡ update_fragment f write fs
unfolding update_fragment
update-freeze r now f write [] = refl
update-freeze r now f write (g ∷ gs) = ground (arith, update-freeze r now f write gs)

sent_before :
    (r : Transport) (now : ℕ) (f : ReliableFragment)
    → may_retransmit r now f ≡ true
    → f.transmissions =/= 0 ≡ true
unfolding may_retransmit
sent_before r now f e = ground arith

commit_retransmit-Accounted :
    (r : Transport) (f : ReliableFragment) (index now : ℕ)
    → Keyed r.outbound
    → Held f r.outbound
    → f.transmissions =/= 0 ≡ true
    → Accounted r
    → Accounted (commit r (retransmit f index now))
unfolding commit
commit_retransmit-Accounted r f index now k m sent v = elim (Bool-cases f.timeout_pending) [
  | inl pending ↦
      let sizes = total-update size f (retransmitted now) r.outbound k m in
      let flights = total-update flying f (retransmitted now) r.outbound k m in
      ground (arith, pending, sizes, flights, update-payload now f, v.queued, v.flight, v.limit)
  | inr open_wave ↦
      let k' = Keyed-freeze r now r.outbound k in
      let m' = Held-freeze r now f r.outbound m in
      let sizes =
        total-update size (freeze r now f) (retransmitted now) (map (freeze r now) r.outbound) k'
          m' in
      let flights =
        total-update flying (freeze r now f) (retransmitted now) (map (freeze r now) r.outbound) k'
          m' in
      let same = update-freeze r now f (retransmitted now) (map (freeze r now) r.outbound) in
      ground (
        arith,
        open_wave,
        rw same at sizes,
        rw same at flights,
        total-freeze r now r.outbound,
        update-payload now (freeze r now f),
        freeze_sizes r now f,
        v.queued,
        v.flight,
        v.limit,
      )
]

retransmit-flight :
    (r : Transport) (f : ReliableFragment) (index now : ℕ)
    → (commit r (retransmit f index now)).bytes_in_flight ≡ r.bytes_in_flight
unfolding commit
retransmit-flight r f index now = ground arith

fresh-flight :
    (r : Transport) (f : ReliableFragment) (index now : ℕ)
    → (commit r (fresh f index now)).bytes_in_flight ≡ r.bytes_in_flight + length f.payload
unfolding commit
fresh-flight r f index now = refl

-- Committing what `next_packet` chooses leaves the bytes in flight at most the greater of the congestion
-- window and the bytes in flight before the commit.
pub commit-next_packet-flight :
    (r : Transport) (now : ℕ) (s : Sending)
    → next_packet r now ≡ some s
    → (commit r s.reservation).bytes_in_flight ≤ max r.cwnd r.bytes_in_flight
commit-next_packet-flight r now s e = bounded s.reservation (next_packet-Chosen r now s e)
  where
    bounded :
        (c : Reservation)
        → Chosen r now c
        → (commit r c).bytes_in_flight ≤ max r.cwnd r.bytes_in_flight
    bounded c (again f index m able) = omega (arith, retransmit-flight r f index now)
    bounded c (first f index m able) =
        omega (arith, fresh-flight r f index now, (may_send_new_fits r f able).1)

-- Where no two fragments of `outbound` share channel and sequence, and the byte counters are the sums
-- over `outbound` and within the queue limit, they still are once the choice of `next_packet` is committed.
pub commit-next_packet-Accounted :
    (r : Transport) (now : ℕ) (s : Sending)
    → next_packet r now ≡ some s
    → Keyed r.outbound
    → Accounted r
    → Accounted (commit r s.reservation)
commit-next_packet-Accounted r now s e k v =
    settle_choice s.reservation (next_packet-Chosen r now s e)
  where
    settle_choice : (c : Reservation) → Chosen r now c → Accounted (commit r c)
    settle_choice c (again f index m able) =
        commit_retransmit-Accounted r f index now k m (sent_before r now f able) v
    settle_choice c (first f index m able) =
        commit_fresh-Accounted r f index now k m (may_send_new_fits r f able).0 v
