-- ===== src/Peer/Window/History.antt =====
-- A window over a whole history of packets, and the counter of the sender that feeds it.
use bork.Base.{
  ℕ, zero, suc, ◌+◌, ◌-◌, ◌≤◌, ◌<◌, ◌≡◌, refl, ap, ◌∙◌, ◌≢◌, inl, inr, true, false, List, [], ◌∷◌,
  All, length, ltb, ltb→lt, Bool-cases, arith, ok, err,
}
use bork.Peer.Window.{
  SequenceWindow, u64_mod, accept, SessionPacketFlow, next_send_sequence, commit_received,
}
use bork.Peer.Window.Laws.{
  holds, accept_answer, holds-accept, IsValid, accept-IsValid, highest-accept, accept_refused,
  accept_newer, accepted_le,
}

-- The packets of a history that the receiver commits.
pub committed : SessionPacketFlow → List ℕ → List ℕ
committed f [] = []
committed f (s ∷ ss) =
    let (f', taken) = commit_received f s in
    let rest = committed f' ss in elim taken [ true ↦ s ∷ rest | false ↦ rest ]

abbrev pub NoRepeat : List ℕ → Type 0
NoRepeat [] = Unit {0}
NoRepeat (x ∷ xs) = All (λ y. y ≢ x) xs × NoRepeat xs

-- A sequence that the window will not take: held, or fallen out at the low end.
Spent : SequenceWindow → ℕ → Type 0
Spent w s = (s ≤ w.highest) × (w.highest - s < 64 → holds w s ≡ true)

Spent-refused : (w : SequenceWindow) (s : ℕ) → Spent w s → (accept w s).1 ≡ false
unfolding Spent
Spent-refused w s p = elim (Bool-cases (ltb (w.highest - s) 64)) [
  | inl near ↦ ground (arith, near, accept_answer w s, p.1 (ltb→lt _ _ near))
  | inr far ↦ ground (arith, far, accept_answer w s)
]

accept-Spent :
    (w : SequenceWindow) (s t : ℕ) → w.seen < u64_mod → Spent w s → Spent (accept w t).0 s
unfolding Spent
accept-Spent w s t h p = elim (Bool-cases (accept w t).1) [
  | inl taken ↦ (
    omega (arith, highest-accept w t),
    λ near. ground (
      arith,
      highest-accept w t,
      p.1 (omega (arith, highest-accept w t)),
      holds-accept w t s h taken,
    ),
  )
  | inr refused ↦ rw (accept_refused w t refused) p
]

accepted-Spent :
    (w : SequenceWindow) (s : ℕ) → w.seen < u64_mod → (accept w s).1 ≡ true → Spent (accept w s).0 s
unfolding Spent
accepted-Spent w s h e = (accepted_le w s e, λ near. ground (arith, holds-accept w s s h e))

abbrev after : SessionPacketFlow → ℕ → SessionPacketFlow
after f s = record f { receive_window = (accept f.receive_window s).0 }

committed_taken :
    (f : SessionPacketFlow) (s : ℕ) (ss : List ℕ)
    → (accept f.receive_window s).1 ≡ true
    → committed f (s ∷ ss) ≡ s ∷ committed (after f s) ss
unfolding committed commit_received
committed_taken f s ss e = rw (e, committed)

committed_refused :
    (f : SessionPacketFlow) (s : ℕ) (ss : List ℕ)
    → (accept f.receive_window s).1 ≡ false
    → committed f (s ∷ ss) ≡ committed (after f s) ss
unfolding committed commit_received
committed_refused f s ss e = rw (e, committed)

committed_without :
    (f : SessionPacketFlow) (s : ℕ) (ss : List ℕ)
    → IsValid f.receive_window
    → Spent f.receive_window s
    → All (λ y. y ≢ s) (committed f ss)
committed_without f s [] v p = unfold committed in tt
committed_without f s (t ∷ ss) v p =
    let later =
      committed_without (after f t) s ss (accept-IsValid f.receive_window t v)
        (accept-Spent f.receive_window s t v.fits p) in
    elim (Bool-cases (accept f.receive_window t).1) [
      | inl taken ↦ rw (committed_taken f t ss taken) (
        λ e.
            cc (
              taken,
              Spent-refused f.receive_window s p,
              ap (λ r. (accept f.receive_window r).1) e,
            ),
        later,
      )
      | inr refused ↦ rw (committed_refused f t ss refused) later
    ]

-- Where the window is well formed, whatever sequences arrive and in whatever order, those that
-- `commit_received` takes hold no sequence twice.
pub committed-NoRepeat :
    (f : SessionPacketFlow) (ss : List ℕ) → IsValid f.receive_window → NoRepeat (committed f ss)
committed-NoRepeat f [] v = unfold committed in tt
committed-NoRepeat f (s ∷ ss) v =
    let v' = accept-IsValid f.receive_window s v in
    elim (Bool-cases (accept f.receive_window s).1) [
      | inl taken ↦ rw (committed_taken f s ss taken) (
        committed_without (after f s) s ss v' (accepted-Spent f.receive_window s v.fits taken),
        committed-NoRepeat (after f s) ss v',
      )
      | inr refused ↦ rw (committed_refused f s ss refused) (committed-NoRepeat (after f s) ss v')
    ]

-- The first `n` sequences that a sender takes, and the counter it is left with.
pub sent : ℕ → SessionPacketFlow → List ℕ
sent zero f = []
sent (suc n) f = elim (next_send_sequence f) [ err e ↦ [] | ok (s, f') ↦ s ∷ sent n f' ]

abbrev counted : SessionPacketFlow → SessionPacketFlow
counted f = record f { send_sequence = f.send_sequence + 1 }

next_send_lem :
    (f : SessionPacketFlow)
    → f.send_sequence < u64_mod - 1
    → next_send_sequence f ≡ ok (f.send_sequence + 1, counted f)
unfolding next_send_sequence
next_send_lem f h = ground arith

sent_lem :
    (n : ℕ) (f : SessionPacketFlow)
    → f.send_sequence < u64_mod - 1
    → sent (suc n) f ≡ (f.send_sequence + 1) ∷ sent n (counted f)
unfolding sent
sent_lem n f h = rw (next_send_lem f h, sent)

committed_newer :
    (f : SessionPacketFlow) (s : ℕ) (ss : List ℕ)
    → f.receive_window.highest < s
    → (committed f (s ∷ ss) ≡ s ∷ committed (after f s) ss)
      × ((after f s).receive_window.highest ≡ s)
committed_newer f s ss h =
    let e = accept_newer f.receive_window s h in
    (committed_taken f s ss (ap (λ r. r.1) e), ap (λ r. r.0.highest) e)

-- Where the receiver's highest is not above the sender's counter, and `n` more sends keep that counter
-- below 2^64, the sender takes `n` sequences, and the receiver commits all of them in that order.
pub committed-sent :
    (n : ℕ) (sender receiver : SessionPacketFlow)
    → receiver.receive_window.highest ≤ sender.send_sequence
    → sender.send_sequence + n < u64_mod
    → (committed receiver (sent n sender) ≡ sent n sender) × (length (sent n sender) ≡ n)
committed-sent zero sender receiver h p = (unfold committed sent in refl, unfold sent in refl)
committed-sent (suc n) sender receiver h p =
    let next : ℕ = sender.send_sequence + 1 in
    let later = committed_newer receiver next (sent n (counted sender)) (omega arith) in
    let rest =
      committed-sent n (counted sender) (after receiver next) (omega (arith, later.1))
        (omega arith) in
    rw (sent_lem n sender (omega arith))
      (later.0 ∙ ap (λ t. next ∷ t) rest.0, ap (λ t. suc t) rest.1)
