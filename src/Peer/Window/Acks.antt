-- ===== src/Peer/Window/Acks.antt =====
-- The window as an acknowledgment: the sender reads in `(highest, seen)` what the receiver holds.
use bork.Base.{ℕ, ◌-◌, ◌/◌, ◌^◌, ◌≡◌, ◌<◌, ap, inl, inr, true, ◌==◌, Bool-cases, ==_iff, arith}
use bork.Base.Bits.{bit_and-pow}
use native.Mathlib.Nat.{div-eq_of_lt}
use bork.Protocol.Reliable.{fragment_ack_contains, valid_reliable_ack}
use bork.Peer.Window.{SequenceWindow}
use bork.Peer.Window.Laws.{holds, test_bit, IsValid}

-- `FragmentAckContains` on the two words of a window says yes to a sequence exactly when the window
-- holds it.
pub fragment_ack_contains-eq-holds :
    (w : SequenceWindow) (s : ℕ) → fragment_ack_contains w.highest w.seen s ≡ holds w s
unfolding fragment_ack_contains holds
fragment_ack_contains-eq-holds w s = ground (arith, test_bit w.seen (w.highest - s))

-- The two words of a well-formed window, an empty one included, pass the check that the wire makes of
-- an acknowledgment.
pub window-valid_reliable_ack :
    (w : SequenceWindow) → IsValid w → valid_reliable_ack w.highest w.seen ≡ true
unfolding valid_reliable_ack
window-valid_reliable_ack w v = elim (Bool-cases (w.highest == 0)) [
  | inl fresh ↦
      let least : 2 ^ w.highest ≡ 1 = ap (λ t. 2 ^ t) ((==_iff w.highest 0).0 fresh) in
      ground (arith, fresh, v.low, least)
  | inr used ↦
      ground (arith, used, v.marked, v.low, bit_and-pow 0 w.seen, div_above w.seen (2 ^ w.highest))
]
  where
    div_above : (x m : ℕ) → x < m → x / m ≡ 0
    div_above x m h = div-eq_of_lt h
