-- ===== src/Peer/Tests.antt =====
-- The theorems on a session's transport at concrete windows and messages.
use bork.Base.{
  ℕ, ◌-◌, ◌≡◌, ◌≤◌, refl, true, false, not, ◌&&◌, ◌||◌, ◌==◌, ltb, List, [], ◌∷◌, ◌++◌, some, ok,
  length, max, inr, arith,
}
use bork.Base.Bits.{bit}
use bork.Protocol.Reliable.{ReliablePacket, fragment_ack_contains, valid_reliable_ack}
use bork.Peer.Window.{SequenceWindow, empty_window, accept, SessionPacketFlow}
use bork.Peer.Window.Laws.{holds, IsValid, accept_answer, holds-accept, accept-IsValid}
use bork.Peer.Window.History.{committed, NoRepeat, committed-NoRepeat, sent, committed-sent}
use bork.Peer.Window.Acks.{fragment_ack_contains-eq-holds, window-valid_reliable_ack}
use bork.Base.Map.{lookup, insert}
use bork.Peer.Transport.{
  Transport, ReliableFragment, channel_ordered, new_transport, ensure_channel, channel_at,
}
use bork.Peer.Transport.Queue.{can_queue, enqueue, queue, fragments_from}
use bork.Peer.Transport.Congestion.{consume_fragment_ack}
use bork.Peer.Transport.Send.{
  Sending, fresh, packet_for, next_ack, scan_acks, next_packet, commit, next_fragment,
  find_fragment, may_retransmit, may_send_new, oldest_transmitted, next_send,
}
use bork.Peer.Transport.Run.{queues, rejects, run}
use bork.Peer.Transport.Laws.Limits.{IsTuned, run-IsTuned}
use bork.Peer.Transport.Laws.Accounts.{Accounted, Keyed, consume_fragment_ack-Accounted}
use bork.Peer.Transport.Laws.Fragments.{queue_fragments, queue-Accounted, joined, IsRun}
use bork.Peer.Transport.Laws.Trace.{here, next, queued, sent as was_sent, Reach-IsSound}
use bork.Peer.Transport.Laws.Soundness.{IsSound}
use bork.Peer.Transport.Laws.Sends.{commit-next_packet-Accounted, commit-next_packet-flight}

-- A window that holds 5, 4 and 2.
abbrev window : SequenceWindow
window = record { highest = 5; seen = 11 }

window-IsValid : IsValid window
unfolding bit
window-IsValid = record { fits = omega arith; marked = inr refl; low = inr (omega arith) }

accept_answer_example :
    (accept window 3).1 ≡ (not (3 == 0) && (ltb 5 3 || (ltb (5 - 3) 64 && not (holds window 3))))
accept_answer_example = accept_answer window 3

holds-accept_example :
    holds (accept window 3).0 4
    ≡ (4 == 3 || (holds window 4 && ltb ((accept window 3).0.highest - 4) 64))
unfolding accept
holds-accept_example = holds-accept window 3 4 (omega arith) refl

accept-IsValid_example : IsValid (accept window 9).0
accept-IsValid_example = accept-IsValid window 9 window-IsValid

fragment_ack_contains-eq-holds_example : fragment_ack_contains 5 11 4 ≡ holds window 4
fragment_ack_contains-eq-holds_example = fragment_ack_contains-eq-holds window 4

window-valid_reliable_ack_example : valid_reliable_ack 5 11 ≡ true
window-valid_reliable_ack_example = window-valid_reliable_ack window window-IsValid

abbrev receiver : SessionPacketFlow
receiver = record { send_sequence = 0; receive_window = window }

committed-NoRepeat_example : NoRepeat (committed receiver (6 ∷ 6 ∷ 4 ∷ 3 ∷ []))
committed-NoRepeat_example = committed-NoRepeat receiver (6 ∷ 6 ∷ 4 ∷ 3 ∷ []) window-IsValid

abbrev sender : SessionPacketFlow
sender = record { send_sequence = 7; receive_window = empty_window }

committed-sent_example :
    (committed receiver (sent 3 sender) ≡ sent 3 sender) × (length (sent 3 sender) ≡ 3)
committed-sent_example = committed-sent 3 sender receiver (omega arith) (omega arith)

abbrev bytes : List ℕ
bytes = 1 ∷ 2 ∷ 3 ∷ []

-- A transport with one message queued on channel 2, then with its fragment sent.
abbrev one_queued : Transport
one_queued = enqueue new_transport 2 bytes

queued_ok : queue new_transport 2 bytes ≡ ok one_queued
unfolding queue can_queue channel_ordered new_transport lookup
queued_ok = refl

new_transport-Accounted : Accounted new_transport
unfolding new_transport
new_transport-Accounted = record { queued = refl; flight = refl; limit = omega arith }

queue_fragments_example :
    (fs : List ReliableFragment) × (one_queued.outbound ≡ new_transport.outbound ++ fs)
    × (joined fs ≡ bytes)
    × (IsRun 2 1 0 (channel_at (ensure_channel new_transport 2) 2).next_fragment_sequence fs)
    × (1 ≤ 1024)
queue_fragments_example = queue_fragments new_transport one_queued 2 bytes queued_ok

abbrev fragment : ReliableFragment
fragment = record {
  channel = 2;
  fragment_sequence = 1;
  fragment_index = 0;
  fragment_count = 1;
  payload = bytes;
  sent_at = 0;
  transmissions = 0;
  timeout_pending = false;
}

abbrev sending : Sending
sending = record { packet = packet_for one_queued fragment; reservation = fresh fragment 0 100 }

sending_next : next_packet one_queued 100 ≡ some sending
unfolding next_packet next_fragment enqueue ensure_channel lookup new_transport find_fragment
    fragments_from may_retransmit may_send_new oldest_transmitted insert
sending_next = refl

queued_Keyed : Keyed one_queued.outbound
unfolding enqueue ensure_channel lookup new_transport fragments_from
queued_Keyed = (tt, tt)

commit-next_packet-Accounted_example : Accounted (commit one_queued (fresh fragment 0 100))
commit-next_packet-Accounted_example =
    commit-next_packet-Accounted one_queued 100 sending sending_next queued_Keyed
      (queue-Accounted new_transport one_queued 2 bytes queued_ok new_transport-Accounted)

commit-next_packet-flight_example :
    (commit one_queued (fresh fragment 0 100)).bytes_in_flight
    ≤ max one_queued.cwnd one_queued.bytes_in_flight
commit-next_packet-flight_example = commit-next_packet-flight one_queued 100 sending sending_next

consume_fragment_ack-Accounted_example :
    Accounted (consume_fragment_ack (commit one_queued (fresh fragment 0 100)) 2 1 1 200)
consume_fragment_ack-Accounted_example =
    consume_fragment_ack-Accounted (commit one_queued (fresh fragment 0 100)) 2 1 1 200 (
      commit-next_packet-Accounted one_queued 100 sending sending_next queued_Keyed
        (queue-Accounted new_transport one_queued 2 bytes queued_ok new_transport-Accounted))

run-IsTuned_example :
    IsTuned (run new_transport (queues 2 bytes ∷ rejects (fresh fragment 0 100) ∷ []))
run-IsTuned_example = run-IsTuned (queues 2 bytes ∷ rejects (fresh fragment 0 100) ∷ [])

sending_chosen : next_send one_queued 100 ≡ some sending
unfolding next_send next_ack scan_acks next_packet next_fragment enqueue ensure_channel lookup
    new_transport find_fragment fragments_from may_retransmit may_send_new oldest_transmitted insert
sending_chosen = refl

Reach-IsSound_example : IsSound (commit one_queued (fresh fragment 0 100))
Reach-IsSound_example =
    Reach-IsSound
      (next (next here (queued 2 bytes queued_ok)) (was_sent 100 sending sending_chosen))

-- The first of two fragments.
abbrev half : ReliablePacket
half = record {
  channel = 2;
  fragment_sequence = 1;
  fragment_index = 0;
  fragment_count = 2;
  fragment_ack_base = 0;
  fragment_ack_bitmap = 0;
  payload = bytes;
}
