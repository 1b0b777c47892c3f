-- ===== src/Media/Tests.antt =====
-- The flow's theorems at concrete calls: two frames of one voice stream, out of order.
use bork.Base.{ℕ, ◌≡◌, refl, false, List, [], ◌∷◌, none}
use bork.Media.Flow.{ReceivedFrame, SendFrame, new_flow, consume_send, submit_send, invalidate_send}
use bork.Media.Flow.Queues.{AllQueues}
use bork.Media.Flow.Lease.{IsLeased, run-AllQueues, run-IsLeased, submit_send-invalidate}
use bork.Media.Flow.Run.{
  Call, submits_received, takes_received, submits_send, invalidates_send, step, run,
}

abbrev frame_of : ℕ → ReceivedFrame
frame_of sequence = record {
  source_id = 1 ∷ 2 ∷ 3 ∷ 4 ∷ 5 ∷ 6 ∷ 7 ∷ 8 ∷ 9 ∷ 10 ∷ 11 ∷ 12 ∷ 13 ∷ 14 ∷ 15 ∷ 16 ∷ [];
  stream_kind = 0;
  stream_id = 4 ∷ [];
  sequence = sequence;
  timestamp = 960;
  payload = 7 ∷ [];
  received_at = 50;
}

abbrev voice_send : SendFrame
voice_send = record { timestamp = 960; payload = 8 ∷ []; deadline = 70; send_generation = 1 }

abbrev calls : List Call
calls =
    submits_received (frame_of 9)
    ∷ submits_received (frame_of 8)
    ∷ submits_send voice_send
    ∷ takes_received
    ∷ []

run-AllQueues_example : AllQueues (run new_flow calls).received_queues
run-AllQueues_example = run-AllQueues calls

run-IsLeased_example : IsLeased (run new_flow (submits_send voice_send ∷ invalidates_send ∷ []))
run-IsLeased_example = run-IsLeased (submits_send voice_send ∷ invalidates_send ∷ [])

submit_send-invalidate_example :
    (consume_send (invalidate_send (run new_flow (submits_send voice_send ∷ []))).0 ≡ none)
    × (submit_send (invalidate_send (run new_flow (submits_send voice_send ∷ []))).0 voice_send
        ≡ ((invalidate_send (run new_flow (submits_send voice_send ∷ []))).0, false))
unfolding run step submit_send new_flow
submit_send-invalidate_example =
    submit_send-invalidate (submits_send voice_send ∷ []) voice_send refl
