-- ===== src/Media/Flow/Run.antt =====
-- A flow under its whole interface: what the audio engine and the peers may call, in any order.
use bork.Base.{Bool, List, [], ◌∷◌, none, some}
use bork.Base.Bytes.{Bytes}
use bork.Media.Flow.{
  ReceivedFrame, SendFrame, Flow, submit_received, take_received, set_screen_audio_source,
  submit_send, consume_send, invalidate_send, reset, set_send_invalidator,
}

-- What a flow may be asked, by the audio engine and by the peers.
pub data Call : Type 0 where
  submits_received : ReceivedFrame → Call
  takes_received consumes_send invalidates_send resets : Call
  submits_send : SendFrame → Call
  sets_screen_audio_source : Bytes → Call
  sets_send_invalidator : Bool → Call

unfoldable pub step : Flow → Call → Flow
step f (submits_received frame) = (submit_received f frame).0
step f takes_received = elim (take_received f) [ none ↦ f | some (f', frame) ↦ f' ]
step f consumes_send = elim (consume_send f) [ none ↦ f | some (f', frame) ↦ f' ]
step f invalidates_send = (invalidate_send f).0
step f resets = (reset f).0
step f (submits_send frame) = (submit_send f frame).0
step f (sets_screen_audio_source source_id) = set_screen_audio_source f source_id
step f (sets_send_invalidator given) = (set_send_invalidator f given).0

unfoldable pub run : Flow → List Call → Flow
run f [] = f
run f (c ∷ cs) = run (step f c) cs
