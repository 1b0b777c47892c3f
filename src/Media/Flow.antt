-- ===== src/Media/Flow.antt =====
-- internal/media/flow.go: the bounded queues of received frames and the one frame to send. The mutex
-- makes each method one step. A channel with a buffer of one is whether a token is in it. A call of the
-- invalidator is its argument beside the new state; `consume` is called with the frame that is answered.
pub mod Queues
pub mod Run
pub mod Lease
use bork.Base.{
  ℕ, zero, suc, ◌+◌, ◌-◌, ◌%◌, ◌^◌, Bool, true, false, not, if◌then◌else◌, ◌==◌, ◌=/=◌, ltb, ◌||◌,
  ◌&&◌, List, [], ◌∷◌, ◌++◌, length, drop, take, get_or, Option, none, some, list_eq,
}
use bork.Base.Bytes.{Bytes}
use bork.Protocol.Wire.{zero16}

abbrev pub max_received_frames_per_source : ℕ
max_received_frames_per_source = 2

abbrev pub audio_stream_voice : ℕ
audio_stream_voice = 0

abbrev pub audio_stream_screen : ℕ
audio_stream_screen = 1

pub record ReceivedFrame : Type 0 where
  pub source_id : Bytes
  pub stream_kind : ℕ
  pub stream_id : Bytes
  pub sequence : ℕ
  pub timestamp : ℕ
  pub payload : Bytes
  pub received_at : ℕ

pub record SendFrame : Type 0 where
  pub timestamp : ℕ
  pub payload : Bytes
  pub deadline : ℕ
  pub send_generation : ℕ

pub record ReceivedStreamKey : Type 0 where
  pub source_id : Bytes
  pub kind : ℕ

abbrev pub Queues : Type 0
Queues = List (ReceivedStreamKey × List ReceivedFrame)

pub record Flow : Type 0 where
  pub received_queues : Queues
  pub received_order : List ReceivedStreamKey
  pub received_next : ℕ
  pub received_ready : Bool
  pub screen_audio_source_id : Bytes
  pub send : SendFrame
  pub has_send : Bool
  pub send_generation : ℕ
  pub has_invalidator : Bool
  pub send_ready : Bool

abbrev pub no_send : SendFrame
no_send = record { timestamp = 0; payload = []; deadline = 0; send_generation = 0 }

unfoldable pub new_flow : Flow
new_flow = record {
  received_queues = [];
  received_order = [];
  received_next = 0;
  received_ready = false;
  screen_audio_source_id = zero16;
  send = no_send;
  has_send = false;
  send_generation = 1;
  has_invalidator = false;
  send_ready = false;
}

unfoldable pub same_key : ReceivedStreamKey → ReceivedStreamKey → Bool
same_key a b = list_eq a.source_id b.source_id && a.kind == b.kind

-- `receivedQueues[key]`: a key that is not there has an empty queue.
unfoldable pub queue_at : ReceivedStreamKey → Queues → List ReceivedFrame
queue_at key [] = []
queue_at key ((other, queue) ∷ queues) = if same_key key other then queue else queue_at key queues

unfoldable pub put_queue : ReceivedStreamKey → List ReceivedFrame → Queues → Queues
put_queue key queue [] = (key, queue) ∷ []
put_queue key queue ((other, old) ∷ queues) =
    let later = put_queue key queue queues in
    if same_key key other then (other, queue) ∷ queues else (other, old) ∷ later

unfoldable pub drop_queue : ReceivedStreamKey → Queues → Queues
drop_queue key [] = []
drop_queue key ((other, old) ∷ queues) =
    let later = drop_queue key queues in if same_key key other then queues else (other, old) ∷ later

abbrev pub push_front : ReceivedFrame → Option (List ReceivedFrame) → Option (List ReceivedFrame)
push_front q none = none
push_front q (some rest) = some (q ∷ rest)

-- The loop that finds `insertAt`, and the insertion there; `none` is a sequence that is held already.
unfoldable pub insert_frame : ReceivedFrame → List ReceivedFrame → Option (List ReceivedFrame)
insert_frame frame [] = some (frame ∷ [])
insert_frame frame (q ∷ qs) =
    let later = push_front q (insert_frame frame qs) in
    if q.sequence == frame.sequence
    then none
    else if ltb frame.sequence q.sequence
    then some (frame ∷ q ∷ qs)
    else later

-- `if len(queue) > 0 && queue[0].StreamID != frame.StreamID { queue = nil }`
unfoldable pub same_stream : ReceivedFrame → List ReceivedFrame → List ReceivedFrame
same_stream frame [] = []
same_stream frame (q ∷ qs) = if list_eq q.stream_id frame.stream_id then q ∷ qs else []

-- The newest two.
unfoldable pub trim : List ReceivedFrame → List ReceivedFrame
trim queue =
    if ltb max_received_frames_per_source (length queue)
    then drop (length queue - max_received_frames_per_source) queue
    else queue

abbrev pub key_of : ReceivedFrame → ReceivedStreamKey
key_of frame = record { source_id = frame.source_id; kind = frame.stream_kind }

-- A frame whose source, sequence or payload is empty, or screen audio of a source not selected.
unfoldable pub refuses_frame : Flow → ReceivedFrame → Bool
refuses_frame f frame =
    list_eq frame.source_id zero16
    || (frame.sequence == 0
        || (length frame.payload == 0
            || (frame.stream_kind == audio_stream_screen
                && not (list_eq frame.source_id f.screen_audio_source_id))))

-- The stream takes its turn in the order when its queue is empty.
unfoldable pub note_order : Flow → ReceivedStreamKey → Flow
note_order f key =
    if length (queue_at key f.received_queues) == 0
    then record f { received_order = f.received_order ++ (key ∷ []) }
    else f

unfoldable pub submit_received : Flow → ReceivedFrame → Flow × Bool
submit_received f frame =
    let key = key_of frame in
    let queue = queue_at key f.received_queues in
    let f' = note_order f key in
    if refuses_frame f frame
    then (f, false)
    else elim (insert_frame frame (same_stream frame queue)) [
      | none ↦ (f', false)
      | some grown ↦ (
        record f' {
          received_queues = put_queue key (trim grown) f'.received_queues;
          received_ready = true;
        },
        true,
      )
    ]

abbrev pub no_key : ReceivedStreamKey
no_key = record { source_id = zero16; kind = 0 }

-- What a frame taken from the stream at `index` leaves: `rest` is what its queue still holds.
unfoldable pub take_from : Flow → ℕ → ReceivedStreamKey → List ReceivedFrame → Flow
take_from f index key [] =
    let order = take index f.received_order ++ drop (index + 1) f.received_order in
    record f {
      received_queues = drop_queue key f.received_queues;
      received_order = order;
      received_next = if length order == 0 then 0 else index % length order;
    }
take_from f index key (q ∷ rest) = record f {
  received_queues = put_queue key (q ∷ rest) f.received_queues;
  received_next = (index + 1) % length f.received_order;
}

-- The loop over `offset`, with `rounds` left.
unfoldable pub scan_order : Flow → ℕ → ℕ → Option (Flow × ReceivedFrame)
scan_order f zero offset = none
scan_order f (suc rounds) offset =
    let index = (f.received_next + offset) % length f.received_order in
    let key = get_or f.received_order index no_key in
    let later = scan_order f rounds (offset + 1) in
    elim (queue_at key f.received_queues) [
      | [] ↦ later
      | frame ∷ rest ↦ some (take_from f index key rest, frame)
    ]

unfoldable pub take_received : Flow → Option (Flow × ReceivedFrame)
unfolding scan_order
take_received f = scan_order f (length f.received_order) 0

-- `slices.DeleteFunc`
unfoldable pub without_key : ReceivedStreamKey → List ReceivedStreamKey → List ReceivedStreamKey
without_key key [] = []
without_key key (k ∷ ks) =
    let rest = without_key key ks in if same_key k key then rest else k ∷ rest

unfoldable pub set_screen_audio_source : Flow → Bytes → Flow
set_screen_audio_source f source_id =
    let old : ReceivedStreamKey = record {
      source_id = f.screen_audio_source_id;
      kind = audio_stream_screen;
    } in
    if list_eq f.screen_audio_source_id source_id then f else record f {
      received_queues = drop_queue old f.received_queues;
      received_order = without_key old f.received_order;
      screen_audio_source_id = source_id;
      received_next = 0;
      received_ready = true;
    }

unfoldable pub submit_send : Flow → SendFrame → Flow × Bool
submit_send f frame =
    if length frame.payload == 0 || frame.send_generation =/= f.send_generation
    then (f, false)
    else (record f { send = frame; has_send = true; send_ready = true }, true)

unfoldable pub consume_send : Flow → Option (Flow × SendFrame)
consume_send f =
    if not f.has_send then none else some (record f { send = no_send; has_send = false }, f.send)

-- `sendGeneration++` on a uint64, which skips 0.
unfoldable pub advance_send_generation : ℕ → ℕ
advance_send_generation generation =
    let next = (generation + 1) % 2 ^ 64 in if next == 0 then 1 else next

abbrev pub invalidation : Flow → Option ℕ
invalidation f = if f.has_invalidator then some f.send_generation else none

-- The new state, whose generation is the answer, and what the invalidator is called with.
unfoldable pub invalidate_send : Flow → Flow × Option ℕ
invalidate_send f =
    let f' : Flow = record f {
      send_generation = advance_send_generation f.send_generation;
      send = no_send;
      has_send = false;
      send_ready = false;
    } in
    (f', invalidation f')

unfoldable pub reset : Flow → Flow × Option ℕ
reset f =
    let f' : Flow = record f {
      send_generation = advance_send_generation f.send_generation;
      received_queues = [];
      received_order = [];
      received_next = 0;
      send = no_send;
      has_send = false;
      received_ready = false;
      send_ready = false;
    } in
    (f', invalidation f')

unfoldable pub set_send_invalidator : Flow → Bool → Flow × Option ℕ
set_send_invalidator f given =
    let f' : Flow = record f { has_invalidator = given } in (f', invalidation f')
