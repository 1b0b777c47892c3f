-- ===== src/Media/Flow/Queues.antt =====
-- The received queues under every call of the flow, and the lease of a send generation.
use bork.Base.{
  ℕ, zero, suc, ◌+◌, ◌-◌, ◌%◌, ◌≡◌, ◌≤◌, ◌<◌, ◌⊎◌, refl, subst, inl, inr, ltb, List, [], ◌∷◌, All,
  length, length-drop, drop, get_or, list_eq, some, Bool-cases, Option-cases, arith,
}
use bork.Media.Flow.{
  ReceivedFrame, ReceivedStreamKey, Queues, Flow, same_key, queue_at, put_queue, drop_queue,
  insert_frame, same_stream, trim, key_of, note_order, submit_received, refuses_frame, take_from,
  scan_order, no_key,
}

-- Strictly rising sequences.
abbrev pub Rising : List ReceivedFrame → Type 0
Rising [] = Unit {0}
Rising (q ∷ qs) = All (λ r. q.sequence < r.sequence) qs × Rising qs

-- A queue as it may stand while a frame goes in or out.
abbrev Tidy : List ReceivedFrame → Type 0
Tidy queue = (length queue ≤ 2) × Rising queue

abbrev pub IsQueue : List ReceivedFrame → Type 0
IsQueue queue = (1 ≤ length queue) × (length queue ≤ 2) × Rising queue

abbrev pub AllQueues : Queues → Type 0
AllQueues = All (λ e. IsQueue e.1)

queue_at-Tidy : (key : ReceivedStreamKey) (qs : Queues) → AllQueues qs → Tidy (queue_at key qs)
unfolding queue_at
queue_at-Tidy key [] h = (omega arith, tt)
queue_at-Tidy key ((other, queue) ∷ qs) h = elim (Bool-cases (same_key key other)) [
  | inl hit ↦ rw (hit, queue_at) (h.0.1, h.0.2)
  | inr miss ↦ rw (miss, queue_at) (queue_at-Tidy key qs h.1)
]

put_queue-AllQueues :
    (key : ReceivedStreamKey) (queue : List ReceivedFrame) (qs : Queues)
    → AllQueues qs
    → IsQueue queue
    → AllQueues (put_queue key queue qs)
unfolding put_queue
put_queue-AllQueues key queue [] h v = (v, tt)
put_queue-AllQueues key queue ((other, old) ∷ qs) h v = elim (Bool-cases (same_key key other)) [
  | inl hit ↦ rw (hit, put_queue) (v, h.1)
  | inr miss ↦ rw (miss, put_queue) (h.0, put_queue-AllQueues key queue qs h.1 v)
]

pub drop_queue-AllQueues :
    (key : ReceivedStreamKey) (qs : Queues) → AllQueues qs → AllQueues (drop_queue key qs)
unfolding drop_queue
drop_queue-AllQueues key [] h = tt
drop_queue-AllQueues key ((other, old) ∷ qs) h = elim (Bool-cases (same_key key other)) [
  | inl hit ↦ rw (hit, drop_queue) h.1
  | inr miss ↦ rw (miss, drop_queue) (h.0, drop_queue-AllQueues key qs h.1)
]

insert_nil :
    (frame : ReceivedFrame) {grown : List ReceivedFrame}
    → insert_frame frame [] ≡ some grown
    → frame ∷ [] ≡ grown
unfolding insert_frame
insert_nil frame e = ground arith

-- The cases of an insertion into a queue that is not empty.
insert_cases :
    (frame q : ReceivedFrame) (qs : List ReceivedFrame) {grown : List ReceivedFrame}
    → insert_frame frame (q ∷ qs) ≡ some grown
    → ((frame.sequence < q.sequence) × (grown ≡ frame ∷ q ∷ qs))
      ⊎ ((rest : List ReceivedFrame) × (q.sequence < frame.sequence)
          × (insert_frame frame qs ≡ some rest)
          × (grown ≡ q ∷ rest))
unfolding insert_frame
insert_cases frame q qs e = elim (Bool-cases (ltb frame.sequence q.sequence)) [
  | inl before ↦ inl (ground (arith, before), ground (arith, before))
  | inr behind ↦ elim (Option-cases (insert_frame frame qs)) [
    | inl held ↦ absurd (ground (arith, behind, held))
    | inr (rest, here) ↦
        inr (rest, ground (arith, behind, here), here, ground (arith, behind, here))
  ]
]

All-trans :
    (a b : ℕ) (qs : List ReceivedFrame)
    → a < b
    → All (λ r. b < r.sequence) qs
    → All (λ r. a < r.sequence) qs
All-trans a b [] h p = tt
All-trans a b (q ∷ qs) h p = (omega (arith, p.0), All-trans a b qs h p.1)

insert_frame-All :
    (low : ℕ) (frame : ReceivedFrame) (qs : List ReceivedFrame) {grown : List ReceivedFrame}
    → insert_frame frame qs ≡ some grown
    → low < frame.sequence
    → All (λ r. low < r.sequence) qs
    → All (λ r. low < r.sequence) grown
insert_frame-All low frame [] {grown} e h p = rw (← insert_nil frame {grown = grown} e) (h, tt)
insert_frame-All low frame (q ∷ qs) e h p = elim (insert_cases frame q qs e) [
  | inl (before, here) ↦ rw here (h, p)
  | inr (rest, behind, later, here) ↦ rw here (p.0, insert_frame-All low frame qs later h p.1)
]

insert_frame-Rising :
    (frame : ReceivedFrame) (qs : List ReceivedFrame) {grown : List ReceivedFrame}
    → insert_frame frame qs ≡ some grown
    → Rising qs
    → Rising grown × (length grown ≡ length qs + 1)
insert_frame-Rising frame [] {grown} e p =
    let here = insert_nil frame {grown = grown} e in (rw (← here) (tt, tt), rw (← here) refl)
insert_frame-Rising frame (q ∷ qs) e p = elim (insert_cases frame q qs e) [
  | inl (before, here) ↦ (
    rw here ((before, All-trans frame.sequence q.sequence qs before p.0), p),
    rw here (omega arith),
  )
  | inr (rest, behind, later, here) ↦
      let (rising, size) = insert_frame-Rising frame qs later p.1 in
      (
        rw here (insert_frame-All q.sequence frame qs later behind p.0, rising),
        rw here (omega (arith, size)),
      )
]

drop-Rising : (n : ℕ) (qs : List ReceivedFrame) → Rising qs → Rising (drop n qs)
drop-Rising zero qs p = p
drop-Rising (suc n) [] p = tt
drop-Rising (suc n) (q ∷ qs) p = drop-Rising n qs p.1

trim-IsQueue : (qs : List ReceivedFrame) → 1 ≤ length qs → Rising qs → IsQueue (trim qs)
unfolding trim
trim-IsQueue qs h p = elim (Bool-cases (ltb 2 (length qs))) [
  | inl long ↦ rw long (
    ground (arith, long, length-drop (length qs - 2) qs),
    ground (arith, long, length-drop (length qs - 2) qs),
    drop-Rising (length qs - 2) qs p,
  )
  | inr short ↦ rw short (h, ground (arith, short), p)
]

same_stream-Rising :
    (frame : ReceivedFrame) (qs : List ReceivedFrame) → Rising qs → Rising (same_stream frame qs)
unfolding same_stream
same_stream-Rising frame [] p = tt
same_stream-Rising frame (q ∷ qs) p = elim (Bool-cases (list_eq q.stream_id frame.stream_id)) [
  | inl same ↦ rw same p
  | inr other ↦ rw other tt
]

note_order_queues :
    (f : Flow) (key : ReceivedStreamKey) → (note_order f key).received_queues ≡ f.received_queues
unfolding note_order
note_order_queues f key = ground arith

pub submit_received-AllQueues :
    (f : Flow) (frame : ReceivedFrame)
    → AllQueues f.received_queues
    → AllQueues (submit_received f frame).0.received_queues
unfolding submit_received
submit_received-AllQueues f frame v =
    let queue = queue_at (key_of frame) f.received_queues in
    let kept = note_order_queues f (key_of frame) in
    elim (Bool-cases (refuses_frame f frame)) [
      | inl refused ↦ rw refused v
      | inr fine ↦ elim (Option-cases (insert_frame frame (same_stream frame queue))) [
        | inl held ↦ rw (fine, held, kept) v
        | inr (grown, here) ↦
            let old =
              same_stream-Rising frame queue (queue_at-Tidy (key_of frame) f.received_queues v).1 in
            let (rising, size) =
              insert_frame-Rising frame (same_stream frame queue) {grown = grown} here old in
            rw (fine, here, kept)
              (put_queue-AllQueues (key_of frame) (trim grown) f.received_queues v
                (trim-IsQueue grown (omega (arith, size)) rising))
      ]
    ]

take_from-AllQueues :
    (f : Flow) (index : ℕ) (key : ReceivedStreamKey) (frame : ReceivedFrame)
    (rest : List ReceivedFrame)
    → AllQueues f.received_queues
    → Tidy (frame ∷ rest)
    → AllQueues (take_from f index key rest).received_queues
unfolding take_from
take_from-AllQueues f index key frame [] v h = drop_queue-AllQueues key f.received_queues v
take_from-AllQueues f index key frame (q ∷ rest) v h =
    put_queue-AllQueues key (q ∷ rest) f.received_queues v (omega arith, omega (arith, h.0), h.1.1)

pub List-cases :
    (qs : List ReceivedFrame)
    → (qs ≡ []) ⊎ ((q : ReceivedFrame) × (rest : List ReceivedFrame) × (qs ≡ q ∷ rest))
List-cases [] = inl refl
List-cases (q ∷ rest) = inr (q, rest, refl)

pub scan_order-AllQueues :
    (f : Flow) (rounds offset : ℕ) {f' : Flow} {frame : ReceivedFrame}
    → AllQueues f.received_queues
    → scan_order f rounds offset ≡ some (f', frame)
    → AllQueues f'.received_queues
unfolding scan_order
scan_order-AllQueues f zero offset v e = cc
scan_order-AllQueues f (suc rounds) offset {f'} {frame} v e =
    let index : ℕ = (f.received_next + offset) % length f.received_order in
    let key = get_or f.received_order index no_key in
    elim (List-cases (queue_at key f.received_queues)) [
      | inl empty ↦
          scan_order-AllQueues f rounds (offset + 1) {f' = f'} {frame = frame} v
            (rw (empty, scan_order) at e)
      | inr (q, rest, here) ↦
          let after : take_from f index key rest ≡ f' = ground (arith, here) in
          subst (λ t. AllQueues t.received_queues) after
            (take_from-AllQueues f index key q rest v
              (subst Tidy here (queue_at-Tidy key f.received_queues v)))
    ]
