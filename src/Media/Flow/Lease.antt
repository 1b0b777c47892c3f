-- ===== src/Media/Flow/Lease.antt =====
-- What holds of a flow after any calls: its queues, and the lease of its send generation.
use bork.Base.{
  ℕ, ◌+◌, ◌%◌, ◌^◌, ◌≡◌, ◌<◌, refl, sym, ap, ◌∙◌, inl, inr, true, false, ◌==◌, ◌=/=◌, ◌||◌, List,
  [], ◌∷◌, length, list_eq, get_or, subst, zero, suc, ◌≢◌, none, some, Bool-cases, Option-cases,
  arith,
}
use bork.Media.Flow.{
  ReceivedFrame, ReceivedStreamKey, no_key, SendFrame, Flow, new_flow, submit_received,
  insert_frame, same_stream, queue_at, key_of, note_order, take_from, scan_order, take_received,
  set_screen_audio_source, submit_send, consume_send, advance_send_generation, invalidate_send,
  reset, set_send_invalidator,
}
use bork.Media.Flow.Queues.{
  List-cases, AllQueues, submit_received-AllQueues, scan_order-AllQueues, drop_queue-AllQueues,
}
use bork.Media.Flow.Run.{
  Call, submits_received, takes_received, consumes_send, invalidates_send, resets, submits_send,
  sets_screen_audio_source, sets_send_invalidator, step, run,
}

step-AllQueues :
    (f : Flow) (c : Call) → AllQueues f.received_queues → AllQueues (step f c).received_queues
unfolding step submit_send consume_send invalidate_send reset set_send_invalidator take_received
    set_screen_audio_source
step-AllQueues f (submits_received frame) v = submit_received-AllQueues f frame v
step-AllQueues f takes_received v = elim (Option-cases (take_received f)) [
  | inl empty ↦ rw (empty, step) v
  | inr ((f', frame), here) ↦
      rw (here, step)
        (scan_order-AllQueues f (length f.received_order) 0 {f' = f'} {frame = frame} v here)
]
step-AllQueues f consumes_send v = ground (arith, v)
step-AllQueues f invalidates_send v = v
step-AllQueues f resets v = tt
step-AllQueues f (submits_send frame) v = ground (arith, v)
step-AllQueues f (sets_screen_audio_source source_id) v =
    elim (Bool-cases (list_eq f.screen_audio_source_id source_id)) [
      | inl same ↦ rw same v
      | inr other ↦ rw other (drop_queue-AllQueues _ f.received_queues v)
    ]
step-AllQueues f (sets_send_invalidator given) v = v

run_from-AllQueues :
    (f : Flow) (cs : List Call) → AllQueues f.received_queues → AllQueues (run f cs).received_queues
unfolding run
run_from-AllQueues f [] v = v
run_from-AllQueues f (c ∷ cs) v = run_from-AllQueues (step f c) cs (step-AllQueues f c v)

-- After any calls on a new flow, every received queue holds one or two frames, whose sequences rise.
pub run-AllQueues : (cs : List Call) → AllQueues (run new_flow cs).received_queues
unfolding new_flow
run-AllQueues cs = run_from-AllQueues new_flow cs tt

-- The generation is a positive uint64, and a frame that is held to be sent is of this generation.
pub record IsLeased (f : Flow) : Type 0 where
  pub positive : 0 < f.send_generation
  pub fits : f.send_generation < 2 ^ 64
  pub current : f.has_send ≡ true → f.send.send_generation ≡ f.send_generation

-- Nothing of the sending side changes.
abbrev SameSend : Flow → Flow → Type 0
SameSend f g =
    (g.send ≡ f.send) × (g.has_send ≡ f.has_send) × (g.send_generation ≡ f.send_generation)

note_order-send : (f : Flow) (frame : ReceivedFrame) → SameSend f (note_order f (key_of frame))
unfolding note_order
note_order-send f frame = ground arith

submit_received-send : (f : Flow) (frame : ReceivedFrame) → SameSend f (submit_received f frame).0
unfolding submit_received
submit_received-send f frame = ground (
  arith,
  note_order-send f frame,
  Option-cases (insert_frame frame (same_stream frame (queue_at (key_of frame) f.received_queues))),
)

IsLeased-same : {f g : Flow} → SameSend f g → IsLeased f → IsLeased g
IsLeased-same {f} {g} e v = record {
  positive = omega (arith, e.2, v.positive);
  fits = omega (arith, e.2, v.fits);
  current = λ h. ap (λ t. t.send_generation) e.0 ∙ v.current (sym e.1 ∙ h) ∙ sym e.2;
}

take_from-send :
    (f : Flow) (index : ℕ) (key : ReceivedStreamKey) (rest : List ReceivedFrame)
    → SameSend f (take_from f index key rest)
unfolding take_from
take_from-send f index key [] = (refl, refl, refl)
take_from-send f index key (q ∷ rest) = (refl, refl, refl)

scan_order-send :
    (f : Flow) (rounds offset : ℕ) {f' : Flow} {frame : ReceivedFrame}
    → scan_order f rounds offset ≡ some (f', frame)
    → SameSend f f'
unfolding scan_order
scan_order-send f zero offset e = cc
scan_order-send f (suc rounds) offset {f'} {frame} e =
    let index : ℕ = (f.received_next + offset) % length f.received_order in
    let key = get_or f.received_order index no_key in
    elim (List-cases (queue_at key f.received_queues)) [
      | inl empty ↦
          scan_order-send f rounds (offset + 1) {f' = f'} {frame = frame}
            (rw (empty, scan_order) at e)
      | inr (q, rest, here) ↦
          let after : take_from f index key rest ≡ f' = ground (arith, here) in
          subst (SameSend f) after (take_from-send f index key rest)
    ]

advance_lem :
    (g : ℕ)
    → g < 2 ^ 64
    → (0 < advance_send_generation g)
      × (advance_send_generation g < 2 ^ 64)
      × (advance_send_generation g ≢ g)
unfolding advance_send_generation
advance_lem g h = ground (arith)

step-IsLeased : (f : Flow) (c : Call) → IsLeased f → IsLeased (step f c)
unfolding step submit_send consume_send invalidate_send reset set_send_invalidator take_received
    set_screen_audio_source
step-IsLeased f (submits_received frame) v = IsLeased-same (submit_received-send f frame) v
step-IsLeased f takes_received v = elim (Option-cases (take_received f)) [
  | inl empty ↦ rw (empty, step) v
  | inr ((f', frame), here) ↦
      rw (here, step)
        (IsLeased-same
          (scan_order-send f (length f.received_order) 0 {f' = f'} {frame = frame} here) v)
]
step-IsLeased f consumes_send v = elim (Bool-cases f.has_send) [
  | inl held ↦ rw held (record { positive = v.positive; fits = v.fits; current = λ h. cc })
  | inr idle ↦
      let same : step f consumes_send ≡ f = ground (arith, idle) in subst IsLeased (sym same) v
]
step-IsLeased f invalidates_send v =
    let (low, high, other) = advance_lem f.send_generation v.fits in
    record { positive = low; fits = high; current = λ h. cc }
step-IsLeased f resets v =
    let (low, high, other) = advance_lem f.send_generation v.fits in
    record { positive = low; fits = high; current = λ h. cc }
step-IsLeased f (submits_send frame) v =
    elim (Bool-cases (length frame.payload == 0 || frame.send_generation =/= f.send_generation)) [
      | inl refused ↦
          let same : step f (submits_send frame) ≡ f = ground (arith, refused) in
          subst IsLeased (sym same) v
      | inr fine ↦
          let taken : step f (submits_send frame)
              ≡ record f { send = frame; has_send = true; send_ready = true } =
            ground (arith, fine) in
          subst IsLeased (sym taken)
            (record { positive = v.positive; fits = v.fits; current = λ h. ground (arith, fine) })
    ]
step-IsLeased f (sets_screen_audio_source source_id) v =
    elim (Bool-cases (list_eq f.screen_audio_source_id source_id)) [
      | inl same ↦ rw same v
      | inr other ↦ rw other (IsLeased-same {f = f} (refl, refl, refl) v)
    ]
step-IsLeased f (sets_send_invalidator given) v = IsLeased-same {f = f} (refl, refl, refl) v

run_from-IsLeased : (f : Flow) (cs : List Call) → IsLeased f → IsLeased (run f cs)
unfolding run
run_from-IsLeased f [] v = v
run_from-IsLeased f (c ∷ cs) v = run_from-IsLeased (step f c) cs (step-IsLeased f c v)

-- After any calls on a new flow, the send generation is a positive uint64, and a frame that is held to
-- be sent is of this generation.
pub run-IsLeased : (cs : List Call) → IsLeased (run new_flow cs)
unfolding new_flow
run-IsLeased cs =
    run_from-IsLeased new_flow cs
      (record { positive = omega arith; fits = omega arith; current = λ h. cc })

-- Once the send side is invalidated, after any calls before it, nothing is held to be sent, and a frame
-- of the generation before is refused and changes nothing.
pub submit_send-invalidate :
    (cs : List Call) (frame : SendFrame)
    → frame.send_generation ≡ (run new_flow cs).send_generation
    → (consume_send (invalidate_send (run new_flow cs)).0 ≡ none)
      × (submit_send (invalidate_send (run new_flow cs)).0 frame
          ≡ ((invalidate_send (run new_flow cs)).0, false))
unfolding consume_send submit_send invalidate_send
submit_send-invalidate cs frame e =
    let v = run-IsLeased cs in
    let (low, high, other) = advance_lem (run new_flow cs).send_generation v.fits in
    (refl, ground (arith, e, other))
