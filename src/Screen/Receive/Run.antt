-- ===== src/Screen/Receive/Run.antt =====
-- Everything that a client does to its receivers, in any order.
use bork.Base.{
  ℕ, inl, inr, Bool-cases, Option-cases, length, ◌==◌, All, Bool, List, [], ◌∷◌, Option,
}
use bork.Base.Bytes.{Bytes}
use bork.Screen.Fragments.{DecodedFragment}
use bork.Screen.Receive.{
  Receivers, receive_state, VideoAssembly, no_receivers, remove_for_sender, drop_stream,
  expire_chunks,
}
use bork.Screen.Receive.Accept.{accept_fragment, new_video_assembly}
use bork.Base.Map.{lookup, Every-lookup, Every}
use bork.Screen.Receive.Holds.{
  Holds, Grows, accept_fragment-Holds, expire_chunks-Holds, remove_for_sender-Holds,
  drop_stream-Holds, put_state-Holds, state_at-Holds, receive_state-Holds,
}
use bork.Screen.Receive.Forward.{queue_forward, flush_forward}

pub data Action : Type 0 where
  arrives : (key chunk_id : ℕ) (f : DecodedFragment) (now : ℕ) → Action
  expires : (now : ℕ) → Action
  leaves : (of_sender : ℕ → Bool) → Action
  drops : (key : ℕ) → Action
  forwards : (key : ℕ) (packet : Bytes) (deadline : ℕ) → Action
  flushes : (listeners : Option (List ℕ)) (key : ℕ) → Action

unfoldable pub act : Receivers → Action → Receivers
act c (arrives key chunk_id f now) = (accept_fragment c key chunk_id f now).0
act c (expires now) = expire_chunks now c
act c (leaves of_sender) = remove_for_sender of_sender c
act c (drops key) = drop_stream c key
act c (forwards key packet deadline) = queue_forward c key packet deadline
act c (flushes listeners key) = (flush_forward listeners c key).0

unfoldable pub run : Receivers → List Action → Receivers
unfolding act
run c [] = c
run c (x ∷ xs) = run (act c x) xs

-- A property of every assembly through a run.
module _ (P : ℕ → ℕ → VideoAssembly → Type 0) where
  -- What an action must bring: only an arrival brings anything.
  abbrev pub Allows : Action → Type 0
  Allows (arrives key i f now) = P key i (new_video_assembly i f now) × Grows P key i f
  Allows (expires now) = Unit {0}
  Allows (leaves of_sender) = Unit {0}
  Allows (drops key) = Unit {0}
  Allows (forwards key packet deadline) = Unit {0}
  Allows (flushes listeners key) = Unit {0}

  queue_forward-Holds :
      (c : Receivers) (key : ℕ) (packet : Bytes) (deadline : ℕ)
      → Holds P c
      → Holds P (queue_forward c key packet deadline)
  unfolding queue_forward
  queue_forward-Holds c key packet deadline v =
      let v' = receive_state-Holds P c key v in
      put_state-Holds P (receive_state c key) key _ (state_at-Holds P (receive_state c key) key v')
        v'

  flush_forward-Holds :
      (listeners : Option (List ℕ)) (c : Receivers) (key : ℕ)
      → Holds P c
      → Holds P (flush_forward listeners c key).0
  unfolding flush_forward
  flush_forward-Holds listeners c key v = elim (Option-cases (lookup key c.states)) [
    | inl absent ↦ rw (absent, flush_forward) v
    | inr (s, held) ↦ elim (Bool-cases (length s.forward_packets == 0)) [
      | inl none_waits ↦ rw (held, flush_forward, none_waits) v
      | inr waits ↦
          rw (held, flush_forward, waits)
            (put_state-Holds P c key _
              (Every-lookup (λ k t. Every (P k) t.assemblies) key c.states s v held) v)
    ]
  ]

  act-Holds : (c : Receivers) (x : Action) → Allows x → Holds P c → Holds P (act c x)
  unfolding act
  act-Holds c (arrives key i f now) h v = accept_fragment-Holds P c key i f now h.0 h.1 v
  act-Holds c (expires now) h v = expire_chunks-Holds P now c v
  act-Holds c (leaves of_sender) h v = remove_for_sender-Holds P of_sender c v
  act-Holds c (drops key) h v = drop_stream-Holds P c key v
  act-Holds c (forwards key packet deadline) h v = queue_forward-Holds c key packet deadline v
  act-Holds c (flushes listeners key) h v = flush_forward-Holds listeners c key v

  run_from-Holds :
      (c : Receivers) (xs : List Action) → All Allows xs → Holds P c → Holds P (run c xs)
  unfolding run
  run_from-Holds c [] h v = v
  run_from-Holds c (x ∷ xs) h v = run_from-Holds (act c x) xs h.1 (act-Holds c x h.0 v)

  pub run-Holds : (xs : List Action) → All Allows xs → Holds P (run no_receivers xs)
  run-Holds xs h = run_from-Holds no_receivers xs h tt
