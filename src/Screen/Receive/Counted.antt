-- ===== src/Screen/Receive/Counted.antt =====
-- The two counters of retained bytes agree, whatever a client does.
use bork.Base.{
  ℕ, ◌+◌, ◌-◌, ◌≡◌, ◌≤◌, refl, sym, ap, ◌∙◌, inl, inr, Bool, true, false, ◌==◌, ◌=/=◌, ◌&&◌, ◌||◌,
  ltb, leb, List, [], ◌∷◌, length, Option, some, Bool-cases, Option-cases, and_split, arith,
}
use bork.Base.Map.{lookup, insert, value_or, total_values, total-insert}
use bork.Screen.Fragments.{DecodedFragment}
use bork.Screen.Receive.{
  VideoAssembly, ReceiveState, Receivers, new_state, state_at, put_state, receive_state, make_room,
  max_retained_bytes, is_over, no_receivers,
}
use bork.Screen.Receive.Accept.{
  is_stale, note_newest, new_video_assembly, put_assembly, ensure_assembly, is_other, grown_video,
  complete, keep_fragment, admit, accept_fragment,
}
use bork.Screen.Receive.Forward.{queue_forward, flush_forward}
use bork.Screen.Receive.Run.{Action, arrives, expires, leaves, drops, forwards, flushes, act, run}
use bork.Screen.Receive.Retained.{
  IsTallied, retained, stream_bytes, total-put, put_state-IsTallied, receive_state-IsTallied,
  remove_chunk-IsTallied, remove_where-IsTallied, drop_stream-IsTallied,
  remove_for_sender-IsTallied, expire_chunks-IsTallied,
}
use bork.Screen.Receive.Room.{assembly_at, make_room-Roomy}

note_newest-IsTallied : (c : Receivers) (key i : ℕ) → IsTallied c → IsTallied (note_newest c key i)
unfolding note_newest
note_newest-IsTallied c key i v = elim (Bool-cases (ltb (state_at c key).newest_chunk_id i)) [
  | inl newer ↦
      rw (newer, note_newest)
        (remove_where-IsTallied (λ j. ltb j i && ltb 1 (i - j))
          (put_state c key (record (state_at c key) { newest_chunk_id = i })) key
          (put_state-IsTallied c key _ refl v))
  | inr older ↦ rw (older, note_newest) v
]

-- What a write of an assembly does to the total.
total-put_assembly :
    (c : Receivers) (key i : ℕ) (a : VideoAssembly)
    → total_values stream_bytes (put_assembly c key i a).states
        + value_or retained 0 (assembly_at c key i)
      ≡ total_values stream_bytes c.states + a.retained_bytes
total-put_assembly c key i a =
    let s : ReceiveState = state_at c key in
    omega (
      arith,
      total-put c key (record s { assemblies = insert i a s.assemblies }),
      total-insert retained i a s.assemblies,
    )

ensure_assembly-IsTallied :
    (c : Receivers) (key i : ℕ) (f : DecodedFragment) (now : ℕ)
    → IsTallied c
    → IsTallied (ensure_assembly c key i f now)
unfolding ensure_assembly
ensure_assembly-IsTallied c key i f now v = elim (Option-cases (assembly_at c key i)) [
  | inl absent ↦
      rw (absent, ensure_assembly)
        (record {
          exact = omega (
            arith,
            v.exact,
            total-put_assembly c key i (new_video_assembly i f now),
            ap (value_or retained 0) absent,
          );
          limit = v.limit;
        })
  | inr (a, held) ↦ rw (held, ensure_assembly) v
]

-- The writes for a fragment for which there is room.
keep_fragment-IsTallied :
    (c : Receivers) (key i : ℕ) (a : VideoAssembly) (f : DecodedFragment)
    → assembly_at c key i ≡ some a
    → length f.bytes ≤ max_retained_bytes - c.retained_bytes
    → IsTallied c
    → IsTallied (keep_fragment c key i a f).0
unfolding keep_fragment complete
keep_fragment-IsTallied c key i a f held room v =
    let put : Receivers = record (put_assembly c key i (grown_video a f)) {
      retained_bytes = c.retained_bytes + length f.bytes;
    } in
    let counted : IsTallied put = record {
      exact = omega (
        arith,
        v.exact,
        total-put_assembly c key i (grown_video a f),
        ap (value_or retained 0) held,
      );
      limit = omega (arith, v.limit, room);
    } in
    elim (Bool-cases (length (grown_video a f).fragments =/= a.fragment_count)) [
      | inl part ↦ rw (part, keep_fragment) counted
      | inr whole ↦
          rw (whole, keep_fragment)
            (remove_where-IsTallied (λ j. leb j i)
              (put_state put key (record (state_at put key) { delivered_chunk_id = i })) key
              (put_state-IsTallied put key _ refl counted))
    ]

admit-IsTallied :
    (c : Receivers) (key i : ℕ) (a : VideoAssembly) (f : DecodedFragment) (now : ℕ)
    → assembly_at c key i ≡ some a
    → IsTallied c
    → IsTallied (admit c key i a f now).0
unfolding admit
admit-IsTallied c key i a f now here v = elim (Bool-cases (is_over now a || is_other a f)) [
  | inl gone ↦ rw (gone, admit) (remove_chunk-IsTallied c key i v)
  | inr same ↦ elim (Option-cases (lookup f.index a.fragments)) [
    | inr (b, held) ↦ rw (same, admit, held) v
    | inl absent ↦ elim (Bool-cases (ltb f.total_size (a.video_bytes + length f.bytes))) [
      | inl long ↦ rw (same, admit, absent, long) (remove_chunk-IsTallied c key i v)
      | inr fits ↦
          let made : Receivers × Bool = make_room c key i (length f.bytes) in
          let roomy = make_room-Roomy c key i (length f.bytes) v in
          rw (same, admit, absent, fits)
            (elim (Bool-cases (made.1 && value_or (λ x. true) false (assembly_at made.0 key i))) [
              | inl room ↦ rw room (
                  keep_fragment-IsTallied made.0 key i a f (roomy.same ∙ here)
                    (roomy.room (and_split made.1 _ room).0) roomy.counted)
              | inr full ↦ rw full roomy.counted
            ])
    ]
  ]
]

accept_fragment-IsTallied :
    (c : Receivers) (key i : ℕ) (f : DecodedFragment) (now : ℕ)
    → IsTallied c
    → IsTallied (accept_fragment c key i f now).0
unfolding accept_fragment
accept_fragment-IsTallied c key i f now v =
    let c1 : Receivers = receive_state c key in
    let c2 : Receivers = ensure_assembly (note_newest c1 key i) key i f now in
    let v1 = receive_state-IsTallied c key v in
    let v2 =
      ensure_assembly-IsTallied (note_newest c1 key i) key i f now
        (note_newest-IsTallied c1 key i v1) in
    elim (Bool-cases (is_stale (state_at c1 key) i)) [
      | inl stale ↦ rw stale v1
      | inr fresh ↦ elim (Option-cases (assembly_at c2 key i)) [
        | inl absent ↦ rw (fresh, absent) v2
        | inr (a, held) ↦ rw (fresh, held) (admit-IsTallied c2 key i a f now held v2)
      ]
    ]

flush_forward-IsTallied :
    (listeners : Option (List ℕ)) (c : Receivers) (key : ℕ)
    → IsTallied c
    → IsTallied (flush_forward listeners c key).0
unfolding flush_forward
flush_forward-IsTallied listeners c key v = elim (Option-cases (lookup key c.states)) [
  | inl absent ↦ rw (absent, flush_forward) v
  | inr (s, held) ↦ elim (Bool-cases (length s.forward_packets == 0)) [
    | inl none_waits ↦ rw (held, flush_forward, none_waits) v
    | inr waits ↦
        rw (held, flush_forward, waits)
          (put_state-IsTallied c key _
            (ap (λ t. stream_bytes (value_or (λ x. x) new_state t)) (sym held)) v)
  ]
]

act-IsTallied : (c : Receivers) (x : Action) → IsTallied c → IsTallied (act c x)
unfolding act queue_forward
act-IsTallied c (arrives key i f now) v = accept_fragment-IsTallied c key i f now v
act-IsTallied c (expires now) v = expire_chunks-IsTallied now c v
act-IsTallied c (leaves of_sender) v = remove_for_sender-IsTallied of_sender c v
act-IsTallied c (drops key) v = drop_stream-IsTallied c key v
act-IsTallied c (forwards key packet deadline) v =
    put_state-IsTallied (receive_state c key) key _ refl (receive_state-IsTallied c key v)
act-IsTallied c (flushes listeners key) v = flush_forward-IsTallied listeners c key v

run_from-IsTallied : (c : Receivers) (xs : List Action) → IsTallied c → IsTallied (run c xs)
unfolding run
run_from-IsTallied c [] v = v
run_from-IsTallied c (x ∷ xs) v = run_from-IsTallied (act c x) xs (act-IsTallied c x v)

-- The two counters agree after any actions on receivers that start empty.
pub run-IsTallied : (xs : List Action) → IsTallied (run no_receivers xs)
run-IsTallied xs = run_from-IsTallied no_receivers xs (record { exact = refl; limit = omega arith })
