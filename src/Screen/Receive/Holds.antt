-- ===== src/Screen/Receive/Holds.antt =====
-- A property of every assembly that the receivers hold, through every operation on them.
use bork.Base.{
  ℕ, zero, suc, ◌+◌, ◌-◌, ◌≡◌, ◌≤◌, inl, inr, Bool, true, false, ◌&&◌, ◌||◌, ltb, leb, ◌==◌, ◌=/=◌,
  List, [], ◌∷◌, keep, map, length, none, Bool-cases, Option-cases, arith,
}
use bork.Base.Map.{lookup, value_or, Every, Every-lookup, Every-insert, Every-delete}
use bork.Screen.Fragments.{DecodedFragment}
use bork.Screen.Receive.{
  VideoAssembly, ReceiveState, Receivers, new_state, state_at, put_state, receive_state,
  remove_chunk, remove_chunks, remove_where, remove_assemblies, drop_stream, remove_streams,
  remove_for_sender, expired_ids, expire_streams, expire_chunks, is_over, oldest_in, evict,
  make_room, assembly_count, max_retained_bytes, chunk_ids,
}
use bork.Screen.Receive.Accept.{
  is_stale, note_newest, new_video_assembly, put_assembly, ensure_assembly, is_other, grown_video,
  complete, keep_fragment, admit, accept_fragment,
}

module _ (P : ℕ → ℕ → VideoAssembly → Type 0) where
  abbrev pub Holds : Receivers → Type 0
  Holds c = Every (λ key s. Every (P key) s.assemblies) c.states

  pub state_at-Holds :
      (c : Receivers) (key : ℕ) → Holds c → Every (P key) (state_at c key).assemblies
  state_at-Holds c key v = elim (Option-cases (lookup key c.states)) [
    | inl absent ↦ rw absent tt
    | inr (s, held) ↦
        rw held (Every-lookup (λ k s'. Every (P k) s'.assemblies) key c.states s v held)
  ]

  pub put_state-Holds :
      (c : Receivers) (key : ℕ) (s : ReceiveState)
      → Every (P key) s.assemblies
      → Holds c
      → Holds (put_state c key s)
  put_state-Holds c key s h v = Every-insert (λ k s'. Every (P k) s'.assemblies) key s c.states v h

  pub receive_state-Holds : (c : Receivers) (key : ℕ) → Holds c → Holds (receive_state c key)
  unfolding receive_state
  receive_state-Holds c key v = elim (Option-cases (lookup key c.states)) [
    | inl absent ↦ rw (absent, receive_state) (put_state-Holds c key new_state tt v)
    | inr (s, held) ↦ rw (held, receive_state) v
  ]

  pub remove_chunk-Holds : (c : Receivers) (key i : ℕ) → Holds c → Holds (remove_chunk c key i)
  unfolding remove_chunk
  remove_chunk-Holds c key i v = elim (Option-cases (lookup i (state_at c key).assemblies)) [
    | inl absent ↦ rw (absent, remove_chunk) v
    | inr (a, held) ↦
        rw (held, remove_chunk)
          (put_state-Holds c key _
            (Every-delete (P key) i (state_at c key).assemblies (state_at-Holds c key v)) v)
  ]

  pub remove_chunks-Holds :
      (c : Receivers) (key : ℕ) (is : List ℕ) → Holds c → Holds (remove_chunks c key is)
  unfolding remove_chunks
  remove_chunks-Holds c key [] v = v
  remove_chunks-Holds c key (i ∷ is) v =
      remove_chunks-Holds (remove_chunk c key i) key is (remove_chunk-Holds c key i v)

  pub remove_where-Holds :
      (test : ℕ → Bool) (c : Receivers) (key : ℕ) → Holds c → Holds (remove_where test c key)
  unfolding remove_where
  remove_where-Holds test c key v =
      remove_chunks-Holds c key (keep test (chunk_ids (state_at c key))) v

  remove_assemblies-Holds : (c : Receivers) (key : ℕ) → Holds c → Holds (remove_assemblies c key)
  unfolding remove_assemblies
  remove_assemblies-Holds c key v = elim (Option-cases (lookup key c.states)) [
    | inl absent ↦ rw (absent, remove_assemblies) v
    | inr (s, held) ↦
        rw (held, remove_assemblies)
          (put_state-Holds (remove_where (λ i. true) c key) key _ tt
            (remove_where-Holds (λ i. true) c key v))
  ]

  pub drop_stream-Holds : (c : Receivers) (key : ℕ) → Holds c → Holds (drop_stream c key)
  unfolding drop_stream
  drop_stream-Holds c key v =
      Every-delete (λ k s. Every (P k) s.assemblies) key (remove_assemblies c key).states
        (remove_assemblies-Holds c key v)

  remove_streams-Holds :
      (of_sender : ℕ → Bool) (c : Receivers) (keys : List ℕ)
      → Holds c
      → Holds (remove_streams of_sender c keys)
  unfolding remove_streams
  remove_streams-Holds of_sender c [] v = v
  remove_streams-Holds of_sender c (key ∷ keys) v = elim (Bool-cases (of_sender key)) [
    | inl theirs ↦
        rw (theirs, remove_streams)
          (remove_streams-Holds of_sender (drop_stream c key) keys (drop_stream-Holds c key v))
    | inr other ↦ rw (other, remove_streams) (remove_streams-Holds of_sender c keys v)
  ]

  pub remove_for_sender-Holds :
      (of_sender : ℕ → Bool) (c : Receivers) → Holds c → Holds (remove_for_sender of_sender c)
  unfolding remove_for_sender
  remove_for_sender-Holds of_sender c v =
      remove_streams-Holds of_sender c (map (λ e. e.0) c.states) v

  expire_streams-Holds :
      (now : ℕ) (c : Receivers) (keys : List ℕ) → Holds c → Holds (expire_streams now c keys)
  unfolding expire_streams
  expire_streams-Holds now c [] v = v
  expire_streams-Holds now c (key ∷ keys) v =
      let ids = expired_ids now (state_at c key).assemblies in
      expire_streams-Holds now (remove_chunks c key ids) keys (remove_chunks-Holds c key ids v)

  pub expire_chunks-Holds : (now : ℕ) (c : Receivers) → Holds c → Holds (expire_chunks now c)
  unfolding expire_chunks
  expire_chunks-Holds now c v = expire_streams-Holds now c (map (λ e. e.0) c.states) v

  evict-Holds :
      (rounds : ℕ) (c : Receivers) (key i cost : ℕ) → Holds c → Holds (evict rounds c key i cost).0
  unfolding evict
  evict-Holds zero c key i cost v = v
  evict-Holds (suc rounds) c key i cost v = elim (Option-cases (oldest_in key i none c.states)) [
    | inl alone ↦ rw (alone, evict) v
    | inr (o, found) ↦ elim (Bool-cases (leb cost (max_retained_bytes - c.retained_bytes))) [
      | inl room ↦ rw (found, evict, room) v
      | inr full ↦
          rw (found, evict, full)
            (evict-Holds rounds (remove_chunk c o.key o.chunk_id) key i cost
              (remove_chunk-Holds c o.key o.chunk_id v))
    ]
  ]

  pub make_room-Holds :
      (c : Receivers) (key i cost : ℕ) → Holds c → Holds (make_room c key i cost).0
  unfolding make_room
  make_room-Holds c key i cost v = elim (Bool-cases (cost == 0 || ltb max_retained_bytes cost)) [
    | inl never ↦ rw (never, make_room) v
    | inr may ↦ rw (may, make_room) (evict-Holds (assembly_count c) c key i cost v)
  ]

  pub note_newest-Holds : (c : Receivers) (key i : ℕ) → Holds c → Holds (note_newest c key i)
  unfolding note_newest
  note_newest-Holds c key i v = elim (Bool-cases (ltb (state_at c key).newest_chunk_id i)) [
    | inl newer ↦
        rw (newer, note_newest)
          (remove_where-Holds (λ j. ltb j i && ltb 1 (i - j))
            (put_state c key (record (state_at c key) { newest_chunk_id = i })) key
            (put_state-Holds c key _ (state_at-Holds c key v) v))
    | inr older ↦ rw (older, note_newest) v
  ]

  put_assembly-Holds :
      (c : Receivers) (key i : ℕ) (a : VideoAssembly)
      → P key i a
      → Holds c
      → Holds (put_assembly c key i a)
  put_assembly-Holds c key i a p v =
      put_state-Holds c key _
        (Every-insert (P key) i a (state_at c key).assemblies (state_at-Holds c key v) p) v

  pub ensure_assembly-Holds :
      (c : Receivers) (key i : ℕ) (f : DecodedFragment) (now : ℕ)
      → P key i (new_video_assembly i f now)
      → Holds c
      → Holds (ensure_assembly c key i f now)
  unfolding ensure_assembly
  ensure_assembly-Holds c key i f now p v =
      elim (Option-cases (lookup i (state_at c key).assemblies)) [
        | inl absent ↦
            rw (absent, ensure_assembly)
              (put_assembly-Holds c key i (new_video_assembly i f now) p v)
        | inr (a, held) ↦ rw (held, ensure_assembly) v
      ]

  keep_fragment-Holds :
      (c : Receivers) (key i : ℕ) (a : VideoAssembly) (f : DecodedFragment)
      → P key i (grown_video a f)
      → Holds c
      → Holds (keep_fragment c key i a f).0
  unfolding keep_fragment complete
  keep_fragment-Holds c key i a f p v =
      let put : Receivers = record (put_assembly c key i (grown_video a f)) {
        retained_bytes = c.retained_bytes + length f.bytes;
      } in
      let put_holds : Holds put = put_assembly-Holds c key i (grown_video a f) p v in
      elim (Bool-cases (length (grown_video a f).fragments =/= a.fragment_count)) [
        | inl part ↦ rw (part, keep_fragment) put_holds
        | inr whole ↦
            rw (whole, keep_fragment)
              (remove_where-Holds (λ j. leb j i)
                (put_state put key (record (state_at put key) { delivered_chunk_id = i })) key
                (put_state-Holds put key _ (state_at-Holds put key put_holds) put_holds))
      ]

  -- What a fragment that may be kept in an assembly has shown.
  abbrev pub Grows : ℕ → ℕ → DecodedFragment → Type 0
  Grows key i f =
      (a : VideoAssembly)
      → P key i a
      → is_other a f ≡ false
      → lookup f.index a.fragments ≡ none
      → a.video_bytes + length f.bytes ≤ f.total_size
      → P key i (grown_video a f)

  admit-Holds :
      (c : Receivers) (key i : ℕ) (a : VideoAssembly) (f : DecodedFragment) (now : ℕ)
      → P key i a
      → Grows key i f
      → Holds c
      → Holds (admit c key i a f now).0
  unfolding admit
  admit-Holds c key i a f now p g v = elim (Bool-cases (is_over now a || is_other a f)) [
    | inl gone ↦ rw (gone, admit) (remove_chunk-Holds c key i v)
    | inr same ↦ elim (Option-cases (lookup f.index a.fragments)) [
      | inr (b, held) ↦ rw (same, admit, held) v
      | inl absent ↦ elim (Bool-cases (ltb f.total_size (a.video_bytes + length f.bytes))) [
        | inl long ↦ rw (same, admit, absent, long) (remove_chunk-Holds c key i v)
        | inr fits ↦
            let made : Receivers × Bool = make_room c key i (length f.bytes) in
            let made_holds = make_room-Holds c key i (length f.bytes) v in
            let bigger = g a p (ground (arith, same)) absent (ground (arith, fits)) in
            rw (same, admit, absent, fits)
              (elim (Bool-cases (
                made.1 && value_or (λ x. true) false (lookup i (state_at made.0 key).assemblies))) [
                  | inl room ↦ rw room (keep_fragment-Holds made.0 key i a f bigger made_holds)
                  | inr full ↦ rw full made_holds
                ])
      ]
    ]
  ]

  -- A property of assemblies holds of all after a fragment when it holds of one that is new and of one
  -- in which the fragment is kept.
  pub accept_fragment-Holds :
      (c : Receivers) (key i : ℕ) (f : DecodedFragment) (now : ℕ)
      → P key i (new_video_assembly i f now)
      → Grows key i f
      → Holds c
      → Holds (accept_fragment c key i f now).0
  unfolding accept_fragment
  accept_fragment-Holds c key i f now p g v =
      let c1 : Receivers = receive_state c key in
      let c2 : Receivers = ensure_assembly (note_newest c1 key i) key i f now in
      let v1 = receive_state-Holds c key v in
      let v2 =
        ensure_assembly-Holds (note_newest c1 key i) key i f now p
          (note_newest-Holds c1 key i v1) in
      elim (Bool-cases (is_stale (state_at c1 key) i)) [
        | inl stale ↦ rw stale v1
        | inr fresh ↦ elim (Option-cases (lookup i (state_at c2 key).assemblies)) [
          | inl absent ↦ rw (fresh, absent) v2
          | inr (a, held) ↦
              rw (fresh, held)
                (admit-Holds c2 key i a f now
                  (Every-lookup (P key) i (state_at c2 key).assemblies a (state_at-Holds c2 key v2)
                    held)
                  g v2)
        ]
      ]
