-- ===== src/Screen/Receive/Answers.antt =====
-- What a completed chunk says of the assembly that it was made from.
use bork.Base.{
  ℕ, ◌+◌, ◌≡◌, inl, inr, Bool, true, false, ◌&&◌, ◌||◌, ltb, ◌=/=◌, length, some, Bool-cases,
  Option-cases, arith,
}
use bork.Base.Map.{lookup, value_or, Every-lookup}
use bork.Screen.Fragments.{DecodedFragment}
use bork.Screen.Receive.{
  VideoAssembly, CompletedChunk, Receivers, state_at, receive_state, is_over, make_room,
}
use bork.Screen.Receive.Accept.{
  is_stale, note_newest, new_video_assembly, ensure_assembly, is_other, grown_video, put_assembly,
  parts_from, complete, keep_fragment, admit, accept_fragment,
}
use bork.Screen.Receive.Holds.{
  Holds, state_at-Holds, receive_state-Holds, note_newest-Holds, ensure_assembly-Holds, Grows,
}

-- The chunk is made from the assembly.
pub record MadeFrom (a : VideoAssembly) (d : CompletedChunk) : Type 0 where
  pub chunk_id : d.chunk_id ≡ a.chunk_id
  pub metadata : d.metadata ≡ a.metadata
  pub bytes : d.bytes ≡ parts_from a.fragment_count 0 a.fragments
  pub size : length d.bytes ≡ a.total_size

complete-MadeFrom :
    (c : Receivers) (key i : ℕ) (a : VideoAssembly) (d : CompletedChunk)
    → (complete c key i a).1 ≡ some d
    → MadeFrom a d
unfolding complete
complete-MadeFrom c key i a d e =
    elim (Bool-cases (length (parts_from a.fragment_count 0 a.fragments) =/= a.total_size)) [
      | inl odd ↦ absurd (ground (arith, odd))
      | inr fits ↦ record {
        chunk_id = ground (arith, fits);
        metadata = ground (arith, fits);
        bytes = ground (arith, fits);
        size = ground (arith, fits);
      }
    ]

keep_fragment-MadeFrom :
    (c : Receivers) (key i : ℕ) (a : VideoAssembly) (f : DecodedFragment) (d : CompletedChunk)
    → (keep_fragment c key i a f).1 ≡ some d
    → MadeFrom (grown_video a f) d
unfolding keep_fragment
keep_fragment-MadeFrom c key i a f d e =
    elim (Bool-cases (length (grown_video a f).fragments =/= a.fragment_count)) [
      | inl part ↦ absurd (ground (arith, part))
      | inr whole ↦
          let put : Receivers = record (put_assembly c key i (grown_video a f)) {
            retained_bytes = c.retained_bytes + length f.bytes;
          } in
          complete-MadeFrom put key i (grown_video a f) d (ground (arith, whole))
    ]

module _ (P : ℕ → ℕ → VideoAssembly → Type 0) where
  -- There is an assembly of which the property holds, and the chunk is made from it.
  abbrev pub Made : ℕ → ℕ → CompletedChunk → Type 0
  Made key i d = (a : VideoAssembly) × P key i a × MadeFrom a d

  admit-Made :
      (c : Receivers) (key i : ℕ) (a : VideoAssembly) (f : DecodedFragment) (now : ℕ)
      (d : CompletedChunk)
      → P key i a
      → Grows P key i f
      → (admit c key i a f now).1 ≡ some d
      → Made key i d
  unfolding admit
  admit-Made c key i a f now d p g e = elim (Bool-cases (is_over now a || is_other a f)) [
    | inl gone ↦ absurd (ground (arith, gone))
    | inr same ↦ elim (Option-cases (lookup f.index a.fragments)) [
      | inr (b, held) ↦ absurd (ground (arith, same, held))
      | inl absent ↦ elim (Bool-cases (ltb f.total_size (a.video_bytes + length f.bytes))) [
        | inl long ↦ absurd (ground (arith, same, absent, long))
        | inr fits ↦
            let made : Receivers × Bool = make_room c key i (length f.bytes) in
            let bigger = g a p (ground (arith, same)) absent (ground (arith, fits)) in
            elim (Bool-cases
              (made.1 && value_or (λ x. true) false (lookup i (state_at made.0 key).assemblies))) [
                | inl room ↦ (
                  grown_video a f,
                  bigger,
                  keep_fragment-MadeFrom made.0 key i a f d
                      (ground (arith, same, absent, fits, room)),
                )
                | inr full ↦ absurd (ground (arith, same, absent, fits, full))
              ]
      ]
    ]
  ]

  pub accept_fragment-Made :
      (c : Receivers) (key i : ℕ) (f : DecodedFragment) (now : ℕ) (d : CompletedChunk)
      → P key i (new_video_assembly i f now)
      → Grows P key i f
      → Holds P c
      → (accept_fragment c key i f now).1 ≡ some d
      → Made key i d
  unfolding accept_fragment
  accept_fragment-Made c key i f now d p g v e =
      let c1 : Receivers = receive_state c key in
      let c2 : Receivers = ensure_assembly (note_newest c1 key i) key i f now in
      let v2 =
        ensure_assembly-Holds P (note_newest c1 key i) key i f now p
          (note_newest-Holds P c1 key i (receive_state-Holds P c key v)) in
      elim (Bool-cases (is_stale (state_at c1 key) i)) [
        | inl stale ↦ absurd (ground (arith, stale))
        | inr fresh ↦ elim (Option-cases (lookup i (state_at c2 key).assemblies)) [
          | inl absent ↦ absurd (ground (arith, fresh, absent))
          | inr (a, held) ↦
              admit-Made c2 key i a f now d
                (Every-lookup (P key) i (state_at c2 key).assemblies a (state_at-Holds P c2 key v2)
                  held)
                g (ground (arith, fresh, held))
        ]
      ]
